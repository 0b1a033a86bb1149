-- ===== src/Tuner/Monitor.antt =====
-- The rollback monitor's choice of promotes and its verdict on one
-- (afair/agents/rollback_monitor.py). Rates are exact
-- fractions.
use afair.Prelude.{
  ℕ, ◌+◌, ◌-◌, ◌*◌, String, str_eq, Bool, true, false, not, ◌&&◌, ◌||◌, Option, none, some, List,
  [], ◌∷◌, find?, select, count, length, is_some, ltb, ◌==◌, if◌then◌else◌,
}
use afair.Tuner.State.{TunerEvent, is_promote, is_observation, has_key, changes}

abbrev pub rollback_event_window : ℕ
rollback_event_window = 50

abbrev pub degradation_threshold_pct : ℕ
degradation_threshold_pct = 10

-- Fourteen days, in microseconds.
abbrev pub rollback_stale : ℕ
rollback_stale = 14 * 86400 * 1000000

-- A promote is superseded by a later promote or rollback of the same parameter.
unfoldable pub superseded : List TunerEvent → TunerEvent → Bool
superseded rows p =
    is_some (find? (λ r. changes p.worker p.tunable r && ltb p.recorded_at r.recorded_at) rows)

-- `_active_promotes`, in the order of the table: the source reads it from the newest on.
unfoldable pub active_promotes : List TunerEvent → (now : ℕ) → List TunerEvent
active_promotes rows now =
    select
      (λ p.
        is_promote p.kind && ltb (now - rollback_stale) p.recorded_at && not (superseded rows p))
      rows

pub record Snapshot : Type 0 where
  pub useful_count : ℕ
  pub not_useful_count : ℕ
  pub sample_rows : ℕ

pub record Rate : Type 0 where
  pub numerator : ℕ
  pub denominator : ℕ

-- `_useful_rate`.
unfoldable pub useful_rate : Snapshot → Rate
useful_rate s =
    let total = s.useful_count + s.not_useful_count in
    if total == 0
    then record { numerator = 0; denominator = 1 }
    else record { numerator = s.useful_count; denominator = total }

-- `drop_pct >= DEGRADATION_THRESHOLD_PCT`, multiplied out, for the drop as a share of the whole. The
-- source rounds its floats, so that of a drop of exactly a tenth either may come out, which
-- `tenth_fires` says: of the rates 1.0 and 0.9 it is 9.999999999999998 per cent.
unfoldable pub reaches : (tenth_fires : Bool) → (drop whole : ℕ) → Bool
reaches tenth_fires drop whole =
    ltb (degradation_threshold_pct * whole) (100 * drop)
    || 100 * drop == degradation_threshold_pct * whole && tenth_fires

unfoldable pub degraded : (tenth_fires : Rate → Rate → Bool) → (baseline post : Rate) → Bool
degraded tenth_fires b p =
    if ltb 0 b.numerator
    then reaches (tenth_fires b p) (b.numerator * p.denominator - p.numerator * b.denominator)
        (b.numerator * p.denominator)
    else reaches (tenth_fires b p) (p.denominator - p.numerator) p.denominator

pub record PipelineEvent : Type 0 where
  pub stage : String
  pub recorded_at : ℕ
  pub detail : String

-- What the vault holds that the monitor reads; `like` is SQL's, with `%` around its second argument.
-- The JSON of an evidence is read by `feedback`, as the lengths of its two lists, and by
-- `baseline`. `tenth_fires` is what the rounding of floats makes of a drop of exactly a tenth.
pub record Vault : Type 0 where
  pub rows : List TunerEvent
  pub pipeline_events : List PipelineEvent
  pub event_times : List ℕ
  pub like : (detail part : String) → Bool
  pub feedback : Option String → Option (ℕ × ℕ)
  pub baseline : Option String → Snapshot
  pub tenth_fires : Rate → Rate → Bool

-- The sums of `_read_post_promote_signal`: evidence that is no JSON is passed over.
unfoldable pub sum_feedback : (Option String → Option (ℕ × ℕ)) → List TunerEvent → ℕ × ℕ
sum_feedback feedback [] = (0, 0)
sum_feedback feedback (r ∷ rows) =
    let rest = sum_feedback feedback rows in
    elim (feedback r.evidence_json) [
      | none ↦ rest
      | some (useful, not_useful) ↦ (useful + rest.0, not_useful + rest.1)
    ]

unfoldable pub read_post_promote_signal : Vault → (promoted_at : ℕ) → Snapshot
read_post_promote_signal v promoted_at =
    let rows =
      select
        (λ r.
          is_observation r.kind && has_key "recall" "feedback" r && ltb promoted_at r.recorded_at)
        v.rows in
    let sums = sum_feedback v.feedback rows in
    record { useful_count = sums.0; not_useful_count = sums.1; sample_rows = length rows }

unfoldable pub has_violation : Vault → TunerEvent → Bool
has_violation v p = is_some (
    find?
      (λ e.
        str_eq e.stage "tuner.invariant_violation"
        && ltb p.recorded_at e.recorded_at
        && (v.like e.detail p.worker || v.like e.detail p.tunable))
      v.pipeline_events)

unfoldable pub count_events_since : Vault → ℕ → ℕ
count_events_since v t = count (λ e. ltb t e) v.event_times

-- The end of `_evaluate`: the verdict on two samples.
unfoldable pub judge : (tenth_fires : Rate → Rate → Bool) → (baseline post : Snapshot) → Bool
judge tenth_fires baseline post =
    if baseline.sample_rows == 0 || post.sample_rows == 0
    then false
    else degraded tenth_fires (useful_rate baseline) (useful_rate post)

-- `_evaluate`: whether it fires a rollback.
unfoldable pub evaluate : Vault → (promote : TunerEvent) → Bool
evaluate v p =
    if has_violation v p
    then true
    else if ltb (count_events_since v p.recorded_at) rollback_event_window
    then false
    else judge v.tenth_fires (v.baseline p.evidence_json) (read_post_promote_signal v p.recorded_at)
