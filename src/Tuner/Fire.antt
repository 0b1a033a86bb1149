-- ===== src/Tuner/Fire.antt =====
-- What a rollback that the monitor fires leaves behind (`_fire_rollback` of
-- afair/agents/rollback_monitor.py).
use afair.Prelude.{
  ℕ, ◌<◌, ◌≡◌, ◌≢◌, sym, ◌∙◌, refl, ap, subst, inl, inr, ◌⊎◌, String, true, false, Option, some,
  List, [], arith, All, Option-cases,
}
use afair.Tuner.State.{TunerEvent, changes, write}
use afair.Tuner.Active.{current_value-write}
use afair.Tuner.Number.{nan}
use afair.Tuner.Values.{Json, or_default, float_of_value}
use afair.Tuner.Validate.{
  TunableSpec, Check, accepted, change_rejected, crashed, validate_bounds_only,
}
use afair.Tuner.Whitelist.{spec_of, cen_spec, dmn_spec}
use afair.Tuner.Fresh.{IsFresh, validate_cross_tunable-IsFresh}
use afair.Tuner.Recorded.{Check-cases, record_change_inv}
use afair.Tuner.Hysteresis.{rows-invalidate, IsHysteretic, record_change-IsHysteretic}
use afair.Tuner.Allowed.{is_number, record_change-in_force}
use afair.Tuner.Registry.{
  Registry, active, validate, validate_cross_tunable, check_change, Change, Result, recorded,
  refused, unlisted, failed, finish, record_change, event_of, rollback_of, failure_of,
  fire_rollback,
}

Result-cases : (o : Result) → (o ≡ recorded) ⊎ (o ≡ refused) ⊎ (o ≡ unlisted) ⊎ (o ≡ failed)
Result-cases recorded = inl refl
Result-cases refused = inr (inl refl)
Result-cases unlisted = inr (inr (inl refl))
Result-cases failed = inr (inr (inr refl))

module _ (j : Json) where
  rows-check_change :
      (r : Registry) (spec : TunableSpec) (c : Change)
      → IsFresh j r
      → (check_change j r spec c).0.rows ≡ r.rows
  unfolding check_change
  rows-check_change r spec c fresh =
      elim (Check-cases (validate j c.kind spec c.old_value c.new_value)) [
        | inl v ↦
            rw (v, check_change)
              (validate_cross_tunable-IsFresh j r c.worker c.tunable c.new_value fresh).0
        | inr (inl v) ↦ rw (v, check_change) refl
        | inr (inr v) ↦ rw (v, check_change) refl
      ]

  rows-finish-refused :
      (bytes : String → ℕ) (r : Registry) (c : Change) (id : String) (now : ℕ) (check : Check)
      → (finish j bytes r c id now check).1 ≡ refused
      → (finish j bytes r c id now check).0.rows ≡ r.rows
  unfolding finish
  rows-finish-refused bytes r c id now change_rejected e = refl
  rows-finish-refused bytes r c id now crashed e = refl
  rows-finish-refused bytes r c id now accepted e =
      elim (Option-cases (write bytes r.rows (event_of j c id now))) [
        | inl w ↦ absurd (ground (arith, w, e))
        | inr (rows, w) ↦ absurd (ground (arith, w, e))
      ]

  -- A change that is refused writes nothing.
  rows-record_change-refused :
      (bytes : String → ℕ) (r : Registry) (c : Change) (id : String) (now : ℕ)
      → (record_change j bytes r c id now).1 ≡ refused
      → IsFresh j r
      → (record_change j bytes r c id now).0.rows ≡ r.rows
  unfolding record_change
  rows-record_change-refused bytes r c id now e fresh =
      elim (Option-cases (spec_of c.worker c.tunable)) [
        | inl s ↦ rw (s, record_change) refl
        | inr (spec, s) ↦
            let checked = check_change j r spec c in
            rw (s, record_change)
              (rows-finish-refused bytes checked.0 c id now checked.1 (ground (arith, s, e))
                ∙ rows-check_change r spec c fresh)
      ]

  -- The record of a failed rollback changes no value that is in force.
  active-failure :
      (bytes : String → ℕ) (rows rows' : List TunerEvent) (p : TunerEvent)
      (evidence_json : Option String) (rationale id : String) (now : ℕ)
      → write bytes rows (failure_of j p evidence_json rationale id now) ≡ some rows'
      → All (λ r. r.recorded_at < now) rows
      → (spec : TunableSpec)
      → active j rows' spec.worker spec.tunable spec.default
        ≡ active j rows spec.worker spec.tunable spec.default
  active-failure bytes rows rows' p evidence_json rationale id now w late spec =
      let row = failure_of j p evidence_json rationale id now in
      let calm : changes spec.worker spec.tunable row ≡ false = ground arith in
      ap (λ x. or_default (j.from_json x) spec.default)
        (current_value-write bytes rows rows' row spec.worker spec.tunable w late ∙ rw calm refl)

  -- A change that is recorded writes its row.
  write-record_change :
      (bytes : String → ℕ) (r r' : Registry) (c : Change) (id : String) (now : ℕ)
      → record_change j bytes r c id now ≡ (r', recorded)
      → IsFresh j r
      → write bytes r.rows (event_of j c id now) ≡ some r'.rows
  write-record_change bytes r r' c id now e fresh =
      let inv = record_change_inv j bytes r r' c id now e in
      let crossed = validate_cross_tunable j r c.worker c.tunable c.new_value in
      let kept = validate_cross_tunable-IsFresh j r c.worker c.tunable c.new_value fresh in
      subst (λ x. write bytes r.rows (event_of j c id now) ≡ some x)
        (sym (
          ap (λ (x : Registry). x.rows) inv.6
          ∙ rows-invalidate (record crossed.0 { rows = inv.1 }) c.worker c.tunable))
        (subst (λ x. write bytes x (event_of j c id now) ≡ some inv.1) kept.0 inv.5)

  finish-refused :
      (bytes : String → ℕ) (r : Registry) (c : Change) (id : String) (now : ℕ) (check : Check)
      → (finish j bytes r c id now check).1 ≡ refused
      → check ≡ change_rejected
  unfolding finish
  finish-refused bytes r c id now change_rejected e = refl
  finish-refused bytes r c id now crashed e = absurd (ground (arith, e))
  finish-refused bytes r c id now accepted e =
      elim (Option-cases (write bytes r.rows (event_of j c id now))) [
        | inl w ↦ absurd (ground (arith, w, e))
        | inr (rows, w) ↦ absurd (ground (arith, w, e))
      ]

  -- One of the two checks rejects a change that is refused.
  abbrev IsRejected : Registry → TunableSpec → Change → Type 0
  IsRejected r spec c =
      (validate j c.kind spec c.old_value c.new_value ≡ change_rejected)
      ⊎ ((validate_cross_tunable j r c.worker c.tunable c.new_value).1 ≡ change_rejected)

  check_change-IsRejected :
      (r : Registry) (spec : TunableSpec) (c : Change)
      → (check_change j r spec c).1 ≡ change_rejected
      → IsRejected r spec c
  unfolding check_change
  check_change-IsRejected r spec c e =
      elim (Check-cases (validate j c.kind spec c.old_value c.new_value)) [
        | inl v ↦ inr (ground (arith, v, e))
        | inr (inl v) ↦ inl v
        | inr (inr v) ↦ absurd (ground (arith, v, e))
      ]

  record_change-IsRejected :
      (bytes : String → ℕ) (r : Registry) (c : Change) (spec : TunableSpec) (id : String) (now : ℕ)
      → (record_change j bytes r c id now).1 ≡ refused
      → spec_of c.worker c.tunable ≡ some spec
      → IsRejected r spec c
  unfolding record_change
  record_change-IsRejected bytes r c spec id now e s =
      let checked = check_change j r spec c in
      check_change-IsRejected r spec c
        (finish-refused bytes checked.0 c id now checked.1 (ground (arith, s, e)))

  -- A rollback of a numeric promote that ends without an exception either writes its row, which
  -- puts the old value back in force, or finds the old value rejected by the hard bounds or by the
  -- check against the other threshold, writes the record of the failure, and leaves every value in
  -- force as it was; where the rows that are written are later than all others, and the old value
  -- reads back as it was written.
  pub fire_rollback_restores :
      (bytes : String → ℕ) (rows rows' : List TunerEvent) (p : TunerEvent) (spec : TunableSpec)
      (evidence_json failure_json : Option String) (reason rejected id id' : String) (now now' : ℕ)
      → fire_rollback j bytes rows p evidence_json failure_json reason rejected id id' now now'
        ≡ some rows'
      → spec_of p.worker p.tunable ≡ some spec
      → is_number spec.kind ≡ true
      → All (λ r. r.recorded_at < now) rows
      → All (λ r. r.recorded_at < now') rows
      → j.from_json (j.to_json (j.from_json p.old_value_json)) ≡ j.from_json p.old_value_json
      → let old_value = j.from_json p.old_value_json in
        let start : Registry = record { rows = rows; cache = [] } in
        ((write bytes rows (event_of j (rollback_of j p evidence_json reason) id now) ≡ some rows')
          × (active j rows' p.worker p.tunable spec.default ≡ old_value))
        ⊎ (((validate_bounds_only j spec old_value ≡ change_rejected)
              ⊎ ((validate_cross_tunable j start p.worker p.tunable old_value).1 ≡ change_rejected))
            × (write bytes rows (failure_of j p failure_json rejected id' now') ≡ some rows')
            × ((s : TunableSpec)
                → active j rows' s.worker s.tunable s.default
                  ≡ active j rows s.worker s.tunable s.default))
  unfolding fire_rollback
  fire_rollback_restores bytes rows rows' p spec evidence_json failure_json reason rejected id id'
        now now' e s n late late' back =
      let start : Registry = record { rows = rows; cache = [] } in
      let c = rollback_of j p evidence_json reason in
      let change = record_change j bytes start c id now in
      elim (Result-cases change.1) [
        | inl o ↦
            let same : change.0.rows ≡ rows' = ground (arith, o, e) in
            let run : change ≡ (change.0, recorded) = ap (λ x. (change.0, x)) o in
            let done =
              record_change-in_force j bytes start change.0 c spec id now run s n tt late refl
                back in
            inl (rw (← same) (write-record_change bytes start change.0 c id now run tt, done.1))
        | inr (inl o) ↦
            let kept = rows-record_change-refused bytes start c id now o tt in
            let wrote : write bytes change.0.rows (failure_of j p failure_json rejected id' now')
                ≡ some rows' =
              ground (arith, o, e) in
            let wrote' =
              subst
                (λ x. write bytes x (failure_of j p failure_json rejected id' now') ≡ some rows')
                kept wrote in
            inr (
              record_change-IsRejected bytes start c spec id now o s,
              wrote',
              active-failure bytes rows rows' p failure_json rejected id' now' wrote' late',
            )
        | inr (inr (inl o)) ↦ absurd (ground (arith, o, e))
        | inr (inr (inr o)) ↦ absurd (ground (arith, o, e))
      ]

  -- However a rollback to a value that is not NaN ends, short of an exception, the upper threshold
  -- of the mode switcher stays above the lower one, where the rows that are written are later than
  -- all others, and the old value reads back as it was written.
  pub fire_rollback-IsHysteretic :
      (bytes : String → ℕ) (rows rows' : List TunerEvent) (p : TunerEvent)
      (evidence_json failure_json : Option String) (reason rejected id id' : String) (now now' : ℕ)
      → fire_rollback j bytes rows p evidence_json failure_json reason rejected id id' now now'
        ≡ some rows'
      → All (λ r. r.recorded_at < now) rows
      → All (λ r. r.recorded_at < now') rows
      → j.from_json (j.to_json (j.from_json p.old_value_json)) ≡ j.from_json p.old_value_json
      → float_of_value j (j.from_json p.old_value_json) ≢ some nan
      → IsHysteretic j rows
      → IsHysteretic j rows'
  unfolding fire_rollback
  fire_rollback-IsHysteretic bytes rows rows' p evidence_json failure_json reason rejected id id'
        now now' e late late' back number h =
      let start : Registry = record { rows = rows; cache = [] } in
      let c = rollback_of j p evidence_json reason in
      let change = record_change j bytes start c id now in
      elim (Result-cases change.1) [
        | inl o ↦
            let same : change.0.rows ≡ rows' = ground (arith, o, e) in
            let run : change ≡ (change.0, recorded) = ap (λ x. (change.0, x)) o in
            subst (IsHysteretic j) same (
              record_change-IsHysteretic j bytes start change.0 c id now run tt late refl back
                number h)
        | inr (inl o) ↦
            let kept = rows-record_change-refused bytes start c id now o tt in
            let wrote : write bytes change.0.rows (failure_of j p failure_json rejected id' now')
                ≡ some rows' =
              ground (arith, o, e) in
            let calm =
              active-failure bytes rows rows' p failure_json rejected id' now'
                (subst
                  (λ x. write bytes x (failure_of j p failure_json rejected id' now') ≡ some rows')
                  kept wrote)
                late' in
            record {
              cen = h.cen;
              dmn = h.dmn;
              cen_in_force = ap (λ x. float_of_value j x) (calm cen_spec) ∙ h.cen_in_force;
              dmn_in_force = ap (λ x. float_of_value j x) (calm dmn_spec) ∙ h.dmn_in_force;
              apart = h.apart;
            }
        | inr (inr (inl o)) ↦ absurd (ground (arith, o, e))
        | inr (inr (inr o)) ↦ absurd (ground (arith, o, e))
      ]
