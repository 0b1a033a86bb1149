-- ===== src/Tuner/Verdict.antt =====
-- When the monitor fires (`_evaluate` of afair/agents/rollback_monitor.py).
use afair.Prelude.{ℕ, zero, suc, ◌+◌, ◌*◌, ◌≤◌, ◌<◌, ◌≡◌, Bool, true, false, arith}
use afair.Tuner.State.{TunerEvent}
use afair.Tuner.Monitor.{
  Vault, Snapshot, Rate, useful_rate, reaches, degraded, judge, evaluate, has_violation,
  count_events_since, rollback_event_window, read_post_promote_signal,
}

mul_pos : (a b : ℕ) → 0 < a → 0 < b → 0 < a * b
mul_pos zero b h k = absurd (omega arith)
mul_pos (suc a) zero h k = absurd (omega arith)
mul_pos (suc a) (suc b) h k = omega arith

useful_rate-positive : (s : Snapshot) → 0 < (useful_rate s).denominator
unfolding useful_rate
useful_rate-positive s = ground arith

degraded-lt :
    (tenth_fires : Rate → Rate → Bool) (b p : Rate)
    → 0 < b.numerator
    → 0 < p.denominator
    → degraded tenth_fires b p ≡ true
    → p.numerator * b.denominator < b.numerator * p.denominator
unfolding degraded reaches
degraded-lt tenth_fires b p h k e = ground (arith, mul_pos b.numerator p.denominator h k)

-- Without a violation, a promote whose baseline has something useful is rolled back only when
-- fifty events have followed it, both samples have rows, and the useful rate has gone down.
pub evaluate_worse :
    (v : Vault) (p : TunerEvent)
    → evaluate v p ≡ true
    → has_violation v p ≡ false
    → 0 < (useful_rate (v.baseline p.evidence_json)).numerator
    → let b = useful_rate (v.baseline p.evidence_json) in
      let q = useful_rate (read_post_promote_signal v p.recorded_at) in
      (rollback_event_window ≤ count_events_since v p.recorded_at)
      × (0 < (v.baseline p.evidence_json).sample_rows)
      × (0 < (read_post_promote_signal v p.recorded_at).sample_rows)
      × (q.numerator * b.denominator < b.numerator * q.denominator)
unfolding evaluate judge
evaluate_worse v p e n h =
    let baseline = v.baseline p.evidence_json in
    let post = read_post_promote_signal v p.recorded_at in
    let fell : degraded v.tenth_fires (useful_rate baseline) (useful_rate post) ≡ true =
      ground (arith, e, n) in
    (
      ground (arith, e, n),
      ground (arith, e, n),
      ground (arith, e, n),
      degraded-lt v.tenth_fires (useful_rate baseline) (useful_rate post) h
          (useful_rate-positive post) fell,
    )

-- A promote whose baseline has nothing useful, so that its useful rate cannot go down, is rolled
-- back all the same once it has fifty events and feedback of which less than nine tenths is useful.
pub evaluate_zero_baseline :
    (v : Vault) (p : TunerEvent)
    → (v.baseline p.evidence_json).useful_count ≡ 0
    → rollback_event_window ≤ count_events_since v p.recorded_at
    → 0 < (v.baseline p.evidence_json).sample_rows
    → 0 < (read_post_promote_signal v p.recorded_at).sample_rows
    → 10 * (read_post_promote_signal v p.recorded_at).useful_count
      < 9
        * ((read_post_promote_signal v p.recorded_at).useful_count
            + (read_post_promote_signal v p.recorded_at).not_useful_count)
    → evaluate v p ≡ true
unfolding evaluate judge degraded useful_rate reaches
evaluate_zero_baseline v p z w b q h = ground (arith, z)
