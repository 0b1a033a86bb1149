-- ===== src/Tuner/Tests.antt =====
-- Runs of the rollback monitor, and the theorems at inputs that meet their hypotheses.
use afair.Prelude.{
  ℕ, zero, suc, ◌≡◌, refl, String, true, false, none, some, List, [], ◌∷◌, find?, select, newest,
  count, arith,
}
use afair.Tuner.State.{
  TunerEvent, promote, rollback, observation, write, current_value, last_rollback_at,
}
use afair.Tuner.Monitor.{
  Vault, Snapshot, superseded, active_promotes, useful_rate, reaches, degraded, judge, evaluate,
  has_violation, count_events_since, sum_feedback, read_post_promote_signal,
}
use afair.Tuner.Verdict.{evaluate_zero_baseline}

program : Unit {0}
unfolding find? select newest count write current_value last_rollback_at superseded active_promotes
    useful_rate reaches degraded judge evaluate has_violation count_events_since sum_feedback
    read_post_promote_signal
program = tt

abbrev bytes : String → ℕ
bytes s = 1

abbrev promoted : TunerEvent
promoted = record {
  id = "p";
  recorded_at = 100;
  kind = promote;
  worker = "salience";
  tunable = "w";
  old_value_json = some "1";
  new_value_json = some "2";
  evidence_json = none;
  rationale = none;
}

abbrev rolled_back : TunerEvent
rolled_back = record promoted {
  id = "r";
  recorded_at = 200;
  kind = rollback;
  old_value_json = some "2";
  new_value_json = some "1";
}

abbrev answered : TunerEvent
answered = record promoted {
  id = "f";
  recorded_at = 150;
  kind = observation;
  worker = "recall";
  tunable = "feedback";
  evidence_json = some "f";
}

watched_run : active_promotes (promoted ∷ answered ∷ []) 300 ≡ promoted ∷ []
unfolding program
watched_run = refl

rolled_back_run : active_promotes (promoted ∷ answered ∷ rolled_back ∷ []) 300 ≡ []
unfolding program
rolled_back_run = refl

last_rollback_at_run : last_rollback_at (promoted ∷ rolled_back ∷ []) "salience" "w" ≡ some 200
unfolding program
last_rollback_at_run = refl

repeat_at : ℕ → ℕ → List ℕ
repeat_at t zero = []
repeat_at t (suc n) = t ∷ repeat_at t n

-- Fifty events after the promote, and one answer with `useful` and `not_useful` events.
abbrev vault : (baseline : Snapshot) (useful not_useful : ℕ) → Vault
unfolding repeat_at
vault baseline useful not_useful = record {
  rows = promoted ∷ answered ∷ [];
  pipeline_events = [];
  event_times = repeat_at 160 50;
  like = λ detail part. false;
  feedback = λ e. some (useful, not_useful);
  baseline = λ e. baseline;
  tenth_fires = λ b p. false;
}

abbrev good : Vault
good = vault (record { useful_count = 9; not_useful_count = 1; sample_rows = 3 }) 5 5

-- Nothing was useful before, half is useful since.
abbrev improved : Vault
improved = vault (record { useful_count = 0; not_useful_count = 8; sample_rows = 3 }) 5 5

evaluate_zero_baseline_example : evaluate improved promoted ≡ true
unfolding program vault repeat_at
evaluate_zero_baseline_example =
    evaluate_zero_baseline improved promoted refl (omega arith) (omega arith) (omega arith)
      (omega arith)
