-- ===== src/Tuner/RegistryTests.antt =====
-- A promote of the upper threshold and its rollback, and the theorems at inputs that meet their
-- hypotheses.
use afair.Prelude.{
  ℕ, ◌≡◌, ◌≢◌, refl, pos, String, str_eq, ◌==◌, Option, none, some, List, [], ◌∷◌, find?, select,
  newest, delete, arith, ◌⊎◌, if◌then◌else◌,
}
use afair.Tuner.State.{TunerEvent, promote, rollback, write, current_value}
use afair.Tuner.Number.{Number, finite}
use afair.Tuner.Values.{float, nothing, Value, scalar, Json, numeric, float_of, float_of_value}
use afair.Tuner.Validate.{
  TunableSpec, accepted, change_rejected, numeric_value, validate_float, validate_int,
  validate_string, check_weight, check_weights, total, validate_weights_dict, validate_change,
  validate_bounds_only,
}
use afair.Tuner.Whitelist.{millionths, cen_spec, spec_of}
use afair.Tuner.Registry.{
  Registry, active, get, invalidate, validate_cross_tunable, Change, recorded, refused, event_of,
  finish, check_change, record_change, fire_rollback, rollback_of, failure_of,
}
use afair.Tuner.Hysteresis.{IsHysteretic, record_change-IsHysteretic}
use afair.Tuner.Allowed.{IsAllowed, record_change-IsAllowed}
use afair.Tuner.Modes.{cen, dmn, decide_target_mode, target_mode, target_mode_stable}
use afair.Tuner.NotANumber.{not_a_number, validate_change-nan}
use afair.Tuner.Fire.{fire_rollback_restores, fire_rollback-IsHysteretic}

-- Everything that a change computes with.
program : Unit {0}
unfolding find? select newest delete write current_value numeric float_of float_of_value
    validate_float validate_int validate_string check_weight check_weights total
    validate_weights_dict validate_change validate_bounds_only spec_of get invalidate
    validate_cross_tunable finish check_change record_change fire_rollback decide_target_mode
    target_mode
program = tt

abbrev print : Value → Option String
print (scalar (float (finite (pos n)))) = if n == 9000000 then some "9.0" else some "8.0"
print _ = none

abbrev parse : Option String → Value
parse none = scalar nothing
parse (some s) = if str_eq s "9.0" then millionths 9000000 else millionths 8000000

abbrev json : Json
json = record { float_of_text = λ s. none; to_json = print; from_json = parse }

abbrev bytes : String → ℕ
bytes s = 3

abbrev raise : (new : ℕ) → Change
raise new = record {
  kind = promote;
  worker = "mode_switcher";
  tunable = "cen_threshold";
  old_value = millionths 8000000;
  new_value = millionths new;
  evidence_json = none;
  rationale = none;
}

abbrev fresh : Registry
fresh = record { rows = []; cache = [] }

abbrev row : TunerEvent
row = event_of json (raise 9000000) "1" 5

abbrev raised : Registry
raised = (record_change json bytes fresh (raise 9000000) "1" 5).0

raise_run :
    (record_change json bytes fresh (raise 9000000) "1" 5 ≡ (raised, recorded))
    × (raised.rows ≡ row ∷ [])
    × (active json raised.rows "mode_switcher" "cen_threshold" cen_spec.default
        ≡ millionths 9000000)
unfolding program
raise_run = (refl, refl, refl)

-- More than a fifth at once.
raise_too_far : record_change json bytes fresh (raise 9700000) "1" 5 ≡ (fresh, refused)
unfolding program
raise_too_far = refl

IsHysteretic-defaults : IsHysteretic json []
unfolding program
IsHysteretic-defaults = record {
  cen = finite (pos 8000000);
  dmn = finite (pos 4000000);
  cen_in_force = refl;
  dmn_in_force = refl;
  apart = refl;
}

raised-IsHysteretic : IsHysteretic json raised.rows
unfolding program
raised-IsHysteretic =
    record_change-IsHysteretic json bytes fresh raised (raise 9000000) "1" 5 refl tt tt refl refl
      (λ e. ground (arith, e)) IsHysteretic-defaults

record_change-IsHysteretic_example : IsHysteretic json raised.rows
unfolding program
record_change-IsHysteretic_example =
    record_change-IsHysteretic json bytes fresh raised (raise 9000000) "1" 5 refl tt tt refl refl
      (λ e. ground (arith, e)) IsHysteretic-defaults

record_change-IsAllowed_example :
    (p : Number) × (numeric_value
        (active json raised.rows "mode_switcher" "cen_threshold" cen_spec.default)
      ≡ some p)
    × IsAllowed json promote cen_spec (millionths 8000000) p
unfolding program
record_change-IsAllowed_example =
    record_change-IsAllowed json bytes fresh raised (raise 9000000) cen_spec "1" 5 refl refl refl tt
      tt refl refl (λ e. ground (arith, e))

abbrev restored : List TunerEvent
restored =
    row
    ∷ event_of json
        (record (raise 8000000) {
          kind = rollback;
          old_value = millionths 9000000;
          rationale = some "degraded";
        })
        "2" 6
    ∷ []

rollback_run :
    fire_rollback json bytes (row ∷ []) row none none "degraded" "" "2" "3" 6 7 ≡ some restored
unfolding program
rollback_run = refl

fire_rollback_restores_example :
    ((write bytes (row ∷ []) (event_of json (rollback_of json row none "degraded") "2" 6)
        ≡ some restored)
      × (active json restored "mode_switcher" "cen_threshold" cen_spec.default
          ≡ millionths 8000000))
    ⊎ (((validate_bounds_only json cen_spec (millionths 8000000) ≡ change_rejected)
          ⊎ ((validate_cross_tunable json
                (record { rows = row ∷ []; cache = [] })
                "mode_switcher"
                "cen_threshold"
                (millionths 8000000)).1
              ≡ change_rejected))
        × (write bytes (row ∷ []) (failure_of json row none "" "3" 7) ≡ some restored)
        × ((s : TunableSpec)
            → active json restored s.worker s.tunable s.default
              ≡ active json (row ∷ []) s.worker s.tunable s.default))
unfolding program
fire_rollback_restores_example =
    fire_rollback_restores json bytes (row ∷ []) restored row cen_spec none none "degraded" "" "2"
      "3" 6 7 refl refl refl (omega arith, tt) (omega arith, tt) refl

fire_rollback-IsHysteretic_example : IsHysteretic json restored
unfolding program
fire_rollback-IsHysteretic_example =
    fire_rollback-IsHysteretic json bytes (row ∷ []) restored row none none "degraded" "" "2" "3" 6
      7 refl (omega arith, tt) (omega arith, tt) refl (λ e. ground (arith, e)) raised-IsHysteretic

-- Novel material alone brings the mode to focus, and it stays there.
target_mode_stable_example : target_mode json raised.rows cen (pos 100000) (pos 12000000) ≡ some cen
unfolding program
target_mode_stable_example =
    target_mode_stable json raised.rows dmn cen (pos 100000) (pos 12000000) raised-IsHysteretic refl

validate_change-nan_example :
    (validate_change json cen_spec (millionths 8000000) not_a_number ≡ accepted)
    × (validate_bounds_only json cen_spec not_a_number ≡ accepted)
    × ((r : Registry) (worker tunable : String)
        → (validate_cross_tunable json r worker tunable not_a_number).1 ≢ change_rejected)
unfolding program
validate_change-nan_example =
    validate_change-nan json cen_spec (millionths 8000000) (finite (pos 8000000)) refl refl
