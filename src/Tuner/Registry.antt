-- ===== src/Tuner/Registry.antt =====
-- Reading and changing tunables (`TunableRegistry` and `record_change` of
-- afair/agents/tunable_registry.py, `_fire_rollback` of afair/agents/rollback_monitor.py).
use afair.Prelude.{
  ℕ, String, str_eq, Bool, not, ◌&&◌, Option, none, some, List, [], ◌∷◌, find?, delete,
  if◌then◌else◌,
}
use afair.Tuner.State.{
  TunerKind, rollback, observation, is_rollback, TunerEvent, write, current_value,
}
use afair.Tuner.Number.{Number, le}
use afair.Tuner.Values.{Value, Json, float_of_value, or_default}
use afair.Tuner.Validate.{
  TunableSpec, Check, accepted, change_rejected, crashed, reject_if, validate_change,
  validate_bounds_only,
}
use afair.Tuner.Whitelist.{spec_of}

pub record Cached : Type 0 where
  pub worker : String
  pub tunable : String
  pub value : Value

-- A reader with its cache, and the table behind it.
pub record Registry : Type 0 where
  pub rows : List TunerEvent
  pub cache : List Cached

abbrev pub cached : (worker tunable : String) → Cached → Bool
cached worker tunable c = str_eq c.worker worker && str_eq c.tunable tunable

module _ (j : Json) where
  -- The active value as the table has it.
  abbrev pub active : List TunerEvent → (worker tunable : String) → (default : Value) → Value
  active rows worker tunable default =
      or_default (j.from_json (current_value rows worker tunable)) default

  abbrev pub load : Registry → TunableSpec → (worker tunable : String) → Registry × Value
  load r spec worker tunable =
      let value = active r.rows worker tunable spec.default in
      (
        record r { cache = record { worker = worker; tunable = tunable; value = value } ∷ r.cache },
        value,
      )

  -- `get`; `none` is the KeyError.
  unfoldable pub get : Registry → (worker tunable : String) → Option (Registry × Value)
  get r worker tunable = elim (spec_of worker tunable) [
    | none ↦ none
    | some spec ↦ elim (find? (cached worker tunable) r.cache) [
      | some c ↦ some (r, c.value)
      | none ↦ some (load r spec worker tunable)
    ]
  ]

unfoldable pub invalidate : Registry → (worker tunable : String) → Registry
invalidate r worker tunable = record r { cache = delete (cached worker tunable) r.cache }

abbrev pub mode_switcher : String
mode_switcher = "mode_switcher"

abbrev pub cen_threshold : String
cen_threshold = "cen_threshold"

abbrev pub dmn_threshold : String
dmn_threshold = "dmn_threshold"

-- `new <= dmn` is refused; an argument that is no number is an exception.
abbrev pub check_above : (new dmn : Option Number) → Check
check_above new none = crashed
check_above none (some d) = crashed
check_above (some p) (some d) = reject_if (le p d)

-- `new >= cen` is refused.
abbrev pub check_under : (new cen : Option Number) → Check
check_under new none = crashed
check_under none (some c) = crashed
check_under (some p) (some c) = reject_if (le c p)

pub record Change : Type 0 where
  pub kind : TunerKind
  pub worker : String
  pub tunable : String
  pub old_value : Value
  pub new_value : Value
  pub evidence_json : Option String
  pub rationale : Option String

-- How a change ends: recorded, by ChangeRejected, by the KeyError of a tunable that is not listed,
-- or by another exception.
pub data Result : Type 0 where
  recorded refused unlisted failed : Result

module _ (j : Json) where
  -- `_validate_cross_tunable`, with the registry whose cache the reads fill.
  unfoldable pub validate_cross_tunable :
      Registry → (worker tunable : String) → (new_value : Value) → Registry × Check
  validate_cross_tunable r worker tunable new_value =
      if not (str_eq worker mode_switcher)
      then (r, accepted)
      else if str_eq tunable cen_threshold
      then elim (get j r mode_switcher dmn_threshold) [
        | none ↦ (r, crashed)
        | some (r', dmn) ↦ (r', check_above (float_of_value j new_value) (float_of_value j dmn))
      ]
      else if str_eq tunable dmn_threshold
      then elim (get j r mode_switcher cen_threshold) [
        | none ↦ (r, crashed)
        | some (r', cen) ↦ (r', check_under (float_of_value j new_value) (float_of_value j cen))
      ]
      else (r, accepted)

  abbrev pub validate : TunerKind → TunableSpec → (old_value new_value : Value) → Check
  validate kind spec old_value new_value =
      if is_rollback kind
      then validate_bounds_only j spec new_value
      else validate_change j spec old_value new_value

  abbrev pub event_of : Change → (id : String) (now : ℕ) → TunerEvent
  event_of c id now = record {
    id = id;
    recorded_at = now;
    kind = c.kind;
    worker = c.worker;
    tunable = c.tunable;
    old_value_json = j.to_json c.old_value;
    new_value_json = j.to_json c.new_value;
    evidence_json = c.evidence_json;
    rationale = c.rationale;
  }

  -- The write and the end of a change whose checks ended so.
  unfoldable pub finish :
      (bytes : String → ℕ) → Registry → Change → (id : String) (now : ℕ) → Check → Registry × Result
  finish bytes r c id now change_rejected = (r, refused)
  finish bytes r c id now crashed = (r, failed)
  finish bytes r c id now accepted = elim (write bytes r.rows (event_of c id now)) [
    | none ↦ (r, failed)
    | some rows ↦ (invalidate (record r { rows = rows }) c.worker c.tunable, recorded)
  ]

  -- The cross check runs only once the value itself was accepted.
  unfoldable pub check_change : Registry → TunableSpec → Change → Registry × Check
  check_change r spec c = elim (validate c.kind spec c.old_value c.new_value) [
    | accepted ↦ validate_cross_tunable r c.worker c.tunable c.new_value
    | change_rejected ↦ (r, change_rejected)
    | crashed ↦ (r, crashed)
  ]

  unfoldable pub record_change :
      (bytes : String → ℕ) → Registry → Change → (id : String) (now : ℕ) → Registry × Result
  record_change bytes r c id now = elim (spec_of c.worker c.tunable) [
    | none ↦ (r, unlisted)
    | some spec ↦ let checked = check_change r spec c in finish bytes checked.0 c id now checked.1
  ]

  -- What the rollback of a promote asks for; its evidence as JSON.
  abbrev pub rollback_of : TunerEvent → (evidence_json : Option String) → (reason : String) → Change
  rollback_of p evidence_json reason = record {
    kind = rollback;
    worker = p.worker;
    tunable = p.tunable;
    old_value = j.from_json p.new_value_json;
    new_value = j.from_json p.old_value_json;
    evidence_json = evidence_json;
    rationale = some reason;
  }

  abbrev pub failure_of :
      TunerEvent → (evidence_json : Option String) → (rationale id : String) (now : ℕ) → TunerEvent
  failure_of p evidence_json rationale id now = record {
    id = id;
    recorded_at = now;
    kind = observation;
    worker = p.worker;
    tunable = p.tunable;
    old_value_json = none;
    new_value_json = none;
    evidence_json = evidence_json;
    rationale = some rationale;
  }

  -- `_fire_rollback`, on a promote whose values parse, with a registry of its own; `none` is an
  -- exception that leaves it.
  unfoldable pub fire_rollback :
      (bytes : String → ℕ)
      → List TunerEvent
      → TunerEvent
      → (evidence_json failure_json : Option String)
      → (reason rejected id id' : String) (now now' : ℕ) → Option (List TunerEvent)
  fire_rollback bytes rows p evidence_json failure_json reason rejected id id' now now' =
      let change =
        record_change bytes (record { rows = rows; cache = [] })
          (rollback_of p evidence_json reason) id now in
      elim change.1 [
        | recorded ↦ some change.0.rows
        | refused ↦ write bytes change.0.rows (failure_of p failure_json rejected id' now')
        | unlisted ↦ none
        | failed ↦ none
      ]
