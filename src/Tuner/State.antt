-- ===== src/Tuner/State.antt =====
-- The append-only table `tuner_state` (afair/substrate/tuner_state.py). Values are the JSON texts
-- that the table stores, and `bytes` the length of a text in UTF-8.
use afair.Prelude.{
  ℕ, ◌*◌, String, str_eq, Bool, true, false, ◌&&◌, ◌||◌, Option, none, some, List, [], ◌∷◌, ◌++◌,
  select, newest, ltb, if◌then◌else◌,
}

pub data TunerKind : Type 0 where
  promote rollback hypothesis observation : TunerKind

pub record TunerEvent : Type 0 where
  pub id : String
  pub recorded_at : ℕ
  pub kind : TunerKind
  pub worker : String
  pub tunable : String
  pub old_value_json : Option String
  pub new_value_json : Option String
  pub evidence_json : Option String
  pub rationale : Option String

abbrev pub max_tuner_state_field_bytes : ℕ
max_tuner_state_field_bytes = 64 * 1024

abbrev pub too_large : (bytes : String → ℕ) → Option String → Bool
too_large bytes none = false
too_large bytes (some s) = ltb max_tuner_state_field_bytes (bytes s)

-- `none` is the exception of a field that is too large.
unfoldable pub write :
    (bytes : String → ℕ) → List TunerEvent → TunerEvent → Option (List TunerEvent)
write bytes rows event =
    if too_large bytes event.old_value_json
      || too_large bytes event.new_value_json
      || too_large bytes event.evidence_json
    then none
    else some (rows ++ event ∷ [])

abbrev pub is_promote : TunerKind → Bool
is_promote promote = true
is_promote _ = false

abbrev pub is_rollback : TunerKind → Bool
is_rollback rollback = true
is_rollback _ = false

abbrev pub is_observation : TunerKind → Bool
is_observation observation = true
is_observation _ = false

abbrev pub is_change : TunerKind → Bool
is_change kind = is_promote kind || is_rollback kind

abbrev pub has_key : (worker tunable : String) → TunerEvent → Bool
has_key worker tunable r = str_eq r.worker worker && str_eq r.tunable tunable

abbrev pub changes : (worker tunable : String) → TunerEvent → Bool
changes worker tunable r = has_key worker tunable r && is_change r.kind

abbrev value_of : Option TunerEvent → Option String
value_of none = none
value_of (some r) = r.new_value_json

-- The stored text of the active value.
unfoldable pub current_value : List TunerEvent → (worker tunable : String) → Option String
current_value rows worker tunable =
    value_of (newest (λ r. r.recorded_at) (select (changes worker tunable) rows))

abbrev time_of : Option TunerEvent → Option ℕ
time_of none = none
time_of (some r) = some r.recorded_at

unfoldable pub last_rollback_at : List TunerEvent → (worker tunable : String) → Option ℕ
last_rollback_at rows worker tunable = time_of (
    newest (λ r. r.recorded_at) (select (λ r. has_key worker tunable r && is_rollback r.kind) rows))
