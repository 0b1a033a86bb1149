-- ===== src/Belief/Trust.antt =====
-- Entrenchment, the auto-confirm policy and trust states (afair/substrate/belief.py). A confidence
-- is a number of some exact unit.
use afair.Prelude.{ℕ, String, str_eq, Bool, false, not, Option, none, some, ltb, leb, if◌then◌else◌}
use afair.Belief.Predicates.{Words, predicate_is_crisp}

pub data Entrenchment : Type 0 where
  foreign_import agent_derived user_stated user_confirmed : Entrenchment

-- The integers of the `IntEnum`.
abbrev pub level : Entrenchment → ℕ
level foreign_import = 0
level agent_derived = 1
level user_stated = 2
level user_confirmed = 3

pub data TrustState : Type 0 where
  confirmed auto_confirmed proposed rejected : TrustState

unfoldable pub assertion_entrenchment : Option String → Entrenchment
assertion_entrenchment none = agent_derived
assertion_entrenchment (some asserted_by) =
    if str_eq asserted_by "user" then user_stated else agent_derived

unfoldable pub auto_confirm :
    Words
    → (confidence : ℕ) (predicate : String) → Entrenchment
    → (has_evidence : Bool) (floor : ℕ) → Bool
auto_confirm x confidence predicate source_entrenchment has_evidence floor =
    if leb (level source_entrenchment) (level foreign_import)
    then false
    else if not has_evidence
    then false
    else if ltb confidence floor
    then false
    else predicate_is_crisp x predicate

abbrev pub is_confirm : Option String → Bool
is_confirm none = false
is_confirm (some verdict) = str_eq verdict "confirm"

unfoldable pub resolve_trust :
    (latest_verdict : Option String) (is_invalidated auto : Bool) → TrustState
resolve_trust latest_verdict is_invalidated auto =
    if is_invalidated
    then rejected
    else if is_confirm latest_verdict
    then confirmed
    else if auto
    then auto_confirmed
    else proposed
