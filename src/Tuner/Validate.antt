-- ===== src/Tuner/Validate.antt =====
-- Which changes of a tunable are accepted (`validate_change` and the checks under it in
-- afair/agents/tunable_registry.py).
use afair.Prelude.{
  ℕ, ◌*◌, ℤ, pos, abs, distance, String, str_eq, Bool, true, false, not, ◌&&◌, ◌||◌, Option, none,
  some, List, [], ◌∷◌, find?, is_some, ltb, ◌==◌,
}
use afair.Tuner.Number.{Number, finite, infinity, neg_infinity, nan, lt, plus}
use afair.Tuner.Values.{
  one, Scalar, int, float, bool, text, nested, nothing, Value, scalar, dict, Json, numeric,
  float_of, float_of_value, keyed,
}

pub data TunableKind : Type 0 where
  float_kind int_kind string_kind weights_dict : TunableKind

-- The bounds are in millionths, the bounded delta in hundredths.
pub record TunableSpec : Type 0 where
  pub worker : String
  pub tunable : String
  pub kind : TunableKind
  pub default : Value
  pub min_value : Option ℤ
  pub max_value : Option ℤ
  pub bounded_delta : ℕ
  pub allowed_values : List String

pub data Check : Type 0 where
  accepted : Check
  -- ChangeRejected.
  change_rejected : Check
  -- Any other exception.
  crashed : Check

-- One check after the other.
abbrev pub ◌then_check◌ : Check → Check → Check
accepted then_check c = c
change_rejected then_check c = change_rejected
crashed then_check c = crashed

infixr 20 ◌then_check◌
abbrev pub reject_if : Bool → Check
reject_if true = change_rejected
reject_if false = accepted

abbrev pub below : Option ℤ → Number → Bool
below none p = false
below (some least) p = lt p (finite least)

abbrev pub beyond : Option ℤ → Number → Bool
beyond none p = false
beyond (some most) p = lt (finite most) p

abbrev pub in_bounds : TunableSpec → Number → Bool
in_bounds spec p = not (below spec.min_value p || beyond spec.max_value p)

-- `c != 0.0` and `abs(p - c) / abs(c) > bounded_delta`; where the current value or the proposed
-- one is NaN, or the current one infinite, the quotient is NaN, and greater than nothing.
abbrev pub too_far : (bounded_delta : ℕ) → (c p : Number) → Bool
too_far bounded_delta (finite c) (finite p) =
    not (abs c == 0) && ltb (bounded_delta * abs c) (100 * distance p c)
too_far bounded_delta (finite c) infinity = not (abs c == 0)
too_far bounded_delta (finite c) neg_infinity = not (abs c == 0)
too_far bounded_delta (finite c) nan = false
too_far bounded_delta infinity p = false
too_far bounded_delta neg_infinity p = false
too_far bounded_delta nan p = false

abbrev pub within_delta : TunableSpec → (p c : Number) → Bool
within_delta spec p c = not (too_far spec.bounded_delta c p)

-- The bounded delta against a current value, `none` where that is no number.
abbrev pub check_delta : TunableSpec → Number → Option Number → Check
check_delta spec p none = crashed
check_delta spec p (some c) = reject_if (not (within_delta spec p c))

abbrev pub check_bounds : TunableSpec → Number → Check
check_bounds spec p = reject_if (not (in_bounds spec p))

-- `_validate_float`.
unfoldable pub validate_float : Json → TunableSpec → (current proposed : Value) → Check
validate_float j spec current (dict items) = change_rejected
validate_float j spec current (scalar s) = elim (numeric s) [
  | none ↦ change_rejected
  | some p ↦ check_bounds spec p then_check check_delta spec p (float_of_value j current)
]

abbrev pub as_int : Value → Option Number
as_int (scalar (int n)) = numeric (int n)
as_int (scalar (float x)) = none
as_int (scalar (bool b)) = none
as_int (scalar (text s)) = none
as_int (scalar (nested s)) = none
as_int (scalar nothing) = none
as_int (dict items) = none

abbrev pub numeric_value : Value → Option Number
numeric_value (scalar s) = numeric s
numeric_value (dict items) = none

-- `_validate_int`.
unfoldable pub validate_int : TunableSpec → (current proposed : Value) → Check
validate_int spec current proposed = elim (as_int proposed) [
  | none ↦ change_rejected
  | some p ↦ check_bounds spec p then_check check_delta spec p (numeric_value current)
]

abbrev pub among : String → List String → Bool
among s [] = false
among s (x ∷ xs) = str_eq x s || among s xs

abbrev pub is_empty : List String → Bool
is_empty [] = true
is_empty (x ∷ xs) = false

-- `_validate_string`.
unfoldable pub validate_string : TunableSpec → (proposed : Value) → Check
validate_string spec (scalar (text s)) =
    reject_if (not (is_empty spec.allowed_values) && not (among s spec.allowed_values))
validate_string spec (scalar (int n)) = change_rejected
validate_string spec (scalar (float x)) = change_rejected
validate_string spec (scalar (bool b)) = change_rejected
validate_string spec (scalar (nested s)) = change_rejected
validate_string spec (scalar nothing) = change_rejected
validate_string spec (dict items) = change_rejected

abbrev pub has_keys : List String → List (String × Scalar) → Bool
has_keys [] items = true
has_keys (key ∷ keys) items = is_some (find? (keyed key) items) && has_keys keys items

abbrev pub only_keys : List String → List (String × Scalar) → Bool
only_keys keys [] = true
only_keys keys (item ∷ items) = among item.0 keys && only_keys keys items

-- The keys are exactly those that are allowed, where any are named.
abbrev pub check_keys : TunableSpec → List (String × Scalar) → Check
check_keys spec items = reject_if (
    not (is_empty spec.allowed_values)
    && not (has_keys spec.allowed_values items && only_keys spec.allowed_values items))

abbrev pub float_or_zero : Json → Option (String × Scalar) → Option Number
float_or_zero j none = some (finite (pos 0))
float_or_zero j (some item) = float_of j item.1

-- `current.get(k, 0.0)`, and 0 where the current value is no dict.
abbrev pub current_weight : Json → (current : Value) → (key : String) → Option Number
current_weight j (scalar s) key = some (finite (pos 0))
current_weight j (dict items) key = float_or_zero j (find? (keyed key) items)

unfoldable pub check_weight : Json → TunableSpec → (current : Value) → String × Scalar → Check
check_weight j spec current item = elim (numeric item.1) [
  | none ↦ change_rejected
  | some p ↦ check_bounds spec p then_check check_delta spec p (current_weight j current item.0)
]

unfoldable pub check_weights :
    Json → TunableSpec → (current : Value) → List (String × Scalar) → Check
check_weights j spec current [] = accepted
check_weights j spec current (item ∷ items) =
    check_weight j spec current item then_check check_weights j spec current items

abbrev pub add : Option Number → Option Number → Option Number
add none y = none
add (some a) none = none
add (some a) (some b) = some (plus a b)

-- `sum(float(v) for v in ...)`.
unfoldable pub total : Json → List (String × Scalar) → Option Number
total j [] = some (finite (pos 0))
total j (item ∷ items) = add (float_of j item.1) (total j items)

-- `abs(total - 1.0) > 0.01`.
abbrev pub apart_from_one : Number → Bool
apart_from_one (finite sum) = ltb one (100 * distance sum (pos one))
apart_from_one infinity = true
apart_from_one neg_infinity = true
apart_from_one nan = false

abbrev pub near_one : Option Number → Check
near_one none = crashed
near_one (some sum) = reject_if (apart_from_one sum)

-- `_validate_weights_dict`.
unfoldable pub validate_weights_dict : Json → TunableSpec → (current proposed : Value) → Check
validate_weights_dict j spec current (scalar s) = change_rejected
validate_weights_dict j spec current (dict items) =
    check_keys spec items
    then_check check_weights j spec current items
    then_check near_one (total j items)

unfoldable pub validate_change : Json → TunableSpec → (current proposed : Value) → Check
validate_change j spec current proposed = elim spec.kind [
  | float_kind ↦ validate_float j spec current proposed
  | int_kind ↦ validate_int spec current proposed
  | string_kind ↦ validate_string spec proposed
  | weights_dict ↦ validate_weights_dict j spec current proposed
]

abbrev pub check_number : TunableSpec → Option Number → Check
check_number spec none = change_rejected
check_number spec (some p) = check_bounds spec p

abbrev pub check_dict : Json → TunableSpec → Value → Check
check_dict j spec (scalar s) = change_rejected
check_dict j spec (dict items) = check_keys spec items then_check near_one (total j items)

-- `_validate_bounds_only`.
unfoldable pub validate_bounds_only : Json → TunableSpec → (proposed : Value) → Check
validate_bounds_only j spec proposed = elim spec.kind [
  | float_kind ↦ check_number spec (numeric_value proposed)
  | int_kind ↦ check_number spec (as_int proposed)
  | string_kind ↦ validate_string spec proposed
  | weights_dict ↦ check_dict j spec proposed
]
