-- ===== src/Tuner/Values.antt =====
-- The values of a tunable (the `Any` of afair/agents/tunable_registry.py).
use afair.Prelude.{ℕ, ℤ, pos, times, String, str_eq, Bool, true, false, Option, none, some, List}
use afair.Tuner.Number.{Number, finite}

abbrev pub one : ℕ
one = 1000000

pub data Scalar : Type 0 where
  int : ℤ → Scalar
  float : Number → Scalar
  bool : Bool → Scalar
  text : String → Scalar
  -- A list, or inside a dict a dict or None.
  nested : (json : String) → Scalar
  -- None.
  nothing : Scalar

pub data Value : Type 0 where
  scalar : Scalar → Value
  dict : List (String × Scalar) → Value

-- Python's float() of a text, and json.dumps and json.loads, where NULL is None.
pub record Json : Type 0 where
  pub float_of_text : String → Option Number
  pub to_json : Value → Option String
  pub from_json : Option String → Value

-- `isinstance(v, (int, float))`, a Boolean being an int, and the number.
unfoldable pub numeric : Scalar → Option Number
numeric (int n) = some (finite (times one n))
numeric (float x) = some x
numeric (bool true) = some (finite (pos one))
numeric (bool false) = some (finite (pos 0))
numeric (text s) = none
numeric (nested j) = none
numeric nothing = none

-- `float(v)`; `none` is its exception.
unfoldable pub float_of : Json → Scalar → Option Number
float_of j (text s) = j.float_of_text s
float_of j (int n) = numeric (int n)
float_of j (float x) = numeric (float x)
float_of j (bool b) = numeric (bool b)
float_of j (nested s) = none
float_of j nothing = none

unfoldable pub float_of_value : Json → Value → Option Number
float_of_value j (scalar s) = float_of j s
float_of_value j (dict items) = none

abbrev pub keyed : String → String × Scalar → Bool
keyed key item = str_eq item.0 key

abbrev pub or_default : Value → Value → Value
or_default (scalar nothing) default = default
or_default (scalar (int n)) default = scalar (int n)
or_default (scalar (float x)) default = scalar (float x)
or_default (scalar (bool b)) default = scalar (bool b)
or_default (scalar (text s)) default = scalar (text s)
or_default (scalar (nested j)) default = scalar (nested j)
or_default (dict items) default = dict items
