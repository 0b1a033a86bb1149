-- ===== src/Tuner/Number.antt =====
-- Python's floats, as far as afair/agents/tunable_registry.py computes with them: a finite one is a
-- number of millionths, exact.
use afair.Prelude.{ℤ, ltb_ℤ, ◌+ℤ◌, ◌≡◌, ◌≢◌, refl, Bool, true, false, not, ◌||◌, arith}

pub data Number : Type 0 where
  -- In millionths.
  finite : ℤ → Number
  infinity neg_infinity nan : Number

abbrev pub is_nan : Number → Bool
is_nan (finite a) = false
is_nan infinity = false
is_nan neg_infinity = false
is_nan nan = true

-- `x < y`, false where one of them is NaN.
abbrev pub lt : Number → Number → Bool
lt (finite a) (finite b) = ltb_ℤ a b
lt (finite a) infinity = true
lt (finite a) neg_infinity = false
lt (finite a) nan = false
lt infinity y = false
lt neg_infinity (finite b) = true
lt neg_infinity infinity = true
lt neg_infinity neg_infinity = false
lt neg_infinity nan = false
lt nan y = false

-- `x <= y`, false where one of them is NaN.
abbrev pub le : Number → Number → Bool
le x y = not (is_nan x || is_nan y || lt y x)

-- `x + y`.
abbrev pub plus : Number → Number → Number
plus (finite a) (finite b) = finite (a +ℤ b)
plus (finite a) infinity = infinity
plus (finite a) neg_infinity = neg_infinity
plus (finite a) nan = nan
plus infinity (finite b) = infinity
plus infinity infinity = infinity
plus infinity neg_infinity = nan
plus infinity nan = nan
plus neg_infinity (finite b) = neg_infinity
plus neg_infinity infinity = nan
plus neg_infinity neg_infinity = neg_infinity
plus neg_infinity nan = nan
plus nan y = nan

pub is_nan-false : (x : Number) → x ≢ nan → is_nan x ≡ false
is_nan-false (finite a) n = refl
is_nan-false infinity n = refl
is_nan-false neg_infinity n = refl
is_nan-false nan n = absurd (n refl)

-- What a comparison holds of is not NaN.
pub lt-is_nan : (x y : Number) → lt x y ≡ true → (is_nan x ≡ false) × (is_nan y ≡ false)
lt-is_nan (finite a) (finite b) e = (refl, refl)
lt-is_nan (finite a) infinity e = (refl, refl)
lt-is_nan (finite a) neg_infinity e = (refl, refl)
lt-is_nan (finite a) nan e = absurd (ground (arith, e))
lt-is_nan infinity y e = absurd (ground (arith, e))
lt-is_nan neg_infinity (finite b) e = (refl, refl)
lt-is_nan neg_infinity infinity e = (refl, refl)
lt-is_nan neg_infinity neg_infinity e = (refl, refl)
lt-is_nan neg_infinity nan e = absurd (ground (arith, e))
lt-is_nan nan y e = absurd (ground (arith, e))

-- Apart from NaN, what is not at most a number is above it.
pub le-lt : (x y : Number) → is_nan x ≡ false → is_nan y ≡ false → le x y ≡ false → lt y x ≡ true
le-lt x y m n e = ground (arith, m, n, e)

-- No number is both at least the greater of two and at most the lesser.
pub lt-le : (x y z : Number) → lt y x ≡ true → le x z ≡ true → le z y ≡ false
lt-le (finite a) (finite b) (finite c) e f = ground (arith, e, f)
lt-le (finite a) (finite b) infinity e f = refl
lt-le (finite a) (finite b) neg_infinity e f = absurd (ground (arith, f))
lt-le (finite a) (finite b) nan e f = absurd (ground (arith, f))
lt-le (finite a) infinity z e f = absurd (ground (arith, e))
lt-le (finite a) neg_infinity (finite c) e f = refl
lt-le (finite a) neg_infinity infinity e f = refl
lt-le (finite a) neg_infinity neg_infinity e f = absurd (ground (arith, f))
lt-le (finite a) neg_infinity nan e f = absurd (ground (arith, f))
lt-le (finite a) nan z e f = absurd (ground (arith, e))
lt-le infinity y infinity e f = ground (arith, e, f)
lt-le infinity y (finite c) e f = absurd (ground (arith, f))
lt-le infinity y neg_infinity e f = absurd (ground (arith, f))
lt-le infinity y nan e f = absurd (ground (arith, f))
lt-le neg_infinity y z e f = absurd (ground (arith, e))
lt-le nan y z e f = absurd (ground (arith, f))
