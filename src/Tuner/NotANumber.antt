-- ===== src/Tuner/NotANumber.antt =====
-- NaN as the value of a tunable (afair/agents/tunable_registry.py).
use afair.Prelude.{
  ◌≡◌, ◌≢◌, refl, String, true, false, str_eq, some, arith, Bool-cases, Option-cases, inl, inr,
}
use afair.Tuner.Number.{Number, finite, infinity, neg_infinity, nan, le}
use afair.Tuner.Values.{float, Value, scalar, Json, numeric, float_of, float_of_value}
use afair.Tuner.Validate.{
  float_kind, TunableSpec, accepted, change_rejected, in_bounds, too_far, validate_float,
  validate_change, validate_bounds_only,
}
use afair.Tuner.Registry.{
  Registry, get, mode_switcher, cen_threshold, dmn_threshold, validate_cross_tunable,
}

abbrev pub not_a_number : Value
not_a_number = scalar (float nan)

too_far-nan : (c : Number) (bounded_delta : _) → too_far bounded_delta c nan ≡ false
too_far-nan (finite c) bounded_delta = refl
too_far-nan infinity bounded_delta = refl
too_far-nan neg_infinity bounded_delta = refl
too_far-nan nan bounded_delta = refl

le-nan : (c : Number) → le c nan ≡ false
le-nan (finite c) = refl
le-nan infinity = refl
le-nan neg_infinity = refl
le-nan nan = refl

in_bounds-nan : (spec : TunableSpec) → in_bounds spec nan ≡ true
in_bounds-nan spec = elim (Option-cases spec.min_value) [
  | inl a ↦ elim (Option-cases spec.max_value) [
    | inl b ↦ ground (arith, a, b)
    | inr (most, b) ↦ ground (arith, a, b)
  ]
  | inr (least, a) ↦ elim (Option-cases spec.max_value) [
    | inl b ↦ ground (arith, a, b)
    | inr (most, b) ↦ ground (arith, a, b)
  ]
]

module _ (j : Json) where
  validate_cross_tunable-nan :
      (r : Registry) (worker tunable : String)
      → (validate_cross_tunable j r worker tunable not_a_number).1 ≢ change_rejected
  unfolding validate_cross_tunable float_of_value float_of numeric
  validate_cross_tunable-nan r worker tunable e = elim (Bool-cases (str_eq worker mode_switcher)) [
    | inr m ↦ ground (arith, m, e)
    | inl m ↦ elim (Bool-cases (str_eq tunable cen_threshold)) [
      | inl t ↦ elim (Option-cases (get j r mode_switcher dmn_threshold)) [
        | inl g ↦ ground (arith, m, t, g, e)
        | inr ((r', v), g) ↦ elim (Option-cases (float_of_value j v)) [
          | inl n ↦ ground (arith, m, t, g, n, e)
          | inr (d, n) ↦ ground (arith, m, t, g, n, e)
        ]
      ]
      | inr t ↦ elim (Bool-cases (str_eq tunable dmn_threshold)) [
        | inr u ↦ ground (arith, m, t, u, e)
        | inl u ↦ elim (Option-cases (get j r mode_switcher cen_threshold)) [
          | inl g ↦ ground (arith, m, t, u, g, e)
          | inr ((r', v), g) ↦ elim (Option-cases (float_of_value j v)) [
            | inl n ↦ ground (arith, m, t, u, g, n, e)
            | inr (c, n) ↦
                let calm : le c nan ≡ false = le-nan c in ground (arith, m, t, u, g, n, calm, e)
          ]
        ]
      ]
    ]
  ]

  -- No check of the registry rejects NaN: for a tunable whose kind is a float, a promote from any
  -- number passes the bounds and the bounded delta, a rollback passes the bounds, and the check
  -- between the two thresholds never rejects it.
  pub validate_change-nan :
      (spec : TunableSpec) (current : Value) (c : Number)
      → spec.kind ≡ float_kind
      → float_of_value j current ≡ some c
      → (validate_change j spec current not_a_number ≡ accepted)
        × (validate_bounds_only j spec not_a_number ≡ accepted)
        × ((r : Registry) (worker tunable : String)
            → (validate_cross_tunable j r worker tunable not_a_number).1 ≢ change_rejected)
  unfolding validate_change validate_bounds_only validate_float numeric
  validate_change-nan spec current c k e = (
    ground (arith, k, e, in_bounds-nan spec, too_far-nan c spec.bounded_delta),
    ground (arith, k, in_bounds-nan spec),
    validate_cross_tunable-nan,
  )
