-- ===== src/Tuner/Allowed.antt =====
-- Numbers under recorded changes, and what their specs allow (afair/agents/tunable_registry.py).
use afair.Prelude.{
  ℕ, ℤ, ◌<◌, ◌≡◌, ◌≢◌, ◌&&◌, none, ◌∙◌, refl, ap, subst, inl, inr, ◌⊎◌, String, Bool, true, false,
  Option, some, arith, All, Option-cases, Bool-cases,
}
use afair.Tuner.State.{TunerKind, is_change, is_rollback, write}
use afair.Tuner.Number.{Number, finite, nan, is_nan, is_nan-false, le}
use afair.Tuner.Values.{
  int, float, bool, text, nested, nothing, Value, scalar, dict, Json, numeric, float_of,
  float_of_value,
}
use afair.Tuner.Validate.{
  TunableKind, float_kind, int_kind, string_kind, weights_dict, TunableSpec, accepted, in_bounds,
  within_delta, numeric_value, as_int, check_bounds, check_delta, ◌then_check◌, validate_float,
  validate_int, validate_change, validate_bounds_only,
}
use afair.Tuner.Whitelist.{spec_of}
use afair.Tuner.Fresh.{IsFresh, validate_cross_tunable-IsFresh}
use afair.Tuner.Recorded.{record_change_inv}
use afair.Tuner.Hysteresis.{active-write_hit, rows-invalidate}
use afair.Tuner.Registry.{
  Registry, active, validate_cross_tunable, validate, Change, recorded, event_of, record_change,
}

abbrev pub is_number : TunableKind → Bool
is_number float_kind = true
is_number int_kind = true
is_number string_kind = false
is_number weights_dict = false

as_int-numeric_value : (v : Value) (p : Number) → as_int v ≡ some p → numeric_value v ≡ some p
as_int-numeric_value (scalar (int n)) p e = e
as_int-numeric_value (scalar (float x)) p e = absurd (ground (arith, e))
as_int-numeric_value (scalar (bool b)) p e = absurd (ground (arith, e))
as_int-numeric_value (scalar (text s)) p e = absurd (ground (arith, e))
as_int-numeric_value (scalar (nested s)) p e = absurd (ground (arith, e))
as_int-numeric_value (scalar nothing) p e = absurd (ground (arith, e))
as_int-numeric_value (dict items) p e = absurd (ground (arith, e))

kind-cases : (kind : TunableKind) → is_number kind ≡ true → (kind ≡ float_kind) ⊎ (kind ≡ int_kind)
kind-cases float_kind e = inl refl
kind-cases int_kind e = inr refl
kind-cases string_kind e = absurd (ground (arith, e))
kind-cases weights_dict e = absurd (ground (arith, e))

abbrev at_least : Option ℤ → Number → Bool
at_least none p = true
at_least (some least) p = le (finite least) p

abbrev at_most : Option ℤ → Number → Bool
at_most none p = true
at_most (some most) p = le p (finite most)

-- The positive reading of the hard bounds: no NaN is within them.
abbrev pub within_bounds : TunableSpec → Number → Bool
within_bounds spec p = at_least spec.min_value p && at_most spec.max_value p

in_bounds-within_bounds :
    (spec : TunableSpec) (p : Number)
    → is_nan p ≡ false
    → in_bounds spec p ≡ true
    → within_bounds spec p ≡ true
in_bounds-within_bounds spec p n e = elim (Option-cases spec.min_value) [
  | inl a ↦ elim (Option-cases spec.max_value) [
    | inl b ↦ ground (arith, a, b, n, e)
    | inr (most, b) ↦ ground (arith, a, b, n, e)
  ]
  | inr (least, a) ↦ elim (Option-cases spec.max_value) [
    | inl b ↦ ground (arith, a, b, n, e)
    | inr (most, b) ↦ ground (arith, a, b, n, e)
  ]
]

module _ (j : Json) where
  pub numeric_value-float_of_value :
      (v : Value) (p : Number) → numeric_value v ≡ some p → float_of_value j v ≡ some p
  unfolding float_of_value float_of numeric
  numeric_value-float_of_value (scalar (int n)) p e = e
  numeric_value-float_of_value (scalar (float x)) p e = e
  numeric_value-float_of_value (scalar (bool b)) p e = e
  numeric_value-float_of_value (scalar (text s)) p e = absurd (ground (arith, e))
  numeric_value-float_of_value (scalar (nested s)) p e = absurd (ground (arith, e))
  numeric_value-float_of_value (scalar nothing) p e = absurd (ground (arith, e))
  numeric_value-float_of_value (dict items) p e = absurd (ground (arith, e))

  -- What the checks of a number ask of it, which NaN passes.
  abbrev pub IsChecked : TunerKind → TunableSpec → (old_value : Value) → Number → Type 0
  IsChecked kind spec old_value p =
      (in_bounds spec p ≡ true)
      × (is_rollback kind ≡ false
          → (x : Number) × (float_of_value j old_value ≡ some x) × (within_delta spec p x ≡ true))

  checks_both :
      (spec : TunableSpec) (p : Number) (current : Option Number)
      → (check_bounds spec p then_check check_delta spec p current) ≡ accepted
      → (x : Number) × (in_bounds spec p ≡ true)
        × (current ≡ some x)
        × (within_delta spec p x ≡ true)
  checks_both spec p current e = elim (Bool-cases (in_bounds spec p)) [
    | inr b ↦ absurd (ground (arith, b, e))
    | inl b ↦ elim (Option-cases current) [
      | inl n ↦ absurd (ground (arith, b, n, e))
      | inr (x, n) ↦ elim (Bool-cases (within_delta spec p x)) [
        | inl w ↦ (x, b, n, w)
        | inr w ↦ absurd (ground (arith, b, n, w, e))
      ]
    ]
  ]

  validate_float-IsChecked :
      (spec : TunableSpec) (old new : Value)
      → validate_float j spec old new ≡ accepted
      → (p : Number) × (numeric_value new ≡ some p)
        × (in_bounds spec p ≡ true)
        × ((x : Number) × (float_of_value j old ≡ some x) × (within_delta spec p x ≡ true))
  unfolding validate_float
  validate_float-IsChecked spec old (dict items) e = absurd (ground (arith, e))
  validate_float-IsChecked spec old (scalar s) e = elim (Option-cases (numeric s)) [
    | inl n ↦ absurd (ground (arith, n, e))
    | inr (p, n) ↦
        let done = checks_both spec p (float_of_value j old) (ground (arith, n, e)) in
        (p, n, done.1, (done.0, done.2, done.3))
  ]

  validate_int-IsChecked :
      (spec : TunableSpec) (old new : Value)
      → validate_int spec old new ≡ accepted
      → (p : Number) × (numeric_value new ≡ some p)
        × (in_bounds spec p ≡ true)
        × ((x : Number) × (float_of_value j old ≡ some x) × (within_delta spec p x ≡ true))
  unfolding validate_int
  validate_int-IsChecked spec old new e = elim (Option-cases (as_int new)) [
    | inl n ↦ absurd (ground (arith, n, e))
    | inr (p, n) ↦
        let done = checks_both spec p (numeric_value old) (ground (arith, n, e)) in
        (
          p,
          as_int-numeric_value new p n,
          done.1,
          (done.0, numeric_value-float_of_value old done.0 done.2, done.3),
        )
  ]

  validate_bounds_only-IsChecked :
      (spec : TunableSpec) (new : Value)
      → is_number spec.kind ≡ true
      → validate_bounds_only j spec new ≡ accepted
      → (p : Number) × (numeric_value new ≡ some p) × (in_bounds spec p ≡ true)
  unfolding validate_bounds_only
  validate_bounds_only-IsChecked spec new n e = elim (kind-cases spec.kind n) [
    | inl k ↦ elim (Option-cases (numeric_value new)) [
      | inl f ↦ absurd (ground (arith, k, f, e))
      | inr (p, f) ↦ elim (Bool-cases (in_bounds spec p)) [
        | inl b ↦ (p, f, b)
        | inr b ↦ absurd (ground (arith, k, f, b, e))
      ]
    ]
    | inr k ↦ elim (Option-cases (as_int new)) [
      | inl f ↦ absurd (ground (arith, k, f, e))
      | inr (p, f) ↦ elim (Bool-cases (in_bounds spec p)) [
        | inl b ↦ (p, as_int-numeric_value new p f, b)
        | inr b ↦ absurd (ground (arith, k, f, b, e))
      ]
    ]
  ]

  validate-IsChecked :
      (kind : TunerKind) (spec : TunableSpec) (old new : Value)
      → is_number spec.kind ≡ true
      → validate j kind spec old new ≡ accepted
      → (p : Number) × (numeric_value new ≡ some p) × IsChecked kind spec old p
  unfolding validate_change
  validate-IsChecked kind spec old new n e = elim (Bool-cases (is_rollback kind)) [
    | inl r ↦
        let done = validate_bounds_only-IsChecked spec new n (ground (arith, r, e)) in
        (done.0, done.1, (done.2, λ o. absurd (ground (arith, r, o))))
    | inr r ↦ elim (kind-cases spec.kind n) [
      | inl k ↦
          let done = validate_float-IsChecked spec old new (ground (arith, r, k, e)) in
          (done.0, done.1, (done.2, λ o. done.3))
      | inr k ↦
          let done = validate_int-IsChecked spec old new (ground (arith, r, k, e)) in
          (done.0, done.1, (done.2, λ o. done.3))
    ]
  ]

  -- The value that a recorded change of a numeric tunable puts in force is its new one.
  pub record_change-in_force :
      (bytes : String → ℕ) (r r' : Registry) (c : Change) (spec : TunableSpec) (id : String)
      (now : ℕ)
      → record_change j bytes r c id now ≡ (r', recorded)
      → spec_of c.worker c.tunable ≡ some spec
      → is_number spec.kind ≡ true
      → IsFresh j r
      → All (λ r. r.recorded_at < now) r.rows
      → is_change c.kind ≡ true
      → j.from_json (j.to_json c.new_value) ≡ c.new_value
      → (p : Number) × (active j r'.rows c.worker c.tunable spec.default ≡ c.new_value)
        × (numeric_value c.new_value ≡ some p)
        × IsChecked c.kind spec c.old_value p
  record_change-in_force bytes r r' c spec id now e s n fresh late k back =
      let inv = record_change_inv j bytes r r' c id now e in
      let crossed = validate_cross_tunable j r c.worker c.tunable c.new_value in
      let kept = validate_cross_tunable-IsFresh j r c.worker c.tunable c.new_value fresh in
      let rows = inv.1 in
      let wrote : write bytes r.rows (event_of j c id now) ≡ some rows =
        subst (λ x. write bytes x (event_of j c id now) ≡ some rows) kept.0 inv.5 in
      let end : r'.rows ≡ rows =
        ap (λ (x : Registry). x.rows) inv.6
        ∙ rows-invalidate (record crossed.0 { rows = rows }) c.worker c.tunable in
      let one : inv.0 ≡ spec = ground (arith, s, inv.2) in
      let passed =
        validate-IsChecked c.kind spec c.old_value c.new_value n
          (subst (λ x. validate j c.kind x c.old_value c.new_value ≡ accepted) one inv.3) in
      let hit =
        active-write_hit j bytes r.rows rows c id now spec.default passed.0 wrote late k back
          (numeric_value-float_of_value c.new_value passed.0 passed.1) in
      (passed.0, ap (λ x. active j x c.worker c.tunable spec.default) end ∙ hit, passed.1, passed.2)

  -- The number is within the hard bounds, and that of a promote within the bounded delta of the
  -- value it replaces.
  abbrev pub IsAllowed : TunerKind → TunableSpec → (old_value : Value) → Number → Type 0
  IsAllowed kind spec old_value p =
      (within_bounds spec p ≡ true)
      × (is_rollback kind ≡ false
          → (x : Number) × (float_of_value j old_value ≡ some x) × (within_delta spec p x ≡ true))

  -- A recorded change of a numeric tunable of the whitelist, to a value that is not NaN, puts a
  -- number in force that lies within the hard bounds, and on a promote within the bounded delta of
  -- the old value, which is no bound where that is 0, infinite or NaN; where the registry's cache
  -- agrees with the table, the row is later than all others, and the new value reads back as it
  -- was written.
  pub record_change-IsAllowed :
      (bytes : String → ℕ) (r r' : Registry) (c : Change) (spec : TunableSpec) (id : String)
      (now : ℕ)
      → record_change j bytes r c id now ≡ (r', recorded)
      → spec_of c.worker c.tunable ≡ some spec
      → is_number spec.kind ≡ true
      → IsFresh j r
      → All (λ r. r.recorded_at < now) r.rows
      → is_change c.kind ≡ true
      → j.from_json (j.to_json c.new_value) ≡ c.new_value
      → float_of_value j c.new_value ≢ some nan
      → (p : Number) × (numeric_value (active j r'.rows c.worker c.tunable spec.default) ≡ some p)
        × IsAllowed c.kind spec c.old_value p
  record_change-IsAllowed bytes r r' c spec id now e s n fresh late k back number =
      let done = record_change-in_force bytes r r' c spec id now e s n fresh late k back in
      let real : is_nan done.0 ≡ false = is_nan-false done.0 (λ x.
        number (numeric_value-float_of_value c.new_value done.0 done.2 ∙ ap (λ y. some y) x)) in
      (
        done.0,
        ap numeric_value done.1 ∙ done.2,
        (in_bounds-within_bounds spec done.0 real done.3.0, done.3.1),
      )
