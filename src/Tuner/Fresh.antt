-- ===== src/Tuner/Fresh.antt =====
-- A registry whose cache agrees with the table (afair/agents/tunable_registry.py).
use afair.Prelude.{
  ◌≡◌, ◌∙◌, refl, ap, sym, subst, inl, inr, String, str_eq, eq_iff, false, some, List, find?, arith,
  All, All-find?, find?_holds, Option-cases, Bool-cases,
}
use afair.Tuner.State.{TunerEvent}
use afair.Tuner.Number.{Number, le}
use afair.Tuner.Values.{Value, Json, float_of_value}
use afair.Tuner.Validate.{TunableSpec, accepted}
use afair.Tuner.Whitelist.{spec_of, cen_spec, dmn_spec}
use afair.Tuner.Registry.{
  Cached, Registry, cached, active, load, get, mode_switcher, cen_threshold, dmn_threshold,
  validate_cross_tunable,
}

pub listed_cen : spec_of mode_switcher cen_threshold ≡ some cen_spec
unfolding spec_of find?
listed_cen = refl

pub listed_dmn : spec_of mode_switcher dmn_threshold ≡ some dmn_spec
unfolding spec_of find?
listed_dmn = refl

module _ (j : Json) where
  abbrev HasValue : List TunerEvent → Value → (worker tunable : String) → Type 0
  HasValue rows v worker tunable =
      (spec : TunableSpec)
      → spec_of worker tunable ≡ some spec
      → v ≡ active j rows worker tunable spec.default

  abbrev pub Agrees : List TunerEvent → Cached → Type 0
  Agrees rows c = HasValue rows c.value c.worker c.tunable

  -- Every cached value is the active one.
  abbrev pub IsFresh : Registry → Type 0
  IsFresh r = All (Agrees r.rows) r.cache

  get-IsFresh :
      (r r' : Registry) (worker tunable : String) (spec : TunableSpec) (v : Value)
      → spec_of worker tunable ≡ some spec
      → get j r worker tunable ≡ some (r', v)
      → IsFresh r
      → (r'.rows ≡ r.rows) × IsFresh r' × (v ≡ active j r.rows worker tunable spec.default)
  unfolding get
  get-IsFresh r r' worker tunable spec v s e fresh =
      elim (Option-cases (find? (cached worker tunable) r.cache)) [
        | inl f ↦
            let loaded : load j r spec worker tunable ≡ (r', v) = ground (arith, s, f, e) in
            let same : (load j r spec worker tunable).0 ≡ r' =
              ap (λ (x : Registry × Value). x.0) loaded in
            (
              ap (λ (x : Registry). x.rows) (sym same),
              subst IsFresh same (
                (λ spec' s'.
                    let one : spec ≡ spec' = ground (arith, s, s') in
                    ap (λ (x : TunableSpec). active j r.rows worker tunable x.default) one),
                fresh,
              ),
              sym (ap (λ (x : Registry × Value). x.1) loaded),
            )
        | inr (c, f) ↦
            let same : r ≡ r' = ground (arith, s, f, e) in
            let value : c.value ≡ v = ground (arith, s, f, e) in
            let named = find?_holds (cached worker tunable) r.cache {a = c} f in
            let w : c.worker ≡ worker = (eq_iff c.worker worker).0 (ground (arith, named)) in
            let t : c.tunable ≡ tunable = (eq_iff c.tunable tunable).0 (ground (arith, named)) in
            let agrees =
              All-find? (Agrees r.rows) (cached worker tunable) r.cache {a = c} fresh f in
            (
              ap (λ (x : Registry). x.rows) (sym same),
              subst IsFresh same fresh,
              sym value
                  ∙ subst (λ x. HasValue r.rows c.value x tunable) w
                      (subst (λ y. HasValue r.rows c.value c.worker y) t agrees) spec s,
            )
      ]

  -- The cross check keeps the cache fresh and writes nothing.
  pub validate_cross_tunable-IsFresh :
      (r : Registry) (worker tunable : String) (new : Value)
      → IsFresh r
      → ((validate_cross_tunable j r worker tunable new).0.rows ≡ r.rows)
        × IsFresh (validate_cross_tunable j r worker tunable new).0
  unfolding validate_cross_tunable
  validate_cross_tunable-IsFresh r worker tunable new fresh =
      elim (Bool-cases (str_eq worker mode_switcher)) [
        | inr m ↦ rw m (refl, fresh)
        | inl m ↦ elim (Bool-cases (str_eq tunable cen_threshold)) [
          | inl t ↦ elim (Option-cases (get j r mode_switcher dmn_threshold)) [
            | inl g ↦ rw (m, t, g) (refl, fresh)
            | inr ((r', v), g) ↦
                let done =
                  get-IsFresh r r' mode_switcher dmn_threshold dmn_spec v listed_dmn g fresh in
                rw (m, t, g) (done.0, done.1)
          ]
          | inr t ↦ elim (Bool-cases (str_eq tunable dmn_threshold)) [
            | inr u ↦ rw (m, t, u) (refl, fresh)
            | inl u ↦ elim (Option-cases (get j r mode_switcher cen_threshold)) [
              | inl g ↦ rw (m, t, u, g) (refl, fresh)
              | inr ((r', v), g) ↦
                  let done =
                    get-IsFresh r r' mode_switcher cen_threshold cen_spec v listed_cen g fresh in
                  rw (m, t, u, g) (done.0, done.1)
            ]
          ]
        ]
      ]

  abbrev pub cen_of : List TunerEvent → Value
  cen_of rows = active j rows mode_switcher cen_threshold cen_spec.default

  abbrev pub dmn_of : List TunerEvent → Value
  dmn_of rows = active j rows mode_switcher dmn_threshold dmn_spec.default

  -- A new value of the upper threshold that passes is not at most the active lower one.
  pub validate_cross_tunable-cen :
      (r : Registry) (new : Value)
      → IsFresh r
      → (validate_cross_tunable j r mode_switcher cen_threshold new).1 ≡ accepted
      → (p d : Number) × (float_of_value j new ≡ some p)
        × (float_of_value j (dmn_of r.rows) ≡ some d)
        × (le p d ≡ false)
  unfolding validate_cross_tunable
  validate_cross_tunable-cen r new fresh a =
      elim (Option-cases (get j r mode_switcher dmn_threshold)) [
        | inl g ↦ absurd (ground (arith, g, a))
        | inr ((r', v), g) ↦
            let done = get-IsFresh r r' mode_switcher dmn_threshold dmn_spec v listed_dmn g fresh in
            elim (Option-cases (float_of_value j v)) [
              | inl n ↦ absurd (ground (arith, g, a, n))
              | inr (d, n) ↦ elim (Option-cases (float_of_value j new)) [
                | inl o ↦ absurd (ground (arith, g, a, n, o))
                | inr (p, o) ↦ (
                  p,
                  d,
                  o,
                  ap (λ x. float_of_value j x) (sym done.2) ∙ n,
                  ground (arith, g, a, n, o),
                )
              ]
            ]
      ]

  -- And the other way round.
  pub validate_cross_tunable-dmn :
      (r : Registry) (new : Value)
      → IsFresh r
      → (validate_cross_tunable j r mode_switcher dmn_threshold new).1 ≡ accepted
      → (p c : Number) × (float_of_value j new ≡ some p)
        × (float_of_value j (cen_of r.rows) ≡ some c)
        × (le c p ≡ false)
  unfolding validate_cross_tunable
  validate_cross_tunable-dmn r new fresh a =
      elim (Option-cases (get j r mode_switcher cen_threshold)) [
        | inl g ↦ absurd (ground (arith, g, a))
        | inr ((r', v), g) ↦
            let done = get-IsFresh r r' mode_switcher cen_threshold cen_spec v listed_cen g fresh in
            elim (Option-cases (float_of_value j v)) [
              | inl n ↦ absurd (ground (arith, g, a, n))
              | inr (c, n) ↦ elim (Option-cases (float_of_value j new)) [
                | inl o ↦ absurd (ground (arith, g, a, n, o))
                | inr (p, o) ↦ (
                  p,
                  c,
                  o,
                  ap (λ x. float_of_value j x) (sym done.2) ∙ n,
                  ground (arith, g, a, n, o),
                )
              ]
            ]
      ]
