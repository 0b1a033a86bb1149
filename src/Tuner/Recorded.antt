-- ===== src/Tuner/Recorded.antt =====
-- What a recorded change went through (afair/agents/tunable_registry.py).
use afair.Prelude.{
  ℕ, ◌≡◌, ◌∙◌, refl, ap, sym, subst, inl, inr, ◌⊎◌, String, some, List, arith, Option-cases,
}
use afair.Tuner.State.{TunerEvent, write}
use afair.Tuner.Values.{Json}
use afair.Tuner.Validate.{TunableSpec, Check, accepted, change_rejected, crashed}
use afair.Tuner.Whitelist.{spec_of}
use afair.Tuner.Registry.{
  Registry, invalidate, validate_cross_tunable, validate, Change, recorded, event_of, finish,
  check_change, record_change,
}

pub Check-cases : (c : Check) → (c ≡ accepted) ⊎ (c ≡ change_rejected) ⊎ (c ≡ crashed)
Check-cases accepted = inl refl
Check-cases change_rejected = inr (inl refl)
Check-cases crashed = inr (inr refl)

module _ (j : Json) where
  finish_inv :
      (bytes : String → ℕ) (r r' : Registry) (c : Change) (id : String) (now : ℕ) (check : Check)
      → finish j bytes r c id now check ≡ (r', recorded)
      → (rows : List TunerEvent) × (check ≡ accepted)
        × (write bytes r.rows (event_of j c id now) ≡ some rows)
        × (r' ≡ invalidate (record r { rows = rows }) c.worker c.tunable)
  unfolding finish
  finish_inv bytes r r' c id now change_rejected e = absurd (ground (arith, e))
  finish_inv bytes r r' c id now crashed e = absurd (ground (arith, e))
  finish_inv bytes r r' c id now accepted e =
      elim (Option-cases (write bytes r.rows (event_of j c id now))) [
        | inl w ↦ absurd (ground (arith, w, e))
        | inr (rows, w) ↦ (rows, refl, w, ground (arith, w, e))
      ]

  check_change_inv :
      (r : Registry) (spec : TunableSpec) (c : Change)
      → (check_change j r spec c).1 ≡ accepted
      → (validate j c.kind spec c.old_value c.new_value ≡ accepted)
        × (check_change j r spec c ≡ validate_cross_tunable j r c.worker c.tunable c.new_value)
  unfolding check_change
  check_change_inv r spec c e =
      elim (Check-cases (validate j c.kind spec c.old_value c.new_value)) [
        | inl v ↦ (v, rw (v, check_change) refl)
        | inr (inl v) ↦ absurd (ground (arith, v, e))
        | inr (inr v) ↦ absurd (ground (arith, v, e))
      ]

  -- What a change that was recorded went through.
  pub record_change_inv :
      (bytes : String → ℕ) (r r' : Registry) (c : Change) (id : String) (now : ℕ)
      → record_change j bytes r c id now ≡ (r', recorded)
      → let crossed = validate_cross_tunable j r c.worker c.tunable c.new_value in
        (spec : TunableSpec) × (rows : List TunerEvent) × (spec_of c.worker c.tunable ≡ some spec)
        × (validate j c.kind spec c.old_value c.new_value ≡ accepted)
        × (crossed.1 ≡ accepted)
        × (write bytes crossed.0.rows (event_of j c id now) ≡ some rows)
        × (r' ≡ invalidate (record crossed.0 { rows = rows }) c.worker c.tunable)
  unfolding record_change
  record_change_inv bytes r r' c id now e =
      let crossed = validate_cross_tunable j r c.worker c.tunable c.new_value in
      elim (Option-cases (spec_of c.worker c.tunable)) [
        | inl s ↦ absurd (ground (arith, s, e))
        | inr (spec, s) ↦
            let checked = check_change j r spec c in
            let run : finish j bytes checked.0 c id now checked.1 ≡ (r', recorded) =
              ground (arith, s, e) in
            let done = finish_inv bytes checked.0 r' c id now checked.1 run in
            let passed = check_change_inv r spec c done.1 in
            (
              spec,
              done.0,
              s,
              passed.0,
              ap (λ (x : Registry × Check). x.1) (sym passed.1) ∙ done.1,
              subst
                  (λ (x : Registry × Check).
                    write bytes x.0.rows (event_of j c id now) ≡ some done.0)
                  passed.1 done.2,
              subst
                  (λ (x : Registry × Check).
                    r' ≡ invalidate (record x.0 { rows = done.0 }) c.worker c.tunable)
                  passed.1 done.3,
            )
      ]
