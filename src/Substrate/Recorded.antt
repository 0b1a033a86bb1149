-- ===== src/Substrate/Recorded.antt =====
-- The rows of a producer after a write (afair/agents/interpretation.py).
use afair.Prelude.{
  ℕ, ◌≡◌, refl, ap, inl, inr, String, eq_refl, Bool, true, some, [], ◌∷◌, ◌++◌, find?, is_some,
  arith, Option-cases, find?-append_some, find?-append_one, find?-none_sub,
}
use afair.Substrate.Events.{EventRow}
use afair.Substrate.Interpretations.{
  base, same_producer, Extraction, Interpretation, Interpretations, Likes, has_key, read_existing,
  write_interpretation,
}
use afair.Substrate.Writes.{next_row, write_interpretation_cases}

abbrev pub of_producer : String → Interpretation → Bool
of_producer produced_by r = same_producer r.produced_by (base produced_by)

existing_of_producer :
    (rows : Interpretations) (event_hash : String) (version : ℕ) (produced_by : String)
    (r : Interpretation)
    → read_existing rows event_hash version (base produced_by) ≡ some r
    → is_some (find? (of_producer produced_by) rows) ≡ true
unfolding read_existing
existing_of_producer rows event_hash version produced_by r f =
    elim (Option-cases (find? (of_producer produced_by) rows)) [
      | inr (a, n) ↦ rw n refl
      | inl n ↦
          let gone =
            find?-none_sub (has_key event_hash version (base produced_by)) (of_producer produced_by)
              rows (λ x h. ground (arith, h)) n in
          absurd (ground (arith, gone, f))
    ]

is_some-append :
    (p : Interpretation → Bool) (rows : Interpretations) (i : Interpretation)
    → is_some (find? p rows) ≡ true
    → is_some (find? p (rows ++ i ∷ [])) ≡ true
is_some-append p rows i h = elim (Option-cases (find? p rows)) [
  | inl n ↦ absurd (ground (arith, n, h))
  | inr (a, n) ↦ ap is_some (find?-append_some p rows (i ∷ []) {a = a} n)
]

module _ (k : Likes) where
  pub write_interpretation-of_producer :
      (rows rows' : Interpretations) (event : EventRow) (version : ℕ) (produced_by : String)
      (extraction : Extraction) (interp_id : String) (now : ℕ) (i : Interpretation)
      → write_interpretation k rows event version produced_by extraction interp_id now
        ≡ some (rows', i)
      → is_some (find? (of_producer produced_by) rows') ≡ true
  write_interpretation-of_producer rows rows' event version produced_by extraction interp_id now i
        w =
      let p = of_producer produced_by in
      elim (write_interpretation_cases k rows rows' event version produced_by extraction interp_id
        now i w) [
          | inl (same, f, g) ↦
              rw same (existing_of_producer rows event.content_hash version produced_by i f)
          | inr (new, row) ↦ rw new (elim (Option-cases (find? p rows)) [
            | inr (a, n) ↦ is_some-append p rows i (rw n refl)
            | inl n ↦
                elim (Option-cases
                  (read_existing rows event.content_hash version (base produced_by))) [
                    | inr (e, f) ↦ absurd (
                        ground (
                          arith,
                          n,
                          existing_of_producer rows event.content_hash version produced_by e f,
                        ))
                    | inl f ↦
                        ap is_some (
                          find?-append_one p rows i n (rw (row, f, next_row) (eq_refl produced_by)))
                  ]
          ])
        ]
