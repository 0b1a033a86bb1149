-- ===== src/Substrate/Writes.antt =====
-- What a write of an interpretation inserts (afair/agents/interpretation.py).
use afair.Prelude.{
  ℕ, ◌≡◌, ◌⊎◌, refl, inl, inr, String, Bool, true, false, none, some, [], ◌∷◌, ◌++◌, arith,
  Option-cases, Bool-cases,
}
use afair.Substrate.Events.{EventRow}
use afair.Substrate.Interpretations.{
  Producer, base, retry, Extraction, Interpretation, Interpretations, Likes, read_existing,
  count_extractor_attempts, insert_row, new_row, write_interpretation, write_failed_interpretation,
  failure,
}

module _ (k : Likes) where
  -- What a write may insert: the base row, or the retry of the next number.
  abbrev pub next_row :
      Interpretations
      → EventRow
      → (version : ℕ) (produced_by : String) → Extraction
      → (interp_id : String) (now : ℕ) → Interpretation
  next_row rows event version produced_by extraction interp_id now =
      elim (read_existing rows event.content_hash version (base produced_by)) [
        | none ↦ new_row event version (base produced_by) extraction interp_id now
        | some existing ↦
            new_row event version
              (retry produced_by
                (count_extractor_attempts k rows event.content_hash version produced_by))
              extraction interp_id now
      ]

  pub next_row_fields :
      (rows : Interpretations) (event : EventRow) (version : ℕ) (produced_by : String)
      (extraction : Extraction) (interp_id : String) (now : ℕ)
      → let i = next_row rows event version produced_by extraction interp_id now in
        (i.event_hash ≡ event.content_hash) × (i.produced_at ≡ now) × (i.extraction ≡ extraction)
  next_row_fields rows event version produced_by extraction interp_id now =
      elim (Option-cases (read_existing rows event.content_hash version (base produced_by))) [
        | inl f ↦ rw (f, next_row) (refl, refl, refl)
        | inr (e, f) ↦ rw (f, next_row) (refl, refl, refl)
      ]

  pub next_row-producer :
      (P : Producer → Bool) (rows : Interpretations) (event : EventRow) (version : ℕ)
      (produced_by : String) (extraction : Extraction) (interp_id : String) (now : ℕ)
      → P (base produced_by) ≡ true
      → ((n : ℕ) → P (retry produced_by n) ≡ true)
      → P (next_row rows event version produced_by extraction interp_id now).produced_by ≡ true
  next_row-producer P rows event version produced_by extraction interp_id now b r =
      elim (Option-cases (read_existing rows event.content_hash version (base produced_by))) [
        | inl f ↦ rw (f, next_row) b
        | inr (e, f) ↦ rw (f, next_row) (r _)
      ]

  -- Recording a failure is a write, whose row says whether it is traced.
  pub write_failed_interpretation_inv :
      (rows rows' : Interpretations) (event : EventRow) (version : ℕ)
      (produced_by error_type error_message interp_id : String) (now : ℕ) (i : Interpretation)
      (traced : Bool)
      → write_failed_interpretation k rows event version produced_by error_type error_message
          interp_id now
        ≡ some (rows', i, traced)
      → (write_interpretation k rows event version produced_by
            (failure k rows event error_type error_message)
            interp_id
            now
          ≡ some (rows', i))
        × (traced ≡ i.extraction.failed)
  unfolding write_failed_interpretation
  write_failed_interpretation_inv rows rows' event version produced_by error_type error_message
        interp_id now i traced e =
      elim (Option-cases (
        write_interpretation k rows event version produced_by
          (failure k rows event error_type error_message) interp_id now)) [
            | inl f ↦ absurd (ground (arith, f, e))
            | inr ((w, j), f) ↦ (ground (arith, f, e), ground (arith, f, e))
          ]

  -- A write gives the success of the base row that is there, or appends a row.
  pub write_interpretation_cases :
      (rows rows' : Interpretations) (event : EventRow) (version : ℕ) (produced_by : String)
      (extraction : Extraction) (interp_id : String) (now : ℕ) (i : Interpretation)
      → write_interpretation k rows event version produced_by extraction interp_id now
        ≡ some (rows', i)
      → ((rows' ≡ rows)
          × (read_existing rows event.content_hash version (base produced_by) ≡ some i)
          × (i.extraction.failed ≡ false))
        ⊎ ((rows' ≡ rows ++ i ∷ [])
            × (i ≡ next_row rows event version produced_by extraction interp_id now))
  unfolding write_interpretation insert_row
  write_interpretation_cases rows rows' event version produced_by extraction interp_id now i w =
      elim (Option-cases (read_existing rows event.content_hash version (base produced_by))) [
        | inl f ↦ inr (ground (arith, f), ground (arith, f))
        | inr (e, f) ↦ elim (Bool-cases e.extraction.failed) [
          | inl g ↦ inr (ground (arith, f, g), ground (arith, f, g))
          | inr g ↦ inl (ground (arith, f, g), ground (arith, f, g), ground (arith, f, g))
        ]
      ]
