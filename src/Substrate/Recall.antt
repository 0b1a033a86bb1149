-- ===== src/Substrate/Recall.antt =====
-- What recall reads after an interpretation was written (`read_latest_interpretation` of
-- afair/agents/interpretation.py).
use afair.Prelude.{
  ℕ, ◌<◌, ◌≡◌, ◌∙◌, refl, ap, sym, inl, inr, String, eq_iff, length, length-append_one, ◌≢◌, Bool,
  true, false, some, [], ◌∷◌, ◌++◌, arith, All, select-append_other, first_by,
  first_by-append_first,
}
use afair.Substrate.Events.{EventRow}
use afair.Substrate.Interpretations.{
  Extraction, Interpretation, Interpretations, Likes, newer, failure, write_interpretation,
  write_failed_interpretation, read_latest_interpretation,
}
use afair.Substrate.Writes.{
  write_interpretation_cases, write_failed_interpretation_inv, next_row_fields,
}

append_ne : (rows : Interpretations) (i : Interpretation) → rows ≢ rows ++ i ∷ []
append_ne rows i e = absurd (omega (arith, ap length e, length-append_one rows i))

All-newer :
    (rows : Interpretations) (i : Interpretation) (now : ℕ)
    → i.produced_at ≡ now
    → All (λ r. r.produced_at < now) rows
    → All (λ r. newer i r ≡ true) rows
All-newer [] i now e h = tt
All-newer (r ∷ rows) i now e h = (ground (arith, h.0), All-newer rows i now e h.1)

module _ (k : Likes) where
  -- A failure hides no success: after it, recall reads for every event what it read before.
  pub read_latest_interpretation-write_failed :
      (rows rows' : Interpretations) (event : EventRow) (version : ℕ)
      (produced_by error_type error_message interp_id : String) (now : ℕ) (i : Interpretation)
      (traced : Bool) (event_hash : String)
      → write_failed_interpretation k rows event version produced_by error_type error_message
          interp_id now
        ≡ some (rows', i, traced)
      → read_latest_interpretation k rows' event_hash ≡ read_latest_interpretation k rows event_hash
  unfolding read_latest_interpretation
  read_latest_interpretation-write_failed rows rows' event version produced_by error_type
        error_message interp_id now i traced event_hash e =
      let failing = failure k rows event error_type error_message in
      let inv =
        write_failed_interpretation_inv k rows rows' event version produced_by error_type
          error_message interp_id now i traced e in
      elim (write_interpretation_cases k rows rows' event version produced_by failing interp_id now
        i inv.0) [
          | inl (same, g, h) ↦ rw same refl
          | inr (new, row) ↦
              let fields = next_row_fields k rows event version produced_by failing interp_id now in
              let bad : i.extraction.failed ≡ true =
                rw row (ap (λ (x : Extraction). x.failed) fields.2) in
              rw new (ap (first_by newer) (select-append_other _ rows i (ground (arith, bad))))
        ]

  -- A success that is later than all rows is what recall reads next.
  pub read_latest_interpretation-write :
      (rows rows' : Interpretations) (event : EventRow) (version : ℕ) (produced_by : String)
      (extraction : Extraction) (interp_id : String) (now : ℕ) (i : Interpretation)
      → write_interpretation k rows event version produced_by extraction interp_id now
        ≡ some (rows', i)
      → rows' ≡ rows ++ i ∷ []
      → All (λ r. r.produced_at < now) rows
      → extraction.failed ≡ false
      → k.is_extractor i.produced_by ≡ true
      → read_latest_interpretation k rows' event.content_hash ≡ some i
  unfolding read_latest_interpretation
  read_latest_interpretation-write rows rows' event version produced_by extraction interp_id now i w
        new late good mine =
      elim (write_interpretation_cases k rows rows' event version produced_by extraction interp_id
        now i w) [
          | inl (same, e, g) ↦ absurd (append_ne rows i (sym same ∙ new))
          | inr (same, row) ↦
              let fields =
                next_row_fields k rows event version produced_by extraction interp_id now in
              let at : i.produced_at ≡ now = rw row fields.1 in
              let fine : i.extraction.failed ≡ false =
                rw row (ap (λ (x : Extraction). x.failed) fields.2 ∙ good) in
              let here : i.event_hash ≡ event.content_hash = rw row fields.0 in
              rw new (
                first_by-append_first newer _ rows i (All-newer rows i now at late)
                  (ground (arith, fine, mine, eq_iff i.event_hash event.content_hash)))
        ]
