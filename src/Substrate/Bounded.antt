-- ===== src/Substrate/Bounded.antt =====
-- The retries of a failing extraction end (afair/agents/extraction_retry.py).
use afair.Prelude.{
  count-append_one, ℕ, zero, suc, ◌+◌, ◌<◌, ◌≤◌, ◌≡◌, refl, ap, inl, inr, String, eq_iff, true,
  Option, none, some, [], ◌∷◌, find?, take, length, arith, All, Bool-cases, All-sort_by, All-select,
}
use afair.Substrate.Events.{EventRow}
use afair.Substrate.Interpretations.{
  base, retry, Extraction, Interpretation, Interpretations, Likes, of_hash, is_failed_attempt,
  count_failed_extractor_attempts, failure, write_interpretation, write_failed_interpretation,
}
use afair.Substrate.Writes.{
  write_interpretation_cases, write_failed_interpretation_inv, next_row-producer, next_row_fields,
}
use afair.Substrate.Retries.{is_candidate, is_transient, retry_rows, max_extraction_retries, window}

module _ (P : Interpretation → Type 0) where
  All-take : (n : ℕ) (rows : Interpretations) → All P rows → All P (take n rows)
  All-take n [] h = tt
  All-take zero (r ∷ rows) h = tt
  All-take (suc n) (r ∷ rows) h = (h.0, All-take n rows h.1)

length-take-le : (n : ℕ) (rows : Interpretations) → length (take n rows) ≤ n
length-take-le n [] = omega arith
length-take-le zero (r ∷ rows) = omega arith
length-take-le (suc n) (r ∷ rows) = omega (arith, length-take-le n rows)

module _ (k : Likes) where
  -- At most `limit` rows are retried, and each is a transient failure of an event with fewer than
  -- three failures so far.
  pub retry_rows-All :
      (rows : Interpretations) (limit : ℕ) (wm_id : Option String)
      → (length (retry_rows k rows limit wm_id) ≤ limit)
        × All
            (λ r.
              (r.extraction.failed ≡ true)
              × (is_transient r.extraction.error_type ≡ true)
              × (count_failed_extractor_attempts k rows r.event_hash < max_extraction_retries))
            (retry_rows k rows limit wm_id)
  unfolding retry_rows is_candidate
  retry_rows-All rows limit wm_id = (
    length-take-le limit _,
    All-take _ limit _ (
        All-sort_by _ _ _ (
          All-select _ _ (window k rows wm_id)
            (λ r h. (ground (arith, h), ground (arith, h), ground (arith, h))))),
  )

  -- A failure that is stored is one more failed attempt of its event.
  pub count-write_failed_interpretation :
      (rows rows' : Interpretations) (event : EventRow) (version : ℕ)
      (produced_by error_type error_message interp_id : String) (now : ℕ) (i : Interpretation)
      → (k.is_extractor (base produced_by) ≡ true)
      → ((n : ℕ) → k.is_extractor (retry produced_by n) ≡ true)
      → write_failed_interpretation k rows event version produced_by error_type error_message
          interp_id now
        ≡ some (rows', i, true)
      → count_failed_extractor_attempts k rows' event.content_hash
        ≡ count_failed_extractor_attempts k rows event.content_hash + 1
  unfolding count_failed_extractor_attempts
  count-write_failed_interpretation rows rows' event version produced_by error_type error_message
        interp_id now i mine again e =
      let failing = failure k rows event error_type error_message in
      let inv =
        write_failed_interpretation_inv k rows rows' event version produced_by error_type
          error_message interp_id now i true e in
      elim (write_interpretation_cases k rows rows' event version produced_by failing interp_id now
        i inv.0) [
          | inl (same, g, h) ↦ absurd (ground (arith, inv.1, h))
          | inr (new, row) ↦
              let fields = next_row_fields k rows event version produced_by failing interp_id now in
              let here : i.event_hash ≡ event.content_hash = rw row fields.0 in
              let extracted : k.is_extractor i.produced_by ≡ true = rw row (
                next_row-producer k k.is_extractor rows event version produced_by failing interp_id
                  now mine again) in
              rw new (
                ground (
                  arith,
                  count-append_one (is_failed_attempt k event.content_hash) rows i,
                  inv.1,
                  extracted,
                  eq_iff i.event_hash event.content_hash,
                ))
        ]

  -- No write takes a failed attempt away.
  count-write_interpretation :
      (rows rows' : Interpretations) (written : EventRow) (version : ℕ) (produced_by : String)
      (extraction : Extraction) (interp_id : String) (now : ℕ) (i : Interpretation) (h : String)
      → write_interpretation k rows written version produced_by extraction interp_id now
        ≡ some (rows', i)
      → count_failed_extractor_attempts k rows h ≤ count_failed_extractor_attempts k rows' h
  unfolding count_failed_extractor_attempts
  count-write_interpretation rows rows' written version produced_by extraction interp_id now i h e =
      elim (write_interpretation_cases k rows rows' written version produced_by extraction interp_id
        now i e) [
          | inl (same, g, f) ↦ rw same (omega arith)
          | inr (new, row) ↦
              rw new (ground (arith, count-append_one (is_failed_attempt k h) rows i))
        ]

  -- Writes of interpretations, of any events and by any producers, among them a number of failed
  -- attempts at one event that were stored. Nothing is deleted.
  pub data Failures (event : EventRow) (rows : Interpretations) : ℕ → Interpretations → Type 0 where
    none_yet : Failures event rows 0 rows
    one_more :
        {n : ℕ} {rows' rows'' : Interpretations} (version : ℕ)
        (produced_by error_type error_message interp_id : String) (now : ℕ) (i : Interpretation)
        → Failures event rows n rows'
        → k.is_extractor (base produced_by) ≡ true
        → ((m : ℕ) → k.is_extractor (retry produced_by m) ≡ true)
        → write_failed_interpretation k rows' event version produced_by error_type error_message
            interp_id now
          ≡ some (rows'', i, true)
        → Failures event rows (suc n) rows''
    other_write :
        {n : ℕ} {rows' rows'' : Interpretations} (written : EventRow) (version : ℕ)
        (produced_by : String) (extraction : Extraction) (interp_id : String) (now : ℕ)
        (i : Interpretation)
        → Failures event rows n rows'
        → write_interpretation k rows' written version produced_by extraction interp_id now
          ≡ some (rows'', i)
        → Failures event rows n rows''

  count-Failures :
      (event : EventRow) (rows rows' : Interpretations) (n : ℕ)
      → Failures event rows n rows'
      → n ≤ count_failed_extractor_attempts k rows' event.content_hash
  count-Failures event rows rows' zero none_yet = omega arith
  count-Failures event rows rows'' (suc n)
        (one_more {rows' = rows'} version produced_by error_type error_message interp_id now i
          before mine again e) =
      omega (
        arith,
        count-Failures event rows rows' n before,
        count-write_failed_interpretation rows' rows'' event version produced_by error_type
            error_message interp_id now i mine again e,
      )
  count-Failures event rows rows'' n
        (other_write {rows' = rows'} written version produced_by extraction interp_id now i before
          e) =
      omega (
        arith,
        count-Failures event rows rows' n before,
        count-write_interpretation rows' rows'' written version produced_by extraction interp_id now
            i event.content_hash e,
      )

  absent_by_count :
      (h : String) (rows found : Interpretations)
      → max_extraction_retries ≤ count_failed_extractor_attempts k rows h
      → All
          (λ r.
            (r.extraction.failed ≡ true)
            × (is_transient r.extraction.error_type ≡ true)
            × (count_failed_extractor_attempts k rows r.event_hash < max_extraction_retries))
          found
      → find? (of_hash h) found ≡ none
  unfolding find?
  absent_by_count h rows [] c a = refl
  absent_by_count h rows (r ∷ found) c a = elim (Bool-cases (of_hash h r)) [
    | inr e ↦ ground (arith, e, absent_by_count h rows found c a.1)
    | inl e ↦
        let same = ap (count_failed_extractor_attempts k rows) ((eq_iff r.event_hash h).0 e) in
        absurd (omega (arith, same, a.0.2))
  ]

  -- Retrying ends: once three failures of an event were stored, by whatever producers and
  -- versions, it is not selected any more, whatever was written before them, between them and since,
  -- and whatever the watermark and the limit, while nothing is deleted.
  pub retry_rows-Failures :
      (event : EventRow) (rows rows' : Interpretations) (n limit : ℕ) (wm_id : Option String)
      → Failures event rows n rows'
      → max_extraction_retries ≤ n
      → find? (of_hash event.content_hash) (retry_rows k rows' limit wm_id) ≡ none
  retry_rows-Failures event rows rows' n limit wm_id failures enough =
      absent_by_count event.content_hash rows' _
        (omega (arith, count-Failures event rows rows' n failures))
        (retry_rows-All rows' limit wm_id).1
