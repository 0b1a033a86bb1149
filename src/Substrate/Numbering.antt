-- ===== src/Substrate/Numbering.antt =====
-- How the retries of an interpretation are numbered, and writes after a success or a failure
-- (afair/agents/interpretation.py).
use afair.Prelude.{
  ℕ, ◌+◌, ◌<◌, ◌≡◌, refl, subst, inl, inr, String, eq_iff, eq_refl, true, false, none, some, [],
  ◌∷◌, ◌++◌, find?, if◌then◌else◌, arith, Option-cases, Bool-cases, count-append_one,
  find?-append_one, find?-append_other,
}
use afair.Substrate.Events.{EventRow}
use afair.Substrate.Interpretations.{
  base, retry, Extraction, Interpretation, Interpretations, Likes, has_key, has_row_id,
  read_existing, is_attempt, count_extractor_attempts, insert_row, new_row,
  count_failed_extractor_attempts, write_interpretation, write_failed_interpretation, failure,
}
use afair.Substrate.Writes.{next_row, write_interpretation_cases}

module _ (k : Likes) (like : (b : String) (n : ℕ) → k.like_retry b (retry b n) ≡ true) where
  -- A retry's number is below the number of attempts.
  abbrev pub IsNumbered : Interpretations → Type 0
  IsNumbered rows =
      (event_hash : String) (version : ℕ) (b : String) (n : ℕ) (r : Interpretation)
      → find? (has_key event_hash version (retry b n)) rows ≡ some r
      → n < count_extractor_attempts k rows event_hash version b

  count_append :
      (rows : Interpretations) (i : Interpretation) (event_hash : String) (version : ℕ) (b : String)
      → count_extractor_attempts k (rows ++ i ∷ []) event_hash version b
        ≡ count_extractor_attempts k rows event_hash version b
          + (if is_attempt k event_hash version b i then 1 else 0)
  unfolding count_extractor_attempts
  count_append rows i event_hash version b =
      count-append_one (is_attempt k event_hash version b) rows i

  next_row-numbered :
      (rows : Interpretations) (event : EventRow) (version : ℕ) (produced_by : String)
      (extraction : Extraction) (interp_id : String) (now : ℕ) (event_hash : String) (v : ℕ)
      (b : String) (n : ℕ)
      → let i = next_row k rows event version produced_by extraction interp_id now in
        has_key event_hash v (retry b n) i ≡ true
        → (n ≡ count_extractor_attempts k rows event_hash v b)
          × (is_attempt k event_hash v b i ≡ true)
  next_row-numbered rows event version produced_by extraction interp_id now event_hash v b n h =
      elim (Option-cases (read_existing rows event.content_hash version (base produced_by))) [
        | inl f ↦ absurd (ground (arith, f, h))
        | inr (e, f) ↦ (
          ground (arith, f, h, eq_iff event.content_hash event_hash, eq_iff produced_by b),
          ground (
            arith,
            f,
            h,
            like produced_by
                (count_extractor_attempts k rows event.content_hash version produced_by),
            eq_iff event.content_hash event_hash,
            eq_iff produced_by b,
          ),
        )
      ]

  last_has_key :
      (rows : Interpretations) (i r : Interpretation) (event_hash : String) (v : ℕ) (b : String)
      (n : ℕ)
      → find? (has_key event_hash v (retry b n)) rows ≡ none
      → find? (has_key event_hash v (retry b n)) (rows ++ i ∷ []) ≡ some r
      → has_key event_hash v (retry b n) i ≡ true
  last_has_key rows i r event_hash v b n f e =
      elim (Bool-cases (has_key event_hash v (retry b n) i)) [
        | inl t ↦ t
        | inr t ↦
            let none' = find?-append_other (has_key event_hash v (retry b n)) rows i t in
            absurd (ground (arith, none', f, e))
      ]

  -- Writing keeps the numbers below the count.
  pub write_interpretation-IsNumbered :
      (rows rows' : Interpretations) (event : EventRow) (version : ℕ) (produced_by : String)
      (extraction : Extraction) (interp_id : String) (now : ℕ) (i : Interpretation)
      → write_interpretation k rows event version produced_by extraction interp_id now
        ≡ some (rows', i)
      → IsNumbered rows
      → IsNumbered rows'
  write_interpretation-IsNumbered rows rows' event version produced_by extraction interp_id now i w
        v event_hash u b n r found =
      elim (write_interpretation_cases k rows rows' event version produced_by extraction interp_id
        now i w) [
          | inl (same, e, g) ↦
              let found' : find? (has_key event_hash u (retry b n)) rows ≡ some r =
                rw same at found in
              rw same (v event_hash u b n r found')
          | inr (new, row) ↦
              let counted = count_append rows i event_hash u b in
              rw new (elim (Option-cases (find? (has_key event_hash u (retry b n)) rows)) [
                | inr (old, f) ↦ ground (arith, counted, v event_hash u b n old f)
                | inl f ↦
                    let numbered =
                      next_row-numbered rows event version produced_by extraction interp_id now
                        event_hash u b n
                        (subst (λ j. has_key event_hash u (retry b n) j ≡ true) row
                          (last_has_key rows i r event_hash u b n f (rw new at found))) in
                    let attempt : is_attempt k event_hash u b i ≡ true = rw row numbered.1 in
                    ground (arith, counted, numbered.0, attempt)
              ])
        ]

  insert_row_free :
      (rows : Interpretations) (r : Interpretation)
      → find? (has_key r.event_hash r.version r.produced_by) rows ≡ none
      → find? (has_row_id r.id) rows ≡ none
      → insert_row rows r ≡ some (rows ++ r ∷ [], r)
  unfolding insert_row
  insert_row_free rows r e f = ground (arith, e, f)

  -- A table that writes of interpretations filled, of any events and by any producers. Nothing is
  -- deleted.
  pub data Written : Interpretations → Type 0 where
    none_written : Written []
    one_written :
        {rows rows' : Interpretations} (event : EventRow) (version : ℕ) (produced_by : String)
        (extraction : Extraction) (interp_id : String) (now : ℕ) (i : Interpretation)
        → Written rows
        → write_interpretation k rows event version produced_by extraction interp_id now
          ≡ some (rows', i)
        → Written rows'

  pub Written-IsNumbered : (rows : Interpretations) → Written rows → IsNumbered rows
  unfolding find?
  Written-IsNumbered rows none_written = λ event_hash version b n r e. absurd (ground (arith, e))
  Written-IsNumbered rows'
        (one_written {rows = rows} event version produced_by extraction interp_id now i before e) =
      write_interpretation-IsNumbered rows rows' event version produced_by extraction interp_id now
        i e (Written-IsNumbered rows before)

  -- A success is not written twice: while the first attempt at a version has not failed, a second
  -- write by the same producer changes nothing and gives the row that is there.
  pub write_interpretation_twice :
      (rows rows' : Interpretations) (event : EventRow) (version : ℕ) (produced_by : String)
      (extraction extraction' : Extraction) (interp_id interp_id' : String) (now now' : ℕ)
      (i : Interpretation)
      → write_interpretation k rows event version produced_by extraction interp_id now
        ≡ some (rows', i)
      → i.extraction.failed ≡ false
      → i.produced_by ≡ base produced_by
      → write_interpretation k rows' event version produced_by extraction' interp_id' now'
        ≡ some (rows', i)
  unfolding write_interpretation read_existing
  write_interpretation_twice rows rows' event version produced_by extraction extraction' interp_id
        interp_id' now now' i w good first =
      let p = has_key event.content_hash version (base produced_by) in
      elim (write_interpretation_cases k rows rows' event version produced_by extraction interp_id
        now i w) [
          | inl (same, e, g) ↦
              let found : find? p rows' ≡ some i = rw same e in ground (arith, found, good)
          | inr (new, row) ↦ elim (Option-cases (find? p rows)) [
            | inr (r, f) ↦ absurd (ground (arith, row, first, f))
            | inl f ↦
                let key : p i ≡ true =
                  ground (arith, row, f, eq_refl event.content_hash, eq_refl produced_by) in
                let found : find? p rows' ≡ some i = rw new (find?-append_one p rows i f key) in
                ground (arith, found, good)
          ]
        ]

  -- Once the first attempt at a version has failed, each further failure is appended, numbered by
  -- the failures before it, and traced, also when a retry has succeeded since.
  pub write_failed_interpretation_again :
      (rows : Interpretations) (event : EventRow) (version : ℕ)
      (produced_by error_type error_message interp_id : String) (now : ℕ) (first : Interpretation)
      → IsNumbered rows
      → find? (has_row_id interp_id) rows ≡ none
      → read_existing rows event.content_hash version (base produced_by) ≡ some first
      → first.extraction.failed ≡ true
      → (i : Interpretation) × (write_failed_interpretation k rows event version produced_by
            error_type error_message interp_id now
          ≡ some (rows ++ i ∷ [], i, true))
        × (i.extraction.retries ≡ some (count_failed_extractor_attempts k rows event.content_hash))
  unfolding write_failed_interpretation write_interpretation
  write_failed_interpretation_again rows event version produced_by error_type error_message
        interp_id now first v fresh e g =
      let n = count_extractor_attempts k rows event.content_hash version produced_by in
      let i =
        new_row event version (retry produced_by n) (failure k rows event error_type error_message)
          interp_id now in
      elim (Option-cases (find? (has_key event.content_hash version (retry produced_by n)) rows)) [
        | inl a ↦ (i, ground (arith, e, g, insert_row_free rows i a fresh), refl)
        | inr (r, a) ↦ absurd (omega (arith, v event.content_hash version produced_by n r a))
      ]
