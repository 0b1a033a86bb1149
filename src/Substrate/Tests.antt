-- ===== src/Substrate/Tests.antt =====
-- Events and interpretations at concrete rows, and the theorems at inputs that meet their hypotheses.
use afair.Prelude.{
  ℕ, ◌≡◌, refl, String, eq_refl, true, false, none, some, [], ◌∷◌, ◌++◌, find?, select, count,
  first_by, insert_by, sort_by, arith,
}
use afair.Substrate.Events.{
  other, EventRow, Log, Draft, row_of, read_event_by_hash, read_event_by_id,
  write_event_with_status, write_event, iter_events,
}
use afair.Substrate.Samples.{host, likes}
use afair.Substrate.EventLaws.{IsLog, write_event_twice, write_event-IsLog}
use afair.Substrate.Interpretations.{
  base, retry, Extraction, Interpretation, Interpretations, of_hash, new_row, read_existing,
  insert_row, keep_first, count_extractor_attempts, count_failed_extractor_attempts,
  write_interpretation, write_failed_interpretation, read_latest_interpretation,
  read_latest_interpretations_batch,
}
use afair.Substrate.Invalidations.{write_invalidation, read_invalidation}
use afair.Substrate.Numbering.{
  IsNumbered, Written, none_written, one_written, Written-IsNumbered,
  write_failed_interpretation_again,
}
use afair.Substrate.Recall.{read_latest_interpretation-write_failed}
use afair.Substrate.Batch.{read_latest_interpretations_batch-find?}
use afair.Substrate.Retries.{window, is_latest, is_candidate, retry_rows, select_retry_candidates}
use afair.Substrate.Bounded.{Failures, none_yet, one_more, other_write, retry_rows-Failures}

-- Everything that the tables compute with.
program : Unit {0}
unfolding find? select count first_by insert_by sort_by read_event_by_hash read_event_by_id
    write_event_with_status write_event iter_events read_existing insert_row keep_first
    count_extractor_attempts count_failed_extractor_attempts write_interpretation
    write_failed_interpretation read_latest_interpretation read_latest_interpretations_batch
    write_invalidation read_invalidation window is_latest is_candidate retry_rows
    select_retry_candidates
program = tt

likes-retry : (b : String) (n : ℕ) → likes.like_retry b (retry b n) ≡ true
likes-retry b n = eq_refl b

abbrev empty : Log
empty = record { events = []; fts = [] }

abbrev draft : Draft
draft = record {
  origin = "user";
  kind = "observe";
  payload = other "a";
  parent_hashes = [];
  created_at = none;
  searchable_body = none;
}

abbrev event : EventRow
event = row_of host draft "1" 5

abbrev written : Log
written = record { events = event ∷ []; fts = ("observe:a", "a") ∷ [] }

write_event_run : write_event_with_status host empty draft "1" 5 ≡ some (written, event, true)
unfolding program
write_event_run = refl

-- An id that is taken by another event.
write_event_collision :
    write_event_with_status host written (record draft { payload = other "b" }) "1" 6 ≡ none
unfolding program
write_event_collision = refl

write_event_twice_example :
    write_event_with_status host written (record draft { created_at = some 1 }) "2" 9
    ≡ some (written, event, false)
unfolding program
write_event_twice_example =
    write_event_twice host empty written draft (record draft { created_at = some 1 }) "1" "2" 5 9
      event true refl refl

write_event-IsLog_example : IsLog host written
unfolding program
write_event-IsLog_example =
    write_event-IsLog host empty written draft "1" 5 event true refl
      (record { named = tt; unique = tt; indexed = refl })

abbrev good : Extraction
good = record { failed = false; error_type = none; retries = none; text = "said" }

abbrev timeout : (retries : ℕ) → Extraction
timeout n = record {
  failed = true;
  error_type = some "llm_timeout";
  retries = some n;
  text = "late";
}

abbrev failed_once : Interpretation
failed_once = new_row event 1 (base "extractor:m") (timeout 0) "i1" 6

abbrev failed_again : Interpretation
failed_again = new_row event 1 (retry "extractor:m" 1) (timeout 1) "i2" 7

abbrev failed_thrice : Interpretation
failed_thrice = new_row event 1 (retry "extractor:m" 2) (timeout 2) "i3" 8

abbrev recovered : Interpretation
recovered = new_row event 1 (retry "extractor:m" 1) good "i2" 7

abbrev history : Interpretations
history = failed_once ∷ recovered ∷ []

recovered_run :
    write_interpretation likes (failed_once ∷ []) event 1 "extractor:m" good "i2" 7
    ≡ some (failed_once ∷ recovered ∷ [], recovered)
unfolding program
recovered_run = refl

history-Written : Written likes likes-retry history
unfolding program
history-Written =
    one_written event 1 "extractor:m" good "i2" 7 recovered
      (one_written event 1 "extractor:m" (timeout 0) "i1" 6 failed_once none_written refl) refl

-- With the failures of a producer pruned and its second retry kept, a failure of the first attempt
-- is stored as the base row, and the next one is given the number of the retry that is there.
pruned_run :
    (write_interpretation likes
        (record recovered { produced_by = retry "extractor:m" 2 } ∷ [])
        event
        1
        "extractor:m"
        (timeout 0)
        "i1"
        6
      ≡ some (
        record recovered { produced_by = retry "extractor:m" 2 } ∷ failed_once ∷ [],
        failed_once,
      ))
    × (write_interpretation likes
          (record recovered { produced_by = retry "extractor:m" 2 } ∷ failed_once ∷ [])
          event
          1
          "extractor:m"
          (timeout 1)
          "i4"
          9
        ≡ none)
unfolding program
pruned_run = (refl, refl)

-- A failure is stored although a retry succeeded: the base row stays a failure.
recovered-IsNumbered : IsNumbered likes likes-retry history
recovered-IsNumbered = Written-IsNumbered likes likes-retry history history-Written

write_failed_interpretation_again_example :
    (i : Interpretation) × (write_failed_interpretation likes history event 1 "extractor:m"
        "llm_timeout" "late" "i3" 8
      ≡ some (history ++ i ∷ [], i, true))
    × (i.extraction.retries ≡ some 1)
unfolding program
write_failed_interpretation_again_example =
    write_failed_interpretation_again likes likes-retry history event 1 "extractor:m" "llm_timeout"
      "late" "i3" 8 failed_once recovered-IsNumbered refl refl refl

read_latest_interpretation-write_failed_example :
    read_latest_interpretation likes
      (failed_once ∷ recovered ∷ new_row event 1 (retry "extractor:m" 2) (timeout 1) "i3" 8 ∷ [])
      "observe:a"
    ≡ some recovered
unfolding program
read_latest_interpretation-write_failed_example =
    read_latest_interpretation-write_failed likes (failed_once ∷ recovered ∷ [])
      (failed_once ∷ recovered ∷ new_row event 1 (retry "extractor:m" 2) (timeout 1) "i3" 8 ∷ [])
      event 1 "extractor:m" "llm_timeout" "late" "i3" 8
      (new_row event 1 (retry "extractor:m" 2) (timeout 1) "i3" 8) true "observe:a" refl

read_latest_interpretations_batch-find?_example :
    find? (of_hash "observe:a") (
      read_latest_interpretations_batch likes
        (failed_once ∷ recovered ∷ [])
        ("observe:b" ∷ "observe:a" ∷ []))
    ≡ some recovered
unfolding program
read_latest_interpretations_batch-find?_example =
    read_latest_interpretations_batch-find? likes (failed_once ∷ recovered ∷ [])
      ("observe:b" ∷ "observe:a" ∷ []) "observe:a"

three-Failures : Failures likes event [] 3 (failed_once ∷ failed_again ∷ failed_thrice ∷ [])
unfolding program
three-Failures =
    one_more 1 "extractor:m" "llm_timeout" "late" "i3" 8 failed_thrice
      (one_more 1 "extractor:m" "llm_timeout" "late" "i2" 7 failed_again
        (one_more 1 "extractor:m" "llm_timeout" "late" "i1" 6 failed_once none_yet refl (λ m. refl)
          refl)
        refl (λ m. refl) refl)
      refl (λ m. refl) refl

-- After one failure the event is retried, after three it is not.
retry_rows_run : retry_rows likes (failed_once ∷ []) 5 none ≡ failed_once ∷ []
unfolding program
retry_rows_run = refl

abbrev recovered_late : Interpretation
recovered_late = new_row event 1 (retry "extractor:m" 3) good "i4" 9

retry_rows-Failures_example :
    find?
      (of_hash "observe:a")
      (retry_rows likes (failed_once ∷ failed_again ∷ failed_thrice ∷ recovered_late ∷ []) 5 none)
    ≡ none
unfolding program
retry_rows-Failures_example =
    retry_rows-Failures likes event []
      (failed_once ∷ failed_again ∷ failed_thrice ∷ recovered_late ∷ []) 3 5 none
      (other_write event 1 "extractor:m" good "i4" 9 recovered_late three-Failures refl)
      (omega arith)
