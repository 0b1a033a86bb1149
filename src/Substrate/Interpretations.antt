-- ===== src/Substrate/Interpretations.antt =====
-- The table `interpretations` (afair/agents/interpretation.py). An extraction is kept as far as the
-- program asks for it again: whether its status is "failed", its error type, and the rest.
use afair.Prelude.{
  ℕ, String, str_eq, Bool, true, false, not, ◌&&◌, ◌||◌, Option, none, some, List, [], ◌∷◌, ◌++◌,
  find?, select, count, is_some, first_by, sort_by, ltb, ◌==◌, if◌then◌else◌,
}
use afair.Substrate.Events.{EventRow}

-- A producer as `base`, or as the text `base#retryN`.
pub data Producer : Type 0 where
  base : String → Producer
  retry : String → ℕ → Producer

abbrev pub same_producer : Producer → Producer → Bool
same_producer (base a) (base b) = str_eq a b
same_producer (retry a n) (retry b m) = str_eq a b && n == m
same_producer _ _ = false

pub record Extraction : Type 0 where
  pub failed : Bool
  pub error_type : Option String
  pub retries : Option ℕ
  pub text : String

pub record Interpretation : Type 0 where
  pub id : String
  pub event_id : String
  pub event_hash : String
  pub version : ℕ
  pub produced_at : ℕ
  pub produced_by : Producer
  pub extraction : Extraction

abbrev pub Interpretations : Type 0
Interpretations = List Interpretation

-- SQL's LIKE on producers, and the rank of a text in the order of texts: `like_retry b p` is
-- `p LIKE b || '#retry%'`, `is_extractor p` is `p LIKE 'extractor:%'`.
pub record Likes : Type 0 where
  pub like_retry : String → Producer → Bool
  pub is_extractor : Producer → Bool
  pub rank : String → ℕ

abbrev pub of_hash : String → Interpretation → Bool
of_hash event_hash r = str_eq r.event_hash event_hash

abbrev pub has_key : (event_hash : String) (version : ℕ) → Producer → Interpretation → Bool
has_key event_hash version produced_by r =
    of_hash event_hash r && r.version == version && same_producer r.produced_by produced_by

abbrev pub has_row_id : String → Interpretation → Bool
has_row_id id r = str_eq r.id id

-- `_read_existing`.
unfoldable pub read_existing :
    Interpretations → (event_hash : String) (version : ℕ) → Producer → Option Interpretation
read_existing rows event_hash version produced_by =
    find? (has_key event_hash version produced_by) rows

-- The INSERT: `none` is the IntegrityError of a row that is there.
unfoldable pub insert_row :
    Interpretations → Interpretation → Option (Interpretations × Interpretation)
insert_row rows r =
    if is_some (find? (has_key r.event_hash r.version r.produced_by) rows)
      || is_some (find? (has_row_id r.id) rows)
    then none
    else some (rows ++ r ∷ [], r)

abbrev pub new_row :
    EventRow
    → (version : ℕ) → Producer
    → Extraction
    → (interp_id : String) (now : ℕ) → Interpretation
new_row event version produced_by extraction interp_id now = record {
  id = interp_id;
  event_id = event.id;
  event_hash = event.content_hash;
  version = version;
  produced_at = now;
  produced_by = produced_by;
  extraction = extraction;
}

-- ORDER BY produced_at DESC, version DESC.
abbrev pub newer : Interpretation → Interpretation → Bool
newer a b =
    ltb b.produced_at a.produced_at || a.produced_at == b.produced_at && ltb b.version a.version

abbrev pub among : List String → String → Bool
among [] h = false
among (x ∷ xs) h = str_eq x h || among xs h

-- The dictionary as the list of its entries: the first of a hash stays.
unfoldable pub keep_first : List Interpretation → (out : List Interpretation) → List Interpretation
keep_first [] out = out
keep_first (r ∷ rows) out =
    keep_first rows (if is_some (find? (of_hash r.event_hash) out) then out else out ++ r ∷ [])

module _ (k : Likes) where
  -- The rows that `_count_extractor_attempts` counts.
  abbrev pub is_attempt :
      (event_hash : String) (version : ℕ) (base_producer : String) → Interpretation → Bool
  is_attempt event_hash version base_producer r =
      of_hash event_hash r
      && r.version == version
      && (same_producer r.produced_by (base base_producer)
          || k.like_retry base_producer r.produced_by)

  unfoldable pub count_extractor_attempts :
      Interpretations → (event_hash : String) (version : ℕ) (base_producer : String) → ℕ
  count_extractor_attempts rows event_hash version base_producer =
      count (is_attempt event_hash version base_producer) rows

  abbrev pub is_failed_attempt : String → Interpretation → Bool
  is_failed_attempt event_hash r =
      of_hash event_hash r && k.is_extractor r.produced_by && r.extraction.failed

  unfoldable pub count_failed_extractor_attempts : Interpretations → String → ℕ
  count_failed_extractor_attempts rows event_hash = count (is_failed_attempt event_hash) rows

  -- `write_interpretation`, by a producer whose name holds no "#retry".
  unfoldable pub write_interpretation :
      Interpretations
      → EventRow
      → (version : ℕ) (produced_by : String) → Extraction
      → (interp_id : String) (now : ℕ) → Option (Interpretations × Interpretation)
  write_interpretation rows event version produced_by extraction interp_id now =
      elim (read_existing rows event.content_hash version (base produced_by)) [
        | none ↦ insert_row rows (new_row event version (base produced_by) extraction interp_id now)
        | some existing ↦
            if not existing.extraction.failed
            then some (rows, existing)
            else insert_row rows (
                new_row event version
                  (retry produced_by
                    (count_extractor_attempts rows event.content_hash version produced_by))
                  extraction interp_id now)
      ]

  -- The extraction of a failure, its message with it.
  abbrev pub failure : Interpretations → EventRow → (error_type error_message : String) → Extraction
  failure rows event error_type error_message = record {
    failed = true;
    error_type = some error_type;
    retries = some (count_failed_extractor_attempts rows event.content_hash);
    text = error_message;
  }

  -- `write_failed_interpretation`; the Boolean says that `extraction.failed` is traced.
  unfoldable pub write_failed_interpretation :
      Interpretations
      → EventRow
      → (version : ℕ) (produced_by error_type error_message : String)
      → (interp_id : String) (now : ℕ) → Option (Interpretations × Interpretation × Bool)
  write_failed_interpretation rows event version produced_by error_type error_message interp_id
        now =
      elim (write_interpretation rows event version produced_by
        (failure rows event error_type error_message) interp_id now) [
          | none ↦ none
          | some (rows', interpretation) ↦
              some (rows', interpretation, interpretation.extraction.failed)
        ]

  abbrev pub is_usable : Interpretation → Bool
  is_usable r = k.is_extractor r.produced_by && not r.extraction.failed

  unfoldable pub read_latest_interpretation : Interpretations → String → Option Interpretation
  read_latest_interpretation rows event_hash =
      first_by newer (select (λ r. of_hash event_hash r && is_usable r) rows)

  -- ORDER BY event_hash, produced_at DESC, version DESC.
  abbrev pub hash_then_newer : Interpretation → Interpretation → Bool
  hash_then_newer a b =
      ltb (k.rank a.event_hash) (k.rank b.event_hash)
      || k.rank a.event_hash == k.rank b.event_hash && newer a b

  unfoldable pub read_latest_interpretations_batch :
      Interpretations → (event_hashes : List String) → List Interpretation
  read_latest_interpretations_batch rows event_hashes =
      keep_first
        (sort_by hash_then_newer
          (select (λ r. among event_hashes r.event_hash && is_usable r) rows))
        []
