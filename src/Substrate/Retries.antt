-- ===== src/Substrate/Retries.antt =====
-- Which failed extractions are retried (`select_retry_candidates` of
-- afair/agents/extraction_retry.py).
use afair.Prelude.{
  ℕ, String, str_eq, Bool, true, false, ◌&&◌, ◌||◌, Option, none, some, List, select, take,
  first_by, sort_by, ltb, ◌==◌, map,
}
use afair.Substrate.Interpretations.{
  Interpretation, Interpretations, Likes, of_hash, newer, has_row_id,
  count_failed_extractor_attempts,
}

abbrev pub max_extraction_retries : ℕ
max_extraction_retries = 3

abbrev pub max_retries_per_run : ℕ
max_retries_per_run = 5

abbrev pub is_transient : Option String → Bool
is_transient none = false
is_transient (some e) = str_eq e "llm_timeout" || str_eq e "llm_rate_limit"

abbrev is_row : Option Interpretation → String → Bool
is_row none id = false
is_row (some r) id = has_row_id id r

module _ (k : Likes) where
  -- `:wm_id IS NULL OR id > :wm_id`.
  abbrev pub above : Option String → String → Bool
  above none id = true
  above (some wm) id = ltb (k.rank wm) (k.rank id)

  -- The rows that are ranked: extractor rows above the watermark.
  unfoldable pub window : Interpretations → (wm_id : Option String) → Interpretations
  window rows wm_id = select (λ r. k.is_extractor r.produced_by && above wm_id r.id) rows

  -- ORDER BY produced_at DESC, version DESC, id DESC.
  abbrev pub newer_or_id : Interpretation → Interpretation → Bool
  newer_or_id a b =
      newer a b
      || a.produced_at == b.produced_at && a.version == b.version && ltb (k.rank b.id) (k.rank a.id)

  -- `rn = 1`: the first of its event.
  unfoldable pub is_latest : Interpretations → Interpretation → Bool
  is_latest ranked r = is_row (first_by newer_or_id (select (of_hash r.event_hash) ranked)) r.id

  unfoldable pub is_candidate : Interpretations → (ranked : Interpretations) → Interpretation → Bool
  is_candidate rows ranked r =
      is_latest ranked r
      && r.extraction.failed
      && is_transient r.extraction.error_type
      && ltb (count_failed_extractor_attempts k rows r.event_hash) max_extraction_retries

  unfoldable pub retry_rows :
      Interpretations → (limit : ℕ) → (wm_id : Option String) → Interpretations
  retry_rows rows limit wm_id =
      let ranked = window rows wm_id in
      take limit (
        sort_by (λ a b. ltb (k.rank a.id) (k.rank b.id)) (select (is_candidate rows ranked) ranked))

  unfoldable pub select_retry_candidates :
      Interpretations → (limit : ℕ) → (wm_id : Option String) → List (String × String)
  select_retry_candidates rows limit wm_id =
      map (λ (r : Interpretation). (r.event_id, r.event_hash)) (retry_rows rows limit wm_id)
