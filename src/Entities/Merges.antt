-- ===== src/Entities/Merges.antt =====
-- The tables `entity_merges` and `merge_invalidations`, and the entity that stands for another
-- (afair/substrate/entities.py). A confidence is a number of some exact unit. That the entities of
-- a merge exist is not checked here.
use afair.Prelude.{
  ℕ, zero, suc, String, str_eq, Bool, true, false, not, ◌&&◌, ◌||◌, Option, none, some, List, [],
  ◌∷◌, ◌++◌, find?, select, newest, sort_by, ltb, is_some, map, if◌then◌else◌,
}

pub record EntityMerge : Type 0 where
  pub id : String
  pub from_entity_id : String
  pub into_entity_id : String
  pub merged_at : ℕ
  pub merged_by : String
  pub reason : String
  pub confidence : ℕ

pub record MergeInvalidation : Type 0 where
  pub id : String
  pub merge_id : String
  pub invalidated_at : ℕ
  pub invalidated_by : String
  pub reason : String
  pub source_event_id : Option String

pub record Graph : Type 0 where
  pub merges : List EntityMerge
  pub invalidations : List MergeInvalidation

abbrev pub has_merge_id : String → EntityMerge → Bool
has_merge_id id m = str_eq m.id id

abbrev pub of_merge : String → MergeInvalidation → Bool
of_merge merge_id i = str_eq i.merge_id merge_id

-- A merge that was not invalidated.
abbrev pub is_live : Graph → EntityMerge → Bool
is_live g m = not (is_some (find? (of_merge m.id) g.invalidations))

abbrev pub merges_from : Graph → String → EntityMerge → Bool
merges_from g eid m = str_eq m.from_entity_id eid && is_live g m

abbrev pub into_of : Option EntityMerge → Option String
into_of none = none
into_of (some m) = some m.into_entity_id

-- The latest live merge of an entity, as `resolve_canonical` asks for it.
unfoldable pub next_of : Graph → String → Option String
next_of g eid = into_of (newest (λ m. m.merged_at) (select (merges_from g eid) g.merges))

abbrev pub merge_id_of : Option EntityMerge → Option String
merge_id_of none = none
merge_id_of (some m) = some m.id

unfoldable pub find_live_merge_from : Graph → (from_entity_id : String) → Option String
find_live_merge_from g from_entity_id =
    merge_id_of (newest (λ m. m.merged_at) (select (merges_from g from_entity_id) g.merges))

-- `none` is the ValueError of a merge into itself, or the IntegrityError of an id that is taken.
unfoldable pub write_entity_merge :
    Graph
    → (from_entity_id into_entity_id merged_by reason : String) (confidence : ℕ)
    → (row_id : String) (now : ℕ) → Option Graph
write_entity_merge g from_entity_id into_entity_id merged_by reason confidence row_id now =
    if str_eq from_entity_id into_entity_id || is_some (find? (has_merge_id row_id) g.merges)
    then none
    else some (record g {
      merges =
          g.merges
          ++ record {
            id = row_id;
            from_entity_id = from_entity_id;
            into_entity_id = into_entity_id;
            merged_at = now;
            merged_by = merged_by;
            reason = reason;
            confidence = confidence;
          }
            ∷ [];
    })

abbrev pub has_invalidation_id : String → MergeInvalidation → Bool
has_invalidation_id id i = str_eq i.id id

-- The Boolean says that a new row landed; `none` is the IntegrityError of a merge that is not there.
unfoldable pub write_merge_invalidation :
    Graph
    → (merge_id invalidated_by reason : String) → (source_event_id : Option String)
    → (row_id : String) (now : ℕ) → Option (Graph × Bool)
write_merge_invalidation g merge_id invalidated_by reason source_event_id row_id now =
    if is_some (find? (of_merge merge_id) g.invalidations)
      || is_some (find? (has_invalidation_id row_id) g.invalidations)
    then some (g, false)
    else if is_some (find? (has_merge_id merge_id) g.merges)
    then some (
      record g {
        invalidations =
            g.invalidations
            ++ record {
              id = row_id;
              merge_id = merge_id;
              invalidated_at = now;
              invalidated_by = invalidated_by;
              reason = reason;
              source_event_id = source_event_id;
            }
              ∷ [];
      },
      true,
    )
    else none

abbrev pub max_depth : ℕ
max_depth = 16

abbrev pub among : String → List String → Bool
among s [] = false
among s (x ∷ xs) = str_eq x s || among s xs

-- The loop of `resolve_canonical`, with the rounds that are left.
unfoldable pub follow : Graph → (rounds : ℕ) → (current : String) (seen : List String) → String
follow g zero current seen = current
follow g (suc rounds) current seen = elim (next_of g current) [
  | none ↦ current
  | some next_id ↦
      let rest = follow g rounds next_id (next_id ∷ seen) in
      if among next_id seen then current else rest
]

unfoldable pub resolve_canonical : Graph → String → String
resolve_canonical g eid = follow g max_depth eid (eid ∷ [])

abbrev pub is_from : String → EntityMerge → Bool
is_from eid m = str_eq m.from_entity_id eid

abbrev pub merged_later : EntityMerge → EntityMerge → Bool
merged_later x y = ltb y.merged_at x.merged_at

-- `latest_merges` of the batched query: all live merges in the order of the ranking, of which the
-- first one in the partition of an entity has row number 1.
unfoldable pub latest_merge : Graph → String → Option String
latest_merge g eid =
    into_of (find? (is_from eid) (sort_by merged_later (select (is_live g) g.merges)))

-- The rows of the recursive query for one start, below the start itself, by their depth.
unfoldable pub chain : Graph → (depth : ℕ) → (current : String) → List String
chain g zero current = []
chain g (suc depth) current = elim (latest_merge g current) [
  | none ↦ []
  | some next_id ↦ next_id ∷ chain g depth next_id
]

-- The row with none below it.
abbrev pub deepest : String → List String → String
deepest start [] = start
deepest start (x ∷ xs) = deepest x xs

abbrev pub canonical_row : Graph → String → String × String
canonical_row g eid = (eid, deepest eid (chain g max_depth eid))

-- `resolve_canonical_batch`; the dictionary as the list of its entries, of which equal ones count
-- once. Its chunks are left out: each id is in one of them.
unfoldable pub resolve_canonical_batch : Graph → (entity_ids : List String) → List (String × String)
resolve_canonical_batch g entity_ids =
    map (canonical_row g) (select (λ e. not (str_eq e "")) entity_ids)
