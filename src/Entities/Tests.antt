-- ===== src/Entities/Tests.antt =====
-- A small graph of merges, and the theorems at inputs that meet their hypotheses.
use afair.Prelude.{
  eq_iff, false, ℕ, ◌≡◌, ◌≢◌, refl, String, str_eq, none, some, [], ◌∷◌, find?, select, newest,
  sort_by, insert_by, arith,
}
use afair.Entities.Merges.{
  EntityMerge, Graph, latest_merge, next_of, find_live_merge_from, write_entity_merge,
  write_merge_invalidation, follow, resolve_canonical, chain, resolve_canonical_batch,
}
use afair.Entities.Chain.{entry_of, resolve_canonical_batch-find?, resolve_canonical_cycle}
use afair.Entities.Merged.{merge_of, resolve_canonical-write_merge_invalidation}
use afair.Entities.Joined.{resolve_canonical-write_entity_merge}

-- Everything that a reading computes with.
program : Unit {0}
unfolding find? select newest sort_by insert_by latest_merge next_of find_live_merge_from
    write_entity_merge write_merge_invalidation follow resolve_canonical chain
    resolve_canonical_batch
program = tt

abbrev merge : (from_entity_id into_entity_id row_id : String) (now : ℕ) → EntityMerge
merge from_entity_id into_entity_id row_id now =
    merge_of from_entity_id into_entity_id "deduper" "same name" 9 row_id now

-- b was merged into c, then a into b.
abbrev before : Graph
before = record { merges = merge "b" "c" "m1" 5 ∷ []; invalidations = [] }

abbrev after : Graph
after = record before { merges = merge "b" "c" "m1" 5 ∷ merge "a" "b" "m2" 6 ∷ [] }

write_entity_merge_run :
    write_entity_merge before "a" "b" "deduper" "same name" 9 "m2" 6 ≡ some after
unfolding program
write_entity_merge_run = refl

resolve_canonical_run : resolve_canonical after "a" ≡ "c"
unfolding program
resolve_canonical_run = refl

resolve_canonical_batch_run :
    resolve_canonical_batch after ("a" ∷ "" ∷ "d" ∷ []) ≡ ("a", "c") ∷ ("d", "d") ∷ []
unfolding program
resolve_canonical_batch_run = refl

resolve_canonical_batch-find?_example :
    find? (entry_of "a") (resolve_canonical_batch after ("d" ∷ "a" ∷ [])) ≡ some ("a", "c")
unfolding program
resolve_canonical_batch-find?_example =
    resolve_canonical_batch-find? after ("d" ∷ "a" ∷ []) "a" refl refl (refl, (refl, tt))

resolve_canonical-write_entity_merge_example :
    resolve_canonical after "a" ≡ resolve_canonical before "b"
unfolding program
resolve_canonical-write_entity_merge_example =
    resolve_canonical-write_entity_merge before after "a" "b" "deduper" "same name" 9 "m2" 6 refl
      (omega arith, tt) refl (refl, (refl, tt)) (omega arith)

-- The merge of a undone.
abbrev undone : Graph
undone = record after {
  invalidations =
      record {
        id = "x1";
        merge_id = "m2";
        invalidated_at = 7;
        invalidated_by = "operator";
        reason = "not the same";
        source_event_id = none;
      }
      ∷ [];
}

resolve_canonical-write_merge_invalidation_example :
    (find_live_merge_from after "a" ≡ some "m2")
    × ((eid : String) → resolve_canonical undone eid ≡ resolve_canonical before eid)
unfolding program
resolve_canonical-write_merge_invalidation_example =
    resolve_canonical-write_merge_invalidation before after undone "a" "b" "deduper" "same name" 9
      "m2" 6 "operator" "not the same" none "x1" 7 refl (omega arith, tt) refl refl

-- Two entities that were merged into each other, which no constraint forbids.
abbrev crossed : Graph
crossed = record before { merges = merge "b" "c" "m1" 5 ∷ merge "c" "b" "m2" 6 ∷ [] }

crossed_run : write_entity_merge before "c" "b" "deduper" "same name" 9 "m2" 6 ≡ some crossed
unfolding program
crossed_run = refl

distinct : (b c : String) → str_eq b c ≡ false → b ≢ c
distinct b c o e = absurd (ground (arith, o, eq_iff b c, e))

resolve_canonical_cycle_example :
    (resolve_canonical crossed "b" ≡ "c")
    × (find? (entry_of "b") (resolve_canonical_batch crossed ("b" ∷ [])) ≡ some ("b", "b"))
unfolding program
resolve_canonical_cycle_example =
    resolve_canonical_cycle crossed ("b" ∷ []) "b" "c" (distinct "b" "c" refl) refl refl refl refl
