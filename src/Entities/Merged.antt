-- ===== src/Entities/Merged.antt =====
-- Which entity stands for another after a merge is undone (afair/substrate/entities.py).
use afair.Prelude.{
  ℕ, zero, suc, ◌<◌, ◌≡◌, ◌∙◌, refl, ap, inl, inr, String, str_eq, eq_iff, eq_refl, true, false,
  not, ◌&&◌, Option, none, some, List, [], ◌∷◌, ◌++◌, find?, newest, is_some, arith, All,
  Option-cases, Bool-cases, newest-select-append_one, select_ext_absent, select-append_other,
  find?-append_one, find?-append_other,
}
use afair.Entities.Merges.{
  EntityMerge, MergeInvalidation, Graph, has_merge_id, of_merge, is_live, merges_from, next_of,
  into_of, merge_id_of, find_live_merge_from, write_entity_merge, write_merge_invalidation, follow,
  resolve_canonical, max_depth, among,
}

abbrev pub merge_of :
    (from_entity_id into_entity_id merged_by reason : String) (confidence : ℕ) (row_id : String)
    (now : ℕ)
    → EntityMerge
merge_of from_entity_id into_entity_id merged_by reason confidence row_id now = record {
  id = row_id;
  from_entity_id = from_entity_id;
  into_entity_id = into_entity_id;
  merged_at = now;
  merged_by = merged_by;
  reason = reason;
  confidence = confidence;
}

pub merged :
    (g g' : Graph) (from_entity_id into_entity_id merged_by reason : String) (confidence : ℕ)
    (row_id : String) (now : ℕ)
    → write_entity_merge g from_entity_id into_entity_id merged_by reason confidence row_id now
      ≡ some g'
    → (find? (has_merge_id row_id) g.merges ≡ none)
      × (g' ≡ record g {
        merges =
            g.merges
            ++ merge_of from_entity_id into_entity_id merged_by reason confidence row_id now ∷ [];
      })
unfolding write_entity_merge
merged g g' from_entity_id into_entity_id merged_by reason confidence row_id now e =
    elim (Option-cases (find? (has_merge_id row_id) g.merges)) [
      | inr (a, f) ↦ absurd (ground (arith, f, e))
      | inl f ↦ elim (Bool-cases (str_eq from_entity_id into_entity_id)) [
        | inl t ↦ absurd (ground (arith, f, t, e))
        | inr t ↦ (f, ground (arith, f, t, e))
      ]
    ]

-- The entity that stands for another is read off the latest live merges only.
follow_ext :
    (g g' : Graph)
    → ((x : String) → next_of g x ≡ next_of g' x)
    → (n : ℕ) (current : String) (seen : List String)
    → follow g n current seen ≡ follow g' n current seen
unfolding follow
follow_ext g g' h zero current seen = refl
follow_ext g g' h (suc n) current seen = elim (Option-cases (next_of g' current)) [
  | inl f ↦ rw (h current ∙ f, f, follow) refl
  | inr (x, f) ↦ elim (Bool-cases (among x seen)) [
    | inl s ↦ rw (h current ∙ f, f, follow) (rw s refl)
    | inr s ↦ rw (h current ∙ f, f, follow) (rw s (follow_ext g g' h n x (x ∷ seen)))
  ]
]

abbrev undo_of :
    (merge_id invalidated_by reason : String) (source_event_id : Option String) (row_id : String)
    (now : ℕ)
    → MergeInvalidation
undo_of merge_id invalidated_by reason source_event_id row_id now = record {
  id = row_id;
  merge_id = merge_id;
  invalidated_at = now;
  invalidated_by = invalidated_by;
  reason = reason;
  source_event_id = source_event_id;
}

undone :
    (g g' : Graph) (merge_id invalidated_by reason : String) (source_event_id : Option String)
    (row_id : String) (now : ℕ)
    → write_merge_invalidation g merge_id invalidated_by reason source_event_id row_id now
      ≡ some (g', true)
    → g' ≡ record g {
      invalidations =
          g.invalidations ++ undo_of merge_id invalidated_by reason source_event_id row_id now ∷ [];
    }
unfolding write_merge_invalidation
undone g g' merge_id invalidated_by reason source_event_id row_id now e = ground (arith, e)

module _ (g : Graph) (m : EntityMerge) (i : MergeInvalidation) where
  abbrev reverted : Graph
  reverted = record { merges = g.merges ++ m ∷ []; invalidations = g.invalidations ++ i ∷ [] }

  is_live-reverted :
      i.merge_id ≡ m.id
      → (x : EntityMerge) → has_merge_id m.id x ≡ false
      → is_live reverted x ≡ is_live g x
  is_live-reverted named x other =
      ap (λ o. not (is_some o))
        (find?-append_other (of_merge x.id) g.invalidations i
          (rw named (ground (arith, other, eq_iff x.id m.id, eq_iff m.id x.id))))

  next_of-reverted :
      i.merge_id ≡ m.id
      → find? (has_merge_id m.id) g.merges ≡ none
      → find? (of_merge m.id) g.invalidations ≡ none
      → (eid : String) → next_of reverted eid ≡ next_of g eid
  unfolding next_of
  next_of-reverted named fresh free eid =
      let dead : is_some (find? (of_merge m.id) (g.invalidations ++ i ∷ [])) ≡ true =
        ap is_some
          (find?-append_one (of_merge m.id) g.invalidations i free (rw named (eq_refl m.id))) in
      ap (λ rows. into_of (newest (λ r. r.merged_at) rows))
        (select-append_other (merges_from reverted eid) g.merges m (ground (arith, dead))
          ∙ select_ext_absent (merges_from reverted eid) (merges_from g eid) (has_merge_id m.id)
              g.merges fresh
              (λ x o. ap (λ b. str_eq x.from_entity_id eid && b) (is_live-reverted named x o)))

-- Undoing a merge: the live merge that is found for the entity that was merged away is the one that
-- was just written, and once it is invalidated, every entity is stood for by the one that stood for
-- it before; where the merge is later than all others and no invalidation has its id.
pub resolve_canonical-write_merge_invalidation :
    (g g' g'' : Graph) (from_entity_id into_entity_id merged_by reason : String) (confidence : ℕ)
    (row_id : String) (now : ℕ) (invalidated_by reason' : String) (source_event_id : Option String)
    (inv_id : String) (now' : ℕ)
    → write_entity_merge g from_entity_id into_entity_id merged_by reason confidence row_id now
      ≡ some g'
    → All (λ m. m.merged_at < now) g.merges
    → find? (of_merge row_id) g.invalidations ≡ none
    → write_merge_invalidation g' row_id invalidated_by reason' source_event_id inv_id now'
      ≡ some (g'', true)
    → (find_live_merge_from g' from_entity_id ≡ some row_id)
      × ((eid : String) → resolve_canonical g'' eid ≡ resolve_canonical g eid)
unfolding find_live_merge_from resolve_canonical
resolve_canonical-write_merge_invalidation g g' g'' from_entity_id into_entity_id merged_by reason
      confidence row_id now invalidated_by reason' source_event_id inv_id now' e late free inv =
    let m = merge_of from_entity_id into_entity_id merged_by reason confidence row_id now in
    let new = merged g g' from_entity_id into_entity_id merged_by reason confidence row_id now e in
    let i = undo_of row_id invalidated_by reason' source_event_id inv_id now' in
    let back : g'' ≡ reverted g m i =
      undone g' g'' row_id invalidated_by reason' source_event_id inv_id now' inv
      ∙ ap (λ (x : Graph). record { merges = x.merges; invalidations = x.invalidations ++ i ∷ [] })
          new.1 in
    let alive : is_live g m ≡ true = rw free refl in
    (
      rw new.1 (
          ap merge_id_of (
            newest-select-append_one (λ (x : EntityMerge). x.merged_at)
              (merges_from g from_entity_id) g.merges m late
              (ground (arith, alive, eq_refl from_entity_id)))),
      λ eid.
          follow_ext g'' g
            (λ x. ap (λ y. next_of y x) back ∙ next_of-reverted g m i refl new.0 free x) max_depth
            eid (eid ∷ []),
    )
