-- ===== src/Entities/Latest.antt =====
-- The two queries for the latest live merge of an entity choose the same one
-- (afair/substrate/entities.py).
use afair.Prelude.{
  ◌≡◌, ◌∙◌, refl, ap, sym, inl, inr, String, Bool, List, [], ◌∷◌, ◌&&◌, select, newest, first_by,
  find?-sort_by, arith, Option-cases, Bool-cases,
}
use afair.Entities.Merges.{
  EntityMerge, Graph, is_live, is_from, merges_from, into_of, next_of, merged_later, latest_merge,
}

select-select :
    (p q : EntityMerge → Bool) (xs : List EntityMerge)
    → select p (select q xs) ≡ select (λ m. p m && q m) xs
unfolding select
select-select p q [] = refl
select-select p q (x ∷ xs) = elim (Bool-cases (q x)) [
  | inl e ↦ ground (arith, e, select-select p q xs)
  | inr e ↦ ground (arith, e, select-select p q xs)
]

newest-first_by : (xs : List EntityMerge) → newest (λ m. m.merged_at) xs ≡ first_by merged_later xs
unfolding newest first_by
newest-first_by [] = refl
newest-first_by (x ∷ xs) = elim (Option-cases (first_by merged_later xs)) [
  | inl e ↦ ground (arith, e, newest-first_by xs)
  | inr (y, e) ↦ ground (arith, e, newest-first_by xs)
]

pub latest_merge-next_of : (g : Graph) (eid : String) → latest_merge g eid ≡ next_of g eid
unfolding latest_merge next_of
latest_merge-next_of g eid = ap into_of (
    find?-sort_by merged_later (λ x y e. ground (arith, e)) (λ x y z e f. ground (arith, e, f))
      (is_from eid) (select (is_live g) g.merges)
    ∙ ap (first_by merged_later) (select-select (is_from eid) (is_live g) g.merges)
    ∙ sym (newest-first_by (select (merges_from g eid) g.merges)))
