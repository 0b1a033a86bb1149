-- ===== src/Entities/Joined.antt =====
-- Which entity stands for another after a merge (afair/substrate/entities.py).
use afair.Prelude.{
  ℕ, zero, suc, ◌<◌, ◌≡◌, ◌∙◌, refl, ap, sym, subst, inl, inr, String, str_eq, eq_iff, eq_refl,
  true, false, ◌||◌, none, some, List, [], ◌∷◌, ◌++◌, find?, newest, length, arith, All,
  Option-cases, Bool-cases, newest-select-append_one, select-append_other,
}
use afair.Entities.Merges.{
  EntityMerge, Graph, of_merge, is_live, merges_from, next_of, into_of, write_entity_merge,
  resolve_canonical, follow, chain, deepest, among, max_depth,
}
use afair.Entities.Latest.{latest_merge-next_of}
use afair.Entities.Chain.{NoReturn, follow-deepest}
use afair.Entities.Merged.{merge_of, merged}

module _ (g : Graph) (m : EntityMerge) where
  abbrev joined : Graph
  joined = record g { merges = g.merges ++ m ∷ [] }

  next_of-joined :
      All (λ x. x.merged_at < m.merged_at) g.merges
      → find? (of_merge m.id) g.invalidations ≡ none
      → next_of joined m.from_entity_id ≡ some m.into_entity_id
  unfolding next_of
  next_of-joined late free =
      let alive : is_live g m ≡ true = rw free refl in
      ap into_of (
        newest-select-append_one (λ (x : EntityMerge). x.merged_at) (merges_from g m.from_entity_id)
          g.merges m late (ground (arith, alive, eq_refl m.from_entity_id)))

  next_of-joined_other :
      (eid : String) → str_eq m.from_entity_id eid ≡ false → next_of joined eid ≡ next_of g eid
  unfolding next_of
  next_of-joined_other eid o =
      ap (λ rows. into_of (newest (λ r. r.merged_at) rows))
        (select-append_other (merges_from g eid) g.merges m (rw o refl))

  chain-joined :
      (n : ℕ) (current : String)
      → str_eq m.from_entity_id current ≡ false
      → among m.from_entity_id (chain g n current) ≡ false
      → chain joined n current ≡ chain g n current
  unfolding chain
  chain-joined zero current o h = refl
  chain-joined (suc n) current o h = elim (Option-cases (next_of g current)) [
    | inl f ↦
        rw
          (
            latest_merge-next_of joined current ∙ next_of-joined_other current o ∙ f,
            latest_merge-next_of g current ∙ f,
            chain,
          )
          refl
    | inr (x, f) ↦
        let h' : str_eq x m.from_entity_id || among m.from_entity_id (chain g n x) ≡ false =
          rw (latest_merge-next_of g current ∙ f, chain) at h in
        let other : str_eq m.from_entity_id x ≡ false =
          ground (arith, h', eq_iff x m.from_entity_id, eq_iff m.from_entity_id x) in
        rw
          (
            latest_merge-next_of joined current ∙ next_of-joined_other current o ∙ f,
            latest_merge-next_of g current ∙ f,
            chain,
          )
          (ap (λ xs. x ∷ xs) (chain-joined n x other (ground (arith, h'))))
  ]

chain_step :
    (g : Graph) (n : ℕ) (current x : String)
    → next_of g current ≡ some x
    → chain g (suc n) current ≡ x ∷ chain g n x
unfolding chain
chain_step g n current x f = rw (latest_merge-next_of g current ∙ f, chain) refl

NoReturn-absent :
    (y : String) (seen xs : List String)
    → among y seen ≡ true
    → NoReturn seen xs
    → among y xs ≡ false
NoReturn-absent y seen [] s h = refl
NoReturn-absent y seen (x ∷ xs) s h = elim (Bool-cases (str_eq x y)) [
  | inl t ↦
      let gone = subst (λ z. among z seen ≡ false) ((eq_iff x y).0 t) h.0 in
      absurd (ground (arith, s, gone))
  | inr t ↦
      let rest = NoReturn-absent y (x ∷ seen) xs (ground (arith, s, t)) h.1 in
      ground (arith, t, rest)
]

NoReturn-weaken :
    (seen seen' xs : List String)
    → ((y : String) → among y seen ≡ false → among y seen' ≡ false)
    → NoReturn seen xs
    → NoReturn seen' xs
NoReturn-weaken seen seen' [] w h = tt
NoReturn-weaken seen seen' (x ∷ xs) w h =
    (w x h.0, NoReturn-weaken (x ∷ seen) (x ∷ seen') xs (λ y k. ground (arith, k, w y)) h.1)

-- A chain that ended early is not longer when more merges may be followed.
chain_short :
    (g : Graph) (n : ℕ) (current : String)
    → length (chain g n current) < n
    → chain g (suc n) current ≡ chain g n current
unfolding chain
chain_short g zero current h = absurd (ground (arith, h))
chain_short g (suc n) current h = elim (Option-cases (next_of g current)) [
  | inl f ↦ rw (latest_merge-next_of g current ∙ f, chain) refl
  | inr (x, f) ↦
      let h' : suc (length (chain g n x)) < suc n =
        rw (latest_merge-next_of g current ∙ f, chain) at h in
      let rest : chain g (suc n) x ≡ chain g n x = chain_short g n x (omega (arith, h')) in
      rw (latest_merge-next_of g current ∙ f, chain) (ap (λ xs. x ∷ xs) rest)
]

-- After a merge, the entity that was merged away is stood for by the one that stood for its target,
-- where the merge is later than all others, no invalidation has its id, and the chain from the
-- target has fewer than fifteen merges and comes back neither to one of its own entities nor to the
-- one that is merged.
pub resolve_canonical-write_entity_merge :
    (g g' : Graph) (from_entity_id into_entity_id merged_by reason : String) (confidence : ℕ)
    (row_id : String) (now : ℕ)
    → write_entity_merge g from_entity_id into_entity_id merged_by reason confidence row_id now
      ≡ some g'
    → All (λ m. m.merged_at < now) g.merges
    → find? (of_merge row_id) g.invalidations ≡ none
    → NoReturn (from_entity_id ∷ []) (into_entity_id ∷ chain g 15 into_entity_id)
    → length (chain g 15 into_entity_id) < 15
    → resolve_canonical g' from_entity_id ≡ resolve_canonical g into_entity_id
unfolding resolve_canonical
resolve_canonical-write_entity_merge g g' from_entity_id into_entity_id merged_by reason confidence
      row_id now e late free acyclic short =
    let m = merge_of from_entity_id into_entity_id merged_by reason confidence row_id now in
    let new = merged g g' from_entity_id into_entity_id merged_by reason confidence row_id now e in
    let xs = chain g 15 into_entity_id in
    let away : str_eq from_entity_id into_entity_id ≡ false = ground (arith, acyclic.0) in
    let absent =
      NoReturn-absent from_entity_id (into_entity_id ∷ from_entity_id ∷ []) xs
        (ground (arith, eq_refl from_entity_id)) acyclic.1 in
    let path : chain (joined g m) 16 from_entity_id ≡ into_entity_id ∷ xs =
      chain_step (joined g m) 15 from_entity_id into_entity_id (next_of-joined g m late free)
      ∙ ap (λ ys. into_entity_id ∷ ys) (chain-joined g m 15 into_entity_id away absent) in
    let same : chain g 16 into_entity_id ≡ xs = chain_short g 15 into_entity_id short in
    let home : NoReturn (into_entity_id ∷ []) (chain g 16 into_entity_id) =
      subst (NoReturn (into_entity_id ∷ [])) (sym same) (
        NoReturn-weaken (into_entity_id ∷ from_entity_id ∷ []) (into_entity_id ∷ []) xs
          (λ y k. ground (arith, k)) acyclic.1) in
    ap (λ x. follow x max_depth from_entity_id (from_entity_id ∷ [])) new.1
    ∙ follow-deepest (joined g m) 16 from_entity_id (from_entity_id ∷ [])
        (subst (NoReturn (from_entity_id ∷ [])) (sym path) acyclic)
    ∙ ap (deepest from_entity_id) path
    ∙ ap (deepest into_entity_id) (sym same)
    ∙ sym (follow-deepest g 16 into_entity_id (into_entity_id ∷ []) home)
