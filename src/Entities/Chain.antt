-- ===== src/Entities/Chain.antt =====
-- The single and the batched reading of a chain of merges (afair/substrate/entities.py).
use afair.Prelude.{
  ℕ, zero, suc, ◌<◌, ◌≡◌, ◌≢◌, ◌∙◌, refl, ap, sym, inl, inr, String, str_eq, eq_iff, eq_refl, Bool,
  true, false, not, none, some, List, [], ◌∷◌, find?, select, length, map, arith, Option-cases,
  Bool-cases,
}
use afair.Entities.Merges.{
  Graph, next_of, follow, resolve_canonical, chain, deepest, canonical_row, resolve_canonical_batch,
  among, max_depth,
}
use afair.Entities.Latest.{latest_merge-next_of}

-- No entity of the chain is met twice, nor is one that was seen before.
abbrev pub NoReturn : (seen : List String) → List String → Type 0
NoReturn seen [] = Unit {0}
NoReturn seen (x ∷ xs) = (among x seen ≡ false) × NoReturn (x ∷ seen) xs

-- The chain of merges from an entity never comes back.
abbrev pub IsAcyclicFrom : Graph → String → Type 0
IsAcyclicFrom g eid = NoReturn (eid ∷ []) (chain g max_depth eid)

pub follow-deepest :
    (g : Graph) (n : ℕ) (current : String) (seen : List String)
    → NoReturn seen (chain g n current)
    → follow g n current seen ≡ deepest current (chain g n current)
unfolding follow chain
follow-deepest g zero current seen h = refl
follow-deepest g (suc n) current seen h = elim (Option-cases (next_of g current)) [
  | inl f ↦ rw (f, latest_merge-next_of g current ∙ f, follow, chain) refl
  | inr (x, f) ↦
      let h' : NoReturn seen (x ∷ chain g n x) =
        rw (latest_merge-next_of g current ∙ f, chain) at h in
      rw (f, latest_merge-next_of g current ∙ f, follow, chain)
        (rw h'.0 (follow-deepest g n x (x ∷ seen) h'.1))
]

abbrev pub entry_of : String → String × String → Bool
entry_of eid entry = str_eq entry.0 eid

find?-canonical_row :
    (g : Graph) (entity_ids : List String) (eid : String)
    → among eid entity_ids ≡ true
    → str_eq eid "" ≡ false
    → find? (entry_of eid) (map (canonical_row g) (select (λ e. not (str_eq e "")) entity_ids))
      ≡ some (canonical_row g eid)
unfolding find? select
find?-canonical_row g [] eid asked given = absurd (ground (arith, asked))
find?-canonical_row g (x ∷ entity_ids) eid asked given = elim (Bool-cases (str_eq x eid)) [
  | inl t ↦
      let same : x ≡ eid = (eq_iff x eid).0 t in
      let kept : str_eq x "" ≡ false = ap (λ y. str_eq y "") same ∙ given in
      rw kept (rw t (ap (λ y. some (canonical_row g y)) same))
  | inr t ↦
      let rest = find?-canonical_row g entity_ids eid (ground (arith, t, asked)) given in
      elim (Bool-cases (str_eq x "")) [ inl k ↦ rw k rest | inr k ↦ rw k (rw t rest) ]
]

-- Where the chain of merges from an entity never comes back, the single read and the batched one
-- agree on which entity stands for it, whatever else is asked for with it.
pub resolve_canonical_batch-find? :
    (g : Graph) (entity_ids : List String) (eid : String)
    → among eid entity_ids ≡ true
    → str_eq eid "" ≡ false
    → IsAcyclicFrom g eid
    → find? (entry_of eid) (resolve_canonical_batch g entity_ids)
      ≡ some (eid, resolve_canonical g eid)
unfolding resolve_canonical_batch resolve_canonical
resolve_canonical_batch-find? g entity_ids eid asked given acyclic =
    find?-canonical_row g entity_ids eid asked given
    ∙ ap (λ x. some (eid, x)) (sym (follow-deepest g max_depth eid (eid ∷ []) acyclic))

chain_end :
    (g : Graph) (n : ℕ) (current : String)
    → length (chain g n current) < n
    → next_of g (deepest current (chain g n current)) ≡ none
unfolding chain
chain_end g zero current h = absurd (ground (arith, h))
chain_end g (suc n) current h = elim (Option-cases (next_of g current)) [
  | inl f ↦ rw (latest_merge-next_of g current ∙ f, chain) f
  | inr (x, f) ↦
      let h' : suc (length (chain g n x)) < suc n =
        rw (latest_merge-next_of g current ∙ f, chain) at h in
      rw (latest_merge-next_of g current ∙ f, chain) (chain_end g n x (omega (arith, h')))
]

-- One round of the loop, by what it meets.
module _ (g : Graph) (n : ℕ) (current : String) (seen : List String) where
  follow-none : next_of g current ≡ none → follow g (suc n) current seen ≡ current
  unfolding follow
  follow-none f = rw (f, follow) refl

  follow-seen :
      (x : String)
      → next_of g current ≡ some x
      → among x seen ≡ true
      → follow g (suc n) current seen ≡ current
  unfolding follow
  follow-seen x f s = rw (f, follow) (rw s refl)

  follow-next :
      (x : String)
      → next_of g current ≡ some x
      → among x seen ≡ false
      → follow g (suc n) current seen ≡ follow g n x (x ∷ seen)
  unfolding follow
  follow-next x f s = rw (f, follow) (rw s refl)

-- Where the chain of merges from an entity never comes back and has fewer than the sixteen merges
-- that are followed, the entity that stands for it has no live merge, and stands for itself.
pub resolve_canonical-survives :
    (g : Graph) (eid : String)
    → IsAcyclicFrom g eid
    → length (chain g max_depth eid) < max_depth
    → (next_of g (resolve_canonical g eid) ≡ none)
      × (resolve_canonical g (resolve_canonical g eid) ≡ resolve_canonical g eid)
unfolding resolve_canonical
resolve_canonical-survives g eid acyclic short =
    let found = follow-deepest g max_depth eid (eid ∷ []) acyclic in
    let last : next_of g (resolve_canonical g eid) ≡ none =
      ap (next_of g) found ∙ chain_end g max_depth eid short in
    (last, follow-none g 15 (resolve_canonical g eid) (resolve_canonical g eid ∷ []) last)

abbrev double : ℕ → ℕ
double zero = zero
double (suc k) = suc (suc (double k))

cycle_row :
    (g : Graph) (a b : String) (k : ℕ)
    → next_of g a ≡ some b
    → next_of g b ≡ some a
    → deepest a (chain g (double k) a) ≡ a
unfolding chain
cycle_row g a b zero e f = refl
cycle_row g a b (suc k) e f =
    rw (latest_merge-next_of g a ∙ e, chain)
      (rw (latest_merge-next_of g b ∙ f, chain) (cycle_row g a b k e f))

-- Of two entities that are merged into each other, the single read has each stand for the other,
-- and the batched read each for itself.
pub resolve_canonical_cycle :
    (g : Graph) (entity_ids : List String) (a b : String)
    → a ≢ b
    → next_of g a ≡ some b
    → next_of g b ≡ some a
    → among a entity_ids ≡ true
    → str_eq a "" ≡ false
    → (resolve_canonical g a ≡ b)
      × (find? (entry_of a) (resolve_canonical_batch g entity_ids) ≡ some (a, a))
unfolding resolve_canonical resolve_canonical_batch
resolve_canonical_cycle g entity_ids a b n e f asked given = (
  follow-next g 15 a (a ∷ []) b e (ground (arith, eq_iff a b, n))
      ∙ follow-seen g 14 b (b ∷ a ∷ []) a f (ground (arith, eq_refl a)),
  find?-canonical_row g entity_ids a asked given ∙ ap (λ x. some (a, x)) (cycle_row g a b 8 e f),
)
