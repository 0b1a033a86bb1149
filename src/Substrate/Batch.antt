-- ===== src/Substrate/Batch.antt =====
-- The batched read gives for each event what the single read gives
-- (`read_latest_interpretations_batch` of afair/agents/interpretation.py).
use afair.Prelude.{
  ◌≡◌, ◌∙◌, ap, sym, subst, inl, inr, String, eq_iff, true, false, ◌&&◌, Option, none, some, List,
  [], ◌∷◌, ◌++◌, find?, select, arith, Option-cases, Bool-cases, first_by, sort_by, find?-sort_by,
  first_by-select_ext, select-select, find?-append_one, find?-append_other, if◌then◌else◌,
}
use afair.Substrate.Interpretations.{
  Interpretation, Interpretations, Likes, of_hash, newer, is_usable, hash_then_newer, among,
  keep_first, read_latest_interpretation, read_latest_interpretations_batch,
}

-- The first of two results.
abbrev or_else : Option Interpretation → Option Interpretation → Option Interpretation
or_else none b = b
or_else (some a) b = some a

-- The dictionary keeps, for a hash, its entry, or else the first row of that hash.
find?-keep_first :
    (rows out : List Interpretation) (h : String)
    → find? (of_hash h) (keep_first rows out)
      ≡ or_else (find? (of_hash h) out) (find? (of_hash h) rows)
unfolding keep_first find?
find?-keep_first [] out h = ground arith
find?-keep_first (r ∷ rows) out h = elim (Option-cases (find? (of_hash r.event_hash) out)) [
  | inr (e, f) ↦
      let rest = find?-keep_first rows out h in
      elim (Bool-cases (of_hash h r)) [
        | inr t ↦ ground (arith, f, t, rest)
        | inl t ↦
            let same : r.event_hash ≡ h = (eq_iff r.event_hash h).0 t in
            let f' = subst (λ c. find? (of_hash c) out ≡ some e) same f in
            ground (arith, f, f', t, rest)
      ]
  | inl f ↦
      let rest = find?-keep_first rows (out ++ r ∷ []) h in
      elim (Bool-cases (of_hash h r)) [
        | inr t ↦ ground (arith, f, t, rest, find?-append_other (of_hash h) out r t)
        | inl t ↦
            let same : r.event_hash ≡ h = (eq_iff r.event_hash h).0 t in
            let f' = subst (λ c. find? (of_hash c) out ≡ none) same f in
            ground (arith, f, f', t, rest, find?-append_one (of_hash h) out r f' t)
      ]
]

module _ (k : Likes) where
  hash_then_newer_asym :
      (a b : Interpretation) → hash_then_newer k a b ≡ true → hash_then_newer k b a ≡ false
  hash_then_newer_asym a b h = ground arith

  hash_then_newer_trans :
      (a b c : Interpretation)
      → hash_then_newer k b a ≡ true
      → hash_then_newer k b c ≡ false
      → hash_then_newer k c a ≡ true
  hash_then_newer_trans a b c h g = ground arith

  agrees :
      (h : String) (a b : Interpretation)
      → of_hash h a ≡ true
      → of_hash h b ≡ true
      → hash_then_newer k a b ≡ newer a b
  agrees h a b p q =
      let same : a.event_hash ≡ b.event_hash =
        (eq_iff a.event_hash h).0 p ∙ sym ((eq_iff b.event_hash h).0 q) in
      let rank = ap k.rank same in ground (arith, rank)

  first_by-asked :
      (rows : Interpretations) (event_hashes : List String) (h : String)
      → first_by newer
          (select (λ x. of_hash h x && (among event_hashes x.event_hash && is_usable k x)) rows)
        ≡ (if among event_hashes h
            then first_by newer (select (λ x. of_hash h x && is_usable k x) rows)
            else none)
  unfolding first_by select
  first_by-asked [] event_hashes h = ground arith
  first_by-asked (r ∷ rows) event_hashes h =
      let rest = first_by-asked rows event_hashes h in
      elim (Bool-cases (of_hash h r)) [
        | inr e ↦ ground (arith, e, rest)
        | inl e ↦
            let same = ap (among event_hashes) ((eq_iff r.event_hash h).0 e) in
            ground (arith, e, rest, same)
      ]

  -- The entry of an event in the batch is what the single read gives for it, and there is none for
  -- an event that was not asked for.
  pub read_latest_interpretations_batch-find? :
      (rows : Interpretations) (event_hashes : List String) (h : String)
      → find? (of_hash h) (read_latest_interpretations_batch k rows event_hashes)
        ≡ (if among event_hashes h then read_latest_interpretation k rows h else none)
  unfolding read_latest_interpretations_batch read_latest_interpretation find?
  read_latest_interpretations_batch-find? rows event_hashes h =
      let asked = λ (r : Interpretation). among event_hashes r.event_hash && is_usable k r in
      let usable = λ (r : Interpretation). of_hash h r && is_usable k r in
      find?-keep_first (sort_by (hash_then_newer k) (select asked rows)) [] h
      ∙ find?-sort_by (hash_then_newer k) (hash_then_newer_asym) (hash_then_newer_trans) (of_hash h)
          (select asked rows)
      ∙ first_by-select_ext (hash_then_newer k) newer (of_hash h) (λ a b p q. agrees h a b p q)
          (select asked rows)
      ∙ ap (first_by newer) (select-select (of_hash h) asked rows)
      ∙ first_by-asked rows event_hashes h
