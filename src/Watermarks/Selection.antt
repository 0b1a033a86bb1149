-- ===== src/Watermarks/Selection.antt =====
-- What a selection that is not capped leaves out, and what going through it covers (the cycle of
-- afair/agents/salience.py).
use afair.Prelude.{
  ℕ, zero, suc, ◌+◌, ap, ◌==◌, sort_by, insert_by, take, length, Option-cases, ◌<◌, ◌≡◌, refl, sym,
  subst, inl, inr, true, false, not, ◌&&◌, ◌||◌, Option, none, some, List, [], ◌∷◌, select, arith,
  Bool-cases,
}
use afair.Watermarks.Store.{advanced}
use afair.Watermarks.Frontier.{Row, lag_threshold_id, frontier, frontier-lt_threshold}
use afair.Watermarks.Cycle.{
  salience_batch_limit, above, contains, ids, candidates, newest_first, selection, drained,
}
use afair.Watermarks.Safety.{Below, Covered, Selected, IsBehind, IsSelected, All-map}

module _ (wm : Option ℕ) (handled : List ℕ) (r : Row) (rs : List Row) where
  candidates-taken :
      r.taken && above wm r.id && not (contains r.id handled) ≡ true
      → candidates wm handled (r ∷ rs) ≡ r ∷ candidates wm handled rs
  unfolding candidates select
  candidates-taken e = ground (arith, e)

  candidates-passed :
      r.taken && above wm r.id && not (contains r.id handled) ≡ false
      → candidates wm handled (r ∷ rs) ≡ candidates wm handled rs
  unfolding candidates select
  candidates-passed e = ground (arith, e)

Selected-cons :
    (id e : ℕ) (handled rest : List ℕ) (rows : List Row)
    → Selected id handled rest rows
    → Selected id handled (e ∷ rest) rows
unfolding contains
Selected-cons id e handled rest rows = All-map _ _ rows (λ r h. ground arith)

-- Every row that is not covered already is a candidate.
Selected-candidates :
    (wm : Option ℕ) (id : ℕ) (handled : List ℕ) (rows : List Row)
    → Covered wm handled rows
    → Selected id handled (ids (candidates wm handled rows)) rows
unfolding contains ids
Selected-candidates wm id handled [] c = tt
Selected-candidates wm id handled (r ∷ rs) c =
    let more = Selected-candidates wm id handled rs c.1 in
    elim (Bool-cases (r.taken && above wm r.id && not (contains r.id handled))) [
      | inl taken ↦
          subst (λ l. Selected id handled (ids l) (r ∷ rs))
            (sym (candidates-taken wm handled r rs taken))
            (ground arith, Selected-cons id r.id handled (ids (candidates wm handled rs)) rs more)
      | inr passed ↦
          subst (λ l. Selected id handled (ids l) (r ∷ rs))
            (sym (candidates-passed wm handled r rs passed)) (ground (arith, c.0), more)
    ]

contains-insert_by :
    (a : ℕ) (x : Row) (ys : List Row)
    → contains a (ids (insert_by newest_first x ys)) ≡ (x.id == a || contains a (ids ys))
unfolding contains ids insert_by
contains-insert_by a x [] = refl
contains-insert_by a x (y ∷ ys) = ground (arith, contains-insert_by a x ys)

-- The order does not matter to what is selected.
contains-sort_by :
    (a : ℕ) (xs : List Row) → contains a (ids (sort_by newest_first xs)) ≡ contains a (ids xs)
unfolding contains ids sort_by
contains-sort_by a [] = refl
contains-sort_by a (x ∷ xs) =
    ground (arith, contains-insert_by a x (sort_by newest_first xs), contains-sort_by a xs)

take_few : (n : ℕ) (xs : List ℕ) → length (take n xs) < n → take n xs ≡ xs
take_few n [] h = refl
take_few zero (x ∷ xs) h = absurd (omega arith)
take_few (suc n) (x ∷ xs) h = ap (λ l. x ∷ l) (take_few n xs (omega arith))

Selected-same :
    (id : ℕ) (handled rest rest' : List ℕ) (rows : List Row)
    → ((a : ℕ) → contains a rest' ≡ contains a rest)
    → Selected id handled rest rows
    → Selected id handled rest' rows
Selected-same id handled rest rest' rows same =
    All-map _ _ rows (λ r h. ground (arith, same r.id, h))

-- A selection that is not capped takes every row that is not covered already.
pub IsSelected-selection :
    (wm : Option ℕ) (f : Option (ℕ × ℕ)) (handled : List ℕ) (rows : List Row)
    → Covered wm handled rows
    → length (selection wm handled rows) < salience_batch_limit
    → IsSelected f handled (selection wm handled rows) rows
unfolding selection
IsSelected-selection wm none handled rows c few = tt
IsSelected-selection wm (some (at, id)) handled rows c few =
    let found = candidates wm handled rows in
    let sorted = ids (sort_by newest_first found) in
    subst (λ l. Selected id handled l rows) (sym (take_few salience_batch_limit sorted few))
      (Selected-same id handled (ids found) sorted rows (λ a. contains-sort_by a found)
        (Selected-candidates wm id handled rows c))

Selected-handle :
    (id e : ℕ) (handled rest : List ℕ) (rows : List Row)
    → Selected id handled (e ∷ rest) rows
    → Selected id (e ∷ handled) rest rows
unfolding contains
Selected-handle id e handled rest rows = All-map _ _ rows (λ r h. ground arith)

pub IsSelected-handle :
    (f : Option (ℕ × ℕ)) (e : ℕ) (handled rest : List ℕ) (rows : List Row)
    → IsSelected f handled (e ∷ rest) rows
    → IsSelected f (e ∷ handled) rest rows
IsSelected-handle none e handled rest rows s = tt
IsSelected-handle (some (at, id)) e handled rest rows s = Selected-handle id e handled rest rows s

pub Covered-handle :
    (wm : Option ℕ) (e : ℕ) (handled : List ℕ) (rows : List Row)
    → Covered wm handled rows
    → Covered wm (e ∷ handled) rows
unfolding contains
Covered-handle wm e handled rows = All-map _ _ rows (λ r h. ground arith)

pub Covered-advance :
    (wm : Option ℕ) (id : ℕ) (handled : List ℕ) (rows : List Row)
    → Covered wm handled rows
    → Selected id handled [] rows
    → Covered (some (advanced wm id)) handled rows
unfolding contains
Covered-advance wm id handled [] c s = tt
Covered-advance none id handled (r ∷ rs) c s =
    (ground (arith, s.0), Covered-advance none id handled rs c.1 s.1)
Covered-advance (some wm) id handled (r ∷ rs) c s =
    (ground (arith, s.0, c.0), Covered-advance (some wm) id handled rs c.1 s.1)

pub Below-advance :
    (wm : Option ℕ) (id bound : ℕ)
    → Below wm bound
    → id < bound
    → Below (some (advanced wm id)) bound
Below-advance none id bound b h = h
Below-advance (some wm) id bound b h = ground arith

pub drained_all :
    (chosen scored : ℕ)
    → drained chosen scored ≡ true
    → (chosen < salience_batch_limit) × (scored + 0 ≡ chosen)
unfolding drained
drained_all chosen scored e = (ground (arith, e), ground (arith, e))

pub IsBehind-frontier :
    (rows : List Row) (now : ℕ) → IsBehind (frontier rows now) (lag_threshold_id now)
IsBehind-frontier rows now = elim (Option-cases (frontier rows now)) [
  | inl e ↦ rw e tt
  | inr ((at, id), e) ↦ rw e (frontier-lt_threshold rows now at id e)
]

pub Covered-none : (handled : List ℕ) (rows : List Row) → Covered none handled rows
Covered-none handled [] = tt
Covered-none handled (r ∷ rs) = (ground arith, Covered-none handled rs)
