-- ===== src/Prelude/TableLaws.antt =====
-- How the statements on a table meet: a SELECT of one row after an INSERT, DELETE or UPDATE.
use mathlib.Core.Path.{◌≡◌, refl, subst}
use mathlib.Core.Bool.{Bool, true, false, ◌&&◌}
use mathlib.Core.Option.{none, some}
use mathlib.Core.Logic.{inl, inr}
use Prim.Native.Nat.{◌+◌, ◌<◌}
use mathlib.Core.List.{List, [], ◌∷◌, ◌++◌}
use native.Mathlib.Omega.{arith}
use afair.Prelude.Tests.{is_some, Bool-cases}
use afair.Prelude.Table.{All, length, find?, select, delete, update, count}

module _ {ℓ} {A : Type ℓ} where
  pub find?-append_some :
      (p : A → Bool) (xs ys : List A) {a : A} → find? p xs ≡ some a → find? p (xs ++ ys) ≡ some a
  unfolding find?
  find?-append_some p [] ys e = cc
  find?-append_some p (x ∷ xs) ys {a} e = ground (arith, find?-append_some p xs ys {a = a})

  pub find?-append_none :
      (p : A → Bool) (xs ys : List A) → find? p xs ≡ none → find? p (xs ++ ys) ≡ find? p ys
  unfolding find?
  find?-append_none p [] ys e = refl
  find?-append_none p (x ∷ xs) ys e = ground (arith, find?-append_none p xs ys)

  pub find?-append_one :
      (p : A → Bool) (xs : List A) (a : A)
      → find? p xs ≡ none
      → p a ≡ true
      → find? p (xs ++ a ∷ []) ≡ some a
  unfolding find?
  find?-append_one p [] a e t = ground arith
  find?-append_one p (x ∷ xs) a e t = ground (arith, find?-append_one p xs a)

  pub find?-append_other :
      (p : A → Bool) (xs : List A) (a : A) → p a ≡ false → find? p (xs ++ a ∷ []) ≡ find? p xs
  unfolding find?
  find?-append_other p [] a t = ground arith
  find?-append_other p (x ∷ xs) a t = ground (arith, find?-append_other p xs a)

  pub find?_holds : (p : A → Bool) (xs : List A) {a : A} → find? p xs ≡ some a → p a ≡ true
  unfolding find?
  find?_holds p [] e = cc
  find?_holds p (x ∷ xs) {a} e = ground (arith, find?_holds p xs {a = a})

  pub find?-delete_self : (p : A → Bool) (xs : List A) → find? p (delete p xs) ≡ none
  unfolding find? delete
  find?-delete_self p [] = refl
  find?-delete_self p (x ∷ xs) = ground (arith, find?-delete_self p xs)

  pub find?-delete_disjoint :
      (p q : A → Bool) (xs : List A)
      → ((x : A) → p x ≡ true → q x ≡ false)
      → find? q (delete p xs) ≡ find? q xs
  unfolding find? delete
  find?-delete_disjoint p q [] h = refl
  find?-delete_disjoint p q (x ∷ xs) h = ground (arith, h x, find?-delete_disjoint p q xs h)

  pub delete_absent : (p : A → Bool) (xs : List A) → find? p xs ≡ none → delete p xs ≡ xs
  unfolding find? delete
  delete_absent p [] e = refl
  delete_absent p (x ∷ xs) e = ground (arith, delete_absent p xs)

  -- A row that was just inserted under a free key is all that a DELETE of the key removes.
  pub delete-append_one :
      (p : A → Bool) (xs : List A) (a : A)
      → find? p xs ≡ none
      → p a ≡ true
      → delete p (xs ++ a ∷ []) ≡ xs
  unfolding find? delete
  delete-append_one p [] a e t = ground arith
  delete-append_one p (x ∷ xs) a e t = ground (arith, delete-append_one p xs a)

  pub find?-none_sub :
      (p q : A → Bool) (xs : List A)
      → ((x : A) → p x ≡ true → q x ≡ true)
      → find? q xs ≡ none
      → find? p xs ≡ none
  unfolding find?
  find?-none_sub p q [] h e = refl
  find?-none_sub p q (x ∷ xs) h e = ground (arith, h x, find?-none_sub p q xs h)

  pub find?_sub :
      (p q : A → Bool) (xs : List A) {a : A}
      → ((x : A) → p x ≡ true → q x ≡ true)
      → find? q xs ≡ some a
      → p a ≡ true
      → find? p xs ≡ some a
  unfolding find?
  find?_sub p q [] h e t = absurd (ground arith)
  find?_sub p q (x ∷ xs) {a} h e t = elim (Bool-cases (q x)) [
    | inl k ↦ ground (arith, h x, k, e, t)
    | inr k ↦ ground (arith, h x, k, e, find?_sub p q xs {a = a} h)
  ]

  module _ (p q : A → Bool) (f : A → A) where
    -- An UPDATE that makes no row satisfy `q` anew.
    pub find?-update-none :
        (xs : List A)
        → ((x : A) → q (f x) ≡ true → q x ≡ true)
        → find? q xs ≡ none
        → find? q (update p f xs) ≡ none
    unfolding find? update
    find?-update-none [] h e = refl
    find?-update-none (x ∷ xs) h e = ground (arith, h x, find?-update-none xs h)

    -- An UPDATE that reaches every row that satisfies `q`, and ends that.
    pub find?-update_hit :
        (xs : List A)
        → ((x : A) → q x ≡ true → p x ≡ true)
        → ((x : A) → q (f x) ≡ false)
        → find? q (update p f xs) ≡ none
    unfolding find? update
    find?-update_hit [] h k = refl
    find?-update_hit (x ∷ xs) h k = ground (arith, h x, k x, find?-update_hit xs h k)

    pub find?-update_disjoint :
        (xs : List A)
        → ((x : A) → p x ≡ true → (q x ≡ false) × (q (f x) ≡ false))
        → find? q (update p f xs) ≡ find? q xs
    unfolding find? update
    find?-update_disjoint [] h = refl
    find?-update_disjoint (x ∷ xs) h = ground (arith, h x, find?-update_disjoint xs h)

    pub is_some-find?-update :
        (xs : List A)
        → ((x : A) → q (f x) ≡ q x)
        → is_some (find? q (update p f xs)) ≡ is_some (find? q xs)
    unfolding find? update
    is_some-find?-update [] h = refl
    is_some-find?-update (x ∷ xs) h = ground (arith, h x, is_some-find?-update xs h)

    -- An UPDATE leaves the rows outside its WHERE as they were.
    pub select-update_disjoint :
        (xs : List A)
        → ((x : A) → p x ≡ true → (q x ≡ false) × (q (f x) ≡ false))
        → select q (update p f xs) ≡ select q xs
    unfolding select update
    select-update_disjoint [] h = refl
    select-update_disjoint (x ∷ xs) h = ground (arith, h x, select-update_disjoint xs h)

    -- An UPDATE that keeps `q` changes the row that a SELECT finds.
    pub find?-update_same :
        (xs : List A) {a : A}
        → ((x : A) → q (f x) ≡ q x)
        → find? q xs ≡ some a
        → p a ≡ true
        → find? q (update p f xs) ≡ some (f a)
    unfolding find? update
    find?-update_same [] h e t = absurd (ground arith)
    find?-update_same (x ∷ xs) {a} h e t = elim (Bool-cases (q x)) [
      | inl k ↦ ground (arith, h x, k, e)
      | inr k ↦ ground (arith, h x, k, e, find?-update_same xs {a = a} h)
    ]

  pub update_absent :
      (p : A → Bool) (f : A → A) (xs : List A) → find? p xs ≡ none → update p f xs ≡ xs
  unfolding find? update
  update_absent p f [] e = refl
  update_absent p f (x ∷ xs) e = ground (arith, update_absent p f xs)

  pub count_absent : (p : A → Bool) (xs : List A) → find? p xs ≡ none → count p xs ≡ 0
  unfolding find? count
  count_absent p [] e = refl
  count_absent p (x ∷ xs) e = ground (arith, count_absent p xs)

  pub count_present :
      (p q : A → Bool) (xs : List A) {a : A} → find? q xs ≡ some a → p a ≡ true → 0 < count p xs
  unfolding find? count
  count_present p q [] e t = absurd (ground arith)
  count_present p q (x ∷ xs) {a} e t = elim (Bool-cases (q x)) [
    | inl k ↦ ground (arith, k, e)
    | inr k ↦ ground (arith, k, e, count_present p q xs {a = a})
  ]

  pub select-append_other :
      (p : A → Bool) (xs : List A) (a : A) → p a ≡ false → select p (xs ++ a ∷ []) ≡ select p xs
  unfolding select
  select-append_other p [] a e = ground (arith, e)
  select-append_other p (x ∷ xs) a e = ground (arith, select-append_other p xs a e)

  -- A SELECT of a SELECT is one with both conditions.
  pub select-select :
      (p q : A → Bool) (xs : List A) → select p (select q xs) ≡ select (λ x. p x && q x) xs
  unfolding select
  select-select p q [] = refl
  select-select p q (x ∷ xs) = ground (arith, select-select p q xs)

  pub select_ext :
      (p q : A → Bool) (xs : List A) → ((x : A) → p x ≡ q x) → select p xs ≡ select q xs
  unfolding select
  select_ext p q [] h = refl
  select_ext p q (x ∷ xs) h = ground (arith, h x, select_ext p q xs h)

  pub length-append_one : (xs : List A) (a : A) → length (xs ++ a ∷ []) ≡ length xs + 1
  length-append_one [] a = omega arith
  length-append_one (x ∷ xs) a = omega (arith, length-append_one xs a)

  pub All-find? :
      (P : A → Type 0) (p : A → Bool) (xs : List A) {a : A} → All P xs → find? p xs ≡ some a → P a
  unfolding find?
  All-find? P p [] h e = absurd (ground arith)
  All-find? P p (x ∷ xs) {a} h e = elim (Bool-cases (p x)) [
    | inl t ↦ let same : x ≡ a = ground (arith, t, e) in subst P same h.0
    | inr t ↦ All-find? P p xs {a = a} h.1 (ground (arith, t, e))
  ]

  pub All-append_one :
      (P : A → Type 0) (xs : List A) (a : A) → All P xs → P a → All P (xs ++ a ∷ [])
  All-append_one P [] a h p = (p, tt)
  All-append_one P (x ∷ xs) a h p = (h.0, All-append_one P xs a h.1 p)

  -- What a SELECT gives satisfies its WHERE.
  pub All-select :
      (P : A → Type 0) (p : A → Bool) (xs : List A)
      → ((x : A) → p x ≡ true → P x)
      → All P (select p xs)
  unfolding select
  All-select P p [] h = tt
  All-select P p (x ∷ xs) h = elim (Bool-cases (p x)) [
    | inl e ↦ rw e (h x e, All-select P p xs h)
    | inr e ↦ rw e (All-select P p xs h)
  ]
