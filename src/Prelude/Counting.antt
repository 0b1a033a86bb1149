-- ===== src/Prelude/Counting.antt =====
-- The row count of a table, and what its rows meet, after an INSERT or an UPDATE.
use mathlib.Core.Path.{◌≡◌, refl}
use mathlib.Core.Bool.{Bool, true, false}
use mathlib.Core.Option.{none, some}
use mathlib.Core.Logic.{inl, inr}
use Prim.Native.Nat.{ℕ, ◌+◌, ◌<◌, ◌≤◌}
use mathlib.Core.List.{List, [], ◌∷◌, ◌++◌}
use native.Mathlib.Omega.{arith}
use afair.Prelude.Tests.{Bool-cases, if◌then◌else◌}
use afair.Prelude.Table.{All, find?, select, newest, update, count}

module _ {ℓ} {A : Type ℓ} where
  pub count-append_one :
      (p : A → Bool) (xs : List A) (a : A)
      → count p (xs ++ a ∷ []) ≡ count p xs + (if p a then 1 else 0)
  unfolding count
  count-append_one p [] a = ground arith
  count-append_one p (x ∷ xs) a = ground (arith, count-append_one p xs a)

  pub find?-count_zero : (p : A → Bool) (xs : List A) → count p xs ≡ 0 → find? p xs ≡ none
  unfolding count find?
  find?-count_zero p [] e = refl
  find?-count_zero p (x ∷ xs) e = ground (arith, find?-count_zero p xs)

  pub All-update :
      (P : A → Type 0) (p : A → Bool) (f : A → A) (xs : List A)
      → ((x : A) → P x → P (f x))
      → All P xs
      → All P (update p f xs)
  unfolding update
  All-update P p f [] h a = tt
  All-update P p f (x ∷ xs) h a = elim (Bool-cases (p x)) [
    | inl e ↦ rw e (h x a.0, All-update P p f xs h a.1)
    | inr e ↦ rw e (a.0, All-update P p f xs h a.1)
  ]

  module _ (p q : A → Bool) (f : A → A) (ends : (x : A) → p x ≡ true → q (f x) ≡ false) where
    -- An UPDATE after which no row that it reached satisfies `q`.
    pub count-update : (xs : List A) → count q (update p f xs) ≤ count q xs
    unfolding count update
    count-update [] = ground arith
    count-update (x ∷ xs) = ground (arith, ends x, count-update xs)

    pub count-update_hit :
        (xs : List A) {a : A}
        → find? p xs ≡ some a
        → q a ≡ true
        → count q (update p f xs) < count q xs
    unfolding count update find?
    count-update_hit [] e t = absurd (ground arith)
    count-update_hit (x ∷ xs) {a} e t = elim (Bool-cases (p x)) [
      | inl k ↦ ground (arith, k, e, ends x k, count-update xs)
      | inr k ↦ ground (arith, k, e, count-update_hit xs {a = a})
    ]

  -- The row that was inserted last is the newest of those that a SELECT takes with it.
  pub newest-select-append_one :
      (key : A → ℕ) (p : A → Bool) (xs : List A) (a : A)
      → All (λ x. key x < key a) xs
      → p a ≡ true
      → newest key (select p (xs ++ a ∷ [])) ≡ some a
  unfolding newest select
  newest-select-append_one key p [] a h e = ground (arith, e)
  newest-select-append_one key p (x ∷ xs) a h e =
      ground (arith, h.0, newest-select-append_one key p xs a h.1 e)

  -- Two conditions that agree on the rows of a table select the same ones.
  pub select_ext_absent :
      (p q r : A → Bool) (xs : List A)
      → find? r xs ≡ none
      → ((x : A) → r x ≡ false → p x ≡ q x)
      → select p xs ≡ select q xs
  unfolding find? select
  select_ext_absent p q r [] e h = refl
  select_ext_absent p q r (x ∷ xs) e h = ground (arith, h x, select_ext_absent p q r xs)
