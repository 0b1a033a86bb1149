-- ===== src/Prelude/Sorting.antt =====
-- ORDER BY: `before x y` says that `x` stands strictly before `y`. Rows that the order leaves open
-- stay in the order of the table.
use mathlib.Core.Path.{◌≡◌, refl, ap}
use mathlib.Core.Logic.{inl, inr}
use mathlib.Core.Bool.{Bool, true, false}
use mathlib.Core.Option.{Option, none, some}
use mathlib.Core.List.{List, [], ◌∷◌, ◌++◌}
use native.Mathlib.Omega.{arith}
use afair.Prelude.Tests.{is_some, if◌then◌else◌, Bool-cases, Option-cases}
use afair.Prelude.Table.{find?, select, All}
use afair.Prelude.TableLaws.{All-find?}

module _ {ℓ} {A : Type ℓ} (before : A → A → Bool) where
  -- ORDER BY … LIMIT 1.
  unfoldable pub first_by : List A → Option A
  first_by [] = none
  first_by (x ∷ xs) = elim (first_by xs) [
    | none ↦ some x
    | some y ↦ if before y x then some y else some x
  ]

  unfoldable pub insert_by : A → List A → List A
  insert_by x [] = x ∷ []
  insert_by x (y ∷ ys) = let rest = insert_by x ys in if before y x then y ∷ rest else x ∷ y ∷ ys

  -- ORDER BY.
  unfoldable pub sort_by : List A → List A
  sort_by [] = []
  sort_by (x ∷ xs) = insert_by x (sort_by xs)

  abbrev pub Sorted : List A → Type ℓ
  Sorted [] = Unit
  Sorted (x ∷ xs) = All (λ y. before y x ≡ false) xs × Sorted xs

  module _ (P : A → Type 0) where
    All-insert_by : (x : A) (ys : List A) → P x → All P ys → All P (insert_by x ys)
    unfolding insert_by
    All-insert_by x [] h k = (h, tt)
    All-insert_by x (y ∷ ys) h k = elim (Bool-cases (before y x)) [
      | inl e ↦ rw e (k.0, All-insert_by x ys h k.1)
      | inr e ↦ rw e (h, k)
    ]

    All-weaken : (Q : A → Type 0) (xs : List A) → ((x : A) → P x → Q x) → All P xs → All Q xs
    All-weaken Q [] f h = tt
    All-weaken Q (x ∷ xs) f h = (f x h.0, All-weaken Q xs f h.1)

  module _ (asym : (x y : A) → before x y ≡ true → before y x ≡ false)
      (trans : (x y z : A) → before y x ≡ true → before y z ≡ false → before z x ≡ true) where
    not_before : (x y z : A) → before z y ≡ false → before y x ≡ false → before z x ≡ false
    not_before x y z h k = elim (Bool-cases (before z x)) [
      | inl e ↦ absurd (ground (arith, trans x z y))
      | inr e ↦ e
    ]

    insert_by-Sorted : (x : A) (ys : List A) → Sorted ys → Sorted (insert_by x ys)
    unfolding insert_by
    insert_by-Sorted x [] s = (tt, tt)
    insert_by-Sorted x (y ∷ ys) s = elim (Bool-cases (before y x)) [
      | inl e ↦
          rw e (
            All-insert_by (λ z. before z y ≡ false) x ys (asym y x e) s.0,
            insert_by-Sorted x ys s.1,
          )
      | inr e ↦ rw e (
        (
          e,
          All-weaken (λ z. before z y ≡ false) (λ z. before z x ≡ false) ys
              (λ z h. not_before x y z h e) s.0,
        ),
        s,
      )
    ]

    pub sort_by-Sorted : (xs : List A) → Sorted (sort_by xs)
    unfolding sort_by
    sort_by-Sorted [] = tt
    sort_by-Sorted (x ∷ xs) = insert_by-Sorted x (sort_by xs) (sort_by-Sorted xs)

    module _ (p : A → Bool) where
      find?-insert_by_miss :
          (x : A) (ys : List A) → p x ≡ false → find? p (insert_by x ys) ≡ find? p ys
      unfolding find? insert_by
      find?-insert_by_miss x [] e = ground (arith, e)
      find?-insert_by_miss x (y ∷ ys) e = ground (arith, e, find?-insert_by_miss x ys e)

      -- The first of a row and the first of the others.
      abbrev earlier : A → Option A → Option A
      earlier x none = some x
      earlier x (some y) = if before y x then some y else some x

      find?-insert_by_hit :
          (x : A) (ys : List A)
          → p x ≡ true
          → Sorted ys
          → find? p (insert_by x ys) ≡ earlier x (find? p ys)
      unfolding find? insert_by
      find?-insert_by_hit x [] e s = ground (arith, e)
      find?-insert_by_hit x (y ∷ ys) e s = elim (Bool-cases (before y x)) [
        | inl k ↦ elim (Bool-cases (p y)) [
          | inl t ↦ ground (arith, k, t)
          | inr t ↦ ground (arith, k, t, find?-insert_by_hit x ys e s.1)
        ]
        | inr k ↦ elim (Option-cases (find? p (y ∷ ys))) [
          | inl f ↦ ground (arith, k, e, f)
          | inr (w, f) ↦
              let late =
                All-find? (λ z. before z x ≡ false) p (y ∷ ys) {a = w}
                  (
                    k,
                    All-weaken (λ z. before z y ≡ false) (λ z. before z x ≡ false) ys
                        (λ z h. not_before x y z h k) s.0,
                  )
                  f in
              ground (arith, k, e, f, late)
        ]
      ]

      -- Of the sorted rows, the first with a property is the first of those that have it.
      pub find?-sort_by : (xs : List A) → find? p (sort_by xs) ≡ first_by (select p xs)
      unfolding find? sort_by first_by select
      find?-sort_by [] = refl
      find?-sort_by (x ∷ xs) = elim (Bool-cases (p x)) [
        | inl e ↦
            ground
              (arith, e, find?-insert_by_hit x (sort_by xs) e (sort_by-Sorted xs), find?-sort_by xs)
        | inr e ↦ ground (arith, e, find?-insert_by_miss x (sort_by xs) e, find?-sort_by xs)
      ]

  -- A new row that stands before all others of the table comes first.
  pub first_by-append_first :
      (p : A → Bool) (xs : List A) (a : A)
      → All (λ x. before a x ≡ true) xs
      → p a ≡ true
      → first_by (select p (xs ++ a ∷ [])) ≡ some a
  unfolding first_by select
  first_by-append_first p [] a h e = ground (arith, e)
  first_by-append_first p (x ∷ xs) a h e =
      ground (arith, h.0, e, first_by-append_first p xs a h.1 e)

-- A SELECT with a row has a first one.
pub first_by-is_some {ℓ} :
    {A : Type ℓ} (before : A → A → Bool) (p q : A → Bool) (xs : List A) {a : A}
    → find? q xs ≡ some a
    → p a ≡ true
    → is_some (first_by before (select p xs)) ≡ true
unfolding first_by select find?
first_by-is_some before p q [] e h = absurd (ground arith)
first_by-is_some before p q (x ∷ xs) {a} e h = elim (Option-cases (first_by before (select p xs))) [
  | inr (y, f) ↦ ground (arith, f)
  | inl f ↦ elim (Bool-cases (q x)) [
    | inl t ↦ let same : x ≡ a = ground (arith, t, e) in ground (arith, f, ap p same, h)
    | inr t ↦ ground (arith, f, t, e, first_by-is_some before p q xs {a = a})
  ]
]

-- What a first row of a SELECT satisfies.
pub first_by_holds {ℓ} :
    {A : Type ℓ} (before : A → A → Bool) (p : A → Bool) (xs : List A) (a : A)
    → first_by before (select p xs) ≡ some a
    → p a ≡ true
unfolding first_by select
first_by_holds before p [] a e = absurd (ground arith)
first_by_holds before p (x ∷ xs) a e = elim (Bool-cases (p x)) [
  | inr t ↦ first_by_holds before p xs a (ground (arith, t, e))
  | inl t ↦ elim (Option-cases (first_by before (select p xs))) [
    | inl f ↦ ground (arith, t, e, f)
    | inr (y, f) ↦ ground (arith, t, e, f, first_by_holds before p xs y f)
  ]
]

-- Two orders that agree on the rows of a SELECT have the same first one.
pub first_by-select_ext {ℓ} :
    {A : Type ℓ} (before before' : A → A → Bool) (p : A → Bool)
    → ((x y : A) → p x ≡ true → p y ≡ true → before x y ≡ before' x y)
    → (xs : List A) → first_by before (select p xs) ≡ first_by before' (select p xs)
unfolding first_by select
first_by-select_ext before before' p h [] = refl
first_by-select_ext before before' p h (x ∷ xs) =
    let rest = first_by-select_ext before before' p h xs in
    elim (Bool-cases (p x)) [
      | inr e ↦ ground (arith, e, rest)
      | inl e ↦ elim (Option-cases (first_by before' (select p xs))) [
        | inl f ↦ ground (arith, e, rest, f)
        | inr (y, f) ↦ ground (arith, e, rest, f, h y x (first_by_holds before' p xs y f) e)
      ]
    ]

pub All-sort_by {ℓ} :
    {A : Type ℓ} (P : A → Type 0) (before : A → A → Bool) (xs : List A)
    → All P xs
    → All P (sort_by before xs)
unfolding sort_by
All-sort_by P before [] h = tt
All-sort_by P before (x ∷ xs) h =
    All-insert_by before P x (sort_by before xs) h.0 (All-sort_by P before xs h.1)
