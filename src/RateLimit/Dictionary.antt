-- ===== src/RateLimit/Dictionary.antt =====
-- Laws of the bucket dictionary: lookups after a removal, an assignment, an insertion at the end
-- and an eviction, over distinct keys.
use afair.Prelude.{
  ℕ, ◌+◌, ◌≤◌, ◌≡◌, refl, ◌⊎◌, inl, String, str_eq, eq_iff, eq_refl, false, none, some, [], ◌∷◌,
  ◌++◌, arith, length, All,
}
use afair.RateLimit.Buckets.{Bucket, Buckets, get, remove, assign, evict}

-- No key twice.
abbrev pub Distinct : Buckets → Type 0
Distinct [] = Unit {0}
Distinct ((j, b) ∷ bs) = (get j bs ≡ none) × Distinct bs

-- Every bucket holds at most so much.
abbrev pub Within : ℕ → Buckets → Type 0
Within capacity = All (λ e. e.1.tokens ≤ capacity)

pub get-remove_self : (k : String) (bs : Buckets) → Distinct bs → get k (remove k bs) ≡ none
unfolding get remove
get-remove_self k [] d = refl
get-remove_self k ((j, b) ∷ bs) d = ground (arith, eq_iff j k, get-remove_self k bs d.1)

pub get-remove_other :
    (k i : String) (bs : Buckets) → str_eq i k ≡ false → get i (remove k bs) ≡ get i bs
unfolding get remove
get-remove_other k i [] h = refl
get-remove_other k i ((j, b) ∷ bs) h =
    ground (arith, eq_iff j k, eq_iff j i, eq_iff i k, get-remove_other k i bs h)

pub get-append_one :
    (k : String) (b : Bucket) (bs : Buckets) → get k bs ≡ none → get k (bs ++ (k, b) ∷ []) ≡ some b
unfolding get
get-append_one k b [] h = ground (arith, eq_refl k)
get-append_one k b ((j, c) ∷ bs) h = ground (arith, get-append_one k b bs)

pub get-append_other :
    (k i : String) (b : Bucket) (bs : Buckets)
    → str_eq i k ≡ false
    → get i (bs ++ (k, b) ∷ []) ≡ get i bs
unfolding get
get-append_other k i b [] h = ground (arith, eq_iff k i, eq_iff i k)
get-append_other k i b ((j, c) ∷ bs) h = ground (arith, get-append_other k i b bs h)

pub get-assign_self :
    (k : String) (c b : Bucket) (bs : Buckets) → get k bs ≡ some b → get k (assign k c bs) ≡ some c
unfolding get assign
get-assign_self k c b [] h = absurd (ground arith)
get-assign_self k c b ((j, a) ∷ bs) h = ground (arith, get-assign_self k c b bs)

pub get-assign-none :
    (k i : String) (c : Bucket) (bs : Buckets) → get i bs ≡ none → get i (assign k c bs) ≡ none
unfolding get assign
get-assign-none k i c [] h = refl
get-assign-none k i c ((j, a) ∷ bs) h = ground (arith, get-assign-none k i c bs)

pub get-assign_other :
    (k i : String) (c : Bucket) (bs : Buckets)
    → str_eq i k ≡ false
    → get i (assign k c bs) ≡ get i bs
unfolding get assign
get-assign_other k i c [] h = refl
get-assign_other k i c ((j, a) ∷ bs) h =
    ground (arith, eq_iff j k, eq_iff j i, eq_iff i k, get-assign_other k i c bs h)

-- An eviction drops entries, and changes none.
pub get-evict :
    (m : ℕ) (i : String) (bs : Buckets)
    → Distinct bs
    → (get i (evict m bs) ≡ none) ⊎ (get i (evict m bs) ≡ get i bs)
unfolding get evict
get-evict m i [] d = inl refl
get-evict m i ((j, b) ∷ bs) d = ground (arith, eq_iff j i, get-evict m i bs d.1)

pub remove-Distinct : (k : String) (bs : Buckets) → Distinct bs → Distinct (remove k bs)
unfolding remove
remove-Distinct k [] d = tt
remove-Distinct k ((j, b) ∷ bs) d =
    ground (arith, get-remove_other k j bs, eq_iff j k, remove-Distinct k bs d.1)

pub append-Distinct :
    (k : String) (b : Bucket) (bs : Buckets)
    → get k bs ≡ none
    → Distinct bs
    → Distinct (bs ++ (k, b) ∷ [])
unfolding get
append-Distinct k b [] h d = (refl, tt)
append-Distinct k b ((j, a) ∷ bs) h d =
    ground (arith, get-append_other k j b bs, eq_iff j k, append-Distinct k b bs, d)

pub assign-Distinct :
    (k : String) (c : Bucket) (bs : Buckets) → Distinct bs → Distinct (assign k c bs)
unfolding assign
assign-Distinct k c [] d = tt
assign-Distinct k c ((j, a) ∷ bs) d =
    ground (arith, get-assign-none k j c bs, assign-Distinct k c bs d.1, d)

pub evict-Distinct : (m : ℕ) (bs : Buckets) → Distinct bs → Distinct (evict m bs)
unfolding evict
evict-Distinct m [] d = tt
evict-Distinct m ((j, a) ∷ bs) d = ground (arith, evict-Distinct m bs d.1, d)

pub remove-Within : (n : ℕ) (k : String) (bs : Buckets) → Within n bs → Within n (remove k bs)
unfolding remove
remove-Within n k [] w = tt
remove-Within n k ((j, a) ∷ bs) w = ground (arith, remove-Within n k bs w.1, w)

pub append-Within :
    (n : ℕ) (k : String) (b : Bucket) (bs : Buckets)
    → b.tokens ≤ n
    → Within n bs
    → Within n (bs ++ (k, b) ∷ [])
append-Within n k b [] h w = (h, tt)
append-Within n k b ((j, a) ∷ bs) h w = (w.0, append-Within n k b bs h w.1)

pub assign-Within :
    (n : ℕ) (k : String) (b : Bucket) (bs : Buckets)
    → b.tokens ≤ n
    → Within n bs
    → Within n (assign k b bs)
unfolding assign
assign-Within n k b [] h w = tt
assign-Within n k b ((j, a) ∷ bs) h w = ground (arith, assign-Within n k b bs h w.1, w)

pub evict-Within : (n m : ℕ) (bs : Buckets) → Within n bs → Within n (evict m bs)
unfolding evict
evict-Within n m [] w = tt
evict-Within n m ((j, a) ∷ bs) w = ground (arith, evict-Within n m bs w.1, w)

pub get-Within :
    (n : ℕ) (k : String) (bs : Buckets) {b : Bucket}
    → Within n bs
    → get k bs ≡ some b
    → b.tokens ≤ n
unfolding get
get-Within n k [] w e = absurd (ground arith)
get-Within n k ((j, a) ∷ bs) {b} w e = ground (arith, get-Within n k bs {b = b} w.1, w)

pub length-evict-le : (m : ℕ) (bs : Buckets) → length (evict m bs) ≤ m
unfolding evict
length-evict-le m [] = omega arith
length-evict-le m ((j, a) ∷ bs) = ground (arith, length-evict-le m bs)

pub length-append_one : (e : String × Bucket) (bs : Buckets) → length (bs ++ e ∷ []) ≡ length bs + 1
length-append_one e [] = refl
length-append_one e (b ∷ bs) = omega (arith, length-append_one e bs)

pub length-assign : (k : String) (b : Bucket) (bs : Buckets) → length (assign k b bs) ≡ length bs
unfolding assign
length-assign k b [] = refl
length-assign k b ((j, a) ∷ bs) = ground (arith, length-assign k b bs)

pub length-remove :
    (k : String) (bs : Buckets) {b : Bucket}
    → get k bs ≡ some b
    → length (remove k bs) + 1 ≡ length bs
unfolding get remove
length-remove k [] e = absurd (ground arith)
length-remove k ((j, a) ∷ bs) {b} e = ground (arith, length-remove k bs {b = b})
