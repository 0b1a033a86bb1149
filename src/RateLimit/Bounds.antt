-- ===== src/RateLimit/Bounds.antt =====
-- The limiter's invariant: bounded memory, one bucket for each identity, none above its capacity.
use afair.Prelude.{
  ℕ, ◌-◌, ◌*◌, ◌≤◌, ◌<◌, ◌≡◌, inl, inr, String, some, [], ◌∷◌, ◌++◌, arith, Option-cases, length,
}
use afair.RateLimit.Buckets.{
  unit, Bucket, Buckets, Limiter, init, get, remove, evict, refill, spend, check,
}
use afair.RateLimit.Dictionary.{
  Distinct, Within, get-remove_self, remove-Distinct, append-Distinct, assign-Distinct,
  evict-Distinct, remove-Within, append-Within, assign-Within, evict-Within, length-evict-le,
  length-append_one, length-assign, length-remove,
}

-- No more identities than allowed, none twice, and no bucket above its capacity.
pub record IsValid (l : Limiter) : Type 0 where
  pub bounded : length l.buckets ≤ l.max_identities
  pub distinct : Distinct l.buckets
  pub within : Within l.capacity l.buckets

product-le : (r b : ℕ) → 1 ≤ r → 100 ≤ b → 60000000 ≤ r * b * 600000
product-le r b h k = let step : 100 ≤ r * b = grind arith in omega arith

-- A new limiter is valid, and holds at least one token for each identity.
pub init-IsValid :
    (rpm burst max_identities : ℕ) (l : Limiter)
    → init rpm burst max_identities ≡ some l
    → IsValid l × (unit ≤ l.capacity) × (0 < l.requests_per_minute)
unfolding init
init-IsValid rpm burst max_identities l e = ground (arith, product-le rpm burst)

spend-IsValid :
    (l : Limiter) (identity : String) (b : Bucket) (buckets : Buckets)
    → b.tokens ≤ l.capacity
    → length buckets ≤ l.max_identities
    → Distinct buckets
    → Within l.capacity buckets
    → IsValid (spend l identity b buckets).0
unfolding spend
spend-IsValid l identity b buckets h n d w =
    let b' : Bucket = record b { tokens = b.tokens - unit } in
    ground (
      arith,
      length-assign identity b' buckets,
      assign-Distinct identity b' buckets d,
      assign-Within l.capacity identity b' buckets,
      w,
    )

-- Every check keeps the limiter valid.
pub check-IsValid :
    (l : Limiter) (identity : String) (now : ℕ) → IsValid l → IsValid (check l identity now).0
unfolding check refill
check-IsValid l identity now v = elim (Option-cases (get identity l.buckets)) [
  | inl absent ↦
      let b : Bucket = record { tokens = l.capacity; last_refill = now } in
      let all = l.buckets ++ (identity, b) ∷ [] in
      rw (absent, check)
        (spend-IsValid l identity b (evict l.max_identities all) (omega arith)
          (length-evict-le l.max_identities all)
          (evict-Distinct l.max_identities all
            (append-Distinct identity b l.buckets absent v.distinct))
          (evict-Within l.capacity l.max_identities all
            (append-Within l.capacity identity b l.buckets (omega arith) v.within)))
  | inr (old, found) ↦
      let b = refill l old now in
      let rest = remove identity l.buckets in
      rw (found, check)
        (spend-IsValid l identity b (rest ++ (identity, b) ∷ []) (ground arith)
          (omega (
            arith,
            length-append_one (identity, b) rest,
            length-remove identity l.buckets found,
            v.bounded,
          ))
          (append-Distinct identity b rest (get-remove_self identity l.buckets v.distinct)
            (remove-Distinct identity l.buckets v.distinct))
          (append-Within l.capacity identity b rest (ground arith)
            (remove-Within l.capacity identity l.buckets v.within)))
]
