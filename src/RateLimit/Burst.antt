-- ===== src/RateLimit/Burst.antt =====
-- The burst bound and the wait: how much an identity can be granted over a stretch of time, and
-- that whoever waits for as long as the answer says is granted.
use mathlib.Core.Path.{subst₂}
use afair.Prelude.{
  ℕ, ◌+◌, ◌-◌, ◌*◌, ◌≤◌, ◌≡◌, refl, ◌∙◌, sym, subst, ◌⊎◌, inl, inr, String, str_eq, eq_iff, Bool,
  true, false, none, some, List, [], ◌∷◌, ◌++◌, arith, leb, Bool-cases, Option-cases, if◌then◌else◌,
  is_some,
}
use afair.RateLimit.Buckets.{
  unit, Bucket, Buckets, Limiter, get, remove, evict, refill, spend, check,
}
use afair.RateLimit.Dictionary.{
  get-remove_self, get-remove_other, get-append_one, get-append_other, get-assign_self,
  get-assign_other, get-evict, append-Distinct, get-Within,
}
use afair.RateLimit.Bounds.{IsValid, check-IsValid}

-- What a verdict costs.
abbrev cost : Bool → ℕ
cost true = unit
cost false = 0

module _ (l : Limiter) (i : String) (b : Bucket) (bs : Buckets) where
  -- What is spent is gone from the bucket.
  spend_self :
      get i bs ≡ some b
      → (b' : Bucket) × (get i (spend l i b bs).0.buckets ≡ some b')
        × (b'.last_refill ≡ b.last_refill)
        × (cost (spend l i b bs).1 + b'.tokens ≡ b.tokens)
  unfolding spend
  spend_self found = elim (Bool-cases (leb unit b.tokens)) [
    | inl enough ↦ (
      record b { tokens = b.tokens - unit },
      ground (arith, get-assign_self i (record b { tokens = b.tokens - unit }) b bs found),
      refl,
      ground arith,
    )
    | inr short ↦ (b, ground arith, refl, ground arith)
  ]

  spend_other : (j : String) → str_eq j i ≡ false → get j (spend l i b bs).0.buckets ≡ get j bs
  unfolding spend
  spend_other j h =
      ground (arith, get-assign_other i j (record b { tokens = b.tokens - unit }) bs h)

-- A check of an identity with a bucket: what is granted comes out of what the bucket held and what
-- the time since its last refill was worth.
check_self :
    (l : Limiter) (i : String) (now : ℕ) (b : Bucket)
    → IsValid l
    → get i l.buckets ≡ some b
    → b.last_refill ≤ now
    → (b' : Bucket) × (get i (check l i now).0.buckets ≡ some b')
      × (b'.last_refill ≡ now)
      × (cost (check l i now).1 + b'.tokens
          ≤ b.tokens + (now - b.last_refill) * l.requests_per_minute)
unfolding check refill
check_self l i now b v found past =
    let c = refill l b now in
    let bs = remove i l.buckets ++ (i, c) ∷ [] in
    let (b', here, when, paid) =
      spend_self l i c bs
        (get-append_one i c (remove i l.buckets) (get-remove_self i l.buckets v.distinct)) in
    (b', ground (arith, found, here), when, ground (arith, found, paid))

-- A check leaves every other identity's bucket as it was, or evicts it.
check_other :
    (l : Limiter) (i j : String) (now : ℕ)
    → IsValid l
    → str_eq i j ≡ false
    → (get i (check l j now).0.buckets ≡ none) ⊎ (get i (check l j now).0.buckets ≡ get i l.buckets)
unfolding check refill
check_other l i j now v other = elim (Option-cases (get j l.buckets)) [
  | inl absent ↦
      let c : Bucket = record { tokens = l.capacity; last_refill = now } in
      let all = l.buckets ++ (j, c) ∷ [] in
      ground (
        arith,
        absent,
        spend_other l j c (evict l.max_identities all) i other,
        get-evict l.max_identities i all (append-Distinct j c l.buckets absent v.distinct),
        get-append_other j i c l.buckets other,
      )
  | inr (old, found) ↦
      let c = refill l old now in
      let rest = remove j l.buckets in
      ground (
        arith,
        found,
        spend_other l j c (rest ++ (j, c) ∷ []) i other,
        get-append_other j i c rest other,
        get-remove_other j i l.buckets other,
      )
]

check-rate :
    (l : Limiter) (j : String) (now : ℕ)
    → ((check l j now).0.requests_per_minute ≡ l.requests_per_minute)
      × ((check l j now).0.capacity ≡ l.capacity)
unfolding check spend
check-rate l j now = ground arith

-- Requests in order: who asks, and when.
abbrev pub Requests : Type 0
Requests = List (String × ℕ)

-- The clock never goes back.
abbrev pub Ordered : ℕ → Requests → Type 0
Ordered t [] = Unit {0}
Ordered t ((j, now) ∷ rs) = (t ≤ now) × Ordered now rs

abbrev pub end_time : ℕ → Requests → ℕ
end_time t [] = t
end_time t ((j, now) ∷ rs) = end_time now rs

-- The bucket of `i` is not evicted while the requests are served.
abbrev pub Kept : String → Limiter → Requests → Type 0
Kept i l [] = Unit {0}
Kept i l ((j, now) ∷ rs) =
    (is_some (get i (check l j now).0.buckets) ≡ true) × Kept i (check l j now).0 rs

-- How many requests of `i` are granted.
unfoldable pub granted : String → Limiter → Requests → ℕ
granted i l [] = 0
granted i l ((j, now) ∷ rs) =
    let rest = granted i (check l j now).0 rs in
    if str_eq i j then (if (check l j now).1 then rest + 1 else rest) else rest

split_time : (a b c r : ℕ) → a ≤ b → b ≤ c → (c - a) * r ≡ (b - a) * r + (c - b) * r
split_time a b c r h k = let e : c - a ≡ (b - a) + (c - b) = omega arith in rw e (omega arith)

end_time-le : (t : ℕ) (rs : Requests) → Ordered t rs → t ≤ end_time t rs
end_time-le t [] o = omega arith
end_time-le t ((j, now) ∷ rs) o = omega (arith, end_time-le now rs o.1)

granted_bound :
    (i : String) (l : Limiter) (rs : Requests) (t : ℕ) (b : Bucket)
    → IsValid l
    → get i l.buckets ≡ some b
    → b.last_refill ≤ t
    → Ordered t rs
    → Kept i l rs
    → unit * granted i l rs ≤ b.tokens + (end_time t rs - b.last_refill) * l.requests_per_minute
unfolding granted
granted_bound i l [] t b v found h o k = omega arith
granted_bound i l ((j, now) ∷ rs) t b v found h o k =
    let l' = (check l j now).0 in
    let rate = (check-rate l j now).0 in
    let later = end_time-le now rs o.1 in
    let v' = check-IsValid l j now v in
    elim (Bool-cases (str_eq i j)) [
      | inl mine ↦
          let e : i ≡ j = (eq_iff i j).0 mine in
          let (b', here, when, paid) =
            check_self l j now b v (subst (λ s. get s l.buckets ≡ some b) e found) (omega arith) in
          let rest =
            granted_bound i l' rs now b' v' (subst (λ s. get s l'.buckets ≡ some b') (sym e) here)
              (omega (arith, when)) o.1 k.1 in
          let rest' : unit * granted i l' rs
              ≤ b'.tokens + (end_time now rs - now) * l.requests_per_minute =
            subst₂ (λ x r. unit * granted i l' rs ≤ b'.tokens + (end_time now rs - x) * r) when rate
              rest in
          let split =
            split_time b.last_refill now (end_time now rs) l.requests_per_minute (omega arith)
              later in
          elim (Bool-cases (check l j now).1) [
            | inl ok ↦ rw (mine, ok) (omega (arith, rest', split, rw ok at paid))
            | inr no_token ↦ rw (mine, no_token) (omega (arith, rest', split, rw no_token at paid))
          ]
      | inr other ↦
          let same : get i l'.buckets ≡ some b = elim (check_other l i j now v other) [
            | inl gone ↦ absurd (ground (arith, gone, k.0))
            | inr kept ↦ kept ∙ found
          ] in
          let rest = granted_bound i l' rs now b v' same (omega arith) o.1 k.1 in
          let rest' : unit * granted i l' rs
              ≤ b.tokens + (end_time now rs - b.last_refill) * l.requests_per_minute =
            subst (λ r. unit * granted i l' rs ≤ b.tokens + (end_time now rs - b.last_refill) * r)
              rate rest in
          rw other rest'
    ]

-- The burst bound: over any stretch of requests that starts with its bucket refilled, and while the
-- bucket is not evicted, an identity is granted at most the capacity and what the time is worth.
pub granted-le-capacity :
    (i : String) (l : Limiter) (rs : Requests) (start : ℕ) (b : Bucket)
    → IsValid l
    → get i l.buckets ≡ some b
    → b.last_refill ≡ start
    → Ordered start rs
    → Kept i l rs
    → unit * granted i l rs ≤ l.capacity + (end_time start rs - start) * l.requests_per_minute
granted-le-capacity i l rs start b v found when o k =
    let bound = granted_bound i l rs start b v found (omega (arith, when)) o k in
    let bound' : unit * granted i l rs
        ≤ b.tokens + (end_time start rs - start) * l.requests_per_minute =
      subst
        (λ s. unit * granted i l rs ≤ b.tokens + (end_time start rs - s) * l.requests_per_minute)
        when bound in
    omega (arith, bound', get-Within l.capacity i l.buckets v.within found)
