-- ===== src/RateLimit/Retry.antt =====
-- The Retry-After of a refusal, and what comes after it.
use native.Mathlib.Nat.{div-add-mod', mod-lt, mul-le-mul_right}
use afair.Prelude.{
  ℕ, ◌+◌, ◌-◌, ◌*◌, ◌/◌, ◌≤◌, ◌<◌, ◌≡◌, inl, inr, String, true, false, some, arith, max,
  Option-cases,
}
use afair.RateLimit.Buckets.{unit, Bucket, Limiter, get, remove, refill, spend, check}
use afair.RateLimit.Dictionary.{get-remove_self, get-append_one}
use afair.RateLimit.Bounds.{IsValid}
use afair.RateLimit.Middleware.{retry_after_seconds}

-- Rounding a fraction up, and by one more at most, covers it.
round_up : (n d : ℕ) → 0 < d → n < (n / d + 1) * d
round_up n d h = omega (arith, div-add-mod' n d, mod-lt n h)

wait_is_enough :
    (tokens r : ℕ)
    → 0 < r
    → tokens < unit
    → unit ≤ tokens + (max 1 ((unit - tokens) / (r * 1000000) + 1) * 1000000) * r
wait_is_enough tokens r h k =
    let q = (unit - tokens) / (r * 1000000) in
    let one : max 1 (q + 1) ≡ q + 1 = omega arith in
    let enough = round_up (unit - tokens) (r * 1000000) (omega arith) in
    rw one (omega (arith, enough))

later_is_enough :
    (tokens wait waited r : ℕ)
    → unit ≤ tokens + wait * r
    → wait ≤ waited
    → unit ≤ tokens + waited * r
later_is_enough tokens wait waited r h k = omega (arith, h, mul-le-mul_right r k)

module _ (l : Limiter) (i : String) (now : ℕ) where
  refused :
      (b : Bucket)
      → get i l.buckets ≡ some b
      → (check l i now).1 ≡ false
      → (refill l b now).tokens < unit
  unfolding check spend
  refused b found e = ground (arith, found)

  -- Whoever is refused by a valid limiter, with a capacity of at least one token and a positive rate,
  -- and does not come back before a second more than Retry-After states has passed, is granted. The
  -- second is the margin for what the source's floats round off.
  pub check_after_wait :
      (later : ℕ)
      → IsValid l
      → unit ≤ l.capacity
      → 0 < l.requests_per_minute
      → (check l i now).1 ≡ false
      → now + (retry_after_seconds (check l i now).2 + 1) * 1000000 ≤ later
      → (check (check l i now).0 i later).1 ≡ true
  unfolding check spend refill retry_after_seconds
  check_after_wait later v full rate denied late = elim (Option-cases (get i l.buckets)) [
    | inl absent ↦ absurd (ground (arith, absent))
    | inr (old, found) ↦
        let c = refill l old now in
        let rest = remove i l.buckets in
        let empty = refused old found denied in
        let wait = max 1 ((unit - c.tokens) / (l.requests_per_minute * 1000000) + 1) * 1000000 in
        let stated : now + wait ≤ later = ground (arith, found, empty, late) in
        let enough : unit ≤ c.tokens + (later - now) * l.requests_per_minute =
          later_is_enough c.tokens wait (later - now) l.requests_per_minute
            (wait_is_enough c.tokens l.requests_per_minute rate empty) (omega (arith, stated)) in
        ground
          (arith, found, get-append_one i c rest (get-remove_self i l.buckets v.distinct), enough)
  ]
