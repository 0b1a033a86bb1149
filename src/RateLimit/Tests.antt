-- ===== src/RateLimit/Tests.antt =====
-- Runs of the rate limiter, and its theorems at inputs that meet their hypotheses.
use afair.Prelude.{◌+◌, ◌-◌, ◌*◌, ◌≤◌, ◌≡◌, refl, true, none, some, [], ◌∷◌, arith, find?, delete}
use afair.RateLimit.Buckets.{
  unit, Limiter, init, get, remove, assign, evict, refill, spend, check, size,
}
use afair.RateLimit.Identity.{Texts, Scope, scope_identity, bearer_identity, client_ip_from_scope}
use afair.RateLimit.Middleware.{
  too_many_requests, retry_after_seconds, contains, any_prefix, rate_limit_middleware,
  internal_path_middleware,
}
use afair.RateLimit.Bounds.{IsValid, check-IsValid}
use afair.RateLimit.Burst.{Requests, granted, end_time, granted-le-capacity}
use afair.RateLimit.Retry.{check_after_wait}
use afair.RateLimit.Spoofing.{without_xff, client_ip_from_scope-without_xff}

program : Unit {0}
unfolding init get remove assign evict refill spend check size find? delete scope_identity
    bearer_identity client_ip_from_scope retry_after_seconds contains any_prefix
    rate_limit_middleware internal_path_middleware
program = tt

-- One request a minute, and a bucket of one token.
abbrev slow : Limiter
slow = record { requests_per_minute = 1; capacity = unit; max_identities = 2; buckets = [] }

abbrev spent : Limiter
spent = record slow { buckets = ("a", record { tokens = 0; last_refill = 5 }) ∷ [] }

made : init 1 100 2 ≡ some slow
unfolding program
made = refl

first_is_granted : check slow "a" 5 ≡ (spent, true, record { numerator = 0; denominator = 1 })
unfolding program
first_is_granted = refl

-- The least recently used identity goes.
third_evicts_first :
    (check (check spent "b" 6).0 "c" 7).0.buckets
    ≡ ("b", record { tokens = 0; last_refill = 6 })
      ∷ ("c", record { tokens = 0; last_refill = 7 })
      ∷ []
unfolding program
third_evicts_first = refl

spent-IsValid : IsValid spent
unfolding get
spent-IsValid = record { bounded = omega arith; distinct = (refl, tt); within = (omega arith, tt) }

check-IsValid_example : IsValid (check spent "b" 9).0
check-IsValid_example = check-IsValid spent "b" 9 spent-IsValid

abbrev requests : Requests
requests = ("a", 10) ∷ ("b", 20) ∷ ("a", 60000005) ∷ []

granted-le-capacity_example :
    unit * granted "a" spent requests ≤ unit + (end_time 5 requests - 5) * 1
unfolding program
granted-le-capacity_example =
    granted-le-capacity "a" spent requests 5 (record { tokens = 0; last_refill = 5 }) spent-IsValid
      refl refl (omega arith) (refl, (refl, (refl, tt)))

one_is_granted : granted "a" spent requests ≡ 1
unfolding program granted
one_is_granted = refl

check_after_wait_example : (check (check spent "a" 10).0 "a" 62000010).1 ≡ true
unfolding program
check_after_wait_example =
    check_after_wait spent "a" 10 62000010 spent-IsValid (omega arith) (omega arith) refl
      (omega arith)

abbrev texts : Texts
texts = record {
  lower = λ s. s;
  strip = λ s. s;
  before_comma = λ s. s;
  after_bearer = λ s. s;
  digest = λ s. s;
}

abbrev scope : Scope
scope = record {
  kind = "http";
  path = "/mcp";
  identity = some "a";
  headers = ("x-forwarded-for", "6.6.6.6") ∷ ("fly-client-ip", "1.2.3.4") ∷ [];
  client = none;
}

client_ip_from_scope-without_xff_example :
    client_ip_from_scope texts (without_xff texts scope (some "9.9.9.9")) "fly"
    ≡ client_ip_from_scope texts scope "fly"
client_ip_from_scope-without_xff_example =
    client_ip_from_scope-without_xff texts scope (some "9.9.9.9")

refused : (rate_limit_middleware texts [] [] spent scope 10).1 ≡ too_many_requests 60
unfolding program
refused = refl
