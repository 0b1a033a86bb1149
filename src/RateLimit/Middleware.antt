-- ===== src/RateLimit/Middleware.antt =====
-- `RateLimitMiddleware` and `InternalPathRateLimitMiddleware`: whether a request goes on to the
-- application, or is answered by 429 with the seconds to wait.
use Prim.Native.String.{◌++◌ as ◌+++◌}
use text.Mathlib.Text.{starts_with}
use afair.Prelude.{
  ℕ, ◌+◌, ◌/◌, String, str_eq, Bool, true, false, not, ◌||◌, none, some, List, [], ◌∷◌, max,
  if◌then◌else◌,
}
use afair.RateLimit.Buckets.{Limiter, Seconds, check}
use afair.RateLimit.Identity.{Texts, Scope, scope_identity, client_ip_from_scope}

pub data Outcome : Type 0 where
  pass : Outcome
  too_many_requests : (retry_after_seconds : ℕ) → Outcome

unfoldable pub contains : List String → String → Bool
contains [] path = false
contains (p ∷ ps) path = str_eq p path || contains ps path

unfoldable pub any_prefix : List String → String → Bool
any_prefix [] path = false
any_prefix (p ∷ ps) path = starts_with path p || any_prefix ps path

-- `max(1, int(retry_after) + 1)`, of an exact quotient: the source's float may be rounded to one just
-- below a whole number of seconds, and then states a second less.
unfoldable pub retry_after_seconds : Seconds → ℕ
retry_after_seconds s = max 1 (s.numerator / s.denominator + 1)

abbrev pub answer : Limiter × Bool × Seconds → Limiter × Outcome
answer (l, true, s) = (l, pass)
answer (l, false, s) = (l, too_many_requests (retry_after_seconds s))

module _ (t : Texts) where
  unfoldable pub rate_limit_middleware :
      (exempt exempt_prefixes : List String) → Limiter → Scope → ℕ → Limiter × Outcome
  rate_limit_middleware exempt exempt_prefixes l scope now =
      if not (str_eq scope.kind "http")
      then (l, pass)
      else if contains exempt scope.path || any_prefix exempt_prefixes scope.path
      then (l, pass)
      else elim (scope_identity t scope) [
        | none ↦ (l, pass)
        | some identity ↦ answer (check l identity now)
      ]

  unfoldable pub internal_path_middleware :
      (environment : String) (prefixes : List String) → Limiter → Scope → ℕ → Limiter × Outcome
  internal_path_middleware environment prefixes l scope now =
      if not (str_eq scope.kind "http")
      then (l, pass)
      else if not (any_prefix prefixes scope.path)
      then (l, pass)
      else answer (check l ("internal:" +++ client_ip_from_scope t scope environment) now)
