-- ===== src/RateLimit/Spoofing.antt =====
-- What a caller can and cannot do to its rate-limit bucket by choosing headers, and what the
-- middlewares do to the limiter.
use Prim.Native.String.{◌++◌ as ◌+++◌}
use afair.Prelude.{
  ℕ, ◌≡◌, refl, String, eq_iff, Bool, true, false, Option, some, List, arith, delete,
  find?-delete_disjoint, Option-cases, inl, inr,
}
use afair.RateLimit.Buckets.{Limiter, Seconds, check}
use afair.RateLimit.Bounds.{IsValid, check-IsValid}
use afair.RateLimit.Identity.{Texts, Scope, is_named, scope_identity, client_ip_from_scope}
use afair.RateLimit.Middleware.{
  too_many_requests, retry_after_seconds, answer, any_prefix, contains, rate_limit_middleware,
  internal_path_middleware,
}

module _ (t : Texts) where
  -- The scope without its X-Forwarded-For headers, and with another socket address.
  abbrev pub without_xff : Scope → Option String → Scope
  without_xff scope client = record scope {
    headers = delete (is_named t "x-forwarded-for") scope.headers;
    client = client;
  }

  -- Behind Fly's proxy neither X-Forwarded-For nor the socket address moves a caller to another
  -- bucket: every scope with the same other headers has the same client IP.
  pub client_ip_from_scope-without_xff :
      (scope : Scope) (client : Option String)
      → client_ip_from_scope t (without_xff scope client) "fly" ≡ client_ip_from_scope t scope "fly"
  unfolding client_ip_from_scope
  client_ip_from_scope-without_xff scope client = ground (
    arith,
    find?-delete_disjoint (is_named t "x-forwarded-for") (is_named t "fly-client-ip") scope.headers
        (λ r e. ground (
          arith,
          eq_iff (t.lower r.0) "x-forwarded-for",
          eq_iff (t.lower r.0) "fly-client-ip",
          eq_iff "x-forwarded-for" "fly-client-ip",
        )),
  )

  answer-limiter : (r : Limiter × Bool × Seconds) → (answer r).0 ≡ r.0
  answer-limiter (l, true, s) = refl
  answer-limiter (l, false, s) = refl

  answer-IsValid :
      (l : Limiter) (identity : String) (now : ℕ)
      → IsValid l
      → IsValid (answer (check l identity now)).0
  answer-IsValid l identity now v =
      rw (answer-limiter (check l identity now)) (check-IsValid l identity now v)

  -- Both middlewares keep the limiter valid, whatever the request.
  pub middleware-IsValid :
      (exempt prefixes : List String) (environment : String) (l : Limiter) (scope : Scope) (now : ℕ)
      → IsValid l
      → IsValid (rate_limit_middleware t exempt prefixes l scope now).0
        × IsValid (internal_path_middleware t environment prefixes l scope now).0
  unfolding rate_limit_middleware internal_path_middleware
  middleware-IsValid exempt prefixes environment l scope now v = (
    elim (Option-cases (scope_identity t scope)) [
      | inl absent ↦ ground (arith, absent)
      | inr (identity, asks) ↦ ground (arith, asks, answer-IsValid l identity now v)
    ],
    ground
        (arith, answer-IsValid l ("internal:" +++ client_ip_from_scope t scope environment) now v),
  )

  -- A request that is answered by 429 is one that the limiter refused, so a request to an exempt
  -- path, without an identity, or while its bucket has a token, reaches the application.
  pub rate_limit_middleware-too_many_requests :
      (exempt prefixes : List String) (l : Limiter) (scope : Scope) (now wait : ℕ)
      → (rate_limit_middleware t exempt prefixes l scope now).1 ≡ too_many_requests wait
      → (identity : String) × (scope_identity t scope ≡ some identity)
        × (contains exempt scope.path ≡ false)
        × (any_prefix prefixes scope.path ≡ false)
        × ((check l identity now).1 ≡ false)
        × (wait ≡ retry_after_seconds (check l identity now).2)
  unfolding rate_limit_middleware
  rate_limit_middleware-too_many_requests exempt prefixes l scope now wait e =
      elim (Option-cases (scope_identity t scope)) [
        | inl absent ↦ absurd (ground (arith, absent))
        | inr (identity, asks) ↦ (
          identity,
          asks,
          ground (arith, asks),
          ground (arith, asks),
          ground (arith, asks),
          ground (arith, asks),
        )
      ]
