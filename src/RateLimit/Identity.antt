-- ===== src/RateLimit/Identity.antt =====
-- Who is asking: `_scope_identity` and `client_ip_from_scope`.
use text.Mathlib.Text.{starts_with}
use afair.Prelude.{String, str_eq, Bool, not, Option, none, some, List, find?, if◌then◌else◌}

-- Text operations of Python that the code calls: `lower`, `strip`, the part of a text before its
-- first comma, a text without its first seven characters, and 32 hex digits of its SHA-256.
-- Header values decode as Latin-1, which never fails.
pub record Texts : Type 0 where
  pub lower : String → String
  pub strip : String → String
  pub before_comma : String → String
  pub after_bearer : String → String
  pub digest : String → String

-- What the middlewares read of an ASGI scope.
pub record Scope : Type 0 where
  pub kind : String
  pub path : String
  pub identity : Option String
  pub headers : List (String × String)
  pub client : Option String

abbrev nonempty : String → Bool
nonempty s = not (str_eq s "")

module _ (t : Texts) where
  abbrev pub is_named : String → String × String → Bool
  is_named name header = str_eq (t.lower header.0) name

  abbrev pub value : Option (String × String) → Option String
  value none = none
  value (some (k, v)) = some v

  abbrev header_value : String → List (String × String) → Option String
  header_value name headers = value (find? (is_named name) headers)

  abbrev text_or_empty : Option String → String
  text_or_empty none = ""
  text_or_empty (some s) = s

  -- The fallback of `_scope_identity`: a digest of the bearer token.
  unfoldable pub bearer_identity : String → Option String
  bearer_identity auth =
      let token = t.strip (t.after_bearer auth) in
      if not (starts_with (t.lower auth) "bearer ")
      then none
      else if nonempty token
      then some (t.digest token)
      else none

  unfoldable pub scope_identity : Scope → Option String
  unfolding bearer_identity
  scope_identity scope =
      let fallback = bearer_identity (text_or_empty (header_value "authorization" scope.headers)) in
      elim scope.identity [
        | none ↦ fallback
        | some state_identity ↦ if nonempty state_identity then some state_identity else fallback
      ]

  -- The socket address, the last resort of `client_ip_from_scope`.
  abbrev socket : Option String → String
  socket none = "unknown"
  socket (some host) = if nonempty host then host else "unknown"

  abbrev pub stripped : String → List (String × String) → String
  stripped name headers = elim (header_value name headers) [ none ↦ "" | some v ↦ t.strip v ]

  unfoldable pub client_ip_from_scope : Scope → (environment : String) → String
  client_ip_from_scope scope environment =
      let fly = stripped "fly-client-ip" scope.headers in
      let xff = stripped "x-forwarded-for" scope.headers in
      let first = t.strip (t.before_comma xff) in
      if nonempty fly
      then fly
      else if str_eq environment "fly"
      then "unknown"
      else if nonempty xff
      then (if nonempty first then first else socket scope.client)
      else socket scope.client
