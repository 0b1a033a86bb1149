-- ===== src/Oauth/Jwt.antt =====
-- Access tokens: `issue_access_token` of afair/mcp/oauth/jwt.py. The encoding is PyJWT's.
use Prim.Native.String.{◌++◌ as ◌+++◌}
use afair.Prelude.{ℕ, ◌/◌, ◌+◌, String, str_eq, Option, none, some, List, if◌then◌else◌}
use afair.Oauth.Store.{Host, Payload, second}

-- The fields of the settings that the token endpoints read.
pub record Settings : Type 0 where
  pub jwt_secret : Option String
  pub effective_oauth_issuer : String
  pub access_token_ttl_seconds : ℕ
  pub refresh_token_ttl_seconds : ℕ
  pub allowlist : List String

pub record IssuedToken : Type 0 where
  pub token : String
  pub expires_at : ℕ
  pub issued_at : ℕ
  pub subject : String
  pub audience : String

-- `if email: payload["email"] = email`: an empty text counts as absent.
abbrev pub nonempty : Option String → Option String
nonempty none = none
nonempty (some s) = if str_eq s "" then none else some s

-- `audience or f"{iss}/mcp"`.
abbrev audience_or : Option String → String → String
audience_or none iss = iss +++ "/mcp"
audience_or (some a) iss = if str_eq a "" then iss +++ "/mcp" else a

module _ (h : Host) (settings : Settings) where
  -- `none` is the JWTError of a server with no secret. The random `jti` is an argument.
  unfoldable pub issue_access_token :
      (subject : String) (email audience client_name : Option String) (jti : String) (time : ℕ)
      → Option IssuedToken
  issue_access_token subject email audience client_name jti time = elim settings.jwt_secret [
    | none ↦ none
    | some jwt_secret ↦
        let now = time / second in
        let exp = now + settings.access_token_ttl_seconds in
        let iss = settings.effective_oauth_issuer in
        let aud = audience_or audience iss in
        let payload : Payload = record {
          iss = iss;
          aud = aud;
          sub = subject;
          iat = now;
          exp = exp;
          jti = jti;
          email = nonempty email;
          client_name = nonempty client_name;
        } in
        some (record {
          token = h.encode payload jwt_secret;
          expires_at = exp;
          issued_at = now;
          subject = subject;
          audience = aud;
        })
  ]
