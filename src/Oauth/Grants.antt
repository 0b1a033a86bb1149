-- ===== src/Oauth/Grants.antt =====
-- The token endpoints of afair/mcp/oauth/routes.py: `oauth_token` with its two grants, and
-- `oauth_revoke` behind its rate limit, whose verdict is an argument here.
pub mod CodeGrant
pub mod Rotation
pub mod Reuse
use Prim.Native.String.{◌++◌ as ◌+++◌}
use afair.Prelude.{
  ℕ, String, str_eq, Bool, true, false, not, ◌&&◌, ◌||◌, Option, none, some, List, [], ◌∷◌,
  if◌then◌else◌,
}
use afair.Oauth.Store.{Host, Vault, Client, get_client, verify_client_secret}
use afair.Oauth.Codes.{AuthorizationCode, consume_authorization_code}
use afair.Oauth.Refresh.{
  RefreshTokenRecord, issue_refresh_token, lookup_refresh_token, revoke_refresh_token,
  find_revoked_refresh_token, revoke_refresh_tokens_for_user_client,
}
use afair.Oauth.Jwt.{Settings, IssuedToken, issue_access_token}

-- A form field is a text or an uploaded file.
pub data FormValue : Type 0 where
  text : String → FormValue
  upload_file : FormValue

abbrev pub Form : Type 0
Form = String → Option FormValue

abbrev text_or_empty : Option FormValue → String
text_or_empty (some (text s)) = s
text_or_empty _ = ""

unfoldable pub form_str : Form → String → String
form_str form key = text_or_empty (form key)

pub data ErrorCode : Type 0 where
  invalid_request invalid_client invalid_grant unsupported_grant_type : ErrorCode

pub record TokenBody : Type 0 where
  pub access_token : String
  pub expires_in : ℕ
  pub refresh_token : String
  pub scope : String

-- `crashed` is an exception that leaves the handler: what was committed before it stays.
pub data Reply : Type 0 where
  granted : TokenBody → Reply
  refused : ErrorCode → Option String → ℕ → Reply
  crashed : Reply

-- `_error`, whose status is 400 unless given.
abbrev pub error : ErrorCode → String → Reply
error code description = refused code (some description) 400

-- What a request draws: random texts, and its readings of the clock in their order.
pub record Draws : Type 0 where
  pub jti : String
  pub refresh : String
  pub at_lookup : ℕ
  pub at_access : ℕ
  pub at_refresh : ℕ
  pub at_revoke : ℕ

abbrev pub or_empty : Option String → String
or_empty none = ""
or_empty (some s) = s

abbrev pub is_empty : String → Bool
is_empty s = str_eq s ""

unfoldable pub contains : List String → String → Bool
contains [] s = false
contains (x ∷ xs) s = str_eq x s || contains xs s

module _ (h : Host) (settings : Settings) where
  -- `_verify_pkce`.
  unfoldable pub verify_pkce : (code_verifier code_challenge method : String) → Bool
  verify_pkce code_verifier code_challenge method =
      if not (str_eq method "S256") then false else str_eq (h.s256 code_verifier) code_challenge

  -- A confidential client must show its secret. The guard of both grants.
  unfoldable pub secret_ok : Vault → Client → String → String → Bool
  secret_ok v client client_id secret =
      not client.has_secret || not (is_empty secret) && verify_client_secret h v client_id secret

  abbrev pub body : IssuedToken → String → Option String → Reply
  body issued refresh scope = granted (record {
    access_token = issued.token;
    expires_in = settings.access_token_ttl_seconds;
    refresh_token = refresh;
    scope = or_empty scope;
  })

  -- From the consumed code on: the tokens are made.
  unfoldable pub issue_for_code :
      Vault → Draws → Client → String → AuthorizationCode → Vault × Reply
  issue_for_code v d client client_id ac =
      elim (issue_access_token h settings ac.user_sub ac.user_email none client.client_name d.jti
        d.at_access) [
          | none ↦ (v, crashed)
          | some issued ↦
              elim (issue_refresh_token h v d.refresh client_id ac.user_sub ac.scope
                settings.refresh_token_ttl_seconds d.at_refresh) [
                  | none ↦ (v, crashed)
                  | some (v', refresh) ↦ (v', body issued refresh ac.scope)
                ]
        ]

  -- The checks on a consumed code.
  unfoldable pub exchange :
      Vault
      → Draws
      → Client
      → (client_id redirect_uri code_verifier : String) → AuthorizationCode
      → Vault × Reply
  exchange v d client client_id redirect_uri code_verifier ac =
      if not (str_eq ac.client_id client_id)
      then (v, error invalid_grant "code does not match client")
      else if not (str_eq ac.redirect_uri redirect_uri)
      then (v, error invalid_grant "redirect_uri mismatch")
      else if not (verify_pkce code_verifier ac.code_challenge ac.code_challenge_method)
      then (v, error invalid_grant "PKCE verification failed")
      else issue_for_code v d client client_id ac

  abbrev pub consumed :
      Draws
      → Client
      → (client_id redirect_uri code_verifier : String) → Vault × Option AuthorizationCode
      → Vault × Reply
  consumed d client client_id redirect_uri code_verifier (v, none) =
      (v, error invalid_grant "unknown or expired code")
  consumed d client client_id redirect_uri code_verifier (v, some ac) =
      exchange v d client client_id redirect_uri code_verifier ac

  -- `_grant_authorization_code`.
  unfoldable pub grant_authorization_code : Vault → Draws → Form → Vault × Reply
  unfolding secret_ok
  grant_authorization_code v d form =
      let code = form_str form "code" in
      let redirect_uri = form_str form "redirect_uri" in
      let code_verifier = form_str form "code_verifier" in
      let client_id = form_str form "client_id" in
      if is_empty code || is_empty redirect_uri || is_empty code_verifier || is_empty client_id
      then (v, error invalid_request "code, redirect_uri, code_verifier, client_id are required")
      else elim (get_client h v client_id) [
        | none ↦ (v, refused invalid_client none 401)
        | some client ↦
            if not (secret_ok v client client_id (form_str form "client_secret"))
            then (v, refused invalid_client (some "client_secret missing or wrong") 401)
            else consumed d client client_id redirect_uri code_verifier
                (consume_authorization_code h v code d.at_lookup)
      ]

  -- The presented token is unknown, expired or revoked; a revoked one brings its family down.
  unfoldable pub detect_reuse : Vault → Draws → (token client_id : String) → Vault
  detect_reuse v d token client_id = elim (find_revoked_refresh_token h v token) [
    | none ↦ v
    | some reused ↦
        if str_eq reused.client_id client_id
        then (revoke_refresh_tokens_for_user_client v client_id reused.user_sub d.at_revoke).0
        else v
  ]

  unfoldable pub rotate :
      Vault → Draws → Client → (token client_id : String) → RefreshTokenRecord → Vault × Reply
  rotate v d client token client_id rec =
      elim (issue_access_token h settings rec.user_sub none none client.client_name d.jti
        d.at_access) [
          | none ↦ (v, crashed)
          | some issued ↦
              elim (issue_refresh_token h v d.refresh client_id rec.user_sub rec.scope
                settings.refresh_token_ttl_seconds d.at_refresh) [
                  | none ↦ (v, crashed)
                  | some (v', new_refresh) ↦ (
                    (revoke_refresh_token h v' token d.at_revoke).0,
                    body issued new_refresh rec.scope,
                  )
                ]
        ]

  unfoldable pub renew :
      Vault → Draws → Client → (token client_id : String) → RefreshTokenRecord → Vault × Reply
  renew v d client token client_id rec =
      if not (str_eq rec.client_id client_id)
      then (v, error invalid_grant "refresh_token does not match client")
      else if not (contains settings.allowlist (h.lower rec.user_sub))
      then (
        (revoke_refresh_token h v token d.at_revoke).0,
        error invalid_grant "user no longer permitted",
      )
      else rotate v d client token client_id rec

  -- `_grant_refresh_token`.
  unfoldable pub grant_refresh_token : Vault → Draws → Form → Vault × Reply
  unfolding secret_ok
  grant_refresh_token v d form =
      let token = form_str form "refresh_token" in
      let client_id = form_str form "client_id" in
      if is_empty token
      then (v, error invalid_request "refresh_token is required")
      else if is_empty client_id
      then (v, error invalid_request "client_id is required")
      else elim (get_client h v client_id) [
        | none ↦ (v, refused invalid_client none 401)
        | some client ↦
            if not (secret_ok v client client_id (form_str form "client_secret"))
            then (v, refused invalid_client (some "client_secret missing or wrong") 401)
            else elim (lookup_refresh_token h v token d.at_lookup) [
              | none ↦ (
                detect_reuse v d token client_id,
                error invalid_grant "invalid or expired refresh_token",
              )
              | some rec ↦ renew v d client token client_id rec
            ]
      ]

  -- `oauth_token`. A field that is no text is no grant type either. `repr` is Python's, of the
  -- value that the form holds.
  unfoldable pub oauth_token :
      (repr : Option FormValue → String) → Vault → Draws → Form → Vault × Reply
  oauth_token repr v d form =
      let grant_type = form_str form "grant_type" in
      if str_eq grant_type "authorization_code"
      then grant_authorization_code v d form
      else if str_eq grant_type "refresh_token"
      then grant_refresh_token v d form
      else (v, error unsupported_grant_type ("grant_type=" +++ repr (form "grant_type")))

  -- `oauth_revoke`: the vault after it, and the status.
  unfoldable pub oauth_revoke : Vault → Draws → Form → Bool → Vault × ℕ
  oauth_revoke v d form allowed =
      let token = form_str form "token" in
      if not allowed
      then (v, 429)
      else if is_empty token
      then (v, 200)
      else ((revoke_refresh_token h v token d.at_revoke).0, 200)
