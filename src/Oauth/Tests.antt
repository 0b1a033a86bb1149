-- ===== src/Oauth/Tests.antt =====
-- Runs of the OAuth server, and its theorems at inputs that meet their hypotheses.
use afair.Prelude.{
  ◌≡◌, refl, ◌≢◌, String, str_eq, false, none, some, [], ◌∷◌, arith, eq_iff, find?, select, delete,
  update, count, if◌then◌else◌,
}
use afair.Oauth.Store.{
  Host, Vault, Client, ClientRow, CodeRow, RefreshRow, hash_token, get_client, verify_client_secret,
  expiry, is_expired,
}
use afair.Oauth.Codes.{AuthorizationCode, save_authorization_code, consume_authorization_code}
use afair.Oauth.Codes.SingleUse.{consume-save_authorization_code}
use afair.Oauth.Refresh.{
  RefreshTokenRecord, issue_refresh_token, lookup_refresh_token, revoke_refresh_token,
  find_revoked_refresh_token, revoke_refresh_tokens_for_user_client,
}
use afair.Oauth.Jwt.{Settings, issue_access_token}
use afair.Oauth.Grants.{
  Form, text, Draws, TokenBody, granted, error, invalid_grant, form_str, contains, verify_pkce,
  secret_ok, issue_for_code, exchange, grant_authorization_code, detect_reuse, rotate, renew,
  grant_refresh_token, oauth_token,
}
use afair.Oauth.Grants.CodeGrant.{
  IsExchange, grant_authorization_code-IsExchange, grant_authorization_code_spent,
}
use afair.Oauth.Grants.Rotation.{IsRotation, grant_refresh_token-IsRotation}
use afair.Oauth.Grants.Reuse.{IsFamilyRevoked, grant_refresh_token_reuse}
use afair.Oauth.Writes.{here}
use afair.Oauth.History.{grant_refresh_token_replay}

-- Everything that a request computes with.
program : Unit {0}
unfolding find? select delete update count hash_token get_client verify_client_secret expiry
    is_expired consume_authorization_code save_authorization_code issue_refresh_token
    lookup_refresh_token revoke_refresh_token find_revoked_refresh_token
    revoke_refresh_tokens_for_user_client issue_access_token form_str contains verify_pkce secret_ok
    issue_for_code exchange grant_authorization_code detect_reuse rotate renew grant_refresh_token
    oauth_token
program = tt

-- A host whose digests and tokens are the texts themselves.
abbrev plain : Host
plain = record { hexdigest = λ s. s; s256 = λ s. s; lower = λ s. s; encode = λ p s. p.sub }

abbrev settings : Settings
settings = record {
  jwt_secret = some "k";
  effective_oauth_issuer = "https://a";
  access_token_ttl_seconds = 3600;
  refresh_token_ttl_seconds = 86400;
  allowlist = "ann" ∷ [];
}

abbrev client_row : ClientRow
client_row = record {
  client_id = "nf_1";
  client_secret_hash = none;
  redirect_uris = "https://c/cb" ∷ [];
  client_name = some "cli";
  registered_at = 0;
}

abbrev client : Client
client = record {
  client_id = "nf_1";
  redirect_uris = "https://c/cb" ∷ [];
  client_name = some "cli";
  registered_at = 0;
  has_secret = false;
}

abbrev code_row : CodeRow
code_row = record {
  code = "sha256:nfac_1";
  client_id = "nf_1";
  redirect_uri = "https://c/cb";
  scope = none;
  code_challenge = "v";
  code_challenge_method = "S256";
  user_sub = "ann";
  user_email = none;
  expires_at = 600;
  created_at = 0;
}

abbrev live_row : RefreshRow
live_row = record {
  token_hash = "sha256:nfrt_1";
  client_id = "nf_1";
  user_sub = "ann";
  scope = none;
  expires_at = 1000;
  created_at = 0;
  revoked_at = none;
}

abbrev spent_row : RefreshRow
spent_row = record live_row { token_hash = "sha256:nfrt_0"; revoked_at = some 5 }

abbrev vault : Vault
vault = record {
  oauth_clients = client_row ∷ [];
  oauth_codes = code_row ∷ [];
  oauth_login_state = [];
  oauth_refresh_tokens = spent_row ∷ live_row ∷ [];
}

abbrev draws : Draws
draws = record {
  jti = "j";
  refresh = "2";
  at_lookup = 10000000;
  at_access = 10000001;
  at_refresh = 10000002;
  at_revoke = 10000003;
}

abbrev field : String → String → Form → Form
field key value rest k = if str_eq k key then some (text value) else rest k

abbrev nothing : Form
nothing k = none

abbrev code_form : Form
code_form = field "grant_type" "authorization_code" (
    field "code" "nfac_1" (
      field "redirect_uri" "https://c/cb"
        (field "code_verifier" "v" (field "client_id" "nf_1" nothing))))

abbrev refresh_form : Form
refresh_form = field "refresh_token" "nfrt_1" (field "client_id" "nf_1" nothing)

abbrev replay_form : Form
replay_form = field "refresh_token" "nfrt_0" (field "client_id" "nf_1" nothing)

abbrev body : TokenBody
body = record { access_token = "ann"; expires_in = 3600; refresh_token = "nfrt_2"; scope = "" }

abbrev request : AuthorizationCode
request = record {
  code = "";
  client_id = "nf_1";
  redirect_uri = "https://c/cb";
  scope = none;
  code_challenge = "v";
  code_challenge_method = "S256";
  user_sub = "ann";
  user_email = none;
  expires_at = 0;
}

abbrev spent_record : RefreshTokenRecord
spent_record = record {
  token_hash = "sha256:nfrt_0";
  client_id = "nf_1";
  user_sub = "ann";
  scope = none;
  expires_at = 1000;
}

refresh_granted :
    grant_refresh_token plain settings vault draws refresh_form
    ≡ ((grant_refresh_token plain settings vault draws refresh_form).0, granted body)
unfolding program
refresh_granted = refl

code_granted :
    grant_authorization_code plain settings vault draws code_form
    ≡ ((grant_authorization_code plain settings vault draws code_form).0, granted body)
unfolding program
code_granted = refl

codes_differ : hash_token plain "nfac_0" ≢ hash_token plain "nfac_1"
unfolding hash_token
codes_differ = ground (arith, eq_iff (hash_token plain "nfac_0") (hash_token plain "nfac_1"))

abbrev issued_code : AuthorizationCode
issued_code = record request { code = "nfac_2"; expires_at = 601 }

abbrev vault_with_code : Vault
vault_with_code = record vault {
  oauth_codes =
      code_row
      ∷ record code_row { code = "sha256:nfac_2"; expires_at = 601; created_at = 1000007 }
      ∷ [];
}

saved :
    save_authorization_code plain vault "2" request 600 1000007
    ≡ some (vault_with_code, issued_code)
unfolding program
saved = refl

consume-save_authorization_code_example :
    consume_authorization_code plain vault_with_code "nfac_2" 601000001
    ≡ (vault, if is_expired 601 601000001 then none else some issued_code)
consume-save_authorization_code_example =
    consume-save_authorization_code plain vault vault_with_code "2" request issued_code 600 1000007
      601000001 saved

grant_authorization_code-IsExchange_example : IsExchange plain settings vault draws code_form
grant_authorization_code-IsExchange_example =
    grant_authorization_code-IsExchange plain settings vault
      (grant_authorization_code plain settings vault draws code_form).0 draws code_form body
      code_granted

code_is_refused :
    (grant_authorization_code plain settings vault draws
      (λ k. if str_eq k "code_verifier" then some (text "w") else code_form k)).1
    ≡ error invalid_grant "PKCE verification failed"
unfolding program
code_is_refused = refl

registered : get_client plain vault (form_str refresh_form "client_id") ≡ some client
unfolding program
registered = refl

grant_authorization_code_spent_example :
    find?
      (λ r. str_eq r.code (hash_token plain (form_str code_form "code")))
      (grant_authorization_code plain settings vault draws code_form).0.oauth_codes
    ≡ none
unfolding program
grant_authorization_code_spent_example =
    grant_authorization_code_spent plain settings vault draws code_form client refl refl refl refl
      refl refl

grant_refresh_token-IsRotation_example :
    IsRotation plain settings vault draws refresh_form
      (grant_refresh_token plain settings vault draws refresh_form).0
      body
grant_refresh_token-IsRotation_example =
    grant_refresh_token-IsRotation plain settings vault
      (grant_refresh_token plain settings vault draws refresh_form).0 draws refresh_form body
      refresh_granted

grant_refresh_token_reuse_example :
    ((grant_refresh_token plain settings vault draws replay_form).1
      ≡ error invalid_grant "invalid or expired refresh_token")
    × IsFamilyRevoked
        (form_str replay_form "client_id")
        "ann"
        vault.oauth_refresh_tokens
        (grant_refresh_token plain settings vault draws replay_form).0.oauth_refresh_tokens
unfolding program
grant_refresh_token_reuse_example =
    grant_refresh_token_reuse plain settings vault draws replay_form client spent_record refl refl
      refl refl refl refl refl

grant_refresh_token_replay_example :
    (grant_refresh_token plain settings
      (grant_refresh_token plain settings vault draws refresh_form).0
      draws
      refresh_form).1
    ≢ granted body
grant_refresh_token_replay_example =
    grant_refresh_token_replay plain settings vault
      (grant_refresh_token plain settings vault draws refresh_form).0
      (grant_refresh_token plain settings vault draws refresh_form).0 draws draws refresh_form
      refresh_form body body refresh_granted here refl
