-- ===== src/Oauth/Codes.antt =====
-- Authorization codes and login states of afair/mcp/oauth/storage.py: one INSERT to save, one
-- DELETE … RETURNING to consume. `none` of a save is the IntegrityError of a key that is taken.
pub mod SingleUse
use Prim.Native.String.{◌++◌ as ◌+++◌}
use afair.Prelude.{
  ℕ, ◌+◌, String, str_eq, Option, none, some, [], ◌∷◌, ◌++◌, is_some, find?, delete, count,
  if◌then◌else◌,
}
use afair.Oauth.Store.{Host, Vault, CodeRow, LoginRow, hash_token, expiry, is_expired}

pub record AuthorizationCode : Type 0 where
  pub code : String
  pub client_id : String
  pub redirect_uri : String
  pub scope : Option String
  pub code_challenge : String
  pub code_challenge_method : String
  pub user_sub : String
  pub user_email : Option String
  pub expires_at : ℕ

pub record LoginState : Type 0 where
  pub state : String
  pub client_id : String
  pub redirect_uri : String
  pub scope : Option String
  pub code_challenge : String
  pub code_challenge_method : String
  pub client_state : Option String
  pub expires_at : ℕ

module _ (h : Host) where
  -- The row of an issued code: its hash in place of the code.
  abbrev pub code_row : AuthorizationCode → ℕ → CodeRow
  code_row ac now = record {
    code = hash_token h ac.code;
    client_id = ac.client_id;
    redirect_uri = ac.redirect_uri;
    scope = ac.scope;
    code_challenge = ac.code_challenge;
    code_challenge_method = ac.code_challenge_method;
    user_sub = ac.user_sub;
    user_email = ac.user_email;
    expires_at = ac.expires_at;
    created_at = now;
  }

  -- The keyword arguments are the fields of `request`, whose `code` and `expires_at` are replaced.
  unfoldable pub save_authorization_code :
      (v : Vault) (drawn : String) (request : AuthorizationCode) (ttl_seconds now : ℕ)
      → Option (Vault × AuthorizationCode)
  unfolding expiry
  save_authorization_code v drawn request ttl_seconds now =
      let code = "nfac_" +++ drawn in
      let code_hash = hash_token h code in
      let expires_at = expiry now ttl_seconds in
      let ac : AuthorizationCode = record request { code = code; expires_at = expires_at } in
      if is_some (find? (λ r. str_eq r.code code_hash) v.oauth_codes)
      then none
      else some (record v { oauth_codes = v.oauth_codes ++ code_row ac now ∷ [] }, ac)

  abbrev live_code : String → ℕ → CodeRow → Option AuthorizationCode
  live_code code now row =
      if is_expired row.expires_at now
      then none
      else some (record {
        code = code;
        client_id = row.client_id;
        redirect_uri = row.redirect_uri;
        scope = row.scope;
        code_challenge = row.code_challenge;
        code_challenge_method = row.code_challenge_method;
        user_sub = row.user_sub;
        user_email = row.user_email;
        expires_at = row.expires_at;
      })

  unfoldable pub consume_authorization_code : Vault → String → ℕ → Vault × Option AuthorizationCode
  consume_authorization_code v code now =
      let code_hash = hash_token h code in
      let rest = record v { oauth_codes = delete (λ r. str_eq r.code code_hash) v.oauth_codes } in
      let row = find? (λ r. str_eq r.code code_hash) v.oauth_codes in
      (rest, elim row [ none ↦ none | some row ↦ live_code code now row ])

  unfoldable pub save_login_state :
      (v : Vault) (state : String) (request : LoginState) (ttl_seconds now : ℕ)
      → Option (Vault × LoginState)
  unfolding expiry
  save_login_state v state request ttl_seconds now =
      let state_hash = hash_token h state in
      let expires_at = expiry now ttl_seconds in
      let row : LoginRow = record {
        state = state_hash;
        client_id = request.client_id;
        redirect_uri = request.redirect_uri;
        scope = request.scope;
        code_challenge = request.code_challenge;
        code_challenge_method = request.code_challenge_method;
        client_state = request.client_state;
        expires_at = expires_at;
        created_at = now;
      } in
      if is_some (find? (λ r. str_eq r.state state_hash) v.oauth_login_state)
      then none
      else some (
        record v { oauth_login_state = v.oauth_login_state ++ row ∷ [] },
        record request { state = state; expires_at = expires_at },
      )

  abbrev live_login : String → ℕ → LoginRow → Option LoginState
  live_login state now row =
      if is_expired row.expires_at now
      then none
      else some (record {
        state = state;
        client_id = row.client_id;
        redirect_uri = row.redirect_uri;
        scope = row.scope;
        code_challenge = row.code_challenge;
        code_challenge_method = row.code_challenge_method;
        client_state = row.client_state;
        expires_at = row.expires_at;
      })

  unfoldable pub consume_login_state : Vault → String → ℕ → Vault × Option LoginState
  consume_login_state v state now =
      let state_hash = hash_token h state in
      let rest = record v {
        oauth_login_state = delete (λ r. str_eq r.state state_hash) v.oauth_login_state;
      } in
      let row = find? (λ r. str_eq r.state state_hash) v.oauth_login_state in
      (rest, elim row [ none ↦ none | some row ↦ live_login state now row ])

-- The sweep of abandoned codes and login states (afair/substrate/checkpoint.py, and the same two
-- statements in afair/agents/pruner.py): the vault after it, and the rows deleted.
unfoldable pub gc_oauth_codes : Vault → ℕ → Vault × ℕ
gc_oauth_codes v now =
    let old_code = λ (r : CodeRow). is_expired r.expires_at now in
    let old_login = λ (r : LoginRow). is_expired r.expires_at now in
    (
      record v {
        oauth_codes = delete old_code v.oauth_codes;
        oauth_login_state = delete old_login v.oauth_login_state;
      },
      count old_code v.oauth_codes + count old_login v.oauth_login_state,
    )
