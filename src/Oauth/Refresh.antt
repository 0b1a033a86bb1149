-- ===== src/Oauth/Refresh.antt =====
-- Refresh tokens of afair/mcp/oauth/storage.py: rows are revoked by a stamp, and never removed.
pub mod Revocation
use Prim.Native.String.{◌++◌ as ◌+++◌}
use afair.Prelude.{
  ℕ, zero, suc, String, str_eq, Bool, true, false, not, ◌&&◌, Option, none, some, List, [], ◌∷◌,
  ◌++◌, is_some, find?, update, count, if◌then◌else◌,
}
use afair.Oauth.Store.{Host, Vault, RefreshRow, hash_token, expiry, is_expired}

pub record RefreshTokenRecord : Type 0 where
  pub token_hash : String
  pub client_id : String
  pub user_sub : String
  pub scope : Option String
  pub expires_at : ℕ

-- The WHERE clauses of the statements below.
abbrev pub has_hash : String → RefreshRow → Bool
has_hash digest r = str_eq r.token_hash digest

abbrev pub is_live : RefreshRow → Bool
is_live r = not (is_some r.revoked_at)

abbrev pub is_of : String → String → RefreshRow → Bool
is_of client_id user_sub r = str_eq r.client_id client_id && str_eq r.user_sub user_sub

abbrev pub revoke : ℕ → RefreshRow → RefreshRow
revoke now r = record r { revoked_at = some now }

abbrev pub to_record : RefreshRow → RefreshTokenRecord
to_record row = record {
  token_hash = row.token_hash;
  client_id = row.client_id;
  user_sub = row.user_sub;
  scope = row.scope;
  expires_at = row.expires_at;
}

module _ (h : Host) where
  -- The row of a new token: its hash in place of the token.
  abbrev pub refresh_row :
      (token client_id user_sub : String) (scope : Option String) (ttl_seconds now : ℕ) → RefreshRow
  refresh_row token client_id user_sub scope ttl_seconds now = record {
    token_hash = hash_token h token;
    client_id = client_id;
    user_sub = user_sub;
    scope = scope;
    expires_at = expiry now ttl_seconds;
    created_at = now;
    revoked_at = none;
  }

  -- `none` is the IntegrityError of a hash that is taken.
  unfoldable pub issue_refresh_token :
      (v : Vault) (drawn client_id user_sub : String) (scope : Option String) (ttl_seconds now : ℕ)
      → Option (Vault × String)
  issue_refresh_token v drawn client_id user_sub scope ttl_seconds now =
      let token = "nfrt_" +++ drawn in
      let row = refresh_row token client_id user_sub scope ttl_seconds now in
      if is_some (find? (has_hash (hash_token h token)) v.oauth_refresh_tokens)
      then none
      else some (record v { oauth_refresh_tokens = v.oauth_refresh_tokens ++ row ∷ [] }, token)

  abbrev unexpired : ℕ → RefreshRow → Option RefreshTokenRecord
  unexpired now row = if is_expired row.expires_at now then none else some (to_record row)

  unfoldable pub lookup_refresh_token : Vault → String → ℕ → Option RefreshTokenRecord
  lookup_refresh_token v token now =
      elim (find? (λ r. has_hash (hash_token h token) r && is_live r) v.oauth_refresh_tokens) [
        | none ↦ none
        | some row ↦ unexpired now row
      ]

  unfoldable pub revoke_refresh_token : Vault → String → ℕ → Vault × Bool
  revoke_refresh_token v token now =
      let where_live = λ (r : RefreshRow). has_hash (hash_token h token) r && is_live r in
      let rowcount = count where_live v.oauth_refresh_tokens in
      (
        record v { oauth_refresh_tokens = update where_live (revoke now) v.oauth_refresh_tokens },
        elim rowcount [ zero ↦ false | suc _ ↦ true ],
      )

  unfoldable pub find_revoked_refresh_token : Vault → String → Option RefreshTokenRecord
  find_revoked_refresh_token v token =
      elim (find? (λ r. has_hash (hash_token h token) r && is_some r.revoked_at)
        v.oauth_refresh_tokens) [ none ↦ none | some row ↦ some (to_record row) ]

-- Needs no hash: the family of a client and a user.
unfoldable pub revoke_refresh_tokens_for_user_client :
    (v : Vault) (client_id user_sub : String) (now : ℕ) → Vault × ℕ
revoke_refresh_tokens_for_user_client v client_id user_sub now =
    let where_live = λ (r : RefreshRow). is_of client_id user_sub r && is_live r in
    (
      record v { oauth_refresh_tokens = update where_live (revoke now) v.oauth_refresh_tokens },
      count where_live v.oauth_refresh_tokens,
    )
