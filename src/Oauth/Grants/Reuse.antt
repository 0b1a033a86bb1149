-- ===== src/Oauth/Grants/Reuse.antt =====
-- Reuse detection: presenting a rotated-out refresh token brings down the family of its client and
-- user, and nothing else.
use afair.Prelude.{
  ℕ, ◌≡◌, String, eq_iff, true, false, not, ◌&&◌, none, some, List, find?, select, arith,
  find?-update_hit, select-update_disjoint,
}
use afair.Oauth.Store.{Host, Vault, Client, RefreshRow, get_client}
use afair.Oauth.Refresh.{
  RefreshTokenRecord, is_live, is_of, revoke, lookup_refresh_token, find_revoked_refresh_token,
  revoke_refresh_tokens_for_user_client,
}
use afair.Oauth.Jwt.{Settings}
use afair.Oauth.Grants.{
  Form, Draws, error, invalid_grant, form_str, secret_ok, is_empty, detect_reuse,
  grant_refresh_token,
}

-- No refresh token of the pair is live, and every row of another client or user is as before.
pub record IsFamilyRevoked (client_id user_sub : String) (before after : List RefreshRow)
    : Type 0 where
  pub down : find? (λ r. is_of client_id user_sub r && is_live r) after ≡ none
  pub others :
      select (λ r. not (is_of client_id user_sub r)) after
      ≡ select (λ r. not (is_of client_id user_sub r)) before

-- Family invalidation does exactly that.
pub revoke_family-IsFamilyRevoked :
    (v : Vault) (client_id user_sub : String) (now : ℕ)
    → IsFamilyRevoked client_id user_sub v.oauth_refresh_tokens
        (revoke_refresh_tokens_for_user_client v client_id user_sub now).0.oauth_refresh_tokens
unfolding revoke_refresh_tokens_for_user_client
revoke_family-IsFamilyRevoked v client_id user_sub now =
    let family = λ (r : RefreshRow). is_of client_id user_sub r && is_live r in
    record {
      down =
          find?-update_hit family family (revoke now) v.oauth_refresh_tokens (λ r e. e)
            (λ r. ground arith);
      others =
          select-update_disjoint family (λ r. not (is_of client_id user_sub r)) (revoke now)
            v.oauth_refresh_tokens (λ r e. ground arith);
    }

module _ (h : Host) (settings : Settings) where
  -- An authenticated client that presents a revoked refresh token of its own gets nothing, and
  -- every live token of that client and the token's user is revoked with it.
  pub grant_refresh_token_reuse :
      (v : Vault) (d : Draws) (form : Form) (client : Client) (reused : RefreshTokenRecord)
      → is_empty (form_str form "refresh_token") ≡ false
      → is_empty (form_str form "client_id") ≡ false
      → get_client h v (form_str form "client_id") ≡ some client
      → secret_ok h settings v client (form_str form "client_id") (form_str form "client_secret")
        ≡ true
      → lookup_refresh_token h v (form_str form "refresh_token") d.at_lookup ≡ none
      → find_revoked_refresh_token h v (form_str form "refresh_token") ≡ some reused
      → reused.client_id ≡ form_str form "client_id"
      → ((grant_refresh_token h settings v d form).1
          ≡ error invalid_grant "invalid or expired refresh_token")
        × IsFamilyRevoked
            (form_str form "client_id")
            reused.user_sub
            v.oauth_refresh_tokens
            (grant_refresh_token h settings v d form).0.oauth_refresh_tokens
  unfolding grant_refresh_token detect_reuse
  grant_refresh_token_reuse v d form client reused t c registered secret missing revoked own =
      ground (
        arith,
        eq_iff reused.client_id (form_str form "client_id"),
        revoke_family-IsFamilyRevoked v (form_str form "client_id") reused.user_sub d.at_revoke,
      )
