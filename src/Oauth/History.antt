-- ===== src/Oauth/History.antt =====
-- Histories of the OAuth server: whatever is requested, and in whatever order, a revoked refresh
-- token stays revoked and is never exchanged again.
use afair.Prelude.{ℕ, ◌≡◌, ◌≢◌, sym, subst, ◌&&◌, String, none, List, arith}
use afair.Oauth.Store.{Host, Vault, RefreshRow, hash_token, register_client}
use afair.Oauth.Codes.{
  save_authorization_code, consume_authorization_code, save_login_state, consume_login_state,
  gc_oauth_codes,
}
use afair.Oauth.Refresh.{
  lookup_refresh_token, revoke_refresh_token, has_hash, is_live, is_of,
  revoke_refresh_tokens_for_user_client,
}
use afair.Oauth.Refresh.Revocation.{IsDead, update-IsDead, issue-IsDead, lookup-IsDead}
use afair.Oauth.Jwt.{Settings}
use afair.Oauth.Grants.{Form, Draws, form_str, granted, TokenBody, grant_refresh_token}
use afair.Oauth.Grants.Rotation.{grant_refresh_token-IsRotation}
use afair.Oauth.Writes.{
  Write, issues, revokes, revokes_family, consumes_code, saves_code, consumes_login, saves_login,
  registers, sweeps, Writes, Writes-keeps,
}

module _ (h : Host) where
  Write-keeps_rows :
      (v w : Vault) (P : List RefreshRow → Type 0)
      → P v.oauth_refresh_tokens
      → w.oauth_refresh_tokens ≡ v.oauth_refresh_tokens
      → P w.oauth_refresh_tokens
  Write-keeps_rows v w P p e = rw e p

  Write-IsDead :
      (digest : String) (v w : Vault)
      → IsDead digest v.oauth_refresh_tokens
      → Write h v w
      → IsDead digest w.oauth_refresh_tokens
  unfolding revoke_refresh_token revoke_refresh_tokens_for_user_client consume_authorization_code
      consume_login_state gc_oauth_codes save_authorization_code save_login_state register_client
  Write-IsDead digest v w d (issues drawn c u s ttl now token e) =
      issue-IsDead h v w drawn c u s ttl now token digest e d
  Write-IsDead digest v w d (revokes token now e) =
      subst (λ (x : Vault). IsDead digest x.oauth_refresh_tokens) (sym e)
        (update-IsDead digest (λ r. has_hash (hash_token h token) r && is_live r) now _ d)
  Write-IsDead digest v w d (revokes_family c u now e) =
      subst (λ (x : Vault). IsDead digest x.oauth_refresh_tokens) (sym e)
        (update-IsDead digest (λ r. is_of c u r && is_live r) now _ d)
  Write-IsDead digest v w d (consumes_code code now e) =
      Write-keeps_rows v w (IsDead digest) d (ground arith)
  Write-IsDead digest v w d (saves_code drawn request ac ttl now e) =
      Write-keeps_rows v w (IsDead digest) d (ground arith)
  Write-IsDead digest v w d (consumes_login state now e) =
      Write-keeps_rows v w (IsDead digest) d (ground arith)
  Write-IsDead digest v w d (saves_login state request login ttl now e) =
      Write-keeps_rows v w (IsDead digest) d (ground arith)
  Write-IsDead digest v w d (registers i s uris name c now client secret e) =
      Write-keeps_rows v w (IsDead digest) d (ground arith)
  Write-IsDead digest v w d (sweeps now e) = Write-keeps_rows v w (IsDead digest) d (ground arith)

  module _ (settings : Settings) where
    -- After any history that follows its revocation, a refresh token looks up as nothing.
    pub lookup-Writes_revoked :
        (v w : Vault) (token : String) (now : ℕ)
        → IsDead (hash_token h token) v.oauth_refresh_tokens
        → Writes h v w
        → lookup_refresh_token h w token now ≡ none
    lookup-Writes_revoked v w token now d s = lookup-IsDead h w token now (
        Writes-keeps h settings (λ x. IsDead (hash_token h token) x.oauth_refresh_tokens)
          (Write-IsDead (hash_token h token)) v w d s)

    -- A refresh token that was exchanged is never exchanged again: not by another client, not
    -- later, and not after any other requests.
    pub grant_refresh_token_replay :
        (v w x : Vault) (d d' : Draws) (form form' : Form) (body body' : TokenBody)
        → grant_refresh_token h settings v d form ≡ (w, granted body)
        → Writes h w x
        → form_str form' "refresh_token" ≡ form_str form "refresh_token"
        → (grant_refresh_token h settings x d' form').1 ≢ granted body'
    grant_refresh_token_replay v w x d d' form form' body body' e s same again =
        let first = grant_refresh_token-IsRotation h settings v w d form body e in
        let second =
          grant_refresh_token-IsRotation h settings x (grant_refresh_token h settings x d' form').0
            d' form' body' (λ i. ((grant_refresh_token h settings x d' form').0, again i)) in
        let gone =
          lookup-Writes_revoked w x (form_str form "refresh_token") d'.at_lookup first.spent s in
        cc (gone, second.presented, same)
