-- ===== src/Oauth/Refresh/Revocation.antt =====
-- Revocation is final: a stamped row is never live again, whatever is requested afterwards.
use afair.Prelude.{
  ℕ, ◌≡◌, refl, ◌∙◌, String, str_eq, eq_iff, Bool, true, false, ◌&&◌, Option, none, some, List, [],
  ◌∷◌, ◌++◌, is_some, find?, update, arith, find?-append_other, find?-update-none, find?-update_hit,
  is_some-find?-update, Option-cases, inl, inr, Bool-cases, subst,
}
use Prim.Native.String.{◌++◌ as ◌+++◌}
use afair.Oauth.Store.{Host, Vault, RefreshRow, hash_token}
use afair.Oauth.Refresh.{
  refresh_row, has_hash, is_live, revoke, issue_refresh_token, lookup_refresh_token,
}

-- The table knows the token's hash, and no row with it is live.
pub record IsDead (digest : String) (rows : List RefreshRow) : Type 0 where
  pub known : is_some (find? (has_hash digest) rows) ≡ true
  pub revoked : find? (λ r. has_hash digest r && is_live r) rows ≡ none

module _ (digest : String) (p : RefreshRow → Bool) (now : ℕ) (rows : List RefreshRow) where
  pub update-IsDead : IsDead digest rows → IsDead digest (update p (revoke now) rows)
  update-IsDead d = record {
    known = is_some-find?-update p (has_hash digest) (revoke now) rows (λ r. refl) ∙ d.known;
    revoked =
        find?-update-none p (λ r. has_hash digest r && is_live r) (revoke now) rows
          (λ r e. ground arith) d.revoked;
  }

-- An UPDATE that stamps every live row with the hash leaves a dead token, if the table knew it.
pub update_hit-IsDead :
    (digest : String) (now : ℕ) (rows : List RefreshRow)
    → is_some (find? (has_hash digest) rows) ≡ true
    → IsDead digest (update (λ r. has_hash digest r && is_live r) (revoke now) rows)
update_hit-IsDead digest now rows known = record {
  known =
      is_some-find?-update (λ r. has_hash digest r && is_live r) (has_hash digest) (revoke now) rows
        (λ r. refl)
      ∙ known;
  revoked =
      find?-update_hit (λ r. has_hash digest r && is_live r) (λ r. has_hash digest r && is_live r)
        (revoke now) rows (λ r e. e) (λ r. ground arith);
}

append-IsDead :
    (digest : String) (rows : List RefreshRow) (row : RefreshRow)
    → find? (has_hash row.token_hash) rows ≡ none
    → IsDead digest rows
    → IsDead digest (rows ++ row ∷ [])
append-IsDead digest rows row free d =
    let other : str_eq row.token_hash digest ≡ false =
      elim (Bool-cases (str_eq row.token_hash digest)) [
        | inl same ↦
            let e : row.token_hash ≡ digest = (eq_iff row.token_hash digest).0 same in
            let clash : find? (has_hash digest) rows ≡ none =
              subst (λ s. find? (has_hash s) rows ≡ none) e free in
            absurd (ground (arith, d.known, clash))
        | inr differ ↦ differ
      ] in
    record {
      known = rw (find?-append_other (has_hash digest) rows row other) d.known;
      revoked =
          rw (find?-append_other (λ r. has_hash digest r && is_live r) rows row (ground arith))
            d.revoked;
    }

module _ (h : Host) where
  pub issue-IsDead :
      (v w : Vault) (drawn client_id user_sub : String) (scope : Option String) (ttl now : ℕ)
      (token digest : String)
      → issue_refresh_token h v drawn client_id user_sub scope ttl now ≡ some (w, token)
      → IsDead digest v.oauth_refresh_tokens
      → IsDead digest w.oauth_refresh_tokens
  unfolding issue_refresh_token
  issue-IsDead v w drawn client_id user_sub scope ttl now token digest e d =
      let hash = hash_token h ("nfrt_" +++ drawn) in
      elim (Option-cases (find? (has_hash hash) v.oauth_refresh_tokens)) [
        | inl free ↦ ground (
          arith,
          free,
          append-IsDead digest v.oauth_refresh_tokens
              (refresh_row h ("nfrt_" +++ drawn) client_id user_sub scope ttl now) free d,
        )
        | inr (r, taken) ↦ absurd (ground (arith, taken))
      ]

  -- A dead token looks up as nothing, at any time.
  pub lookup-IsDead :
      (v : Vault) (token : String) (now : ℕ)
      → IsDead (hash_token h token) v.oauth_refresh_tokens
      → lookup_refresh_token h v token now ≡ none
  unfolding lookup_refresh_token
  lookup-IsDead v token now d = ground (arith, d.revoked)
