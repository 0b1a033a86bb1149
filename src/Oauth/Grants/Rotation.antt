-- ===== src/Oauth/Grants/Rotation.antt =====
-- `_grant_refresh_token`: what a granted refresh was checked against, and what it leaves behind.
use Prim.Native.String.{◌++◌ as ◌+++◌}
use afair.Prelude.{
  ℕ, ◌≡◌, refl, ◌∙◌, subst, String, str_eq, eq_iff, eq_refl, true, false, ◌&&◌, Option, none, some,
  List, [], ◌∷◌, ◌++◌, is_some, find?, update, arith, find?-append_some, find?-append_one,
  find?-update_disjoint, find?-none_sub, Option-cases, Bool-cases, inl, inr, if◌then◌else◌,
}
use afair.Oauth.Store.{Host, Vault, Client, RefreshRow, hash_token, get_client, expiry, is_expired}
use afair.Oauth.Refresh.{
  RefreshTokenRecord, has_hash, is_live, revoke, to_record, refresh_row, issue_refresh_token,
  lookup_refresh_token, revoke_refresh_token,
}
use afair.Oauth.Refresh.Revocation.{IsDead, update_hit-IsDead}
use afair.Oauth.Jwt.{Settings, issue_access_token}
use afair.Oauth.Grants.{
  Form, Draws, TokenBody, granted, form_str, contains, secret_ok, rotate, renew,
  grant_refresh_token,
}

module _ (h : Host) where
  -- A token that looks up has a row with its hash.
  lookup_known :
      (v : Vault) (token : String) (now : ℕ) (rec : RefreshTokenRecord)
      → lookup_refresh_token h v token now ≡ some rec
      → is_some (find? (has_hash (hash_token h token)) v.oauth_refresh_tokens) ≡ true
  unfolding lookup_refresh_token
  lookup_known v token now rec e =
      let rows = v.oauth_refresh_tokens in
      elim (Option-cases (find? (has_hash (hash_token h token)) rows)) [
        | inl absent ↦
            let miss =
              find?-none_sub (λ r. has_hash (hash_token h token) r && is_live r)
                (has_hash (hash_token h token)) rows (λ r t. ground arith) absent in
            absurd (ground (arith, miss))
        | inr (r, present) ↦ rw present
      ]

  -- What a successful issue did.
  issue_refresh_token_inv :
      (v w : Vault) (drawn client_id user_sub : String) (scope : Option String) (ttl now : ℕ)
      (token : String)
      → issue_refresh_token h v drawn client_id user_sub scope ttl now ≡ some (w, token)
      → (find? (has_hash (hash_token h token)) v.oauth_refresh_tokens ≡ none)
        × (w.oauth_refresh_tokens
            ≡ v.oauth_refresh_tokens ++ refresh_row h token client_id user_sub scope ttl now ∷ [])
  unfolding issue_refresh_token
  issue_refresh_token_inv v w drawn client_id user_sub scope ttl now token e =
      elim (Option-cases
        (find? (has_hash (hash_token h ("nfrt_" +++ drawn))) v.oauth_refresh_tokens)) [
          | inl free ↦ ground (arith, free)
          | inr (r, taken) ↦ absurd (ground (arith, taken))
        ]

  -- The token that a refresh hands out, in the rows that it leaves.
  abbrev pub renewed :
      Settings → Draws → (client_id : String) → RefreshTokenRecord → TokenBody → RefreshTokenRecord
  renewed settings d client_id rec body = record {
    token_hash = hash_token h body.refresh_token;
    client_id = client_id;
    user_sub = rec.user_sub;
    scope = rec.scope;
    expires_at = expiry d.at_refresh settings.refresh_token_ttl_seconds;
  }

  -- Rows after a rotation: the presented token is dead and the new one alone is live under its hash.
  rotated_rows :
      (rows : List RefreshRow) (token : String) (row : RefreshRow) (now : ℕ)
      → is_some (find? (has_hash (hash_token h token)) rows) ≡ true
      → find? (has_hash row.token_hash) rows ≡ none
      → row.revoked_at ≡ none
      → let after =
          update
            (λ r. has_hash (hash_token h token) r && is_live r)
            (revoke now)
            (rows ++ row ∷ []) in
        IsDead (hash_token h token) after
        × (find? (λ r. has_hash row.token_hash r && is_live r) after ≡ some row)
  rotated_rows rows token row now known free fresh =
      let digest = hash_token h token in
      let differ : str_eq row.token_hash digest ≡ false =
        elim (Bool-cases (str_eq row.token_hash digest)) [
          | inl same ↦
              let e : row.token_hash ≡ digest = (eq_iff row.token_hash digest).0 same in
              let clash : find? (has_hash digest) rows ≡ none =
                subst (λ s. find? (has_hash s) rows ≡ none) e free in
              absurd (ground (arith, known, clash))
          | inr differ ↦ differ
        ] in
      let live = λ (r : RefreshRow). has_hash row.token_hash r && is_live r in
      (
        update_hit-IsDead digest now (rows ++ row ∷ [])
            (elim (Option-cases (find? (has_hash digest) rows)) [
              | inl absent ↦ absurd (ground (arith, absent))
              | inr (r, present) ↦ rw (find?-append_some (has_hash digest) rows (row ∷ []) present)
            ]),
        find?-update_disjoint (λ r. has_hash digest r && is_live r) live (revoke now)
              (rows ++ row ∷ [])
              (λ r t. ground (
                arith,
                eq_iff r.token_hash digest,
                eq_iff r.token_hash row.token_hash,
                eq_iff row.token_hash digest,
              ))
            ∙ find?-append_one live rows row
                (find?-none_sub live (has_hash row.token_hash) rows (λ r t. ground arith) free)
                (ground (arith, eq_refl row.token_hash)),
      )

-- What a granted refresh is: the presented token was live, unexpired and the presenting client's,
-- its user is still permitted, it is dead afterwards, and the token handed out is live until it
-- expires, for the same client, user and scope.
pub record IsRotation (h : Host) (settings : Settings) (v : Vault) (d : Draws) (form : Form)
    (w : Vault) (body : TokenBody) : Type 0 where
  pub client : Client
  pub rec : RefreshTokenRecord
  pub registered : get_client h v (form_str form "client_id") ≡ some client
  pub authenticated :
      secret_ok h settings v client (form_str form "client_id") (form_str form "client_secret")
      ≡ true
  pub presented : lookup_refresh_token h v (form_str form "refresh_token") d.at_lookup ≡ some rec
  pub bound : rec.client_id ≡ form_str form "client_id"
  pub permitted : contains settings.allowlist (h.lower rec.user_sub) ≡ true
  pub spent : IsDead (hash_token h (form_str form "refresh_token")) w.oauth_refresh_tokens
  pub live :
      (later : ℕ)
      → lookup_refresh_token h w body.refresh_token later ≡ (
          if is_expired (expiry d.at_refresh settings.refresh_token_ttl_seconds) later
          then none
          else some (renewed h settings d (form_str form "client_id") rec body))

module _ (h : Host) (settings : Settings) where
  -- The tables after a rotation that was granted.
  rotate_rows :
      (v w : Vault) (d : Draws) (client : Client) (token client_id : String)
      (rec : RefreshTokenRecord) (body : TokenBody)
      → is_some (find? (has_hash (hash_token h token)) v.oauth_refresh_tokens) ≡ true
      → rotate h settings v d client token client_id rec ≡ (w, granted body)
      → IsDead (hash_token h token) w.oauth_refresh_tokens
        × (find?
              (λ r. has_hash (hash_token h body.refresh_token) r && is_live r)
              w.oauth_refresh_tokens
            ≡ some (
                refresh_row h body.refresh_token client_id rec.user_sub rec.scope
                  settings.refresh_token_ttl_seconds d.at_refresh))
  unfolding rotate revoke_refresh_token
  rotate_rows v w d client token client_id rec body known e =
      elim (Option-cases (
        issue_access_token h settings rec.user_sub none none client.client_name d.jti
          d.at_access)) [
            | inl f ↦ absurd (ground (arith, f))
            | inr (issued, f) ↦
                elim (Option-cases (
                  issue_refresh_token h v d.refresh client_id rec.user_sub rec.scope
                    settings.refresh_token_ttl_seconds d.at_refresh)) [
                      | inl g ↦ absurd (ground (arith, f, g))
                      | inr ((u, t), g) ↦
                          let (free, put) =
                            issue_refresh_token_inv h v u d.refresh client_id rec.user_sub rec.scope
                              settings.refresh_token_ttl_seconds d.at_refresh t g in
                          let row =
                            refresh_row h t client_id rec.user_sub rec.scope
                              settings.refresh_token_ttl_seconds d.at_refresh in
                          let rows =
                            rotated_rows h v.oauth_refresh_tokens token row d.at_revoke known free
                              refl in
                          let same : body.refresh_token ≡ t = ground (arith, f, g) in
                          let after : w.oauth_refresh_tokens
                              ≡ update (λ r. has_hash (hash_token h token) r && is_live r)
                                  (revoke d.at_revoke) (v.oauth_refresh_tokens ++ row ∷ []) =
                            ground (arith, f, g, put) in
                          simp (same, after) rows
                    ]
          ]

  lookup_of_live :
      (w : Vault) (token : String) (later : ℕ) (row : RefreshRow)
      → find? (λ r. has_hash (hash_token h token) r && is_live r) w.oauth_refresh_tokens ≡ some row
      → lookup_refresh_token h w token later
        ≡ (if is_expired row.expires_at later then none else some (to_record row))
  unfolding lookup_refresh_token
  lookup_of_live w token later row e = rw (e, lookup_refresh_token)

  rotate-IsRotation :
      (v w : Vault) (d : Draws) (form : Form) (body : TokenBody) (client : Client)
      (rec : RefreshTokenRecord)
      → get_client h v (form_str form "client_id") ≡ some client
      → secret_ok h settings v client (form_str form "client_id") (form_str form "client_secret")
        ≡ true
      → lookup_refresh_token h v (form_str form "refresh_token") d.at_lookup ≡ some rec
      → renew h settings v d client (form_str form "refresh_token") (form_str form "client_id") rec
        ≡ (w, granted body)
      → IsRotation h settings v d form w body
  unfolding renew
  rotate-IsRotation v w d form body client rec registered authenticated presented e =
      let token = form_str form "refresh_token" in
      let client_id = form_str form "client_id" in
      let bound : str_eq rec.client_id client_id ≡ true = ground arith in
      let permitted : contains settings.allowlist (h.lower rec.user_sub) ≡ true = ground arith in
      let (spent, live) =
        rotate_rows v w d client token client_id rec body
          (lookup_known h v token d.at_lookup rec presented) (ground arith) in
      record {
        client = client;
        rec = rec;
        registered = registered;
        authenticated = authenticated;
        presented = presented;
        bound = (eq_iff _ _).0 bound;
        permitted = permitted;
        spent = spent;
        live = λ later. lookup_of_live w body.refresh_token later _ live;
      }

  -- A refresh grant that hands out tokens is a rotation.
  pub grant_refresh_token-IsRotation :
      (v w : Vault) (d : Draws) (form : Form) (body : TokenBody)
      → grant_refresh_token h settings v d form ≡ (w, granted body)
      → IsRotation h settings v d form w body
  unfolding grant_refresh_token
  grant_refresh_token-IsRotation v w d form body e =
      let token = form_str form "refresh_token" in
      let client_id = form_str form "client_id" in
      elim (Option-cases (get_client h v client_id)) [
        | inl f ↦ absurd (ground (arith, f))
        | inr (client, f) ↦ elim (Option-cases (lookup_refresh_token h v token d.at_lookup)) [
          | inl g ↦ absurd (ground (arith, f, g))
          | inr (rec, g) ↦
              rotate-IsRotation v w d form body client rec f (ground (arith, f, g)) g
                (ground (arith, f, g))
        ]
      ]
