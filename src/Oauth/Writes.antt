-- ===== src/Oauth/Writes.antt =====
-- Every request to the OAuth server as a sequence of statements on its tables, so that what the
-- statements keep is kept by any history of requests.
use afair.Prelude.{
  ℕ, ◌≡◌, refl, inl, inr, String, Bool, Option, none, some, List, Option-cases, arith,
}
use afair.Oauth.Store.{Host, Vault, Client, register_client, get_client}
use afair.Oauth.Codes.{
  AuthorizationCode, LoginState, save_authorization_code, consume_authorization_code,
  save_login_state, consume_login_state, gc_oauth_codes,
}
use afair.Oauth.Refresh.{
  RefreshTokenRecord, issue_refresh_token, lookup_refresh_token, revoke_refresh_token,
  find_revoked_refresh_token, revoke_refresh_tokens_for_user_client,
}
use afair.Oauth.Jwt.{Settings, issue_access_token}
use afair.Oauth.Grants.{
  Form, FormValue, form_str, consumed, Draws, issue_for_code, exchange, grant_authorization_code,
  detect_reuse, rotate, renew, grant_refresh_token, oauth_token, oauth_revoke,
}

-- One committed statement.
pub data Write (h : Host) (v w : Vault) : Type 0 where
  issues :
      (drawn client_id user_sub : String) (scope : Option String) (ttl now : ℕ) (token : String)
      → issue_refresh_token h v drawn client_id user_sub scope ttl now ≡ some (w, token)
      → Write h v w
  revokes : (token : String) (now : ℕ) → w ≡ (revoke_refresh_token h v token now).0 → Write h v w
  revokes_family :
      (client_id user_sub : String) (now : ℕ)
      → w ≡ (revoke_refresh_tokens_for_user_client v client_id user_sub now).0
      → Write h v w
  consumes_code :
      (code : String) (now : ℕ) → w ≡ (consume_authorization_code h v code now).0 → Write h v w
  saves_code :
      (drawn : String) (request ac : AuthorizationCode) (ttl now : ℕ)
      → save_authorization_code h v drawn request ttl now ≡ some (w, ac)
      → Write h v w
  consumes_login :
      (state : String) (now : ℕ) → w ≡ (consume_login_state h v state now).0 → Write h v w
  saves_login :
      (state : String) (request login : LoginState) (ttl now : ℕ)
      → save_login_state h v state request ttl now ≡ some (w, login)
      → Write h v w
  registers :
      (drawn_id drawn_secret : String) (uris : List String) (name : Option String)
      (confidential : Bool) (now : ℕ) (client : Client) (secret : Option String)
      → register_client h v drawn_id drawn_secret uris name confidential now
        ≡ some (w, client, secret)
      → Write h v w
  sweeps : (now : ℕ) → w ≡ (gc_oauth_codes v now).0 → Write h v w

pub data Writes (h : Host) (v : Vault) : Vault → Type 0 where
  here : Writes h v v
  next : {u w : Vault} → Writes h v u → Write h u w → Writes h v w

module _ (h : Host) (settings : Settings) (P : Vault → Type 0)
    (keep : (v w : Vault) → P v → Write h v w → P w) where
  revoked : (v : Vault) (token : String) (now : ℕ) → P v → P (revoke_refresh_token h v token now).0
  revoked v token now p = keep v _ p (revokes token now refl)

  issue_for_code-keeps :
      (v : Vault) (d : Draws) (client : Client) (client_id : String) (ac : AuthorizationCode)
      → P v
      → P (issue_for_code h settings v d client client_id ac).0
  unfolding issue_for_code
  issue_for_code-keeps v d client client_id ac p =
      elim (Option-cases (
        issue_access_token h settings ac.user_sub ac.user_email none client.client_name d.jti
          d.at_access)) [
            | inl e ↦ rw (e, issue_for_code) p
            | inr (issued, e) ↦
                elim (Option-cases (
                  issue_refresh_token h v d.refresh client_id ac.user_sub ac.scope
                    settings.refresh_token_ttl_seconds d.at_refresh)) [
                      | inl f ↦ rw (e, f, issue_for_code) p
                      | inr ((w, t), f) ↦
                          rw (e, f, issue_for_code) (keep v w p (issues _ _ _ _ _ _ t f))
                    ]
          ]

  exchange-keeps :
      (v : Vault) (d : Draws) (client : Client) (client_id redirect_uri code_verifier : String)
      (ac : AuthorizationCode)
      → P v
      → P (exchange h settings v d client client_id redirect_uri code_verifier ac).0
  unfolding exchange
  exchange-keeps v d client client_id redirect_uri code_verifier ac p =
      ground (arith, issue_for_code-keeps v d client client_id ac p)

  consumed-keeps :
      (d : Draws) (client : Client) (client_id redirect_uri code_verifier : String) (v : Vault)
      (found : Option AuthorizationCode)
      → P v
      → P (consumed h settings d client client_id redirect_uri code_verifier (v, found)).0
  consumed-keeps d client client_id redirect_uri code_verifier v none p = p
  consumed-keeps d client client_id redirect_uri code_verifier v (some ac) p =
      exchange-keeps v d client client_id redirect_uri code_verifier ac p

  grant_authorization_code-keeps :
      (v : Vault) (d : Draws) (form : Form)
      → P v
      → P (grant_authorization_code h settings v d form).0
  unfolding grant_authorization_code
  grant_authorization_code-keeps v d form p =
      elim (Option-cases (get_client h v (form_str form "client_id"))) [
        | inl e ↦ ground (arith, e)
        | inr (client, e) ↦ ground (
          arith,
          e,
          consumed-keeps d client (form_str form "client_id") (form_str form "redirect_uri")
              (form_str form "code_verifier")
              (consume_authorization_code h v (form_str form "code") d.at_lookup).0
              (consume_authorization_code h v (form_str form "code") d.at_lookup).1
              (keep v _ p (consumes_code (form_str form "code") d.at_lookup refl)),
        )
      ]

  detect_reuse-keeps :
      (v : Vault) (d : Draws) (token client_id : String)
      → P v
      → P (detect_reuse h settings v d token client_id)
  unfolding detect_reuse
  detect_reuse-keeps v d token client_id p =
      elim (Option-cases (find_revoked_refresh_token h v token)) [
        | inl e ↦ rw (e, detect_reuse) p
        | inr (reused, e) ↦
            ground
              (arith, e, keep v _ p (revokes_family client_id reused.user_sub d.at_revoke refl))
      ]

  rotate-keeps :
      (v : Vault) (d : Draws) (client : Client) (token client_id : String)
      (rec : RefreshTokenRecord)
      → P v
      → P (rotate h settings v d client token client_id rec).0
  unfolding rotate
  rotate-keeps v d client token client_id rec p =
      elim (Option-cases (
        issue_access_token h settings rec.user_sub none none client.client_name d.jti
          d.at_access)) [
            | inl e ↦ rw (e, rotate) p
            | inr (issued, e) ↦
                elim (Option-cases (
                  issue_refresh_token h v d.refresh client_id rec.user_sub rec.scope
                    settings.refresh_token_ttl_seconds d.at_refresh)) [
                      | inl f ↦ rw (e, f, rotate) p
                      | inr ((w, t), f) ↦
                          rw (e, f, rotate)
                            (revoked w token d.at_revoke (keep v w p (issues _ _ _ _ _ _ t f)))
                    ]
          ]

  renew-keeps :
      (v : Vault) (d : Draws) (client : Client) (token client_id : String)
      (rec : RefreshTokenRecord)
      → P v
      → P (renew h settings v d client token client_id rec).0
  unfolding renew
  renew-keeps v d client token client_id rec p =
      ground (arith, rotate-keeps v d client token client_id rec p, revoked v token d.at_revoke p)

  grant_refresh_token-keeps :
      (v : Vault) (d : Draws) (form : Form) → P v → P (grant_refresh_token h settings v d form).0
  unfolding grant_refresh_token
  grant_refresh_token-keeps v d form p =
      let token = form_str form "refresh_token" in
      let client_id = form_str form "client_id" in
      elim (Option-cases (get_client h v client_id)) [
        | inl e ↦ ground (arith, e)
        | inr (client, e) ↦ elim (Option-cases (lookup_refresh_token h v token d.at_lookup)) [
          | inl f ↦ ground (arith, e, f, detect_reuse-keeps v d token client_id p)
          | inr (rec, f) ↦ ground (arith, e, f, renew-keeps v d client token client_id rec p)
        ]
      ]

  -- What every committed statement keeps, a request to the token endpoint keeps.
  pub oauth_token-keeps :
      (repr : Option FormValue → String) (v : Vault) (d : Draws) (form : Form)
      → P v
      → P (oauth_token h settings repr v d form).0
  unfolding oauth_token
  oauth_token-keeps repr v d form p =
      ground
        (arith, grant_authorization_code-keeps v d form p, grant_refresh_token-keeps v d form p)

  pub oauth_revoke-keeps :
      (v : Vault) (d : Draws) (form : Form) (allowed : Bool)
      → P v
      → P (oauth_revoke h settings v d form allowed).0
  unfolding oauth_revoke
  oauth_revoke-keeps v d form allowed p =
      ground (arith, revoked v (form_str form "token") d.at_revoke p)

  pub Writes-keeps : (v w : Vault) → P v → Writes h v w → P w
  Writes-keeps v w p here = p
  Writes-keeps v w p (next {u = u} s t) = keep u w (Writes-keeps v u p s) t

module _ (h : Host) (settings : Settings) where
  -- A request to the token endpoint, whatever its answer, changes the tables by a sequence of the
  -- statements above and by nothing else.
  oauth_token-Writes :
      (repr : Option FormValue → String) (v : Vault) (d : Draws) (form : Form)
      → Writes h v (oauth_token h settings repr v d form).0
  oauth_token-Writes repr v d form =
      oauth_token-keeps h settings (Writes h v) (λ u w s t. next s t) repr v d form here

  pub oauth_revoke-Writes :
      (v : Vault) (d : Draws) (form : Form) (allowed : Bool)
      → Writes h v (oauth_revoke h settings v d form allowed).0
  oauth_revoke-Writes v d form allowed =
      oauth_revoke-keeps h settings (Writes h v) (λ u w s t. next s t) v d form allowed here
