-- ===== src/Oauth/Grants/CodeGrant.antt =====
-- `_grant_authorization_code`: what granted tokens were checked against, and that a presented code
-- is gone whatever the answer.
use afair.Prelude.{
  ◌≡◌, String, str_eq, eq_iff, true, false, none, some, find?, arith, find?-delete_self,
  Option-cases, inl, inr,
}
use afair.Oauth.Store.{Host, Vault, Client, CodeRow, hash_token, get_client, is_expired}
use afair.Oauth.Codes.{AuthorizationCode, consume_authorization_code}
use afair.Oauth.Refresh.{issue_refresh_token}
use afair.Oauth.Jwt.{Settings}
use afair.Oauth.Grants.{
  Form, Draws, TokenBody, granted, form_str, secret_ok, verify_pkce, is_empty, issue_for_code,
  exchange, grant_authorization_code,
}

-- The code was stored, unexpired, for the presenting client and redirect URI, and its PKCE
-- challenge under S256 is met by the verifier; the client is registered and authenticated.
pub record IsExchange (h : Host) (settings : Settings) (v : Vault) (d : Draws) (form : Form)
    : Type 0 where
  pub client : Client
  pub row : CodeRow
  pub registered : get_client h v (form_str form "client_id") ≡ some client
  pub authenticated :
      secret_ok h settings v client (form_str form "client_id") (form_str form "client_secret")
      ≡ true
  pub stored :
      find? (λ r. str_eq r.code (hash_token h (form_str form "code"))) v.oauth_codes ≡ some row
  pub unexpired : is_expired row.expires_at d.at_lookup ≡ false
  pub bound : row.client_id ≡ form_str form "client_id"
  pub redirect : row.redirect_uri ≡ form_str form "redirect_uri"
  pub method : row.code_challenge_method ≡ "S256"
  pub proof : h.s256 (form_str form "code_verifier") ≡ row.code_challenge

module _ (h : Host) (settings : Settings) where
  -- An authorization code is exchanged for tokens only if every check of the flow holds.
  pub grant_authorization_code-IsExchange :
      (v w : Vault) (d : Draws) (form : Form) (body : TokenBody)
      → grant_authorization_code h settings v d form ≡ (w, granted body)
      → IsExchange h settings v d form
  unfolding grant_authorization_code consume_authorization_code exchange verify_pkce
  grant_authorization_code-IsExchange v w d form body e =
      elim (Option-cases (get_client h v (form_str form "client_id"))) [
        | inl f ↦ absurd (ground (arith, f))
        | inr (client, f) ↦
            elim (Option-cases
              (find? (λ r. str_eq r.code (hash_token h (form_str form "code"))) v.oauth_codes)) [
                | inl g ↦ absurd (ground (arith, f, g))
                | inr (row, g) ↦ record {
                  client = client;
                  row = row;
                  registered = f;
                  authenticated = ground (arith, f, g);
                  stored = g;
                  unexpired = ground (arith, f, g);
                  bound = ground (arith, f, g, eq_iff row.client_id (form_str form "client_id"));
                  redirect =
                      ground (arith, f, g, eq_iff row.redirect_uri (form_str form "redirect_uri"));
                  method = ground (arith, f, g, eq_iff row.code_challenge_method "S256");
                  proof = ground (
                    arith,
                    f,
                    g,
                    eq_iff (h.s256 (form_str form "code_verifier")) row.code_challenge,
                  );
                }
              ]
      ]

  -- Issuing tokens touches no code.
  exchange-codes :
      (v : Vault) (d : Draws) (client : Client) (client_id redirect_uri code_verifier : String)
      (ac : AuthorizationCode)
      → (exchange h settings v d client client_id redirect_uri code_verifier ac).0.oauth_codes
        ≡ v.oauth_codes
  unfolding exchange issue_for_code issue_refresh_token
  exchange-codes v d client client_id redirect_uri code_verifier ac = ground arith

  -- A code that an authenticated client presents is gone afterwards, whether tokens were issued,
  -- the request was refused, or it crashed.
  pub grant_authorization_code_spent :
      (v : Vault) (d : Draws) (form : Form) (client : Client)
      → is_empty (form_str form "code") ≡ false
      → is_empty (form_str form "redirect_uri") ≡ false
      → is_empty (form_str form "code_verifier") ≡ false
      → is_empty (form_str form "client_id") ≡ false
      → get_client h v (form_str form "client_id") ≡ some client
      → secret_ok h settings v client (form_str form "client_id") (form_str form "client_secret")
        ≡ true
      → find?
          (λ r. str_eq r.code (hash_token h (form_str form "code")))
          (grant_authorization_code h settings v d form).0.oauth_codes
        ≡ none
  unfolding grant_authorization_code consume_authorization_code
  grant_authorization_code_spent v d form client a b c i registered secret =
      let p = λ (r : CodeRow). str_eq r.code (hash_token h (form_str form "code")) in
      let gone = find?-delete_self p v.oauth_codes in
      elim (Option-cases (consume_authorization_code h v (form_str form "code") d.at_lookup).1) [
        | inl f ↦ ground (arith, registered, gone, f)
        | inr (ac, f) ↦ ground (
          arith,
          registered,
          gone,
          f,
          exchange-codes (consume_authorization_code h v (form_str form "code") d.at_lookup).0 d
              client (form_str form "client_id") (form_str form "redirect_uri")
              (form_str form "code_verifier") ac,
        )
      ]
