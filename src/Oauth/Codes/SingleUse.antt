-- ===== src/Oauth/Codes/SingleUse.antt =====
-- Codes and login states are good for one use, however the requests that present them are ordered.
use Prim.Native.String.{◌++◌ as ◌+++◌}
use afair.Prelude.{
  ℕ, ◌≡◌, ◌≢◌, String, str_eq, eq_iff, none, some, find?, [], ◌∷◌, ◌++◌, arith, delete_absent,
  eq_refl, find?-delete_self, find?-delete_disjoint, delete-append_one, find?-append_one,
  if◌then◌else◌, inl, inr, Option-cases,
}
use afair.Oauth.Store.{Host, Vault, CodeRow, hash_token, is_expired}
use afair.Oauth.Codes.{
  AuthorizationCode, code_row, save_authorization_code, consume_authorization_code,
  consume_login_state,
}

module _ (h : Host) where
  -- After a code was presented, whatever came of it, presenting it again yields nothing and
  -- changes nothing.
  pub consume_authorization_code_twice :
      (v : Vault) (code : String) (now later : ℕ)
      → consume_authorization_code h (consume_authorization_code h v code now).0 code later
        ≡ ((consume_authorization_code h v code now).0, none)
  unfolding consume_authorization_code
  consume_authorization_code_twice v code now later =
      let gone = find?-delete_self (λ r. str_eq r.code (hash_token h code)) v.oauth_codes in
      ground (arith, gone, delete_absent _ _ gone)

  pub consume_login_state_twice :
      (v : Vault) (state : String) (now later : ℕ)
      → consume_login_state h (consume_login_state h v state now).0 state later
        ≡ ((consume_login_state h v state now).0, none)
  unfolding consume_login_state
  consume_login_state_twice v state now later =
      let gone = find?-delete_self (λ r. str_eq r.state (hash_token h state)) v.oauth_login_state in
      ground (arith, gone, delete_absent _ _ gone)

  -- Presenting one code leaves every other code as it was: as good, and as long.
  pub consume_authorization_code_other :
      (v : Vault) (code other : String) (now later : ℕ)
      → hash_token h code ≢ hash_token h other
      → (consume_authorization_code h (consume_authorization_code h v code now).0 other later).1
        ≡ (consume_authorization_code h v other later).1
  unfolding consume_authorization_code
  consume_authorization_code_other v code other now later ne = ground (
    arith,
    find?-delete_disjoint (λ r. str_eq r.code (hash_token h code))
        (λ r. str_eq r.code (hash_token h other)) v.oauth_codes
        (λ r e.
          ground (arith, eq_iff r.code (hash_token h code), eq_iff r.code (hash_token h other))),
  )

  -- What a successful save did.
  save_authorization_code_inv :
      (v v' : Vault) (drawn : String) (request ac : AuthorizationCode) (ttl now : ℕ)
      → save_authorization_code h v drawn request ttl now ≡ some (v', ac)
      → (find? (λ r. str_eq r.code (hash_token h ac.code)) v.oauth_codes ≡ none)
        × (v' ≡ record v { oauth_codes = v.oauth_codes ++ code_row h ac now ∷ [] })
  unfolding save_authorization_code
  save_authorization_code_inv v v' drawn request ac ttl now e =
      elim (Option-cases
        (find? (λ r. str_eq r.code (hash_token h ("nfac_" +++ drawn))) v.oauth_codes)) [
          | inl free ↦ ground (arith, free)
          | inr (r, taken) ↦ absurd (ground (arith, taken))
        ]

  pub consume-save_authorization_code :
      (v v' : Vault) (drawn : String) (request ac : AuthorizationCode) (ttl now later : ℕ)
      → save_authorization_code h v drawn request ttl now ≡ some (v', ac)
      → consume_authorization_code h v' ac.code later
        ≡ (v, if is_expired ac.expires_at later then none else some ac)
  unfolding consume_authorization_code
  consume-save_authorization_code v v' drawn request ac ttl now later e =
      let (free, put) = save_authorization_code_inv v v' drawn request ac ttl now e in
      let p = λ (r : CodeRow). str_eq r.code (hash_token h ac.code) in
      rw put (
        ground (
          arith,
          eq_refl (hash_token h ac.code),
          find?-append_one p v.oauth_codes (code_row h ac now) free
              (eq_refl (hash_token h ac.code)),
          delete-append_one p v.oauth_codes (code_row h ac now) free
              (eq_refl (hash_token h ac.code)),
        ))
