-- ===== src/Oauth/Store.antt =====
-- The OAuth tables of the vault (afair/substrate/schema.py), what the server takes from outside,
-- and the client registry of afair/mcp/oauth/storage.py. Times are microseconds since the epoch,
-- but an `expires_at` is in whole seconds, as the source stores it.
use Prim.Native.String.{◌++◌ as ◌+++◌}
use afair.Prelude.{
  ℕ, ◌/◌, ◌*◌, ◌+◌, String, str_eq, Bool, false, Option, none, some, List, [], ◌∷◌, ◌++◌, is_some,
  find?, if◌then◌else◌, ltb,
}

-- Library calls: the hex digest of SHA-256, PKCE's base64url of SHA-256 with its padding
-- stripped, `str.lower`, and PyJWT's encoder of a payload under a secret.
pub record Payload : Type 0 where
  pub iss : String
  pub aud : String
  pub sub : String
  pub iat : ℕ
  pub exp : ℕ
  pub jti : String
  pub email : Option String
  pub client_name : Option String

pub record Host : Type 0 where
  pub hexdigest : String → String
  pub s256 : String → String
  pub lower : String → String
  pub encode : Payload → String → String

pub record ClientRow : Type 0 where
  pub client_id : String
  pub client_secret_hash : Option String
  pub redirect_uris : List String
  pub client_name : Option String
  pub registered_at : ℕ

pub record CodeRow : Type 0 where
  pub code : String
  pub client_id : String
  pub redirect_uri : String
  pub scope : Option String
  pub code_challenge : String
  pub code_challenge_method : String
  pub user_sub : String
  pub user_email : Option String
  pub expires_at : ℕ
  pub created_at : ℕ

pub record LoginRow : Type 0 where
  pub state : String
  pub client_id : String
  pub redirect_uri : String
  pub scope : Option String
  pub code_challenge : String
  pub code_challenge_method : String
  pub client_state : Option String
  pub expires_at : ℕ
  pub created_at : ℕ

pub record RefreshRow : Type 0 where
  pub token_hash : String
  pub client_id : String
  pub user_sub : String
  pub scope : Option String
  pub expires_at : ℕ
  pub created_at : ℕ
  pub revoked_at : Option ℕ

pub record Vault : Type 0 where
  pub oauth_clients : List ClientRow
  pub oauth_codes : List CodeRow
  pub oauth_login_state : List LoginRow
  pub oauth_refresh_tokens : List RefreshRow

abbrev pub second : ℕ
second = 1000000

-- `int(time.time()) + ttl_seconds`.
unfoldable pub expiry : ℕ → ℕ → ℕ
expiry now ttl_seconds = now / second + ttl_seconds

-- `expires_at_dt < datetime.now(UTC)`.
unfoldable pub is_expired : ℕ → ℕ → Bool
is_expired expires_at now = ltb (expires_at * second) now

pub record Client : Type 0 where
  pub client_id : String
  pub redirect_uris : List String
  pub client_name : Option String
  pub registered_at : ℕ
  pub has_secret : Bool

module _ (h : Host) where
  unfoldable pub hash_token : String → String
  hash_token token = "sha256:" +++ h.hexdigest token

  -- The id and the secret that the source draws at random are arguments; `none` is the
  -- IntegrityError of a client id that is taken.
  unfoldable pub register_client :
      (v : Vault) (drawn_id drawn_secret : String)
      → List String
      → Option String
      → Bool
      → ℕ
      → Option (Vault × Client × Option String)
  unfolding hash_token
  register_client v drawn_id drawn_secret redirect_uris client_name confidential now =
      let client_id = "nf_" +++ drawn_id in
      let secret_plain : Option String = if confidential then some drawn_secret else none in
      let row : ClientRow = record {
        client_id = client_id;
        client_secret_hash = if confidential then some (hash_token drawn_secret) else none;
        redirect_uris = redirect_uris;
        client_name = client_name;
        registered_at = now;
      } in
      let client : Client = record {
        client_id = client_id;
        redirect_uris = redirect_uris;
        client_name = client_name;
        registered_at = now;
        has_secret = confidential;
      } in
      if is_some (find? (λ r. str_eq r.client_id client_id) v.oauth_clients)
      then none
      else some (record v { oauth_clients = v.oauth_clients ++ row ∷ [] }, client, secret_plain)

  unfoldable pub get_client : Vault → String → Option Client
  get_client v client_id = elim (find? (λ r. str_eq r.client_id client_id) v.oauth_clients) [
    | none ↦ none
    | some row ↦ some (record {
      client_id = row.client_id;
      redirect_uris = row.redirect_uris;
      client_name = row.client_name;
      registered_at = row.registered_at;
      has_secret = is_some row.client_secret_hash;
    })
  ]

  abbrev matches_hash : Option String → String → Bool
  matches_hash none digest = false
  matches_hash (some stored) digest = str_eq stored digest

  unfoldable pub verify_client_secret : Vault → String → String → Bool
  unfolding hash_token
  verify_client_secret v client_id secret =
      elim (find? (λ r. str_eq r.client_id client_id) v.oauth_clients) [
        | none ↦ false
        | some row ↦ matches_hash row.client_secret_hash (hash_token secret)
      ]
