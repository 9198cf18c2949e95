-- ===== src/Auth.antt =====
-- AuthService of src/resourcespace_platform/services/auth_service.py: the service object, what each
-- call draws from the clock and the random generator, and pruning. The operations and their proofs
-- are in the modules below. A method whose body is an updater is a step of the store's state; what
-- an updater raises leaves the state as it was (JsonStore.transaction).
pub mod Prune
pub mod Codes
pub mod Tokens
pub mod Sso
pub mod Revocation
use resourcespace_authentica.Base.{
  ℕ, ◌*◌, ◌-◌, String, Option, none, some, Bool, true, false, ◌&&◌, ◌||◌, leb, ltb, truthy_number,
  if◌then◌else◌, prune, get_or, is_present, lookup, rstrip_class, same_code, Result, ok, err,
}
use resourcespace_authentica.Config.{AppConfig, OauthClientConfig}
use resourcespace_authentica.Cipher.{FieldCipher, CipherError}
use resourcespace_authentica.Errors.{Exception, unexpected}
use resourcespace_authentica.State.{
  State, AuthorizationCode, AccessToken, RefreshToken, AssetGrant, PendingSsoState,
}

-- `sha256_urlsafe` is base64.urlsafe_b64encode of the SHA-256 digest of the UTF-8 bytes.
-- `rate_quotient` is int(max_requests * ttl / (window_ms / 1000)) in floating point, `none` where it
-- raises ZeroDivisionError or OverflowError.
pub record AuthService : Type 0 where
  pub config : AppConfig
  pub field_cipher : FieldCipher
  pub sha256_urlsafe : String → String
  pub rate_quotient : ℕ → ℕ → ℕ → Option ℕ

-- `refresh_grace_seconds * 1000`
abbrev pub refresh_grace_ms : AppConfig → ℕ
refresh_grace_ms config = config.oauth.refresh_grace_seconds * 1000

-- The answer of an OAuth endpoint that refuses.
pub record OauthError : Type 0 where
  pub error : String
  pub description : String

-- `_sha256_b64url`: the digest without the "=" at its end
unfoldable pub sha256_b64url : AuthService → String → String
unfolding rstrip_class
sha256_b64url service value = rstrip_class (λ c. same_code c b'=') (service.sha256_urlsafe value)

-- `_is_configured_client`
unfoldable pub is_configured_client : AppConfig → String → Bool
unfolding lookup
is_configured_client config client_id = is_present (lookup client_id config.oauth.clients)

-- What the cipher raises and the service does not catch.
abbrev pub uncaught {ℓ} : {A : Type ℓ} → Result CipherError A → Result Exception A
uncaught (ok a) = ok a
uncaught (err e) = err unexpected

-- The tests of `_prune_expired`, one for each bucket.
abbrev pub is_expired_code : ℕ → AuthorizationCode → Bool
is_expired_code current r = leb r.expires_at current

abbrev pub is_expired_access_token : ℕ → AccessToken → Bool
is_expired_access_token current r = leb r.expires_at current || truthy_number r.revoked_at

abbrev pub is_expired_refresh_token : ℕ → ℕ → RefreshToken → Bool
is_expired_refresh_token grace current r =
    (truthy_number r.revoked_at && ltb grace (current - get_or r.revoked_at 0))
    || (truthy_number r.expires_at && leb (get_or r.expires_at 0) current)

abbrev pub is_expired_grant : ℕ → AssetGrant → Bool
is_expired_grant current r = leb r.expires_at current

-- A used or expired handoff state is kept until `purgeAt`.
abbrev pub is_purged : ℕ → PendingSsoState → Bool
is_purged current r = leb r.purge_at current

-- `_prune_expired`
unfoldable pub prune_expired : ℕ → ℕ → State → State
prune_expired current grace s = record {
  authorization_codes = prune (is_expired_code current) s.authorization_codes;
  access_tokens = prune (is_expired_access_token current) s.access_tokens;
  refresh_tokens = prune (is_expired_refresh_token grace current) s.refresh_tokens;
  asset_grants = prune (is_expired_grant current) s.asset_grants;
  pending_sso_states = prune (is_purged current) s.pending_sso_states;
}

-- AuthService._prune at a reading of the clock
abbrev pub prune_state : AuthService → ℕ → State → State
prune_state service current s = prune_expired current (refresh_grace_ms service.config) s
