-- ===== src/Auth/Prune.antt =====
-- Lookups after `_prune_expired` (src/resourcespace_platform/services/auth_service.py).
use resourcespace_authentica.Base.{ℕ, String, ◌≡◌, lookup, lookup-prune, drop_if}
use resourcespace_authentica.State.{State}
use resourcespace_authentica.Auth.{
  AuthService, prune_state, prune_expired, refresh_grace_ms, is_expired_code,
  is_expired_access_token, is_expired_refresh_token, is_purged,
}

module _ (service : AuthService) (now : ℕ) (s : State) (k : String) where
  pub lookup-prune_codes :
      lookup k (prune_state service now s).authorization_codes
      ≡ drop_if (is_expired_code now) (lookup k s.authorization_codes)
  unfolding prune_expired
  lookup-prune_codes = lookup-prune (is_expired_code now) k s.authorization_codes

  pub lookup-prune_access_tokens :
      lookup k (prune_state service now s).access_tokens
      ≡ drop_if (is_expired_access_token now) (lookup k s.access_tokens)
  unfolding prune_expired
  lookup-prune_access_tokens = lookup-prune (is_expired_access_token now) k s.access_tokens

  pub lookup-prune_refresh_tokens :
      lookup k (prune_state service now s).refresh_tokens
      ≡ drop_if
          (is_expired_refresh_token (refresh_grace_ms service.config) now)
          (lookup k s.refresh_tokens)
  unfolding prune_expired
  lookup-prune_refresh_tokens =
      lookup-prune (is_expired_refresh_token (refresh_grace_ms service.config) now) k
        s.refresh_tokens

  pub lookup-prune_pending :
      lookup k (prune_state service now s).pending_sso_states
      ≡ drop_if (is_purged now) (lookup k s.pending_sso_states)
  unfolding prune_expired
  lookup-prune_pending = lookup-prune (is_purged now) k s.pending_sso_states
