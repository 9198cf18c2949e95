-- ===== src/System/Reached.antt =====
-- The states that the broker reaches.
use resourcespace_authentica.Base.{◌≡◌}
use resourcespace_authentica.Cipher.{Fernet, fernet_cipher}
use resourcespace_authentica.State.{State}
use resourcespace_authentica.Auth.{AuthService}
use resourcespace_authentica.Grants.{AssetService}
use resourcespace_authentica.System.{
  Step, pruning, password_login, session_login, redeeming, exchanging, pairing, refreshing, reading,
  handoff_begun, handoff_completed, handoff_consumed, token_revoked, user_revoked, granting,
  grant_verified, Reach, start, later,
}
use resourcespace_authentica.System.Sealed.{
  IsSealedState, prune-IsSealedState, password_login-IsSealedState, session_login-IsSealedState,
  redeem-IsSealedState, exchange-IsSealedState, create-IsSealedState,
}
use resourcespace_authentica.System.Refreshes.{refresh-IsSealedState, read-IsSealedState}
use resourcespace_authentica.System.Handoffs.{
  begin-IsSealedState, complete-IsSealedState, consume-IsSealedState, revoke_token-IsSealedState,
  revoke_user-IsSealedState, create_grant-IsSealedState, verify_grant-IsSealedState,
}

module _ (service : AuthService) (assets : AssetService) (f : Fernet)
    (keyed : service.field_cipher ≡ fernet_cipher f) where
  Step-IsSealedState : {s t : State} → Step service assets s t → IsSealedState s → IsSealedState t
  Step-IsSealedState {s} (pruning now) h = prune-IsSealedState service f keyed now s h
  Step-IsSealedState {s} (password_login d authenticate q) h =
      password_login-IsSealedState service f keyed d authenticate q s h
  Step-IsSealedState {s} (session_login d q session) h =
      session_login-IsSealedState service f keyed d q session s h
  Step-IsSealedState {s} (redeeming now q) h = redeem-IsSealedState service f keyed now q s h
  Step-IsSealedState {s} (exchanging n m d q) h = exchange-IsSealedState service f keyed n m d q s h
  Step-IsSealedState {s} (pairing now d session scope client_id) h =
      create-IsSealedState service f keyed now d session scope client_id s h
  Step-IsSealedState {s} (refreshing d client_id token) h =
      refresh-IsSealedState service f keyed d client_id token s h
  Step-IsSealedState {s} (reading now token) h = read-IsSealedState service f keyed now token s h
  Step-IsSealedState {s} (handoff_begun d q) h = begin-IsSealedState service f keyed d q s h
  Step-IsSealedState {s} (handoff_completed d handoff_state session) h =
      complete-IsSealedState service f keyed d handoff_state session s h
  Step-IsSealedState {s} (handoff_consumed n m k handoff_state) h =
      consume-IsSealedState service f keyed n m k handoff_state s h
  Step-IsSealedState {s} (token_revoked n m token) h =
      revoke_token-IsSealedState service f keyed n m token s h
  Step-IsSealedState {s} (user_revoked n m user_id tenant_id) h =
      revoke_user-IsSealedState service f keyed n m user_id tenant_id s h
  Step-IsSealedState {s} (granting d q) h = create_grant-IsSealedState assets d q s h
  Step-IsSealedState {s} (grant_verified d grant_id expires_at signature) h =
      verify_grant-IsSealedState assets d grant_id expires_at signature s h

  -- With an encryption key, in every state that the broker reaches from an empty store, by any
  -- operations in any order, the upstream session key and the email address of each stored session
  -- begin with the mark of a sealed value, if they are there and not empty.
  pub Reach-IsSealedState : {s : State} → Reach service assets s → IsSealedState s
  Reach-IsSealedState start = record { codes = tt; access = tt; refresh = tt }
  Reach-IsSealedState (later r step) = Step-IsSealedState step (Reach-IsSealedState r)
