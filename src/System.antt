-- ===== src/System.antt =====
-- The broker as a step system: every operation of the authorization service
-- (src/resourcespace_platform/services/auth_service.py) and of the asset service
-- (services/asset_service.py) that writes the store, in any order, with any arguments and any
-- draws. The store's lock makes each of its transactions one step; an exchange is two of them, and
-- `exchanging` stands for both in a row, `redeeming` for the first alone.
pub mod Sealed
pub mod Refreshes
pub mod Handoffs
pub mod Reached
use resourcespace_authentica.Base.{ℕ, String, Option, Result, ok}
use resourcespace_authentica.Session.{Session}
use resourcespace_authentica.State.{State, initial_state}
use resourcespace_authentica.Errors.{Exception}
use resourcespace_authentica.JsonStore.{transaction}
use resourcespace_authentica.Auth.{AuthService, prune_state}
use resourcespace_authentica.Auth.Codes.{
  MintDraws, CodeRequest, ExchangeRequest, begin_authorization, begin_authorization_from_session,
  redeem_code,
}
use resourcespace_authentica.Auth.Tokens.{
  PairDraws, RefreshDraws, create_token_pair, exchange_authorization_code, refresh_access_token,
  read_access_token,
}
use resourcespace_authentica.Auth.Sso.{
  SsoDraws, SsoRequest, CompletionDraws, begin_sso_authorization, complete_sso_authorization,
  consume_pending_sso_state,
}
use resourcespace_authentica.Auth.Revocation.{revoke_token, revoke_tokens_for_user}
use resourcespace_authentica.Grants.{
  AssetService, GrantDraws, GrantRequest, VerifyDraws, create_grant, verify_grant,
}

pub data Step (service : AuthService) (assets : AssetService) (s : State) : State → Type 0 where
  pruning : (now : ℕ) → Step service assets s (prune_state service now s)
  password_login :
      (d : MintDraws) (authenticate : Option String → Result Exception Session) (q : CodeRequest)
      → Step service assets s (begin_authorization service d authenticate q s).1
  session_login :
      (d : MintDraws) (q : CodeRequest) (session : Session)
      → Step service assets s (begin_authorization_from_session service d q session s).1
  redeeming :
      (now : ℕ) (q : ExchangeRequest)
      → Step service assets s (transaction (redeem_code service now q) s).1
  exchanging :
      (n m : ℕ) (d : PairDraws) (q : ExchangeRequest)
      → Step service assets s (exchange_authorization_code service n m d q s).1
  pairing :
      (now : ℕ) (d : PairDraws) (session : Session) (scope client_id : String)
      → Step service assets s (create_token_pair service now d session scope client_id s).1
  refreshing :
      (d : RefreshDraws) (client_id token : String)
      → Step service assets s (refresh_access_token service d client_id token s).1
  reading :
      (now : ℕ) (token : String) → Step service assets s (read_access_token service now token s).1
  handoff_begun :
      (d : SsoDraws) (q : SsoRequest)
      → Step service assets s (transaction (begin_sso_authorization service d q) s).1
  handoff_completed :
      (d : CompletionDraws) (handoff_state : String) (session : Session)
      → Step service assets s (complete_sso_authorization service d handoff_state session s).1
  handoff_consumed :
      (n m k : ℕ) (handoff_state : String)
      → Step service assets s (consume_pending_sso_state service n m k handoff_state s).1
  token_revoked :
      (n m : ℕ) (token : String) → Step service assets s (revoke_token service n m token s).1
  user_revoked :
      (n m : ℕ) (user_id tenant_id : String)
      → Step service assets s (revoke_tokens_for_user service n m user_id tenant_id s)
  granting :
      (d : GrantDraws) (q : GrantRequest) → Step service assets s (create_grant assets d q s).1
  grant_verified :
      (d : VerifyDraws) (grant_id expires_at signature : Option String)
      → Step service assets s (verify_grant assets d grant_id expires_at signature s).1

-- The states that the broker reaches from an empty store.
pub data Reach (service : AuthService) (assets : AssetService) : State → Type 0 where
  start : Reach service assets initial_state
  later : {s t : State} → Reach service assets s → Step service assets s t → Reach service assets t
