-- ===== src/Auth/Codes/Redeeming.antt =====
-- The deletion of an authorization code by `exchange_authorization_code`
-- (src/resourcespace_platform/services/auth_service.py).
use resourcespace_authentica.Base.{
  ℕ, String, ◌≡◌, refl, Option, none, some, true, lookup, arith, ok, err, Result, lookup-erase_self,
}
use resourcespace_authentica.Session.{Session}
use resourcespace_authentica.Errors.{Exception}
use resourcespace_authentica.State.{State, AuthorizationCode, TokenResponse}
use resourcespace_authentica.JsonStore.{settle}
use resourcespace_authentica.Auth.{AuthService, OauthError, is_configured_client, prune_state}
use resourcespace_authentica.Auth.Prune.{lookup-prune_codes}
use resourcespace_authentica.Auth.Codes.{ExchangeRequest, redeem_found, redeem_code, code_not_found}
use resourcespace_authentica.Auth.Tokens.{
  PairDraws, exchange_authorization_code, exchanged, create_token_pair,
}

-- What `create_token_pair` leaves of the codes.
codes-create_token_pair :
    (service : AuthService) (now : ℕ) (d : PairDraws) (session : Session)
    (scope client_id k : String) (s : State)
    → lookup k s.authorization_codes ≡ none
    → lookup k (create_token_pair service now d session scope client_id s).1.authorization_codes
      ≡ none
unfolding create_token_pair
codes-create_token_pair service now d session scope client_id k s h =
    rw (lookup-prune_codes service now s k, h) refl

redeem_found-deletes :
    (service : AuthService) (q : ExchangeRequest) (s s' : State) (found : Option AuthorizationCode)
    (answer : Result OauthError (Session × String))
    → lookup q.code s.authorization_codes ≡ found
    → redeem_found service q s found ≡ ok (answer, s')
    → lookup q.code s'.authorization_codes ≡ none
redeem_found-deletes service q s s' none answer e h = ground arith
redeem_found-deletes service q s s' (some r) answer e h =
    ground (arith, lookup-erase_self q.code s.authorization_codes)

exchanged-deletes :
    (service : AuthService) (now : ℕ) (d : PairDraws) (client_id code : String) (s : State)
    (r : Result Exception (Result OauthError (Session × String) × State))
    (answer : Result OauthError TokenResponse)
    → ((a : Result OauthError (Session × String)) (s' : State)
        → r ≡ ok (a, s')
        → lookup code s'.authorization_codes ≡ none)
    → (exchanged service now d client_id (settle s r)).0 ≡ ok answer
    → lookup code (exchanged service now d client_id (settle s r)).1.authorization_codes ≡ none
exchanged-deletes service now d client_id code s (err e) answer k h = cc
exchanged-deletes service now d client_id code s (ok (err o, s')) answer k h = k (err o) s' refl
exchanged-deletes service now d client_id code s (ok (ok (session, scope), s')) answer k h =
    codes-create_token_pair service now d session scope client_id code s'
      (k (ok (session, scope)) s' refl)

-- Whatever an exchange answers, if it does not raise, the code is no longer stored.
pub exchange-deletes_code :
    (service : AuthService) (n m : ℕ) (d : PairDraws) (q : ExchangeRequest) (s : State)
    (answer : Result OauthError TokenResponse)
    → is_configured_client service.config q.client_id ≡ true
    → (exchange_authorization_code service n m d q s).0 ≡ ok answer
    → lookup q.code (exchange_authorization_code service n m d q s).1.authorization_codes ≡ none
unfolding exchange_authorization_code redeem_code
exchange-deletes_code service n m d q s answer c h =
    let s1 = prune_state service n s in
    let found = lookup q.code s1.authorization_codes in
    rw c (
      exchanged-deletes service m d q.client_id q.code s (redeem_found service q s1 found) answer
        (λ a s' e. redeem_found-deletes service q s1 s' found a refl e) (rw c at h))

exchange_missing :
    (service : AuthService) (n m : ℕ) (d : PairDraws) (q : ExchangeRequest) (s : State)
    → is_configured_client service.config q.client_id ≡ true
    → lookup q.code s.authorization_codes ≡ none
    → (exchange_authorization_code service n m d q s).0 ≡ ok (err code_not_found)
unfolding exchange_authorization_code redeem_code
exchange_missing service n m d q s c h = rw (c, lookup-prune_codes service n s q.code) (rw h refl)

-- A code is good for one exchange: after an exchange of it that came to an answer, good or bad,
-- an exchange of the same code by a configured client in the state that it left is refused as
-- unknown, whatever the time and the other arguments.
pub exchange_once :
    (service : AuthService) (n m n' m' : ℕ) (d d' : PairDraws) (q q' : ExchangeRequest) (s : State)
    (answer : Result OauthError TokenResponse)
    → is_configured_client service.config q.client_id ≡ true
    → is_configured_client service.config q'.client_id ≡ true
    → q'.code ≡ q.code
    → (exchange_authorization_code service n m d q s).0 ≡ ok answer
    → (exchange_authorization_code service n' m' d' q'
        (exchange_authorization_code service n m d q s).1).0
      ≡ ok (err code_not_found)
exchange_once service n m n' m' d d' q q' s answer c c' same h =
    exchange_missing service n' m' d' q' (exchange_authorization_code service n m d q s).1 c'
      (rw same (exchange-deletes_code service n m d q s answer c h))
