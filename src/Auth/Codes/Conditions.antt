-- ===== src/Auth/Codes/Conditions.antt =====
-- The conditions of `exchange_authorization_code`
-- (src/resourcespace_platform/services/auth_service.py).
use resourcespace_authentica.Base.{
  ℕ, String, ◌≡◌, ◌↔◌, ◌<◌, refl, Option, none, some, true, lookup, erase, arith, ok, err, Result,
  truthy, truthy_text, eq_iff, get_or, if◌then◌else◌, Bool-cases, inl, inr, drop_if-eq-some,
  drop_if_keeps,
}
use resourcespace_authentica.Session.{Session, try_open_session_dict}
use resourcespace_authentica.Errors.{Exception}
use resourcespace_authentica.State.{State, AuthorizationCode, TokenResponse}
use resourcespace_authentica.JsonStore.{settle}
use resourcespace_authentica.Auth.{
  AuthService, OauthError, is_configured_client, sha256_b64url, prune_state, is_expired_code,
}
use resourcespace_authentica.Auth.Prune.{lookup-prune_codes}
use resourcespace_authentica.Auth.Codes.{ExchangeRequest, check_code, redeem_found, redeem_code}
use resourcespace_authentica.Auth.Tokens.{
  PairDraws, exchange_authorization_code, exchanged, create_token_pair, token_response,
}

-- The request is by the client and with the redirect URI that the code was minted for; a challenge
-- was stored and a verifier is sent; the method is S256, the default; the verifier's digest is the
-- challenge; and the sealed session opens.
pub record IsProven (service : AuthService) (q : ExchangeRequest) (r : AuthorizationCode)
    (session : Session) : Type 0 where
  pub client : r.client_id ≡ q.client_id
  pub redirect : r.redirect_uri ≡ q.redirect_uri
  pub challenged : truthy_text r.code_challenge ≡ true
  pub verifier_sent : truthy_text q.code_verifier ≡ true
  pub method : (if truthy r.code_challenge_method then r.code_challenge_method else "S256") ≡ "S256"
  pub verified : sha256_b64url service (get_or q.code_verifier "") ≡ get_or r.code_challenge ""
  pub opens : try_open_session_dict service.field_cipher r.session ≡ ok (some session)

check_code-eq-ok :
    (service : AuthService) (q : ExchangeRequest) (r : AuthorizationCode) (session : Session)
    (scope : String)
    → check_code service q r ≡ ok (ok (session, scope))
    → IsProven service q r session × (scope ≡ r.scope)
unfolding check_code
check_code-eq-ok service q r session scope h = ground (
  arith,
  eq_iff r.client_id q.client_id,
  eq_iff r.redirect_uri q.redirect_uri,
  eq_iff (if truthy r.code_challenge_method then r.code_challenge_method else "S256") "S256",
  eq_iff (sha256_b64url service (get_or q.code_verifier "")) (get_or r.code_challenge ""),
)

check_code_of_IsProven :
    (service : AuthService) (q : ExchangeRequest) (r : AuthorizationCode) (session : Session)
    → IsProven service q r session
    → check_code service q r ≡ ok (ok (session, r.scope))
unfolding check_code
check_code_of_IsProven service q r session p = ground (
  arith,
  eq_iff r.client_id q.client_id,
  eq_iff r.redirect_uri q.redirect_uri,
  eq_iff (if truthy r.code_challenge_method then r.code_challenge_method else "S256") "S256",
  eq_iff (sha256_b64url service (get_or q.code_verifier "")) (get_or r.code_challenge ""),
)

-- What an exchange that answers with `tokens` rests on.
pub record IsExchange (service : AuthService) (now : ℕ) (d : PairDraws) (q : ExchangeRequest)
    (s : State) (tokens : TokenResponse) : Type 0 where
  pub code : AuthorizationCode
  pub session : Session
  pub configured : is_configured_client service.config q.client_id ≡ true
  pub stored : lookup q.code s.authorization_codes ≡ some code
  pub live : now < code.expires_at
  pub proven : IsProven service q code session
  pub answer : tokens ≡ token_response service d code.scope

live_code :
    (service : AuthService) (n : ℕ) (s : State) (k : String) (r : AuthorizationCode)
    → lookup k (prune_state service n s).authorization_codes ≡ some r
    → (lookup k s.authorization_codes ≡ some r) × (n < r.expires_at)
live_code service n s k r h =
    let (e, alive) =
      drop_if-eq-some (is_expired_code n) (lookup k s.authorization_codes) r
        (rw (lookup-prune_codes service n s k) at h) in
    (e, ground arith)

found-eq-ok :
    (service : AuthService) (q : ExchangeRequest) (s s' : State) (found : Option AuthorizationCode)
    (session : Session) (scope : String)
    → redeem_found service q s found ≡ ok (ok (session, scope), s')
    → (r : AuthorizationCode) × (found ≡ some r) × IsProven service q r session × (scope ≡ r.scope)
found-eq-ok service q s s' none session scope h = cc
found-eq-ok service q s s' (some r) session scope h =
    let p = check_code-eq-ok service q r session scope (ground arith) in (r, refl, p.0, p.1)

exchanged-eq-ok :
    (service : AuthService) (now : ℕ) (d : PairDraws) (client_id : String) (s : State)
    (r : Result Exception (Result OauthError (Session × String) × State)) (tokens : TokenResponse)
    → (exchanged service now d client_id (settle s r)).0 ≡ ok (ok tokens)
    → (session : Session) × (scope : String) × (s' : State) × (r ≡ ok (ok (session, scope), s'))
      × (tokens ≡ token_response service d scope)
unfolding create_token_pair
exchanged-eq-ok service now d client_id s (err e) tokens h = cc
exchanged-eq-ok service now d client_id s (ok (err o, s')) tokens h = cc
exchanged-eq-ok service now d client_id s (ok (ok (session, scope), s')) tokens h =
    (session, scope, s', refl, ground arith)

exchange-IsExchange :
    (service : AuthService) (n m : ℕ) (d : PairDraws) (q : ExchangeRequest) (s : State)
    (tokens : TokenResponse)
    → (exchange_authorization_code service n m d q s).0 ≡ ok (ok tokens)
    → IsExchange service n d q s tokens
unfolding exchange_authorization_code redeem_code
exchange-IsExchange service n m d q s tokens h =
    let s1 = prune_state service n s in
    let found = lookup q.code s1.authorization_codes in
    elim (Bool-cases (is_configured_client service.config q.client_id)) [
      | inr c ↦ absurd (cc (rw c at h))
      | inl c ↦
          let (session, scope, s2, redeemed, answer) =
            exchanged-eq-ok service m d q.client_id s (redeem_found service q s1 found) tokens
              (rw c at h) in
          let (r, stored, proven, same) =
            found-eq-ok service q s1 s2 found session scope redeemed in
          let (stored', live) = live_code service n s q.code r stored in
          record {
            code = r;
            session = session;
            configured = c;
            stored = stored';
            live = live;
            proven = proven;
            answer = rw (← same) answer;
          }
    ]

exchange_of_IsExchange :
    (service : AuthService) (n m : ℕ) (d : PairDraws) (q : ExchangeRequest) (s : State)
    (tokens : TokenResponse)
    → IsExchange service n d q s tokens
    → (exchange_authorization_code service n m d q s).0 ≡ ok (ok tokens)
unfolding exchange_authorization_code redeem_code create_token_pair
exchange_of_IsExchange service n m d q s tokens x =
    let kept =
      drop_if_keeps (is_expired_code n) (lookup q.code s.authorization_codes) x.code x.stored
        (ground (arith, x.live)) in
    rw (x.configured, lookup-prune_codes service n s q.code)
      (rw (kept, check_code_of_IsProven service q x.code x.session x.proven) (rw x.answer refl))

-- An exchange is answered with tokens exactly when the client is configured, the code is stored
-- and not expired at the time of the exchange, the request proves its right to it (IsProven), and
-- the answer carries the new tokens and the scope of the code.
pub exchange_iff :
    (service : AuthService) (n m : ℕ) (d : PairDraws) (q : ExchangeRequest) (s : State)
    (tokens : TokenResponse)
    → ((exchange_authorization_code service n m d q s).0 ≡ ok (ok tokens))
      ↔ IsExchange service n d q s tokens
exchange_iff service n m d q s tokens =
    (exchange-IsExchange service n m d q s tokens, exchange_of_IsExchange service n m d q s tokens)

-- The state after such an exchange: the code is erased and a pair is made for its session.
pub state_of_IsExchange :
    (service : AuthService) (n m : ℕ) (d : PairDraws) (q : ExchangeRequest) (s : State)
    (tokens : TokenResponse) (x : IsExchange service n d q s tokens)
    → (exchange_authorization_code service n m d q s).1
      ≡ (create_token_pair service m d x.session x.code.scope q.client_id (
          let s1 = prune_state service n s in
          record s1 { authorization_codes = erase q.code s1.authorization_codes })).1
unfolding exchange_authorization_code redeem_code
state_of_IsExchange service n m d q s tokens x =
    let kept =
      drop_if_keeps (is_expired_code n) (lookup q.code s.authorization_codes) x.code x.stored
        (ground (arith, x.live)) in
    rw (x.configured, lookup-prune_codes service n s q.code)
      (rw (kept, check_code_of_IsProven service q x.code x.session x.proven) refl)
