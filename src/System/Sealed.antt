-- ===== src/System/Sealed.antt =====
-- The sealing of sessions at rest, and in the steps of logins and exchanges.
use mathlib.Core.Path.{subst}
use resourcespace_authentica.Base.{
  ℕ, ◌≡◌, refl, String, Option, none, some, lookup, erase, arith, Result, ok, err, truthy,
  AllValues, AllValues-insert, AllValues-erase, AllValues-prune, Bool-cases, inl, inr, ◌>>=◌,
}
use resourcespace_authentica.Cipher.{Fernet, fernet_cipher}
use resourcespace_authentica.Session.{Session}
use resourcespace_authentica.Session.Laws.{IsSealedSession, IsSealedSession-seal_session}
use resourcespace_authentica.State.{State, AuthorizationCode, AccessToken, RefreshToken}
use resourcespace_authentica.Errors.{Exception}
use resourcespace_authentica.JsonStore.{settle, transaction}
use resourcespace_authentica.Auth.{
  AuthService, prune_state, prune_expired, OauthError, is_configured_client,
}
use resourcespace_authentica.Auth.Codes.{
  MintDraws, CodeRequest, ExchangeRequest, mint_authorization_code, begin_authorization,
  begin_authorization_from_session, redeem_code, redeem_found, check_code, code_record, minted_with,
}
use resourcespace_authentica.Auth.Tokens.{
  PairDraws, write_token_pair_to_state, create_token_pair, exchange_authorization_code, exchanged,
  access_record, refresh_record,
}

abbrev pub IsSealedCode : AuthorizationCode → Type 0
IsSealedCode r = IsSealedSession r.session

abbrev pub IsSealedAccess : AccessToken → Type 0
IsSealedAccess r = IsSealedSession r.session

abbrev pub IsSealedRefresh : RefreshToken → Type 0
IsSealedRefresh r = IsSealedSession r.session

-- Every session in the store has its key and its address sealed, missing or empty.
pub record IsSealedState (s : State) : Type 0 where
  pub codes : AllValues IsSealedCode s.authorization_codes
  pub access : AllValues IsSealedAccess s.access_tokens
  pub refresh : AllValues IsSealedRefresh s.refresh_tokens

module _ (service : AuthService) (f : Fernet) (keyed : service.field_cipher ≡ fernet_cipher f) where
  pub prune-IsSealedState :
      (now : ℕ) (s : State) → IsSealedState s → IsSealedState (prune_state service now s)
  unfolding prune_expired
  prune-IsSealedState now s h = record {
    codes = AllValues-prune IsSealedCode _ s.authorization_codes h.codes;
    access = AllValues-prune IsSealedAccess _ s.access_tokens h.access;
    refresh = AllValues-prune IsSealedRefresh _ s.refresh_tokens h.refresh;
  }

  pub mint-IsSealedState :
      (d : MintDraws) (q : CodeRequest) (session : Session) (s : State)
      → IsSealedState s
      → IsSealedState (mint_authorization_code service d q session s).1
  unfolding mint_authorization_code
  mint-IsSealedState d q session s h =
      let k = prune-IsSealedState d.prune_now s h in
      record {
        codes =
            AllValues-insert IsSealedCode d.code (code_record service d q session) _
              (rw keyed (IsSealedSession-seal_session f d.key_nonce d.email_nonce session)) k.codes;
        access = k.access;
        refresh = k.refresh;
      }

  pub write-IsSealedState :
      (d : PairDraws) (session : Session) (scope client_id : String) (s : State)
      → IsSealedState s
      → IsSealedState (write_token_pair_to_state service d session scope client_id s).1
  unfolding write_token_pair_to_state
  write-IsSealedState d session scope client_id s h =
      let sealed : IsSealedAccess (access_record service d session scope client_id) =
        rw keyed (IsSealedSession-seal_session f d.key_nonce d.email_nonce _) in
      let added =
        AllValues-insert IsSealedRefresh d.refresh_token
          (refresh_record service d session scope client_id) s.refresh_tokens sealed h.refresh in
      record {
        codes = h.codes;
        access =
            AllValues-insert IsSealedAccess d.access_token
              (access_record service d session scope client_id) s.access_tokens sealed h.access;
        refresh = elim (Bool-cases (truthy d.refresh_token)) [
          | inl text ↦ rw text added
          | inr empty ↦ rw empty h.refresh
        ];
      }

  pub create-IsSealedState :
      (now : ℕ) (d : PairDraws) (session : Session) (scope client_id : String) (s : State)
      → IsSealedState s
      → IsSealedState (create_token_pair service now d session scope client_id s).1
  unfolding create_token_pair
  create-IsSealedState now d session scope client_id s h =
      write-IsSealedState d session scope client_id (prune_state service now s)
        (prune-IsSealedState now s h)

  pub session_login-IsSealedState :
      (d : MintDraws) (q : CodeRequest) (session : Session) (s : State)
      → IsSealedState s
      → IsSealedState (begin_authorization_from_session service d q session s).1
  unfolding begin_authorization_from_session
  session_login-IsSealedState d q session s h = mint-IsSealedState d q _ s h

  pub password_login-IsSealedState :
      (d : MintDraws) (authenticate : Option String → Result Exception Session) (q : CodeRequest)
      (s : State)
      → IsSealedState s
      → IsSealedState (begin_authorization service d authenticate q s).1
  unfolding begin_authorization
  password_login-IsSealedState d authenticate q s h = answered (authenticate _)
    where
      answered : (r : Result Exception Session) → IsSealedState (minted_with service d q r s).1
      answered (err e) = h
      answered (ok session) = session_login-IsSealedState d q session s h

  -- A transaction keeps what every state that its updater returns has.
  pub settle-IsSealedState :
      {A : Type 0} (s : State) (r : Result Exception (A × State))
      → IsSealedState s
      → ((a : A) (s' : State) → r ≡ ok (a, s') → IsSealedState s')
      → IsSealedState (settle s r).1
  settle-IsSealedState s (err e) h k = h
  settle-IsSealedState s (ok (a, s')) h k = k a s' refl

  redeem_found-IsSealedState :
      (q : ExchangeRequest) (s s' : State) (found : Option AuthorizationCode)
      (answer : Result OauthError (Session × String))
      → IsSealedState s
      → redeem_found service q s found ≡ ok (answer, s')
      → IsSealedState s'
  redeem_found-IsSealedState q s s' none answer h e =
      let same : s ≡ s' = ground arith in subst (λ x. IsSealedState x) same h
  redeem_found-IsSealedState q s s' (some r) answer h e = checked_case (check_code service q r) e
    where
      checked_case :
          (c : Result Exception (Result OauthError (Session × String)))
          → ◌>>=◌ {B = Result OauthError (Session × String) × State} c (λ checked.
            ok (checked, record s { authorization_codes = erase q.code s.authorization_codes }))
            ≡ ok (answer, s')
          → IsSealedState s'
      checked_case (err x) k = cc
      checked_case (ok checked) k =
          let same : record s { authorization_codes = erase q.code s.authorization_codes } ≡ s' =
            ground arith in
          subst (λ x. IsSealedState x) same
            (record {
              codes = AllValues-erase IsSealedCode q.code s.authorization_codes h.codes;
              access = h.access;
              refresh = h.refresh;
            })

  pub redeem-IsSealedState :
      (now : ℕ) (q : ExchangeRequest) (s : State)
      → IsSealedState s
      → IsSealedState (transaction (redeem_code service now q) s).1
  unfolding redeem_code
  redeem-IsSealedState now q s h =
      let s1 = prune_state service now s in
      settle-IsSealedState s (redeem_found service q s1 (lookup q.code s1.authorization_codes)) h
        (λ a s' e.
          redeem_found-IsSealedState q s1 s' (lookup q.code s1.authorization_codes) a
            (prune-IsSealedState now s h) e)

  exchanged-IsSealedState :
      (now : ℕ) (d : PairDraws) (client_id : String)
      (x : Result Exception (Result OauthError (Session × String)) × State)
      → IsSealedState x.1
      → IsSealedState (exchanged service now d client_id x).1
  exchanged-IsSealedState now d client_id (err e, s) h = h
  exchanged-IsSealedState now d client_id (ok (err o), s) h = h
  exchanged-IsSealedState now d client_id (ok (ok (session, scope)), s) h =
      create-IsSealedState now d session scope client_id s h

  pub exchange-IsSealedState :
      (n m : ℕ) (d : PairDraws) (q : ExchangeRequest) (s : State)
      → IsSealedState s
      → IsSealedState (exchange_authorization_code service n m d q s).1
  unfolding exchange_authorization_code
  exchange-IsSealedState n m d q s h =
      elim (Bool-cases (is_configured_client service.config q.client_id)) [
        | inr unknown ↦ rw unknown h
        | inl known ↦ rw known (
            exchanged-IsSealedState m d q.client_id (transaction (redeem_code service n q) s)
              (redeem-IsSealedState n q s h))
      ]
