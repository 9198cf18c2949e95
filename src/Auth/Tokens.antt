-- ===== src/Auth/Tokens.antt =====
-- Access and refresh tokens: `_write_token_pair_to_state`, `_create_token_pair`,
-- `exchange_authorization_code`, `refresh_access_token`, `read_access_token`, `_open_session`.
pub mod Reading
pub mod Login
pub mod Refreshing
use resourcespace_authentica.Base.{
  ℕ, ◌+◌, ◌*◌, ◌-◌, String, Option, none, some, Bool, true, false, not, ◌&&◌, ◌==◌, leb, truthy,
  truthy_text, truthy_number, get_or, if◌then◌else◌, lookup, insert, Result, ok, err, ◌>>=◌,
}
use resourcespace_authentica.Config.{AppConfig}
use resourcespace_authentica.Session.{
  Session, seal_session, try_open_session_dict, stamp_broker_session_metadata,
  integration_for_client_id,
}
use resourcespace_authentica.Errors.{Exception}
use resourcespace_authentica.State.{State, AccessToken, RefreshToken, TokenResponse}
use resourcespace_authentica.JsonStore.{transaction}
use resourcespace_authentica.Auth.{
  AuthService, OauthError, is_configured_client, prune_state, uncaught, refresh_grace_ms,
}
use resourcespace_authentica.Auth.Codes.{ExchangeRequest, redeem_code, invalid_client, session_gone}

-- What one pair of tokens draws, in the order of use: the clock four times, two random tokens and
-- the two nonces of the sealing.
pub record PairDraws : Type 0 where
  pub access_token : String
  pub access_now : ℕ
  pub refresh_token : String
  pub key_nonce : ℕ
  pub email_nonce : ℕ
  pub created_now : ℕ
  pub refresh_created_now : ℕ
  pub refresh_now : ℕ

-- The session as it is stored with the tokens: stamped, then sealed.
abbrev pub stored_session : AuthService → PairDraws → Session → String → Session
stored_session service d session client_id =
    seal_session service.field_cipher d.key_nonce d.email_nonce (
      stamp_broker_session_metadata client_id (integration_for_client_id service.config client_id)
        session)

abbrev pub access_record : AuthService → PairDraws → Session → String → String → AccessToken
access_record service d session scope client_id = record {
  access_token = d.access_token;
  client_id = client_id;
  scope = scope;
  integration = integration_for_client_id service.config client_id;
  session = stored_session service d session client_id;
  expires_at = d.access_now + service.config.oauth.token_ttl_seconds * 1000;
  created_at = d.created_now;
  revoked_at = none;
}

abbrev pub refresh_record : AuthService → PairDraws → Session → String → String → RefreshToken
refresh_record service d session scope client_id = record {
  refresh_token = d.refresh_token;
  client_id = client_id;
  scope = scope;
  integration = integration_for_client_id service.config client_id;
  session = stored_session service d session client_id;
  created_at = d.refresh_created_now;
  expires_at = some (d.refresh_now + service.config.oauth.refresh_token_ttl_seconds * 1000);
  revoked_at = none;
  rotation_response = none;
}

abbrev pub token_response : AuthService → PairDraws → String → TokenResponse
token_response service d scope = record {
  access_token = d.access_token;
  token_type = "Bearer";
  expires_in = service.config.oauth.token_ttl_seconds;
  refresh_token = some d.refresh_token;
  scope = scope;
}

-- `_write_token_pair_to_state`, as every caller calls it: with rotation of the refresh token
unfoldable pub write_token_pair_to_state :
    AuthService → PairDraws → Session → String → String → State → TokenResponse × State
write_token_pair_to_state service d session scope client_id s = (
  token_response service d scope,
  record s {
    access_tokens =
        insert d.access_token (access_record service d session scope client_id) s.access_tokens;
    refresh_tokens =
        if truthy d.refresh_token
        then insert d.refresh_token (refresh_record service d session scope client_id)
            s.refresh_tokens
        else s.refresh_tokens;
  },
)

-- `_create_token_pair`
unfoldable pub create_token_pair :
    AuthService → ℕ → PairDraws → Session → String → String → State → TokenResponse × State
unfolding write_token_pair_to_state
create_token_pair service prune_now d session scope client_id s =
    write_token_pair_to_state service d session scope client_id (prune_state service prune_now s)

abbrev pub exchanged :
    AuthService
    → ℕ
    → PairDraws
    → String
    → Result Exception (Result OauthError (Session × String)) × State
    → Result Exception (Result OauthError TokenResponse) × State
exchanged service prune_now d client_id (err e, s) = (err e, s)
exchanged service prune_now d client_id (ok (err o), s) = (ok (err o), s)
exchanged service prune_now d client_id (ok (ok (session, scope)), s) =
    let (tokens, s') = create_token_pair service prune_now d session scope client_id s in
    (ok (ok tokens), s')

-- `exchange_authorization_code`: two transactions, each with a reading of the clock for its pruning
unfoldable pub exchange_authorization_code :
    AuthService
    → ℕ
    → ℕ
    → PairDraws
    → ExchangeRequest
    → State
    → Result Exception (Result OauthError TokenResponse) × State
exchange_authorization_code service redeem_now create_now d q s =
    if is_configured_client service.config q.client_id
    then exchanged service create_now d q.client_id
        (transaction (redeem_code service redeem_now q) s)
    else (ok (err invalid_client), s)

abbrev pub refresh_not_found : OauthError
refresh_not_found = record { error = "invalid_grant"; description = "Refresh token not found." }

-- `_stamp_token_record_metadata` on a refresh token, of a client that is configured
unfoldable pub stamp_refresh_token : AppConfig → RefreshToken → RefreshToken
stamp_refresh_token config r =
    let integration = integration_for_client_id config r.client_id in
    record r {
      integration = integration;
      session = stamp_broker_session_metadata r.client_id integration r.session;
    }

-- The same on an access token.
unfoldable pub stamp_access_token : AppConfig → AccessToken → AccessToken
stamp_access_token config r =
    let integration = integration_for_client_id config r.client_id in
    record r {
      integration = integration;
      session = stamp_broker_session_metadata r.client_id integration r.session;
    }

-- What one refresh draws: the clock at the pruning, at the test of the grace period and at the
-- revocation, and the new pair.
pub record RefreshDraws : Type 0 where
  pub prune_now : ℕ
  pub grace_now : ℕ
  pub revoke_now : ℕ
  pub pair : PairDraws

abbrev pub cached_answer : Option TokenResponse → Result OauthError TokenResponse
cached_answer none = err refresh_not_found
cached_answer (some tokens) =
    if truthy_text tokens.refresh_token then ok tokens else err refresh_not_found

-- A refresh token that is revoked: within the grace period the answer of the rotation again.
unfoldable pub replay_answer : AuthService → ℕ → RefreshToken → Result OauthError TokenResponse
replay_answer service now r =
    if leb (now - get_or r.revoked_at 0) (refresh_grace_ms service.config)
    then cached_answer r.rotation_response
    else err refresh_not_found

-- `record["rotationResponse"] = tokens`: the old record, unless the new token took its place.
abbrev pub cache_rotation :
    String → RefreshToken → TokenResponse × State → Result OauthError TokenResponse × State
cache_rotation token r (tokens, s) = (
  ok tokens,
  record s {
    refresh_tokens =
        if get_or tokens.refresh_token "" == token
        then s.refresh_tokens
        else insert token (record r { rotation_response = some tokens }) s.refresh_tokens;
  },
)

-- The rotation: the old token is revoked, a pair is made, and its answer is kept for replays.
unfoldable pub rotate :
    AuthService
    → RefreshDraws
    → String
    → String
    → RefreshToken
    → Session
    → State
    → Result OauthError TokenResponse × State
unfolding write_token_pair_to_state
rotate service d token client_id r session s =
    let revoked = record r { revoked_at = some d.revoke_now } in
    cache_rotation token revoked (
      write_token_pair_to_state service d.pair session r.scope client_id
        (record s { refresh_tokens = insert token revoked s.refresh_tokens }))

-- After the session was opened.
abbrev pub refresh_opened :
    AuthService
    → RefreshDraws
    → String
    → String
    → RefreshToken
    → State
    → Option Session
    → Result OauthError TokenResponse × State
refresh_opened service d token client_id r s none = (err session_gone, s)
refresh_opened service d token client_id r s (some session) =
    if truthy_number r.revoked_at
    then (replay_answer service d.grace_now r, s)
    else rotate service d token client_id r session s

-- A record of the client: it is stamped in place, then its session is opened.
unfoldable pub refresh_stamped :
    AuthService
    → RefreshDraws
    → String
    → String
    → RefreshToken
    → State
    → Result Exception (Result OauthError TokenResponse × State)
refresh_stamped service d token client_id r s = do
  opened ← uncaught (try_open_session_dict service.field_cipher r.session)
  ok (
      refresh_opened service d token client_id r
        (record s { refresh_tokens = insert token r s.refresh_tokens }) opened)

abbrev pub refresh_found :
    AuthService
    → RefreshDraws
    → String
    → String
    → State
    → Option RefreshToken
    → Result Exception (Result OauthError TokenResponse × State)
refresh_found service d token client_id s none = ok (err refresh_not_found, s)
refresh_found service d token client_id s (some r) =
    if not (r.client_id == client_id)
    then ok (err refresh_not_found, s)
    else if is_configured_client service.config r.client_id
    then refresh_stamped service d token client_id (stamp_refresh_token service.config r) s
    else ok (err invalid_client, s)

-- The updater of `refresh_access_token`.
unfoldable pub refresh_updater :
    AuthService
    → RefreshDraws
    → String
    → String
    → State
    → Result Exception (Result OauthError TokenResponse × State)
refresh_updater service d client_id token s =
    let s' = prune_state service d.prune_now s in
    refresh_found service d token client_id s' (lookup token s'.refresh_tokens)

-- `refresh_access_token`
unfoldable pub refresh_access_token :
    AuthService
    → RefreshDraws
    → String
    → String
    → State
    → Result Exception (Result OauthError TokenResponse) × State
unfolding refresh_updater
refresh_access_token service d client_id token s =
    if is_configured_client service.config client_id
    then transaction (refresh_updater service d client_id token) s
    else (ok (err invalid_client), s)

abbrev pub read_found :
    AuthService → String → State → Option AccessToken → Option AccessToken × State
read_found service token s none = (none, s)
read_found service token s (some r) =
    if is_configured_client service.config r.client_id
    then (let stamped = stamp_access_token service.config r in
        (some stamped, record s { access_tokens = insert token stamped s.access_tokens }))
    else (none, s)

abbrev with_session : AccessToken → Option Session → Option AccessToken
with_session r none = none
with_session r (some session) = some (record r { session = session })

-- `_open_session`
unfoldable pub open_session : AuthService → AccessToken → Result Exception (Option AccessToken)
open_session service r = do
  opened ← uncaught (try_open_session_dict service.field_cipher r.session)
  ok (with_session r opened)

abbrev pub opened_record : AuthService → Option AccessToken → Result Exception (Option AccessToken)
opened_record service none = ok none
opened_record service (some r) = open_session service r

-- `read_access_token`
unfoldable pub read_access_token :
    AuthService → ℕ → String → State → Result Exception (Option AccessToken) × State
unfolding open_session
read_access_token service prune_now token s =
    let s' = prune_state service prune_now s in
    let (found, s'') = read_found service token s' (lookup token s'.access_tokens) in
    (opened_record service found, s'')
