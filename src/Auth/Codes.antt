-- ===== src/Auth/Codes.antt =====
-- Authorization codes: minting (`_mint_authorization_code`, `begin_authorization`,
-- `begin_authorization_from_session`) and redeeming (`exchange_authorization_code` up to the tokens).
pub mod Redeeming
pub mod Conditions
use resourcespace_authentica.Base.{
  ℕ, ◌+◌, ◌*◌, String, Option, none, some, Bool, not, ◌||◌, ◌==◌, truthy, truthy_text, get_or,
  if◌then◌else◌, lookup, insert, erase, Result, ok, err, ◌>>=◌,
}
use resourcespace_authentica.Session.{
  Session, seal_session, try_open_session_dict, stamp_broker_session_metadata,
  integration_for_client_id,
}
use resourcespace_authentica.Errors.{Exception}
use resourcespace_authentica.State.{State, AuthorizationCode}
use resourcespace_authentica.Auth.{AuthService, OauthError, sha256_b64url, prune_state, uncaught}

-- What one minting draws: the clock at the pruning and at the expiry, the two nonces of the
-- sealing, and the random token.
pub record MintDraws : Type 0 where
  pub prune_now : ℕ
  pub expiry_now : ℕ
  pub key_nonce : ℕ
  pub email_nonce : ℕ
  pub code : String

-- The arguments that are stored with a code.
pub record CodeRequest : Type 0 where
  pub client_id : String
  pub redirect_uri : String
  pub scope : String
  pub code_challenge : Option String
  pub code_challenge_method : Option String

abbrev or_s256 : Option String → String
or_s256 method = if truthy_text method then get_or method "" else "S256"

abbrev pub code_record : AuthService → MintDraws → CodeRequest → Session → AuthorizationCode
code_record service d request session = record {
  code = d.code;
  client_id = request.client_id;
  redirect_uri = request.redirect_uri;
  scope = request.scope;
  code_challenge = request.code_challenge;
  code_challenge_method = or_s256 request.code_challenge_method;
  session = seal_session service.field_cipher d.key_nonce d.email_nonce session;
  expires_at = d.expiry_now + service.config.oauth.auth_code_ttl_seconds * 1000;
}

-- `_mint_authorization_code`
unfoldable pub mint_authorization_code :
    AuthService → MintDraws → CodeRequest → Session → State → String × State
mint_authorization_code service d request session s =
    let s' = prune_state service d.prune_now s in
    (
      d.code,
      record s' {
        authorization_codes =
            insert d.code (code_record service d request session) s'.authorization_codes;
      },
    )

-- `begin_authorization_from_session`
unfoldable pub begin_authorization_from_session :
    AuthService → MintDraws → CodeRequest → Session → State → String × State
unfolding mint_authorization_code
begin_authorization_from_session service d request session s =
    let integration = integration_for_client_id service.config request.client_id in
    mint_authorization_code service d request
      (stamp_broker_session_metadata request.client_id integration session) s

abbrev pub minted_with :
    AuthService
    → MintDraws
    → CodeRequest
    → Result Exception Session
    → State
    → Result Exception String × State
minted_with service d request (err e) s = (err e, s)
minted_with service d request (ok session) s =
    let (code, s') = begin_authorization_from_session service d request session s in (ok code, s')

-- `begin_authorization`: `authenticate` is the ResourceSpace service's answer to the credentials,
-- given the client's integration.
unfoldable pub begin_authorization :
    AuthService
    → MintDraws
    → (Option String → Result Exception Session)
    → CodeRequest
    → State
    → Result Exception String × State
unfolding begin_authorization_from_session
begin_authorization service d authenticate request s =
    minted_with service d request
      (authenticate (integration_for_client_id service.config request.client_id)) s

abbrev pub invalid_client : OauthError
invalid_client = record { error = "invalid_client"; description = "Unknown OAuth client_id." }

abbrev pub code_not_found : OauthError
code_not_found = record { error = "invalid_grant"; description = "Authorization code not found." }

abbrev pub binding_mismatch : OauthError
binding_mismatch = record { error = "invalid_grant"; description = "Client binding mismatch." }

abbrev pub verifier_required : OauthError
verifier_required = record {
  error = "invalid_request";
  description = "PKCE code verifier is required.";
}

abbrev pub method_unsupported : OauthError
method_unsupported = record {
  error = "invalid_request";
  description = "Only S256 PKCE is supported.";
}

abbrev pub pkce_failed : OauthError
pkce_failed = record { error = "invalid_grant"; description = "PKCE verification failed." }

abbrev pub session_gone : OauthError
session_gone = record {
  error = "invalid_grant";
  description = "Session no longer valid; please sign in again.";
}

-- The arguments of `exchange_authorization_code`.
pub record ExchangeRequest : Type 0 where
  pub client_id : String
  pub redirect_uri : String
  pub code : String
  pub code_verifier : Option String

abbrev pub opened_code : AuthorizationCode → Option Session → Result OauthError (Session × String)
opened_code r none = err session_gone
opened_code r (some session) = ok (session, r.scope)

-- The checks of a code that was found, in their order.
unfoldable pub check_code :
    AuthService
    → ExchangeRequest
    → AuthorizationCode
    → Result Exception (Result OauthError (Session × String))
check_code service q r =
    if not (r.client_id == q.client_id) || not (r.redirect_uri == q.redirect_uri)
    then ok (err binding_mismatch)
    else if not (truthy_text r.code_challenge) || not (truthy_text q.code_verifier)
    then ok (err verifier_required)
    else if not
        ((if truthy r.code_challenge_method then r.code_challenge_method else "S256") == "S256")
    then ok (err method_unsupported)
    else if not (sha256_b64url service (get_or q.code_verifier "") == get_or r.code_challenge "")
    then ok (err pkce_failed)
    else do
      opened ← uncaught (try_open_session_dict service.field_cipher r.session)
      ok (opened_code r opened)

-- The code is deleted before it is checked.
abbrev pub redeem_found :
    AuthService
    → ExchangeRequest
    → State
    → Option AuthorizationCode
    → Result Exception (Result OauthError (Session × String) × State)
redeem_found service q s none = ok (err code_not_found, s)
redeem_found service q s (some r) = do
  checked ← check_code service q r
  ok (checked, record s { authorization_codes = erase q.code s.authorization_codes })

-- The updater of `exchange_authorization_code`.
unfoldable pub redeem_code :
    AuthService
    → ℕ
    → ExchangeRequest
    → State
    → Result Exception (Result OauthError (Session × String) × State)
redeem_code service prune_now q s =
    let s' = prune_state service prune_now s in
    redeem_found service q s' (lookup q.code s'.authorization_codes)
