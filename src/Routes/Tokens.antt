-- ===== src/Routes/Tokens.antt =====
-- The endpoints on tokens: `oauth_manual_callback`, `oauth_token`, `oauth_revoke` and
-- `oauth_userinfo` of src/resourcespace_platform/routes/oauth.py, `api_session` of routes/session.py
-- and `canva_user_uninstall` of routes/webhooks.py.
use resourcespace_authentica.Base.{
  ℕ, String, ◌<>◌, Option, none, some, not, ◌&&◌, ◌||◌, ◌==◌, if◌then◌else◌, truthy, truthy_text,
  get_or, lookup, Dict, Result, ok, err,
}
use resourcespace_authentica.Config.{is_dev_like}
use resourcespace_authentica.Errors.{Exception}
use resourcespace_authentica.State.{State, AccessToken, TokenResponse}
use resourcespace_authentica.Auth.{OauthError}
use resourcespace_authentica.Auth.Tokens.{
  PairDraws, RefreshDraws, exchange_authorization_code, refresh_access_token, read_access_token,
}
use resourcespace_authentica.Auth.Revocation.{
  SessionSummary, UserInfo, get_session_summary, read_user_info_from_access_token, revoke_token,
  revoke_tokens_for_user,
}
use resourcespace_authentica.RateLimiter.{Bucket, consume}
use resourcespace_authentica.TrustedProxy.{resolve_client_host}
use resourcespace_authentica.CanvaVerifier.{Signing, verify_canva_post_request}
use resourcespace_authentica.Pages.Gate.{read_bearer_token}
use resourcespace_authentica.Pages.Handlers.{Reply, rejected, success, crashed, limited}
use resourcespace_authentica.Routes.{
  OauthLibrary, ClientAddress, manual_authorize_defaults, manual_test_state, manual_test_verifier,
}

abbrev value_of : String → Dict String → String
value_of key values = get_or (lookup key values) ""

-- What the token endpoint draws, for either grant.
pub record TokenDraws : Type 0 where
  pub rate_now : ℕ
  pub redeem_now : ℕ
  pub create_now : ℕ
  pub pair : PairDraws
  pub refresh : RefreshDraws

-- An OAuth error is answered with 400 and its code.
abbrev pub token_reply : Result Exception (Result OauthError TokenResponse) → Reply TokenResponse
token_reply (err e) = crashed e
token_reply (ok (err e)) = rejected 400 e.error
token_reply (ok (ok response)) = success response

abbrev with_reply {ℓ κ} : {A : Type ℓ} {B : Type κ} → (A → Reply B) → A × State → State × Reply B
with_reply f (a, s) = (s, f a)

-- A token that a bearer header must carry.
abbrev with_bearer {ℓ} :
    {A : Type ℓ}
    → String
    → Option String
    → State
    → (String → State → State × Reply A)
    → State × Reply A
with_bearer code none s handle = (s, rejected 401 code)
with_bearer code (some token) s handle =
    if truthy token then handle token s else (s, rejected 401 code)

abbrev found_or_401 {ℓ} : {A : Type ℓ} → String → Result Exception (Option A) → Reply A
found_or_401 code (err e) = crashed e
found_or_401 code (ok none) = rejected 401 code
found_or_401 code (ok (some a)) = success a

abbrev summary_reply : Result Exception (Option AccessToken) → Reply SessionSummary
summary_reply (err e) = crashed e
summary_reply (ok none) = rejected 401 "SESSION_EXPIRED"
summary_reply (ok (some token_record)) = success (get_session_summary token_record.session)

-- What the webhook reads of its body: the two ids.
pub record UninstallBody : Type 0 where
  pub user_id : Option String
  pub tenant_id : Option String

-- The request of the webhook: its two headers, its path and its body, and what json.loads finds in
-- the body, `none` where it raises ValueError.
pub record UninstallRequest : Type 0 where
  pub signature_header : Option String
  pub timestamp : Option String
  pub path : String
  pub raw_body : String
  pub body : Option UninstallBody

module _ (library : OauthLibrary) where
  open library use {service}

  abbrev granted :
      TokenDraws → Dict String → State → Result Exception (Result OauthError TokenResponse) × State
  granted d body s =
      if value_of "grant_type" body == "authorization_code"
      then exchange_authorization_code service d.redeem_now d.create_now d.pair
          (record {
            client_id = value_of "client_id" body;
            redirect_uri = value_of "redirect_uri" body;
            code = value_of "code" body;
            code_verifier = lookup "code_verifier" body;
          })
          s
      else if value_of "grant_type" body == "refresh_token"
      then refresh_access_token service d.refresh (value_of "client_id" body)
          (value_of "refresh_token" body) s
      else (
        ok (
            err (record {
              error = "unsupported_grant_type";
              description = "Unsupported grant type.";
            })),
        s,
      )

  -- `oauth_token`
  unfoldable pub oauth_token :
      TokenDraws
      → ClientAddress
      → Dict String
      → Dict Bucket
      → State
      → (Dict Bucket × State) × Reply TokenResponse
  unfolding consume resolve_client_host exchange_authorization_code refresh_access_token lookup
  oauth_token d address body buckets s =
      limited
        (consume library.limiter d.rate_now
          ("oauth_token:"
            <> (resolve_client_host library.ip service.config address.peer address.header).host)
          buckets)
        s (λ s'. with_reply token_reply (granted d body s'))

  -- `oauth_revoke`: 200 whatever the token is
  unfoldable pub oauth_revoke : ℕ → ℕ → String → State → State
  unfolding revoke_token
  oauth_revoke prune_now now token s = (revoke_token service prune_now now token s).1

  -- `oauth_userinfo`
  unfoldable pub oauth_userinfo : ℕ → Option String → State → State × Reply UserInfo
  unfolding read_bearer_token read_user_info_from_access_token
  oauth_userinfo now header s = with_bearer "UNAUTHORIZED" (read_bearer_token header) s (λ token s'.
      with_reply (found_or_401 "UNAUTHORIZED")
        (read_user_info_from_access_token service now token s'))

  -- `api_session`
  unfoldable pub api_session : ℕ → Option String → State → State × Reply SessionSummary
  unfolding read_bearer_token read_access_token get_session_summary
  api_session now header s =
      with_bearer "MISSING_BEARER_TOKEN" (read_bearer_token header) s
        (λ token s'. with_reply summary_reply (read_access_token service now token s'))

  -- The answer of the manual flow: the tokens and the summary of their session.
  abbrev manual_summary :
      TokenResponse
      → Result Exception (Option AccessToken)
      → Reply (TokenResponse × Option SessionSummary)
  manual_summary response (err e) = crashed e
  manual_summary response (ok none) = success (response, none)
  manual_summary response (ok (some token_record)) =
      success (response, some (get_session_summary token_record.session))

  abbrev manual_tokens :
      ℕ
      → Result Exception (Result OauthError TokenResponse) × State
      → State × Reply (TokenResponse × Option SessionSummary)
  manual_tokens now (err e, s) = (s, crashed e)
  manual_tokens now (ok (err e), s) = (s, rejected 400 e.error)
  manual_tokens now (ok (ok response), s) =
      with_reply (manual_summary response) (read_access_token service now response.access_token s)

  -- `oauth_manual_callback`, of the code and the state of the query
  unfoldable pub oauth_manual_callback :
      TokenDraws
      → ℕ
      → Option String
      → Option String
      → State
      → State × Reply (TokenResponse × Option SessionSummary)
  unfolding is_dev_like manual_authorize_defaults exchange_authorization_code read_access_token
      lookup get_session_summary
  oauth_manual_callback d now code state_text s =
      if not (is_dev_like service.config.environment)
      then (s, rejected 404 "NOT_FOUND")
      else if not (truthy_text code) || not (get_or state_text "" == manual_test_state)
      then (s, rejected 400 "INVALID_REQUEST")
      else manual_tokens now (
          exchange_authorization_code service d.redeem_now d.create_now d.pair
            (record {
              client_id = service.config.oauth.client_id;
              redirect_uri = value_of "redirect_uri" (manual_authorize_defaults service);
              code = get_or code "";
              code_verifier = some manual_test_verifier;
            })
            s)

  abbrev uninstalled : ℕ → ℕ → Option UninstallBody → State → State × Reply (Unit {0})
  uninstalled prune_now now none s = (s, rejected 400 "INVALID_REQUEST")
  uninstalled prune_now now (some body) s = (
    if truthy_text body.user_id && truthy_text body.tenant_id
        then revoke_tokens_for_user service prune_now now (get_or body.user_id "")
            (get_or body.tenant_id "") s
        else s,
    success tt,
  )

  -- `canva_user_uninstall`
  unfoldable pub canva_user_uninstall :
      Signing → ℕ → ℕ → ℕ → UninstallRequest → State → State × Reply (Unit {0})
  unfolding revoke_tokens_for_user verify_canva_post_request
  canva_user_uninstall signing verify_now prune_now now q s =
      let verification =
        verify_canva_post_request signing service.config verify_now q.signature_header q.timestamp
          q.path q.raw_body in
      if not verification.is_ok || verification.skipped
      then (s, rejected 401 "INVALID_CANVA_SIGNATURE")
      else uninstalled prune_now now q.body s
