-- ===== src/Routes/Callback.antt =====
-- The end of the hosted login: `oauth_sso_callback` and `_sso_json` of
-- src/resourcespace_platform/routes/oauth.py, and `authenticate_with_session_key` of
-- services/resourcespace/service.py. A body is its reason and redirectUrl.
use resourcespace_authentica.Base.{
  ℕ, String, ◌<>◌, Option, not, ◌||◌, ◌==◌, same_code, if◌then◌else◌, truthy, strip, Dict, [], ◌∷◌,
  Result, ok, err,
}
use resourcespace_authentica.Errors.{
  ResourceSpaceError, Exception, resource_space, unreachable, unexpected, rs_error, map_error,
}
use resourcespace_authentica.Config.{AppConfig}
use resourcespace_authentica.State.{State, PendingSsoState}
use resourcespace_authentica.Session.{Session, Tenant, integration_for_client_id}
use resourcespace_authentica.Auth.Sso.{
  CompletionDraws, Classified, invalid, expired, replayed, active, Completion, refused, valid,
  inspect_pending_sso_state, complete_sso_authorization,
}
use resourcespace_authentica.RateLimiter.{Bucket, RateLimitResult, allowed, denied, consume}
use resourcespace_authentica.TrustedProxy.{resolve_client_host}
use resourcespace_authentica.Api.{ApiLibrary}
use resourcespace_authentica.Api.Values.{JsonLibrary}
use resourcespace_authentica.Live.{validate_live_sessionkey}
use resourcespace_authentica.Pages.Messages.{retry_after}
use resourcespace_authentica.Routes.{OauthLibrary, ClientAddress}

abbrev handoff_failed : String → Exception
handoff_failed message = resource_space (rs_error "SSO_HANDOFF_FAILED" message 400)

-- `authenticate_with_session_key`; `fixture_sso` answers in fixture mode.
unfoldable pub authenticate_with_session_key :
    ApiLibrary
    → JsonLibrary
    → AppConfig
    → (Tenant → String → String → Result Exception Session)
    → String
    → Tenant
    → String
    → String
    → Option String
    → Result Exception Session
unfolding validate_live_sessionkey strip
authenticate_with_session_key api json config fixture_sso now tenant session_key username
      integration =
    if not (truthy (strip username))
    then err (handoff_failed "ResourceSpace callback did not provide a username.")
    else if not (truthy (strip session_key))
    then err (handoff_failed "ResourceSpace callback did not provide a session key.")
    else if config.resource_space.mode == "fixture"
    then fixture_sso tenant session_key username
    else validate_live_sessionkey api json tenant session_key username integration now

-- The fields of the form.
pub record CallbackForm : Type 0 where
  pub handoff_state : String
  pub session_key : String
  pub username : String

pub record CallbackDraws : Type 0 where
  pub rate_now : ℕ
  pub inspect_now : ℕ
  pub completion : CompletionDraws

-- The answers: 404 and 429 as JSON errors, `_sso_json` with its status and reason or redirectUrl,
-- and an exception that nothing catches.
pub data CallbackReply : Type 0 where
  not_found : CallbackReply
  rate_limited : ℕ → CallbackReply
  sso_failed : ℕ → String → CallbackReply
  completed : String → CallbackReply
  crashed : Exception → CallbackReply

abbrev pub refusal : Classified → CallbackReply
refusal invalid = sso_failed 400 "sso_state_invalid"
refusal (expired pending) = sso_failed 400 "sso_state_expired"
refusal (replayed pending) = sso_failed 400 "sso_state_replay"
refusal (active pending) = sso_failed 400 "sso_state_invalid"

-- A completion that is not valid has a replay or no valid state.
abbrev pub completion_refusal : Classified → CallbackReply
completion_refusal (replayed pending) = sso_failed 400 "sso_state_replay"
completion_refusal other = sso_failed 400 "sso_state_invalid"

-- 401 for an invalid session key, 502 for what is upstream.
abbrev pub validation_status : ResourceSpaceError → ℕ
validation_status e =
    if same_code e.status_code 400 || same_code e.status_code 401 || same_code e.status_code 403
    then 401
    else 502

-- `authenticate` is authenticate_with_session_key of a tenant, a session key, a user and an
-- integration.
module _ (library : OauthLibrary)
    (authenticate : Tenant → String → String → Option String → Result Exception Session) where
  open library use {service}

  abbrev completed_reply : PendingSsoState → Completion × State → State × CallbackReply
  completed_reply pending (refused status, s) = (s, completion_refusal status)
  completed_reply pending (valid code used, s) = (
    s,
    completed (
        library.append_query pending.redirect_uri
          (("code", code) ∷ ("state", pending.canva_state) ∷ [])),
  )

  -- Only a ResourceSpaceError is caught.
  abbrev validated :
      CallbackDraws
      → String
      → PendingSsoState
      → Result Exception Session
      → State
      → State × CallbackReply
  validated d handoff_state pending (ok session) s =
      completed_reply pending
        (complete_sso_authorization service d.completion handoff_state session s)
  validated d handoff_state pending (err (resource_space e)) s =
      (s, sso_failed (validation_status e) "resourcespace_token_validation_failed")
  validated d handoff_state pending (err unreachable) s = (s, crashed unreachable)
  validated d handoff_state pending (err unexpected) s = (s, crashed unexpected)

  abbrev inspected : CallbackDraws → CallbackForm → Classified → State → State × CallbackReply
  inspected d form (active pending) s =
      if not (truthy form.username)
      then (s, sso_failed 400 "sso_handoff_failed")
      else if not (truthy form.session_key)
      then (s, sso_failed 401 "resourcespace_token_validation_failed")
      else validated d form.handoff_state pending
          (authenticate pending.tenant form.session_key form.username
            (integration_for_client_id service.config pending.client_id))
          s
  inspected d form other s = (s, refusal other)

  abbrev called_back :
      CallbackDraws
      → CallbackForm
      → RateLimitResult × Dict Bucket
      → State
      → (Dict Bucket × State) × CallbackReply
  called_back d form (denied ms, buckets) s = ((buckets, s), rate_limited (retry_after ms))
  called_back d form (allowed, buckets) s =
      let (s', reply) =
        if not (truthy form.handoff_state)
        then (s, sso_failed 400 "sso_state_invalid")
        else inspected d form (inspect_pending_sso_state d.inspect_now form.handoff_state s) s in
      ((buckets, s'), reply)

  -- `oauth_sso_callback`
  unfoldable pub oauth_sso_callback :
      CallbackDraws
      → ClientAddress
      → CallbackForm
      → Dict Bucket
      → State
      → (Dict Bucket × State) × CallbackReply
  unfolding consume resolve_client_host inspect_pending_sso_state complete_sso_authorization
      integration_for_client_id map_error
  oauth_sso_callback d address form buckets s =
      if not service.config.resource_space.sso_enabled
      then ((buckets, s), not_found)
      else called_back d form
          (consume library.limiter d.rate_now
            ("oauth_sso_callback:"
              <> (resolve_client_host library.ip service.config address.peer address.header).host)
            buckets)
          s
