-- ===== src/Routes/Authorize.antt =====
-- The handlers `oauth_authorize_post` and `_begin_sso_authorize` of
-- src/resourcespace_platform/routes/oauth.py.
use resourcespace_authentica.Base.{
  zero, suc, String, ◌<>◌, Option, none, some, not, same_code, if◌then◌else◌, get_or, is_present,
  Dict, [], ◌∷◌, strip, rstrip_class, lower_is, remove_prefix, Result, ok, err,
}
use resourcespace_authentica.Errors.{
  ResourceSpaceError, Exception, resource_space, unreachable, unexpected, map_error,
}
use resourcespace_authentica.State.{State}
use resourcespace_authentica.Session.{Tenant}
use resourcespace_authentica.JsonStore.{transaction}
use resourcespace_authentica.Auth.Codes.{CodeRequest, begin_authorization}
use resourcespace_authentica.Auth.Sso.{SsoRequest, begin_sso_authorization}
use resourcespace_authentica.RateLimiter.{Bucket, RateLimitResult, allowed, denied, consume}
use resourcespace_authentica.TrustedProxy.{resolve_client_host}
use resourcespace_authentica.Hosts.{lowered}
use resourcespace_authentica.Tenants.{get_configured_tenant}
use resourcespace_authentica.Tenants.Identities.{ParsedUrl}
use resourcespace_authentica.Pages.Messages.{retry_after}
use resourcespace_authentica.Routes.{
  OauthLibrary, ClientAddress, AuthorizeDraws, OauthReply, rate_limited, json_error, page,
  redirected, crashed, OauthParameters, should_use_manual_test_mode, set_defaults,
  manual_authorize_defaults, parameters_of, refusal_of,
}

module _ (library : OauthLibrary) where
  open library use {service}

  -- `mapped.status_code or 400`, on the authorize page
  abbrev error_page : ResourceSpaceError → OauthReply
  error_page e = page (elim e.status_code [ zero ↦ 400 | suc n ↦ suc n ]) e.code

  abbrev client_host : ClientAddress → String
  client_host address =
      (resolve_client_host library.ip service.config address.peer address.header).host

  abbrev sso_request : AuthorizeDraws → ClientAddress → OauthParameters → Tenant → SsoRequest
  sso_request d address q tenant = record {
    client_id = q.client_id;
    redirect_uri = q.redirect_uri;
    scope = q.scope;
    code_challenge = some q.code_challenge;
    code_challenge_method = some q.code_challenge_method;
    canva_state = q.canva_state;
    tenant = tenant;
    correlation_id = d.correlation_id;
    initiator_key = "oauth_sso_init:" <> client_host address;
  }

  -- Only a ResourceSpaceError is caught.
  abbrev handoff_reply : Tenant → Result Exception String → OauthReply
  handoff_reply tenant (ok handoff_state) = redirected (
      rstrip_class (λ c. same_code c b'/') tenant.base_url
      <> "/pages/user/user_api_session.php?"
      <> library.urlencode (
          ("system", service.config.resource_space.sso_system_key) ∷ ("state", handoff_state) ∷ []))
  handoff_reply tenant (err (resource_space e)) = json_error e.status_code e.code
  handoff_reply tenant (err unreachable) = crashed unreachable
  handoff_reply tenant (err unexpected) = crashed unexpected

  abbrev pub handoff_to :
      AuthorizeDraws
      → ClientAddress
      → OauthParameters
      → Result Exception Tenant
      → State
      → State × OauthReply
  handoff_to d address q (err e) s = (s, error_page (map_error e))
  handoff_to d address q (ok tenant) s =
      if is_present (remove_prefix "https://" (lowered library.tenants.hosts tenant.base_url))
      then (let (r, s') =
            transaction (begin_sso_authorization service d.sso (sso_request d address q tenant))
              s in
          (s', handoff_reply tenant r))
      else (s, page 400 "TENANT_NOT_HTTPS")

  abbrev pub handoff_from :
      AuthorizeDraws
      → ClientAddress
      → OauthParameters
      → String
      → Option ParsedUrl
      → State
      → State × OauthReply
  handoff_from d address q url none s = (s, crashed unexpected)
  handoff_from d address q url (some parsed) s =
      if lower_is parsed.scheme "http"
      then (s, page 400 "TENANT_NOT_HTTPS")
      else handoff_to d address q (get_configured_tenant library.tenants service.config (some url))
          s

  -- `_begin_sso_authorize`
  unfoldable pub begin_sso_authorize :
      AuthorizeDraws → ClientAddress → OauthParameters → State → State × OauthReply
  unfolding get_configured_tenant begin_sso_authorization resolve_client_host strip rstrip_class
      remove_prefix lower_is map_error
  begin_sso_authorize d address q s =
      if not service.config.resource_space.sso_enabled
      then (s, page 400 "SSO_DISABLED")
      else (let url = strip (get_or q.tenant_url "") in
          handoff_from d address q url (library.tenants.urlparse url) s)

  abbrev code_request : OauthParameters → CodeRequest
  code_request q = record {
    client_id = q.client_id;
    redirect_uri = q.redirect_uri;
    scope = q.scope;
    code_challenge = some q.code_challenge;
    code_challenge_method = some q.code_challenge_method;
  }

  abbrev login_reply : OauthParameters → Result Exception String → OauthReply
  login_reply q (ok code) =
      redirected
        (library.append_query q.redirect_uri (("code", code) ∷ ("state", q.canva_state) ∷ []))
  login_reply q (err e) = error_page (map_error e)

  abbrev pub password_login : AuthorizeDraws → OauthParameters → State → State × OauthReply
  password_login d q s =
      let (r, s') =
        begin_authorization service d.mint (library.authenticate q.tenant_url q.username q.password)
          (code_request q) s in
      (s', login_reply q r)

  -- After the checks of the parameters.
  abbrev pub accepted :
      AuthorizeDraws → ClientAddress → OauthParameters → State → State × OauthReply
  accepted d address q s =
      if lower_is (strip q.auth_method) "sso"
      then begin_sso_authorize d address q s
      else password_login d q s

  abbrev pub checked :
      AuthorizeDraws → ClientAddress → OauthParameters → Option String → State → State × OauthReply
  checked d address q (some code) s = (s, json_error 400 code)
  checked d address q none s = accepted d address q s

  -- The parameters, with the defaults of the manual test where they apply.
  abbrev pub effective : Dict String → OauthParameters
  effective body = parameters_of (
      if should_use_manual_test_mode service.config body
      then set_defaults (manual_authorize_defaults service) body
      else body)

  abbrev pub authorize_allowed :
      AuthorizeDraws
      → ClientAddress
      → Dict String
      → RateLimitResult × Dict Bucket
      → State
      → (Dict Bucket × State) × OauthReply
  authorize_allowed d address body (denied ms, buckets) s =
      ((buckets, s), rate_limited (retry_after ms))
  authorize_allowed d address body (allowed, buckets) s =
      let q = effective body in
      let (s', reply) = checked d address q (refusal_of library q) s in ((buckets, s'), reply)

  -- `oauth_authorize_post`
  unfoldable pub oauth_authorize_post :
      AuthorizeDraws
      → ClientAddress
      → Dict String
      → Dict Bucket
      → State
      → (Dict Bucket × State) × OauthReply
  unfolding consume resolve_client_host should_use_manual_test_mode set_defaults
      manual_authorize_defaults parameters_of refusal_of begin_sso_authorize begin_authorization
      strip lower_is map_error
  oauth_authorize_post d address body buckets s =
      authorize_allowed d address body
        (consume library.limiter d.rate_now ("oauth_authorize:" <> client_host address) buckets) s
