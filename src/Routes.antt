-- ===== src/Routes.antt =====
-- Signing in: `_is_valid_s256_code_challenge`, `_manual_authorize_defaults`,
-- `_should_use_manual_test_mode`, `_is_oauth_client_allowed`, `_is_redirect_uri_allowed`,
-- `oauth_authorize_post` and `_begin_sso_authorize` of
-- src/resourcespace_platform/routes/oauth.py. A page is its status and error code. base64,
-- urllib.parse and the authentication of a password are parameters.
pub mod Authorize
pub mod Accepting
pub mod Callback
pub mod Tokens
use Prim.Native.Char.{code}
use Prim.Native.String
use resourcespace_authentica.Base.{
  ℕ, zero, suc, String, ◌<>◌, Option, none, some, Bool, true, false, not, ◌&&◌, ◌||◌, ◌==◌, leb,
  ltb, same_code, if◌then◌else◌, truthy, truthy_text, get_or, is_present, contains, lookup, insert,
  Dict, length, List, [], ◌∷◌, text_length, strip, rstrip_class, lower_is, remove_prefix, Result,
  ok, err,
}
use resourcespace_authentica.Config.{AppConfig, OauthClientConfig, is_dev_like}
use resourcespace_authentica.Errors.{
  ResourceSpaceError, Exception, resource_space, unreachable, unexpected, map_error,
}
use resourcespace_authentica.State.{State}
use resourcespace_authentica.Session.{Session, Tenant}
use resourcespace_authentica.JsonStore.{transaction}
use resourcespace_authentica.Auth.{AuthService, sha256_b64url, is_configured_client}
use resourcespace_authentica.Auth.Codes.{MintDraws, CodeRequest, begin_authorization}
use resourcespace_authentica.Auth.Sso.{SsoDraws, SsoRequest, begin_sso_authorization}
use resourcespace_authentica.RateLimiter.{
  RateLimiter, Bucket, RateLimitResult, allowed, denied, consume,
}
use resourcespace_authentica.TrustedProxy.{IpLibrary, resolve_client_host}
use resourcespace_authentica.Hosts.Resolve.{has_entries}
use resourcespace_authentica.Hosts.{lowered}
use resourcespace_authentica.Tenants.{get_configured_tenant}
use resourcespace_authentica.Tenants.Identities.{ParsedUrl, TenantLibrary}
use resourcespace_authentica.Pages.Messages.{retry_after}

-- `append_query` adds parameters to the query of a URL, `urlencode` writes them; `b64decode` is
-- base64.urlsafe_b64decode, `none` where it raises, and `b64encode` urlsafe_b64encode without the
-- padding; `authenticate` is the service's, of a tenant URL, a user, a password and an integration.
pub record OauthLibrary : Type 1 where
  pub service : AuthService
  pub limiter : RateLimiter
  pub ip : IpLibrary
  pub tenants : TenantLibrary
  pub authenticate : Option String → String → String → Option String → Result Exception Session
  pub append_query : String → List (String × String) → String
  pub urlencode : List (String × String) → String
  pub b64decode : String → Option (List ℕ)
  pub b64encode : List ℕ → String

-- The peer and the value of the configured header, as resolve_client_host reads them.
pub record ClientAddress : Type 0 where
  pub peer : String
  pub header : String

pub record AuthorizeDraws : Type 0 where
  pub rate_now : ℕ
  pub mint : MintDraws
  pub sso : SsoDraws
  pub correlation_id : String

-- The answers: 429 with Retry-After, a JSON error, the authorize page with an error, a redirect, and
-- an exception that nothing catches.
pub data OauthReply : Type 0 where
  rate_limited : ℕ → OauthReply
  json_error : ℕ → String → OauthReply
  page : ℕ → String → OauthReply
  redirected : String → OauthReply
  crashed : Exception → OauthReply

abbrev is_challenge_code : ℕ → Bool
is_challenge_code c =
    (leb b'A' c && leb c b'Z')
    || (leb b'a' c && leb c b'z')
    || (leb b'0' c && leb c b'9')
    || same_code c b'_'
    || same_code c b'-'

unfoldable pub all_challenge_codes : String → Bool
all_challenge_codes String.[] = true
all_challenge_codes (String.◌∷◌ c s) = is_challenge_code (code c) && all_challenge_codes s

abbrev is_canonical : OauthLibrary → String → Option (List ℕ) → Bool
is_canonical library challenge none = false
is_canonical library challenge (some digest) =
    same_code (length digest) 32 && library.b64encode digest == challenge

-- `_is_valid_s256_code_challenge`: 43 characters want one "=" of padding.
unfoldable pub is_valid_s256_code_challenge : OauthLibrary → String → Bool
unfolding all_challenge_codes text_length
is_valid_s256_code_challenge library challenge =
    same_code (text_length challenge) 43
    && all_challenge_codes challenge
    && is_canonical library challenge (library.b64decode (challenge <> "="))

abbrev pub manual_test_state : String
manual_test_state = "manual-fixture-auth"

abbrev pub manual_test_verifier : String
manual_test_verifier = "manual-test-verifier-123456789"

-- `_manual_authorize_defaults`
unfoldable pub manual_authorize_defaults : AuthService → Dict String
unfolding sha256_b64url rstrip_class
manual_authorize_defaults service =
    ("client_id", service.config.oauth.client_id)
    ∷ (
      "redirect_uri",
      rstrip_class (λ c. same_code c b'/') service.config.base_url <> "/oauth/manual/callback",
    )
    ∷ ("response_type", "code")
    ∷ ("state", manual_test_state)
    ∷ ("scope", "openid dam:read")
    ∷ ("code_challenge", sha256_b64url service manual_test_verifier)
    ∷ ("code_challenge_method", "S256")
    ∷ []

abbrev value_of : String → Dict String → String
value_of key values = get_or (lookup key values) ""

-- `_should_use_manual_test_mode`
unfoldable pub should_use_manual_test_mode : AppConfig → Dict String → Bool
unfolding is_dev_like lookup
should_use_manual_test_mode config values =
    is_dev_like config.environment
    && not (
        truthy (value_of "client_id" values)
        || truthy (value_of "redirect_uri" values)
        || truthy (value_of "response_type" values)
        || truthy (value_of "state" values))

-- `body.setdefault(key, value)` for each default
unfoldable pub set_defaults : Dict String → Dict String → Dict String
unfolding lookup insert
set_defaults [] body = body
set_defaults ((key, value) ∷ defaults) body =
    set_defaults defaults (if is_present (lookup key body) then body else insert key value body)

abbrev uri_listed : AppConfig → String → List String → Bool
uri_listed config redirect_uri allowlist =
    if has_entries allowlist
    then contains redirect_uri allowlist
    else is_dev_like config.environment

abbrev uri_of_client : AppConfig → String → Option OauthClientConfig → Bool
uri_of_client config redirect_uri none = false
uri_of_client config redirect_uri (some client) =
    uri_listed config redirect_uri client.redirect_uri_allowlist

-- `_is_redirect_uri_allowed`
unfoldable pub is_redirect_uri_allowed : AppConfig → String → String → Bool
unfolding is_dev_like lookup
is_redirect_uri_allowed config client_id redirect_uri =
    uri_of_client config redirect_uri (lookup client_id config.oauth.clients)

-- The parameters that the handler reads of its body.
pub record OauthParameters : Type 0 where
  pub client_id : String
  pub redirect_uri : String
  pub response_type : String
  pub canva_state : String
  pub scope : String
  pub code_challenge : String
  pub code_challenge_method : String
  pub auth_method : String
  pub tenant_url : Option String
  pub username : String
  pub password : String

abbrev or_default : String → String → String
or_default value other = if truthy value then value else other

unfoldable pub parameters_of : Dict String → OauthParameters
unfolding lookup
parameters_of body = record {
  client_id = value_of "client_id" body;
  redirect_uri = value_of "redirect_uri" body;
  response_type = value_of "response_type" body;
  canva_state = value_of "state" body;
  scope = or_default (value_of "scope" body) "openid dam:read";
  code_challenge = value_of "code_challenge" body;
  code_challenge_method = or_default (value_of "code_challenge_method" body) "S256";
  auth_method = or_default (value_of "auth_method" body) "password";
  tenant_url = lookup "tenant_url" body;
  username = value_of "username" body;
  password = value_of "password" body;
}

-- The first check that the parameters fail, if any: the code of its error.
unfoldable pub refusal_of : OauthLibrary → OauthParameters → Option String
unfolding is_valid_s256_code_challenge is_redirect_uri_allowed is_configured_client text_length
refusal_of library q =
    let config = library.service.config in
    if not (q.response_type == "code")
      || not (truthy q.client_id)
      || not (truthy q.redirect_uri)
      || not (truthy q.canva_state)
    then some "INVALID_REQUEST"
    else if not (is_configured_client config q.client_id)
    then some "INVALID_CLIENT"
    else if not (is_redirect_uri_allowed config q.client_id q.redirect_uri)
    then some "INVALID_REDIRECT_URI"
    else if not (q.code_challenge_method == "S256")
    then some "INVALID_REQUEST"
    else if ltb 512 (text_length q.canva_state)
        || ltb 256 (text_length q.scope)
        || ltb 128 (text_length q.code_challenge)
        || ltb 2048 (text_length (get_or q.tenant_url ""))
    then some "INVALID_REQUEST"
    else if not (truthy q.code_challenge)
        || not (is_valid_s256_code_challenge library q.code_challenge)
    then some "INVALID_REQUEST"
    else none
