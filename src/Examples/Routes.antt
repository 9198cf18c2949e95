-- ===== src/Examples/Routes.antt =====
-- The theorem on the authorize endpoint at one request.
use resourcespace_authentica.Base.{
  String, ◌<>◌, ◌==◌, ◌≡◌, refl, some, none, false, ok, inr, [], ◌∷◌, Dict, lookup, insert, strip,
  rstrip_class, lstrip_class, is_space, lower_is, text_length,
}
use resourcespace_authentica.Config.{is_dev_like}
use resourcespace_authentica.Auth.{is_configured_client}
use resourcespace_authentica.Auth.Codes.{begin_authorization}
use resourcespace_authentica.State.{initial_state}
use resourcespace_authentica.RateLimiter.{allowed, consume, sweep}
use resourcespace_authentica.TrustedProxy.{IpLibrary, resolve_client_host}
use resourcespace_authentica.Routes.{
  OauthLibrary, ClientAddress, AuthorizeDraws, should_use_manual_test_mode, set_defaults,
  manual_authorize_defaults, parameters_of, refusal_of, is_valid_s256_code_challenge,
  all_challenge_codes, is_redirect_uri_allowed,
}
use resourcespace_authentica.Routes.Authorize.{effective, oauth_authorize_post}
use resourcespace_authentica.Routes.Accepting.{IsAcceptable, oauth_authorize_post-IsAcceptable}
use resourcespace_authentica.Examples.{demo, demo_session, mint_draws}
use resourcespace_authentica.Examples.Tenants.{tenants}

abbrev challenge : String
challenge = "E9Melhoa2OwvFrEMTJguCHaoeK1t8URWbuGJSstw-cM"

abbrev texts_as_addresses : IpLibrary
texts_as_addresses = record {
  Address = String;
  Network = String;
  ip_address = λ text. some text;
  ip_network = λ text. none;
  same_address = λ a b. a == b;
  in_network = λ a n. false;
}

-- The only digest has 32 bytes.
abbrev oauth : OauthLibrary
oauth = record {
  service = demo;
  limiter = record { max_requests = 2; window_ms = 1000 };
  ip = texts_as_addresses;
  tenants = tenants;
  authenticate = λ tenant username password integration. ok demo_session;
  append_query = λ url parameters. url;
  urlencode = λ parameters. "";
  b64decode = λ text. some (
      0 ∷ 0 ∷ 0 ∷ 0 ∷ 0 ∷ 0 ∷ 0 ∷ 0 ∷ 0 ∷ 0 ∷ 0 ∷ 0 ∷ 0 ∷ 0 ∷ 0 ∷ 0 ∷ 0 ∷ 0 ∷ 0 ∷ 0 ∷ 0 ∷ 0 ∷ 0 ∷ 0
      ∷ 0 ∷ 0 ∷ 0 ∷ 0 ∷ 0 ∷ 0 ∷ 0 ∷ 0 ∷ []);
  b64encode = λ digest. challenge;
}

abbrev authorize_form : Dict String
authorize_form =
    ("client_id", "canva")
    ∷ ("redirect_uri", "https://www.canva.com/apps/oauth/authorized")
    ∷ ("response_type", "code")
    ∷ ("state", "xyz")
    ∷ ("code_challenge", challenge)
    ∷ ("username", "ada")
    ∷ ("password", "secret")
    ∷ []

abbrev address : ClientAddress
address = record { peer = "192.0.2.1"; header = "" }

abbrev authorize_draws : AuthorizeDraws
authorize_draws = record {
  rate_now = 1000;
  mint = mint_draws;
  sso = record { now = 1000; prune_now = 1000; count_now = 1000; handoff_state = "h" };
  correlation_id = "c";
}

oauth_authorize_post-IsAcceptable_example :
    ((consume oauth.limiter 1000
        ("oauth_authorize:"
          <> (resolve_client_host texts_as_addresses demo.config address.peer address.header).host)
        []).0
      ≡ allowed)
    × IsAcceptable oauth (effective oauth authorize_form)
unfolding oauth_authorize_post consume sweep lookup insert should_use_manual_test_mode is_dev_like
    set_defaults manual_authorize_defaults parameters_of refusal_of is_valid_s256_code_challenge
    all_challenge_codes is_redirect_uri_allowed is_configured_client text_length strip rstrip_class
    lstrip_class is_space lower_is begin_authorization
oauth_authorize_post-IsAcceptable_example =
    oauth_authorize_post-IsAcceptable oauth authorize_draws address authorize_form [] initial_state
      (inr ("https://www.canva.com/apps/oauth/authorized", refl))
