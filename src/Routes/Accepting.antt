-- ===== src/Routes/Accepting.antt =====
-- The requests that `oauth_authorize_post`
-- (src/resourcespace_platform/routes/oauth.py) acts on.
use resourcespace_authentica.Base.{
  ◌≤◌, String, ◌<>◌, Option, none, some, true, ◌≡◌, ◌≢◌, ◌⊎◌, inl, inr, refl, truthy, get_or, Dict,
  List, [], ◌∷◌, lookup, contains, text_length, arith, eq_iff,
}
use resourcespace_authentica.Config.{OauthClientConfig, is_dev_like}
use resourcespace_authentica.State.{State}
use resourcespace_authentica.Auth.{is_configured_client}
use resourcespace_authentica.RateLimiter.{Bucket, RateLimitResult, allowed, denied, consume}
use resourcespace_authentica.TrustedProxy.{resolve_client_host}
use resourcespace_authentica.Routes.{
  OauthLibrary, ClientAddress, AuthorizeDraws, OauthReply, redirected, OauthParameters,
  is_redirect_uri_allowed, uri_listed, uri_of_client, is_valid_s256_code_challenge, refusal_of,
}
use resourcespace_authentica.Routes.Authorize.{
  checked, effective, authorize_allowed, oauth_authorize_post,
}

module _ (library : OauthLibrary) where
  -- The client is configured, and the URI is one of its redirect URIs; or none are listed, and the
  -- environment is development or test.
  pub record IsRedirectOf (client_id redirect_uri : String) : Type 0 where
    pub client : OauthClientConfig
    pub known : lookup client_id library.service.config.oauth.clients ≡ some client
    pub listed :
        (contains redirect_uri client.redirect_uri_allowlist ≡ true)
        ⊎ ((client.redirect_uri_allowlist ≡ [])
            × (is_dev_like library.service.config.environment ≡ true))

  redirect-IsRedirectOf :
      (client_id redirect_uri : String)
      → is_redirect_uri_allowed library.service.config client_id redirect_uri ≡ true
      → IsRedirectOf client_id redirect_uri
  unfolding is_redirect_uri_allowed
  redirect-IsRedirectOf client_id redirect_uri h =
      by_client (lookup client_id library.service.config.oauth.clients) refl h
    where
      by_allowlist :
          (allowlist : List String)
          → uri_listed library.service.config redirect_uri allowlist ≡ true
          → (contains redirect_uri allowlist ≡ true)
            ⊎ ((allowlist ≡ []) × (is_dev_like library.service.config.environment ≡ true))
      by_allowlist [] k = inr (refl, k)
      by_allowlist (uri ∷ uris) k = inl k

      by_client :
          (found : Option OauthClientConfig)
          → lookup client_id library.service.config.oauth.clients ≡ found
          → uri_of_client library.service.config redirect_uri found ≡ true
          → IsRedirectOf client_id redirect_uri
      by_client none e k = cc
      by_client (some client) e k = record {
        client = client;
        known = e;
        listed = by_allowlist client.redirect_uri_allowlist k;
      }

  -- A configured client, one of its redirect URIs, or any in development and test where none are
  -- listed, a state, a challenge of PKCE by S256, and no
  -- parameter that is too long.
  pub record IsAcceptable (q : OauthParameters) : Type 0 where
    pub response_type : q.response_type ≡ "code"
    pub has_state : truthy q.canva_state ≡ true
    pub client : is_configured_client library.service.config q.client_id ≡ true
    pub redirect_uri : IsRedirectOf q.client_id q.redirect_uri
    pub challenge_method : q.code_challenge_method ≡ "S256"
    pub challenge : is_valid_s256_code_challenge library q.code_challenge ≡ true
    pub short_state : text_length q.canva_state ≤ 512
    pub short_scope : text_length q.scope ≤ 256
    pub short_url : text_length (get_or q.tenant_url "") ≤ 2048

  refusal_of-IsAcceptable : (q : OauthParameters) → refusal_of library q ≡ none → IsAcceptable q
  unfolding refusal_of
  refusal_of-IsAcceptable q h = record {
    response_type = ground (arith, eq_iff q.response_type "code");
    has_state = ground arith;
    client = ground arith;
    redirect_uri = redirect-IsRedirectOf q.client_id q.redirect_uri (ground arith);
    challenge_method = ground (arith, eq_iff q.code_challenge_method "S256");
    challenge = ground arith;
    short_state = ground arith;
    short_scope = ground arith;
    short_url = ground arith;
  }

  -- The store is written or the browser is sent on.
  abbrev IsEffective : State → State → OauthReply → Type 0
  IsEffective s s' reply = (s' ≢ s) ⊎ ((url : String) × (reply ≡ redirected url))

  checked-IsAcceptable :
      (d : AuthorizeDraws) (address : ClientAddress) (q : OauthParameters) (refusal : Option String)
      (s : State)
      → refusal_of library q ≡ refusal
      → IsEffective s
          (checked library d address q refusal s).0
          (checked library d address q refusal s).1
      → IsAcceptable q
  checked-IsAcceptable d address q (some code) s e (inl changed) = absurd (changed refl)
  checked-IsAcceptable d address q (some code) s e (inr (url, sent)) = absurd (cc sent)
  checked-IsAcceptable d address q none s e h = refusal_of-IsAcceptable q e

  allowed-IsAcceptable :
      (d : AuthorizeDraws) (address : ClientAddress) (body : Dict String) (rate : RateLimitResult)
      (buckets : Dict Bucket) (s : State)
      → (let ((buckets', s'), reply) = authorize_allowed library d address body (rate, buckets) s in
          IsEffective s s' reply)
      → (rate ≡ allowed) × IsAcceptable (effective library body)
  allowed-IsAcceptable d address body (denied ms) buckets s (inl changed) = absurd (changed refl)
  allowed-IsAcceptable d address body (denied ms) buckets s (inr (url, sent)) = absurd (cc sent)
  allowed-IsAcceptable d address body allowed buckets s h =
      let q = effective library body in
      (refl, checked-IsAcceptable d address q (refusal_of library q) s refl h)

  -- The authorize endpoint writes the store, or sends the browser on with a code or a handoff, only
  -- for a request that the rate limiter let through and whose parameters, after the defaults of the
  -- manual test, name a configured client and one of its redirect URIs, carry a state and a
  -- well-formed S256 challenge, and are within their length limits. In development and test, a client
  -- for which no redirect URI is listed may name any.
  pub oauth_authorize_post-IsAcceptable :
      (d : AuthorizeDraws) (address : ClientAddress) (body : Dict String) (buckets : Dict Bucket)
      (s : State)
      → (let ((buckets', s'), reply) = oauth_authorize_post library d address body buckets s in
          (s' ≢ s) ⊎ ((url : String) × (reply ≡ redirected url)))
      → ((consume library.limiter d.rate_now
            ("oauth_authorize:"
              <> (resolve_client_host library.ip library.service.config address.peer
                  address.header).host)
            buckets).0
          ≡ allowed)
        × IsAcceptable (effective library body)
  unfolding oauth_authorize_post
  oauth_authorize_post-IsAcceptable d address body buckets s h =
      let rate =
        consume library.limiter d.rate_now
          ("oauth_authorize:"
            <> (resolve_client_host library.ip library.service.config address.peer
                address.header).host)
          buckets in
      allowed-IsAcceptable d address body rate.0 rate.1 s h
