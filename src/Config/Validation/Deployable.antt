-- ===== src/Config/Validation/Deployable.antt =====
-- The conditions of `validate_config_for_environment` (src/resourcespace_platform/config.py).
use resourcespace_authentica.Base.{
  String, Bool, true, false, not, ◌&&◌, ◌==◌, ◌≡◌, ◌↔◌, refl, truthy, truthy_text, contains, any,
  AllValues, List, [], ◌∷◌, Dict, lower_is, arith, eq_iff, ap, ◌∙◌, ok,
}
use resourcespace_authentica.Config.{AppConfig, OauthClientConfig, is_dev_like}
use resourcespace_authentica.Config.Validation.{
  Problem, client_without_redirect_uris, none_listed, add_if, client_problems, cors_origins,
  log_diagnostics_environments, problems_of, refused_if_any, validate_config_for_environment,
}

-- What a configuration has that is accepted outside development and test.
pub record IsDeployable (is_fernet_key : String → Bool) (config : AppConfig) : Type 0 where
  pub clients_parsed : truthy_text config.oauth.clients_parse_error ≡ false
  pub tenants_parsed : truthy_text config.resource_space.tenants_parse_error ≡ false
  pub verification : config.signing.request_verification_mode ≡ "required"
  pub client_secret : truthy config.signing.canva_client_secret ≡ true
  pub asset_secret :
      contains config.signing.asset_secret ("" ∷ "development-signing-secret" ∷ []) ≡ false
  pub client_id : truthy config.oauth.client_id ≡ true
  pub chosen_client_id :
      (config.oauth.client_id == "canva-dev-app" && not config.oauth.allow_default_client_id)
      ≡ false
  pub redirect_uris : none_listed config.oauth.redirect_uri_allowlist ≡ false
  pub client_redirect_uris :
      AllValues (λ client. none_listed client.redirect_uri_allowlist ≡ false) config.oauth.clients
  pub origins : none_listed (cors_origins config) ≡ false
  pub specific_origins : contains "*" (cors_origins config) ≡ false
  pub known_mode : contains config.resource_space.mode ("fixture" ∷ "live" ∷ []) ≡ true
  pub encryption_key : truthy config.storage_encryption_key ≡ true
  pub fernet_key : is_fernet_key config.storage_encryption_key ≡ true
  pub proxies : (truthy config.client_ip_header && none_listed config.trusted_proxy_hosts) ≡ false
  pub diagnostics :
      (config.client_ip_log_diagnostics
        && not (any (lower_is config.environment) log_diagnostics_environments))
      ≡ false

add_if-eq-nil :
    (test : Bool) (p : Problem) (rest : List Problem)
    → add_if test p rest ≡ []
    → (test ≡ false) × (rest ≡ [])
unfolding add_if
add_if-eq-nil test p rest h = ground arith

client_problems-eq-nil :
    (clients : Dict OauthClientConfig) (rest : List Problem)
    → client_problems clients rest ≡ []
    → AllValues (λ client. none_listed client.redirect_uri_allowlist ≡ false) clients × (rest ≡ [])
unfolding client_problems
client_problems-eq-nil [] rest h = (tt, h)
client_problems-eq-nil ((client_id, client) ∷ clients) rest h =
    let (here, others) = add_if-eq-nil _ (client_without_redirect_uris client_id) _ h in
    let (there, last) = client_problems-eq-nil clients rest others in ((here, there), last)

client_problems-nil :
    (clients : Dict OauthClientConfig) (rest : List Problem)
    → AllValues (λ client. none_listed client.redirect_uri_allowlist ≡ false) clients
    → client_problems clients rest ≡ rest
unfolding client_problems add_if
client_problems-nil [] rest h = refl
client_problems-nil ((client_id, client) ∷ clients) rest (p, h) =
    rw p (client_problems-nil clients rest h)

problems_of-eq-nil :
    (is_fernet_key : String → Bool) (config : AppConfig)
    → problems_of is_fernet_key config ≡ []
    → IsDeployable is_fernet_key config
unfolding problems_of
problems_of-eq-nil is_fernet_key config h =
    let (a, h1) = add_if-eq-nil _ _ _ h in
    let (b, h2) = add_if-eq-nil _ _ _ h1 in
    let (c, h3) = add_if-eq-nil _ _ _ h2 in
    let (d, h4) = add_if-eq-nil _ _ _ h3 in
    let (e, h5) = add_if-eq-nil _ _ _ h4 in
    let (f, h6) = add_if-eq-nil _ _ _ h5 in
    let (g, h7) = add_if-eq-nil _ _ _ h6 in
    let (i, h8) = add_if-eq-nil _ _ _ h7 in
    let (j, h9) = client_problems-eq-nil config.oauth.clients _ h8 in
    let (k, h10) = add_if-eq-nil _ _ _ h9 in
    let (l, h11) = add_if-eq-nil _ _ _ h10 in
    let (m, h12) = add_if-eq-nil _ _ _ h11 in
    let (n, h13) = add_if-eq-nil _ _ _ h12 in
    let (o, h14) = add_if-eq-nil _ _ _ h13 in
    let (q, h15) = add_if-eq-nil _ _ _ h14 in
    record {
      clients_parsed = a;
      tenants_parsed = b;
      verification = ground (arith, c, eq_iff config.signing.request_verification_mode "required");
      client_secret = ground (arith, d);
      asset_secret = e;
      client_id = ground (arith, f);
      chosen_client_id = ground (arith, f, g);
      redirect_uris = i;
      client_redirect_uris = j;
      origins = ground (arith, k);
      specific_origins = ground (arith, k);
      known_mode = ground (arith, l);
      encryption_key = ground (arith, m);
      fernet_key = ground (arith, m, n);
      proxies = o;
      diagnostics = q;
    }

add_if-nil :
    {test : Bool} (p : Problem) {rest : List Problem}
    → test ≡ false
    → rest ≡ []
    → add_if test p rest ≡ []
unfolding add_if
add_if-nil p e h = rw (e, h) refl

problems_of-IsDeployable :
    (is_fernet_key : String → Bool) (config : AppConfig)
    → IsDeployable is_fernet_key config
    → problems_of is_fernet_key config ≡ []
unfolding problems_of
problems_of-IsDeployable is_fernet_key config x = add_if-nil _ x.clients_parsed (
    add_if-nil _ x.tenants_parsed (
      add_if-nil _
        (ap not ((eq_iff config.signing.request_verification_mode "required").1 x.verification))
        (add_if-nil _ (ground (arith, x.client_secret)) (
          add_if-nil _ x.asset_secret (
            add_if-nil _ (ground (arith, x.client_id)) (
              add_if-nil _ (ground (arith, x.chosen_client_id)) (
                add_if-nil _ x.redirect_uris (
                  client_problems-nil config.oauth.clients _ x.client_redirect_uris
                  ∙ add_if-nil _ (ground (arith, x.origins, x.specific_origins)) (
                      add_if-nil _ (ground (arith, x.known_mode)) (
                        add_if-nil _ (ground (arith, x.encryption_key)) (
                          add_if-nil _ (ground (arith, x.fernet_key))
                            (add_if-nil _ x.proxies (add_if-nil _ x.diagnostics refl)))))))))))))

refused-eq-ok : (problems : List Problem) → refused_if_any problems ≡ ok tt → problems ≡ []
refused-eq-ok [] h = refl
refused-eq-ok (p ∷ problems) h = cc

-- Outside development and test, validation passes exactly for a deployable configuration: signed
-- requests are required and both secrets are set, the asset secret to something else than the
-- default, a client id is chosen, every client lists its redirect URIs, the origins are specific,
-- the mode is known, the encryption key is one that Fernet takes, and neither the client address
-- header nor the log of addresses is on where it must not be.
pub validate_iff :
    (on_railway : Bool) (is_fernet_key : String → Bool) (config : AppConfig)
    → is_dev_like config.environment ≡ false
    → (validate_config_for_environment on_railway is_fernet_key config ≡ ok tt)
      ↔ IsDeployable is_fernet_key config
unfolding validate_config_for_environment
validate_iff on_railway is_fernet_key config deployed = (
  λ h.
      problems_of-eq-nil is_fernet_key config
        (refused-eq-ok (problems_of is_fernet_key config) (started on_railway h)),
  λ x. started_back on_railway x,
)
  where
    started :
        (railway : Bool)
        → validate_config_for_environment railway is_fernet_key config ≡ ok tt
        → refused_if_any (problems_of is_fernet_key config) ≡ ok tt
    started true h = rw deployed at h
    started false h = rw deployed at h

    started_back :
        (railway : Bool)
        → IsDeployable is_fernet_key config
        → validate_config_for_environment railway is_fernet_key config ≡ ok tt
    started_back true x = rw (deployed, problems_of-IsDeployable is_fernet_key config x) refl
    started_back false x = rw (deployed, problems_of-IsDeployable is_fernet_key config x) refl
