-- ===== src/Config/Validation.antt =====
-- The checks before the broker starts: `validate_config_for_environment` of
-- src/resourcespace_platform/config.py. The texts of the messages are left out: a problem is named.
pub mod Deployable
use resourcespace_authentica.Base.{
  String, Option, none, some, Bool, true, false, not, ◌&&◌, ◌||◌, ◌==◌, ◌≡◌, ◌≢◌, ◌↔◌, refl,
  if◌then◌else◌, truthy, truthy_text, contains, any, AllValues, List, [], ◌∷◌, ◌++◌, Dict, split_on,
  strip_parts, lower_is, arith, eq_iff, ap, ◌∙◌, Result, ok, err, All, Bool-cases, inl, inr,
}
use resourcespace_authentica.Config.{AppConfig, OauthClientConfig, is_dev_like}

pub data Problem : Type 0 where
  clients_unparsed : Problem
  tenants_unparsed : Problem
  verification_not_required : (mode : String) → Problem
  no_client_secret : Problem
  unsafe_asset_secret : Problem
  no_client_id : Problem
  placeholder_client_id : Problem
  no_redirect_uris : Problem
  client_without_redirect_uris : (client_id : String) → Problem
  cors_not_specific : Problem
  unknown_mode : (mode : String) → Problem
  no_encryption_key : Problem
  invalid_encryption_key : Problem
  no_trusted_proxies : (header : String) → Problem
  diagnostics_not_permitted : (environment : String) → Problem

pub data ConfigValidationError : Type 0 where
  dev_like_on_railway : (environment : String) → ConfigValidationError
  refused : List Problem → ConfigValidationError

abbrev pub none_listed : List String → Bool
none_listed [] = true
none_listed (x ∷ xs) = false

-- `if test: problems.append(problem)`, before the problems that follow
unfoldable pub add_if : Bool → Problem → List Problem → List Problem
add_if test problem rest = if test then problem ∷ rest else rest

unfoldable pub client_problems : Dict OauthClientConfig → List Problem → List Problem
client_problems [] rest = rest
client_problems ((client_id, client) ∷ clients) rest =
    let others = client_problems clients rest in
    add_if (none_listed client.redirect_uri_allowlist) (client_without_redirect_uris client_id)
      others

abbrev pub cors_origins : AppConfig → List String
cors_origins config = strip_parts (split_on b',' config.cors_origin)

abbrev pub log_diagnostics_environments : List String
log_diagnostics_environments = "development" ∷ "test" ∷ "staging" ∷ "uat" ∷ []

abbrev pub last_problems : (String → Bool) → AppConfig → List Problem
last_problems is_fernet_key config =
    add_if (not (contains config.resource_space.mode ("fixture" ∷ "live" ∷ [])))
      (unknown_mode config.resource_space.mode)
      (add_if (not (truthy config.storage_encryption_key)) no_encryption_key (
        add_if
          (truthy config.storage_encryption_key
            && not (is_fernet_key config.storage_encryption_key))
          invalid_encryption_key
          (add_if (truthy config.client_ip_header && none_listed config.trusted_proxy_hosts)
            (no_trusted_proxies config.client_ip_header)
            (add_if
              (config.client_ip_log_diagnostics
                && not (any (lower_is config.environment) log_diagnostics_environments))
              (diagnostics_not_permitted config.environment) []))))

abbrev pub oauth_problems : AppConfig → List Problem → List Problem
oauth_problems config rest = add_if (not (truthy config.oauth.client_id)) no_client_id (
    add_if
      (truthy config.oauth.client_id
        && config.oauth.client_id == "canva-dev-app"
        && not config.oauth.allow_default_client_id)
      placeholder_client_id
      (add_if (none_listed config.oauth.redirect_uri_allowlist) no_redirect_uris (
        client_problems config.oauth.clients (
          add_if (none_listed (cors_origins config) || contains "*" (cors_origins config))
            cors_not_specific rest))))

-- The problems in their order; `is_fernet_key` says whether Fernet takes the key.
unfoldable pub problems_of : (String → Bool) → AppConfig → List Problem
unfolding client_problems
problems_of is_fernet_key config =
    add_if (truthy_text config.oauth.clients_parse_error) clients_unparsed (
      add_if (truthy_text config.resource_space.tenants_parse_error) tenants_unparsed (
        add_if (not (config.signing.request_verification_mode == "required"))
          (verification_not_required config.signing.request_verification_mode)
          (add_if (not (truthy config.signing.canva_client_secret)) no_client_secret (
            add_if (contains config.signing.asset_secret ("" ∷ "development-signing-secret" ∷ []))
              unsafe_asset_secret (oauth_problems config (last_problems is_fernet_key config))))))

abbrev pub refused_if_any : List Problem → Result ConfigValidationError (Unit {0})
refused_if_any [] = ok tt
refused_if_any (p ∷ problems) = err (refused (p ∷ problems))

-- `validate_config_for_environment`; `on_railway` says whether RAILWAY_ENVIRONMENT is set and not
-- empty
unfoldable pub validate_config_for_environment :
    Bool → (String → Bool) → AppConfig → Result ConfigValidationError (Unit {0})
unfolding problems_of
validate_config_for_environment on_railway is_fernet_key config =
    if on_railway && is_dev_like config.environment
    then err (dev_like_on_railway config.environment)
    else if is_dev_like config.environment
    then ok tt
    else refused_if_any (problems_of is_fernet_key config)
