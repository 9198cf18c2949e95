-- ===== src/Config.antt =====
-- The settings of src/resourcespace_platform/config.py (AppConfig and its parts). An integer that
-- the environment gives is a natural number here: durations, counts and sizes.
pub mod Validation
use resourcespace_authentica.Base.{ℕ, String, Option, List, Dict, Bool, ◌∷◌, [], contains}

pub record OauthClientConfig : Type 0 where
  pub client_id : String
  pub integration : Option String
  pub redirect_uri_allowlist : List String

pub record OauthConfig : Type 0 where
  pub issuer : String
  pub client_id : String
  pub allow_default_client_id : Bool
  pub redirect_uri_allowlist : List String
  pub clients : Dict OauthClientConfig
  pub clients_parse_error : Option String
  pub token_ttl_seconds : ℕ
  pub signed_url_ttl_seconds : ℕ
  pub auth_code_ttl_seconds : ℕ
  pub refresh_grace_seconds : ℕ
  pub refresh_token_ttl_seconds : ℕ

pub record SigningConfig : Type 0 where
  pub asset_secret : String
  pub canva_client_secret : String
  pub request_verification_mode : String
  pub request_timestamp_tolerance_seconds : ℕ

pub record RateLimitConfig : Type 0 where
  pub max_requests : ℕ
  pub window_ms : ℕ

-- An entry of the tenant registry: the keys that the broker reads.
pub record ConfiguredTenant : Type 0 where
  pub id : String
  pub slug : Option String
  pub name : Option String
  pub base_url : Option String
  pub api_url : Option String

pub record ResourceSpaceConfig : Type 0 where
  pub mode : String
  pub allowed_hosts : List String
  pub tenants : List ConfiguredTenant
  pub tenants_parse_error : Option String
  pub container_source : String
  pub asset_allowed_hosts : List String
  pub asset_proxy_max_bytes : ℕ
  pub sso_enabled : Bool
  pub sso_system_key : String
  pub sso_pending_ttl_seconds : ℕ
  pub sso_replay_retention_seconds : ℕ

pub record UploadConfig : Type 0 where
  pub allowed_hosts : List String
  pub max_bytes : ℕ
  pub max_image_pixels : ℕ

pub record MetricsConfig : Type 0 where
  pub bearer_token : String

pub record AppConfig : Type 0 where
  pub environment : String
  pub port : ℕ
  pub base_url : String
  pub cors_origin : String
  pub storage_path : String
  pub storage_encryption_key : String
  pub store_prune_interval_seconds : ℕ
  pub client_ip_header : String
  pub trusted_proxy_hosts : List String
  pub client_ip_log_key : String
  pub client_ip_log_diagnostics : Bool
  pub oauth : OauthConfig
  pub signing : SigningConfig
  pub rate_limit : RateLimitConfig
  pub resource_space : ResourceSpaceConfig
  pub upload : UploadConfig
  pub metrics : MetricsConfig

-- `environment in DEV_LIKE_ENVIRONMENTS`
unfoldable pub is_dev_like : String → Bool
is_dev_like environment = contains environment ("development" ∷ "test" ∷ [])
