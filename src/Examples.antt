-- ===== src/Examples.antt =====
-- A small configuration, a session and a service, at which the theorems are run.
pub mod Logins
pub mod Handoffs
pub mod Stores
pub mod Requests
pub mod Assets
pub mod Uploads
pub mod Pages
pub mod Tenants
pub mod Routes
use resourcespace_authentica.Base.{ℕ, String, ◌<>◌, some, none, true, false, [], ◌∷◌}
use resourcespace_authentica.Config.{AppConfig}
use resourcespace_authentica.Cipher.{Fernet, fernet_cipher}
use resourcespace_authentica.Session.{Session}
use resourcespace_authentica.State.{State, initial_state}
use resourcespace_authentica.Auth.{AuthService}
use resourcespace_authentica.Auth.Codes.{MintDraws, CodeRequest, ExchangeRequest}
use resourcespace_authentica.Auth.Tokens.{PairDraws, RefreshDraws}

abbrev pub demo_config : AppConfig
demo_config = record {
  environment = "production";
  port = 8080;
  base_url = "https://broker.example";
  cors_origin = "https://www.canva.com";
  storage_path = "/data/store.json";
  storage_encryption_key = "";
  store_prune_interval_seconds = 60;
  client_ip_header = "x-forwarded-for";
  trusted_proxy_hosts = "10.0.0.1" ∷ [];
  client_ip_log_key = "log";
  client_ip_log_diagnostics = false;
  oauth = record {
    issuer = "https://broker.example";
    client_id = "canva";
    allow_default_client_id = false;
    redirect_uri_allowlist = [];
    clients =
        (
          "canva",
          record {
            client_id = "canva";
            integration = some "canva";
            redirect_uri_allowlist = "https://www.canva.com/apps/oauth/authorized" ∷ [];
          },
        )
        ∷ [];
    clients_parse_error = none;
    token_ttl_seconds = 3600;
    signed_url_ttl_seconds = 300;
    auth_code_ttl_seconds = 300;
    refresh_grace_seconds = 30;
    refresh_token_ttl_seconds = 2592000;
  };
  signing = record {
    asset_secret = "asset";
    canva_client_secret = "c2VjcmV0";
    request_verification_mode = "required";
    request_timestamp_tolerance_seconds = 300;
  };
  rate_limit = record { max_requests = 2; window_ms = 1000 };
  resource_space = record {
    mode = "live";
    allowed_hosts = [];
    tenants = [];
    tenants_parse_error = none;
    container_source = "collections";
    asset_allowed_hosts = "dam.example" ∷ [];
    asset_proxy_max_bytes = 4;
    sso_enabled = true;
    sso_system_key = "";
    sso_pending_ttl_seconds = 600;
    sso_replay_retention_seconds = 600;
  };
  upload = record { allowed_hosts = []; max_bytes = 1000; max_image_pixels = 1000 };
  metrics = record { bearer_token = "" };
}

-- A key whose tokens are the values themselves.
abbrev pub toy_fernet : Fernet
toy_fernet = record { encrypt = λ nonce value. value; decrypt = λ value. some value }

-- The digest here only adds the padding that is stripped again.
abbrev pub demo : AuthService
demo = record {
  config = demo_config;
  field_cipher = fernet_cipher toy_fernet;
  sha256_urlsafe = λ text. text <> "=";
  rate_quotient = λ requests ttl window. some 0;
}

abbrev pub demo_session : Session
demo_session = record {
  tenant = record {
    id = "t1";
    slug = none;
    name = none;
    base_url = "https://dam.example";
    api_url = "https://dam.example/api/";
  };
  user = record {
    id = "u1";
    username = "ada";
    display_name = none;
    role = none;
    email = some "ada@dam.example";
  };
  upstream = record {
    mode = "live";
    session_key = some "key";
    authenticated_at = "2026-01-01T00:00:00Z";
  };
  broker = none;
}

abbrev pub mint_draws : MintDraws
mint_draws = record {
  prune_now = 1000;
  expiry_now = 1000;
  key_nonce = 0;
  email_nonce = 1;
  code = "code_1";
}

abbrev pub code_request : CodeRequest
code_request = record {
  client_id = "canva";
  redirect_uri = "https://www.canva.com/apps/oauth/authorized";
  scope = "read";
  code_challenge = some "verifier";
  code_challenge_method = some "S256";
}

abbrev pub exchange_request : ExchangeRequest
exchange_request = record {
  client_id = "canva";
  redirect_uri = "https://www.canva.com/apps/oauth/authorized";
  code = "code_1";
  code_verifier = some "verifier";
}

abbrev pub pair_draws : PairDraws
pair_draws = record {
  access_token = "access_1";
  access_now = 2000;
  refresh_token = "refresh_1";
  key_nonce = 2;
  email_nonce = 3;
  created_now = 2000;
  refresh_created_now = 2000;
  refresh_now = 2000;
}

abbrev pub next_pair_draws : PairDraws
next_pair_draws = record pair_draws { access_token = "access_2"; refresh_token = "refresh_2" }

abbrev pub refresh_draws : RefreshDraws
refresh_draws = record {
  prune_now = 5000;
  grace_now = 5000;
  revoke_now = 5000;
  pair = next_pair_draws;
}

abbrev pub replay_draws : RefreshDraws
replay_draws = record {
  prune_now = 9000;
  grace_now = 9000;
  revoke_now = 9000;
  pair = next_pair_draws;
}
