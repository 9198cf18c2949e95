-- ===== src/State.antt =====
-- The records that the broker keeps in its store, as
-- src/resourcespace_platform/services/auth_service.py and asset_service.py write them, and the
-- store's five buckets (`_INITIAL_STATE` of json_store.py). Times are milliseconds.
use resourcespace_authentica.Base.{ℕ, String, Option, Dict, []}
use resourcespace_authentica.Session.{Session, Tenant}

pub record AuthorizationCode : Type 0 where
  pub code : String
  pub client_id : String
  pub redirect_uri : String
  pub scope : String
  pub code_challenge : Option String
  pub code_challenge_method : String
  pub session : Session
  pub expires_at : ℕ

-- `revokedAt` is not written when the record is made: `none` until a revocation.
pub record AccessToken : Type 0 where
  pub access_token : String
  pub client_id : String
  pub scope : String
  pub integration : Option String
  pub session : Session
  pub expires_at : ℕ
  pub created_at : ℕ
  pub revoked_at : Option ℕ

-- The body of a token response.
pub record TokenResponse : Type 0 where
  pub access_token : String
  pub token_type : String
  pub expires_in : ℕ
  pub refresh_token : Option String
  pub scope : String

pub record RefreshToken : Type 0 where
  pub refresh_token : String
  pub client_id : String
  pub scope : String
  pub integration : Option String
  pub session : Session
  pub created_at : ℕ
  pub expires_at : Option ℕ
  pub revoked_at : Option ℕ
  pub rotation_response : Option TokenResponse

pub record PendingSsoState : Type 0 where
  pub handoff_state : String
  pub canva_state : String
  pub client_id : String
  pub redirect_uri : String
  pub scope : String
  pub code_challenge : Option String
  pub code_challenge_method : String
  pub tenant : Tenant
  pub correlation_id : String
  pub initiator_key : String
  pub created_at : ℕ
  pub expires_at : ℕ
  pub used_at : Option ℕ
  pub purge_at : ℕ

-- Where the bytes of a granted asset come from.
pub data AssetSource : Type 0 where
  fixture : (asset_id : String) → (variant : Option String) → AssetSource
  proxy : (url : String) → AssetSource

pub record AssetGrant : Type 0 where
  pub grant_id : String
  pub user_id : String
  pub tenant_id : String
  pub expires_at : ℕ
  pub source : AssetSource
  pub integration : Option String
  pub mime_type : Option String
  pub filename : Option String

pub record State : Type 0 where
  pub authorization_codes : Dict AuthorizationCode
  pub access_tokens : Dict AccessToken
  pub refresh_tokens : Dict RefreshToken
  pub asset_grants : Dict AssetGrant
  pub pending_sso_states : Dict PendingSsoState

abbrev pub initial_state : State
initial_state = record {
  authorization_codes = [];
  access_tokens = [];
  refresh_tokens = [];
  asset_grants = [];
  pending_sso_states = [];
}
