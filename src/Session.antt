-- ===== src/Session.antt =====
-- The session that the broker keeps for a ResourceSpace user, with the fields that
-- src/resourcespace_platform reads or writes, and its sealing and stamping
-- (src/resourcespace_platform/services/auth_service.py).
pub mod Laws
use resourcespace_authentica.Base.{
  ℕ, String, Option, none, some, Result, ok, err, ◌>>=◌, if◌then◌else◌, truthy, truthy_text, lookup,
}
use resourcespace_authentica.Config.{AppConfig, OauthClientConfig}
use resourcespace_authentica.Cipher.{
  FieldCipher, CipherError, field_decrypt_error, unicode_encode_error, seal, unseal,
}

pub record Tenant : Type 0 where
  pub id : String
  pub slug : Option String
  pub name : Option String
  pub base_url : String
  pub api_url : String

pub record User : Type 0 where
  pub id : String
  pub username : String
  pub display_name : Option String
  pub role : Option String
  pub email : Option String

pub record Upstream : Type 0 where
  pub mode : String
  pub session_key : Option String
  pub authenticated_at : String

pub record Broker : Type 0 where
  pub client_id : String
  pub integration : Option String

pub record Session : Type 0 where
  pub tenant : Tenant
  pub user : User
  pub upstream : Upstream
  pub broker : Option Broker

-- `if x: x = cipher.seal(x)`, of a key that may be missing
unfoldable pub seal_field : FieldCipher → ℕ → Option String → Option String
seal_field c nonce none = none
seal_field c nonce (some value) = some (if truthy value then seal c nonce value else value)

abbrev some_text : Result CipherError String → Result CipherError (Option String)
some_text r = do value ← r; ok (some value)

unfoldable pub open_field : FieldCipher → Option String → Result CipherError (Option String)
open_field c none = ok none
open_field c (some value) = if truthy value then some_text (unseal c value) else ok (some value)

-- AuthService._seal_session; each of the two calls of `seal` has a nonce of its own.
unfoldable pub seal_session : FieldCipher → ℕ → ℕ → Session → Session
unfolding seal_field
seal_session c n m session = record session {
  upstream = record session.upstream { session_key = seal_field c n session.upstream.session_key };
  user = record session.user { email = seal_field c m session.user.email };
}

-- AuthService._open_session_dict
unfoldable pub open_session_dict : FieldCipher → Session → Result CipherError Session
unfolding open_field
open_session_dict c session = do
  key ← open_field c session.upstream.session_key
  address ← open_field c session.user.email
  ok (record session {
    upstream = record session.upstream { session_key = key };
    user = record session.user { email = address };
  })

abbrev caught : Result CipherError Session → Result CipherError (Option Session)
caught (ok session) = ok (some session)
caught (err field_decrypt_error) = ok none
caught (err unicode_encode_error) = err unicode_encode_error

-- AuthService._try_open_session_dict: only a FieldDecryptError is caught.
unfoldable pub try_open_session_dict : FieldCipher → Session → Result CipherError (Option Session)
unfolding open_session_dict
try_open_session_dict c session = caught (open_session_dict c session)

abbrev integration_of : Option OauthClientConfig → Option String
integration_of none = none
integration_of (some client) = client.integration

-- `_integration_for_client_id`
unfoldable pub integration_for_client_id : AppConfig → String → Option String
unfolding lookup
integration_for_client_id config client_id = integration_of (lookup client_id config.oauth.clients)

-- `_stamp_broker_session_metadata`: an integration that is None or empty is removed.
unfoldable pub stamp_broker_session_metadata : String → Option String → Session → Session
stamp_broker_session_metadata client_id integration session = record session {
  broker = some (record {
    client_id = client_id;
    integration = if truthy_text integration then integration else none;
  });
}
