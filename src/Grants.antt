-- ===== src/Grants.antt =====
-- Signed asset grants: `_create_signature`, `_prune_expired_grants`, `_create_grant` and
-- `verify_grant` of src/resourcespace_platform/services/asset_service.py, and the status that
-- `_serve_grant` of routes/assets.py answers with. The bytes are in the modules below.
pub mod Laws
pub mod Race
pub mod Body
pub mod Filenames
pub mod Headers
use resourcespace_authentica.Base.{
  ℕ, ◌+◌, ◌*◌, String, ◌<>◌, Option, none, some, Bool, true, false, not, ◌&&◌, ◌||◌, ◌==◌, leb, ltb,
  truthy_text, get_or, if◌then◌else◌, lookup, insert, prune, rstrip_class, same_code, is_ascii,
  Result, ok, err,
}
use resourcespace_authentica.Config.{AppConfig}
use resourcespace_authentica.Errors.{Exception, unexpected}
use resourcespace_authentica.Session.{Session, Broker}
use resourcespace_authentica.State.{State, AssetGrant, AssetSource}
use resourcespace_authentica.CanvaVerifier.{Timestamp, positive, negative}
use resourcespace_authentica.Auth.{is_expired_grant}

-- The standard library's part: `hmac_urlsafe` is base64.urlsafe_b64encode of the HMAC-SHA256 of a
-- message under a key, `int` is int(), `none` where it raises, and `str` is str() of an integer.
pub record GrantLibrary : Type 0 where
  pub hmac_urlsafe : String → String → String
  pub int : String → Option Timestamp
  pub str : ℕ → String

pub record AssetService : Type 0 where
  pub config : AppConfig
  pub library : GrantLibrary

-- `_create_signature`
unfoldable pub create_signature : AssetService → String → ℕ → String
unfolding rstrip_class
create_signature service grant_id expires_at =
    rstrip_class (λ c. same_code c b'=')
      (service.library.hmac_urlsafe service.config.signing.asset_secret
        (grant_id <> ":" <> service.library.str expires_at))

-- `_prune_expired_grants`
unfoldable pub prune_expired_grants : ℕ → State → State
prune_expired_grants now s = record s { asset_grants = prune (is_expired_grant now) s.asset_grants }

abbrev integration_of_broker : Option Broker → Option String
integration_of_broker none = none
integration_of_broker (some broker) = broker.integration

-- `_broker_integration_from_session` (services/resourcespace/_helpers.py)
unfoldable pub broker_integration_from_session : Session → Option String
broker_integration_from_session session = integration_of_broker session.broker

-- What one grant draws: the clock at the pruning and at the expiry, and the random id.
pub record GrantDraws : Type 0 where
  pub prune_now : ℕ
  pub now : ℕ
  pub grant_id : String

-- The arguments of `_create_grant`.
pub record GrantRequest : Type 0 where
  pub path_prefix : String
  pub session : Session
  pub source : AssetSource
  pub mime_type : Option String
  pub filename : Option String

abbrev pub expiry_of : AssetService → GrantDraws → ℕ
expiry_of service d = d.now + service.config.oauth.signed_url_ttl_seconds * 1000

abbrev pub grant_record : AssetService → GrantDraws → GrantRequest → AssetGrant
grant_record service d q = record {
  grant_id = d.grant_id;
  user_id = q.session.user.id;
  tenant_id = q.session.tenant.id;
  expires_at = expiry_of service d;
  source = q.source;
  integration = broker_integration_from_session q.session;
  mime_type = q.mime_type;
  filename = q.filename;
}

-- The answer of `_create_grant`: the URL by its path and the two parameters of its query, before
-- they are percent-encoded.
pub record GrantLink : Type 0 where
  pub grant_id : String
  pub path : String
  pub expires : String
  pub sig : String
  pub expires_at : ℕ

-- `_create_grant`
unfoldable pub create_grant : AssetService → GrantDraws → GrantRequest → State → GrantLink × State
unfolding create_signature prune_expired_grants broker_integration_from_session
create_grant service d q s =
    let s' = prune_expired_grants d.prune_now s in
    let expires_at = expiry_of service d in
    (
      record {
        grant_id = d.grant_id;
        path = service.config.base_url <> q.path_prefix <> "/" <> d.grant_id;
        expires = service.library.str expires_at;
        sig = create_signature service d.grant_id expires_at;
        expires_at = expires_at;
      },
      record s' { asset_grants = insert d.grant_id (grant_record service d q) s'.asset_grants },
    )

-- The answers of `verify_grant`.
pub data GrantVerification : Type 0 where
  missing_signature : GrantVerification
  grant_expired : GrantVerification
  invalid_signature : GrantVerification
  verified : AssetGrant → GrantVerification

-- What one verification reads of the clock.
pub record VerifyDraws : Type 0 where
  pub now : ℕ
  pub prune_now : ℕ
  pub found_now : ℕ

abbrev pub verify_found : VerifyDraws → Option AssetGrant → GrantVerification
verify_found d none = grant_expired
verify_found d (some grant) =
    if ltb grant.expires_at d.found_now then grant_expired else verified grant

-- From the parsed expiry on. `hmac.compare_digest` raises for a text that is not ASCII.
abbrev pub verify_parsed :
    AssetService
    → VerifyDraws
    → String
    → String
    → State
    → Option Timestamp
    → Result Exception GrantVerification × State
verify_parsed service d grant_id signature s none = (ok grant_expired, s)
verify_parsed service d grant_id signature s (some (negative n)) = (ok grant_expired, s)
verify_parsed service d grant_id signature s (some (positive expiry)) =
    let expected = create_signature service grant_id expiry in
    let s' = prune_expired_grants d.prune_now s in
    if ltb expiry d.now
    then (ok grant_expired, s)
    else if not (is_ascii expected && is_ascii signature)
    then (err unexpected, s)
    else if not (expected == signature)
    then (ok invalid_signature, s)
    else (ok (verify_found d (lookup grant_id s'.asset_grants)), s')

-- `verify_grant`
unfoldable pub verify_grant :
    AssetService
    → VerifyDraws
    → Option String
    → Option String
    → Option String
    → State
    → Result Exception GrantVerification × State
unfolding create_signature prune_expired_grants is_ascii
verify_grant service d grant_id expires_at signature s =
    if not (truthy_text grant_id) || not (truthy_text expires_at) || not (truthy_text signature)
    then (ok missing_signature, s)
    else verify_parsed service d (get_or grant_id "") (get_or signature "") s
        (service.library.int (get_or expires_at ""))

-- The status of `_serve_grant` (routes/assets.py): `built` says whether the grant's bytes are there.
unfoldable pub serve_status : GrantVerification → Bool → ℕ
serve_status missing_signature built = 403
serve_status grant_expired built = 410
serve_status invalid_signature built = 403
serve_status (verified grant) built = if built then 200 else 404
