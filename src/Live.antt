-- ===== src/Live.antt =====
-- The backend of live tenants: `_authenticate_live_tenant`, `_validate_live_sessionkey` and
-- `_get_live_download_source` of
-- src/resourcespace_platform/services/resourcespace/_live_backend.py, and
-- `_mime_type_from_extension` and the container ids of _helpers.py. The clock gives the time of
-- authentication as a text.
pub mod Containers
pub mod Records
pub mod Assets
use resourcespace_authentica.Base.{
  String, ◌<>◌, Option, none, some, Bool, not, ◌==◌, ◌||◌, contains, if◌then◌else◌, get_or, lookup,
  Dict, List, [], ◌∷◌, strip, remove_prefix, is_present, Result, ok, err, ◌>>=◌,
}
use resourcespace_authentica.Errors.{Exception, resource_space, unexpected, rs_error}
use resourcespace_authentica.Session.{Session, Tenant, User, Upstream}
use resourcespace_authentica.Grants.{broker_integration_from_session}
use resourcespace_authentica.Api.{
  ApiLibrary, ApiCall, post_jsonish_sync, call_live_api, session_expired,
}
use resourcespace_authentica.Api.Values.{
  Json, Fields, JsonLibrary, null, boolean, number, text, array, object, get, is_true,
  is_false_answer, is_failure_answer, or_else,
}

-- `_encode_collection_container_id`, of the text of a reference
unfoldable pub encode_collection_container_id : String → String
encode_collection_container_id ref = "collection:" <> ref

abbrev pub decode_given : Option String → Option String
decode_given none = none
decode_given (some container_id) = remove_prefix "collection:" container_id

-- `_decode_collection_container_id`
unfoldable pub decode_collection_container_id : Option String → Option String
unfolding remove_prefix
decode_collection_container_id container_id = decode_given container_id

abbrev extensions : Dict String
extensions =
    ("jpg", "image/jpeg")
    ∷ ("jpeg", "image/jpeg")
    ∷ ("png", "image/png")
    ∷ ("svg", "image/svg+xml")
    ∷ ("webp", "image/webp")
    ∷ ("heic", "image/heic")
    ∷ ("tif", "image/tiff")
    ∷ ("tiff", "image/tiff")
    ∷ ("gif", "image/gif")
    ∷ []

-- `_mime_type_from_extension`, of a text
unfoldable pub mime_type_from_extension : JsonLibrary → String → String
unfolding strip lookup
mime_type_from_extension library extension =
    get_or (lookup (library.lower (strip extension)) extensions) "application/octet-stream"

-- `mime_type in SUPPORTED_IMAGE_MIME_TYPES`
unfoldable pub is_supported_image : String → Bool
is_supported_image mime_type =
    contains mime_type
      ("image/jpeg" ∷ "image/png" ∷ "image/svg+xml" ∷ "image/webp" ∷ "image/heic" ∷ [])

-- The text of a value on which a method of `str` is called; another value raises AttributeError.
abbrev pub text_of : Json → Result Exception String
text_of (text s) = ok s
text_of other = err unexpected

-- `_build_session` of the two ways to authenticate: the session of a user of the tenant.
abbrev pub live_session : JsonLibrary → Tenant → String → String → String → Session
live_session json tenant username session_key now = record {
  tenant = tenant;
  user = record {
    id = tenant.id <> ":" <> json.lower username;
    username = username;
    display_name = some username;
    role = some "member";
    email = none;
  };
  upstream = record { mode = "live"; session_key = some session_key; authenticated_at = now };
  broker = none;
}

-- What `_get_live_download_source` returns.
pub record DownloadSource : Type 0 where
  pub url : String
  pub mime_type : String
  pub filename : Json

abbrev pub key_of : Option String → Result Exception String
key_of none = err unexpected
key_of (some key) = ok key

module _ (library : ApiLibrary) (json : JsonLibrary) where
  abbrev authenticated : Tenant → String → String → Json → Result Exception Session
  authenticated tenant username now result =
      if is_failure_answer result
      then err
          (resource_space (rs_error "INVALID_CREDENTIALS" "Invalid ResourceSpace credentials." 401))
      else ok (live_session json tenant username (json.str result) now)

  -- `_authenticate_live_tenant`, from the tenant on that get_configured_tenant found
  unfoldable pub authenticate_live_tenant :
      Tenant → String → String → Option String → String → Result Exception Session
  unfolding post_jsonish_sync
  authenticate_live_tenant tenant username password integration now = do
    result ←
        post_jsonish_sync library tenant.api_url
          ((
            "query",
            library.urlencode
                (("function", "login") ∷ ("username", username) ∷ ("password", password) ∷ []),
          )
            ∷ [])
          integration
    authenticated tenant username now result

  abbrev validated : Tenant → String → String → String → Json → Result Exception Session
  validated tenant session_key username now (array items) =
      ok (live_session json tenant username session_key now)
  validated tenant session_key username now other = err (
      resource_space
        (rs_error "UPSTREAM_SESSION_EXPIRED" "ResourceSpace session key did not validate." 401))

  -- `_validate_live_sessionkey`
  unfoldable pub validate_live_sessionkey :
      Tenant → String → String → Option String → String → Result Exception Session
  unfolding call_live_api
  validate_live_sessionkey tenant session_key username integration now = do
    result ← call_live_api library (record {
      api_url = tenant.api_url;
      username = username;
      session_key = session_key;
      function = "get_resource_types";
      params = [];
      integration = integration;
    })
    validated tenant session_key username now result

  -- `session["upstream"]["sessionKey"]` raises KeyError where there is none.
  abbrev pub session_call : Session → String → List (String × String) → Result Exception Json
  session_call session function params = do
    session_key ← key_of session.upstream.session_key
    call_live_api library (record {
      api_url = session.tenant.api_url;
      username = session.user.username;
      session_key = session_key;
      function = function;
      params = params;
      integration = broker_integration_from_session session;
    })

  abbrev not_found : String → Exception
  not_found message = resource_space (rs_error "NOT_FOUND" message 404)

  abbrev source_of : String → String → String → Fields → Json → Result Exception DownloadSource
  source_of asset_id extension mime_type resource original_url =
      if not (is_true original_url) || is_false_answer original_url
      then err (not_found "Asset download URL was not available.")
      else ok (record {
        url = json.str original_url;
        mime_type = mime_type;
        filename = or_else (get "original_filename" resource) (text (asset_id <> "." <> extension));
      })

  abbrev download_of : Session → String → Fields → Result Exception DownloadSource
  download_of session asset_id resource = do
    extension ← text_of (
        or_else (get "file_extension" resource)
          (or_else (get "preview_extension" resource) (text "jpg")))
    if not (is_supported_image (mime_type_from_extension json extension))
        then err (resource_space (rs_error "UNSUPPORTED_FORMAT" "Unsupported asset format." 409))
        else (do
          original_url ← session_call session "get_resource_path" (
              ("ref", asset_id)
              ∷ ("extension", extension)
              ∷ ("page", "1")
              ∷ ("watermarked", "0")
              ∷ [])
          source_of asset_id extension (mime_type_from_extension json extension) resource
              original_url)

  -- A truthy value that is not an object has no `.get`: AttributeError.
  abbrev resource_of : Session → String → Json → Result Exception DownloadSource
  resource_of session asset_id (object resource) =
      if is_true (object resource)
      then download_of session asset_id resource
      else err (not_found "Asset not found.")
  resource_of session asset_id other =
      if not (is_true other) || is_false_answer other
      then err (not_found "Asset not found.")
      else err unexpected

  -- `_get_live_download_source`
  unfoldable pub get_live_download_source : Session → String → Result Exception DownloadSource
  unfolding call_live_api is_supported_image mime_type_from_extension get
  get_live_download_source session asset_id = do
    resource ← session_call session "get_resource_data" (("resource", asset_id) ∷ [])
    resource_of session asset_id resource
