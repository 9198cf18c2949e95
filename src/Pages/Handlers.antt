-- ===== src/Pages/Handlers.antt =====
-- The handlers `content_resources_upload` and `content_resources_download_url`, and
-- `_map_upload_error`, of src/resourcespace_platform/routes/content.py. What the service does is a
-- parameter.
use resourcespace_authentica.Base.{
  ℕ, zero, suc, String, ◌<>◌, Option, none, some, ◌||◌, ◌==◌, if◌then◌else◌, truthy, get_or, Dict,
  remove_prefix, is_present, Result, ok, err,
}
use resourcespace_authentica.Errors.{ResourceSpaceError, Exception, map_error}
use resourcespace_authentica.State.{State, proxy}
use resourcespace_authentica.Session.{Session}
use resourcespace_authentica.RateLimiter.{Bucket, RateLimitResult, allowed, denied, consume}
use resourcespace_authentica.Grants.{GrantDraws, GrantLink, create_grant}
use resourcespace_authentica.Live.{DownloadSource}
use resourcespace_authentica.Api.Values.{Json, text, or_else}
use resourcespace_authentica.Pages.Gate.{Gate, admitted, refused, raised, bearer_gate}
use resourcespace_authentica.Pages.Messages.{ContentLibrary, retry_after}

-- `_map_upload_error`: the status and the errorCode
unfoldable pub map_upload_error : ResourceSpaceError → ℕ × String
map_upload_error e =
    if e.code == "UPSTREAM_SESSION_EXPIRED"
    then (401, "CONFIGURATION_REQUIRED")
    else if e.code == "FORBIDDEN" || e.code == "UNKNOWN_TENANT"
    then (403, "FORBIDDEN")
    else if e.code == "NOT_FOUND"
    then (404, "NOT_FOUND")
    else if e.code == "INVALID_TENANT_URL" || e.code == "INVALID_REQUEST"
    then (400, "INVALID_REQUEST")
    else if e.code == "UPSTREAM_UNAVAILABLE"
    then (502, "TIMEOUT")
    else (502, "INTERNAL_ERROR")

-- The keys of the body of an upload: any JSON values.
pub record UploadBody : Type 0 where
  pub url : Json
  pub container_id : Json
  pub title : Json
  pub design_title : Json

-- `body` is `none` where json.loads raises ValueError.
pub record UploadRequest : Type 0 where
  pub host : Option String
  pub authorization : Option String
  pub body : Option UploadBody

-- The answers: 429 with Retry-After, an error with its status and code, 200, and an exception that
-- nothing catches.
pub data Reply {ℓ} (A : Type ℓ) : Type ℓ where
  rate_limited : ℕ → Reply A
  rejected : ℕ → String → Reply A
  success : A → Reply A
  crashed : Exception → Reply A

-- A gate that is not passed answers for the handler.
abbrev pub gated {ℓ} :
    {A : Type ℓ} → State × Gate → (Session → State → State × Reply A) → State × Reply A
gated (s, admitted token_record) handle = handle token_record.session s
gated (s, refused status code) handle = (s, rejected status code)
gated (s, raised e) handle = (s, crashed e)

abbrev pub limited {ℓ} :
    {A : Type ℓ}
    → RateLimitResult × Dict Bucket
    → State
    → (State → State × Reply A)
    → (Dict Bucket × State) × Reply A
limited (denied ms, buckets) s handle = ((buckets, s), rate_limited (retry_after ms))
limited (allowed, buckets) s handle = let (s', reply) = handle s in ((buckets, s'), reply)

-- `isinstance(source_url, str) and source_url.startswith(("http://", "https://"))`
abbrev http_url : Json → Option String
http_url (text url) =
    if is_present (remove_prefix "http://" url) || is_present (remove_prefix "https://" url)
    then some url
    else none
http_url other = none

abbrev some_text : Json → Option String
some_text (text s) = if truthy s then some s else none
some_text other = none

abbrev text_only : Json → Option String
text_only (text s) = some s
text_only other = none

module _ (library : ContentLibrary) where
  open library use {service, assets, limiter}

  abbrev uploaded : Result Exception String → Reply String
  uploaded (ok id) = success id
  uploaded (err e) = let (status, code) = map_upload_error (map_error e) in rejected status code

  abbrev upload_to :
      (Session → String → String → Option String → Result Exception String)
      → Session
      → Option String
      → Option String
      → Option String
      → Reply String
  upload_to upload session none container_id title = rejected 400 "INVALID_REQUEST"
  upload_to upload session (some url) none title = rejected 400 "INVALID_REQUEST"
  upload_to upload session (some url) (some container_id) title =
      uploaded (upload session container_id url title)

  abbrev pub upload_body :
      (Session → String → String → Option String → Result Exception String)
      → Session
      → Option UploadBody
      → Reply String
  upload_body upload session none = rejected 400 "INVALID_REQUEST"
  upload_body upload session (some body) =
      upload_to upload session (http_url body.url) (some_text body.container_id)
        (text_only (or_else body.title body.design_title))

  -- `content_resources_upload`; `upload` is the service's upload_resource
  unfoldable pub content_resources_upload :
      (Session → String → String → Option String → Result Exception String)
      → ℕ
      → ℕ
      → UploadRequest
      → Dict Bucket
      → State
      → (Dict Bucket × State) × Reply String
  unfolding consume bearer_gate map_upload_error map_error remove_prefix
  content_resources_upload upload rate_now read_now q buckets s =
      limited (consume limiter rate_now ("content_upload:" <> get_or q.host "unknown") buckets) s
        (λ s'.
          gated (bearer_gate service read_now "dam:write" q.authorization s')
            (λ session s''. (s'', upload_body upload session q.body)))

  -- The answer of a download: the link and the MIME type.
  pub record DownloadAnswer : Type 0 where
    pub link : GrantLink
    pub mime_type : String

  abbrev download_error : ResourceSpaceError → Reply DownloadAnswer
  download_error e = rejected (elim e.status_code [ zero ↦ 500 | suc n ↦ suc n ]) e.code

  abbrev pub download_grant :
      GrantDraws → Session → Result Exception DownloadSource → State → State × Reply DownloadAnswer
  download_grant d session (err e) s = (s, download_error (map_error e))
  download_grant d session (ok download) s =
      let (link, s') =
        create_grant assets d
          (record {
            path_prefix = "/signed/assets";
            session = session;
            source = proxy download.url;
            mime_type = some download.mime_type;
            filename = some (library.json.str download.filename);
          })
          s in
      (s', success (record { link = link; mime_type = download.mime_type }))

  -- `content_resources_download_url`; `get_source` is the service's get_download_source
  unfoldable pub content_resources_download_url :
      (Session → String → Result Exception DownloadSource)
      → ℕ
      → ℕ
      → GrantDraws
      → String
      → Option String
      → Option String
      → Dict Bucket
      → State
      → (Dict Bucket × State) × Reply DownloadAnswer
  unfolding consume bearer_gate create_grant map_error
  content_resources_download_url get_source rate_now read_now d asset_id host authorization buckets
        s =
      limited (consume limiter rate_now ("content_download:" <> get_or host "unknown") buckets) s
        (λ s'.
          gated (bearer_gate service read_now "dam:read" authorization s')
            (λ session s''. download_grant d session (get_source session asset_id) s''))
