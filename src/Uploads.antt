-- ===== src/Uploads.antt =====
-- The download of an export: `_validate_export_url`, `_EXPORT_EXT_MAP` and `_read_export_hop` of
-- src/resourcespace_platform/services/resourcespace/_upload.py. urllib.parse, httpx and the network
-- are parameters; a byte is a number.
pub mod Downloads
pub mod Posting
pub mod Sequence
use resourcespace_authentica.Base.{
  ℕ, ◌+◌, String, ◌<>◌, Option, none, some, Bool, true, false, not, ◌&&◌, ◌||◌, ◌==◌, leb, ltb,
  same_code, any, if◌then◌else◌, truthy, get_or, lookup, Dict, List, [], ◌∷◌, ◌++◌, length, strip,
  split_on, Result, ok, err, ◌>>=◌,
}
use resourcespace_authentica.Errors.{
  ResourceSpaceError, Exception, resource_space, unexpected, rs_error,
}
use resourcespace_authentica.CanvaVerifier.{Timestamp, positive, negative}
use resourcespace_authentica.Hosts.{HostLibrary, canonical_ascii_host, host_matches_strict}
use resourcespace_authentica.Hosts.Resolve.{Pinned, has_entries, is_private_ip}
use resourcespace_authentica.Grants.Body.{declares_too_much}
use resourcespace_authentica.Api.{HttpRequest, no_content, raised}

-- What urlparse gives of a URL: the scheme and the hostname, both in small letters.
pub record SplitUrl : Type 0 where
  pub scheme : String
  pub hostname : Option String

-- `urlparse` is `none` where it raises; `join` is str(httpx.URL(url).join(next)), `none` where it
-- raises an error that is no httpx.HTTPError; `int` is int(), `none` where it raises.
pub record ExportLibrary : Type 0 where
  pub urlparse : String → Option SplitUrl
  pub join : String → String → Option String
  pub int : String → Option Timestamp
  pub str : ℕ → String

-- The body of a response as it comes in: chunks, until an httpx.HTTPError breaks it off.
pub data ExportEvent : Type 0 where
  chunk : List ℕ → ExportEvent
  broken : String → ExportEvent

pub record ExportResponse : Type 0 where
  pub status_code : ℕ
  pub location : Option String
  pub content_length : Option String
  pub content_type : Option String
  pub events : List ExportEvent

-- What a streamed request comes to, an error with its text.
pub data Streamed : Type 0 where
  connect_error : String → Streamed
  http_error : String → Streamed
  answered : ExportResponse → Streamed

-- An httpx.HTTPError with its text, or an error of the broker.
pub data HopError : Type 0 where
  http_failure : String → HopError
  broker_error : ResourceSpaceError → HopError

-- What `_read_export_hop` returns.
pub data Hop : Type 0 where
  redirect : Option String → Hop
  body : List ℕ → String → Hop

abbrev pub present {ℓ} : {A : Type ℓ} → Option A → Result Exception A
present none = err unexpected
present (some a) = ok a

abbrev pub export_error : String → String → ℕ → Exception
export_error code message status = resource_space (rs_error code message status)

module _ (library : HostLibrary) (allowed_hosts : List String) where
  abbrev pub check_host : String → Result Exception (Unit {0})
  check_host host =
      if not (truthy host)
      then err (export_error "INVALID_REQUEST" "Export URL is missing a hostname." 400)
      else if has_entries allowed_hosts
          && not (any (host_matches_strict library host) allowed_hosts)
      then err
          (export_error "FORBIDDEN" "Export URL host is not in CANVA_UPLOAD_ALLOWED_HOSTS." 403)
      else if is_private_ip library host
      then err (export_error "FORBIDDEN" "Export URL resolves to a private network address." 403)
      else ok tt

  abbrev pub check_split : SplitUrl → Result Exception (Unit {0})
  check_split split =
      if not (split.scheme == "https")
      then err (export_error "INVALID_REQUEST" "Export URLs must use https." 400)
      else (do
        host ← raised (canonical_ascii_host library (get_or split.hostname ""))
        check_host host)

  -- `_validate_export_url`
  unfoldable pub validate_export_url : ExportLibrary → String → Result Exception (Unit {0})
  unfolding canonical_ascii_host host_matches_strict is_private_ip
  validate_export_url export url = do split ← present (export.urlparse url); check_split split

-- `_EXPORT_EXT_MAP`
abbrev pub export_ext_map : Dict String
export_ext_map =
    ("image/jpeg", "jpg")
    ∷ ("image/png", "png")
    ∷ ("image/webp", "webp")
    ∷ ("image/gif", "gif")
    ∷ ("image/svg+xml", "svg")
    ∷ ("application/pdf", "pdf")
    ∷ ("video/mp4", "mp4")
    ∷ []

abbrev pub after_chunk : List ℕ → Result HopError (List ℕ) → Result HopError (List ℕ)
after_chunk bytes (err e) = err e
after_chunk bytes (ok rest) = ok (bytes ++ rest)

-- The request to one pinned URL.
abbrev pub export_request : Pinned → String → HttpRequest
export_request p url = record {
  url = url;
  host_header = p.host_header;
  sni_hostname = p.sni_hostname;
  user_agent = none;
  content = no_content;
}

module _ (export : ExportLibrary) (max_bytes : ℕ) where
  abbrev pub too_large : ResourceSpaceError
  too_large =
      rs_error "INVALID_REQUEST"
        ("Export exceeds CANVA_UPLOAD_MAX_BYTES (" <> export.str max_bytes <> ").") 413

  -- The loop over `iter_bytes`, from the number of bytes received so far.
  unfoldable pub receive_export : ℕ → List ExportEvent → Result HopError (List ℕ)
  receive_export received [] = ok []
  receive_export received (broken message ∷ events) = err (http_failure message)
  receive_export received (chunk bytes ∷ events) =
      let rest = receive_export (received + length bytes) events in
      if ltb max_bytes (received + length bytes)
      then err (broker_error too_large)
      else after_chunk bytes rest

  abbrev pub declared_length : Option String → Option Timestamp
  declared_length none = none
  declared_length (some content_length) = export.int content_length

  abbrev first_part : List String → String
  first_part [] = ""
  first_part (part ∷ parts) = part

  abbrev pub media_type : ExportResponse → String
  media_type response =
      strip (first_part (split_on b';' (get_or response.content_type "application/octet-stream")))

  abbrev pub is_redirect : ℕ → Bool
  is_redirect status = any (same_code status) (301 ∷ 302 ∷ 303 ∷ 307 ∷ 308 ∷ [])

  -- The body of the `with` statement of `_read_export_hop`
  unfoldable pub read_export_response : ExportResponse → Result HopError Hop
  unfolding receive_export split_on strip
  read_export_response response =
      if is_redirect response.status_code
      then ok (redirect response.location)
      else if leb 400 response.status_code
      then err (
          broker_error (
            rs_error "UPSTREAM_REQUEST_FAILED"
              ("Export URL returned HTTP " <> export.str response.status_code) 502))
      else if declares_too_much max_bytes (declared_length response.content_length)
      then err (broker_error too_large)
      else (do bytes ← receive_export 0 response.events; ok (body bytes (media_type response)))

  abbrev pub tried :
      HttpRequest
      → Streamed
      → (String → Result HopError Hop × List HttpRequest)
      → Result HopError Hop × List HttpRequest
  tried request (connect_error message) later = let (r, sent) = later message in (r, request ∷ sent)
  tried request (http_error message) later = (err (http_failure message), request ∷ [])
  tried request (answered response) later = (read_export_response response, request ∷ [])

  -- `_read_export_hop`, with the requests that it sends; the text is that of the last error.
  unfoldable pub read_export_hop :
      (HttpRequest → Streamed)
      → Pinned
      → List String
      → String
      → Result HopError Hop × List HttpRequest
  unfolding read_export_response
  read_export_hop stream p [] last = (err (http_failure last), [])
  read_export_hop stream p (url ∷ urls) last =
      tried (export_request p url) (stream (export_request p url))
        (λ message. read_export_hop stream p urls message)
