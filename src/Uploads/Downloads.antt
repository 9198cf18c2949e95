-- ===== src/Uploads/Downloads.antt =====
-- The loop of `_download_bytes` (src/resourcespace_platform/services/resourcespace/_upload.py), with
-- the requests that it sends.
pub mod Stopping
pub mod Requests
pub mod Guarding
pub mod Reading
pub mod Capping
use resourcespace_authentica.Base.{
  ℕ, zero, suc, ◌-◌, ◌+◌, String, ◌<>◌, Option, none, some, truthy_text, get_or, lookup, List, [],
  ◌∷◌, ◌++◌, Result, ok, err, ◌>>=◌,
}
use resourcespace_authentica.Errors.{Exception, resource_space, unexpected, rs_error}
use resourcespace_authentica.Config.{UploadConfig}
use resourcespace_authentica.Hosts.{HostLibrary}
use resourcespace_authentica.Hosts.Resolve.{Pinned, pin_request}
use resourcespace_authentica.Api.{HttpRequest, raised}
use resourcespace_authentica.Uploads.{
  ExportLibrary, Streamed, HopError, http_failure, broker_error, Hop, redirect, body, present,
  export_error, validate_export_url, export_ext_map, read_export_hop,
}

-- What the outside does in one turn of the loop: the resolver may answer the validation and the
-- pinning differently.
pub record Surroundings : Type 0 where
  pub validating : HostLibrary
  pub pinning : HostLibrary
  pub stream : HttpRequest → Streamed

-- The variables of the loop, and the number of the turn.
pub record DownloadState : Type 0 where
  pub redirects_remaining : ℕ
  pub current_url : String
  pub turn : ℕ

-- What `_download_bytes` returns.
pub record Export : Type 0 where
  pub bytes : List ℕ
  pub filename : String
  pub content_type : String

-- The requests of one turn, with the URL that was pinned.
pub record SentHop : Type 0 where
  pub turn : ℕ
  pub url : String
  pub requests : List HttpRequest

pub data Turn : Type 0 where
  finished : Result Exception Export → Turn
  again : DownloadState → Turn

abbrev pub Downloaded : Type 0
Downloaded = Result Exception Export × List SentHop

abbrev pub hop_result : Result HopError Hop → Result Exception Hop
hop_result (ok hop) = ok hop
hop_result (err (broker_error e)) = err (resource_space e)
hop_result (err (http_failure message)) =
    err (export_error "UPSTREAM_UNAVAILABLE" ("Failed to download export: " <> message) 502)

module _ (export : ExportLibrary) (config : UploadConfig) (world : ℕ → Surroundings) where
  -- The validation and the pinning of the current URL.
  unfoldable pub guard_hop : DownloadState → Result Exception Pinned
  unfolding validate_export_url pin_request
  guard_hop s = do
    valid ← validate_export_url (world s.turn).validating config.allowed_hosts export s.current_url
    raised (pin_request (world s.turn).pinning s.current_url [])

  abbrev pub fetch_pinned :
      DownloadState → Result Exception Pinned → Result Exception Hop × List SentHop
  fetch_pinned s (err e) = (err e, [])
  fetch_pinned s (ok p) =
      let (r, sent) =
        read_export_hop export config.max_bytes (world s.turn).stream p p.urls
          "no validated addresses" in
      (hop_result r, record { turn = s.turn; url = s.current_url; requests = sent } ∷ [])

  abbrev pub follow : DownloadState → ℕ → Option String → Turn
  follow s redirects none = finished (err unexpected)
  follow s redirects (some url) =
      again (record { redirects_remaining = redirects; current_url = url; turn = suc s.turn })

  -- `if hop["redirect"]`, by the redirects that remain
  abbrev pub redirected : DownloadState → ℕ → Option String → Turn
  redirected s zero location =
      finished
        (err (export_error "UPSTREAM_REQUEST_FAILED" "Too many redirects fetching export URL." 502))
  redirected s (suc redirects) none =
      finished
        (err (export_error "UPSTREAM_REQUEST_FAILED" "Redirect missing Location header." 502))
  redirected s (suc redirects) (some String.[]) =
      finished
        (err (export_error "UPSTREAM_REQUEST_FAILED" "Redirect missing Location header." 502))
  redirected s (suc redirects) (some (String.◌∷◌ c next_url)) =
      follow s redirects (export.join s.current_url (String.◌∷◌ c next_url))

  abbrev pub after_hop : DownloadState → Result Exception Hop → Turn
  after_hop s (err e) = finished (err e)
  after_hop s (ok (redirect location)) = redirected s s.redirects_remaining location
  after_hop s (ok (body bytes content_type)) = finished (
      ok (record {
        bytes = bytes;
        filename = "canva-export." <> get_or (lookup content_type export_ext_map) "bin";
        content_type = content_type;
      }))

  abbrev pub sent_before : List SentHop → Option Downloaded → Option Downloaded
  sent_before sent none = none
  sent_before sent (some (r, later)) = some (r, sent ++ later)

  abbrev pub next_turn :
      Turn → List SentHop → (DownloadState → Option Downloaded) → Option Downloaded
  next_turn (finished r) sent more = some (r, sent)
  next_turn (again s) sent more = sent_before sent (more s)

  -- `while True`, on fuel
  unfoldable pub download_loop : ℕ → DownloadState → Option Downloaded
  unfolding guard_hop read_export_hop lookup
  download_loop zero s = none
  download_loop (suc fuel) s =
      let (hop, sent) = fetch_pinned s (guard_hop s) in
      next_turn (after_hop s hop) sent (λ s'. download_loop fuel s')

  abbrev pub download_start : String → DownloadState
  download_start url = record { redirects_remaining = 5; current_url = url; turn = 0 }

  abbrev pub downloaded_or : Option Downloaded → Downloaded
  downloaded_or none = (err unexpected, [])
  downloaded_or (some d) = d

  -- `_download_bytes`: five redirects are six turns.
  unfoldable pub download_bytes : String → Downloaded
  unfolding download_loop
  download_bytes url = downloaded_or (download_loop 6 (download_start url))
