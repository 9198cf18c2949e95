-- ===== src/Uploads/Downloads/Capping.antt =====
-- The body that `_download_bytes`
-- (src/resourcespace_platform/services/resourcespace/_upload.py) returns.
use resourcespace_authentica.Base.{
  ℕ, zero, suc, ◌≡◌, String, Option, none, some, List, Result, ok, err,
}
use resourcespace_authentica.Errors.{Exception}
use resourcespace_authentica.Config.{UploadConfig}
use resourcespace_authentica.Hosts.Resolve.{Pinned}
use resourcespace_authentica.Uploads.{
  ExportLibrary, HopError, http_failure, broker_error, Hop, redirect, body, read_export_hop,
}
use resourcespace_authentica.Uploads.Downloads.{
  Surroundings, DownloadState, SentHop, Turn, finished, again, Downloaded, Export, guard_hop,
  fetch_pinned, hop_result, redirected, follow, after_hop, sent_before, next_turn, download_loop,
  download_start, downloaded_or, download_bytes,
}
use resourcespace_authentica.Uploads.Downloads.Reading.{IsBodyOf, IsHopOf, read_export_hop-IsHopOf}

module _ (export : ExportLibrary) (config : UploadConfig) (world : ℕ → Surroundings) where
  -- A returned export is the whole body of a response in some turn, within the cap.
  abbrev IsDownload : Result Exception Export → Type 0
  IsDownload (err e) = Unit
  IsDownload (ok d) = (turn : ℕ) × IsBodyOf export config.max_bytes (world turn).stream d.bytes

  abbrev IsFine : Option Downloaded → Type 0
  IsFine none = Unit
  IsFine (some (r, sent)) = IsDownload r

  abbrev IsFineTurn : Turn → Type 0
  IsFineTurn (finished r) = IsDownload r
  IsFineTurn (again s) = Unit

  follow-IsFineTurn :
      (s : DownloadState) (redirects : ℕ) (url : Option String)
      → IsFineTurn (follow export config world s redirects url)
  follow-IsFineTurn s redirects none = tt
  follow-IsFineTurn s redirects (some url) = tt

  redirected-IsFineTurn :
      (s : DownloadState) (redirects : ℕ) (location : Option String)
      → IsFineTurn (redirected export config world s redirects location)
  redirected-IsFineTurn s zero location = tt
  redirected-IsFineTurn s (suc redirects) none = tt
  redirected-IsFineTurn s (suc redirects) (some String.[]) = tt
  redirected-IsFineTurn s (suc redirects) (some (String.◌∷◌ c next_url)) =
      follow-IsFineTurn s redirects (export.join s.current_url (String.◌∷◌ c next_url))

  hop-IsFineTurn :
      (s : DownloadState) (r : Result HopError Hop)
      → IsHopOf export config.max_bytes (world s.turn).stream r
      → IsFineTurn (after_hop export config world s (hop_result r))
  hop-IsFineTurn s (ok (redirect location)) h =
      redirected-IsFineTurn s s.redirects_remaining location
  hop-IsFineTurn s (ok (body bytes content_type)) h = (s.turn, h)
  hop-IsFineTurn s (err (broker_error e)) h = tt
  hop-IsFineTurn s (err (http_failure message)) h = tt

  fetched-IsFineTurn :
      (s : DownloadState) (guarded : Result Exception Pinned)
      → IsFineTurn (after_hop export config world s (fetch_pinned export config world s guarded).0)
  fetched-IsFineTurn s (err e) = tt
  fetched-IsFineTurn s (ok p) =
      hop-IsFineTurn s
        (read_export_hop export config.max_bytes (world s.turn).stream p p.urls
          "no validated addresses").0
        (read_export_hop-IsHopOf export config.max_bytes (world s.turn).stream p p.urls
          "no validated addresses")

  sent_before-IsFine :
      (sent : List SentHop) (o : Option Downloaded)
      → IsFine o
      → IsFine (sent_before export config world sent o)
  sent_before-IsFine sent none h = tt
  sent_before-IsFine sent (some (r, later)) h = h

  next_turn-IsFine :
      (t : Turn) (sent : List SentHop) (more : DownloadState → Option Downloaded)
      → IsFineTurn t
      → ((s : DownloadState) → IsFine (more s))
      → IsFine (next_turn export config world t sent more)
  next_turn-IsFine (finished r) sent more h k = h
  next_turn-IsFine (again s) sent more h k = sent_before-IsFine sent (more s) (k s)

  loop-IsFine : (fuel : ℕ) (s : DownloadState) → IsFine (download_loop export config world fuel s)
  unfolding download_loop
  loop-IsFine zero s = tt
  loop-IsFine (suc fuel) s =
      let guarded = guard_hop export config world s in
      let fetched = fetch_pinned export config world s guarded in
      next_turn-IsFine (after_hop export config world s fetched.0) fetched.1
        (λ s'. download_loop export config world fuel s') (fetched-IsFineTurn s guarded)
        (λ s'. loop-IsFine fuel s')

  outcome-IsDownload :
      (o : Option Downloaded) → IsFine o → IsDownload (downloaded_or export config world o).0
  outcome-IsDownload none h = tt
  outcome-IsDownload (some (r, sent)) h = h

  download-IsDownload :
      (r : Result Exception Export) (d : Export)
      → IsDownload r
      → r ≡ ok d
      → (turn : ℕ) × IsBodyOf export config.max_bytes (world turn).stream d.bytes
  download-IsDownload r d h e = rw e at h

  -- If bytes are returned, they are the whole body of a response that the network gave to a request
  -- in some turn, never a part of it, and there are at most CANVA_UPLOAD_MAX_BYTES of them.
  pub download_bytes-IsBodyOf :
      (url : String) (d : Export)
      → (download_bytes export config world url).0 ≡ ok d
      → (turn : ℕ) × IsBodyOf export config.max_bytes (world turn).stream d.bytes
  unfolding download_bytes
  download_bytes-IsBodyOf url d e =
      download-IsDownload (download_bytes export config world url).0 d
        (outcome-IsDownload
          (download_loop export config world 6 (download_start export config world url))
          (loop-IsFine 6 (download_start export config world url)))
        e
