-- ===== src/Uploads/Downloads/Guarding.antt =====
-- The requests of `_download_bytes`
-- (src/resourcespace_platform/services/resourcespace/_upload.py), over all its turns.
use resourcespace_authentica.Base.{
  ℕ, zero, suc, ◌≡◌, refl, String, Option, none, some, true, contains, List, [], ◌∷◌, ◌++◌, Result,
  ok, err, >>=-eq-ok, All,
}
use resourcespace_authentica.Errors.{Exception}
use resourcespace_authentica.Config.{UploadConfig}
use resourcespace_authentica.Hosts.{Url}
use resourcespace_authentica.Hosts.Resolve.{Pinned, pin_request}
use resourcespace_authentica.Hosts.Requests.{IsSafe, pin_request-IsSafe}
use resourcespace_authentica.Uploads.{SplitUrl, ExportLibrary, present, validate_export_url}
use resourcespace_authentica.Uploads.Downloads.{
  Surroundings, DownloadState, SentHop, Turn, finished, again, Downloaded, guard_hop, fetch_pinned,
  after_hop, sent_before, next_turn, download_loop, download_start, downloaded_or, download_bytes,
}
use resourcespace_authentica.Uploads.Downloads.Requests.{
  IsValidated, check_split-IsValidated, present-eq-ok, raised_pin-eq-ok, IsSentTo,
  read_export_hop-AllSentTo, All-contains,
}

module _ (export : ExportLibrary) (config : UploadConfig) (world : ℕ → Surroundings) where
  -- The URL of the turn was validated and then pinned to public addresses of its host, and every
  -- request of the turn went to one of these under the host's name.
  pub record IsGuarded (sent : SentHop) : Type 0 where
    pub split : SplitUrl
    pub parsed_by_urllib : export.urlparse sent.url ≡ some split
    pub validated : IsValidated (world sent.turn).validating config.allowed_hosts split
    pub parsed : Url
    pub parsed_by_httpx : (world sent.turn).pinning.parse_url sent.url ≡ some parsed
    pub pin : Pinned
    pub safe : IsSafe (world sent.turn).pinning parsed [] pin
    pub pinned_requests :
        All (IsSentTo (λ u. contains u pin.urls ≡ true) pin export config.max_bytes) sent.requests

  fetched-AllGuarded :
      (s : DownloadState) (guarded : Result Exception Pinned)
      → guard_hop export config world s ≡ guarded
      → All IsGuarded (fetch_pinned export config world s guarded).1
  unfolding guard_hop validate_export_url
  fetched-AllGuarded s (err e) h = tt
  fetched-AllGuarded s (ok p) h =
      let (valid, e1, h1) =
        >>=-eq-ok
          (validate_export_url (world s.turn).validating config.allowed_hosts export s.current_url)
          _ p h in
      let (split, e2, h2) = >>=-eq-ok (present (export.urlparse s.current_url)) _ valid e1 in
      let (parsed, e3, safe) =
        pin_request-IsSafe (world s.turn).pinning s.current_url [] p
          (raised_pin-eq-ok (pin_request (world s.turn).pinning s.current_url []) p h1) in
      (
        record {
          split = split;
          parsed_by_urllib = present-eq-ok (export.urlparse s.current_url) split e2;
          validated =
              check_split-IsValidated (world s.turn).validating config.allowed_hosts split h2;
          parsed = parsed;
          parsed_by_httpx = e3;
          pin = p;
          safe = safe;
          pinned_requests =
              read_export_hop-AllSentTo (λ u. contains u p.urls ≡ true) p export config.max_bytes
                (world s.turn).stream p.urls "no validated addresses" (All-contains p.urls);
        },
        tt,
      )

  AllGuarded-append :
      (xs ys : List SentHop) → All IsGuarded xs → All IsGuarded ys → All IsGuarded (xs ++ ys)
  AllGuarded-append [] ys h k = k
  AllGuarded-append (x ∷ xs) ys (g, h) k = (g, AllGuarded-append xs ys h k)

  abbrev AllSentGuarded : Option Downloaded → Type 0
  AllSentGuarded none = Unit
  AllSentGuarded (some d) = All IsGuarded d.1

  sent_before-AllGuarded :
      (sent : List SentHop) (o : Option Downloaded)
      → All IsGuarded sent
      → AllSentGuarded o
      → AllSentGuarded (sent_before export config world sent o)
  sent_before-AllGuarded sent none h k = tt
  sent_before-AllGuarded sent (some (r, later)) h k = AllGuarded-append sent later h k

  next_turn-AllGuarded :
      (t : Turn) (sent : List SentHop) (more : DownloadState → Option Downloaded)
      → All IsGuarded sent
      → ((s : DownloadState) → AllSentGuarded (more s))
      → AllSentGuarded (next_turn export config world t sent more)
  next_turn-AllGuarded (finished r) sent more h k = h
  next_turn-AllGuarded (again s) sent more h k = sent_before-AllGuarded sent (more s) h (k s)

  loop-AllGuarded :
      (fuel : ℕ) (s : DownloadState) → AllSentGuarded (download_loop export config world fuel s)
  unfolding download_loop
  loop-AllGuarded zero s = tt
  loop-AllGuarded (suc fuel) s =
      let guarded = guard_hop export config world s in
      let fetched = fetch_pinned export config world s guarded in
      next_turn-AllGuarded (after_hop export config world s fetched.0) fetched.1
        (λ s'. download_loop export config world fuel s') (fetched-AllGuarded s guarded refl)
        (λ s'. loop-AllGuarded fuel s')

  outcome-AllGuarded :
      (o : Option Downloaded)
      → AllSentGuarded o
      → All IsGuarded (downloaded_or export config world o).1
  outcome-AllGuarded none h = tt
  outcome-AllGuarded (some d) h = h

  -- Whatever the servers and the resolver answer, and in every turn, redirects included: a request
  -- for the current URL is sent only after urlparse found it https with a host that is allowed and
  -- has no private address, and only to addresses that the pinning, a later question to the
  -- resolver, found public, under the Host header and the SNI name of the host that httpx parses.
  pub download_bytes-AllGuarded :
      (url : String) → All IsGuarded (download_bytes export config world url).1
  unfolding download_bytes
  download_bytes-AllGuarded url =
      outcome-AllGuarded
        (download_loop export config world 6 (download_start export config world url))
        (loop-AllGuarded 6 (download_start export config world url))
