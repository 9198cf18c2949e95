-- ===== src/Uploads/Downloads/Stopping.antt =====
-- The end of the loop of `_download_bytes`
-- (src/resourcespace_platform/services/resourcespace/_upload.py).
use resourcespace_authentica.Base.{
  ℕ, zero, suc, ◌+◌, ◌≤◌, ◌<◌, ◌≡◌, refl, ap, String, Option, none, some, List, [], ◌∷◌, ◌++◌,
  length, Result, ok, err, arith, ◌∙◌,
}
use resourcespace_authentica.Errors.{Exception}
use resourcespace_authentica.Config.{UploadConfig}
use resourcespace_authentica.Hosts.Resolve.{Pinned}
use resourcespace_authentica.Uploads.{ExportLibrary, Hop, redirect, body}
use resourcespace_authentica.Uploads.Downloads.{
  Surroundings, DownloadState, SentHop, Turn, finished, again, Downloaded, guard_hop, fetch_pinned,
  follow, redirected, after_hop, sent_before, next_turn, download_loop, download_start,
  downloaded_or, download_bytes,
}

length-append : (xs ys : List SentHop) → length (xs ++ ys) ≡ length xs + length ys
length-append [] ys = omega arith
length-append (x ∷ xs) ys = omega (arith, length-append xs ys)

module _ (export : ExportLibrary) (config : UploadConfig) (world : ℕ → Surroundings) where
  -- A turn that goes on has one redirect less.
  abbrev IsSpent : ℕ → Turn → Type 0
  IsSpent redirects (finished r) = Unit
  IsSpent redirects (again s) = redirects ≡ suc s.redirects_remaining

  follow-IsSpent :
      (s : DownloadState) (redirects : ℕ) (url : Option String)
      → IsSpent (suc redirects) (follow export config world s redirects url)
  follow-IsSpent s redirects none = tt
  follow-IsSpent s redirects (some url) = refl

  redirected-IsSpent :
      (s : DownloadState) (redirects : ℕ) (location : Option String)
      → IsSpent redirects (redirected export config world s redirects location)
  redirected-IsSpent s zero location = tt
  redirected-IsSpent s (suc redirects) none = tt
  redirected-IsSpent s (suc redirects) (some String.[]) = tt
  redirected-IsSpent s (suc redirects) (some (String.◌∷◌ c next_url)) =
      follow-IsSpent s redirects (export.join s.current_url (String.◌∷◌ c next_url))

  pub after_hop-IsSpent :
      (s : DownloadState) (hop : Result Exception Hop)
      → IsSpent s.redirects_remaining (after_hop export config world s hop)
  after_hop-IsSpent s (err e) = tt
  after_hop-IsSpent s (ok (redirect location)) = redirected-IsSpent s s.redirects_remaining location
  after_hop-IsSpent s (ok (body bytes content_type)) = tt

  sent_once :
      (s : DownloadState) (guarded : Result Exception Pinned)
      → length (fetch_pinned export config world s guarded).1 ≤ 1
  sent_once s (err e) = omega arith
  sent_once s (ok p) = omega arith

  -- The loop comes to an end, and at most so many of its turns have sent requests.
  abbrev IsEnding : Option Downloaded → ℕ → Type 0
  IsEnding o turns = (outcome : Downloaded) × (o ≡ some outcome) × (length outcome.1 ≤ turns)

  next_turn-IsEnding :
      (t : Turn) (sent : List SentHop) (more : DownloadState → Option Downloaded) (redirects : ℕ)
      → length sent ≤ 1
      → IsSpent redirects t
      → ((s : DownloadState) → redirects ≡ suc s.redirects_remaining → IsEnding (more s) redirects)
      → IsEnding (next_turn export config world t sent more) (suc redirects)
  next_turn-IsEnding (finished r) sent more redirects le spent h =
      ((r, sent), refl, omega (arith, le))
  next_turn-IsEnding (again s) sent more redirects le spent h =
      let ((r, later), e, fits) = h s spent in
      ((r, sent ++ later), rw e refl, omega (arith, le, fits, length-append sent later))

  loop-IsEnding :
      (fuel : ℕ) (s : DownloadState)
      → s.redirects_remaining < fuel
      → IsEnding (download_loop export config world fuel s) (suc s.redirects_remaining)
  unfolding download_loop
  loop-IsEnding zero s lt = absurd (omega (arith, lt))
  loop-IsEnding (suc fuel) s lt =
      let fetched = fetch_pinned export config world s (guard_hop export config world s) in
      next_turn-IsEnding (after_hop export config world s fetched.0) fetched.1
        (λ s'. download_loop export config world fuel s') s.redirects_remaining
        (sent_once s (guard_hop export config world s)) (after_hop-IsSpent s fetched.0)
        (λ s' e. rw e (loop-IsEnding fuel s' (omega (arith, lt, e))))

  -- More fuel changes nothing.
  next_turn_same :
      (t : Turn) (sent : List SentHop) (more less : DownloadState → Option Downloaded)
      (redirects : ℕ)
      → IsSpent redirects t
      → ((s : DownloadState) → redirects ≡ suc s.redirects_remaining → more s ≡ less s)
      → next_turn export config world t sent more ≡ next_turn export config world t sent less
  next_turn_same (finished r) sent more less redirects spent h = refl
  next_turn_same (again s) sent more less redirects spent h =
      ap (sent_before export config world sent) (h s spent)

  loop_same :
      (fuel : ℕ) (s : DownloadState)
      → s.redirects_remaining < fuel
      → download_loop export config world (suc fuel) s ≡ download_loop export config world fuel s
  unfolding download_loop
  loop_same zero s lt = absurd (omega (arith, lt))
  loop_same (suc fuel) s lt =
      let fetched = fetch_pinned export config world s (guard_hop export config world s) in
      next_turn_same (after_hop export config world s fetched.0) fetched.1
        (λ s'. download_loop export config world (suc fuel) s')
        (λ s'. download_loop export config world fuel s') s.redirects_remaining
        (after_hop-IsSpent s fetched.0) (λ s' e. loop_same fuel s' (omega (arith, lt, e)))

  loop_fuel :
      (extra : ℕ) (s : DownloadState)
      → s.redirects_remaining < 6
      → download_loop export config world (extra + 6) s ≡ download_loop export config world 6 s
  loop_fuel zero s lt = refl
  loop_fuel (suc extra) s lt =
      ap (λ n. download_loop export config world n s) (omega arith)
      ∙ loop_same (extra + 6) s (omega (arith, lt))
      ∙ loop_fuel extra s lt

  ending_outcome :
      (o : Option Downloaded) (turns : ℕ)
      → IsEnding o turns
      → (o ≡ some (downloaded_or export config world o))
        × (length (downloaded_or export config world o).1 ≤ turns)
  ending_outcome none turns (outcome, e, few) = cc
  ending_outcome (some d) turns (outcome, e, few) = (refl, rw e few)

  -- The download of any URL ends, whatever the servers and the resolver answer: with six turns or
  -- any more the loop comes to the outcome that `download_bytes` gives, and at most six of its turns
  -- have sent requests.
  pub download_bytes_ends :
      (extra : ℕ) (url : String)
      → (download_loop export config world (extra + 6) (download_start export config world url)
          ≡ some (download_bytes export config world url))
        × (length (download_bytes export config world url).1 ≤ 6)
  unfolding download_bytes
  download_bytes_ends extra url =
      let (e, few) =
        ending_outcome
          (download_loop export config world 6 (download_start export config world url)) 6
          (loop-IsEnding 6 (download_start export config world url) (omega arith)) in
      (loop_fuel extra (download_start export config world url) (omega arith) ∙ e, few)
