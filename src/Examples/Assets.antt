-- ===== src/Examples/Assets.antt =====
-- The theorems on grants and asset responses at concrete assets.
use resourcespace_authentica.Base.{
  ℕ, ◌≤◌, String, ◌==◌, ◌≡◌, ◌↔◌, refl, true, false, ok, some, none, lookup, arith, [], ◌∷◌,
  if◌then◌else◌, rstrip_class, is_ascii, truthy, length, List,
}
use resourcespace_authentica.State.{State, initial_state, proxy}
use resourcespace_authentica.CanvaVerifier.{positive}
use resourcespace_authentica.Grants.{
  AssetService, GrantLibrary, GrantDraws, GrantRequest, VerifyDraws, create_grant, verify_grant,
  verified, grant_record, create_signature,
}
use resourcespace_authentica.Grants.Laws.{IsHonoured, verify_iff, verify-create_grant}
use resourcespace_authentica.Grants.Race.{
  Attempt, responded, transport_error, race_pinned_connection, first_accepted, first_unexpected,
}
use resourcespace_authentica.Grants.Race.Winner.{IsWinner, race-IsWinner}
use resourcespace_authentica.Grants.Body.{
  chunk, read_body, whole_body, declares_too_much, read_body_iff,
}
use resourcespace_authentica.Grants.Filenames.{
  sanitized_filename_parts, all_codes, is_header_safe, ascii_fallback_safe,
}
use resourcespace_authentica.Grants.Headers.{
  proxy_headers, is_svg_content_type, proxy_headers_harmless,
}
use resourcespace_authentica.Examples.{demo_config, demo_session}

-- One number is written and read; the digest is the same for every message.
abbrev grant_library : GrantLibrary
grant_library = record {
  hmac_urlsafe = λ key message. "c2ln=";
  int = λ text. if text == "301000" then some (positive 301000) else none;
  str = λ n. "301000";
}

abbrev assets : AssetService
assets = record { config = demo_config; library = grant_library }

abbrev grant_draws : GrantDraws
grant_draws = record { prune_now = 1000; now = 1000; grant_id = "grant_1" }

abbrev grant_request : GrantRequest
grant_request = record {
  path_prefix = "/signed/assets";
  session = demo_session;
  source = proxy "https://dam.example/a.jpg";
  mime_type = some "image/jpeg";
  filename = some "a.jpg";
}

abbrev verify_draws : VerifyDraws
verify_draws = record { now = 2000; prune_now = 2000; found_now = 2000 }

verify-create_grant_example :
    (let (link, s') = create_grant assets grant_draws grant_request initial_state in
      (verify_grant assets verify_draws
        (some link.grant_id)
        (some link.expires)
        (some link.sig)
        s').0
      ≡ ok (verified (grant_record assets grant_draws grant_request)))
unfolding create_grant create_signature rstrip_class is_ascii
verify-create_grant_example =
    verify-create_grant assets grant_draws grant_request verify_draws initial_state refl refl refl
      refl refl (omega arith) (omega arith) (omega arith)

abbrev granted : State
granted = (create_grant assets grant_draws grant_request initial_state).1

verify_iff_example :
    ((verify_grant assets verify_draws (some "grant_1") (some "301000") (some "c2ln") granted).0
      ≡ ok (verified (grant_record assets grant_draws grant_request)))
    ↔ IsHonoured assets verify_draws "grant_1" "301000" "c2ln" granted
        (grant_record assets grant_draws grant_request)
verify_iff_example =
    verify_iff assets verify_draws "grant_1" "301000" "c2ln" granted
      (grant_record assets grant_draws grant_request)

-- The first address fails, then two answer at once.
abbrev batches : List (List Attempt)
batches =
    (record { index = 0; outcome = transport_error } ∷ [])
    ∷ (record { index = 2; outcome = responded 200 }
        ∷ record { index = 1; outcome = responded 200 }
        ∷ [])
    ∷ []

race-IsWinner_example : IsWinner 1 batches
unfolding race_pinned_connection first_accepted first_unexpected
race-IsWinner_example = race-IsWinner batches 1 refl

read_body_iff_example :
    (read_body 4 (some (positive 3)) (chunk (1 ∷ 2 ∷ []) ∷ chunk (3 ∷ []) ∷ [])
      ≡ some (1 ∷ 2 ∷ 3 ∷ []))
    ↔ ((declares_too_much 4 (some (positive 3)) ≡ false)
        × (whole_body (chunk (1 ∷ 2 ∷ []) ∷ chunk (3 ∷ []) ∷ []) ≡ some (1 ∷ 2 ∷ 3 ∷ []))
        × (length {A = ℕ} (1 ∷ 2 ∷ 3 ∷ []) ≤ 4))
read_body_iff_example =
    read_body_iff 4 (some (positive 3)) (chunk (1 ∷ 2 ∷ []) ∷ chunk (3 ∷ []) ∷ []) (1 ∷ 2 ∷ 3 ∷ [])

ascii_fallback_safe_example :
    (all_codes is_header_safe (sanitized_filename_parts (λ s. s) "a\"b.jpg").0 ≡ true)
    × (truthy (sanitized_filename_parts (λ s. s) "a\"b.jpg").0 ≡ true)
ascii_fallback_safe_example = ascii_fallback_safe (λ s. s) "a\"b.jpg"

proxy_headers_harmless_example :
    (let headers = proxy_headers (λ s. s) none (some "image/svg+xml") (some "a.svg") [] in
      ((content_type : String)
        → lookup "Content-Type" headers ≡ some content_type
        → is_svg_content_type content_type ≡ false)
      × (lookup "X-Content-Type-Options" headers ≡ some "nosniff")
      × (lookup "Content-Security-Policy" headers ≡ some "default-src 'none'; sandbox"))
proxy_headers_harmless_example =
    proxy_headers_harmless (λ s. s) none (some "image/svg+xml") (some "a.svg") []
