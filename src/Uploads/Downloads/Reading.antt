-- ===== src/Uploads/Downloads/Reading.antt =====
-- The body that one turn of `_download_bytes`
-- (src/resourcespace_platform/services/resourcespace/_upload.py) reads.
use mathlib.Core.Path.{subst}
use resourcespace_authentica.Base.{
  ℕ, ◌+◌, ◌≤◌, ◌≡◌, refl, ap, String, Option, none, some, List, [], ◌∷◌, ◌++◌, length, Result, ok,
  err, ◌>>=◌, ok_inj, ltb, leb, arith, Bool-cases, inl, inr,
}
use resourcespace_authentica.Hosts.Resolve.{Pinned}
use resourcespace_authentica.Grants.Body.{declares_too_much}
use resourcespace_authentica.Api.{HttpRequest}
use resourcespace_authentica.Uploads.{
  ExportLibrary, ExportEvent, chunk, broken, ExportResponse, Streamed, connect_error, http_error,
  answered, HopError, Hop, redirect, body, after_chunk, is_redirect, declared_length, media_type,
  export_request, receive_export, read_export_response, tried, read_export_hop,
}

abbrev joined : List ℕ → Option (List ℕ) → Option (List ℕ)
joined bytes none = none
joined bytes (some rest) = some (bytes ++ rest)

-- The chunks together, if nothing breaks them off.
abbrev pub whole_export : List ExportEvent → Option (List ℕ)
whole_export [] = some []
whole_export (broken message ∷ events) = none
whole_export (chunk bytes ∷ events) = joined bytes (whole_export events)

length-append : (xs ys : List ℕ) → length (xs ++ ys) ≡ length xs + length ys
length-append [] ys = omega arith
length-append (x ∷ xs) ys = omega (arith, length-append xs ys)

after_chunk-eq-ok :
    (bytes : List ℕ) (r : Result HopError (List ℕ)) (all : List ℕ)
    → after_chunk bytes r ≡ ok all
    → (rest : List ℕ) × (r ≡ ok rest) × (bytes ++ rest ≡ all)
after_chunk-eq-ok bytes (ok rest) all h = (rest, refl, ok_inj h)
after_chunk-eq-ok bytes (err e) all h = cc

module _ (export : ExportLibrary) (max_bytes : ℕ) where
  receive_export-eq-ok :
      (received : ℕ) (events : List ExportEvent) (bytes : List ℕ)
      → received ≤ max_bytes
      → receive_export export max_bytes received events ≡ ok bytes
      → (whole_export events ≡ some bytes) × (received + length bytes ≤ max_bytes)
  unfolding receive_export
  receive_export-eq-ok received [] bytes le h =
      subst (λ x. (some [] ≡ some x) × (received + length x ≤ max_bytes)) (ok_inj h)
        (refl, omega (arith, le))
  receive_export-eq-ok received (broken message ∷ events) bytes le h = cc
  receive_export-eq-ok received (chunk first ∷ events) bytes le h =
      elim (Bool-cases (ltb max_bytes (received + length first))) [
        | inl over ↦ absurd (cc (rw over at h))
        | inr within ↦
            let (rest, e, same) =
              after_chunk-eq-ok first
                (receive_export export max_bytes (received + length first) events) bytes
                (rw within at h) in
            let (whole, fits) =
              receive_export-eq-ok (received + length first) events rest (ground arith) e in
            let size : length bytes ≡ length first + length rest =
              rw (← same) (length-append first rest) in
            (rw whole (ap some same), omega (arith, size, fits))
      ]

  -- The bytes are the whole body of the response, and within the cap.
  pub record IsWholeBody (response : ExportResponse) (bytes : List ℕ) : Type 0 where
    pub whole : whole_export response.events ≡ some bytes
    pub capped : length bytes ≤ max_bytes

  abbrev IsReadFrom : ExportResponse → Result HopError Hop → Type 0
  IsReadFrom response (ok (body bytes content_type)) = IsWholeBody response bytes
  IsReadFrom response (ok (redirect location)) = Unit
  IsReadFrom response (err e) = Unit

  received-IsReadFrom :
      (response : ExportResponse) (r : Result HopError (List ℕ))
      → receive_export export max_bytes 0 response.events ≡ r
      → IsReadFrom response (do bytes ← r; ok (body bytes (media_type export max_bytes response)))
  received-IsReadFrom response (ok bytes) e =
      let (whole, fits) = receive_export-eq-ok 0 response.events bytes (omega arith) e in
      record { whole = whole; capped = omega (arith, fits) }
  received-IsReadFrom response (err x) e = tt

  read_response-IsReadFrom :
      (response : ExportResponse)
      → IsReadFrom response (read_export_response export max_bytes response)
  unfolding read_export_response
  read_response-IsReadFrom response =
      elim (Bool-cases (is_redirect export max_bytes response.status_code)) [
        | inl yes_redirect ↦ rw (yes_redirect, IsReadFrom) tt
        | inr no_redirect ↦ elim (Bool-cases (leb 400 response.status_code)) [
          | inl failed ↦ rw (no_redirect, failed, IsReadFrom) tt
          | inr fine ↦
              elim (Bool-cases (
                declares_too_much max_bytes
                  (declared_length export max_bytes response.content_length))) [
                    | inl large ↦ rw (no_redirect, fine, large, IsReadFrom) tt
                    | inr small ↦
                        rw (no_redirect, fine, small)
                          (received-IsReadFrom response
                            (receive_export export max_bytes 0 response.events) refl)
                  ]
        ]
      ]

  -- A body comes from a response that the network gave to a request.
  pub record IsBodyOf (stream : HttpRequest → Streamed) (bytes : List ℕ) : Type 0 where
    pub request : HttpRequest
    pub response : ExportResponse
    pub given : stream request ≡ answered response
    pub read : IsWholeBody response bytes

  abbrev pub IsHopOf : (HttpRequest → Streamed) → Result HopError Hop → Type 0
  IsHopOf stream (ok (body bytes content_type)) = IsBodyOf stream bytes
  IsHopOf stream (ok (redirect location)) = Unit
  IsHopOf stream (err e) = Unit

  response-IsHopOf :
      (stream : HttpRequest → Streamed) (request : HttpRequest) (response : ExportResponse)
      (r : Result HopError Hop)
      → stream request ≡ answered response
      → IsReadFrom response r
      → IsHopOf stream r
  response-IsHopOf stream request response (ok (body bytes content_type)) e h = record {
    request = request;
    response = response;
    given = e;
    read = h;
  }
  response-IsHopOf stream request response (ok (redirect location)) e h = tt
  response-IsHopOf stream request response (err x) e h = tt

  tried-IsHopOf :
      (stream : HttpRequest → Streamed) (request : HttpRequest) (answer : Streamed)
      (later : String → Result HopError Hop × List HttpRequest)
      → stream request ≡ answer
      → ((message : String) → IsHopOf stream (later message).0)
      → IsHopOf stream (tried export max_bytes request answer later).0
  tried-IsHopOf stream request (connect_error message) later e h = h message
  tried-IsHopOf stream request (http_error message) later e h = tt
  tried-IsHopOf stream request (answered response) later e h =
      response-IsHopOf stream request response (read_export_response export max_bytes response) e
        (read_response-IsReadFrom response)

  pub read_export_hop-IsHopOf :
      (stream : HttpRequest → Streamed) (p : Pinned) (urls : List String) (last : String)
      → IsHopOf stream (read_export_hop export max_bytes stream p urls last).0
  unfolding read_export_hop
  read_export_hop-IsHopOf stream p [] last = tt
  read_export_hop-IsHopOf stream p (url ∷ urls) last =
      tried-IsHopOf stream (export_request p url) (stream (export_request p url))
        (λ message. read_export_hop export max_bytes stream p urls message) refl
        (λ message. read_export_hop-IsHopOf stream p urls message)
