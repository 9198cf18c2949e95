-- ===== src/Grants/Body.antt =====
-- The size cap of `_race_pinned_fetch`
-- (src/resourcespace_platform/services/asset_service.py): the winner's body, chunk by chunk. A byte
-- is a number; an httpx.HTTPError in the stream is an event of its own.
use resourcespace_authentica.Base.{
  ℕ, ◌+◌, ◌≤◌, ◌≡◌, ◌↔◌, refl, Option, none, some, Bool, false, ltb, length, List, [], ◌∷◌, ◌++◌,
  if◌then◌else◌, arith, ap,
}
use resourcespace_authentica.CanvaVerifier.{Timestamp, positive, negative}

pub data StreamEvent : Type 0 where
  chunk : List ℕ → StreamEvent
  http_error : StreamEvent

abbrev pub prepend : List ℕ → Option (List ℕ) → Option (List ℕ)
prepend bytes none = none
prepend bytes (some body) = some (bytes ++ body)

-- The loop over `aiter_bytes`, from the number of bytes received so far.
unfoldable pub receive : ℕ → ℕ → List StreamEvent → Option (List ℕ)
receive max_bytes received [] = some []
receive max_bytes received (http_error ∷ events) = none
receive max_bytes received (chunk bytes ∷ events) =
    let rest = receive max_bytes (received + length bytes) events in
    if ltb max_bytes (received + length bytes) then none else prepend bytes rest

-- `content-length`, if it parses, is tested first.
abbrev pub declares_too_much : ℕ → Option Timestamp → Bool
declares_too_much max_bytes none = false
declares_too_much max_bytes (some (positive n)) = ltb max_bytes n
declares_too_much max_bytes (some (negative n)) = false

-- `_race_pinned_fetch`, from the winner's response on
unfoldable pub read_body : ℕ → Option Timestamp → List StreamEvent → Option (List ℕ)
unfolding receive
read_body max_bytes declared events =
    if declares_too_much max_bytes declared then none else receive max_bytes 0 events

-- The whole body, if the stream does not break.
abbrev pub whole_body : List StreamEvent → Option (List ℕ)
whole_body [] = some []
whole_body (http_error ∷ events) = none
whole_body (chunk bytes ∷ events) = prepend bytes (whole_body events)

length-append : (xs ys : List ℕ) → length (xs ++ ys) ≡ length xs + length ys
length-append [] ys = omega arith
length-append (x ∷ xs) ys = omega (arith, length-append xs ys)

prepend-eq-some :
    (bytes : List ℕ) (o : Option (List ℕ)) (body : List ℕ)
    → prepend bytes o ≡ some body
    → (rest : List ℕ) × (o ≡ some rest) × (bytes ++ rest ≡ body)
prepend-eq-some bytes none body h = cc
prepend-eq-some bytes (some rest) body h = (rest, refl, cc)

receive-eq-some :
    (max_bytes received : ℕ) (events : List StreamEvent) (body : List ℕ)
    → received ≤ max_bytes
    → receive max_bytes received events ≡ some body
    → (whole_body events ≡ some body) × (received + length body ≤ max_bytes)
unfolding receive
receive-eq-some max_bytes received [] body le h = (h, ground arith)
receive-eq-some max_bytes received (http_error ∷ events) body le h = cc
receive-eq-some max_bytes received (chunk bytes ∷ events) body le h =
    let (rest, e, same) =
      prepend-eq-some bytes (receive max_bytes (received + length bytes) events) body
        (ground arith) in
    let (whole, fits) =
      receive-eq-some max_bytes (received + length bytes) events rest (ground arith) e in
    let size : length body ≡ length bytes + length rest = rw (← same) (length-append bytes rest) in
    (rw whole (ap some same), omega (arith, size, fits))

receive_fits :
    (max_bytes received : ℕ) (events : List StreamEvent) (body : List ℕ)
    → whole_body events ≡ some body
    → received + length body ≤ max_bytes
    → receive max_bytes received events ≡ some body
unfolding receive
receive_fits max_bytes received [] body h le = h
receive_fits max_bytes received (http_error ∷ events) body h le = cc
receive_fits max_bytes received (chunk bytes ∷ events) body h le =
    let (rest, e, same) = prepend-eq-some bytes (whole_body events) body h in
    let size : length body ≡ length bytes + length rest = rw (← same) (length-append bytes rest) in
    let fits : ltb max_bytes (received + length bytes) ≡ false = ground arith in
    rw
      (
        fits,
        receive_fits max_bytes (received + length bytes) events rest e (omega (arith, size, le)),
      )
      (ap some same)

-- A body is returned exactly when the declared length is within the cap, the stream does not break
-- and the body is within the cap; and it is the whole body, never a part of it.
pub read_body_iff :
    (max_bytes : ℕ) (declared : Option Timestamp) (events : List StreamEvent) (body : List ℕ)
    → (read_body max_bytes declared events ≡ some body) ↔ (
        (declares_too_much max_bytes declared ≡ false)
        × (whole_body events ≡ some body)
        × (length body ≤ max_bytes))
unfolding read_body
read_body_iff max_bytes declared events body = (
  λ h.
      let small : declares_too_much max_bytes declared ≡ false = ground arith in
      let (whole, fits) = receive-eq-some max_bytes 0 events body (omega arith) (ground arith) in
      (small, whole, omega (arith, fits)),
  λ (small, whole, fits).
      rw small (receive_fits max_bytes 0 events body whole (omega (arith, fits))),
)
