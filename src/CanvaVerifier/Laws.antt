-- ===== src/CanvaVerifier/Laws.antt =====
-- The conditions of `verify_canva_post_request`
-- (src/resourcespace_platform/services/canva_verifier.py).
use resourcespace_authentica.Base.{
  ℕ, ◌<◌, ◌≡◌, ◌↔◌, refl, String, Option, none, some, true, truthy_text, any, contains, List, [],
  ◌∷◌, get_or, is_ascii, arith, eq_iff, Bool-cases, inl, inr, ◌==◌, ◌||◌, not, ap,
}
use resourcespace_authentica.Config.{AppConfig}
use resourcespace_authentica.CanvaVerifier.{
  Signing, Timestamp, accepted, split_signatures, present, distance, signature_matches,
  should_verify, decode_secret, check_signature, post_message, verify_post_with,
  verify_canva_post_request,
}

signature_matches_iff :
    (expected candidate : String)
    → is_ascii expected ≡ true
    → signature_matches expected candidate ≡ (expected == candidate)
unfolding signature_matches
signature_matches_iff expected candidate h = elim (Bool-cases (expected == candidate)) [
  | inr differ ↦ ground arith
  | inl same ↦ rw (same, ← (eq_iff expected candidate).0 same, h) (ground arith)
]

any-signature_matches :
    (expected : String) (signatures : List String)
    → is_ascii expected ≡ true
    → any (signature_matches expected) signatures ≡ contains expected signatures
any-signature_matches expected [] h = refl
any-signature_matches expected (x ∷ xs) h =
    rw (signature_matches_iff expected x h, any-signature_matches expected xs h) refl

-- The request carries the HMAC of its timestamp, path and body under the decoded client secret, and
-- its timestamp is nearer to the clock than the tolerance.
pub record IsSignedPost (signing : Signing) (config : AppConfig) (now : ℕ)
    (signature_header timestamp : Option String) (path raw_body : String) : Type 0 where
  pub secret : signing.Key
  pub sent : Timestamp
  pub decoded : decode_secret signing config ≡ some secret
  pub stamped : truthy_text timestamp ≡ true
  pub parsed : signing.parse_int (get_or timestamp "") ≡ some sent
  pub timely : distance sent now < config.signing.request_timestamp_tolerance_seconds
  pub signed :
      contains
        (signing.hmac_sha256 secret (post_message (get_or timestamp "") path raw_body))
        (split_signatures signature_header)
      ≡ true

module _ (signing : Signing)
    (hex : (k : signing.Key) (m : String) → is_ascii (signing.hmac_sha256 k m) ≡ true) where
  check_signature-ok :
      (config : AppConfig) (now : ℕ) (secret : signing.Key) (message : String)
      (signatures : List String) (parsed : Option Timestamp)
      → (check_signature signing config now secret message signatures parsed).is_ok ≡ true
      → (sent : Timestamp) × (parsed ≡ some sent)
        × (distance sent now < config.signing.request_timestamp_tolerance_seconds)
        × (contains (signing.hmac_sha256 secret message) signatures ≡ true)
  unfolding check_signature
  check_signature-ok config now secret message signatures none h = cc
  check_signature-ok config now secret message signatures (some sent) h =
      let same =
        any-signature_matches (signing.hmac_sha256 secret message) signatures
          (hex secret message) in
      (sent, refl, ground arith, ground (arith, same))

  check_signature_complete :
      (config : AppConfig) (now : ℕ) (secret : signing.Key) (message : String)
      (signatures : List String) (sent : Timestamp)
      → distance sent now < config.signing.request_timestamp_tolerance_seconds
      → contains (signing.hmac_sha256 secret message) signatures ≡ true
      → check_signature signing config now secret message signatures (some sent) ≡ accepted
  unfolding check_signature
  check_signature_complete config now secret message signatures sent timely signed =
      let same =
        any-signature_matches (signing.hmac_sha256 secret message) signatures
          (hex secret message) in
      rw (same, signed) (ground arith)

  -- What an accepted request with a decoded secret carries.
  post_with-ok :
      (config : AppConfig) (now : ℕ) (signatures : List String) (timestamp : Option String)
      (path raw_body : String) (secret : Option signing.Key)
      → (verify_post_with signing config now signatures timestamp path raw_body secret).is_ok ≡ true
      → (k : signing.Key) × (sent : Timestamp) × (secret ≡ some k)
        × (truthy_text timestamp ≡ true)
        × (signing.parse_int (get_or timestamp "") ≡ some sent)
        × (distance sent now < config.signing.request_timestamp_tolerance_seconds)
        × (contains
              (signing.hmac_sha256 k (post_message (get_or timestamp "") path raw_body))
              signatures
            ≡ true)
  post_with-ok config now signatures timestamp path raw_body none h = cc
  post_with-ok config now signatures timestamp path raw_body (some k) h =
      elim (Bool-cases (not (truthy_text timestamp) || not (present signatures))) [
        | inl lacking ↦ absurd (cc (rw lacking at h))
        | inr complete ↦
            let (sent, parsed, timely, signed) =
              check_signature-ok config now k (post_message (get_or timestamp "") path raw_body)
                signatures (signing.parse_int (get_or timestamp "")) (rw complete at h) in
            (k, sent, refl, ground arith, parsed, timely, signed)
      ]

  contains-present : (s : String) (xs : List String) → contains s xs ≡ true → present xs ≡ true
  contains-present s [] h = h
  contains-present s (x ∷ xs) h = refl

  -- Where verification is required, a POST request passes exactly when it is signed: a secret is
  -- configured and decodes, the timestamp is sent, parses and is nearer to the clock than the
  -- tolerance, and one of the signatures is the HMAC of timestamp, path and body.
  pub verify_post_iff :
      (config : AppConfig) (now : ℕ) (signature_header timestamp : Option String)
      (path raw_body : String)
      → config.signing.request_verification_mode ≡ "required"
      → ((verify_canva_post_request signing config now signature_header timestamp path
            raw_body).is_ok
          ≡ true)
        ↔ IsSignedPost signing config now signature_header timestamp path raw_body
  unfolding verify_canva_post_request should_verify
  verify_post_iff config now signature_header timestamp path raw_body mode = (
    λ h.
        let (k, sent, decoded, stamped, parsed, timely, signed) =
          post_with-ok config now (split_signatures signature_header) timestamp path raw_body
            (decode_secret signing config) (rw mode at h) in
        record {
          secret = k;
          sent = sent;
          decoded = decoded;
          stamped = stamped;
          parsed = parsed;
          timely = timely;
          signed = signed;
        },
    λ x.
        let given =
          contains-present
            (signing.hmac_sha256 x.secret (post_message (get_or timestamp "") path raw_body))
            (split_signatures signature_header) x.signed in
        rw mode (
          rw (x.decoded, x.stamped, given, x.parsed)
            (ap (λ r. r.is_ok)
              (check_signature_complete config now x.secret
                (post_message (get_or timestamp "") path raw_body)
                (split_signatures signature_header) x.sent x.timely x.signed))),
  )
