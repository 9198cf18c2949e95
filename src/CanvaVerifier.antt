-- ===== src/CanvaVerifier.antt =====
-- The verification of requests that Canva signs
-- (src/resourcespace_platform/services/canva_verifier.py). The standard library's base64, HMAC and
-- integer parsing are parameters.
pub mod Laws
use resourcespace_authentica.Base.{
  ℕ, zero, suc, ◌+◌, ◌-◌, String, ◌<>◌, Option, none, some, Bool, true, false, not, ◌&&◌, ◌||◌,
  ◌==◌, ltb, leb, if◌then◌else◌, truthy, truthy_text, any, List, [], ◌∷◌, split_on, strip_parts,
  is_ascii, text_length, same_code, get_or,
}
use resourcespace_authentica.Config.{AppConfig}

-- A parsed timestamp: `int()` takes a sign. `negative n` is -(n + 1).
pub data Timestamp : Type 0 where
  positive : ℕ → Timestamp
  negative : ℕ → Timestamp

-- `b64decode` is `none` where it raises; `hmac_sha256` is the hexadecimal digest of a message under
-- a key; `parse_int` is `int()`, `none` where it raises.
pub record Signing : Type 1 where
  pub Key : Type 0
  pub b64decode : String → Option Key
  pub hmac_sha256 : Key → String → String
  pub parse_int : String → Option Timestamp

pub record VerificationResult : Type 0 where
  pub is_ok : Bool
  pub reason : Option String
  pub skipped : Bool

abbrev pub accepted : VerificationResult
accepted = record { is_ok = true; reason = none; skipped = false }

abbrev pub skipped_result : VerificationResult
skipped_result = record { is_ok = true; reason = none; skipped = true }

abbrev pub rejected : String → VerificationResult
rejected reason = record { is_ok = false; reason = some reason; skipped = false }

-- `_split_signatures`
unfoldable pub split_signatures : Option String → List String
unfolding split_on strip_parts
split_signatures raw = if truthy_text raw then strip_parts (split_on b',' (get_or raw "")) else []

abbrev pub present : List String → Bool
present [] = false
present (x ∷ xs) = true

-- `abs(sent - received)`
abbrev pub distance : Timestamp → ℕ → ℕ
distance (positive sent) received = (sent - received) + (received - sent)
distance (negative n) received = n + 1 + received

-- `_is_valid_timestamp`
unfoldable pub is_valid_timestamp : Timestamp → ℕ → ℕ → Bool
is_valid_timestamp sent received leniency = ltb (distance sent received) leniency

-- `_signature_matches`
unfoldable pub signature_matches : String → String → Bool
unfolding is_ascii text_length
signature_matches expected candidate =
    same_code (text_length candidate) (text_length expected)
    && is_ascii candidate
    && expected == candidate

-- `_should_verify`
unfoldable pub should_verify : String → Bool → Bool
should_verify mode marker_present =
    if mode == "off" then false else if mode == "required" then true else marker_present

abbrev pub not_run : AppConfig → VerificationResult
not_run config =
    if config.signing.request_verification_mode == "off" then accepted else skipped_result

abbrev pub post_message : String → String → String → String
post_message timestamp path raw_body = "v1:" <> timestamp <> ":" <> path <> ":" <> raw_body

-- The query parameters of a signed GET request.
pub record SignedQuery : Type 0 where
  pub signatures : Option String
  pub time : Option String
  pub user : Option String
  pub brand : Option String
  pub extensions : Option String
  pub state : Option String

abbrev pub get_message : SignedQuery → String
get_message q =
    "v1:"
    <> get_or q.time ""
    <> ":"
    <> get_or q.user ""
    <> ":"
    <> get_or q.brand ""
    <> ":"
    <> get_or q.extensions ""
    <> ":"
    <> get_or q.state ""

abbrev pub has_all_fields : SignedQuery → List String → Bool
has_all_fields q signatures =
    truthy_text q.time
    && truthy_text q.user
    && truthy_text q.brand
    && truthy_text q.extensions
    && truthy_text q.state
    && present signatures

module _ (signing : Signing) where
  open signing use {Key, b64decode, hmac_sha256, parse_int}

  -- `_decode_secret`
  unfoldable pub decode_secret : AppConfig → Option Key
  decode_secret config =
      if truthy config.signing.canva_client_secret
      then b64decode config.signing.canva_client_secret
      else none

  -- From the parsed timestamp on: the same in both verifications.
  unfoldable pub check_signature :
      AppConfig → ℕ → Key → String → List String → Option Timestamp → VerificationResult
  unfolding is_valid_timestamp signature_matches
  check_signature config now secret message signatures none = rejected "invalid_timestamp"
  check_signature config now secret message signatures (some sent) =
      if not (is_valid_timestamp sent now config.signing.request_timestamp_tolerance_seconds)
      then rejected "invalid_timestamp"
      else if not (any (signature_matches (hmac_sha256 secret message)) signatures)
      then rejected "invalid_signature"
      else accepted

  abbrev pub verify_post_with :
      AppConfig
      → ℕ
      → List String
      → Option String
      → String
      → String
      → Option Key
      → VerificationResult
  verify_post_with config now signatures timestamp path raw_body none =
      rejected "missing_client_secret"
  verify_post_with config now signatures timestamp path raw_body (some secret) =
      if not (truthy_text timestamp) || not (present signatures)
      then rejected "missing_signature_fields"
      else check_signature config now secret (post_message (get_or timestamp "") path raw_body)
          signatures (parse_int (get_or timestamp ""))

  -- `verify_canva_post_request`, of the two headers
  unfoldable pub verify_canva_post_request :
      AppConfig → ℕ → Option String → Option String → String → String → VerificationResult
  unfolding should_verify decode_secret check_signature
  verify_canva_post_request config now signature_header timestamp path raw_body =
      let signatures = split_signatures signature_header in
      if should_verify config.signing.request_verification_mode (present signatures)
      then verify_post_with config now signatures timestamp path raw_body (decode_secret config)
      else not_run config

  abbrev pub verify_get_with :
      AppConfig → ℕ → List String → SignedQuery → Option Key → VerificationResult
  verify_get_with config now signatures q none = rejected "missing_client_secret"
  verify_get_with config now signatures q (some secret) =
      if not (has_all_fields q signatures)
      then rejected "missing_signature_fields"
      else check_signature config now secret (get_message q) signatures
          (parse_int (get_or q.time ""))

  -- `verify_canva_get_request`
  unfoldable pub verify_canva_get_request : AppConfig → ℕ → SignedQuery → VerificationResult
  unfolding should_verify decode_secret check_signature
  verify_canva_get_request config now q =
      let signatures = split_signatures q.signatures in
      if should_verify config.signing.request_verification_mode (present signatures)
      then verify_get_with config now signatures q (decode_secret config)
      else not_run config
