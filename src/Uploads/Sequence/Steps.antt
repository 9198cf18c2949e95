-- ===== src/Uploads/Sequence/Steps.antt =====
-- The steps of `_upload_live_resource`
-- (src/resourcespace_platform/services/resourcespace/_upload.py), one by one.
use resourcespace_authentica.Base.{
  ℕ, String, Option, none, some, false, ◌≡◌, refl, ap, if◌then◌else◌, truthy_text, get_or, List, [],
  ◌∷◌, ◌++◌, ok, err, Bool-cases, inl, inr, ok_inj,
}
use resourcespace_authentica.Errors.{resource_space, unreachable, unexpected}
use resourcespace_authentica.Config.{UploadConfig}
use resourcespace_authentica.Grants.{broker_integration_from_session}
use resourcespace_authentica.Api.{ApiCall}
use resourcespace_authentica.Session.{Session}
use resourcespace_authentica.Api.Values.{Json, is_false_answer, is_failure_answer}
use resourcespace_authentica.Live.{key_of}
use resourcespace_authentica.Uploads.Sequence.{
  UploadCall, called, posted, post, passed, Traced, ◌>>=◌, UploadLibrary, checked_upload,
  checked_link, preview_file, post_preview, with_title, ignored, set_title,
}

-- A step that came to a result, in two parts.
pub record IsThen {ℓ κ} {A : Type ℓ} {B : Type κ} (m : Traced A) (f : A → Traced B) (b : B)
    : Type (ℓ ⊔ κ) where
  pub value : A
  pub first : m.0 ≡ ok value
  pub later : (f value).0 ≡ ok b
  pub calls : (m >>= f).1 ≡ m.1 ++ (f value).1

pub >>=-IsThen {ℓ κ} :
    {A : Type ℓ} {B : Type κ} (m : Traced A) (f : A → Traced B) (b : B)
    → (m >>= f).0 ≡ ok b
    → IsThen m f b
>>=-IsThen (ok a, calls) f b h = record { value = a; first = refl; later = h; calls = refl }
>>=-IsThen (err e, calls) f b h = absurd (cc h)

pub key_of-eq-ok : (o : Option String) (key : String) → key_of o ≡ ok key → o ≡ some key
key_of-eq-ok none key h = cc
key_of-eq-ok (some k) key h = ap some (ok_inj h)

-- A call with the session's tenant, user and key.
abbrev pub call_for : Session → String → String → List (String × String) → ApiCall
call_for session key function params = record {
  api_url = session.tenant.api_url;
  username = session.user.username;
  session_key = key;
  function = function;
  params = params;
  integration = broker_integration_from_session session;
}

-- The preview that is posted to the resource, if Pillow made one that is not empty.
abbrev pub preview_calls : Session → String → String → Option (List ℕ) → List UploadCall
preview_calls session key ref none = []
preview_calls session key ref (some []) = []
preview_calls session key ref (some (byte ∷ bytes)) =
    posted
      (call_for session key "upload_multipart"
        (("ref", ref) ∷ ("no_exif", "1") ∷ ("revert", "0") ∷ ("previewonly", "1") ∷ []))
      (record { bytes = byte ∷ bytes; filename = "preview.jpg"; content_type = "image/jpeg" })
    ∷ []

-- The title that is written to field 8, if there is one.
abbrev pub title_calls : Session → String → String → Option String → List UploadCall
title_calls session key ref title =
    if truthy_text title
    then called (
        call_for session key "update_field"
          (("resource", ref) ∷ ("field", "8") ∷ ("value", get_or title "") ∷ []))
      ∷ []
    else []

module _ (library : UploadLibrary) (config : UploadConfig) where
  passed_calls : (m : Traced Json) → (passed m).1 ≡ m.1
  passed_calls (ok answer, calls) = refl
  passed_calls (err (resource_space e), calls) = refl
  passed_calls (err unreachable, calls) = refl
  passed_calls (err unexpected, calls) = refl

  pub post_preview_calls :
      (session : Session) (key ref : String) (preview : Option (List ℕ))
      → (post_preview library config session key ref preview).1
        ≡ preview_calls session key ref preview
  post_preview_calls session key ref none = refl
  post_preview_calls session key ref (some []) = refl
  post_preview_calls session key ref (some (byte ∷ bytes)) = passed_calls (
      post library config
        (call_for session key "upload_multipart"
          (("ref", ref) ∷ ("no_exif", "1") ∷ ("revert", "0") ∷ ("previewonly", "1") ∷ []))
        (preview_file library config (byte ∷ bytes)))

  ignored_calls : (m : Traced Json) → (ignored library config m).1 ≡ m.1
  ignored_calls (ok answer, calls) = refl
  ignored_calls (err e, calls) = refl

  pub set_title_calls :
      (session : Session) (key ref : String) (title : Option String)
      → (set_title library config session key ref title).1 ≡ title_calls session key ref title
  set_title_calls session key ref title = elim (Bool-cases (truthy_text title)) [
    | inl given ↦
        rw given (ignored_calls (with_title library config session key ref (get_or title "")))
    | inr missing ↦ rw missing refl
  ]

  pub checked_upload-IsNot :
      (ref : String) (answer stored : Json)
      → checked_upload library config ref answer ≡ ok stored
      → is_failure_answer answer ≡ false
  checked_upload-IsNot ref answer stored h = elim (Bool-cases (is_failure_answer answer)) [
    | inl failed ↦ absurd (cc (rw failed at h))
    | inr fine ↦ fine
  ]

  pub checked_link-IsNot :
      (link linked : Json)
      → checked_link library config link ≡ ok linked
      → is_false_answer link ≡ false
  checked_link-IsNot link linked h = elim (Bool-cases (is_false_answer link)) [
    | inl failed ↦ absurd (cc (rw failed at h))
    | inr fine ↦ fine
  ]
