-- ===== src/Uploads/Sequence.antt =====
-- The upload of a resource: `_upload_live_resource` of
-- src/resourcespace_platform/services/resourcespace/_upload.py and `upload_resource` of service.py.
-- Beside its result, an upload has the calls that it makes, in order. Pillow is a parameter.
pub mod Steps
pub mod Calls
use resourcespace_authentica.Base.{
  ℕ, String, ◌<>◌, Option, none, some, Bool, true, false, not, ◌||◌, ◌==◌, if◌then◌else◌, truthy,
  truthy_text, get_or, List, [], ◌∷◌, ◌++◌, strip, lstrip_class, same_code, Result, ok, err,
}
use resourcespace_authentica.Errors.{Exception, resource_space, unreachable, unexpected, rs_error}
use resourcespace_authentica.Config.{UploadConfig}
use resourcespace_authentica.Session.{Session}
use resourcespace_authentica.Grants.{broker_integration_from_session}
use resourcespace_authentica.Api.{ApiLibrary, ApiCall, call_live_api}
use resourcespace_authentica.Api.Values.{
  Json, JsonLibrary, text, is_failure_answer, is_false_answer,
}
use resourcespace_authentica.Live.{decode_collection_container_id, key_of}
use resourcespace_authentica.Uploads.{ExportLibrary}
use resourcespace_authentica.Uploads.Downloads.{Surroundings, Export, download_bytes}
use resourcespace_authentica.Uploads.Posting.{PostedFile, post_multipart_live_api}

-- What an upload does outside the broker: a call of an API function, a download, and a post of a
-- file, each with its arguments.
pub data UploadCall : Type 0 where
  called : ApiCall → UploadCall
  downloaded : String → UploadCall
  posted : ApiCall → PostedFile → UploadCall

-- A result, and the calls made for it.
abbrev pub Traced {ℓ} : Type ℓ → Type ℓ
Traced A = Result Exception A × List UploadCall

infixl 5 ◌>>=◌
abbrev pub ◌>>=◌ {ℓ κ} : {A : Type ℓ} {B : Type κ} → Traced A → (A → Traced B) → Traced B
(ok a, calls) >>= f = let (r, later) = f a in (r, calls ++ later)
(err e, calls) >>= f = (err e, calls)

abbrev pub made {ℓ} : {A : Type ℓ} → UploadCall → Result Exception A → Traced A
made c r = (r, c ∷ [])

abbrev pub just {ℓ} : {A : Type ℓ} → Result Exception A → Traced A
just r = (r, [])

-- What the upload uses: `preview` is `_build_jpeg_preview` under the limit of pixels, `none` where
-- it raises _PreviewGenerationError.
pub record UploadLibrary : Type 0 where
  pub api : ApiLibrary
  pub json : JsonLibrary
  pub export : ExportLibrary
  pub world : ℕ → Surroundings
  pub preview : ℕ → List ℕ → Option (List ℕ)

-- `except ResourceSpaceError: pass`
abbrev pub passed : Traced Json → Traced (Unit {0})
passed (ok answer, calls) = (ok tt, calls)
passed (err (resource_space e), calls) = (ok tt, calls)
passed (err unreachable, calls) = (err unreachable, calls)
passed (err unexpected, calls) = (err unexpected, calls)

abbrev upload_failed : String → Exception
upload_failed message = resource_space (rs_error "UPLOAD_FAILED" message 502)

module _ (library : UploadLibrary) (config : UploadConfig) where
  open library use {api, json, export, world}

  -- Calling is the only way to an entry of the trace, and the entry holds what is called.
  abbrev pub call : ApiCall → Traced Json
  call c = made (called c) (call_live_api api c)

  abbrev pub download : String → Traced Export
  download url = made (downloaded url) (download_bytes export config world url).0

  abbrev pub post : ApiCall → PostedFile → Traced Json
  post c file = made (posted c file) (post_multipart_live_api api json c file)

  abbrev is_bad_text : Json → Bool
  is_bad_text (text s) = not (json.isdigit (lstrip_class (λ c. same_code c b'-') (strip s)))
  is_bad_text _ = false

  -- The reference of the new resource, or the error.
  abbrev pub checked_ref : Json → Result Exception String
  checked_ref new_ref =
      if is_failure_answer new_ref || is_bad_text new_ref
      then err (upload_failed ("ResourceSpace create_resource returned: " <> json.repr new_ref))
      else ok (strip (json.str new_ref))

  abbrev pub checked_upload : String → Json → Result Exception Json
  checked_upload ref answer =
      if is_failure_answer answer
      then err (
          upload_failed (
            "ResourceSpace upload_multipart returned: "
            <> json.repr answer
            <> " (resource ref "
            <> ref
            <> ")"))
      else ok answer

  abbrev pub checked_link : Json → Result Exception Json
  checked_link answer =
      if is_false_answer answer
      then err (
          resource_space (
            rs_error "LINK_FAILED" "Resource was created but could not be added to the collection."
              502))
      else ok answer

  abbrev pub api_call : Session → String → String → List (String × String) → ApiCall
  api_call session key function params = record {
    api_url = session.tenant.api_url;
    username = session.user.username;
    session_key = key;
    function = function;
    params = params;
    integration = broker_integration_from_session session;
  }

  abbrev pub file_of : Export → PostedFile
  file_of d = record { bytes = d.bytes; filename = d.filename; content_type = d.content_type }

  abbrev pub preview_file : List ℕ → PostedFile
  preview_file bytes = record {
    bytes = bytes;
    filename = "preview.jpg";
    content_type = "image/jpeg";
  }

  abbrev pub multipart_params : String → String → List (String × String)
  multipart_params ref no_exif = ("ref", ref) ∷ ("no_exif", no_exif) ∷ ("revert", "0") ∷ []

  -- The preview, if Pillow makes one that is not empty: a failure of its post is passed over.
  abbrev pub post_preview : Session → String → String → Option (List ℕ) → Traced (Unit {0})
  post_preview session key ref none = just (ok tt)
  post_preview session key ref (some []) = just (ok tt)
  post_preview session key ref (some (byte ∷ bytes)) = passed (
      post
        (api_call session key "upload_multipart"
          (multipart_params ref "1" ++ ("previewonly", "1") ∷ []))
        (preview_file (byte ∷ bytes)))

  abbrev pub with_title : Session → String → String → String → Traced Json
  with_title session key ref title = call (
      api_call session key "update_field"
        (("resource", ref) ∷ ("field", "8") ∷ ("value", title) ∷ []))

  abbrev pub ignored : Traced Json → Traced (Unit {0})
  ignored (ok answer, calls) = (ok tt, calls)
  ignored (err e, calls) = (err e, calls)

  abbrev pub set_title : Session → String → String → Option String → Traced (Unit {0})
  set_title session key ref title =
      if truthy_text title
      then ignored (with_title session key ref (get_or title ""))
      else just (ok tt)

  -- From the stored file on: the preview, the title and the link.
  unfoldable pub finish_upload :
      Session → String → String → String → Option String → Export → Traced String
  unfolding call_live_api post_multipart_live_api broker_integration_from_session
  finish_upload session key ref collection_ref title d = do
    previewed ← post_preview session key ref (library.preview config.max_image_pixels d.bytes)
    titled ← set_title session key ref title
    link ← call (
        api_call session key "add_resource_to_collection"
          (("resource", ref) ∷ ("collection", collection_ref) ∷ []))
    linked ← just (checked_link link)
    just (ok ref)

  -- From the new reference on.
  unfoldable pub fill_resource :
      Session → String → String → String → String → Option String → Traced String
  unfolding finish_upload post_multipart_live_api download_bytes broker_integration_from_session
  fill_resource session key ref collection_ref source_url title = do
    d ← download source_url
    answer ← post (api_call session key "upload_multipart" (multipart_params ref "0")) (file_of d)
    stored ← just (checked_upload ref answer)
    finish_upload session key ref collection_ref title d

  -- `_upload_live_resource`: the id of the new resource
  unfoldable pub upload_live_resource : Session → String → String → Option String → Traced String
  unfolding fill_resource call_live_api strip lstrip_class broker_integration_from_session
  upload_live_resource session collection_ref source_url title = do
    key ← just (key_of session.upstream.session_key)
    new_ref ←
        call
          (api_call session key "create_resource" (("resource_type", "1") ∷ ("archive", "0") ∷ []))
    ref ← just (checked_ref new_ref)
    fill_resource session key ref collection_ref source_url title

  abbrev upload_to : Session → String → Option String → Option String → Traced String
  upload_to session source_url title none =
      just (
        err
          (resource_space (rs_error "INVALID_REQUEST" "Unsupported container id for upload." 400)))
  upload_to session source_url title (some collection_ref) =
      if not (truthy collection_ref)
      then just (
          err (
            resource_space (rs_error "INVALID_REQUEST" "Unsupported container id for upload." 400)))
      else if session.upstream.mode == "fixture"
      then just (
          err (
            resource_space
              (rs_error "FORBIDDEN" "Uploads are not available against fixture tenants." 403)))
      else upload_live_resource session collection_ref source_url title

  -- ResourceSpaceService.upload_resource
  unfoldable pub upload_resource : Session → String → String → Option String → Traced String
  unfolding upload_live_resource decode_collection_container_id
  upload_resource session container_id source_url title =
      upload_to session source_url title (decode_collection_container_id (some container_id))
