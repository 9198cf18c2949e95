-- ===== src/Uploads/Sequence/Calls.antt =====
-- The calls of `_upload_live_resource`
-- (src/resourcespace_platform/services/resourcespace/_upload.py).
use mathlib.Core.Path.{subst}
use resourcespace_authentica.Base.{
  String, Option, some, false, ◌≡◌, ap, ◌∙◌, List, [], ◌∷◌, ◌++◌, ok, ok_inj,
}
use resourcespace_authentica.Config.{UploadConfig}
use resourcespace_authentica.Session.{Session}
use resourcespace_authentica.Api.{call_live_api}
use resourcespace_authentica.Api.Values.{Json, is_false_answer, is_failure_answer}
use resourcespace_authentica.Live.{key_of}
use resourcespace_authentica.Uploads.Downloads.{Export, download_bytes}
use resourcespace_authentica.Uploads.Posting.{post_multipart_live_api}
use resourcespace_authentica.Uploads.Sequence.{
  UploadCall, called, downloaded, posted, call, download, post, just, UploadLibrary, checked_ref,
  checked_upload, checked_link, file_of, post_preview, set_title, finish_upload, fill_resource,
  upload_live_resource,
}
use resourcespace_authentica.Uploads.Sequence.Steps.{
  >>=-IsThen, call_for, preview_calls, title_calls, post_preview_calls, set_title_calls,
  key_of-eq-ok, checked_upload-IsNot, checked_link-IsNot,
}

module _ (library : UploadLibrary) (config : UploadConfig) where
  -- The link was made, after the preview and the title.
  pub record IsFinished (session : Session) (key collection_ref : String) (title : Option String)
      (d : Export) (id : String) (calls : List UploadCall) : Type 0 where
    pub link : Json
    pub linked :
        call_live_api library.api (
          call_for session key "add_resource_to_collection"
            (("resource", id) ∷ ("collection", collection_ref) ∷ []))
        ≡ ok link
    pub not_refused : is_false_answer link ≡ false
    pub order :
        calls
        ≡ preview_calls session key id (library.preview config.max_image_pixels d.bytes)
          ++ (title_calls session key id title
              ++ (called (
                    call_for session key "add_resource_to_collection"
                      (("resource", id) ∷ ("collection", collection_ref) ∷ []))
                  ∷ []))

  finish-IsFinished :
      (session : Session) (key ref collection_ref : String) (title : Option String) (d : Export)
      (id : String)
      → (finish_upload library config session key ref collection_ref title d).0 ≡ ok id
      → (ref ≡ id)
        × IsFinished session key collection_ref title d ref
            (finish_upload library config session key ref collection_ref title d).1
  unfolding finish_upload
  finish-IsFinished session key ref collection_ref title d id h =
      let preview = library.preview config.max_image_pixels d.bytes in
      let t7 = >>=-IsThen (post_preview library config session key ref preview) _ id h in
      let t8 = >>=-IsThen (set_title library config session key ref title) _ id t7.later in
      let t9 =
        >>=-IsThen
          (call library config (
            call_for session key "add_resource_to_collection"
              (("resource", ref) ∷ ("collection", collection_ref) ∷ [])))
          _ id t8.later in
      let t10 = >>=-IsThen (just (checked_link library config t9.value)) _ id t9.later in
      (
        ok_inj t10.later,
        record {
          link = t9.value;
          linked = t9.first;
          not_refused = checked_link-IsNot library config t9.value t10.value t10.first;
          order =
              rw
                (
                  ← post_preview_calls library config session key ref preview,
                  ← set_title_calls library config session key ref title,
                )
                (t7.calls
                  ∙ ap (λ x. (post_preview library config session key ref preview).1 ++ x)
                      (t8.calls
                        ∙ ap (λ x. (set_title library config session key ref title).1 ++ x)
                            (t9.calls
                              ∙ ap
                                  (λ x.
                                    called (
                                      call_for session key "add_resource_to_collection"
                                        (("resource", ref) ∷ ("collection", collection_ref) ∷ []))
                                    ∷ x)
                                  t10.calls)));
        },
      )

  -- The file was posted to the resource, and the rest followed.
  pub record IsFilled (session : Session) (key collection_ref source_url : String)
      (title : Option String) (id : String) (calls : List UploadCall) : Type 0 where
    pub export : Export
    pub fetched : (download_bytes library.export config library.world source_url).0 ≡ ok export
    pub answer : Json
    pub stored :
        post_multipart_live_api library.api library.json
          (call_for session key "upload_multipart"
            (("ref", id) ∷ ("no_exif", "0") ∷ ("revert", "0") ∷ []))
          (record {
            bytes = export.bytes;
            filename = export.filename;
            content_type = export.content_type;
          })
        ≡ ok answer
    pub accepted : is_failure_answer answer ≡ false
    pub rest : List UploadCall
    pub finished : IsFinished session key collection_ref title export id rest
    pub order :
        calls
        ≡ downloaded source_url
          ∷ posted
              (call_for session key "upload_multipart"
                (("ref", id) ∷ ("no_exif", "0") ∷ ("revert", "0") ∷ []))
              (record {
                bytes = export.bytes;
                filename = export.filename;
                content_type = export.content_type;
              })
          ∷ rest

  fill-IsFilled :
      (session : Session) (key ref collection_ref source_url : String) (title : Option String)
      (id : String)
      → (fill_resource library config session key ref collection_ref source_url title).0 ≡ ok id
      → (ref ≡ id)
        × IsFilled session key collection_ref source_url title ref
            (fill_resource library config session key ref collection_ref source_url title).1
  unfolding fill_resource
  fill-IsFilled session key ref collection_ref source_url title id h =
      let t4 = >>=-IsThen (download library config source_url) _ id h in
      let d = t4.value in
      let c =
        call_for session key "upload_multipart"
          (("ref", ref) ∷ ("no_exif", "0") ∷ ("revert", "0") ∷ []) in
      let t5 = >>=-IsThen (post library config c (file_of library config d)) _ id t4.later in
      let t6 = >>=-IsThen (just (checked_upload library config ref t5.value)) _ id t5.later in
      let (same, finished) = finish-IsFinished session key ref collection_ref title d id t6.later in
      (
        same,
        record {
          export = d;
          fetched = t4.first;
          answer = t5.value;
          stored = t5.first;
          accepted = checked_upload-IsNot library config ref t5.value t6.value t6.first;
          rest = (finish_upload library config session key ref collection_ref title d).1;
          finished = finished;
          order =
              t4.calls
              ∙ ap (λ x. downloaded source_url ∷ x)
                  (t5.calls ∙ ap (λ x. posted c (file_of library config d) ∷ x) t6.calls);
        },
      )

  -- The resource was created, and it was filled.
  pub record IsComplete (session : Session) (collection_ref source_url : String)
      (title : Option String) (id : String) (calls : List UploadCall) : Type 0 where
    pub key : String
    pub has_key : session.upstream.session_key ≡ some key
    pub new_ref : Json
    pub created :
        call_live_api library.api
          (call_for session key "create_resource" (("resource_type", "1") ∷ ("archive", "0") ∷ []))
        ≡ ok new_ref
    pub checked : checked_ref library config new_ref ≡ ok id
    pub rest : List UploadCall
    pub filled : IsFilled session key collection_ref source_url title id rest
    pub order :
        calls
        ≡ called (
            call_for session key "create_resource" (("resource_type", "1") ∷ ("archive", "0") ∷ []))
          ∷ rest

  -- If an upload answers with an id, it made these calls in this order and no others, each with its
  -- parameters written out: the resource was created, the export downloaded, its bytes posted to that
  -- resource, the preview posted as a preview if Pillow made one that is not empty, the title written
  -- to field 8 if there is one, and the resource added to the collection; the id is the reference
  -- that was created, and no answer of the creation, the post or the link was a failure.
  pub upload_live_resource-IsComplete :
      (session : Session) (collection_ref source_url : String) (title : Option String) (id : String)
      → (upload_live_resource library config session collection_ref source_url title).0 ≡ ok id
      → IsComplete session collection_ref source_url title id
          (upload_live_resource library config session collection_ref source_url title).1
  unfolding upload_live_resource
  upload_live_resource-IsComplete session collection_ref source_url title id h =
      let t1 = >>=-IsThen (just (key_of session.upstream.session_key)) _ id h in
      let key = t1.value in
      let c =
        call_for session key "create_resource" (("resource_type", "1") ∷ ("archive", "0") ∷ []) in
      let t2 = >>=-IsThen (call library config c) _ id t1.later in
      let t3 = >>=-IsThen (just (checked_ref library config t2.value)) _ id t2.later in
      let ref = t3.value in
      let (same, filled) =
        fill-IsFilled session key ref collection_ref source_url title id t3.later in
      subst
        (λ x.
          IsComplete session collection_ref source_url title x
            (upload_live_resource library config session collection_ref source_url title).1)
        same
        (record {
          key = key;
          has_key = key_of-eq-ok session.upstream.session_key key t1.first;
          new_ref = t2.value;
          created = t2.first;
          checked = t3.first;
          rest = (fill_resource library config session key ref collection_ref source_url title).1;
          filled = filled;
          order = t1.calls ∙ t2.calls ∙ ap (λ x. called c ∷ x) t3.calls;
        })
