-- ===== src/Uploads/Posting.antt =====
-- One multipart post: `_post_multipart_live_api` of
-- src/resourcespace_platform/services/resourcespace/_upload.py.

use resourcespace_authentica.Base.{
  ℕ, zero, suc, String, ◌<>◌, true, leb, if◌then◌else◌, List, [], Result, ok, err, ◌>>=◌,
}
use resourcespace_authentica.Errors.{Exception, resource_space, rs_error}
use resourcespace_authentica.Api.{
  ApiLibrary, ApiCall, HttpResponse, file, raised, build_signed_api_url, sent_to, json_or_text,
}
use resourcespace_authentica.Api.Values.{
  Json, Fields, JsonLibrary, boolean, object, end, field, get,
}
use resourcespace_authentica.Hosts.Resolve.{pin_request}

-- The file of a post.
pub record PostedFile : Type 0 where
  pub bytes : List ℕ
  pub filename : String
  pub content_type : String

-- `s[:n]`
unfoldable pub take_text : ℕ → String → String
take_text zero s = ""
take_text (suc n) String.[] = ""
take_text (suc n) (String.◌∷◌ c s) = String.◌∷◌ c (take_text n s)

module _ (library : ApiLibrary) (json : JsonLibrary) where
  abbrev post_failed : HttpResponse → Json → Exception
  post_failed response body = resource_space (
      rs_error "UPSTREAM_REQUEST_FAILED"
        ("ResourceSpace upload returned HTTP "
          <> library.hosts.str response.status_code
          <> ": "
          <> take_text 200 (json.str body))
        502)

  -- `body.get("error") is True`: the file is stored and only its preview failed.
  abbrev refused_preview : HttpResponse → Fields → Json → Result Exception Json
  refused_preview response fields (boolean true) = ok (
      object (field "uploaded" (boolean true) (field "previewError" (get "error_note" fields) end)))
  refused_preview response fields other = err (post_failed response (object fields))

  abbrev refused : HttpResponse → Json → Result Exception Json
  refused response (object fields) = refused_preview response fields (get "error" fields)
  refused response body = err (post_failed response body)

  abbrev pub posted : HttpResponse → Result Exception Json
  posted response =
      let body = json_or_text response response.json in
      if leb 400 response.status_code then refused response body else ok body

  -- `_post_multipart_live_api`
  unfoldable pub post_multipart_live_api : ApiCall → PostedFile → Result Exception Json
  unfolding build_signed_api_url pin_request take_text get
  post_multipart_live_api c f = do
    p ← raised (pin_request library.hosts (build_signed_api_url library c) [])
    response ← sent_to library p c.integration (file f.filename f.bytes f.content_type)
    posted response
