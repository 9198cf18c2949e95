-- ===== src/Pages/Finding.antt =====
-- The handler `content_resources_find` of
-- src/resourcespace_platform/routes/content.py. The service's listings are parameters; the body of
-- the request is what json.loads finds in it.
use resourcespace_authentica.Base.{
  ℕ, zero, suc, String, ◌<>◌, Option, none, some, Bool, not, ◌&&◌, ◌==◌, if◌then◌else◌, truthy,
  truthy_text, get_or, contains, List, [], ◌∷◌, ◌++◌, map, Dict, Result, ok, err, ◌>>=◌,
}
use resourcespace_authentica.Errors.{Exception, unexpected, map_error}
use resourcespace_authentica.CanvaVerifier.{Timestamp, positive}
use resourcespace_authentica.State.{State, proxy}
use resourcespace_authentica.Session.{Session}
use resourcespace_authentica.RateLimiter.{Bucket, RateLimitResult, allowed, denied, consume}
use resourcespace_authentica.Grants.{GrantDraws, create_grant}
use resourcespace_authentica.Api.Values.{Json, text, is_true}
use resourcespace_authentica.Live.Records.{ProxyImage, LiveAsset}
use resourcespace_authentica.Live.Containers.{Container}
use resourcespace_authentica.Pages.{Offsets, FoundPage, find_page, map_find_error, container, image}
use resourcespace_authentica.Pages.Gate.{Gate, admitted, refused, raised, bearer_gate}
use resourcespace_authentica.Pages.Continuations.{
  Continuation, scope_key, encode_continuation, decode_continuation,
}
use resourcespace_authentica.Pages.Messages.{
  FindBody, AssetSearch, ContentLibrary, FindRequest, FindDraws, ImageResponse, FindReply,
  rate_limited, rejected, invalid_request, success, failed, crashed, build_image_response,
  retry_after,
}

-- `asset.get("previewSource") or asset.get("thumbnailSource")`
abbrev pub first_source : Option ProxyImage → Option ProxyImage → Option ProxyImage
first_source none other = other
first_source (some source) other = some source

module _ (library : ContentLibrary) where
  open library use {service, assets, limiter, backend, continuations, json}

  -- The link and the image of one asset; no page has an asset without a source.
  abbrev pub granted :
      Session
      → LiveAsset
      → GrantDraws
      → Option ProxyImage
      → State
      → State × Result Exception ImageResponse
  granted session asset d none s = (s, err unexpected)
  granted session asset d (some source) s =
      let (link, s') =
        create_grant assets d
          (record {
            path_prefix = "/public/assets";
            session = session;
            source = proxy (json.str source.url);
            mime_type = some source.mime_type;
            filename = some (json.str asset.filename);
          })
          s in
      (s', ok (build_image_response asset link))

  abbrev pub with_first :
      ImageResponse
      → State × Result Exception (List ImageResponse)
      → State × Result Exception (List ImageResponse)
  with_first first (s, err e) = (s, err e)
  with_first first (s, ok rest) = (s, ok (first ∷ rest))

  abbrev pub and_rest :
      State × Result Exception ImageResponse
      → (State → State × Result Exception (List ImageResponse))
      → State × Result Exception (List ImageResponse)
  and_rest (s, err e) later = (s, err e)
  and_rest (s, ok first) later = with_first first (later s)

  -- The loop over the assets of a page.
  unfoldable pub render_assets :
      Session
      → (ℕ → GrantDraws)
      → ℕ
      → List LiveAsset
      → State
      → State × Result Exception (List ImageResponse)
  unfolding create_grant build_image_response
  render_assets session draws i [] s = (s, ok [])
  render_assets session draws i (asset ∷ more) s =
      and_rest
        (granted session asset (draws i) (first_source asset.preview_source asset.thumbnail_source)
          s)
        (λ s'. render_assets session draws (suc i) more s')

  abbrev default_types : List String → List String
  default_types [] = "IMAGE" ∷ "CONTAINER" ∷ []
  default_types (t ∷ types) = t ∷ types

  abbrev default_text : Option String → String → String
  default_text value other = if truthy_text value then get_or value other else other

  -- `int(body.get("limit") or 50)`
  abbrev default_limit : Option Timestamp → Timestamp
  default_limit none = positive 50
  default_limit (some (positive zero)) = positive 50
  default_limit (some n) = n

  abbrev pub query_of : FindBody → AssetSearch
  query_of body = record {
    query = default_text body.query "";
    container_id = body.container_id;
    offset = positive 0;
    limit = default_limit body.limit;
    sort = default_text body.sort "updated_desc";
  }

  abbrev pub current_scope : FindBody → String
  current_scope body =
      let q = query_of body in
      scope_key continuations q.container_id q.query q.sort (default_types body.types)

  abbrev containers_for : Session → FindBody → Result Exception (List Container)
  containers_for session body =
      let q = query_of body in
      if not (contains "CONTAINER" (default_types body.types))
      then ok []
      else if truthy q.query
      then backend.search_containers session q.container_id q.query
      else backend.list_containers session q.container_id

  -- The page, before its previews are granted.
  unfoldable pub find_resources :
      Session → FindBody → Offsets → Result Exception (FoundPage Container LiveAsset)
  unfolding find_page
  find_resources session body offsets = do
    containers ← containers_for session body
    find_page
        (λ offset limit.
          backend.list_assets session (record (query_of body) { offset = offset; limit = limit }))
        (contains "IMAGE" (default_types body.types)) containers (query_of body).limit offsets

  abbrev pub next_continuation : String → Option Offsets → Option String
  next_continuation scope none = none
  next_continuation scope (some offsets) =
      some
        (encode_continuation continuations (record { offsets = offsets; scope_key = text scope }))

  abbrev pub answered :
      String
      → FoundPage Container LiveAsset
      → State × Result Exception (List ImageResponse)
      → State × FindReply
  answered scope page (s, err e) = (s, failed (map_find_error (map_error e)))
  answered scope page (s, ok images) = (
    s,
    success (map container page.containers ++ map image images) (next_continuation scope page.next),
  )

  abbrev pub page_reply :
      FindDraws
      → Session
      → String
      → Result Exception (FoundPage Container LiveAsset)
      → State
      → State × FindReply
  page_reply d session scope (err e) s = (s, failed (map_find_error (map_error e)))
  page_reply d session scope (ok page) s =
      answered scope page (render_assets session d.grant 0 page.assets s)

  abbrev pub is_other_scope : String → Json → Bool
  is_other_scope scope (text s) = truthy s && not (s == scope)
  is_other_scope scope other = is_true other

  abbrev pub continued :
      FindDraws
      → Session
      → FindBody
      → Result Exception (Option Continuation)
      → State
      → State × FindReply
  continued d session body (err e) s = (s, crashed e)
  continued d session body (ok none) s = (s, invalid_request)
  continued d session body (ok (some c)) s =
      if is_other_scope (current_scope body) c.scope_key
      then (s, invalid_request)
      else page_reply d session (current_scope body) (find_resources session body c.offsets) s

  -- From the session of the token on.
  abbrev pub find_for : FindDraws → Session → Option FindBody → State → State × FindReply
  find_for d session none s = (s, crashed unexpected)
  find_for d session (some body) s =
      continued d session body (decode_continuation continuations json body.continuation) s

  abbrev pub find_gated : FindDraws → Option FindBody → State × Gate → State × FindReply
  find_gated d body (s, admitted token_record) = find_for d token_record.session body s
  find_gated d body (s, refused status code) = (s, rejected status code)
  find_gated d body (s, raised e) = (s, crashed e)

  abbrev pub find_allowed :
      FindDraws
      → FindRequest
      → RateLimitResult × Dict Bucket
      → State
      → (Dict Bucket × State) × FindReply
  find_allowed d q (denied ms, buckets) s = ((buckets, s), rate_limited (retry_after ms))
  find_allowed d q (allowed, buckets) s =
      let (s', reply) =
        find_gated d q.body (bearer_gate service d.read_now "dam:read" q.authorization s) in
      ((buckets, s'), reply)

  -- `content_resources_find`
  unfoldable pub content_resources_find :
      FindDraws → FindRequest → Dict Bucket → State → (Dict Bucket × State) × FindReply
  unfolding consume bearer_gate decode_continuation encode_continuation scope_key find_resources
      render_assets map_error map_find_error
  content_resources_find d q buckets s =
      find_allowed d q
        (consume limiter d.rate_now ("content_find:" <> get_or q.host "unknown") buckets) s
