-- ===== src/Pages/Messages.antt =====
-- The requests and the answers of `content_resources_find`, and `_build_image_response`
-- (src/resourcespace_platform/routes/content.py).
use resourcespace_authentica.Base.{
  ℕ, zero, ◌/◌, String, ◌<>◌, Option, none, some, ltb, if◌then◌else◌, List, Result,
}
use resourcespace_authentica.Errors.{Exception}
use resourcespace_authentica.CanvaVerifier.{Timestamp, positive}
use resourcespace_authentica.Session.{Session}
use resourcespace_authentica.Auth.{AuthService}
use resourcespace_authentica.RateLimiter.{RateLimiter}
use resourcespace_authentica.Grants.{AssetService, GrantDraws, GrantLink}
use resourcespace_authentica.Api.Values.{Json, JsonLibrary}
use resourcespace_authentica.Live.Records.{ProxyImage, LiveAsset}
use resourcespace_authentica.Live.Containers.{Container}
use resourcespace_authentica.Pages.{ListedPage, Resource}
use resourcespace_authentica.Pages.Continuations.{ContinuationLibrary}

-- The keys of the body that the handler reads.
pub record FindBody : Type 0 where
  pub continuation : Option String
  pub types : List String
  pub query : Option String
  pub sort : Option String
  pub container_id : Option String
  pub limit : Option Timestamp

-- The arguments of list_assets beside the session; an offset or a limit may be negative.
pub record AssetSearch : Type 0 where
  pub query : String
  pub container_id : Option String
  pub offset : Timestamp
  pub limit : Timestamp
  pub sort : String

-- What the handler uses of ResourceSpaceService, for the session of the token.
pub record ContentBackend : Type 0 where
  pub list_containers : Session → Option String → Result Exception (List Container)
  pub search_containers : Session → Option String → String → Result Exception (List Container)
  pub list_assets : Session → AssetSearch → Result Exception (ListedPage LiveAsset)

pub record ContentLibrary : Type 0 where
  pub service : AuthService
  pub assets : AssetService
  pub limiter : RateLimiter
  pub backend : ContentBackend
  pub continuations : ContinuationLibrary
  pub json : JsonLibrary

-- A request: the host of the client, the Authorization header, and the body, `none` where it is no
-- JSON.
pub record FindRequest : Type 0 where
  pub host : Option String
  pub authorization : Option String
  pub body : Option FindBody

-- What one request draws: the clock at the limiter and at the reading of the token, and what each
-- grant draws.
pub record FindDraws : Type 0 where
  pub rate_now : ℕ
  pub read_now : ℕ
  pub grant : ℕ → GrantDraws

-- An image of the answer, with the link of its preview.
pub record ImageResponse : Type 0 where
  pub id : String
  pub name : String
  pub description : String
  pub mime_type : String
  pub filename : Json
  pub width : Option Timestamp
  pub height : Option Timestamp
  pub created_at : Option String
  pub updated_at : Option String
  pub preview_link : GrantLink
  pub thumbnail_width : Option Timestamp
  pub thumbnail_height : Option Timestamp
  pub preview_width : Option Timestamp
  pub preview_height : Option Timestamp
  pub download_path : String

-- The answers: 429 with Retry-After, an error of the gate, 400 INVALID_REQUEST, 200 with the
-- resources and the continuation, 200 with an errorCode, and an exception that nothing catches.
pub data FindReply : Type 0 where
  rate_limited : ℕ → FindReply
  rejected : ℕ → String → FindReply
  invalid_request : FindReply
  success : List (Resource Container ImageResponse) → Option String → FindReply
  failed : String → FindReply
  crashed : Exception → FindReply

abbrev width_of : Option ProxyImage → Option Timestamp
width_of none = none
width_of (some source) = source.width

abbrev height_of : Option ProxyImage → Option Timestamp
height_of none = none
height_of (some source) = source.height

abbrev or_size : Option Timestamp → Option Timestamp → Option Timestamp
or_size none other = other
or_size (some (positive zero)) other = other
or_size (some n) other = some n

-- `_build_image_response`
unfoldable pub build_image_response : LiveAsset → GrantLink → ImageResponse
build_image_response asset link = record {
  id = asset.id;
  name = asset.name;
  description = asset.description;
  mime_type = asset.mime_type;
  filename = asset.filename;
  width = asset.width;
  height = asset.height;
  created_at = asset.created_at;
  updated_at = asset.updated_at;
  preview_link = link;
  thumbnail_width = width_of asset.thumbnail_source;
  thumbnail_height = height_of asset.thumbnail_source;
  preview_width = or_size (width_of asset.preview_source) asset.width;
  preview_height = or_size (height_of asset.preview_source) asset.height;
  download_path = "/content/resources/" <> asset.id <> "/download-url";
}

-- `max(1, rate.retry_after_ms // 1000)`
abbrev pub retry_after : ℕ → ℕ
retry_after ms = let seconds = ms / 1000 in if ltb seconds 1 then 1 else seconds
