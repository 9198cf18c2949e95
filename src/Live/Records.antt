-- ===== src/Live/Records.antt =====
-- One record of a search: `_live_search_records`, `_supported_live_record` and `build_live_asset` of
-- src/resourcespace_platform/services/resourcespace/_live_backend.py, and `_pick_asset_name` and
-- `_pick_asset_description` of _helpers.py.
use resourcespace_authentica.Base.{
  ℕ, zero, suc, String, ◌<>◌, Option, none, some, Bool, not, if◌then◌else◌, truthy, List, [], ◌∷◌,
  strip, Result, ok, err, ◌>>=◌,
}
use resourcespace_authentica.Errors.{Exception, unexpected}
use resourcespace_authentica.CanvaVerifier.{Timestamp, positive}
use resourcespace_authentica.Api.Values.{
  Json, Fields, Elements, JsonLibrary, number, text, array, object, get, is_true, objects,
  elements_of, or_else,
}
use resourcespace_authentica.Live.{mime_type_from_extension, is_supported_image, text_of}

-- The number of elements of an array, of any kind.
unfoldable pub count_elements : Elements → ℕ
count_elements Elements.empty = 0
count_elements (Elements.element x xs) = suc (count_elements xs)

abbrev int_of : Option Timestamp → Result Exception Timestamp
int_of none = err unexpected
int_of (some n) = ok n

-- The source of an image that the broker fetches itself.
pub record ProxyImage : Type 0 where
  pub url : Json
  pub mime_type : String
  pub width : Option Timestamp
  pub height : Option Timestamp

pub record LiveAsset : Type 0 where
  pub id : String
  pub name : String
  pub description : String
  pub mime_type : String
  pub filename : Json
  pub width : Option Timestamp
  pub height : Option Timestamp
  pub created_at : Option String
  pub updated_at : Option String
  pub thumbnail_source : Option ProxyImage
  pub preview_source : Option ProxyImage

-- The first candidate that is a text and not blank.
unfoldable pub first_text : List Json → String → String
unfolding strip
first_text [] other = other
first_text (text s ∷ candidates) other =
    let later = first_text candidates other in if truthy (strip s) then s else later
first_text (candidate ∷ candidates) other = first_text candidates other

module _ (json : JsonLibrary) where
  -- `int(value or 0)`
  abbrev int_or_zero : Json → Result Exception Timestamp
  int_or_zero value = int_of (json.int (or_else value (number (positive 0))))

  abbrev non_zero : Timestamp → Option Timestamp
  non_zero (positive zero) = none
  non_zero n = some n

  abbrev or_none : Result Exception Timestamp → Result Exception (Option Timestamp)
  or_none r = do n ← r; ok (non_zero n)

  -- `_live_search_records`
  unfoldable pub live_search_records : Json → Result Exception (Timestamp × List Fields)
  unfolding get objects count_elements
  live_search_records (object fields) = do
    total ← int_or_zero (get "total" fields)
    ok (total, objects (elements_of (get "data" fields)))
  live_search_records (array xs) = ok (positive (count_elements xs), objects xs)
  live_search_records other = ok (positive 0, [])

  abbrev pub extension_of : Fields → String
  extension_of record_fields = json.lower (
      json.str (
        or_else (get "file_extension" record_fields)
          (or_else (get "preview_extension" record_fields) (text "jpg"))))

  -- `_supported_live_record`
  unfoldable pub supported_live_record : Fields → Bool
  unfolding is_supported_image mime_type_from_extension get
  supported_live_record record_fields =
      is_supported_image (mime_type_from_extension json (extension_of record_fields))

  -- `_pick_asset_name`
  unfoldable pub pick_asset_name : Fields → String
  unfolding first_text get
  pick_asset_name r =
      first_text
        (get "name" r
          ∷ get "title" r
          ∷ get "resource_title" r
          ∷ get "field8" r
          ∷ get "original_filename" r
          ∷ get "file_path" r
          ∷ text ("Asset " <> json.str (or_else (get "ref" r) (get "id" r)))
          ∷ [])
        "Untitled asset"

  -- `_pick_asset_description`
  unfoldable pub pick_asset_description : Fields → String
  unfolding first_text get
  pick_asset_description r =
      first_text
        (get "summary" r
          ∷ get "description" r
          ∷ get "field73" r
          ∷ get "field3" r
          ∷ get "country" r
          ∷ [])
        ""

  abbrev proxy_image : Fields → Json → Result Exception (Option ProxyImage)
  proxy_image r url = if not (is_true url) then ok none else (do
    extension ← text_of (or_else (get "preview_extension" r) (text "jpg"))
    width ← or_none (int_or_zero (get "thumb_width" r))
    height ← or_none (int_or_zero (get "thumb_height" r))
    ok (
        some (record {
          url = url;
          mime_type = mime_type_from_extension json extension;
          width = width;
          height = height;
        })))

  -- `build_live_asset`
  unfoldable pub build_live_asset : Fields → Result Exception LiveAsset
  unfolding pick_asset_name pick_asset_description mime_type_from_extension get
  build_live_asset r = do
    width ← or_none (int_or_zero (or_else (get "thumb_width" r) (get "image_width" r)))
    height ← or_none (int_or_zero (or_else (get "thumb_height" r) (get "image_height" r)))
    thumb_source ← proxy_image r (get "url_thm" r)
    preview_source ← proxy_image r (or_else (get "url_pre" r) (get "url_thm" r))
    ok (record {
      id = json.str (get "ref" r);
      name = pick_asset_name r;
      description = pick_asset_description r;
      mime_type = mime_type_from_extension json (extension_of r);
      filename =
          or_else (get "original_filename" r)
            (text (json.str (get "ref" r) <> "." <> extension_of r));
      width = width;
      height = height;
      created_at = json.to_iso_date (get "creation_date" r);
      updated_at = json.to_iso_date (get "file_modified" r);
      thumbnail_source = thumb_source;
      preview_source = preview_source;
    })
