-- ===== src/Live/Assets.antt =====
-- The assets of a live tenant: `build_live_search_string`, `build_live_preview_list_search`,
-- `normalize_live_asset_page` and `_require_live_search_payload` of
-- src/resourcespace_platform/services/resourcespace/_live_backend.py, and the steps of
-- `_list_live_assets`.
pub mod Listing
use resourcespace_authentica.Base.{
  ℕ, zero, suc, String, ◌<>◌, Option, none, some, Bool, true, false, not, ◌&&◌, leb, if◌then◌else◌,
  truthy, truthy_text, get_or, lookup, insert, Dict, List, [], ◌∷◌, length, strip, Result, ok, err,
  ◌>>=◌,
}
use resourcespace_authentica.Errors.{Exception, resource_space, unexpected, rs_error}
use resourcespace_authentica.CanvaVerifier.{Timestamp, positive, negative}
use resourcespace_authentica.Api.Values.{
  Json, Fields, Elements, JsonLibrary, null, number, text, array, object, find, get, is_true,
  objects, elements_of, or_else,
}
use resourcespace_authentica.Live.{
  decode_collection_container_id, mime_type_from_extension, is_supported_image, text_of,
}
use resourcespace_authentica.Live.Records.{
  ProxyImage, LiveAsset, live_search_records, supported_live_record, build_live_asset,
}

abbrev pub unsupported_filter : String
unsupported_filter = "!propertiesfext:-tif;fext:-tiff"

abbrev collection_search : String → Option String → String → String
collection_search search none other = other
collection_search search (some ref) other =
    if not (truthy ref)
    then other
    else if truthy search
    then "!collection" <> ref <> " " <> search
    else "!collection" <> ref

-- `build_live_search_string`
unfoldable pub build_live_search_string : JsonLibrary → String → Option String → String
unfolding strip decode_collection_container_id
build_live_search_string json query container_id =
    let search = strip query in
    collection_search search
      (if truthy_text container_id then decode_collection_container_id container_id else none)
      (if json.isdigit search
        then "!resource" <> search
        else if truthy search
        then unsupported_filter <> " " <> search
        else unsupported_filter)

abbrev join_colon : List String → String
join_colon [] = ""
join_colon (ref ∷ []) = ref
join_colon (ref ∷ next ∷ refs) = ref <> ":" <> join_colon (next ∷ refs)

-- `build_live_preview_list_search`
unfoldable pub build_live_preview_list_search : List String → String
build_live_preview_list_search refs = "!list" <> join_colon refs

-- A page of assets, as list_assets answers: `scanned` counts the records that were looked at.
pub record AssetPage {ℓ} (A : Type ℓ) : Type ℓ where
  pub items : List A
  pub total : Timestamp
  pub scanned : ℕ

abbrev pub payload_error : Exception
payload_error = resource_space (
    rs_error "UPSTREAM_REQUEST_FAILED"
      "ResourceSpace preview listing did not return search results." 502)

-- `_require_live_search_payload`: the payload itself, or the error
unfoldable pub require_live_search_payload : Json → Result Exception Json
require_live_search_payload (object fields) = ok (object fields)
require_live_search_payload (array xs) = ok (array xs)
require_live_search_payload other = err payload_error

abbrev pub has_image : Option ProxyImage → Bool
has_image none = false
has_image (some image) = true

abbrev pub keep_shown : LiveAsset → List LiveAsset → List LiveAsset
keep_shown asset assets =
    if is_supported_image asset.mime_type && has_image asset.thumbnail_source
    then asset ∷ assets
    else assets

module _ (json : JsonLibrary) where
  -- The list of `normalize_live_asset_page`
  unfoldable pub shown_assets : List Fields → Result Exception (List LiveAsset)
  unfolding build_live_asset is_supported_image
  shown_assets [] = ok []
  shown_assets (r ∷ rs) =
      let later = shown_assets rs in
      (do asset ← build_live_asset json r; assets ← later; ok (keep_shown asset assets))

  -- `normalize_live_asset_page`: the items and the total
  unfoldable pub normalize_live_asset_page : Json → Result Exception (List LiveAsset × Timestamp)
  unfolding live_search_records shown_assets
  normalize_live_asset_page response = do
    (total, items) ← live_search_records json response
    assets ← shown_assets items
    ok (assets, total)

  abbrev is_null : Json → Bool
  is_null null = true
  is_null _ = false

  -- The references of the records that Canva can show.
  unfoldable pub supported_refs : List Fields → List String
  unfolding supported_live_record get
  supported_refs [] = []
  supported_refs (r ∷ rs) =
      let later = supported_refs rs in
      if not (is_null (get "ref" r)) && supported_live_record json r
      then json.str (get "ref" r) ∷ later
      else later

-- `{asset["id"]: asset for asset in items}`
unfoldable pub by_id : List LiveAsset → Dict LiveAsset → Dict LiveAsset
unfolding insert
by_id [] found = found
by_id (asset ∷ assets) found = by_id assets (insert asset.id asset found)

abbrev pub found_first : Option LiveAsset → List LiveAsset → List LiveAsset
found_first none rest = rest
found_first (some asset) rest = asset ∷ rest

-- `[by_id[ref] for ref in refs if ref in by_id]`
unfoldable pub in_order : List String → Dict LiveAsset → List LiveAsset
unfolding lookup
in_order [] found = []
in_order (ref ∷ refs) found = found_first (lookup ref found) (in_order refs found)
