-- ===== src/Examples/Uploads.antt =====
-- The theorems on listings, downloads and uploads at a concrete tenant.
use resourcespace_authentica.Base.{
  ℕ, zero, suc, ◌+◌, ◌≤◌, String, insert, lookup, strip, rstrip_class, lstrip_class, is_space,
  is_ascii, split_on, remove_prefix, none, some, true, false, ◌==◌, ◌≡◌, refl, if◌then◌else◌,
  starts_with, List, [], ◌∷◌, ok, All, length,
}
use resourcespace_authentica.CanvaVerifier.{Timestamp, positive}
use resourcespace_authentica.Hosts.{
  HostLibrary, IpAddress, canonical_ascii_host, lower_ascii, host_matches_strict, canonical_pattern,
  ends_with,
}
use resourcespace_authentica.Hosts.Resolve.{
  is_private_ip, pin_request, resolve_pinned_addresses, sort_infos, append_new, ip_is_blocked,
  authority_for_header,
}
use resourcespace_authentica.Grants.{broker_integration_from_session}
use resourcespace_authentica.Api.{
  ApiLibrary, answered, call_live_api, fetch_jsonish_sync, build_signed_api_url, sent_params,
  first_reachable, parse_jsonish_response, resourcespace_request_headers,
}
use resourcespace_authentica.Api.Values.{
  Json, Fields, JsonLibrary, text, boolean, array, object, element, empty, field, end, get, find,
  objects,
}
use resourcespace_authentica.Live.{
  session_call, is_supported_image, mime_type_from_extension, decode_collection_container_id,
}
use resourcespace_authentica.Live.Records.{
  ProxyImage, LiveAsset, live_search_records, count_elements, build_live_asset, pick_asset_name,
  pick_asset_description, first_text, supported_live_record,
}
use resourcespace_authentica.Live.Assets.{
  AssetPage, build_live_search_string, build_live_preview_list_search, require_live_search_payload,
  normalize_live_asset_page, shown_assets, supported_refs, by_id, in_order,
}
use resourcespace_authentica.Live.Assets.Listing.{
  AssetQuery, ListingDraws, listing_params, remaining_find_budget, clamp_limit, list_live_assets,
}
use resourcespace_authentica.Live.Assets.Listing.Laws.{IsPageOf, list_live_assets-IsPageOf}
use resourcespace_authentica.Uploads as Exporting
use resourcespace_authentica.Uploads.{
  ExportLibrary, ExportResponse, chunk, validate_export_url, receive_export, read_export_response,
  read_export_hop,
}
use resourcespace_authentica.Uploads.Downloads.{
  Surroundings, Export, guard_hop, download_loop, download_start, download_bytes,
}
use resourcespace_authentica.Uploads.Downloads.Stopping.{download_bytes_ends}
use resourcespace_authentica.Uploads.Downloads.Guarding.{IsGuarded, download_bytes-AllGuarded}
use resourcespace_authentica.Uploads.Downloads.Reading.{IsBodyOf}
use resourcespace_authentica.Uploads.Downloads.Capping.{download_bytes-IsBodyOf}
use resourcespace_authentica.Uploads.Posting.{take_text, post_multipart_live_api}
use resourcespace_authentica.Uploads.Sequence.{
  UploadLibrary, finish_upload, fill_resource, upload_live_resource,
}
use resourcespace_authentica.Uploads.Sequence.Calls.{IsComplete, upload_live_resource-IsComplete}
use resourcespace_authentica.Examples.{demo_config, demo_session}

abbrev public_address : IpAddress
public_address = record {
  version = 4;
  is_private = false;
  is_loopback = false;
  is_link_local = false;
  is_reserved = false;
  is_multicast = false;
  is_unspecified = false;
  is_site_local = false;
  is_global = true;
}

-- Every host has one address; a pinned URL is the text that was parsed.
abbrev one_host : HostLibrary
one_host = record {
  lower = λ text. text;
  idna_host = λ host. none;
  getaddrinfo = λ host. some ("192.0.2.7" ∷ []);
  ip_address = λ text. some public_address;
  parse_url = λ text. some (record {
    scheme = "https";
    host = "dam.example";
    raw_host = "dam.example";
    port = none;
    copy_with_host = λ ip. text;
  });
  str = λ n. "0";
}

abbrev function_of : List (String × String) → String
function_of (user ∷ (key, function) ∷ params) = function
function_of other = ""

abbrev asset_record : Fields
asset_record =
    field "ref" (text "7") (field "file_extension" (text "jpg") (field "url_thm" (text "u") end))

abbrev answer : String → Json
answer url =
    if starts_with url "https://dam.example/api/?create_resource"
    then text "7"
    else if starts_with url "https://dam.example/api/?search"
    then array (element (object asset_record) empty)
    else boolean true

abbrev api : ApiLibrary
api = record {
  hosts = one_host;
  urlencode = λ pairs. function_of pairs;
  sha256_hex = λ text. "s";
  send = λ request.
      answered (record { status_code = 200; body_text = ""; json = some (answer request.url) });
}

abbrev text_or_none : Json → String
text_or_none (text s) = s
text_or_none other = "None"

abbrev json : JsonLibrary
json = record {
  str = λ value. text_or_none value;
  repr = λ value. text_or_none value;
  int = λ value. some (positive 0);
  isdigit = λ s. s == "7";
  lower = λ s. s;
  to_iso_date = λ value. none;
}

abbrev exports : ExportLibrary
exports = record {
  urlparse = λ url. some (record { scheme = "https"; hostname = some "dam.example" });
  join = λ url next_url. some next_url;
  int = λ s. none;
  str = λ n. "0";
}

-- The first turn is redirected, the others have three bytes.
abbrev export_answer : ℕ → ExportResponse
export_answer zero = record {
  status_code = 302;
  location = some "https://dam.example/b";
  content_length = none;
  content_type = none;
  events = [];
}
export_answer (suc turn) = record {
  status_code = 200;
  location = none;
  content_length = none;
  content_type = some "image/png";
  events = chunk (1 ∷ 2 ∷ []) ∷ chunk (3 ∷ []) ∷ [];
}

abbrev world : ℕ → Surroundings
world turn = record {
  validating = one_host;
  pinning = one_host;
  stream = λ request. Exporting.answered (export_answer turn);
}

abbrev exported : Export
exported = record {
  bytes = 1 ∷ 2 ∷ 3 ∷ [];
  filename = "canva-export.png";
  content_type = "image/png";
}

abbrev export_url : String
export_url = "https://dam.example/a"

download_bytes_ends_example :
    (download_loop exports demo_config.upload world
        (4 + 6)
        (download_start exports demo_config.upload world export_url)
      ≡ some (download_bytes exports demo_config.upload world export_url))
    × (length (download_bytes exports demo_config.upload world export_url).1 ≤ 6)
download_bytes_ends_example = download_bytes_ends exports demo_config.upload world 4 export_url

download_bytes-AllGuarded_example :
    All
      (IsGuarded exports demo_config.upload world)
      (download_bytes exports demo_config.upload world export_url).1
download_bytes-AllGuarded_example =
    download_bytes-AllGuarded exports demo_config.upload world export_url

download_bytes-IsBodyOf_example :
    (turn : ℕ) × IsBodyOf exports demo_config.upload.max_bytes (world turn).stream exported.bytes
unfolding download_bytes download_loop guard_hop validate_export_url canonical_ascii_host
    host_matches_strict canonical_pattern is_private_ip ip_is_blocked pin_request
    resolve_pinned_addresses sort_infos append_new authority_for_header read_export_hop
    read_export_response receive_export split_on strip rstrip_class lstrip_class is_space is_ascii
    lower_ascii lookup ends_with remove_prefix
download_bytes-IsBodyOf_example =
    download_bytes-IsBodyOf exports demo_config.upload world export_url exported refl

abbrev uploads : UploadLibrary
uploads = record {
  api = api;
  json = json;
  export = exports;
  world = world;
  preview = λ pixels bytes. some (9 ∷ []);
}

upload_live_resource-IsComplete_example :
    IsComplete uploads demo_config.upload demo_session "3" export_url
      (some "Logo")
      "7"
      (upload_live_resource uploads demo_config.upload demo_session "3" export_url (some "Logo")).1
unfolding upload_live_resource fill_resource finish_upload call_live_api fetch_jsonish_sync
    post_multipart_live_api build_signed_api_url sent_params first_reachable parse_jsonish_response
    resourcespace_request_headers broker_integration_from_session take_text get find download_bytes
    download_loop guard_hop validate_export_url canonical_ascii_host host_matches_strict
    canonical_pattern is_private_ip ip_is_blocked pin_request resolve_pinned_addresses sort_infos
    append_new authority_for_header read_export_hop read_export_response receive_export split_on
    strip rstrip_class lstrip_class is_space is_ascii lower_ascii lookup ends_with remove_prefix
upload_live_resource-IsComplete_example =
    upload_live_resource-IsComplete uploads demo_config.upload demo_session "3" export_url
      (some "Logo") "7" refl

abbrev listing_draws : ListingDraws
listing_draws = record { start = 0; first_call = 10; second_call = 2000 }

abbrev asset_query : AssetQuery
asset_query = record { query = ""; container_id = none; offset = 0; limit = 50; sort = "" }

abbrev image : ProxyImage
image = record { url = text "u"; mime_type = "image/jpeg"; width = none; height = none }

abbrev asset_page : AssetPage LiveAsset
asset_page = record {
  items =
      record {
        id = "7";
        name = "Asset 7";
        description = "";
        mime_type = "image/jpeg";
        filename = text "7.jpg";
        width = none;
        height = none;
        created_at = none;
        updated_at = none;
        thumbnail_source = some image;
        preview_source = some image;
      }
      ∷ [];
  total = positive 1;
  scanned = 1;
}

list_live_assets-IsPageOf_example :
    (listing : Json) × (session_call api json demo_session "search_get_previews"
        (listing_params api json asset_query)
      ≡ ok listing)
    × (total : Timestamp) × (records : List Fields) × (live_search_records json listing
        ≡ ok (total, records))
    × IsPageOf json total records asset_page
unfolding list_live_assets remaining_find_budget clamp_limit build_live_search_string
    build_live_preview_list_search require_live_search_payload live_search_records count_elements
    objects normalize_live_asset_page shown_assets build_live_asset pick_asset_name
    pick_asset_description first_text supported_live_record is_supported_image
    mime_type_from_extension supported_refs by_id in_order insert lookup call_live_api
    fetch_jsonish_sync build_signed_api_url sent_params first_reachable parse_jsonish_response
    resourcespace_request_headers broker_integration_from_session get find pin_request
    resolve_pinned_addresses sort_infos append_new authority_for_header canonical_ascii_host
    ip_is_blocked is_ascii lower_ascii strip rstrip_class lstrip_class is_space
    decode_collection_container_id remove_prefix
list_live_assets-IsPageOf_example =
    list_live_assets-IsPageOf api json listing_draws demo_session asset_query asset_page refl
