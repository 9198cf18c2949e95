-- ===== src/Live/Assets/Listing.antt =====
-- `_remaining_find_budget` and `_list_live_assets` of
-- src/resourcespace_platform/services/resourcespace/_live_backend.py. The clock is read in whole
-- milliseconds.
pub mod Laws
use mathlib.Core.Path.{subst}
use resourcespace_authentica.Base.{
  ℕ, ◌+◌, ◌-◌, String, ◌<>◌, Option, none, some, Bool, true, false, ◌&&◌, ◌==◌, ◌≡◌, refl, leb, ltb,
  if◌then◌else◌, get_or, lookup, insert, lookup-insert, eq_iff, Dict, List, [], ◌∷◌, map, length,
  Result, ok, err, ◌>>=◌, >>=-eq-ok, ok_inj, All, AllValues, AllValues-insert, AllValues-lookup,
  arith, Bool-cases, Option-cases, inl, inr, ap, sym,
}
use resourcespace_authentica.Errors.{Exception, resource_space}
use resourcespace_authentica.CanvaVerifier.{Timestamp, positive}
use resourcespace_authentica.Session.{Session}
use resourcespace_authentica.Api.{ApiLibrary, call_live_api, unavailable}
use resourcespace_authentica.Api.Values.{Json, Fields, JsonLibrary}
use resourcespace_authentica.Live.{is_supported_image, session_call}
use resourcespace_authentica.Live.Records.{LiveAsset, live_search_records, build_live_asset}
use resourcespace_authentica.Live.Assets.{
  AssetPage, build_live_search_string, build_live_preview_list_search, require_live_search_payload,
  has_image, keep_shown, shown_assets, normalize_live_asset_page, supported_refs, by_id,
  found_first, in_order,
}

-- The arguments of list_assets.
pub record AssetQuery : Type 0 where
  pub query : String
  pub container_id : Option String
  pub offset : ℕ
  pub limit : ℕ
  pub sort : String

-- What one listing reads of the clock: at the start and before each of the two calls.
pub record ListingDraws : Type 0 where
  pub start : ℕ
  pub first_call : ℕ
  pub second_call : ℕ

-- `_remaining_find_budget`: the rest of the budget is the timeout of the call.
unfoldable pub remaining_find_budget : ℕ → ℕ → Result Exception ℕ
remaining_find_budget deadline now =
    if ltb (deadline - now) 100 then err (resource_space unavailable) else ok (deadline - now)

-- `max(1, min(limit, 100))`
unfoldable pub clamp_limit : ℕ → ℕ
clamp_limit limit = if leb limit 100 then (if ltb 0 limit then limit else 1) else 100

abbrev pub page_of : List String → Timestamp → ℕ → List LiveAsset → AssetPage LiveAsset
page_of refs total scanned assets = record {
  items = in_order refs (by_id assets []);
  total = total;
  scanned = scanned;
}

module _ (library : ApiLibrary) (json : JsonLibrary) where
  abbrev pub common : AssetQuery → List (String × String)
  common q =
      ("order_by", if q.sort == "name_asc" then "title" else "date")
      ∷ ("sort", if q.sort == "updated_asc" then "asc" else "desc")
      ∷ ("archive", "0")
      ∷ ("previewext", "jpg")
      ∷ []

  abbrev pub listing_params : AssetQuery → List (String × String)
  listing_params q =
      ("search", build_live_search_string json q.query q.container_id)
      ∷ ("fetchrows", library.hosts.str q.offset <> "," <> library.hosts.str (clamp_limit q.limit))
      ∷ common q

  -- From the references on: without any there is no second call.
  abbrev previews_of :
      ListingDraws
      → Session
      → AssetQuery
      → Timestamp
      → ℕ
      → List String
      → Result Exception (AssetPage LiveAsset)
  previews_of d session q total scanned [] =
      ok (record { items = []; total = total; scanned = scanned })
  previews_of d session q total scanned (ref ∷ refs) = do
    budget ← remaining_find_budget (d.start + 18000) d.second_call
    previews ← session_call library json session "search_get_previews" (
        ("search", build_live_preview_list_search (ref ∷ refs))
        ∷ ("fetchrows", "0," <> library.hosts.str (length (ref ∷ refs)))
        ∷ ("getsizes", "thm,pre")
        ∷ common q)
    payload ← require_live_search_payload previews
    (assets, shown_total) ← normalize_live_asset_page json previews
    ok (page_of (ref ∷ refs) total scanned assets)

  -- `_list_live_assets`
  unfoldable pub list_live_assets :
      ListingDraws → Session → AssetQuery → Result Exception (AssetPage LiveAsset)
  unfolding remaining_find_budget clamp_limit build_live_search_string
      build_live_preview_list_search require_live_search_payload live_search_records
      normalize_live_asset_page supported_refs by_id in_order call_live_api
  list_live_assets d session q = do
    budget ← remaining_find_budget (d.start + 18000) d.first_call
    listing ← session_call library json session "search_get_previews" (listing_params q)
    payload ← require_live_search_payload listing
    (total, records) ← live_search_records json listing
    previews_of d session q total (length records) (supported_refs json records)
