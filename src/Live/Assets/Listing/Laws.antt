-- ===== src/Live/Assets/Listing/Laws.antt =====
-- The pages that `_list_live_assets`
-- (src/resourcespace_platform/services/resourcespace/_live_backend.py) answers with.
use mathlib.Core.Path.{subst}
use resourcespace_authentica.Base.{
  ◌+◌, String, ◌<>◌, some, true, ◌&&◌, ◌≡◌, refl, lookup, insert, lookup-insert, eq_iff, Dict, List,
  [], ◌∷◌, map, length, ok, >>=-eq-ok, ok_inj, All, AllValues, AllValues-insert, AllValues-lookup,
  arith, Bool-cases, Option-cases, inl, inr, ap, sym,
}
use resourcespace_authentica.CanvaVerifier.{Timestamp}
use resourcespace_authentica.Session.{Session}
use resourcespace_authentica.Api.{ApiLibrary}
use resourcespace_authentica.Api.Values.{Json, Fields, JsonLibrary}
use resourcespace_authentica.Live.{is_supported_image, session_call}
use resourcespace_authentica.Live.Records.{LiveAsset, live_search_records, build_live_asset}
use resourcespace_authentica.Live.Assets.{
  AssetPage, build_live_preview_list_search, require_live_search_payload, has_image, keep_shown,
  shown_assets, normalize_live_asset_page, supported_refs, by_id, in_order,
}
use resourcespace_authentica.Live.Assets.Listing.{
  AssetQuery, ListingDraws, remaining_find_budget, page_of, common, listing_params, previews_of,
  list_live_assets,
}

-- The first list comes from the second by leaving entries out.
pub data IsSublist : List String → List String → Type 0 where
  none_left : {ys : List String} → IsSublist [] ys
  kept : {x : String} {xs ys : List String} → IsSublist xs ys → IsSublist (x ∷ xs) (x ∷ ys)
  left_out : {y : String} {xs ys : List String} → IsSublist xs ys → IsSublist xs (y ∷ ys)

-- Canva can show the asset: a supported image with a thumbnail.
abbrev pub IsShown : LiveAsset → Type 0
IsShown asset = (is_supported_image asset.mime_type && has_image asset.thumbnail_source) ≡ true

abbrev IsKeyed : Dict LiveAsset → Type 0
IsKeyed found = (k : String) (asset : LiveAsset) → lookup k found ≡ some asset → asset.id ≡ k

nil-IsKeyed : IsKeyed []
unfolding lookup
nil-IsKeyed k asset h = cc

insert-IsKeyed :
    (asset : LiveAsset) (found : Dict LiveAsset)
    → IsKeyed found
    → IsKeyed (insert asset.id asset found)
insert-IsKeyed asset found h k other e =
    ground (arith, lookup-insert k asset.id asset found, eq_iff asset.id k, h k other)

by_id-IsKeyed :
    (assets : List LiveAsset) (found : Dict LiveAsset)
    → IsKeyed found
    → IsKeyed (by_id assets found)
unfolding by_id
by_id-IsKeyed [] found h = h
by_id-IsKeyed (asset ∷ assets) found h =
    by_id-IsKeyed assets (insert asset.id asset found) (insert-IsKeyed asset found h)

by_id-AllValues :
    (assets : List LiveAsset) (found : Dict LiveAsset)
    → All IsShown assets
    → AllValues IsShown found
    → AllValues IsShown (by_id assets found)
unfolding by_id
by_id-AllValues [] found h k = k
by_id-AllValues (asset ∷ assets) found (p, h) k =
    by_id-AllValues assets (insert asset.id asset found) h
      (AllValues-insert IsShown asset.id asset found p k)

in_order-IsSublist :
    (refs : List String) (found : Dict LiveAsset)
    → IsKeyed found
    → IsSublist (map (λ a. a.id) (in_order refs found)) refs
unfolding in_order
in_order-IsSublist [] found h = none_left
in_order-IsSublist (ref ∷ refs) found h = elim (Option-cases (lookup ref found)) [
  | inl missing ↦ rw missing (left_out (in_order-IsSublist refs found h))
  | inr (asset, e) ↦ rw (e, h ref asset e) (kept (in_order-IsSublist refs found h))
]

in_order-AllShown :
    (refs : List String) (found : Dict LiveAsset)
    → AllValues IsShown found
    → All IsShown (in_order refs found)
unfolding in_order
in_order-AllShown [] found h = tt
in_order-AllShown (ref ∷ refs) found h = elim (Option-cases (lookup ref found)) [
  | inl missing ↦ rw missing (in_order-AllShown refs found h)
  | inr (asset, e) ↦
      rw e (AllValues-lookup IsShown ref found asset h e, in_order-AllShown refs found h)
]

keep_shown-AllShown :
    (asset : LiveAsset) (assets : List LiveAsset)
    → All IsShown assets
    → All IsShown (keep_shown asset assets)
keep_shown-AllShown asset assets h =
    elim (Bool-cases (is_supported_image asset.mime_type && has_image asset.thumbnail_source)) [
      | inl shown ↦ rw shown (shown, h)
      | inr hidden ↦ rw hidden h
    ]

module _ (json : JsonLibrary) where
  shown_assets-AllShown :
      (records : List Fields) (assets : List LiveAsset)
      → shown_assets json records ≡ ok assets
      → All IsShown assets
  unfolding shown_assets
  shown_assets-AllShown [] assets h = subst (λ x. All IsShown x) (ok_inj h) tt
  shown_assets-AllShown (r ∷ records) assets h =
      let (asset, e, k) = >>=-eq-ok (build_live_asset json r) _ assets h in
      let (rest, f, same) = >>=-eq-ok (shown_assets json records) _ assets k in
      subst (λ x. All IsShown x) (ok_inj same)
        (keep_shown-AllShown asset rest (shown_assets-AllShown records rest f))

  normalize-AllShown :
      (response : Json) (assets : List LiveAsset) (total : Timestamp)
      → normalize_live_asset_page json response ≡ ok (assets, total)
      → All IsShown assets
  unfolding normalize_live_asset_page
  normalize-AllShown response assets total h =
      let ((n, items), e, k) = >>=-eq-ok (live_search_records json response) _ (assets, total) h in
      let (shown, f, same) = >>=-eq-ok (shown_assets json items) _ (assets, total) k in
      subst (λ x. All IsShown x) (ap (λ x. x.0) (ok_inj same)) (shown_assets-AllShown items shown f)

-- What a page is, against the records that were listed.
pub record IsPageOf (json : JsonLibrary) (total : Timestamp) (records : List Fields)
    (page : AssetPage LiveAsset) : Type 0 where
  pub shown : All IsShown page.items
  pub listed : IsSublist (map (λ a. a.id) page.items) (supported_refs json records)
  pub counted : page.scanned ≡ length records
  pub totalled : page.total ≡ total

page_of-IsPageOf :
    (json : JsonLibrary) (records : List Fields) (refs : List String) (total : Timestamp)
    (assets : List LiveAsset)
    → supported_refs json records ≡ refs
    → All IsShown assets
    → IsPageOf json total records (page_of refs total (length records) assets)
page_of-IsPageOf json records refs total assets e h = record {
  shown = in_order-AllShown refs (by_id assets []) (by_id-AllValues assets [] h tt);
  listed =
      subst (λ x. IsSublist (map (λ a. a.id) (in_order refs (by_id assets []))) x) (sym e)
        (in_order-IsSublist refs (by_id assets []) (by_id-IsKeyed assets [] nil-IsKeyed));
  counted = refl;
  totalled = refl;
}

module _ (library : ApiLibrary) (json : JsonLibrary) where
  previews_of-IsPageOf :
      (d : ListingDraws) (session : Session) (q : AssetQuery) (records : List Fields)
      (total : Timestamp) (refs : List String) (page : AssetPage LiveAsset)
      → supported_refs json records ≡ refs
      → previews_of library json d session q total (length records) refs ≡ ok page
      → IsPageOf json total records page
  previews_of-IsPageOf d session q records total [] page e h =
      subst (λ x. IsPageOf json total records x) (ok_inj h)
        (record { shown = tt; listed = none_left; counted = refl; totalled = refl })
  previews_of-IsPageOf d session q records total (ref ∷ refs) page e h =
      let (budget, e1, h1) =
        >>=-eq-ok (remaining_find_budget (d.start + 18000) d.second_call) _ page h in
      let (previews, e2, h2) =
        >>=-eq-ok
          (session_call library json session "search_get_previews" (
            ("search", build_live_preview_list_search (ref ∷ refs))
            ∷ ("fetchrows", "0," <> library.hosts.str (length (ref ∷ refs)))
            ∷ ("getsizes", "thm,pre")
            ∷ common library json q))
          _ page h1 in
      let (payload, e3, h3) = >>=-eq-ok (require_live_search_payload previews) _ page h2 in
      let ((assets, n), e4, h4) = >>=-eq-ok (normalize_live_asset_page json previews) _ page h3 in
      subst (λ x. IsPageOf json total records x) (ok_inj h4)
        (page_of-IsPageOf json records (ref ∷ refs) total assets e
          (normalize-AllShown json previews assets n e4))

  -- If a page of assets is answered, there is a listing of search results, which the API answered to
  -- the search at the offset and within the limit of 100, such that the page's items all are
  -- supported images with a thumbnail, their ids are those of supported records of the listing in its
  -- order, and `scanned` and `total` are the listing's.
  pub list_live_assets-IsPageOf :
      (d : ListingDraws) (session : Session) (q : AssetQuery) (page : AssetPage LiveAsset)
      → list_live_assets library json d session q ≡ ok page
      → (listing : Json) × (session_call library json session "search_get_previews"
            (listing_params library json q)
          ≡ ok listing)
        × (total : Timestamp) × (records : List Fields) × (live_search_records json listing
            ≡ ok (total, records))
        × IsPageOf json total records page
  unfolding list_live_assets
  list_live_assets-IsPageOf d session q page h =
      let (budget, e1, h1) =
        >>=-eq-ok (remaining_find_budget (d.start + 18000) d.first_call) _ page h in
      let (listing, e2, h2) =
        >>=-eq-ok
          (session_call library json session "search_get_previews" (listing_params library json q))
          _ page h1 in
      let (payload, e3, h3) = >>=-eq-ok (require_live_search_payload listing) _ page h2 in
      let ((total, records), e4, h4) = >>=-eq-ok (live_search_records json listing) _ page h3 in
      (
        listing,
        e2,
        total,
        records,
        e4,
        previews_of-IsPageOf d session q records total (supported_refs json records) page refl h4,
      )
