-- ===== src/Pages.antt =====
-- One page of the content search: `_advance_asset_offset`, `_map_find_error` and the paging of
-- `content_resources_find` of src/resourcespace_platform/routes/content.py.
pub mod Integers
pub mod Following
pub mod Delivery
pub mod Continuations
pub mod Gate
pub mod Messages
pub mod Finding
pub mod Handlers
pub mod Scopes
pub mod Images
pub mod Answers
use resourcespace_authentica.Base.{
  ℕ, zero, suc, ◌+◌, ◌-◌, Option, none, some, Bool, true, false, ◌&&◌, ◌||◌, ltb, if◌then◌else◌,
  List, [], ◌∷◌, ◌++◌, map, length, take, drop, Result, ok, err, ◌>>=◌, String, ◌==◌,
}
use resourcespace_authentica.Errors.{ResourceSpaceError, Exception}
use resourcespace_authentica.CanvaVerifier.{Timestamp, positive, negative}
use resourcespace_authentica.Pages.Integers.{plus, minus_length, is_below, larger, slice}

-- What list_assets returns; `scanned` may be missing.
pub record ListedPage {ℓ} (A : Type ℓ) : Type ℓ where
  pub items : List A
  pub total : Timestamp
  pub scanned : Option Timestamp

-- The two offsets of a continuation.
pub record Offsets : Type 0 where
  pub container_offset : Timestamp
  pub asset_offset : Timestamp

-- `max(0, n)`
abbrev pub or_zero : Timestamp → ℕ
or_zero (positive n) = n
or_zero (negative n) = 0

abbrev pub consumed {ℓ} : {A : Type ℓ} → ListedPage A → Option Timestamp → ℕ
consumed page none = length page.items
consumed page (some n) = or_zero n

abbrev pub advanced : Timestamp → Timestamp → ℕ → Timestamp
advanced current total zero = larger current total
advanced current total (suc n) = plus current (positive (suc n))

-- `_advance_asset_offset`
unfoldable pub advance_asset_offset {ℓ} : {A : Type ℓ} → Timestamp → ListedPage A → Timestamp
advance_asset_offset current page = advanced current page.total (consumed page page.scanned)

-- `_map_find_error`: the errorCode of the answer
unfoldable pub map_find_error : ResourceSpaceError → String
map_find_error e =
    if e.code == "UPSTREAM_SESSION_EXPIRED"
    then "CONFIGURATION_REQUIRED"
    else if e.code == "FORBIDDEN" || e.code == "UNKNOWN_TENANT"
    then "FORBIDDEN"
    else if e.code == "NOT_FOUND"
    then "NOT_FOUND"
    else if e.code == "INVALID_TENANT_URL"
    then "INVALID_REQUEST"
    else if e.code == "UPSTREAM_UNAVAILABLE"
    then "TIMEOUT"
    else "INTERNAL_ERROR"

pub data Resource {ℓ κ} (C : Type ℓ) (A : Type κ) : Type (ℓ ⊔ κ) where
  container : C → Resource C A
  image : A → Resource C A

-- A page of the answer: the containers, the assets, and the offsets of the next page if there is more.
pub record FoundPage {ℓ κ} (C : Type ℓ) (A : Type κ) : Type (ℓ ⊔ κ) where
  pub containers : List C
  pub assets : List A
  pub next : Option Offsets

module _ {ℓ} {C : Type ℓ} where
  abbrev pub next_offsets : List C → Timestamp → Offsets → Option Offsets
  next_offsets containers total o =
      if is_below o.container_offset (positive (length containers)) || is_below o.asset_offset total
      then some o
      else none

  abbrev pub moved : Offsets → List C → Timestamp → Offsets
  moved o sliced asset_offset = record {
    container_offset = plus o.container_offset (positive (length sliced));
    asset_offset = asset_offset;
  }

module _ {ℓ κ} {C : Type ℓ} {A : Type κ} where
  abbrev pub full_page : List C → Offsets → List C → ListedPage A → FoundPage C A
  full_page containers o sliced page =
      let asset_offset = advance_asset_offset o.asset_offset page in
      record {
        containers = sliced;
        assets = page.items;
        next = next_offsets containers page.total (moved o sliced asset_offset);
      }

  abbrev pub probed_page : List C → Offsets → List C → Timestamp → FoundPage C A
  probed_page containers o sliced total = record {
    containers = sliced;
    assets = [];
    next = next_offsets containers total (moved o sliced o.asset_offset);
  }

  -- From `remaining = limit` on: `list_assets` is the service's, at an offset and a limit.
  unfoldable pub find_page :
      (Timestamp → Timestamp → Result Exception (ListedPage A))
      → Bool
      → List C
      → Timestamp
      → Offsets
      → Result Exception (FoundPage C A)
  unfolding advance_asset_offset slice
  find_page list_assets includes_images containers limit o =
      let sliced = slice containers o.container_offset (plus o.container_offset limit) in
      let room = minus_length limit (length sliced) in
      if includes_images && is_below (positive 0) room
      then (do page ← list_assets o.asset_offset room; ok (full_page containers o sliced page))
      else if includes_images
      then (do
        page ← list_assets (positive 0) (positive 1)
        ok (probed_page containers o sliced page.total))
      else ok (probed_page containers o sliced (positive 0))

  -- The resources of a page, in the order of the answer.
  abbrev pub resources_of : FoundPage C A → List (Resource C A)
  resources_of page = map container page.containers ++ map image page.assets
