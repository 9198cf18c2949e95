-- ===== src/Pages/Following.antt =====
-- A client of `content_resources_find` (src/resourcespace_platform/routes/content.py) that follows the
-- continuations, and a service that lists a fixed collection.
use mathlib.Core.List.{append_assoc}
use resourcespace_authentica.Base.{
  ℕ, zero, suc, ◌≡◌, refl, sym, ap, ◌∙◌, Option, none, some, List, [], ◌∷◌, ◌++◌, length, take,
  drop, Result, ok, err,
}
use resourcespace_authentica.Errors.{Exception}
use resourcespace_authentica.CanvaVerifier.{Timestamp, positive}
use resourcespace_authentica.Pages.{ListedPage, Offsets, Resource, FoundPage, resources_of}

module _ {ℓ} {A : Type ℓ} where
  abbrev pub prepend : List A → Option (List A) → Option (List A)
  prepend resources none = none
  prepend resources (some rest) = some (resources ++ rest)

  abbrev pub follow : List A → Option Offsets → (Offsets → Option (List A)) → Option (List A)
  follow resources none more = some resources
  follow resources (some o) more = prepend resources (more o)

module _ {ℓ κ} {C : Type ℓ} {A : Type κ} where
  abbrev pub continue :
      Result Exception (FoundPage C A)
      → (Offsets → Option (List (Resource C A)))
      → Option (List (Resource C A))
  continue (err e) more = none
  continue (ok page) more = follow (resources_of page) page.next more

  -- A client that follows the continuations, on fuel.
  unfoldable pub read_all :
      (Offsets → Result Exception (FoundPage C A)) → ℕ → Offsets → Option (List (Resource C A))
  read_all find zero o = none
  read_all find (suc fuel) o = continue (find o) (λ o'. read_all find fuel o')

-- The assets that records show, in order.
unfoldable pub concat_map {ℓ κ} : {R : Type ℓ} {A : Type κ} → (R → List A) → List R → List A
concat_map shown [] = []
concat_map shown (r ∷ rs) = shown r ++ concat_map shown rs

pub concat_map-append {ℓ κ} :
    {R : Type ℓ} {A : Type κ} (shown : R → List A) (rs ss : List R)
    → concat_map shown (rs ++ ss) ≡ concat_map shown rs ++ concat_map shown ss
unfolding concat_map
concat_map-append shown [] ss = refl
concat_map-append shown (r ∷ rs) ss =
    ap (λ x. shown r ++ x) (concat_map-append shown rs ss)
    ∙ sym (append_assoc (shown r) (concat_map shown rs) (concat_map shown ss))

-- The page of a listing at an offset, of a window of at least one record.
abbrev pub window_page {ℓ κ} :
    {R : Type ℓ} {A : Type κ} → (R → List A) → List R → ℕ → ℕ → ListedPage A
window_page shown listing offset n = record {
  items = concat_map shown (take (suc n) (drop offset listing));
  total = positive (length listing);
  scanned = some (positive (length (take (suc n) (drop offset listing))));
}

-- Offsets that are not negative, as in every continuation that the broker makes.
pub record Position : Type 0 where
  pub container_offset : ℕ
  pub asset_offset : ℕ

abbrev pub at : Position → Offsets
at o = record {
  container_offset = positive o.container_offset;
  asset_offset = positive o.asset_offset;
}

-- The service lists one fixed collection of records: at an offset it looks at a window of at
-- least one record, gives the assets that these show, and says how many they are of how many.
abbrev pub IsListing {ℓ κ} :
    {R : Type ℓ} {A : Type κ}
    → (R → List A)
    → List R
    → (ℕ → ℕ)
    → (Timestamp → Timestamp → Result Exception (ListedPage A))
    → Type κ
IsListing shown listing window list_assets =
    (offset n : ℕ)
    → list_assets (positive offset) (positive (suc n))
      ≡ ok (window_page shown listing offset (window n))
