-- ===== src/Pages/Delivery.antt =====
-- All the pages of a content search, one after the other
-- (src/resourcespace_platform/routes/content.py).
use mathlib.Core.Path.{subst}
use mathlib.Core.List.{map-append, append-nil, append_assoc}
use resourcespace_authentica.Base.{
  ℕ, zero, suc, ◌+◌, ◌-◌, ◌≤◌, ◌<◌, ◌≡◌, refl, sym, ap, ◌∙◌, Option, some, true, false, ◌||◌, ltb,
  if◌then◌else◌, List, [], ◌++◌, map, length, take, drop, drop_past, length-take_le,
  slice-append-rest, slice_short, slice_within, Result, ok, arith, Bool-cases, inl, inr,
}
use resourcespace_authentica.Errors.{Exception}
use resourcespace_authentica.CanvaVerifier.{Timestamp, positive}
use resourcespace_authentica.Pages.{
  ListedPage, Offsets, advanced, advance_asset_offset, Resource, container, image, FoundPage,
  next_offsets, full_page, probed_page, find_page,
}
use resourcespace_authentica.Pages.Integers.{slice}
use resourcespace_authentica.Pages.Following.{
  Position, at, follow, continue, read_all, concat_map, concat_map-append, window_page, IsListing,
}

module _ {ℓ κ μ} {C : Type ℓ} {A : Type κ} {R : Type μ} (shown : R → List A) (listing : List R)
    (containers : List C) where
  -- What is to come from the offsets on: the containers, then the assets.
  abbrev pub remaining : Position → List (Resource C A)
  remaining o =
      map container (drop o.container_offset containers)
      ++ map image (concat_map shown (drop o.asset_offset listing))

  abbrev pub left_over : Position → ℕ
  left_over o = (length containers - o.container_offset) + (length listing - o.asset_offset)

  nothing_remains :
      (o : Position)
      → length containers ≤ o.container_offset
      → length listing ≤ o.asset_offset
      → remaining o ≡ []
  unfolding concat_map
  nothing_remains o h k =
      rw (drop_past o.container_offset containers h, drop_past o.asset_offset listing k) refl

  -- A page and the pages after it.
  follow_rest :
      (resources : List (Resource C A)) (o : Position)
      (more : Offsets → Option (List (Resource C A)))
      → ((ltb o.container_offset (length containers) || ltb o.asset_offset (length listing)) ≡ true
          → more (at o) ≡ some (remaining o))
      → follow resources (next_offsets containers (positive (length listing)) (at o)) more
        ≡ some (resources ++ remaining o)
  follow_rest resources o more h =
      elim (Bool-cases
        (ltb o.container_offset (length containers) || ltb o.asset_offset (length listing))) [
          | inl further ↦ rw (further, h further) refl
          | inr last ↦
              rw (last, nothing_remains o (ground arith) (ground arith))
                (ap some (sym (append-nil resources)))
        ]

  images-append :
      (xs ys : List A)
      → map (λ a. image a) (xs ++ ys)
        ≡ ◌++◌ {A = Resource C A} (map (λ a. image a) xs) (map (λ a. image a) ys)
  images-append xs ys = map-append (λ a. image a) xs ys

  boxes-append :
      (xs ys : List C)
      → map (λ c. container c) (xs ++ ys)
        ≡ ◌++◌ {A = Resource C A} (map (λ c. container c) xs) (map (λ c. container c) ys)
  boxes-append xs ys = map-append (λ c. container c) xs ys

  resources-nil : (xs : List (Resource C A)) → xs ++ [] ≡ xs
  resources-nil xs = append-nil xs

  joined_full :
      (sliced rest : List C) (seen unseen : List R)
      → rest ≡ []
      → ◌++◌ {A = Resource C A}
          (map container sliced ++ map image (concat_map shown seen))
          (map container rest ++ map image (concat_map shown unseen))
        ≡ map container (sliced ++ rest) ++ map image (concat_map shown (seen ++ unseen))
  joined_full sliced rest seen unseen e =
      rw
        (
          e,
          append-nil sliced,
          concat_map-append shown seen unseen,
          images-append (concat_map shown seen) (concat_map shown unseen),
        )
        (append_assoc (map container sliced) (map image (concat_map shown seen))
          (map image (concat_map shown unseen)))

  joined_probe :
      (sliced rest : List C) (later : List (Resource C A))
      → ◌++◌ {A = Resource C A} (map container sliced ++ []) (map container rest ++ later)
        ≡ map container (sliced ++ rest) ++ later
  joined_probe sliced rest later =
      rw (resources-nil (map container sliced), boxes-append sliced rest)
        (sym (append_assoc (map container sliced) (map container rest) later))

  -- The next offset of the assets, after a page that has looked at `m` records of `t`.
  abbrev next_asset : ℕ → ℕ → ℕ → ℕ
  next_asset ao t zero = if ltb ao t then t else ao
  next_asset ao t (suc m) = ao + suc m

  advanced-at : (ao t m : ℕ) → advanced (positive ao) (positive t) m ≡ positive (next_asset ao t m)
  advanced-at ao t zero = refl
  advanced-at ao t (suc m) = refl

  abbrev stepped : Position → List C → ℕ → Position
  stepped o sliced ao = record {
    container_offset = o.container_offset + length sliced;
    asset_offset = ao;
  }

  -- The pages move on.
  full_less :
      (c t co ao m : ℕ)
      → c ≤ co
      → (ltb co c || ltb (next_asset ao t m) t) ≡ true
      → t - next_asset ao t m < t - ao
  full_less c t co ao zero le h = ground arith
  full_less c t co ao (suc m) le h = ground arith

  drop-advanced :
      (ao n : ℕ)
      → drop (next_asset ao (length listing) (length (take (suc n) (drop ao listing)))) listing
        ≡ drop (ao + length (take (suc n) (drop ao listing))) listing
  drop-advanced ao n = by_length (length (take (suc n) (drop ao listing))) refl
    where
      by_length :
          (m : ℕ)
          → length (take (suc n) (drop ao listing)) ≡ m
          → drop (next_asset ao (length listing) m) listing ≡ drop (ao + m) listing
      by_length zero e =
          let past : length listing ≤ ao + 0 =
            subst (λ m. length listing ≤ ao + m) e
              (slice_short ao (suc n) listing (omega (arith, e))) in
          rw (drop_past (ao + 0) listing past)
            (drop_past (next_asset ao (length listing) 0) listing (ground (arith, past)))
      by_length (suc m) e = refl

  module _ (list_assets : Timestamp → Timestamp → Result Exception (ListedPage A)) (window : ℕ → ℕ)
      (l : ℕ) where
    abbrev pub find : Offsets → Result Exception (FoundPage C A)
    find o = find_page list_assets true containers (positive (suc l)) o

    -- The next pages deliver the rest.
    abbrev IsReading : ℕ → Type (ℓ ⊔ κ)
    IsReading fuel =
        (o : Position) → left_over o < fuel → read_all find fuel (at o) ≡ some (remaining o)

    full_step :
        (fuel n : ℕ) (o : Position)
        → IsReading fuel
        → left_over o < suc fuel
        → length (take (suc l) (drop o.container_offset containers)) < suc l
        → continue
            (ok (
              full_page containers
                (at o)
                (take (suc l) (drop o.container_offset containers))
                (window_page shown listing o.asset_offset n)))
            (λ o'. read_all find fuel o')
          ≡ some (remaining o)
    unfolding advance_asset_offset
    full_step fuel n o h lt short =
        let co = o.container_offset in
        let ao = o.asset_offset in
        let sliced = take (suc l) (drop co containers) in
        let seen = take (suc n) (drop ao listing) in
        let next_ao = next_asset ao (length listing) (length seen) in
        let past = slice_short co (suc l) containers short in
        let o' = stepped o sliced next_ao in
        rw (advanced-at ao (length listing) (length seen)) (
          follow_rest (map container sliced ++ map image (concat_map shown seen)) o'
            (λ x. read_all find fuel x)
            (λ further. h o' (
              omega (
                arith,
                lt,
                past,
                full_less (length containers) (length listing) (co + length sliced) ao (length seen)
                    past further,
              )))
          ∙ ap some (
              joined_full sliced (drop (co + length sliced) containers) seen (drop next_ao listing)
                (drop_past (co + length sliced) containers past)
              ∙ rw
                  (
                    drop-advanced ao n,
                    slice-append-rest co (suc l) containers,
                    slice-append-rest ao (suc n) listing,
                  )
                  refl))

    probe_step :
        (fuel : ℕ) (o : Position)
        → IsReading fuel
        → left_over o < suc fuel
        → suc l ≤ length (take (suc l) (drop o.container_offset containers))
        → continue
            (ok (
              probed_page containers
                (at o)
                (take (suc l) (drop o.container_offset containers))
                (positive (length listing))))
            (λ o'. read_all find fuel o')
          ≡ some (remaining o)
    probe_step fuel o h lt full =
        let co = o.container_offset in
        let ao = o.asset_offset in
        let sliced = take (suc l) (drop co containers) in
        let within = slice_within co (suc l) containers (omega (arith, full)) in
        let o' = stepped o sliced ao in
        follow_rest (map container sliced ++ []) o' (λ x. read_all find fuel x)
          (λ further. h o' (omega (arith, lt, within, full)))
        ∙ ap some (
            joined_probe sliced (drop (co + length sliced) containers)
              (map image (concat_map shown (drop ao listing)))
            ∙ rw (slice-append-rest co (suc l) containers) refl)

    page_step :
        (fuel : ℕ) (o : Position)
        → IsListing shown listing window list_assets
        → IsReading fuel
        → left_over o < suc fuel
        → continue (find (at o)) (λ o'. read_all find fuel o') ≡ some (remaining o)
    unfolding find_page slice
    page_step fuel o listed h lt =
        let co = o.container_offset in
        let sliced = take (suc l) (drop co containers) in
        let whole : co + suc l - co ≡ suc l = omega arith in
        let fits : ltb (suc l) (length sliced) ≡ false =
          ground (arith, length-take_le (suc l) (drop co containers)) in
        elim (Bool-cases (ltb 0 (suc l - length sliced))) [
          | inl room ↦
              let n = l - length sliced in
              let short : length sliced < suc l = ground arith in
              let rest : suc l - length sliced ≡ suc n = omega (arith, short) in
              rw (whole, fits, room, rest, listed o.asset_offset n)
                (full_step fuel (window n) o h lt short)
          | inr filled ↦
              rw (whole, fits, filled, listed 0 0) (probe_step fuel o h lt (ground arith))
        ]

    -- A client that asks for both kinds and follows the continuations gets everything: if the service
    -- lists one fixed collection in windows of at least one record, then from any offsets that are not
    -- negative, with any limit of at least one, and within as many pages as there are containers and records left and one more, the pages
    -- end, and together they hold each container that is left and each asset that the records left
    -- show, once and in order, all containers first.
    pub read_all_delivers :
        (fuel : ℕ) (o : Position)
        → IsListing shown listing window list_assets
        → left_over o < fuel
        → read_all find fuel (at o) ≡ some (remaining o)
    unfolding read_all
    read_all_delivers zero o listed lt = absurd (omega (arith, lt))
    read_all_delivers (suc fuel) o listed lt =
        page_step fuel o listed (λ o' less. read_all_delivers fuel o' listed less) lt
