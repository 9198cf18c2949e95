-- ===== src/Pages/Images.antt =====
-- The images that `content_resources_find`
-- (src/resourcespace_platform/routes/content.py) makes of the assets of a page.
use resourcespace_authentica.Base.{
  ℕ, suc, ◌+◌, ◌*◌, ◌<>◌, Option, none, some, ◌≡◌, ◌⊎◌, inl, inr, refl, List, [], ◌∷◌, Result, ok,
  err,
}
use resourcespace_authentica.Errors.{Exception}
use resourcespace_authentica.State.{State}
use resourcespace_authentica.Session.{Session}
use resourcespace_authentica.Grants.{GrantDraws, GrantLink, create_grant, create_signature}
use resourcespace_authentica.Live.Records.{ProxyImage, LiveAsset}
use resourcespace_authentica.Pages.Finding.{
  granted, with_first, and_rest, first_source, render_assets,
}
use resourcespace_authentica.Pages.Messages.{ContentLibrary, ImageResponse, build_image_response}

module _ (library : ContentLibrary) where
  -- The signed link of the grant that was drawn.
  abbrev pub preview_link : GrantDraws → GrantLink
  preview_link d =
      let config = library.assets.config in
      let expires_at = d.now + config.oauth.signed_url_ttl_seconds * 1000 in
      record {
        grant_id = d.grant_id;
        path = config.base_url <> "/public/assets" <> "/" <> d.grant_id;
        expires = library.assets.library.str expires_at;
        sig = create_signature library.assets d.grant_id expires_at;
        expires_at = expires_at;
      }

  -- The image shows this asset: its own id and texts, under the link that was drawn for it.
  pub record IsImageOf (d : GrantDraws) (asset : LiveAsset) (shown : ImageResponse) : Type 0 where
    pub source : ProxyImage
    pub has_source :
        (asset.preview_source ≡ some source)
        ⊎ ((asset.preview_source ≡ none) × (asset.thumbnail_source ≡ some source))
    pub id : shown.id ≡ asset.id
    pub name : shown.name ≡ asset.name
    pub description : shown.description ≡ asset.description
    pub mime_type : shown.mime_type ≡ asset.mime_type
    pub filename : shown.filename ≡ asset.filename
    pub width : shown.width ≡ asset.width
    pub height : shown.height ≡ asset.height
    pub created_at : shown.created_at ≡ asset.created_at
    pub updated_at : shown.updated_at ≡ asset.updated_at
    pub link : shown.preview_link ≡ preview_link d
    pub download : shown.download_path ≡ "/content/resources/" <> asset.id <> "/download-url"

  -- One image for each asset, in order; the draws are numbered from `i` on.
  abbrev pub AreImagesOf : (ℕ → GrantDraws) → ℕ → List LiveAsset → List ImageResponse → Type 0
  AreImagesOf draws i [] [] = Unit
  AreImagesOf draws i (asset ∷ assets) (shown ∷ images) =
      IsImageOf (draws i) asset shown × AreImagesOf draws (suc i) assets images
  AreImagesOf draws i assets images = ⊥

  source_case :
      (preview thumbnail : Option ProxyImage) (source : ProxyImage)
      → first_source preview thumbnail ≡ some source
      → (preview ≡ some source) ⊎ ((preview ≡ none) × (thumbnail ≡ some source))
  source_case none thumbnail source h = inr (refl, h)
  source_case (some preview) thumbnail source h = inl h

  granted-IsImageOf :
      (session : Session) (asset : LiveAsset) (d : GrantDraws) (found : Option ProxyImage)
      (s s' : State) (shown : ImageResponse)
      → first_source asset.preview_source asset.thumbnail_source ≡ found
      → granted library session asset d found s ≡ (s', ok shown)
      → IsImageOf d asset shown
  unfolding create_grant build_image_response
  granted-IsImageOf session asset d none s s' shown e h = cc
  granted-IsImageOf session asset d (some source) s s' shown e h =
      let same : shown ≡ build_image_response asset (preview_link d) = cc in
      rw same (record {
        source = source;
        has_source = source_case asset.preview_source asset.thumbnail_source source e;
        id = refl;
        name = refl;
        description = refl;
        mime_type = refl;
        filename = refl;
        width = refl;
        height = refl;
        created_at = refl;
        updated_at = refl;
        link = refl;
        download = refl;
      })

  -- Two steps that came to a list, the first of one image.
  record IsSplit (later : State → State × Result Exception (List ImageResponse))
      (first : State × Result Exception ImageResponse) (images : List ImageResponse) : Type 0 where
    state : State
    head : ImageResponse
    tail : List ImageResponse
    first_ok : first ≡ (state, ok head)
    later_ok : (later state).1 ≡ ok tail
    both : images ≡ head ∷ tail

  and_rest-IsSplit :
      (later : State → State × Result Exception (List ImageResponse))
      (first : State × Result Exception ImageResponse) (images : List ImageResponse)
      → (and_rest library first later).1 ≡ ok images
      → IsSplit later first images
  and_rest-IsSplit later (s, err e) images h = absurd (cc h)
  and_rest-IsSplit later (s, ok shown) images h =
      let (tail, e, k) = with_first_case shown (later s) h in
      record { state = s; head = shown; tail = tail; first_ok = refl; later_ok = e; both = k }
    where
      with_first_case :
          (shown : ImageResponse) (rest : State × Result Exception (List ImageResponse))
          → (with_first library shown rest).1 ≡ ok images
          → (tail : List ImageResponse) × (rest.1 ≡ ok tail) × (images ≡ shown ∷ tail)
      with_first_case shown (s', err e) h = absurd (cc h)
      with_first_case shown (s', ok tail) h = (tail, refl, cc)

  pub render_assets-AreImagesOf :
      (session : Session) (draws : ℕ → GrantDraws) (i : ℕ) (assets : List LiveAsset) (s : State)
      (images : List ImageResponse)
      → (render_assets library session draws i assets s).1 ≡ ok images
      → AreImagesOf draws i assets images
  unfolding render_assets
  render_assets-AreImagesOf session draws i [] s [] h = tt
  render_assets-AreImagesOf session draws i [] s (x ∷ xs) h = absurd (cc h)
  render_assets-AreImagesOf session draws i (asset ∷ assets) s images h =
      let split =
        and_rest-IsSplit (λ s'. render_assets library session draws (suc i) assets s')
          (granted library session asset (draws i)
            (first_source asset.preview_source asset.thumbnail_source) s)
          images h in
      rw split.both (
        granted-IsImageOf session asset (draws i)
            (first_source asset.preview_source asset.thumbnail_source) s split.state split.head refl
            split.first_ok,
        render_assets-AreImagesOf session draws (suc i) assets split.state split.tail
            split.later_ok,
      )
