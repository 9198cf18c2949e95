-- ===== src/Grants/Headers.antt =====
-- The headers of a delivered asset: `_is_svg_content_type`, `_harden_asset_response_headers` and the
-- header part of `build_grant_response` for a proxied asset
-- (src/resourcespace_platform/services/asset_service.py).
use Prim.Native.Char.{code}
use Prim.Native.String.{[], ◌∷◌}
use resourcespace_authentica.Base.{
  ℕ, ◌≡◌, refl, String, Option, some, Bool, true, false, ◌&&◌, if◌then◌else◌, truthy, truthy_text,
  get_or, same_code, lower_is, strip, is_space, Dict, lookup, insert, lookup-insert,
  lookup-insert_self, Bool-cases, inl, inr, ◌∙◌,
}
use resourcespace_authentica.Grants.Filenames.{content_disposition, attachment_content_disposition}

-- `s.split(sep, 1)[0]`, of one character
unfoldable pub before_first : ℕ → String → String
before_first sep [] = []
before_first sep (c ∷ s) =
    let rest = before_first sep s in if same_code (code c) sep then [] else c ∷ rest

-- `_is_svg_content_type`
unfoldable pub is_svg_content_type : String → Bool
unfolding lower_is before_first strip
is_svg_content_type content_type =
    truthy content_type && lower_is (strip (before_first b';' content_type)) "image/svg+xml"

-- `_harden_asset_response_headers`
unfoldable pub harden_asset_response_headers :
    (String → String) → String → Option String → Bool → Dict String → Dict String
unfolding is_svg_content_type attachment_content_disposition
harden_asset_response_headers quote content_type filename from_proxy headers =
    let hardened =
      insert "Content-Security-Policy" "default-src 'none'; sandbox"
        (insert "X-Content-Type-Options" "nosniff" headers) in
    if from_proxy && is_svg_content_type content_type
    then insert "Content-Disposition"
        (attachment_content_disposition quote
          (if truthy_text filename then get_or filename "" else "download.svg"))
        (insert "Content-Type" "application/octet-stream" hardened)
    else hardened

abbrev first_text : Option String → Option String → String → String
first_text a b c = if truthy_text a then get_or a "" else if truthy_text b then get_or b "" else c

abbrev with_disposition : (String → String) → Option String → Dict String → Dict String
with_disposition quote filename headers =
    if truthy_text filename
    then insert "Content-Disposition" (content_disposition quote (get_or filename "")) headers
    else headers

-- The headers of `build_grant_response` for a proxied asset: the type of the grant, or the one of the
-- response, or the default. `extra` are the caller's headers, already merged.
unfoldable pub proxy_headers :
    (String → String) → Option String → Option String → Option String → Dict String → Dict String
unfolding harden_asset_response_headers content_disposition
proxy_headers quote mime_type upstream_type filename extra =
    let content_type = first_text mime_type upstream_type "application/octet-stream" in
    harden_asset_response_headers quote content_type filename true
      (with_disposition quote filename (insert "Content-Type" content_type extra))

octet_stream : is_svg_content_type "application/octet-stream" ≡ false
unfolding is_svg_content_type is_space
octet_stream = refl

module _ (quote : String → String) (content_type : String) (filename : Option String)
    (headers : Dict String) where
  abbrev hardened : Dict String
  hardened = harden_asset_response_headers quote content_type filename true headers

  harden_always :
      (lookup "X-Content-Type-Options" hardened ≡ some "nosniff")
      × (lookup "Content-Security-Policy" hardened ≡ some "default-src 'none'; sandbox")
  unfolding harden_asset_response_headers
  harden_always = elim (Bool-cases (is_svg_content_type content_type)) [
    | inl svg ↦ rw svg (simp lookup-insert, simp lookup-insert)
    | inr other ↦ rw other (simp lookup-insert, simp lookup-insert)
  ]

  harden_svg :
      is_svg_content_type content_type ≡ true
      → lookup "Content-Type" hardened ≡ some "application/octet-stream"
  unfolding harden_asset_response_headers
  harden_svg svg = rw svg (simp lookup-insert)

  harden_other :
      is_svg_content_type content_type ≡ false
      → lookup "Content-Type" hardened ≡ lookup "Content-Type" headers
  unfolding harden_asset_response_headers
  harden_other other = rw other (simp lookup-insert)

  harden_type :
      lookup "Content-Type" headers ≡ some content_type
      → (sent : String) → lookup "Content-Type" hardened ≡ some sent
      → is_svg_content_type sent ≡ false
  harden_type e sent h = elim (Bool-cases (is_svg_content_type content_type)) [
    | inl svg ↦
        let made = harden_svg svg in
        let same : sent ≡ "application/octet-stream" = cc in rw same octet_stream
    | inr other ↦
        let kept = harden_other other in let same : sent ≡ content_type = cc in rw same other
  ]

with_disposition-type :
    (quote : String → String) (filename : Option String) (headers : Dict String)
    → lookup "Content-Type" (with_disposition quote filename headers)
      ≡ lookup "Content-Type" headers
with_disposition-type quote filename headers = elim (Bool-cases (truthy_text filename)) [
  | inl named ↦ rw named (simp lookup-insert)
  | inr unnamed ↦ rw unnamed refl
]

-- A proxied asset is never sent as an SVG image: the Content-Type that is sent does not name SVG,
-- and the response forbids sniffing and scripts.
pub proxy_headers_harmless :
    (quote : String → String) (mime_type upstream_type filename : Option String)
    (extra : Dict String)
    → (let headers = proxy_headers quote mime_type upstream_type filename extra in
        ((content_type : String)
          → lookup "Content-Type" headers ≡ some content_type
          → is_svg_content_type content_type ≡ false)
        × (lookup "X-Content-Type-Options" headers ≡ some "nosniff")
        × (lookup "Content-Security-Policy" headers ≡ some "default-src 'none'; sandbox"))
unfolding proxy_headers
proxy_headers_harmless quote mime_type upstream_type filename extra =
    let content_type = first_text mime_type upstream_type "application/octet-stream" in
    let headers = with_disposition quote filename (insert "Content-Type" content_type extra) in
    let typed =
      with_disposition-type quote filename (insert "Content-Type" content_type extra)
      ∙ lookup-insert_self "Content-Type" content_type extra in
    (
      harden_type quote content_type filename headers typed,
      (harden_always quote content_type filename headers).0,
      (harden_always quote content_type filename headers).1,
    )
