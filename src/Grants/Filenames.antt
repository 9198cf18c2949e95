-- ===== src/Grants/Filenames.antt =====
-- The name in a Content-Disposition header: `_sanitized_filename_parts`, `_content_disposition` and
-- `_attachment_content_disposition` of src/resourcespace_platform/services/asset_service.py.
use Prim.Native.Char.{code}
use Prim.Native.String.{[], ◌∷◌}
use resourcespace_authentica.Base.{
  ℕ, ◌≡◌, refl, String, ◌<>◌, Bool, true, not, ◌&&◌, leb, ltb, if◌then◌else◌, truthy, same_code,
  arith, rstrip_class, lstrip_class, strip, is_space,
}

-- `"".join(ch for ch in s if keep(ch))`
unfoldable pub filter_codes : (ℕ → Bool) → String → String
filter_codes keep [] = []
filter_codes keep (c ∷ s) =
    let rest = filter_codes keep s in if keep (code c) then c ∷ rest else rest

abbrev pub is_printable : ℕ → Bool
is_printable c = leb 32 c && not (same_code c 127)

-- `encode("ascii", "ignore")` and the removal of double quotes
abbrev pub is_quotable : ℕ → Bool
is_quotable c = ltb c 128 && not (same_code c 34)

-- `_sanitized_filename_parts`; `quote` is urllib.parse.quote(..., safe="")
unfoldable pub sanitized_filename_parts : (String → String) → String → String × String
unfolding filter_codes strip
sanitized_filename_parts quote filename =
    let cleaned = filter_codes is_printable filename in
    let ascii = strip (filter_codes is_quotable cleaned) in
    (if truthy ascii then ascii else "download", quote cleaned)

abbrev disposition : String → String × String → String
disposition kind (ascii_fallback, encoded) =
    kind <> "; filename=\"" <> ascii_fallback <> "\"; filename*=UTF-8''" <> encoded

-- `_content_disposition`
unfoldable pub content_disposition : (String → String) → String → String
unfolding sanitized_filename_parts
content_disposition quote filename = disposition "inline" (sanitized_filename_parts quote filename)

-- `_attachment_content_disposition`
unfoldable pub attachment_content_disposition : (String → String) → String → String
unfolding sanitized_filename_parts
attachment_content_disposition quote filename =
    disposition "attachment" (sanitized_filename_parts quote filename)

-- What holds of every code point.
unfoldable pub all_codes : (ℕ → Bool) → String → Bool
all_codes p [] = true
all_codes p (c ∷ s) = p (code c) && all_codes p s

all_codes-filter :
    (p keep : ℕ → Bool) (s : String)
    → ((c : ℕ) → keep c ≡ true → p c ≡ true)
    → all_codes p (filter_codes keep s) ≡ true
unfolding all_codes filter_codes
all_codes-filter p keep [] h = refl
all_codes-filter p keep (c ∷ s) h = ground (arith, h (code c), all_codes-filter p keep s h)

-- What a quoted header parameter may hold: printable ASCII without double quotes.
abbrev pub is_header_safe : ℕ → Bool
is_header_safe c = is_printable c && is_quotable c

safe-filter :
    (s : String)
    → all_codes is_printable s ≡ true
    → all_codes is_header_safe (filter_codes is_quotable s) ≡ true
unfolding all_codes filter_codes
safe-filter [] h = refl
safe-filter (c ∷ s) h = ground (arith, safe-filter s)

all_codes-rstrip_class :
    (p q : ℕ → Bool) (s : String) → all_codes p s ≡ true → all_codes p (rstrip_class q s) ≡ true
unfolding all_codes rstrip_class
all_codes-rstrip_class p q [] h = refl
all_codes-rstrip_class p q (c ∷ s) h = ground (arith, all_codes-rstrip_class p q s)

all_codes-lstrip_class :
    (p q : ℕ → Bool) (s : String) → all_codes p s ≡ true → all_codes p (lstrip_class q s) ≡ true
unfolding all_codes lstrip_class
all_codes-lstrip_class p q [] h = refl
all_codes-lstrip_class p q (c ∷ s) h = ground (arith, all_codes-lstrip_class p q s)

all_codes-strip : (p : ℕ → Bool) (s : String) → all_codes p s ≡ true → all_codes p (strip s) ≡ true
unfolding strip
all_codes-strip p s h =
    all_codes-rstrip_class p is_space (lstrip_class is_space s)
      (all_codes-lstrip_class p is_space s h)

fallback_safe :
    (s : String)
    → all_codes is_header_safe s ≡ true
    → (all_codes is_header_safe (if truthy s then s else "download") ≡ true)
      × (truthy (if truthy s then s else "download") ≡ true)
unfolding all_codes
fallback_safe [] h = (refl, refl)
fallback_safe (c ∷ s) h = (h, refl)

-- Whatever the filename holds, the ASCII name that is put between the quotes of the header is not
-- empty, and it holds neither control characters (no line ends), nor double quotes, nor anything
-- outside ASCII.
pub ascii_fallback_safe :
    (quote : String → String) (filename : String)
    → (all_codes is_header_safe (sanitized_filename_parts quote filename).0 ≡ true)
      × (truthy (sanitized_filename_parts quote filename).0 ≡ true)
unfolding sanitized_filename_parts
ascii_fallback_safe quote filename =
    fallback_safe (strip (filter_codes is_quotable (filter_codes is_printable filename))) (
      all_codes-strip is_header_safe (filter_codes is_quotable (filter_codes is_printable filename))
        (safe-filter (filter_codes is_printable filename)
          (all_codes-filter is_printable is_printable filename (λ c h. h))))
