-- ===== src/Base/Texts.antt =====
-- The methods of Python's `str` that the broker calls on its texts.
use Prim.Native.Nat.{ℕ, zero, suc, ◌+◌, compare, Ordering}
use Prim.Native.Char.{Char, code}
use Prim.Native.String.{String, [], ◌∷◌, ◌++◌}
use mathlib.Core.Path.{◌≡◌}
use mathlib.Core.Bool.{Bool, true, false, ◌&&◌, ◌||◌}
use mathlib.Core.Option.{Option, none, some}
use mathlib.Core.List.{List}
use native.Mathlib.Omega.{arith}
use text.Mathlib.TextLemmas.{nil-append, cons-append}
use resourcespace_authentica.Base.Tests.{ltb, leb, if◌then◌else◌, truthy}

abbrev pub same_code : ℕ → ℕ → Bool
same_code a b = elim (compare a b) [ Ordering.eq ↦ true | _ ↦ false ]

-- `if value.startswith(p): value[len(p):]`; `none` where the test fails
unfoldable pub remove_prefix : String → String → Option String
remove_prefix [] s = some s
remove_prefix (c ∷ p) [] = none
remove_prefix (c ∷ p) (d ∷ s) = if same_code (code c) (code d) then remove_prefix p s else none

abbrev pub is_present {ℓ} : {A : Type ℓ} → Option A → Bool
is_present none = false
is_present (some a) = true

-- `s.isascii()`
unfoldable pub is_ascii : String → Bool
is_ascii [] = true
is_ascii (c ∷ s) = ltb (code c) 128 && is_ascii s

-- `c in s`, of one character
unfoldable pub has_code : ℕ → String → Bool
has_code c [] = false
has_code c (d ∷ s) = same_code (code d) c || has_code c s

-- `len(s)`: the number of code points
unfoldable pub text_length : String → ℕ
text_length [] = zero
text_length (c ∷ s) = suc (text_length s)

-- The code points that `str.strip` and `str.split` take for whitespace.
unfoldable pub is_space : ℕ → Bool
is_space c =
    (leb 9 c && leb c 13)
    || (leb 28 c && leb c 32)
    || same_code c 133
    || same_code c 160
    || same_code c 5760
    || (leb 8192 c && leb c 8202)
    || same_code c 8232
    || same_code c 8233
    || same_code c 8239
    || same_code c 8287
    || same_code c 12288

abbrev pub is_empty : String → Bool
is_empty [] = true
is_empty (c ∷ s) = false

-- Removes the characters of the class at the right end: `s.rstrip(...)`.
unfoldable pub rstrip_class : (ℕ → Bool) → String → String
rstrip_class p [] = []
rstrip_class p (c ∷ s) =
    let rest = rstrip_class p s in if p (code c) && is_empty rest then [] else c ∷ rest

unfoldable pub lstrip_class : (ℕ → Bool) → String → String
lstrip_class p [] = []
lstrip_class p (c ∷ s) = let rest = lstrip_class p s in if p (code c) then rest else c ∷ s

unfoldable pub strip : String → String
unfolding rstrip_class lstrip_class is_space
strip s = rstrip_class is_space (lstrip_class is_space s)

-- `s.split(sep)` at a separator of one character.
abbrev pub into_first : Char → List String → List String
into_first c List.[] = List.◌∷◌ (c ∷ []) List.[]
into_first c (List.◌∷◌ s ss) = List.◌∷◌ (c ∷ s) ss

unfoldable pub split_on : ℕ → String → List String
split_on sep [] = List.◌∷◌ [] List.[]
split_on sep (c ∷ s) =
    let rest = split_on sep s in
    if same_code (code c) sep then List.◌∷◌ [] rest else into_first c rest

-- `[part.strip() for part in parts if part.strip()]`
unfoldable pub strip_parts : List String → List String
strip_parts List.[] = List.[]
strip_parts (List.◌∷◌ part parts) =
    let rest = strip_parts parts in if truthy (strip part) then List.◌∷◌ (strip part) rest else rest

-- The code of an ASCII capital made small. Of the other characters `str.lower` makes only two into
-- ASCII letters or letters with a ring, the Kelvin and the Angstrom sign, and no text that the
-- broker compares with has a k or an å.
abbrev pub lower_code : ℕ → ℕ
lower_code c = if leb 65 c && leb c 90 then c + 32 else c

-- `s.lower() == t`
unfoldable pub lower_is : String → String → Bool
lower_is [] [] = true
lower_is [] (d ∷ t) = false
lower_is (c ∷ s) [] = false
lower_is (c ∷ s) (d ∷ t) = same_code (lower_code (code c)) (code d) && lower_is s t

pub remove_prefix-append : (p s : String) → remove_prefix p (p ++ s) ≡ some s
unfolding remove_prefix
remove_prefix-append [] s = ground (arith, nil-append s)
remove_prefix-append (c ∷ p) s = rw cons-append (ground (arith, remove_prefix-append p s))
