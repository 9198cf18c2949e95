-- ===== src/Api/Values.antt =====
-- The values that response.json() gives, with the tests that
-- src/resourcespace_platform/services/resourcespace makes on them. A number is an integer here.
use resourcespace_authentica.Base.{
  zero, suc, String, Option, get_or, none, some, Bool, true, false, ◌==◌, truthy, if◌then◌else◌,
  List, [], ◌∷◌,
}
use resourcespace_authentica.CanvaVerifier.{Timestamp, positive, negative}

mutual
  pub data Json : Type 0 where
    null : Json
    boolean : Bool → Json
    number : Timestamp → Json
    text : String → Json
    array : Elements → Json
    object : Fields → Json

  pub data Elements : Type 0 where
    empty : Elements
    element : Json → Elements → Elements

  pub data Fields : Type 0 where
    end : Fields
    field : String → Json → Fields → Fields

-- A parsed object has each key once; `none` where a key is missing.
unfoldable pub find : String → Fields → Option Json
find key end = none
find key (field name value fields) =
    let later = find key fields in if name == key then some value else later

-- `d.get(key)`: a missing key and null are both None.
unfoldable pub get : String → Fields → Json
unfolding find
get key fields = get_or (find key fields) null

-- `bool(value)`
abbrev pub is_true : Json → Bool
is_true null = false
is_true (boolean b) = b
is_true (number (positive zero)) = false
is_true (number (positive (suc n))) = true
is_true (number (negative n)) = true
is_true (text s) = truthy s
is_true (array empty) = false
is_true (array (element x xs)) = true
is_true (object end) = false
is_true (object (field name value fields)) = true

-- `a or b`
abbrev pub or_else : Json → Json → Json
or_else a b = if is_true a then a else b

-- `value in (False, "false")`: 0 equals False.
abbrev pub is_false_answer : Json → Bool
is_false_answer (boolean false) = true
is_false_answer (number (positive zero)) = true
is_false_answer (text s) = s == "false"
is_false_answer _ = false

-- `value in (False, "false", "", None)`
abbrev pub is_failure_answer : Json → Bool
is_failure_answer null = true
is_failure_answer (text String.[]) = true
is_failure_answer other = is_false_answer other

-- `[item for item in items if isinstance(item, dict)]`
unfoldable pub objects : Elements → List Fields
objects empty = []
objects (element (object fields) xs) = fields ∷ objects xs
objects (element x xs) = objects xs

-- The elements of an array; every other value has none.
abbrev pub elements_of : Json → Elements
elements_of (array xs) = xs
elements_of _ = empty

-- What `str(value)`, `repr(value)`, `int(value)` (`none` where it raises), `s.isdigit()`, `s.lower()` and
-- `_to_iso_date` do.
pub record JsonLibrary : Type 0 where
  pub str : Json → String
  pub repr : Json → String
  pub int : Json → Option Timestamp
  pub isdigit : String → Bool
  pub lower : String → String
  pub to_iso_date : Json → Option String
