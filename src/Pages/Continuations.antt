-- ===== src/Pages/Continuations.antt =====
-- The continuation of a content search: `encode_continuation`, `decode_continuation` and `scope_key`
-- of src/resourcespace_platform/http_utils.py. JSON texts in base64 are parameters.
use resourcespace_authentica.Base.{
  String, Option, none, some, List, [], ◌∷◌, Result, ok, err, ◌>>=◌,
}
use resourcespace_authentica.Errors.{Exception, unexpected}
use resourcespace_authentica.CanvaVerifier.{Timestamp, positive}
use resourcespace_authentica.Api.Values.{
  Json, Fields, JsonLibrary, null, number, text, object, field, end, get, or_else, array, Elements,
  element, empty,
}
use resourcespace_authentica.Pages.{Offsets}

-- `encode_json` is base64.urlsafe_b64encode of json.dumps, without the padding; `decode_json` reads
-- it back, `none` where it raises ValueError; `dumps` is json.dumps with sorted keys.
pub record ContinuationLibrary : Type 0 where
  pub encode_json : Fields → String
  pub decode_json : String → Option Json
  pub dumps : Fields → String

-- What a continuation holds; `scope_key` is null at the start of a search.
pub record Continuation : Type 0 where
  pub offsets : Offsets
  pub scope_key : Json

abbrev texts : List String → Elements
texts [] = empty
texts (s ∷ ss) = element (text s) (texts ss)

abbrev text_or_null : Option String → Json
text_or_null none = null
text_or_null (some s) = text s

module _ (library : ContinuationLibrary) where
  -- `scope_key`
  unfoldable pub scope_key : Option String → String → String → List String → String
  scope_key container_id query sort types = library.dumps (
      field "containerId" (text_or_null container_id) (
        field "query" (text query)
          (field "sort" (text sort) (field "types" (array (texts types)) end))))

  abbrev continuation_fields : Continuation → Fields
  continuation_fields c = field "scopeKey" c.scope_key (
      field "containerOffset" (number c.offsets.container_offset)
        (field "assetOffset" (number c.offsets.asset_offset) end))

  -- `encode_continuation`
  unfoldable pub encode_continuation : Continuation → String
  encode_continuation c = library.encode_json (continuation_fields c)

  module _ (json : JsonLibrary) where
    abbrev integer : Option Timestamp → Result Exception Timestamp
    integer none = err unexpected
    integer (some n) = ok n

    -- `int(value or 0)`; a negative offset is taken as it is.
    abbrev pub offset_of : Json → Result Exception Timestamp
    offset_of value = integer (json.int (or_else value (number (positive 0))))

    abbrev parsed_continuation : Option Json → Result Exception (Option Continuation)
    parsed_continuation (some (object fields)) = do
      container_offset ← offset_of (get "containerOffset" fields)
      asset_offset ← offset_of (get "assetOffset" fields)
      ok (
          some (record {
            offsets = record { container_offset = container_offset; asset_offset = asset_offset };
            scope_key = get "scopeKey" fields;
          }))
    parsed_continuation other = ok none

    -- `decode_continuation`: `none` for a value that is not one
    unfoldable pub decode_continuation : Option String → Result Exception (Option Continuation)
    unfolding get
    decode_continuation none = ok (
        some (record {
          offsets = record { container_offset = positive 0; asset_offset = positive 0 };
          scope_key = null;
        }))
    decode_continuation (some String.[]) = ok (
        some (record {
          offsets = record { container_offset = positive 0; asset_offset = positive 0 };
          scope_key = null;
        }))
    decode_continuation (some (String.◌∷◌ c s)) =
        parsed_continuation (library.decode_json (String.◌∷◌ c s))
