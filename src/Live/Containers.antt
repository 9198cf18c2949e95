-- ===== src/Live/Containers.antt =====
-- The collections of a live tenant: `_build_live_collection_container`,
-- `_apply_configured_collection_tree`, `_list_live_containers` and `_search_live_containers` of
-- src/resourcespace_platform/services/resourcespace/_live_backend.py, and `_sort_collections` of
-- _helpers.py.
use Prim.Native.Char.{code}
use resourcespace_authentica.Base.{
  ℕ, String, ◌<>◌, Option, none, some, Bool, true, false, ◌||◌, ltb, same_code, if◌then◌else◌,
  truthy_text, get_or, lookup, insert, Dict, List, [], ◌∷◌, map, length, strip, starts_with, Result,
  ok, ◌>>=◌,
}
use resourcespace_authentica.Errors.{Exception}
use resourcespace_authentica.Session.{Session}
use resourcespace_authentica.Api.{ApiLibrary, call_live_api}
use resourcespace_authentica.Api.Values.{
  Json, Fields, JsonLibrary, text, end, field, find, get, objects, elements_of, or_else,
}
use resourcespace_authentica.Live.{
  encode_collection_container_id, decode_collection_container_id, session_call, text_of,
}

-- The tree of collections that the tenant's entry in the registry gives, each reference as a text.
pub record CollectionTree : Type 0 where
  pub root_collections : List String
  pub collection_children : Dict (List String)

-- A container of the answer; `name` is any true value.
pub record Container : Type 0 where
  pub id : String
  pub name : Json
  pub description : Option String
  pub num_containers : ℕ

-- The order of Python's texts: by code points, a text after its prefixes.
unfoldable pub text_before : String → String → Bool
text_before s String.[] = false
text_before String.[] (String.◌∷◌ d t) = true
text_before (String.◌∷◌ c s) (String.◌∷◌ d t) =
    let later = text_before s t in
    ltb (code c) (code d) || (if same_code (code c) (code d) then later else false)

unfoldable pub occurs_in : String → String → Bool
occurs_in needle String.[] = starts_with "" needle
occurs_in needle (String.◌∷◌ c s) =
    let later = occurs_in needle s in starts_with (String.◌∷◌ c s) needle || later

abbrev pub has_roots : List String → Bool
has_roots [] = false
has_roots (ref ∷ refs) = true

abbrev pub children_of : Option (List String) → List String
children_of children = get_or children []

module _ (json : JsonLibrary) where
  abbrev pub ref_of : Fields → String
  ref_of collection = json.str (get "ref" collection)

  -- `_build_live_collection_container`
  unfoldable pub build_live_collection_container : Fields → CollectionTree → ℕ → Container
  unfolding get encode_collection_container_id
  build_live_collection_container collection tree child_count = record {
    id = encode_collection_container_id (ref_of collection);
    name = or_else (get "name" collection) (text ("Collection " <> ref_of collection));
    description =
        if has_roots tree.root_collections then some ("Collection " <> ref_of collection) else none;
    num_containers = child_count;
  }

  -- `{str(collection.get("ref")): collection for collection in collections}`
  unfoldable pub by_ref : List Fields → Dict Fields → Dict Fields
  by_ref [] found = found
  by_ref (collection ∷ collections) found =
      by_ref collections (insert (ref_of collection) collection found)

  abbrev unnamed : String → Fields
  unnamed ref = field "ref" (text ref) (field "name" (text ("Collection " <> ref)) end)

  abbrev current_ids : CollectionTree → Option String → List String
  current_ids tree none = tree.root_collections
  current_ids tree (some parent) = children_of (lookup parent tree.collection_children)

  abbrev without_tree : List Fields → Option String → List Fields
  without_tree collections none = collections
  without_tree collections (some parent) = []

  -- `_apply_configured_collection_tree`
  unfoldable pub apply_configured_collection_tree :
      CollectionTree → List Fields → Option String → List Fields
  unfolding by_ref insert lookup
  apply_configured_collection_tree tree collections parent_id =
      if has_roots tree.root_collections
      then map (λ ref. get_or (lookup ref (by_ref collections [])) (unnamed ref))
          (current_ids tree parent_id)
      else without_tree collections parent_id

  abbrev name_text : Option Json → String
  name_text none = ""
  name_text (some name) = json.str name

  abbrev sort_key : Fields → String
  sort_key collection = name_text (find "name" collection)

  -- Before the first that is after it: the sort of Python keeps the order of equal keys.
  unfoldable pub insert_sorted : Fields → List Fields → List Fields
  unfolding text_before find
  insert_sorted collection [] = collection ∷ []
  insert_sorted collection (other ∷ others) =
      let later = insert_sorted collection others in
      if text_before (sort_key other) (sort_key collection)
      then other ∷ later
      else collection ∷ other ∷ others

  -- `_sort_collections`
  unfoldable pub sort_collections : List Fields → List Fields
  unfolding insert_sorted
  sort_collections [] = []
  sort_collections (collection ∷ collections) =
      insert_sorted collection (sort_collections collections)

  abbrev decoded_parent : Option String → Option String
  decoded_parent parent_id =
      if truthy_text parent_id then decode_collection_container_id parent_id else none

  -- From the answer of `get_user_collections` on
  abbrev containers_of : CollectionTree → Option String → Json → List Container
  containers_of tree parent_id answer =
      map
        (λ collection.
          build_live_collection_container collection tree
            (length (children_of (lookup (ref_of collection) tree.collection_children))))
        (sort_collections (
          apply_configured_collection_tree tree (objects (elements_of answer))
            (decoded_parent parent_id)))

  abbrev named_like : String → Container → Result Exception Bool
  named_like normalized container = do
    name ← text_of container.name
    ok (occurs_in normalized (json.lower name))

  abbrev kept : Container → Bool → List Container → List Container
  kept container found rest = if found then container ∷ rest else rest

  unfoldable pub filter_named : String → List Container → Result Exception (List Container)
  unfolding occurs_in
  filter_named normalized [] = ok []
  filter_named normalized (container ∷ containers) =
      let later = filter_named normalized containers in
      (do found ← named_like normalized container; rest ← later; ok (kept container found rest))

  -- `_list_live_containers`
  unfoldable pub list_live_containers :
      ApiLibrary → CollectionTree → Session → Option String → Result Exception (List Container)
  unfolding sort_collections apply_configured_collection_tree build_live_collection_container
      objects decode_collection_container_id call_live_api
  list_live_containers library tree session parent_id = do
    answer ← session_call library json session "get_user_collections" []
    ok (containers_of tree parent_id answer)

  -- `_search_live_containers`
  unfoldable pub search_live_containers :
      ApiLibrary
      → CollectionTree
      → Session
      → Option String
      → String
      → Result Exception (List Container)
  unfolding list_live_containers filter_named strip
  search_live_containers library tree session parent_id query = do
    containers ← list_live_containers library tree session parent_id
    filter_named (json.lower (strip query)) containers
