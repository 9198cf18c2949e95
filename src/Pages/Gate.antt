-- ===== src/Pages/Gate.antt =====
-- The gate of the content endpoints: `read_bearer_token` and `token_has_scope` of
-- src/resourcespace_platform/http_utils.py, and the checks with which each handler of
-- routes/content.py begins.
use Prim.Native.Char.{code}
use resourcespace_authentica.Base.{
  ℕ, String, Option, none, some, Bool, if◌then◌else◌, truthy, get_or, contains, List, [], ◌∷◌,
  remove_prefix, is_space, Result, ok, err,
}
use resourcespace_authentica.Errors.{Exception}
use resourcespace_authentica.State.{State, AccessToken}
use resourcespace_authentica.Auth.{AuthService}
use resourcespace_authentica.Auth.Tokens.{read_access_token}

-- `read_bearer_token`, from the Authorization header
unfoldable pub read_bearer_token : Option String → Option String
unfolding remove_prefix
read_bearer_token header = remove_prefix "Bearer " (get_or header "")

-- `s.split()`: the words between whitespace. The texts are in the order of `s`, the first still open.
abbrev open_word : List String → String
open_word [] = ""
open_word (w ∷ ws) = w

abbrev rest_words : List String → List String
rest_words [] = []
rest_words (w ∷ ws) = ws

unfoldable pub open_words : String → List String
unfolding is_space
open_words String.[] = "" ∷ []
open_words (String.◌∷◌ c s) =
    let later = open_words s in
    if is_space (code c) then "" ∷ later else String.◌∷◌ c (open_word later) ∷ rest_words later

unfoldable pub non_empty : List String → List String
non_empty [] = []
non_empty (w ∷ ws) = let rest = non_empty ws in if truthy w then w ∷ rest else rest

unfoldable pub words : String → List String
unfolding open_words non_empty
words s = non_empty (open_words s)

-- `token_has_scope`
unfoldable pub token_has_scope : AccessToken → String → Bool
unfolding words
token_has_scope token_record required_scope = contains required_scope (words token_record.scope)

-- What the gate comes to: the record, an error with its status, or an exception of the read.
pub data Gate : Type 0 where
  admitted : AccessToken → Gate
  refused : ℕ → String → Gate
  raised : Exception → Gate

abbrev pub scope_gate : String → Result Exception (Option AccessToken) → Gate
scope_gate scope (err e) = raised e
scope_gate scope (ok none) = refused 401 "SESSION_EXPIRED"
scope_gate scope (ok (some token_record)) =
    if token_has_scope token_record scope
    then admitted token_record
    else refused 403 "INSUFFICIENT_SCOPE"

abbrev pub token_gate : AuthService → ℕ → String → Option String → State → State × Gate
token_gate service now scope none s = (s, refused 401 "MISSING_BEARER_TOKEN")
token_gate service now scope (some token) s =
    if truthy token
    then (let (r, s') = read_access_token service now token s in (s', scope_gate scope r))
    else (s, refused 401 "MISSING_BEARER_TOKEN")

-- From `read_bearer_token` to the check of the scope.
unfoldable pub bearer_gate : AuthService → ℕ → String → Option String → State → State × Gate
unfolding read_bearer_token token_has_scope read_access_token
bearer_gate service now scope header s = token_gate service now scope (read_bearer_token header) s
