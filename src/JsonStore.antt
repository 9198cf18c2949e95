-- ===== src/JsonStore.antt =====
-- The file store of src/resourcespace_platform/services/json_store.py. A file is what reading and
-- json.loads find in it; `read`, `update` and the file system's answers are explicit. The lock makes
-- each call of `read` and `update` one step.
pub mod Laws
use resourcespace_authentica.Base.{
  Dict, [], Bool, true, false, not, ◌||◌, Result, ok, err, ◌>>=◌, if◌then◌else◌,
}
use resourcespace_authentica.State.{
  State, initial_state, AuthorizationCode, AccessToken, RefreshToken, AssetGrant, PendingSsoState,
}

-- What a key of the root object holds.
pub data BucketValue (V : Type 0) : Type 0 where
  absent : BucketValue V
  null : BucketValue V
  not_an_object : BucketValue V
  object : Dict V → BucketValue V

pub record Root : Type 0 where
  pub authorization_codes : BucketValue AuthorizationCode
  pub access_tokens : BucketValue AccessToken
  pub refresh_tokens : BucketValue RefreshToken
  pub asset_grants : BucketValue AssetGrant
  pub pending_sso_states : BucketValue PendingSsoState

pub data File : Type 0 where
  missing : File
  -- OSError or JSONDecodeError
  unreadable : File
  -- UnicodeDecodeError, which is neither
  undecodable : File
  root_not_an_object : File
  parsed : Root → File

pub data StoreError : Type 0 where
  -- JsonStoreLoadError
  load_error : StoreError
  -- RuntimeError: the permissions could not be restricted
  insecure_permissions : StoreError
  -- OSError of a write or of os.replace
  write_error : StoreError
  -- UnicodeDecodeError of a read
  decode_error : StoreError

-- How writing the initial file ends: it is written, it cannot be opened, or the write fails after
-- write_text has opened and truncated it, which leaves a part of the text that does not parse.
pub data InitialWrite : Type 0 where
  written : InitialWrite
  not_opened : InitialWrite
  cut_short : InitialWrite

-- What the operating system answers during one call of `_ensure_file`.
pub record EnsureAnswers : Type 0 where
  pub initial_write : InitialWrite
  pub chmod_file : Bool

-- What it answers during one call of `read` or `update`, which ensures the file when it loads and
-- again when it saves.
pub record FileSystem : Type 0 where
  pub at_load : EnsureAnswers
  pub at_save : EnsureAnswers
  pub write_tmp : Bool
  pub chmod_tmp : Bool
  pub replace : Bool

abbrev pub saved : State → File
saved s = parsed (record {
  authorization_codes = object s.authorization_codes;
  access_tokens = object s.access_tokens;
  refresh_tokens = object s.refresh_tokens;
  asset_grants = object s.asset_grants;
  pending_sso_states = object s.pending_sso_states;
})

-- `_restrict_perms`; `done` says whether os.chmod succeeds
unfoldable pub restrict_perms : Bool → Bool → Result StoreError (Unit {0})
restrict_perms fatal done = if done || not fatal then ok tt else err insecure_permissions

-- `_ensure_file`, from the check that the file exists. The directory's permissions are best effort.
abbrev pub write_initial : InitialWrite → Result StoreError (Unit {0}) × File
write_initial written = (ok tt, saved initial_state)
write_initial not_opened = (err write_error, missing)
write_initial cut_short = (err write_error, unreadable)

abbrev pub create_missing : InitialWrite → File → Result StoreError (Unit {0}) × File
create_missing write missing = write_initial write
create_missing write file = (ok tt, file)

unfoldable pub ensure_file : Bool → EnsureAnswers → File → Result StoreError (Unit {0}) × File
unfolding restrict_perms
ensure_file secure answers file =
    let (created, file') = create_missing answers.initial_write file in
    ((do _ ← created; restrict_perms secure answers.chmod_file), file')

-- One round of the loop of `_merge_store`.
unfoldable pub merge_bucket : {V : Type 0} → Bool → BucketValue V → Result StoreError (Dict V)
merge_bucket strict absent = ok []
merge_bucket strict null = if strict then err load_error else ok []
merge_bucket strict not_an_object = if strict then err load_error else ok []
merge_bucket strict (object bucket) = ok bucket

-- `_merge_store` of a root that is an object; the buckets in the order of `_INITIAL_STATE`
unfoldable pub merge_store : Bool → Root → Result StoreError State
unfolding merge_bucket
merge_store strict root = do
  codes ← merge_bucket strict root.authorization_codes
  access ← merge_bucket strict root.access_tokens
  refresh ← merge_bucket strict root.refresh_tokens
  grants ← merge_bucket strict root.asset_grants
  pending ← merge_bucket strict root.pending_sso_states
  ok (record {
    authorization_codes = codes;
    access_tokens = access;
    refresh_tokens = refresh;
    asset_grants = grants;
    pending_sso_states = pending;
  })

-- The part of `_load` after `_ensure_file`.
unfoldable pub load_file : Bool → File → Result StoreError State
unfolding merge_store
load_file strict missing = if strict then err load_error else ok initial_state
load_file strict unreadable = if strict then err load_error else ok initial_state
load_file strict undecodable = err decode_error
load_file strict root_not_an_object = if strict then err load_error else ok initial_state
load_file strict (parsed root) = merge_store strict root

-- `_load`
unfoldable pub load : Bool → FileSystem → Bool → File → Result StoreError State × File
unfolding ensure_file load_file
load secure fs strict file =
    let (ensured, file') = ensure_file secure fs.at_load file in
    ((do _ ← ensured; load_file strict file'), file')

-- `_save` after `_ensure_file`: a new file is written beside the store and put in its place.
unfoldable pub replace_file : Bool → FileSystem → State → Result StoreError (Unit {0})
unfolding restrict_perms
replace_file secure fs s =
    if fs.write_tmp
    then (do _ ← restrict_perms secure fs.chmod_tmp; if fs.replace then ok tt else err write_error)
    else err write_error

abbrev pub after_replace : File → State → Result StoreError (Unit {0}) → File
after_replace file s (ok _) = saved s
after_replace file s (err _) = file

-- `_save`
unfoldable pub save : Bool → FileSystem → State → File → Result StoreError (Unit {0}) × File
unfolding ensure_file replace_file
save secure fs s file =
    let (ensured, file') = ensure_file secure fs.at_save file in
    let replaced = (do _ ← ensured; replace_file secure fs s) in
    (replaced, after_replace file' s replaced)

-- What a call of `update` may end with: the store's own error, or what the updater raises.
pub data Failure (E : Type 0) : Type 0 where
  store_failed : StoreError → Failure E
  raised : E → Failure E

abbrev pub finish :
    {E A : Type 0} → A → Result StoreError (Unit {0}) × File → Result (Failure E) A × File
finish result (ok _, file) = (ok result, file)
finish result (err e, file) = (err (store_failed e), file)

abbrev pub save_result :
    {E A : Type 0} → Bool → FileSystem → File → Result E (A × State) → Result (Failure E) A × File
save_result secure fs file (err e) = (err (raised e), file)
save_result secure fs file (ok (result, s)) = finish result (save secure fs s file)

abbrev pub run_updater :
    {E A : Type 0}
    → Bool
    → FileSystem
    → (State → Result E (A × State))
    → Result StoreError State × File
    → Result (Failure E) A × File
run_updater secure fs updater (err e, file) = (err (store_failed e), file)
run_updater secure fs updater (ok s, file) = save_result secure fs file (updater s)

-- `update`, and `update_strict`, which is the same
unfoldable pub update :
    {E A : Type 0}
    → Bool
    → FileSystem
    → (State → Result E (A × State))
    → File
    → Result (Failure E) A × File
unfolding load save
update secure fs updater file = run_updater secure fs updater (load secure fs true file)

-- `read`
unfoldable pub read : Bool → FileSystem → File → Result StoreError State × File
unfolding load
read secure fs file = load secure fs false file

-- An updater as one step of the state: what it raises undoes what it did.
abbrev pub settle : {E A : Type 0} → State → Result E (A × State) → Result E A × State
settle s (ok (a, s')) = (ok a, s')
settle s (err e) = (err e, s)

abbrev pub transaction :
    {E A : Type 0} → (State → Result E (A × State)) → State → Result E A × State
transaction updater s = settle s (updater s)
