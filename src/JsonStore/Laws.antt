-- ===== src/JsonStore/Laws.antt =====
-- `update` of src/resourcespace_platform/services/json_store.py as one step, and where it fails.
use resourcespace_authentica.Base.{
  ◌≡◌, ◌≢◌, refl, ◌>>=◌, ◌||◌, not, Bool, true, false, Result, ok, err, ◌⊎◌, inl, inr, arith,
  Bool-cases,
}
use resourcespace_authentica.State.{State, initial_state}
use resourcespace_authentica.JsonStore.{
  File, missing, unreadable, FileSystem, StoreError, restrict_perms, insecure_permissions, Failure,
  store_failed, raised, saved, settle, load, load_file, save, update, transaction, run_updater,
  finish, save_result,
}

-- The answers of the file system that a stored file meets are successes.
pub record IsWorking (fs : FileSystem) : Type 0 where
  pub chmod_at_load : fs.at_load.chmod_file ≡ true
  pub chmod_at_save : fs.at_save.chmod_file ≡ true
  pub write_tmp : fs.write_tmp ≡ true
  pub chmod_tmp : fs.chmod_tmp ≡ true
  pub replace : fs.replace ≡ true

-- What a step of the state is as a result of `update`.
abbrev pub reported : {E A : Type 0} → Result E A × State → Result (Failure E) A × File
reported (ok a, s) = (ok a, saved s)
reported (err e, s) = (err (raised e), saved s)

pub load-saved :
    (secure strict : Bool) (fs : FileSystem) (s : State)
    → IsWorking fs
    → load secure fs strict (saved s) ≡ (ok s, saved s)
unfolding load
load-saved secure strict fs s w = ground arith

save-saved :
    (secure : Bool) (fs : FileSystem) (s s' : State)
    → IsWorking fs
    → save secure fs s' (saved s) ≡ (ok tt, saved s')
unfolding save
save-saved secure fs s s' w = ground arith

reported_run :
    {E A : Type 0} (secure : Bool) (fs : FileSystem) (s : State) (r : Result E (A × State))
    → IsWorking fs
    → save_result secure fs (saved s) r ≡ reported (settle s r)
reported_run secure fs s (ok (a, s')) w = rw (save-saved secure fs s s' w)
reported_run secure fs s (err x) w = refl

-- With a working file system, `update` of a saved store is the step that the updater makes: the
-- new state is saved when it returns, and the old one stays when it raises.
pub update-saved :
    {E A : Type 0} (secure : Bool) (fs : FileSystem) (updater : State → Result E (A × State))
    (s : State)
    → IsWorking fs
    → update secure fs updater (saved s) ≡ reported (transaction updater s)
unfolding update
update-saved secure fs updater s w =
    rw (load-saved secure true fs s w) (reported_run secure fs s (updater s) w)

-- A file stays, or there was none and the initial one is made, whole or in part.
abbrev pub IsUntouched : File → File → Type 0
IsUntouched file file' =
    (file' ≡ file) ⊎ ((file ≡ missing) × ((file' ≡ saved initial_state) ⊎ (file' ≡ unreadable)))

IsUntouched-trans : (a b c : File) → IsUntouched a b → IsUntouched b c → IsUntouched a c
IsUntouched-trans a b c h k = ground arith

load-IsUntouched :
    (secure strict : Bool) (fs : FileSystem) (file : File)
    → IsUntouched file (load secure fs strict file).1
unfolding load
load-IsUntouched secure strict fs missing = ground arith
load-IsUntouched secure strict fs file = ground arith

save-IsUntouched :
    (secure : Bool) (fs : FileSystem) (s : State) (file : File) (e : StoreError)
    → (save secure fs s file).0 ≡ err e
    → IsUntouched file (save secure fs s file).1
unfolding save
save-IsUntouched secure fs s missing e h = ground arith
save-IsUntouched secure fs s file e h = ground arith

finish-IsUntouched :
    {E A : Type 0} (a : A) (file file' : File) (r : Result StoreError (Unit {0})) (e : Failure E)
    → ((x : StoreError) → r ≡ err x → IsUntouched file file')
    → (finish {E = E} a (r, file')).0 ≡ err e
    → IsUntouched file (finish {E = E} a (r, file')).1
finish-IsUntouched {E} a file file' (ok _) e k h = cc
finish-IsUntouched {E} a file file' (err x) e k h = k x refl

save_result-IsUntouched :
    {E A : Type 0} (secure : Bool) (fs : FileSystem) (file : File) (r : Result E (A × State))
    (e : Failure E)
    → (save_result secure fs file r).0 ≡ err e
    → IsUntouched file (save_result secure fs file r).1
save_result-IsUntouched secure fs file (err x) e h = inl refl
save_result-IsUntouched secure fs file (ok (a, s)) e h =
    finish-IsUntouched a file (save secure fs s file).1 (save secure fs s file).0 e
      (save-IsUntouched secure fs s file) h

run_updater-IsUntouched :
    {E A : Type 0} (secure : Bool) (fs : FileSystem) (updater : State → Result E (A × State))
    (loaded : Result StoreError State) (file : File) (e : Failure E)
    → (run_updater secure fs updater (loaded, file)).0 ≡ err e
    → IsUntouched file (run_updater secure fs updater (loaded, file)).1
run_updater-IsUntouched secure fs updater (err x) file e h = inl refl
run_updater-IsUntouched secure fs updater (ok s) file e h =
    save_result-IsUntouched secure fs file (updater s) e h

-- Whatever the file system answers, an update that does not return leaves the file as it was,
-- unless there was none: then it may leave the initial one, or a part of it that cannot be read.
pub update_atomic :
    {E A : Type 0} (secure : Bool) (fs : FileSystem) (updater : State → Result E (A × State))
    (file : File) (e : Failure E)
    → (update secure fs updater file).0 ≡ err e
    → IsUntouched file (update secure fs updater file).1
unfolding update
update_atomic secure fs updater file e h =
    let (loaded, file') = load secure fs true file in
    IsUntouched-trans file file' (update secure fs updater file).1
      (load-IsUntouched secure true fs file)
      (run_updater-IsUntouched secure fs updater loaded file' e h)

load-existing :
    (secure : Bool) (fs : FileSystem) (file : File)
    → file ≢ missing
    → load secure fs true file
      ≡ ((do _ ← restrict_perms secure fs.at_load.chmod_file; load_file true file), file)
unfolding load
load-existing secure fs missing h = absurd (h refl)
load-existing secure fs file h = refl

-- A file that exists and that the strict reading refuses is not overwritten by an update, and the
-- update ends with an error of the store, the same for every updater: neither a result of an updater
-- nor what it raises comes back.
pub update-unloadable :
    {E A : Type 0} (secure : Bool) (fs : FileSystem) (file : File) (x : StoreError)
    → file ≢ missing
    → load_file true file ≡ err x
    → (e : StoreError) × ((updater : State → Result E (A × State))
        → update secure fs updater file ≡ (err (store_failed e), file))
unfolding update
update-unloadable secure fs file x h e = elim (Bool-cases (fs.at_load.chmod_file || not secure)) [
  | inl p ↦ (x, λ updater. rw (load-existing secure fs file h, p, e) refl)
  | inr p ↦ (insecure_permissions, λ updater. rw (load-existing secure fs file h, p) refl)
]

-- Where the strict reading of a file succeeds, the lenient one gives the same state.
pub load_file_strict :
    (file : File) (s : State) → load_file true file ≡ ok s → load_file false file ≡ ok s
unfolding load_file
load_file_strict file s h = ground arith
