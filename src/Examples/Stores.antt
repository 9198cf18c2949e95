-- ===== src/Examples/Stores.antt =====
-- The theorems on the file store at a saved store.
use resourcespace_authentica.Base.{is_ascii, String, ◌≡◌, refl, true, false, ok, err, Result, []}
use resourcespace_authentica.State.{State, initial_state}
use resourcespace_authentica.Cipher.{fernet_cipher, is_sealed}
use resourcespace_authentica.Session.{seal_session, open_session_dict}
use resourcespace_authentica.Session.Laws.{open_session_dict-seal_session}
use resourcespace_authentica.JsonStore.{
  FileSystem, written, StoreError, saved, unreadable, update, transaction, load_file, load_error,
  store_failed, write_error, save,
}
use resourcespace_authentica.JsonStore.Laws.{
  reported, update-saved, IsUntouched, update_atomic, update-unloadable,
}
use resourcespace_authentica.Errors.{Exception}
use resourcespace_authentica.Examples.{demo_session, toy_fernet}

abbrev working : FileSystem
working = record {
  at_load = record { initial_write = written; chmod_file = true };
  at_save = record { initial_write = written; chmod_file = true };
  write_tmp = true;
  chmod_tmp = true;
  replace = true;
}

abbrev full_disk : FileSystem
full_disk = record working { write_tmp = false }

-- An updater that empties the pending states.
abbrev clear_pending : State → Result Exception (String × State)
clear_pending s = ok ("done", record s { pending_sso_states = [] })

update-saved_example :
    update true working clear_pending (saved initial_state)
    ≡ reported (transaction clear_pending initial_state)
update-saved_example = update-saved true working clear_pending initial_state (record {
  chmod_at_load = refl;
  chmod_at_save = refl;
  write_tmp = refl;
  chmod_tmp = refl;
  replace = refl;
})

update_atomic_example :
    IsUntouched (saved initial_state) (update true full_disk clear_pending (saved initial_state)).1
unfolding update save
update_atomic_example =
    update_atomic true full_disk clear_pending (saved initial_state) (store_failed write_error) refl

update-unloadable_example :
    (e : StoreError) × ((updater : State → Result Exception (String × State))
      → update true working updater unreadable ≡ (err (store_failed e), unreadable))
unfolding load_file
update-unloadable_example = update-unloadable true working unreadable load_error (λ e. cc) refl

open_session_dict-seal_session_example :
    open_session_dict
      (fernet_cipher toy_fernet)
      (seal_session (fernet_cipher toy_fernet) 1 2 demo_session)
    ≡ ok demo_session
unfolding is_sealed is_ascii
open_session_dict-seal_session_example =
    open_session_dict-seal_session (fernet_cipher toy_fernet) 1 2 demo_session
      ((λ nonce. (refl, refl)), (λ nonce. (refl, refl))) (refl, refl)
