-- ===== src/Tests/TableRuns.antt =====
-- Runs of the store as a table: states, metadata and the list of sessions.
use desperate.Prelude.{ℕ, ◌≡◌, ◌⊎◌, refl, true, none, some, List, [], ◌∷◌, list_eq}
use desperate.Prelude.Dict.{lookup}
use desperate.Outcome.{ok}
use desperate.Codec.Hex.{Text}
use desperate.Codec.Ascii.{ascii}
use desperate.Json.{num, end, as_num}
use desperate.Store.AtomicWrite.{FileSystem, WriteIo, sync_dir}
use desperate.Store.Paths.{state_path}
use desperate.Store.States.{load_state, state_exists}
use desperate.Store.States.Writes.{load_state_missing}
use desperate.Store.Abstract.{StoreCall, save, count, remove, Table, Runs, Reads}
use desperate.Store.Abstract.Reached.{run_calls}
use desperate.Store.Abstract.Refinement.{run_calls-Runs}
use desperate.Store.Metadata.{SessionMetadata, save_metadata, load_metadata}
use desperate.Store.Metadata.Laws.{save_metadata_lem}
use desperate.Store.Listing.{list_sessions, is_listed}
use desperate.Store.Listing.Laws.{is_listed-list_sessions}
use desperate.Tests.Toy.{cipher, cipher_laws}
use desperate.Tests.ToyCodecs.{json, json_laws}
use desperate.Tests.StoreRuns.{store, io, nonce}
use desperate.Tests.ServiceRuns.{valid}

abbrev late : WriteIo
late = record io { fault = some sync_dir }

abbrev calls : List StoreCall
calls = save (ascii "s") end nonce io ∷ count (ascii "s") 5 nonce late ∷ remove (ascii "t") ∷ []

abbrev empty : Table
empty id = none

empty_read : Reads (λ id. load_state cipher json store id []) empty
unfolding lookup
empty_read id good = load_state_missing cipher json store id [] good refl

run_calls-Runs_example :
    (last : Table) × Runs calls (run_calls cipher json store calls []).0 empty last
    × Reads (λ id. load_state cipher json store id (run_calls cipher json store calls []).1) last
run_calls-Runs_example =
    run_calls-Runs cipher json store cipher_laws json_laws calls [] empty
      ((refl, refl), ((refl, refl), (tt, tt))) empty_read

-- Time stamps are numbers here.
abbrev metadata : SessionMetadata ℕ
metadata = record {
  session_id = ascii "s";
  remote_user = ascii "bob";
  created_at = 3;
  last_active = 4;
  message_count = 2;
  is_initiator = true;
  opk_id_used = some 1;
}

floats : (t : ℕ) → as_num (num t) ≡ ok t
unfolding as_num
floats t = refl

save_metadata_lem_example :
    let q = save_metadata num as_num cipher json store (ascii "s") metadata nonce io [] in
    (q.0 ≡ ok tt → load_metadata num as_num cipher json store (ascii "s") q.1 ≡ ok metadata)
    × ((load_metadata num as_num cipher json store (ascii "s") q.1
          ≡ load_metadata num as_num cipher json store (ascii "s") [])
        ⊎ (load_metadata num as_num cipher json store (ascii "s") q.1 ≡ ok metadata))
    × ((other : Text)
        → load_state cipher json store other q.1 ≡ load_state cipher json store other [])
save_metadata_lem_example =
    save_metadata_lem num as_num floats cipher json store cipher_laws json_laws (ascii "s") metadata
      nonce io [] refl refl

abbrev files : FileSystem
files = (ascii "b/salt", []) ∷ (state_path (ascii "b") (ascii "s"), []) ∷ []

is_listed-list_sessions_example :
    is_listed (ascii "s") (list_sessions store files)
    ≡ state_exists cipher json store (ascii "s") files
is_listed-list_sessions_example = is_listed-list_sessions cipher json store (ascii "s") files valid
