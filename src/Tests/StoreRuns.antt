-- ===== src/Tests/StoreRuns.antt =====
-- Runs of the store on a small file system.
use desperate.Prelude.{
  ℕ, ◌≡◌, ◌≢◌, ◌⊎◌, refl, arith, true, none, some, [], ◌∷◌, ◌++◌, length, take, replicate, list_eq,
  string_eq, All,
}
use desperate.Prelude.Dict.{lookup}
use desperate.Outcome.{ok, err, os_error}
use desperate.Codec.Words.{Bytes}
use desperate.Codec.Hex.{Text}
use desperate.Codec.Ascii.{ascii}
use desperate.Json.{num, obj, Fields, end, put}
use desperate.Store.{StateStore, create, load, create_with_key, load_with_key}
use desperate.Store.Laws.{load-create}
use desperate.Store.AtomicWrite.{
  FileSystem, WriteIo, Step, atomic_write, join, temp_path, accepted, write_and_rename, sync_file,
}
use desperate.Store.AtomicWrite.Laws.{atomic_write_lem}
use desperate.Store.Paths.{make_ad, validate_session_id}
use desperate.Store.Paths.Laws.{make_ad_injective}
use desperate.Store.States.{save_state, load_state, delete_session, save_counter, load_counter}
use desperate.Store.States.Laws.{save_state_lem, load_counter-save_counter}
use desperate.Tests.Toy.{hashes, cipher, cipher_laws}
use desperate.Tests.ToyCodecs.{json, json_laws}

abbrev pub io : WriteIo
io = record { stem = ascii "x"; fault = none; taken = none; unlinks = true; posix = true }

abbrev faulty : WriteIo
faulty = record io { fault = some sync_file }

abbrev short : WriteIo
short = record io { taken = some 1 }

abbrev files : FileSystem
files = (ascii "d/f", 1 ∷ 2 ∷ []) ∷ []

apart : temp_path (ascii "d") io ≢ join (ascii "d") (ascii "f")
apart e = absurd (ground arith)

atomic_write_lem_example :
    ((path : Text)
      → join (ascii "d") (ascii "f") ≢ path
      → temp_path (ascii "d") faulty ≢ path
      → lookup path (atomic_write (ascii "d") (ascii "f") (3 ∷ []) faulty files).1
        ≡ lookup path files)
    × ((((atomic_write (ascii "d") (ascii "f") (3 ∷ []) faulty files).0 ≡ err os_error)
          × (lookup
                (join (ascii "d") (ascii "f"))
                (atomic_write (ascii "d") (ascii "f") (3 ∷ []) faulty files).1
              ≡ lookup (join (ascii "d") (ascii "f")) files))
        ⊎ (lookup
              (join (ascii "d") (ascii "f"))
              (atomic_write (ascii "d") (ascii "f") (3 ∷ []) faulty files).1
            ≡ some (accepted faulty.taken (3 ∷ []))))
atomic_write_lem_example = atomic_write_lem (ascii "d") (ascii "f") (3 ∷ []) faulty files apart

written : (atomic_write (ascii "d") (ascii "f") (3 ∷ []) io files).0 ≡ ok tt
unfolding atomic_write write_and_rename desperate.Store.AtomicWrite.fails_early
    desperate.Store.AtomicWrite.fails_writing desperate.Store.AtomicWrite.fails_closing
    desperate.Store.AtomicWrite.fails_late
written = refl

abbrev two : Bytes
two = 3 ∷ 4 ∷ []

make_ad_injective_example :
    (make_ad (ascii "ab") (ascii "state") ≡ make_ad (ascii "c") (ascii "state")
      → ascii "ab" ≡ ascii "c")
    × (make_ad (ascii "ab") (ascii "state") ≢ make_ad (ascii "c") (ascii "meta"))
make_ad_injective_example = make_ad_injective (ascii "ab") (ascii "c") (ground arith) (ground arith)

abbrev pub store : StateStore
store = record { base_dir = ascii "b"; enc_key = replicate 32 0 }

abbrev salt : Bytes
salt = replicate 32 0

created : (create hashes (ascii "b") (ascii "pw") salt io []).0 ≡ ok store
unfolding create lookup desperate.Store.derive_key desperate.Password.argon2id_derive_key
    desperate.Kdf.hkdf_derive desperate.Tests.Toy.fit atomic_write write_and_rename
    desperate.Store.AtomicWrite.fails_early desperate.Store.AtomicWrite.fails_writing
    desperate.Store.AtomicWrite.fails_closing desperate.Store.AtomicWrite.fails_late
created = refl

load-create_example :
    load hashes (ascii "b") (ascii "pw") (create hashes (ascii "b") (ascii "pw") salt io []).1
    ≡ ok store
load-create_example = load-create hashes (ascii "b") (ascii "pw") salt io [] refl created

created_with_key : (create_with_key (ascii "b") store.enc_key salt io []).0 ≡ ok store
unfolding create_with_key lookup atomic_write write_and_rename
    desperate.Store.AtomicWrite.fails_early desperate.Store.AtomicWrite.fails_writing
    desperate.Store.AtomicWrite.fails_closing desperate.Store.AtomicWrite.fails_late
created_with_key = refl

abbrev pub nonce : Bytes
nonce = replicate 12 1

save_state_lem_example :
    ((save_state cipher json store (ascii "s") end nonce faulty files).0 ≡ ok tt
      → load_state cipher json store
          (ascii "s")
          (save_state cipher json store (ascii "s") end nonce faulty files).1
        ≡ ok (obj end))
    × ((load_state cipher json store
            (ascii "s")
            (save_state cipher json store (ascii "s") end nonce faulty files).1
          ≡ load_state cipher json store (ascii "s") files)
        ⊎ (load_state cipher json store
              (ascii "s")
              (save_state cipher json store (ascii "s") end nonce faulty files).1
            ≡ ok (obj end)))
save_state_lem_example =
    save_state_lem cipher json store cipher_laws json_laws (ascii "s") end nonce faulty files refl
      refl

deleted : (delete_session cipher json store (ascii "s") files).0 ≡ ok tt
unfolding delete_session validate_session_id
deleted = refl

counter_saved : (save_counter cipher json store (ascii "s") 5 nonce io files).0 ≡ ok tt
unfolding save_counter validate_session_id desperate.Store.States.existing_state
    desperate.Store.States.state_exists lookup desperate.Prelude.list_beq save_state
    desperate.Tests.ToyCodecs.dumped put desperate.Store.States.encrypt_write atomic_write
    write_and_rename desperate.Store.AtomicWrite.fails_early
    desperate.Store.AtomicWrite.fails_writing desperate.Store.AtomicWrite.fails_closing
    desperate.Store.AtomicWrite.fails_late
counter_saved = refl

load_counter-save_counter_example :
    (load_counter cipher json store
        (ascii "s")
        (save_counter cipher json store (ascii "s") 5 nonce io files).1
      ≡ ok 5)
    × ((d : Fields)
        → load_state cipher json store (ascii "s") files ≡ ok (obj d)
        → load_state cipher json store
            (ascii "s")
            (save_counter cipher json store (ascii "s") 5 nonce io files).1
          ≡ ok (obj (put "header_counter" (num 5) d)))
load_counter-save_counter_example =
    load_counter-save_counter cipher json store cipher_laws json_laws (ascii "s") 5 nonce io files
      refl refl counter_saved
