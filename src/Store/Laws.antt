-- ===== src/Store/Laws.antt =====
-- A store is opened with the passphrase it was made with.
use desperate.Prelude.{
  [], ◌≡◌, ◌∙◌, ap, sym, arith, true, Option, inl, inr, none, some, length, list_eq, Bool-cases,
  ◌==◌, nat_eq,
}
use desperate.Prelude.Dict.{lookup}
use desperate.Outcome.{ok, Result-cases}
use desperate.Codec.Words.{Bytes}
use desperate.Codec.Hex.{Text}
use desperate.Codec.Ascii.{ascii}
use desperate.Crypto.{Hashes}
use desperate.Constants.{argon2_salt_len}
use desperate.Password.{argon2id_derive_key}
use desperate.Store.{
  StateStore, salt_path, exists, derive_key, write_salt, create, load, create_with_key,
  load_with_key,
}
use desperate.Store.AtomicWrite.{FileSystem, WriteIo, atomic_write, accepted}
use desperate.Store.AtomicWrite.Laws.{atomic_write_returns}
use desperate.Store.Paths.Laws.{temp-apart-salt}

-- A key that was derived from a fresh salt is derived again from that salt.
derive_key_again :
    (h : Hashes) (passphrase : Text) (fresh : Bytes) {k salt : Bytes}
    → derive_key h passphrase none fresh ≡ ok (k, salt)
    → (salt ≡ fresh)
      × (length fresh ≡ argon2_salt_len)
      × (derive_key h passphrase (some fresh) [] ≡ ok (k, salt))
unfolding derive_key argon2id_derive_key
derive_key_again h passphrase fresh e = ground arith

exists_some : {o : Option Bytes} {b : Bytes} → o ≡ some b → exists o ≡ true
exists_some e = rw e

write_salt_lem :
    (base k salt : Bytes) (io : WriteIo) (fs : FileSystem) {st : StateStore}
    → io.taken ≡ none
    → (write_salt base (ok (k, salt)) io fs).0 ≡ ok st
    → (st ≡ record { base_dir = base; enc_key = k })
      × (lookup (salt_path base) (write_salt base (ok (k, salt)) io fs).1 ≡ some salt)
unfolding write_salt
write_salt_lem base k salt io fs whole e =
    elim (Result-cases (atomic_write base (ascii "salt") salt io fs).0) [
      | inl (u, q) ↦ (
        ground arith,
        (atomic_write_returns base (ascii "salt") salt io fs (temp-apart-salt base io) q).0
            ∙ ap (λ t. some (accepted t salt)) whole,
      )
      | inr (x, q) ↦ absurd (ground arith)
    ]

load_stored :
    (h : Hashes) (base passphrase : Text) (fs : FileSystem) {k salt used : Bytes}
    → lookup (salt_path base) fs ≡ some salt
    → length salt ≡ argon2_salt_len
    → derive_key h passphrase (some salt) [] ≡ ok (k, used)
    → load h base passphrase fs ≡ ok (record { base_dir = base; enc_key = k })
unfolding load
load_stored h base passphrase fs there size again = ground arith

-- Where os.write takes every byte: the store that create returned, load gives again for the same
-- directory and passphrase.
pub load-create :
    (h : Hashes) (base passphrase : Text) (fresh : Bytes) (io : WriteIo) (fs : FileSystem)
    {st : StateStore}
    → io.taken ≡ none
    → (create h base passphrase fresh io fs).0 ≡ ok st
    → load h base passphrase (create h base passphrase fresh io fs).1 ≡ ok st
unfolding create
load-create h base passphrase fresh io fs whole e =
    elim (Bool-cases (exists (lookup (salt_path base) fs))) [
      | inl there ↦ absurd (ground arith)
      | inr free ↦ elim (Result-cases (derive_key h passphrase none fresh)) [
        | inl ((k, salt), q) ↦
            let (same, size, again) = derive_key_again h passphrase fresh q in
            let (made, stored) = write_salt_lem base k salt io fs whole (ground arith) in
            rw (free, q)
              (load_stored h base passphrase _ (stored ∙ ap some same) size again
                ∙ ap ok (sym made))
        | inr (x, q) ↦ absurd (ground arith)
      ]
    ]

-- Where os.write takes every byte: the store that create_with_key returned, load_with_key gives
-- again for the same directory and key.
pub load_with_key-create_with_key :
    (base enc_key salt : Bytes) (io : WriteIo) (fs : FileSystem) {st : StateStore}
    → io.taken ≡ none
    → (create_with_key base enc_key salt io fs).0 ≡ ok st
    → load_with_key base enc_key (create_with_key base enc_key salt io fs).1 ≡ ok st
unfolding create_with_key load_with_key
load_with_key-create_with_key base enc_key salt io fs {st} whole e =
    elim (Bool-cases (exists (lookup (salt_path base) fs))) [
      | inl there ↦ absurd (ground arith)
      | inr free ↦ elim (Bool-cases (length salt == argon2_salt_len)) [
        | inl size ↦
            let (made, stored) =
              write_salt_lem base enc_key salt io fs {st = st} whole (ground arith) in
            ground arith
        | inr bad ↦ absurd (ground arith)
      ]
    ]

-- Where os.write takes every byte: the salt that create_with_key was given is the one on disk.
pub create_with_key_salt :
    (base enc_key salt : Bytes) (io : WriteIo) (fs : FileSystem) {st : StateStore}
    → io.taken ≡ none
    → (create_with_key base enc_key salt io fs).0 ≡ ok st
    → lookup (salt_path base) (create_with_key base enc_key salt io fs).1 ≡ some salt
unfolding create_with_key
create_with_key_salt base enc_key salt io fs {st} whole e =
    elim (Bool-cases (exists (lookup (salt_path base) fs))) [
      | inl there ↦ absurd (ground arith)
      | inr free ↦ elim (Bool-cases (length salt == argon2_salt_len)) [
        | inl size ↦
            let (made, stored) =
              write_salt_lem base enc_key salt io fs {st = st} whole (ground arith) in
            ground arith
        | inr bad ↦ absurd (ground arith)
      ]
    ]

-- What load_with_key gives depends on the salt's file alone.
pub load_with_key-ext :
    (base enc_key : Bytes) (fs fs' : FileSystem)
    → lookup (salt_path base) fs' ≡ lookup (salt_path base) fs
    → load_with_key base enc_key fs' ≡ load_with_key base enc_key fs
unfolding load_with_key
load_with_key-ext base enc_key fs fs' e = rw e

-- What load gives depends on the salt's file alone.
pub load-ext :
    (h : Hashes) (base passphrase : Text) (fs fs' : FileSystem)
    → lookup (salt_path base) fs' ≡ lookup (salt_path base) fs
    → load h base passphrase fs' ≡ load h base passphrase fs
unfolding load
load-ext h base passphrase fs fs' e = rw e

-- The store that was made stands in the directory that was given.
pub create_base_dir :
    (h : Hashes) (base passphrase : Text) (fresh : Bytes) (io : WriteIo) (fs : FileSystem)
    {st : StateStore}
    → io.taken ≡ none
    → (create h base passphrase fresh io fs).0 ≡ ok st
    → st.base_dir ≡ base
unfolding create
create_base_dir h base passphrase fresh io fs {st} whole e =
    elim (Bool-cases (exists (lookup (salt_path base) fs))) [
      | inl there ↦ absurd (ground arith)
      | inr free ↦ elim (Result-cases (derive_key h passphrase none fresh)) [
        | inl ((k, salt), q) ↦
            ap (λ t. t.base_dir) (write_salt_lem base k salt io fs {st = st} whole (ground arith)).0
        | inr (x, q) ↦ absurd (ground arith)
      ]
    ]
