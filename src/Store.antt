-- ===== src/Store.antt =====
-- core/state_store.py: making and opening a store of encrypted files. The file system is a dict
-- from paths to contents; directories, and errors of reading and unlinking, are not modelled.
pub mod AtomicWrite
pub mod Paths
pub mod States
pub mod Laws
pub mod Abstract
pub mod Metadata
pub mod Listing
use desperate.Prelude.{
  ℕ, ◌≡◌, Bool, true, false, not, Option, none, some, length, if◌then◌else◌, [], list_eq, ◌==◌,
  nat_eq,
}
use desperate.Prelude.Dict.{lookup}
use desperate.Outcome.{
  Result, ok, err, value_error, bad_salt, file_exists, file_not_found, reject, ◌>>=◌, ◌>>◌,
}
use desperate.Codec.Words.{Bytes}
use desperate.Codec.Hex.{Text}
use desperate.Codec.Ascii.{ascii}
use desperate.Constants.{argon2_salt_len}
use desperate.Crypto.{Hashes}
use desperate.Kdf.{hkdf_derive, info_local_key_enc}
use desperate.Password.{argon2id_derive_key}
use desperate.Store.AtomicWrite.{FileSystem, WriteIo, atomic_write, join}

pub record StateStore : Type 0 where
  pub base_dir : Text
  pub enc_key : Bytes

abbrev pub salt_path : Text → Text
salt_path base_dir = join base_dir (ascii "salt")

abbrev pub exists : Option Bytes → Bool
exists none = false
exists (some b) = true

-- `path.read_bytes()`
abbrev pub read_file : Option Bytes → Result Bytes
read_file none = err file_not_found
read_file (some b) = ok b

-- the key of the files and the salt used
unfoldable pub derive_key : Hashes → Text → Option Bytes → Bytes → Result (Bytes × Bytes)
derive_key h passphrase given fresh = do
  (raw_key, salt) ← argon2id_derive_key h passphrase given fresh
  enc_key ← hkdf_derive h raw_key salt info_local_key_enc 32
  ok (enc_key, salt)

unfoldable pub write_salt :
    Text → Result (Bytes × Bytes) → WriteIo → FileSystem → Result StateStore × FileSystem
write_salt base_dir (err e) io fs = (err e, fs)
write_salt base_dir (ok (enc_key, salt)) io fs =
    let (written, fs') = atomic_write base_dir (ascii "salt") salt io fs in
    ((written >> ok (record { base_dir = base_dir; enc_key = enc_key })), fs')

-- StateStore.create; `fresh` is the salt drawn
unfoldable pub create :
    Hashes → Text → Text → Bytes → WriteIo → FileSystem → Result StateStore × FileSystem
unfolding write_salt
create h base_dir passphrase fresh io fs =
    if exists (lookup (salt_path base_dir) fs)
    then (err file_exists, fs)
    else write_salt base_dir (derive_key h passphrase none fresh) io fs

-- StateStore.load; a salt is given, so none is drawn
unfoldable pub load : Hashes → Text → Text → FileSystem → Result StateStore
load h base_dir passphrase fs = do
  reject (not (exists (lookup (salt_path base_dir) fs))) file_not_found
  salt ← read_file (lookup (salt_path base_dir) fs)
  reject (not (length salt == argon2_salt_len)) (value_error bad_salt)
  (enc_key, _) ← derive_key h passphrase (some salt) []
  ok (record { base_dir = base_dir; enc_key = enc_key })

-- StateStore.create_with_key
unfoldable pub create_with_key :
    Text → Bytes → Bytes → WriteIo → FileSystem → Result StateStore × FileSystem
unfolding write_salt
create_with_key base_dir enc_key master_salt io fs =
    if not (length master_salt == argon2_salt_len)
    then (err (value_error bad_salt), fs)
    else if exists (lookup (salt_path base_dir) fs)
    then (err file_exists, fs)
    else write_salt base_dir (ok (enc_key, master_salt)) io fs

-- StateStore.load_with_key
unfoldable pub load_with_key : Text → Bytes → FileSystem → Result StateStore
load_with_key base_dir enc_key fs = do
  reject (not (exists (lookup (salt_path base_dir) fs))) file_not_found
  salt ← read_file (lookup (salt_path base_dir) fs)
  reject (not (length salt == argon2_salt_len)) (value_error bad_salt)
  ok (record { base_dir = base_dir; enc_key = enc_key })
