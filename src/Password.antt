-- ===== src/Password.antt =====
-- core/password.py. The salt that `os.urandom` draws when `argon2id_derive_key` is given none is the
-- argument `fresh`.
pub mod Laws
use desperate.Prelude.{Bool, false, not, Option, none, some, length, ◌==◌, nat_eq}
use desperate.Outcome.{
  Result, ok, err, verification_error, invalid_hash, value_error, bad_salt, reject, ◌>>=◌, ◌>>◌,
}
use desperate.Codec.Words.{Bytes}
use desperate.Codec.Hex.{Text}
use desperate.Codec.Utf8.{encode}
use desperate.Constants.{
  argon2_time_cost, argon2_memory_cost, argon2_parallelism, argon2_hash_len, argon2_salt_len,
}
use desperate.Crypto.{Hashes}

abbrev pub given_or : Option Bytes → Bytes → Bytes
given_or none fresh = fresh
given_or (some salt) fresh = salt

-- the key, and the salt used
unfoldable pub argon2id_derive_key : Hashes → Text → Option Bytes → Bytes → Result (Bytes × Bytes)
argon2id_derive_key h passphrase given fresh = do
  let salt = given_or given fresh
  reject (not (length salt == argon2_salt_len)) (value_error bad_salt)
  key ←
      h.argon2id (encode passphrase) salt argon2_time_cost argon2_memory_cost argon2_parallelism
        argon2_hash_len
  ok (key, salt)

-- `_password_hasher`, with the salt that `hash` draws. `verify` raises VerificationError or one of
-- its subclasses, VerifyMismatchError among them, or InvalidHashError, for what it does not accept.
pub record PasswordHasher : Type 0 where
  pub hash : Text → Bytes → Result Text
  pub verify : Text → Text → Result Bool

unfoldable pub argon2id_hash : PasswordHasher → Text → Bytes → Result Text
argon2id_hash hasher password fresh = hasher.hash password fresh

-- `except (VerifyMismatchError, VerificationError, InvalidHashError): return False`
abbrev pub false_if_refused : Result Bool → Result Bool
false_if_refused (err verification_error) = ok false
false_if_refused (err invalid_hash) = ok false
false_if_refused r = r

unfoldable pub argon2id_verify : PasswordHasher → Text → Text → Result Bool
argon2id_verify hasher stored_hash password = false_if_refused (hasher.verify stored_hash password)
