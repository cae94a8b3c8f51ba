-- ===== src/Kdf.antt =====
-- core/kdf.py: HKDF with domain separation, and the two keys of the master password.
-- A length is a natural number: a negative one, which Python refuses like 0, is not represented.
pub mod Laws
use desperate.Prelude.{
  ℕ, zero, suc, ◌+◌, ◌≡◌, Bool, true, false, ◌||◌, Option, List, [], ◌∷◌, take, drop, length, ◌==◌,
  nat_eq,
}
use desperate.Outcome.{
  Result, ok, err, value_error, empty_ikm, empty_salt, bad_length, empty_info, empty_lengths,
  nonpositive_length, reject, ◌>>=◌, ◌>>◌,
}
use desperate.Codec.Words.{Bytes}
use desperate.Codec.Hex.{Text}
use desperate.Codec.Ascii.{ascii}
use desperate.Crypto.{Hashes}
use desperate.Password.{argon2id_derive_key}

abbrev pub info_pqxdh_sk : Bytes
info_pqxdh_sk = ascii "pqxdh-v1-shared-secret"

abbrev pub info_root_kdf : Bytes
info_root_kdf = ascii "dr-v1-root-kdf"

abbrev pub info_chain_kdf : Bytes
info_chain_kdf = ascii "dr-v1-chain-kdf"

abbrev pub info_header_key : Bytes
info_header_key = ascii "dr-v1-header-key"

abbrev pub info_local_key_enc : Bytes
info_local_key_enc = ascii "local-v1-key-encryption"

abbrev pub info_local_key_master : Bytes
info_local_key_master = ascii "local-v1-master-key"

abbrev pub info_srp_auth : Bytes
info_srp_auth = ascii "srp-v1-auth"

-- `not b`
abbrev pub is_empty : Bytes → Bool
is_empty [] = true
is_empty (b ∷ bs) = false

unfoldable pub any_zero : List ℕ → Bool
any_zero [] = false
any_zero (l ∷ ls) = l == 0 || any_zero ls

unfoldable pub total : List ℕ → ℕ
total [] = 0
total (l ∷ ls) = l + total ls

-- the loop that cuts the output, from `offset` on
unfoldable pub split_from : Bytes → ℕ → List ℕ → List Bytes
split_from raw offset [] = []
split_from raw offset (l ∷ ls) = take l (drop offset raw) ∷ split_from raw (offset + l) ls

module _ (h : Hashes) where
  unfoldable pub hkdf_derive : Bytes → Bytes → Bytes → ℕ → Result Bytes
  hkdf_derive ikm salt info length = do
    reject (is_empty ikm) (value_error empty_ikm)
    reject (is_empty salt) (value_error empty_salt)
    reject (length == 0) (value_error bad_length)
    reject (is_empty info) (value_error empty_info)
    h.hkdf ikm salt info length

  -- the password for SRP, the key of the keystore, and the salt used
  unfoldable pub derive_master_components :
      Text → Option Bytes → Bytes → Result (Bytes × Bytes × Bytes)
  derive_master_components password given fresh = do
    (master_key, used_salt) ← argon2id_derive_key h password given fresh
    srp_pass ← hkdf_derive master_key used_salt info_srp_auth 32
    keystore_key ← hkdf_derive master_key used_salt info_local_key_enc 32
    ok (srp_pass, keystore_key, used_salt)

  unfoldable pub hkdf_derive_many : Bytes → Bytes → Bytes → List ℕ → Result (List Bytes)
  unfolding any_zero
  hkdf_derive_many ikm salt info [] = err (value_error empty_lengths)
  hkdf_derive_many ikm salt info (l ∷ ls) = do
    reject (any_zero (l ∷ ls)) (value_error nonpositive_length)
    raw ← hkdf_derive ikm salt info (total (l ∷ ls))
    ok (split_from raw 0 (l ∷ ls))
