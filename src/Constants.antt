-- ===== src/Constants.antt =====
-- core/constants.py
use desperate.Prelude.{ℕ, ◌+◌, ◌-◌, ◌^◌}

abbrev pub key_len : ℕ
key_len = 32

abbrev pub nonce_len : ℕ
nonce_len = 12

abbrev pub tag_len : ℕ
tag_len = 16

abbrev pub min_ct_len : ℕ
min_ct_len = nonce_len + tag_len

abbrev pub max_header_messages : ℕ
max_header_messages = 2 ^ 32 - 1

abbrev pub kem_public_key_len : ℕ
kem_public_key_len = 1568

abbrev pub dsa_public_key_len : ℕ
dsa_public_key_len = 2592

abbrev pub dsa_signature_len : ℕ
dsa_signature_len = 4627

abbrev pub ed25519_public_key_len : ℕ
ed25519_public_key_len = 32

abbrev pub ed25519_signature_len : ℕ
ed25519_signature_len = 64

abbrev pub hybrid_public_key_len : ℕ
hybrid_public_key_len = ed25519_public_key_len + dsa_public_key_len

abbrev pub hybrid_signature_len : ℕ
hybrid_signature_len = ed25519_signature_len + dsa_signature_len

abbrev pub argon2_time_cost : ℕ
argon2_time_cost = 1

abbrev pub argon2_memory_cost : ℕ
argon2_memory_cost = 47104

abbrev pub argon2_parallelism : ℕ
argon2_parallelism = 1

abbrev pub argon2_hash_len : ℕ
argon2_hash_len = 32

abbrev pub argon2_salt_len : ℕ
argon2_salt_len = 32
