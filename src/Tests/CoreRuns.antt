-- ===== src/Tests/CoreRuns.antt =====
-- Runs of the derivations, the counter and the two encryption layers.
use desperate.Prelude.{
  min, ◌-◌, ◌≡◌, ◌≢◌, ◌+◌, refl, arith, [], ◌∷◌, length, replicate, list_eq, nat_eq,
}
use desperate.Prelude.Int.{pos}
use desperate.Outcome.{ok, err, invalid_tag}
use desperate.Codec.Words.{Bytes}
use desperate.Codec.Ascii.{ascii}
use desperate.Constants.{max_header_messages}
use desperate.Counter.{HeaderCounter, next_nonce}
use desperate.Counter.Nonces.{issued, Distinct, issued-Distinct, length-issued}
use desperate.Kdf.{hkdf_derive, hkdf_derive_many, derive_master_components, total, info_root_kdf}
use desperate.Aead.{derive_nonce, encrypt, decrypt, encrypt_header, decrypt_header}
use desperate.Aead.Laws.{decrypt-encrypt, decrypt_other_index}
use desperate.Tests.Toy.{hashes, hash_laws, cipher, cipher_laws, fit}

-- Two messages before the bound of the counter.
abbrev late : HeaderCounter
late = record { session_id = ascii "s"; counter = 4294967293 }

issued-Distinct_example : Distinct (issued 4 late)
issued-Distinct_example = issued-Distinct 4 late

length-issued_example : length (issued 4 late) ≡ min 4 (max_header_messages - late.counter)
length-issued_example = length-issued 4 late

abbrev key : Bytes
key = 1 ∷ replicate 31 2

abbrev salt : Bytes
salt = replicate 32 3

cut :
    hkdf_derive_many hashes key salt info_root_kdf (2 ∷ 3 ∷ [])
    ≡ ok ((3 ∷ 3 ∷ []) ∷ (3 ∷ 3 ∷ 3 ∷ []) ∷ [])
unfolding hkdf_derive_many hkdf_derive total fit desperate.Kdf.split_from
cut = refl

abbrev message : Bytes
message = ascii "hi"

abbrev wire : Bytes
wire = 5 ∷ 0 ∷ 0 ∷ 0 ∷ 0 ∷ 0 ∷ 0 ∷ 0 ∷ 1 ∷ 2 ∷ 2 ∷ 2 ∷ 104 ∷ 105 ∷ replicate 16 7

sealed : encrypt hashes cipher key message [] (pos 5) ≡ ok wire
unfolding encrypt derive_nonce fit desperate.Aead.as_uint64 desperate.Codec.Words.pack_u64
    desperate.Codec.Words.pack_le
sealed = refl

decrypt-encrypt_example :
    (decrypt hashes cipher key wire [] (pos 5) ≡ ok message) × (length wire ≡ length message + 28)
decrypt-encrypt_example =
    decrypt-encrypt hashes cipher hash_laws cipher_laws key message [] (pos 5) sealed

abbrev other_nonce : Bytes
other_nonce = 6 ∷ 0 ∷ 0 ∷ 0 ∷ 0 ∷ 0 ∷ 0 ∷ 0 ∷ 1 ∷ 2 ∷ 2 ∷ 2 ∷ []

other : derive_nonce hashes cipher key (pos 6) ≡ ok other_nonce
unfolding derive_nonce fit desperate.Aead.as_uint64 desperate.Codec.Words.pack_u64
    desperate.Codec.Words.pack_le
other = refl

own :
    derive_nonce hashes cipher key (pos 5) ≡ ok (5 ∷ 0 ∷ 0 ∷ 0 ∷ 0 ∷ 0 ∷ 0 ∷ 0 ∷ 1 ∷ 2 ∷ 2 ∷ 2 ∷ [])
unfolding derive_nonce fit desperate.Aead.as_uint64 desperate.Codec.Words.pack_u64
    desperate.Codec.Words.pack_le
own = refl

differ : derive_nonce hashes cipher key (pos 5) ≢ ok other_nonce
differ e = absurd (ground (arith, own))

decrypt_other_index_example : decrypt hashes cipher key wire [] (pos 6) ≡ err invalid_tag
decrypt_other_index_example =
    decrypt_other_index hashes cipher hash_laws cipher_laws key message [] [] (pos 5) (pos 6) sealed
      other differ

abbrev header : Bytes
header = 254 ∷ 255 ∷ 255 ∷ 255 ∷ replicate 8 0

header_sealed :
    (encrypt_header hashes cipher key message [] late).0
    ≡ ok (254 ∷ 255 ∷ 255 ∷ 255 ∷ 0 ∷ 0 ∷ 0 ∷ 0 ∷ 0 ∷ 0 ∷ 0 ∷ 0 ∷ 104 ∷ 105 ∷ replicate 16 7)
unfolding encrypt_header next_nonce desperate.Counter.counter_to_nonce
    desperate.Codec.Words.pack_u64 desperate.Codec.Words.pack_le
header_sealed = refl
