-- ===== src/Aead.antt =====
-- core/aead.py: message and header encryption. ChaCha20-Poly1305 and HKDF are parameters.
pub mod Laws
use desperate.Prelude.{ℕ, ◌≡◌, Bool, not, ◌++◌, take, drop, length, ltb, list_beq, ◌==◌, nat_eq}
use desperate.Prelude.Int.{ℤ, pos, negsuc}
use desperate.Outcome.{
  Result, ok, err, value_error, bad_key_length, bad_index, too_short, invalid_tag, reject, ◌>>=◌,
  ◌>>◌,
}
use desperate.Codec.Words.{Bytes, pack_u64, u64_limit}
use desperate.Codec.Ascii.{ascii}
use desperate.Constants.{key_len, nonce_len, min_ct_len}
use desperate.Crypto.{Hashes, Cipher}
use desperate.Counter.{HeaderCounter, next_nonce}

abbrev pub nonce_info : Bytes
nonce_info = ascii "chacha20-poly1305-nonce-v1"

-- `0 <= n < 2**64`, and the number
unfoldable pub as_uint64 : ℤ → Result ℕ
as_uint64 (negsuc n) = err (value_error bad_index)
as_uint64 (pos n) = do reject (not (ltb n u64_limit)) (value_error bad_index); ok n

module _ (h : Hashes) (c : Cipher) where
  unfoldable pub derive_nonce : Bytes → ℤ → Result Bytes
  derive_nonce message_key message_index = do
    reject (not (length message_key == key_len)) (value_error bad_key_length)
    index ← as_uint64 message_index
    index_bytes ← pack_u64 index
    h.hkdf message_key index_bytes nonce_info nonce_len

  unfoldable pub encrypt : Bytes → Bytes → Bytes → ℤ → Result Bytes
  encrypt message_key plaintext associated_data message_index = do
    nonce ← derive_nonce message_key message_index
    ct ← c.encrypt message_key nonce plaintext associated_data
    ok (nonce ++ ct)

  unfoldable pub decrypt : Bytes → Bytes → Bytes → ℤ → Result Bytes
  decrypt message_key wire associated_data message_index = do
    reject (ltb (length wire) min_ct_len) (value_error too_short)
    let wire_nonce = take nonce_len wire
    let ct = drop nonce_len wire
    expected_nonce ← derive_nonce message_key message_index
    reject (not (list_beq wire_nonce expected_nonce)) invalid_tag
    c.decrypt message_key expected_nonce ct associated_data

  seal_header : Bytes → Bytes → Bytes → Result Bytes → Result Bytes
  seal_header header_key header_plaintext associated_data nonce = do
    n ← nonce
    ct ← c.encrypt header_key n header_plaintext associated_data
    ok (n ++ ct)

  -- The counter is advanced before encryption, whether that succeeds or not.
  unfoldable pub encrypt_header :
      Bytes → Bytes → Bytes → HeaderCounter → Result Bytes × HeaderCounter
  unfolding seal_header
  encrypt_header header_key header_plaintext associated_data counter =
      let (nonce, counter') = next_nonce counter in
      (seal_header header_key header_plaintext associated_data nonce, counter')

  unfoldable pub decrypt_header : Bytes → Bytes → Bytes → Result Bytes
  decrypt_header header_key wire associated_data = do
    reject (ltb (length wire) min_ct_len) (value_error too_short)
    let nonce = take nonce_len wire
    let ct = drop nonce_len wire
    c.decrypt header_key nonce ct associated_data
