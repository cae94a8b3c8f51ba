-- ===== src/Ratchet.antt =====
-- core/dh_ratchet: the key derivations of ratchet_kdf.py, and the wire form of a message, which
-- `RatchetSession.encrypt` puts together and `RatchetSession.decrypt` takes apart (session.py).
pub mod Adapters
pub mod Session
pub mod Laws
use desperate.Prelude.{ℕ, ◌+◌, not, [], ◌∷◌, ◌++◌, take, drop, length, ltb, ◌==◌, nat_eq, list_eq}
use desperate.Outcome.{
  Result, ok, value_error, bad_public_key, bad_version, too_short, empty_body, reject, ◌>>=◌, ◌>>◌,
}
use desperate.Codec.Words.{Bytes, pack_u32, unpack_le}
use desperate.Crypto.{Hashes}
use desperate.Kdf.{hkdf_derive, info_root_kdf, info_chain_kdf, is_empty}

-- RootChainKDF.derive and MessageChainKDF.derive
unfoldable pub derive_root_chain : Hashes → Bytes → Bytes → ℕ → Result Bytes
derive_root_chain h key data_in length = hkdf_derive h data_in key info_root_kdf length

unfoldable pub derive_message_chain : Hashes → Bytes → Bytes → ℕ → Result Bytes
derive_message_chain h key data_in length = hkdf_derive h key data_in info_chain_kdf length

-- The package's `Header` and `EncryptedMessage`, as far as the session reads and makes them.
pub record Header : Type 0 where
  pub ratchet_pub : Bytes
  pub previous_sending_chain_length : ℕ
  pub sending_chain_length : ℕ

pub record EncryptedMessage : Type 0 where
  pub header : Header
  pub ciphertext : Bytes

abbrev pub wire_version : Bytes
wire_version = 2 ∷ []

abbrev pub msg_index_offset : ℕ
msg_index_offset = 1

abbrev pub pn_offset : ℕ
pn_offset = msg_index_offset + 4

abbrev pub n_offset : ℕ
n_offset = pn_offset + 4

abbrev pub ratchet_pub_offset : ℕ
ratchet_pub_offset = n_offset + 4

abbrev pub wire_header_len : ℕ
wire_header_len = ratchet_pub_offset + 32

-- the checks and the concatenation of `encrypt`
unfoldable pub build_wire : ℕ → EncryptedMessage → Result Bytes
build_wire next_index m = do
  reject (not (length m.header.ratchet_pub == 32)) (value_error bad_public_key)
  index_bytes ← pack_u32 next_index
  pn_bytes ← pack_u32 m.header.previous_sending_chain_length
  n_bytes ← pack_u32 m.header.sending_chain_length
  ok (
      wire_version
      ++ (index_bytes ++ (pn_bytes ++ (n_bytes ++ (m.header.ratchet_pub ++ m.ciphertext)))))

-- the checks and the slices of `decrypt`
unfoldable pub parse_wire : Bytes → Result (ℕ × EncryptedMessage)
parse_wire wire = do
  reject (ltb (length wire) wire_header_len) (value_error too_short)
  reject (not (take 1 wire == wire_version)) (value_error bad_version)
  let msg_index = unpack_le (take 4 (drop msg_index_offset wire))
  let pn = unpack_le (take 4 (drop pn_offset wire))
  let n = unpack_le (take 4 (drop n_offset wire))
  let ratchet_pub = take 32 (drop ratchet_pub_offset wire)
  let ciphertext = drop wire_header_len wire
  reject (is_empty ciphertext) (value_error empty_body)
  ok (
    msg_index,
    record {
      header = record {
        ratchet_pub = ratchet_pub;
        previous_sending_chain_length = pn;
        sending_chain_length = n;
      };
      ciphertext = ciphertext;
    },
  )
