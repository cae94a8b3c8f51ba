-- ===== src/Ratchet/Session/Creation.antt =====
-- `RatchetSession` of core/dh_ratchet/session.py: the three class methods that make a session.
pub mod Laws
pub mod FirstMessage
use desperate.Prelude.{
  ℕ, not, none, some, [], ◌∷◌, ◌++◌, take, drop, length, ltb, ◌==◌, nat_eq, list_eq,
}
use desperate.Prelude.Int.{pos}
use desperate.Outcome.{
  Result, ok, err, value_error, bad_shared_key, bad_public_key, too_short, bad_version, key_error,
  reject, ◌>>=◌, ◌>>◌,
}
use desperate.Codec.Words.{Bytes, pack_u32, unpack_le}
use desperate.Codec.Hex.{Text}
use desperate.Crypto.{Cipher}
use desperate.Counter as Counter
use desperate.Json.{Json, find, at, as_num, as_fields}
use desperate.Store.{StateStore}
use desperate.Store.AtomicWrite.{FileSystem, WriteIo}
use desperate.Store.States.{JsonCodec, load_state, counter_of}
use desperate.Ratchet.{
  EncryptedMessage, wire_version, msg_index_offset, pn_offset, n_offset, ratchet_pub_offset,
  wire_header_len,
}
use desperate.Ratchet.Session.{DoubleRatchet, RatchetSession, persist}

-- the wire form of the first message; the length of the ratchet key is not checked
unfoldable pub initial_wire : ℕ → EncryptedMessage → Result Bytes
initial_wire next_index m = do
  index_bytes ← pack_u32 next_index
  pn_bytes ← pack_u32 m.header.previous_sending_chain_length
  n_bytes ← pack_u32 m.header.sending_chain_length
  ok (
      wire_version
      ++ (index_bytes ++ (pn_bytes ++ (n_bytes ++ (m.header.ratchet_pub ++ m.ciphertext)))))

-- the packed index and the message; an empty body is not refused
unfoldable pub read_initial_wire : Bytes → Result (Bytes × EncryptedMessage)
read_initial_wire wire_bytes = do
  reject (ltb (length wire_bytes) wire_header_len) (value_error too_short)
  reject (not (take 1 wire_bytes == wire_version)) (value_error bad_version)
  let pn = unpack_le (take 4 (drop pn_offset wire_bytes))
  let n = unpack_le (take 4 (drop n_offset wire_bytes))
  let ratchet_pub = take 32 (drop ratchet_pub_offset wire_bytes)
  index_bytes ← pack_u32 (unpack_le (take 4 (drop msg_index_offset wire_bytes)))
  ok (
    index_bytes,
    record {
      header = record {
        ratchet_pub = ratchet_pub;
        previous_sending_chain_length = pn;
        sending_chain_length = n;
      };
      ciphertext = drop wire_header_len wire_bytes;
    },
  )

-- `int(state["msg_index"])`, which must be there
abbrev pub stored_index : Json → Result ℕ
stored_index state = do
  fields ← as_fields state
  elim (find "msg_index" fields) [ none ↦ err key_error | some n ↦ as_num n ]

module _ {R : Type 0} (d : DoubleRatchet R) where
  -- the ratchet and the wire message
  unfoldable pub first_message : Bytes → Bytes → Bytes → Bytes → Result (R × Bytes)
  first_message sk bob_ratchet_pub plaintext associated_data = do
    reject (not (length sk == 32)) (value_error bad_shared_key)
    reject (not (length bob_ratchet_pub == 32)) (value_error bad_public_key)
    index_bytes ← pack_u32 1
    (ratchet, encrypted) ←
        d.encrypt_initial_message sk bob_ratchet_pub plaintext (index_bytes ++ associated_data)
    wire ← initial_wire 1 encrypted
    ok (ratchet, wire)

  -- the ratchet and the plaintext
  unfoldable pub open_first : Bytes → Bytes → Bytes → Bytes → Result (R × Bytes)
  open_first sk own_ratchet_priv wire_bytes associated_data = do
    reject (not (length sk == 32)) (value_error bad_shared_key)
    (index_bytes, encrypted_msg) ← read_initial_wire wire_bytes
    d.decrypt_initial_message sk own_ratchet_priv encrypted_msg (index_bytes ++ associated_data)

module _ {R : Type 0} (d : DoubleRatchet R) (c : Cipher) (j : JsonCodec) (st : StateStore) where
  -- the constructor, the index given, and `_persist`
  unfoldable pub enrol :
      Text
      → ℕ
      → Bytes
      → WriteIo
      → FileSystem
      → Result (R × Bytes)
      → Result (RatchetSession R × Bytes) × FileSystem
  enrol session_id index nonce io fs (err e) = (err e, fs)
  enrol session_id index nonce io fs (ok (ratchet, b)) =
      let s : RatchetSession R = record {
        session_id = session_id;
        msg_index = index;
        ratchet = ratchet;
        counter = record { session_id = session_id; counter = 0 };
      } in
      let (persisted, fs') = persist d c j st s index nonce io fs in
      ((persisted >>= λ _. ok (s, b)), fs')

  unfoldable pub create_as_initiator :
      Bytes
      → Bytes
      → Bytes
      → Bytes
      → Text
      → Bytes
      → WriteIo
      → FileSystem
      → Result (RatchetSession R × Bytes) × FileSystem
  create_as_initiator sk bob_ratchet_pub plaintext associated_data session_id nonce io fs =
      enrol session_id 1 nonce io fs (first_message d sk bob_ratchet_pub plaintext associated_data)

  unfoldable pub create_as_responder :
      Bytes
      → Bytes
      → Bytes
      → Bytes
      → Text
      → Bytes
      → WriteIo
      → FileSystem
      → Result (RatchetSession R × Bytes) × FileSystem
  create_as_responder sk own_ratchet_priv wire_bytes associated_data session_id nonce io fs =
      enrol session_id 0 nonce io fs (open_first d sk own_ratchet_priv wire_bytes associated_data)

  -- `RatchetSession.load`
  unfoldable pub load_session : Text → FileSystem → Result (RatchetSession R)
  load_session session_id fs = do
    state ← load_state c j st session_id fs
    ratchet ← d.from_json (← at "ratchet" state)
    initial ← counter_of (ok state)
    counter ← Counter.create session_id (pos initial)
    msg_index ← stored_index state
    ok (record {
      session_id = session_id;
      msg_index = msg_index;
      ratchet = ratchet;
      counter = counter;
    })
