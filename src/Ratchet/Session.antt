-- ===== src/Ratchet/Session.antt =====
-- `RatchetSession` of core/dh_ratchet/session.py: sending, receiving and persisting. The
-- doubleratchet package is an interface over its own state `R`; a call of it that raises may change
-- that state.
pub mod Creation
pub mod Laws
use desperate.Prelude.{ℕ, ◌+◌, ◌++◌}
use desperate.Outcome.{Result, ok, err, ◌>>=◌}
use desperate.Codec.Words.{Bytes, pack_u32}
use desperate.Codec.Hex.{Text}
use desperate.Crypto.{Cipher}
use desperate.Counter.{HeaderCounter}
use desperate.Json.{Json, num, Fields, end, field}
use desperate.Store.{StateStore}
use desperate.Store.AtomicWrite.{FileSystem, WriteIo}
use desperate.Store.States.{JsonCodec, save_state}
use desperate.Ratchet.{EncryptedMessage, build_wire, parse_wire}

pub record DoubleRatchet (R : Type 0) : Type 0 where
  pub encrypt_message : R → Bytes → Bytes → Result EncryptedMessage × R
  pub decrypt_message : R → EncryptedMessage → Bytes → Result Bytes × R
  pub json : R → Json
  pub from_json : Json → Result R
  -- shared secret, the recipient's ratchet key, plaintext, associated data
  pub encrypt_initial_message : Bytes → Bytes → Bytes → Bytes → Result (R × EncryptedMessage)
  -- shared secret, own ratchet key, message, associated data
  pub decrypt_initial_message : Bytes → Bytes → EncryptedMessage → Bytes → Result (R × Bytes)

pub record RatchetSession (R : Type 0) : Type 0 where
  pub session_id : Text
  pub msg_index : ℕ
  pub ratchet : R
  pub counter : HeaderCounter

-- the wire message, with the packed index, as `decrypt` reads it
unfoldable pub read_wire : Bytes → Result (Bytes × EncryptedMessage)
read_wire wire = do
  (msg_index, m) ← parse_wire wire
  index_bytes ← pack_u32 msg_index
  ok (index_bytes, m)

module _ {R : Type 0} (d : DoubleRatchet R) (c : Cipher) (j : JsonCodec) (st : StateStore) where
  -- the state that `_persist` writes, with the index it is given
  unfoldable pub session_state : RatchetSession R → ℕ → Fields
  session_state s index =
      field "ratchet" (d.json s.ratchet)
        (field "header_counter" (num s.counter.counter) (field "msg_index" (num index) end))

  unfoldable pub persist :
      RatchetSession R → ℕ → Bytes → WriteIo → FileSystem → Result (Unit {0}) × FileSystem
  persist s index nonce io fs = save_state c j st s.session_id (session_state s index) nonce io fs

  -- the end of `encrypt`, by what `_persist` did: the index is committed only if it returned
  unfoldable pub acknowledge :
      RatchetSession R
      → ℕ
      → Bytes
      → Result (Unit {0}) × FileSystem
      → Result Bytes × RatchetSession R × FileSystem
  acknowledge s next_index wire (err e, fs) = (err e, s, fs)
  acknowledge s next_index wire (ok tt, fs) = (ok wire, record s { msg_index = next_index }, fs)

  unfoldable pub commit :
      RatchetSession R
      → ℕ
      → Bytes
      → WriteIo
      → FileSystem
      → Result Bytes
      → Result Bytes × RatchetSession R × FileSystem
  commit s next_index nonce io fs (err e) = (err e, s, fs)
  commit s next_index nonce io fs (ok wire) =
      acknowledge s next_index wire (persist s next_index nonce io fs)

  -- `encrypt` with the packed index
  unfoldable pub encrypt_indexed :
      RatchetSession R
      → Bytes
      → Bytes
      → Bytes
      → WriteIo
      → FileSystem
      → Result Bytes
      → Result Bytes × RatchetSession R × FileSystem
  encrypt_indexed s plaintext ad nonce io fs (err e) = (err e, s, fs)
  encrypt_indexed s plaintext ad nonce io fs (ok index_bytes) =
      let next_index = s.msg_index + 1 in
      let (encrypted, ratchet) = d.encrypt_message s.ratchet plaintext (index_bytes ++ ad) in
      commit (record s { ratchet = ratchet }) next_index nonce io fs
        (encrypted >>= λ m. build_wire next_index m)

  unfoldable pub encrypt :
      RatchetSession R
      → Bytes
      → Bytes
      → Bytes
      → WriteIo
      → FileSystem
      → Result Bytes × RatchetSession R × FileSystem
  encrypt s plaintext ad nonce io fs =
      encrypt_indexed s plaintext ad nonce io fs (pack_u32 (s.msg_index + 1))

  -- the end of `decrypt`, by what the package returned: the state is persisted, then the text given
  unfoldable pub deliver :
      RatchetSession R
      → Bytes
      → WriteIo
      → FileSystem
      → Result Bytes
      → Result Bytes × RatchetSession R × FileSystem
  deliver s nonce io fs (err e) = (err e, s, fs)
  deliver s nonce io fs (ok plaintext) =
      let (persisted, fs') = persist s s.msg_index nonce io fs in
      ((persisted >>= λ _. ok plaintext), s, fs')

  unfoldable pub decrypt_read :
      RatchetSession R
      → Bytes
      → Bytes
      → WriteIo
      → FileSystem
      → Result (Bytes × EncryptedMessage)
      → Result Bytes × RatchetSession R × FileSystem
  decrypt_read s ad nonce io fs (err e) = (err e, s, fs)
  decrypt_read s ad nonce io fs (ok (index_bytes, m)) =
      let (plaintext, ratchet) = d.decrypt_message s.ratchet m (index_bytes ++ ad) in
      deliver (record s { ratchet = ratchet }) nonce io fs plaintext

  unfoldable pub decrypt :
      RatchetSession R
      → Bytes
      → Bytes
      → Bytes
      → WriteIo
      → FileSystem
      → Result Bytes × RatchetSession R × FileSystem
  decrypt s wire ad nonce io fs = decrypt_read s ad nonce io fs (read_wire wire)
