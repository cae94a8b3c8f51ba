-- ===== src/Store/States.antt =====
-- core/state_store.py: the sessions' states, and the counters kept in them. `json` is an interface;
-- a state that is not an object, on which `get` has no meaning, is a type error. The nonce that
-- `os.urandom` draws for a file is an argument.
pub mod Writes
pub mod Blobs
pub mod Laws
use desperate.Prelude.{
  ℕ, ◌≡◌, Bool, true, false, not, none, some, ◌++◌, take, drop, length, ltb, if◌then◌else◌, list_eq,
}
use desperate.Prelude.Dict.{lookup, erase}
use desperate.Outcome.{Result, ok, err, value_error, too_short, file_not_found, reject, ◌>>=◌, ◌>>◌}
use desperate.Codec.Words.{Bytes}
use desperate.Codec.Hex.{Text}
use desperate.Codec.Ascii.{ascii}
use desperate.Constants.{nonce_len, min_ct_len}
use desperate.Crypto.{Cipher}
use desperate.Json.{Json, num, obj, Fields, end, find, put, as_num, as_fields}
use desperate.Store.{StateStore, exists, read_file}
use desperate.Store.AtomicWrite.{FileSystem, WriteIo, atomic_write}
use desperate.Store.Paths.{
  session_dir, state_name, state_path, meta_path, make_ad, validate_session_id,
}

-- `json.dumps(…).encode()` and `json.loads(….decode())`. Either may raise.
pub record JsonCodec : Type 0 where
  pub dumps : Json → Result Bytes
  pub loads : Bytes → Result Json

pub record JsonCodecLaws (j : JsonCodec) : Type 0 where
  pub loads-dumps : (v : Json) {b : Bytes} → j.dumps v ≡ ok b → j.loads b ≡ ok v

unfoldable pub write_blob :
    Text → Text → Bytes → Result Bytes → WriteIo → FileSystem → Result (Unit {0}) × FileSystem
write_blob dir name nonce (err e) io fs = (err e, fs)
write_blob dir name nonce (ok ciphertext) io fs = atomic_write dir name (nonce ++ ciphertext) io fs

-- the rest of a method, once its session id is known to be good
abbrev pub when_valid :
    Result (Unit {0}) → FileSystem → Result (Unit {0}) × FileSystem → Result (Unit {0}) × FileSystem
when_valid (err e) fs after = (err e, fs)
when_valid (ok tt) fs after = after

-- `int(state.get("header_counter", 0))` of a number
unfoldable pub counter_of : Result Json → Result ℕ
counter_of state = do
  v ← state
  fields ← as_fields v
  elim (find "header_counter" fields) [ none ↦ ok 0 | some n ↦ as_num n ]

module _ (c : Cipher) (j : JsonCodec) (st : StateStore) where
  unfoldable pub encrypt_write :
      Text → Bytes → Bytes → Bytes → WriteIo → FileSystem → Result (Unit {0}) × FileSystem
  unfolding write_blob
  encrypt_write name plaintext ad nonce io fs =
      write_blob (session_dir st.base_dir) name nonce (c.encrypt st.enc_key nonce plaintext ad) io
        fs

  unfoldable pub read_decrypt : Text → Bytes → FileSystem → Result Bytes
  read_decrypt path ad fs = do
    blob ← read_file (lookup path fs)
    reject (ltb (length blob) min_ct_len) (value_error too_short)
    let nonce = take nonce_len blob
    let ciphertext = drop nonce_len blob
    c.decrypt st.enc_key nonce ciphertext ad

  unfoldable pub write_payload :
      Text → Result Bytes → Bytes → WriteIo → FileSystem → Result (Unit {0}) × FileSystem
  write_payload session_id (err e) nonce io fs = (err e, fs)
  write_payload session_id (ok payload) nonce io fs =
      encrypt_write (state_name session_id) payload (make_ad session_id (ascii "state")) nonce io fs

  unfoldable pub save_state :
      Text → Fields → Bytes → WriteIo → FileSystem → Result (Unit {0}) × FileSystem
  unfolding write_payload
  save_state session_id state nonce io fs =
      when_valid (validate_session_id session_id) fs
        (write_payload session_id (j.dumps (obj state)) nonce io fs)

  unfoldable pub load_state : Text → FileSystem → Result Json
  load_state session_id fs = do
    validate_session_id session_id
    let path = state_path st.base_dir session_id
    reject (not (exists (lookup path fs))) file_not_found
    payload ← read_decrypt path (make_ad session_id (ascii "state")) fs
    j.loads payload

  unfoldable pub state_exists : Text → FileSystem → Bool
  state_exists session_id fs = exists (lookup (state_path st.base_dir session_id) fs)

  unfoldable pub delete_session : Text → FileSystem → Result (Unit {0}) × FileSystem
  delete_session session_id fs = when_valid (validate_session_id session_id) fs (
    ok tt,
    erase (meta_path st.base_dir session_id) (erase (state_path st.base_dir session_id) fs),
  )

  -- the fields that `save_counter` starts from
  unfoldable pub existing_state : Text → FileSystem → Result Fields
  existing_state session_id fs =
      if state_exists session_id fs then (load_state session_id fs >>= as_fields) else ok end

  unfoldable pub save_merged :
      Text → ℕ → Bytes → WriteIo → FileSystem → Result Fields → Result (Unit {0}) × FileSystem
  save_merged session_id counter_value nonce io fs (ok state) =
      save_state session_id (put "header_counter" (num counter_value) state) nonce io fs
  save_merged session_id counter_value nonce io fs (err e) = (err e, fs)

  unfoldable pub save_counter :
      Text → ℕ → Bytes → WriteIo → FileSystem → Result (Unit {0}) × FileSystem
  unfolding save_merged
  save_counter session_id counter_value nonce io fs =
      save_merged session_id counter_value nonce io fs
        (validate_session_id session_id >> existing_state session_id fs)

  unfoldable pub load_counter : Text → FileSystem → Result ℕ
  load_counter session_id fs =
      validate_session_id session_id
      >> (if state_exists session_id fs then counter_of (load_state session_id fs) else ok 0)
