-- ===== src/Store/Metadata.antt =====
-- core/state_store.py: the metadata of sessions. A time stamp is a value of a type `Time`, with what
-- json writes for a float, and what `float` makes of a value that json read.
pub mod Laws
use desperate.Prelude.{ℕ, Bool, true, false, not, Option, none, some, list_eq}
use desperate.Prelude.Dict.{lookup}
use desperate.Outcome.{Result, ok, err, file_not_found, reject, ◌>>=◌, ◌>>◌}
use desperate.Codec.Words.{Bytes}
use desperate.Codec.Hex.{Text}
use desperate.Codec.Ascii.{ascii}
use desperate.Crypto.{Cipher}
use desperate.Json.{
  Json, Fields, end, field, find, at, bool, num, text, obj, as_num, as_text, as_fields,
}
use desperate.Pqxdh.Bundles.{opk_id_json, read_opk_id, truth}
use desperate.Store.{StateStore, exists}
use desperate.Store.AtomicWrite.{FileSystem, WriteIo}
use desperate.Store.Paths.{meta_name, meta_path, make_ad, validate_session_id}
use desperate.Store.States.{JsonCodec, encrypt_write, read_decrypt, when_valid}

pub record SessionMetadata (Time : Type 0) : Type 0 where
  pub session_id : Text
  pub remote_user : Text
  pub created_at : Time
  pub last_active : Time
  pub message_count : ℕ
  pub is_initiator : Bool
  pub opk_id_used : Option ℕ

-- `int(d.get("message_count", 0))` of a number
abbrev pub message_count_of : Option Json → Result ℕ
message_count_of none = ok 0
message_count_of (some v) = as_num v

-- `bool(d.get("is_initiator", True))`
abbrev pub is_initiator_of : Option Json → Bool
is_initiator_of none = true
is_initiator_of (some v) = truth v

module _ {Time : Type 0} (number : Time → Json) (float : Json → Result Time) where
  unfoldable pub to_dict : SessionMetadata Time → Json
  to_dict m = obj (
      field "session_id" (text m.session_id) (
        field "remote_user" (text m.remote_user) (
          field "created_at" (number m.created_at) (
            field "last_active" (number m.last_active) (
              field "message_count" (num m.message_count) (
                field "is_initiator" (bool m.is_initiator)
                  (field "opk_id_used" (opk_id_json m.opk_id_used) end)))))))

  unfoldable pub from_dict : Json → Result (SessionMetadata Time)
  from_dict d = do
    session_id ← as_text (← at "session_id" d)
    remote_user ← as_text (← at "remote_user" d)
    created_at ← float (← at "created_at" d)
    last_active ← float (← at "last_active" d)
    fields ← as_fields d
    message_count ← message_count_of (find "message_count" fields)
    opk_id_used ← read_opk_id (find "opk_id_used" fields)
    ok (record {
      session_id = session_id;
      remote_user = remote_user;
      created_at = created_at;
      last_active = last_active;
      message_count = message_count;
      is_initiator = is_initiator_of (find "is_initiator" fields);
      opk_id_used = opk_id_used;
    })

  module _ (c : Cipher) (j : JsonCodec) (st : StateStore) where
    unfoldable pub write_metadata :
        Text → Result Bytes → Bytes → WriteIo → FileSystem → Result (Unit {0}) × FileSystem
    write_metadata session_id (err e) nonce io fs = (err e, fs)
    write_metadata session_id (ok payload) nonce io fs =
        encrypt_write c j st (meta_name session_id) payload (make_ad session_id (ascii "meta"))
          nonce io fs

    unfoldable pub save_metadata :
        Text → SessionMetadata Time → Bytes → WriteIo → FileSystem → Result (Unit {0}) × FileSystem
    unfolding write_metadata
    save_metadata session_id meta nonce io fs =
        when_valid (validate_session_id session_id) fs
          (write_metadata session_id (j.dumps (to_dict meta)) nonce io fs)

    unfoldable pub load_metadata : Text → FileSystem → Result (SessionMetadata Time)
    load_metadata session_id fs = do
      validate_session_id session_id
      let path = meta_path st.base_dir session_id
      reject (not (exists (lookup path fs))) file_not_found
      payload ← read_decrypt c j st path (make_ad session_id (ascii "meta")) fs
      v ← j.loads payload
      from_dict v

    unfoldable pub metadata_exists : Text → FileSystem → Bool
    metadata_exists session_id fs = exists (lookup (meta_path st.base_dir session_id) fs)
