-- ===== src/Service/Messages.antt =====
-- crypto_service.py: `has_session`, `initiate_session`, `encrypt_message` and `reset_session`.
pub mod Laws
use desperate.Prelude.{
  Bool, true, false, ◌&&◌, ◌||◌, Option, none, some, ◌++◌, take, list_eq, String,
}
use desperate.Prelude.Dict.{Dict, lookup, insert, erase}
use desperate.Prelude.Int.{pos}
use desperate.Outcome.{
  Result, Exception, ok, err, value_error, spk_verification, malformed_bundle, spk_rejected,
  bundle_rejected, key_error,
}
use desperate.Outcome as Outcome
use desperate.Codec.Words.{Bytes}
use desperate.Codec.Hex.{Text, to_hex}
use desperate.Codec.Utf8.{encode}
use desperate.Json.{Json, Fields, end, field, find, at, obj, null, text, bool, hex, as_bytes}
use desperate.Keys.Bundle.{text_or_empty}
use desperate.Keys.Types.{IdentityBundle}
use desperate.Pqxdh.{PqxdhResult, initiate}
use desperate.Pqxdh.Bundles.{InitiationBundle, to_dict}
use desperate.Signatures.{sign_ciphertext, to_bytes}
use desperate.Store.{StateStore}
use desperate.Store.States.{delete_session}
use desperate.Ratchet.Session.{RatchetSession, encrypt}
use desperate.Ratchet.Session.Creation.{create_as_initiator}
use desperate.Service.{
  Packages, Draws, Write, Service, SessionEntry, PendingSession, M, ◌>>=◌, ◌>>◌, lift, look, update,
  on_files, suppress, store_of, require_store, require_bundle, require_session, meta_key, save,
  stored, text_param,
}

-- `conversation_id in d`
abbrev pub is_some : {A : Type 0} → Option A → Bool
is_some none = false
is_some (some a) = true

-- the two ValueErrors of `initiate_session`
abbrev pub reported : Result PqxdhResult → Result PqxdhResult
reported (err spk_verification) = err (value_error spk_rejected)
reported (err malformed_bundle) = err (value_error bundle_rejected)
reported r = r

-- result.bundle.to_dict() if result.bundle else None
abbrev pub bundle_json : Option InitiationBundle → Json
bundle_json none = null
bundle_json (some b) = to_dict b

unfoldable pub set_session : {R : Type 0} → Text → SessionEntry R → Service R → Service R
set_session conversation_id entry s = record s {
  sessions = insert conversation_id entry s.sessions;
}

-- d[k] of the sessions
unfoldable pub entry_of : {R : Type 0} → Option (SessionEntry R) → Result (SessionEntry R)
entry_of none = err key_error
entry_of (some entry) = ok entry

module _ {R : Type 0} (p : Packages R) where
  -- a store, if it is unlocked, with both files of the conversation
  unfoldable pub on_disk : Text → Option StateStore → Service R → Bool
  on_disk conversation_id none s = false
  on_disk conversation_id (some st) s =
      stored p st conversation_id s && stored p st (meta_key conversation_id) s

  unfoldable pub has_session : Fields → M R Fields
  has_session params = do
    conversation_id ← lift (text_param "conversation_id" params)
    exists ← look (λ s. ok (
        is_some (lookup conversation_id s.sessions)
        || (is_some (lookup conversation_id s.pending_sessions)
            || on_disk conversation_id s.store s)))
    lift (ok (field "exists" (bool exists) end))

  -- `store.delete_session(…)`
  unfoldable pub delete : StateStore → Text → M R (Unit {0})
  delete st session_id = on_files (delete_session p.suite.cipher p.json st session_id)

  -- the two deletions under `try`
  unfoldable pub forget_files : Text → M R (Unit {0})
  forget_files conversation_id =
      suppress
        do st ← require_store; delete st conversation_id; delete st (meta_key conversation_id)

  unfoldable pub reset_session : Fields → M R Fields
  reset_session params = do
    conversation_id ← lift (text_param "conversation_id" params)
    update (λ s. record s {
      sessions = erase conversation_id s.sessions;
      pending_sessions = erase conversation_id s.pending_sessions;
    })
    forget_files conversation_id
    lift (ok (field "success" (bool true) end))

  -- a text is parsed as JSON
  unfoldable pub remote_bundle_of : Json → Result Json
  remote_bundle_of (text t) = p.json.loads (encode t)
  remote_bundle_of v = ok v

  unfoldable pub initiate_session : Draws → Fields → M R Fields
  initiate_session draws params = do
    conversation_id ← lift (text_param "conversation_id" params)
    remote_bundle ← lift (Outcome.◌>>=◌ (at "remote_bundle" (obj params)) remote_bundle_of)
    bundle ← require_bundle
    result ← lift (reported (initiate p.suite bundle remote_bundle true draws.ek draws.kem_coins))
    bob_ratchet_pub ← lift (Outcome.◌>>=◌ (at "spk_pub" remote_bundle) as_bytes)
    remote_sig_pub ← lift (Outcome.◌>>=◌ (at "ik_sig_pub" remote_bundle) as_bytes)
    let init_bundle = bundle_json result.bundle
    let pending : PendingSession = record {
      sk = result.sk;
      bob_ratchet_pub = bob_ratchet_pub;
      remote_sig_pub = remote_sig_pub;
      init_bundle = init_bundle;
    }
    update (λ s. record s { pending_sessions = insert conversation_id pending s.pending_sessions })
    lift (ok (field "success" (bool true) (field "initiation_bundle" init_bundle end)))

  -- {"remote_ik_sig_pub": …} in the file beside the session's
  unfoldable pub save_pin : StateStore → Text → Bytes → Write → M R (Unit {0})
  save_pin st conversation_id sig_pub w =
      save p st (meta_key conversation_id) (field "remote_ik_sig_pub" (hex sig_pub) end) w

  -- the first message of a conversation: the wire bytes and the initiation bundle
  unfoldable pub send_first : Draws → Text → Bytes → Bytes → PendingSession → M R (Bytes × Json)
  send_first draws conversation_id plaintext aad pending = do
    update (λ s. record s { pending_sessions = erase conversation_id s.pending_sessions })
    st ← require_store
    let w = draws.writes 0
    (session, wire_bytes) ← on_files (
        create_as_initiator p.ratchet p.suite.cipher p.json st pending.sk pending.bob_ratchet_pub
          plaintext aad conversation_id w.nonce w.io)
    save_pin st conversation_id pending.remote_sig_pub (draws.writes 1)
    let entry : SessionEntry R = record {
      ratchet = session;
      store = st;
      remote_ik_sig_pub = pending.remote_sig_pub;
      init_bundle = null;
    }
    update (set_session conversation_id entry)
    lift (ok (wire_bytes, pending.init_bundle))

  -- `entry.ratchet.encrypt(…)`, which changes the entry's session
  unfoldable pub ratchet_encrypt : Draws → Text → SessionEntry R → Bytes → Bytes → M R Bytes
  ratchet_encrypt draws conversation_id entry plaintext aad s =
      let w = draws.writes 0 in
      let (wire, ratchet, fs) =
        encrypt p.ratchet p.suite.cipher p.json entry.store entry.ratchet plaintext aad w.nonce w.io
          s.files in
      (
        wire,
        set_session conversation_id (record entry { ratchet = ratchet }) (record s { files = fs }),
      )

  unfoldable pub send_next : Draws → Text → Bytes → Bytes → M R (Bytes × Json)
  send_next draws conversation_id plaintext aad = do
    entry ← require_session p conversation_id
    wire_bytes ← ratchet_encrypt draws conversation_id entry plaintext aad
    sent ← look (λ s. entry_of (lookup conversation_id s.sessions))
    update (set_session conversation_id (record sent { init_bundle = null }))
    lift (ok (wire_bytes, entry.init_bundle))

  unfoldable pub send : Draws → Text → Bytes → Bytes → Option PendingSession → M R (Bytes × Json)
  send draws conversation_id plaintext aad (some pending) =
      send_first draws conversation_id plaintext aad pending
  send draws conversation_id plaintext aad none = send_next draws conversation_id plaintext aad

  unfoldable pub encrypt_message : Draws → Fields → M R Fields
  encrypt_message draws params = do
    conversation_id ← lift (text_param "conversation_id" params)
    plaintext_str ← lift (text_param "plaintext" params)
    recipient_username ← lift (text_or_empty (find "recipient_username" params))
    bundle ← require_bundle
    let aad = encode conversation_id
    pending ← look (λ s. ok (lookup conversation_id s.pending_sessions))
    (wire_bytes, init_bundle) ← send draws conversation_id (encode plaintext_str) aad pending
    session_entry ← look (λ s. entry_of (lookup conversation_id s.sessions))
    signed ← lift (
        sign_ciphertext p.suite p.msgpack bundle.ik_sig wire_bytes aad (encode bundle.user_id)
          (encode recipient_username) (pos session_entry.ratchet.msg_index))
    payload ← lift (to_bytes p.suite p.msgpack signed)
    lift (
        ok (
          field "ciphertext" (hex payload) (
            field "nonce" (hex (take 12 wire_bytes)) (
              field "initiation_bundle" init_bundle
                (field "sender_ik_sig_pub" (hex bundle.ik_sig.public_key) end)))))
