-- ===== src/Service/Reception.antt =====
-- crypto_service.py: `decrypt_message`, for a conversation's first message and for the later ones.
pub mod Laws
use desperate.Prelude.{
  Bool, true, false, ◌||◌, not, ℕ, if◌then◌else◌, Option, none, some, ◌++◌, ◌==◌, list_eq, String,
  ltb, length,
}
use desperate.Prelude.Dict.{Dict, lookup, insert, erase}
use desperate.Outcome.{
  Result, Exception, ok, err, value_error, key_error, type_error, file_not_found, invalid_tag,
  signature_verification, no_initiation, no_sender_key, identity_key_changed, message_rejected,
  json_decode_error, too_short, bad_version,
}
use desperate.Outcome as Outcome
use desperate.Codec.Words.{Bytes}
use desperate.Codec.Hex.{Text, from_hex}
use desperate.Codec.Utf8.{encode}
use desperate.Json.{Json, Fields, end, field, find, null, text}
use desperate.Kdf.{is_empty}
use desperate.Keys.Bundle.{text_or_empty}
use desperate.Keys.Types.{IdentityBundle}
use desperate.Pqxdh.{PqxdhResult, respond}
use desperate.Pqxdh.Bundles.{InitiationBundle, from_dict, truth}
use desperate.Ratchet.{wire_header_len}
use desperate.Ratchet.Session.{RatchetSession, decrypt}
use desperate.Ratchet.Session.Creation.{create_as_responder}
use desperate.Signatures.{Value, bin, str, SignedCiphertext, verify_and_extract}
use desperate.Store.{StateStore}
use desperate.Service.{
  Packages, Draws, Service, SessionEntry, M, ◌>>=◌, ◌>>◌, pass, lift, look, update, on_files,
  require_store, require_bundle, require_session, load_opk_secrets, consume_opk, text_param,
}
use desperate.Service.Messages.{set_session, entry_of, forget_files, save_pin, is_some}

-- `except SignatureVerificationError as exc: raise ValueError`
abbrev pub or_rejected : Result SignedCiphertext → Result SignedCiphertext
or_rejected (err signature_verification) = err (value_error message_rejected)
or_rejected r = r

-- A ciphertext that is no byte string fails in the ratchet session's reading of the wire form.
unfoldable pub wire_of : Value → Result Bytes
wire_of (bin b) = ok b
wire_of (str t) =
    err (value_error (if ltb (length t) wire_header_len then too_short else bad_version))
wire_of v = err type_error

-- d.get("initiation_bundle")
abbrev pub or_null : Option Json → Json
or_null none = null
or_null (some v) = v

-- bytes.fromhex(h) if h else b"", which may not be empty
unfoldable pub sender_key : Text → Result Bytes
sender_key sender_ik_sig_pub_hex =
    Outcome.◌>>=◌ (from_hex sender_ik_sig_pub_hex)
      (λ b. Outcome.◌>>◌ (Outcome.reject (is_empty b) (value_error no_sender_key)) (ok b))

-- The comparison with the key of the session that was there before, if one was.
unfoldable pub check_identity : Option Bytes → Bytes → Result (Unit {0})
check_identity none remote_sig_pub = ok tt
check_identity (some pinned) remote_sig_pub =
    Outcome.reject (not (remote_sig_pub == pinned)) (value_error identity_key_changed)

-- `except (ValueError, FileNotFoundError, KeyError, InvalidTag): pass`; JSONDecodeError is a
-- ValueError
abbrev pub tolerated : Exception → Bool
tolerated (value_error c) = true
tolerated file_not_found = true
tolerated key_error = true
tolerated invalid_tag = true
tolerated json_decode_error = true
tolerated e = false

abbrev pub forgiven : {F A : Type 0} → Result A × F → Result (Unit {0}) × F
forgiven (ok a, s) = (ok tt, s)
forgiven (err e, s) = if tolerated e then (ok tt, s) else (err e, s)

module _ {R : Type 0} (p : Packages R) where
  -- the key that was pinned, once the old session is dropped
  unfoldable pub drop_old : Text → Bool → Option (SessionEntry R) → M R (Option Bytes)
  drop_old conversation_id true (some entry) = do
    update (λ s. record s { sessions = erase conversation_id s.sessions })
    forget_files p conversation_id
    lift (ok (some entry.remote_ik_sig_pub))
  drop_old conversation_id initiated known = lift (ok none)

  -- the recovery from disk, for a message with no initiation bundle
  unfoldable pub recover : Text → Bool → M R (Unit {0})
  recover conversation_id true s = (ok tt, s)
  recover conversation_id false s = forgiven (require_session p conversation_id s)

  -- `_consume_opk`, if a one-time prekey was used; the arguments are the initiation's two fields
  unfoldable pub consume_used : Draws → IdentityBundle → Option ℕ → Bool → M R (Unit {0})
  consume_used draws bundle (some opk_id) false = do
    st ← require_store
    consume_opk p st bundle opk_id (draws.writes 0)
  consume_used draws bundle opk_id used_identity_kem = lift (ok tt)

  unfoldable pub accept_first :
      Draws → Text → Bytes → Text → Json → Option Bytes → IdentityBundle → M R Fields
  accept_first draws conversation_id payload sender_hex initiation pinned bundle = do
    init ← lift (from_dict initiation)
    let (x25519_opks, kem_opks) = load_opk_secrets bundle
    result ← lift (respond p.suite bundle init x25519_opks kem_opks)
    consume_used draws bundle init.opk_id init.used_identity_kem
    remote_sig_pub ← lift (sender_key sender_hex)
    lift (check_identity pinned remote_sig_pub)
    let aad = encode conversation_id
    signed_initial ← lift (
        or_rejected
          (verify_and_extract p.suite p.msgpack payload aad remote_sig_pub (some remote_sig_pub)))
    wire_bytes ← lift (wire_of signed_initial.ciphertext)
    st ← require_store
    let w = draws.writes 1
    (session, first_plaintext) ← on_files (
        create_as_responder p.ratchet p.suite.cipher p.json st result.sk bundle.spk.keypair.private
          wire_bytes aad conversation_id w.nonce w.io)
    save_pin p st conversation_id remote_sig_pub (draws.writes 2)
    let entry : SessionEntry R = record {
      ratchet = session;
      store = st;
      remote_ik_sig_pub = remote_sig_pub;
      init_bundle = null;
    }
    update (set_session conversation_id entry)
    lift (ok (field "plaintext" (text (p.decode first_plaintext)) end))

  -- The key to verify with: the pinned one; an entry without one pins the sender's. The tests are
  -- whether the entry's key and the sender's text are empty.
  unfoldable pub pin_sender : Draws → Text → Text → SessionEntry R → Bool → Bool → M R Bytes
  pin_sender draws conversation_id sender_hex entry false no_text =
      lift (ok entry.remote_ik_sig_pub)
  pin_sender draws conversation_id sender_hex entry true true =
      lift (err (value_error no_sender_key))
  pin_sender draws conversation_id sender_hex entry true false = do
    sig_pub ← lift (from_hex sender_hex)
    update (set_session conversation_id (record entry { remote_ik_sig_pub = sig_pub }))
    st ← require_store
    save_pin p st conversation_id sig_pub (draws.writes 0)
    lift (ok sig_pub)

  -- `entry.ratchet.decrypt(…)`, which changes the entry's session
  unfoldable pub ratchet_decrypt : Draws → Text → SessionEntry R → Bytes → Bytes → M R Bytes
  ratchet_decrypt draws conversation_id entry wire aad s =
      let w = draws.writes 1 in
      let (plaintext, ratchet, fs) =
        decrypt p.ratchet p.suite.cipher p.json entry.store entry.ratchet wire aad w.nonce w.io
          s.files in
      (
        plaintext,
        set_session conversation_id (record entry { ratchet = ratchet }) (record s { files = fs }),
      )

  unfoldable pub receive_next : Draws → Text → Bytes → Text → SessionEntry R → M R Fields
  receive_next draws conversation_id payload sender_hex entry = do
    sig_pub ←
        pin_sender draws conversation_id sender_hex entry (is_empty entry.remote_ik_sig_pub)
          (is_empty sender_hex)
    let aad = encode conversation_id
    signed ←
        lift (or_rejected (verify_and_extract p.suite p.msgpack payload aad sig_pub (some sig_pub)))
    wire_bytes ← lift (wire_of signed.ciphertext)
    plaintext ←
        ratchet_decrypt draws conversation_id (record entry { remote_ik_sig_pub = sig_pub })
          wire_bytes aad
    lift (ok (field "plaintext" (text (p.decode plaintext)) end))

  -- by what is known of the conversation after the recovery
  unfoldable pub receive :
      Draws
      → Text
      → Bytes
      → Text
      → Json
      → Option Bytes
      → IdentityBundle
      → Option (SessionEntry R)
      → M R Fields
  receive draws conversation_id payload sender_hex initiation pinned bundle (some entry) =
      receive_next draws conversation_id payload sender_hex entry
  receive draws conversation_id payload sender_hex initiation pinned bundle none = do
    lift (Outcome.reject (not (truth initiation)) (value_error no_initiation))
    accept_first draws conversation_id payload sender_hex initiation pinned bundle

  unfoldable pub decrypt_message : Draws → Fields → M R Fields
  decrypt_message draws params = do
    conversation_id ← lift (text_param "conversation_id" params)
    ciphertext_hex ← lift (text_param "ciphertext" params)
    let initiation = or_null (find "initiation_bundle" params)
    sender_hex ← lift (text_or_empty (find "sender_ik_sig_pub" params))
    bundle ← require_bundle
    st ← require_store
    payload ← lift (from_hex ciphertext_hex)
    known ← look (λ s. ok (lookup conversation_id s.sessions))
    pinned ← drop_old conversation_id (truth initiation) known
    left ← look (λ s. ok (lookup conversation_id s.sessions))
    recover conversation_id (truth initiation || is_some left)
    entry ← look (λ s. ok (lookup conversation_id s.sessions))
    receive draws conversation_id payload sender_hex initiation pinned bundle entry
