-- ===== src/Rpc/Messages.antt =====
-- main.py: `handle_encrypt_message` and `handle_decrypt_message`.
use desperate.Prelude.{Bool, true, false, ◌||◌, ◌&&◌, not, Option, none, some, list_eq}
use desperate.Prelude.Dict.{lookup, erase}
use desperate.Outcome.{Result, Exception, ok, invalid_tag}
use desperate.Effect.{Effect, ◌>>=◌, ◌>>◌, lift, look, attempt}
use desperate.Codec.Words.{Bytes}
use desperate.Codec.Hex.{Text, from_hex}
use desperate.Codec.Utf8.{encode}
use desperate.Codec.Ascii.{ascii}
use desperate.Kdf.{is_empty}
use desperate.Json.{Json, Fields, end, field, find, text, hex, as_fields}
use desperate.Keys.Types.{IdentityBundle}
use desperate.Service.Reception.{or_null}
use desperate.Rpc.{
  RpcPackages, RpcDraws, Rpc, Handler, error_reply, caught, get_text, load_identity,
}
use desperate.Rpc.Conversations.{is_missing, known, establish}

-- `_pending_initiation_bundles.pop(conversation_id, None)`
unfoldable pub pop_pending : Text → Effect Rpc Json
pop_pending conversation_id s = (
  ok (or_null (lookup conversation_id s.pending_initiation_bundles)),
  record s { pending_initiation_bundles = erase conversation_id s.pending_initiation_bundles },
)

-- `_session_keys.get(conversation_id)`
unfoldable pub key_of : Text → Effect Rpc (Option Bytes)
key_of conversation_id = look (λ s. ok (lookup conversation_id s.session_keys))

unfoldable pub envelope_of : Option Json → Result Fields
envelope_of none = ok end
envelope_of (some v) = as_fields v

-- the two handlers of a decryption
unfoldable pub decryption_failure : Exception → Fields
decryption_failure invalid_tag =
    error_reply (ascii "Decryption failed: authentication tag mismatch.")
decryption_failure e = error_reply (ascii "Decryption failed.")

abbrev pub not_established : Fields
not_established = error_reply (ascii "Session establishment failed — cannot decrypt.")

module _ (p : RpcPackages) where
  unfoldable pub encrypt_with : RpcDraws → Text → Text → Option Bytes → Handler
  encrypt_with draws conversation_id plaintext none =
      lift
        (ok (error_reply (ascii "NO_SESSION: call initiate_session first for this conversation.")))
  encrypt_with draws conversation_id plaintext (some sk) =
      caught (error_reply (ascii "Encryption failed.")) (do
        let aad = encode conversation_id
        ct ← lift (p.suite.cipher.encrypt sk draws.nonce (encode plaintext) aad)
        initiation_bundle ← pop_pending conversation_id
        lift (
            ok (
              field "ciphertext" (hex ct) (
                field "nonce" (hex draws.nonce) (
                  field "conversation_id" (text conversation_id)
                    (field "initiation_bundle" initiation_bundle end))))))

  unfoldable pub encrypt_given : RpcDraws → Text → Text → Bool → Bool → Handler
  encrypt_given draws conversation_id plaintext true no_text =
      lift (ok (error_reply (ascii "conversation_id required.")))
  encrypt_given draws conversation_id plaintext false true =
      lift (ok (error_reply (ascii "plaintext required.")))
  encrypt_given draws conversation_id plaintext false false = do
    sk ← key_of conversation_id
    encrypt_with draws conversation_id plaintext sk

  unfoldable pub handle_encrypt_message : RpcDraws → Fields → Handler
  handle_encrypt_message draws params = do
    conversation_id ← lift (get_text "conversation_id" params)
    plaintext ← lift (get_text "plaintext" params)
    encrypt_given draws conversation_id plaintext (is_empty conversation_id) (is_empty plaintext)

  unfoldable pub decrypt_with : Text → Text → Text → Option Bytes → Handler
  decrypt_with conversation_id ciphertext_hex nonce_hex none =
      lift (ok (error_reply (ascii "NO_SESSION: no established session for this conversation.")))
  decrypt_with conversation_id ciphertext_hex nonce_hex (some sk) =
      attempt
        (do
          nonce ← lift (from_hex nonce_hex)
          ct ← lift (from_hex ciphertext_hex)
          plaintext ← lift (p.suite.cipher.decrypt sk nonce ct (encode conversation_id))
          lift (ok (field "plaintext" (text (p.decode plaintext)) end)))
        (λ e. lift (ok (decryption_failure e)))

  unfoldable pub decrypt_known : Text → Text → Text → Handler
  decrypt_known conversation_id ciphertext_hex nonce_hex = do
    sk ← key_of conversation_id
    decrypt_with conversation_id ciphertext_hex nonce_hex sk

  -- The answer to a first message, or None if the key is there.
  unfoldable pub answer_first : Text → Json → Option IdentityBundle → Effect Rpc (Option Fields)
  answer_first conversation_id initiation_bundle none =
      lift (ok (some (error_reply (ascii "Keystore not unlocked."))))
  answer_first conversation_id initiation_bundle (some local_bundle) =
      attempt (do establish p conversation_id initiation_bundle local_bundle; lift (ok none))
        (λ e. lift (ok (some not_established)))

  unfoldable pub decrypt_unless : Text → Text → Text → Option Fields → Handler
  decrypt_unless conversation_id ciphertext_hex nonce_hex (some reply) = lift (ok reply)
  decrypt_unless conversation_id ciphertext_hex nonce_hex none =
      decrypt_known conversation_id ciphertext_hex nonce_hex

  unfoldable pub decrypt_after : Text → Text → Text → Json → Bool → Handler
  decrypt_after conversation_id ciphertext_hex nonce_hex initiation_bundle true = do
    local_bundle ← load_identity p
    refused ← answer_first conversation_id initiation_bundle local_bundle
    decrypt_unless conversation_id ciphertext_hex nonce_hex refused
  decrypt_after conversation_id ciphertext_hex nonce_hex initiation_bundle false =
      decrypt_known conversation_id ciphertext_hex nonce_hex

  unfoldable pub decrypt_given : Text → Text → Text → Option Json → Bool → Handler
  decrypt_given conversation_id ciphertext_hex nonce_hex initiation true =
      lift
        (ok (error_reply (ascii "envelope must contain conversation_id, ciphertext, and nonce.")))
  decrypt_given conversation_id ciphertext_hex nonce_hex initiation false = do
    live ← known conversation_id
    decrypt_after conversation_id ciphertext_hex nonce_hex (or_null initiation)
        (not live && not (is_missing initiation))

  unfoldable pub handle_decrypt_message : Fields → Handler
  handle_decrypt_message params = do
    envelope ← lift (envelope_of (find "envelope" params))
    conversation_id ← lift (get_text "conversation_id" envelope)
    ciphertext_hex ← lift (get_text "ciphertext" envelope)
    nonce_hex ← lift (get_text "nonce" envelope)
    decrypt_given conversation_id ciphertext_hex nonce_hex (find "initiation_bundle" envelope)
        (is_empty conversation_id || (is_empty ciphertext_hex || is_empty nonce_hex))
