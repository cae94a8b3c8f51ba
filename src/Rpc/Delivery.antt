-- ===== src/Rpc/Delivery.antt =====
-- A first message between two users of main.py, from the initiation to the plaintext.
pub mod Laws
pub mod Prekeys
use desperate.Prelude.{
  ◌≡◌, refl, sym, ◌∙◌, ap, arith, Bool, true, false, ◌&&◌, ◌||◌, not, Option, none, some, [], ◌∷◌,
  length, list_eq, list_beq_iff,
}
use desperate.Prelude.Dict.{lookup, insert, erase, lookup-insert}
use desperate.Outcome.{Result, Exception, ok, err, Result-cases}
use desperate.Effect.{Effect, pass, ◌>>=◌, lift, look, update, attempt}
use desperate.Codec.Words.{Bytes, IsBytes}
use desperate.Codec.Hex.{Text, to_hex, from_hex, from_hex-to_hex}
use desperate.Codec.Utf8.{encode}
use desperate.Kdf.{is_empty}
use desperate.Json.{Json, Fields, end, field, find, text, obj, hex, as_fields}
use desperate.Keys.Types.{IdentityBundle}
use desperate.Pqxdh.{PqxdhResult, initiate, respond}
use desperate.Pqxdh.Bundles.{InitiationBundle, to_dict, from_dict, truth}
use desperate.Service.Keystore.{success}
use desperate.Service.Messages.{is_some}
use desperate.Service.Reception.{or_null}
use desperate.Rpc.{
  RpcPackages, RpcDraws, Rpc, caught, get_text, text_if_true, load_identity, load_from,
}
use desperate.Rpc.Conversations.{
  keep_key, known, dict_of, remote_bundle_of, is_missing, initiate_as, initiate_unless,
  initiate_given, handle_initiate_session, establish,
}
use desperate.Rpc.Messages.{
  pop_pending, key_of, encrypt_with, encrypt_given, handle_encrypt_message, envelope_of,
  decrypt_with, decrypt_known, answer_first, not_established, decrypt_unless, decrypt_after,
  decrypt_given, handle_decrypt_message,
}

-- the parameters of the requests
abbrev pub initiation_params : Text → Fields → Fields
initiation_params c bundle =
    field "conversation_id" (text c) (field "remote_bundle" (obj bundle) end)

abbrev pub message_params : Text → Text → Fields
message_params c plaintext =
    field "conversation_id" (text c) (field "plaintext" (text plaintext) end)

abbrev pub message : Text → Bytes → Bytes → Json → Fields
message c ct nonce initiation = field "ciphertext" (hex ct) (
    field "nonce" (hex nonce)
      (field "conversation_id" (text c) (field "initiation_bundle" initiation end)))

abbrev pub envelope : Fields → Fields
envelope m = field "envelope" (obj m) end

-- A text that is not empty is true.
text_true : (t : Text) → is_empty t ≡ false → text_if_true (some (text t)) ≡ ok t
unfolding text_if_true desperate.Json.as_text truth
text_true [] e = absurd (cc)
text_true (x ∷ t) e = refl

hex_full : (b : Bytes) → is_empty b ≡ false → is_empty (to_hex b) ≡ false
unfolding to_hex
hex_full [] e = absurd (cc)
hex_full (x ∷ b) e = refl

module _ (p : RpcPackages) where
  -- The first initiation of a conversation.
  initiated :
      (draws : RpcDraws) (c : Text) (bundle : Fields) (alice : IdentityBundle) (s : Rpc)
      {r : PqxdhResult} {i : InitiationBundle}
      → is_empty c ≡ false
      → truth (obj bundle) ≡ true
      → load_identity p s ≡ (ok (some alice), s)
      → lookup c s.session_keys ≡ none
      → initiate p.suite alice (obj bundle) true draws.ek draws.kem_coins ≡ ok r
      → r.bundle ≡ some i
      → handle_initiate_session p draws (initiation_params c bundle) s ≡ (
        ok success,
        record s {
          session_keys = insert c r.sk s.session_keys;
          pending_initiation_bundles = insert c (to_dict i) s.pending_initiation_bundles;
        },
      )
  unfolding handle_initiate_session get_text find lift initiate_given initiate_unless initiate_as
      caught attempt keep_key update known look is_missing remote_bundle_of
  initiated draws c bundle alice s {r} {i} named given loaded fresh agreed carried =
      rw (text_true c named, named, given, fresh, loaded, agreed, carried) refl

  -- A message of a conversation with a key.
  encrypted :
      (draws : RpcDraws) (c plaintext : Text) (s : Rpc) {sk ct : Bytes} {v : Json}
      → is_empty c ≡ false
      → is_empty plaintext ≡ false
      → lookup c s.session_keys ≡ some sk
      → lookup c s.pending_initiation_bundles ≡ some v
      → p.suite.cipher.encrypt sk draws.nonce (encode plaintext) (encode c) ≡ ok ct
      → (handle_encrypt_message p draws (message_params c plaintext) s).0
        ≡ ok (message c ct draws.nonce v)
  unfolding handle_encrypt_message get_text find lift encrypt_given encrypt_with caught attempt
      key_of look pop_pending
  encrypted draws c plaintext s named given key pending sealed =
      rw (text_true c named, named, text_true plaintext given, given, key, sealed, pending) refl

  -- What the receiver does with a first message, by the verdict of the handshake.
  answered_first :
      (c : Text) (v : Json) (bob : IdentityBundle) (s : Rpc) {i : InitiationBundle}
      {r : PqxdhResult}
      → from_dict v ≡ ok i
      → respond p.suite bob i [] [] ≡ ok r
      → answer_first p c v (some bob) s
        ≡ (ok none, record s { session_keys = insert c r.sk s.session_keys })
  unfolding answer_first establish attempt lift keep_key update
  answered_first c v bob s read agreed = rw (read, agreed) refl

  refused_first :
      (c : Text) (v : Json) (bob : IdentityBundle) (s : Rpc) {i : InitiationBundle} {x : Exception}
      → from_dict v ≡ ok i
      → respond p.suite bob i [] [] ≡ err x
      → answer_first p c v (some bob) s ≡ (ok (some not_established), s)
  unfolding answer_first establish attempt lift keep_key update
  refused_first c v bob s read refused = rw (read, refused) refl

  -- A first message, up to the answer to its initiation bundle.
  received :
      (c : Text) (ct nonce : Bytes) (initiation : Fields) (bob : IdentityBundle) (s : Rpc)
      → is_empty c ≡ false
      → is_empty ct ≡ false
      → is_empty nonce ≡ false
      → truth (obj initiation) ≡ true
      → load_identity p s ≡ (ok (some bob), s)
      → lookup c s.session_keys ≡ none
      → handle_decrypt_message p (envelope (message c ct nonce (obj initiation))) s
        ≡ (answer_first p c (obj initiation) (some bob)
              >>= decrypt_unless p c (to_hex ct) (to_hex nonce))
            s
  unfolding handle_decrypt_message envelope_of get_text find as_fields lift decrypt_given
      decrypt_after known look is_missing
  received c ct nonce initiation bob s named body_full nonce_full given loaded fresh =
      let full_ct = hex_full ct body_full in
      let full_nonce = hex_full nonce nonce_full in
      rw
        (
          text_true c named,
          named,
          text_true (to_hex ct) full_ct,
          full_ct,
          text_true (to_hex nonce) full_nonce,
          full_nonce,
          fresh,
          given,
          loaded,
        )
        refl

  opened :
      (c : Text) (ct nonce plain sk : Bytes) (s : Rpc)
      → IsBytes ct
      → IsBytes nonce
      → lookup c s.session_keys ≡ some sk
      → p.suite.cipher.decrypt sk nonce ct (encode c) ≡ ok plain
      → (decrypt_known p c (to_hex ct) (to_hex nonce) s).0
        ≡ ok (field "plaintext" (text (p.decode plain)) end)
  unfolding decrypt_known decrypt_with key_of look attempt lift
  opened c ct nonce plain sk s ct_bytes nonce_bytes key back =
      rw (key, from_hex-to_hex ct ct_bytes, from_hex-to_hex nonce nonce_bytes, back) refl
