-- ===== src/Rpc/Delivery/Laws.antt =====
-- main.py: a first message is read by its receiver, unless the receiver's bundle has one-time prekeys.
use desperate.Prelude.{
  ℕ, ◌+◌, ◌≡◌, refl, arith, true, false, none, some, [], ◌∷◌, length, list_eq, list_beq_iff,
}
use desperate.Prelude.Dict.{Dict, lookup, insert, lookup-insert}
use desperate.Outcome.{ok}
use desperate.Codec.Words.{Bytes, IsBytes}
use desperate.Codec.Hex.{Text}
use desperate.Codec.Utf8.{encode}
use desperate.Suite.{Suite, SuiteLaws}
use desperate.Kdf.{is_empty}
use desperate.Json.{Fields, end, field, text, obj}
use desperate.Keys.Types.{IdentityBundle}
use desperate.Keys.Bundle.{public_fields, to_public_bundle}
use desperate.Keys.Opks.Laws.{assert_opk_lists_valid-IsPaired, IsPaired}
use desperate.Pqxdh.{PqxdhResult, initiate, respond}
use desperate.Pqxdh.Bundles.{
  InitiationBundle, IsBytesInitiation, initiation_fields, to_dict, from_dict-to_dict, truth,
}
use desperate.Pqxdh.Agreement.{IsHonest, IsPublishable, handshake_agreement}
use desperate.Service.Keystore.{success}
use desperate.Rpc.{RpcPackages, RpcDraws, Rpc, load_identity}
use desperate.Rpc.Conversations.{handle_initiate_session}
use desperate.Rpc.Messages.{handle_encrypt_message, handle_decrypt_message, decrypt_unless}
use desperate.Rpc.Delivery.{
  initiation_params, message_params, message, envelope, initiated, encrypted, answered_first,
  received, opened,
}

not_empty : (b : Bytes) (n : ℕ) → length b ≡ n + 16 → is_empty b ≡ false
not_empty [] n e = absurd (omega arith)
not_empty (x ∷ b) n e = refl

published :
    (s : Suite) (b : IdentityBundle)
    → IsPaired b.x25519_opks b.kem_opks
    → to_public_bundle s b ≡ ok (obj (public_fields s b))
unfolding to_public_bundle
published s b paired = rw ((assert_opk_lists_valid-IsPaired b.x25519_opks b.kem_opks).0 paired)

pub looked_up {ℓ} :
    {V : Type ℓ} (c : Text) (k : V) (d : Dict Text V) → lookup c (insert c k d) ≡ some k
looked_up c k d = ground (arith, lookup-insert c c k d, list_beq_iff c c)

module _ (p : RpcPackages) (laws : SuiteLaws p.suite) where
  -- Between two users of the server, neither of whom has a key for the conversation: where the
  -- receiver's bundle is honest and publishable and has no one-time prekeys, both identities
  -- load, keys, ids, plaintext and nonce are of their sizes and not empty, the initiation
  -- succeeds and every string of it is bytes, the message is encrypted, and the packages return
  -- bytes and decode what was encoded, the three requests succeed, and the last gives the
  -- plaintext.
  pub first_message_delivered :
      (d₁ d₂ : RpcDraws) (c plaintext : Text) (alice bob : IdentityBundle) (a b : Rpc)
      {r : PqxdhResult} {i : InitiationBundle} {ct : Bytes}
      → IsHonest p.suite laws bob [] []
      → IsPublishable p.suite laws bob
      → length alice.ik_classical.private ≡ 32
      → length d₁.ek.private ≡ 32
      → load_identity p a ≡ (ok (some alice), a)
      → load_identity p b ≡ (ok (some bob), b)
      → lookup c a.session_keys ≡ none
      → lookup c b.session_keys ≡ none
      → is_empty c ≡ false
      → is_empty plaintext ≡ false
      → initiate p.suite alice (obj (public_fields p.suite bob)) true d₁.ek d₁.kem_coins ≡ ok r
      → r.bundle ≡ some i
      → IsBytesInitiation i
      → p.suite.cipher.encrypt r.sk d₂.nonce (encode plaintext) (encode c) ≡ ok ct
      → IsBytes ct
      → IsBytes d₂.nonce
      → is_empty d₂.nonce ≡ false
      → p.decode (encode plaintext) ≡ plaintext
      → let start =
          handle_initiate_session p d₁ (initiation_params c (public_fields p.suite bob)) a in
        let sent = handle_encrypt_message p d₂ (message_params c plaintext) start.1 in
        (m : Fields) × (start.0 ≡ ok success)
        × (sent.0 ≡ ok m)
        × ((handle_decrypt_message p (envelope m) b).0
            ≡ ok (field "plaintext" (text plaintext) end))
  unfolding public_fields to_dict truth decrypt_unless
  first_message_delivered d₁ d₂ c plaintext alice bob a b {r} {i} {ct} honest public ha he la lb fa
        fb named given agreed carried bytes sealed ct_bytes nonce_bytes nonce_full decoded =
      let agreed_too : respond p.suite bob i [] [] ≡ ok (record { sk = r.sk; bundle = none }) =
        handshake_agreement p.suite laws alice bob [] [] true d₁.ek.private d₁.kem_coins ha he
          honest public (published p.suite bob honest.paired) agreed carried in
      let ct_full = not_empty ct _ (laws.cipher.encrypt_length _ _ _ _ sealed) in
      let a' : Rpc = record a {
        session_keys = insert c r.sk a.session_keys;
        pending_initiation_bundles = insert c (to_dict i) a.pending_initiation_bundles;
      } in
      let b' : Rpc = record b { session_keys = insert c r.sk b.session_keys } in
      let first =
        initiated p d₁ c (public_fields p.suite bob) alice a named refl la fa agreed carried in
      (
        message c ct d₂.nonce (to_dict i),
        rw first refl,
        rw first (
            encrypted p d₂ c plaintext a' named given (looked_up c r.sk a.session_keys)
              (looked_up c (to_dict i) a.pending_initiation_bundles) sealed),
        rw
            (
              received p c ct d₂.nonce (initiation_fields i) bob b named ct_full nonce_full refl lb
                  fb,
              answered_first p c (to_dict i) bob b (from_dict-to_dict i bytes) agreed_too,
              opened p c ct d₂.nonce (encode plaintext) r.sk b' ct_bytes nonce_bytes
                  (looked_up c r.sk b.session_keys) (laws.cipher.decrypt-encrypt _ _ _ _ sealed),
              decoded,
            )
            refl,
      )
