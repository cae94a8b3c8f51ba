-- ===== src/Rpc/Delivery/Prekeys.antt =====
-- main.py: a first message to a user whose bundle has one-time prekeys.
use desperate.Prelude.{
  ℕ, ◌≡◌, refl, ap, arith, true, false, Option, none, some, inl, inr, List, [], ◌∷◌, map, list_eq,
  nat_eq,
}
use desperate.Prelude.Dict.{lookup}
use desperate.Outcome.{Exception, ok, err, Result-cases}
use desperate.Codec.Words.{Bytes, IsBytes}
use desperate.Codec.Hex.{Text}
use desperate.Suite.{Suite, SuiteLaws}
use desperate.Kdf.{is_empty}
use desperate.Json.{Json, obj}
use desperate.Keys.Types.{IdentityBundle, X25519Keypair, X25519OneTimePrekey, dh}
use desperate.Keys.Bundle.{public_fields, public_x25519_opk}
use desperate.Keys.Opks.Laws.{IsPaired}
use desperate.Pqxdh.{PqxdhResult, initiate, agree, respond, opk_leg, own_opk_leg, secret_of}
use desperate.Pqxdh.Bundles.{
  InitiationBundle, RemoteBundle, IsBytesInitiation, initiation_fields, to_dict, from_dict-to_dict,
  truth,
}
use desperate.Pqxdh.Legs.{opk_leg_first}
use desperate.Pqxdh.Agreement.{IsPublishable, remote_of, parse_bundle-public_fields}
use desperate.Rpc.{RpcPackages, Rpc, load_identity}
use desperate.Rpc.Messages.{handle_decrypt_message, not_established, decrypt_unless}
use desperate.Rpc.Delivery.{message, envelope, refused_first, received}

module _ (s : Suite) (laws : SuiteLaws s) where
  leg_id :
      (ek : X25519Keypair) (o : X25519OneTimePrekey) (l : List Json) {id : Option ℕ} {dh4 : Bytes}
      → IsBytes o.public_key
      → opk_leg s ek (public_x25519_opk o ∷ l) ≡ ok (id, dh4)
      → id ≡ some o.opk_id
  leg_id ek o l bytes e = elim (Result-cases (dh s ek o.public_key)) [
    | inl (d, q) ↦ ground (arith, opk_leg_first s laws ek o l bytes)
    | inr (x, q) ↦ absurd (ground (arith, opk_leg_first s laws ek o l bytes))
  ]

  -- An initiation bundle that names a one-time prekey is refused by a store without prekeys.
  respond_refused :
      (b : IdentityBundle) (i : InitiationBundle) {n : ℕ}
      → i.opk_id ≡ some n
      → (x : Exception) × (respond s b i [] [] ≡ err x)
  unfolding respond own_opk_leg secret_of lookup
  respond_refused b i named = elim (Result-cases (respond s b i [] [])) [
    | inl (r, q) ↦ absurd (ground arith)
    | inr (x, q) ↦ (x, q)
  ]

  agree_id :
      (alice : IdentityBundle) (r : RemoteBundle) (ek : X25519Keypair) (coins : Bytes)
      (o : X25519OneTimePrekey) (l : List Json) {res : PqxdhResult} {i : InitiationBundle}
      → r.opks_x25519 ≡ public_x25519_opk o ∷ l
      → IsBytes o.public_key
      → agree s alice r true ek coins ≡ ok res
      → res.bundle ≡ some i
      → i.opk_id ≡ some o.opk_id
  unfolding agree
  agree_id alice r ek coins o l listed bytes e carried =
      elim (Result-cases (opk_leg s ek (public_x25519_opk o ∷ l))) [
        | inl ((id, dh4), q) ↦ let named = leg_id ek o l bytes q in ground arith
        | inr (x, q) ↦ absurd (ground arith)
      ]

  -- An initiation with a bundle that lists one-time prekeys names the first of them.
  initiate_id :
      (alice bob : IdentityBundle) (ek : X25519Keypair) (coins : Bytes) (o : X25519OneTimePrekey)
      (os : List X25519OneTimePrekey) {r : PqxdhResult} {i : InitiationBundle}
      → IsPublishable s laws bob
      → IsPaired bob.x25519_opks bob.kem_opks
      → bob.x25519_opks ≡ o ∷ os
      → IsBytes o.public_key
      → initiate s alice (obj (public_fields s bob)) true ek coins ≡ ok r
      → r.bundle ≡ some i
      → i.opk_id ≡ some o.opk_id
  unfolding initiate
  initiate_id alice bob ek coins o os {r} public paired listed bytes e carried =
      let parsed = parse_bundle-public_fields s laws bob public paired in
      let seen : (remote_of s laws bob).opks_x25519
          ≡ public_x25519_opk o ∷ map public_x25519_opk os =
        ap (map public_x25519_opk) listed in
      agree_id alice (remote_of s laws bob) ek coins o (map public_x25519_opk os) {res = r} seen
        bytes (ground (arith, parsed)) carried

-- If the receiver's bundle is publishable, its prekeys are paired and it lists a one-time prekey
-- of bytes, and the sender's initiation with it succeeds with a bundle of bytes, then whatever
-- message follows with that initiation bundle, its parts not empty: the receiver, whose identity
-- loads and who has no key for the conversation, answers that the session could not be
-- established, and its state is unchanged.
pub prekeys_undelivered :
    (p : RpcPackages) (laws : SuiteLaws p.suite) (alice bob : IdentityBundle) (ek : X25519Keypair)
    (coins : Bytes) (o : X25519OneTimePrekey) (os : List X25519OneTimePrekey) {r : PqxdhResult}
    {i : InitiationBundle} (c : Text) (ct nonce : Bytes) (b : Rpc)
    → IsPublishable p.suite laws bob
    → IsPaired bob.x25519_opks bob.kem_opks
    → bob.x25519_opks ≡ o ∷ os
    → IsBytes o.public_key
    → initiate p.suite alice (obj (public_fields p.suite bob)) true ek coins ≡ ok r
    → r.bundle ≡ some i
    → IsBytesInitiation i
    → load_identity p b ≡ (ok (some bob), b)
    → lookup c b.session_keys ≡ none
    → is_empty c ≡ false
    → is_empty ct ≡ false
    → is_empty nonce ≡ false
    → handle_decrypt_message p (envelope (message c ct nonce (to_dict i))) b
      ≡ (ok not_established, b)
unfolding to_dict truth decrypt_unless desperate.Effect.lift
prekeys_undelivered p laws alice bob ek coins o os {i} c ct nonce b public paired listed bytes
      agreed carried whole loaded fresh named ct_full nonce_full =
    let id =
      initiate_id p.suite laws alice bob ek coins o os public paired listed bytes agreed carried in
    let (x, refused) = respond_refused p.suite laws bob i id in
    rw
      (
        received p c ct nonce (initiation_fields i) bob b named ct_full nonce_full refl loaded
            fresh,
        refused_first p c (to_dict i) bob b (from_dict-to_dict i whole) refused,
      )
      refl
