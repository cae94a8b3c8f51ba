-- ===== src/Pqxdh/Agreement.antt =====
-- Both parties of a handshake derive the same secret.
use desperate.Prelude.{
  ℕ, ◌≡◌, refl, ap, sym, ◌∙◌, Bool, none, some, inl, inr, List, [], ◌∷◌, length, length-map,
  nat_beq_iff, arith, nat_eq, map,
}
use desperate.Prelude.Dict.{Dict}
use desperate.Outcome.{ok, Result-cases}
use desperate.Codec.Words.{Bytes, IsBytes}
use desperate.Suite.{Suite, SuiteLaws}
use desperate.Json.{Json, obj, items_of, as_fields, as_items, at, as_num, as_bytes-hex}
use desperate.Keys.Types.{X25519OneTimePrekey, KemOneTimePrekey, IdentityBundle, public_key_bytes}
use desperate.Keys.Opks.Laws.{same_length, assert_opk_lists_valid-IsPaired, IsPaired, kem_ids}
use desperate.Keys.Bundle.{
  public_x25519_opk, public_kem_opk, public_opk, to_public_bundle, public_fields,
}
use desperate.Pqxdh.Bundles.{check_ids, elements, InitiationBundle, RemoteBundle, parse_bundle}
use desperate.Pqxdh.{PqxdhResult, opk_leg, pq_leg, agree, initiate, respond}
use desperate.Pqxdh.Legs.{
  kp, IsHonestKem, FirstX25519, FirstKem, first_id, dh_comm, opk_legs, pq_legs,
}

module _ (s : Suite) (laws : SuiteLaws s) where
  -- What the responder's own bundle says of the keys that the initiator uses.
  pub record IsHonest (b : IdentityBundle) (local_x25519 local_kem : Dict ℕ Bytes) : Type 0 where
    pub classical_size : length b.ik_classical.private ≡ 32
    pub spk_size : length b.spk.keypair.private ≡ 32
    pub kem : IsHonestKem s laws b.ik_kem.public_key b.ik_kem.secret_key
    pub paired : IsPaired b.x25519_opks b.kem_opks
    pub first_x25519 : FirstX25519 s laws b.x25519_opks local_x25519
    pub first_kem : FirstKem s laws b.kem_opks local_kem

  -- The responder's bundle as `parse_bundle` reads it.
  abbrev pub remote_of : IdentityBundle → RemoteBundle
  remote_of b = record {
    ik_classical = s.x25519.public b.ik_classical.private;
    ik_kem_pub = b.ik_kem.public_key;
    ik_sig_pub = b.ik_sig.public_key;
    spk_pub = s.x25519.public b.spk.keypair.private;
    spk_sig = b.spk.signature;
    opks_x25519 = map public_x25519_opk b.x25519_opks;
    opks_kem = map public_kem_opk b.kem_opks;
  }

  agree-respond :
      (alice b : IdentityBundle) (xs ks : Dict ℕ Bytes) (allow : Bool) (ek coins : Bytes)
      {r : PqxdhResult} {i : InitiationBundle}
      → length alice.ik_classical.private ≡ 32
      → length ek ≡ 32
      → IsHonest b xs ks
      → agree s alice (remote_of b) allow (kp s laws ek) coins ≡ ok r
      → r.bundle ≡ some i
      → respond s b i xs ks ≡ ok (record { sk = r.sk; bundle = none })
  unfolding agree respond public_key_bytes
  agree-respond alice b xs ks allow ek coins {r} {i} ha he honest e ei =
      let ic = alice.ik_classical.private in
      let xl = map public_x25519_opk b.x25519_opks in
      let kl = map public_kem_opk b.kem_opks in
      let c1 = dh_comm s laws ic b.spk.keypair.private ha honest.spk_size in
      let c2 = dh_comm s laws ek b.ik_classical.private he honest.classical_size in
      let c3 = dh_comm s laws ek b.spk.keypair.private he honest.spk_size in
      elim (Result-cases (opk_leg s (kp s laws ek) xl)) [
        | inl ((id, dh4), q4) ↦
            let (named, own4) = opk_legs s laws ek b.x25519_opks xs he honest.first_x25519 q4 in
            elim (Result-cases (pq_leg s kl allow b.ik_kem.public_key coins)) [
              | inl ((ct, ss, used), q5) ↦
                  let own5 =
                    pq_legs s laws b.kem_opks ks allow b.ik_kem.public_key b.ik_kem.secret_key coins
                      honest.kem honest.first_kem q5 in
                  let known : id ≡ first_id (kem_ids b.kem_opks) =
                    named ∙ ap first_id honest.paired in
                  ground arith
              | inr (x, q) ↦ absurd (ground arith)
            ]
        | inr (x, q) ↦ absurd (ground arith)
      ]

elements-items_of {ℓ} : {A : Type ℓ} (f : A → Json) (l : List A) → elements (items_of f l) ≡ map f l
unfolding items_of
elements-items_of f [] = refl
elements-items_of f (a ∷ l) = ap (λ t. f a ∷ t) (elements-items_of f l)

check_ids_paired :
    (xs : List X25519OneTimePrekey) (ks : List KemOneTimePrekey)
    → IsPaired xs ks
    → check_ids (map public_x25519_opk xs) (map public_kem_opk ks) ≡ ok tt
unfolding check_ids public_opk at as_num
check_ids_paired [] [] h = refl
check_ids_paired [] (k ∷ ks) h = absurd (cc)
check_ids_paired (x ∷ xs) [] h = absurd (cc)
check_ids_paired (x ∷ xs) (k ∷ ks) h =
    let head : x.opk_id ≡ k.opk_id = cc in
    let tail : IsPaired xs ks = cc in
    rw ((nat_beq_iff x.opk_id k.opk_id).1 head) (check_ids_paired xs ks tail)

same_size :
    (xs : List X25519OneTimePrekey) (ks : List KemOneTimePrekey)
    → IsPaired xs ks
    → length (map public_x25519_opk xs) ≡ length (map public_kem_opk ks)
same_size xs ks h =
    length-map public_x25519_opk xs ∙ same_length xs ks h ∙ sym (length-map public_kem_opk ks)

module _ (s : Suite) (laws : SuiteLaws s) where
  -- The responder's public byte strings hold bytes.
  pub record IsPublishable (b : IdentityBundle) : Type 0 where
    pub kem : IsBytes b.ik_kem.public_key
    pub signing : IsBytes b.ik_sig.public_key
    pub signature : IsBytes b.spk.signature

  pub parse_bundle-public_fields :
      (b : IdentityBundle)
      → IsPublishable b
      → IsPaired b.x25519_opks b.kem_opks
      → parse_bundle (obj (public_fields s b)) ≡ ok (remote_of s laws b)
  unfolding parse_bundle public_fields public_key_bytes at as_fields as_items
  parse_bundle-public_fields b h paired = rw (
    as_bytes-hex (s.x25519.public b.ik_classical.private)
        (laws.x25519.public_bytes b.ik_classical.private),
    as_bytes-hex b.ik_kem.public_key h.kem,
    as_bytes-hex b.ik_sig.public_key h.signing,
    as_bytes-hex (s.x25519.public b.spk.keypair.private)
        (laws.x25519.public_bytes b.spk.keypair.private),
    as_bytes-hex b.spk.signature h.signature,
    elements-items_of public_x25519_opk b.x25519_opks,
    elements-items_of public_kem_opk b.kem_opks,
    (nat_beq_iff _ _).1 (same_size b.x25519_opks b.kem_opks paired),
    check_ids_paired b.x25519_opks b.kem_opks paired,
  )

  -- If the initiator's handshake with the responder's published bundle succeeds, with or without
  -- a one-time prekey, then the responder's handshake with the initiation bundle that it produced
  -- succeeds and gives the same secret. The responder's keys are honestly generated and its
  -- public byte strings hold bytes, and it holds the secrets of its first prekey pair; the two
  -- private keys of the initiator have 32 bytes.
  pub handshake_agreement :
      (alice b : IdentityBundle) (xs ks : Dict ℕ Bytes) (allow : Bool) (ek coins : Bytes) {j : Json}
      {r : PqxdhResult} {i : InitiationBundle}
      → length alice.ik_classical.private ≡ 32
      → length ek ≡ 32
      → IsHonest s laws b xs ks
      → IsPublishable b
      → to_public_bundle s b ≡ ok j
      → initiate s alice j allow (record { private = ek }) coins ≡ ok r
      → r.bundle ≡ some i
      → respond s b i xs ks ≡ ok (record { sk = r.sk; bundle = none })
  unfolding to_public_bundle initiate
  handshake_agreement alice b xs ks allow ek coins {j} ha he honest public published e ei =
      let valid = (assert_opk_lists_valid-IsPaired b.x25519_opks b.kem_opks).0 honest.paired in
      let form : j ≡ obj (public_fields s b) = ground (arith, valid) in
      let parsed = parse_bundle-public_fields b public honest.paired in
      agree-respond s laws alice b xs ks allow ek coins ha he honest (ground (arith, form, parsed))
        ei
