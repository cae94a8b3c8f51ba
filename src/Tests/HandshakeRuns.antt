-- ===== src/Tests/HandshakeRuns.antt =====
-- A handshake between two parties, and one after its prekey was consumed.
use desperate.Prelude.{
  ℕ, Bool, ◌≡◌, refl, arith, true, false, none, some, [], ◌∷◌, replicate, All-append, list_eq,
  nat_eq,
}
use desperate.Prelude.Dict.{Dict, lookup}
use desperate.Outcome.{ok}
use desperate.Codec.Words.{Bytes, IsBytes}
use desperate.Codec.Ascii.{ascii}
use desperate.Json.{Json, obj}
use desperate.Keys.Types.{
  X25519Keypair, IdentityBundle, SigningKeypair, sign, generate_signing_keypair,
  generate_signed_prekey, dh,
}
use desperate.Keys.Opks.Laws.{assert_opk_lists_valid-IsPaired}
use desperate.Keys.Hybrid.{verify_spk_signature}
use desperate.Keys.Hybrid.Laws.{verify_hybrid_signature-sign}
use desperate.Keys.Bundle.{to_public_bundle, public_fields, public_x25519_opk, public_kem_opk}
use desperate.Pqxdh.Bundles.{InitiationBundle, RemoteBundle, parse_bundle}
use desperate.Pqxdh.{PqxdhResult, initiate, agree, respond, spk_verdict}
use desperate.Pqxdh.Agreement.{
  IsHonest, IsPublishable, remote_of, parse_bundle-public_fields, handshake_agreement,
}
use desperate.Pqxdh.Errors.{initiate_verified}
use desperate.Tests.Toy.{
  suite, suite_laws, fit, reduced, fit-IsBytes, replicate-IsBytes, reduced-IsBytes,
}

-- An initiation bundle with a prekey id.
abbrev pub initiation : InitiationBundle
initiation = record {
  ik_classical_pub = replicate 32 1;
  ek_pub = replicate 32 9;
  ct_pq = replicate 3 4;
  opk_id = some 1;
  used_identity_kem = false;
}

unfoldable pub signing : SigningKeypair
signing = generate_signing_keypair suite (5 ∷ []) (6 ∷ [])

abbrev pub bob : IdentityBundle
bob = record {
  user_id = ascii "bob";
  ik_kem = record { public_key = 8 ∷ []; secret_key = 8 ∷ [] };
  ik_sig = signing;
  ik_classical = record { private = replicate 32 2 };
  spk = generate_signed_prekey suite signing 1 (replicate 32 3);
  x25519_opks =
      record { opk_id = 1; public_key = replicate 32 7; secret_key = replicate 32 7 } ∷ [];
  kem_opks = record { opk_id = 1; public_key = replicate 4 7; secret_key = replicate 4 7 } ∷ [];
}

abbrev alice : IdentityBundle
alice = record bob { ik_classical = record { private = replicate 32 1 } }

abbrev x25519_secrets : Dict ℕ Bytes
x25519_secrets = (1, replicate 32 7) ∷ []

abbrev kem_secrets : Dict ℕ Bytes
kem_secrets = (1, replicate 4 7) ∷ []

honest : IsHonest suite suite_laws bob x25519_secrets kem_secrets
unfolding generate_signed_prekey lookup reduced fit
honest = record {
  classical_size = refl;
  spk_size = refl;
  kem = record { seed = 8 ∷ []; public_key = refl; secret_key = refl };
  paired = refl;
  first_x25519 =
      (record { size = refl; public = refl }, replicate-IsBytes 32 7 (omega arith), refl);
  first_kem = (
    record { seed = replicate 4 7; public_key = refl; secret_key = refl },
    replicate-IsBytes 4 7 (omega arith),
    refl,
  );
}

pub sign-IsBytes : (kp : SigningKeypair) (m : Bytes) → IsBytes m → IsBytes (sign suite kp m)
unfolding sign
sign-IsBytes kp m h =
    All-append _ (fit 64 m) (fit 4627 m) (fit-IsBytes 64 m h) (fit-IsBytes 4627 m h)

pub generated-IsBytes :
    (e d : Bytes) → IsBytes e → IsBytes d → IsBytes (generate_signing_keypair suite e d).public_key
unfolding generate_signing_keypair
generated-IsBytes e d he hd =
    All-append _ (fit 32 e) (fit 2592 d) (fit-IsBytes 32 e he) (fit-IsBytes 2592 d hd)

pub publishable : IsPublishable suite suite_laws bob
unfolding generate_signed_prekey signing
publishable = record {
  kem = replicate-IsBytes 1 8 (omega arith);
  signing =
      generated-IsBytes (5 ∷ []) (6 ∷ []) (replicate-IsBytes 1 5 (omega arith))
        (replicate-IsBytes 1 6 (omega arith));
  signature =
      sign-IsBytes signing (suite.x25519.public (replicate 32 3))
        (reduced-IsBytes (fit 32 (replicate 32 3)));
}

abbrev result : PqxdhResult
result = record { sk = replicate 32 0; bundle = some initiation }

agreed :
    agree suite alice
      (remote_of suite suite_laws bob)
      false
      (record { private = replicate 32 9 })
      (replicate 3 4)
    ≡ ok result
unfolding agree dh desperate.Tests.Toy.reduced fit generate_signed_prekey desperate.Pqxdh.opk_leg
    desperate.Json.at desperate.Keys.Bundle.public_opk desperate.Json.as_bytes
    desperate.Codec.Hex.from_hex desperate.Codec.Hex.to_hex desperate.Json.as_num
    desperate.Pqxdh.pq_leg desperate.Pqxdh.derive_sk desperate.Kdf.hkdf_derive
agreed = refl

published : to_public_bundle suite bob ≡ ok (obj (public_fields suite bob))
unfolding to_public_bundle
published = rw ((assert_opk_lists_valid-IsPaired bob.x25519_opks bob.kem_opks).0 refl)

pub verified :
    verify_spk_signature suite
      (suite.x25519.public (replicate 32 3))
      bob.spk.signature
      bob.ik_sig.public_key
    ≡ ok true
unfolding verify_spk_signature generate_signed_prekey signing
verified =
    (verify_hybrid_signature-sign suite suite_laws (5 ∷ []) (6 ∷ [])
      (suite.x25519.public (replicate 32 3))).0

pub initiate_parts :
    (alice : IdentityBundle) (j : Json) (allow : Bool) (ek : X25519Keypair) (coins : Bytes)
    (r : RemoteBundle) (res : PqxdhResult)
    → parse_bundle j ≡ ok r
    → verify_spk_signature suite r.spk_pub r.spk_sig r.ik_sig_pub ≡ ok true
    → agree suite alice r allow ek coins ≡ ok res
    → initiate suite alice j allow ek coins ≡ ok res
unfolding initiate
initiate_parts alice j allow ek coins r res p v a = rw (p, v) a

initiated :
    initiate suite alice
      (obj (public_fields suite bob))
      false
      (record { private = replicate 32 9 })
      (replicate 3 4)
    ≡ ok result
unfolding generate_signed_prekey
initiated =
    initiate_parts alice (obj (public_fields suite bob)) false (record { private = replicate 32 9 })
      (replicate 3 4) (remote_of suite suite_laws bob) result
      (parse_bundle-public_fields suite suite_laws bob publishable refl) verified agreed

handshake_agreement_example :
    respond suite bob initiation x25519_secrets kem_secrets
    ≡ ok (record { sk = result.sk; bundle = none })
handshake_agreement_example =
    handshake_agreement suite suite_laws alice bob x25519_secrets kem_secrets false (replicate 32 9)
      (replicate 3 4) refl refl honest publishable published initiated refl

initiate_verified_example :
    (b : RemoteBundle) × (parse_bundle (obj (public_fields suite bob)) ≡ ok b)
    × (verify_spk_signature suite b.spk_pub b.spk_sig b.ik_sig_pub ≡ ok true)
initiate_verified_example =
    initiate_verified suite alice (obj (public_fields suite bob)) false
      (record { private = replicate 32 9 }) (replicate 3 4) initiated
