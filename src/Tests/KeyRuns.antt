-- ===== src/Tests/KeyRuns.antt =====
-- Runs on key material: prekeys, bundles and hybrid signatures.
use desperate.Prelude.{
  ℕ, ◌≡◌, ◌<◌, ◌↔◌, ◌+◌, refl, arith, true, List, [], ◌∷◌, length, take, drop, replicate, max,
  list_eq, nat_eq,
}
use desperate.Outcome.{ok}
use desperate.Codec.Words.{Bytes, IsBytes}
use desperate.Codec.Ascii.{ascii}
use desperate.Constants.{
  hybrid_public_key_len, hybrid_signature_len, ed25519_public_key_len, ed25519_signature_len,
}
use desperate.Json.{Json}
use desperate.Keys.Types.{
  X25519OneTimePrekey, KemOneTimePrekey, IdentityBundle, sign, generate_signing_keypair,
  public_key_bytes,
}
use desperate.Keys.Opks.{replenish_one_time_prekeys}
use desperate.Keys.Opks.Laws.{IsPaired, x25519_ids, kem_ids, range_from, Above, replenish_lem}
use desperate.Keys.Hybrid.{verify_hybrid_signature, verify_spk_signature}
use desperate.Keys.Hybrid.Laws.{verify_hybrid_signature_iff}
use desperate.Keys.Bundle.{
  to_private_bundle, from_private_bundle, to_public_bundle, BundleCoins, generate_identity_bundle,
}
use desperate.Keys.Bundle.Laws.{
  IsStorable, SamePublic, from_private_bundle-to_private_bundle, to_public_bundle_hides_secrets,
  generate_identity_bundle_lem,
}
use desperate.Tests.Toy.{suite, suite_laws, replicate-IsBytes}

abbrev draw : ℕ → Bytes
draw i = replicate 32 i

abbrev x25519_opk : ℕ → X25519OneTimePrekey
x25519_opk i = record { opk_id = i; public_key = replicate 32 i; secret_key = replicate 32 i }

abbrev kem_opk : ℕ → KemOneTimePrekey
kem_opk i = record { opk_id = i; public_key = replicate 8 i; secret_key = replicate 8 i }

abbrev xs : List X25519OneTimePrekey
xs = x25519_opk 3 ∷ x25519_opk 7 ∷ []

abbrev ks : List KemOneTimePrekey
ks = kem_opk 3 ∷ kem_opk 7 ∷ []

replenish_lem_example :
    (nx : List X25519OneTimePrekey) × (nk : List KemOneTimePrekey) × (replenish_one_time_prekeys
        suite draw draw xs ks 4
      ≡ ok (nx, nk))
    × IsPaired nx nk
    × Above (x25519_ids nx) (x25519_ids xs)
    × (length xs + length nx ≡ max (length xs) 4)
replenish_lem_example = replenish_lem suite draw draw xs ks 4 refl

abbrev message : Bytes
message = ascii "message"

verify_hybrid_signature_iff_example :
    let kp = generate_signing_keypair suite (1 ∷ []) (2 ∷ []) in
    let signature = sign suite kp message in
    (verify_hybrid_signature suite message signature kp.public_key ≡ ok true) ↔ (
      (length kp.public_key ≡ hybrid_public_key_len)
      × (length signature ≡ hybrid_signature_len)
      × (suite.ed25519.verify
            (take ed25519_public_key_len kp.public_key)
            message
            (take ed25519_signature_len signature)
          ≡ ok true)
      × (suite.dsa.verify
            (drop ed25519_public_key_len kp.public_key)
            message
            (drop ed25519_signature_len signature)
          ≡ ok true))
verify_hybrid_signature_iff_example =
    verify_hybrid_signature_iff suite message
      (sign suite (generate_signing_keypair suite (1 ∷ []) (2 ∷ [])) message)
      (generate_signing_keypair suite (1 ∷ []) (2 ∷ [])).public_key

-- A bundle, by the secrets of its KEM and ML-DSA keys.
abbrev pub bundle : ℕ → ℕ → IdentityBundle
bundle kem_secret dsa_secret = record {
  user_id = ascii "bob";
  ik_kem = record { public_key = replicate 4 1; secret_key = replicate 4 kem_secret };
  ik_sig = record {
    public_key = replicate 5 3;
    secret_key = replicate 5 dsa_secret;
    ed25519_secret_key = replicate 5 5;
  };
  ik_classical = record { private = replicate 32 6 };
  spk = record {
    spk_id = 1;
    keypair = record { private = replicate 32 7 };
    signature = replicate 6 8;
  };
  x25519_opks = xs;
  kem_opks = ks;
}

pub storable : IsStorable (bundle 2 4)
storable = record {
  kem_public = replicate-IsBytes 4 1 (omega arith);
  kem_secret = replicate-IsBytes 4 2 (omega arith);
  sig_public = replicate-IsBytes 5 3 (omega arith);
  sig_secret = replicate-IsBytes 5 4 (omega arith);
  sig_ed25519 = replicate-IsBytes 5 5 (omega arith);
  classical = replicate-IsBytes 32 6 (omega arith);
  classical_size = refl;
  spk_private = replicate-IsBytes 32 7 (omega arith);
  spk_size = refl;
  spk_signature = replicate-IsBytes 6 8 (omega arith);
  x25519_bytes = (both 32 3 (omega arith), (both 32 7 (omega arith), tt));
  kem_bytes = (both 8 3 (omega arith), (both 8 7 (omega arith), tt));
  paired = refl;
}
  where
    both : (n b : ℕ) → b < 256 → IsBytes (replicate n b) × IsBytes (replicate n b)
    both n b h = (replicate-IsBytes n b h, replicate-IsBytes n b h)

from_private_bundle-to_private_bundle_example :
    (j : Json) × (to_private_bundle suite (bundle 2 4) ≡ ok j)
    × (from_private_bundle suite j ≡ ok (bundle 2 4))
from_private_bundle-to_private_bundle_example =
    from_private_bundle-to_private_bundle suite suite_laws (bundle 2 4) storable

same_public : SamePublic suite (bundle 2 4) (bundle 9 10)
same_public = record {
  user = refl;
  kem = refl;
  signing = refl;
  classical = refl;
  spk_id = refl;
  spk_pub = refl;
  spk_signature = refl;
  x25519_opks = refl;
  kem_opks = refl;
}

to_public_bundle_hides_secrets_example :
    to_public_bundle suite (bundle 2 4) ≡ to_public_bundle suite (bundle 9 10)
to_public_bundle_hides_secrets_example =
    to_public_bundle_hides_secrets suite (bundle 2 4) (bundle 9 10) same_public

abbrev coins : BundleCoins
coins = record {
  ik_kem = 1 ∷ [];
  ed25519 = 2 ∷ [];
  dsa = 3 ∷ [];
  ik_classical = replicate 32 4;
  spk = replicate 32 5;
  x25519_opks = draw;
  kem_opks = draw;
}

generate_identity_bundle_lem_example :
    (b : IdentityBundle) × (generate_identity_bundle suite coins (ascii "bob") 2 ≡ ok b)
    × (x25519_ids b.x25519_opks ≡ range_from 1 2)
    × (kem_ids b.kem_opks ≡ range_from 1 2)
    × (verify_spk_signature suite
          (public_key_bytes suite b.spk.keypair)
          b.spk.signature
          b.ik_sig.public_key
        ≡ ok true)
generate_identity_bundle_lem_example =
    generate_identity_bundle_lem suite suite_laws coins (ascii "bob") 2
