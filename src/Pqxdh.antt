-- ===== src/Pqxdh.antt =====
-- core/pqxdh.py: session initiation and response. The ephemeral key and the coins of the
-- encapsulation are arguments. Overwriting the key material in memory (`_zeroise`) is not modelled.
pub mod Bundles
pub mod Legs
pub mod Agreement
pub mod Errors
use desperate.Prelude.{
  ℕ, Bool, true, false, not, Option, none, some, List, [], ◌∷◌, ◌++◌, replicate, nat_eq,
}
use desperate.Prelude.Dict.{Dict, lookup}
use desperate.Outcome.{
  Result, ok, err, malformed_signed, spk_verification, no_prekey, pqxdh_error, ◌>>=◌, ◌>>◌,
}
use desperate.Codec.Words.{Bytes}
use desperate.Suite.{Suite}
use desperate.Json.{Json, at, as_num, as_bytes}
use desperate.Kdf.{hkdf_derive, info_pqxdh_sk}
use desperate.Keys.Types.{X25519Keypair, IdentityBundle, public_key_bytes, dh}
use desperate.Keys.Hybrid.{verify_spk_signature}
use desperate.Pqxdh.Bundles.{InitiationBundle, RemoteBundle, parse_bundle}

-- Input padding and salt of the derivation, and the length of its output.
abbrev pub padding : Bytes
padding = replicate 32 0xff

abbrev pub hkdf_salt : Bytes
hkdf_salt = replicate 32 0

abbrev pub sk_len : ℕ
sk_len = 32

pub record PqxdhResult : Type 0 where
  pub sk : Bytes
  pub bundle : Option InitiationBundle

-- the verdict on the SPK signature, its exceptions included
unfoldable pub spk_verdict : Result Bool → Result (Unit {0})
spk_verdict (ok true) = ok tt
spk_verdict (ok false) = err spk_verification
spk_verdict (err malformed_signed) = err spk_verification
spk_verdict (err e) = err e

-- a secret key of the local store; a missing one is a `PQXDHError`
unfoldable pub secret_of : Option Bytes → Result Bytes
secret_of none = err pqxdh_error
secret_of (some secret) = ok secret

module _ (s : Suite) where
  -- F || DH1 || DH2 || DH3 || [DH4] || SS_pq
  unfoldable pub derive_sk : Bytes → Bytes → Bytes → Bytes → Bytes → Result Bytes
  derive_sk dh1 dh2 dh3 dh4 ss_pq =
      hkdf_derive s.hashes (padding ++ (dh1 ++ (dh2 ++ (dh3 ++ (dh4 ++ ss_pq))))) hkdf_salt
        info_pqxdh_sk sk_len

  -- `opk_id_used` and `dh4`
  unfoldable pub opk_leg : X25519Keypair → List Json → Result (Option ℕ × Bytes)
  opk_leg ek_a [] = ok (none, [])
  opk_leg ek_a (opk_x ∷ opks) = do
    opk_x_pub ← as_bytes (← at "opk_pub" opk_x)
    opk_id ← as_num (← at "opk_id" opk_x)
    dh4 ← dh s ek_a opk_x_pub
    ok (some opk_id, dh4)

  -- `ct_pq`, `ss_pq` and `used_identity_kem`
  unfoldable pub pq_leg : List Json → Bool → Bytes → Bytes → Result (Bytes × Bytes × Bool)
  pq_leg (opk_k ∷ opks) allow_no_opk ik_b_kem_pub coins = do
    opk_b_kem_pub ← as_bytes (← at "opk_pub" opk_k)
    (ct_pq, ss_pq) ← s.kem.encap opk_b_kem_pub coins
    ok (ct_pq, ss_pq, false)
  pq_leg [] true ik_b_kem_pub coins = do
    (ct_pq, ss_pq) ← s.kem.encap ik_b_kem_pub coins
    ok (ct_pq, ss_pq, true)
  pq_leg [] false ik_b_kem_pub coins = err no_prekey

  -- steps 3 to 6, on a bundle that is parsed and verified
  unfoldable pub agree :
      IdentityBundle → RemoteBundle → Bool → X25519Keypair → Bytes → Result PqxdhResult
  agree local_bundle r allow_no_opk ek_a coins = do
    dh1 ← dh s local_bundle.ik_classical r.spk_pub
    dh2 ← dh s ek_a r.ik_classical
    dh3 ← dh s ek_a r.spk_pub
    (opk_id_used, dh4) ← opk_leg ek_a r.opks_x25519
    (ct_pq, ss_pq, used_identity_kem) ← pq_leg r.opks_kem allow_no_opk r.ik_kem_pub coins
    sk ← derive_sk dh1 dh2 dh3 dh4 ss_pq
    ok (record {
      sk = sk;
      bundle = some (record {
        ik_classical_pub = public_key_bytes s local_bundle.ik_classical;
        ek_pub = public_key_bytes s ek_a;
        ct_pq = ct_pq;
        opk_id = opk_id_used;
        used_identity_kem = used_identity_kem;
      });
    })

  unfoldable pub initiate :
      IdentityBundle → Json → Bool → X25519Keypair → Bytes → Result PqxdhResult
  unfolding spk_verdict
  initiate local_bundle remote_bundle allow_no_opk ek_a coins = do
    r ← parse_bundle remote_bundle
    spk_verdict (verify_spk_signature s r.spk_pub r.spk_sig r.ik_sig_pub)
    agree local_bundle r allow_no_opk ek_a coins

  unfoldable pub x25519_dh : Bytes → Bytes → Result Bytes
  x25519_dh secret_key_bytes peer_public_bytes = do
    priv ← s.x25519.from_private_bytes secret_key_bytes
    s.x25519.exchange priv peer_public_bytes

  -- `dh4` of the responder
  unfoldable pub own_opk_leg : Option ℕ → Dict ℕ Bytes → Bytes → Result Bytes
  own_opk_leg none local_x25519_opks ek_a_pub = ok []
  own_opk_leg (some opk_id) local_x25519_opks ek_a_pub = do
    secret ← secret_of (lookup opk_id local_x25519_opks)
    x25519_dh secret ek_a_pub

  -- `ss_pq` of the responder
  unfoldable pub own_pq_leg : Bool → Option ℕ → Dict ℕ Bytes → Bytes → Bytes → Result Bytes
  own_pq_leg true opk_id local_kem_opks ct_pq ik_kem_secret = s.kem.decap ik_kem_secret ct_pq
  own_pq_leg false none local_kem_opks ct_pq ik_kem_secret = err pqxdh_error
  own_pq_leg false (some opk_id) local_kem_opks ct_pq ik_kem_secret = do
    secret ← secret_of (lookup opk_id local_kem_opks)
    s.kem.decap secret ct_pq

  unfoldable pub respond :
      IdentityBundle → InitiationBundle → Dict ℕ Bytes → Dict ℕ Bytes → Result PqxdhResult
  respond local_bundle i local_x25519_opks local_kem_opks = do
    dh1 ← dh s local_bundle.spk.keypair i.ik_classical_pub
    dh2 ← dh s local_bundle.ik_classical i.ek_pub
    dh3 ← dh s local_bundle.spk.keypair i.ek_pub
    dh4 ← own_opk_leg i.opk_id local_x25519_opks i.ek_pub
    ss_pq ←
        own_pq_leg i.used_identity_kem i.opk_id local_kem_opks i.ct_pq
          local_bundle.ik_kem.secret_key
    sk ← derive_sk dh1 dh2 dh3 dh4 ss_pq
    ok (record { sk = sk; bundle = none })
