-- ===== src/Keys/Types.antt =====
-- The key pairs and prekeys, with their methods.
use desperate.Prelude.{ℕ, not, List, ◌++◌, length, ◌==◌, nat_eq}
use desperate.Outcome.{Result, ok, value_error, bad_public_key, reject, ◌>>=◌, ◌>>◌}
use desperate.Codec.Words.{Bytes}
use desperate.Codec.Hex.{Text}
use desperate.Suite.{Suite}

pub record KemKeypair : Type 0 where
  pub public_key : Bytes
  pub secret_key : Bytes

-- `public_key` is ed25519_pub || ml_dsa_pub, `secret_key` the ML-DSA-87 secret key
pub record SigningKeypair : Type 0 where
  pub public_key : Bytes
  pub secret_key : Bytes
  pub ed25519_secret_key : Bytes

-- A key object of the library is its 32 raw private bytes.
pub record X25519Keypair : Type 0 where
  pub private : Bytes

pub record X25519OneTimePrekey : Type 0 where
  pub opk_id : ℕ
  pub public_key : Bytes
  pub secret_key : Bytes

pub record KemOneTimePrekey : Type 0 where
  pub opk_id : ℕ
  pub public_key : Bytes
  pub secret_key : Bytes

pub record SignedPrekey : Type 0 where
  pub spk_id : ℕ
  pub keypair : X25519Keypair
  pub signature : Bytes

pub record IdentityBundle : Type 0 where
  pub user_id : Text
  pub ik_kem : KemKeypair
  pub ik_sig : SigningKeypair
  pub ik_classical : X25519Keypair
  pub spk : SignedPrekey
  pub x25519_opks : List X25519OneTimePrekey
  pub kem_opks : List KemOneTimePrekey

module _ (s : Suite) where
  unfoldable pub public_key_bytes : X25519Keypair → Bytes
  public_key_bytes kp = s.x25519.public kp.private

  unfoldable pub dh : X25519Keypair → Bytes → Result Bytes
  dh kp peer_public_bytes = do
    reject (not (length peer_public_bytes == 32)) (value_error bad_public_key)
    s.x25519.exchange kp.private peer_public_bytes

  -- X25519Keypair(X25519PrivateKey.from_private_bytes(b))
  unfoldable pub load_keypair : Bytes → Result X25519Keypair
  load_keypair b = do private ← s.x25519.from_private_bytes b; ok (record { private = private })

  unfoldable pub sign : SigningKeypair → Bytes → Bytes
  sign kp message = s.ed25519.sign kp.ed25519_secret_key message ++ s.dsa.sign kp.secret_key message

  unfoldable pub generate_kem_keypair : Bytes → KemKeypair
  generate_kem_keypair coins =
      let (pub_key, sec_key) = s.kem.keypair coins in
      record { public_key = pub_key; secret_key = sec_key }

  unfoldable pub generate_signing_keypair : Bytes → Bytes → SigningKeypair
  generate_signing_keypair ed_coins dsa_coins =
      let (ed_pub, ed_sec) = s.ed25519.keypair ed_coins in
      let (dsa_pub, dsa_sec) = s.dsa.keypair dsa_coins in
      record { public_key = ed_pub ++ dsa_pub; secret_key = dsa_sec; ed25519_secret_key = ed_sec }

  unfoldable pub generate_signed_prekey : SigningKeypair → ℕ → Bytes → SignedPrekey
  unfolding public_key_bytes sign
  generate_signed_prekey signing_keypair spk_id coins =
      let spk_keypair : X25519Keypair = record { private = coins } in
      record {
        spk_id = spk_id;
        keypair = spk_keypair;
        signature = sign signing_keypair (public_key_bytes spk_keypair);
      }
