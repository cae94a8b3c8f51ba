-- ===== src/Suite.antt =====
-- All external cryptography in one record, and all its laws.
use desperate.Constants.{
  dsa_public_key_len, dsa_signature_len, ed25519_public_key_len, ed25519_signature_len,
}
use desperate.Crypto.{
  Hashes, HashLaws, Cipher, CipherLaws, Agreement, AgreementLaws, Kem, KemLaws, Signer, SignerLaws,
}

pub record Suite : Type 0 where
  pub hashes : Hashes
  pub cipher : Cipher
  pub x25519 : Agreement
  pub kem : Kem
  pub ed25519 : Signer
  pub dsa : Signer

pub record SuiteLaws (s : Suite) : Type 0 where
  pub hashes : HashLaws s.hashes
  pub cipher : CipherLaws s.cipher
  pub x25519 : AgreementLaws s.x25519
  pub kem : KemLaws s.kem
  pub ed25519 : SignerLaws ed25519_public_key_len ed25519_signature_len s.ed25519
  pub dsa : SignerLaws dsa_public_key_len dsa_signature_len s.dsa
