-- ===== src/Crypto.antt =====
-- The cryptographic code that the program calls and does not contain: the packages
-- `cryptography`, `argon2-cffi` and `oqs` (liboqs). It is a parameter of the model. Each record of
-- operations has a record of the documented laws that the proofs use.
use desperate.Prelude.{ℕ, ◌+◌, ◌≤◌, ◌≡◌, true, Bool, length}
use desperate.Outcome.{Result, ok}
use desperate.Codec.Words.{Bytes, IsBytes}

-- HKDF-SHA256 (input, salt, info, length), Argon2id (secret, salt, time, memory, lanes, length),
-- and SHA-256 of a byte string.
pub record Hashes : Type 0 where
  pub hkdf : Bytes → Bytes → Bytes → ℕ → Result Bytes
  pub argon2id : Bytes → Bytes → ℕ → ℕ → ℕ → ℕ → Result Bytes
  pub sha256 : Bytes → Bytes

-- RFC 5869: up to 255 blocks of 32 bytes of output, of the length asked for. A digest is bytes.
pub record HashLaws (h : Hashes) : Type 0 where
  pub hkdf_length :
      (ikm salt info : Bytes) (n : ℕ) {k : Bytes} → h.hkdf ikm salt info n ≡ ok k → length k ≡ n
  pub hkdf_total :
      (ikm salt info : Bytes) (n : ℕ)
      → 1 ≤ n
      → n ≤ 8160
      → (k : Bytes) × (h.hkdf ikm salt info n ≡ ok k)
  pub sha256_bytes : (message : Bytes) → IsBytes (h.sha256 message)

-- ChaCha20-Poly1305: key, nonce, text, associated data.
pub record Cipher : Type 0 where
  pub encrypt : Bytes → Bytes → Bytes → Bytes → Result Bytes
  pub decrypt : Bytes → Bytes → Bytes → Bytes → Result Bytes

-- RFC 8439: the tag adds 16 bytes, and decryption inverts encryption.
pub record CipherLaws (c : Cipher) : Type 0 where
  pub encrypt_length :
      (k n p a : Bytes) {ct : Bytes} → c.encrypt k n p a ≡ ok ct → length ct ≡ length p + 16
  pub decrypt-encrypt :
      (k n p a : Bytes) {ct : Bytes} → c.encrypt k n p a ≡ ok ct → c.decrypt k n ct a ≡ ok p

-- X25519: a private key read from raw bytes, the public key of a private key, and the exchange of a
-- private with a raw public key, which reads that key first.
pub record Agreement : Type 0 where
  pub from_private_bytes : Bytes → Result Bytes
  pub public : Bytes → Bytes
  pub exchange : Bytes → Bytes → Result Bytes

-- RFC 7748: a private key is any 32 bytes, both parties compute the same secret, and a public key
-- has 32 bytes.
pub record AgreementLaws (x : Agreement) : Type 0 where
  pub from_private_bytes_fits : (a : Bytes) → length a ≡ 32 → x.from_private_bytes a ≡ ok a
  pub exchange_comm :
      (a b : Bytes)
      → length a ≡ 32
      → length b ≡ 32
      → x.exchange a (x.public b) ≡ x.exchange b (x.public a)
  pub public_length : (a : Bytes) → length a ≡ 32 → length (x.public a) ≡ 32
  pub public_bytes : (a : Bytes) → IsBytes (x.public a)

-- ML-KEM-1024: key generation and encapsulation take the random coins they draw.
pub record Kem : Type 0 where
  pub keypair : Bytes → Bytes × Bytes
  pub encap : Bytes → Bytes → Result (Bytes × Bytes)
  pub decap : Bytes → Bytes → Result Bytes

-- FIPS 203: decapsulation gives the encapsulated secret.
pub record KemLaws (k : Kem) : Type 0 where
  pub decap-encap :
      (seed coins : Bytes) {ct ss : Bytes}
      → k.encap (k.keypair seed).0 coins ≡ ok (ct, ss)
      → k.decap (k.keypair seed).1 ct ≡ ok ss

-- A signature scheme: key pair from coins (public, secret), signing, verification. Verification
-- may raise.
pub record Signer : Type 0 where
  pub keypair : Bytes → Bytes × Bytes
  pub sign : Bytes → Bytes → Bytes
  pub verify : Bytes → Bytes → Bytes → Result Bool

-- FIPS 186-5 and FIPS 204: an honest signature verifies, and keys and signatures have the sizes
-- `public_size` and `signature_size`.
pub record SignerLaws (public_size signature_size : ℕ) (s : Signer) : Type 0 where
  pub verify-sign :
      (seed message : Bytes)
      → s.verify (s.keypair seed).0 message (s.sign (s.keypair seed).1 message) ≡ ok true
  pub public_length : (seed : Bytes) → length (s.keypair seed).0 ≡ public_size
  pub signature_length : (sk message : Bytes) → length (s.sign sk message) ≡ signature_size
