-- ===== src/Keys/Hybrid/Laws.antt =====
-- A hybrid signature verifies exactly if both of its halves do.
use desperate.Prelude.{
  ℕ, ◌≡◌, ◌↔◌, ◌≢◌, ◌⊎◌, Bool, true, not, ◌&&◌, ◌++◌, take, drop, length, length-append,
  take-append, drop-append, arith, ◌==◌, nat_eq,
}
use desperate.Outcome.{Result, ok, err, malformed_signed, reject, ◌>>◌}
use desperate.Codec.Words.{Bytes}
use desperate.Constants.{
  hybrid_public_key_len, hybrid_signature_len, ed25519_public_key_len, ed25519_signature_len,
}
use desperate.Suite.{Suite, SuiteLaws}
use desperate.Keys.Types.{sign, generate_signing_keypair}
use desperate.Keys.Hybrid.{caught, verify_hybrid_signature}

-- The tests of `verify_hybrid_signature` on the lengths and on the two verdicts.
combine : ℕ → ℕ → Result Bool → Result Bool → Result Bool
combine key_size signature_size ed dsa = do
  reject (not (key_size == hybrid_public_key_len)) malformed_signed
  reject (not (signature_size == hybrid_signature_len)) malformed_signed
  ok (caught ed && caught dsa)

combine_iff :
    (k g : ℕ) (ed dsa : Result Bool)
    → (combine k g ed dsa ≡ ok true) ↔ (
        (k ≡ hybrid_public_key_len) × (g ≡ hybrid_signature_len) × (ed ≡ ok true) × (dsa ≡ ok true))
unfolding combine
combine_iff k g (ok a) (ok b) = ground arith
combine_iff k g (ok a) (err y) = ground arith
combine_iff k g (err x) dsa = ground arith

combine_raises :
    (k g : ℕ) (ed dsa : Result Bool)
    → (k ≢ hybrid_public_key_len) ⊎ (g ≢ hybrid_signature_len)
    → combine k g ed dsa ≡ err malformed_signed
unfolding combine
combine_raises k g ed dsa h = ground arith

module _ (s : Suite) where
  -- verify_hybrid_signature returns True exactly if key and signature have the hybrid lengths and
  -- both the Ed25519 half and the ML-DSA half verify, with no exception, over the message.
  pub verify_hybrid_signature_iff :
      (message signature ik_sig_pub : Bytes)
      → (verify_hybrid_signature s message signature ik_sig_pub ≡ ok true) ↔ (
          (length ik_sig_pub ≡ hybrid_public_key_len)
          × (length signature ≡ hybrid_signature_len)
          × (s.ed25519.verify
                (take ed25519_public_key_len ik_sig_pub)
                message
                (take ed25519_signature_len signature)
              ≡ ok true)
          × (s.dsa.verify
                (drop ed25519_public_key_len ik_sig_pub)
                message
                (drop ed25519_signature_len signature)
              ≡ ok true))
  unfolding verify_hybrid_signature
  verify_hybrid_signature_iff message signature ik_sig_pub =
      unfold combine in combine_iff (length ik_sig_pub) (length signature) _ _

  -- A key or a signature of another length raises MalformedSignedCiphertextError, whatever the
  -- two verifiers say.
  verify_hybrid_signature_raises :
      (message signature ik_sig_pub : Bytes)
      → (length ik_sig_pub ≢ hybrid_public_key_len) ⊎ (length signature ≢ hybrid_signature_len)
      → verify_hybrid_signature s message signature ik_sig_pub ≡ err malformed_signed
  unfolding verify_hybrid_signature combine
  verify_hybrid_signature_raises message signature ik_sig_pub h =
      combine_raises (length ik_sig_pub) (length signature)
        (s.ed25519.verify (take ed25519_public_key_len ik_sig_pub) message
          (take ed25519_signature_len signature))
        (s.dsa.verify (drop ed25519_public_key_len ik_sig_pub) message
          (drop ed25519_signature_len signature))
        h

  -- What a generated key pair signs, verify_hybrid_signature accepts under its public key, and
  -- the signature has the hybrid length.
  pub verify_hybrid_signature-sign :
      (laws : SuiteLaws s) (ed_coins dsa_coins message : Bytes)
      → let kp = generate_signing_keypair s ed_coins dsa_coins in
        (verify_hybrid_signature s message (sign s kp message) kp.public_key ≡ ok true)
        × (length (sign s kp message) ≡ hybrid_signature_len)
  unfolding generate_signing_keypair sign
  verify_hybrid_signature-sign laws ed_coins dsa_coins message =
      let (ed_pub, ed_sec) = s.ed25519.keypair ed_coins in
      let (dsa_pub, dsa_sec) = s.dsa.keypair dsa_coins in
      let ed_sig = s.ed25519.sign ed_sec message in
      let dsa_sig = s.dsa.sign dsa_sec message in
      let ed_pub_size = laws.ed25519.public_length ed_coins in
      let ed_sig_size = laws.ed25519.signature_length ed_sec message in
      let size : length (ed_sig ++ dsa_sig) ≡ hybrid_signature_len =
        omega (arith, length-append ed_sig dsa_sig, laws.dsa.signature_length dsa_sec message) in
      (
        (verify_hybrid_signature_iff message (ed_sig ++ dsa_sig) (ed_pub ++ dsa_pub)).1 (
          omega (arith, length-append ed_pub dsa_pub, laws.dsa.public_length dsa_coins),
          size,
          rw
              (
                take-append ed25519_public_key_len ed_pub dsa_pub ed_pub_size,
                take-append ed25519_signature_len ed_sig dsa_sig ed_sig_size,
              )
              (laws.ed25519.verify-sign ed_coins message),
          rw
              (
                drop-append ed25519_public_key_len ed_pub dsa_pub ed_pub_size,
                drop-append ed25519_signature_len ed_sig dsa_sig ed_sig_size,
              )
              (laws.dsa.verify-sign dsa_coins message),
        ),
        size,
      )
