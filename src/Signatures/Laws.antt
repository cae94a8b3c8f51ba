-- ===== src/Signatures/Laws.antt =====
-- What a receiver may conclude from a payload that was accepted, and what is refused.
use desperate.Prelude.{
  ℕ, ◌≡◌, ◌≢◌, ◌<◌, ◌⊎◌, refl, ap, nat_beq_iff, if◌then◌else◌, Bool, true, false, Option, none,
  some, inl, inr, [], ◌∷◌, length, lt→ltb, list_beq_iff, nat_eq, arith,
}
use desperate.Prelude.Int.{ℤ, pos}
use desperate.Outcome.{ok, err, type_error, Result-cases}
use desperate.Codec.Words.{Bytes, u64_limit}
use desperate.Constants.{hybrid_signature_len}
use desperate.Suite.{Suite, SuiteLaws}
use desperate.Aead.{as_uint64}
use desperate.Keys.Types.{sign, generate_signing_keypair}
use desperate.Keys.Hybrid.{verify_hybrid_signature}
use desperate.Keys.Hybrid.Laws.{verify_hybrid_signature-sign}
use desperate.Signatures.{
  Value, bin, str, int, nil, Msgpack, MsgpackLaws, SignedCiphertext, from_fields, verify_value,
  checked, check_pinned, build_sig_input, to_bytes, from_bytes, sign_ciphertext, verify_ciphertext,
  verify_and_extract,
}

module _ (s : Suite) (m : Msgpack) where
  verify_value_sound :
      (input : Bytes) (v : Value) (pub_key : Bytes)
      → checked (verify_value s input v pub_key) ≡ ok tt
      → (sig : Bytes) × (v ≡ bin sig) × (verify_hybrid_signature s input sig pub_key ≡ ok true)
  unfolding verify_value checked
  verify_value_sound input (bin sig) pub_key h = (
    sig,
    refl,
    elim (Result-cases (verify_hybrid_signature s input sig pub_key)) [
      | inl (b, q) ↦ ground arith
      | inr (x, q) ↦ absurd (ground arith)
    ],
  )
  verify_value_sound input (str t) pub_key h = absurd (cc)
  verify_value_sound input (int n) pub_key h = absurd (cc)
  verify_value_sound input nil pub_key h = absurd (cc)

  check_pinned_sound :
      (expected : Option Bytes) (pub_key : Bytes)
      → check_pinned expected pub_key ≡ ok tt
      → (expected ≡ none) ⊎ (expected ≡ some pub_key)
  unfolding check_pinned
  check_pinned_sound none pub_key h = inl refl
  check_pinned_sound (some e) pub_key h = inr (ap some ((list_beq_iff e pub_key).0 (ground arith)))

  -- What `verify_and_extract` returns, with all that it has checked.
  pub record Accepted (payload aad ik_sig_pub : Bytes) (expected : Option Bytes)
      (signed : SignedCiphertext) : Type 0 where
    pub input : Bytes
    pub sig : Bytes
    pub parsed : from_bytes s m payload ≡ ok signed
    pub signs :
        build_sig_input s m signed.ciphertext aad signed.sender_id signed.recipient_id
          (pos signed.message_index)
        ≡ ok input
    pub is_bytes : signed.signature ≡ bin sig
    pub verifies : verify_hybrid_signature s input sig ik_sig_pub ≡ ok true
    pub pinned : (expected ≡ none) ⊎ (expected ≡ some ik_sig_pub)

  accept :
      (payload aad pub_key : Bytes) (expected : Option Bytes) (c : SignedCiphertext)
      → from_bytes s m payload ≡ ok c
      → verify_ciphertext s m c aad pub_key expected ≡ ok tt
      → Accepted payload aad pub_key expected c
  unfolding verify_ciphertext
  accept payload aad pub_key expected c parsed v =
      elim (Result-cases
        (build_sig_input s m c.ciphertext aad c.sender_id c.recipient_id (pos c.message_index))) [
          | inl (input, q) ↦
              let (sig, e, verified) =
                verify_value_sound input c.signature pub_key (ground arith) in
              record {
                input = input;
                sig = sig;
                parsed = parsed;
                signs = q;
                is_bytes = e;
                verifies = verified;
                pinned = check_pinned_sound expected pub_key (ground arith);
              }
          | inr (x, q) ↦ absurd (ground arith)
        ]

  -- An accepted payload parses, its signature is a byte string that verifies under the given key
  -- over exactly the ciphertext, sender, recipient and index that are returned and the caller's
  -- associated data, and the key equals the pinned one if there is one.
  pub verify_and_extract_sound :
      (payload aad ik_sig_pub : Bytes) (expected : Option Bytes) {signed : SignedCiphertext}
      → verify_and_extract s m payload aad ik_sig_pub expected ≡ ok signed
      → Accepted payload aad ik_sig_pub expected signed
  unfolding verify_and_extract
  verify_and_extract_sound payload aad ik_sig_pub expected {signed} e =
      elim (Result-cases (from_bytes s m payload)) [
        | inl (c, q) ↦ elim (Result-cases (verify_ciphertext s m c aad ik_sig_pub expected)) [
          | inl (u, v) ↦
              let same : c ≡ signed = ground arith in
              rw (← same) (accept payload aad ik_sig_pub expected c q v)
          | inr (x, v) ↦ absurd (ground arith)
        ]
        | inr (x, q) ↦ absurd (ground arith)
      ]

  -- A payload of five fields whose index is below 2^64 and whose signature field is an integer
  -- raises a TypeError, which verify_and_extract does not turn into the uniform
  -- SignatureVerificationError.
  pub verify_and_extract_type_error :
      (payload aad ik_sig_pub : Bytes) (expected : Option Bytes)
      (sender recipient ciphertext : Value) (n : ℕ) (k : ℤ)
      → m.unpackb payload ≡ ok (sender ∷ recipient ∷ int (pos n) ∷ int k ∷ ciphertext ∷ [])
      → n < u64_limit
      → verify_and_extract s m payload aad ik_sig_pub expected ≡ err type_error
  unfolding verify_and_extract from_bytes
  verify_and_extract_type_error payload aad ik_sig_pub expected sender recipient ciphertext n k e
        h =
      ground (arith, lt→ltb n u64_limit h)

  as_uint64_fits : (n : ℕ) → n < u64_limit → as_uint64 (pos n) ≡ ok n
  unfolding as_uint64
  as_uint64_fits n h = ground (arith, lt→ltb n u64_limit h)

  from_fields_fits :
      (n : ℕ) (ct sig sender recipient : Bytes)
      → n < u64_limit
      → length sig ≡ hybrid_signature_len
      → ct ≢ []
      → from_fields (bin sender ∷ bin recipient ∷ int (pos n) ∷ bin sig ∷ bin ct ∷ [])
        ≡ ok (record {
          ciphertext = bin ct;
          signature = bin sig;
          sender_id = bin sender;
          recipient_id = bin recipient;
          message_index = n;
        })
  unfolding from_fields
  from_fields_fits n [] sig sender recipient h size nonempty = absurd (nonempty refl)
  from_fields_fits n (b ∷ ct) sig sender recipient h size nonempty =
      rw (lt→ltb n u64_limit h, (nat_beq_iff _ _).1 size)

  read_back :
      MsgpackLaws m
      → (c : SignedCiphertext) (n : ℕ) (ct sig sender recipient wire : Bytes)
      → c ≡ record {
        ciphertext = bin ct;
        signature = bin sig;
        sender_id = bin sender;
        recipient_id = bin recipient;
        message_index = n;
      }
      → n < u64_limit
      → length sig ≡ hybrid_signature_len
      → ct ≢ []
      → to_bytes s m c ≡ ok wire
      → from_bytes s m wire ≡ ok c
  unfolding to_bytes from_bytes
  read_back mp c n ct sig sender recipient wire e h size nonempty written =
      let fields : m.unpackb wire
          ≡ ok (bin sender ∷ bin recipient ∷ int (pos n) ∷ bin sig ∷ bin ct ∷ []) =
        mp.unpackb-packb _ (rw e at written) in
      rw (fields, e) (from_fields_fits n ct sig sender recipient h size nonempty)

  extract :
      (payload aad pub_key : Bytes) (expected : Option Bytes) (c : SignedCiphertext)
      → from_bytes s m payload ≡ ok c
      → verify_ciphertext s m c aad pub_key expected ≡ ok tt
      → verify_and_extract s m payload aad pub_key expected ≡ ok c
  unfolding verify_and_extract
  extract payload aad pub_key expected c read verified = rw (read, verified)

  verify_ok :
      (c : SignedCiphertext) (aad pub_key input sig : Bytes) (pin : Bool)
      → c.signature ≡ bin sig
      → build_sig_input s m c.ciphertext aad c.sender_id c.recipient_id (pos c.message_index)
        ≡ ok input
      → verify_hybrid_signature s input sig pub_key ≡ ok true
      → verify_ciphertext s m c aad pub_key (if pin then some pub_key else none) ≡ ok tt
  unfolding verify_ciphertext verify_value checked check_pinned
  verify_ok c aad pub_key input sig true e q good =
      rw (q, e, good, (list_beq_iff pub_key pub_key).1 refl)
  verify_ok c aad pub_key input sig false e q good = rw (q, e, good)

  -- What a generated key pair signs, with a body that is not empty and an index below 2^64,
  -- verify_and_extract accepts after serialisation, under the same associated data and the
  -- signer's public key, pinned or not, and it returns what was signed.
  pub verify_and_extract-sign :
      SuiteLaws s
      → MsgpackLaws m
      → (ed_coins dsa_coins ciphertext aad sender recipient wire : Bytes) (n : ℕ) (pin : Bool)
        {signed : SignedCiphertext}
      → let kp = generate_signing_keypair s ed_coins dsa_coins in
        n < u64_limit
        → ciphertext ≢ []
        → sign_ciphertext s m kp ciphertext aad sender recipient (pos n) ≡ ok signed
        → to_bytes s m signed ≡ ok wire
        → verify_and_extract s m wire aad kp.public_key (if pin then some kp.public_key else none)
          ≡ ok signed
  unfolding sign_ciphertext to_bytes
  verify_and_extract-sign laws mp ed_coins dsa_coins ct aad sender recipient wire n pin {signed} h
        nonempty signing packed =
      let kp = generate_signing_keypair s ed_coins dsa_coins in
      elim (Result-cases (build_sig_input s m (bin ct) aad (bin sender) (bin recipient) (pos n))) [
        | inl (input, q) ↦
            let sig = sign s kp input in
            let (good, size) = verify_hybrid_signature-sign s laws ed_coins dsa_coins input in
            let c : SignedCiphertext = record {
              ciphertext = bin ct;
              signature = bin sig;
              sender_id = bin sender;
              recipient_id = bin recipient;
              message_index = n;
            } in
            let made : sign_ciphertext s m kp ct aad sender recipient (pos n) ≡ ok c =
              rw (q, as_uint64_fits n h, (nat_beq_iff (length sig) hybrid_signature_len).1 size) in
            let same : c ≡ signed = cc (made, signing) in
            let written : to_bytes s m c ≡ ok wire = rw (same) packed in
            let read : from_bytes s m wire ≡ ok c =
              read_back mp c n ct sig sender recipient wire refl h size nonempty written in
            rw (← same) (
              extract wire aad kp.public_key _ c read
                (verify_ok c aad kp.public_key input sig pin refl q good))
        | inr (x, q) ↦ absurd (ground arith)
      ]
