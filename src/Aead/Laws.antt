-- ===== src/Aead/Laws.antt =====
-- What the two encryption layers promise.
use desperate.Prelude.{
  ◌+◌, ◌≤◌, ◌≡◌, ◌≢◌, refl, arith, ◌++◌, length, length-append, take-append, drop-append, ltb,
  ltb→lt, Bool-cases, list_beq, list_beq_iff, inl, inr, if◌then◌else◌, ◌∙◌, ap,
}
use desperate.Prelude.Int.{ℤ}
use desperate.Outcome.{ok, err, invalid_tag, Result-cases}
use desperate.Codec.Words.{Bytes, pack_u64}
use desperate.Constants.{nonce_len, max_header_messages}
use desperate.Crypto.{Hashes, HashLaws, Cipher, CipherLaws}
use desperate.Counter.{HeaderCounter}
use desperate.Counter.Nonces.{next_nonce_lem}
use desperate.Aead.{
  as_uint64, nonce_info, derive_nonce, encrypt, decrypt, encrypt_header, decrypt_header,
}

module _ (h : Hashes) (c : Cipher) (hash_laws : HashLaws h) (cipher_laws : CipherLaws c) where
  derive_nonce-length :
      (key : Bytes) (index : ℤ) {nonce : Bytes}
      → derive_nonce h c key index ≡ ok nonce
      → length nonce ≡ nonce_len
  unfolding derive_nonce
  derive_nonce-length key index e = elim (Result-cases (as_uint64 index)) [
    | inl (n, r) ↦ elim (Result-cases (pack_u64 n)) [
      | inl (word, q) ↦ hash_laws.hkdf_length key word nonce_info nonce_len (ground arith)
      | inr (x, q) ↦ absurd (ground arith)
    ]
    | inr (x, r) ↦ absurd (ground arith)
  ]

  -- The parts of a message that `encrypt` returned.
  record Sealed (key plaintext ad : Bytes) (index : ℤ) (wire : Bytes) : Type 0 where
    nonce : Bytes
    ct : Bytes
    derived : derive_nonce h c key index ≡ ok nonce
    sealed : c.encrypt key nonce plaintext ad ≡ ok ct
    layout : nonce ++ ct ≡ wire

  encrypt-Sealed :
      (key plaintext ad : Bytes) (index : ℤ) {wire : Bytes}
      → encrypt h c key plaintext ad index ≡ ok wire
      → Sealed key plaintext ad index wire
  unfolding encrypt
  encrypt-Sealed key plaintext ad index e = elim (Result-cases (derive_nonce h c key index)) [
    | inl (nonce, r) ↦ elim (Result-cases (c.encrypt key nonce plaintext ad)) [
      | inl (ct, q) ↦ record {
        nonce = nonce;
        ct = ct;
        derived = r;
        sealed = q;
        layout = ground arith;
      }
      | inr (x, q) ↦ absurd (ground arith)
    ]
    | inr (x, r) ↦ absurd (ground arith)
  ]

  -- `decrypt` on a message cut from a nonce and a ciphertext long enough.
  decrypt_parts :
      (key ad nonce ct : Bytes) (index : ℤ) {expected : Bytes}
      → length nonce ≡ nonce_len
      → 16 ≤ length ct
      → derive_nonce h c key index ≡ ok expected
      → decrypt h c key (nonce ++ ct) ad index
        ≡ (if list_beq nonce expected then c.decrypt key expected ct ad else err invalid_tag)
  unfolding decrypt
  decrypt_parts key ad nonce ct index size tag e = ground (
    arith,
    length-append nonce ct,
    take-append nonce_len nonce ct size,
    drop-append nonce_len nonce ct size,
  )

  -- What encrypt returned under a key and an index, decrypt opens under the same key, index and
  -- associated data, and it is 28 bytes longer than the plaintext.
  pub decrypt-encrypt :
      (key plaintext ad : Bytes) (index : ℤ) {wire : Bytes}
      → encrypt h c key plaintext ad index ≡ ok wire
      → (decrypt h c key wire ad index ≡ ok plaintext) × (length wire ≡ length plaintext + 28)
  decrypt-encrypt key plaintext ad index e =
      let m = encrypt-Sealed key plaintext ad index e in
      let size = derive_nonce-length key index m.derived in
      let tag = cipher_laws.encrypt_length key m.nonce plaintext ad m.sealed in
      rw (← m.layout) (
        decrypt_parts key ad m.nonce m.ct index size (omega arith) m.derived
            ∙ rw ((list_beq_iff m.nonce m.nonce).1 refl)
                (cipher_laws.decrypt-encrypt key m.nonce plaintext ad m.sealed),
        omega (arith, length-append m.nonce m.ct),
      )

  -- A message that was encrypted under one index is refused with InvalidTag under another index
  -- of which the derived nonce differs, before the cipher is called.
  pub decrypt_other_index :
      (key plaintext ad ad' : Bytes) (index index' : ℤ) {wire expected : Bytes}
      → encrypt h c key plaintext ad index ≡ ok wire
      → derive_nonce h c key index' ≡ ok expected
      → derive_nonce h c key index ≢ ok expected
      → decrypt h c key wire ad' index' ≡ err invalid_tag
  decrypt_other_index key plaintext ad ad' index index' {expected = expected} e d differ =
      let m = encrypt-Sealed key plaintext ad index e in
      let size = derive_nonce-length key index m.derived in
      let tag = cipher_laws.encrypt_length key m.nonce plaintext ad m.sealed in
      rw (← m.layout) (
        decrypt_parts key ad' m.nonce m.ct index' size (omega arith) d
        ∙ ground (
          arith,
          list_beq_iff m.nonce expected,
          λ (same : m.nonce ≡ expected). differ (m.derived ∙ ap ok same),
        ))

  decrypt_header_parts :
      (key ad nonce ct : Bytes)
      → length nonce ≡ nonce_len
      → 16 ≤ length ct
      → decrypt_header h c key (nonce ++ ct) ad ≡ c.decrypt key nonce ct ad
  unfolding decrypt_header
  decrypt_header_parts key ad nonce ct size tag = ground (
    arith,
    length-append nonce ct,
    take-append nonce_len nonce ct size,
    drop-append nonce_len nonce ct size,
  )

  -- What encrypt_header returned, decrypt_header opens under the same key and associated data,
  -- and the counter has gone up by one.
  pub decrypt_header-encrypt_header :
      (key plaintext ad : Bytes) (counter : HeaderCounter) {wire : Bytes}
      → (encrypt_header h c key plaintext ad counter).0 ≡ ok wire
      → (decrypt_header h c key wire ad ≡ ok plaintext)
        × ((encrypt_header h c key plaintext ad counter).1.counter ≡ counter.counter + 1)
  unfolding encrypt_header
  decrypt_header-encrypt_header key plaintext ad counter {wire} e =
      elim (Bool-cases (ltb counter.counter max_header_messages)) [
        | inl room ↦
            let (nonce, step, size) = (next_nonce_lem counter).0 (ltb→lt _ _ room) in
            elim (Result-cases (c.encrypt key nonce plaintext ad)) [
              | inl (ct, q) ↦
                  let tag = cipher_laws.encrypt_length key nonce plaintext ad q in
                  let layout : nonce ++ ct ≡ wire = ground arith in
                  (
                    rw (← layout) (
                        decrypt_header_parts key ad nonce ct size (omega arith)
                        ∙ cipher_laws.decrypt-encrypt key nonce plaintext ad q),
                    rw step,
                  )
              | inr (x, q) ↦ absurd (ground arith)
            ]
        | inr full ↦ absurd (ground (arith, (next_nonce_lem counter).1 (ground arith)))
      ]
