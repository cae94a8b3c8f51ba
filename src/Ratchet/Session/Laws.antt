-- ===== src/Ratchet/Session/Laws.antt =====
-- The send index moves exactly with a message that is returned, and the disk follows.
use desperate.Prelude.{ℕ, ◌+◌, ◌≡◌, refl, arith, none, inl, inr, ◌++◌, length}
use desperate.Outcome.{Result, Exception, ok, err, Result-cases, ◌>>=◌}
use desperate.Codec.Words.{Bytes, pack_u32}
use desperate.Crypto.{Cipher, CipherLaws}
use desperate.Constants.{nonce_len}
use desperate.Json.{obj}
use desperate.Store.{StateStore}
use desperate.Store.AtomicWrite.{FileSystem, WriteIo}
use desperate.Store.States.{JsonCodec, JsonCodecLaws, load_state}
use desperate.Store.States.Laws.{save_state_lem}
use desperate.Ratchet.{EncryptedMessage, build_wire}
use desperate.Ratchet.Session.{
  DoubleRatchet, RatchetSession, session_state, persist, acknowledge, commit, encrypt_indexed,
  encrypt, deliver, read_wire, decrypt_read, decrypt,
}

module _ {R : Type 0} (d : DoubleRatchet R) (c : Cipher) (j : JsonCodec) (st : StateStore) where
  -- What a call of `encrypt` that returned has done.
  pub record Sent (s : RatchetSession R) (wire : Bytes) (s' : RatchetSession R) (fs' : FileSystem)
      : Type 0 where
    pub message : EncryptedMessage
    pub built : build_wire (s.msg_index + 1) message ≡ ok wire
    pub index : s'.msg_index ≡ s.msg_index + 1
    pub stored :
        load_state c j st s'.session_id fs' ≡ ok (obj (session_state d c j st s' s'.msg_index))

  commit_raises :
      (s : RatchetSession R) (next : ℕ) (nonce : Bytes) (io : WriteIo) (fs : FileSystem)
      (r : Result Bytes) {x : Exception}
      → (commit d c j st s next nonce io fs r).0 ≡ err x
      → (commit d c j st s next nonce io fs r).1.msg_index ≡ s.msg_index
  unfolding commit acknowledge
  commit_raises s next nonce io fs (err e) h = refl
  commit_raises s next nonce io fs (ok wire) h =
      elim (Result-cases (persist d c j st s next nonce io fs).0) [
        | inl (u, q) ↦ absurd (ground arith)
        | inr (y, q) ↦ ground arith
      ]

  indexed_raises :
      (s : RatchetSession R) (plaintext ad nonce : Bytes) (io : WriteIo) (fs : FileSystem)
      (packed : Result Bytes) {x : Exception}
      → (encrypt_indexed d c j st s plaintext ad nonce io fs packed).0 ≡ err x
      → (encrypt_indexed d c j st s plaintext ad nonce io fs packed).1.msg_index ≡ s.msg_index
  unfolding encrypt_indexed
  indexed_raises s plaintext ad nonce io fs (err e) h = refl
  indexed_raises s plaintext ad nonce io fs (ok b) h =
      commit_raises (record s { ratchet = (d.encrypt_message s.ratchet plaintext (b ++ ad)).1 })
        (s.msg_index + 1) nonce io fs _ h

  -- A call of encrypt that raises, wherever it fails, leaves the send index as it was.
  pub encrypt_raises :
      (s : RatchetSession R) (plaintext ad nonce : Bytes) (io : WriteIo) (fs : FileSystem)
      {x : Exception}
      → (encrypt d c j st s plaintext ad nonce io fs).0 ≡ err x
      → (encrypt d c j st s plaintext ad nonce io fs).1.msg_index ≡ s.msg_index
  unfolding encrypt
  encrypt_raises s plaintext ad nonce io fs h =
      indexed_raises s plaintext ad nonce io fs (pack_u32 (s.msg_index + 1)) h

  module _ (cipher_laws : CipherLaws c) (json_laws : JsonCodecLaws j) where
    commit_returns :
        (s : RatchetSession R) (next : ℕ) (nonce : Bytes) (io : WriteIo) (fs : FileSystem)
        (r : Result Bytes) {wire : Bytes}
        → length nonce ≡ nonce_len
        → io.taken ≡ none
        → (commit d c j st s next nonce io fs r).0 ≡ ok wire
        → (r ≡ ok wire)
          × ((commit d c j st s next nonce io fs r).1.msg_index ≡ next)
          × (load_state c j st
                (commit d c j st s next nonce io fs r).1.session_id
                (commit d c j st s next nonce io fs r).2
              ≡ ok (obj (session_state d c j st (commit d c j st s next nonce io fs r).1 next)))
    unfolding commit acknowledge persist session_state
    commit_returns s next nonce io fs (err e) size whole h = absurd (cc)
    commit_returns s next nonce io fs (ok w) size whole h =
        elim (Result-cases (persist d c j st s next nonce io fs).0) [
          | inl (u, q) ↦
              let saved =
                save_state_lem c j st cipher_laws json_laws s.session_id
                  (session_state d c j st s next) nonce io fs size whole in
              (ground arith, rw q, rw q (saved.0 q))
          | inr (y, q) ↦ absurd (ground arith)
        ]

    indexed_returns :
        (s : RatchetSession R) (plaintext ad nonce : Bytes) (io : WriteIo) (fs : FileSystem)
        (packed : Result Bytes) {wire : Bytes}
        → length nonce ≡ nonce_len
        → io.taken ≡ none
        → (encrypt_indexed d c j st s plaintext ad nonce io fs packed).0 ≡ ok wire
        → Sent s wire
            (encrypt_indexed d c j st s plaintext ad nonce io fs packed).1
            (encrypt_indexed d c j st s plaintext ad nonce io fs packed).2
    unfolding encrypt_indexed
    indexed_returns s plaintext ad nonce io fs (err e) size whole h = absurd (cc)
    indexed_returns s plaintext ad nonce io fs (ok b) {wire} size whole h =
        let made = d.encrypt_message s.ratchet plaintext (b ++ ad) in
        let next = s.msg_index + 1 in
        let moved : RatchetSession R = record s { ratchet = made.1 } in
        let (e, index, stored) =
          commit_returns moved next nonce io fs (made.0 >>= λ m. build_wire next m) size whole h in
        elim (Result-cases made.0) [
          | inl (m, q) ↦ record {
            message = m;
            built = ground arith;
            index = index;
            stored = rw index stored;
          }
          | inr (y, q) ↦ absurd (ground arith)
        ]

    -- Where os.write takes every byte and the nonce drawn has 12 bytes: a call of encrypt that
    -- returns has advanced the send index by one, its wire message carries that index, and the
    -- state that load_state now gives is that of the session after the call.
    pub encrypt_returns :
        (s : RatchetSession R) (plaintext ad nonce : Bytes) (io : WriteIo) (fs : FileSystem)
        {wire : Bytes}
        → length nonce ≡ nonce_len
        → io.taken ≡ none
        → (encrypt d c j st s plaintext ad nonce io fs).0 ≡ ok wire
        → Sent s wire
            (encrypt d c j st s plaintext ad nonce io fs).1
            (encrypt d c j st s plaintext ad nonce io fs).2
    unfolding encrypt
    encrypt_returns s plaintext ad nonce io fs size whole h =
        indexed_returns s plaintext ad nonce io fs (pack_u32 (s.msg_index + 1)) size whole h

    deliver_lem :
        (s : RatchetSession R) (nonce : Bytes) (io : WriteIo) (fs : FileSystem) (r : Result Bytes)
        → length nonce ≡ nonce_len
        → io.taken ≡ none
        → ((deliver d c j st s nonce io fs r).1 ≡ s)
          × ((plaintext : Bytes)
              → (deliver d c j st s nonce io fs r).0 ≡ ok plaintext
              → load_state c j st s.session_id (deliver d c j st s nonce io fs r).2
                ≡ ok (obj (session_state d c j st s s.msg_index)))
    unfolding deliver persist
    deliver_lem s nonce io fs (err e) size whole = (refl, λ p h. absurd cc)
    deliver_lem s nonce io fs (ok t) size whole = (
      refl,
      λ p h. elim (Result-cases (persist d c j st s s.msg_index nonce io fs).0) [
        | inl (u, q) ↦
            (save_state_lem c j st cipher_laws json_laws s.session_id
                (session_state d c j st s s.msg_index) nonce io fs size whole).0
              q
        | inr (y, q) ↦ absurd (ground arith)
      ],
    )

    read_lem :
        (s : RatchetSession R) (ad nonce : Bytes) (io : WriteIo) (fs : FileSystem)
        (r : Result (Bytes × EncryptedMessage))
        → length nonce ≡ nonce_len
        → io.taken ≡ none
        → ((decrypt_read d c j st s ad nonce io fs r).1.msg_index ≡ s.msg_index)
          × ((plaintext : Bytes)
              → (decrypt_read d c j st s ad nonce io fs r).0 ≡ ok plaintext
              → load_state c j st s.session_id (decrypt_read d c j st s ad nonce io fs r).2
                ≡ ok (
                    obj (
                      session_state d c j st
                        (decrypt_read d c j st s ad nonce io fs r).1
                        s.msg_index)))
    unfolding decrypt_read
    read_lem s ad nonce io fs (err e) size whole = (refl, λ p h. absurd cc)
    read_lem s ad nonce io fs (ok (b, m)) size whole =
        let moved : RatchetSession R = record s {
          ratchet = (d.decrypt_message s.ratchet m (b ++ ad)).1;
        } in
        let (same, stored) =
          deliver_lem moved nonce io fs (d.decrypt_message s.ratchet m (b ++ ad)).0 size whole in
        rw same (refl, stored)

    -- Where os.write takes every byte and the nonce drawn has 12 bytes: a call of decrypt never
    -- changes the send index, and if it returns, the state that load_state now gives is that of
    -- the session after the call.
    pub decrypt_lem :
        (s : RatchetSession R) (wire ad nonce : Bytes) (io : WriteIo) (fs : FileSystem)
        → length nonce ≡ nonce_len
        → io.taken ≡ none
        → ((decrypt d c j st s wire ad nonce io fs).1.msg_index ≡ s.msg_index)
          × ((plaintext : Bytes)
              → (decrypt d c j st s wire ad nonce io fs).0 ≡ ok plaintext
              → load_state c j st s.session_id (decrypt d c j st s wire ad nonce io fs).2
                ≡ ok (
                    obj (
                      session_state d c j st
                        (decrypt d c j st s wire ad nonce io fs).1
                        s.msg_index)))
    unfolding decrypt
    decrypt_lem s wire ad nonce io fs size whole =
        read_lem s ad nonce io fs (read_wire wire) size whole
