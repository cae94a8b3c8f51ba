-- ===== src/Ratchet/Session/Creation/FirstMessage.antt =====
-- The first message of an initiator reaches the responder.
use desperate.Prelude.{
  ℕ, ◌≡◌, refl, ◌∙◌, arith, false, ◌++◌, length, take-append, ltb, inl, inr, list_eq, nat_eq,
}
use desperate.Outcome.{Result, ok, err, Result-cases, ◌>>=◌}
use desperate.Codec.Words.{Bytes, pack_u32, unpack_le}
use desperate.Codec.Hex.{Text}
use desperate.Crypto.{Cipher, Agreement}
use desperate.Store.{StateStore}
use desperate.Store.AtomicWrite.{FileSystem, WriteIo}
use desperate.Store.States.{JsonCodec}
use desperate.Ratchet.{EncryptedMessage}
use desperate.Ratchet.Laws.{packed, laid, drop-pn, drop-n, drop-key, drop-ct, long_enough}
use desperate.Ratchet.Session.{DoubleRatchet, RatchetSession, persist}
use desperate.Ratchet.Session.Creation.{
  initial_wire, read_initial_wire, enrol, first_message, create_as_initiator, open_first,
  create_as_responder,
}

-- The package opens a first message with the private key it was sent to. A ratchet key has 32 bytes.
pub record InitialLaws {R : Type 0} (d : DoubleRatchet R) (x : Agreement) : Type 0 where
  pub initial_opens :
      (sk priv message ad : Bytes) {r : R} {m : EncryptedMessage}
      → length priv ≡ 32
      → d.encrypt_initial_message sk (x.public priv) message ad ≡ ok (r, m)
      → (r' : R) × (d.decrypt_initial_message sk priv m ad ≡ ok (r', message))
  pub initial_key_length :
      (sk ratchet_pub message ad : Bytes) {r : R} {m : EncryptedMessage}
      → d.encrypt_initial_message sk ratchet_pub message ad ≡ ok (r, m)
      → length m.header.ratchet_pub ≡ 32

module _ (i pn n key ct : Bytes) (hi : length i ≡ 4) (hp : length pn ≡ 4) (hn : length n ≡ 4)
    (hk : length key ≡ 32) where
  read_laid : read_initial_wire (laid i pn n key ct) ≡ (
      pack_u32 (unpack_le i) >>= λ index_bytes. ok (
        index_bytes,
        record {
          header = record {
            ratchet_pub = key;
            previous_sending_chain_length = unpack_le pn;
            sending_chain_length = unpack_le n;
          };
          ciphertext = ct;
        },
      ))
  unfolding read_initial_wire desperate.Prelude.list_beq
  read_laid =
      let long : ltb (length (laid i pn n key ct)) 45 ≡ false =
        ground (arith, long_enough i pn n key ct hi hp hn hk) in
      rw
        (
          long,
          drop-pn i pn n key ct hi hp hn hk,
          drop-n i pn n key ct hi hp hn hk,
          drop-key i pn n key ct hi hp hn hk,
          drop-ct i pn n key ct hi hp hn hk,
          take-append 4 i (pn ++ (n ++ (key ++ ct))) hi,
          take-append 4 pn (n ++ (key ++ ct)) hp,
          take-append 4 n (key ++ ct) hn,
          take-append 32 key ct hk,
        )
        refl

read_initial_wire-initial_wire :
    (index : ℕ) (m : EncryptedMessage) {i wire : Bytes}
    → length m.header.ratchet_pub ≡ 32
    → pack_u32 index ≡ ok i
    → initial_wire index m ≡ ok wire
    → read_initial_wire wire ≡ ok (i, m)
unfolding initial_wire
read_initial_wire-initial_wire index m {i} {wire} size ei e =
    let key = m.header.ratchet_pub in
    let p = m.header.previous_sending_chain_length in
    let q = m.header.sending_chain_length in
    elim (Result-cases (pack_u32 p)) [
      | inl (pn, ep) ↦ elim (Result-cases (pack_u32 q)) [
        | inl (n, en) ↦
            let form : laid i pn n key m.ciphertext ≡ wire = ground arith in
            let (bi, vi) = packed index i ei in
            let (bp, vp) = packed p pn ep in
            let (bn, vn) = packed q n en in
            rw (← form) (read_laid i pn n key m.ciphertext bi bp bn size ∙ rw (vi, vp, vn, ei) refl)
        | inr (x, en) ↦ absurd (ground arith)
      ]
      | inr (x, ep) ↦ absurd (ground arith)
    ]

module _ {R : Type 0} (d : DoubleRatchet R) where
  open_first-first_message :
      (x : Agreement) (laws : InitialLaws d x) (sk priv plaintext ad : Bytes) {r : R} {wire : Bytes}
      → length priv ≡ 32
      → first_message d sk (x.public priv) plaintext ad ≡ ok (r, wire)
      → (r' : R) × (open_first d sk priv wire ad ≡ ok (r', plaintext))
  unfolding first_message open_first
  open_first-first_message x laws sk priv plaintext ad {r} {wire} size e =
      elim (Result-cases (pack_u32 1)) [
        | inl (i, ei) ↦
            elim (Result-cases (d.encrypt_initial_message sk (x.public priv) plaintext (i ++ ad))) [
              | inl ((made, m), em) ↦
                  let (r', opened) = laws.initial_opens sk priv plaintext (i ++ ad) size em in
                  let key = laws.initial_key_length sk (x.public priv) plaintext (i ++ ad) em in
                  let sent : initial_wire 1 m ≡ ok wire = ground arith in
                  let read = read_initial_wire-initial_wire 1 m key ei sent in (r', ground arith)
              | inr (y, em) ↦ absurd (ground arith)
            ]
        | inr (y, ei) ↦ absurd (ground arith)
      ]

module _ {R : Type 0} (d : DoubleRatchet R) (c : Cipher) (j : JsonCodec) where
  -- What the initiator's call made, if it returned.
  enrolled :
      (st : StateStore) (session_id : Text) (index : ℕ) (nonce : Bytes) (io : WriteIo)
      (fs : FileSystem) (r : Result (R × Bytes)) {s : RatchetSession R} {b : Bytes}
      → (enrol d c j st session_id index nonce io fs r).0 ≡ ok (s, b)
      → (s.msg_index ≡ index) × (r ≡ ok (s.ratchet, b))
  unfolding enrol
  enrolled st session_id index nonce io fs (err e) h = absurd (cc)
  enrolled st session_id index nonce io fs (ok (ratchet, text)) {s} {b} h =
      let s0 : RatchetSession R = record {
        session_id = session_id;
        msg_index = index;
        ratchet = ratchet;
        counter = record { session_id = session_id; counter = 0 };
      } in
      elim (Result-cases (persist d c j st s0 index nonce io fs).0) [
        | inl (u, q) ↦ ground arith
        | inr (x, q) ↦ absurd (ground arith)
      ]

  -- If create_as_initiator returned a session and a wire message, its send index is 1, and
  -- create_as_responder, with the same secret and associated data and the private key whose
  -- public key the initiator had, returns a session with send index 0 and the initiator's
  -- plaintext, unless writing that session's state raises.
  pub create_as_responder-create_as_initiator :
      (x : Agreement) (laws : InitialLaws d x) (st st' : StateStore) (sk priv plaintext ad : Bytes)
      (session_id session_id' : Text) (nonce nonce' : Bytes) (io io' : WriteIo)
      (fs fs' : FileSystem) {s : RatchetSession R} {wire : Bytes}
      → length priv ≡ 32
      → (create_as_initiator d c j st sk (x.public priv) plaintext ad session_id nonce io fs).0
        ≡ ok (s, wire)
      → (s.msg_index ≡ 1)
        × ((s' : RatchetSession R) × (s'.msg_index ≡ 0)
            × ((create_as_responder d c j st' sk priv wire ad session_id' nonce' io' fs').0
                ≡ ((persist d c j st' s' 0 nonce' io' fs').0 >>= λ _. ok (s', plaintext))))
  unfolding create_as_initiator create_as_responder enrol
  create_as_responder-create_as_initiator x laws st st' sk priv plaintext ad session_id session_id'
        nonce nonce' io io' fs fs' {s} {wire} size returned =
      let (index, made) =
        enrolled st session_id 1 nonce io fs (first_message d sk (x.public priv) plaintext ad)
          returned in
      let (r', opened) = open_first-first_message d x laws sk priv plaintext ad size made in
      (
        index,
        (
          record {
            session_id = session_id';
            msg_index = 0;
            ratchet = r';
            counter = record { session_id = session_id'; counter = 0 };
          },
          refl,
          rw opened refl,
        ),
      )
