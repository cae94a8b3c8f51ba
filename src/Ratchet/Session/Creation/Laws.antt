-- ===== src/Ratchet/Session/Creation/Laws.antt =====
-- A session that is written is the session that is loaded, and a first message reaches the other
-- side.
use desperate.Prelude.{
  ℕ, ◌+◌, ◌≤◌, ◌≡◌, refl, sym, ◌∙◌, ap, subst, arith, none, false, ◌++◌, length, ltb, nat_eq,
  list_eq, string_eq,
}
use desperate.Outcome.{Result, ok, err}
use desperate.Codec.Words.{Bytes, pack_u32}
use desperate.Crypto.{Cipher, CipherLaws}
use desperate.Constants.{nonce_len, max_header_messages}
use desperate.Counter.{create}
use desperate.Json.{obj, at, find, as_num, as_fields}
use desperate.Store.{StateStore}
use desperate.Store.AtomicWrite.{FileSystem, WriteIo}
use desperate.Store.States.{JsonCodec, JsonCodecLaws, load_state, counter_of}
use desperate.Ratchet.Session.{
  DoubleRatchet, RatchetSession, session_state, encrypt, encrypt_indexed, commit, acknowledge,
  persist,
}
use desperate.Ratchet.Session.Laws.{encrypt_returns}
use desperate.Ratchet.Session.Creation.{load_session}

-- The package reads back the state that it wrote.
pub record StateLaws {R : Type 0} (d : DoubleRatchet R) : Type 0 where
  pub from_json-json : (r : R) → d.from_json (d.json r) ≡ ok r

module _ {R : Type 0} (d : DoubleRatchet R) (c : Cipher) (j : JsonCodec) (st : StateStore)
    (laws : StateLaws d) where
  load_session_lem :
      (s : RatchetSession R) (index : ℕ) (fs : FileSystem)
      → s.counter.session_id ≡ s.session_id
      → s.counter.counter ≤ max_header_messages
      → load_state c j st s.session_id fs ≡ ok (obj (session_state d c j st s index))
      → load_session d c j st s.session_id fs ≡ ok (record s { msg_index = index })
  unfolding load_session session_state at find as_num counter_of as_fields create
  load_session_lem s index fs own low stored =
      let fits : ltb max_header_messages s.counter.counter ≡ false = ground arith in
      let kept : record { session_id = s.session_id; counter = s.counter.counter } ≡ s.counter =
        ap (λ t. record s.counter { session_id = t }) (sym own) in
      rw (stored, laws.from_json-json s.ratchet, fits)
        (ap (λ t. ok (record s { msg_index = index; counter = t })) kept)

  Keeps : RatchetSession R → RatchetSession R → Type 0
  Keeps s s' = (s'.session_id ≡ s.session_id) × (s'.counter ≡ s.counter)

  acknowledge-Keeps :
      (s s' : RatchetSession R) (next : ℕ) (wire : Bytes) (r : Result (Unit {0}) × FileSystem)
      → Keeps s s'
      → Keeps s (acknowledge d c j st s' next wire r).1
  unfolding Keeps acknowledge
  acknowledge-Keeps s s' next wire (err e, fs) k = k
  acknowledge-Keeps s s' next wire (ok tt, fs) k = k

  commit-Keeps :
      (s s' : RatchetSession R) (next : ℕ) (nonce : Bytes) (io : WriteIo) (fs : FileSystem)
      (r : Result Bytes)
      → Keeps s s'
      → Keeps s (commit d c j st s' next nonce io fs r).1
  unfolding commit
  commit-Keeps s s' next nonce io fs (err e) k = k
  commit-Keeps s s' next nonce io fs (ok wire) k =
      acknowledge-Keeps s s' next wire (persist d c j st s' next nonce io fs) k

  indexed-Keeps :
      (s : RatchetSession R) (plaintext ad nonce : Bytes) (io : WriteIo) (fs : FileSystem)
      (packed : Result Bytes)
      → Keeps s (encrypt_indexed d c j st s plaintext ad nonce io fs packed).1
  unfolding encrypt_indexed Keeps
  indexed-Keeps s plaintext ad nonce io fs (err e) = (refl, refl)
  indexed-Keeps s plaintext ad nonce io fs (ok b) =
      commit-Keeps s (record s { ratchet = (d.encrypt_message s.ratchet plaintext (b ++ ad)).1 })
        (s.msg_index + 1) nonce io fs _ (refl, refl)

  module _ (cipher_laws : CipherLaws c) (json_laws : JsonCodecLaws j) where
    -- Where os.write takes every byte and the nonce drawn has 12 bytes, and the header counter is
    -- the session's own and within its bound: after a call of encrypt that returned, load gives
    -- the session as the call left it.
    pub load_session-encrypt :
        (s : RatchetSession R) (plaintext ad nonce : Bytes) (io : WriteIo) (fs : FileSystem)
        {wire : Bytes}
        → length nonce ≡ nonce_len
        → io.taken ≡ none
        → s.counter.session_id ≡ s.session_id
        → s.counter.counter ≤ max_header_messages
        → (encrypt d c j st s plaintext ad nonce io fs).0 ≡ ok wire
        → let (sent, s', fs') = encrypt d c j st s plaintext ad nonce io fs in
          load_session d c j st s.session_id fs' ≡ ok s'
    unfolding Keeps
    load_session-encrypt s plaintext ad nonce io fs size whole own low returned =
        let s' = (encrypt d c j st s plaintext ad nonce io fs).1 in
        let done =
          encrypt_returns d c j st cipher_laws json_laws s plaintext ad nonce io fs size whole
            returned in
        let (same_id, same_counter) = kept s plaintext ad nonce io fs in
        subst (λ t. load_session d c j st t (encrypt d c j st s plaintext ad nonce io fs).2 ≡ ok s')
          same_id
          (load_session_lem s' s'.msg_index _
            (ap (λ k. k.session_id) same_counter ∙ own ∙ sym same_id) (rw same_counter low)
            done.stored)
      where
        kept :
            (s : RatchetSession R) (plaintext ad nonce : Bytes) (io : WriteIo) (fs : FileSystem)
            → Keeps s (encrypt d c j st s plaintext ad nonce io fs).1
        kept s plaintext ad nonce io fs =
            unfold encrypt in indexed-Keeps s plaintext ad nonce io fs (pack_u32 (s.msg_index + 1))
