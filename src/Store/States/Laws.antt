-- ===== src/Store/States/Laws.antt =====
-- What a store promises of the sessions' states.
use desperate.Prelude.{
  ℕ, ◌≡◌, ◌≢◌, refl, sym, ap, ◌∙◌, arith, none, some, ◌⊎◌, inl, inr, ◌++◌, length, list_eq,
  list_beq_iff, string_eq, nat_eq,
}
use desperate.Prelude.Dict.{lookup, erase, lookup-erase}
use desperate.Outcome.{ok, err, file_not_found, ◌>>◌, Result-cases, Exception}
use desperate.Codec.Words.{Bytes}
use desperate.Codec.Hex.{Text}
use desperate.Codec.Ascii.{ascii}
use desperate.Constants.{nonce_len}
use desperate.Crypto.{Cipher, CipherLaws}
use desperate.Json.{num, obj, Fields, find, put, as_num, as_fields, find-put}
use desperate.Store.{StateStore}
use desperate.Store.AtomicWrite.{FileSystem, WriteIo, accepted}
use desperate.Store.AtomicWrite.Laws.{atomic_write_lem, atomic_write_returns}
use desperate.Store.Paths.{
  session_dir, state_name, state_path, meta_path, make_ad, validate_session_id,
}
use desperate.Store.Paths.Laws.{temp-apart-state, meta-apart-state, state_path_injective}
use desperate.Store.States.{
  JsonCodec, JsonCodecLaws, save_state, load_state, delete_session, existing_state, save_counter,
  load_counter, counter_of, save_merged,
}
use desperate.Store.States.Blobs.{blob_Holds}
use desperate.Store.States.Writes.{
  load_state-ext, load_state_missing, save_state-cases, save_state-lookup, load_state-exists,
}

module _ (c : Cipher) (j : JsonCodec) (st : StateStore) where
  -- Saving a session's state, whether the call returns or raises, changes what no other session
  -- loads.
  pub save_state_other :
      (id : Text) (state : Fields) (nonce : Bytes) (io : WriteIo) (fs : FileSystem) (other : Text)
      → id ≢ other
      → load_state c j st other (save_state c j st id state nonce io fs).1
        ≡ load_state c j st other fs
  save_state_other id state nonce io fs other apart =
      load_state-ext c j st other fs _ (save_state-lookup c j st id state nonce io fs other apart)

  -- After delete_session has returned, the session's state is not found, and every other session
  -- loads what it did.
  pub delete_session_lem :
      (id : Text) (fs : FileSystem)
      → (delete_session c j st id fs).0 ≡ ok tt
      → (load_state c j st id (delete_session c j st id fs).1 ≡ err file_not_found)
        × ((other : Text)
            → id ≢ other
            → load_state c j st other (delete_session c j st id fs).1 ≡ load_state c j st other fs)
  unfolding delete_session
  delete_session_lem id fs e = elim (Result-cases (validate_session_id id)) [
    | inl (u, v) ↦
        let state = state_path st.base_dir id in
        let meta = meta_path st.base_dir id in
        let gone : lookup state (erase meta (erase state fs)) ≡ none = ground (
          arith,
          lookup-erase meta state (erase state fs),
          lookup-erase state state fs,
          list_beq_iff state state,
        ) in
        let kept : (other : Text)
            → id ≢ other
            → lookup (state_path st.base_dir other) (erase meta (erase state fs))
              ≡ lookup (state_path st.base_dir other) fs =
          λ other apart. ground (
            arith,
            lookup-erase meta (state_path st.base_dir other) (erase state fs),
            lookup-erase state (state_path st.base_dir other) fs,
            list_beq_iff meta (state_path st.base_dir other),
            list_beq_iff state (state_path st.base_dir other),
            meta-apart-state st.base_dir id other,
            λ (e : state ≡ state_path st.base_dir other).
                apart (state_path_injective st.base_dir id other e),
          ) in
        rw v (
          load_state_missing c j st id _ v gone,
          λ other apart. load_state-ext c j st other fs _ (kept other apart),
        )
    | inr (x, v) ↦ absurd (ground arith)
  ]

  pub save_counter_saves :
      (id : Text) (value : ℕ) (nonce : Bytes) (io : WriteIo) (fs : FileSystem) {old : Fields}
      → (validate_session_id id >> existing_state c j st id fs) ≡ ok old
      → save_counter c j st id value nonce io fs
        ≡ save_state c j st id (put "header_counter" (num value) old) nonce io fs
  unfolding save_counter save_merged
  save_counter_saves id value nonce io fs q = rw q

  save_counter_raises :
      (id : Text) (value : ℕ) (nonce : Bytes) (io : WriteIo) (fs : FileSystem) {x : Exception}
      → (validate_session_id id >> existing_state c j st id fs) ≡ err x
      → (save_counter c j st id value nonce io fs).0 ≢ ok tt
  unfolding save_counter save_merged
  save_counter_raises id value nonce io fs q e = ground arith

  load_counter_of :
      (id : Text) (fs : FileSystem) (d : Fields) {n : ℕ}
      → load_state c j st id fs ≡ ok (obj d)
      → find "header_counter" d ≡ some (num n)
      → load_counter c j st id fs ≡ ok n
  unfolding load_counter counter_of as_fields as_num
  load_counter_of id fs d loaded there =
      let (v, e) = load_state-exists c j st id fs loaded in ground arith

  pub existing_of :
      (id : Text) (fs : FileSystem) (d : Fields) {old : Fields}
      → load_state c j st id fs ≡ ok (obj d)
      → (validate_session_id id >> existing_state c j st id fs) ≡ ok old
      → old ≡ d
  unfolding existing_state as_fields
  existing_of id fs d loaded q = let (v, e) = load_state-exists c j st id fs loaded in ground arith

  module _ (cipher_laws : CipherLaws c) (json_laws : JsonCodecLaws j) where
    -- A blob on disk is opened.
    load_blob :
        (id : Text) (state : Fields) (nonce payload ct : Bytes) (fs : FileSystem)
        → validate_session_id id ≡ ok tt
        → length nonce ≡ nonce_len
        → j.dumps (obj state) ≡ ok payload
        → c.encrypt st.enc_key nonce payload (make_ad id (ascii "state")) ≡ ok ct
        → lookup (state_path st.base_dir id) fs ≡ some (nonce ++ ct)
        → load_state c j st id fs ≡ ok (obj state)
    unfolding load_state
    load_blob id state nonce payload ct fs v size dumped sealed there =
        let h =
          blob_Holds c j st cipher_laws (state_path st.base_dir id) payload
            (make_ad id (ascii "state")) nonce ct fs size sealed there in
        rw (v, h.there, h.opens) (json_laws.loads-dumps (obj state) dumped)

    -- Where os.write takes every byte and the nonce drawn has 12 bytes: a call of save_state that
    -- returns makes load_state give the state that was saved, and one that raises leaves it
    -- giving what it gave before or the state that was to be saved.
    pub save_state_lem :
        (id : Text) (state : Fields) (nonce : Bytes) (io : WriteIo) (fs : FileSystem)
        → length nonce ≡ nonce_len
        → io.taken ≡ none
        → ((save_state c j st id state nonce io fs).0 ≡ ok tt
            → load_state c j st id (save_state c j st id state nonce io fs).1 ≡ ok (obj state))
          × ((load_state c j st id (save_state c j st id state nonce io fs).1
                ≡ load_state c j st id fs)
              ⊎ (load_state c j st id (save_state c j st id state nonce io fs).1 ≡ ok (obj state)))
    save_state_lem id state nonce io fs size whole =
        elim (save_state-cases c j st id state nonce io fs) [
          | inl w ↦
              let blob = nonce ++ w.ct in
              let all = ap (λ t. some (accepted t blob)) whole in
              let fresh = temp-apart-state st.base_dir id io in
              let dir = session_dir st.base_dir in
              rw w.call (
                λ e.
                    load_blob id state nonce w.payload w.ct _ w.valid size w.dumped w.sealed
                      ((atomic_write_returns dir (state_name id) blob io fs fresh e).0 ∙ all),
                elim ((atomic_write_lem dir (state_name id) blob io fs fresh).1) [
                  | inl (raised, old) ↦ inl (load_state-ext c j st id fs _ old)
                  | inr new ↦ inr (
                      load_blob id state nonce w.payload w.ct _ w.valid size w.dumped w.sealed
                        (new ∙ all))
                ],
              )
          | inr (x, e) ↦ rw e (λ q. absurd cc, inl refl)
        ]

    -- Where os.write takes every byte and the nonce drawn has 12 bytes: when save_counter
    -- returns, load_counter gives the value saved, and a state that was there keeps its other
    -- fields.
    pub load_counter-save_counter :
        (id : Text) (value : ℕ) (nonce : Bytes) (io : WriteIo) (fs : FileSystem)
        → length nonce ≡ nonce_len
        → io.taken ≡ none
        → (save_counter c j st id value nonce io fs).0 ≡ ok tt
        → (load_counter c j st id (save_counter c j st id value nonce io fs).1 ≡ ok value)
          × ((d : Fields)
              → load_state c j st id fs ≡ ok (obj d)
              → load_state c j st id (save_counter c j st id value nonce io fs).1
                ≡ ok (obj (put "header_counter" (num value) d)))
    load_counter-save_counter id value nonce io fs size whole e =
        elim (Result-cases (validate_session_id id >> existing_state c j st id fs)) [
          | inl (old, q) ↦
              let d' = put "header_counter" (num value) old in
              let same = save_counter_saves id value nonce io fs q in
              let saved =
                (save_state_lem id d' nonce io fs size whole).0 (sym (ap (λ r. r.0) same) ∙ e) in
              rw same (
                load_counter_of id _ d' saved (find-put "header_counter" (num value) old),
                λ d loaded.
                    saved
                    ∙ ap (λ f. ok (obj (put "header_counter" (num value) f)))
                        (existing_of id fs d loaded q),
              )
          | inr (x, q) ↦ absurd (save_counter_raises id value nonce io fs q e)
        ]
