-- ===== src/Store/States/Writes.antt =====
-- state_store.py: what a call of save_state writes, and which files it leaves alone.
use desperate.Prelude.{◌≡◌, ◌≢◌, arith, true, none, ◌⊎◌, inl, inr, ◌++◌, list_eq, string_eq, nat_eq}
use desperate.Prelude.Dict.{lookup}
use desperate.Outcome.{ok, err, file_not_found, Result-cases, Exception}
use desperate.Codec.Words.{Bytes}
use desperate.Codec.Hex.{Text}
use desperate.Codec.Ascii.{ascii}
use desperate.Crypto.{Cipher}
use desperate.Json.{Json, obj, Fields}
use desperate.Store.{StateStore, salt_path}
use desperate.Store.AtomicWrite.{FileSystem, WriteIo, atomic_write}
use desperate.Store.AtomicWrite.Laws.{atomic_write_lem}
use desperate.Store.Paths.{session_dir, state_name, state_path, make_ad, validate_session_id}
use desperate.Store.Paths.Laws.{temp-apart-state, state_path_injective, session-apart-salt}
use desperate.Store.States.{
  JsonCodec, encrypt_write, write_blob, write_payload, read_decrypt, save_state, load_state,
  state_exists,
}

module _ (c : Cipher) (j : JsonCodec) (st : StateStore) where
  -- What is loaded depends on the state's file alone.
  pub load_state-ext :
      (id : Text) (fs fs' : FileSystem)
      → lookup (state_path st.base_dir id) fs' ≡ lookup (state_path st.base_dir id) fs
      → load_state c j st id fs' ≡ load_state c j st id fs
  unfolding load_state read_decrypt
  load_state-ext id fs fs' e = rw e

  pub load_state_missing :
      (id : Text) (fs : FileSystem)
      → validate_session_id id ≡ ok tt
      → lookup (state_path st.base_dir id) fs ≡ none
      → load_state c j st id fs ≡ err file_not_found
  unfolding load_state
  load_state_missing id fs v gone = rw (v, gone)

  -- A call of `save_state` that came to write its file.
  pub record Written (id : Text) (state : Fields) (nonce : Bytes) (io : WriteIo) (fs : FileSystem)
      : Type 0 where
    pub payload : Bytes
    pub ct : Bytes
    pub valid : validate_session_id id ≡ ok tt
    pub dumped : j.dumps (obj state) ≡ ok payload
    pub sealed : c.encrypt st.enc_key nonce payload (make_ad id (ascii "state")) ≡ ok ct
    pub call :
        save_state c j st id state nonce io fs
        ≡ atomic_write (session_dir st.base_dir) (state_name id) (nonce ++ ct) io fs

  pub save_state-cases :
      (id : Text) (state : Fields) (nonce : Bytes) (io : WriteIo) (fs : FileSystem)
      → Written id state nonce io fs
        ⊎ ((x : Exception) × (save_state c j st id state nonce io fs ≡ (err x, fs)))
  unfolding save_state write_payload encrypt_write write_blob
  save_state-cases id state nonce io fs = elim (Result-cases (validate_session_id id)) [
    | inl (u, v) ↦ elim (Result-cases (j.dumps (obj state))) [
      | inl (payload, d) ↦
          elim (Result-cases (c.encrypt st.enc_key nonce payload (make_ad id (ascii "state")))) [
            | inl (ct, q) ↦ inl (record {
              payload = payload;
              ct = ct;
              valid = v;
              dumped = d;
              sealed = q;
              call = rw (v, d, q);
            })
            | inr (x, q) ↦ inr (x, rw (v, d, q))
          ]
      | inr (x, d) ↦ inr (x, rw (v, d))
    ]
    | inr (x, v) ↦ inr (x, rw v)
  ]

  -- The files of other sessions after a call of `save_state`.
  pub save_state-lookup :
      (id : Text) (state : Fields) (nonce : Bytes) (io : WriteIo) (fs : FileSystem) (other : Text)
      → id ≢ other
      → lookup (state_path st.base_dir other) (save_state c j st id state nonce io fs).1
        ≡ lookup (state_path st.base_dir other) fs
  save_state-lookup id state nonce io fs other apart =
      elim (save_state-cases id state nonce io fs) [
        | inl w ↦ rw w.call (
            (atomic_write_lem (session_dir st.base_dir) (state_name id) (nonce ++ w.ct) io fs
                (temp-apart-state st.base_dir id io)).0
              (state_path st.base_dir other)
              (λ e. apart (state_path_injective st.base_dir id other e))
              (temp-apart-state st.base_dir other io))
        | inr (x, e) ↦ rw e
      ]

  -- The salt after a call of `save_state`.
  pub save_state-salt :
      (id : Text) (state : Fields) (nonce : Bytes) (io : WriteIo) (fs : FileSystem)
      → lookup (salt_path st.base_dir) (save_state c j st id state nonce io fs).1
        ≡ lookup (salt_path st.base_dir) fs
  save_state-salt id state nonce io fs = elim (save_state-cases id state nonce io fs) [
    | inl w ↦
        let (apart, apart_temp) = session-apart-salt st.base_dir id io in
        rw w.call (
          (atomic_write_lem (session_dir st.base_dir) (state_name id) (nonce ++ w.ct) io fs
              (temp-apart-state st.base_dir id io)).0
            (salt_path st.base_dir) apart apart_temp)
    | inr (x, e) ↦ rw e
  ]

  -- A state that loads stands in a file, under a good session id.
  pub load_state-exists :
      (id : Text) (fs : FileSystem) {v : Json}
      → load_state c j st id fs ≡ ok v
      → (validate_session_id id ≡ ok tt) × (state_exists c j st id fs ≡ true)
  unfolding load_state state_exists
  load_state-exists id fs e = ground arith
