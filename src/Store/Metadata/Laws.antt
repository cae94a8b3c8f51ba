-- ===== src/Store/Metadata/Laws.antt =====
-- What a store promises of the sessions' metadata.
use desperate.Prelude.{◌≡◌, refl, none, ◌⊎◌, inl, inr, length, list_eq, string_eq, nat_eq}
use desperate.Prelude.Dict.{lookup}
use desperate.Outcome.{Result, ok, err, Result-cases, Exception}
use desperate.Codec.Words.{Bytes}
use desperate.Codec.Hex.{Text}
use desperate.Codec.Ascii.{ascii}
use desperate.Constants.{nonce_len}
use desperate.Crypto.{Cipher, CipherLaws}
use desperate.Json.{Json, at, find, as_num, as_text, as_fields}
use desperate.Pqxdh.Bundles.{opk_id_read, truth}
use desperate.Store.{StateStore}
use desperate.Store.AtomicWrite.{FileSystem, WriteIo}
use desperate.Store.Paths.{meta_name, meta_path, state_path, make_ad, validate_session_id}
use desperate.Store.Paths.Laws.{temp-apart-state, temp-apart-meta, meta-apart-state}
use desperate.Store.States.{JsonCodec, JsonCodecLaws, encrypt_write, read_decrypt, load_state}
use desperate.Store.States.Blobs.{Holds, encrypt_write_lem}
use desperate.Store.States.Writes.{load_state-ext}
use desperate.Store.Metadata.{
  SessionMetadata, to_dict, from_dict, write_metadata, save_metadata, load_metadata,
}

module _ {Time : Type 0} (number : Time → Json) (float : Json → Result Time)
    (floats : (t : Time) → float (number t) ≡ ok t) where
  from_dict-to_dict :
      (m : SessionMetadata Time) → from_dict number float (to_dict number float m) ≡ ok m
  unfolding from_dict to_dict at find as_text as_num as_fields truth
  from_dict-to_dict m =
      rw (floats m.created_at, floats m.last_active, opk_id_read m.opk_id_used) refl

  module _ (c : Cipher) (j : JsonCodec) (st : StateStore) where
    -- What is loaded depends on the metadata file alone.
    load_metadata-ext :
        (id : Text) (fs fs' : FileSystem)
        → lookup (meta_path st.base_dir id) fs' ≡ lookup (meta_path st.base_dir id) fs
        → load_metadata number float c j st id fs' ≡ load_metadata number float c j st id fs
    unfolding load_metadata read_decrypt
    load_metadata-ext id fs fs' e = rw e

    -- A call of `save_metadata` that came to encrypt its file.
    record Begun (id : Text) (m : SessionMetadata Time) (nonce : Bytes) (io : WriteIo)
        (fs : FileSystem) : Type 0 where
      payload : Bytes
      valid : validate_session_id id ≡ ok tt
      dumped : j.dumps (to_dict number float m) ≡ ok payload
      call :
          save_metadata number float c j st id m nonce io fs
          ≡ encrypt_write c j st (meta_name id) payload (make_ad id (ascii "meta")) nonce io fs

    save_metadata-cases :
        (id : Text) (m : SessionMetadata Time) (nonce : Bytes) (io : WriteIo) (fs : FileSystem)
        → Begun id m nonce io fs
          ⊎ ((x : Exception) × (save_metadata number float c j st id m nonce io fs ≡ (err x, fs)))
    unfolding save_metadata write_metadata
    save_metadata-cases id m nonce io fs = elim (Result-cases (validate_session_id id)) [
      | inl (u, v) ↦ elim (Result-cases (j.dumps (to_dict number float m))) [
        | inl (payload, d) ↦
            inl (record { payload = payload; valid = v; dumped = d; call = rw (v, d) refl })
        | inr (x, d) ↦ inr (x, rw (v, d) refl)
      ]
      | inr (x, v) ↦ inr (x, rw v refl)
    ]

    module _ (cipher_laws : CipherLaws c) (json_laws : JsonCodecLaws j) where
      load_held :
          (id : Text) (m : SessionMetadata Time) (payload : Bytes) (fs : FileSystem)
          → validate_session_id id ≡ ok tt
          → j.dumps (to_dict number float m) ≡ ok payload
          → Holds c j st cipher_laws
              (meta_path st.base_dir id)
              payload
              (make_ad id (ascii "meta"))
              fs
          → load_metadata number float c j st id fs ≡ ok m
      unfolding load_metadata
      load_held id m payload fs v dumped h =
          rw (v, h.there, h.opens, json_laws.loads-dumps (to_dict number float m) dumped)
            (from_dict-to_dict m)

      -- Where os.write takes every byte, the nonce drawn has 12 bytes and floats are read as
      -- written: a call of save_metadata that returns makes load_metadata give the metadata that
      -- were saved, one that raises leaves it giving what it gave before or these metadata, and
      -- every session's state loads as before.
      pub save_metadata_lem :
          (id : Text) (m : SessionMetadata Time) (nonce : Bytes) (io : WriteIo) (fs : FileSystem)
          → length nonce ≡ nonce_len
          → io.taken ≡ none
          → let q = save_metadata number float c j st id m nonce io fs in
            (q.0 ≡ ok tt → load_metadata number float c j st id q.1 ≡ ok m)
            × ((load_metadata number float c j st id q.1 ≡ load_metadata number float c j st id fs)
                ⊎ (load_metadata number float c j st id q.1 ≡ ok m))
            × ((other : Text) → load_state c j st other q.1 ≡ load_state c j st other fs)
      save_metadata_lem id m nonce io fs size whole = elim (save_metadata-cases id m nonce io fs) [
        | inl w ↦
            let (done, either, others) =
              encrypt_write_lem c j st cipher_laws (meta_name id) w.payload
                (make_ad id (ascii "meta")) nonce io fs size whole
                (temp-apart-meta st.base_dir id io) in
            rw w.call (
              λ e. load_held id m w.payload _ w.valid w.dumped (done e),
              elim either [
                | inl old ↦ inl (load_metadata-ext id fs _ old)
                | inr new ↦ inr (load_held id m w.payload _ w.valid w.dumped new)
              ],
              λ other. load_state-ext c j st other fs _ (
                  others (state_path st.base_dir other) (meta-apart-state st.base_dir id other)
                    (temp-apart-state st.base_dir other io)),
            )
        | inr (x, e) ↦ rw e (λ q. absurd cc, inl refl, λ other. refl)
      ]
