-- ===== src/Store/States/Blobs.antt =====
-- state_store.py: an encrypted file, as it is written and read.
use desperate.Prelude.{
  ◌≡◌, ◌≢◌, refl, ap, ◌∙◌, arith, true, none, some, ◌⊎◌, inl, inr, ◌++◌, length, length-append,
  take-append, drop-append, list_eq, nat_eq,
}
use desperate.Prelude.Dict.{lookup}
use desperate.Outcome.{ok, Result-cases}
use desperate.Codec.Words.{Bytes}
use desperate.Codec.Hex.{Text}
use desperate.Constants.{nonce_len}
use desperate.Crypto.{Cipher, CipherLaws}
use desperate.Store.{StateStore, exists}
use desperate.Store.AtomicWrite.{FileSystem, WriteIo, accepted, join, temp_path}
use desperate.Store.AtomicWrite.Laws.{atomic_write_lem, atomic_write_returns}
use desperate.Store.Paths.{session_dir}
use desperate.Store.States.{JsonCodec, encrypt_write, write_blob, read_decrypt}

module _ (c : Cipher) (j : JsonCodec) (st : StateStore) (cipher_laws : CipherLaws c) where
  -- A file is there and opens to that content.
  pub record Holds (path : Text) (plaintext ad : Bytes) (fs : FileSystem) : Type 0 where
    pub there : exists (lookup path fs) ≡ true
    pub opens : read_decrypt c j st path ad fs ≡ ok plaintext

  pub blob_Holds :
      (path : Text) (plaintext ad nonce ct : Bytes) (fs : FileSystem)
      → length nonce ≡ nonce_len
      → c.encrypt st.enc_key nonce plaintext ad ≡ ok ct
      → lookup path fs ≡ some (nonce ++ ct)
      → Holds path plaintext ad fs
  unfolding read_decrypt
  blob_Holds path plaintext ad nonce ct fs size sealed found =
      let tag = cipher_laws.encrypt_length _ _ _ _ sealed in
      let back = cipher_laws.decrypt-encrypt _ _ _ _ sealed in
      record {
        there = rw found refl;
        opens = ground (
          arith,
          length-append nonce ct,
          take-append nonce_len nonce ct size,
          drop-append nonce_len nonce ct size,
        );
      }

  -- A call that writes an encrypted file and returns has written it; one that raises has left the
  -- old file or written the new one; no other file but the temporary one is changed.
  pub encrypt_write_lem :
      (name : Text) (plaintext ad nonce : Bytes) (io : WriteIo) (fs : FileSystem)
      → length nonce ≡ nonce_len
      → io.taken ≡ none
      → temp_path (session_dir st.base_dir) io ≢ join (session_dir st.base_dir) name
      → let path = join (session_dir st.base_dir) name in
        let q = encrypt_write c j st name plaintext ad nonce io fs in
        (q.0 ≡ ok tt → Holds path plaintext ad q.1)
        × ((lookup path q.1 ≡ lookup path fs) ⊎ Holds path plaintext ad q.1)
        × ((other : Text)
            → path ≢ other
            → temp_path (session_dir st.base_dir) io ≢ other
            → lookup other q.1 ≡ lookup other fs)
  unfolding encrypt_write write_blob
  encrypt_write_lem name plaintext ad nonce io fs size whole fresh =
      let dir = session_dir st.base_dir in
      elim (Result-cases (c.encrypt st.enc_key nonce plaintext ad)) [
        | inl (ct, sealed) ↦
            let blob = nonce ++ ct in
            let all = ap (λ t. some (accepted t blob)) whole in
            let (others, either) = atomic_write_lem dir name blob io fs fresh in
            rw sealed (
              λ e.
                  blob_Holds (join dir name) plaintext ad nonce ct _ size sealed
                    ((atomic_write_returns dir name blob io fs fresh e).0 ∙ all),
              elim either [
                | inl (raised, old) ↦ inl old
                | inr new ↦
                    inr (blob_Holds (join dir name) plaintext ad nonce ct _ size sealed (new ∙ all))
              ],
              others,
            )
        | inr (x, refused) ↦ rw refused (λ q. absurd cc, inl refl, λ other apart apart_temp. refl)
      ]
