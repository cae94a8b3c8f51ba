-- ===== src/Store/Abstract/Refinement.antt =====
-- state_store.py: `save_state`, `save_counter`, `delete_session` and `load_state` as one table.
use desperate.Prelude.{
  ℕ, ◌≡◌, refl, sym, ap, subst, ◌∙◌, arith, none, some, inl, inr, List, [], ◌∷◌, All, length,
  list_eq, Option-cases,
}
use desperate.Outcome.{ok, err, file_not_found, ◌>>◌, Result-cases, Exception}
use desperate.Codec.Words.{Bytes}
use desperate.Codec.Hex.{Text}
use desperate.Constants.{nonce_len}
use desperate.Crypto.{Cipher, CipherLaws}
use desperate.Json.{num, obj, Fields, end, put}
use desperate.Store.{StateStore}
use desperate.Store.AtomicWrite.{FileSystem, WriteIo}
use desperate.Store.Paths.{validate_session_id}
use desperate.Store.States.{
  JsonCodec, JsonCodecLaws, save_state, load_state, delete_session, existing_state, save_counter,
  save_merged,
}
use desperate.Store.States.Laws.{
  save_state_lem, save_state_other, delete_session_lem, existing_of, save_counter_saves,
}
use desperate.Store.Abstract.{
  StoreCall, save, count, remove, Table, set, fields_or_empty, effect, Runs, finished, next,
  IsWhole, stored, Reads,
}
use desperate.Store.Abstract.Reached.{
  Reads-set, Reads-same, loading, run_call, run_calls, Reached, returned, unchanged, changed,
}

module _ (c : Cipher) (j : JsonCodec) (st : StateStore) where
  delete_session_raised :
      (id : Text) (fs : FileSystem) {x : Exception}
      → (delete_session c j st id fs).0 ≡ err x
      → (delete_session c j st id fs).1 ≡ fs
  unfolding delete_session
  delete_session_raised id fs e = elim (Result-cases (validate_session_id id)) [
    | inl (u, v) ↦ absurd (ground arith)
    | inr (x, v) ↦ rw v refl
  ]

  save_counter_stops :
      (id : Text) (value : ℕ) (nonce : Bytes) (io : WriteIo) (fs : FileSystem) {x : Exception}
      → (validate_session_id id >> existing_state c j st id fs) ≡ err x
      → save_counter c j st id value nonce io fs ≡ (err x, fs)
  unfolding save_counter save_merged
  save_counter_stops id value nonce io fs q = rw q refl

  existing_valid :
      (id : Text) (fs : FileSystem) {old : Fields}
      → (validate_session_id id >> existing_state c j st id fs) ≡ ok old
      → validate_session_id id ≡ ok tt
  existing_valid id fs q = ground arith

  -- Where nothing is found, the fields are those of an empty state.
  existing_absent :
      (id : Text) (fs : FileSystem) {old : Fields}
      → (validate_session_id id >> existing_state c j st id fs) ≡ ok old
      → load_state c j st id fs ≡ err file_not_found
      → old ≡ end
  unfolding existing_state
  existing_absent id fs q e = ground arith

  module _ (cipher_laws : CipherLaws c) (json_laws : JsonCodecLaws j) where
    -- A call that saves a state, whatever else it is.
    saved_Reached :
        (call : StoreCall) (id : Text) (state : Fields) (nonce : Bytes) (io : WriteIo)
        (fs : FileSystem) (table : Table)
        → Reads (loading c j st fs) table
        → effect call table ≡ set id (some state) table
        → length nonce ≡ nonce_len
        → io.taken ≡ none
        → Reached c j st call table (save_state c j st id state nonce io fs)
    saved_Reached call id state nonce io fs table reads same size whole =
        let q = save_state c j st id state nonce io fs in
        let (done, either) =
          save_state_lem c j st cipher_laws json_laws id state nonce io fs size whole in
        let others = save_state_other c j st id state nonce io fs in
        let after : (loading c j st q.1 id ≡ ok (obj state))
            → Reads (loading c j st q.1) (effect call table) =
          λ here.
            subst (λ t. Reads (loading c j st q.1) t) (sym same)
              (Reads-set id (some state) (loading c j st fs) (loading c j st q.1) table reads here
                others) in
        elim (Result-cases q.0) [
          | inl (u, e) ↦ returned c j st call table q e (after (done e))
          | inr (x, e) ↦ elim either [
            | inl old ↦
                unchanged c j st call table q e
                  (Reads-same id (loading c j st fs) (loading c j st q.1) table reads old others)
            | inr new ↦ changed c j st call table q e (after new)
          ]
        ]

    removed_Reached :
        (id : Text) (fs : FileSystem) (table : Table)
        → Reads (loading c j st fs) table
        → Reached c j st (remove id) table (delete_session c j st id fs)
    removed_Reached id fs table reads =
        let q = delete_session c j st id fs in
        elim (Result-cases q.0) [
          | inl (u, e) ↦
              let (gone, others) = delete_session_lem c j st id fs e in
              returned c j st (remove id) table q e
                (Reads-set id none (loading c j st fs) (loading c j st q.1) table reads gone others)
          | inr (x, e) ↦ unchanged c j st (remove id) table q e (
              subst (λ f. Reads (loading c j st f) table) (sym (delete_session_raised id fs e))
                reads)
        ]

    -- The fields that a counter is put into are those of the table.
    existing_fields :
        (id : Text) (fs : FileSystem) (table : Table) {old : Fields}
        → Reads (loading c j st fs) table
        → (validate_session_id id >> existing_state c j st id fs) ≡ ok old
        → old ≡ fields_or_empty (table id)
    existing_fields id fs table reads q =
        let valid = existing_valid id fs q in
        elim (Option-cases (table id)) [
          | inl e ↦
              existing_absent id fs q (reads id valid ∙ ap stored e) ∙ ap fields_or_empty (sym e)
          | inr (d, e) ↦
              existing_of c j st id fs d (reads id valid ∙ ap stored e) q
              ∙ ap fields_or_empty (sym e)
        ]

    counted_Reached :
        (id : Text) (n : ℕ) (nonce : Bytes) (io : WriteIo) (fs : FileSystem) (table : Table)
        → Reads (loading c j st fs) table
        → length nonce ≡ nonce_len
        → io.taken ≡ none
        → Reached c j st (count id n nonce io) table (save_counter c j st id n nonce io fs)
    counted_Reached id n nonce io fs table reads size whole =
        let call = count id n nonce io in
        elim (Result-cases (validate_session_id id >> existing_state c j st id fs)) [
          | inl (old, e) ↦
              subst (λ q. Reached c j st call table q)
                (sym (save_counter_saves c j st id n nonce io fs e))
                (saved_Reached call id (put "header_counter" (num n) old) nonce io fs table reads
                  (ap (λ d. set id (some (put "header_counter" (num n) d)) table)
                    (sym (existing_fields id fs table reads e)))
                  size whole)
          | inr (x, e) ↦
              subst (λ q. Reached c j st call table q) (sym (save_counter_stops id n nonce io fs e))
                (unchanged c j st call table (err x, fs) refl reads)
        ]

    call_Reached :
        (call : StoreCall) (fs : FileSystem) (table : Table)
        → IsWhole call
        → Reads (loading c j st fs) table
        → Reached c j st call table (run_call c j st call fs)
    call_Reached (save id state nonce io) fs table (size, whole) reads =
        saved_Reached (save id state nonce io) id state nonce io fs table reads refl size whole
    call_Reached (count id n nonce io) fs table (size, whole) reads =
        counted_Reached id n nonce io fs table reads size whole
    call_Reached (remove id) fs table whole reads = removed_Reached id fs table reads

    -- Where os.write takes every byte and each nonce drawn has 12 bytes: calls of save_state,
    -- save_counter and delete_session in any order, with any faults, refine a table of sessions.
    -- If load_state reads a table before them, there are tables between them such that each call
    -- that returned had its effect, each that raised had its effect or none, and load_state reads
    -- the last table after them.
    pub run_calls-Runs :
        (calls : List StoreCall) (fs : FileSystem) (table : Table)
        → All IsWhole calls
        → Reads (λ id. load_state c j st id fs) table
        → (last : Table) × Runs calls (run_calls c j st calls fs).0 table last
          × Reads (λ id. load_state c j st id (run_calls c j st calls fs).1) last
    unfolding run_calls
    run_calls-Runs [] fs table whole reads = (table, finished table, reads)
    run_calls-Runs (call ∷ calls) fs table (whole, rest) reads =
        let r = call_Reached call fs table whole reads in
        let (last, runs, read) =
          run_calls-Runs calls (run_call c j st call fs).1 r.mid rest r.reads in
        (last, next r.atomic runs, read)
