-- ===== src/Service/Messages/Laws.antt =====
-- What forgetting a conversation leaves.
use desperate.Prelude.{
  ◌≡◌, ◌≢◌, refl, ◌∙◌, ap, arith, true, false, Option, none, some, length, length-append, list_eq,
  string_eq, inl, inr, Option-cases, Bool-cases, ◌==◌, beq_refl,
}
use desperate.Prelude.Dict.{Dict, lookup, erase, lookup-erase}
use desperate.Outcome.{ok, err, file_not_found}
use desperate.Codec.Words.{Bytes}
use desperate.Codec.Hex.{Text}
use desperate.Codec.Ascii.{ascii}
use desperate.Json.{Fields, end, field, bool}
use desperate.Store.{StateStore, exists}
use desperate.Store.AtomicWrite.{FileSystem}
use desperate.Store.Paths.{validate_session_id, state_path, meta_path}
use desperate.Store.States.{load_state, delete_session, state_exists}
use desperate.Store.States.Laws.{delete_session_lem}
use desperate.Service.{
  Packages, Service, lift, look, update, on_files, suppress, require_store, store_of, meta_key,
  stored, text_param,
}
use desperate.Service.Messages.{delete, forget_files, has_session, reset_session, on_disk}

pub meta_key-valid :
    (id : Text) → validate_session_id id ≡ ok tt → validate_session_id (meta_key id) ≡ ok tt
unfolding validate_session_id desperate.Store.Paths.any_forbidden
meta_key-valid id h = ground arith

meta_key-ne : (id : Text) → meta_key id ≢ id
meta_key-ne id e =
    absurd (omega (arith, ap (λ t. length t) e, length-append (ascii "__sigmeta__") id))

erased_stays : (k j : Text) (fs : FileSystem) → lookup k fs ≡ none → lookup k (erase j fs) ≡ none
erased_stays k j fs h = elim (Bool-cases (j == k)) [
  | inl e ↦ lookup-erase j k fs ∙ rw e refl
  | inr e ↦ lookup-erase j k fs ∙ rw e h
]

lookup-erased {κ} : {V : Type κ} (k : Text) (d : Dict Text V) → lookup k (erase k d) ≡ none
lookup-erased k d = lookup-erase k k d ∙ rw (beq_refl k) refl

exists_none : {o : Option Bytes} → o ≡ none → exists o ≡ false
exists_none e = rw e refl

module _ {R : Type 0} (p : Packages R) where
  -- the files after the two deletions
  abbrev pub files_without : StateStore → Text → FileSystem → FileSystem
  files_without st id fs =
      (delete_session p.suite.cipher p.json st (meta_key id)
        (delete_session p.suite.cipher p.json st id fs).1).1

  deleted :
      (st : StateStore) (id : Text) (fs : FileSystem)
      → validate_session_id id ≡ ok tt
      → (delete_session p.suite.cipher p.json st id fs).0 ≡ ok tt
  unfolding delete_session
  deleted st id fs h = rw h refl

  pub forget_files_lem :
      (id : Text) (s : Service R) (st : StateStore)
      → s.store ≡ some st
      → validate_session_id id ≡ ok tt
      → forget_files p id s ≡ (ok tt, record s { files = files_without st id s.files })
  unfolding forget_files suppress require_store look store_of delete on_files
  forget_files_lem id s st opened valid = rw (opened, deleted st id s.files valid) refl

  pub files_without-load :
      (id : Text) (st : StateStore) (fs : FileSystem)
      → validate_session_id id ≡ ok tt
      → (load_state p.suite.cipher p.json st id (files_without st id fs) ≡ err file_not_found)
        × (load_state p.suite.cipher p.json st (meta_key id) (files_without st id fs)
            ≡ err file_not_found)
  files_without-load id st fs valid =
      let first = delete_session_lem p.suite.cipher p.json st id fs (deleted st id fs valid) in
      let second =
        delete_session_lem p.suite.cipher p.json st (meta_key id)
          (delete_session p.suite.cipher p.json st id fs).1
          (deleted st (meta_key id) _ (meta_key-valid id valid)) in
      (second.1 id (meta_key-ne id) ∙ first.0, second.0)

  deleted_files :
      (st : StateStore) (id : Text) (fs : FileSystem)
      → validate_session_id id ≡ ok tt
      → (delete_session p.suite.cipher p.json st id fs).1
        ≡ erase (meta_path st.base_dir id) (erase (state_path st.base_dir id) fs)
  unfolding delete_session
  deleted_files st id fs h = rw h refl

  not_stored :
      (id : Text) (s : Service R) (st : StateStore)
      → validate_session_id id ≡ ok tt
      → stored p st id (record s { files = files_without st id s.files }) ≡ false
  unfolding stored state_exists
  not_stored id s st valid =
      let path = state_path st.base_dir id in
      let gone = erased_stays path (meta_path st.base_dir id) _ (lookup-erased path s.files) in
      let left = ap (λ fs. lookup path fs) (deleted_files st id s.files valid) ∙ gone in
      let still = erased_stays path (state_path st.base_dir (meta_key id)) _ left in
      exists_none (
        ap (λ fs. lookup path fs) (deleted_files st (meta_key id) _ (meta_key-valid id valid))
        ∙ erased_stays path (meta_path st.base_dir (meta_key id)) _ still)

  without : Text → Service R → Service R
  without id s = record s {
    sessions = erase id s.sessions;
    pending_sessions = erase id s.pending_sessions;
  }

  reset_session_lem :
      (params : Fields) (id : Text) (s : Service R) (fs : FileSystem)
      → text_param "conversation_id" params ≡ ok id
      → forget_files p id (without id s) ≡ (ok tt, record (without id s) { files = fs })
      → reset_session p params s
        ≡ (ok (field "success" (bool true) end), record (without id s) { files = fs })
  unfolding reset_session lift update without
  reset_session_lem params id s fs named forgot = rw (named, forgot) refl

  has_none :
      (params : Fields) (id : Text) (s : Service R)
      → text_param "conversation_id" params ≡ ok id
      → lookup id s.sessions ≡ none
      → lookup id s.pending_sessions ≡ none
      → on_disk p id s.store s ≡ false
      → (has_session p params s).0 ≡ ok (field "exists" (bool false) end)
  unfolding has_session look lift
  has_none params id s named no_session no_pending no_files =
      rw (named, no_session, no_pending, no_files) refl

  -- After reset_session of a conversation with a valid name, which returns with the keystore open
  -- or not, has_session says that there is none.
  pub has_session-reset_session :
      (params : Fields) (id : Text) (s : Service R)
      → text_param "conversation_id" params ≡ ok id
      → validate_session_id id ≡ ok tt
      → ((reset_session p params s).0 ≡ ok (field "success" (bool true) end))
        × ((has_session p params (reset_session p params s).1).0
            ≡ ok (field "exists" (bool false) end))
  unfolding without stored
  has_session-reset_session params id s named valid = elim (Option-cases s.store) [
    | inl locked ↦
        let done =
          reset_session_lem params id s s.files named
            (unfold forget_files suppress require_store look store_of in rw locked refl) in
        rw done (
          refl,
          has_none params id (without id s) named (lookup-erased id s.sessions)
              (lookup-erased id s.pending_sessions) (unfold on_disk in rw locked refl),
        )
    | inr (st, opened) ↦
        let fs = files_without st id s.files in
        let done =
          reset_session_lem params id s fs named
            (forget_files_lem id (without id s) st opened valid) in
        rw done (
          refl,
          has_none params id (record (without id s) { files = fs }) named
              (lookup-erased id s.sessions) (lookup-erased id s.pending_sessions)
              (unfold on_disk in rw (opened, not_stored id (without id s) st valid) refl),
        )
  ]
