-- ===== src/Rpc/Registration/Laws.antt =====
-- main.py: the keystore that a registration made is opened by a later unlock.
use desperate.Prelude.{
  ◌≡◌, refl, sym, ◌∙◌, ap, subst, false, none, some, inl, inr, [], length, nat_eq, list_eq,
}
use desperate.Prelude.Dict.{lookup}
use desperate.Outcome.{ok, Result-cases}
use desperate.Effect.{lift, look, update, attempt}
use desperate.Codec.Hex.{Text}
use desperate.Constants.{nonce_len}
use desperate.Suite.{SuiteLaws}
use desperate.Kdf.{is_empty}
use desperate.Json.{Json, Fields, obj, as_fields}
use desperate.Keys.Types.{IdentityBundle}
use desperate.Keys.Bundle.{generate_identity_bundle, from_private_bundle}
use desperate.Keys.Bundle.Laws.{IsStorable, from_private_bundle-to_private_bundle}
use desperate.Store.{StateStore, salt_path, load, create}
use desperate.Store.Laws.{load-create, load-ext, create_base_dir}
use desperate.Store.AtomicWrite.{FileSystem}
use desperate.Store.States.{JsonCodecLaws, load_state, save_state}
use desperate.Store.States.Writes.{save_state-salt}
use desperate.Store.States.Laws.{save_state_lem}
use desperate.Service.Keystore.{success}
use desperate.Service.Keystore.Laws.{fields_of, ok_err}
use desperate.Rpc.{
  RpcPackages, RpcDraws, Rpc, caught, get_either, identity, stored_identity, load_from,
  load_identity, load_keystore, keep_store, open_keystore, ensure_keystore, none_if_raised,
}
use desperate.Rpc.Registration.{
  unlock_given, handle_unlock_keystore, unlocked, create_keystore, save_identity, new_keystore,
}

module _ (p : RpcPackages) where
  -- What is on disk after a registration with a password.
  pub record Registered (password : Text) (bundle : IdentityBundle) (fs : FileSystem) : Type 0 where
    pub st : StateStore
    pub state : Fields
    pub opens : load p.suite.hashes p.base_dir password fs ≡ ok st
    pub holds : load_state p.suite.cipher p.json st identity fs ≡ ok (obj state)
    pub parsed : from_private_bundle p.suite (obj state) ≡ ok bundle

  module _ (laws : SuiteLaws p.suite) (json_laws : JsonCodecLaws p.json) where
    new_keystore-Registered :
        (draws : RpcDraws) (username password : Text) (s : Rpc) {bundle : IdentityBundle}
        → generate_identity_bundle p.suite draws.bundle username 20 ≡ ok bundle
        → IsStorable bundle
        → (draws.writes 0).io.taken ≡ none
        → (draws.writes 1).io.taken ≡ none
        → length (draws.writes 1).nonce ≡ nonce_len
        → (new_keystore p draws username password s).0 ≡ ok bundle
        → Registered password bundle (new_keystore p draws username password s).1.files
    unfolding new_keystore create_keystore save_identity keep_store lift update
    new_keystore-Registered draws username password s {bundle} made storable whole0 whole1 size
          done =
        let w = draws.writes 1 in
        let (j, private, parsed) =
          from_private_bundle-to_private_bundle p.suite laws bundle storable in
        elim (Result-cases
          (create p.suite.hashes p.base_dir password draws.keystore_salt (draws.writes 0).io
            s.files).0) [
              | inl (st, q1) ↦ elim (Result-cases (as_fields j)) [
                | inl (state, q2) ↦
                    let fs =
                      (create p.suite.hashes p.base_dir password draws.keystore_salt
                        (draws.writes 0).io s.files).1 in
                    elim (Result-cases
                      (save_state p.suite.cipher p.json st identity state w.nonce w.io fs).0) [
                        | inl (u, q3) ↦
                            rw (made, q1, private, q2, q3)
                              (let base =
                                  create_base_dir p.suite.hashes p.base_dir password
                                    draws.keystore_salt (draws.writes 0).io s.files whole0 q1 in
                                let fs' =
                                  (save_state p.suite.cipher p.json st identity state w.nonce w.io
                                    fs).1 in
                                let kept =
                                  subst (λ d. lookup (salt_path d) fs' ≡ lookup (salt_path d) fs)
                                    base
                                    (save_state-salt p.suite.cipher p.json st identity state w.nonce
                                      w.io fs) in
                                record {
                                  st = st;
                                  state = state;
                                  opens =
                                      load-ext p.suite.hashes p.base_dir password fs fs' kept
                                      ∙ load-create p.suite.hashes p.base_dir password
                                          draws.keystore_salt (draws.writes 0).io s.files whole0 q1;
                                  holds =
                                      (save_state_lem p.suite.cipher p.json st laws.cipher json_laws
                                          identity state w.nonce w.io fs size whole1).0
                                        q3;
                                  parsed =
                                      ap (λ v. from_private_bundle p.suite v) (sym (fields_of j q2))
                                      ∙ parsed;
                                })
                        | inr (x, q3) ↦
                            absurd (ok_err {x = x} (sym done ∙ rw (made, q1, private, q2, q3) refl))
                      ]
                | inr (x, q2) ↦ absurd (ok_err {x = x} (sym done ∙ rw (made, q1, private, q2) refl))
              ]
              | inr (x, q1) ↦ absurd (ok_err {x = x} (sym done ∙ rw (made, q1) refl))
            ]

  -- An unlock of a server that has just started.
  handle_unlock_keystore-Registered :
      (bundle : IdentityBundle) (password : Text) (params : Fields) (s : Rpc)
      (reg : Registered password bundle s.files)
      → get_either "keystore_password" "password" [] params ≡ ok password
      → is_empty password ≡ false
      → s.keystore_store ≡ none
      → handle_unlock_keystore p params s
        ≡ (ok success, record s { keystore_store = some reg.st; keystore_password = some password })
  unfolding handle_unlock_keystore unlock_given ensure_keystore open_keystore load_keystore
      stored_identity keep_store none_if_raised caught attempt lift look update unlocked
  handle_unlock_keystore-Registered bundle password params s reg given full fresh =
      rw (given, full, fresh, reg.opens, reg.holds) refl

  pub load_identity-stored :
      (bundle : IdentityBundle) (st : StateStore) (v : Json) (s : Rpc)
      → s.keystore_store ≡ some st
      → load_state p.suite.cipher p.json st identity s.files ≡ ok v
      → from_private_bundle p.suite v ≡ ok bundle
      → load_identity p s ≡ (ok (some bundle), s)
  unfolding load_identity load_from stored_identity none_if_raised attempt lift look
  load_identity-stored bundle st v s active holds parsed = rw (active, holds, parsed) refl

  -- Where os.write takes every byte, the nonce drawn has 12 bytes and the keys of the new bundle
  -- are byte strings of their sizes: after a registration that made its keystore, a server that has
  -- just started on the same files, given the password that was registered, unlocks the keystore,
  -- and then loads the identity bundle of the registration.
  pub handle_unlock_keystore-new_keystore :
      (laws : SuiteLaws p.suite) (json_laws : JsonCodecLaws p.json) (draws : RpcDraws)
      (username password : Text) (params : Fields) (s later : Rpc) {bundle : IdentityBundle}
      → generate_identity_bundle p.suite draws.bundle username 20 ≡ ok bundle
      → IsStorable bundle
      → (draws.writes 0).io.taken ≡ none
      → (draws.writes 1).io.taken ≡ none
      → length (draws.writes 1).nonce ≡ nonce_len
      → (new_keystore p draws username password s).0 ≡ ok bundle
      → later.files ≡ (new_keystore p draws username password s).1.files
      → later.keystore_store ≡ none
      → get_either "keystore_password" "password" [] params ≡ ok password
      → is_empty password ≡ false
      → let unlocking = handle_unlock_keystore p params later in
        (unlocking.0 ≡ ok success) × (load_identity p unlocking.1 ≡ (ok (some bundle), unlocking.1))
  handle_unlock_keystore-new_keystore laws json_laws draws username password params s later {bundle}
        made storable whole0 whole1 size done same fresh given full =
      let reg =
        subst (λ fs. Registered password bundle fs) (sym same)
          (new_keystore-Registered laws json_laws draws username password s made storable whole0
            whole1 size done) in
      let unlocking =
        handle_unlock_keystore-Registered bundle password params later reg given full fresh in
      rw unlocking
        (refl, load_identity-stored bundle reg.st (obj reg.state) _ refl reg.holds reg.parsed)
