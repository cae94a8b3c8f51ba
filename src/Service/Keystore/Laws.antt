-- ===== src/Service/Keystore/Laws.antt =====
-- crypto_service.py: the keystore that a registration made is opened again.
use desperate.Prelude.{
  subst, ◌≡◌, ◌≢◌, refl, sym, ap, ◌∙◌, arith, true, false, none, some, [], length, list_eq, nat_eq,
  inl, inr,
}
use desperate.Prelude.Dict.{lookup}
use desperate.Outcome.{Exception, ok, err, Result-cases}
use desperate.Codec.Words.{Bytes}
use desperate.Codec.Hex.{Text}
use desperate.Constants.{nonce_len}
use desperate.Suite.{SuiteLaws}
use desperate.Json.{Json, Fields, obj, find, as_fields}
use desperate.Kdf.{derive_master_components, is_empty}
use desperate.Keys.Types.{IdentityBundle}
use desperate.Keys.Bundle.{text_or_empty, from_private_bundle}
use desperate.Keys.Bundle.Laws.{IsStorable, from_private_bundle-to_private_bundle}
use desperate.Store.{StateStore, salt_path, load_with_key, create_with_key}
use desperate.Store.Laws.{load_with_key-create_with_key, create_with_key_salt, load_with_key-ext}
use desperate.Store.AtomicWrite.{FileSystem, WriteIo}
use desperate.Store.States.{JsonCodecLaws, save_state, load_state, state_exists}
use desperate.Store.States.Writes.{save_state-salt, load_state-exists}
use desperate.Store.States.Laws.{save_state_lem}
use desperate.Service.{
  Packages, Draws, Service, lift, look, update, on_files, save, stored, loaded, bundle_key,
}
use desperate.Service.Keystore.{
  keep_keys, success, load_master_salt, set_store, adopt, read_bundle, open_store, open_with_salt,
  open_cached, unlock_with, unlock_keystore, register,
}

pub ok_err : {A : Type 0} {a : A} {x : Exception} → ok a ≢ err x
ok_err e = absurd (ground arith)

pub fields_of : (j : Json) {d : Fields} → as_fields j ≡ ok d → j ≡ obj d
unfolding as_fields
fields_of (obj d) e = ground arith
fields_of j e = absurd (ground arith)

module _ {R : Type 0} (p : Packages R) where
  -- What is on disk after a registration, for a store's key.
  record Registered (key salt : Bytes) (bundle : IdentityBundle) (fs : FileSystem) : Type 0 where
    salted : lookup (salt_path p.base_dir) fs ≡ some salt
    opens : load_with_key p.base_dir key fs ≡ ok (record { base_dir = p.base_dir; enc_key = key })
    there :
        state_exists p.suite.cipher p.json
          (record { base_dir = p.base_dir; enc_key = key })
          bundle_key
          fs
        ≡ true
    state : Fields
    holds :
        load_state p.suite.cipher p.json
          (record { base_dir = p.base_dir; enc_key = key })
          bundle_key
          fs
        ≡ ok (obj state)
    parsed : from_private_bundle p.suite (obj state) ≡ ok bundle

  module _ (suite_laws : SuiteLaws p.suite) (json_laws : JsonCodecLaws p.json) where
    -- The state that `register` saves.
    saved_lem :
        (bundle : IdentityBundle) (key salt nonce : Bytes) (io : WriteIo) (fs : FileSystem)
        (state : Fields)
        → length nonce ≡ nonce_len
        → io.taken ≡ none
        → from_private_bundle p.suite (obj state) ≡ ok bundle
        → lookup (salt_path p.base_dir) fs ≡ some salt
        → load_with_key p.base_dir key fs ≡ ok (record { base_dir = p.base_dir; enc_key = key })
        → (save_state p.suite.cipher p.json
            (record { base_dir = p.base_dir; enc_key = key })
            bundle_key
            state
            nonce
            io
            fs).0
          ≡ ok tt
        → Registered key salt bundle
            (save_state p.suite.cipher p.json
              (record { base_dir = p.base_dir; enc_key = key })
              bundle_key
              state
              nonce
              io
              fs).1
    saved_lem bundle key salt nonce io fs state size whole parsed salted opens done =
        let st : StateStore = record { base_dir = p.base_dir; enc_key = key } in
        let kept = save_state-salt p.suite.cipher p.json st bundle_key state nonce io fs in
        let holds =
          (save_state_lem p.suite.cipher p.json st suite_laws.cipher json_laws bundle_key state
              nonce io fs size whole).0
            done in
        record {
          salted = kept ∙ salted;
          opens = load_with_key-ext p.base_dir key fs _ kept ∙ opens;
          there = (load_state-exists p.suite.cipher p.json st bundle_key _ holds).1;
          state = state;
          holds = holds;
          parsed = parsed;
        }

    keep_keys-Registered :
        (bundle : IdentityBundle) (draws : Draws) (key : Bytes) (reply : Fields) (s : Service R)
        → IsStorable bundle
        → (draws.writes 0).io.taken ≡ none
        → (draws.writes 1).io.taken ≡ none
        → length (draws.writes 1).nonce ≡ nonce_len
        → (create_with_key p.base_dir key draws.salt (draws.writes 0).io s.files).0
          ≡ ok (record { base_dir = p.base_dir; enc_key = key })
        → (keep_keys p bundle draws key reply s).0 ≡ ok reply
        → Registered key draws.salt bundle (keep_keys p bundle draws key reply s).1.files
    unfolding keep_keys register set_store on_files look lift update save
    keep_keys-Registered bundle draws key reply s storable whole0 whole1 size made done =
        let st : StateStore = record { base_dir = p.base_dir; enc_key = key } in
        let w = draws.writes 1 in
        let fs = (create_with_key p.base_dir key draws.salt (draws.writes 0).io s.files).1 in
        let (j, private, parsed) =
          from_private_bundle-to_private_bundle p.suite suite_laws bundle storable in
        elim (Result-cases (as_fields j)) [
          | inl (state, q) ↦
              elim (Result-cases
                (save_state p.suite.cipher p.json st bundle_key state w.nonce w.io fs).0) [
                  | inl (u, saved) ↦
                      rw (made, private, q, saved)
                        (saved_lem bundle key draws.salt w.nonce w.io fs state size whole1
                          (ap (λ v. from_private_bundle p.suite v) (sym (fields_of j q)) ∙ parsed)
                          (create_with_key_salt p.base_dir key draws.salt (draws.writes 0).io
                            s.files whole0 made)
                          (load_with_key-create_with_key p.base_dir key draws.salt
                              (draws.writes 0).io s.files whole0 made
                            ∙ refl)
                          saved)
                  | inr (x, saved) ↦
                      let bad : (keep_keys p bundle draws key reply s).0 ≡ err x =
                        rw (made, private, q, saved) refl in
                      absurd (ok_err (sym done ∙ bad))
                ]
          | inr (x, q) ↦
              let bad : (keep_keys p bundle draws key reply s).0 ≡ err x =
                rw (made, private, q) refl in
              absurd (ok_err (sym done ∙ bad))
        ]

  -- The store and the bundle that an unlock finds.
  unlock_keystore-Registered :
      (bundle : IdentityBundle) (password : Text) (params : Fields) {key salt srp_pass used : Bytes}
      (s : Service R)
      → Registered key salt bundle s.files
      → text_or_empty (find "password" params) ≡ ok password
      → is_empty password ≡ false
      → derive_master_components p.suite.hashes password (some salt) [] ≡ ok (srp_pass, key, used)
      → s.login.cached_keystore_key ≡ none
      → unlock_keystore p params s ≡ (
        ok success,
        record s {
          store = some (record { base_dir = p.base_dir; enc_key = key });
          local_bundle = some bundle;
        },
      )
  unfolding unlock_keystore unlock_with open_cached open_with_salt load_master_salt open_store
      read_bundle adopt set_store loaded stored look lift update
  unlock_keystore-Registered bundle password params s reg given nonempty derived cached =
      rw (given, nonempty, cached, reg.salted, derived, reg.opens, reg.there, reg.holds, reg.parsed)
        refl

  -- Where os.write takes every byte, the nonce drawn has 12 bytes and the bundle's keys are byte
  -- strings of their sizes: after the end of a registration with a password that is not empty,
  -- from the creation of the store with the key derived from the password on, has made its store
  -- and returned, a service with the same files and no cached key that is given that password
  -- unlocks the keystore, and has the store and the identity bundle of the registration.
  pub unlock_keystore-keep_keys :
      (suite_laws : SuiteLaws p.suite) (json_laws : JsonCodecLaws p.json) (bundle : IdentityBundle)
      (draws : Draws) (password : Text) (params reply : Fields) {key srp_pass used : Bytes}
      (s later : Service R)
      → IsStorable bundle
      → (draws.writes 0).io.taken ≡ none
      → (draws.writes 1).io.taken ≡ none
      → length (draws.writes 1).nonce ≡ nonce_len
      → derive_master_components p.suite.hashes password (some draws.salt) []
        ≡ ok (srp_pass, key, used)
      → (create_with_key p.base_dir key draws.salt (draws.writes 0).io s.files).0
        ≡ ok (record { base_dir = p.base_dir; enc_key = key })
      → (keep_keys p bundle draws key reply s).0 ≡ ok reply
      → later.files ≡ (keep_keys p bundle draws key reply s).1.files
      → later.login.cached_keystore_key ≡ none
      → text_or_empty (find "password" params) ≡ ok password
      → is_empty password ≡ false
      → unlock_keystore p params later ≡ (
        ok success,
        record later {
          store = some (record { base_dir = p.base_dir; enc_key = key });
          local_bundle = some bundle;
        },
      )
  unlock_keystore-keep_keys suite_laws json_laws bundle draws password params reply {key} s later
        storable whole0 whole1 size derived made done same cached given nonempty =
      unlock_keystore-Registered bundle password params later
        (subst (λ fs. Registered key draws.salt bundle fs) (sym same)
          (keep_keys-Registered suite_laws json_laws bundle draws key reply s storable whole0 whole1
            size made done))
        given nonempty derived cached
