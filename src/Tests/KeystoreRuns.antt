-- ===== src/Tests/KeystoreRuns.antt =====
-- A registration and the unlock after it, with a json that knows one value.
use desperate.Prelude.{
  ℕ, ◌≡◌, refl, ap, arith, Bool, true, false, none, some, [], ◌∷◌, ◌++◌, replicate, ◌==◌, ◌&&◌,
  string_eq, nat_eq, list_eq, if◌then◌else◌,
}
use desperate.Outcome.{Result, ok, err, type_error}
use desperate.Codec.Words.{Bytes}
use desperate.Json.{
  find, Json, Items, Fields, null, bool, num, text, arr, obj, nil, cons, end, field,
}
use desperate.Keys.Types.{IdentityBundle}
use desperate.Keys.Bundle.{to_private_bundle, text_or_empty}
use desperate.Kdf.{derive_master_components}
use desperate.Service.Keystore.{keep_keys, success, unlock_keystore}
use desperate.Service.Keystore.Laws.{unlock_keystore-keep_keys}
use desperate.Store.{create_with_key}
use desperate.Codec.Ascii.{ascii}
use desperate.Service.{Packages, Service}
use desperate.Tests.Toy.{hashes, suite, suite_laws}
use desperate.Tests.KeyRuns.{bundle, storable}
use desperate.Tests.RatchetRuns.{io}
use desperate.Tests.ServiceRuns.{packages, draws, service}
use desperate.Store.States.{JsonCodec, JsonCodecLaws}

abbrev bool_beq : Bool → Bool → Bool
bool_beq true b = b
bool_beq false true = false
bool_beq false false = true

unfoldable mutual
  json_beq : Json → Json → Bool
  json_beq null null = true
  json_beq (bool a) (bool b) = bool_beq a b
  json_beq (num a) (num b) = a == b
  json_beq (text a) (text b) = a == b
  json_beq (arr a) (arr b) = items_beq a b
  json_beq (obj a) (obj b) = fields_beq a b
  json_beq v w = false

  items_beq : Items → Items → Bool
  items_beq nil nil = true
  items_beq (cons a l) (cons b m) = json_beq a b && items_beq l m
  items_beq v w = false

  fields_beq : Fields → Fields → Bool
  fields_beq end end = true
  fields_beq (field k a d) (field j b e) = (k == j) && (json_beq a b && fields_beq d e)
  fields_beq v w = false

both : (a b : Bool) → (a && b) ≡ true → (a ≡ true) × (b ≡ true)
both true true h = (refl, refl)
both true false h = absurd cc
both false b h = absurd cc

mutual
  unfolding json_beq items_beq fields_beq

  json_same : (v w : Json) → json_beq v w ≡ true → v ≡ w
  json_same null null h = refl
  json_same (bool true) (bool true) h = refl
  json_same (bool false) (bool false) h = refl
  json_same (num a) (num b) h = ap num ((nat_eq.beq_iff a b).0 h)
  json_same (text a) (text b) h = ap text ((list_eq.beq_iff a b).0 h)
  json_same (arr a) (arr b) h = ap arr (items_same a b h)
  json_same (obj a) (obj b) h = ap obj (fields_same a b h)
  json_same v w h = absurd cc

  items_same : (v w : Items) → items_beq v w ≡ true → v ≡ w
  items_same nil nil h = refl
  items_same (cons a l) (cons b m) h = ground (arith, json_same a b, items_same l m)
  items_same v w h = absurd cc

  fields_same : (v w : Fields) → fields_beq v w ≡ true → v ≡ w
  fields_same end end h = refl
  fields_same (field k a d) (field j b e) h =
      let (keys, rest) = both (k == j) (json_beq a b && fields_beq d e) h in
      let (values, fields) = both (json_beq a b) (fields_beq d e) rest in
      rw ((string_eq.beq_iff k j).0 keys, json_same a b values, fields_same d e fields) refl
  fields_same v w h = absurd cc

module _ (kept : Json) where
  abbrev one_value : JsonCodec
  one_value = record {
    dumps = λ v. if json_beq v kept then ok [] else err type_error;
    loads = λ b. ok kept;
  }

  one_value_laws : JsonCodecLaws one_value
  one_value_laws = record { loads-dumps = λ v e. ap ok (known v e) }
    where
      known : (v : Json) {b : Bytes} → one_value.dumps v ≡ ok b → kept ≡ v
      known v e = ground (arith, json_same v kept)

abbrev keys : IdentityBundle
keys = bundle 2 4

abbrev private : Result Json → Json
private (ok j) = j
private (err e) = null

abbrev kept : Json
kept = private (to_private_bundle suite keys)

abbrev registering : Packages ℕ
registering = record packages { json = one_value kept }

abbrev before : Service ℕ
before = record service { files = []; store = none; local_bundle = none }

made :
    (create_with_key (ascii "b") draws.salt draws.salt io []).0
    ≡ ok (record { base_dir = ascii "b"; enc_key = draws.salt })
unfolding create_with_key desperate.Store.write_salt desperate.Store.AtomicWrite.atomic_write
    desperate.Prelude.Dict.lookup desperate.Store.AtomicWrite.write_and_rename
    desperate.Store.AtomicWrite.fails_early desperate.Store.AtomicWrite.fails_writing
    desperate.Store.AtomicWrite.fails_closing desperate.Store.AtomicWrite.fails_late
made = refl

derived :
    derive_master_components hashes (ascii "p") (some draws.salt) []
    ≡ ok (draws.salt, draws.salt, draws.salt)
unfolding derive_master_components desperate.Password.argon2id_derive_key desperate.Kdf.hkdf_derive
    desperate.Tests.Toy.fit
derived = refl

returned : (keep_keys registering keys draws draws.salt success before).0 ≡ ok success
unfolding keep_keys desperate.Service.Keystore.register desperate.Service.Keystore.set_store
    desperate.Service.on_files desperate.Service.look desperate.Service.lift
    desperate.Service.update desperate.Service.save to_private_bundle json_beq
    desperate.Keys.Bundle.private_opk desperate.Keys.Opks.assert_opk_lists_valid
    desperate.Json.as_fields desperate.Store.States.save_state desperate.Store.States.write_payload
    desperate.Store.States.encrypt_write desperate.Store.States.write_blob
    desperate.Store.Paths.validate_session_id desperate.Store.Paths.any_forbidden create_with_key
    desperate.Store.write_salt desperate.Store.AtomicWrite.atomic_write
    desperate.Prelude.Dict.lookup desperate.Store.AtomicWrite.write_and_rename
    desperate.Store.AtomicWrite.fails_early desperate.Store.AtomicWrite.fails_writing
    desperate.Store.AtomicWrite.fails_closing desperate.Store.AtomicWrite.fails_late
    desperate.Prelude.list_beq desperate.Codec.Hex.to_hex desperate.Keys.Types.public_key_bytes
    desperate.Tests.Toy.reduced desperate.Tests.Toy.fit desperate.Json.items_of
returned = refl

abbrev restarted : Service ℕ
restarted = record before {
  files = (keep_keys registering keys draws draws.salt success before).1.files;
}

given : text_or_empty (find "password" (field "password" (text (ascii "p")) end)) ≡ ok (ascii "p")
unfolding find desperate.Json.as_text
given = refl

unlock_keystore-keep_keys_example :
    unlock_keystore registering (field "password" (text (ascii "p")) end) restarted ≡ (
      ok success,
      record restarted {
        store = some (record { base_dir = ascii "b"; enc_key = draws.salt });
        local_bundle = some keys;
      },
    )
unlock_keystore-keep_keys_example =
    unlock_keystore-keep_keys registering suite_laws (one_value_laws kept) keys draws (ascii "p")
      (field "password" (text (ascii "p")) end) success before restarted storable refl refl refl
      derived made returned refl refl given refl
