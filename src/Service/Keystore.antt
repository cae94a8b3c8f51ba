-- ===== src/Service/Keystore.antt =====
-- crypto_service.py: opening the keystore, and making it for a registration.
pub mod Laws
use desperate.Prelude.{Bool, true, false, Option, none, some, [], ◌∷◌, ◌++◌, String, list_eq}
use desperate.Prelude.Dict.{lookup}
use desperate.Outcome.{Result, ok, err, file_not_found, file_exists, invalid_tag}
use desperate.Outcome as Outcome
use desperate.Codec.Words.{Bytes}
use desperate.Codec.Hex.{Text, to_hex, from_hex}
use desperate.Codec.Ascii.{ascii}
use desperate.Json.{Json, Fields, end, field, find, text, bool, hex, as_text, as_fields}
use desperate.Kdf.{derive_master_components, is_empty}
use desperate.Keys.Types.{IdentityBundle, sign, public_key_bytes}
use desperate.Keys.Bundle.{
  text_or_empty, generate_identity_bundle, from_private_bundle, to_private_bundle,
}
use desperate.Srp.{create_srp_verifier}
use desperate.Store.{StateStore, salt_path, load_with_key, create_with_key}
use desperate.Service.{
  Packages, Draws, LoginState, Service, M, ◌>>=◌, ◌>>◌, lift, look, update, on_files, save, stored,
  loaded, bundle_key, text_param,
}
use desperate.Service.Login.{set_login}

abbrev pub failure : Text → Fields
failure message = field "success" (bool false) (field "error" (text message) end)

abbrev pub success : Fields
success = field "success" (bool true) end

abbrev pub no_keystore : Fields
no_keystore = failure (ascii "No keystore found — re-register")

abbrev pub wrong_password : Text → Fields
wrong_password base_dir = failure (
    ascii "Wrong password — could not decrypt keystore at "
    ++ (base_dir ++ ascii ". If you re-registered, delete that directory and log in again."))

abbrev pub keys_lost : Text → Fields
keys_lost base_dir = failure (
    ascii "Identity keys not found in keystore at "
    ++ (base_dir ++ ascii ". Your local keys were lost. Delete that directory and re-register."))

abbrev pub keystore_exists : Text → Fields
keystore_exists base_dir = failure (
    ascii "A keystore already exists at "
    ++ (base_dir ++ ascii ". Delete that directory to re-register."))

-- The store that was opened, or None with the reply that no keystore is there.
abbrev pub found : Result StateStore → Result (Option StateStore)
found (ok st) = ok (some st)
found (err file_not_found) = ok none
found (err e) = err e

-- The bundle that was read, or None for the wrong password.
abbrev pub opened : Result IdentityBundle → Result (Option IdentityBundle)
opened (ok b) = ok (some b)
opened (err invalid_tag) = ok none
opened (err e) = err e

-- The store that was made, or None if there is one.
abbrev pub created : Result StateStore → Result (Option StateStore)
created (ok st) = ok (some st)
created (err file_exists) = ok none
created (err e) = err e

abbrev pub first_created : {F : Type 0} → Result StateStore × F → Result (Option StateStore) × F
first_created (r, fs) = (created r, fs)

-- the reply of a registration
unfoldable pub registration :
    Bytes → Bytes → Bytes → Bytes → Bytes → Bytes → Bytes → Text → Bytes → Fields
registration salt verifier idk kem signing spk spk_sig nonce_hex nonce_sig =
    field "srp_salt" (hex salt) (
      field "srp_verifier" (hex verifier) (
        field "idk_classical_pub" (hex idk) (
          field "idk_pq_pub" (hex kem) (
            field "identity_signing_pub" (hex signing) (
              field "signed_prekey_pub" (hex spk) (
                field "signed_prekey_signature" (hex spk_sig) (
                  field "nonce" (text nonce_hex)
                    (field "nonce_signature" (hex nonce_sig) end))))))))

module _ {R : Type 0} (p : Packages R) where
  unfoldable pub load_master_salt : Service R → Option Bytes
  load_master_salt s = lookup (salt_path p.base_dir) s.files

  unfoldable pub set_store : Option StateStore → M R (Unit {0})
  set_store st = update (λ s. record s { store = st })

  -- the end of `unlock_keystore`, by what became of the bundle
  unfoldable pub adopt : Option IdentityBundle → M R Fields
  adopt (some b) = do update (λ s. record s { local_bundle = some b }); lift (ok success)
  adopt none = do set_store none; lift (ok (wrong_password p.base_dir))

  unfoldable pub read_bundle : StateStore → Bool → M R Fields
  read_bundle st false = do set_store none; lift (ok (keys_lost p.base_dir))
  read_bundle st true = do
    b ←
        look
          (λ s. opened (Outcome.◌>>=◌ (loaded p st bundle_key s).0 (from_private_bundle p.suite)))
    adopt b

  unfoldable pub open_store : Option StateStore → M R Fields
  open_store none = lift (ok no_keystore)
  open_store (some st) = do
    set_store (some st)
    there ← look (λ s. ok (stored p st bundle_key s))
    read_bundle st there

  -- the key from the password and the salt file
  unfoldable pub open_with_salt : Text → Option Bytes → M R Fields
  open_with_salt password none = lift (ok no_keystore)
  open_with_salt password (some srp_salt) = do
    (_, keystore_key, _) ←
        lift (derive_master_components p.suite.hashes password (some srp_salt) [])
    st ← look (λ s. found (load_with_key p.base_dir keystore_key s.files))
    open_store st

  unfoldable pub open_cached : Text → Option Bytes → M R Fields
  open_cached password (some key) = do
    st ← look (λ s. found (load_with_key p.base_dir key s.files))
    update (set_login (λ l. record l { cached_keystore_key = none }))
    open_store st
  open_cached password none = do
    srp_salt ← look (λ s. ok (load_master_salt s))
    open_with_salt password srp_salt

  unfoldable pub unlock_with : Text → Bool → M R Fields
  unlock_with password true = lift (ok (failure (ascii "Password required")))
  unlock_with password false = do
    cached ← look (λ s. ok s.login.cached_keystore_key)
    open_cached password cached

  unfoldable pub unlock_keystore : Fields → M R Fields
  unlock_keystore params = do
    password ← lift (text_or_empty (find "password" params))
    unlock_with password (is_empty password)

  -- the end of a registration, once the store is made
  unfoldable pub register : IdentityBundle → Draws → Fields → Option StateStore → M R Fields
  register bundle draws reply none = lift (ok (keystore_exists p.base_dir))
  register bundle draws reply (some st) = do
    set_store (some st)
    state ← lift (Outcome.◌>>=◌ (to_private_bundle p.suite bundle) as_fields)
    save p st bundle_key state (draws.writes 1)
    update (λ s. record s { local_bundle = some bundle })
    lift (ok reply)

  -- the end of `generate_bundle`, from the creation of the store
  unfoldable pub keep_keys : IdentityBundle → Draws → Bytes → Fields → M R Fields
  keep_keys bundle draws keystore_key reply = do
    st ← on_files (λ fs.
        first_created (create_with_key p.base_dir keystore_key draws.salt (draws.writes 0).io fs))
    register bundle draws reply st

  unfoldable pub generate_bundle : Draws → Fields → M R Fields
  generate_bundle draws params = do
    username ← lift (text_param "username" params)
    password ← lift (text_param "password" params)
    nonce_hex ← lift (text_param "nonce" params)
    (srp_pass, keystore_key, _) ←
        lift (derive_master_components p.suite.hashes password (some draws.salt) [])
    bundle ← lift (generate_identity_bundle p.suite draws.bundle username 20)
    nonce_bytes ← lift (from_hex nonce_hex)
    let nonce_sig = sign p.suite bundle.ik_sig nonce_bytes
    let spk_pub = public_key_bytes p.suite bundle.spk.keypair
    let spk_sig = sign p.suite bundle.ik_sig spk_pub
    verifier ← lift (create_srp_verifier p.suite.hashes username (to_hex srp_pass) draws.salt)
    keep_keys bundle draws keystore_key (
        registration draws.salt verifier (public_key_bytes p.suite bundle.ik_classical)
          bundle.ik_kem.public_key bundle.ik_sig.public_key spk_pub spk_sig nonce_hex nonce_sig)
