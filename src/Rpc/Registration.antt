-- ===== src/Rpc/Registration.antt =====
-- main.py: `handle_unlock_keystore` and `handle_generate_identity_bundle`.
pub mod Laws
pub mod Nonce
pub mod Decimal
use desperate.Prelude.{
  ℕ, zero, suc, ◌+◌, ◌/◌, ◌%◌, Bool, true, false, ◌||◌, not, Option, none, some, [], ◌∷◌, ◌++◌,
  ◌==◌, nat_eq, length, ltb, take, list_eq, if◌then◌else◌,
}
use desperate.Prelude.Dict.{Dict}
use desperate.Outcome.{Result, Exception, ok, err, invalid_tag}
use desperate.Outcome as Outcome
use desperate.Effect.{Effect, ◌>>=◌, ◌>>◌, lift, look, update, attempt}
use desperate.Codec.Words.{Bytes}
use desperate.Codec.Hex.{Text, from_hex}
use desperate.Codec.Ascii.{ascii}
use desperate.Kdf.{is_empty}
use desperate.Json.{Json, Fields, end, field, find, put, null, text, hex, as_fields}
use desperate.Keys.Types.{IdentityBundle, sign, public_key_bytes}
use desperate.Keys.Bundle.{generate_identity_bundle, to_private_bundle, to_public_bundle}
use desperate.Srp.{private_value, generator, modulus, pad}
use desperate.Srp.Arith.{pow_mod}
use desperate.Store.{StateStore, create}
use desperate.Store.AtomicWrite.{FileSystem}
use desperate.Store.States.{save_state}
use desperate.Service.Keystore.{failure, success}
use desperate.Rpc.{
  RpcPackages, RpcDraws, Rpc, Handler, error_reply, server_error, caught, text_if_true, get_either,
  identity, stored_identity, load_keystore, keep_store, ensure_keystore,
}

-- str(n), for `fuel` digits at most
unfoldable pub digits : ℕ → ℕ → Text
digits zero n = []
digits (suc fuel) n =
    let rest = digits fuel (n / 10) in
    if ltb n 10 then (48 + n) ∷ [] else rest ++ ((48 + n % 10) ∷ [])

abbrev pub decimal : ℕ → Text
decimal n = digits (n + 1) n

abbrev pub bad_nonce : Text → Fields
bad_nonce nonce =
    error_reply (ascii "nonce must be exactly 64 hex chars, got " ++ decimal (length nonce))

-- { **first, **second }
unfoldable pub spread : Fields → Fields → Fields
spread first end = first
spread first (field k v rest) = spread (put k v first) rest

-- shutil.rmtree(KEYSTORE_DIR)
unfoldable pub remove_tree : Text → FileSystem → FileSystem
remove_tree dir [] = []
remove_tree dir ((path, content) ∷ fs) =
    let rest = remove_tree dir fs in
    let inside = dir ++ (47 ∷ []) in
    if take (length inside) path == inside then rest else (path, content) ∷ rest

unfoldable pub unlocked : Option StateStore → Fields
unlocked none = failure (ascii "Invalid password or no keystore found. Register first.")
unlocked (some st) = success

-- an existing keystore that this password does not open
unfoldable pub not_overwritten : Exception → Effect Rpc (Option Fields)
not_overwritten invalid_tag =
    lift (ok (some (error_reply (ascii "Wrong password — cannot overwrite existing keystore."))))
not_overwritten e = lift (err e)

module _ (p : RpcPackages) where
  unfoldable pub unlock_given : Text → Bool → Handler
  unlock_given password true = lift (ok (failure (ascii "keystore_password is required.")))
  unlock_given password false =
      caught (failure (ascii "Internal server error."))
        (do st ← ensure_keystore p password; lift (ok (unlocked st)))

  unfoldable pub handle_unlock_keystore : Fields → Handler
  handle_unlock_keystore params = do
    password ← lift (get_either "keystore_password" "password" [] params)
    unlock_given password (is_empty password)

  unfoldable pub remove_unless : Option Fields → Effect Rpc (Option Fields)
  remove_unless (some refusal) = lift (ok (some refusal))
  remove_unless none = do
    update (λ s. record s { files = remove_tree p.base_dir s.files; keystore_dir = false })
    lift (ok none)

  -- the block that removes the existing keystore, or the reply that it is kept
  unfoldable pub clear_keystore : Text → Bool → Effect Rpc (Option Fields)
  clear_keystore password false = lift (ok none)
  clear_keystore password true = do
    refused ←
        attempt (do existing ← load_keystore p password; stored_identity p existing; lift (ok none))
          not_overwritten
    remove_unless refused

  -- StateStore.create, which makes the directory first
  unfoldable pub create_keystore : RpcDraws → Text → Effect Rpc StateStore
  create_keystore draws password s =
      let (r, fs) =
        create p.suite.hashes p.base_dir password draws.keystore_salt (draws.writes 0).io s.files in
      (r, record s { files = fs; keystore_dir = true })

  -- store.save_state("identity", …)
  unfoldable pub save_identity : RpcDraws → StateStore → Fields → Effect Rpc (Unit {0})
  save_identity draws st state s =
      let w = draws.writes 1 in
      let (r, fs) = save_state p.suite.cipher p.json st identity state w.nonce w.io s.files in
      (r, record s { files = fs })

  -- the new keystore, up to the release of the lock
  unfoldable pub new_keystore : RpcDraws → Text → Text → Effect Rpc IdentityBundle
  new_keystore draws username password = do
    bundle ← lift (generate_identity_bundle p.suite draws.bundle username 20)
    st ← create_keystore draws password
    state ← lift (Outcome.◌>>=◌ (to_private_bundle p.suite bundle) as_fields)
    save_identity draws st state
    keep_store p st password
    lift (ok bundle)

  -- `verifier`
  unfoldable pub srp_verifier : Text → Text → Bytes → Result Bytes
  srp_verifier username password salt =
      pad (pow_mod generator (private_value p.suite.hashes username password salt) modulus)

  unfoldable pub registration_fields : IdentityBundle → Bytes → Bytes → Text → Bytes → Fields
  registration_fields bundle salt verifier nonce nonce_signature = field "srp_salt" (hex salt) (
      field "srp_verifier" (hex verifier) (
        field "idk_classical_pub" (hex (public_key_bytes p.suite bundle.ik_classical)) (
          field "idk_pq_pub" (hex bundle.ik_kem.public_key) (
            field "identity_signing_pub" (hex bundle.ik_sig.public_key) (
              field "signed_prekey_pub" (hex (public_key_bytes p.suite bundle.spk.keypair)) (
                field "signed_prekey_signature" (hex bundle.spk.signature) (
                  field "device_name" null (
                    field "nonce" (text nonce)
                      (field "nonce_signature" (hex nonce_signature) end)))))))))

  unfoldable pub sign_nonce : IdentityBundle → Bytes → Bytes → Text → Bool → Handler
  sign_nonce bundle salt verifier nonce true = lift (ok (bad_nonce nonce))
  sign_nonce bundle salt verifier nonce false = do
    nonce_bytes ← lift (from_hex nonce)
    let nonce_signature = sign p.suite bundle.ik_sig nonce_bytes
    pub_bundle ← lift (Outcome.◌>>=◌ (to_public_bundle p.suite bundle) as_fields)
    lift (ok (spread pub_bundle (registration_fields bundle salt verifier nonce nonce_signature)))

  unfoldable pub register_with : RpcDraws → Text → Text → Option Json → Option Fields → Handler
  register_with draws username password given (some reply) = lift (ok reply)
  register_with draws username password given none = do
    bundle ← new_keystore draws username password
    verifier ← lift (srp_verifier username password draws.srp_salt)
    nonce_text ← lift (text_if_true given)
    sign_nonce bundle draws.srp_salt verifier nonce_text
        (is_empty nonce_text || not (length nonce_text == 64))

  unfoldable pub generate_given : RpcDraws → Text → Text → Option Json → Bool → Handler
  generate_given draws username password given true =
      lift (ok (error_reply (ascii "keystore_password is required.")))
  generate_given draws username password given false = caught server_error (do
    there ← look (λ s. ok s.keystore_dir)
    refused ← clear_keystore password there
    register_with draws username password given refused)

  unfoldable pub handle_generate_identity_bundle : RpcDraws → Fields → Handler
  handle_generate_identity_bundle draws params = do
    password ← lift (get_either "keystore_password" "password" [] params)
    username ← lift (get_either "user_id" "username" (ascii "local") params)
    generate_given draws username password (find "nonce" params) (is_empty password)
