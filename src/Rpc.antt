-- ===== src/Rpc.antt =====
-- main.py: the state of the RPC server and its helpers. The module's globals are a record, with the
-- files; a handler is a function of the state that returns a reply or raises, and leaves a state.
-- What a call draws and what befalls its writes is an argument. `keystore_dir` tells whether the
-- directory KEYSTORE_DIR is there, which an empty directory has no file for.
pub mod Registration
pub mod Login
pub mod Conversations
pub mod Messages
pub mod Connection
pub mod Untouched
pub mod Extends
pub mod Delivery
pub mod Interleaving
use desperate.Prelude.{
  ℕ, Bool, true, false, ◌&&◌, Option, none, some, [], ◌==◌, String, list_eq, if◌then◌else◌,
}
use desperate.Prelude.Dict.{Dict}
use desperate.Outcome.{Result, Exception, ok, err}
use desperate.Outcome as Outcome
use desperate.Effect.{Effect, ◌>>=◌, ◌>>◌, lift, look, update, attempt}
use desperate.Codec.Words.{Bytes}
use desperate.Codec.Hex.{Text}
use desperate.Codec.Ascii.{ascii}
use desperate.Suite.{Suite}
use desperate.Kdf.{is_empty}
use desperate.Json.{Json, Fields, end, field, find, text, as_text}
use desperate.Pqxdh.Bundles.{truth}
use desperate.Keys.Types.{IdentityBundle, X25519Keypair}
use desperate.Keys.Bundle.{BundleCoins, from_private_bundle}
use desperate.Srp.{SrpSession}
use desperate.Store.{StateStore, load}
use desperate.Store.AtomicWrite.{FileSystem}
use desperate.Store.States.{JsonCodec, load_state}
use desperate.Service.{Write}

-- The packages and the parts of Python that the server calls: `decode` is
-- `bytes.decode("utf-8", "replace")`, `describe` is `str` of an exception, `repr` that of a value.
pub record RpcPackages : Type 0 where
  pub suite : Suite
  pub json : JsonCodec
  pub decode : Bytes → Text
  pub describe : Exception → Text
  pub repr : Json → Text
  pub base_dir : Text

-- What one request draws, and its writes in order.
pub record RpcDraws : Type 0 where
  pub bundle : BundleCoins
  pub keystore_salt : Bytes
  pub srp_salt : Bytes
  pub srp_secret : Bytes
  pub ek : X25519Keypair
  pub kem_coins : Bytes
  pub nonce : Bytes
  pub writes : ℕ → Write

pub record Rpc : Type 0 where
  pub files : FileSystem
  pub keystore_dir : Bool
  pub keystore_store : Option StateStore
  pub keystore_password : Option Text
  pub srp_session : Option SrpSession
  pub session_keys : Dict Text Bytes
  pub pending_initiation_bundles : Dict Text Json

abbrev pub Handler : Type 0
Handler = Effect Rpc Fields

abbrev pub error_reply : Text → Fields
error_reply message = field "error" (text message) end

abbrev pub server_error : Fields
server_error = error_reply (ascii "Internal server error.")

-- `except Exception: return reply`
unfoldable pub caught : Fields → Handler → Handler
caught reply m = attempt m (λ e. lift (ok reply))

unfoldable pub none_if_raised : {A : Type 0} → Effect Rpc (Option A) → Effect Rpc (Option A)
none_if_raised m = attempt m (λ e. lift (ok none))

-- A value that is used as a text, if it is true; a false one is tested for, and nothing else.
unfoldable pub text_if_true : Option Json → Result Text
text_if_true none = ok []
text_if_true (some v) = if truth v then as_text v else ok []

-- `params.get(k, "")`, where it is a text or false
unfoldable pub get_text : String → Fields → Result Text
get_text k params = text_if_true (find k params)

-- `params.get(first) or params.get(second, default)`
unfoldable pub get_either : String → String → Text → Fields → Result Text
get_either first second default params = Outcome.◌>>=◌ (get_text first params) (λ t.
    if is_empty t
    then elim (find second params) [ none ↦ ok default | some v ↦ text_if_true (some v) ]
    else ok t)

abbrev pub same_text : Text → Option Text → Bool
same_text password none = false
same_text password (some known) = password == known

-- the store that is open, if the password is the one that it was opened with
abbrev pub store_for : Option StateStore → Bool → Option StateStore
store_for none same = none
store_for (some st) true = some st
store_for (some st) false = none

abbrev pub identity : Text
identity = ascii "identity"

module _ (p : RpcPackages) where
  -- `store.load_state("identity")`
  unfoldable pub stored_identity : StateStore → Effect Rpc Json
  stored_identity st = look (λ s. load_state p.suite.cipher p.json st identity s.files)

  unfoldable pub load_from : Option StateStore → Effect Rpc (Option IdentityBundle)
  load_from none = lift (ok none)
  load_from (some st) = none_if_raised (do
    private_data ← stored_identity st
    b ← lift (from_private_bundle p.suite private_data)
    lift (ok (some b)))

  -- _load_identity
  unfoldable pub load_identity : Effect Rpc (Option IdentityBundle)
  load_identity = do st ← look (λ s. ok s.keystore_store); load_from st

  unfoldable pub load_keystore : Text → Effect Rpc StateStore
  load_keystore password = look (λ s. load p.suite.hashes p.base_dir password s.files)

  unfoldable pub keep_store : StateStore → Text → Effect Rpc (Unit {0})
  keep_store st password =
      update (λ s. record s { keystore_store = some st; keystore_password = some password })

  unfoldable pub open_keystore : Text → Option StateStore → Effect Rpc (Option StateStore)
  open_keystore password (some st) = lift (ok (some st))
  open_keystore password none = none_if_raised (do
    st ← load_keystore password
    stored_identity st
    keep_store st password
    lift (ok (some st)))

  -- _ensure_keystore
  unfoldable pub ensure_keystore : Text → Effect Rpc (Option StateStore)
  ensure_keystore password = do
    cached ← look (λ s. ok (store_for s.keystore_store (same_text password s.keystore_password)))
    open_keystore password cached
