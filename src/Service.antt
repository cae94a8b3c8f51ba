-- ===== src/Service.antt =====
-- crypto_service.py: the state of the service and its helpers. The module's globals are a record,
-- with the files; a handler is a function of the state that returns or raises and leaves a state.
-- What a call draws (`os.urandom`, generated keys) and what befalls its writes is an argument.
pub mod Tame
pub mod Opks
pub mod Keystore
pub mod Login
pub mod Messages
pub mod Reception
pub mod Dispatch
use desperate.Prelude.{
  ℕ, Bool, true, false, ◌&&◌, not, Option, none, some, List, [], ◌∷◌, ◌++◌, ◌==◌, nat_eq, list_eq,
  String, if◌then◌else◌,
}
use desperate.Prelude.Dict.{Dict, lookup, insert}
use desperate.Outcome.{
  Result, Exception, ok, err, value_error, not_unlocked, no_identity, no_active_session,
}
use desperate.Outcome as Outcome
use desperate.Effect.{Effect}
unfoldable pub use desperate.Effect.{pass, ◌>>=◌, ◌>>◌, lift, look, update}
use desperate.Codec.Words.{Bytes}
use desperate.Codec.Hex.{Text}
use desperate.Codec.Ascii.{ascii}
use desperate.Suite.{Suite}
use desperate.Json.{Json, Fields, obj, at, as_text, as_bytes, as_fields}
use desperate.Keys.Types.{IdentityBundle, X25519OneTimePrekey, KemOneTimePrekey, X25519Keypair}
use desperate.Keys.Bundle.{BundleCoins, to_private_bundle}
use desperate.Signatures.{Msgpack}
use desperate.Srp.{SrpSession}
use desperate.Store.{StateStore}
use desperate.Store.AtomicWrite.{FileSystem, WriteIo}
use desperate.Store.States.{JsonCodec, save_state, load_state, state_exists}
use desperate.Ratchet.Session.{DoubleRatchet, RatchetSession}
use desperate.Ratchet.Session.Creation.{load_session}

-- The packages, and the directory of the keystore. `decode` is `bytes.decode("utf-8", "replace")`.
pub record Packages (R : Type 0) : Type 0 where
  pub suite : Suite
  pub ratchet : DoubleRatchet R
  pub json : JsonCodec
  pub msgpack : Msgpack
  pub decode : Bytes → Text
  pub base_dir : Text

pub record Write : Type 0 where
  pub nonce : Bytes
  pub io : WriteIo

-- What one call draws, and its writes in order.
pub record Draws : Type 0 where
  pub salt : Bytes
  pub bundle : BundleCoins
  pub srp_secret : Bytes
  pub ek : X25519Keypair
  pub kem_coins : Bytes
  pub writes : ℕ → Write

-- A session with the store that it persists to.
pub record SessionEntry (R : Type 0) : Type 0 where
  pub ratchet : RatchetSession R
  pub store : StateStore
  pub remote_ik_sig_pub : Bytes
  pub init_bundle : Json

pub record PendingSession : Type 0 where
  pub sk : Bytes
  pub bob_ratchet_pub : Bytes
  pub remote_sig_pub : Bytes
  pub init_bundle : Json

-- What a login is about to open.
pub record LoginState : Type 0 where
  pub srp_session : Option SrpSession
  pub pending_password : Option Text
  pub pending_keystore_key : Option Bytes
  pub cached_keystore_key : Option Bytes

pub record Service (R : Type 0) : Type 0 where
  pub files : FileSystem
  pub login : LoginState
  pub store : Option StateStore
  pub local_bundle : Option IdentityBundle
  pub pending_sessions : Dict Text PendingSession
  pub sessions : Dict Text (SessionEntry R)

abbrev pub M : Type 0 → Type 0 → Type 0
M R A = Effect (Service R) A

module _ {R : Type 0} where
  unfoldable pub on_files : {A : Type 0} → (FileSystem → Result A × FileSystem) → M R A
  on_files f s = let (r, fs) = f s.files in (r, record s { files = fs })

  -- `try: … except Exception: pass`
  unfoldable pub suppress : M R (Unit {0}) → M R (Unit {0})
  suppress m s = (ok tt, (m s).1)

abbrev pub bundle_key : Text
bundle_key = ascii "__identity__"

-- f"{_META_KEY_PREFIX}{conversation_id}"
abbrev pub meta_key : Text → Text
meta_key conversation_id = ascii "__sigmeta__" ++ conversation_id

-- params[k] of a text
unfoldable pub text_param : String → Fields → Result Text
text_param k params = Outcome.◌>>=◌ (at k (obj params)) as_text

unfoldable pub store_of : Option StateStore → Result StateStore
store_of none = err (value_error not_unlocked)
store_of (some st) = ok st

unfoldable pub bundle_of : Option IdentityBundle → Result IdentityBundle
bundle_of none = err (value_error no_identity)
bundle_of (some b) = ok b

module _ {R : Type 0} where
  unfoldable pub require_store : M R StateStore
  require_store = look (λ s. store_of s.store)

  unfoldable pub require_bundle : M R IdentityBundle
  require_bundle = look (λ s. bundle_of s.local_bundle)

-- [o for o in l if o.opk_id != opk_id]
unfoldable pub drop_x25519 : ℕ → List X25519OneTimePrekey → List X25519OneTimePrekey
drop_x25519 opk_id [] = []
drop_x25519 opk_id (o ∷ l) =
    let rest = drop_x25519 opk_id l in if o.opk_id == opk_id then rest else o ∷ rest

unfoldable pub drop_kem : ℕ → List KemOneTimePrekey → List KemOneTimePrekey
drop_kem opk_id [] = []
drop_kem opk_id (o ∷ l) =
    let rest = drop_kem opk_id l in if o.opk_id == opk_id then rest else o ∷ rest

-- {opk.opk_id: opk.secret_key for opk in l}
unfoldable pub x25519_secrets : Dict ℕ Bytes → List X25519OneTimePrekey → Dict ℕ Bytes
x25519_secrets d [] = d
x25519_secrets d (o ∷ l) = x25519_secrets (insert o.opk_id o.secret_key d) l

unfoldable pub kem_secrets : Dict ℕ Bytes → List KemOneTimePrekey → Dict ℕ Bytes
kem_secrets d [] = d
kem_secrets d (o ∷ l) = kem_secrets (insert o.opk_id o.secret_key d) l

unfoldable pub load_opk_secrets : IdentityBundle → Dict ℕ Bytes × Dict ℕ Bytes
load_opk_secrets b = (x25519_secrets [] b.x25519_opks, kem_secrets [] b.kem_opks)

-- the two assignments of `_consume_opk`
unfoldable pub without_opk : ℕ → IdentityBundle → IdentityBundle
without_opk opk_id b = record b {
  x25519_opks = drop_x25519 opk_id b.x25519_opks;
  kem_opks = drop_kem opk_id b.kem_opks;
}

module _ {R : Type 0} (p : Packages R) where
  unfoldable pub save : StateStore → Text → Fields → Write → M R (Unit {0})
  save st session_id state w =
      on_files (save_state p.suite.cipher p.json st session_id state w.nonce w.io)

  unfoldable pub stored : StateStore → Text → Service R → Bool
  stored st session_id s = state_exists p.suite.cipher p.json st session_id s.files

  unfoldable pub loaded : StateStore → Text → M R Json
  loaded st session_id = look (λ s. load_state p.suite.cipher p.json st session_id s.files)

  -- the session of a conversation whose two files are there
  unfoldable pub reload : StateStore → Text → Bool → M R (SessionEntry R)
  reload st conversation_id false = lift (err (value_error no_active_session))
  reload st conversation_id true = do
    meta ← loaded st (meta_key conversation_id)
    ratchet ← look (λ s. load_session p.ratchet p.suite.cipher p.json st conversation_id s.files)
    sig_pub_bytes ← lift (Outcome.◌>>=◌ (at "remote_ik_sig_pub" meta) as_bytes)
    let entry : SessionEntry R = record {
      ratchet = ratchet;
      store = st;
      remote_ik_sig_pub = sig_pub_bytes;
      init_bundle = Json.null;
    }
    update (λ s. record s { sessions = insert conversation_id entry s.sessions })
    lift (ok entry)

  unfoldable pub restore : Text → Option (SessionEntry R) → M R (SessionEntry R)
  restore conversation_id (some entry) = lift (ok entry)
  restore conversation_id none = do
    st ← require_store
    there ← look (λ s. ok (stored st conversation_id s && stored st (meta_key conversation_id) s))
    reload st conversation_id there

  unfoldable pub require_session : Text → M R (SessionEntry R)
  require_session conversation_id = do
    known ← look (λ s. ok (lookup conversation_id s.sessions))
    restore conversation_id known

  -- `_consume_opk`; the bundle is the service's own
  unfoldable pub consume_opk : StateStore → IdentityBundle → ℕ → Write → M R (Unit {0})
  consume_opk st bundle opk_id w = do
    let left = without_opk opk_id bundle
    update (λ s. record s { local_bundle = some left })
    state ← lift (Outcome.◌>>=◌ (to_private_bundle p.suite left) as_fields)
    save st bundle_key state w
