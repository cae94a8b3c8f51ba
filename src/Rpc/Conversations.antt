-- ===== src/Rpc/Conversations.antt =====
-- main.py: `handle_initiate_session` and `handle_respond_session`.
use desperate.Prelude.{Bool, true, false, ◌||◌, not, Option, none, some, [], list_eq}
use desperate.Prelude.Dict.{lookup, insert}
use desperate.Outcome.{Result, ok, err, type_error}
use desperate.Effect.{Effect, ◌>>=◌, ◌>>◌, lift, look, update}
use desperate.Codec.Words.{Bytes}
use desperate.Codec.Hex.{Text}
use desperate.Codec.Utf8.{encode}
use desperate.Codec.Ascii.{ascii}
use desperate.Kdf.{is_empty}
use desperate.Json.{Json, Fields, end, field, find, text, bool}
use desperate.Keys.Types.{IdentityBundle}
use desperate.Pqxdh.{initiate, respond}
use desperate.Pqxdh.Bundles.{InitiationBundle, to_dict, from_dict, truth}
use desperate.Service.Keystore.{failure, success}
use desperate.Service.Messages.{is_some}
use desperate.Service.Reception.{or_null}
use desperate.Rpc.{RpcPackages, RpcDraws, Rpc, Handler, caught, get_text, load_identity}

abbrev pub established : Fields
established = field "success" (bool true) (field "already_established" (bool true) end)

-- A value that is absent or false.
unfoldable pub is_missing : Option Json → Bool
is_missing none = true
is_missing (some v) = not (truth v)

unfoldable pub keep_key : Text → Bytes → Effect Rpc (Unit {0})
keep_key conversation_id sk =
    update (λ s. record s { session_keys = insert conversation_id sk s.session_keys })

-- `conversation_id in _session_keys`
unfoldable pub known : Text → Effect Rpc Bool
known conversation_id = look (λ s. ok (is_some (lookup conversation_id s.session_keys)))

-- `result.bundle.to_dict()`, where None has no such attribute
abbrev pub dict_of : Option InitiationBundle → Result Json
dict_of none = err type_error
dict_of (some b) = ok (to_dict b)

module _ (p : RpcPackages) where
  -- `json.loads(v) if isinstance(v, str) else v`
  unfoldable pub remote_bundle_of : Option Json → Result Json
  remote_bundle_of none = ok (text [])
  remote_bundle_of (some (text t)) = p.json.loads (encode t)
  remote_bundle_of (some v) = ok v

  unfoldable pub initiate_as : RpcDraws → Text → Option Json → Option IdentityBundle → Handler
  initiate_as draws conversation_id remote none =
      lift (ok (failure (ascii "Keystore not unlocked. Call unlock_keystore first.")))
  initiate_as draws conversation_id remote (some local_bundle) =
      caught (failure (ascii "PQXDH initiation failed.")) (do
        remote_bundle ← lift (remote_bundle_of remote)
        result ← lift (initiate p.suite local_bundle remote_bundle true draws.ek draws.kem_coins)
        keep_key conversation_id result.sk
        initiation ← lift (dict_of result.bundle)
        update (λ s. record s {
          pending_initiation_bundles =
              insert conversation_id initiation s.pending_initiation_bundles;
        })
        lift (ok success))

  unfoldable pub initiate_unless : RpcDraws → Text → Option Json → Bool → Handler
  initiate_unless draws conversation_id remote true = lift (ok established)
  initiate_unless draws conversation_id remote false = do
    local_bundle ← load_identity p
    initiate_as draws conversation_id remote local_bundle

  unfoldable pub initiate_given : RpcDraws → Text → Option Json → Bool → Handler
  initiate_given draws conversation_id remote true =
      lift (ok (failure (ascii "conversation_id and remote_bundle required.")))
  initiate_given draws conversation_id remote false = do
    live ← known conversation_id
    initiate_unless draws conversation_id remote live

  unfoldable pub handle_initiate_session : RpcDraws → Fields → Handler
  handle_initiate_session draws params = do
    conversation_id ← lift (get_text "conversation_id" params)
    let remote = find "remote_bundle" params
    initiate_given draws conversation_id remote (is_empty conversation_id || is_missing remote)

  -- The handshake as the responder, without one-time prekeys.
  unfoldable pub establish : Text → Json → IdentityBundle → Effect Rpc (Unit {0})
  establish conversation_id initiation_bundle local_bundle = do
    initiation ← lift (from_dict initiation_bundle)
    result ← lift (respond p.suite local_bundle initiation [] [])
    keep_key conversation_id result.sk

  unfoldable pub respond_as : Text → Json → Option IdentityBundle → Handler
  respond_as conversation_id initiation_bundle none =
      lift (ok (failure (ascii "Keystore not unlocked.")))
  respond_as conversation_id initiation_bundle (some local_bundle) =
      caught (failure (ascii "PQXDH response failed."))
        (do establish conversation_id initiation_bundle local_bundle; lift (ok success))

  unfoldable pub respond_unless : Text → Json → Bool → Handler
  respond_unless conversation_id initiation_bundle true = lift (ok established)
  respond_unless conversation_id initiation_bundle false = do
    local_bundle ← load_identity p
    respond_as conversation_id initiation_bundle local_bundle

  unfoldable pub respond_given : Text → Json → Bool → Handler
  respond_given conversation_id initiation_bundle true =
      lift (ok (failure (ascii "conversation_id and initiation_bundle required.")))
  respond_given conversation_id initiation_bundle false = do
    live ← known conversation_id
    respond_unless conversation_id initiation_bundle live

  unfoldable pub handle_respond_session : Fields → Handler
  handle_respond_session params = do
    conversation_id ← lift (get_text "conversation_id" params)
    let initiation = find "initiation_bundle" params
    respond_given conversation_id (or_null initiation)
        (is_empty conversation_id || is_missing initiation)
