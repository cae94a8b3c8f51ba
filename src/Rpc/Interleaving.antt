-- ===== src/Rpc/Interleaving.antt =====
-- main.py: `handle_initiate_session` before and after its await. While the handshake runs in a
-- thread, which reads no state, requests of other connections are served.
pub mod Laws
use desperate.Prelude.{Bool, true, false, Option, none, some, list_eq}
use desperate.Prelude.Dict.{lookup, insert}
use desperate.Outcome.{Result}
use desperate.Outcome as Outcome
use desperate.Effect.{Effect, ◌>>=◌, ◌>>◌, lift, look, update}
use desperate.Codec.Words.{Bytes}
use desperate.Codec.Hex.{Text}
use desperate.Codec.Ascii.{ascii}
use desperate.Json.{Json, Fields}
use desperate.Keys.Types.{IdentityBundle}
use desperate.Pqxdh.{PqxdhResult, initiate}
use desperate.Service.Keystore.{failure, success}
use desperate.Rpc.{RpcPackages, RpcDraws, Rpc, Handler, caught, load_identity}
use desperate.Rpc.Conversations.{established, known, keep_key, dict_of, remote_bundle_of}
use desperate.Outcome.{ok}

-- A request that is answered already, or one whose handshake runs, with what will come of it.
pub data Stage : Type 0 where
  answered : Fields → Stage
  running : Result PqxdhResult → Stage

module _ (p : RpcPackages) where
  abbrev pub handshake : RpcDraws → Option Json → IdentityBundle → Result PqxdhResult
  handshake draws remote local_bundle =
      Outcome.◌>>=◌ (remote_bundle_of p remote)
        (λ remote_bundle. initiate p.suite local_bundle remote_bundle true draws.ek draws.kem_coins)

  abbrev pub stage_of : RpcDraws → Option Json → Option IdentityBundle → Stage
  stage_of draws remote none =
      answered (failure (ascii "Keystore not unlocked. Call unlock_keystore first."))
  stage_of draws remote (some local_bundle) = running (handshake draws remote local_bundle)

  unfoldable pub begin_unless : RpcDraws → Option Json → Bool → Effect Rpc Stage
  begin_unless draws remote true = lift (ok (answered established))
  begin_unless draws remote false = do
    local_bundle ← load_identity p
    lift (ok (stage_of draws remote local_bundle))

  -- up to the await
  unfoldable pub begin_initiation : RpcDraws → Text → Option Json → Effect Rpc Stage
  begin_initiation draws conversation_id remote = do
    live ← known conversation_id
    begin_unless draws remote live

  -- from the await on
  unfoldable pub end_initiation : Text → Stage → Handler
  end_initiation conversation_id (answered reply) = lift (ok reply)
  end_initiation conversation_id (running outcome) =
      caught (failure (ascii "PQXDH initiation failed.")) (do
        result ← lift outcome
        keep_key conversation_id result.sk
        initiation ← lift (dict_of result.bundle)
        update (λ s. record s {
          pending_initiation_bundles =
              insert conversation_id initiation s.pending_initiation_bundles;
        })
        lift (ok success))

  -- Two requests for one conversation, of which the second begins before the first ends: their
  -- replies, and between them the key that the first left.
  abbrev pub interleaved :
      RpcDraws → RpcDraws → Text → Option Json → Effect Rpc (Fields × Option Bytes × Fields)
  interleaved draws₁ draws₂ conversation_id remote = do
    first ← begin_initiation draws₁ conversation_id remote
    second ← begin_initiation draws₂ conversation_id remote
    a ← end_initiation conversation_id first
    between ← look (λ s. ok (lookup conversation_id s.session_keys))
    b ← end_initiation conversation_id second
    lift (ok (a, between, b))
