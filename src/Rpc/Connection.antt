-- ===== src/Rpc/Connection.antt =====
-- main.py: HANDLERS and `handle_client`. A connection is a list of rounds: what the reader delivers,
-- what the request draws, and what becomes of `drain`. Its answers are the objects that are written,
-- in order. An exception closes the connection, also one of the reader, such as asyncio's for a line
-- that is longer than its limit, or of `drain`. The list ends where the reader does.
pub mod Handlers
pub mod Laws
use desperate.Prelude.{
  ℕ, String, Bool, true, false, ◌||◌, Option, none, some, List, [], ◌∷◌, ◌++◌, ◌==◌, nat_eq,
  list_eq, if◌then◌else◌,
}
use desperate.Outcome.{Result, Exception, ok, err, type_error, json_decode_error}
use desperate.Effect.{Effect, ◌>>=◌, ◌>>◌, lift, look, update, attempt}
use desperate.Codec.Words.{Bytes}
use desperate.Codec.Hex.{Text}
use desperate.Codec.Ascii.{ascii}
use desperate.Kdf.{is_empty}
use desperate.Json.{Json, Fields, end, field, find, put, text, arr, obj, as_fields}
use desperate.Service.Reception.{or_null}
use desperate.Rpc.{RpcPackages, RpcDraws, Rpc, Handler, error_reply}
use desperate.Rpc.Registration.{handle_unlock_keystore, handle_generate_identity_bundle}
use desperate.Rpc.Login.{handle_srp_start, handle_srp_challenge, handle_srp_verify}
use desperate.Rpc.Conversations.{handle_initiate_session, handle_respond_session}
use desperate.Rpc.Messages.{handle_encrypt_message, handle_decrypt_message}

pub data HandlerName : Type 0 where
  unlock_keystore generate_identity_bundle srp_start srp_challenge srp_verify : HandlerName
  initiate_session respond_session encrypt_message decrypt_message : HandlerName

-- HANDLERS
unfoldable pub handler_of : Text → Option HandlerName
handler_of m =
    if m == ascii "unlock_keystore"
    then some unlock_keystore
    else if m == ascii "generate_identity_bundle"
    then some generate_identity_bundle
    else if m == ascii "srp_start"
    then some srp_start
    else if m == ascii "srp_challenge"
    then some srp_challenge
    else if m == ascii "srp_verify"
    then some srp_verify
    else if m == ascii "initiate_session"
    then some initiate_session
    else if m == ascii "respond_session"
    then some respond_session
    else if m == ascii "encrypt_message"
    then some encrypt_message
    else if m == ascii "decrypt_message"
    then some decrypt_message
    else none

-- `HANDLERS.get(method)`, where a list or a dict cannot be hashed
unfoldable pub find_handler : Json → Result (Option HandlerName)
find_handler (text m) = ok (handler_of m)
find_handler (arr l) = err type_error
find_handler (obj d) = err type_error
find_handler v = ok none

unfoldable pub get_or : String → Json → Fields → Json
get_or k default d = elim (find k d) [ none ↦ default | some v ↦ v ]

-- bytes.strip()
abbrev pub is_space : ℕ → Bool
is_space b = b == 32 || (b == 9 || (b == 10 || (b == 11 || (b == 12 || b == 13))))

unfoldable pub strip_left : Bytes → Bytes
strip_left [] = []
strip_left (b ∷ bs) = let rest = strip_left bs in if is_space b then rest else b ∷ bs

unfoldable pub strip_right : Bytes → Bytes
strip_right [] = []
strip_right (b ∷ bs) =
    let rest = strip_right bs in
    if is_empty rest then (if is_space b then [] else b ∷ []) else b ∷ rest

-- One turn of `async for line in reader`, whose iterator may raise.
pub record Round : Type 0 where
  pub line : Result Bytes
  pub draws : RpcDraws
  pub drained : Result (Unit {0})

-- What became of a line: nothing to answer, an answer, or the end of the connection.
pub data Answer : Type 0 where
  silent : Answer
  reply : Fields → Answer
  closed : Exception → Answer

abbrev pub answered : Result Answer × Rpc → Answer × Rpc
answered (ok a, s) = (a, s)
answered (err e, s) = (closed e, s)

unfoldable pub with_id : Fields → Fields → Answer
with_id request response = reply (put "id" (or_null (find "id" request)) response)

module _ (p : RpcPackages) where
  unfoldable pub run_handler : RpcDraws → HandlerName → Fields → Handler
  run_handler draws unlock_keystore params = handle_unlock_keystore p params
  run_handler draws generate_identity_bundle params = handle_generate_identity_bundle p draws params
  run_handler draws srp_start params = handle_srp_start draws params
  run_handler draws srp_challenge params = handle_srp_challenge p params
  run_handler draws srp_verify params = handle_srp_verify params
  run_handler draws initiate_session params = handle_initiate_session p draws params
  run_handler draws respond_session params = handle_respond_session p params
  run_handler draws encrypt_message params = handle_encrypt_message p draws params
  run_handler draws decrypt_message params = handle_decrypt_message p params

  unfoldable pub respond_to : RpcDraws → Json → Json → Option HandlerName → Handler
  respond_to draws method params none =
      lift (ok (error_reply (ascii "Unknown method: " ++ p.repr method)))
  respond_to draws method params (some h) = do d ← lift (as_fields params); run_handler draws h d

  unfoldable pub serve_request : RpcDraws → Json → Effect Rpc Answer
  serve_request draws value = do
    request ← lift (as_fields value)
    let method = get_or "method" (text []) request
    h ← lift (find_handler method)
    response ← respond_to draws method (get_or "params" (obj end) request) h
    lift (ok (with_id request response))

  unfoldable pub serve_parsed : RpcDraws → Result Json → Effect Rpc Answer
  serve_parsed draws (ok value) = serve_request draws value
  serve_parsed draws (err json_decode_error) =
      lift (ok (reply (error_reply (ascii "Invalid JSON"))))
  serve_parsed draws (err e) = lift (err e)

  unfoldable pub serve_stripped : RpcDraws → Bytes → Effect Rpc Answer
  serve_stripped draws [] = lift (ok silent)
  serve_stripped draws (b ∷ bs) = serve_parsed draws (p.json.loads (b ∷ bs))

  unfoldable pub serve_line : RpcDraws → Bytes → Rpc → Answer × Rpc
  serve_line draws line s = answered (serve_stripped draws (strip_right (strip_left line)) s)

  unfoldable pub serve_read : RpcDraws → Result Bytes → Rpc → Answer × Rpc
  serve_read draws (err e) s = (closed e, s)
  serve_read draws (ok line) s = serve_line draws line s

  -- An answer is written before `drain` may raise.
  abbrev pub continue :
      Answer × Rpc → Result (Unit {0}) → (Rpc → List Fields × Rpc) → List Fields × Rpc
  continue (silent, s) drained rest = rest s
  continue (reply d, s) (ok u) rest = let (ds, t) = rest s in (d ∷ ds, t)
  continue (reply d, s) (err e) rest = (d ∷ [], s)
  continue (closed e, s) drained rest = ([], s)

  unfoldable pub handle_client : List Round → Rpc → List Fields × Rpc
  handle_client [] s = ([], s)
  handle_client (round ∷ rounds) s =
      continue (serve_read round.draws round.line s) round.drained (handle_client rounds)
