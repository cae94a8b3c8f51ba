-- ===== src/Tests/RpcRuns.antt =====
-- A connection of the RPC server.
use desperate.Prelude.{
  ℕ, ◌≡◌, refl, true, false, Option, none, some, List, [], ◌∷◌, replicate, map, list_eq,
}
use desperate.Outcome.{ok, err, type_error, value_error, library}
use desperate.Codec.Ascii.{ascii}
use desperate.Json.{Fields, end, field, find, text, num, obj, as_fields}
use desperate.Store.States.{JsonCodec}
use desperate.Rpc.{RpcPackages, RpcDraws, Rpc, get_text}
use desperate.Rpc.Extends.{Extends}
use desperate.Rpc.Extends.Connections.{handle_client-Extends}
use desperate.Rpc.Connection.{
  Round, initiate_session, handle_client, strip_left, strip_right, get_or, find_handler, handler_of,
}
use desperate.Rpc.Connection.Handlers.{IsTyped}
use desperate.Rpc.Connection.Laws.{IsRequest, IsAsked, asked, unread, handle_client_answers}
use desperate.Tests.Toy.{suite}
use desperate.Tests.ServiceRuns.{draws}

abbrev pub packages : JsonCodec → RpcPackages
packages json = record {
  suite = suite;
  json = json;
  decode = λ b. b;
  describe = λ e. ascii "error";
  repr = λ v. ascii "value";
  base_dir = ascii "b";
}

abbrev pub rpc_draws : RpcDraws
rpc_draws = record {
  bundle = draws.bundle;
  keystore_salt = replicate 32 1;
  srp_salt = replicate 32 2;
  srp_secret = 2 ∷ [];
  ek = record { private = replicate 32 9 };
  kem_coins = replicate 3 4;
  nonce = replicate 12 3;
  writes = draws.writes;
}

abbrev pub server : Rpc
server = record {
  files = [];
  keystore_dir = false;
  keystore_store = none;
  keystore_password = none;
  srp_session = none;
  session_keys = [];
  pending_initiation_bundles = [];
}

-- A request to initiate a session, without parameters.
abbrev request : Fields
request = field "id" (num 7) (field "method" (text (ascii "initiate_session")) end)

abbrev one_request : JsonCodec
one_request = record { dumps = λ v. err type_error; loads = λ b. ok (obj request) }

-- Two requests that are served, and a line that is too long for the reader.
abbrev served : Round
served = record { line = ok (ascii " {} "); draws = rpc_draws; drained = ok tt }

abbrev too_long : Round
too_long = record { line = err (value_error library); draws = rpc_draws; drained = ok tt }

abbrev rounds : List Round
rounds = served ∷ served ∷ too_long ∷ served ∷ []

typed : IsTyped end
unfolding get_text find desperate.Rpc.text_if_true
typed = record {
  keystore_password = ([], refl);
  password = ([], refl);
  user_id = ([], refl);
  username = ([], refl);
  salt = ([], refl);
  b_public = ([], refl);
  m2 = ([], refl);
  conversation_id = ([], refl);
  plaintext = ([], refl);
  ciphertext = ([], refl);
  nonce = ([], refl);
}

is_request : IsRequest end
unfolding find desperate.Rpc.Messages.envelope_of
is_request = record { typed = typed; envelope = (end, refl, typed) }

is_asked : IsAsked (packages one_request) (ascii " {} ") (num 7)
unfolding strip_left strip_right find get_or find_handler handler_of as_fields
    desperate.Prelude.list_beq
is_asked = record {
  first = 123;
  rest = 125 ∷ [];
  full = refl;
  fields = request;
  params = end;
  method = some initiate_session;
  parsed = refl;
  named = refl;
  given = refl;
  request = is_request;
  sent = refl;
}

handle_client_answers_example :
    map (find "id") (handle_client (packages one_request) rounds server).0
    ≡ map some (num 7 ∷ num 7 ∷ [])
handle_client_answers_example =
    handle_client_answers (packages one_request) rounds (num 7 ∷ num 7 ∷ []) server (
      asked served (served ∷ too_long ∷ served ∷ []) (ascii " {} ") (num 7) (num 7 ∷ []) refl
        is_asked refl
        (asked served (too_long ∷ served ∷ []) (ascii " {} ") (num 7) [] refl is_asked refl
          (unread too_long (served ∷ []) (value_error library) refl)))

abbrev talking : Rpc
talking = record server { session_keys = (ascii "c", replicate 32 1) ∷ [] }

handle_client-Extends_example :
    Extends talking (handle_client (packages one_request) rounds talking).1
handle_client-Extends_example = handle_client-Extends (packages one_request) rounds talking
