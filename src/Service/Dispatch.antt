-- ===== src/Service/Dispatch.antt =====
-- crypto_service.py: `_handle` and `_process_line`.
pub mod Laws
use desperate.Prelude.{Option, none, some, ◌++◌, ◌∷◌, [], ◌==◌, list_eq, if◌then◌else◌}
use desperate.Outcome.{Result, Exception, ok, err, value_error, unknown_method, invalid_tag}
use desperate.Outcome as Outcome
use desperate.Codec.Words.{Bytes}
use desperate.Codec.Hex.{Text}
use desperate.Codec.Utf8.{encode}
use desperate.Codec.Ascii.{ascii}
use desperate.Json.{Json, Fields, end, field, find, at, obj, null, text, as_fields, as_text}
use desperate.Pqxdh.Bundles.{truth}
use desperate.Service.{Packages, Draws, Service, M, ◌>>=◌, lift}
use desperate.Service.Keystore.{unlock_keystore, generate_bundle}
use desperate.Service.Login.{srp_start, srp_challenge, srp_verify}
use desperate.Service.Messages.{has_session, initiate_session, encrypt_message, reset_session}
use desperate.Service.Reception.{decrypt_message, or_null}

pub data Method : Type 0 where
  unlock generate start challenge verify has initiate encrypts decrypts reset unknown : Method

-- the comparisons of `_handle` with the names of the methods
unfoldable pub method_of : Text → Method
method_of m =
    if m == ascii "unlock_keystore"
    then unlock
    else if m == ascii "generate_identity_bundle"
    then generate
    else if m == ascii "srp_start"
    then start
    else if m == ascii "srp_challenge"
    then challenge
    else if m == ascii "srp_verify"
    then verify
    else if m == ascii "has_session"
    then has
    else if m == ascii "initiate_session"
    then initiate
    else if m == ascii "encrypt_message"
    then encrypts
    else if m == ascii "decrypt_message"
    then decrypts
    else if m == ascii "reset_session"
    then reset
    else unknown

module _ {R : Type 0} (p : Packages R) where
  unfoldable pub handle : Draws → Method → Fields → M R Fields
  handle draws unlock params = unlock_keystore p params
  handle draws generate params = generate_bundle p draws params
  handle draws start params = srp_start draws params
  handle draws challenge params = srp_challenge p params
  handle draws verify params = srp_verify params
  handle draws has params = has_session p params
  handle draws initiate params = initiate_session p draws params
  handle draws encrypts params = encrypt_message p draws params
  handle draws decrypts params = decrypt_message p draws params
  handle draws reset params = reset_session p params
  handle draws unknown params = lift (err (value_error unknown_method))

  -- `req.get("params") or {}`
  unfoldable pub params_of : Json → Result Fields
  params_of v = if truth v then as_fields v else ok end

  -- `_handle(req["method"], …)`
  unfoldable pub call : Draws → Fields → M R Fields
  call draws req = do
    method ← lift (Outcome.◌>>=◌ (at "method" (obj req)) as_text)
    params ← lift (params_of (or_null (find "params" req)))
    handle draws (method_of method) params

-- The three forms of an answer, with the request's id. The texts of exceptions are left out.
pub data Response : Type 0 where
  answer : Json → Fields → Response
  decryption_failed : Json → Response
  failed : Json → Exception → Response

unfoldable pub error_response : Json → Exception → Response
error_response req_id invalid_tag = decryption_failed req_id
error_response req_id e = failed req_id e

unfoldable pub response_of : {R : Type 0} → Json → Result Fields × Service R → Response × Service R
response_of req_id (ok result, s) = (answer req_id result, s)
response_of req_id (err e, s) = (error_response req_id e, s)

module _ {R : Type 0} (p : Packages R) where
  unfoldable pub process_request : Draws → Result Fields → Service R → Response × Service R
  process_request draws (err e) s = (error_response null e, s)
  process_request draws (ok req) s = response_of (or_null (find "id" req)) (call p draws req s)

  -- `_process_line`, before the response is written out
  unfoldable pub process_line : Draws → Bytes → Service R → Response × Service R
  process_line draws line s = process_request draws (Outcome.◌>>=◌ (p.json.loads line) as_fields) s
