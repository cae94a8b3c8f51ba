-- ===== src/Rpc/Login.antt =====
-- main.py: the three calls of an SRP login.
use desperate.Prelude.{Bool, true, false, ◌||◌, Option, none, some}
use desperate.Outcome.{ok}
use desperate.Effect.{Effect, ◌>>=◌, ◌>>◌, lift, look, update, attempt}
use desperate.Codec.Hex.{Text}
use desperate.Codec.Ascii.{ascii}
use desperate.Kdf.{is_empty}
use desperate.Json.{Fields, end, field, text, bool}
use desperate.Srp.{
  SrpSession, new_session, a_hex, process_challenge, verify_server, session_key_hex,
}
use desperate.Rpc.{RpcPackages, RpcDraws, Rpc, Handler, error_reply, caught, get_text}

abbrev pub not_authenticated : Text → Fields
not_authenticated message = field "authenticated" (bool false) (error_reply message)

unfoldable pub keep_session : SrpSession → Effect Rpc (Unit {0})
keep_session srp = update (λ s. record s { srp_session = some srp })

unfoldable pub start_session : RpcDraws → Text → Text → Bool → Handler
start_session draws username password true =
    lift (ok (error_reply (ascii "username and password required.")))
start_session draws username password false =
    caught (error_reply (ascii "SRP initialisation failed.")) (do
      let srp = new_session username password draws.srp_secret
      keep_session srp
      a ← lift (a_hex srp)
      lift (ok (field "A" (text a) end)))

unfoldable pub handle_srp_start : RpcDraws → Fields → Handler
handle_srp_start draws params = do
  username ← lift (get_text "username" params)
  password ← lift (get_text "password" params)
  start_session draws username password (is_empty username || is_empty password)

unfoldable pub report : SrpSession → Bool → Handler
report srp false = lift (ok (not_authenticated (ascii "Server authentication failed.")))
report srp true = do
  key ← lift (session_key_hex srp)
  lift (ok (field "authenticated" (bool true) (field "session_key" (text key) end)))

unfoldable pub check_proof : SrpSession → Text → Bool → Handler
check_proof srp m2 true = lift (ok (not_authenticated (ascii "M2 required.")))
check_proof srp m2 false =
    caught (not_authenticated (ascii "Verification failed.")) (report srp (verify_server srp m2))

unfoldable pub verify_with : Fields → Option SrpSession → Handler
verify_with params none = lift (ok (not_authenticated (ascii "Call srp_start first.")))
verify_with params (some srp) = do
  m2 ← lift (get_text "M2" params)
  check_proof srp m2 (is_empty m2)

unfoldable pub handle_srp_verify : Fields → Handler
handle_srp_verify params = do active ← look (λ s. ok s.srp_session); verify_with params active

module _ (p : RpcPackages) where
  -- `process_challenge` on the session of the server
  unfoldable pub answer_with : SrpSession → Text → Text → Effect Rpc Text
  answer_with srp salt b s =
      let (m1, srp') = process_challenge p.suite.hashes srp salt b in
      (m1, record s { srp_session = some srp' })

  unfoldable pub answer_both : SrpSession → Text → Text → Bool → Handler
  answer_both srp salt b true = lift (ok (error_reply (ascii "salt and B required.")))
  answer_both srp salt b false =
      attempt (do m1 ← answer_with srp salt b; lift (ok (field "M1" (text m1) end)))
        (λ e. lift (ok (error_reply (p.describe e))))

  unfoldable pub challenge_with : Fields → Option SrpSession → Handler
  challenge_with params none = lift (ok (error_reply (ascii "Call srp_start first.")))
  challenge_with params (some srp) = do
    salt ← lift (get_text "salt" params)
    b ← lift (get_text "B" params)
    answer_both srp salt b (is_empty salt || is_empty b)

  unfoldable pub handle_srp_challenge : Fields → Handler
  handle_srp_challenge params = do
    active ← look (λ s. ok s.srp_session)
    challenge_with params active
