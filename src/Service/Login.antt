-- ===== src/Service/Login.antt =====
-- crypto_service.py: the three calls of an SRP login.
pub mod Laws
pub mod Success
use desperate.Prelude.{Bool, true, false, Option, none, some, []}
use desperate.Outcome.{Result, ok, err, value_error, no_srp_session, no_password}
use desperate.Outcome as Outcome
use desperate.Codec.Words.{Bytes}
use desperate.Codec.Hex.{Text, to_hex, from_hex}
use desperate.Json.{Fields, end, field, text, bool, null, Json}
use desperate.Kdf.{derive_master_components}
use desperate.Srp.{
  SrpSession, new_session, a_hex, set_password, process_challenge, verify_server, session_key_hex,
}
use desperate.Service.{
  Packages, Draws, LoginState, Service, M, ◌>>=◌, ◌>>◌, lift, look, update, text_param,
}

abbrev pub set_login : {R : Type 0} → (LoginState → LoginState) → Service R → Service R
set_login f s = record s { login = f s.login }

abbrev pub no_login : LoginState
no_login = record {
  srp_session = none;
  pending_password = none;
  pending_keystore_key = none;
  cached_keystore_key = none;
}

unfoldable pub session_of : Option SrpSession → Result SrpSession
session_of none = err (value_error no_srp_session)
session_of (some s) = ok s

unfoldable pub password_of : Option Text → Result Text
password_of none = err (value_error no_password)
password_of (some t) = ok t

-- what `srp_verify` does to a service, by the verdict
unfoldable pub settle_login : {R : Type 0} → Bool → Service R → Service R
settle_login true s = record s {
  login = record no_login { cached_keystore_key = s.login.pending_keystore_key };
}
settle_login false s = record s { login = no_login; store = none; local_bundle = none }

-- the session key of a login that succeeded, None otherwise
unfoldable pub reported_key : Bool → SrpSession → Result Json
reported_key true srp = Outcome.◌>>=◌ (session_key_hex srp) (λ k. ok (text k))
reported_key false srp = ok null

module _ {R : Type 0} where
  unfoldable pub srp_start : Draws → Fields → M R Fields
  srp_start draws params = do
    update (set_login (λ l. no_login))
    password ← lift (text_param "password" params)
    update (set_login (λ l. record l { pending_password = some password }))
    username ← lift (text_param "username" params)
    let srp = new_session username [] draws.srp_secret
    update (set_login (λ l. record l { srp_session = some srp }))
    a ← lift (a_hex srp)
    lift (ok (field "A" (text a) end))

  unfoldable pub srp_verify : Fields → M R Fields
  srp_verify params = do
    srp ← look (λ s. session_of s.login.srp_session)
    m2 ← lift (text_param "M2" params)
    let authenticated = verify_server srp m2
    session_key ← lift (reported_key authenticated srp)
    update (settle_login authenticated)
    lift (ok (field "authenticated" (bool authenticated) (field "session_key" session_key end)))

module _ {R : Type 0} (p : Packages R) where
  -- `process_challenge` on the session of the service
  unfoldable pub answer_challenge : SrpSession → Text → Text → M R Text
  answer_challenge srp salt_hex b_hex s =
      let (m1, srp') = process_challenge p.suite.hashes srp salt_hex b_hex in
      (m1, set_login (λ l. record l { srp_session = some srp' }) s)

  unfoldable pub srp_challenge : Fields → M R Fields
  srp_challenge params = do
    srp ← look (λ s. session_of s.login.srp_session)
    password ← look (λ s. password_of s.login.pending_password)
    salt_hex ← lift (text_param "salt" params)
    srp_salt_bytes ← lift (from_hex salt_hex)
    update (set_login (λ l. record l { pending_password = none }))
    (srp_pass, keystore_key, _) ←
        lift (derive_master_components p.suite.hashes password (some srp_salt_bytes) [])
    update (set_login (λ l. record l { pending_keystore_key = some keystore_key }))
    let ready = set_password (to_hex srp_pass) srp
    update (set_login (λ l. record l { srp_session = some ready }))
    b_hex ← lift (text_param "B" params)
    m1 ← answer_challenge ready salt_hex b_hex
    lift (ok (field "M1" (text m1) end))
