-- ===== src/Service/Login/Success.antt =====
-- A login with an honest server, from the first call to the last.
use desperate.Prelude.{ℕ, ◌≡◌, ◌≢◌, refl, true, some, [], string_eq}
use desperate.Outcome.{Result, ok}
use desperate.Outcome as Outcome
use desperate.Codec.Words.{Bytes, IsBytes}
use desperate.Codec.Hex.{Text, to_hex, from_hex, from_hex-to_hex}
use desperate.Crypto.{HashLaws}
use desperate.Json.{Fields, end, field, text, bool, find, at, as_text}
use desperate.Kdf.{derive_master_components}
use desperate.Srp.{
  SrpSession, new_session, set_password, a_hex, create_srp_verifier, process_challenge,
  verify_server, session_key_hex,
}
use desperate.Srp.Server.{ServerSide, serve, padded}
use desperate.Srp.Laws.{login_agrees}
use desperate.Service.{Packages, Draws, Service, M, ◌>>=◌, lift, look, update, text_param}
use desperate.Service.Login.{
  no_login, session_of, password_of, settle_login, reported_key, srp_start, srp_verify,
  answer_challenge, srp_challenge,
}

-- The parameters of the three calls.
abbrev pub start_params : Text → Text → Fields
start_params username password =
    field "username" (text username) (field "password" (text password) end)

abbrev pub challenge_params : Text → Text → Fields
challenge_params salt_hex b_hex = field "salt" (text salt_hex) (field "B" (text b_hex) end)

abbrev pub verify_params : Text → Fields
verify_params m2_hex = field "M2" (text m2_hex) end

module _ {R : Type 0} where
  start_lem :
      (draws : Draws) (username password : Text) (s : Service R) {a_text : Text}
      → a_hex (new_session username [] draws.srp_secret) ≡ ok a_text
      → srp_start draws (start_params username password) s ≡ (
        ok (field "A" (text a_text) end),
        record s {
          login = record no_login {
            srp_session = some (new_session username [] draws.srp_secret);
            pending_password = some password;
          };
        },
      )
  unfolding srp_start lift update text_param at find as_text
  start_lem draws username password s e = rw e refl

  verify_lem :
      (s : Service R) (srp : SrpSession) (key key_hex m2_hex : Text)
      → s.login.srp_session ≡ some srp
      → s.login.pending_keystore_key ≡ some key
      → verify_server srp m2_hex ≡ true
      → session_key_hex srp ≡ ok key_hex
      → srp_verify (verify_params m2_hex) s ≡ (
        ok (field "authenticated" (bool true) (field "session_key" (text key_hex) end)),
        record s { login = record no_login { cached_keystore_key = some key } },
      )
  unfolding srp_verify look lift update session_of settle_login reported_key text_param at find
      as_text
  verify_lem s srp key key_hex m2_hex active staged good shown =
      rw (active, good, shown, staged) refl

module _ {R : Type 0} (p : Packages R) where
  challenge_lem :
      (s : Service R) (srp : SrpSession) (password salt_hex b_hex m1_hex : Text)
      (salt pass key used : Bytes)
      → s.login ≡ record no_login { srp_session = some srp; pending_password = some password }
      → from_hex salt_hex ≡ ok salt
      → derive_master_components p.suite.hashes password (some salt) [] ≡ ok (pass, key, used)
      → (process_challenge p.suite.hashes (set_password (to_hex pass) srp) salt_hex b_hex).0
        ≡ ok m1_hex
      → srp_challenge p (challenge_params salt_hex b_hex) s ≡ (
        ok (field "M1" (text m1_hex) end),
        record s {
          login = record no_login {
            srp_session =
                some
                  (process_challenge p.suite.hashes
                    (set_password (to_hex pass) srp)
                    salt_hex
                    b_hex).1;
            pending_keystore_key = some key;
          };
        },
      )
  unfolding srp_challenge session_of password_of look lift update answer_challenge text_param at
      find as_text
  challenge_lem s srp password salt_hex b_hex m1_hex salt pass key used l q d c =
      rw (l, q, d, c) refl

  -- The three calls of a login, with what the server answers in between.
  unfoldable pub log_in : Draws → Text → Text → Bytes → ServerSide → M R (Fields × Fields)
  log_in draws username password salt r = srp_start draws (start_params username password) >>= λ a.
      srp_challenge p (challenge_params (to_hex salt) (to_hex (padded r.b_public))) >>= λ proof.
      srp_verify (verify_params (to_hex r.m2)) >>= λ verdict. lift (ok (proof, verdict))

  -- If the server stored the verifier made at registration from the password, the salt and the
  -- user name, and reads A from the reply to srp_start, and neither its B nor its u is 0, then
  -- the three calls return, M1 is the proof that the server expects, the verdict is positive with
  -- the server's key, and of the login the service keeps exactly the keystore key that belongs to
  -- the password and the salt.
  pub log_in_lem :
      (laws : HashLaws p.suite.hashes) (draws : Draws) (username password : Text) (salt : Bytes)
      (b : ℕ) (s : Service R) {pass key used verifier a_bytes : Bytes} {a_text : Text}
      → derive_master_components p.suite.hashes password (some salt) [] ≡ ok (pass, key, used)
      → create_srp_verifier p.suite.hashes username (to_hex pass) salt ≡ ok verifier
      → a_hex (new_session username [] draws.srp_secret) ≡ ok a_text
      → from_hex a_text ≡ ok a_bytes
      → IsBytes salt
      → let r = serve p.suite.hashes username salt verifier b a_bytes in
        r.b_public ≢ 0
        → r.u ≢ 0
        → log_in draws username password salt r s ≡ (
          ok (
            field "M1" (text (to_hex r.m1)) end,
            field "authenticated" (bool true) (field "session_key" (text (to_hex r.key)) end),
          ),
          record s { login = record no_login { cached_keystore_key = some key } },
        )
  unfolding log_in lift
  log_in_lem laws draws username password salt b s {pass} {key} {used} {verifier} {a_bytes} {a_text}
        derived made sent read bytes live mixed =
      let h = p.suite.hashes in
      let srp = new_session username [] draws.srp_secret in
      let r = serve h username salt verifier b a_bytes in
      let ready = set_password (to_hex pass) srp in
      let same : a_hex ready ≡ ok a_text = unfold set_password a_hex in sent in
      let heard : Outcome.◌>>=◌ (a_hex ready) from_hex ≡ ok a_bytes = rw same read in
      let done =
        login_agrees h laws username (to_hex pass) salt draws.srp_secret b made heard bytes live
          mixed in
      let challenge = to_hex (padded r.b_public) in
      let started : Service R = record s {
        login = record no_login { srp_session = some srp; pending_password = some password };
      } in
      let answered : Service R = record s {
        login = record no_login {
          srp_session = some (process_challenge h ready (to_hex salt) challenge).1;
          pending_keystore_key = some key;
        };
      } in
      rw
        (
          start_lem draws username password s sent,
          challenge_lem started srp password (to_hex salt) challenge (to_hex r.m1) salt pass key
              used refl (from_hex-to_hex salt bytes) derived done.proof,
          verify_lem answered (process_challenge h ready (to_hex salt) challenge).1 key
              (to_hex r.key) (to_hex r.m2) refl refl done.accepted done.key,
        )
        refl
