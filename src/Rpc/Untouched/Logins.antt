-- ===== src/Rpc/Untouched/Logins.antt =====
-- The login calls of main.py leave the conversations alone.
use desperate.Prelude.{refl, Bool, true, false, Option, none, some}
use desperate.Codec.Hex.{Text}
use desperate.Json.{Fields}
use desperate.Srp.{SrpSession}
use desperate.Rpc.{RpcPackages, RpcDraws}
use desperate.Rpc.Login.{
  keep_session, start_session, handle_srp_start, report, check_proof, verify_with,
  handle_srp_verify, answer_with, answer_both, challenge_with, handle_srp_challenge,
}
use desperate.Rpc.Untouched.{Untouched, untouched_rules, caught-Untouched, unchanged}

keep_session-Untouched : (srp : SrpSession) → Untouched (keep_session srp)
unfolding keep_session
keep_session-Untouched srp = unchanged _ (λ s. (refl, refl))

start_session-Untouched :
    (draws : RpcDraws) (username password : Text) (missing : Bool)
    → Untouched (start_session draws username password missing)
unfolding start_session
start_session-Untouched draws username password true = search (untouched_rules) depth 20
start_session-Untouched draws username password false =
    search (untouched_rules, caught-Untouched, keep_session-Untouched) depth 20

pub handle_srp_start-Untouched :
    (draws : RpcDraws) (params : Fields) → Untouched (handle_srp_start draws params)
unfolding handle_srp_start
handle_srp_start-Untouched draws params = search (untouched_rules, start_session-Untouched) depth 20

report-Untouched : (srp : SrpSession) (verdict : Bool) → Untouched (report srp verdict)
unfolding report
report-Untouched srp true = search (untouched_rules) depth 20
report-Untouched srp false = search (untouched_rules) depth 20

check_proof-Untouched :
    (srp : SrpSession) (m2 : Text) (missing : Bool) → Untouched (check_proof srp m2 missing)
unfolding check_proof
check_proof-Untouched srp m2 true = search (untouched_rules) depth 20
check_proof-Untouched srp m2 false =
    search (untouched_rules, caught-Untouched, report-Untouched) depth 20

verify_with-Untouched :
    (params : Fields) (active : Option SrpSession) → Untouched (verify_with params active)
unfolding verify_with
verify_with-Untouched params none = search (untouched_rules) depth 20
verify_with-Untouched params (some srp) = search (untouched_rules, check_proof-Untouched) depth 20

pub handle_srp_verify-Untouched : (params : Fields) → Untouched (handle_srp_verify params)
unfolding handle_srp_verify
handle_srp_verify-Untouched params = search (untouched_rules, verify_with-Untouched) depth 20

module _ (p : RpcPackages) where
  answer_with-Untouched : (srp : SrpSession) (salt b : Text) → Untouched (answer_with p srp salt b)
  unfolding answer_with
  answer_with-Untouched srp salt b = record { keeps = λ s. (refl, refl) }

  answer_both-Untouched :
      (srp : SrpSession) (salt b : Text) (missing : Bool)
      → Untouched (answer_both p srp salt b missing)
  unfolding answer_both
  answer_both-Untouched srp salt b true = search (untouched_rules) depth 20
  answer_both-Untouched srp salt b false = search (untouched_rules, answer_with-Untouched) depth 20

  challenge_with-Untouched :
      (params : Fields) (active : Option SrpSession) → Untouched (challenge_with p params active)
  unfolding challenge_with
  challenge_with-Untouched params none = search (untouched_rules) depth 20
  challenge_with-Untouched params (some srp) =
      search (untouched_rules, answer_both-Untouched) depth 20

  pub handle_srp_challenge-Untouched : (params : Fields) → Untouched (handle_srp_challenge p params)
  unfolding handle_srp_challenge
  handle_srp_challenge-Untouched params =
      search (untouched_rules, challenge_with-Untouched) depth 20
