-- ===== src/Rpc/Connection/Handlers.antt =====
-- main.py: the handlers return, whatever the state, if what they read as a text is a text or false.
use desperate.Prelude.{◌≡◌, refl, Bool, true, false, Option, none, some, String}
use desperate.Outcome.{ok}
use desperate.Effect.{Effect}
use desperate.Effect.Returns.{Returns, return_rules}
use desperate.Codec.Words.{Bytes}
use desperate.Codec.Hex.{Text}
use desperate.Json.{Json, Fields}
use desperate.Keys.Types.{IdentityBundle}
use desperate.Srp.{SrpSession}
use desperate.Store.{StateStore}
use desperate.Rpc.{
  RpcPackages, RpcDraws, Rpc, Handler, caught, none_if_raised, get_text, load_from, load_identity,
}
use desperate.Rpc.Registration.{unlock_given, generate_given}
use desperate.Rpc.Login.{start_session, check_proof, answer_both}
use desperate.Rpc.Conversations.{
  known, initiate_as, initiate_unless, initiate_given, respond_as, respond_unless, respond_given,
}
use desperate.Rpc.Messages.{
  pop_pending, key_of, encrypt_with, encrypt_given, decrypt_with, decrypt_known, answer_first,
  decrypt_unless, decrypt_after, decrypt_given,
}

-- The value under a key is absent, false or a text.
abbrev pub HasText : String → Fields → Type 0
HasText k d = (t : Text) × (get_text k d ≡ ok t)

-- That holds of every key whose value is used as a text.
pub record IsTyped (d : Fields) : Type 0 where
  pub keystore_password : HasText "keystore_password" d
  pub password : HasText "password" d
  pub user_id : HasText "user_id" d
  pub username : HasText "username" d
  pub salt : HasText "salt" d
  pub b_public : HasText "B" d
  pub m2 : HasText "M2" d
  pub conversation_id : HasText "conversation_id" d
  pub plaintext : HasText "plaintext" d
  pub ciphertext : HasText "ciphertext" d
  pub nonce : HasText "nonce" d

caught-Returns : (reply : Fields) (m : Handler) → Returns (caught reply m)
unfolding caught
caught-Returns reply m = search (return_rules) depth 20

none_if_raised-Returns : {A : Type 0} (m : Effect Rpc (Option A)) → Returns (none_if_raised m)
unfolding none_if_raised
none_if_raised-Returns m = search (return_rules) depth 20

pop_pending-Returns : (c : Text) → Returns (pop_pending c)
unfolding pop_pending
pop_pending-Returns c = record { returns = λ s. (_, refl) }

knows-Returns : (c : Text) → Returns (known c)
unfolding known
knows-Returns c = search (return_rules) depth 20

key_of-Returns : (c : Text) → Returns (key_of c)
unfolding key_of
key_of-Returns c = search (return_rules) depth 20

pub start_session-Returns :
    (draws : RpcDraws) (username password : Text) (missing : Bool)
    → Returns (start_session draws username password missing)
unfolding start_session
start_session-Returns draws username password true = search (return_rules) depth 20
start_session-Returns draws username password false = caught-Returns _ _

pub check_proof-Returns :
    (srp : SrpSession) (m2 : Text) (missing : Bool) → Returns (check_proof srp m2 missing)
unfolding check_proof
check_proof-Returns srp m2 true = search (return_rules) depth 20
check_proof-Returns srp m2 false = caught-Returns _ _

module _ (p : RpcPackages) where
  load_from-Returns : (st : Option StateStore) → Returns (load_from p st)
  unfolding load_from
  load_from-Returns none = search (return_rules) depth 20
  load_from-Returns (some st) = none_if_raised-Returns _

  load_identity-Returns : Returns (load_identity p)
  unfolding load_identity
  load_identity-Returns = search (return_rules, load_from-Returns) depth 20

  pub unlock_given-Returns :
      (password : Text) (missing : Bool) → Returns (unlock_given p password missing)
  unfolding unlock_given
  unlock_given-Returns password true = search (return_rules) depth 20
  unlock_given-Returns password false = caught-Returns _ _

  pub generate_given-Returns :
      (draws : RpcDraws) (username password : Text) (given : Option Json) (missing : Bool)
      → Returns (generate_given p draws username password given missing)
  unfolding generate_given
  generate_given-Returns draws username password given true = search (return_rules) depth 20
  generate_given-Returns draws username password given false = caught-Returns _ _

  pub answer_both-Returns :
      (srp : SrpSession) (salt b : Text) (missing : Bool)
      → Returns (answer_both p srp salt b missing)
  unfolding answer_both
  answer_both-Returns srp salt b true = search (return_rules) depth 20
  answer_both-Returns srp salt b false = search (return_rules) depth 20

  initiate_as-Returns :
      (draws : RpcDraws) (c : Text) (v : Option Json) (b : Option IdentityBundle)
      → Returns (initiate_as p draws c v b)
  unfolding initiate_as
  initiate_as-Returns draws c v none = search (return_rules) depth 20
  initiate_as-Returns draws c v (some b) = caught-Returns _ _

  initiate_unless-Returns :
      (draws : RpcDraws) (c : Text) (v : Option Json) (live : Bool)
      → Returns (initiate_unless p draws c v live)
  unfolding initiate_unless
  initiate_unless-Returns draws c v true = search (return_rules) depth 20
  initiate_unless-Returns draws c v false =
      search (return_rules, load_identity-Returns, initiate_as-Returns) depth 20

  pub initiate_given-Returns :
      (draws : RpcDraws) (c : Text) (v : Option Json) (missing : Bool)
      → Returns (initiate_given p draws c v missing)
  unfolding initiate_given
  initiate_given-Returns draws c v true = search (return_rules) depth 20
  initiate_given-Returns draws c v false =
      search (return_rules, knows-Returns, initiate_unless-Returns) depth 20

  respond_as-Returns :
      (c : Text) (v : Json) (b : Option IdentityBundle) → Returns (respond_as p c v b)
  unfolding respond_as
  respond_as-Returns c v none = search (return_rules) depth 20
  respond_as-Returns c v (some b) = caught-Returns _ _

  respond_unless-Returns : (c : Text) (v : Json) (live : Bool) → Returns (respond_unless p c v live)
  unfolding respond_unless
  respond_unless-Returns c v true = search (return_rules) depth 20
  respond_unless-Returns c v false =
      search (return_rules, load_identity-Returns, respond_as-Returns) depth 20

  pub respond_given-Returns :
      (c : Text) (v : Json) (missing : Bool) → Returns (respond_given p c v missing)
  unfolding respond_given
  respond_given-Returns c v true = search (return_rules) depth 20
  respond_given-Returns c v false =
      search (return_rules, knows-Returns, respond_unless-Returns) depth 20

  encrypt_with-Returns :
      (draws : RpcDraws) (c plaintext : Text) (sk : Option Bytes)
      → Returns (encrypt_with p draws c plaintext sk)
  unfolding encrypt_with
  encrypt_with-Returns draws c plaintext none = search (return_rules) depth 20
  encrypt_with-Returns draws c plaintext (some sk) = caught-Returns _ _

  pub encrypt_given-Returns :
      (draws : RpcDraws) (c plaintext : Text) (no_id no_text : Bool)
      → Returns (encrypt_given p draws c plaintext no_id no_text)
  unfolding encrypt_given
  encrypt_given-Returns draws c plaintext true no_text = search (return_rules) depth 20
  encrypt_given-Returns draws c plaintext false true = search (return_rules) depth 20
  encrypt_given-Returns draws c plaintext false false =
      search (return_rules, key_of-Returns, encrypt_with-Returns) depth 20

  decrypt_with-Returns :
      (c ciphertext nonce : Text) (sk : Option Bytes)
      → Returns (decrypt_with p c ciphertext nonce sk)
  unfolding decrypt_with
  decrypt_with-Returns c ciphertext nonce none = search (return_rules) depth 20
  decrypt_with-Returns c ciphertext nonce (some sk) = search (return_rules) depth 20

  decrypt_known-Returns : (c ciphertext nonce : Text) → Returns (decrypt_known p c ciphertext nonce)
  unfolding decrypt_known
  decrypt_known-Returns c ciphertext nonce =
      search (return_rules, key_of-Returns, decrypt_with-Returns) depth 20

  answer_first-Returns :
      (c : Text) (v : Json) (b : Option IdentityBundle) → Returns (answer_first p c v b)
  unfolding answer_first
  answer_first-Returns c v none = search (return_rules) depth 20
  answer_first-Returns c v (some b) = search (return_rules) depth 20

  decrypt_unless-Returns :
      (c ciphertext nonce : Text) (refused : Option Fields)
      → Returns (decrypt_unless p c ciphertext nonce refused)
  unfolding decrypt_unless
  decrypt_unless-Returns c ciphertext nonce (some d) = search (return_rules) depth 20
  decrypt_unless-Returns c ciphertext nonce none = decrypt_known-Returns c ciphertext nonce

  decrypt_after-Returns :
      (c ciphertext nonce : Text) (v : Json) (first : Bool)
      → Returns (decrypt_after p c ciphertext nonce v first)
  unfolding decrypt_after
  decrypt_after-Returns c ciphertext nonce v true =
      search (return_rules, load_identity-Returns, answer_first-Returns, decrypt_unless-Returns)
        depth 20
  decrypt_after-Returns c ciphertext nonce v false = decrypt_known-Returns c ciphertext nonce

  pub decrypt_given-Returns :
      (c ciphertext nonce : Text) (v : Option Json) (missing : Bool)
      → Returns (decrypt_given p c ciphertext nonce v missing)
  unfolding decrypt_given
  decrypt_given-Returns c ciphertext nonce v true = search (return_rules) depth 20
  decrypt_given-Returns c ciphertext nonce v false =
      search (return_rules, knows-Returns, decrypt_after-Returns) depth 20
