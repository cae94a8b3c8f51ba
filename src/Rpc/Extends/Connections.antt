-- ===== src/Rpc/Extends/Connections.antt =====
-- Over a whole connection to main.py, the keys of the conversations stay.
use desperate.Prelude.{
  ◌≡◌, Bool, true, false, ◌&&◌, not, Option, none, some, List, [], ◌∷◌, list_eq,
}
use desperate.Prelude.Dict.{lookup}
use desperate.Outcome.{Result, ok, err, json_decode_error}
use desperate.Effect.{Effect, pass, ◌>>=◌, lift}
use desperate.Codec.Words.{Bytes}
use desperate.Codec.Hex.{Text}
use desperate.Json.{Json, Fields}
use desperate.Keys.Types.{IdentityBundle}
use desperate.Service.Reception.{or_null}
use desperate.Rpc.{RpcPackages, RpcDraws, Rpc, Handler, caught}
use desperate.Rpc.Conversations.{establish, is_missing}
use desperate.Rpc.Messages.{
  pop_pending, key_of, encrypt_with, encrypt_given, handle_encrypt_message, decrypt_with,
  decrypt_known, answer_first, decrypt_unless, decrypt_after, decrypt_given, handle_decrypt_message,
  not_established,
}
use desperate.Rpc.Connection.{
  HandlerName, unlock_keystore, generate_identity_bundle, srp_start, srp_challenge, srp_verify,
  initiate_session, respond_session, encrypt_message, decrypt_message, Answer, silent, reply,
  closed, answered, run_handler, respond_to, serve_request, serve_parsed, serve_stripped,
  serve_line, serve_read, Round, continue, handle_client, strip_left, strip_right,
}
use desperate.Rpc.Untouched.{
  handle_unlock_keystore-Untouched, handle_generate_identity_bundle-Untouched,
}
use desperate.Rpc.Untouched.Logins.{
  handle_srp_start-Untouched, handle_srp_challenge-Untouched, handle_srp_verify-Untouched,
}
use desperate.Rpc.Extends.{Extends, Extends-IsPreorder, popped}
use desperate.Rpc.Extends.Handlers.{
  Extending, extending_rules, attempt_state, then_state, untouched-Extending, establish-Extends,
  after_identity, after_known, handle_initiate_session-Extending, handle_respond_session-Extending,
}

key_of-Extending : (c : Text) → Extending (key_of c)
unfolding key_of
key_of-Extending c = search (extending_rules) depth 20

pop_pending-Extending : (c : Text) → Extending (pop_pending c)
unfolding pop_pending
pop_pending-Extending c = record { keeps = λ s. popped s c }

caught-Extending : (d : Fields) (m : Handler) → Extending m → Extending (caught d m)
unfolding caught
caught-Extending d m h = search (extending_rules, h) depth 20

module _ (p : RpcPackages) where
  encrypt_with-Extending :
      (draws : RpcDraws) (c plaintext : Text) (sk : Option Bytes)
      → Extending (encrypt_with p draws c plaintext sk)
  unfolding encrypt_with
  encrypt_with-Extending draws c plaintext none = search (extending_rules) depth 20
  encrypt_with-Extending draws c plaintext (some sk) =
      search (extending_rules, caught-Extending, pop_pending-Extending) depth 20

  encrypt_given-Extending :
      (draws : RpcDraws) (c plaintext : Text) (no_id no_text : Bool)
      → Extending (encrypt_given p draws c plaintext no_id no_text)
  unfolding encrypt_given
  encrypt_given-Extending draws c plaintext true no_text = search (extending_rules) depth 20
  encrypt_given-Extending draws c plaintext false true = search (extending_rules) depth 20
  encrypt_given-Extending draws c plaintext false false =
      search (extending_rules, key_of-Extending, encrypt_with-Extending) depth 20

  handle_encrypt_message-Extending :
      (draws : RpcDraws) (params : Fields) → Extending (handle_encrypt_message p draws params)
  unfolding handle_encrypt_message
  handle_encrypt_message-Extending draws params =
      search (extending_rules, encrypt_given-Extending) depth 20

  decrypt_with-Extending :
      (c ciphertext nonce : Text) (sk : Option Bytes)
      → Extending (decrypt_with p c ciphertext nonce sk)
  unfolding decrypt_with
  decrypt_with-Extending c ciphertext nonce none = search (extending_rules) depth 20
  decrypt_with-Extending c ciphertext nonce (some sk) = search (extending_rules) depth 20

  decrypt_known-Extending :
      (c ciphertext nonce : Text) → Extending (decrypt_known p c ciphertext nonce)
  unfolding decrypt_known
  decrypt_known-Extending c ciphertext nonce =
      search (extending_rules, key_of-Extending, decrypt_with-Extending) depth 20

  decrypt_unless-Extending :
      (c ciphertext nonce : Text) (refused : Option Fields)
      → Extending (decrypt_unless p c ciphertext nonce refused)
  unfolding decrypt_unless
  decrypt_unless-Extending c ciphertext nonce (some d) = search (extending_rules) depth 20
  decrypt_unless-Extending c ciphertext nonce none = decrypt_known-Extending c ciphertext nonce

  answer_first-Extends :
      (c : Text) (v : Json) (b : Option IdentityBundle) (s : Rpc)
      → lookup c s.session_keys ≡ none
      → Extends s (answer_first p c v b s).1
  unfolding answer_first
  answer_first-Extends c v none s fresh = unfold lift in Extends-IsPreorder.reflexive s
  answer_first-Extends c v (some b) s fresh =
      rw
        (
          attempt_state (establish p c v b >>= λ u. lift (ok none)) (λ e. some not_established) s,
          then_state {B = Option Fields} (establish p c v b) none s,
        )
        (establish-Extends p c v b s fresh)

  -- A call that extends its own start, and then any that extends every start.
  bind_Extends :
      {A : Type 0} (m : Effect Rpc A) (next : A → Handler) (s : Rpc)
      → Extends s (m s).1
      → ((a : A) → Extending (next a))
      → Extends s ((m >>= next) s).1
  bind_Extends {A} m next s h k = reached (m s) h
    where
      reached : (r : Result A × Rpc) → Extends s r.1 → Extends s (pass r next).1
      reached (err e, t) g = g
      reached (ok a, t) g = Extends-IsPreorder.transitive s t _ g ((k a).keeps t)

  decrypt_after-Extends :
      (c ciphertext nonce : Text) (v : Json) (first : Bool) (s : Rpc)
      → lookup c s.session_keys ≡ none
      → Extends s (decrypt_after p c ciphertext nonce v first s).1
  unfolding decrypt_after
  decrypt_after-Extends c ciphertext nonce v false s fresh =
      (decrypt_known-Extending c ciphertext nonce).keeps s
  decrypt_after-Extends c ciphertext nonce v true s fresh =
      after_identity p c (λ b. answer_first p c v b >>= decrypt_unless p c ciphertext nonce)
        (λ b t new.
          bind_Extends (answer_first p c v b) (decrypt_unless p c ciphertext nonce) t
            (answer_first-Extends c v b t new) (decrypt_unless-Extending c ciphertext nonce))
        s fresh

  decrypt_given-Extending :
      (c ciphertext nonce : Text) (v : Option Json) (missing : Bool)
      → Extending (decrypt_given p c ciphertext nonce v missing)
  unfolding decrypt_given decrypt_after
  decrypt_given-Extending c ciphertext nonce v true = search (extending_rules) depth 20
  decrypt_given-Extending c ciphertext nonce v false =
      after_known p c
        (λ live. decrypt_after p c ciphertext nonce (or_null v) (not live && not (is_missing v)))
        (decrypt_known-Extending c ciphertext nonce)
        (λ s fresh.
          decrypt_after-Extends c ciphertext nonce (or_null v) (not (is_missing v)) s fresh)

  handle_decrypt_message-Extending : (params : Fields) → Extending (handle_decrypt_message p params)
  unfolding handle_decrypt_message
  handle_decrypt_message-Extending params =
      search (extending_rules, decrypt_given-Extending) depth 20

  run_handler-Extending :
      (draws : RpcDraws) (h : HandlerName) (params : Fields)
      → Extending (run_handler p draws h params)
  unfolding run_handler
  run_handler-Extending draws unlock_keystore params =
      untouched-Extending (handle_unlock_keystore-Untouched p params)
  run_handler-Extending draws generate_identity_bundle params =
      untouched-Extending (handle_generate_identity_bundle-Untouched p draws params)
  run_handler-Extending draws srp_start params =
      untouched-Extending (handle_srp_start-Untouched draws params)
  run_handler-Extending draws srp_challenge params =
      untouched-Extending (handle_srp_challenge-Untouched p params)
  run_handler-Extending draws srp_verify params =
      untouched-Extending (handle_srp_verify-Untouched params)
  run_handler-Extending draws initiate_session params =
      handle_initiate_session-Extending p draws params
  run_handler-Extending draws respond_session params = handle_respond_session-Extending p params
  run_handler-Extending draws encrypt_message params = handle_encrypt_message-Extending draws params
  run_handler-Extending draws decrypt_message params = handle_decrypt_message-Extending params

  respond_to-Extending :
      (draws : RpcDraws) (method params : Json) (h : Option HandlerName)
      → Extending (respond_to p draws method params h)
  unfolding respond_to
  respond_to-Extending draws method params none = search (extending_rules) depth 20
  respond_to-Extending draws method params (some h) =
      search (extending_rules, run_handler-Extending) depth 20

  serve_request-Extending : (draws : RpcDraws) (v : Json) → Extending (serve_request p draws v)
  unfolding serve_request
  serve_request-Extending draws v = search (extending_rules, respond_to-Extending) depth 20

  serve_parsed-Extending : (draws : RpcDraws) (r : Result Json) → Extending (serve_parsed p draws r)
  unfolding serve_parsed
  serve_parsed-Extending draws (ok v) = serve_request-Extending draws v
  serve_parsed-Extending draws (err json_decode_error) = search (extending_rules) depth 20
  serve_parsed-Extending draws (err e) = search (extending_rules) depth 20

  serve_stripped-Extending :
      (draws : RpcDraws) (line : Bytes) → Extending (serve_stripped p draws line)
  unfolding serve_stripped
  serve_stripped-Extending draws [] = search (extending_rules) depth 20
  serve_stripped-Extending draws (b ∷ bs) = serve_parsed-Extending draws _

  serve_line-Extends :
      (draws : RpcDraws) (line : Bytes) (s : Rpc) → Extends s (serve_line p draws line s).1
  unfolding serve_line
  serve_line-Extends draws line s =
      reached (serve_stripped p draws (strip_right (strip_left line)) s)
        ((serve_stripped-Extending draws (strip_right (strip_left line))).keeps s)
    where
      reached : (r : Result Answer × Rpc) → Extends s r.1 → Extends s (answered r).1
      reached (ok a, t) h = h
      reached (err e, t) h = h

  serve_read-Extends :
      (draws : RpcDraws) (line : Result Bytes) (s : Rpc) → Extends s (serve_read p draws line s).1
  unfolding serve_read
  serve_read-Extends draws (err e) s = Extends-IsPreorder.reflexive s
  serve_read-Extends draws (ok line) s = serve_line-Extends draws line s

  continue-Extends :
      (s : Rpc) (r : Answer × Rpc) (drained : Result (Unit {0})) (rest : Rpc → List Fields × Rpc)
      → Extends s r.1
      → ((t : Rpc) → Extends t (rest t).1)
      → Extends s (continue p r drained rest).1
  continue-Extends s (silent, t) drained rest h k = Extends-IsPreorder.transitive s t _ h (k t)
  continue-Extends s (reply d, t) (ok u) rest h k = Extends-IsPreorder.transitive s t _ h (k t)
  continue-Extends s (reply d, t) (err e) rest h k = h
  continue-Extends s (closed e, t) drained rest h k = h

  -- Whatever lines a connection delivers: each conversation that had a key has the same key after
  -- it, and if each pending initiation bundle had a key before, each has one after.
  pub handle_client-Extends :
      (rounds : List Round) (s : Rpc) → Extends s (handle_client p rounds s).1
  unfolding handle_client
  handle_client-Extends [] s = Extends-IsPreorder.reflexive s
  handle_client-Extends (round ∷ rounds) s =
      continue-Extends s (serve_read p round.draws round.line s) round.drained
        (handle_client p rounds) (serve_read-Extends round.draws round.line s)
        (λ t. handle_client-Extends rounds t)
