-- ===== src/Rpc/Connection/Laws.antt =====
-- main.py: every request of a connection is answered.
use desperate.Prelude.{
  ℕ, ◌≡◌, refl, ap, Option, none, some, List, [], ◌∷◌, String, map, Bool-cases, Option-cases, inl,
  inr,
}
use desperate.Outcome.{Result, Exception, ok, err}
use desperate.Effect.{pass, lift}
use desperate.Effect.Returns.{
  Returns, bind-Returns, known-Returns, look-Returns, given-Returns, return_rules,
}
use desperate.Codec.Words.{Bytes}
use desperate.Codec.Hex.{Text}
use desperate.Codec.Ascii.{ascii}
use desperate.Kdf.{is_empty}
use desperate.Json.{Json, Fields, obj, find, text, end, as_fields, put, find-put}
use desperate.Service.Reception.{or_null}
use desperate.Srp.{SrpSession}
use desperate.Rpc.{RpcPackages, RpcDraws, Rpc, text_if_true, get_text, get_either}
use desperate.Rpc.Registration.{handle_unlock_keystore, handle_generate_identity_bundle}
use desperate.Rpc.Login.{
  handle_srp_start, verify_with, handle_srp_verify, challenge_with, handle_srp_challenge,
}
use desperate.Rpc.Conversations.{handle_initiate_session, handle_respond_session}
use desperate.Rpc.Messages.{envelope_of, handle_encrypt_message, handle_decrypt_message}
use desperate.Rpc.Connection.{
  HandlerName, unlock_keystore, generate_identity_bundle, srp_start, srp_challenge, srp_verify,
  initiate_session, respond_session, encrypt_message, decrypt_message, find_handler, get_or, reply,
  silent, run_handler, respond_to, serve_request, serve_parsed, serve_stripped, serve_line,
  serve_read, Round, handle_client, with_id, strip_left, strip_right,
}
use desperate.Rpc.Connection.Handlers.{
  IsTyped, start_session-Returns, check_proof-Returns, unlock_given-Returns, generate_given-Returns,
  answer_both-Returns, initiate_given-Returns, respond_given-Returns, encrypt_given-Returns,
  decrypt_given-Returns,
}

either_total :
    (first second : String) (default : Text) (d : Fields) (a b : Text)
    → get_text first d ≡ ok a
    → get_text second d ≡ ok b
    → (t : Text) × (get_either first second default d ≡ ok t)
unfolding get_either get_text text_if_true
either_total first second default d a b e f = elim (Bool-cases (is_empty a)) [
  | inl empty ↦ elim (Option-cases (find second d)) [
    | inl q ↦ (default, rw (e, empty, q) refl)
    | inr (v, q) ↦ (b, rw (e, empty, q) (rw q at f))
  ]
  | inr full ↦ (a, rw (e, full) refl)
]

-- The parameters of a request, and those of its envelope if it has one, are typed.
pub record IsRequest (d : Fields) : Type 0 where
  pub typed : IsTyped d
  pub envelope : (e : Fields) × (envelope_of (find "envelope" d) ≡ ok e) × IsTyped e

verify_with-Returns :
    (d : Fields) (m2 : Text) (active : Option SrpSession)
    → get_text "M2" d ≡ ok m2
    → Returns (verify_with d active)
unfolding verify_with
verify_with-Returns d m2 none e = search (return_rules) depth 20
verify_with-Returns d m2 (some srp) e =
    bind-Returns (known-Returns m2 e) (λ t. check_proof-Returns srp t (is_empty t))

answered_with :
    (fields : Fields) (q : Result Fields × Rpc) (r : Fields)
    → q.0 ≡ ok r
    → pass q (λ response. lift (ok (with_id fields response))) ≡ (ok (with_id fields r), q.1)
unfolding lift
answered_with fields (ok x, t) r e =
    ap (λ (y : Result Fields). pass (y, t) (λ z. lift (ok (with_id fields z)))) e
answered_with fields (err x, t) r e =
    ap (λ (y : Result Fields). pass (y, t) (λ z. lift (ok (with_id fields z)))) e

module _ (p : RpcPackages) where
  challenge_with-Returns :
      (d : Fields) (salt b : Text) (active : Option SrpSession)
      → get_text "salt" d ≡ ok salt
      → get_text "B" d ≡ ok b
      → Returns (challenge_with p d active)
  unfolding challenge_with
  challenge_with-Returns d salt b none e f = search (return_rules) depth 20
  challenge_with-Returns d salt b (some srp) e f =
      bind-Returns (known-Returns salt e)
        (λ t. bind-Returns (known-Returns b f) (λ u. answer_both-Returns p srp t u _))

  run_handler-Returns :
      (draws : RpcDraws) (h : HandlerName) (d : Fields)
      → IsRequest d
      → Returns (run_handler p draws h d)
  unfolding run_handler handle_unlock_keystore handle_generate_identity_bundle handle_srp_start
      handle_srp_challenge handle_srp_verify handle_initiate_session handle_respond_session
      handle_encrypt_message handle_decrypt_message
  run_handler-Returns draws unlock_keystore d h =
      let (t, e) =
        either_total "keystore_password" "password" [] d _ _ h.typed.keystore_password.1
          h.typed.password.1 in
      bind-Returns (known-Returns t e) (λ u. unlock_given-Returns p u (is_empty u))
  run_handler-Returns draws generate_identity_bundle d h =
      let (w, e) =
        either_total "keystore_password" "password" [] d _ _ h.typed.keystore_password.1
          h.typed.password.1 in
      let (u, f) =
        either_total "user_id" "username" (ascii "local") d _ _ h.typed.user_id.1
          h.typed.username.1 in
      bind-Returns (known-Returns w e) (λ x.
        bind-Returns (known-Returns u f) (λ y. generate_given-Returns p draws y x _ (is_empty x)))
  run_handler-Returns draws srp_start d h = bind-Returns (known-Returns _ h.typed.username.1) (λ u.
      bind-Returns (known-Returns _ h.typed.password.1) (λ t. start_session-Returns draws u t _))
  run_handler-Returns draws srp_challenge d h =
      bind-Returns (look-Returns _)
        (λ active. challenge_with-Returns d _ _ active h.typed.salt.1 h.typed.b_public.1)
  run_handler-Returns draws srp_verify d h =
      bind-Returns (look-Returns _) (λ active. verify_with-Returns d _ active h.typed.m2.1)
  run_handler-Returns draws initiate_session d h =
      bind-Returns (known-Returns _ h.typed.conversation_id.1)
        (λ c. initiate_given-Returns p draws c _ _)
  run_handler-Returns draws respond_session d h =
      bind-Returns (known-Returns _ h.typed.conversation_id.1) (λ c. respond_given-Returns p c _ _)
  run_handler-Returns draws encrypt_message d h =
      bind-Returns (known-Returns _ h.typed.conversation_id.1) (λ c.
        bind-Returns (known-Returns _ h.typed.plaintext.1)
          (λ t. encrypt_given-Returns p draws c t _ _))
  run_handler-Returns draws decrypt_message d h =
      let (e, q, typed) = h.envelope in
      given-Returns _ e q (
        bind-Returns (known-Returns _ typed.conversation_id.1) (λ c.
          bind-Returns (known-Returns _ typed.ciphertext.1) (λ ct.
            bind-Returns (known-Returns _ typed.nonce.1)
              (λ n. decrypt_given-Returns p c ct n _ _))))

  -- A line with a request of that id: a JSON object, with parameters that every handler can read.
  pub record IsAsked (line : Bytes) (id : Json) : Type 0 where
    pub first : ℕ
    pub rest : Bytes
    pub full : strip_right (strip_left line) ≡ first ∷ rest
    pub fields : Fields
    pub params : Fields
    pub method : Option HandlerName
    pub parsed : p.json.loads (first ∷ rest) ≡ ok (obj fields)
    pub named : find_handler (get_or "method" (text []) fields) ≡ ok method
    pub given : as_fields (get_or "params" (obj end) fields) ≡ ok params
    pub request : IsRequest params
    pub sent : or_null (find "id" fields) ≡ id

  -- A connection with blank lines and requests of those ids, up to its end or the first exception of the reader or
  -- of `drain`.
  pub data Asks : List Round → List Json → Type 0 where
    ended : Asks [] []
    blank :
        (round : Round) (rounds : List Round) (line : Bytes) (ids : List Json)
        → round.line ≡ ok line
        → strip_right (strip_left line) ≡ []
        → Asks rounds ids
        → Asks (round ∷ rounds) ids
    unread :
        (round : Round) (rounds : List Round) (e : Exception)
        → round.line ≡ err e
        → Asks (round ∷ rounds) []
    undrained :
        (round : Round) (rounds : List Round) (line : Bytes) (id : Json) (e : Exception)
        → round.line ≡ ok line
        → IsAsked line id
        → round.drained ≡ err e
        → Asks (round ∷ rounds) (id ∷ [])
    asked :
        (round : Round) (rounds : List Round) (line : Bytes) (id : Json) (ids : List Json)
        → round.line ≡ ok line
        → IsAsked line id
        → round.drained ≡ ok tt
        → Asks rounds ids
        → Asks (round ∷ rounds) (id ∷ ids)

  respond_to-Returns :
      (draws : RpcDraws) (name params : Json) (h : Option HandlerName) (d : Fields)
      → as_fields params ≡ ok d
      → IsRequest d
      → Returns (respond_to p draws name params h)
  unfolding respond_to
  respond_to-Returns draws name params none d e h = search (return_rules) depth 20
  respond_to-Returns draws name params (some m) d e h =
      given-Returns _ d e (run_handler-Returns draws m d h)

  serve_request-reply :
      (draws : RpcDraws) (fields params : Fields) (method : Option HandlerName) (s : Rpc)
      → find_handler (get_or "method" (text []) fields) ≡ ok method
      → as_fields (get_or "params" (obj end) fields) ≡ ok params
      → IsRequest params
      → (r : Fields) × (t : Rpc) × (serve_request p draws (obj fields) s
          ≡ (ok (with_id fields r), t))
  unfolding serve_request as_fields lift with_id respond_to
  serve_request-reply draws fields params method s e g h =
      let name = get_or "method" (text []) fields in
      let given = get_or "params" (obj end) fields in
      let (r, q) = (respond_to-Returns draws name given method params g h).returns s in
      (
        r,
        (respond_to p draws name given method s).1,
        rw (e) (answered_with fields (respond_to p draws name given method s) r q),
      )

  serve_line-reply :
      (draws : RpcDraws) (line : Bytes) (id : Json) (s : Rpc)
      → IsAsked line id
      → (r : Fields) × (t : Rpc) × (serve_line p draws line s ≡ (reply (put "id" id r), t))
  unfolding serve_line serve_stripped serve_parsed with_id
  serve_line-reply draws line id s a =
      let (r, t, e) =
        serve_request-reply draws a.fields a.params a.method s a.named a.given a.request in
      (r, t, rw (a.full, a.parsed, e, a.sent) refl)

  serve_line_blank :
      (draws : RpcDraws) (line : Bytes) (s : Rpc)
      → strip_right (strip_left line) ≡ []
      → serve_line p draws line s ≡ (silent, s)
  unfolding serve_line serve_stripped lift
  serve_line_blank draws line s nothing = rw nothing refl

  -- A connection whose reader delivers blank lines and requests with parameters of their types,
  -- up to its end or to the first exception of the reader or of drain, whatever the server's
  -- state is: each request that the reader delivers before an exception is answered once, in
  -- their order, an answer has the id of its request, and nothing is answered after an exception.
  pub handle_client_answers :
      (rounds : List Round) (ids : List Json) (s : Rpc)
      → Asks rounds ids
      → map (find "id") (handle_client p rounds s).0 ≡ map some ids
  unfolding handle_client serve_read
  handle_client_answers _ _ s ended = refl
  handle_client_answers _ _ s (blank round rounds line ids read nothing rest) =
      rw (read, serve_line_blank round.draws line s nothing)
        (handle_client_answers rounds ids s rest)
  handle_client_answers _ _ s (unread round rounds e broken) = rw broken refl
  handle_client_answers _ _ s (undrained round rounds line id e read a stopped) =
      let (r, t, q) = serve_line-reply round.draws line id s a in
      rw (read, stopped, q, find-put "id" id r) refl
  handle_client_answers _ _ s (asked round rounds line id ids read a drained rest) =
      let (r, t, q) = serve_line-reply round.draws line id s a in
      rw (read, drained, q, find-put "id" id r, handle_client_answers rounds ids t rest) refl
