-- ===== src/Rpc/Extends/Handlers.antt =====
-- Every handler of main.py keeps the conversations' keys, and a key for each pending bundle.
use desperate.Prelude.{
  ◌≡◌, refl, ◌∙◌, ap, arith, Bool, true, false, Option-cases, Option, none, some, ◌⊎◌, inl, inr, [],
  list_eq, list_beq_iff,
}
use desperate.Prelude.Dict.{lookup, insert, lookup-insert}
use desperate.Outcome.{Result, Exception, ok, err, Result-cases}
use desperate.Effect.{Effect, pass, ◌>>=◌, lift, look, update, attempt, recover_with}
use desperate.Effect.Keeps.{Keeps, keep_rules}
use desperate.Codec.Words.{Bytes}
use desperate.Codec.Hex.{Text}
use desperate.Json.{Json, Fields}
use desperate.Keys.Types.{IdentityBundle}
use desperate.Pqxdh.{initiate, respond}
use desperate.Pqxdh.Bundles.{from_dict}
use desperate.Service.Keystore.{success}
use desperate.Rpc.{RpcPackages, RpcDraws, Rpc, Handler, caught, load_identity}
use desperate.Rpc.Conversations.{
  keep_key, known, dict_of, remote_bundle_of, initiate_as, initiate_unless, initiate_given,
  handle_initiate_session, establish, respond_as, respond_unless, respond_given,
  handle_respond_session,
}
use desperate.Rpc.Untouched.{SameConversations, load_identity-Untouched}
use desperate.Rpc.Extends.{
  Extends, Extends-IsPreorder, same-Extends, added_key, added_bundle, popped,
}

abbrev pub Extending : {A : Type 0} → Effect Rpc A → Type 0
Extending m = Keeps Extends m

pub ruleset extending_rules = (keep_rules, Extends-IsPreorder)

-- `try: … except: return` leaves the state that the call had reached.
pub attempt_state :
    {A : Type 0} (m : Effect Rpc A) (handler : Exception → A) (s : Rpc)
    → (attempt m (λ e. lift (ok (handler e))) s).1 ≡ (m s).1
unfolding attempt lift
attempt_state {A} m handler s = reached (m s)
  where
    reached : (r : Result A × Rpc) → (recover_with (λ e. lift (ok (handler e))) r).1 ≡ r.1
    reached (ok a, t) = refl
    reached (err e, t) = refl

pub caught_state : (reply : Fields) (m : Handler) (s : Rpc) → (caught reply m s).1 ≡ (m s).1
unfolding caught
caught_state reply m s = attempt_state m (λ e. reply) s

-- A last step that leaves the state alone.
pub then_state :
    {A B : Type 0} (m : Effect Rpc A) (b : B) (s : Rpc) → ((m >>= λ _. lift (ok b)) s).1 ≡ (m s).1
unfolding lift
then_state {A} {B} m b s = reached (m s)
  where
    reached : (r : Result A × Rpc) → (pass r (λ _. lift (ok b))).1 ≡ r.1
    reached (ok a, t) = refl
    reached (err e, t) = refl

-- A conversation is known, or it has no key.
pub known-cases :
    (c : Text) (s : Rpc)
    → (known c s ≡ (ok true, s)) ⊎ ((known c s ≡ (ok false, s)) × (lookup c s.session_keys ≡ none))
unfolding known look
known-cases c s = elim (Option-cases (lookup c s.session_keys)) [
  | inl e ↦ inr (rw e refl, e)
  | inr (k, e) ↦ inl (rw e refl)
]

added_both :
    (s : Rpc) (c : Text) (k : Bytes) (v : Json)
    → lookup c s.session_keys ≡ none
    → Extends s (record s {
      session_keys = insert c k s.session_keys;
      pending_initiation_bundles = insert c v s.pending_initiation_bundles;
    })
added_both s c k v fresh =
    let t : Rpc = record s { session_keys = insert c k s.session_keys } in
    let there : lookup c t.session_keys ≡ some k =
      ground (arith, lookup-insert c c k s.session_keys, list_beq_iff c c) in
    Extends-IsPreorder.transitive s t _ (added_key s c k fresh) (added_bundle t c k v there)

pub untouched-Extending : {A : Type 0} {m : Effect Rpc A} → Keeps SameConversations m → Extending m
untouched-Extending {m} h = record { keeps = λ s. same-Extends s (m s).1 (h.keeps s) }

module _ (p : RpcPackages) where
  pub establish-Extends :
      (c : Text) (v : Json) (b : IdentityBundle) (s : Rpc)
      → lookup c s.session_keys ≡ none
      → Extends s (establish p c v b s).1
  unfolding establish lift keep_key update
  establish-Extends c v b s fresh = elim (Result-cases (from_dict v)) [
    | inl (i, q) ↦ elim (Result-cases (respond p.suite b i [] [])) [
      | inl (r, q') ↦ rw (q, q') (added_key s c r.sk fresh)
      | inr (x, q') ↦ rw (q, q') (Extends-IsPreorder.reflexive s)
    ]
    | inr (x, q) ↦ rw q (Extends-IsPreorder.reflexive s)
  ]

  respond_as-Extends :
      (c : Text) (v : Json) (b : Option IdentityBundle) (s : Rpc)
      → lookup c s.session_keys ≡ none
      → Extends s (respond_as p c v b s).1
  unfolding respond_as
  respond_as-Extends c v none s fresh = unfold lift in Extends-IsPreorder.reflexive s
  respond_as-Extends c v (some b) s fresh =
      rw (caught_state, then_state (establish p c v b) success s) (establish-Extends c v b s fresh)

  initiate_as-Extends :
      (draws : RpcDraws) (c : Text) (v : Option Json) (b : Option IdentityBundle) (s : Rpc)
      → lookup c s.session_keys ≡ none
      → Extends s (initiate_as p draws c v b s).1
  unfolding initiate_as lift keep_key update
  initiate_as-Extends draws c v none s fresh = Extends-IsPreorder.reflexive s
  initiate_as-Extends draws c v (some b) s fresh =
      rw caught_state (elim (Result-cases (remote_bundle_of p v)) [
        | inl (j, q) ↦ elim (Result-cases (initiate p.suite b j true draws.ek draws.kem_coins)) [
          | inl (r, q') ↦ elim (Result-cases (dict_of r.bundle)) [
            | inl (d, q'') ↦ rw (q, q', q'') (added_both s c r.sk d fresh)
            | inr (x, q'') ↦ rw (q, q', q'') (added_key s c r.sk fresh)
          ]
          | inr (x, q') ↦ rw (q, q') (Extends-IsPreorder.reflexive s)
        ]
        | inr (x, q) ↦ rw q (Extends-IsPreorder.reflexive s)
      ])

  -- After the identity is loaded, which changes no conversation.
  pub after_identity :
      (c : Text) (next : Option IdentityBundle → Handler)
      → ((b : Option IdentityBundle) (s : Rpc)
          → lookup c s.session_keys ≡ none
          → Extends s (next b s).1)
      → (s : Rpc) → lookup c s.session_keys ≡ none
      → Extends s ((load_identity p >>= next) s).1
  after_identity c next h s fresh =
      reached (load_identity p s) ((load_identity-Untouched p).keeps s)
    where
      reached :
          (r : Result (Option IdentityBundle) × Rpc)
          → SameConversations s r.1
          → Extends s (pass r next).1
      reached (err e, t) same = same-Extends s t same
      reached (ok b, t) same =
          Extends-IsPreorder.transitive s t _ (same-Extends s t same)
            (h b t (ap (λ d. lookup c d) same.0 ∙ fresh))

  -- Once the conversation is looked up: nothing for a known one, and `next` for a new one.
  pub after_known :
      (c : Text) (next : Bool → Handler)
      → Extending (next true)
      → ((s : Rpc) → lookup c s.session_keys ≡ none → Extends s (next false s).1)
      → Extending (known c >>= next)
  after_known c next h k = record {
    keeps = λ s. elim (known-cases c s) [
      | inl e ↦ rw e (h.keeps s)
      | inr (e, fresh) ↦ rw e (k s fresh)
    ];
  }

  respond_given-Extending :
      (c : Text) (v : Json) (missing : Bool) → Extending (respond_given p c v missing)
  unfolding respond_given respond_unless
  respond_given-Extending c v true = search (extending_rules) depth 20
  respond_given-Extending c v false =
      after_known c (respond_unless p c v) (search (extending_rules) depth 20)
        (λ s fresh. after_identity c (respond_as p c v) (respond_as-Extends c v) s fresh)

  pub handle_respond_session-Extending :
      (params : Fields) → Extending (handle_respond_session p params)
  unfolding handle_respond_session
  handle_respond_session-Extending params =
      search (extending_rules, respond_given-Extending) depth 20

  initiate_given-Extending :
      (draws : RpcDraws) (c : Text) (v : Option Json) (missing : Bool)
      → Extending (initiate_given p draws c v missing)
  unfolding initiate_given initiate_unless
  initiate_given-Extending draws c v true = search (extending_rules) depth 20
  initiate_given-Extending draws c v false =
      after_known c (initiate_unless p draws c v) (search (extending_rules) depth 20) (λ s fresh.
        after_identity c (initiate_as p draws c v) (initiate_as-Extends draws c v) s fresh)

  pub handle_initiate_session-Extending :
      (draws : RpcDraws) (params : Fields) → Extending (handle_initiate_session p draws params)
  unfolding handle_initiate_session
  handle_initiate_session-Extending draws params =
      search (extending_rules, initiate_given-Extending) depth 20
