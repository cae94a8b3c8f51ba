-- ===== src/Rpc/Interleaving/Laws.antt =====
-- main.py: requests for one conversation that overlap.
use desperate.Prelude.{◌≡◌, refl, ap, Bool, true, false, Option, none, some, inl, inr, list_eq}
use desperate.Prelude.Dict.{lookup, insert}
use desperate.Outcome.{Result, ok, err, Result-cases}
use desperate.Effect.{pass, ◌>>=◌, lift, look, update, attempt}
use desperate.Codec.Hex.{Text}
use desperate.Json.{Json}
use desperate.Keys.Types.{IdentityBundle}
use desperate.Pqxdh.{PqxdhResult}
use desperate.Pqxdh.Bundles.{InitiationBundle, to_dict}
use desperate.Service.Keystore.{success}
use desperate.Rpc.{RpcPackages, RpcDraws, Rpc, caught, load_identity}
use desperate.Rpc.Conversations.{
  known, keep_key, remote_bundle_of, initiate_as, initiate_unless, initiate_given,
}
use desperate.Rpc.Delivery.Laws.{looked_up}
use desperate.Rpc.Interleaving.{
  running, begin_unless, begin_initiation, end_initiation, interleaved, handshake, stage_of,
}

module _ (p : RpcPackages) where
  ended :
      (draws : RpcDraws) (c : Text) (remote : Option Json) (b : Option IdentityBundle) (s : Rpc)
      → end_initiation p c (stage_of p draws remote b) s ≡ initiate_as p draws c remote b s
  unfolding end_initiation initiate_as caught attempt lift
  ended draws c remote none s = refl
  ended draws c remote (some b) s = elim (Result-cases (remote_bundle_of p remote)) [
    | inl (v, e) ↦ rw e refl
    | inr (x, e) ↦ rw e refl
  ]

  then_ended :
      (draws : RpcDraws) (c : Text) (remote : Option Json)
      (q : Result (Option IdentityBundle) × Rpc)
      → pass (pass q (λ b. lift (ok (stage_of p draws remote b)))) (end_initiation p c)
        ≡ pass q (λ b. initiate_as p draws c remote b)
  unfolding lift
  then_ended draws c remote (ok b, s) = ended draws c remote b s
  then_ended draws c remote (err x, s) = refl

  unless_ended :
      (draws : RpcDraws) (c : Text) (remote : Option Json) (live : Bool) (s : Rpc)
      → (begin_unless p draws remote live >>= end_initiation p c) s
        ≡ initiate_unless p draws c remote live s
  unfolding begin_unless initiate_unless end_initiation lift
  unless_ended draws c remote true s = refl
  unless_ended draws c remote false s = then_ended draws c remote (load_identity p s)

  -- The two parts, one right after the other, make up the handler.
  pub begin_initiation-end_initiation :
      (draws : RpcDraws) (c : Text) (remote : Option Json) (s : Rpc)
      → (begin_initiation p draws c remote >>= end_initiation p c) s
        ≡ initiate_given p draws c remote false s
  unfolding begin_initiation initiate_given known look
  begin_initiation-end_initiation draws c remote s = unless_ended draws c remote _ s

  begun :
      (draws : RpcDraws) (c : Text) (remote : Option Json) (alice : IdentityBundle) (s : Rpc)
      → lookup c s.session_keys ≡ none
      → load_identity p s ≡ (ok (some alice), s)
      → begin_initiation p draws c remote s ≡ (ok (running (handshake p draws remote alice)), s)
  unfolding begin_initiation begin_unless known look lift
  begun draws c remote alice s fresh loaded = rw (fresh, loaded) refl

  -- What the second part does with a handshake that succeeded.
  kept :
      (c : Text) (outcome : Result PqxdhResult) (s : Rpc) {r : PqxdhResult} {i : InitiationBundle}
      → outcome ≡ ok r
      → r.bundle ≡ some i
      → end_initiation p c (running outcome) s ≡ (
        ok success,
        record s {
          session_keys = insert c r.sk s.session_keys;
          pending_initiation_bundles = insert c (to_dict i) s.pending_initiation_bundles;
        },
      )
  unfolding end_initiation caught attempt keep_key update lift
  kept c outcome s agreed carried = rw (agreed, carried) refl

  -- Two requests to initiate one conversation without a key, the second of which begins before
  -- the first ends, whose identity loads and whose handshakes both succeed with an initiation
  -- bundle: both are told that they succeeded, and the key that the first left is replaced by
  -- that of the second.
  pub interleaved_lem :
      (draws₁ draws₂ : RpcDraws) (c : Text) (remote : Option Json) (alice : IdentityBundle)
      (s : Rpc) {r₁ r₂ : PqxdhResult} {i₁ i₂ : InitiationBundle}
      → lookup c s.session_keys ≡ none
      → load_identity p s ≡ (ok (some alice), s)
      → handshake p draws₁ remote alice ≡ ok r₁
      → r₁.bundle ≡ some i₁
      → handshake p draws₂ remote alice ≡ ok r₂
      → r₂.bundle ≡ some i₂
      → ((interleaved p draws₁ draws₂ c remote s).0 ≡ ok (success, some r₁.sk, success))
        × (lookup c (interleaved p draws₁ draws₂ c remote s).1.session_keys ≡ some r₂.sk)
  unfolding look lift
  interleaved_lem draws₁ draws₂ c remote alice s {r₁} {r₂} {i₁} {i₂} fresh loaded agreed₁ carried₁
        agreed₂ carried₂ =
      let keys = insert c r₁.sk s.session_keys in
      let mid : Rpc = record s {
        session_keys = keys;
        pending_initiation_bundles = insert c (to_dict i₁) s.pending_initiation_bundles;
      } in
      rw
        (
          begun draws₁ c remote alice s fresh loaded,
          begun draws₂ c remote alice s fresh loaded,
          kept c (handshake p draws₁ remote alice) s agreed₁ carried₁,
          kept c (handshake p draws₂ remote alice) mid agreed₂ carried₂,
        )
        (
          ap (λ k. ok (success, k, success)) (looked_up c r₁.sk s.session_keys),
          looked_up c r₂.sk keys,
        )
