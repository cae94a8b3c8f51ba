-- ===== src/Pqxdh/Errors.antt =====
-- When a handshake must fail.
use desperate.Prelude.{ℕ, ◌≡◌, Bool, true, none, some, inl, inr, arith, nat_eq}
use desperate.Prelude.Dict.{Dict, lookup}
use desperate.Outcome.{ok, Result-cases}
use desperate.Codec.Words.{Bytes}
use desperate.Suite.{Suite}
use desperate.Json.{Json}
use desperate.Keys.Types.{X25519Keypair, IdentityBundle}
use desperate.Keys.Hybrid.{verify_spk_signature}
use desperate.Pqxdh.Bundles.{InitiationBundle, RemoteBundle, parse_bundle}
use desperate.Pqxdh.{PqxdhResult, initiate, respond, own_opk_leg, secret_of}

module _ (s : Suite) where
  -- A handshake succeeds only with a remote bundle that parses and whose SPK signature verifies
  -- under the bundle's identity key.
  pub initiate_verified :
      (local_bundle : IdentityBundle) (remote : Json) (allow : Bool) (ek : X25519Keypair)
      (coins : Bytes) {r : PqxdhResult}
      → initiate s local_bundle remote allow ek coins ≡ ok r
      → (b : RemoteBundle) × (parse_bundle remote ≡ ok b)
        × (verify_spk_signature s b.spk_pub b.spk_sig b.ik_sig_pub ≡ ok true)
  unfolding initiate
  initiate_verified local_bundle remote allow ek coins e =
      elim (Result-cases (parse_bundle remote)) [
        | inl (b, p) ↦ (
          b,
          p,
          elim (Result-cases (verify_spk_signature s b.spk_pub b.spk_sig b.ik_sig_pub)) [
            | inl (v, q) ↦ ground arith
            | inr (x, q) ↦ absurd (ground arith)
          ],
        )
        | inr (x, p) ↦ absurd (ground arith)
      ]

  -- With a prekey id whose X25519 secret the responder does not hold, as after that prekey was
  -- consumed, no handshake succeeds, whatever the other keys are.
  pub respond_unknown_opk :
      (b : IdentityBundle) (i : InitiationBundle) (xs ks : Dict ℕ Bytes) (id : ℕ) (r : PqxdhResult)
      → i.opk_id ≡ some id
      → lookup id xs ≡ none
      → ¬ (respond s b i xs ks ≡ ok r)
  unfolding respond own_opk_leg secret_of
  respond_unknown_opk b i xs ks id r named missing h = ground arith
