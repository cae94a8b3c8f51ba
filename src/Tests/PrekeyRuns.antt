-- ===== src/Tests/PrekeyRuns.antt =====
-- A first message to a user of the RPC server who has a one-time prekey.
use desperate.Prelude.{◌≡◌, refl, arith, true, false, some, [], ◌∷◌, replicate, list_eq, nat_eq}
use desperate.Prelude.Dict.{lookup}
use desperate.Outcome.{ok}
use desperate.Codec.Ascii.{ascii}
use desperate.Json.{Json, Fields, obj, end, field, text}
use desperate.Keys.Types.{X25519OneTimePrekey, dh, generate_signed_prekey}
use desperate.Keys.Bundle.{
  from_private_bundle, to_private_bundle, public_fields, generate_identity_bundle,
}
use desperate.Keys.Bundle.Laws.{from_private_bundle-to_private_bundle}
use desperate.Codec.Hex.{Text}
use desperate.Pqxdh.Bundles.{InitiationBundle}
use desperate.Pqxdh.{PqxdhResult, initiate, agree}
use desperate.Pqxdh.Agreement.{remote_of, parse_bundle-public_fields}
use desperate.Rpc.{RpcPackages}
use desperate.Rpc.Messages.{handle_decrypt_message, not_established}
use desperate.Rpc.Delivery.{message, envelope}
use desperate.Rpc.Delivery.Prekeys.{prekeys_undelivered}
use desperate.Rpc.Registration.Laws.{load_identity-stored}
use desperate.Tests.Toy.{suite, suite_laws, fit, reduced, replicate-IsBytes, reduced-IsBytes}
use desperate.Tests.HandshakeRuns.{bob, publishable, verified, initiate_parts}
use desperate.Tests.RpcRuns.{packages, rpc_draws}
use desperate.Tests.DeliveryRuns.{reading, st, user, alice, storable, sevens, loaded}

-- `bob` has a one-time prekey.
of_bob : (j : Json) × (to_private_bundle suite bob ≡ ok j) × (from_private_bundle suite j ≡ ok bob)
of_bob = from_private_bundle-to_private_bundle suite suite_laws bob (
    storable (replicate 32 2) bob.x25519_opks bob.kem_opks (replicate-IsBytes 32 2 (omega arith))
      refl ((sevens 32, sevens 32), tt) ((sevens 4, sevens 4), tt) refl)

abbrev prekey_meeting : RpcPackages
prekey_meeting = packages (reading of_bob.0 of_bob.0)

abbrev prekey : X25519OneTimePrekey
prekey = record { opk_id = 1; public_key = replicate 32 7; secret_key = replicate 32 7 }

abbrev named_result : PqxdhResult
named_result = record {
  sk = replicate 32 0;
  bundle = some (record {
    ik_classical_pub = replicate 32 1;
    ek_pub = replicate 32 9;
    ct_pq = replicate 3 4;
    opk_id = some 1;
    used_identity_kem = false;
  });
}

prekey_agreed :
    agree suite alice (remote_of suite suite_laws bob) true rpc_draws.ek rpc_draws.kem_coins
    ≡ ok named_result
unfolding agree dh desperate.Tests.Toy.reduced fit generate_signed_prekey desperate.Pqxdh.opk_leg
    desperate.Json.at desperate.Keys.Bundle.public_opk desperate.Json.as_bytes
    desperate.Codec.Hex.from_hex desperate.Codec.Hex.to_hex desperate.Json.as_num
    desperate.Pqxdh.pq_leg desperate.Pqxdh.derive_sk desperate.Kdf.hkdf_derive
prekey_agreed = refl

prekey_agreement :
    initiate suite alice (obj (public_fields suite bob)) true rpc_draws.ek rpc_draws.kem_coins
    ≡ ok named_result
unfolding generate_signed_prekey
prekey_agreement =
    initiate_parts alice (obj (public_fields suite bob)) true rpc_draws.ek rpc_draws.kem_coins
      (remote_of suite suite_laws bob) named_result
      (parse_bundle-public_fields suite suite_laws bob publishable refl) verified prekey_agreed

prekeys_undelivered_example :
    handle_decrypt_message prekey_meeting
      (envelope (
        message (ascii "c") (1 ∷ []) (2 ∷ []) (
          desperate.Pqxdh.Bundles.to_dict (record {
            ik_classical_pub = replicate 32 1;
            ek_pub = replicate 32 9;
            ct_pq = replicate 3 4;
            opk_id = some 1;
            used_identity_kem = false;
          }))))
      (user [])
    ≡ (ok not_established, user [])
unfolding lookup
prekeys_undelivered_example =
    prekeys_undelivered prekey_meeting suite_laws alice bob rpc_draws.ek rpc_draws.kem_coins prekey
      [] (ascii "c") (1 ∷ []) (2 ∷ []) (user []) publishable refl refl
      (replicate-IsBytes 32 7 (omega arith)) prekey_agreement refl
      (
        replicate-IsBytes 32 1 (omega arith),
        replicate-IsBytes 32 9 (omega arith),
        replicate-IsBytes 3 4 (omega arith),
      )
      (load_identity-stored prekey_meeting bob st of_bob.0 (user []) refl (loaded of_bob.0 of_bob.0)
        of_bob.2)
      refl refl refl refl
