-- ===== src/Tests/DeliveryRuns.antt =====
-- A first message between two users of the RPC server, and two initiations that overlap.
use desperate.Prelude.{
  ℕ, Bool, ◌≡◌, refl, arith, true, false, Option, none, some, [], ◌∷◌, ◌++◌, replicate, All, List,
  length, All-append, list_eq, nat_eq,
}
use desperate.Prelude.Dict.{lookup}
use desperate.Outcome.{ok, err, type_error}
use desperate.Codec.Words.{Bytes, IsBytes}
use desperate.Codec.Ascii.{ascii}
use desperate.Json.{Json, Fields, obj, end, field, text}
use desperate.Keys.Types.{
  X25519OneTimePrekey, KemOneTimePrekey, IdentityBundle, dh, generate_signed_prekey,
  generate_signing_keypair,
}
use desperate.Keys.Bundle.{
  from_private_bundle, to_private_bundle, public_fields, generate_identity_bundle,
}
use desperate.Keys.Bundle.Laws.{
  IsBytesX25519Opk, IsBytesKemOpk, IsStorable, from_private_bundle-to_private_bundle,
}
use desperate.Keys.Opks.Laws.{IsPaired}
use desperate.Codec.Hex.{Text}
use desperate.Pqxdh.{PqxdhResult, initiate, agree}
use desperate.Pqxdh.Agreement.{IsHonest, IsPublishable, remote_of, parse_bundle-public_fields}
use desperate.Service.Keystore.{success}
use desperate.Store.{StateStore}
use desperate.Store.States.{JsonCodec, load_state}
use desperate.Rpc.{RpcPackages, Rpc, identity}
use desperate.Rpc.Conversations.{handle_initiate_session}
use desperate.Rpc.Messages.{handle_encrypt_message, handle_decrypt_message}
use desperate.Rpc.Delivery.{initiation_params, message_params, envelope}
use desperate.Rpc.Delivery.Laws.{first_message_delivered}
use desperate.Rpc.Interleaving.{interleaved}
use desperate.Rpc.Interleaving.Laws.{interleaved_lem}
use desperate.Rpc.Registration.Laws.{load_identity-stored}
use desperate.Tests.Toy.{suite, suite_laws, fit, reduced, replicate-IsBytes, reduced-IsBytes}
use desperate.Tests.HandshakeRuns.{bob, signing, publishable, verified, initiate_parts}
use desperate.Tests.RpcRuns.{packages, rpc_draws, server}

-- A json that reads two values.
abbrev pub reading : Json → Json → JsonCodec
reading v w = record {
  dumps = λ j. err type_error;
  loads = λ b. elim b [ [] ↦ ok v | x ∷ xs ↦ ok w ];
}

abbrev pub st : StateStore
st = record { base_dir = ascii "b"; enc_key = replicate 32 1 }

-- A server with a keystore of that content.
abbrev pub user : Bytes → Rpc
user content = record server {
  files =
      (
        desperate.Store.Paths.state_path (ascii "b") identity,
        replicate 12 1 ++ (content ++ replicate 16 7),
      )
      ∷ [];
  keystore_dir = true;
  keystore_store = some st;
}

pub loaded : (v w : Json) → load_state suite.cipher (reading v w) st identity (user []).files ≡ ok v
unfolding load_state desperate.Store.Paths.validate_session_id lookup desperate.Prelude.list_beq
    desperate.Store.States.read_decrypt
loaded v w = refl

loaded_second :
    (v w : Json) → load_state suite.cipher (reading v w) st identity (user (0 ∷ [])).files ≡ ok w
unfolding load_state desperate.Store.Paths.validate_session_id lookup desperate.Prelude.list_beq
    desperate.Store.States.read_decrypt
loaded_second v w = refl

-- A receiver without one-time prekeys, and the sender.
abbrev carol : IdentityBundle
carol = record bob { x25519_opks = []; kem_opks = [] }

abbrev pub alice : IdentityBundle
alice = record carol { ik_classical = record { private = replicate 32 1 } }

-- The keys of `bob`, with another classical key and other prekeys.
pub storable :
    (private : Bytes) (xs : List X25519OneTimePrekey) (ks : List KemOneTimePrekey)
    → IsBytes private
    → length private ≡ 32
    → All IsBytesX25519Opk xs
    → All IsBytesKemOpk ks
    → IsPaired xs ks
    → IsStorable (record bob {
      ik_classical = record { private = private };
      x25519_opks = xs;
      kem_opks = ks;
    })
unfolding signing generate_signing_keypair generate_signed_prekey
storable private xs ks bytes size hx hk paired = record {
  kem_public = replicate-IsBytes 1 8 (omega arith);
  kem_secret = replicate-IsBytes 1 8 (omega arith);
  sig_public = publishable.signing;
  sig_secret = replicate-IsBytes 1 6 (omega arith);
  sig_ed25519 = replicate-IsBytes 1 5 (omega arith);
  classical = bytes;
  classical_size = size;
  spk_private = replicate-IsBytes 32 3 (omega arith);
  spk_size = refl;
  spk_signature = publishable.signature;
  x25519_bytes = hx;
  kem_bytes = hk;
  paired = paired;
}

pub sevens : (n : ℕ) → IsBytes (replicate n 7)
sevens n = replicate-IsBytes n 7 (omega arith)

of_alice :
    (j : Json) × (to_private_bundle suite alice ≡ ok j) × (from_private_bundle suite j ≡ ok alice)
of_alice =
    from_private_bundle-to_private_bundle suite suite_laws alice
      (storable (replicate 32 1) [] [] (replicate-IsBytes 32 1 (omega arith)) refl tt tt refl)

of_carol :
    (j : Json) × (to_private_bundle suite carol ≡ ok j) × (from_private_bundle suite j ≡ ok carol)
of_carol =
    from_private_bundle-to_private_bundle suite suite_laws carol
      (storable (replicate 32 2) [] [] (replicate-IsBytes 32 2 (omega arith)) refl tt tt refl)

abbrev meeting : RpcPackages
meeting = packages (reading of_alice.0 of_carol.0)

abbrev result : PqxdhResult
result = record {
  sk = replicate 32 0;
  bundle = some (record {
    ik_classical_pub = replicate 32 1;
    ek_pub = replicate 32 9;
    ct_pq = replicate 3 4;
    opk_id = none;
    used_identity_kem = true;
  });
}

agreed :
    agree suite alice (remote_of suite suite_laws carol) true rpc_draws.ek rpc_draws.kem_coins
    ≡ ok result
unfolding agree dh desperate.Tests.Toy.reduced fit generate_signed_prekey desperate.Pqxdh.opk_leg
    desperate.Json.at desperate.Keys.Bundle.public_opk desperate.Json.as_bytes
    desperate.Codec.Hex.from_hex desperate.Codec.Hex.to_hex desperate.Json.as_num
    desperate.Pqxdh.pq_leg desperate.Pqxdh.derive_sk desperate.Kdf.hkdf_derive
agreed = refl

carol-IsPublishable : IsPublishable suite suite_laws carol
carol-IsPublishable = record {
  kem = publishable.kem;
  signing = publishable.signing;
  signature = publishable.signature;
}

agreement :
    initiate suite alice (obj (public_fields suite carol)) true rpc_draws.ek rpc_draws.kem_coins
    ≡ ok result
unfolding generate_signed_prekey
agreement =
    initiate_parts alice (obj (public_fields suite carol)) true rpc_draws.ek rpc_draws.kem_coins
      (remote_of suite suite_laws carol) result
      (parse_bundle-public_fields suite suite_laws carol carol-IsPublishable refl) verified agreed

honest : IsHonest suite suite_laws carol [] []
unfolding generate_signed_prekey lookup reduced fit
honest = record {
  classical_size = refl;
  spk_size = refl;
  kem = record { seed = 8 ∷ []; public_key = refl; secret_key = refl };
  paired = refl;
  first_x25519 = tt;
  first_kem = tt;
}

sealed_bytes : (plain : Bytes) → IsBytes plain → IsBytes (plain ++ replicate 16 7)
sealed_bytes plain h = All-append _ plain (replicate 16 7) h (replicate-IsBytes 16 7 (omega arith))

abbrev hello : Text
hello = replicate 5 97

first_message_delivered_example :
    let start =
      handle_initiate_session meeting rpc_draws
        (initiation_params (ascii "c") (public_fields suite carol))
        (user []) in
    let sent =
      handle_encrypt_message meeting rpc_draws (message_params (ascii "c") hello) start.1 in
    (m : Fields) × (start.0 ≡ ok success)
    × (sent.0 ≡ ok m)
    × ((handle_decrypt_message meeting (envelope m) (user (0 ∷ []))).0
        ≡ ok (field "plaintext" (text hello) end))
unfolding lookup desperate.Codec.Utf8.encode desperate.Codec.Utf8.encode_char
first_message_delivered_example =
    first_message_delivered meeting suite_laws rpc_draws rpc_draws (ascii "c") hello alice carol
      (user []) (user (0 ∷ [])) honest carol-IsPublishable refl refl
      (load_identity-stored meeting alice st of_alice.0 (user []) refl
        (loaded of_alice.0 of_carol.0) of_alice.2)
      (load_identity-stored meeting carol st of_carol.0 (user (0 ∷ [])) refl
        (loaded_second of_alice.0 of_carol.0) of_carol.2)
      refl refl refl refl agreement refl
      (
        replicate-IsBytes 32 1 (omega arith),
        replicate-IsBytes 32 9 (omega arith),
        replicate-IsBytes 3 4 (omega arith),
      )
      refl (sealed_bytes hello (replicate-IsBytes 5 97 (omega arith)))
      (replicate-IsBytes 12 3 (omega arith)) refl refl

-- Two requests of the sender for one conversation.
abbrev bundle_sent : Option Json
bundle_sent = some (obj (public_fields suite carol))

interleaved_lem_example :
    ((interleaved meeting rpc_draws rpc_draws (ascii "c") bundle_sent (user [])).0
      ≡ ok (success, some (replicate 32 0), success))
    × (lookup
          (ascii "c")
          (interleaved meeting rpc_draws rpc_draws (ascii "c") bundle_sent (user [])).1.session_keys
        ≡ some (replicate 32 0))
unfolding lookup desperate.Rpc.Conversations.remote_bundle_of
interleaved_lem_example =
    interleaved_lem meeting rpc_draws rpc_draws (ascii "c") bundle_sent alice (user []) refl
      (load_identity-stored meeting alice st of_alice.0 (user []) refl
        (loaded of_alice.0 of_carol.0) of_alice.2)
      agreement refl agreement refl
