-- ===== src/Tests/ReceptionRuns.antt =====
-- An initiation under another identity key.
use desperate.Prelude.{ℕ, ◌≡◌, refl, arith, none, some, true, [], ◌∷◌, replicate, list_eq}
use desperate.Prelude.Dict.{lookup}
use desperate.Outcome.{ok, err, value_error, identity_key_changed, file_not_found}
use desperate.Codec.Ascii.{ascii}
use desperate.Json.{Json, Fields, end, field, text}
use desperate.Pqxdh.{PqxdhResult, respond}
use desperate.Pqxdh.Bundles.{InitiationBundle, to_dict, from_dict}
use desperate.Store.States.{load_state}
use desperate.Service.{load_opk_secrets, meta_key}
use desperate.Service.Reception.{decrypt_message}
use desperate.Service.Reception.Laws.{Rekeyed, decrypt_message_forgets_pin}
use desperate.Tests.Toy.{suite}
use desperate.Tests.HandshakeRuns.{bob}
use desperate.Tests.RatchetRuns.{codec, store}
use desperate.Tests.ServiceRuns.{packages, draws, service, entry, valid}

abbrev init : InitiationBundle
init = record {
  ik_classical_pub = replicate 32 1;
  ek_pub = replicate 32 9;
  ct_pq = 4 ∷ [];
  opk_id = none;
  used_identity_kem = true;
}

abbrev params : Fields
params = field "conversation_id" (text (ascii "s")) (
    field "ciphertext" (text (ascii "00")) (
      field "initiation_bundle" (to_dict init) (field "sender_ik_sig_pub" (text (ascii "08")) end)))

abbrev secret : PqxdhResult
secret = record { sk = replicate 32 0; bundle = none }

agreed : respond suite bob init (load_opk_secrets bob).0 (load_opk_secrets bob).1 ≡ ok secret
unfolding respond desperate.Keys.Types.dh desperate.Pqxdh.own_opk_leg desperate.Pqxdh.own_pq_leg
    desperate.Pqxdh.derive_sk desperate.Kdf.hkdf_derive desperate.Tests.Toy.fit
agreed = refl

parsed : from_dict (to_dict init) ≡ ok init
unfolding from_dict desperate.Json.at to_dict desperate.Json.as_bytes desperate.Codec.Hex.from_hex
    desperate.Codec.Hex.to_hex desperate.Json.as_fields desperate.Pqxdh.Bundles.truth
parsed = refl

rekeyed : Rekeyed packages params service (ascii "s") store
unfolding desperate.Service.text_param desperate.Json.at desperate.Json.as_text
    desperate.Codec.Hex.from_hex desperate.Pqxdh.Bundles.truth to_dict
    desperate.Service.Reception.sender_key lookup desperate.Prelude.list_beq
rekeyed = record {
  entry = entry;
  bundle = bob;
  ciphertext_hex = ascii "00";
  sender_hex = ascii "08";
  payload = 0 ∷ [];
  key = 8 ∷ [];
  initiation = to_dict init;
  init = init;
  secret = secret;
  named = refl;
  sent = refl;
  decoded = refl;
  initiates = refl;
  not_empty = refl;
  shown = refl;
  read_key = refl;
  parsed = parsed;
  agreed = agreed;
  identity = refl;
  opened = refl;
  valid = valid;
  known = refl;
  other_key = refl;
}

decrypt_message_forgets_pin_example :
    ((decrypt_message packages draws params service).0 ≡ err (value_error identity_key_changed))
    × (lookup (ascii "s") (decrypt_message packages draws params service).1.sessions ≡ none)
    × (load_state suite.cipher codec store
          (ascii "s")
          (decrypt_message packages draws params service).1.files
        ≡ err file_not_found)
    × (load_state suite.cipher codec store
          (meta_key (ascii "s"))
          (decrypt_message packages draws params service).1.files
        ≡ err file_not_found)
unfolding desperate.Service.Reception.consume_used rekeyed desperate.Service.lift
decrypt_message_forgets_pin_example =
    decrypt_message_forgets_pin packages draws params service (ascii "s") store rekeyed
      (λ e. absurd (ground arith))
