-- ===== src/Tests/CreationRuns.antt =====
-- A ratchet session that is loaded again, and a first message on its way.
use desperate.Prelude.{ℕ, ◌≡◌, refl, arith, none, [], ◌∷◌, ◌++◌, length, replicate}
use desperate.Outcome.{ok, ◌>>=◌}
use desperate.Codec.Words.{Bytes}
use desperate.Codec.Ascii.{ascii}
use desperate.Ratchet.Adapters.{build_associated_data, pack_be_u32, build_associated_data_injective}
use desperate.Ratchet.{Header, EncryptedMessage}
use desperate.Ratchet.Session.{RatchetSession, encrypt, persist}
use desperate.Ratchet.Session.Creation.{load_session, create_as_initiator, create_as_responder}
use desperate.Ratchet.Session.Creation.Laws.{StateLaws, load_session-encrypt}
use desperate.Ratchet.Session.Creation.FirstMessage.{
  InitialLaws, create_as_responder-create_as_initiator,
}
use desperate.Tests.Toy.{cipher, cipher_laws, agreement}
use desperate.Tests.RatchetRuns.{
  codec, codec_laws, ratchet, session, store, io, nonce, body, wire, was_sent,
}

state_laws : StateLaws ratchet
unfolding desperate.Json.as_num
state_laws = record { from_json-json = λ r. refl }

load_session-encrypt_example :
    load_session ratchet cipher codec store
      (ascii "s")
      (encrypt ratchet cipher codec store session body [] nonce io []).2
    ≡ ok (encrypt ratchet cipher codec store session body [] nonce io []).1
load_session-encrypt_example =
    load_session-encrypt ratchet cipher codec store state_laws cipher_laws codec_laws session body
      [] nonce io [] refl refl refl (omega arith) was_sent

opened :
    (sk priv message ad : Bytes) {r : ℕ} {m : EncryptedMessage}
    → ratchet.encrypt_initial_message sk (agreement.public priv) message ad ≡ ok (r, m)
    → ratchet.decrypt_initial_message sk priv m ad ≡ ok (1, message)
opened sk priv message ad e = ground arith

initial_laws : InitialLaws ratchet agreement
initial_laws = record {
  initial_opens = λ sk priv message ad {r} {m} size e. (1, opened sk priv message ad e);
  initial_key_length = λ sk ratchet_pub message ad {r} {m} e. sized sk ratchet_pub message ad e;
}
  where
    sized :
        (sk ratchet_pub message ad : Bytes) {r : ℕ} {m : EncryptedMessage}
        → ratchet.encrypt_initial_message sk ratchet_pub message ad ≡ ok (r, m)
        → length m.header.ratchet_pub ≡ 32
    sized sk ratchet_pub message ad e = ground arith

abbrev key : Bytes
key = replicate 32 4

abbrev first : RatchetSession ℕ
first = record {
  session_id = ascii "s";
  msg_index = 1;
  ratchet = 1;
  counter = record { session_id = ascii "s"; counter = 0 };
}

abbrev first_wire : Bytes
first_wire = 2 ∷ 1 ∷ 0 ∷ 0 ∷ 0 ∷ 0 ∷ 0 ∷ 0 ∷ 0 ∷ 0 ∷ 0 ∷ 0 ∷ 0 ∷ (replicate 32 5 ++ body)

began :
    (create_as_initiator ratchet cipher codec store key
      (agreement.public key)
      body
      []
      (ascii "s")
      nonce
      io
      []).0
    ≡ ok (first, first_wire)
unfolding create_as_initiator desperate.Ratchet.Session.Creation.enrol
    desperate.Ratchet.Session.Creation.first_message desperate.Tests.Toy.reduced
    desperate.Tests.Toy.fit desperate.Codec.Words.pack_u32
    desperate.Ratchet.Session.Creation.initial_wire persist desperate.Store.States.save_state
    desperate.Store.Paths.validate_session_id desperate.Tests.RatchetRuns.dumped
    desperate.Ratchet.Session.session_state desperate.Store.States.encrypt_write
    desperate.Store.AtomicWrite.atomic_write desperate.Store.AtomicWrite.write_and_rename
    desperate.Store.AtomicWrite.fails_early desperate.Store.AtomicWrite.fails_writing
    desperate.Store.AtomicWrite.fails_closing desperate.Codec.Utf8.encode
    desperate.Codec.Utf8.encode_char desperate.Codec.Words.pack_le desperate.Prelude.Dict.erase
    desperate.Prelude.Dict.insert desperate.Prelude.list_beq desperate.Store.AtomicWrite.clean_up
    desperate.Store.AtomicWrite.fails_late desperate.Store.Paths.any_forbidden
    desperate.Store.Paths.make_ad desperate.Store.States.write_blob
    desperate.Store.States.write_payload
began = refl

create_as_responder-create_as_initiator_example :
    (first.msg_index ≡ 1)
    × ((s' : RatchetSession ℕ) × (s'.msg_index ≡ 0)
        × ((create_as_responder ratchet cipher codec store key key first_wire []
              (ascii "t")
              nonce
              io
              []).0
            ≡ ((persist ratchet cipher codec store s' 0 nonce io []).0 >>= λ _. ok (s', body))))
create_as_responder-create_as_initiator_example =
    create_as_responder-create_as_initiator ratchet cipher codec agreement initial_laws store store
      key key body [] (ascii "s") (ascii "t") nonce nonce io io [] [] refl began

abbrev header : Header
header = record {
  ratchet_pub = replicate 32 5;
  previous_sending_chain_length = 3;
  sending_chain_length = 258;
}

abbrev caller : Bytes
caller = 7 ∷ 8 ∷ []

abbrev bound : Bytes
bound = 0 ∷ 0 ∷ 0 ∷ 2 ∷ 7 ∷ 8 ∷ (replicate 32 5 ++ (0 ∷ 0 ∷ 0 ∷ 3 ∷ 0 ∷ 0 ∷ 1 ∷ 2 ∷ []))

was_bound : build_associated_data caller header ≡ ok bound
unfolding build_associated_data pack_be_u32 desperate.Codec.Numbers.pack_be
was_bound = refl

build_associated_data_injective_example : (caller ≡ caller) × (header ≡ header)
build_associated_data_injective_example =
    build_associated_data_injective caller caller header header {b = bound} refl refl was_bound
      was_bound
