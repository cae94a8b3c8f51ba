-- ===== src/Tests/RatchetRuns.antt =====
-- A message of a ratchet session, on its way and on disk.
use desperate.Prelude.{
  ℕ, ◌+◌, ◌≡◌, ◌≢◌, refl, arith, ◌&&◌, true, none, some, [], ◌∷◌, ◌++◌, length, replicate,
  if◌then◌else◌, ◌==◌, string_eq, nat_eq, list_eq,
}
use desperate.Outcome.{Result, ok, err, type_error, os_error}
use desperate.Codec.Words.{Bytes, pack_le, pack_u32}
use desperate.Codec.Ascii.{ascii}
use desperate.Json.{Json, null, bool, num, text, arr, obj, end, field, as_num}
use desperate.Store.{StateStore}
use desperate.Store.AtomicWrite.{FileSystem, WriteIo, replace_file}
use desperate.Store.States.{JsonCodec, JsonCodecLaws, load_state}
use desperate.Ratchet.{Header, EncryptedMessage, build_wire, parse_wire}
use desperate.Ratchet.Laws.{parse_wire-build_wire}
use desperate.Ratchet.Session.{DoubleRatchet, RatchetSession, session_state, encrypt, decrypt}
use desperate.Ratchet.Session.Laws.{Sent, encrypt_raises, encrypt_returns, decrypt_lem}
use desperate.Tests.Toy.{cipher, cipher_laws}

-- json for the state of a session whose ratchet is a number
unfoldable pub dumped : Json → Result Bytes
dumped (obj (field r (num a) (field h (num b) (field m (num e) end)))) =
    if r == "ratchet" && (h == "header_counter" && m == "msg_index")
    then ok (a ∷ b ∷ e ∷ [])
    else err type_error
dumped v = err type_error

unfoldable pub loaded : Bytes → Result Json
loaded (a ∷ b ∷ e ∷ []) =
    ok (
      obj
        (field "ratchet" (num a) (field "header_counter" (num b) (field "msg_index" (num e) end))))
loaded b = err type_error

loaded-dumped_session : (v : Json) {b : Bytes} → dumped v ≡ ok b → loaded b ≡ ok v
unfolding dumped loaded
loaded-dumped_session (obj (field r (num a) (field h (num b) (field m (num e) end)))) q = ground (
  arith,
  string_eq.beq_iff r "ratchet",
  string_eq.beq_iff h "header_counter",
  string_eq.beq_iff m "msg_index",
)
loaded-dumped_session null q = absurd (cc)
loaded-dumped_session (bool b) q = absurd (cc)
loaded-dumped_session (num n) q = absurd (cc)
loaded-dumped_session (text t) q = absurd (cc)
loaded-dumped_session (arr l) q = absurd (cc)
loaded-dumped_session (obj end) q = absurd (cc)
loaded-dumped_session (obj (field r null d)) q = absurd (cc)
loaded-dumped_session (obj (field r (bool b) d)) q = absurd (cc)
loaded-dumped_session (obj (field r (text t) d)) q = absurd (cc)
loaded-dumped_session (obj (field r (arr l) d)) q = absurd (cc)
loaded-dumped_session (obj (field r (obj f) d)) q = absurd (cc)
loaded-dumped_session (obj (field r (num a) end)) q = absurd (cc)
loaded-dumped_session (obj (field r (num a) (field h null d))) q = absurd (cc)
loaded-dumped_session (obj (field r (num a) (field h (bool x) d))) q = absurd (cc)
loaded-dumped_session (obj (field r (num a) (field h (text t) d))) q = absurd (cc)
loaded-dumped_session (obj (field r (num a) (field h (arr l) d))) q = absurd (cc)
loaded-dumped_session (obj (field r (num a) (field h (obj f) d))) q = absurd (cc)
loaded-dumped_session (obj (field r (num a) (field h (num b) end))) q = absurd (cc)
loaded-dumped_session (obj (field r (num a) (field h (num b) (field m null d)))) q = absurd (cc)
loaded-dumped_session (obj (field r (num a) (field h (num b) (field m (bool x) d)))) q = absurd (cc)
loaded-dumped_session (obj (field r (num a) (field h (num b) (field m (text t) d)))) q = absurd (cc)
loaded-dumped_session (obj (field r (num a) (field h (num b) (field m (arr l) d)))) q = absurd (cc)
loaded-dumped_session (obj (field r (num a) (field h (num b) (field m (obj f) d)))) q = absurd (cc)
loaded-dumped_session (obj (field r (num a) (field h (num b) (field m (num e) (field k v d))))) q =
    absurd (cc)

abbrev pub codec : JsonCodec
codec = record { dumps = λ v. dumped v; loads = λ b. loaded b }

pub codec_laws : JsonCodecLaws codec
codec_laws = record { loads-dumps = λ v e. loaded-dumped_session v e }

-- A ratchet that counts its messages and does not encrypt.
abbrev pub ratchet : DoubleRatchet ℕ
ratchet = record {
  encrypt_message = λ r plaintext ad. (
    ok (record {
      header = record {
        ratchet_pub = replicate 32 5;
        previous_sending_chain_length = 0;
        sending_chain_length = r;
      };
      ciphertext = plaintext;
    }),
    r + 1,
  );
  decrypt_message = λ r m ad. (ok m.ciphertext, r + 1);
  json = λ r. num r;
  from_json = λ v. as_num v;
  encrypt_initial_message = λ sk ratchet_pub plaintext ad. ok (
    1,
    record {
      header = record {
        ratchet_pub = replicate 32 5;
        previous_sending_chain_length = 0;
        sending_chain_length = 0;
      };
      ciphertext = plaintext;
    },
  );
  decrypt_initial_message = λ sk priv m ad. ok (1, m.ciphertext);
}

abbrev pub session : RatchetSession ℕ
session = record {
  session_id = ascii "s";
  msg_index = 6;
  ratchet = 2;
  counter = record { session_id = ascii "s"; counter = 0 };
}

abbrev pub store : StateStore
store = record { base_dir = ascii "b"; enc_key = replicate 32 0 }

abbrev pub io : WriteIo
io = record { stem = ascii "x"; fault = none; taken = none; unlinks = true; posix = true }

abbrev failing : WriteIo
failing = record io { fault = some replace_file }

abbrev pub nonce : Bytes
nonce = replicate 12 1

abbrev pub body : Bytes
body = ascii "hello"

abbrev message : EncryptedMessage
message = record {
  header = record {
    ratchet_pub = replicate 32 5;
    previous_sending_chain_length = 0;
    sending_chain_length = 2;
  };
  ciphertext = body;
}

abbrev pub wire : Bytes
wire = 2 ∷ 7 ∷ 0 ∷ 0 ∷ 0 ∷ 0 ∷ 0 ∷ 0 ∷ 0 ∷ 2 ∷ 0 ∷ 0 ∷ 0 ∷ (replicate 32 5 ++ body)

was_built : build_wire 7 message ≡ ok wire
unfolding build_wire pack_u32 pack_le
was_built = refl

parse_wire-build_wire_example :
    (parse_wire wire ≡ ok (7, message)) × (length wire ≡ 45 + length body)
parse_wire-build_wire_example =
    parse_wire-build_wire 7 message (λ e. absurd (ground arith)) was_built

pub was_sent : (encrypt ratchet cipher codec store session body [] nonce io []).0 ≡ ok wire
unfolding encrypt desperate.Ratchet.Session.encrypt_indexed pack_u32
    desperate.Ratchet.Session.commit build_wire desperate.Ratchet.Session.acknowledge
    desperate.Ratchet.Session.persist desperate.Store.States.save_state
    desperate.Store.Paths.validate_session_id dumped session_state
    desperate.Store.States.encrypt_write desperate.Store.AtomicWrite.atomic_write
    desperate.Store.AtomicWrite.write_and_rename desperate.Store.AtomicWrite.fails_early
    desperate.Store.AtomicWrite.fails_writing desperate.Store.AtomicWrite.fails_closing
    desperate.Store.AtomicWrite.fails_late desperate.Codec.Utf8.encode
    desperate.Codec.Utf8.encode_char pack_le desperate.Prelude.Dict.erase
    desperate.Prelude.Dict.insert desperate.Prelude.list_beq desperate.Store.AtomicWrite.clean_up
    desperate.Store.Paths.any_forbidden desperate.Store.Paths.make_ad
    desperate.Store.States.write_blob desperate.Store.States.write_payload
was_sent = refl

encrypt_returns_example :
    Sent ratchet cipher codec store session wire
      (encrypt ratchet cipher codec store session body [] nonce io []).1
      (encrypt ratchet cipher codec store session body [] nonce io []).2
encrypt_returns_example =
    encrypt_returns ratchet cipher codec store cipher_laws codec_laws session body [] nonce io []
      refl refl was_sent

was_refused : (encrypt ratchet cipher codec store session body [] nonce failing []).0 ≡ err os_error
unfolding encrypt desperate.Ratchet.Session.encrypt_indexed pack_u32
    desperate.Ratchet.Session.commit build_wire desperate.Ratchet.Session.acknowledge
    desperate.Ratchet.Session.persist desperate.Store.States.save_state
    desperate.Store.Paths.validate_session_id dumped session_state
    desperate.Store.States.encrypt_write desperate.Store.AtomicWrite.atomic_write
    desperate.Store.AtomicWrite.write_and_rename desperate.Store.AtomicWrite.fails_early
    desperate.Store.AtomicWrite.fails_writing desperate.Store.AtomicWrite.fails_closing
was_refused = refl

encrypt_raises_example :
    (encrypt ratchet cipher codec store session body [] nonce failing []).1.msg_index ≡ 6
encrypt_raises_example =
    encrypt_raises ratchet cipher codec store session body [] nonce failing [] was_refused

decrypt_lem_example :
    ((decrypt ratchet cipher codec store session wire [] nonce io []).1.msg_index ≡ 6)
    × ((plaintext : Bytes)
        → (decrypt ratchet cipher codec store session wire [] nonce io []).0 ≡ ok plaintext
        → load_state cipher codec store
            (ascii "s")
            (decrypt ratchet cipher codec store session wire [] nonce io []).2
          ≡ ok (
              obj (
                session_state ratchet cipher codec store
                  (decrypt ratchet cipher codec store session wire [] nonce io []).1
                  6)))
decrypt_lem_example =
    decrypt_lem ratchet cipher codec store cipher_laws codec_laws session wire [] nonce io [] refl
      refl
