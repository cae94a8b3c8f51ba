-- ===== src/Tests/ServiceRuns.antt =====
-- The service with a ratchet that counts, and small keys.
use desperate.Prelude.{
  ℕ, ◌≡◌, ◌≢◌, ◌↔◌, ◌*◌, ◌+◌, ◌%◌, refl, arith, true, false, none, some, [], ◌∷◌, ◌++◌, length,
  replicate, list_eq, string_eq, nat_eq,
}
use desperate.Outcome.{ok}
use desperate.Codec.Hex.{from_hex}
use desperate.Codec.Ascii.{ascii}
use desperate.Json.{Json, Fields, end, field, text, bool, null, hex}
use desperate.Pqxdh.{respond}
use desperate.Srp.{
  SrpSession, new_session, a_hex, create_srp_verifier, private_value, verify_server,
}
use desperate.Store.{StateStore}
use desperate.Service.{
  Packages, Draws, Write, LoginState, SessionEntry, Service, load_opk_secrets, without_opk,
  meta_key, text_param,
}
use desperate.Service.Opks.{respond-without_opk}
use desperate.Service.Login.{no_login}
use desperate.Service.Dispatch.{verify, handle}
use desperate.Service.Dispatch.Laws.{KeyOrigin, initial, called, cached_key_authenticated}
use desperate.Tests.Toy.{suite}
use desperate.Tests.ToyCodecs.{msgpack}
use desperate.Tests.RatchetRuns.{codec, ratchet, session, store, io, nonce}
use desperate.Tests.HandshakeRuns.{bob, initiation}

abbrev pub packages : Packages ℕ
packages = record {
  suite = suite;
  ratchet = ratchet;
  json = codec;
  msgpack = msgpack;
  decode = λ b. b;
  base_dir = ascii "b";
}

abbrev pub draws : Draws
draws = record {
  salt = replicate 32 1;
  bundle = record {
    ik_kem = [];
    ed25519 = [];
    dsa = [];
    ik_classical = [];
    spk = [];
    x25519_opks = λ i. [];
    kem_opks = λ i. [];
  };
  srp_secret = 2 ∷ [];
  ek = record { private = replicate 32 9 };
  kem_coins = [];
  writes = λ i. record { nonce = nonce; io = io };
}

abbrev pub entry : SessionEntry ℕ
entry = record { ratchet = session; store = store; remote_ik_sig_pub = 7 ∷ []; init_bundle = null }

abbrev pub service : Service ℕ
service = record {
  files = [];
  login = no_login;
  store = some store;
  local_bundle = some bob;
  pending_sessions = [];
  sessions = (ascii "s", entry) ∷ [];
}

abbrev conversation : Fields
conversation = field "conversation_id" (text (ascii "s")) end

named : text_param "conversation_id" conversation ≡ ok (ascii "s")
unfolding text_param desperate.Json.at desperate.Json.as_text
named = refl

pub valid : desperate.Store.Paths.validate_session_id (ascii "s") ≡ ok tt
unfolding desperate.Store.Paths.validate_session_id
valid = refl

respond-without_opk_example : ¬ (
    respond suite
      (without_opk 1 bob)
      initiation
      (load_opk_secrets (without_opk 1 bob)).0
      (load_opk_secrets (without_opk 1 bob)).1
    ≡ ok (record { sk = []; bundle = none }))
respond-without_opk_example =
    respond-without_opk suite bob 1 initiation (record { sk = []; bundle = none }) refl

-- A login whose server is about to be verified, with the key 5 5 staged.
abbrev client : SrpSession
client = record (new_session (ascii "u") (ascii "p") (2 ∷ [])) {
  hamk = some (1 ∷ []);
  k = some (3 ∷ []);
}

abbrev staged : Service ℕ
staged = record service {
  login = record no_login { srp_session = some client; pending_keystore_key = some (5 ∷ 5 ∷ []) };
}

abbrev proof : Fields
proof = field "M2" (text (ascii "01")) end

promoted :
    (handle packages draws verify proof staged).1.login.cached_keystore_key ≡ some (5 ∷ 5 ∷ [])
unfolding handle desperate.Service.Login.srp_verify desperate.Service.look
    desperate.Service.Login.session_of desperate.Service.lift text_param desperate.Json.at
    desperate.Json.as_text desperate.Service.Login.reported_key verify_server from_hex
    desperate.Prelude.list_beq desperate.Srp.session_key_hex desperate.Service.update
    desperate.Service.Login.settle_login
promoted = refl

cached_key_authenticated_example :
    KeyOrigin packages staged (handle packages draws verify proof staged).1 (5 ∷ 5 ∷ [])
cached_key_authenticated_example =
    cached_key_authenticated packages staged (handle packages draws verify proof staged).1
      (5 ∷ 5 ∷ [])
      (called staged (handle packages draws verify proof staged).1 draws verify proof initial refl)
      refl promoted

abbrev challenged : Service ℕ
challenged = record service {
  login = record no_login { srp_session = some client; pending_password = some (ascii "p") };
}

abbrev challenge : Fields
challenge = field "salt" (text (ascii "0g")) end
