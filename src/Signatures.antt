-- ===== src/Signatures.antt =====
-- core/signatures.py: hybrid signatures over ciphertexts. The msgpack package is a parameter; of
-- the values that a payload can hold, byte strings, texts, integers and nil are represented.
pub mod Laws
use desperate.Prelude.{
  ℕ, ◌≡◌, Bool, true, false, not, Option, none, some, List, [], ◌∷◌, length, ltb, list_beq, ◌==◌,
  nat_eq,
}
use desperate.Prelude.Int.{ℤ, pos, negsuc}
use desperate.Outcome.{
  Result, ok, err, type_error, malformed_signed, signature_verification, reject, ◌>>=◌, ◌>>◌,
}
use desperate.Codec.Words.{Bytes, u64_limit}
use desperate.Codec.Hex.{Text}
use desperate.Constants.{hybrid_signature_len}
use desperate.Suite.{Suite}
use desperate.Aead.{as_uint64}
use desperate.Keys.Types.{SigningKeypair, sign}
use desperate.Keys.Hybrid.{verify_hybrid_signature}

pub data Value : Type 0 where
  bin : Bytes → Value
  str : Text → Value
  int : ℤ → Value
  nil : Value

-- `packb(l, use_bin_type=True)` and `unpackb(b, raw=False)` for arrays. Either may raise.
pub record Msgpack : Type 0 where
  pub packb : List Value → Result Bytes
  pub unpackb : Bytes → Result (List Value)

-- What was packed is unpacked.
pub record MsgpackLaws (m : Msgpack) : Type 0 where
  pub unpackb-packb : (l : List Value) {b : Bytes} → m.packb l ≡ ok b → m.unpackb b ≡ ok l

-- The fields as they come out of msgpack: only the index and the length of the signature are checked.
pub record SignedCiphertext : Type 0 where
  pub ciphertext : Value
  pub signature : Value
  pub sender_id : Value
  pub recipient_id : Value
  pub message_index : ℕ

-- len(v)
unfoldable pub len : Value → Result ℕ
len (bin b) = ok (length b)
len (str t) = ok (length t)
len v = err type_error

-- `not v`
unfoldable pub is_falsy : Value → Bool
is_falsy (bin []) = true
is_falsy (str []) = true
is_falsy (int (pos n)) = n == 0
is_falsy nil = true
is_falsy v = false

-- `isinstance(v, int)` and `0 <= v < 2**64`
unfoldable pub uint64_field : Value → Result ℕ
uint64_field (int (pos n)) = do reject (not (ltb n u64_limit)) malformed_signed; ok n
uint64_field v = err malformed_signed

-- `SignedCiphertext(…)` with its `__post_init__`
unfoldable pub new_signed : SignedCiphertext → Result SignedCiphertext
unfolding len
new_signed c = do
  n ← len c.signature
  reject (not (n == hybrid_signature_len)) malformed_signed
  ok c

-- `except Exception as exc: raise MalformedSignedCiphertextError`
abbrev pub or_malformed : Result (List Value) → Result (List Value)
or_malformed (ok l) = ok l
or_malformed (err e) = err malformed_signed

unfoldable pub from_fields : List Value → Result SignedCiphertext
unfolding len is_falsy uint64_field new_signed
from_fields (sender_id ∷ recipient_id ∷ message_index ∷ signature ∷ ciphertext ∷ []) = do
  n ← uint64_field message_index
  sig_len ← len signature
  reject (not (sig_len == hybrid_signature_len)) malformed_signed
  reject (is_falsy ciphertext) malformed_signed
  new_signed (record {
    ciphertext = ciphertext;
    signature = signature;
    sender_id = sender_id;
    recipient_id = recipient_id;
    message_index = n;
  })
from_fields l = err malformed_signed

-- A text in the place of a signature makes both verifiers raise, which is caught as False.
unfoldable pub verify_value : Suite → Bytes → Value → Bytes → Result Bool
verify_value s message (bin signature) ik_sig_pub =
    verify_hybrid_signature s message signature ik_sig_pub
verify_value s message v ik_sig_pub = ok false

-- the verdict on a signature, exceptions included
unfoldable pub checked : Result Bool → Result (Unit {0})
checked (ok true) = ok tt
checked r = err signature_verification

-- the comparison with a pinned key
unfoldable pub check_pinned : Option Bytes → Bytes → Result (Unit {0})
check_pinned none ik_sig_pub = ok tt
check_pinned (some expected_pub) ik_sig_pub =
    reject (not (list_beq expected_pub ik_sig_pub)) signature_verification

abbrev pub unified : Result SignedCiphertext → Result SignedCiphertext
unified (err malformed_signed) = err signature_verification
unified r = r

module _ (s : Suite) (m : Msgpack) where
  unfoldable pub build_sig_input : Value → Bytes → Value → Value → ℤ → Result Bytes
  build_sig_input ciphertext aad sender_id recipient_id message_index = do
    n ← as_uint64 message_index
    m.packb (ciphertext ∷ bin aad ∷ sender_id ∷ recipient_id ∷ int (pos n) ∷ [])

  unfoldable pub to_bytes : SignedCiphertext → Result Bytes
  to_bytes c =
      m.packb
        (c.sender_id ∷ c.recipient_id ∷ int (pos c.message_index) ∷ c.signature ∷ c.ciphertext ∷ [])

  unfoldable pub from_bytes : Bytes → Result SignedCiphertext
  unfolding from_fields
  from_bytes payload = do fields ← or_malformed (m.unpackb payload); from_fields fields

  unfoldable pub sign_ciphertext :
      SigningKeypair → Bytes → Bytes → Bytes → Bytes → ℤ → Result SignedCiphertext
  unfolding new_signed
  sign_ciphertext signing_keypair ciphertext aad sender_id recipient_id message_index = do
    sig_input ←
        build_sig_input (bin ciphertext) aad (bin sender_id) (bin recipient_id) message_index
    n ← as_uint64 message_index
    new_signed (record {
      ciphertext = bin ciphertext;
      signature = bin (sign s signing_keypair sig_input);
      sender_id = bin sender_id;
      recipient_id = bin recipient_id;
      message_index = n;
    })

  unfoldable pub verify_ciphertext :
      SignedCiphertext → Bytes → Bytes → Option Bytes → Result (Unit {0})
  verify_ciphertext signed aad ik_sig_pub expected_pub = do
    sig_input ←
        build_sig_input signed.ciphertext aad signed.sender_id signed.recipient_id
          (pos signed.message_index)
    checked (verify_value s sig_input signed.signature ik_sig_pub)
    check_pinned expected_pub ik_sig_pub

  unfoldable pub verify_and_extract : Bytes → Bytes → Bytes → Option Bytes → Result SignedCiphertext
  verify_and_extract payload aad ik_sig_pub expected_pub = do
    signed ← unified (from_bytes payload)
    verify_ciphertext signed aad ik_sig_pub expected_pub
    ok signed
