-- ===== src/Tests/MessageRuns.antt =====
-- A signed message on its way, and a payload with an integer for a signature.
use desperate.Prelude.{◌≡◌, refl, arith, true, some, [], ◌∷◌, length, nat_eq, nat_beq_iff}
use desperate.Prelude.Int.{pos}
use desperate.Outcome.{ok}
use desperate.Codec.Words.{Bytes}
use desperate.Codec.Ascii.{ascii}
use desperate.Constants.{hybrid_signature_len}
use desperate.Keys.Types.{SigningKeypair, sign, generate_signing_keypair}
use desperate.Keys.Hybrid.Laws.{verify_hybrid_signature-sign}
use desperate.Signatures.{
  bin, int, SignedCiphertext, new_signed, sign_ciphertext, to_bytes, verify_and_extract,
}
use desperate.Signatures.Laws.{Accepted, verify_and_extract_sound, verify_and_extract-sign}
use desperate.Tests.Toy.{suite, suite_laws}
use desperate.Tests.ToyCodecs.{msgpack, msgpack_laws, value_list_bytes}

abbrev key : SigningKeypair
key = generate_signing_keypair suite (1 ∷ []) (2 ∷ [])

abbrev body : Bytes
body = ascii "body"

abbrev aad : Bytes
aad = ascii "ad"

abbrev alice : Bytes
alice = ascii "a"

abbrev bob : Bytes
bob = ascii "b"

abbrev input : Bytes
input = value_list_bytes (bin body ∷ bin aad ∷ bin alice ∷ bin bob ∷ int (pos 7) ∷ [])

abbrev signed : SignedCiphertext
signed = record {
  ciphertext = bin body;
  signature = bin (sign suite key input);
  sender_id = bin alice;
  recipient_id = bin bob;
  message_index = 7;
}

new_signed_fits :
    (c : SignedCiphertext) (sig : Bytes)
    → c.signature ≡ bin sig
    → length sig ≡ hybrid_signature_len
    → new_signed c ≡ ok c
unfolding new_signed
new_signed_fits c sig e size = rw (e, (nat_beq_iff _ _).1 size)

was_signed : sign_ciphertext suite msgpack key body aad alice bob (pos 7) ≡ ok signed
unfolding sign_ciphertext desperate.Signatures.build_sig_input sign desperate.Aead.as_uint64
    desperate.Tests.Toy.fit
was_signed =
    new_signed_fits signed (sign suite key input) refl
      (verify_hybrid_signature-sign suite suite_laws (1 ∷ []) (2 ∷ []) input).1

abbrev wire : Bytes
wire =
    value_list_bytes
      (bin alice ∷ bin bob ∷ int (pos 7) ∷ bin (sign suite key input) ∷ bin body ∷ [])

was_packed : to_bytes suite msgpack signed ≡ ok wire
unfolding to_bytes
was_packed = refl

verify_and_extract-sign_example :
    verify_and_extract suite msgpack wire aad key.public_key (some key.public_key) ≡ ok signed
verify_and_extract-sign_example =
    verify_and_extract-sign suite msgpack suite_laws msgpack_laws (1 ∷ []) (2 ∷ []) body aad alice
      bob wire 7 true (omega arith) (λ e. absurd (ground arith)) was_signed was_packed

verify_and_extract_sound_example :
    Accepted suite msgpack wire aad key.public_key (some key.public_key) signed
verify_and_extract_sound_example =
    verify_and_extract_sound suite msgpack wire aad key.public_key (some key.public_key)
      was_extracted
  where
    was_extracted :
        verify_and_extract suite msgpack wire aad key.public_key (some key.public_key) ≡ ok signed
    was_extracted =
        verify_and_extract-sign suite msgpack suite_laws msgpack_laws (1 ∷ []) (2 ∷ []) body aad
          alice bob wire 7 true (omega arith) (λ e. absurd (ground arith)) was_signed was_packed

abbrev bad_payload : Bytes
bad_payload = value_list_bytes (bin alice ∷ bin bob ∷ int (pos 7) ∷ int (pos 1) ∷ bin body ∷ [])
