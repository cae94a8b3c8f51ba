-- ===== src/Tests/SrpRuns.antt =====
-- A login with small secrets.
use desperate.Prelude.{ℕ, ◌+◌, ◌%◌, ◌++◌, length, ◌≡◌, ◌≢◌, some, refl, arith, [], ◌∷◌}
use desperate.Outcome.{ok, ◌>>=◌}
use desperate.Codec.Words.{Bytes}
use desperate.Codec.Numbers.{from_bytes}
use desperate.Codec.Hex.{Text, to_hex, from_hex}
use desperate.Codec.Ascii.{ascii}
use desperate.Srp.{
  SrpSession, new_session, set_password, a_hex, create_srp_verifier, private_value,
  process_challenge, verify_server, modulus,
}
use desperate.Srp.Arith.{pow_mod}
use desperate.Srp.Server.{
  padded, server_public, server_multiplier, server_scrambler, serve, ServerSide,
}
use desperate.Srp.Laws.{LoggedIn, login_agrees, pad_fits, from_bytes-padded}
use desperate.Tests.Toy.{hashes, hash_laws}

abbrev user : Text
user = ascii "u"

abbrev password : Text
password = ascii "p"

abbrev client : SrpSession
client = set_password password (new_session user [] (2 ∷ []))

abbrev verifier : Bytes
verifier = padded 125

made : create_srp_verifier hashes user password (9 ∷ []) ≡ ok verifier
unfolding create_srp_verifier private_value pow_mod from_bytes
made = pad_fits 125 (omega arith)

abbrev server : ServerSide
server = serve hashes user (9 ∷ []) verifier 3 (25 ∷ [])

read : (a_hex client >>= from_hex) ≡ ok (25 ∷ [])
unfolding a_hex desperate.Srp.minimal desperate.Codec.Numbers.to_bytes set_password new_session
    pow_mod from_bytes desperate.Codec.Words.word_limit desperate.Codec.Numbers.byte_length
    desperate.Codec.Numbers.bit_length from_hex to_hex desperate.Codec.Numbers.pack_be
read = refl

-- A digest of the toy hash is one byte from 1 to 7.
pub digest : (message : Bytes) → (n : ℕ) × (from_bytes (hashes.sha256 message) ≡ n % 7 + 1)
unfolding from_bytes
digest message = (length message, omega arith)

live : server.b_public ≢ 0
unfolding serve server_public server_multiplier pow_mod
live =
    rw (from_bytes-padded 125 (omega arith))
      (λ e. absurd (omega (arith, (digest (padded modulus ++ padded 5)).1)))

mixed : server.u ≢ 0
unfolding serve server_scrambler
mixed e =
    absurd (omega (arith, (digest (padded (from_bytes (25 ∷ [])) ++ padded server.b_public)).1))

login_agrees_example :
    LoggedIn server
      (process_challenge hashes client (to_hex (9 ∷ [])) (to_hex (padded server.b_public)))
login_agrees_example =
    login_agrees hashes hash_laws user password (9 ∷ []) (2 ∷ []) 3 made read (omega arith) live
      mixed

no_bytes : from_hex (ascii "00") ≡ ok (0 ∷ [])
unfolding from_hex
no_bytes = refl

no_number : from_bytes (0 ∷ []) % modulus ≡ 0
unfolding from_bytes
no_number = refl

abbrev waiting : SrpSession
waiting = record client { hamk = some (7 ∷ []) }
