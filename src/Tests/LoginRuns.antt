-- ===== src/Tests/LoginRuns.antt =====
-- A login of the service, with the toy packages.
use desperate.Prelude.{◌≡◌, ◌≢◌, ◌++◌, refl, arith, true, some, [], ◌∷◌, replicate}
use desperate.Outcome.{ok}
use desperate.Codec.Words.{Bytes}
use desperate.Codec.Numbers.{from_bytes}
use desperate.Codec.Hex.{to_hex, from_hex}
use desperate.Codec.Ascii.{ascii}
use desperate.Json.{end, field, text, bool}
use desperate.Kdf.{derive_master_components}
use desperate.Srp.{new_session, a_hex, create_srp_verifier, private_value, modulus}
use desperate.Srp.Arith.{pow_mod}
use desperate.Srp.Server.{
  padded, serve, ServerSide, server_public, server_multiplier, server_scrambler,
}
use desperate.Srp.Laws.{pad_fits, from_bytes-padded}
use desperate.Service.Login.{no_login}
use desperate.Service.Login.Success.{log_in, log_in_lem}
use desperate.Tests.Toy.{hashes, hash_laws}
use desperate.Tests.SrpRuns.{digest}
use desperate.Tests.ServiceRuns.{packages, draws, service}

abbrev salt : Bytes
salt = replicate 32 1

derived : derive_master_components hashes (ascii "p") (some salt) [] ≡ ok (salt, salt, salt)
unfolding derive_master_components desperate.Password.argon2id_derive_key desperate.Kdf.hkdf_derive
    desperate.Tests.Toy.fit
derived = refl

abbrev verifier : Bytes
verifier = padded 15625

made : create_srp_verifier hashes (ascii "u") (to_hex salt) salt ≡ ok verifier
unfolding create_srp_verifier private_value pow_mod from_bytes
made = pad_fits 15625 (omega arith)

abbrev server : ServerSide
server = serve hashes (ascii "u") salt verifier 3 (25 ∷ [])

sent : a_hex (new_session (ascii "u") [] (2 ∷ [])) ≡ ok (ascii "19")
unfolding a_hex desperate.Srp.minimal desperate.Codec.Numbers.to_bytes new_session pow_mod
    from_bytes desperate.Codec.Words.word_limit desperate.Codec.Numbers.byte_length
    desperate.Codec.Numbers.bit_length to_hex desperate.Codec.Numbers.pack_be
sent = refl

heard : from_hex (ascii "19") ≡ ok (25 ∷ [])
unfolding from_hex
heard = refl

live : server.b_public ≢ 0
unfolding serve server_public server_multiplier pow_mod
live =
    rw (from_bytes-padded 15625 (omega arith))
      (λ e. absurd (omega (arith, (digest (padded modulus ++ padded 5)).1)))

mixed : server.u ≢ 0
unfolding serve server_scrambler
mixed e =
    absurd (omega (arith, (digest (padded (from_bytes (25 ∷ [])) ++ padded server.b_public)).1))

log_in_lem_example : log_in packages draws (ascii "u") (ascii "p") salt server service ≡ (
  ok (
    field "M1" (text (to_hex server.m1)) end,
    field "authenticated" (bool true) (field "session_key" (text (to_hex server.key)) end),
  ),
  record service { login = record no_login { cached_keystore_key = some salt } },
)
log_in_lem_example =
    log_in_lem packages hash_laws draws (ascii "u") (ascii "p") salt 3 service derived made sent
      heard (omega arith) live mixed
