-- ===== src/Srp/Laws.antt =====
-- The client's half of a login meets the server's.
use native.Mathlib.Nat.{mod-eq_of_lt}
use desperate.Prelude.{
  ℕ, suc, ◌+◌, ◌-◌, ◌*◌, ◌%◌, ◌<◌, ◌≡◌, ◌≢◌, refl, sym, ap, ◌∙◌, arith, true, false, [], ◌++◌, ◌==◌,
  nat_eq, list_beq_iff,
}
use desperate.Outcome.{Result, ok, ◌>>=◌}
use desperate.Codec.Words.{Bytes, IsBytes, word_limit}
use desperate.Codec.Numbers.{
  from_bytes, to_bytes_fits, pack_be, from_bytes-pack_be, pack_be-IsBytes, byte_length,
  fits_byte_length,
}
use desperate.Codec.Hex.{Text, to_hex, from_hex, from_hex-to_hex}
use desperate.Crypto.{Hashes, HashLaws}
use desperate.Srp.{
  modulus, generator, modulus_bytes, pad, minimal, a_hex, SrpSession, set_password, verify_server,
  session_key_hex, new_session, multiplier, private_value, create_srp_verifier, scrambler, proof_of,
  answer, settle, process_challenge,
}
use desperate.Srp.Arith.{pow_mod, sub_mod, shared_secret_agrees}
use desperate.Srp.Server.{
  padded, server_multiplier, server_public, server_scrambler, server_key, expected_m1, server_m2,
  ServerSide, serve,
}

abbrev below : ℕ
below = modulus - 1

modulus_fits : modulus < word_limit modulus_bytes
unfolding word_limit
modulus_fits = omega arith

pub pad_fits : (n : ℕ) → n < suc modulus → pad n ≡ ok (padded n)
unfolding pad
pad_fits n h = to_bytes_fits n modulus_bytes (omega (arith, modulus_fits))

pub from_bytes-padded : (n : ℕ) → n < suc modulus → from_bytes (padded n) ≡ n
from_bytes-padded n h = from_bytes-pack_be modulus_bytes n (omega (arith, h, modulus_fits))

pub pow_mod_fits : (b e : ℕ) → pow_mod b e modulus < suc modulus
unfolding pow_mod
pow_mod_fits b e = omega arith

-- minimal never raises OverflowError, and what it returns reads back as the number.
pub from_bytes-minimal : (n : ℕ) → (b : Bytes) × (minimal n ≡ ok b) × (from_bytes b ≡ n)
unfolding minimal
from_bytes-minimal n = (
  pack_be (byte_length n) n,
  to_bytes_fits n (byte_length n) (fits_byte_length n),
  from_bytes-pack_be (byte_length n) n (fits_byte_length n),
)

abbrev sent : ℕ → Bytes
sent a_public = pack_be (byte_length a_public) a_public

minimal_sent : (n : ℕ) → minimal n ≡ ok (sent n)
unfolding minimal
minimal_sent n = to_bytes_fits n (byte_length n) (fits_byte_length n)

small-mod : (n : ℕ) → n < modulus → n ≢ 0 → (n % modulus == 0) ≡ false
small-mod n low pos = rw (mod-eq_of_lt low) (ground arith)

-- What a login leaves with the client, against the server's side of it.
pub record LoggedIn (r : ServerSide) (result : Result Text × SrpSession) : Type 0 where
  pub proof : result.0 ≡ ok (to_hex r.m1)
  pub accepted : verify_server result.1 (to_hex r.m2) ≡ true
  pub key : session_key_hex result.1 ≡ ok (to_hex r.key)

module _ (h : Hashes) where
  multiplier_lem : multiplier h ≡ ok (server_multiplier h)
  unfolding multiplier server_multiplier
  multiplier_lem = rw (pad_fits modulus (omega arith), pad_fits generator (omega arith))

  scrambler_lem :
      (m n : ℕ) → m < suc modulus → n < suc modulus → scrambler h m n ≡ ok (server_scrambler h m n)
  unfolding scrambler server_scrambler
  scrambler_lem m n hm hn = rw (pad_fits m hm, pad_fits n hn)

  proof_of_lem :
      (username : Text) (salt a_bytes b_bytes key : Bytes)
      → proof_of h username salt a_bytes b_bytes key
        ≡ ok (record {
          k = key;
          m = expected_m1 h username salt a_bytes b_bytes key;
          hamk = server_m2 h a_bytes (expected_m1 h username salt a_bytes b_bytes key) key;
        })
  unfolding proof_of expected_m1 server_m2
  proof_of_lem username salt a_bytes b_bytes key = rw (pad_fits modulus (omega arith))

  server_public-lt : (v b : ℕ) → server_public h v b < modulus
  unfolding server_public
  server_public-lt v b = omega arith

  -- The client's secret is the server's.
  same_secret :
      (x a b u a_public : ℕ)
      → a_public ≡ pow_mod generator a modulus
      → let v = pow_mod generator x modulus in
        pad (
          pow_mod
            (sub_mod (server_public h v b) (server_multiplier h * v) modulus)
            (a + u * x)
            modulus)
        ≡ ok (padded (pow_mod (a_public * pow_mod v u modulus) b modulus))
  unfolding server_public
  same_secret x a b u a_public own =
      let v = pow_mod generator x modulus in
      ap (λ t. pad t)
        (shared_secret_agrees generator below (server_multiplier h) x a b u
          ∙ ap (λ t. pow_mod (t * pow_mod v u modulus) b modulus) (sym own))
      ∙ pad_fits _ (pow_mod_fits (a_public * pow_mod v u modulus) b)

  -- The steps of the client, on what an honest server sends.
  answer_lem :
      (s : SrpSession) (salt : Bytes) (b : ℕ)
      → s.a_public ≡ pow_mod generator s.a modulus
      → IsBytes salt
      → let v = pow_mod generator (private_value h s.username s.password salt) modulus in
        let b_public = server_public h v b in
        let u = server_scrambler h s.a_public b_public in
        let key = server_key h s.a_public v b u in
        let m1 = expected_m1 h s.username salt (sent s.a_public) (padded b_public) key in
        b_public ≢ 0
        → u ≢ 0
        → answer h s (to_hex salt) (to_hex (padded b_public))
          ≡ ok (record { k = key; m = m1; hamk = server_m2 h (sent s.a_public) m1 key })
  unfolding answer server_key
  answer_lem s salt b own bytes live mixed =
      let x = private_value h s.username s.password salt in
      let v = pow_mod generator x modulus in
      let b_public = server_public h v b in
      let u = server_scrambler h s.a_public b_public in
      let low : b_public < modulus = server_public-lt v b in
      let a_low : s.a_public < suc modulus = omega (arith, own, pow_mod_fits generator s.a) in
      let mixed_test : (u == 0) ≡ false = ground arith in
      rw
        (
          from_hex-to_hex (padded b_public) (pack_be-IsBytes modulus_bytes b_public),
          from_bytes-padded b_public (omega arith),
          small-mod b_public low live,
          scrambler_lem s.a_public b_public a_low (omega arith),
          mixed_test,
          from_hex-to_hex salt bytes,
          multiplier_lem,
          same_secret x s.a b u s.a_public own,
          minimal_sent s.a_public,
        )
        (proof_of_lem s.username salt (sent s.a_public) (padded b_public) _)

  verifier_read :
      (username password : Text) (salt : Bytes) {verifier : Bytes}
      → create_srp_verifier h username password salt ≡ ok verifier
      → from_bytes verifier ≡ pow_mod generator (private_value h username password salt) modulus
  unfolding create_srp_verifier
  verifier_read username password salt {verifier} e =
      let v = pow_mod generator (private_value h username password salt) modulus in
      let low = pow_mod_fits generator (private_value h username password salt) in
      let same : padded v ≡ verifier = cc (pad_fits v low) in rw (← same) (from_bytes-padded v low)

  a_sent :
      (s : SrpSession) {a_bytes : Bytes}
      → (a_hex s >>= from_hex) ≡ ok a_bytes
      → sent s.a_public ≡ a_bytes
  unfolding a_hex
  a_sent s e =
      let read =
        from_hex-to_hex (sent s.a_public) (pack_be-IsBytes (byte_length s.a_public) s.a_public) in
      ground (arith, minimal_sent s.a_public, read)

  settled :
      (laws : HashLaws h) (s : SrpSession) (a_bytes m1 key : Bytes)
      → let m2 = server_m2 h a_bytes m1 key in
        let result = settle s (ok (record { k = key; m = m1; hamk = m2 })) in
        (result.0 ≡ ok (to_hex m1))
        × (verify_server result.1 (to_hex m2) ≡ true)
        × (session_key_hex result.1 ≡ ok (to_hex key))
  unfolding settle verify_server session_key_hex server_m2
  settled laws s a_bytes m1 key =
      let m2 = h.sha256 (a_bytes ++ (m1 ++ key)) in
      (
        refl,
        rw (from_hex-to_hex m2 (laws.sha256_bytes (a_bytes ++ (m1 ++ key))))
            ((list_beq_iff m2 m2).1 refl),
        refl,
      )

  answer_agrees :
      (s : SrpSession) (salt : Bytes) (b : ℕ) (verifier a_bytes : Bytes)
      → s.a_public ≡ pow_mod generator s.a modulus
      → from_bytes verifier ≡ pow_mod generator (private_value h s.username s.password salt) modulus
      → sent s.a_public ≡ a_bytes
      → from_bytes a_bytes ≡ s.a_public
      → IsBytes salt
      → let r = serve h s.username salt verifier b a_bytes in
        r.b_public ≢ 0
        → r.u ≢ 0
        → answer h s (to_hex salt) (to_hex (padded r.b_public))
          ≡ ok (record { k = r.key; m = r.m1; hamk = r.m2 })
  unfolding serve
  answer_agrees s salt b verifier a_bytes own stored sent_a read_a bytes live mixed =
      rw (stored, read_a)
        (rw (← sent_a)
          (answer_lem s salt b own bytes (rw stored at live) (rw (read_a, stored) at mixed)))

  -- Registration and login: if the server stored the verifier that was made for a salt of bytes
  -- and a password, and reads A from A_hex, and neither its B nor its u is 0, then a session that
  -- is given that password answers the server's challenge with the proof M1 that the server
  -- expects, accepts the server's proof M2, and its session key is the server's.
  pub login_agrees :
      (laws : HashLaws h) (username password : Text) (salt drawn : Bytes) (b : ℕ)
      {verifier a_bytes : Bytes}
      → create_srp_verifier h username password salt ≡ ok verifier
      → let s = set_password password (new_session username [] drawn) in
        let r = serve h username salt verifier b a_bytes in
        (a_hex s >>= from_hex) ≡ ok a_bytes
        → IsBytes salt
        → r.b_public ≢ 0
        → r.u ≢ 0
        → LoggedIn r (process_challenge h s (to_hex salt) (to_hex (padded r.b_public)))
  unfolding serve set_password new_session process_challenge
  login_agrees laws username password salt drawn b {verifier} {a_bytes} made read bytes live mixed =
      let s = set_password password (new_session username [] drawn) in
      let r = serve h username salt verifier b a_bytes in
      let sent_a = a_sent s read in
      let read_a : from_bytes a_bytes ≡ s.a_public =
        rw (← sent_a)
          (from_bytes-pack_be (byte_length s.a_public) s.a_public (fits_byte_length s.a_public)) in
      let answered =
        answer_agrees s salt b verifier a_bytes refl (verifier_read username password salt made)
          sent_a read_a bytes live mixed in
      let (proof, accepted, key) = settled laws s a_bytes r.m1 r.key in
      rw answered (record { proof = proof; accepted = accepted; key = key })
