-- ===== src/Srp/Server.antt =====
-- The server's half of a login, as RFC 5054 and the comment of core/srp_session.py describe it: what
-- the client is compared with. The repository's own server is JavaScript and calls a package.
use desperate.Prelude.{ℕ, ◌+◌, ◌*◌, ◌%◌, [], ◌∷◌, ◌++◌}
use desperate.Codec.Words.{Bytes}
use desperate.Codec.Numbers.{from_bytes, pack_be}
use desperate.Codec.Hex.{Text}
use desperate.Codec.Utf8.{encode}
use desperate.Crypto.{Hashes}
use desperate.Srp.Arith.{pow_mod}
use desperate.Srp.{modulus, generator, modulus_bytes, xor_bytes}

abbrev pub padded : ℕ → Bytes
padded n = pack_be modulus_bytes n

module _ (h : Hashes) where
  unfoldable pub server_multiplier : ℕ
  server_multiplier = from_bytes (h.sha256 (padded modulus ++ padded generator))

  -- B, of the stored verifier and the server's secret
  unfoldable pub server_public : ℕ → ℕ → ℕ
  server_public verifier b = (server_multiplier * verifier + pow_mod generator b modulus) % modulus

  unfoldable pub server_scrambler : ℕ → ℕ → ℕ
  server_scrambler a_public b_public = from_bytes (h.sha256 (padded a_public ++ padded b_public))

  -- K, of A, the verifier, the server's secret and u
  unfoldable pub server_key : ℕ → ℕ → ℕ → ℕ → Bytes
  server_key a_public verifier b u =
      h.sha256 (padded (pow_mod (a_public * pow_mod verifier u modulus) b modulus))

  -- the proof that the client must send, of I, the salt, A and B as sent, and K
  unfoldable pub expected_m1 : Text → Bytes → Bytes → Bytes → Bytes → Bytes
  expected_m1 username salt a_bytes b_bytes key = h.sha256 (
      xor_bytes (h.sha256 (padded modulus)) (h.sha256 (generator ∷ []))
      ++ (h.sha256 (encode username) ++ (salt ++ (a_bytes ++ (b_bytes ++ key)))))

  -- the server's own proof
  unfoldable pub server_m2 : Bytes → Bytes → Bytes → Bytes
  server_m2 a_bytes m1 key = h.sha256 (a_bytes ++ (m1 ++ key))

-- What the server sends and expects in one login.
pub record ServerSide : Type 0 where
  pub b_public : ℕ
  pub u : ℕ
  pub key : Bytes
  pub m1 : Bytes
  pub m2 : Bytes

-- The server's run: user name, salt and verifier as stored, its secret, and A as it came.
unfoldable pub serve : Hashes → Text → Bytes → Bytes → ℕ → Bytes → ServerSide
serve h username salt verifier b a_bytes =
    let v = from_bytes verifier in
    let a_public = from_bytes a_bytes in
    let b_public = server_public h v b in
    let u = server_scrambler h a_public b_public in
    let key = server_key h a_public v b u in
    let m1 = expected_m1 h username salt a_bytes (padded b_public) key in
    record { b_public = b_public; u = u; key = key; m1 = m1; m2 = server_m2 h a_bytes m1 key }
