-- ===== src/Srp.antt =====
-- core/srp_session.py: the client of an SRP-6a login, and the verifier that
-- `_create_srp_verifier` of crypto_service.py makes for a registration. The bytes that `os.urandom`
-- draws are an argument. A method returns its result or exception and the session.
pub mod Arith
pub mod Server
pub mod Laws
pub mod Refusals
use Prim.Native.Nat.{bit_xor}
use desperate.Prelude.{
  ℕ, zero, ◌+◌, ◌*◌, ◌%◌, ◌^◌, Bool, true, false, Option, none, some, List, [], ◌∷◌, ◌++◌, ◌==◌,
  nat_eq, list_beq,
}
use desperate.Outcome.{
  Result, ok, err, value_error, bad_challenge, zero_scrambler, not_completed, reject, ◌>>=◌, ◌>>◌,
}
use desperate.Codec.Words.{Bytes}
use desperate.Codec.Numbers.{from_bytes, to_bytes, byte_length}
use desperate.Codec.Hex.{Text, to_hex, from_hex}
use desperate.Codec.Utf8.{encode}
use desperate.Codec.Ascii.{ascii}
use desperate.Crypto.{Hashes}
use desperate.Srp.Arith.{pow_mod, sub_mod}

-- the rows of `_N_HEX`, 48 digits each
abbrev pub modulus_rows : List ℕ
modulus_rows =
    0xFFFFFFFFFFFFFFFFC90FDAA22168C234C4C6628B80DC1CD1
    ∷ 0x29024E088A67CC74020BBEA63B139B22514A08798E3404DD
    ∷ 0xEF9519B3CD3A431B302B0A6DF25F14374FE1356D6D51C245
    ∷ 0xE485B576625E7EC6F44C42E9A637ED6B0BFF5CB6F406B7ED
    ∷ 0xEE386BFB5A899FA5AE9F24117C4B1FE649286651ECE45B3D
    ∷ 0xC2007CB8A163BF0598DA48361C55D39A69163FA8FD24CF5F
    ∷ 0x83655D23DCA3AD961C62F356208552BB9ED529077096966D
    ∷ 0x670C354E4ABC9804F1746C08CA18217C32905E462E36CE3B
    ∷ 0xE39E772C180E86039B2783A2EC07A28FB5C55DF06F4C52C9
    ∷ 0xDE2BCBF6955817183995497CEA956AE515D2261898FA0510
    ∷ 0x15728E5A8AAAC42DAD33170D04507A33A85521ABDF1CBA64
    ∷ 0xECFB850458DBEF0A8AEA71575D060C7DB3970F85A6E1E4C7
    ∷ 0xABF5AE8CDB0933D71E8C94E04A25619DCEE3D2261AD2EE6B
    ∷ 0xF12FFA06D98A0864D87602733EC86A64521F2B18177B200C
    ∷ 0xBBE117577A615D6C770988C0BAD946E208E24FA074E5AB31
    ∷ 0x43DB5BFCE0FD108E4B82D120A93AD2CAFFFFFFFFFFFFFFFF ∷ []

abbrev pub join_rows : ℕ → List ℕ → ℕ
join_rows acc [] = acc
join_rows acc (row ∷ rows) = join_rows (acc * 2 ^ 192 + row) rows

-- _N, _g and _N_BYTES
abbrev pub modulus : ℕ
modulus = join_rows 0 modulus_rows

abbrev pub generator : ℕ
generator = 5

abbrev pub modulus_bytes : ℕ
modulus_bytes = 384

unfoldable pub pad : ℕ → Result Bytes
pad n = to_bytes n modulus_bytes

unfoldable pub minimal : ℕ → Result Bytes
minimal n = to_bytes n (byte_length n)

-- bytes(a ^ b for a, b in zip(xs, ys))
unfoldable pub xor_bytes : Bytes → Bytes → Bytes
xor_bytes (x ∷ xs) (y ∷ ys) = bit_xor x y ∷ xor_bytes xs ys
xor_bytes _ _ = []

pub record SrpSession : Type 0 where
  pub username : Text
  pub password : Text
  pub a : ℕ
  pub a_public : ℕ
  pub k : Option Bytes
  pub hamk : Option Bytes

-- What `process_challenge` computes: K, M and HAMK.
pub record Proof : Type 0 where
  pub k : Bytes
  pub m : Bytes
  pub hamk : Bytes

unfoldable pub set_password : Text → SrpSession → SrpSession
set_password password s = record s { password = password }

unfoldable pub same_bytes : Bytes → Result Bytes → Bool
same_bytes hamk (ok m2) = list_beq hamk m2
same_bytes hamk (err e) = false

unfoldable pub verify_server : SrpSession → Text → Bool
unfolding same_bytes
verify_server s m2_hex = elim s.hamk [
  | none ↦ false
  | some hamk ↦ same_bytes hamk (from_hex m2_hex)
]

unfoldable pub session_key_hex : SrpSession → Result Text
session_key_hex s = elim s.k [ none ↦ err (value_error not_completed) | some k ↦ ok (to_hex k) ]

unfoldable pub a_hex : SrpSession → Result Text
a_hex s = do a_bytes ← minimal s.a_public; ok (to_hex a_bytes)

-- SrpSession(username, password)
unfoldable pub new_session : Text → Text → Bytes → SrpSession
new_session username password a_bytes =
    let a = from_bytes a_bytes in
    record {
      username = username;
      password = password;
      a = a;
      a_public = pow_mod generator a modulus;
      k = none;
      hamk = none;
    }

-- the assignments of `process_challenge`, and its result
unfoldable pub settle : SrpSession → Result Proof → Result Text × SrpSession
settle s (err e) = (err e, s)
settle s (ok p) = (ok (to_hex p.m), record s { k = some p.k; hamk = some p.hamk })

module _ (h : Hashes) where
  -- _k
  unfoldable pub multiplier : Result ℕ
  multiplier = do
    n_bytes ← pad modulus
    g_bytes ← pad generator
    ok (from_bytes (h.sha256 (n_bytes ++ g_bytes)))

  -- x = H(salt || H(I:p))
  unfoldable pub private_value : Text → Text → Bytes → ℕ
  private_value username password salt =
      from_bytes (h.sha256 (salt ++ h.sha256 (encode (username ++ (58 ∷ password)))))

  unfoldable pub create_srp_verifier : Text → Text → Bytes → Result Bytes
  create_srp_verifier username srp_pass_hex salt =
      pad (pow_mod generator (private_value username srp_pass_hex salt) modulus)

  -- u = H(PAD(A) || PAD(B))
  unfoldable pub scrambler : ℕ → ℕ → Result ℕ
  scrambler a_public b_public = do
    a_padded ← pad a_public
    b_padded ← pad b_public
    ok (from_bytes (h.sha256 (a_padded ++ b_padded)))

  -- M and HAMK, of the salt, the parties' values as they were sent, and K
  unfoldable pub proof_of : Text → Bytes → Bytes → Bytes → Bytes → Result Proof
  proof_of username salt a_bytes b_bytes k = do
    n_bytes ← pad modulus
    let hn_x_hg = xor_bytes (h.sha256 n_bytes) (h.sha256 (generator ∷ []))
    let hi = h.sha256 (encode username)
    let m = h.sha256 (hn_x_hg ++ (hi ++ (salt ++ (a_bytes ++ (b_bytes ++ k)))))
    ok (record { k = k; m = m; hamk = h.sha256 (a_bytes ++ (m ++ k)) })

  -- The steps of `process_challenge`, up to the assignments. No step behind that of K raises.
  unfoldable pub answer : SrpSession → Text → Text → Result Proof
  answer s salt_hex b_hex = do
    b_bytes ← from_hex b_hex
    let b_public = from_bytes b_bytes
    reject (b_public % modulus == 0) (value_error bad_challenge)
    u ← scrambler s.a_public b_public
    reject (u == 0) (value_error zero_scrambler)
    salt ← from_hex salt_hex
    let x = private_value s.username s.password salt
    k ← multiplier
    let base = sub_mod b_public (k * pow_mod generator x modulus) modulus
    secret ← pad (pow_mod base (s.a + u * x) modulus)
    a_bytes ← minimal s.a_public
    proof_of s.username salt a_bytes b_bytes (h.sha256 secret)

  unfoldable pub process_challenge : SrpSession → Text → Text → Result Text × SrpSession
  process_challenge s salt_hex b_hex = settle s (answer s salt_hex b_hex)
