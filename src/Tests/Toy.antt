-- ===== src/Tests/Toy.antt =====
-- Functions that keep the laws of the cryptographic packages and are easy to run. They are not secure.
use desperate.Prelude.{
  ℕ, zero, suc, ◌+◌, ◌-◌, ◌%◌, ◌<◌, ◌≡◌, refl, ap, ◌∙◌, arith, [], ◌∷◌, ◌++◌, length, take,
  replicate, All-append, length-append, length-take, length-replicate, take-append, take-append,
  list_beq, list_beq_iff, list_eq, nat_eq, if◌then◌else◌, ◌==◌,
}
use desperate.Outcome.{Result, ok, err, value_error, library}
use desperate.Codec.Words.{Bytes, IsBytes}
use desperate.Constants.{
  dsa_public_key_len, dsa_signature_len, ed25519_public_key_len, ed25519_signature_len,
}
use desperate.Crypto.{
  Hashes, HashLaws, Cipher, CipherLaws, Agreement, AgreementLaws, Kem, KemLaws, Signer, SignerLaws,
}
use desperate.Suite.{Suite, SuiteLaws}

-- The first `n` bytes, filled up with zeros.
unfoldable pub fit : ℕ → Bytes → Bytes
fit n b = take n (b ++ replicate n 0)

length-fit : (n : ℕ) (b : Bytes) → length (fit n b) ≡ n
unfolding fit
length-fit n b = omega (
  arith,
  length-take n (b ++ replicate n 0),
  length-append b (replicate n 0),
  length-replicate {A = ℕ} n 0,
)

pub replicate-IsBytes : (n b : ℕ) → b < 256 → IsBytes (replicate n b)
replicate-IsBytes zero b h = tt
replicate-IsBytes (suc n) b h = (h, replicate-IsBytes n b h)

take-IsBytes : (n : ℕ) (l : Bytes) → IsBytes l → IsBytes (take n l)
take-IsBytes zero l h = tt
take-IsBytes (suc n) [] h = tt
take-IsBytes (suc n) (b ∷ l) h = (h.0, take-IsBytes n l h.1)

pub fit-IsBytes : (n : ℕ) (b : Bytes) → IsBytes b → IsBytes (fit n b)
unfolding fit
fit-IsBytes n b h =
    take-IsBytes n (b ++ replicate n 0)
      (All-append _ b (replicate n 0) h (replicate-IsBytes n 0 (omega arith)))

abbrev pub hashes : Hashes
hashes = record {
  hkdf = λ ikm salt info n. ok (fit n (salt ++ ikm));
  argon2id = λ password salt t m lanes n. ok (fit n (salt ++ password));
  sha256 = λ message. (length message % 7 + 1) ∷ [];
}

fit_ok : (n : ℕ) (b : Bytes) {k : Bytes} → ok (fit n b) ≡ ok k → length k ≡ n
fit_ok n b e = ground (arith, length-fit n b)

pub hash_laws : HashLaws hashes
hash_laws = record {
  hkdf_length = λ ikm salt info n e. fit_ok n (salt ++ ikm) e;
  hkdf_total = λ ikm salt info n low high. (fit n (salt ++ ikm), refl);
  sha256_bytes = λ message. (omega arith, tt);
}

abbrev tag : Bytes
tag = replicate 16 7

abbrev unsealed : Bytes → Bytes
unsealed ct = take (length ct - 16) ct

abbrev pub cipher : Cipher
cipher = record { encrypt = λ k n p a. ok (p ++ tag); decrypt = λ k n ct a. ok (unsealed ct) }

sealed-length : (p : Bytes) {ct : Bytes} → ok (p ++ tag) ≡ ok ct → length ct ≡ length p + 16
sealed-length p e = ground (arith, length-append p tag)

unsealed-sealed : (p : Bytes) {ct : Bytes} → ok (p ++ tag) ≡ ok ct → ok (unsealed ct) ≡ ok p
unsealed-sealed p {ct} e =
    let same : p ++ tag ≡ ct = ground arith in
    let size : length p ≡ length (p ++ tag) - 16 = omega (arith, length-append p tag) in
    rw (← same) (ap ok (take-append (length (p ++ tag) - 16) p tag size))

pub cipher_laws : CipherLaws cipher
cipher_laws = record {
  encrypt_length = λ k n p a e. sealed-length p e;
  decrypt-encrypt = λ k n p a e. unsealed-sealed p e;
}

unfoldable pub reduced : Bytes → Bytes
reduced [] = []
reduced (b ∷ bs) = (b % 256) ∷ reduced bs

length-reduced : (b : Bytes) → length (reduced b) ≡ length b
unfolding reduced
length-reduced [] = refl
length-reduced (b ∷ bs) = ap suc (length-reduced bs)

pub reduced-IsBytes : (b : Bytes) → IsBytes (reduced b)
unfolding reduced
reduced-IsBytes [] = tt
reduced-IsBytes (b ∷ bs) = (omega arith, reduced-IsBytes bs)

unfoldable pub sum : Bytes → ℕ
sum [] = 0
sum (b ∷ bs) = b + sum bs

abbrev whole_key : Bytes → Result Bytes
whole_key b = if length b == 32 then ok b else err (value_error library)

abbrev public_of : Bytes → Bytes
public_of a = reduced (fit 32 a)

abbrev pub agreement : Agreement
agreement = record {
  from_private_bytes = λ b. whole_key b;
  public = λ a. public_of a;
  exchange = λ a p. ok (fit 32 ((sum (public_of a) + sum p) ∷ []));
}

pub agreement_laws : AgreementLaws agreement
agreement_laws = record {
  from_private_bytes_fits = λ a h. ground arith;
  exchange_comm = λ a b ha hb.
      let same : sum (public_of a) + sum (public_of b) ≡ sum (public_of b) + sum (public_of a) =
        omega arith in
      ap (λ n. ok (fit 32 (n ∷ []))) same;
  public_length = λ a h. length-reduced (fit 32 a) ∙ length-fit 32 a;
  public_bytes = λ a. reduced-IsBytes (fit 32 a);
}

abbrev pub kem : Kem
kem = record {
  keypair = λ seed. (seed, seed);
  encap = λ public coins. ok (coins, coins);
  decap = λ secret ct. ok ct;
}

same_pair : (coins ct ss : Bytes) → kem.encap coins coins ≡ ok (ct, ss) → kem.decap coins ct ≡ ok ss
same_pair coins ct ss e = ground arith

pub kem_laws : KemLaws kem
kem_laws = record { decap-encap = λ seed coins {ct} {ss} e. same_pair coins ct ss e }

-- A signature is the message, cut to its size.
abbrev pub signer : ℕ → ℕ → Signer
signer public_size signature_size = record {
  keypair = λ seed. (fit public_size seed, seed);
  sign = λ secret message. fit signature_size message;
  verify = λ public message signature. ok (list_beq signature (fit signature_size message));
}

pub signer_laws : (p g : ℕ) → SignerLaws p g (signer p g)
signer_laws p g = record {
  verify-sign = λ seed message. ap ok ((list_beq_iff (fit g message) (fit g message)).1 refl);
  public_length = λ seed. length-fit p seed;
  signature_length = λ secret message. length-fit g message;
}

abbrev pub suite : Suite
suite = record {
  hashes = hashes;
  cipher = cipher;
  x25519 = agreement;
  kem = kem;
  ed25519 = signer ed25519_public_key_len ed25519_signature_len;
  dsa = signer dsa_public_key_len dsa_signature_len;
}

pub suite_laws : SuiteLaws suite
suite_laws = record {
  hashes = hash_laws;
  cipher = cipher_laws;
  x25519 = agreement_laws;
  kem = kem_laws;
  ed25519 = signer_laws ed25519_public_key_len ed25519_signature_len;
  dsa = signer_laws dsa_public_key_len dsa_signature_len;
}
