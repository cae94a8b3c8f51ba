-- ===== src/Ratchet/Adapters.antt =====
-- core/dh_ratchet: what the doubleratchet package is given, `X25519Ratchet` (dh_ratchet.py), and
-- `_RatchetAEAD` and the associated data of `_DR` (session.py). A nonce or a key that is drawn is an
-- argument.
use desperate.Prelude.{
  ℕ, zero, suc, ◌%◌, ◌/◌, ◌≡◌, refl, ap, sym, ◌∙◌, arith, inl, inr, [], ◌∷◌, ◌++◌, length, take,
  drop, length-append, take-append, drop-append, ltb, if◌then◌else◌, nat_eq, list_eq,
}
use desperate.Outcome.{Result, ok, err, struct_error, ◌>>=◌, Result-cases}
use desperate.Codec.Words.{Bytes, u32_limit, word_limit}
use desperate.Codec.Numbers.{pack_be, from_bytes, from_bytes-pack_be}
use desperate.Constants.{nonce_len}
use desperate.Crypto.{Cipher, CipherLaws, Agreement, AgreementLaws}
use desperate.Ratchet.{Header}

-- struct.pack(">I", n)
unfoldable pub pack_be_u32 : ℕ → Result Bytes
pack_be_u32 n = if ltb n u32_limit then ok (pack_be 4 n) else err struct_error

-- _DR._build_associated_data
unfoldable pub build_associated_data : Bytes → Header → Result Bytes
build_associated_data associated_data header = do
  size ← pack_be_u32 (length associated_data)
  pn ← pack_be_u32 header.previous_sending_chain_length
  n ← pack_be_u32 header.sending_chain_length
  ok (size ++ (associated_data ++ (header.ratchet_pub ++ (pn ++ n))))

-- _RatchetAEAD
unfoldable pub aead_encrypt : Cipher → Bytes → Bytes → Bytes → Bytes → Result Bytes
aead_encrypt c nonce plaintext key associated_data = do
  ct ← c.encrypt key nonce plaintext associated_data
  ok (nonce ++ ct)

unfoldable pub aead_decrypt : Cipher → Bytes → Bytes → Bytes → Result Bytes
aead_decrypt c ciphertext key associated_data =
    c.decrypt key (take 12 ciphertext) (drop 12 ciphertext) associated_data

module _ (x : Agreement) where
  -- X25519Ratchet._derive_pub
  unfoldable pub derive_pub : Bytes → Result Bytes
  derive_pub priv = do key ← x.from_private_bytes priv; ok (x.public key)

  -- X25519Ratchet._generate_key_pair, for the private key drawn
  unfoldable pub generate_key_pair : Bytes → Result (Bytes × Bytes)
  generate_key_pair priv = do pub_key ← derive_pub priv; ok (pub_key, priv)

  -- X25519Ratchet._perform_diffie_hellman
  unfoldable pub perform_diffie_hellman : Bytes → Bytes → Result Bytes
  perform_diffie_hellman own_priv other_pub = do
    priv ← x.from_private_bytes own_priv
    x.exchange priv other_pub

length-pack_be : (w n : ℕ) → length (pack_be w n) ≡ w
unfolding pack_be
length-pack_be zero n = refl
length-pack_be (suc w) n =
    omega (arith, length-append (pack_be w (n / 256)) ((n % 256) ∷ []), length-pack_be w (n / 256))

-- Lists that are equal and whose first parts are as long have the same parts.
same_parts : (a b c d : Bytes) → length a ≡ length b → a ++ c ≡ b ++ d → (a ≡ b) × (c ≡ d)
same_parts a b c d size e = (
  sym (take-append (length b) a c size)
      ∙ ap (λ t. take (length b) t) e
      ∙ take-append (length b) b d refl,
  sym (drop-append (length b) a c size)
      ∙ ap (λ t. drop (length b) t) e
      ∙ drop-append (length b) b d refl,
)

-- A packed number is read back.
packed : (n : ℕ) {b : Bytes} → pack_be_u32 n ≡ ok b → (length b ≡ 4) × (from_bytes b ≡ n)
unfolding pack_be_u32 word_limit
packed n e = ground (arith, length-pack_be 4 n, from_bytes-pack_be 4 n)

-- The parts of what build_associated_data returns.
record Built (associated_data : Bytes) (header : Header) (b : Bytes) : Type 0 where
  size : Bytes
  pn : Bytes
  n : Bytes
  of_size : pack_be_u32 (length associated_data) ≡ ok size
  of_pn : pack_be_u32 header.previous_sending_chain_length ≡ ok pn
  of_n : pack_be_u32 header.sending_chain_length ≡ ok n
  whole : b ≡ size ++ (associated_data ++ (header.ratchet_pub ++ (pn ++ n)))

built :
    (associated_data : Bytes) (header : Header) {b : Bytes}
    → build_associated_data associated_data header ≡ ok b
    → Built associated_data header b
unfolding build_associated_data
built associated_data header e = elim (Result-cases (pack_be_u32 (length associated_data))) [
  | inl (size, q1) ↦ elim (Result-cases (pack_be_u32 header.previous_sending_chain_length)) [
    | inl (pn, q2) ↦ elim (Result-cases (pack_be_u32 header.sending_chain_length)) [
      | inl (n, q3) ↦ record {
        size = size;
        pn = pn;
        n = n;
        of_size = q1;
        of_pn = q2;
        of_n = q3;
        whole = ground arith;
      }
      | inr (x, q) ↦ absurd (ground arith)
    ]
    | inr (x, q) ↦ absurd (ground arith)
  ]
  | inr (x, q) ↦ absurd (ground arith)
]

-- If two ratchet public keys have 32 bytes, then two calls of _build_associated_data that return
-- the same bytes were given the same associated data and the same header.
pub build_associated_data_injective :
    (associated_data other : Bytes) (h k : Header) {b : Bytes}
    → length h.ratchet_pub ≡ 32
    → length k.ratchet_pub ≡ 32
    → build_associated_data associated_data h ≡ ok b
    → build_associated_data other k ≡ ok b
    → (associated_data ≡ other) × (h ≡ k)
build_associated_data_injective associated_data other h k hs ks e f =
    let x = built associated_data h e in
    let y = built other k f in
    let (x1, x2) = packed _ x.of_size in
    let (y1, y2) = packed _ y.of_size in
    let (x3, x4) = packed _ x.of_pn in
    let (y3, y4) = packed _ y.of_pn in
    let (x5, x6) = packed _ x.of_n in
    let (y5, y6) = packed _ y.of_n in
    let (sizes, r1) = same_parts _ _ _ _ (x1 ∙ sym y1) (sym x.whole ∙ y.whole) in
    let (ads, r2) = same_parts _ _ _ _ (sym x2 ∙ ap from_bytes sizes ∙ y2) r1 in
    let (pubs, r3) = same_parts _ _ _ _ (hs ∙ sym ks) r2 in
    let (pns, ns) = same_parts _ _ _ _ (x3 ∙ sym y3) r3 in
    (ads, header_ext h k pubs (sym x4 ∙ ap from_bytes pns ∙ y4) (sym x6 ∙ ap from_bytes ns ∙ y6))
  where
    header_ext :
        (h k : Header)
        → h.ratchet_pub ≡ k.ratchet_pub
        → h.previous_sending_chain_length ≡ k.previous_sending_chain_length
        → h.sending_chain_length ≡ k.sending_chain_length
        → h ≡ k
    header_ext h k p q r i = record {
      ratchet_pub = p i;
      previous_sending_chain_length = q i;
      sending_chain_length = r i;
    }

-- What was encrypted with a nonce of 12 bytes is decrypted.
pub aead_decrypt-aead_encrypt :
    (c : Cipher) (laws : CipherLaws c) (nonce plaintext key ad : Bytes) {ct : Bytes}
    → length nonce ≡ nonce_len
    → aead_encrypt c nonce plaintext key ad ≡ ok ct
    → aead_decrypt c ct key ad ≡ ok plaintext
unfolding aead_encrypt aead_decrypt
aead_decrypt-aead_encrypt c laws nonce plaintext key ad size e =
    elim (Result-cases (c.encrypt key nonce plaintext ad)) [
      | inl (t, q) ↦
          let back = laws.decrypt-encrypt _ _ _ _ q in
          ground (arith, take-append 12 nonce t size, drop-append 12 nonce t size)
      | inr (x, q) ↦ absurd (ground arith)
    ]

-- Two key pairs that were generated from 32 bytes give both parties the same secret.
pub perform_diffie_hellman_comm :
    (x : Agreement) (laws : AgreementLaws x) (a b a_pub b_pub : Bytes)
    → length a ≡ 32
    → length b ≡ 32
    → generate_key_pair x a ≡ ok (a_pub, a)
    → generate_key_pair x b ≡ ok (b_pub, b)
    → perform_diffie_hellman x a b_pub ≡ perform_diffie_hellman x b a_pub
unfolding generate_key_pair derive_pub perform_diffie_hellman
perform_diffie_hellman_comm x laws a b a_pub b_pub ha hb e f =
    let fits_a = laws.from_private_bytes_fits a ha in
    let fits_b = laws.from_private_bytes_fits b hb in
    let same = laws.exchange_comm a b ha hb in ground arith
