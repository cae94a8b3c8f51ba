-- ===== src/Codec/Utf8.antt =====
-- `str.encode("utf-8")`. A lone surrogate, which `encode` refuses, is outside the model.
use desperate.Prelude.{
  ℕ, ◌+◌, ◌/◌, ◌%◌, ◌<◌, ◌≡◌, refl, sym, [], ◌∷◌, ◌++◌, arith, All, ltb, if◌then◌else◌,
}
use desperate.Codec.Words.{Bytes}
use desperate.Codec.Hex.{Text}

abbrev pub IsText : Text → Type 0
IsText = All (λ c. c < 0x110000)

unfoldable pub encode_char : ℕ → Bytes
encode_char c =
    if ltb c 0x80
    then c ∷ []
    else if ltb c 0x800
    then (0xc0 + c / 64) ∷ (0x80 + c % 64) ∷ []
    else if ltb c 0x10000
    then (0xe0 + c / 4096) ∷ (0x80 + c / 64 % 64) ∷ (0x80 + c % 64) ∷ []
    else (0xf0 + c / 262144) ∷ (0x80 + c / 4096 % 64) ∷ (0x80 + c / 64 % 64) ∷ (0x80 + c % 64) ∷ []

unfoldable pub encode : Text → Bytes
encode [] = []
encode (c ∷ cs) = encode_char c ++ encode cs

-- The first bytes tell the first character, and where the rest begins.
encode_char_injective :
    (c d : ℕ) (xs ys : Bytes)
    → c < 0x110000
    → d < 0x110000
    → encode_char c ++ xs ≡ encode_char d ++ ys
    → (c ≡ d) × (xs ≡ ys)
unfolding encode_char
encode_char_injective c d xs ys hc hd e = ground arith

encode_nonempty : (c : ℕ) (xs : Bytes) → encode_char c ++ xs ≡ [] → ⊥
unfolding encode_char
encode_nonempty c xs e = ground arith

-- Different texts have different encodings.
pub encode_injective : (s t : Text) → IsText s → IsText t → encode s ≡ encode t → s ≡ t
encode_injective [] [] hs ht e = refl
encode_injective [] (d ∷ t) hs ht e = absurd (encode_nonempty d (encode t) (flip e))
  where
    flip : encode [] ≡ encode (d ∷ t) → encode_char d ++ encode t ≡ []
    flip p = unfold encode in sym p
encode_injective (c ∷ s) [] hs ht e = absurd (encode_nonempty c (encode s) (unfold encode in e))
encode_injective (c ∷ s) (d ∷ t) hs ht e =
    let (h, r) = heads in cc (h, encode_injective s t hs.1 ht.1 r)
  where
    heads : (c ≡ d) × (encode s ≡ encode t)
    heads = encode_char_injective c d (encode s) (encode t) hs.0 ht.0 (unfold encode in e)
