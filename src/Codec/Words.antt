-- ===== src/Codec/Words.antt =====
-- `struct.pack` and `struct.unpack` of unsigned words, and byte strings as such.
use desperate.Prelude.{
  ℕ, zero, suc, ◌+◌, ◌*◌, ◌/◌, ◌%◌, ◌^◌, ◌<◌, ◌≡◌, refl, List, [], ◌∷◌, Bool, arith, All, length,
  ltb, ap,
}
use desperate.Outcome.{Result, ok, err, struct_error}

abbrev pub Bytes : Type 0
Bytes = List ℕ

-- Every element is a byte.
abbrev pub IsBytes : Bytes → Type 0
IsBytes = All (λ b. b < 256)

-- `w` bytes of `n`, the lowest first.
unfoldable pub pack_le : ℕ → ℕ → Bytes
pack_le zero n = []
pack_le (suc w) n = (n % 256) ∷ pack_le w (n / 256)

unfoldable pub unpack_le : Bytes → ℕ
unpack_le [] = 0
unpack_le (b ∷ bs) = b + 256 * unpack_le bs

-- The number of values of a word of `w` bytes.
unfoldable pub word_limit : ℕ → ℕ
word_limit zero = 1
word_limit (suc w) = 256 * word_limit w

pub length-pack_le : (w n : ℕ) → length (pack_le w n) ≡ w
unfolding pack_le
length-pack_le zero n = refl
length-pack_le (suc w) n = ap suc (length-pack_le w (n / 256))

pub pack_le-IsBytes : (w n : ℕ) → IsBytes (pack_le w n)
unfolding pack_le
pack_le-IsBytes zero n = tt
pack_le-IsBytes (suc w) n = (omega arith, pack_le-IsBytes w (n / 256))

pub unpack_le-pack_le : (w n : ℕ) → n < word_limit w → unpack_le (pack_le w n) ≡ n
unfolding pack_le unpack_le word_limit
unpack_le-pack_le zero n h = omega arith
unpack_le-pack_le (suc w) n h = omega (arith, unpack_le-pack_le w (n / 256) (omega arith))

pub pack_le_injective :
    (w m n : ℕ) → m < word_limit w → n < word_limit w → pack_le w m ≡ pack_le w n → m ≡ n
pack_le_injective w m n hm hn e =
    omega (arith, unpack_le-pack_le w m hm, unpack_le-pack_le w n hn, ap unpack_le e)

-- `struct.pack("<I", n)` and `struct.pack("<Q", n)`; a number out of range is a `struct.error`.
abbrev pub u32_limit : ℕ
u32_limit = 2 ^ 32

abbrev pub u64_limit : ℕ
u64_limit = 2 ^ 64

unfoldable pub pack_u32 : ℕ → Result Bytes
pack_u32 n = elim (ltb n u32_limit) [ Bool.true ↦ ok (pack_le 4 n) | Bool.false ↦ err struct_error ]

unfoldable pub pack_u64 : ℕ → Result Bytes
pack_u64 n = elim (ltb n u64_limit) [ Bool.true ↦ ok (pack_le 8 n) | Bool.false ↦ err struct_error ]

pub pack_u32_fits : (n : ℕ) → n < u32_limit → pack_u32 n ≡ ok (pack_le 4 n)
unfolding pack_u32
pack_u32_fits n h = ground arith

pub pack_u64_fits : (n : ℕ) → n < u64_limit → pack_u64 n ≡ ok (pack_le 8 n)
unfolding pack_u64
pack_u64_fits n h = ground arith

pub unpack_u32-pack : (n : ℕ) → n < u32_limit → unpack_le (pack_le 4 n) ≡ n
unfolding word_limit
unpack_u32-pack n h = unpack_le-pack_le 4 n (omega arith)

pub pack_u64_injective :
    (m n : ℕ) → m < u64_limit → n < u64_limit → pack_le 8 m ≡ pack_le 8 n → m ≡ n
unfolding word_limit
pack_u64_injective m n hm hn e = pack_le_injective 8 m n (omega arith) (omega arith) e
