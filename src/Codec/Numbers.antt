-- ===== src/Codec/Numbers.antt =====
-- `int.from_bytes(b, "big")` and `n.to_bytes(length, "big")`.
use desperate.Prelude.{
  ℕ, zero, suc, ◌+◌, ◌-◌, ◌*◌, ◌/◌, ◌%◌, ◌<◌, ◌≤◌, ◌≡◌, refl, [], ◌∷◌, ◌++◌, arith, All-append,
  length, ltb, if◌then◌else◌, nat_eq, ◌==◌, Bool-cases, inl, inr, ◌∙◌, max,
}
use desperate.Outcome.{Result, ok, err, overflow_error}
use desperate.Codec.Words.{Bytes, IsBytes, word_limit}

unfoldable pub number_from : ℕ → Bytes → ℕ
number_from acc [] = acc
number_from acc (b ∷ bs) = number_from (256 * acc + b) bs

-- int.from_bytes(b, "big")
unfoldable pub from_bytes : Bytes → ℕ
unfolding number_from
from_bytes b = number_from 0 b

-- `w` bytes of `n`, the highest first
unfoldable pub pack_be : ℕ → ℕ → Bytes
pack_be zero n = []
pack_be (suc w) n = pack_be w (n / 256) ++ (n % 256) ∷ []

-- n.to_bytes(length, "big")
unfoldable pub to_bytes : ℕ → ℕ → Result Bytes
to_bytes n length = if ltb n (word_limit length) then ok (pack_be length n) else err overflow_error

number_from-append :
    (acc : ℕ) (xs ys : Bytes) → number_from acc (xs ++ ys) ≡ number_from (number_from acc xs) ys
unfolding number_from
number_from-append acc [] ys = refl
number_from-append acc (x ∷ xs) ys = number_from-append (256 * acc + x) xs ys

pub from_bytes-pack_be : (w n : ℕ) → n < word_limit w → from_bytes (pack_be w n) ≡ n
unfolding from_bytes pack_be word_limit
from_bytes-pack_be zero n h = omega arith
from_bytes-pack_be (suc w) n h =
    number_from-append 0 (pack_be w (n / 256)) ((n % 256) ∷ [])
    ∙ omega (arith, from_bytes-pack_be w (n / 256) (omega arith))

pub pack_be-IsBytes : (w n : ℕ) → IsBytes (pack_be w n)
unfolding pack_be
pack_be-IsBytes zero n = tt
pack_be-IsBytes (suc w) n =
    All-append (λ b. b < 256) (pack_be w (n / 256)) _ (pack_be-IsBytes w (n / 256))
      (omega arith, tt)

pub to_bytes_fits : (n w : ℕ) → n < word_limit w → to_bytes n w ≡ ok (pack_be w n)
unfolding to_bytes
to_bytes_fits n w h = ground arith

-- The rounds of halving that bring `n` to 0, at most `fuel`.
halvings : ℕ → ℕ → ℕ
halvings zero n = 0
halvings (suc fuel) n = let rest = halvings fuel (n / 2) in if n == 0 then 0 else suc rest

-- n.bit_length()
unfoldable pub bit_length : ℕ → ℕ
unfolding halvings
bit_length n = halvings n n

-- length = (n.bit_length() + 7) // 8 or 1
unfoldable pub byte_length : ℕ → ℕ
byte_length n = max 1 ((bit_length n + 7) / 8)

word_limit_pos : (w : ℕ) → 0 < word_limit w
unfolding word_limit
word_limit_pos zero = omega arith
word_limit_pos (suc w) = omega (arith, word_limit_pos w)

abbrev pub double_power : ℕ → ℕ
double_power zero = 1
double_power (suc k) = 2 * double_power k

-- `n` fits in the bits counted.
halvings_lem : (fuel n : ℕ) → n ≤ fuel → n < double_power (halvings fuel n)
unfolding halvings
halvings_lem zero n h = omega arith
halvings_lem (suc fuel) n h = elim (Bool-cases (n == 0)) [
  | inl e ↦ rw e (ground arith)
  | inr e ↦ rw e (ground (arith, halvings_lem fuel (n / 2) (ground arith)))
]

double_power_add : (a b : ℕ) → double_power a ≤ double_power (a + b)
double_power_add a zero = let e : a + 0 ≡ a = omega arith in rw e (omega arith)
double_power_add a (suc b) =
    let e : a + suc b ≡ suc (a + b) = omega arith in rw e (omega (arith, double_power_add a b))

double_power_bytes : (w : ℕ) → double_power (8 * w) ≡ word_limit w
unfolding word_limit
double_power_bytes zero = refl
double_power_bytes (suc w) =
    let e : 8 * suc w ≡ suc (suc (suc (suc (suc (suc (suc (suc (8 * w)))))))) = omega arith in
    rw e (omega (arith, double_power_bytes w))

-- The length that is computed holds the number.
pub fits_byte_length : (n : ℕ) → n < word_limit (byte_length n)
unfolding byte_length bit_length
fits_byte_length n =
    let k = halvings n n in
    let w = max 1 ((k + 7) / 8) in
    let e : k + (8 * w - k) ≡ 8 * w = omega arith in
    let up : double_power k ≤ double_power (8 * w) = rw (← e) (double_power_add k (8 * w - k)) in
    omega (arith, halvings_lem n n (omega arith), up, double_power_bytes w)
