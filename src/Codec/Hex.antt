-- ===== src/Codec/Hex.antt =====
-- `bytes.hex` and `bytes.fromhex`. Text is a list of code points.
use desperate.Prelude.{
  ℕ, ◌+◌, ◌-◌, ◌*◌, ◌/◌, ◌%◌, ◌<◌, ◌≡◌, refl, ◌∙◌, List, [], ◌∷◌, Bool, ◌&&◌, ◌||◌, Option, none,
  some, arith, leb, ltb, nat_beq, if◌then◌else◌,
}
use desperate.Outcome.{Result, ok, err, value_error, bad_hex}
use desperate.Codec.Words.{Bytes, IsBytes}

abbrev pub Text : Type 0
Text = List ℕ

digit : ℕ → ℕ
digit n = if ltb n 10 then n + 48 else n + 87

digit_value : ℕ → Option ℕ
digit_value c =
    if leb 48 c && leb c 57
    then some (c - 48)
    else if leb 97 c && leb c 102
    then some (c - 87)
    else if leb 65 c && leb c 70
    then some (c - 55)
    else none

is_space : ℕ → Bool
is_space c = nat_beq c 32 || (leb 9 c && leb c 13)

unfoldable pub to_hex : Bytes → Text
unfolding digit
to_hex [] = []
to_hex (b ∷ bs) = digit (b / 16) ∷ digit (b % 16) ∷ to_hex bs

pair_value : Option ℕ → Option ℕ → Option ℕ
pair_value (some h) (some l) = some (16 * h + l)
pair_value _ _ = none

attach : Option ℕ → Result Bytes → Result Bytes
attach (some b) (ok bs) = ok (b ∷ bs)
attach none _ = err (value_error bad_hex)
attach _ (err e) = err e

-- Spaces may stand between bytes, not inside one.
unfoldable pub from_hex : Text → Result Bytes
unfolding is_space digit_value pair_value attach
from_hex [] = ok []
from_hex (c ∷ []) = if is_space c then ok [] else err (value_error bad_hex)
from_hex (c ∷ d ∷ cs) =
    let skip = from_hex (d ∷ cs) in
    let pair = attach (pair_value (digit_value c) (digit_value d)) (from_hex cs) in
    if is_space c then skip else pair

from_hex_digits :
    (h l : ℕ) (cs : Text)
    → h < 16
    → l < 16
    → from_hex (digit h ∷ digit l ∷ cs) ≡ attach (some (16 * h + l)) (from_hex cs)
unfolding from_hex digit
from_hex_digits h l cs p q = ground arith

byte_digits : (b : ℕ) → 16 * (b / 16) + b % 16 ≡ b
byte_digits b = omega arith

pub from_hex-to_hex : (bs : Bytes) → IsBytes bs → from_hex (to_hex bs) ≡ ok bs
from_hex-to_hex [] h = unfold from_hex to_hex in refl
from_hex-to_hex (b ∷ bs) h =
    to_hex_cons b bs
    ∙ from_hex_digits (b / 16) (b % 16) (to_hex bs) (omega (arith, h.0)) (omega arith)
    ∙ rw (from_hex-to_hex bs h.1, byte_digits b) (unfold attach in refl)
  where
    to_hex_cons :
        (b : ℕ) (bs : Bytes)
        → from_hex (to_hex (b ∷ bs)) ≡ from_hex (digit (b / 16) ∷ digit (b % 16) ∷ to_hex bs)
    to_hex_cons b bs = unfold to_hex in refl
