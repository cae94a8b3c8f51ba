-- ===== src/Rpc/Registration/Decimal.antt =====
-- main.py: the digits in an error text are those of the number.
use desperate.Prelude.{
  ℕ, zero, suc, ◌+◌, ◌*◌, ◌-◌, ◌/◌, ◌%◌, ◌<◌, ◌≤◌, ◌≡◌, refl, ◌∙◌, arith, Bool-cases, inl, inr, [],
  ◌∷◌, ◌++◌, ltb,
}
use desperate.Codec.Hex.{Text}
use desperate.Rpc.Registration.{digits, decimal}

-- The number that a text of decimal digits stands for, after the digits read so far.
unfoldable pub value_after : ℕ → Text → ℕ
value_after n [] = n
value_after n (d ∷ t) = value_after (10 * n + (d - 48)) t

value_after-append :
    (n d : ℕ) (t : Text) → value_after n (t ++ (d ∷ [])) ≡ 10 * value_after n t + (d - 48)
unfolding value_after
value_after-append n d [] = refl
value_after-append n d (x ∷ t) = value_after-append (10 * n + (x - 48)) d t

-- Fuel above the number is enough.
pub digits_value : (fuel n : ℕ) → n < fuel → value_after 0 (digits fuel n) ≡ n
unfolding digits value_after
digits_value zero n h = absurd (omega arith)
digits_value (suc fuel) n h = elim (Bool-cases (ltb n 10)) [
  | inl small ↦ rw small (omega arith)
  | inr large ↦
      let ten : 10 ≤ n = ground arith in
      let rest = digits_value fuel (n / 10) (omega arith) in
      rw large (value_after-append 0 (48 + n % 10) (digits fuel (n / 10)) ∙ omega (arith, rest))
]

-- The digits of `decimal` are those of the number.
pub decimal_lem : (n : ℕ) → value_after 0 (decimal n) ≡ n
decimal_lem n = digits_value (n + 1) n (omega arith)
