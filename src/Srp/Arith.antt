-- ===== src/Srp/Arith.antt =====
-- Arithmetic modulo a number: Python's `pow` with a modulus, and differences that may be negative.
use native.Mathlib.Nat.{
  mod-mod, mod-add-mod, div-add-mod, mod-lt, mul_comm, add-mul-mod_self_left, zero-lt-suc, pow-suc,
  pow-zero, mul-one,
}
use desperate.Prelude.{
  ℕ, zero, suc, ◌+◌, ◌-◌, ◌*◌, ◌/◌, ◌%◌, ◌^◌, ◌≡◌, sym, ap, ◌∙◌, leb, arith, if◌then◌else◌,
  Bool-cases, inl, inr, leb→le,
}

-- pow(b, e, n)
unfoldable pub pow_mod : ℕ → ℕ → ℕ → ℕ
pow_mod b e n = b ^ e % n

-- `(a - b) % n` of Python, which is never negative
unfoldable pub sub_mod : ℕ → ℕ → ℕ → ℕ
sub_mod a b n = if leb b a then (a - b) % n else (n - (b - a) % n) % n

pub mod-mul : (a b n : ℕ) → (a % n) * b % n ≡ a * b % n
mod-mul a b n =
    sym (add-mul-mod_self_left ((a % n) * b) n ((a / n) * b))
    ∙ ap (λ t. t % n) (let f = ap (λ (t : ℕ). t * b) (div-add-mod a n) in omega (arith, f))

mul-mod : (a b n : ℕ) → a * (b % n) % n ≡ a * b % n
mul-mod a b n = rw (mul_comm a (b % n), mul_comm a b) (mod-mul b a n)

pub pow-mod : (a e n : ℕ) → (a % n) ^ e % n ≡ a ^ e % n
pow-mod a zero n = rw (pow-zero (a % n), pow-zero a)
pow-mod a (suc e) n =
    ap (λ t. t % n) (pow-suc (a % n) e)
    ∙ mul-mod ((a % n) ^ e) a n
    ∙ sym (mod-mul ((a % n) ^ e) a n)
    ∙ ap (λ t. t * a % n) (pow-mod a e n)
    ∙ mod-mul (a ^ e) a n
    ∙ ap (λ t. t % n) (sym (pow-suc a e))

pub pow-add : (b x y : ℕ) → b ^ (x + y) ≡ b ^ x * b ^ y
pow-add b x zero = let e : x + 0 ≡ x = omega arith in rw (e, pow-zero b) (sym (mul-one (b ^ x)))
pow-add b x (suc y) =
    let e : x + suc y ≡ suc (x + y) = omega arith in
    let f = ap (λ (t : ℕ). t * b) (pow-add b x y) in
    rw e (omega (arith, f, pow-suc b (x + y), ap (λ (t : ℕ). b ^ x * t) (pow-suc b y)))

pub pow-mul : (b x y : ℕ) → b ^ (x * y) ≡ (b ^ x) ^ y
pow-mul b x zero = let e : x * 0 ≡ 0 = omega arith in rw (e, pow-zero (b ^ x)) (pow-zero b)
pow-mul b x (suc y) =
    let e : x * suc y ≡ x * y + x = omega arith in
    rw e (pow-add b (x * y) x ∙ ap (λ t. t * b ^ x) (pow-mul b x y) ∙ sym (pow-suc (b ^ x) y))

pub mul-pow : (a b e : ℕ) → (a * b) ^ e ≡ a ^ e * b ^ e
mul-pow a b zero = rw (pow-zero (a * b), pow-zero a, pow-zero b)
mul-pow a b (suc e) =
    pow-suc (a * b) e
    ∙ ap (λ t. t * (a * b)) (mul-pow a b e)
    ∙ omega (
      arith,
      pow-suc a e,
      pow-suc b e,
      ap (λ (t : ℕ). t * b ^ suc e) (pow-suc a e),
      ap (λ (t : ℕ). a ^ e * a * t) (pow-suc b e),
    )

-- A difference that wraps is a sum.
pub sub_mod_sum : (a b m : ℕ) → sub_mod a b (suc m) ≡ (a + b * m) % suc m
unfolding sub_mod
sub_mod_sum a b m = elim (Bool-cases (leb b a)) [
  | inl le ↦ rw le (
      sym (add-mul-mod_self_left (a - b) (suc m) b)
      ∙ ap (λ t. t % suc m) (omega (arith, leb→le b a le)))
  | inr gt ↦
      let d = b - a in
      let q = d / suc m in
      let r = d % suc m in
      let split : b ≡ a + d = ground arith in
      let parts : suc m * q + r ≡ d = div-add-mod d (suc m) in
      rw gt (
        sym (add-mul-mod_self_left (suc m - r) (suc m) (a + q * m + r))
        ∙ ap (λ t. t % suc m)
            (omega (
              arith,
              split,
              parts,
              ap (λ (t : ℕ). t * m) split,
              ap (λ (t : ℕ). t * m) parts,
              mod-lt d (zero-lt-suc m),
            ))
        ∙ add-mul-mod_self_left (a + b * m) (suc m) 1)
]

-- The difference that the client takes gives back what the server added.
sub_mod_undoes : (c d m : ℕ) → sub_mod ((d + c % suc m) % suc m) d (suc m) ≡ c % suc m
sub_mod_undoes c d m =
    sub_mod_sum ((d + c % suc m) % suc m) d m
    ∙ mod-add-mod (d + c % suc m) (suc m) (d * m)
    ∙ ap (λ t. t % suc m) (regroup d (c % suc m) m)
    ∙ add-mul-mod_self_left (c % suc m) (suc m) d
    ∙ mod-mod c (suc m)
  where
    regroup : (d r m : ℕ) → d + r + d * m ≡ r + suc m * d
    regroup d r m = omega arith

module _ (g m : ℕ) where
  -- the client's secret as a power of `g`
  client_power :
      (k v b e : ℕ)
      → pow_mod (sub_mod ((k * v + pow_mod g b (suc m)) % suc m) (k * v) (suc m)) e (suc m)
        ≡ g ^ (b * e) % suc m
  unfolding pow_mod
  client_power k v b e =
      ap (λ t. t ^ e % suc m) (sub_mod_undoes (g ^ b) (k * v) m)
      ∙ pow-mod (g ^ b) e (suc m)
      ∙ ap (λ t. t % suc m) (sym (pow-mul g b e))

  -- the server's secret as a power of `g`
  server_power :
      (x a b u : ℕ)
      → pow_mod (pow_mod g a (suc m) * pow_mod (pow_mod g x (suc m)) u (suc m)) b (suc m)
        ≡ g ^ ((a + x * u) * b) % suc m
  unfolding pow_mod
  server_power x a b u =
      sym (pow-mod ((g ^ a % suc m) * ((g ^ x % suc m) ^ u % suc m)) b (suc m))
      ∙ ap (λ t. t ^ b % suc m) base
      ∙ pow-mod (g ^ (a + x * u)) b (suc m)
      ∙ ap (λ t. t % suc m) (sym (pow-mul g (a + x * u) b))
    where
      base : (g ^ a % suc m) * ((g ^ x % suc m) ^ u % suc m) % suc m ≡ g ^ (a + x * u) % suc m
      base =
          mod-mul (g ^ a) ((g ^ x % suc m) ^ u % suc m) (suc m)
          ∙ mul-mod (g ^ a) ((g ^ x % suc m) ^ u) (suc m)
          ∙ sym (mul-mod (g ^ a) ((g ^ x % suc m) ^ u) (suc m))
          ∙ ap (λ t. g ^ a * t % suc m) (pow-mod (g ^ x) u (suc m))
          ∙ mul-mod (g ^ a) ((g ^ x) ^ u) (suc m)
          ∙ ap (λ t. t % suc m)
              (ap (λ t. g ^ a * t) (sym (pow-mul g x u)) ∙ sym (pow-add g a (x * u)))

  -- Both parties of an exchange compute the same secret, whatever the numbers are.
  pub shared_secret_agrees :
      (k x a b u : ℕ)
      → pow_mod
          (sub_mod
            ((k * pow_mod g x (suc m) + pow_mod g b (suc m)) % suc m)
            (k * pow_mod g x (suc m))
            (suc m))
          (a + u * x)
          (suc m)
        ≡ pow_mod (pow_mod g a (suc m) * pow_mod (pow_mod g x (suc m)) u (suc m)) b (suc m)
  shared_secret_agrees k x a b u =
      client_power k (pow_mod g x (suc m)) b (a + u * x)
      ∙ ap (λ t. g ^ t % suc m) (omega arith)
      ∙ sym (server_power x a b u)
