-- ===== src/Counter/Nonces.antt =====
-- The nonces that a counter gives out.
use desperate.Prelude.{
  min, ◌-◌, ℕ, zero, suc, ◌+◌, ◌≤◌, ◌<◌, ◌≡◌, ◌≢◌, refl, sym, ◌∙◌, List, [], ◌∷◌, ◌++◌, arith, ap,
  All, length, length-append, take, take-append, ltb, ltb→lt, Bool-cases, inl, inr,
}
use desperate.Outcome.{Result, ok, err, header_counter_error}
use desperate.Codec.Words.{Bytes, pack_le, pack_u64_fits, pack_u64_injective, length-pack_le}
use desperate.Constants.{nonce_len, max_header_messages}
use desperate.Counter.{HeaderCounter, counter_to_nonce, next_nonce}

abbrev padding : Bytes
padding = 0 ∷ 0 ∷ 0 ∷ 0 ∷ []

counter_to_nonce_fits :
    (n : ℕ) → n ≤ max_header_messages → counter_to_nonce n ≡ ok (pack_le 8 n ++ padding)
unfolding counter_to_nonce
counter_to_nonce_fits n h = rw (pack_u64_fits n (omega arith))

length-counter_to_nonce : (n : ℕ) → length (pack_le 8 n ++ padding) ≡ nonce_len
length-counter_to_nonce n = omega (arith, length-append (pack_le 8 n) padding, length-pack_le 8 n)

nonce_injective :
    (m n : ℕ)
    → m ≤ max_header_messages
    → n ≤ max_header_messages
    → pack_le 8 m ++ padding ≡ pack_le 8 n ++ padding
    → m ≡ n
nonce_injective m n hm hn e = pack_u64_injective m n (omega arith) (omega arith) words
  where
    words : pack_le 8 m ≡ pack_le 8 n
    words =
        sym (take-append 8 (pack_le 8 m) padding (length-pack_le 8 m))
        ∙ ap (take 8) e
        ∙ take-append 8 (pack_le 8 n) padding (length-pack_le 8 n)

-- The nonces of `k` calls of `next_nonce`; a call that raises gives none.
abbrev collect : Result Bytes → List Bytes → List Bytes
collect (ok nonce) rest = nonce ∷ rest
collect (err e) rest = rest

pub issued : ℕ → HeaderCounter → List Bytes
issued zero c = []
issued (suc k) c = collect (next_nonce c).0 (issued k (next_nonce c).1)

next_nonce_fits :
    (c : HeaderCounter)
    → c.counter < max_header_messages
    → next_nonce c
      ≡ (ok (pack_le 8 (c.counter + 1) ++ padding), record c { counter = c.counter + 1 })
unfolding next_nonce
next_nonce_fits c h = ground (arith, counter_to_nonce_fits (c.counter + 1) (omega arith))

next_nonce_full :
    (c : HeaderCounter)
    → max_header_messages ≤ c.counter
    → next_nonce c ≡ (err header_counter_error, c)
unfolding next_nonce
next_nonce_full c h = ground arith

-- `nonce` encodes a value above `low` that the bound allows.
abbrev IsAbove : ℕ → Bytes → Type 0
IsAbove low nonce =
    (v : ℕ) × (low < v) × (v ≤ max_header_messages) × (nonce ≡ pack_le 8 v ++ padding)

weaken :
    (low high : ℕ) (xs : List Bytes) → low ≤ high → All (IsAbove high) xs → All (IsAbove low) xs
weaken low high [] h a = tt
weaken low high (x ∷ xs) h ((v, p, q, e), a) = ((v, omega arith, q, e), weaken low high xs h a)

issued-IsAbove : (k : ℕ) (c : HeaderCounter) → All (IsAbove c.counter) (issued k c)
unfolding issued
issued-IsAbove zero c = tt
issued-IsAbove (suc k) c = elim (Bool-cases (ltb c.counter max_header_messages)) [
  | inl room ↦ rw (next_nonce_fits c (ltb→lt _ _ room)) (
    (c.counter + 1, omega arith, omega (arith, ltb→lt _ _ room), refl),
    weaken c.counter (c.counter + 1) _ (omega arith)
        (issued-IsAbove k (record c { counter = c.counter + 1 })),
  )
  | inr full ↦ rw (next_nonce_full c (ground arith)) (issued-IsAbove k c)
]

differ_from_above :
    (n : ℕ) (xs : List Bytes)
    → n ≤ max_header_messages
    → All (IsAbove n) xs
    → All (λ y. pack_le 8 n ++ padding ≢ y) xs
differ_from_above n [] h a = tt
differ_from_above n (x ∷ xs) h ((v, p, q, e), a) =
    (λ same. absurd (omega (arith, nonce_injective n v h q (same ∙ e))), differ_from_above n xs h a)

abbrev pub Distinct : List Bytes → Type 0
Distinct [] = Unit
Distinct (x ∷ xs) = All (λ y. x ≢ y) xs × Distinct xs

-- However often next_nonce is called on one counter with no reset between, failing calls
-- included, no two of the nonces that it returns are equal.
pub issued-Distinct : (k : ℕ) (c : HeaderCounter) → Distinct (issued k c)
unfolding issued
issued-Distinct zero c = tt
issued-Distinct (suc k) c = elim (Bool-cases (ltb c.counter max_header_messages)) [
  | inl room ↦ rw (next_nonce_fits c (ltb→lt _ _ room)) (
    differ_from_above (c.counter + 1) _ (omega (arith, ltb→lt _ _ room))
        (issued-IsAbove k (record c { counter = c.counter + 1 })),
    issued-Distinct k (record c { counter = c.counter + 1 }),
  )
  | inr full ↦ rw (next_nonce_full c (ground arith)) (issued-Distinct k c)
]

-- Of k calls of next_nonce on one counter with no reset between, the number that returns a nonce
-- is k or what the counter was below MAX_HEADER_MESSAGES, whichever is less.
pub length-issued :
    (k : ℕ) (c : HeaderCounter) → length (issued k c) ≡ min k (max_header_messages - c.counter)
unfolding issued
length-issued zero c = omega arith
length-issued (suc k) c = elim (Bool-cases (ltb c.counter max_header_messages)) [
  | inl room ↦
      rw (next_nonce_fits c (ltb→lt _ _ room))
        (omega (arith, ltb→lt _ _ room, length-issued k (record c { counter = c.counter + 1 })))
  | inr full ↦
      let spent : max_header_messages ≤ c.counter = ground arith in
      rw (next_nonce_full c spent) (omega (arith, length-issued k c))
]

-- next_nonce returns a nonce of 12 bytes and counts up by one while the counter is below
-- MAX_HEADER_MESSAGES; at the bound it raises HeaderCounterError and keeps the counter.
pub next_nonce_lem :
    (c : HeaderCounter)
    → ((c.counter < max_header_messages)
        → (nonce : Bytes) × (next_nonce c ≡ (ok nonce, record c { counter = c.counter + 1 }))
          × (length nonce ≡ nonce_len))
      × ((max_header_messages ≤ c.counter) → next_nonce c ≡ (err header_counter_error, c))
next_nonce_lem c = (
  λ h. (_, next_nonce_fits c h, length-counter_to_nonce (c.counter + 1)),
  λ h. next_nonce_full c h,
)
