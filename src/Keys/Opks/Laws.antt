-- ===== src/Keys/Opks/Laws.antt =====
-- Generated and replenished prekeys keep the pairing invariant, and their ids are new.
use desperate.Prelude.{
  ℕ, zero, suc, ◌+◌, ◌-◌, ◌≤◌, ◌<◌, ◌≡◌, refl, ap, sym, ◌∙◌, true, ◌&&◌, List, [], ◌∷◌, All, length,
  length-map, map, min, max, leb, leb→le, arith, ◌==◌, nat_eq, list_beq, list_beq_iff,
  if◌then◌else◌, Bool-cases, inl, inr,
}
use desperate.Outcome.{ok, err, assertion_error}
use desperate.Codec.Words.{Bytes}
use desperate.Suite.{Suite}
use desperate.Keys.Types.{X25519OneTimePrekey, KemOneTimePrekey}
use desperate.Keys.Opks.{
  ids_match, assert_opk_lists_valid, highest_x25519, highest_kem, x25519_rounds,
  generate_x25519_one_time_prekeys, kem_rounds, generate_kem_one_time_prekeys, generate_opk_pairs,
  replenish_one_time_prekeys,
}

-- The invariant: the same ids at the same places.
abbrev pub x25519_ids : List X25519OneTimePrekey → List ℕ
x25519_ids = map (λ o. o.opk_id)

abbrev pub kem_ids : List KemOneTimePrekey → List ℕ
kem_ids = map (λ o. o.opk_id)

abbrev pub IsPaired : List X25519OneTimePrekey → List KemOneTimePrekey → Type 0
IsPaired xs ks = x25519_ids xs ≡ kem_ids ks

paired_test :
    (xs : List X25519OneTimePrekey) (ks : List KemOneTimePrekey)
    → (length xs == length ks && ids_match xs ks) ≡ list_beq (x25519_ids xs) (kem_ids ks)
unfolding ids_match list_beq
paired_test [] [] = refl
paired_test [] (k ∷ ks) = ground arith
paired_test (x ∷ xs) [] = ground arith
paired_test (x ∷ xs) (k ∷ ks) = ground (arith, paired_test xs ks)

pub assert_opk_lists_valid-ids :
    (xs : List X25519OneTimePrekey) (ks : List KemOneTimePrekey)
    → assert_opk_lists_valid xs ks
      ≡ (if list_beq (x25519_ids xs) (kem_ids ks) then ok tt else err assertion_error)
unfolding assert_opk_lists_valid
assert_opk_lists_valid-ids xs ks = ground (arith, paired_test xs ks)

-- The assertion passes exactly on paired lists, and raises AssertionError on all others.
pub assert_opk_lists_valid-IsPaired :
    (xs : List X25519OneTimePrekey) (ks : List KemOneTimePrekey)
    → (IsPaired xs ks → assert_opk_lists_valid xs ks ≡ ok tt)
      × (¬ (IsPaired xs ks) → assert_opk_lists_valid xs ks ≡ err assertion_error)
unfolding assert_opk_lists_valid
assert_opk_lists_valid-IsPaired xs ks = (
  λ h. ground (arith, paired_test xs ks, list_beq_iff (x25519_ids xs) (kem_ids ks)),
  λ h. ground (
    arith,
    paired_test xs ks,
    λ (e : list_beq (x25519_ids xs) (kem_ids ks) ≡ true).
        h ((list_beq_iff (x25519_ids xs) (kem_ids ks)).0 e),
  ),
)

abbrev pub range_from : ℕ → ℕ → List ℕ
range_from start zero = []
range_from start (suc n) = start ∷ range_from (start + 1) n

module _ (s : Suite) where
  x25519_ids-rounds :
      (draw : ℕ → Bytes) (n i start : ℕ)
      → x25519_ids (x25519_rounds s draw n i start) ≡ range_from (start + i) n
  unfolding x25519_rounds
  x25519_ids-rounds draw zero i start = refl
  x25519_ids-rounds draw (suc n) i start =
      ap (λ l. (start + i) ∷ l)
        (x25519_ids-rounds draw n (i + 1) start ∙ ap (λ m. range_from m n) (omega arith))

  kem_ids-rounds :
      (draw : ℕ → Bytes) (n i start : ℕ)
      → kem_ids (kem_rounds s draw n i start) ≡ range_from (start + i) n
  unfolding kem_rounds
  kem_ids-rounds draw zero i start = refl
  kem_ids-rounds draw (suc n) i start =
      ap (λ l. (start + i) ∷ l)
        (kem_ids-rounds draw n (i + 1) start ∙ ap (λ m. range_from m n) (omega arith))

  generated-IsPaired :
      (draw_x draw_k : ℕ → Bytes) (n i start : ℕ)
      → IsPaired (x25519_rounds s draw_x n i start) (kem_rounds s draw_k n i start)
  generated-IsPaired draw_x draw_k n i start =
      x25519_ids-rounds draw_x n i start ∙ sym (kem_ids-rounds draw_k n i start)

  -- Whatever is drawn, generate_opk_pairs passes its own assertion and returns count pairs with
  -- the ids start_id, start_id + 1, … in both lists.
  pub generate_opk_pairs_lem :
      (draw_x draw_k : ℕ → Bytes) (count start_id : ℕ)
      → (xs : List X25519OneTimePrekey) × (ks : List KemOneTimePrekey) × (generate_opk_pairs s
            draw_x draw_k count start_id
          ≡ ok (xs, ks))
        × (x25519_ids xs ≡ range_from start_id count)
        × (kem_ids ks ≡ range_from start_id count)
  unfolding generate_opk_pairs generate_x25519_one_time_prekeys generate_kem_one_time_prekeys
  generate_opk_pairs_lem draw_x draw_k count start_id = (
    x25519_rounds s draw_x count 0 start_id,
    kem_rounds s draw_k count 0 start_id,
    rw (
        (assert_opk_lists_valid-IsPaired _ _).0
          (generated-IsPaired draw_x draw_k count 0 start_id)),
    x25519_ids-rounds draw_x count 0 start_id ∙ ap (λ m. range_from m count) (omega arith),
    kem_ids-rounds draw_k count 0 start_id ∙ ap (λ m. range_from m count) (omega arith),
  )

length-range_from : (start n : ℕ) → length (range_from start n) ≡ n
length-range_from start zero = refl
length-range_from start (suc n) = ap suc (length-range_from (start + 1) n)

range_from_above : (low start n : ℕ) → low ≤ start → All (λ i. low ≤ i) (range_from start n)
range_from_above low start zero h = tt
range_from_above low start (suc n) h = (h, range_from_above low (start + 1) n (omega arith))

below_highest_x25519 :
    (xs : List X25519OneTimePrekey) (m : ℕ)
    → highest_x25519 xs ≤ m
    → All (λ i. i ≤ m) (x25519_ids xs)
unfolding highest_x25519
below_highest_x25519 [] m h = tt
below_highest_x25519 (x ∷ xs) m h = (omega arith, below_highest_x25519 xs m (omega arith))

-- every id of `news` is above every id of `olds`
abbrev pub Above : List ℕ → List ℕ → Type 0
Above news olds = All (λ n. All (λ o. o < n) olds) news

between-Above :
    (m : ℕ) (news olds : List ℕ)
    → All (λ n. m + 1 ≤ n) news
    → All (λ o. o ≤ m) olds
    → Above news olds
between-Above m [] olds h k = tt
between-Above m (n ∷ news) olds h k = (each olds k, between-Above m news olds h.1 k)
  where
    each : (os : List ℕ) → All (λ o. o ≤ m) os → All (λ o. o < n) os
    each [] q = tt
    each (o ∷ os) q = (omega (arith, h.0, q.0), each os q.1)

nil-Above : (l : List ℕ) → Above l []
nil-Above [] = tt
nil-Above (i ∷ l) = (tt, nil-Above l)

counted :
    (l : List X25519OneTimePrekey) (n start : ℕ) → x25519_ids l ≡ range_from start n → length l ≡ n
counted l n start h =
    sym (length-map (λ o. o.opk_id) l) ∙ ap (λ t. length t) h ∙ length-range_from start n

pub same_length :
    (xs : List X25519OneTimePrekey) (ks : List KemOneTimePrekey)
    → IsPaired xs ks
    → length xs ≡ length ks
same_length xs ks h =
    sym (length-map (λ o. o.opk_id) xs) ∙ ap (λ t. length t) h ∙ length-map (λ o. o.opk_id) ks

module _ (s : Suite) (draw_x draw_k : ℕ → Bytes) where
  -- On paired lists replenish_one_time_prekeys returns new pairs, paired themselves, whose ids
  -- are all above every existing id, and as many as bring the total to the larger of the target
  -- and the present number.
  pub replenish_lem :
      (xs : List X25519OneTimePrekey) (ks : List KemOneTimePrekey) (target : ℕ)
      → IsPaired xs ks
      → (nx : List X25519OneTimePrekey) × (nk : List KemOneTimePrekey) × (replenish_one_time_prekeys
            s draw_x draw_k xs ks target
          ≡ ok (nx, nk))
        × IsPaired nx nk
        × Above (x25519_ids nx) (x25519_ids xs)
        × (length xs + length nx ≡ max (length xs) target)
  unfolding replenish_one_time_prekeys
  replenish_lem [] [] target paired =
      let (nx, nk, e, hx, hk) = generate_opk_pairs_lem s draw_x draw_k target 1 in
      (nx, nk, e, hx ∙ sym hk, nil-Above (x25519_ids nx), omega (arith, counted nx target 1 hx))
  replenish_lem [] (k ∷ ks) target paired = absurd (cc)
  replenish_lem (x ∷ xs) [] target paired = absurd (cc)
  replenish_lem (x ∷ xs) (k ∷ ks) target paired =
      let valid = (assert_opk_lists_valid-IsPaired (x ∷ xs) (k ∷ ks)).0 paired in
      let m = max (highest_x25519 (x ∷ xs)) (highest_kem (k ∷ ks)) in
      let have = min (length (x ∷ xs)) (length (k ∷ ks)) in
      elim (Bool-cases (leb target have)) [
        | inl enough ↦ (
          [],
          [],
          ground (arith, valid),
          refl,
          tt,
          omega (arith, same_length (x ∷ xs) (k ∷ ks) paired, leb→le target have enough),
        )
        | inr short ↦
            let (nx, nk, e, hx, hk) =
              generate_opk_pairs_lem s draw_x draw_k (target - have) (m + 1) in
            let size : length nx ≡ target - have = counted nx (target - have) (m + 1) hx in
            let wanted : have < target = ground arith in
            (
              nx,
              nk,
              ground (arith, valid, e),
              hx ∙ sym hk,
              rw hx (
                  between-Above m (range_from (m + 1) (target - have)) (x25519_ids (x ∷ xs))
                    (range_from_above (m + 1) (m + 1) (target - have) (omega arith))
                    (below_highest_x25519 (x ∷ xs) m (omega arith))),
              omega (arith, size, wanted, same_length (x ∷ xs) (k ∷ ks) paired),
            )
      ]
