-- ===== src/Keys/Opks.antt =====
-- One-time prekeys: generation in pairs, the pairing invariant, and replenishment.
pub mod Laws
use desperate.Prelude.{
  ℕ, zero, suc, ◌+◌, ◌-◌, ◌≡◌, Bool, true, false, not, ◌&&◌, List, [], ◌∷◌, length, min, max, leb,
  ◌==◌, nat_eq, if◌then◌else◌,
}
use desperate.Outcome.{Result, ok, err, assertion_error, reject, ◌>>=◌, ◌>>◌}
use desperate.Codec.Words.{Bytes}
use desperate.Suite.{Suite}
use desperate.Keys.Types.{X25519Keypair, X25519OneTimePrekey, KemOneTimePrekey, public_key_bytes}

-- the loop over `zip(x25519_opks, kem_opks)`
unfoldable pub ids_match : List X25519OneTimePrekey → List KemOneTimePrekey → Bool
ids_match (x ∷ xs) (k ∷ ks) = x.opk_id == k.opk_id && ids_match xs ks
ids_match _ _ = true

unfoldable pub assert_opk_lists_valid :
    List X25519OneTimePrekey → List KemOneTimePrekey → Result (Unit {0})
unfolding ids_match
assert_opk_lists_valid x25519_opks kem_opks = do
  reject (not (length x25519_opks == length kem_opks)) assertion_error
  reject (not (ids_match x25519_opks kem_opks)) assertion_error

-- `max((opk.opk_id for opk in l), default=0)`
unfoldable pub highest_x25519 : List X25519OneTimePrekey → ℕ
highest_x25519 [] = 0
highest_x25519 (o ∷ l) = max o.opk_id (highest_x25519 l)

unfoldable pub highest_kem : List KemOneTimePrekey → ℕ
highest_kem [] = 0
highest_kem (o ∷ l) = max o.opk_id (highest_kem l)

unfoldable pub none_left : List X25519OneTimePrekey → List KemOneTimePrekey → Bool
none_left [] [] = true
none_left _ _ = false

module _ (s : Suite) where
  -- rounds `i`, `i + 1`, … of the loop of `generate_x25519_one_time_prekeys`, `count` of them
  unfoldable pub x25519_rounds : (ℕ → Bytes) → ℕ → ℕ → ℕ → List X25519OneTimePrekey
  x25519_rounds draw zero i start_id = []
  x25519_rounds draw (suc count) i start_id =
      let kp : X25519Keypair = record { private = draw i } in
      record { opk_id = start_id + i; public_key = public_key_bytes s kp; secret_key = kp.private }
      ∷ x25519_rounds draw count (i + 1) start_id

  unfoldable pub generate_x25519_one_time_prekeys : (ℕ → Bytes) → ℕ → ℕ → List X25519OneTimePrekey
  generate_x25519_one_time_prekeys draw count start_id = x25519_rounds draw count 0 start_id

  unfoldable pub kem_rounds : (ℕ → Bytes) → ℕ → ℕ → ℕ → List KemOneTimePrekey
  kem_rounds draw zero i start_id = []
  kem_rounds draw (suc count) i start_id =
      record {
        opk_id = start_id + i;
        public_key = (s.kem.keypair (draw i)).0;
        secret_key = (s.kem.keypair (draw i)).1;
      }
      ∷ kem_rounds draw count (i + 1) start_id

  unfoldable pub generate_kem_one_time_prekeys : (ℕ → Bytes) → ℕ → ℕ → List KemOneTimePrekey
  generate_kem_one_time_prekeys draw count start_id = kem_rounds draw count 0 start_id

  unfoldable pub generate_opk_pairs :
      (ℕ → Bytes) → (ℕ → Bytes) → ℕ → ℕ → Result (List X25519OneTimePrekey × List KemOneTimePrekey)
  generate_opk_pairs draw_x draw_k count start_id = do
    let x25519_opks = generate_x25519_one_time_prekeys draw_x count start_id
    let kem_opks = generate_kem_one_time_prekeys draw_k count start_id
    assert_opk_lists_valid x25519_opks kem_opks
    ok (x25519_opks, kem_opks)

  unfoldable pub replenish_one_time_prekeys :
      (ℕ → Bytes)
      → (ℕ → Bytes)
      → List X25519OneTimePrekey
      → List KemOneTimePrekey
      → ℕ
      → Result (List X25519OneTimePrekey × List KemOneTimePrekey)
  unfolding none_left
  replenish_one_time_prekeys draw_x draw_k existing_x25519 existing_kem target_count =
      if none_left existing_x25519 existing_kem
      then generate_opk_pairs draw_x draw_k target_count 1
      else do
        assert_opk_lists_valid existing_x25519 existing_kem
        let highest_id = max (highest_x25519 existing_x25519) (highest_kem existing_kem)
        let current_count = min (length existing_x25519) (length existing_kem)
        if leb target_count current_count
            then ok ([], [])
            else generate_opk_pairs draw_x draw_k (target_count - current_count) (highest_id + 1)
