-- ===== src/Kdf/Laws.antt =====
-- What the derivations promise.
use desperate.Prelude.{
  ℕ, ◌+◌, ◌≡◌, refl, sym, ap, ◌∙◌, none, some, List, [], ◌∷◌, ◌++◌, arith, take, drop, drop_all,
  drop-drop, concat, length, length-take, length-drop, take-append-drop, nat_eq, inl, inr, map,
}
use desperate.Outcome.{ok, Result-cases}
use desperate.Codec.Words.{Bytes}
use desperate.Codec.Hex.{Text}
use desperate.Crypto.{Hashes, HashLaws}
use desperate.Password.{argon2id_derive_key}
use desperate.Kdf.{hkdf_derive, derive_master_components, hkdf_derive_many, total, split_from}

-- Cutting `raw` from `offset` on, with no byte left over, gives pieces of the lengths asked for
-- that make up what was left.
split_from_lem :
    (raw : Bytes) (offset : ℕ) (ls : List ℕ)
    → length raw ≡ offset + total ls
    → (map (λ k. length k) (split_from raw offset ls) ≡ ls)
      × (concat (split_from raw offset ls) ≡ drop offset raw)
unfolding split_from total
split_from_lem raw offset [] h = (refl, sym (drop_all offset raw (omega arith)))
split_from_lem raw offset (l ∷ ls) h =
    let (lengths, pieces) = split_from_lem raw (offset + l) ls (omega arith) in
    let piece : length (take l (drop offset raw)) ≡ l =
      omega (arith, length-take l (drop offset raw), length-drop offset raw) in
    (
      cc (piece, lengths),
      ap (λ t. take l (drop offset raw) ++ t) (pieces ∙ sym (drop-drop offset l raw))
          ∙ take-append-drop l (drop offset raw),
    )

module _ (h : Hashes) (laws : HashLaws h) where
  hkdf_derive-length :
      (ikm salt info : Bytes) (n : ℕ) {k : Bytes}
      → hkdf_derive h ikm salt info n ≡ ok k
      → length k ≡ n
  unfolding hkdf_derive
  hkdf_derive-length ikm salt info n {k} e = laws.hkdf_length ikm salt info n (ground arith)

  -- If hkdf_derive_many returns, it returns one key for each length asked for, of that length,
  -- and the keys in order make up one output of hkdf_derive of the total length.
  pub hkdf_derive_many_lem :
      (ikm salt info : Bytes) (lengths : List ℕ) {keys : List Bytes}
      → hkdf_derive_many h ikm salt info lengths ≡ ok keys
      → (hkdf_derive h ikm salt info (total lengths) ≡ ok (concat keys))
        × (map (λ k. length k) keys ≡ lengths)
  unfolding hkdf_derive_many
  hkdf_derive_many_lem ikm salt info [] e = cc
  hkdf_derive_many_lem ikm salt info (l ∷ ls) {keys} e =
      elim (Result-cases (hkdf_derive h ikm salt info (total (l ∷ ls)))) [
        | inl (raw, r) ↦
            let cut : split_from raw 0 (l ∷ ls) ≡ keys = ground arith in
            let (lengths, pieces) =
              split_from_lem raw 0 (l ∷ ls)
                (omega (arith, hkdf_derive-length ikm salt info (total (l ∷ ls)) r)) in
            rw (← cut) (r ∙ ap ok (sym pieces), lengths)
        | inr (x, r) ↦ absurd (ground arith)
      ]

-- The salt returned by a derivation with a fresh salt, as at registration, gives the same SRP
-- password, keystore key and salt when it is passed in again, as at login.
pub derive_master_components_again :
    (h : Hashes) (password : Text) (fresh other : Bytes) {srp key salt : Bytes}
    → derive_master_components h password none fresh ≡ ok (srp, key, salt)
    → (salt ≡ fresh) × (derive_master_components h password (some salt) other ≡ ok (srp, key, salt))
unfolding derive_master_components argon2id_derive_key
derive_master_components_again h password fresh other e = ground arith
