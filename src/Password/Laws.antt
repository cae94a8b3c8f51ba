-- ===== src/Password/Laws.antt =====
-- core/password.py: what a check of a password says.
use desperate.Prelude.{◌≡◌, ◌↔◌, ◌⊎◌, inl, inr, ap, arith, Bool, true, false}
use desperate.Outcome.{ok, err, Result-cases, verification_error, invalid_hash}
use desperate.Codec.Words.{Bytes}
use desperate.Codec.Hex.{Text}
use desperate.Password.{PasswordHasher, argon2id_hash, argon2id_verify, false_if_refused}

-- What the package promises: `verify` accepts the password that was hashed, and never returns
-- False.
pub record HasherLaws (hasher : PasswordHasher) : Type 0 where
  pub verify-hash :
      (password : Text) (fresh : Bytes) {h : Text}
      → hasher.hash password fresh ≡ ok h
      → hasher.verify h password ≡ ok true
  pub verify_true : (h password : Text) {b : Bool} → hasher.verify h password ≡ ok b → b ≡ true

module _ (hasher : PasswordHasher) (laws : HasherLaws hasher) where
  -- The password that was hashed is accepted.
  pub argon2id_verify-argon2id_hash :
      (password : Text) (fresh : Bytes) {h : Text}
      → argon2id_hash hasher password fresh ≡ ok h
      → argon2id_verify hasher h password ≡ ok true
  unfolding argon2id_hash argon2id_verify
  argon2id_verify-argon2id_hash password fresh e =
      ap false_if_refused (laws.verify-hash password fresh e)

  -- False is the answer to a refusal, and to nothing else.
  pub argon2id_verify_iff :
      (h password : Text)
      → (argon2id_verify hasher h password ≡ ok false) ↔ (
          (hasher.verify h password ≡ err verification_error)
          ⊎ (hasher.verify h password ≡ err invalid_hash))
  unfolding argon2id_verify
  argon2id_verify_iff h password = elim (Result-cases (hasher.verify h password)) [
    | inl (b, e) ↦ let yes = laws.verify_true h password e in ground arith
    | inr (x, e) ↦ ground arith
  ]
