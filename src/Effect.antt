-- ===== src/Effect.antt =====
-- A call that changes a state and may raise: it leaves the state that it had reached.
pub mod Keeps
pub mod Returns
use desperate.Outcome.{Result, Exception, ok, err}

abbrev pub Effect : Type 0 → Type 0 → Type 0
Effect S A = S → Result A × S

module _ {S : Type 0} where
  abbrev pub pass : {A B : Type 0} → Result A × S → (A → Effect S B) → Result B × S
  pass (err e, s) next = (err e, s)
  pass (ok a, s) next = next a s

  infixl 5 ◌>>=◌ ◌>>◌
  abbrev pub ◌>>=◌ : {A B : Type 0} → Effect S A → (A → Effect S B) → Effect S B
  ◌>>=◌ m next s = pass (m s) next

  abbrev pub ◌>>◌ : {A B : Type 0} → Effect S A → Effect S B → Effect S B
  first >> second = first >>= λ _. second

  unfoldable pub lift : {A : Type 0} → Result A → Effect S A
  lift r s = (r, s)

  -- a value of the state
  unfoldable pub look : {A : Type 0} → (S → Result A) → Effect S A
  look f s = (f s, s)

  unfoldable pub update : (S → S) → Effect S (Unit {0})
  update f s = (ok tt, f s)

  abbrev pub recover_with : {A : Type 0} → (Exception → Effect S A) → Result A × S → Result A × S
  recover_with handler (ok a, s) = (ok a, s)
  recover_with handler (err e, s) = handler e s

  -- `try: … except …`, with what the handlers do for an exception
  unfoldable pub attempt : {A : Type 0} → Effect S A → (Exception → Effect S A) → Effect S A
  attempt m handler s = recover_with handler (m s)
