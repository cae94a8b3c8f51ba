-- ===== src/Effect/Returns.antt =====
-- Calls that return from every state.
use desperate.Prelude.{◌≡◌, refl}
use desperate.Outcome.{Result, Exception, ok, err}
use desperate.Effect.{Effect, pass, ◌>>=◌, lift, look, attempt, recover_with}

pub record Returns {S A : Type 0} (m : Effect S A) : Type 0 where
  pub returns : (s : S) → (a : A) × ((m s).0 ≡ ok a)

module _ {S : Type 0} where
  passed :
      {A B : Type 0} (next : A → Effect S B)
      → ((a : A) → Returns (next a))
      → (r : Result A × S) (a : A) → r.0 ≡ ok a
      → (b : B) × ((pass r next).0 ≡ ok b)
  passed next k (ok c, t) a e = (k c).returns t
  passed next k (err x, t) a e = absurd (cc)

  pub bind-Returns :
      {A B : Type 0} {m : Effect S A} {next : A → Effect S B}
      → Returns m
      → ((a : A) → Returns (next a))
      → Returns (m >>= next)
  bind-Returns {m} {next} h k = record {
    returns = λ s. let (a, e) = h.returns s in passed next k (m s) a e;
  }

  handled :
      {A : Type 0} (handler : Exception → Effect S A)
      → ((e : Exception) → Returns (handler e))
      → (r : Result A × S) → (a : A) × ((recover_with handler r).0 ≡ ok a)
  handled handler k (ok a, t) = (a, refl)
  handled handler k (err e, t) = (k e).returns t

  -- `try: … except Exception: …`, whatever is tried
  pub attempt-Returns :
      {A : Type 0} (m : Effect S A) {handler : Exception → Effect S A}
      → ((e : Exception) → Returns (handler e))
      → Returns (attempt m handler)
  unfolding attempt
  attempt-Returns m {handler} k = record { returns = λ s. handled handler k (m s) }

  pub lift-Returns : {A : Type 0} (a : A) → Returns {S = S} (lift (ok a))
  unfolding lift
  lift-Returns a = record { returns = λ s. (a, refl) }

  pub known-Returns : {A : Type 0} {r : Result A} (a : A) → r ≡ ok a → Returns {S = S} (lift r)
  unfolding lift
  known-Returns a e = record { returns = λ s. (a, e) }

  -- A value that is known when the next call begins.
  pub given-Returns :
      {A B : Type 0} {r : Result A} (next : A → Effect S B) (a : A)
      → r ≡ ok a
      → Returns (next a)
      → Returns (lift r >>= next)
  unfolding lift
  given-Returns next a e h = record { returns = λ s. rw e (h.returns s) }

  pub look-Returns : {A : Type 0} (f : S → A) → Returns (look (λ s. ok (f s)))
  unfolding look
  look-Returns f = record { returns = λ s. (f s, refl) }

pub ruleset return_rules = (bind-Returns, attempt-Returns, lift-Returns, look-Returns)
