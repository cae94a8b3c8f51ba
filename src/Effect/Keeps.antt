-- ===== src/Effect/Keeps.antt =====
-- A relation between the states before and after, kept by calls that are made of calls that keep it.
use desperate.Outcome.{Result, Exception, ok, err}
use desperate.Effect.{Effect, pass, ◌>>=◌, lift, look, update, attempt, recover_with}

pub record IsPreorder {S : Type 0} (Rel : S → S → Type 0) : Type 0 where
  pub reflexive : (s : S) → Rel s s
  pub transitive : (s t u : S) → Rel s t → Rel t u → Rel s u

pub record Keeps {S A : Type 0} (Rel : S → S → Type 0) (m : Effect S A) : Type 0 where
  pub keeps : (s : S) → Rel s (m s).1

module _ {S : Type 0} {Rel : S → S → Type 0} (order : IsPreorder Rel) where
  pass-Keeps :
      {A B : Type 0} (next : A → Effect S B)
      → ((a : A) → Keeps Rel (next a))
      → (s : S) (r : Result A × S) → Rel s r.1
      → Rel s (pass r next).1
  pass-Keeps next keep s (err e, t) h = h
  pass-Keeps next keep s (ok a, t) h = order.transitive s t (next a t).1 h ((keep a).keeps t)

  pub bind-Keeps :
      {A B : Type 0} {m : Effect S A} {next : A → Effect S B}
      → Keeps Rel m
      → ((a : A) → Keeps Rel (next a))
      → Keeps Rel (m >>= next)
  bind-Keeps {m} {next} h k = record { keeps = λ s. pass-Keeps next k s (m s) (h.keeps s) }

  handled :
      {A : Type 0} (handler : Exception → Effect S A)
      → ((e : Exception) → Keeps Rel (handler e))
      → (s : S) (r : Result A × S) → Rel s r.1
      → Rel s (recover_with handler r).1
  handled handler keep s (ok a, t) h = h
  handled handler keep s (err e, t) h = order.transitive s t (handler e t).1 h ((keep e).keeps t)

  pub attempt-Keeps :
      {A : Type 0} {m : Effect S A} {handler : Exception → Effect S A}
      → Keeps Rel m
      → ((e : Exception) → Keeps Rel (handler e))
      → Keeps Rel (attempt m handler)
  unfolding attempt
  attempt-Keeps {m} {handler} h k = record { keeps = λ s. handled handler k s (m s) (h.keeps s) }

  pub lift-Keeps : {A : Type 0} (r : Result A) → Keeps Rel (lift r)
  unfolding lift
  lift-Keeps r = record { keeps = λ s. order.reflexive s }

  pub look-Keeps : {A : Type 0} (f : S → Result A) → Keeps Rel (look f)
  unfolding look
  look-Keeps f = record { keeps = λ s. order.reflexive s }

pub update-Keeps :
    {S : Type 0} {Rel : S → S → Type 0} (f : S → S) → ((s : S) → Rel s (f s)) → Keeps Rel (update f)
unfolding update
update-Keeps f h = record { keeps = h }

pub ruleset keep_rules = (bind-Keeps, attempt-Keeps, lift-Keeps, look-Keeps)
