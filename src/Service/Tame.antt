-- ===== src/Service/Tame.antt =====
-- Calls that put no key into `_cached_keystore_key`, and how they compose.
pub mod Accounts
pub mod Conversations
pub mod Handlers
use desperate.Prelude.{◌≡◌, refl, ◌∙◌, Option, none, ◌⊎◌, inl, inr}
use desperate.Outcome.{Result, ok, err}
use desperate.Effect.Keeps.{Keeps, IsPreorder, bind-Keeps, lift-Keeps, look-Keeps, update-Keeps}
use desperate.Codec.Words.{Bytes}
use desperate.Store.AtomicWrite.{FileSystem}
use desperate.Service.{Service, LoginState, M, pass, ◌>>=◌, lift, look, update, on_files, suppress}

abbrev pub cached : {R : Type 0} → Service R → Option (Bytes)
cached s = s.login.cached_keystore_key

-- The cached key is the one there was, or gone.
abbrev pub NoNewKey : {R : Type 0} → Service R → Service R → Type 0
NoNewKey s s' = (cached s' ≡ cached s) ⊎ (cached s' ≡ none)

NoNewKey-trans : {R : Type 0} (s t u : Service R) → NoNewKey s t → NoNewKey t u → NoNewKey s u
NoNewKey-trans s t u h (inr e) = inr e
NoNewKey-trans s t u (inl d) (inl e) = inl (e ∙ d)
NoNewKey-trans s t u (inr d) (inl e) = inr (e ∙ d)

abbrev pub Tame : {R A : Type 0} → M R A → Type 0
Tame m = Keeps NoNewKey m

ordered : {R : Type 0} → IsPreorder (NoNewKey {R = R})
ordered = record { reflexive = λ s. inl refl; transitive = λ s t u h k. NoNewKey-trans s t u h k }

pub bind-Tame :
    {R A B : Type 0} {m : M R A} {next : A → M R B}
    → Tame m
    → ((a : A) → Tame (next a))
    → Tame (m >>= next)
bind-Tame h k = bind-Keeps ordered h k

pub lift-Tame : {R A : Type 0} (r : Result A) → Tame {R = R} (lift r)
lift-Tame r = lift-Keeps ordered r

pub look-Tame : {R A : Type 0} (f : Service R → Result A) → Tame (look f)
look-Tame f = look-Keeps ordered f

pub update-Tame :
    {R : Type 0} (f : Service R → Service R)
    → ((s : Service R) → NoNewKey s (f s))
    → Tame (update f)
update-Tame f h = update-Keeps f h

pub on_files-Tame :
    {R A : Type 0} (f : FileSystem → Result A × FileSystem) → Tame {R = R} (on_files f)
unfolding on_files
on_files-Tame f = record { keeps = λ s. inl refl }

pub suppress-Tame : {R : Type 0} {m : M R (Unit {0})} → Tame m → Tame (suppress m)
unfolding suppress
suppress-Tame h = record { keeps = λ s. h.keeps s }

pub ruleset tame_rules = (bind-Tame, lift-Tame, look-Tame, on_files-Tame, suppress-Tame)
