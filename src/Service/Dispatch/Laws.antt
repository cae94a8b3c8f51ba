-- ===== src/Service/Dispatch/Laws.antt =====
-- Where the key comes from that opens the keystore without the password.
use desperate.Prelude.{
  ◌≡◌, ◌≢◌, refl, sym, ap, subst, ◌∙◌, arith, true, none, some, ◌⊎◌, inl, inr, Bool-cases,
  Option-cases,
}
use desperate.Outcome.{ok, Result-cases}
use desperate.Codec.Words.{Bytes}
use desperate.Codec.Hex.{Text}
use desperate.Json.{Fields}
use desperate.Srp.{SrpSession, verify_server}
use desperate.Service.{Packages, Draws, Service, lift, look, update, text_param}
use desperate.Service.Login.{srp_verify, session_of, settle_login, reported_key}
use desperate.Service.Dispatch.{
  Method, unlock, generate, start, challenge, verify, has, initiate, encrypts, decrypts, reset,
  unknown, handle,
}
use desperate.Service.Tame.{cached}
use desperate.Service.Tame.Handlers.{handle-NoNewKey}

-- A service, and parameters of srp_verify, with which it finds the server authenticated while the
-- key `k` is staged.
pub record Authenticates {R : Type 0} (params : Fields) (s : Service R) (k : Bytes) : Type 0 where
  pub srp : SrpSession
  pub m2 : Text
  pub active : s.login.srp_session ≡ some srp
  pub sent : text_param "M2" params ≡ ok m2
  pub staged : s.login.pending_keystore_key ≡ some k
  pub verified : verify_server srp m2 ≡ true

module _ {R : Type 0} where
  verified_origin :
      (params : Fields) (s : Service R) (srp : SrpSession) (m2 : Text) {k : Bytes}
      → s.login.srp_session ≡ some srp
      → text_param "M2" params ≡ ok m2
      → cached (srp_verify params s).1 ≡ some k
      → (cached s ≡ some k) ⊎ Authenticates params s k
  unfolding srp_verify look lift update session_of
  verified_origin params s srp m2 active sent h = elim (Bool-cases (verify_server srp m2)) [
    | inl good ↦ elim (Result-cases (reported_key true srp)) [
      | inl (key, q) ↦ inr (record {
        srp = srp;
        m2 = m2;
        active = active;
        sent = sent;
        staged = unfold settle_login in rw (active, sent, good, q) at h;
        verified = good;
      })
      | inr (e, q) ↦ inl (rw (active, sent, good, q) at h)
    ]
    | inr bad ↦ absurd (unfold settle_login reported_key in ground arith)
  ]

  verify_origin :
      (params : Fields) (s : Service R) {k : Bytes}
      → cached (srp_verify params s).1 ≡ some k
      → (cached s ≡ some k) ⊎ Authenticates params s k
  verify_origin params s h = elim (Option-cases s.login.srp_session) [
    | inl e ↦ inl (unfold srp_verify look session_of in rw e at h)
    | inr (srp, e) ↦ elim (Result-cases (text_param "M2" params)) [
      | inl (m2, q) ↦ verified_origin params s srp m2 e q h
      | inr (x, q) ↦ inl (unfold srp_verify look lift session_of in rw (e, q) at h)
    ]
  ]

module _ {R : Type 0} (p : Packages R) where
  -- The states that calls of `_handle` lead to, whatever they draw, return or raise.
  pub data Reachable (s₀ : Service R) : Service R → Type 0 where
    initial : Reachable s₀ s₀
    called :
        (s s' : Service R) (draws : Draws) (m : Method) (params : Fields)
        → Reachable s₀ s
        → s' ≡ (handle p draws m params s).1
        → Reachable s₀ s'

  not_verify : (m : Method) → (m ≡ verify) ⊎ (m ≢ verify)
  not_verify verify = inl refl
  not_verify unlock = inr (λ e. cc)
  not_verify generate = inr (λ e. cc)
  not_verify start = inr (λ e. cc)
  not_verify challenge = inr (λ e. cc)
  not_verify has = inr (λ e. cc)
  not_verify initiate = inr (λ e. cc)
  not_verify encrypts = inr (λ e. cc)
  not_verify decrypts = inr (λ e. cc)
  not_verify reset = inr (λ e. cc)
  not_verify unknown = inr (λ e. cc)

  key_origin :
      (draws : Draws) (m : Method) (params : Fields) (s : Service R) {k : Bytes}
      → cached (handle p draws m params s).1 ≡ some k
      → (cached s ≡ some k) ⊎ ((m ≡ verify) × Authenticates params s k)
  key_origin draws m params s {k} h = elim (not_verify m) [
    | inl e ↦ elim (verify_origin params s {k = k} (unfold handle in rw e at h)) [
      | inl kept ↦ inl kept
      | inr found ↦ inr (e, found)
    ]
    | inr other ↦ elim (handle-NoNewKey p draws m params s other) [
      | inl kept ↦ inl (sym kept ∙ h)
      | inr gone ↦ absurd (cc)
    ]
  ]

  -- A call of srp_verify, between the states s₀ and s, that authenticated the server while the key
  -- `k` was staged: calls lead from s₀ to it, and from the state that it leaves to s.
  pub record KeyOrigin (s₀ s : Service R) (k : Bytes) : Type 0 where
    pub before : Service R
    pub draws : Draws
    pub params : Fields
    pub reached : Reachable s₀ before
    pub authenticates : Authenticates params before k
    pub led : Reachable (handle p draws verify params before).1 s

  -- In every state that calls lead to from one with no cached key, if a key is cached: on the way
  -- there was a call of srp_verify, in a state in which that key was staged, that found the
  -- server's proof verified; calls lead from the start to that state, and from the state that the
  -- call left on.
  pub cached_key_authenticated :
      (s₀ s : Service R) (k : Bytes)
      → Reachable s₀ s
      → cached s₀ ≡ none
      → cached s ≡ some k
      → KeyOrigin s₀ s k
  cached_key_authenticated s₀ s k initial none_yet h = absurd (cc)
  cached_key_authenticated s₀ s k (called t s' draws m params before e) none_yet h =
      elim (key_origin draws m params t (rw e at h)) [
        | inl earlier ↦
            let a = cached_key_authenticated s₀ t k before none_yet earlier in
            record {
              before = a.before;
              draws = a.draws;
              params = a.params;
              reached = a.reached;
              authenticates = a.authenticates;
              led = called t s' draws m params a.led e;
            }
        | inr (same, found) ↦ record {
          before = t;
          draws = draws;
          params = params;
          reached = before;
          authenticates = found;
          led =
              subst (λ q. Reachable q s') (e ∙ ap (λ n. (handle p draws n params t).1) same)
                initial;
        }
      ]
