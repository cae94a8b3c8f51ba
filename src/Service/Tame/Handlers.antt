-- ===== src/Service/Tame/Handlers.antt =====
-- Every call but `srp_verify` puts no key into `_cached_keystore_key`.
use desperate.Prelude.{ℕ, Bool, true, false, refl, ◌≢◌, Option, none, some, inl, inr, Bool-cases}
use desperate.Outcome.{Result, ok, err, value_error, unknown_method}
use desperate.Codec.Words.{Bytes}
use desperate.Codec.Hex.{Text}
use desperate.Json.{Json, Fields}
use desperate.Keys.Types.{IdentityBundle}
use desperate.Service.{Packages, Draws, Service, SessionEntry, require_session}
use desperate.Service.Messages.{set_session}
use desperate.Service.Reception.{
  drop_old, recover, consume_used, accept_first, pin_sender, ratchet_decrypt, receive_next, receive,
  decrypt_message, forgiven, tolerated,
}
use desperate.Service.Dispatch.{
  Method, unlock, generate, start, challenge, verify, has, initiate, encrypts, decrypts, reset,
  unknown, handle,
}
use desperate.Service.Tame.{Tame, NoNewKey, lift-Tame, update-Tame, tame_rules}
use desperate.Service.Tame.Accounts.{
  require_store-Tame, require_bundle-Tame, unlock_keystore-Tame, generate_bundle-Tame,
  srp_start-Tame, srp_challenge-Tame,
}
use desperate.Service.Tame.Conversations.{
  has_session-Tame, forget_files-Tame, reset_session-Tame, initiate_session-Tame, save_pin-Tame,
  require_session-Tame, encrypt_message-Tame, consume_opk-Tame,
}

module _ {R : Type 0} (p : Packages R) where
  drop_old-Tame :
      (id : Text) (initiated : Bool) (known : Option (SessionEntry R))
      → Tame (drop_old p id initiated known)
  unfolding drop_old
  drop_old-Tame id true (some entry) =
      search (tame_rules, update-Tame, inl, forget_files-Tame) depth 20
  drop_old-Tame id true none = search (tame_rules)
  drop_old-Tame id false known = search (tame_rules)

  forgiven-NoNewKey :
      {A : Type 0} (s : Service R) (r : Result A × Service R)
      → NoNewKey s r.1
      → NoNewKey s (forgiven r).1
  forgiven-NoNewKey s (ok a, t) h = h
  forgiven-NoNewKey s (err e, t) h = elim (Bool-cases (tolerated e)) [
    | inl q ↦ rw q h
    | inr q ↦ rw q h
  ]

  recover-Tame : (id : Text) (skip : Bool) → Tame (recover p id skip)
  unfolding recover
  recover-Tame id true = record { keeps = λ s. inl refl }
  recover-Tame id false = record {
    keeps = λ s. forgiven-NoNewKey s (require_session p id s) ((require_session-Tame p id).keeps s);
  }

  consume_used-Tame :
      (draws : Draws) (b : IdentityBundle) (id : Option ℕ) (used : Bool)
      → Tame (consume_used p draws b id used)
  unfolding consume_used
  consume_used-Tame draws b (some id) false =
      search (tame_rules, require_store-Tame, consume_opk-Tame) depth 20
  consume_used-Tame draws b (some id) true = search (tame_rules)
  consume_used-Tame draws b none used = search (tame_rules)

  accept_first-Tame :
      (draws : Draws) (id : Text) (payload : Bytes) (sender : Text) (initiation : Json)
      (pinned : Option Bytes) (b : IdentityBundle)
      → Tame (accept_first p draws id payload sender initiation pinned b)
  unfolding accept_first set_session
  accept_first-Tame draws id payload sender initiation pinned b =
      search (tame_rules, update-Tame, inl, consume_used-Tame, require_store-Tame, save_pin-Tame)
        depth 30

  pin_sender-Tame :
      (draws : Draws) (id : Text) (sender : Text) (entry : SessionEntry R) (no_key no_text : Bool)
      → Tame (pin_sender p draws id sender entry no_key no_text)
  unfolding pin_sender set_session
  pin_sender-Tame draws id sender entry false no_text = search (tame_rules)
  pin_sender-Tame draws id sender entry true true = search (tame_rules)
  pin_sender-Tame draws id sender entry true false =
      search (tame_rules, update-Tame, inl, require_store-Tame, save_pin-Tame) depth 20

  ratchet_decrypt-Tame :
      (draws : Draws) (id : Text) (entry : SessionEntry R) (wire aad : Bytes)
      → Tame (ratchet_decrypt p draws id entry wire aad)
  unfolding ratchet_decrypt set_session
  ratchet_decrypt-Tame draws id entry wire aad = record { keeps = λ s. inl refl }

  receive_next-Tame :
      (draws : Draws) (id : Text) (payload : Bytes) (sender : Text) (entry : SessionEntry R)
      → Tame (receive_next p draws id payload sender entry)
  unfolding receive_next set_session
  receive_next-Tame draws id payload sender entry =
      search (tame_rules, pin_sender-Tame, ratchet_decrypt-Tame) depth 20

  receive-Tame :
      (draws : Draws) (id : Text) (payload : Bytes) (sender : Text) (initiation : Json)
      (pinned : Option Bytes) (b : IdentityBundle) (known : Option (SessionEntry R))
      → Tame (receive p draws id payload sender initiation pinned b known)
  unfolding receive
  receive-Tame draws id payload sender initiation pinned b (some entry) =
      receive_next-Tame draws id payload sender entry
  receive-Tame draws id payload sender initiation pinned b none =
      search (tame_rules, accept_first-Tame) depth 20

  decrypt_message-Tame : (draws : Draws) (params : Fields) → Tame (decrypt_message p draws params)
  unfolding decrypt_message
  decrypt_message-Tame draws params =
      search
        (
          tame_rules, require_bundle-Tame, require_store-Tame, drop_old-Tame, recover-Tame,
          receive-Tame,
        )
        depth 30

  -- No method but srp_verify puts a key into the cache.
  pub handle-NoNewKey :
      (draws : Draws) (m : Method) (params : Fields) (s : Service R)
      → m ≢ verify
      → NoNewKey s (handle p draws m params s).1
  unfolding handle
  handle-NoNewKey draws unlock params s other = (unlock_keystore-Tame p params).keeps s
  handle-NoNewKey draws generate params s other = (generate_bundle-Tame p draws params).keeps s
  handle-NoNewKey draws start params s other = (srp_start-Tame p draws params).keeps s
  handle-NoNewKey draws challenge params s other = (srp_challenge-Tame p params).keeps s
  handle-NoNewKey draws verify params s other = absurd (other refl)
  handle-NoNewKey draws has params s other = (has_session-Tame p params).keeps s
  handle-NoNewKey draws initiate params s other = (initiate_session-Tame p draws params).keeps s
  handle-NoNewKey draws encrypts params s other = (encrypt_message-Tame p draws params).keeps s
  handle-NoNewKey draws decrypts params s other = (decrypt_message-Tame draws params).keeps s
  handle-NoNewKey draws reset params s other = (reset_session-Tame p params).keeps s
  handle-NoNewKey draws unknown params s other =
      (lift-Tame {R = R} {A = Fields} (err (value_error unknown_method))).keeps s
