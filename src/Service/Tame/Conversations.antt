-- ===== src/Service/Tame/Conversations.antt =====
-- Starting, using and resetting conversations puts no key into `_cached_keystore_key`.
use desperate.Prelude.{ℕ, Bool, true, false, refl, Option, none, some, inl}
use desperate.Codec.Words.{Bytes}
use desperate.Codec.Hex.{Text}
use desperate.Json.{Fields}
use desperate.Keys.Types.{IdentityBundle}
use desperate.Store.{StateStore}
use desperate.Service.{
  Packages, Draws, Write, SessionEntry, PendingSession, loaded, reload, restore, require_session,
  consume_opk,
}
use desperate.Service.Messages.{
  set_session, has_session, delete, forget_files, reset_session, initiate_session, save_pin,
  send_first, ratchet_encrypt, send_next, send, encrypt_message,
}
use desperate.Service.Tame.{Tame, update-Tame, tame_rules}
use desperate.Service.Tame.Accounts.{require_store-Tame, require_bundle-Tame, save-Tame}

module _ {R : Type 0} (p : Packages R) where
  pub has_session-Tame : (params : Fields) → Tame (has_session p params)
  unfolding has_session
  has_session-Tame params = search (tame_rules) depth 20

  pub delete-Tame : (st : StateStore) (id : Text) → Tame (delete p st id)
  unfolding delete
  delete-Tame st id = search (tame_rules) depth 20

  pub forget_files-Tame : (id : Text) → Tame (forget_files p id)
  unfolding forget_files
  forget_files-Tame id = search (tame_rules, require_store-Tame, delete-Tame) depth 20

  pub reset_session-Tame : (params : Fields) → Tame (reset_session p params)
  unfolding reset_session
  reset_session-Tame params = search (tame_rules, update-Tame, inl, forget_files-Tame) depth 20

  pub initiate_session-Tame :
      (draws : Draws) (params : Fields) → Tame (initiate_session p draws params)
  unfolding initiate_session
  initiate_session-Tame draws params =
      search (tame_rules, update-Tame, inl, require_bundle-Tame) depth 20

  pub save_pin-Tame :
      (st : StateStore) (id : Text) (key : Bytes) (w : Write) → Tame (save_pin p st id key w)
  unfolding save_pin
  save_pin-Tame st id key w = save-Tame p st _ _ w

  pub send_first-Tame :
      (draws : Draws) (id : Text) (plaintext aad : Bytes) (pending : PendingSession)
      → Tame (send_first p draws id plaintext aad pending)
  unfolding send_first set_session
  send_first-Tame draws id plaintext aad pending =
      search (tame_rules, update-Tame, inl, require_store-Tame, save_pin-Tame) depth 20

  pub reload-Tame : (st : StateStore) (id : Text) (there : Bool) → Tame (reload p st id there)
  unfolding reload loaded
  reload-Tame st id false = search (tame_rules) depth 20
  reload-Tame st id true = search (tame_rules, update-Tame, inl) depth 20

  pub restore-Tame : (id : Text) (known : Option (SessionEntry R)) → Tame (restore p id known)
  unfolding restore
  restore-Tame id (some entry) = search (tame_rules) depth 20
  restore-Tame id none = search (tame_rules, require_store-Tame, reload-Tame) depth 20

  pub require_session-Tame : (id : Text) → Tame (require_session p id)
  unfolding require_session
  require_session-Tame id = search (tame_rules, restore-Tame) depth 20

  pub ratchet_encrypt-Tame :
      (draws : Draws) (id : Text) (entry : SessionEntry R) (plaintext aad : Bytes)
      → Tame (ratchet_encrypt p draws id entry plaintext aad)
  unfolding ratchet_encrypt set_session
  ratchet_encrypt-Tame draws id entry plaintext aad = record { keeps = λ s. inl refl }

  pub send_next-Tame :
      (draws : Draws) (id : Text) (plaintext aad : Bytes)
      → Tame (send_next p draws id plaintext aad)
  unfolding send_next set_session
  send_next-Tame draws id plaintext aad =
      search (tame_rules, update-Tame, inl, require_session-Tame, ratchet_encrypt-Tame) depth 20

  pub send-Tame :
      (draws : Draws) (id : Text) (plaintext aad : Bytes) (pending : Option PendingSession)
      → Tame (send p draws id plaintext aad pending)
  unfolding send
  send-Tame draws id plaintext aad (some pending) = send_first-Tame draws id plaintext aad pending
  send-Tame draws id plaintext aad none = send_next-Tame draws id plaintext aad

  pub encrypt_message-Tame :
      (draws : Draws) (params : Fields) → Tame (encrypt_message p draws params)
  unfolding encrypt_message
  encrypt_message-Tame draws params = search (tame_rules, require_bundle-Tame, send-Tame) depth 20

  pub consume_opk-Tame :
      (st : StateStore) (b : IdentityBundle) (id : ℕ) (w : Write) → Tame (consume_opk p st b id w)
  unfolding consume_opk
  consume_opk-Tame st b id w = search (tame_rules, update-Tame, inl, save-Tame) depth 20
