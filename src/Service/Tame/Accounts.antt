-- ===== src/Service/Tame/Accounts.antt =====
-- Opening the keystore, registering and starting a login put no key into `_cached_keystore_key`.
use desperate.Prelude.{Bool, true, false, refl, Option, none, some, inl, inr}
use desperate.Codec.Words.{Bytes}
use desperate.Codec.Hex.{Text}
use desperate.Json.{Fields}
use desperate.Keys.Types.{IdentityBundle}
use desperate.Srp.{SrpSession}
use desperate.Store.{StateStore}
use desperate.Service.{Packages, Draws, Write, require_store, require_bundle, save}
use desperate.Service.Keystore.{
  set_store, adopt, read_bundle, open_store, open_with_salt, open_cached, unlock_with,
  unlock_keystore, register, keep_keys, generate_bundle,
}
use desperate.Service.Login.{srp_start, srp_challenge, answer_challenge}
use desperate.Service.Tame.{Tame, bind-Tame, update-Tame, tame_rules}

module _ {R : Type 0} where
  pub require_store-Tame : Tame {R = R} require_store
  unfolding require_store
  require_store-Tame = search (tame_rules) depth 20

  pub require_bundle-Tame : Tame {R = R} require_bundle
  unfolding require_bundle
  require_bundle-Tame = search (tame_rules) depth 20

module _ {R : Type 0} (p : Packages R) where
  pub save-Tame :
      (st : StateStore) (id : Text) (state : Fields) (w : Write) → Tame (save p st id state w)
  unfolding save
  save-Tame st id state w = search (tame_rules) depth 20

  pub set_store-Tame : (st : Option StateStore) → Tame (set_store p st)
  unfolding set_store
  set_store-Tame st = update-Tame _ (λ s. inl refl)

  pub adopt-Tame : (b : Option IdentityBundle) → Tame (adopt p b)
  unfolding adopt
  adopt-Tame (some b) =
      bind-Tame (update-Tame _ (λ s. inl refl)) (λ u. search (tame_rules) depth 20)
  adopt-Tame none = bind-Tame (set_store-Tame none) (λ u. search (tame_rules) depth 20)

  pub read_bundle-Tame : (st : StateStore) (there : Bool) → Tame (read_bundle p st there)
  unfolding read_bundle
  read_bundle-Tame st false = search (tame_rules, set_store-Tame) depth 20
  read_bundle-Tame st true = search (tame_rules, adopt-Tame) depth 20

  pub open_store-Tame : (st : Option StateStore) → Tame (open_store p st)
  unfolding open_store
  open_store-Tame none = search (tame_rules) depth 20
  open_store-Tame (some st) = search (tame_rules, set_store-Tame, read_bundle-Tame) depth 20

  pub open_with_salt-Tame :
      (password : Text) (salt : Option Bytes) → Tame (open_with_salt p password salt)
  unfolding open_with_salt
  open_with_salt-Tame password none = search (tame_rules) depth 20
  open_with_salt-Tame password (some salt) = search (tame_rules, open_store-Tame) depth 20

  pub open_cached-Tame : (password : Text) (key : Option Bytes) → Tame (open_cached p password key)
  unfolding open_cached
  open_cached-Tame password (some key) =
      search (tame_rules, update-Tame, inl, inr, open_store-Tame) depth 20
  open_cached-Tame password none = search (tame_rules, open_with_salt-Tame) depth 20

  pub unlock_with-Tame : (password : Text) (missing : Bool) → Tame (unlock_with p password missing)
  unfolding unlock_with
  unlock_with-Tame password true = search (tame_rules) depth 20
  unlock_with-Tame password false = search (tame_rules, open_cached-Tame) depth 20

  pub unlock_keystore-Tame : (params : Fields) → Tame (unlock_keystore p params)
  unfolding unlock_keystore
  unlock_keystore-Tame params = search (tame_rules, unlock_with-Tame) depth 20

  pub register-Tame :
      (b : IdentityBundle) (draws : Draws) (reply : Fields) (st : Option StateStore)
      → Tame (register p b draws reply st)
  unfolding register
  register-Tame b draws reply none = search (tame_rules) depth 20
  register-Tame b draws reply (some st) =
      search (tame_rules, update-Tame, inl, set_store-Tame, save-Tame) depth 20

  pub keep_keys-Tame :
      (b : IdentityBundle) (draws : Draws) (key : Bytes) (reply : Fields)
      → Tame (keep_keys p b draws key reply)
  unfolding keep_keys
  keep_keys-Tame b draws key reply = search (tame_rules, register-Tame) depth 20

  pub generate_bundle-Tame :
      (draws : Draws) (params : Fields) → Tame (generate_bundle p draws params)
  unfolding generate_bundle
  generate_bundle-Tame draws params = search (tame_rules, keep_keys-Tame) depth 20

  pub srp_start-Tame : (draws : Draws) (params : Fields) → Tame {R = R} (srp_start draws params)
  unfolding srp_start
  srp_start-Tame draws params = search (tame_rules, update-Tame, inl, inr) depth 20

  pub answer_challenge-Tame :
      (srp : SrpSession) (salt b : Text) → Tame (answer_challenge p srp salt b)
  unfolding answer_challenge
  answer_challenge-Tame srp salt b = record { keeps = λ s. inl refl }

  pub srp_challenge-Tame : (params : Fields) → Tame (srp_challenge p params)
  unfolding srp_challenge
  srp_challenge-Tame params = search (tame_rules, update-Tame, inl, answer_challenge-Tame) depth 20
