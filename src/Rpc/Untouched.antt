-- ===== src/Rpc/Untouched.antt =====
-- The calls of main.py that leave the conversations' keys and pending bundles alone.
pub mod Logins
use desperate.Prelude.{◌≡◌, refl, ◌∙◌, Bool, true, false, Option, none, some}
use desperate.Outcome.{Result, Exception, ok, err, invalid_tag}
use desperate.Effect.{Effect, ◌>>=◌, lift, look, update, attempt}
use desperate.Effect.Keeps.{Keeps, IsPreorder, keep_rules, update-Keeps}
use desperate.Codec.Words.{Bytes}
use desperate.Codec.Hex.{Text}
use desperate.Json.{Json, Fields}
use desperate.Keys.Types.{IdentityBundle}
use desperate.Srp.{SrpSession}
use desperate.Store.{StateStore}
use desperate.Rpc.{
  RpcPackages, RpcDraws, Rpc, Handler, caught, none_if_raised, stored_identity, load_from,
  load_identity, load_keystore, keep_store, open_keystore, ensure_keystore,
}
use desperate.Rpc.Registration.{
  unlock_given, handle_unlock_keystore, not_overwritten, remove_unless, clear_keystore,
  create_keystore, save_identity, new_keystore, sign_nonce, register_with, generate_given,
  handle_generate_identity_bundle,
}

abbrev pub SameConversations : Rpc → Rpc → Type 0
SameConversations s t =
    (t.session_keys ≡ s.session_keys)
    × (t.pending_initiation_bundles ≡ s.pending_initiation_bundles)

pub same_order : IsPreorder SameConversations
same_order = record {
  reflexive = λ s. (refl, refl);
  transitive = λ s t u h k. (k.0 ∙ h.0, k.1 ∙ h.1);
}

abbrev pub Untouched : {A : Type 0} → Effect Rpc A → Type 0
Untouched m = Keeps SameConversations m

pub unchanged : (f : Rpc → Rpc) → ((s : Rpc) → SameConversations s (f s)) → Untouched (update f)
unchanged f h = update-Keeps f h

pub ruleset untouched_rules = (keep_rules, same_order)

pub caught-Untouched : (reply : Fields) {m : Handler} → Untouched m → Untouched (caught reply m)
unfolding caught
caught-Untouched reply h = search (untouched_rules, h) depth 20

none_if_raised-Untouched :
    {A : Type 0} {m : Effect Rpc (Option A)} → Untouched m → Untouched (none_if_raised m)
unfolding none_if_raised
none_if_raised-Untouched h = search (untouched_rules, h) depth 20

not_overwritten-Untouched : (e : Exception) → Untouched (not_overwritten e)
unfolding not_overwritten
not_overwritten-Untouched invalid_tag = search (untouched_rules) depth 20
not_overwritten-Untouched e = search (untouched_rules) depth 20

module _ (p : RpcPackages) where
  stored_identity-Untouched : (st : StateStore) → Untouched (stored_identity p st)
  unfolding stored_identity
  stored_identity-Untouched st = search (untouched_rules) depth 20

  load_from-Untouched : (st : Option StateStore) → Untouched (load_from p st)
  unfolding load_from
  load_from-Untouched none = search (untouched_rules) depth 20
  load_from-Untouched (some st) =
      search (untouched_rules, none_if_raised-Untouched, stored_identity-Untouched) depth 20

  pub load_identity-Untouched : Untouched (load_identity p)
  unfolding load_identity
  load_identity-Untouched = search (untouched_rules, load_from-Untouched) depth 20

  load_keystore-Untouched : (password : Text) → Untouched (load_keystore p password)
  unfolding load_keystore
  load_keystore-Untouched password = search (untouched_rules) depth 20

  keep_store-Untouched : (st : StateStore) (password : Text) → Untouched (keep_store p st password)
  unfolding keep_store
  keep_store-Untouched st password = unchanged _ (λ s. (refl, refl))

  open_keystore-Untouched :
      (password : Text) (st : Option StateStore) → Untouched (open_keystore p password st)
  unfolding open_keystore
  open_keystore-Untouched password (some st) = search (untouched_rules) depth 20
  open_keystore-Untouched password none =
      search
        (
          untouched_rules, none_if_raised-Untouched, stored_identity-Untouched,
          load_keystore-Untouched, keep_store-Untouched,
        )
        depth 20

  ensure_keystore-Untouched : (password : Text) → Untouched (ensure_keystore p password)
  unfolding ensure_keystore
  ensure_keystore-Untouched password = search (untouched_rules, open_keystore-Untouched) depth 20

  unlock_given-Untouched :
      (password : Text) (missing : Bool) → Untouched (unlock_given p password missing)
  unfolding unlock_given
  unlock_given-Untouched password true = search (untouched_rules) depth 20
  unlock_given-Untouched password false =
      search (untouched_rules, caught-Untouched, ensure_keystore-Untouched) depth 20

  pub handle_unlock_keystore-Untouched :
      (params : Fields) → Untouched (handle_unlock_keystore p params)
  unfolding handle_unlock_keystore
  handle_unlock_keystore-Untouched params =
      search (untouched_rules, unlock_given-Untouched) depth 20

  remove_unless-Untouched : (refused : Option Fields) → Untouched (remove_unless p refused)
  unfolding remove_unless update lift
  remove_unless-Untouched (some refusal) = search (untouched_rules) depth 20
  remove_unless-Untouched none = record { keeps = λ s. (refl, refl) }

  clear_keystore-Untouched :
      (password : Text) (there : Bool) → Untouched (clear_keystore p password there)
  unfolding clear_keystore
  clear_keystore-Untouched password false = search (untouched_rules) depth 20
  clear_keystore-Untouched password true =
      search
        (
          untouched_rules, load_keystore-Untouched, stored_identity-Untouched,
          not_overwritten-Untouched, remove_unless-Untouched,
        )
        depth 20

  create_keystore-Untouched :
      (draws : RpcDraws) (password : Text) → Untouched (create_keystore p draws password)
  unfolding create_keystore
  create_keystore-Untouched draws password = record { keeps = λ s. (refl, refl) }

  save_identity-Untouched :
      (draws : RpcDraws) (st : StateStore) (state : Fields)
      → Untouched (save_identity p draws st state)
  unfolding save_identity
  save_identity-Untouched draws st state = record { keeps = λ s. (refl, refl) }

  new_keystore-Untouched :
      (draws : RpcDraws) (username password : Text)
      → Untouched (new_keystore p draws username password)
  unfolding new_keystore
  new_keystore-Untouched draws username password =
      search
        (untouched_rules, create_keystore-Untouched, save_identity-Untouched, keep_store-Untouched)
        depth 20

  sign_nonce-Untouched :
      (b : IdentityBundle) (salt verifier : Bytes) (nonce : Text) (bad : Bool)
      → Untouched (sign_nonce p b salt verifier nonce bad)
  unfolding sign_nonce
  sign_nonce-Untouched b salt verifier nonce true = search (untouched_rules) depth 20
  sign_nonce-Untouched b salt verifier nonce false = search (untouched_rules) depth 20

  register_with-Untouched :
      (draws : RpcDraws) (username password : Text) (given : Option Json) (refused : Option Fields)
      → Untouched (register_with p draws username password given refused)
  unfolding register_with
  register_with-Untouched draws username password given (some refusal) =
      search (untouched_rules) depth 20
  register_with-Untouched draws username password given none =
      search (untouched_rules, new_keystore-Untouched, sign_nonce-Untouched) depth 20

  generate_given-Untouched :
      (draws : RpcDraws) (username password : Text) (given : Option Json) (missing : Bool)
      → Untouched (generate_given p draws username password given missing)
  unfolding generate_given
  generate_given-Untouched draws username password given true = search (untouched_rules) depth 20
  generate_given-Untouched draws username password given false =
      search (untouched_rules, caught-Untouched, clear_keystore-Untouched, register_with-Untouched)
        depth 20

  pub handle_generate_identity_bundle-Untouched :
      (draws : RpcDraws) (params : Fields)
      → Untouched (handle_generate_identity_bundle p draws params)
  unfolding handle_generate_identity_bundle
  handle_generate_identity_bundle-Untouched draws params =
      search (untouched_rules, generate_given-Untouched) depth 20
