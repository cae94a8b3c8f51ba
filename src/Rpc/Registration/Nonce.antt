-- ===== src/Rpc/Registration/Nonce.antt =====
-- main.py: what a registration has done when it refuses the nonce.
use desperate.Prelude.{◌≡◌, refl, ap, true, false, ◌||◌, not, none, length, ◌==◌, nat_eq, []}
use desperate.Outcome.{ok}
use desperate.Effect.{lift, look, attempt}
use desperate.Codec.Hex.{Text}
use desperate.Codec.Ascii.{ascii}
use desperate.Kdf.{is_empty}
use desperate.Json.{Fields, find}
use desperate.Keys.Types.{IdentityBundle}
use desperate.Srp.{private_value, generator}
use desperate.Srp.Laws.{pad_fits, pow_mod_fits}
use desperate.Rpc.{RpcPackages, RpcDraws, Rpc, caught, text_if_true, get_either}
use desperate.Rpc.Registration.{
  handle_generate_identity_bundle, generate_given, clear_keystore, register_with, srp_verifier,
  sign_nonce, new_keystore, bad_nonce,
}

module _ (p : RpcPackages) where
  nothing_cleared :
      (password : Text) (s : Rpc)
      → s.keystore_dir ≡ false
      → clear_keystore p password s.keystore_dir s ≡ (ok none, s)
  unfolding clear_keystore lift
  nothing_cleared password s e = ap (λ there. clear_keystore p password there s) e

  -- A registration without a keystore, whose nonce is not 64 characters long: once the new keystore
  -- was made and saved, the reply is the error about the nonce, and the server is left with the
  -- new keystore.
  pub handle_generate_identity_bundle-bad_nonce :
      (draws : RpcDraws) (params : Fields) (username password nonce : Text) (s s' : Rpc)
      {bundle : IdentityBundle}
      → get_either "keystore_password" "password" [] params ≡ ok password
      → is_empty password ≡ false
      → get_either "user_id" "username" (ascii "local") params ≡ ok username
      → text_if_true (find "nonce" params) ≡ ok nonce
      → (is_empty nonce || not (length nonce == 64)) ≡ true
      → s.keystore_dir ≡ false
      → new_keystore p draws username password s ≡ (ok bundle, s')
      → handle_generate_identity_bundle p draws params s ≡ (ok (bad_nonce nonce), s')
  unfolding handle_generate_identity_bundle generate_given register_with srp_verifier sign_nonce
      caught attempt lift look
  handle_generate_identity_bundle-bad_nonce draws params username password nonce s s' given full
        named sent bad none_yet made =
      rw
        (
          given,
          full,
          named,
          nothing_cleared password s none_yet,
          made,
          pad_fits _ (
              pow_mod_fits generator
                (private_value p.suite.hashes username password draws.srp_salt)),
          sent,
          bad,
        )
        refl
