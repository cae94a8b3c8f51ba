-- ===== src/Outcome.antt =====
-- Python exceptions as values. A constructor stands for an exception class; `Cause` tells the
-- ValueErrors apart that the program raises itself. Message texts are left out.
use desperate.Prelude.{◌≡◌, refl, Bool, true, false, ◌⊎◌, inl, inr}

pub data Cause : Type 0 where
  empty_ikm empty_salt bad_length empty_info empty_lengths nonpositive_length : Cause
  bad_key_length bad_index too_short bad_salt bad_shared_key bad_public_key : Cause
  bad_version empty_body empty_session_id forbidden_session_id dotted_session_id : Cause
  bad_hex library negative_counter bad_challenge zero_scrambler not_completed : Cause
  not_unlocked no_identity no_active_session no_srp_session no_password spk_rejected : Cause
  bundle_rejected no_initiation no_sender_key identity_key_changed message_rejected : Cause
  unknown_method : Cause

pub data Exception : Type 0 where
  value_error : Cause → Exception
  key_error type_error assertion_error : Exception
  invalid_tag os_error file_exists file_not_found : Exception
  header_counter_error malformed_signed signature_verification : Exception
  spk_verification no_prekey malformed_bundle pqxdh_error struct_error overflow_error
        json_decode_error verification_error invalid_hash library_error :
      Exception

pub data Result {ℓ} (A : Type ℓ) : Type ℓ where
  ok : A → Result A
  err : Exception → Result A

-- `if bad: raise e`
abbrev pub reject : Bool → Exception → Result (Unit {0})
reject true e = err e
reject false e = ok tt

module _ {ℓ κ} {A : Type ℓ} {B : Type κ} where
  infixl 5 ◌>>=◌
  abbrev pub ◌>>=◌ : Result A → (A → Result B) → Result B
  err x >>= next = err x
  ok a >>= next = next a

  -- What a successful bind went through.
  pub >>=-eq-ok :
      (m : Result A) (next : A → Result B) {b : B}
      → (m >>= next) ≡ ok b
      → (a : A) × (m ≡ ok a) × (next a ≡ ok b)
  >>=-eq-ok (err x) next h = cc
  >>=-eq-ok (ok a) next h = (a, refl, h)

infixl 5 ◌>>◌
abbrev pub ◌>>◌ {κ} : {B : Type κ} → Result (Unit {0}) → Result B → Result B
first >> second = first >>= λ _. second

pub Result-cases {ℓ} :
    {A : Type ℓ} (r : Result A) → ((a : A) × (r ≡ ok a)) ⊎ ((e : Exception) × (r ≡ err e))
Result-cases (ok a) = inl (a, refl)
Result-cases (err e) = inr (e, refl)
