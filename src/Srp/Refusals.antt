-- ===== src/Srp/Refusals.antt =====
-- What the client refuses.
use desperate.Prelude.{
  ◌%◌, ◌≡◌, ◌↔◌, arith, true, false, some, list_beq_iff, [], nat_eq, Option-cases, inl, inr,
}
use desperate.Outcome.{ok, err, value_error, bad_challenge, Result-cases}
use desperate.Codec.Words.{Bytes}
use desperate.Codec.Numbers.{from_bytes}
use desperate.Codec.Hex.{Text, from_hex}
use desperate.Crypto.{Hashes}
use desperate.Srp.{
  modulus, SrpSession, new_session, set_password, verify_server, answer, settle, process_challenge,
}

same_bytes_iff :
    (hamk : Bytes) (s : SrpSession) (m2_hex : Text)
    → s.hamk ≡ some hamk
    → (verify_server s m2_hex ≡ true) ↔ (from_hex m2_hex ≡ ok hamk)
unfolding verify_server
same_bytes_iff hamk s m2_hex e = elim (Result-cases (from_hex m2_hex)) [
  | inl (m2, q) ↦ ground (arith, list_beq_iff hamk m2)
  | inr (x, q) ↦ ground arith
]

-- verify_server returns True exactly if a challenge has been processed and M2 is the hex form of
-- the expected proof HAMK; it is False before any challenge, and for a text that is no hex.
pub verify_server_iff :
    (s : SrpSession) (m2_hex : Text)
    → (verify_server s m2_hex ≡ true)
      ↔ ((hamk : Bytes) × (s.hamk ≡ some hamk) × (from_hex m2_hex ≡ ok hamk))
verify_server_iff s m2_hex = elim (Option-cases s.hamk) [
  | inl e ↦ (λ h. absurd (unfold verify_server in ground arith), λ (hamk, q, r). absurd (cc))
  | inr (hamk, e) ↦ (
    λ h. (hamk, e, (same_bytes_iff hamk s m2_hex e).0 h),
    λ (other, q, r). (same_bytes_iff hamk s m2_hex e).1 (ground arith),
  )
]

-- A challenge whose B is a multiple of the modulus raises ValueError, whatever the salt is, and
-- leaves the session as it was; if it was the first challenge of a session, verify_server then
-- refuses every proof.
pub process_challenge_zero :
    (h : Hashes) (username password : Text) (drawn : Bytes) (salt_hex b_hex m2_hex : Text)
    {b_bytes : Bytes}
    → from_hex b_hex ≡ ok b_bytes
    → from_bytes b_bytes % modulus ≡ 0
    → let s = set_password password (new_session username [] drawn) in
      let refused = process_challenge h s salt_hex b_hex in
      (refused ≡ (err (value_error bad_challenge), s)) × (verify_server refused.1 m2_hex ≡ false)
unfolding process_challenge answer settle verify_server new_session set_password
process_challenge_zero h username password drawn salt_hex b_hex m2_hex read zero_b =
    (rw (read, zero_b), rw (read, zero_b))
