-- ===== src/Keys/Hybrid.antt =====
-- Hybrid Ed25519 + ML-DSA-87 verification.
pub mod Laws
use desperate.Prelude.{◌≡◌, Bool, true, false, not, ◌&&◌, take, drop, length, ◌==◌, nat_eq}
use desperate.Outcome.{Result, ok, err, malformed_signed, reject, ◌>>=◌, ◌>>◌}
use desperate.Codec.Words.{Bytes}
use desperate.Constants.{
  hybrid_public_key_len, hybrid_signature_len, ed25519_public_key_len, ed25519_signature_len,
}
use desperate.Suite.{Suite}

-- `except Exception: pass`, over a flag that starts as False
abbrev pub caught : Result Bool → Bool
caught (ok b) = b
caught (err e) = false

module _ (s : Suite) where
  unfoldable pub verify_hybrid_signature : Bytes → Bytes → Bytes → Result Bool
  verify_hybrid_signature message signature ik_sig_pub = do
    reject (not (length ik_sig_pub == hybrid_public_key_len)) malformed_signed
    reject (not (length signature == hybrid_signature_len)) malformed_signed
    let ed_pub_bytes = take ed25519_public_key_len ik_sig_pub
    let dsa_pub_bytes = drop ed25519_public_key_len ik_sig_pub
    let ed_sig = take ed25519_signature_len signature
    let dsa_sig = drop ed25519_signature_len signature
    let ed_ok = caught (s.ed25519.verify ed_pub_bytes message ed_sig)
    let dsa_ok = caught (s.dsa.verify dsa_pub_bytes message dsa_sig)
    ok (ed_ok && dsa_ok)

  unfoldable pub verify_spk_signature : Bytes → Bytes → Bytes → Result Bool
  unfolding verify_hybrid_signature
  verify_spk_signature spk_pub signature ik_sig_pub =
      verify_hybrid_signature spk_pub signature ik_sig_pub
