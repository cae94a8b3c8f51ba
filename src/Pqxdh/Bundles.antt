-- ===== src/Pqxdh/Bundles.antt =====
-- The dicts of the handshake: the remote public bundle and the initiation bundle.
-- An `opk_id` is taken for a number where it is read.
use desperate.Prelude.{
  ℕ, ◌≡◌, refl, Bool, true, false, not, Option, none, some, List, [], ◌∷◌, length, nat_eq, ◌==◌,
}
use desperate.Outcome.{Result, ok, err, type_error, malformed_bundle, reject, ◌>>=◌, ◌>>◌}
use desperate.Codec.Words.{Bytes, IsBytes}
use desperate.Json.{
  Json, Fields, null, bool, num, text, arr, obj, Items, nil, cons, end, field, find, at, as_num,
  as_bytes, as_fields, as_items, hex, as_bytes-hex,
}

pub record InitiationBundle : Type 0 where
  pub ik_classical_pub : Bytes
  pub ek_pub : Bytes
  pub ct_pq : Bytes
  pub opk_id : Option ℕ
  pub used_identity_kem : Bool

abbrev pub opk_id_json : Option ℕ → Json
opk_id_json none = null
opk_id_json (some n) = num n

-- d.get("opk_id")
abbrev pub read_opk_id : Option Json → Result (Option ℕ)
read_opk_id none = ok none
read_opk_id (some null) = ok none
read_opk_id (some (num n)) = ok (some n)
read_opk_id (some j) = err type_error

-- bool(v)
unfoldable pub truth : Json → Bool
truth null = false
truth (bool b) = b
truth (num n) = not (n == 0)
truth (text []) = false
truth (text t) = true
truth (arr nil) = false
truth (arr l) = true
truth (obj end) = false
truth (obj d) = true

abbrev pub initiation_fields : InitiationBundle → Fields
initiation_fields b = field "ik_classical_pub" (hex b.ik_classical_pub) (
    field "ek_pub" (hex b.ek_pub) (
      field "ct_pq" (hex b.ct_pq) (
        field "opk_id" (opk_id_json b.opk_id)
          (field "used_identity_kem" (bool b.used_identity_kem) end))))

unfoldable pub to_dict : InitiationBundle → Json
to_dict b = obj (initiation_fields b)

unfoldable pub from_dict : Json → Result InitiationBundle
from_dict d = do
  ik_classical_pub ← as_bytes (← at "ik_classical_pub" d)
  ek_pub ← as_bytes (← at "ek_pub" d)
  ct_pq ← as_bytes (← at "ct_pq" d)
  fields ← as_fields d
  opk_id ← read_opk_id (find "opk_id" fields)
  used ← at "used_identity_kem" d
  ok (record {
    ik_classical_pub = ik_classical_pub;
    ek_pub = ek_pub;
    ct_pq = ct_pq;
    opk_id = opk_id;
    used_identity_kem = truth used;
  })

abbrev pub elements : Items → List Json
elements nil = []
elements (cons j l) = j ∷ elements l

-- the loop over `zip(opks_x25519, opks_kem)`
unfoldable pub check_ids : List Json → List Json → Result (Unit {0})
check_ids (x ∷ xs) (k ∷ ks) = do
  i ← as_num (← at "opk_id" x)
  j ← as_num (← at "opk_id" k)
  reject (not (i == j)) malformed_bundle
  check_ids xs ks
check_ids _ _ = ok tt

-- the lists, if both keys are there
abbrev pub both_lists : Option Json → Option Json → Result (Json × Json)
both_lists (some xs) (some ks) = ok (xs, ks)
both_lists _ _ = err malformed_bundle

unfoldable pub parse_remote_opks : Json → Result (List Json × List Json)
unfolding check_ids
parse_remote_opks remote_bundle = do
  fields ← as_fields remote_bundle
  (x_value, k_value) ← both_lists (find "opks_x25519" fields) (find "opks_kem" fields)
  x_items ← as_items x_value
  k_items ← as_items k_value
  let opks_x25519 = elements x_items
  let opks_kem = elements k_items
  reject (not (length opks_x25519 == length opks_kem)) malformed_bundle
  check_ids opks_x25519 opks_kem
  ok (opks_x25519, opks_kem)

pub record RemoteBundle : Type 0 where
  pub ik_classical : Bytes
  pub ik_kem_pub : Bytes
  pub ik_sig_pub : Bytes
  pub spk_pub : Bytes
  pub spk_sig : Bytes
  pub opks_x25519 : List Json
  pub opks_kem : List Json

-- step 1 of `initiate`
unfoldable pub parse_bundle : Json → Result RemoteBundle
unfolding parse_remote_opks
parse_bundle remote_bundle = do
  ik_b_classical ← as_bytes (← at "ik_classical_pub" remote_bundle)
  ik_b_kem_pub ← as_bytes (← at "ik_kem_pub" remote_bundle)
  ik_b_sig_pub ← as_bytes (← at "ik_sig_pub" remote_bundle)
  spk_b_pub ← as_bytes (← at "spk_pub" remote_bundle)
  spk_b_sig ← as_bytes (← at "spk_sig" remote_bundle)
  spk_b_id ← at "spk_id" remote_bundle
  (opks_x25519, opks_kem) ← parse_remote_opks remote_bundle
  ok (record {
    ik_classical = ik_b_classical;
    ik_kem_pub = ik_b_kem_pub;
    ik_sig_pub = ik_b_sig_pub;
    spk_pub = spk_b_pub;
    spk_sig = spk_b_sig;
    opks_x25519 = opks_x25519;
    opks_kem = opks_kem;
  })

abbrev pub IsBytesInitiation : InitiationBundle → Type 0
IsBytesInitiation b = IsBytes b.ik_classical_pub × IsBytes b.ek_pub × IsBytes b.ct_pq

pub opk_id_read : (o : Option ℕ) → read_opk_id (some (opk_id_json o)) ≡ ok o
opk_id_read none = refl
opk_id_read (some n) = refl

-- The dict form of an initiation bundle of bytes gives the bundle back.
pub from_dict-to_dict : (b : InitiationBundle) → IsBytesInitiation b → from_dict (to_dict b) ≡ ok b
unfolding from_dict to_dict at as_fields truth
from_dict-to_dict b h = rw (
  as_bytes-hex b.ik_classical_pub h.0,
  as_bytes-hex b.ek_pub h.1,
  as_bytes-hex b.ct_pq h.2,
  opk_id_read b.opk_id,
)
