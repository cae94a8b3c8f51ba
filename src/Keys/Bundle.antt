-- ===== src/Keys/Bundle.antt =====
-- The identity bundle: its generation, and its two dict forms. Byte strings stand in them as hex.
pub mod Laws
use desperate.Prelude.{ℕ, Option, none, some, List, [], ◌∷◌}
use desperate.Outcome.{Result, ok, err, ◌>>=◌, ◌>>◌}
use desperate.Codec.Words.{Bytes}
use desperate.Codec.Hex.{Text}
use desperate.Suite.{Suite}
use desperate.Json.{
  Json, num, text, arr, obj, Items, nil, Fields, end, field, find, at, as_num, as_text, as_bytes,
  as_items, as_fields, hex, collect, items_of,
}
use desperate.Keys.Types.{
  KemKeypair, SigningKeypair, X25519Keypair, X25519OneTimePrekey, KemOneTimePrekey, SignedPrekey,
  IdentityBundle, public_key_bytes, load_keypair, generate_kem_keypair, generate_signing_keypair,
  generate_signed_prekey,
}
use desperate.Keys.Opks.{assert_opk_lists_valid, generate_opk_pairs}

-- {"opk_id": …, "opk_pub": …}
unfoldable pub public_opk : ℕ → Bytes → Json
public_opk opk_id public_key =
    obj (field "opk_id" (num opk_id) (field "opk_pub" (hex public_key) end))

unfoldable pub private_opk : ℕ → Bytes → Bytes → Json
private_opk opk_id public_key secret_key = obj (
    field "opk_id" (num opk_id)
      (field "opk_pub" (hex public_key) (field "opk_sec" (hex secret_key) end)))

abbrev pub public_x25519_opk : X25519OneTimePrekey → Json
public_x25519_opk o = public_opk o.opk_id o.public_key

abbrev pub public_kem_opk : KemOneTimePrekey → Json
public_kem_opk o = public_opk o.opk_id o.public_key

abbrev pub private_x25519_opk : X25519OneTimePrekey → Json
private_x25519_opk o = private_opk o.opk_id o.public_key o.secret_key

abbrev pub private_kem_opk : KemOneTimePrekey → Json
private_kem_opk o = private_opk o.opk_id o.public_key o.secret_key

unfoldable pub read_x25519_opk : Json → Result X25519OneTimePrekey
read_x25519_opk o = do
  opk_id ← as_num (← at "opk_id" o)
  public_key ← as_bytes (← at "opk_pub" o)
  secret_key ← as_bytes (← at "opk_sec" o)
  ok (record { opk_id = opk_id; public_key = public_key; secret_key = secret_key })

unfoldable pub read_kem_opk : Json → Result KemOneTimePrekey
read_kem_opk o = do
  opk_id ← as_num (← at "opk_id" o)
  public_key ← as_bytes (← at "opk_pub" o)
  secret_key ← as_bytes (← at "opk_sec" o)
  ok (record { opk_id = opk_id; public_key = public_key; secret_key = secret_key })

-- d.get(k, [])
abbrev pub items_or_nil : Option Json → Result Items
items_or_nil none = ok nil
items_or_nil (some v) = as_items v

-- d.get(k, "")
abbrev pub text_or_empty : Option Json → Result Text
text_or_empty none = ok []
text_or_empty (some v) = as_text v

-- `IdentityBundle(…)` with its `__post_init__`
unfoldable pub new_bundle : IdentityBundle → Result IdentityBundle
new_bundle b = do assert_opk_lists_valid b.x25519_opks b.kem_opks; ok b

module _ (s : Suite) where
  unfoldable pub public_fields : IdentityBundle → Fields
  public_fields b = field "user_id" (text b.user_id) (
      field "ik_kem_pub" (hex b.ik_kem.public_key) (
        field "ik_sig_pub" (hex b.ik_sig.public_key) (
          field "ik_classical_pub" (hex (public_key_bytes s b.ik_classical)) (
            field "spk_id" (num b.spk.spk_id) (
              field "spk_pub" (hex (public_key_bytes s b.spk.keypair)) (
                field "spk_sig" (hex b.spk.signature) (
                  field "opks_x25519" (arr (items_of public_x25519_opk b.x25519_opks))
                    (field "opks_kem" (arr (items_of public_kem_opk b.kem_opks)) end))))))))

  unfoldable pub to_public_bundle : IdentityBundle → Result Json
  unfolding public_fields
  to_public_bundle b = do
    assert_opk_lists_valid b.x25519_opks b.kem_opks
    ok (obj (public_fields b))

  private_fields : IdentityBundle → Fields
  private_fields b = field "user_id" (text b.user_id) (
      field "ik_kem_pub" (hex b.ik_kem.public_key) (
        field "ik_kem_sec" (hex b.ik_kem.secret_key) (
          field "ik_sig_pub" (hex b.ik_sig.public_key) (
            field "ik_sig_sec" (hex b.ik_sig.secret_key) (
              field "ik_sig_ed25519_sec" (hex b.ik_sig.ed25519_secret_key) (
                field "ik_classical_pub" (hex (public_key_bytes s b.ik_classical)) (
                  field "ik_classical_sec" (hex b.ik_classical.private) (
                    field "spk_id" (num b.spk.spk_id) (
                      field "spk_pub" (hex (public_key_bytes s b.spk.keypair)) (
                        field "spk_sec" (hex b.spk.keypair.private) (
                          field "spk_sig" (hex b.spk.signature) (
                            field "opks_x25519" (arr (items_of private_x25519_opk b.x25519_opks)) (
                              field "opks_kem" (arr (items_of private_kem_opk b.kem_opks))
                                end)))))))))))))

  unfoldable pub to_private_bundle : IdentityBundle → Result Json
  unfolding private_fields
  to_private_bundle b = do
    assert_opk_lists_valid b.x25519_opks b.kem_opks
    ok (obj (private_fields b))

  -- `d["ik_kem_pub"]` and the like, read back as bytes
  unfoldable pub from_private_bundle : Json → Result IdentityBundle
  from_private_bundle d = do
    ik_kem_pub ← as_bytes (← at "ik_kem_pub" d)
    ik_kem_sec ← as_bytes (← at "ik_kem_sec" d)
    ik_sig_pub ← as_bytes (← at "ik_sig_pub" d)
    ik_sig_sec ← as_bytes (← at "ik_sig_sec" d)
    ik_sig_ed25519_sec ← as_bytes (← at "ik_sig_ed25519_sec" d)
    ik_classical ← load_keypair s (← as_bytes (← at "ik_classical_sec" d))
    spk_id ← as_num (← at "spk_id" d)
    spk_keypair ← load_keypair s (← as_bytes (← at "spk_sec" d))
    spk_sig ← as_bytes (← at "spk_sig" d)
    fields ← as_fields d
    x25519_opks ← collect read_x25519_opk (← items_or_nil (find "opks_x25519" fields))
    kem_opks ← collect read_kem_opk (← items_or_nil (find "opks_kem" fields))
    user_id ← text_or_empty (find "user_id" fields)
    new_bundle (record {
      user_id = user_id;
      ik_kem = record { public_key = ik_kem_pub; secret_key = ik_kem_sec };
      ik_sig = record {
        public_key = ik_sig_pub;
        secret_key = ik_sig_sec;
        ed25519_secret_key = ik_sig_ed25519_sec;
      };
      ik_classical = ik_classical;
      spk = record { spk_id = spk_id; keypair = spk_keypair; signature = spk_sig };
      x25519_opks = x25519_opks;
      kem_opks = kem_opks;
    })

-- What `generate_identity_bundle` draws.
pub record BundleCoins : Type 0 where
  pub ik_kem : Bytes
  pub ed25519 : Bytes
  pub dsa : Bytes
  pub ik_classical : Bytes
  pub spk : Bytes
  pub x25519_opks : ℕ → Bytes
  pub kem_opks : ℕ → Bytes

module _ (s : Suite) where
  -- the bundle that `generate_identity_bundle` constructs from the prekeys it generated
  fresh_bundle :
      BundleCoins → Text → List X25519OneTimePrekey → List KemOneTimePrekey → IdentityBundle
  fresh_bundle coins user_id x25519_opks kem_opks =
      let ik_sig = generate_signing_keypair s coins.ed25519 coins.dsa in
      record {
        user_id = user_id;
        ik_kem = generate_kem_keypair s coins.ik_kem;
        ik_sig = ik_sig;
        ik_classical = record { private = coins.ik_classical };
        spk = generate_signed_prekey s ik_sig 1 coins.spk;
        x25519_opks = x25519_opks;
        kem_opks = kem_opks;
      }

  unfoldable pub generate_identity_bundle : BundleCoins → Text → ℕ → Result IdentityBundle
  unfolding generate_signed_prekey new_bundle fresh_bundle
  generate_identity_bundle coins user_id opk_count = do
    (x25519_opks, kem_opks) ← generate_opk_pairs s coins.x25519_opks coins.kem_opks opk_count 1
    new_bundle (fresh_bundle coins user_id x25519_opks kem_opks)
