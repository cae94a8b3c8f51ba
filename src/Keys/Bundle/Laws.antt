-- ===== src/Keys/Bundle/Laws.antt =====
-- The keystore form gives the bundle back, and the public form shows no secret.
use desperate.Prelude.{ℕ, ◌≡◌, refl, ap, sym, ◌∙◌, map, true, List, [], ◌∷◌, All, length}
use desperate.Outcome.{ok}
use desperate.Codec.Words.{Bytes, IsBytes}
use desperate.Codec.Hex.{Text}
use desperate.Suite.{Suite, SuiteLaws}
use desperate.Json.{
  Json, cons, at, as_num, as_text, as_fields, as_items, as_bytes-hex, items_of, collect-items_of,
  obj,
}
use desperate.Keys.Types.{
  X25519OneTimePrekey, KemOneTimePrekey, IdentityBundle, public_key_bytes, load_keypair,
  generate_signed_prekey,
}
use desperate.Keys.Opks.Laws.{
  IsPaired, x25519_ids, kem_ids, range_from, assert_opk_lists_valid-IsPaired,
  assert_opk_lists_valid-ids, generate_opk_pairs_lem,
}
use desperate.Keys.Hybrid.{verify_spk_signature}
use desperate.Keys.Hybrid.Laws.{verify_hybrid_signature-sign}
use desperate.Keys.Bundle.{
  private_opk, private_x25519_opk, private_kem_opk, read_x25519_opk, read_kem_opk, new_bundle,
  private_fields, fresh_bundle, to_private_bundle, from_private_bundle, to_public_bundle,
  public_opk, public_x25519_opk, public_kem_opk, BundleCoins, generate_identity_bundle,
}

abbrev pub IsBytesX25519Opk : X25519OneTimePrekey → Type 0
IsBytesX25519Opk o = IsBytes o.public_key × IsBytes o.secret_key

abbrev pub IsBytesKemOpk : KemOneTimePrekey → Type 0
IsBytesKemOpk o = IsBytes o.public_key × IsBytes o.secret_key

-- Byte strings hold bytes, X25519 private keys have 32 of them, and prekeys are paired.
pub record IsStorable (b : IdentityBundle) : Type 0 where
  pub kem_public : IsBytes b.ik_kem.public_key
  pub kem_secret : IsBytes b.ik_kem.secret_key
  pub sig_public : IsBytes b.ik_sig.public_key
  pub sig_secret : IsBytes b.ik_sig.secret_key
  pub sig_ed25519 : IsBytes b.ik_sig.ed25519_secret_key
  pub classical : IsBytes b.ik_classical.private
  pub classical_size : length b.ik_classical.private ≡ 32
  pub spk_private : IsBytes b.spk.keypair.private
  pub spk_size : length b.spk.keypair.private ≡ 32
  pub spk_signature : IsBytes b.spk.signature
  pub x25519_bytes : All IsBytesX25519Opk b.x25519_opks
  pub kem_bytes : All IsBytesKemOpk b.kem_opks
  pub paired : IsPaired b.x25519_opks b.kem_opks

read_x25519-All :
    (l : List X25519OneTimePrekey)
    → All IsBytesX25519Opk l
    → All (λ o. read_x25519_opk (private_x25519_opk o) ≡ ok o) l
unfolding read_x25519_opk private_opk at as_num
read_x25519-All [] h = tt
read_x25519-All (o ∷ l) ((p, q), h) =
    (rw (as_bytes-hex o.public_key p, as_bytes-hex o.secret_key q), read_x25519-All l h)

read_kem-All :
    (l : List KemOneTimePrekey)
    → All IsBytesKemOpk l
    → All (λ o. read_kem_opk (private_kem_opk o) ≡ ok o) l
unfolding read_kem_opk private_opk at as_num
read_kem-All [] h = tt
read_kem-All (o ∷ l) ((p, q), h) =
    (rw (as_bytes-hex o.public_key p, as_bytes-hex o.secret_key q), read_kem-All l h)

module _ (s : Suite) (laws : SuiteLaws s) where
  load_keypair_fits : (a : Bytes) → length a ≡ 32 → load_keypair s a ≡ ok (record { private = a })
  unfolding load_keypair
  load_keypair_fits a h = rw (laws.x25519.from_private_bytes_fits a h)

  -- A bundle whose byte strings hold bytes, whose X25519 private keys have 32 bytes and whose
  -- prekeys are paired is written without an error, and reading what was written gives it back.
  pub from_private_bundle-to_private_bundle :
      (b : IdentityBundle)
      → IsStorable b
      → (j : Json) × (to_private_bundle s b ≡ ok j) × (from_private_bundle s j ≡ ok b)
  unfolding to_private_bundle from_private_bundle new_bundle at as_num as_text as_fields as_items
  from_private_bundle-to_private_bundle b h =
      let valid = (assert_opk_lists_valid-IsPaired b.x25519_opks b.kem_opks).0 h.paired in
      (
        obj (private_fields s b),
        rw valid,
        rw (
          as_bytes-hex b.ik_kem.public_key h.kem_public,
          as_bytes-hex b.ik_kem.secret_key h.kem_secret,
          as_bytes-hex b.ik_sig.public_key h.sig_public,
          as_bytes-hex b.ik_sig.secret_key h.sig_secret,
          as_bytes-hex b.ik_sig.ed25519_secret_key h.sig_ed25519,
          as_bytes-hex b.ik_classical.private h.classical,
          load_keypair_fits b.ik_classical.private h.classical_size,
          as_bytes-hex b.spk.keypair.private h.spk_private,
          load_keypair_fits b.spk.keypair.private h.spk_size,
          as_bytes-hex b.spk.signature h.spk_signature,
          collect-items_of read_x25519_opk private_x25519_opk b.x25519_opks
              (read_x25519-All _ h.x25519_bytes),
          collect-items_of read_kem_opk private_kem_opk b.kem_opks (read_kem-All _ h.kem_bytes),
          valid,
        ),
      )

abbrev x25519_view : X25519OneTimePrekey → ℕ × Bytes
x25519_view o = (o.opk_id, o.public_key)

abbrev kem_view : KemOneTimePrekey → ℕ × Bytes
kem_view o = (o.opk_id, o.public_key)

x25519_ids-view :
    (l : List X25519OneTimePrekey) → x25519_ids l ≡ map (λ (v : ℕ × Bytes). v.0) (map x25519_view l)
x25519_ids-view [] = refl
x25519_ids-view (o ∷ l) = ap (λ t. o.opk_id ∷ t) (x25519_ids-view l)

kem_ids-view :
    (l : List KemOneTimePrekey) → kem_ids l ≡ map (λ (v : ℕ × Bytes). v.0) (map kem_view l)
kem_ids-view [] = refl
kem_ids-view (o ∷ l) = ap (λ t. o.opk_id ∷ t) (kem_ids-view l)

abbrev view_json : ℕ × Bytes → Json
view_json v = public_opk v.0 v.1

x25519_items-view :
    (l : List X25519OneTimePrekey)
    → items_of public_x25519_opk l ≡ items_of view_json (map x25519_view l)
unfolding items_of
x25519_items-view [] = refl
x25519_items-view (o ∷ l) = ap (cons (public_x25519_opk o)) (x25519_items-view l)

kem_items-view :
    (l : List KemOneTimePrekey) → items_of public_kem_opk l ≡ items_of view_json (map kem_view l)
unfolding items_of
kem_items-view [] = refl
kem_items-view (o ∷ l) = ap (cons (public_kem_opk o)) (kem_items-view l)

-- Two bundles with the same public keys, ids and SPK signature; their secrets may differ.
pub record SamePublic (s : Suite) (a b : IdentityBundle) : Type 0 where
  pub user : a.user_id ≡ b.user_id
  pub kem : a.ik_kem.public_key ≡ b.ik_kem.public_key
  pub signing : a.ik_sig.public_key ≡ b.ik_sig.public_key
  pub classical : public_key_bytes s a.ik_classical ≡ public_key_bytes s b.ik_classical
  pub spk_id : a.spk.spk_id ≡ b.spk.spk_id
  pub spk_pub : public_key_bytes s a.spk.keypair ≡ public_key_bytes s b.spk.keypair
  pub spk_signature : a.spk.signature ≡ b.spk.signature
  pub x25519_opks : map x25519_view a.x25519_opks ≡ map x25519_view b.x25519_opks
  pub kem_opks : map kem_view a.kem_opks ≡ map kem_view b.kem_opks

-- to_public_bundle depends on no secret: it is the same, error included, for two bundles that
-- agree on the user, the public keys, the ids and the SPK signature.
pub to_public_bundle_hides_secrets :
    (s : Suite) (a b : IdentityBundle)
    → SamePublic s a b
    → to_public_bundle s a ≡ to_public_bundle s b
unfolding to_public_bundle
to_public_bundle_hides_secrets s a b h =
    rw
      (
        assert_opk_lists_valid-ids a.x25519_opks a.kem_opks,
        assert_opk_lists_valid-ids b.x25519_opks b.kem_opks,
        x25519_ids-view a.x25519_opks,
        x25519_ids-view b.x25519_opks,
        kem_ids-view a.kem_opks,
        kem_ids-view b.kem_opks,
        x25519_items-view a.x25519_opks,
        x25519_items-view b.x25519_opks,
        kem_items-view a.kem_opks,
        kem_items-view b.kem_opks,
        h.user,
        h.kem,
        h.signing,
        h.classical,
        h.spk_id,
        h.spk_pub,
        h.spk_signature,
        h.x25519_opks,
        h.kem_opks,
      )
      refl

-- Whatever is drawn, generate_identity_bundle returns a bundle with opk_count prekey pairs,
-- numbered from 1, whose SPK signature verifies under its own identity key.
pub generate_identity_bundle_lem :
    (s : Suite)
    → SuiteLaws s
    → (coins : BundleCoins) (user_id : Text) (opk_count : ℕ)
    → (b : IdentityBundle) × (generate_identity_bundle s coins user_id opk_count ≡ ok b)
      × (x25519_ids b.x25519_opks ≡ range_from 1 opk_count)
      × (kem_ids b.kem_opks ≡ range_from 1 opk_count)
      × (verify_spk_signature s
            (public_key_bytes s b.spk.keypair)
            b.spk.signature
            b.ik_sig.public_key
          ≡ ok true)
unfolding generate_identity_bundle verify_spk_signature generate_signed_prekey new_bundle
generate_identity_bundle_lem s laws coins user_id opk_count =
    let (xs, ks, e, hx, hk) =
      generate_opk_pairs_lem s coins.x25519_opks coins.kem_opks opk_count 1 in
    let valid = (assert_opk_lists_valid-IsPaired xs ks).0 (hx ∙ sym hk) in
    (
      fresh_bundle s coins user_id xs ks,
      rw (e, valid),
      hx,
      hk,
      (verify_hybrid_signature-sign s laws coins.ed25519 coins.dsa (s.x25519.public coins.spk)).0,
    )
