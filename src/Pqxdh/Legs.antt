-- ===== src/Pqxdh/Legs.antt =====
-- pqxdh.py: each leg of a handshake gives both parties the same secret.
use desperate.Prelude.{
  ℕ, ◌≡◌, Bool, true, false, Option, none, some, inl, inr, List, [], ◌∷◌, length, arith, nat_eq,
  map,
}
use desperate.Prelude.Dict.{Dict, lookup}
use desperate.Outcome.{ok, Result-cases, ◌>>=◌}
use desperate.Codec.Words.{Bytes, IsBytes}
use desperate.Suite.{Suite, SuiteLaws}
use desperate.Json.{Json, at, as_num, as_bytes-hex}
use desperate.Keys.Types.{X25519Keypair, X25519OneTimePrekey, KemOneTimePrekey, dh}
use desperate.Keys.Opks.Laws.{x25519_ids, kem_ids}
use desperate.Keys.Bundle.{public_x25519_opk, public_kem_opk, public_opk}
use desperate.Pqxdh.{opk_leg, pq_leg, x25519_dh, secret_of, own_opk_leg, own_pq_leg}

module _ (s : Suite) (laws : SuiteLaws s) where
  abbrev pub kp : Bytes → X25519Keypair
  kp a = record { private = a }

  pub dh_comm :
      (a b : Bytes)
      → length a ≡ 32
      → length b ≡ 32
      → dh s (kp a) (s.x25519.public b) ≡ dh s (kp b) (s.x25519.public a)
  unfolding dh
  dh_comm a b ha hb = ground (
    arith,
    laws.x25519.public_length a ha,
    laws.x25519.public_length b hb,
    laws.x25519.exchange_comm a b ha hb,
  )

  pub dh-x25519_dh :
      (a b : Bytes)
      → length a ≡ 32
      → length b ≡ 32
      → dh s (kp a) (s.x25519.public b) ≡ x25519_dh s b (s.x25519.public a)
  unfolding dh x25519_dh
  dh-x25519_dh a b ha hb = ground (
    arith,
    laws.x25519.public_length b hb,
    laws.x25519.from_private_bytes_fits b hb,
    laws.x25519.exchange_comm a b ha hb,
  )

  -- An X25519 prekey with the public key of its secret, an ML-KEM prekey from key generation.
  pub record IsHonestX25519 (o : X25519OneTimePrekey) : Type 0 where
    pub size : length o.secret_key ≡ 32
    pub public : o.public_key ≡ s.x25519.public o.secret_key

  pub record IsHonestKem (public secret : Bytes) : Type 0 where
    pub seed : Bytes
    pub public_key : public ≡ (s.kem.keypair seed).0
    pub secret_key : secret ≡ (s.kem.keypair seed).1

  pub decap-encap :
      (public secret coins : Bytes) {ct ss : Bytes}
      → IsHonestKem public secret
      → s.kem.encap public coins ≡ ok (ct, ss)
      → s.kem.decap secret ct ≡ ok ss
  decap-encap public secret coins h e =
      rw h.secret_key (laws.kem.decap-encap h.seed coins (rw h.public_key at e))

abbrev pub first_id : List ℕ → Option ℕ
first_id [] = none
first_id (i ∷ is) = some i

module _ (s : Suite) (laws : SuiteLaws s) where
  -- The responder holds the secret of the first prekey, if there is one.
  abbrev pub FirstX25519 : List X25519OneTimePrekey → Dict ℕ Bytes → Type 0
  FirstX25519 [] d = Unit
  FirstX25519 (o ∷ l) d =
      IsHonestX25519 s laws o × IsBytes o.public_key × (lookup o.opk_id d ≡ some o.secret_key)

  abbrev pub FirstKem : List KemOneTimePrekey → Dict ℕ Bytes → Type 0
  FirstKem [] d = Unit
  FirstKem (o ∷ l) d =
      IsHonestKem s laws o.public_key o.secret_key
      × IsBytes o.public_key
      × (lookup o.opk_id d ≡ some o.secret_key)

  pub opk_leg_first :
      (ek : X25519Keypair) (o : X25519OneTimePrekey) (l : List Json)
      → IsBytes o.public_key
      → opk_leg s ek (public_x25519_opk o ∷ l)
        ≡ (dh s ek o.public_key >>= λ dh4. ok (some o.opk_id, dh4))
  unfolding opk_leg public_opk at as_num
  opk_leg_first ek o l h = rw (as_bytes-hex o.public_key h)

  pub pq_leg_first :
      (o : KemOneTimePrekey) (l : List Json) (allow : Bool) (public coins : Bytes)
      → IsBytes o.public_key
      → pq_leg s (public_kem_opk o ∷ l) allow public coins
        ≡ (s.kem.encap o.public_key coins >>= λ (ct, ss). ok (ct, ss, false))
  unfolding pq_leg public_opk at
  pq_leg_first o l allow public coins h = rw (as_bytes-hex o.public_key h)

  pub opk_legs :
      (ek : Bytes) (xs : List X25519OneTimePrekey) (d : Dict ℕ Bytes) {id : Option ℕ} {dh4 : Bytes}
      → length ek ≡ 32
      → FirstX25519 xs d
      → opk_leg s (kp s laws ek) (map public_x25519_opk xs) ≡ ok (id, dh4)
      → (id ≡ first_id (x25519_ids xs)) × (own_opk_leg s id d (s.x25519.public ek) ≡ ok dh4)
  unfolding own_opk_leg secret_of
  opk_legs ek [] d he first e = unfold opk_leg in ground arith
  opk_legs ek (o ∷ xs) d he (honest, bytes, known) e =
      let same : dh s (kp s laws ek) o.public_key ≡ x25519_dh s o.secret_key (s.x25519.public ek) =
        rw honest.public (dh-x25519_dh s laws ek o.secret_key he honest.size) in
      ground (arith, opk_leg_first (kp s laws ek) o (map public_x25519_opk xs) bytes, same, known)

  pub pq_legs :
      (ks : List KemOneTimePrekey) (d : Dict ℕ Bytes) (allow : Bool) (public secret coins : Bytes)
      {ct ss : Bytes} {used : Bool}
      → IsHonestKem s laws public secret
      → FirstKem ks d
      → pq_leg s (map public_kem_opk ks) allow public coins ≡ ok (ct, ss, used)
      → own_pq_leg s used (first_id (kem_ids ks)) d ct secret ≡ ok ss
  unfolding own_pq_leg secret_of
  pq_legs [] d true public secret coins hi first e =
      elim (Result-cases (s.kem.encap public coins)) [
        | inl ((c, k), q) ↦
            unfold pq_leg in ground (arith, decap-encap s laws public secret coins hi q)
        | inr (x, q) ↦ absurd (unfold pq_leg in ground arith)
      ]
  pq_legs [] d false public secret coins hi first e = absurd (unfold pq_leg in cc)
  pq_legs (o ∷ ks) d allow public secret coins hi (honest, bytes, known) e =
      let head = pq_leg_first o (map public_kem_opk ks) allow public coins bytes in
      elim (Result-cases (s.kem.encap o.public_key coins)) [
        | inl ((c, k), q) ↦
            ground (arith, head, known, decap-encap s laws o.public_key o.secret_key coins honest q)
        | inr (x, q) ↦ absurd (ground (arith, head))
      ]
