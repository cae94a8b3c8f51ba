-- ===== src/Service/Opks.antt =====
-- A one-time prekey that `_consume_opk` has taken out answers no handshake any more.
use desperate.Prelude.{
  ℕ, ◌≡◌, refl, ◌∙◌, none, some, List, [], ◌∷◌, nat_eq, inl, inr, Bool-cases, ◌==◌,
}
use desperate.Prelude.Dict.{Dict, lookup, insert, lookup-insert}
use desperate.Outcome.{ok}
use desperate.Codec.Words.{Bytes}
use desperate.Suite.{Suite}
use desperate.Keys.Types.{IdentityBundle, X25519OneTimePrekey}
use desperate.Pqxdh.{PqxdhResult, respond}
use desperate.Pqxdh.Bundles.{InitiationBundle}
use desperate.Pqxdh.Errors.{respond_unknown_opk}
use desperate.Service.{drop_x25519, x25519_secrets, load_opk_secrets, without_opk}

no_secret :
    (id : ℕ) (d : Dict ℕ Bytes) (l : List X25519OneTimePrekey)
    → lookup id d ≡ none
    → lookup id (x25519_secrets d (drop_x25519 id l)) ≡ none
unfolding drop_x25519 x25519_secrets
no_secret id d [] h = h
no_secret id d (o ∷ l) h = elim (Bool-cases (o.opk_id == id)) [
  | inl e ↦ rw e (no_secret id d l h)
  | inr e ↦ rw e (
      no_secret id (insert o.opk_id o.secret_key d) l
        (lookup-insert o.opk_id id o.secret_key d ∙ rw e h))
]

-- After the assignments of _consume_opk, with the secrets that _load_opk_secrets then gives, no
-- handshake that names the consumed prekey succeeds.
pub respond-without_opk :
    (s : Suite) (b : IdentityBundle) (id : ℕ) (i : InitiationBundle) (r : PqxdhResult)
    → i.opk_id ≡ some id
    → let left = without_opk id b in
      let (xs, ks) = load_opk_secrets left in ¬ (respond s left i xs ks ≡ ok r)
unfolding load_opk_secrets without_opk
respond-without_opk s b id i r named =
    respond_unknown_opk s (without_opk id b) i _ _ id r named
      (unfold lookup in no_secret id [] b.x25519_opks refl)
