-- ===== src/Rpc/Extends.antt =====
-- What a call of main.py may do to the conversations: the keys that are there stay, and a pending
-- initiation bundle has a key.
pub mod Handlers
pub mod Connections
use desperate.Prelude.{
  ◌≡◌, refl, sym, ◌∙◌, ap, arith, Bool, true, false, Bool-cases, Option-cases, Option, none, some,
  inl, inr, [], ◌==◌, list_eq, list_beq_iff,
}
use desperate.Prelude.Dict.{lookup, insert, erase, lookup-insert, lookup-erase}
use desperate.Outcome.{Result, Exception, ok, err, Result-cases}
use desperate.Effect.{Effect, ◌>>=◌, lift, look, update, attempt, recover_with}
use desperate.Effect.Keeps.{Keeps, IsPreorder, keep_rules}
use desperate.Codec.Words.{Bytes}
use desperate.Codec.Hex.{Text}
use desperate.Json.{Json, Fields}
use desperate.Rpc.{Rpc}
use desperate.Rpc.Untouched.{SameConversations}

-- Each pending initiation bundle belongs to a conversation with a key.
abbrev pub IsBacked : Rpc → Type 0
IsBacked s =
    (c : Text) (v : Json)
    → lookup c s.pending_initiation_bundles ≡ some v
    → (k : Bytes) × (lookup c s.session_keys ≡ some k)

pub record Extends (s t : Rpc) : Type 0 where
  pub kept :
      (c : Text) {k : Bytes} → lookup c s.session_keys ≡ some k → lookup c t.session_keys ≡ some k
  pub backed : IsBacked s → IsBacked t

pub Extends-IsPreorder : IsPreorder Extends
Extends-IsPreorder = record {
  reflexive = λ s. record { kept = λ c e. e; backed = λ h. h };
  transitive = λ s t u h k. record {
    kept = λ c e. k.kept c (h.kept c e);
    backed = λ b. k.backed (h.backed b);
  };
}

pub same-Extends : (s t : Rpc) → SameConversations s t → Extends s t
same-Extends s t h = record {
  kept = λ c e. ap (λ d. lookup c d) h.0 ∙ e;
  backed = λ b c v e.
      let (k, q) = b c v (sym (ap (λ d. lookup c d) h.1) ∙ e) in (k, ap (λ d. lookup c d) h.0 ∙ q);
}

-- A key for a conversation that had none.
pub added_key :
    (s : Rpc) (c : Text) (k : Bytes)
    → lookup c s.session_keys ≡ none
    → Extends s (record s { session_keys = insert c k s.session_keys })
added_key s c k fresh = record {
  kept = λ d e. still d e;
  backed = λ b d v e. let (l, q) = b d v e in (l, still d q);
}
  where
    still :
        (d : Text) {l : Bytes}
        → lookup d s.session_keys ≡ some l
        → lookup d (insert c k s.session_keys) ≡ some l
    still d e = ground (arith, lookup-insert c d k s.session_keys, list_beq_iff c d)

-- The key comes with the initiation bundle.
pub added_bundle :
    (s : Rpc) (c : Text) (k : Bytes) (v : Json)
    → lookup c s.session_keys ≡ some k
    → Extends s (record s { pending_initiation_bundles = insert c v s.pending_initiation_bundles })
added_bundle s c k v there = record {
  kept = λ d e. e;
  backed = λ b d w e. elim (Bool-cases (c == d)) [
    | inl same ↦ (k, ap (λ t. lookup t s.session_keys) (sym ((list_beq_iff c d).0 same)) ∙ there)
    | inr other ↦
        let old : lookup d s.pending_initiation_bundles ≡ some w =
          ground (arith, lookup-insert c d v s.pending_initiation_bundles) in
        b d w old
  ];
}

pub popped :
    (s : Rpc) (c : Text)
    → Extends s (record s { pending_initiation_bundles = erase c s.pending_initiation_bundles })
popped s c = record {
  kept = λ d e. e;
  backed = λ b d w e.
      let old : lookup d s.pending_initiation_bundles ≡ some w =
        ground (arith, lookup-erase c d s.pending_initiation_bundles) in
      b d w old;
}
