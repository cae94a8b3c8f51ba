-- ===== src/Store/Abstract/Reached.antt =====
-- Calls of the store, and where one of them may lead, by its result.
use desperate.Prelude.{
  ◌≡◌, ◌≢◌, refl, sym, ap, subst, ◌∙◌, arith, false, Bool-cases, Option, inl, inr, List, [], ◌∷◌,
  ◌==◌, list_eq, list_beq_iff,
}
use desperate.Outcome.{Result, ok, err, Exception}
use desperate.Codec.Hex.{Text}
use desperate.Crypto.{Cipher}
use desperate.Json.{Json, Fields}
use desperate.Store.{StateStore}
use desperate.Store.AtomicWrite.{FileSystem}
use desperate.Store.States.{JsonCodec, save_state, load_state, delete_session, save_counter}
use desperate.Store.Abstract.{
  StoreCall, save, count, remove, Table, set, effect, Atomic, took_effect, raised_before,
  raised_after, stored, Reads,
}

set_same : (id : Text) (x : Option Fields) (table : Table) → set id x table id ≡ x
set_same id x table = rw ((list_beq_iff id id).1 refl) refl

set_other :
    (id other : Text) (x : Option Fields) (table : Table)
    → (id == other) ≡ false
    → set id x table other ≡ table other
set_other id other x table e = rw e refl

differs : (id other : Text) → (id == other) ≡ false → id ≢ other
differs id other e q = ground (arith, list_beq_iff id other)

-- A call that changed one entry at most.
pub Reads-set :
    (id : Text) (x : Option Fields) (before after : Text → Result Json) (table : Table)
    → Reads before table
    → after id ≡ stored x
    → ((other : Text) → id ≢ other → after other ≡ before other)
    → Reads after (set id x table)
Reads-set id x before after table reads here others k valid = elim (Bool-cases (id == k)) [
  | inl same ↦
      let e = (list_beq_iff id k).0 same in
      subst (λ t. after t ≡ stored (set id x table t)) e
        (here ∙ ap stored (sym (set_same id x table)))
  | inr other ↦
      others k (differs id k other) ∙ reads k valid ∙ ap stored (sym (set_other id k x table other))
]

pub Reads-same :
    (id : Text) (before after : Text → Result Json) (table : Table)
    → Reads before table
    → after id ≡ before id
    → ((other : Text) → id ≢ other → after other ≡ before other)
    → Reads after table
Reads-same id before after table reads here others k valid = elim (Bool-cases (id == k)) [
  | inl same ↦
      let e = (list_beq_iff id k).0 same in subst (λ t. after t ≡ before t) e here ∙ reads k valid
  | inr other ↦ others k (differs id k other) ∙ reads k valid
]

module _ (c : Cipher) (j : JsonCodec) (st : StateStore) where
  abbrev pub loading : FileSystem → Text → Result Json
  loading fs id = load_state c j st id fs

  abbrev pub run_call : StoreCall → FileSystem → Result (Unit {0}) × FileSystem
  run_call (save id state nonce io) fs = save_state c j st id state nonce io fs
  run_call (count id n nonce io) fs = save_counter c j st id n nonce io fs
  run_call (remove id) fs = delete_session c j st id fs

  unfoldable pub run_calls : List StoreCall → FileSystem → List (Result (Unit {0})) × FileSystem
  run_calls [] fs = ([], fs)
  run_calls (call ∷ calls) fs =
      let (r, fs1) = run_call call fs in let (rs, fs2) = run_calls calls fs1 in (r ∷ rs, fs2)

  -- A result and a file system that a call may lead to.
  pub record Reached (call : StoreCall) (table : Table) (q : Result (Unit {0}) × FileSystem)
      : Type 0 where
    pub mid : Table
    pub atomic : Atomic call table q.0 mid
    pub reads : Reads (loading q.1) mid

  pub returned :
      (call : StoreCall) (table : Table) (q : Result (Unit {0}) × FileSystem)
      → q.0 ≡ ok tt
      → Reads (loading q.1) (effect call table)
      → Reached call table q
  returned call table q e reads = record {
    mid = effect call table;
    atomic = subst (λ r. Atomic call table r (effect call table)) (sym e) took_effect;
    reads = reads;
  }

  pub unchanged :
      (call : StoreCall) (table : Table) (q : Result (Unit {0}) × FileSystem) {x : Exception}
      → q.0 ≡ err x
      → Reads (loading q.1) table
      → Reached call table q
  unchanged call table q {x} e reads = record {
    mid = table;
    atomic = subst (λ r. Atomic call table r table) (sym e) (raised_before x);
    reads = reads;
  }

  pub changed :
      (call : StoreCall) (table : Table) (q : Result (Unit {0}) × FileSystem) {x : Exception}
      → q.0 ≡ err x
      → Reads (loading q.1) (effect call table)
      → Reached call table q
  changed call table q {x} e reads = record {
    mid = effect call table;
    atomic = subst (λ r. Atomic call table r (effect call table)) (sym e) (raised_after x);
    reads = reads;
  }
