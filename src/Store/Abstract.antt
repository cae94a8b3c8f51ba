-- ===== src/Store/Abstract.antt =====
-- The store as a table of sessions. A call of it happens as a whole or not at all: one that returns
-- took effect, and one that raises did so before or after its effect.
pub mod Reached
pub mod Refinement
use desperate.Prelude.{
  ℕ, ◌≡◌, ◌==◌, Option, none, some, List, [], ◌∷◌, length, list_eq, if◌then◌else◌,
}
use desperate.Outcome.{Result, Exception, ok, err, file_not_found}
use desperate.Codec.Words.{Bytes}
use desperate.Codec.Hex.{Text}
use desperate.Constants.{nonce_len}
use desperate.Json.{Json, Fields, end, put, num, obj}
use desperate.Store.AtomicWrite.{FileSystem, WriteIo}
use desperate.Store.Paths.{validate_session_id}

-- The calls that change sessions, with what they draw.
pub data StoreCall : Type 0 where
  save : Text → Fields → Bytes → WriteIo → StoreCall
  count : Text → ℕ → Bytes → WriteIo → StoreCall
  remove : Text → StoreCall

-- The state of each session.
abbrev pub Table : Type 0
Table = Text → Option Fields

abbrev pub set : Text → Option Fields → Table → Table
set id state table k = if id == k then state else table k

abbrev pub fields_or_empty : Option Fields → Fields
fields_or_empty none = end
fields_or_empty (some d) = d

-- What a call is for.
abbrev pub effect : StoreCall → Table → Table
effect (save id state nonce io) table = set id (some state) table
effect (count id n nonce io) table =
    set id (some (put "header_counter" (num n) (fields_or_empty (table id)))) table
effect (remove id) table = set id none table

pub data Atomic (call : StoreCall) (table : Table) : Result (Unit {0}) → Table → Type 0 where
  took_effect : Atomic call table (ok tt) (effect call table)
  raised_before : (x : Exception) → Atomic call table (err x) table
  raised_after : (x : Exception) → Atomic call table (err x) (effect call table)

-- Calls one after another, with their results.
pub data Runs : List StoreCall → List (Result (Unit {0})) → Table → Table → Type 0 where
  finished : (table : Table) → Runs [] [] table table
  next :
      {call : StoreCall} {calls : List StoreCall} {r : Result (Unit {0})}
      {rs : List (Result (Unit {0}))} {table mid last : Table}
      → Atomic call table r mid
      → Runs calls rs mid last
      → Runs (call ∷ calls) (r ∷ rs) table last

-- `os.write` takes every byte, and the nonce has 12 bytes.
abbrev pub IsWhole : StoreCall → Type 0
IsWhole (save id state nonce io) = (length nonce ≡ nonce_len) × (io.taken ≡ none)
IsWhole (count id n nonce io) = (length nonce ≡ nonce_len) × (io.taken ≡ none)
IsWhole (remove id) = Unit

-- What `load_state` gives for an entry of the table.
abbrev pub stored : Option Fields → Result Json
stored none = err file_not_found
stored (some d) = ok (obj d)

-- A loading function reads the table, for every session id that is allowed.
abbrev pub Reads : (Text → Result Json) → Table → Type 0
Reads loading table = (id : Text) → validate_session_id id ≡ ok tt → loading id ≡ stored (table id)
