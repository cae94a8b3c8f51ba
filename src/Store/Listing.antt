-- ===== src/Store/Listing.antt =====
-- core/state_store.py: the list of sessions. A file system has no order of its own: the sessions come
-- in the order of its entries.
pub mod Laws
use desperate.Prelude.{
  ℕ, Bool, true, false, ◌||◌, ◌==◌, ◌≡◌, refl, sym, ap, ◌∙◌, arith, ◌≢◌, zero, suc, take, drop,
  length, ◌-◌, take-append, drop-append, length-append, Bool-cases, Option, none, some, inl, inr,
  List, [], ◌∷◌, ◌++◌, list_eq, list_beq_iff, nat_eq, nat_beq_iff, if◌then◌else◌,
}
use desperate.Prelude.Dict.{lookup}
use desperate.Outcome.{ok}
use desperate.Codec.Hex.{Text}
use desperate.Codec.Ascii.{ascii}
use desperate.Crypto.{Cipher}
use desperate.Store.{StateStore, exists}
use desperate.Store.AtomicWrite.{FileSystem, join}
use desperate.Store.Paths.{
  session_dir, state_path, state_name, contains, validate_session_id, any_forbidden,
  starts_with_dot,
}
use desperate.Store.States.{JsonCodec, state_exists}

-- What follows a prefix, if the text has it.
unfoldable pub strip_prefix : Text → Text → Option Text
strip_prefix p t = if take (length p) t == p then some (drop (length p) t) else none

-- What stands before a suffix, if the text has it.
unfoldable pub strip_suffix : Text → Text → Option Text
strip_suffix s t = let n = length t - length s in if drop n t == s then some (take n t) else none

-- `p.stem` of a name, by what stands before its suffix: a name that is the suffix alone has none.
abbrev pub stem : Option Text → Option Text
stem none = none
stem (some []) = some (ascii ".state")
stem (some (a ∷ t)) = some (a ∷ t)

-- A name of the directory that the pattern matches.
abbrev pub stem_in_dir : Option Text → Option Text
stem_in_dir none = none
stem_in_dir (some name) =
    if contains name 47 then none else stem (strip_suffix (ascii ".state") name)

abbrev pub session_of : Text → Text → Option Text
session_of dir path = stem_in_dir (strip_prefix (dir ++ (47 ∷ [])) path)

abbrev pub prepend : Option Text → List Text → List Text
prepend none l = l
prepend (some t) l = t ∷ l

unfoldable pub list_sessions : StateStore → FileSystem → List Text
unfolding strip_prefix strip_suffix
list_sessions st [] = []
list_sessions st ((path, content) ∷ fs) =
    prepend (session_of (session_dir st.base_dir) path) (list_sessions st fs)

-- `id in l`
unfoldable pub is_listed : Text → List Text → Bool
is_listed id [] = false
is_listed id (t ∷ l) = t == id || is_listed id l
