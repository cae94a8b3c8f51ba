-- ===== src/Store/Paths.antt =====
-- core/state_store.py: names of the files, their associated data, and the test of session ids.
pub mod Laws
use desperate.Prelude.{ℕ, ◌≡◌, ◌≢◌, Bool, true, false, ◌||◌, List, [], ◌∷◌, ◌++◌, ◌==◌, nat_eq}
use desperate.Outcome.{
  Result, ok, value_error, empty_session_id, forbidden_session_id, dotted_session_id, reject, ◌>>=◌,
  ◌>>◌,
}
use desperate.Codec.Words.{Bytes}
use desperate.Codec.Hex.{Text}
use desperate.Codec.Ascii.{ascii}
use desperate.Codec.Utf8.{encode}
use desperate.Store.AtomicWrite.{join}
use desperate.Kdf.{is_empty}

abbrev pub session_dir : Text → Text
session_dir base_dir = join base_dir (ascii "sessions")

abbrev pub state_name : Text → Text
state_name session_id = session_id ++ ascii ".state"

abbrev pub meta_name : Text → Text
meta_name session_id = session_id ++ ascii ".meta"

abbrev pub state_path : Text → Text → Text
state_path base_dir session_id = join (session_dir base_dir) (state_name session_id)

abbrev pub meta_path : Text → Text → Text
meta_path base_dir session_id = join (session_dir base_dir) (meta_name session_id)

-- f"statestore-v1:{file_type}:{session_id}".encode("utf-8")
unfoldable pub make_ad : Text → Text → Bytes
make_ad session_id file_type = encode (ascii "statestore-v1:" ++ (file_type ++ (58 ∷ session_id)))

abbrev pub contains : Text → ℕ → Bool
contains [] c = false
contains (x ∷ xs) c = x == c || contains xs c

abbrev pub forbidden : Text
forbidden = ascii "/\\:*?\"<>|"

unfoldable pub any_forbidden : Text → Bool
any_forbidden [] = false
any_forbidden (c ∷ cs) = contains forbidden c || any_forbidden cs

abbrev pub starts_with_dot : Text → Bool
starts_with_dot [] = false
starts_with_dot (c ∷ cs) = c == 46

unfoldable pub validate_session_id : Text → Result (Unit {0})
unfolding any_forbidden
validate_session_id session_id = do
  reject (is_empty session_id) (value_error empty_session_id)
  reject (any_forbidden session_id) (value_error forbidden_session_id)
  reject (starts_with_dot session_id) (value_error dotted_session_id)
