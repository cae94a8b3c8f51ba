-- ===== src/Store/AtomicWrite.antt =====
-- `_atomic_write`: write to a temporary file, then rename. The environment chooses the name of the
-- temporary file, where an OSError strikes, how many bytes `os.write` takes, and whether the
-- clean-up can unlink.
pub mod Laws
use desperate.Prelude.{
  ℕ, Bool, true, false, ◌&&◌, ◌||◌, Option, none, some, List, [], ◌∷◌, ◌++◌, take, if◌then◌else◌,
  list_eq,
}
use desperate.Prelude.Dict.{Dict, insert, erase}
use desperate.Outcome.{Result, ok, err, os_error}
use desperate.Codec.Words.{Bytes}
use desperate.Codec.Hex.{Text}
use desperate.Codec.Ascii.{ascii}

abbrev pub FileSystem : Type 0
FileSystem = Dict Text Bytes

pub data Step : Type 0 where
  make_dir make_temp write_data sync_file close_file replace_file open_dir sync_dir : Step

pub record WriteIo : Type 0 where
  pub stem : Text
  pub fault : Option Step
  pub taken : Option ℕ
  pub unlinks : Bool
  pub posix : Bool

-- the error strikes before the rename, while the temporary file is there
unfoldable pub fails_early : Option Step → Bool
fails_early (some make_dir) = true
fails_early (some make_temp) = true
fails_early _ = false

unfoldable pub fails_writing : Option Step → Bool
fails_writing (some write_data) = true
fails_writing _ = false

unfoldable pub fails_closing : Option Step → Bool
fails_closing (some sync_file) = true
fails_closing (some close_file) = true
fails_closing (some replace_file) = true
fails_closing _ = false

unfoldable pub fails_late : Option Step → Bool
fails_late (some open_dir) = true
fails_late (some sync_dir) = true
fails_late _ = false

-- dir / name
abbrev pub join : Text → Text → Text
join dir name = dir ++ (47 ∷ name)

abbrev pub temp_path : Text → WriteIo → Text
temp_path dir io = join dir (io.stem ++ ascii ".tmp")

-- The bytes that `os.write` put into the file: its return value is not looked at.
abbrev pub accepted : Option ℕ → Bytes → Bytes
accepted none content = content
accepted (some n) content = take n content

-- the handler of OSError
unfoldable pub clean_up : Text → WriteIo → FileSystem → Result (Unit {0}) × FileSystem
clean_up tmp io fs = (err os_error, if io.unlinks then erase tmp fs else fs)

-- the body, over the path of the temporary file and the target
unfoldable pub write_and_rename :
    Text → Text → Bytes → WriteIo → FileSystem → Result (Unit {0}) × FileSystem
unfolding clean_up
write_and_rename tmp path content io fs =
    let created = insert tmp [] fs in
    let wrote = insert tmp (accepted io.taken content) created in
    let moved = insert path (accepted io.taken content) (erase tmp wrote) in
    if fails_early io.fault
    then (err os_error, fs)
    else if fails_writing io.fault
    then clean_up tmp io created
    else if fails_closing io.fault
    then clean_up tmp io wrote
    else if io.posix && fails_late io.fault
    then clean_up tmp io moved
    else (ok tt, moved)

unfoldable pub atomic_write :
    Text → Text → Bytes → WriteIo → FileSystem → Result (Unit {0}) × FileSystem
atomic_write dir name content io fs =
    write_and_rename (temp_path dir io) (join dir name) content io fs
