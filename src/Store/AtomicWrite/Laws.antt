-- ===== src/Store/AtomicWrite/Laws.antt =====
-- A file is replaced whole or not at all, and no other file changes.
use desperate.Prelude.{
  ℕ, ◌≡◌, ◌≢◌, ◌<◌, ◌⊎◌, none, some, sym, ap, ◌∙◌, [], take, length, length-take, arith, list_eq,
  list_beq, list_beq_iff, if◌then◌else◌,
}
use desperate.Prelude.Dict.{lookup, insert, erase, lookup-insert, lookup-erase}
use desperate.Outcome.{ok, err, os_error}
use desperate.Codec.Words.{Bytes}
use desperate.Codec.Hex.{Text}
use desperate.Store.AtomicWrite.{
  FileSystem, WriteIo, join, temp_path, accepted, write_and_rename, atomic_write, fails_early,
  fails_writing, fails_closing, fails_late,
}

module _ (tmp target : Text) (content : Bytes) (io : WriteIo) (fs : FileSystem) where
  abbrev stored : Bytes
  stored = accepted io.taken content

  abbrev created : FileSystem
  created = insert tmp [] fs

  abbrev wrote : FileSystem
  wrote = insert tmp stored created

  abbrev moved : FileSystem
  moved = insert target stored (erase tmp wrote)

  lookup-created : (path : Text) → tmp ≢ path → lookup path created ≡ lookup path fs
  lookup-created path h = ground (arith, lookup-insert tmp path [] fs, list_beq_iff tmp path)

  lookup-wrote : (path : Text) → tmp ≢ path → lookup path wrote ≡ lookup path fs
  lookup-wrote path h =
      ground
        (arith, lookup-insert tmp path stored created, list_beq_iff tmp path, lookup-created path h)

  lookup_erased :
      (path : Text) (d : FileSystem) → tmp ≢ path → lookup path (erase tmp d) ≡ lookup path d
  lookup_erased path d h = ground (arith, lookup-erase tmp path d, list_beq_iff tmp path)

  lookup-moved :
      (path : Text)
      → tmp ≢ path
      → lookup path moved ≡ (if list_beq target path then some stored else lookup path fs)
  lookup-moved path h = ground (
    arith,
    lookup-insert target path stored (erase tmp wrote),
    lookup_erased path wrote h,
    lookup-wrote path h,
  )

  -- The file at `path` after the call, by where the error struck.
  lookup_after :
      (path : Text)
      → tmp ≢ path
      → (((write_and_rename tmp target content io fs).0 ≡ err os_error)
          × (lookup path (write_and_rename tmp target content io fs).1 ≡ lookup path fs))
        ⊎ (lookup path (write_and_rename tmp target content io fs).1
            ≡ (if list_beq target path then some stored else lookup path fs))
  unfolding write_and_rename
  lookup_after path h = ground (
    arith,
    lookup-created path h,
    lookup-wrote path h,
    lookup-moved path h,
    lookup_erased path created h,
    lookup_erased path wrote h,
    lookup_erased path moved h,
  )

  returns_moved :
      (write_and_rename tmp target content io fs).0 ≡ ok tt
      → (write_and_rename tmp target content io fs).1 ≡ moved
  unfolding write_and_rename
  returns_moved h = ground arith

module _ (dir name : Text) (content : Bytes) (io : WriteIo) (fs : FileSystem) where
  -- If the temporary name is not the target's, then whether the call returns or raises: a file
  -- that is neither the target nor the temporary file keeps its contents, or its absence; the
  -- target has its old contents and the call has raised, or it has the bytes that were accepted.
  pub atomic_write_lem :
      temp_path dir io ≢ join dir name
      → ((path : Text)
          → join dir name ≢ path
          → temp_path dir io ≢ path
          → lookup path (atomic_write dir name content io fs).1 ≡ lookup path fs)
        × ((((atomic_write dir name content io fs).0 ≡ err os_error)
              × (lookup (join dir name) (atomic_write dir name content io fs).1
                  ≡ lookup (join dir name) fs))
            ⊎ (lookup (join dir name) (atomic_write dir name content io fs).1
                ≡ some (accepted io.taken content)))
  unfolding atomic_write
  atomic_write_lem fresh =
      let tmp = temp_path dir io in
      let target = join dir name in
      (
        λ path other apart.
            ground
              (arith, lookup_after tmp target content io fs path apart, list_beq_iff target path),
        ground
            (arith, lookup_after tmp target content io fs target fresh, list_beq_iff target target),
      )

  -- If the temporary name is not the target's, a call that returns has put the accepted bytes
  -- into the target and left no temporary file.
  pub atomic_write_returns :
      temp_path dir io ≢ join dir name
      → (atomic_write dir name content io fs).0 ≡ ok tt
      → (lookup (join dir name) (atomic_write dir name content io fs).1
          ≡ some (accepted io.taken content))
        × (lookup (temp_path dir io) (atomic_write dir name content io fs).1 ≡ none)
  unfolding atomic_write
  atomic_write_returns fresh h =
      let tmp = temp_path dir io in
      let target = join dir name in
      let w = wrote tmp target content io fs in
      rw (returns_moved tmp target content io fs h) (
        ground
            (arith, lookup-moved tmp target content io fs target fresh, list_beq_iff target target),
        ground (
          arith,
          lookup-insert target tmp (accepted io.taken content) (erase tmp w),
          lookup-erase tmp tmp w,
          list_beq_iff tmp tmp,
          list_beq_iff target tmp,
          λ (same : target ≡ tmp). fresh (sym same),
        ),
      )

  pub atomic_write_no_fault : io.fault ≡ none → (atomic_write dir name content io fs).0 ≡ ok tt
  unfolding atomic_write write_and_rename fails_early fails_writing fails_closing fails_late
  atomic_write_no_fault fine = ground arith

  -- A short write is not noticed: with no OSError, and a temporary name that is not the target's,
  -- the call returns, and the target holds only the bytes that os.write took, which are not the
  -- content.
  pub atomic_write_short :
      (n : ℕ)
      → temp_path dir io ≢ join dir name
      → io.fault ≡ none
      → io.taken ≡ some n
      → n < length content
      → ((atomic_write dir name content io fs).0 ≡ ok tt)
        × (lookup (join dir name) (atomic_write dir name content io fs).1 ≡ some (take n content))
        × (take n content ≢ content)
  atomic_write_short n fresh fine short less =
      let returned = atomic_write_no_fault fine in
      (
        returned,
        (atomic_write_returns fresh returned).0 ∙ ap (λ t. some (accepted t content)) short,
        λ e. absurd (omega (arith, length-take n content, ap (λ (l : Bytes). length l) e)),
      )
