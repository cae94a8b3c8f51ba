-- ===== src/Store/Paths/Laws.antt =====
-- The files of a store do not collide: sessions, kinds of file and temporary files.
use desperate.Prelude.{
  ℕ, ◌≡◌, ◌≢◌, refl, sym, ap, ◌∙◌, arith, [], ◌∷◌, ◌++◌, length, take, drop, length-append,
  take-append, drop-append, All-append,
}
use desperate.Codec.Hex.{Text}
use desperate.Codec.Utf8.{IsText, encode_injective}
use desperate.Codec.Ascii.{ascii}
use desperate.Store.AtomicWrite.{WriteIo, join, temp_path}
use desperate.Store.Paths.{session_dir, state_path, meta_path, make_ad}

-- Names are told apart by their last characters.
abbrev last : Text → ℕ
last [] = 0
last (x ∷ []) = x
last (x ∷ (y ∷ t)) = last (y ∷ t)

last-append : (s : Text) (x : ℕ) (t : Text) → last (s ++ (x ∷ t)) ≡ last (x ∷ t)
last-append [] x t = refl
last-append (a ∷ []) x t = refl
last-append (a ∷ (b ∷ s)) x t = last-append (b ∷ s) x t

last-join : (dir s : Text) (x : ℕ) (t : Text) → last (join dir (s ++ (x ∷ t))) ≡ last (x ∷ t)
last-join dir s x t = last-append dir 47 (s ++ (x ∷ t)) ∙ last-append (47 ∷ s) x t

append-cancel-left : (s a b : Text) → s ++ a ≡ s ++ b → a ≡ b
append-cancel-left s a b e =
    sym (drop-append (length s) s a refl)
    ∙ ap (λ t. drop (length s) t) e
    ∙ drop-append (length s) s b refl

append-cancel-right : (a b s : Text) → a ++ s ≡ b ++ s → a ≡ b
append-cancel-right a b s e =
    sym (take-append (length b) a s same)
    ∙ ap (λ t. take (length b) t) e
    ∙ take-append (length b) b s refl
  where
    same : length a ≡ length b
    same = omega (arith, length-append a s, length-append b s, ap (λ (t : Text). length t) e)

pub temp-apart-state :
    (base id : Text) (io : WriteIo) → temp_path (session_dir base) io ≢ state_path base id
temp-apart-state base id io e = absurd (
    omega (
      arith,
      last-join (session_dir base) io.stem 46 (ascii "tmp"),
      last-join (session_dir base) id 46 (ascii "state"),
      ap (λ t. last t) e,
    ))

pub temp-apart-meta :
    (base id : Text) (io : WriteIo) → temp_path (session_dir base) io ≢ meta_path base id
temp-apart-meta base id io e = absurd (
    omega (
      arith,
      last-join (session_dir base) io.stem 46 (ascii "tmp"),
      last-join (session_dir base) id 46 (ascii "meta"),
      ap (λ t. last t) e,
    ))

pub temp-apart-salt : (base : Text) (io : WriteIo) → temp_path base io ≢ join base (ascii "salt")
temp-apart-salt base io e = absurd (
    omega (
      arith,
      last-join base io.stem 46 (ascii "tmp"),
      last-join base [] 115 (ascii "alt"),
      ap (λ t. last t) e,
    ))

-- A session's state is not written over the salt, and neither is its temporary file.
pub session-apart-salt :
    (base id : Text) (io : WriteIo)
    → (state_path base id ≢ join base (ascii "salt"))
      × (temp_path (session_dir base) io ≢ join base (ascii "salt"))
session-apart-salt base id io = (
  λ e. absurd (
      omega (
        arith,
        last-join (session_dir base) id 46 (ascii "state"),
        last-join base [] 115 (ascii "alt"),
        ap (λ t. last t) e,
      )),
  λ e. absurd (
      omega (
        arith,
        last-join (session_dir base) io.stem 46 (ascii "tmp"),
        last-join base [] 115 (ascii "alt"),
        ap (λ t. last t) e,
      )),
)

pub meta-apart-state : (base a b : Text) → meta_path base a ≢ state_path base b
meta-apart-state base a b e = absurd (
    omega (
      arith,
      last-join (session_dir base) a 46 (ascii "meta"),
      last-join (session_dir base) b 46 (ascii "state"),
      ap (λ t. last t) e,
    ))

pub state_path_injective : (base a b : Text) → state_path base a ≡ state_path base b → a ≡ b
state_path_injective base a b e =
    append-cancel-right a b (ascii ".state")
      (append-cancel-left (47 ∷ []) _ _ (append-cancel-left (session_dir base) _ _ e))

-- The associated data tell the session and the kind of the file: no two sessions share those of a
-- state file, and none has a state file with those of a metadata file.
pub make_ad_injective :
    (a b : Text)
    → IsText a
    → IsText b
    → (make_ad a (ascii "state") ≡ make_ad b (ascii "state") → a ≡ b)
      × (make_ad a (ascii "state") ≢ make_ad b (ascii "meta"))
unfolding make_ad
make_ad_injective a b ha hb = (
  λ e.
      append-cancel-left (ascii "statestore-v1:state:") a b
        (encode_injective _ _ (prefixed a ha) (prefixed b hb) e),
  λ e. absurd (
      omega (
        arith,
        ap (λ t. last (take 15 t)) (encode_injective _ _ (prefixed a ha) (prefixed_meta b hb) e),
      )),
)
  where
    prefixed : (t : Text) → IsText t → IsText (ascii "statestore-v1:state:" ++ t)
    prefixed t h = All-append _ (ascii "statestore-v1:state:") t (ground arith) h

    prefixed_meta : (t : Text) → IsText t → IsText (ascii "statestore-v1:meta:" ++ t)
    prefixed_meta t h = All-append _ (ascii "statestore-v1:meta:") t (ground arith) h
