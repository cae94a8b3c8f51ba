-- ===== src/Store/Listing/Laws.antt =====
-- list_sessions lists the sessions that have a state.
use desperate.Prelude.{
  Bool, true, false, ◌||◌, ◌==◌, ◌-◌, ◌≡◌, refl, sym, ap, ◌∙◌, arith, Bool-cases, Option-cases,
  Option, none, some, inl, inr, List, [], ◌∷◌, ◌++◌, take, drop, length, take-append, drop-append,
  length-append, take-append-drop, list_eq, list_beq_iff, nat_eq, nat_beq_iff, if◌then◌else◌,
}
use desperate.Prelude.Dict.{lookup}
use desperate.Outcome.{ok}
use desperate.Codec.Words.{Bytes}
use desperate.Codec.Hex.{Text}
use desperate.Codec.Ascii.{ascii}
use desperate.Crypto.{Cipher}
use desperate.Kdf.{is_empty}
use desperate.Store.{StateStore, exists}
use desperate.Store.AtomicWrite.{FileSystem, join}
use desperate.Store.Paths.{
  session_dir, state_path, state_name, contains, validate_session_id, any_forbidden,
  starts_with_dot,
}
use desperate.Store.States.{JsonCodec, state_exists}
use desperate.Store.Listing.{
  strip_prefix, strip_suffix, stem, stem_in_dir, session_of, prepend, list_sessions, is_listed,
}

strip_prefix-append : (p t : Text) → strip_prefix p (p ++ t) ≡ some t
unfolding strip_prefix
strip_prefix-append p t =
    rw (take-append (length p) p t refl, drop-append (length p) p t refl, (list_beq_iff p p).1 refl)
      refl

strip_prefix_lem : (p t : Text) {r : Text} → strip_prefix p t ≡ some r → t ≡ p ++ r
unfolding strip_prefix
strip_prefix_lem p t e =
    ground (arith, take-append-drop (length p) t, list_beq_iff (take (length p) t) p)

strip_suffix_lem : (s t : Text) {r : Text} → strip_suffix s t ≡ some r → t ≡ r ++ s
unfolding strip_suffix
strip_suffix_lem s t e =
    let n = length t - length s in ground (arith, take-append-drop n t, list_beq_iff (drop n t) s)

strip_suffix-append : (s t : Text) → strip_suffix s (t ++ s) ≡ some t
unfolding strip_suffix
strip_suffix-append s t =
    let n = length (t ++ s) - length s in
    let same : length t ≡ n = omega (arith, length-append t s) in
    rw (take-append n t s same, drop-append n t s same, (list_beq_iff s s).1 refl) refl

join-prefix : (dir name : Text) → (dir ++ (47 ∷ [])) ++ name ≡ join dir name
join-prefix [] name = refl
join-prefix (a ∷ dir) name = ap (λ t. a ∷ t) (join-prefix dir name)

no_slash : (id : Text) → any_forbidden id ≡ false → contains (state_name id) 47 ≡ false
unfolding any_forbidden
no_slash [] h = refl
no_slash (a ∷ id) h = ground (arith, no_slash id, nat_beq_iff 47 a, nat_beq_iff a 47)

-- An allowed name has no `/`, is not empty and starts with no dot.
allowed :
    (id : Text)
    → validate_session_id id ≡ ok tt
    → (any_forbidden id ≡ false) × (is_empty id ≡ false) × (starts_with_dot id ≡ false)
unfolding validate_session_id
allowed id valid = ground arith

stem_named : (id : Text) → is_empty id ≡ false → stem (some id) ≡ some id
stem_named [] h = absurd cc
stem_named (a ∷ id) h = refl

session_of-state_path :
    (base id : Text)
    → validate_session_id id ≡ ok tt
    → session_of (session_dir base) (state_path base id) ≡ some id
session_of-state_path base id valid =
    let (good, named, dot) = allowed id valid in
    rw
      (
        ← join-prefix (session_dir base) (state_name id),
        strip_prefix-append (session_dir base ++ (47 ∷ [])) (state_name id),
        no_slash id good,
        strip_suffix-append (ascii ".state") id,
      )
      (stem_named id named)

stem_lem :
    (r : Option Text) (id : Text) → starts_with_dot id ≡ false → stem r ≡ some id → r ≡ some id
stem_lem none id dot e = absurd cc
stem_lem (some []) id dot e = absurd (ground arith)
stem_lem (some (a ∷ t)) id dot e = e

stem_in_dir_lem :
    (r : Option Text) (id : Text)
    → starts_with_dot id ≡ false
    → stem_in_dir r ≡ some id
    → r ≡ some (state_name id)
stem_in_dir_lem none id dot e = absurd cc
stem_in_dir_lem (some name) id dot e = elim (Bool-cases (contains name 47)) [
  | inl slash ↦ absurd (ground arith)
  | inr fine ↦
      let cut : stem (strip_suffix (ascii ".state") name) ≡ some id = ground arith in
      ap some (strip_suffix_lem (ascii ".state") name (stem_lem _ id dot cut))
]

session_of_lem :
    (base id path : Text)
    → validate_session_id id ≡ ok tt
    → session_of (session_dir base) path ≡ some id
    → path ≡ state_path base id
session_of_lem base id path valid e =
    strip_prefix_lem _ path (stem_in_dir_lem _ id (allowed id valid).2 e)
    ∙ join-prefix (session_dir base) (state_name id)

abbrev is_that : Text → Option Text → Bool
is_that id none = false
is_that id (some t) = t == id

is_listed-prepend :
    (id : Text) (o : Option Text) (l : List Text)
    → is_listed id (prepend o l) ≡ (is_that id o || is_listed id l)
unfolding is_listed
is_listed-prepend id none l = refl
is_listed-prepend id (some t) l = refl

-- A path is listed under a session id exactly if it is that of the session's state.
is_that-session_of :
    (base id path : Text)
    → validate_session_id id ≡ ok tt
    → is_that id (session_of (session_dir base) path) ≡ (path == state_path base id)
is_that-session_of base id path valid =
    let target = state_path base id in
    elim (Bool-cases (path == target)) [
      | inl same ↦
          let e = (list_beq_iff path target).0 same in
          ap (λ q. is_that id (session_of (session_dir base) q)) e
          ∙ ap (is_that id) (session_of-state_path base id valid)
          ∙ (list_beq_iff id id).1 refl
          ∙ sym same
      | inr other ↦ elim (Option-cases (session_of (session_dir base) path)) [
        | inl e ↦ ap (is_that id) e ∙ sym other
        | inr (t, e) ↦ elim (Bool-cases (t == id)) [
          | inl named ↦
              let q =
                session_of_lem base id path valid (e ∙ ap some ((list_beq_iff t id).0 named)) in
              absurd (ground (arith, list_beq_iff path target))
          | inr apart ↦ ap (is_that id) e ∙ apart ∙ sym other
        ]
      ]
    ]

found :
    (same : Bool) (v : Bytes) (o : Option Bytes)
    → (same || exists o) ≡ exists (if same then some v else o)
found true v o = refl
found false v o = refl

-- list_sessions lists an allowed session id exactly if the session has a state file.
pub is_listed-list_sessions :
    (c : Cipher) (j : JsonCodec) (st : StateStore) (id : Text) (fs : FileSystem)
    → validate_session_id id ≡ ok tt
    → is_listed id (list_sessions st fs) ≡ state_exists c j st id fs
unfolding list_sessions is_listed state_exists lookup
is_listed-list_sessions c j st id [] valid = refl
is_listed-list_sessions c j st id ((path, content) ∷ fs) valid =
    let rest = is_listed-list_sessions c j st id fs valid in
    is_listed-prepend id (session_of (session_dir st.base_dir) path) (list_sessions st fs)
    ∙ ap (λ b. b || is_listed id (list_sessions st fs))
        (is_that-session_of st.base_dir id path valid)
    ∙ ap (λ b. (path == state_path st.base_dir id) || b) rest
    ∙ found (path == state_path st.base_dir id) content (lookup (state_path st.base_dir id) fs)
