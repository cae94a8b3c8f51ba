-- ===== src/Json.antt =====
-- The JSON values that the program stores and sends. Its numbers are natural numbers: the program's
-- records hold no others but two time stamps, whose JSON form Store.Metadata takes as a parameter.
use desperate.Prelude.{
  ℕ, ◌≡◌, refl, All, Bool, Option, none, some, List, [], ◌∷◌, String, ◌==◌, string_eq, beq_refl,
  arith, if◌then◌else◌,
}
use desperate.Outcome.{Result, ok, err, key_error, type_error, ◌>>=◌}
use desperate.Codec.Words.{Bytes, IsBytes}
use desperate.Codec.Hex.{Text, to_hex, from_hex, from_hex-to_hex}

mutual
  pub data Json : Type 0 where
    null : Json
    bool : Bool → Json
    num : ℕ → Json
    text : Text → Json
    arr : Items → Json
    obj : Fields → Json

  pub data Items : Type 0 where
    nil : Items
    cons : Json → Items → Items

  pub data Fields : Type 0 where
    end : Fields
    field : String → Json → Fields → Fields

-- d.get(k) of an object's fields
unfoldable pub find : String → Fields → Option Json
find k end = none
find k (field j v d) = if j == k then some v else find k d

-- d[k] = v
unfoldable pub put : String → Json → Fields → Fields
put k v end = field k v end
put k v (field j w d) = if j == k then field j v d else field j w (put k v d)

-- d[k]
unfoldable pub at : String → Json → Result Json
unfolding find
at k (obj d) = elim (find k d) [ none ↦ err key_error | some v ↦ ok v ]
at k j = err type_error

-- What the program takes a value for, once it has it.
unfoldable pub as_num : Json → Result ℕ
as_num (num n) = ok n
as_num j = err type_error

unfoldable pub as_text : Json → Result Text
as_text (text t) = ok t
as_text j = err type_error

unfoldable pub as_fields : Json → Result Fields
as_fields (obj d) = ok d
as_fields j = err type_error

unfoldable pub as_items : Json → Result Items
as_items (arr l) = ok l
as_items j = err type_error

-- bytes.hex() as a value, and bytes.fromhex of a value
abbrev pub hex : Bytes → Json
hex b = text (to_hex b)

unfoldable pub as_bytes : Json → Result Bytes
unfolding as_text
as_bytes j = do t ← as_text j; from_hex t

-- [f(o) for o in l]
unfoldable pub collect {ℓ} : {A : Type ℓ} → (Json → Result A) → Items → Result (List A)
collect f nil = ok []
collect f (cons j l) = do a ← f j; rest ← collect f l; ok (a ∷ rest)

unfoldable pub items_of {ℓ} : {A : Type ℓ} → (A → Json) → List A → Items
items_of f [] = nil
items_of f (a ∷ l) = cons (f a) (items_of f l)

-- A byte string is read back from its hex form.
pub as_bytes-hex : (b : Bytes) → IsBytes b → as_bytes (hex b) ≡ ok b
unfolding as_bytes
as_bytes-hex b h = from_hex-to_hex b h

-- A list is read back if each of its elements is.
pub collect-items_of {ℓ} :
    {A : Type ℓ} (read : Json → Result A) (write : A → Json) (l : List A)
    → All (λ a. read (write a) ≡ ok a) l
    → collect read (items_of write l) ≡ ok l
unfolding collect items_of
collect-items_of read write [] h = refl
collect-items_of read write (a ∷ l) h = rw (h.0, collect-items_of read write l h.1)

-- The value put under a key is found there.
pub find-put : (k : String) (v : Json) (d : Fields) → find k (put k v d) ≡ some v
unfolding find put
find-put k v end = ground (arith, beq_refl k)
find-put k v (field j w d) = ground (arith, find-put k v d)
