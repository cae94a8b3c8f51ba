-- ===== src/Tests/ToyCodecs.antt =====
-- Serialisers that keep the laws of msgpack and json.
use desperate.Prelude.{
  ℕ, zero, suc, append-nil, ◌≡◌, refl, arith, List, [], ◌∷◌, ◌++◌, map, if◌then◌else◌, ◌==◌,
  string_eq,
}
use desperate.Prelude.Int.{pos, negsuc}
use desperate.Outcome.{Result, ok, err, type_error}
use desperate.Codec.Words.{Bytes}
use desperate.Json.{Json, null, bool, num, text, arr, obj, end, field}
use desperate.Signatures.{Value, bin, str, int, nil, Msgpack, MsgpackLaws}
use desperate.Store.States.{JsonCodec, JsonCodecLaws}

-- A value is a mark below 5 and then its contents, each moved up by 5.
abbrev shifted : Bytes → Bytes
shifted = map (λ b. suc (suc (suc (suc (suc b)))))

abbrev value_bytes : Value → Bytes
value_bytes (bin b) = 0 ∷ shifted b
value_bytes (str b) = 1 ∷ shifted b
value_bytes (int (pos n)) = 2 ∷ shifted (n ∷ [])
value_bytes (int (negsuc n)) = 3 ∷ shifted (n ∷ [])
value_bytes nil = 4 ∷ []

unfoldable pub value_list_bytes : List Value → Bytes
value_list_bytes [] = []
value_list_bytes (v ∷ l) = value_bytes v ++ value_list_bytes l

abbrev number : Bytes → ℕ
number [] = 0
number (n ∷ l) = n

abbrev take_in : ℕ → Bytes × List Value → Bytes × List Value
take_in zero (p, l) = ([], bin p ∷ l)
take_in (suc zero) (p, l) = ([], str p ∷ l)
take_in (suc (suc zero)) (p, l) = ([], int (pos (number p)) ∷ l)
take_in (suc (suc (suc zero))) (p, l) = ([], int (negsuc (number p)) ∷ l)
take_in (suc (suc (suc (suc zero)))) (p, l) = ([], nil ∷ l)
take_in (suc (suc (suc (suc (suc n))))) (p, l) = (n ∷ p, l)

unfoldable pub values_of : Bytes → Bytes × List Value
values_of [] = ([], [])
values_of (x ∷ xs) = take_in x (values_of xs)

values_of-shifted :
    (b rest p : Bytes) (l : List Value)
    → values_of rest ≡ (p, l)
    → values_of (shifted b ++ rest) ≡ (b ++ p, l)
unfolding values_of
values_of-shifted [] rest p l e = e
values_of-shifted (x ∷ b) rest p l e = rw (values_of-shifted b rest p l e)

values_of-value_bytes :
    (v : Value) (rest : Bytes) (l : List Value)
    → values_of rest ≡ ([], l)
    → values_of (value_bytes v ++ rest) ≡ ([], v ∷ l)
unfolding values_of
values_of-value_bytes (bin b) rest l e = rw (values_of-shifted b rest [] l e, append-nil b)
values_of-value_bytes (str b) rest l e = rw (values_of-shifted b rest [] l e, append-nil b)
values_of-value_bytes (int (pos n)) rest l e = rw e
values_of-value_bytes (int (negsuc n)) rest l e = rw e
values_of-value_bytes nil rest l e = rw e

values_of-value_list_bytes : (l : List Value) → values_of (value_list_bytes l) ≡ ([], l)
unfolding values_of value_list_bytes
values_of-value_list_bytes [] = refl
values_of-value_list_bytes (v ∷ l) =
    values_of-value_bytes v (value_list_bytes l) l (values_of-value_list_bytes l)

abbrev pub msgpack : Msgpack
msgpack = record { packb = λ l. ok (value_list_bytes l); unpackb = λ b. ok (values_of b).1 }

pub msgpack_laws : MsgpackLaws msgpack
msgpack_laws = record { unpackb-packb = λ l {b} e. unpacked l e }
  where
    unpacked :
        (l : List Value) {b : Bytes} → ok (value_list_bytes l) ≡ ok b → ok (values_of b).1 ≡ ok l
    unpacked l {b} e =
        let same : value_list_bytes l ≡ b = ground arith in
        rw (← same, values_of-value_list_bytes l)

-- json for a state that holds a counter and nothing else, or nothing.
unfoldable pub dumped : Json → Result Bytes
dumped (obj end) = ok []
dumped (obj (field k (num n) end)) = if k == "header_counter" then ok (n ∷ []) else err type_error
dumped v = err type_error

unfoldable pub loaded : Bytes → Result Json
loaded [] = ok (obj end)
loaded (n ∷ b) = ok (obj (field "header_counter" (num n) end))

loaded-dumped : (v : Json) {b : Bytes} → dumped v ≡ ok b → loaded b ≡ ok v
unfolding dumped loaded
loaded-dumped (obj end) e = ground arith
loaded-dumped (obj (field k (num n) end)) e = ground (arith, (string_eq).beq_iff k "header_counter")
loaded-dumped null e = absurd (cc)
loaded-dumped (bool b) e = absurd (cc)
loaded-dumped (num n) e = absurd (cc)
loaded-dumped (text t) e = absurd (cc)
loaded-dumped (arr l) e = absurd (cc)
loaded-dumped (obj (field k null d)) e = absurd (cc)
loaded-dumped (obj (field k (bool b) d)) e = absurd (cc)
loaded-dumped (obj (field k (text t) d)) e = absurd (cc)
loaded-dumped (obj (field k (arr l) d)) e = absurd (cc)
loaded-dumped (obj (field k (obj f) d)) e = absurd (cc)
loaded-dumped (obj (field k (num n) (field q v d))) e = absurd (cc)

abbrev pub json : JsonCodec
json = record { dumps = λ v. dumped v; loads = λ b. loaded b }

pub json_laws : JsonCodecLaws json
json_laws = record { loads-dumps = λ v e. loaded-dumped v e }
