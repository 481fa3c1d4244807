-- ===== src/Http/Fields.antt =====
-- `std::unordered_map<std::string, std::string>`, the type of the headers and the parameters of a
-- request, as an association list in the order in which an iterator visits it.
use http_nest.Prelude.{
  ◌≡◌, refl, List, [], ◌∷◌, Option, none, some, arith, if◌then◌else◌, Bytes, bytes_eq, bytes_eq_iff,
}

abbrev pub Fields : Type 0
Fields = List (Bytes × Bytes)

unfoldable pub lookup : Bytes → Fields → Option Bytes
lookup k [] = none
lookup k ((j, v) ∷ m) = if bytes_eq j k then some v else lookup k m

-- `m[k] = v`.
unfoldable pub assign : Bytes → Bytes → Fields → Fields
assign k v [] = (k, v) ∷ []
assign k v ((j, w) ∷ m) = if bytes_eq j k then (j, v) ∷ m else (j, w) ∷ assign k v m

unfoldable pub erase : Bytes → Fields → Fields
erase k [] = []
erase k ((j, w) ∷ m) = if bytes_eq j k then erase k m else (j, w) ∷ erase k m

pub lookup-assign :
    (k j v : Bytes) (m : Fields)
    → lookup j (assign k v m) ≡ (if bytes_eq k j then some v else lookup j m)
unfolding lookup assign
lookup-assign k j v [] = refl
lookup-assign k j v ((i, w) ∷ m) =
    ground (arith, bytes_eq_iff k j, bytes_eq_iff i k, bytes_eq_iff i j, lookup-assign k j v m)

pub lookup-erase :
    (k j : Bytes) (m : Fields) → lookup j (erase k m) ≡ (if bytes_eq k j then none else lookup j m)
unfolding lookup erase
lookup-erase k j [] = ground arith
lookup-erase k j ((i, w) ∷ m) =
    ground (arith, bytes_eq_iff k j, bytes_eq_iff i k, bytes_eq_iff i j, lookup-erase k j m)
