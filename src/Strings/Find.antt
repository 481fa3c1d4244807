-- ===== src/Strings/Find.antt =====
-- `std::string::find`, `find_first_of`, `find_last_of`, `rfind` and `empty`.
use http_nest.Prelude.{
  ℕ, suc, ◌+◌, Bool, true, false, [], ◌∷◌, Option, none, some, length, drop, ltb, ◌==◌, ◌||◌,
  if◌then◌else◌, Bytes, search,
}

unfoldable pub is_empty : Bytes → Bool
is_empty [] = true
is_empty (c ∷ s) = false

-- Whether a character is one of a set.
unfoldable pub one_of : Bytes → ℕ → Bool
one_of [] c = false
one_of (x ∷ set) c = x == c || one_of set c

unfoldable pub find : Bytes → Bytes → ℕ → Option ℕ
find s pat from =
    if ltb (length s) from
    then none
    else elim (search pat (drop from s)) [ none ↦ none | some n ↦ some (from + n) ]

unfoldable pub find_first_of : Bytes → Bytes → Option ℕ
unfolding one_of
find_first_of set [] = none
find_first_of set (c ∷ s) =
    let later = find_first_of set s in
    if one_of set c then some 0 else elim later [ none ↦ none | some n ↦ some (suc n) ]

unfoldable pub find_last_of : Bytes → Bytes → Option ℕ
unfolding one_of
find_last_of set [] = none
find_last_of set (c ∷ s) = elim (find_last_of set s) [
  | some n ↦ some (suc n)
  | none ↦ if one_of set c then some 0 else none
]
