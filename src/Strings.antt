-- ===== src/Strings.antt =====
-- StringUtils: src/base/StringUtils.cpp, and the `std::string` operations that it uses.
pub mod Find
pub mod Split
pub mod Join
pub mod Machine
mod Tests
use http_nest.Prelude.{
  ℕ, zero, suc, ◌+◌, ◌-◌, ◌*◌, ◌^◌, Bool, true, false, List, [], ◌∷◌, ◌++◌, Option, none, some,
  length, take, drop, slice, leb, ltb, ◌==◌, ◌&&◌, ◌||◌, if◌then◌else◌, Bytes, bytes_eq, codes,
}
use Find.{find, find_last_of, is_empty}

unfoldable pub start_with : Bytes → Bytes → Bool
start_with s sub =
    if is_empty sub
    then true
    else if is_empty s
    then false
    else if ltb (length s) (length sub)
    then false
    else bytes_eq (take (length sub) s) sub

unfoldable pub end_with : Bytes → Bytes → Bool
end_with s sub =
    if is_empty sub
    then true
    else if is_empty s
    then false
    else if ltb (length s) (length sub)
    then false
    else bytes_eq (drop (length s - length sub) s) sub

-- The path separators "/\\".
abbrev pub separators : Bytes
separators = b'/' ∷ b'\\' ∷ []

abbrev dot : Bytes
dot = b'.' ∷ []

unfoldable pub file_path : Bytes → Bytes
file_path path = elim (find_last_of separators path) [
  | some pos ↦ take pos path
  | none ↦ codes "./"
]

unfoldable pub file_name_ext : Bytes → Bytes
file_name_ext path = elim (find_last_of separators path) [
  | some pos ↦ if ltb (pos + 1) (length path) then drop (pos + 1) path else path
  | none ↦ path
]

unfoldable pub file_name : Bytes → Bytes
file_name path =
    let name = file_name_ext path in
    elim (find_last_of dot name) [
      | some pos ↦ if pos == 0 then name else take pos name
      | none ↦ name
    ]

unfoldable pub extension : Bytes → Bytes
extension path =
    let name = file_name_ext path in
    elim (find_last_of dot name) [
      | some pos ↦
          if pos == 0 then [] else if ltb (pos + 1) (length name) then drop (pos + 1) name else []
      | none ↦ []
    ]

-- The loop of `SplitString`, on fuel; `last` is the index behind the last delimiter found.
unfoldable pub split_from : ℕ → Bytes → Bytes → ℕ → List Bytes
split_from zero s delimiter last = []
split_from (suc fuel) s delimiter last = elim (find s delimiter last) [
  | none ↦ if ltb last (length s) then drop last s ∷ [] else []
  | some next ↦
      (if ltb last next then slice last next s else [])
      ∷ split_from fuel s delimiter (next + length delimiter)
]

-- Each round but the last moves `last` by the length of the delimiter at least.
unfoldable pub split_string : Bytes → Bytes → List Bytes
split_string s delimiter =
    if is_empty delimiter then [] else split_from (suc (length s)) s delimiter 0

pub data SplitState : Type 0 where
  init normal delimiter end : SplitState

-- `pos++` of an `int`, which may not go beyond the largest one.
abbrev pub step_int : ℕ → Option ℕ
step_int pos = if ltb (pos + 1) (2 ^ 31) then some (pos + 1) else none

-- The loop of `SplitStringWithFSM`, on fuel; the list is `s` from the index `pos` on. `none` for an index
-- that overflows.
unfoldable pub fsm_loop : ℕ → ℕ → ℕ → SplitState → Bytes → Bytes → List Bytes → Option (List Bytes)
fsm_loop zero d pos state rest tmp result = some result
fsm_loop (suc fuel) d pos state [] tmp result =
    some (if is_empty tmp then result else result ++ tmp ∷ [])
fsm_loop (suc fuel) d pos normal (c ∷ rest) tmp result = elim (c == d) [
  | true ↦ fsm_loop fuel d pos delimiter (c ∷ rest) tmp result
  | false ↦ elim (step_int pos) [
    | some pos' ↦ fsm_loop fuel d pos' normal rest (tmp ++ c ∷ []) result
    | none ↦ none
  ]
]
fsm_loop (suc fuel) d pos delimiter (c ∷ rest) tmp result = elim (step_int pos) [
  | some pos' ↦ fsm_loop fuel d pos' normal rest [] (result ++ tmp ∷ [])
  | none ↦ none
]
fsm_loop (suc fuel) d pos _ (c ∷ rest) tmp result = fsm_loop fuel d pos init (c ∷ rest) tmp result

-- A byte takes two rounds at most.
unfoldable pub split_string_with_fsm : Bytes → ℕ → Option (List Bytes)
split_string_with_fsm s d = fsm_loop (suc (2 * length s)) d 0 normal s [] []
