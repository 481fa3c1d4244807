-- ===== src/TimingWheel/Idle.antt =====
-- The second wheel of src/network/net/TimingWheel.cpp with entries that several slots share, as the
-- timeout entry of a connection is: `ExtendLife` inserts it again, and it is released, which closes the
-- connection, when the last slot that holds it is popped. An entry is a number.
pub mod Timeout
mod Tests
use http_nest.Prelude.{
  ℕ, zero, suc, ◌+◌, Bool, true, false, not, ◌&&◌, List, [], ◌∷◌, ◌++◌, Option, none, some, ◌==◌,
  if◌then◌else◌,
}
use http_nest.TimingWheel.{pred_32}

abbrev pub SharedWheel : Type 0
SharedWheel = List (List ℕ)

unfoldable pub holds : ℕ → List ℕ → Bool
holds id [] = false
holds id (key ∷ slot) = let rest = holds id slot in if id == key then true else rest

-- Whether a slot holds the entry.
unfoldable pub held : ℕ → SharedWheel → Bool
held id [] = false
held id (slot ∷ wheel) = let rest = held id wheel in if holds id slot then true else rest

-- `wheel[index].emplace(entry)`, where the slot is a set; `none` for an index out of range.
unfoldable pub emplace_shared : SharedWheel → ℕ → ℕ → Option SharedWheel
emplace_shared [] index id = none
emplace_shared (slot ∷ wheel) zero id = some ((if holds id slot then slot else id ∷ slot) ∷ wheel)
emplace_shared (slot ∷ wheel) (suc index) id = elim (emplace_shared wheel index id) [
  | none ↦ none
  | some w ↦ some (slot ∷ w)
]

-- `InsertSecondEntry`.
unfoldable pub insert_shared : SharedWheel → ℕ → ℕ → Option SharedWheel
insert_shared wheel delay id = emplace_shared wheel (pred_32 delay) id

-- `PopUp`: the wheel, and whether the entry is released, which it is when no other slot holds it.
unfoldable pub pop_shared : ℕ → SharedWheel → SharedWheel × Bool
pop_shared id [] = ([] ∷ [], false)
pop_shared id (slot ∷ wheel) = (wheel ++ [] ∷ [], holds id slot && not (held id wheel))

-- What happens to the wheel: an insertion, or a tick.
pub data Act : Type 0 where
  inserts : ℕ → ℕ → Act
  ticks : Act

-- One more release, if there was one.
unfoldable pub note : Bool → Option (SharedWheel × ℕ) → Option (SharedWheel × ℕ)
note released none = none
note released (some (wheel, times)) = some (wheel, if released then times + 1 else times)

-- The wheel after these, and how often the entry was released.
unfoldable pub run_shared : ℕ → List Act → SharedWheel → Option (SharedWheel × ℕ)
run_shared id [] wheel = some (wheel, 0)
run_shared id (inserts delay other ∷ acts) wheel = elim (insert_shared wheel delay other) [
  | none ↦ none
  | some w ↦ run_shared id acts w
]
run_shared id (ticks ∷ acts) wheel =
    note (pop_shared id wheel).1 (run_shared id acts (pop_shared id wheel).0)
