-- ===== src/TimingWheel/Idle/Tests.antt =====
-- The second wheel with shared entries on concrete input, and the theorem on it.
use http_nest.Prelude.{◌≡◌, refl, arith, List, [], ◌∷◌, some}
use http_nest.TimingWheel.{pred_32}
use http_nest.TimingWheel.Idle.{
  SharedWheel, holds, held, emplace_shared, insert_shared, pop_shared, note, Act, inserts, ticks,
  run_shared,
}
use http_nest.TimingWheel.Idle.Timeout.{Released, insert_shared-Released}

-- Entry 7 was inserted with one second, and is inserted again with three, with entry 8 meanwhile.
abbrev extended : SharedWheel
extended = (7 ∷ []) ∷ [] ∷ [] ∷ []

abbrev inserted_again : SharedWheel
inserted_again = (7 ∷ []) ∷ [] ∷ (7 ∷ []) ∷ []

abbrev three_seconds : List Act
three_seconds = ticks ∷ ticks ∷ inserts 3 8 ∷ ticks ∷ ticks ∷ []

insert_again_test : insert_shared extended 3 7 ≡ some inserted_again
unfolding holds emplace_shared insert_shared pred_32
insert_again_test = refl

three_seconds_test : run_shared 7 three_seconds inserted_again ≡ some ((8 ∷ []) ∷ [] ∷ [] ∷ [], 1)
unfolding holds held emplace_shared insert_shared pop_shared note run_shared pred_32
three_seconds_test = refl

insert_shared-Released_example : Released (run_shared 7 three_seconds inserted_again) 1
unfolding holds held emplace_shared insert_shared pred_32
insert_shared-Released_example =
    insert_shared-Released 3 7 three_seconds extended inserted_again (omega arith) refl refl
      (refl, tt)
