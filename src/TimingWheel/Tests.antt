-- ===== src/TimingWheel/Tests.antt =====
-- The timer on concrete input, and the theorems on it.
use mathlib.Core.List.{Mem, mem-cons_self}
use http_nest.Prelude.{ℕ, ◌≡◌, refl, arith, List, [], ◌∷◌, none, some, replicate}
use http_nest.TimingWheel.{user, later, Wheels, new_wheels, release, run_after, on_timer}
use http_nest.TimingWheel.Sound.{Sound}
use http_nest.TimingWheel.Advance.{on_timer-Sound}
use http_nest.TimingWheel.Slots.{slot, Which, pick}
use http_nest.TimingWheel.Fires.{nth_tick, run_after-on_time}
use http_nest.TimingWheel.Stuck.{Sized, nth_tick-stays, run_after-out_of_range}

new_wheels-Sound : Sound new_wheels
new_wheels-Sound = record {
  seconds = refl;
  minutes = refl;
  hours = refl;
  days = refl;
  second_ok = omega arith;
  minute_ok = omega arith;
  hour_ok = omega arith;
  day_ok = omega arith;
}

on_timer-Sound_example :
    (w' : Wheels) × (fs : List ℕ) × (on_timer new_wheels 5000 ≡ some (w', fs)) × Sound w'
on_timer-Sound_example = on_timer-Sound new_wheels 5000 new_wheels-Sound

-- Three and a half seconds, 7 / 2.
run_after-on_time_example :
    (w1 w2 : Wheels) × (fs : List ℕ) × (run_after new_wheels 7 1 7 ≡ some (w1, []))
    × (nth_tick 2 w1 ≡ some (w2, fs))
    × Mem 7 fs
run_after-on_time_example = run_after-on_time new_wheels 7 1 2 7 new_wheels-Sound refl (omega arith)

run_after-out_of_range_example :
    (w1 : Wheels) × (run_after new_wheels 120 0 7 ≡ some (w1, []))
    × Mem (later 0 (user 7)) (slot 1 w1.minute)
    × (release (later 0 (user 7)) new_wheels ≡ none)
run_after-out_of_range_example =
    run_after-out_of_range new_wheels new_wheels 120 0 120 7 sized sized refl refl (omega arith)
      (omega arith)
  where
    sized : Sized new_wheels
    sized = record { seconds_size = refl; minutes_size = refl }

-- A callback in the first slot of the hour wheel.
abbrev in_an_hour : Wheels
in_an_hour = record new_wheels { hour = (later 30 (user 7) ∷ []) ∷ replicate 23 [] }

in_an_hour-Sound : Sound in_an_hour
in_an_hour-Sound = record {
  seconds = refl;
  minutes = refl;
  hours = refl;
  days = refl;
  second_ok = omega arith;
  minute_ok = omega arith;
  hour_ok = omega arith;
  day_ok = omega arith;
}

nth_tick-stays_example :
    (w' : Wheels) × (fs : List ℕ) × (nth_tick 100000 in_an_hour ≡ some (w', fs))
    × Mem (later 30 (user 7)) (slot 0 (pick Which.hours w'))
nth_tick-stays_example =
    nth_tick-stays 100000 Which.hours (later 30 (user 7)) 0 in_an_hour tt in_an_hour-Sound
      mem-cons_self
