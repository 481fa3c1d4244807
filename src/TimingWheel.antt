-- ===== src/TimingWheel.antt =====
-- TimingWheel: src/network/net/TimingWheel.h and TimingWheel.cpp, without `RunEvery`. An entry is held
-- by one slot at a time, as `RunAfter` holds it; a callback of the user is the number that names it,
-- and what it does to the wheels is not modelled.
pub mod Sound
pub mod Advance
pub mod Slots
pub mod Fires
pub mod Stuck
pub mod Idle
mod Tests
use http_nest.Prelude.{
  ℕ, zero, suc, ◌+◌, ◌-◌, ◌*◌, ◌/◌, ◌%◌, ◌^◌, Bool, true, false, List, [], ◌∷◌, ◌++◌, Option, none,
  some, ltb, ◌==◌, if◌then◌else◌, replicate,
}

abbrev pub timing_minute : ℕ
timing_minute = 60

abbrev pub timing_hour : ℕ
timing_hour = 60 * 60

abbrev pub timing_day : ℕ
timing_day = 60 * 60 * 24

-- A `CallbackEntry`. `later` is the one that InsertMinuteEntry, InsertHourEntry and InsertDayEntry
-- make: its callback inserts an entry with the delay that is left.
pub data Entry : Type 0 where
  user : ℕ → Entry
  later : ℕ → Entry → Entry

-- A `Wheel`, its front first. A `WheelEntry` is a list of entries.
abbrev pub Wheel : Type 0
Wheel = List (List Entry)

pub record Wheels : Type 0 where
  pub second : Wheel
  pub minute : Wheel
  pub hour : Wheel
  pub day : Wheel
  pub last_ts : ℕ
  pub tick : ℕ

-- The constructor.
abbrev pub new_wheels : Wheels
new_wheels = record {
  second = replicate 60 [];
  minute = replicate 60 [];
  hour = replicate 24 [];
  day = replicate 30 [];
  last_ts = 0;
  tick = 0;
}

-- `wheel[index].emplace(entry)`. `none` stands for an index out of range, which C++ leaves undefined.
unfoldable pub emplace : Wheel → ℕ → Entry → Option Wheel
emplace [] index e = none
emplace (s ∷ wheel) zero e = some ((e ∷ s) ∷ wheel)
emplace (s ∷ wheel) (suc index) e = elim (emplace wheel index e) [
  | none ↦ none
  | some w ↦ some (s ∷ w)
]

-- `n - 1` as a `uint32_t`.
unfoldable pub pred_32 : ℕ → ℕ
pred_32 n = if n == 0 then 2 ^ 32 - 1 else n - 1

-- What an insertion does: the entry is held, or refused and so released, or the index is out of range.
pub data Inserted : Type 0 where
  kept : Wheels → Inserted
  refused : Inserted
  out_of_range : Inserted

unfoldable pub insert_second_entry : Wheels → ℕ → Entry → Inserted
insert_second_entry w delay e = elim (emplace w.second (pred_32 delay) e) [
  | some s ↦ kept (record w { second = s })
  | none ↦ out_of_range
]

unfoldable pub insert_minute_entry : Wheels → ℕ → Entry → Inserted
insert_minute_entry w delay e =
    elim (emplace w.minute (pred_32 (delay / timing_minute)) (later (delay % timing_minute) e)) [
      | some s ↦ kept (record w { minute = s })
      | none ↦ out_of_range
    ]

unfoldable pub insert_hour_entry : Wheels → ℕ → Entry → Inserted
insert_hour_entry w delay e =
    elim (emplace w.hour (pred_32 (delay / timing_hour)) (later (delay % timing_hour) e)) [
      | some s ↦ kept (record w { hour = s })
      | none ↦ out_of_range
    ]

unfoldable pub insert_day_entry : Wheels → ℕ → Entry → Inserted
insert_day_entry w delay e =
    elim (emplace w.day (pred_32 (delay / timing_day)) (later (delay % timing_day) e)) [
      | some s ↦ kept (record w { day = s })
      | none ↦ out_of_range
    ]

-- With no delay the source resets its own pointer to the entry and goes on to the second wheel, whose
-- index is then out of range.
unfoldable pub insert_entry : Wheels → ℕ → Entry → Inserted
insert_entry w delay e =
    if ltb delay timing_minute
    then insert_second_entry w delay e
    else if ltb delay timing_hour
    then insert_minute_entry w delay e
    else if ltb delay timing_day
    then insert_hour_entry w delay e
    else if ltb 30 (delay / timing_day)
    then refused
    else insert_day_entry w delay e

-- The wheels, and the callbacks of the user that were called; `none` for an index out of range.
abbrev pub Fired : Type 0
Fired = Option (Wheels × List ℕ)

infixl 5 ◌>>=◌
abbrev pub ◌>>=◌ : Fired → (Wheels × List ℕ → Fired) → Fired
none >>= f = none
some a >>= f = f a

-- The destructor of an entry, which calls its callback.
unfoldable pub release : Entry → Wheels → Fired
release (user n) w = some (w, n ∷ [])
release (later delay e) w =
    let dropped = release e w in
    elim (insert_entry w delay e) [
      | kept w' ↦ some (w', [])
      | refused ↦ dropped
      | out_of_range ↦ none
    ]

-- The destructor of a `WheelEntry`.
unfoldable pub release_all : List Entry → Wheels → Fired
release_all [] w = some (w, [])
release_all (e ∷ entries) w = do
  here ← release e w
  rest ← release_all entries here.0
  some (rest.0, here.1 ++ rest.1)

abbrev pub front : Wheel → List Entry
front [] = []
front (s ∷ wheel) = s

-- `pop_front` and `push_back`.
abbrev pub shift : Wheel → Wheel
shift [] = [] ∷ []
shift (s ∷ wheel) = wheel ++ [] ∷ []

-- `PopUp`. The entries of the front are released when it returns.
unfoldable pub pop_second : Wheels → Fired
pop_second w = release_all (front w.second) (record w { second = shift w.second })

unfoldable pub pop_minute : Wheels → Fired
pop_minute w = release_all (front w.minute) (record w { minute = shift w.minute })

unfoldable pub pop_hour : Wheels → Fired
pop_hour w = release_all (front w.hour) (record w { hour = shift w.hour })

unfoldable pub pop_day : Wheels → Fired
pop_day w = release_all (front w.day) (record w { day = shift w.day })

-- The tests of `OnTimer` behind the second wheel.
unfoldable pub pop_larger : Wheels → Fired
pop_larger w =
    if w.tick % timing_minute == 0
    then pop_minute w
    else if w.tick % timing_hour == 0
    then pop_hour w
    else if w.tick % timing_day == 0
    then pop_day w
    else some (w, [])

-- `OnTimer` behind its test of the time.
unfoldable pub advance : Wheels → Fired
advance w = do
  seconds ← pop_second (record w { tick = (w.tick + 1) % 2 ^ 64 })
  larger ← pop_larger seconds.0
  some (larger.0, seconds.1 ++ larger.1)

-- `OnTimer`, with milliseconds that are not negative.
unfoldable pub on_timer : Wheels → ℕ → Fired
on_timer w now =
    let last = if w.last_ts == 0 then now else w.last_ts in
    if ltb now (last + 1000)
    then some (record w { last_ts = last }, [])
    else advance (record w { last_ts = now })

-- The `uint32_t` that the `double` mantissa / 2 ^ shift becomes, where it is below 2 ^ 32: its fraction is
-- dropped. C++ leaves open what becomes of other numbers.
abbrev pub to_uint32 : ℕ → ℕ → ℕ
to_uint32 mantissa shift = mantissa / 2 ^ shift % 2 ^ 32

-- `RunAfter`, with a delay of mantissa / 2 ^ shift seconds. An entry that is refused is released when the call
-- returns.
unfoldable pub run_after : Wheels → ℕ → ℕ → ℕ → Fired
run_after w mantissa shift n = elim (insert_entry w (to_uint32 mantissa shift) (user n)) [
  | kept w' ↦ some (w', [])
  | refused ↦ some (w, n ∷ [])
  | out_of_range ↦ none
]
