-- ===== src/TimingWheel/Advance.antt =====
-- One call of `OnTimer`.
use http_nest.Prelude.{
  ℕ, ◌+◌, ◌%◌, ◌^◌, ◌<◌, ◌≡◌, ◌∙◌, refl, arith, List, [], ◌∷◌, ◌++◌, some, ltb, ◌==◌, if◌then◌else◌,
  length, length-append, Bool-cases, inl, inr,
}
use http_nest.TimingWheel.{
  timing_minute, timing_hour, timing_day, Wheel, Wheels, front, shift, pop_second, pop_minute,
  pop_hour, pop_day, pop_larger, advance, on_timer,
}
use http_nest.TimingWheel.Sound.{GoodEntries, GoodWheel, Sound, release_all-Sound}

front_good : (wheel : Wheel) → GoodWheel wheel → GoodEntries (front wheel)
front_good [] g = tt
front_good (s ∷ wheel) g = g.0

append_good : (wheel : Wheel) → GoodWheel wheel → GoodWheel (wheel ++ [] ∷ [])
append_good [] g = (tt, tt)
append_good (s ∷ wheel) g = (g.0, append_good wheel g.1)

shift_good : (wheel : Wheel) → GoodWheel wheel → GoodWheel (shift wheel)
shift_good [] g = (tt, tt)
shift_good (s ∷ wheel) g = append_good wheel g.1

length-shift : (wheel : Wheel) → 0 < length wheel → length (shift wheel) ≡ length wheel
length-shift [] h = absurd (omega arith)
length-shift (s ∷ wheel) h = omega (arith, length-append wheel ([] ∷ []))

pop_second-Sound :
    (w : Wheels)
    → Sound w
    → (w' : Wheels) × (fs : List ℕ) × (pop_second w ≡ some (w', fs)) × Sound w'
unfolding pop_second
pop_second-Sound w s =
    release_all-Sound (front w.second) (record w { second = shift w.second })
      (front_good w.second s.second_ok)
      (record {
        seconds = length-shift w.second (omega (arith, s.seconds)) ∙ s.seconds;
        minutes = s.minutes;
        hours = s.hours;
        days = s.days;
        second_ok = shift_good w.second s.second_ok;
        minute_ok = s.minute_ok;
        hour_ok = s.hour_ok;
        day_ok = s.day_ok;
      })

pop_minute-Sound :
    (w : Wheels)
    → Sound w
    → (w' : Wheels) × (fs : List ℕ) × (pop_minute w ≡ some (w', fs)) × Sound w'
unfolding pop_minute
pop_minute-Sound w s =
    release_all-Sound (front w.minute) (record w { minute = shift w.minute })
      (front_good w.minute s.minute_ok)
      (record {
        seconds = s.seconds;
        minutes = length-shift w.minute (omega (arith, s.minutes)) ∙ s.minutes;
        hours = s.hours;
        days = s.days;
        second_ok = s.second_ok;
        minute_ok = shift_good w.minute s.minute_ok;
        hour_ok = s.hour_ok;
        day_ok = s.day_ok;
      })

pop_hour-Sound :
    (w : Wheels) → Sound w → (w' : Wheels) × (fs : List ℕ) × (pop_hour w ≡ some (w', fs)) × Sound w'
unfolding pop_hour
pop_hour-Sound w s =
    release_all-Sound (front w.hour) (record w { hour = shift w.hour })
      (front_good w.hour s.hour_ok)
      (record {
        seconds = s.seconds;
        minutes = s.minutes;
        hours = length-shift w.hour (omega (arith, s.hours)) ∙ s.hours;
        days = s.days;
        second_ok = s.second_ok;
        minute_ok = s.minute_ok;
        hour_ok = shift_good w.hour s.hour_ok;
        day_ok = s.day_ok;
      })

pop_day-Sound :
    (w : Wheels) → Sound w → (w' : Wheels) × (fs : List ℕ) × (pop_day w ≡ some (w', fs)) × Sound w'
unfolding pop_day
pop_day-Sound w s =
    release_all-Sound (front w.day) (record w { day = shift w.day }) (front_good w.day s.day_ok)
      (record {
        seconds = s.seconds;
        minutes = s.minutes;
        hours = s.hours;
        days = length-shift w.day (omega (arith, s.days)) ∙ s.days;
        second_ok = s.second_ok;
        minute_ok = s.minute_ok;
        hour_ok = s.hour_ok;
        day_ok = shift_good w.day s.day_ok;
      })

pop_larger-Sound :
    (w : Wheels)
    → Sound w
    → (w' : Wheels) × (fs : List ℕ) × (pop_larger w ≡ some (w', fs)) × Sound w'
unfolding pop_larger
pop_larger-Sound w s = elim (Bool-cases (w.tick % timing_minute == 0)) [
  | inl a ↦ rw a (pop_minute-Sound w s)
  | inr a ↦ elim (Bool-cases (w.tick % timing_hour == 0)) [
    | inl b ↦ rw (a, b) (pop_hour-Sound w s)
    | inr b ↦ elim (Bool-cases (w.tick % timing_day == 0)) [
      | inl c ↦ rw (a, b, c) (pop_day-Sound w s)
      | inr c ↦ rw (a, b, c) (w, [], refl, s)
    ]
  ]
]

-- The clock and the count of the ticks do not matter.
timed : {w : Wheels} → Sound w → (last tick : ℕ) → Sound (record w { last_ts = last; tick = tick })
timed s last tick = record {
  seconds = s.seconds;
  minutes = s.minutes;
  hours = s.hours;
  days = s.days;
  second_ok = s.second_ok;
  minute_ok = s.minute_ok;
  hour_ok = s.hour_ok;
  day_ok = s.day_ok;
}

pub advance-Sound :
    (w : Wheels) → Sound w → (w' : Wheels) × (fs : List ℕ) × (advance w ≡ some (w', fs)) × Sound w'
unfolding advance
advance-Sound w s =
    let (w1, fs1, eq1, s1) =
      pop_second-Sound (record w { tick = (w.tick + 1) % 2 ^ 64 })
        (timed s w.last_ts ((w.tick + 1) % 2 ^ 64)) in
    let (w2, fs2, eq2, s2) = pop_larger-Sound w1 s1 in (w2, fs1 ++ fs2, rw (eq1, eq2) refl, s2)

-- `OnTimer` on sound wheels never leaves a wheel, at any time, and keeps the wheels sound.
pub on_timer-Sound :
    (w : Wheels) (now : ℕ)
    → Sound w
    → (w' : Wheels) × (fs : List ℕ) × (on_timer w now ≡ some (w', fs)) × Sound w'
unfolding on_timer
on_timer-Sound w now s =
    let last = if w.last_ts == 0 then now else w.last_ts in
    elim (Bool-cases (ltb now (last + 1000))) [
      | inl early ↦ (record w { last_ts = last }, [], rw early refl, timed s last w.tick)
      | inr late ↦
          let (w', fs, eq, s') = advance-Sound (record w { last_ts = now }) (timed s now w.tick) in
          (w', fs, rw (late, eq) refl, s')
    ]
