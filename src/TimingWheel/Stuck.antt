-- ===== src/TimingWheel/Stuck.antt =====
-- Delays that the timer does not keep.
use mathlib.Core.List.{Mem, mem-cons_self}
use http_nest.Prelude.{
  ℕ, zero, suc, ◌+◌, ◌-◌, ◌%◌, ◌/◌, ◌^◌, ◌<◌, ◌≤◌, ◌≡◌, refl, subst, arith, false, List, [], ◌∷◌,
  none, some, ltb, lt→ltb, ◌==◌, Bool-cases, inl, inr, length,
}
use http_nest.TimingWheel.{
  timing_minute, timing_hour, timing_day, Entry, user, later, Wheel, Wheels, emplace, pred_32,
  out_of_range, insert_second_entry, insert_minute_entry, insert_entry, release, front, shift,
  pop_second, pop_minute, pop_larger, advance, to_uint32, run_after,
}
use http_nest.TimingWheel.Sound.{Sound, pred_32_lem}
use http_nest.TimingWheel.Advance.{advance-Sound}
use http_nest.TimingWheel.Slots.{
  slot, Which, seconds, minutes, hours, days, pick, InFired, both_in, release_all-InFired,
}
use http_nest.TimingWheel.Fires.{nth_tick}

-- The wheels that hold delays of an hour and more.
abbrev pub IsLarge : Which → Type 0
IsLarge hours = Unit {0}
IsLarge days = Unit {0}
IsLarge _ = ⊥

-- A turn of the second or of the minute wheel.
turned_second :
    (p : Which)
    → IsLarge p
    → (x : Entry) (i : ℕ) (w : Wheels) (s : Wheel) (tick : ℕ) → Mem x (slot i (pick p w))
    → Mem x (slot i (pick p (record w { second = s; tick = tick })))
turned_second seconds l x i w s tick m = elim l [ ]
turned_second minutes l x i w s tick m = elim l [ ]
turned_second hours l x i w s tick m = m
turned_second days l x i w s tick m = m

turned_minute :
    (p : Which)
    → IsLarge p
    → (x : Entry) (i : ℕ) (w : Wheels) (s : Wheel) → Mem x (slot i (pick p w))
    → Mem x (slot i (pick p (record w { minute = s })))
turned_minute seconds l x i w s m = elim l [ ]
turned_minute minutes l x i w s m = elim l [ ]
turned_minute hours l x i w s m = m
turned_minute days l x i w s m = m

-- An hour, and a day, is a whole number of minutes.
whole_minutes :
    (t : ℕ)
    → (t % timing_minute == 0) ≡ false
    → ((t % timing_hour == 0) ≡ false) × ((t % timing_day == 0) ≡ false)
whole_minutes t h = (ground arith, ground arith)

pop_larger-InFired :
    (p : Which)
    → IsLarge p
    → (x : Entry) (i : ℕ) (w : Wheels) → Mem x (slot i (pick p w))
    → InFired p x i (pop_larger w)
unfolding pop_larger pop_minute
pop_larger-InFired p l x i w m = elim (Bool-cases (w.tick % timing_minute == 0)) [
  | inl a ↦ rw a (
      release_all-InFired p x i (front w.minute) (record w { minute = shift w.minute })
        (turned_minute p l x i w (shift w.minute) m))
  | inr a ↦ let (b, c) = whole_minutes w.tick a in rw (a, b, c) m
]

advance-InFired :
    (p : Which)
    → IsLarge p
    → (x : Entry) (i : ℕ) (w : Wheels) → Mem x (slot i (pick p w))
    → InFired p x i (advance w)
unfolding advance pop_second
advance-InFired p l x i w m =
    both_in p x i (pop_second (record w { tick = (w.tick + 1) % 2 ^ 64 })) _
      (release_all-InFired p x i (front w.second)
        (record w { second = shift w.second; tick = (w.tick + 1) % 2 ^ 64 })
        (turned_second p l x i w (shift w.second) ((w.tick + 1) % 2 ^ 64) m))
      (λ r m1. both_in p x i (pop_larger r.0) _ (pop_larger-InFired p l x i r.0 m1) (λ q m2. m2))

-- An entry of the hour wheel or of the day wheel of sound wheels is in the same slot after any number
-- of ticks.
pub nth_tick-stays :
    (k : ℕ) (p : Which) (x : Entry) (i : ℕ) (w : Wheels)
    → IsLarge p
    → Sound w
    → Mem x (slot i (pick p w))
    → (w' : Wheels) × (fs : List ℕ) × (nth_tick k w ≡ some (w', fs)) × Mem x (slot i (pick p w'))
unfolding nth_tick
nth_tick-stays zero p x i w l s m =
    let (w', fs, eq, s') = advance-Sound w s in
    (w', fs, eq, subst (InFired p x i) eq (advance-InFired p l x i w m))
nth_tick-stays (suc k) p x i w l s m =
    let (w1, fs1, eq1, s1) = advance-Sound w s in
    let (w2, fs2, eq2, m2) =
      nth_tick-stays k p x i w1 l s1 (subst (InFired p x i) eq1 (advance-InFired p l x i w m)) in
    (w2, fs2, rw eq1 eq2, m2)

-- The wheels have their sizes.
pub record Sized (w : Wheels) : Type 0 where
  pub seconds_size : length w.second ≡ 60
  pub minutes_size : length w.minute ≡ 60

emplace-none : (wheel : Wheel) (k : ℕ) (e : Entry) → length wheel ≤ k → emplace wheel k e ≡ none
unfolding emplace
emplace-none [] k e h = refl
emplace-none (s ∷ wheel) zero e h = absurd (omega arith)
emplace-none (s ∷ wheel) (suc k) e h = rw (emplace-none wheel k e (omega arith), emplace) refl

pred_32_zero : pred_32 0 ≡ 2 ^ 32 - 1
unfolding pred_32
pred_32_zero = refl

-- No delay: the index behind the last one.
pub insert_entry-out_of_range :
    (w : Wheels) (e : Entry) → Sized w → insert_entry w 0 e ≡ out_of_range
unfolding insert_entry insert_second_entry
insert_entry-out_of_range w e s =
    rw
      (
        emplace-none w.second (pred_32 0) e (omega (arith, s.seconds_size, pred_32_zero)),
        insert_second_entry,
      )
      refl

emplace-some :
    (wheel : Wheel) (k : ℕ) (e : Entry)
    → k < length wheel
    → (wheel' : Wheel) × (emplace wheel k e ≡ some wheel') × Mem e (slot k wheel')
unfolding emplace
emplace-some [] k e h = absurd (omega arith)
emplace-some (s ∷ wheel) zero e h = (_, refl, mem-cons_self)
emplace-some (s ∷ wheel) (suc k) e h =
    let (wheel', eq, m) = emplace-some wheel k e (omega arith) in
    (s ∷ wheel', rw (eq, emplace) refl, m)

release_lem : (n : ℕ) (v : Wheels) → Sized v → release (later 0 (user n)) v ≡ none
unfolding release
release_lem n v s = rw (insert_entry-out_of_range v (user n) s, release) refl

run_after_lem :
    (w : Wheels) (mantissa shift delay n : ℕ) (wheel : Wheel)
    → to_uint32 mantissa shift ≡ delay
    → delay % 60 ≡ 0
    → 60 ≤ delay
    → delay < timing_hour
    → emplace w.minute (delay / 60 - 1) (later 0 (user n)) ≡ some wheel
    → run_after w mantissa shift n ≡ some (record w { minute = wheel }, [])
unfolding run_after insert_entry insert_minute_entry
run_after_lem w mantissa shift delay n wheel is whole lo hi eq =
    rw
      (
        is,
        not_below delay 60 lo,
        lt→ltb delay timing_hour hi,
        run_after,
        insert_minute_entry,
        pred_32_lem (delay / 60) (omega arith),
        whole,
        eq,
      )
      refl
  where
    not_below : (a b : ℕ) → b ≤ a → ltb a b ≡ false
    not_below a b h = ground arith

-- A delay of one minute up to an hour whose whole seconds are a whole number of minutes is accepted, and leaves an
-- entry in the minute wheel that no wheels survive: when it is released, it is inserted with no
-- delay, which writes outside the second wheel.
pub run_after-out_of_range :
    (w v : Wheels) (mantissa shift delay n : ℕ)
    → Sized w
    → Sized v
    → mantissa / 2 ^ shift ≡ delay
    → delay % 60 ≡ 0
    → 60 ≤ delay
    → delay < timing_hour
    → (w1 : Wheels) × (run_after w mantissa shift n ≡ some (w1, []))
      × Mem (later 0 (user n)) (slot (delay / 60 - 1) w1.minute)
      × (release (later 0 (user n)) v ≡ none)
run_after-out_of_range w v mantissa shift delay n s t is whole lo hi =
    let e : to_uint32 mantissa shift ≡ delay = rw is (small delay (omega arith)) in
    let (wheel, eq, m) =
      emplace-some w.minute (delay / 60 - 1) (later 0 (user n)) (omega (arith, s.minutes_size)) in
    (
      record w { minute = wheel },
      run_after_lem w mantissa shift delay n wheel e whole lo hi eq,
      m,
      release_lem n v t,
    )
  where
    small : (k : ℕ) → k < timing_hour → k % 2 ^ 32 ≡ k
    small k h = omega (arith, h)

-- A delay below one second writes outside the second wheel at once.
run_after-below_one :
    (w : Wheels) (mantissa shift n : ℕ)
    → Sized w
    → mantissa / 2 ^ shift ≡ 0
    → run_after w mantissa shift n ≡ none
unfolding run_after
run_after-below_one w mantissa shift n s e =
    rw (e, insert_entry-out_of_range w (user n) s, run_after) refl
