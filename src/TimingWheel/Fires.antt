-- ===== src/TimingWheel/Fires.antt =====
-- The tick that calls a callback.
use mathlib.Core.List.{Mem, not-mem-nil}
use http_nest.Prelude.{
  ℕ, ◌/◌, zero, suc, ◌+◌, ◌%◌, ◌^◌, ◌<◌, ◌≡◌, refl, sym, ◌∙◌, subst, arith, List, [], ◌∷◌, ◌++◌,
  Option, none, some, lt→ltb, ◌==◌, Bool-cases, inl, inr,
}
use http_nest.TimingWheel.{
  timing_minute, timing_hour, timing_day, Entry, user, Wheel, Wheels, emplace, pred_32, kept,
  out_of_range, insert_second_entry, insert_entry, Fired, front, shift, pop_second, pop_minute,
  pop_hour, pop_day, pop_larger, advance, to_uint32, run_after, ◌>>=◌,
}
use http_nest.TimingWheel.Sound.{Sound, insert_entry-Sound, pred_32_lem}
use http_nest.TimingWheel.Advance.{advance-Sound}
use http_nest.TimingWheel.Slots.{
  slot, seconds, InWheel, InInserted, InFired, Called, emplace-InWheel_new, both_in,
  release_all-InFired, first-Called, release_all-Called,
}

-- The calls of the tick that is `n` ticks behind the next one.
unfoldable pub nth_tick : ℕ → Wheels → Fired
nth_tick zero w = advance w
nth_tick (suc n) w = advance w >>= (λ r. nth_tick n r.0)

slot_append :
    (x : Entry) (i : ℕ) (wheel : Wheel) → Mem x (slot i wheel) → Mem x (slot i (wheel ++ [] ∷ []))
slot_append x i [] m = absurd (not-mem-nil m)
slot_append x zero (s ∷ wheel) m = m
slot_append x (suc i) (s ∷ wheel) m = slot_append x i wheel m

slot_shift :
    (x : Entry) (i : ℕ) (wheel : Wheel) → Mem x (slot (suc i) wheel) → Mem x (slot i (shift wheel))
slot_shift x i [] m = absurd (not-mem-nil m)
slot_shift x i (s ∷ wheel) m = slot_append x i wheel m

front_lem : (x : Entry) (wheel : Wheel) → Mem x (slot zero wheel) → Mem x (front wheel)
front_lem x [] m = m
front_lem x (s ∷ wheel) m = m

-- The larger wheels turn without the second wheel.
pop_larger-InFired :
    (x : Entry) (i : ℕ) (w : Wheels) → Mem x (slot i w.second) → InFired seconds x i (pop_larger w)
unfolding pop_larger pop_minute pop_hour pop_day
pop_larger-InFired x i w m = elim (Bool-cases (w.tick % timing_minute == 0)) [
  | inl a ↦
      rw a
        (release_all-InFired seconds x i (front w.minute) (record w { minute = shift w.minute }) m)
  | inr a ↦ elim (Bool-cases (w.tick % timing_hour == 0)) [
    | inl b ↦
        rw (a, b)
          (release_all-InFired seconds x i (front w.hour) (record w { hour = shift w.hour }) m)
    | inr b ↦ elim (Bool-cases (w.tick % timing_day == 0)) [
      | inl c ↦
          rw (a, b, c)
            (release_all-InFired seconds x i (front w.day) (record w { day = shift w.day }) m)
      | inr c ↦ rw (a, b, c) m
    ]
  ]
]

advance-InFired :
    (x : Entry) (i : ℕ) (w : Wheels)
    → Mem x (slot (suc i) w.second)
    → InFired seconds x i (advance w)
unfolding advance pop_second
advance-InFired x i w m =
    both_in seconds x i (pop_second (record w { tick = (w.tick + 1) % 2 ^ 64 })) _
      (release_all-InFired seconds x i (front w.second)
        (record w { second = shift w.second; tick = (w.tick + 1) % 2 ^ 64 })
        (slot_shift x i w.second m))
      (λ r m1. both_in seconds x i (pop_larger r.0) _ (pop_larger-InFired x i r.0 m1) (λ q m2. m2))

advance-Called : (n : ℕ) (w : Wheels) → Mem (user n) (slot zero w.second) → Called n (advance w)
unfolding advance pop_second
advance-Called n w m =
    first-Called n (pop_second (record w { tick = (w.tick + 1) % 2 ^ 64 })) pop_larger (
      release_all-Called n (front w.second)
        (record w { second = shift w.second; tick = (w.tick + 1) % 2 ^ 64 })
        (front_lem (user n) w.second m))

nth_tick-Called :
    (i n : ℕ) (w : Wheels)
    → Sound w
    → Mem (user n) (slot i w.second)
    → (w' : Wheels) × (fs : List ℕ) × (nth_tick i w ≡ some (w', fs)) × Mem n fs
unfolding nth_tick
nth_tick-Called zero n w s m =
    let (w', fs, eq, s') = advance-Sound w s in
    (w', fs, eq, subst (Called n) eq (advance-Called n w m))
nth_tick-Called (suc i) n w s m =
    let (w1, fs1, eq1, s1) = advance-Sound w s in
    let (w2, fs2, eq2, c) =
      nth_tick-Called i n w1 s1
        (subst (InFired seconds (user n) i) eq1 (advance-InFired (user n) i w m)) in
    (w2, fs2, rw eq1 eq2, c)

-- On sound wheels, a callback that `RunAfter` takes with a delay of at least 1 second and below 60 seconds is
-- called by the tick that is as many ticks away as the delay has whole seconds.
pub run_after-on_time :
    (w : Wheels) (mantissa shift i n : ℕ)
    → Sound w
    → mantissa / 2 ^ shift ≡ suc i
    → i < 59
    → (w1 w2 : Wheels) × (fs : List ℕ) × (run_after w mantissa shift n ≡ some (w1, []))
      × (nth_tick i w1 ≡ some (w2, fs))
      × Mem n fs
unfolding run_after
run_after-on_time w mantissa shift i n s whole h =
    let (w1, eq, s1) = insert_entry-Sound s (user n) tt (suc i) (omega arith) (omega arith) in
    let here : Mem (user n) (slot i w1.second) =
      subst (InInserted seconds (user n) i) eq inserted in
    let (w2, fs, run, c) = nth_tick-Called i n w1 s1 here in
    (w1, w2, fs, rw (seconds_lem, eq, run_after) refl, run, c)
  where
    seconds_lem : to_uint32 mantissa shift ≡ suc i
    seconds_lem = rw whole (small (suc i) (omega arith))
      where
        small : (k : ℕ) → k < 2 ^ 32 → k % 2 ^ 32 ≡ k
        small k h = omega arith

    placed :
        (o : Option Wheel)
        → InWheel (user n) i o
        → InInserted seconds
            (user n)
            i
            (elim o [ some s ↦ kept (record w { second = s }) | none ↦ out_of_range ])
    placed none a = tt
    placed (some s) a = a

    index : pred_32 (suc i) ≡ i
    index = pred_32_lem (suc i) (omega arith) ∙ omega arith

    inserted : InInserted seconds (user n) i (insert_entry w (suc i) (user n))
    inserted =
        unfold insert_entry insert_second_entry in
        rw (lt→ltb (suc i) timing_minute (omega arith)) (
          subst
            (λ (k : ℕ). InInserted seconds (user n) i (elim (emplace w.second k (user n)) [
              | some s ↦ kept (record w { second = s })
              | none ↦ out_of_range
            ]))
            (sym index)
            (placed (emplace w.second i (user n)) (emplace-InWheel_new w.second i (user n))))
