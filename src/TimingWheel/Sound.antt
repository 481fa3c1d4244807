-- ===== src/TimingWheel/Sound.antt =====
-- The timer never leaves its wheels, as long as no delay is a multiple of a minute.
use http_nest.Prelude.{
  ℕ, zero, suc, ◌-◌, ◌*◌, ◌/◌, ◌%◌, ◌<◌, ◌≤◌, ◌≡◌, ◌≢◌, ◌∙◌, refl, ap, arith, false, List, [], ◌∷◌,
  ◌++◌, some, ltb, ==_ne, length, Bool-cases, inl, inr, ltb→lt, not_ltb→le,
}
use http_nest.TimingWheel.{
  timing_hour, timing_day, Entry, user, later, Wheel, Wheels, emplace, pred_32, kept,
  insert_second_entry, insert_minute_entry, insert_hour_entry, insert_day_entry, insert_entry,
  release, release_all,
}

-- No entry waits for an insertion whose delay is a multiple of a minute, or a day and more.
abbrev pub GoodEntry : Entry → Type 0
GoodEntry (user n) = Unit {0}
GoodEntry (later delay e) = (delay % 60 ≢ 0) × (delay < timing_day) × GoodEntry e

abbrev pub GoodEntries : List Entry → Type 0
GoodEntries [] = Unit {0}
GoodEntries (e ∷ entries) = GoodEntry e × GoodEntries entries

abbrev pub GoodWheel : Wheel → Type 0
GoodWheel [] = Unit {0}
GoodWheel (s ∷ wheel) = GoodEntries s × GoodWheel wheel

-- The wheels have their sizes, and good entries.
pub record Sound (w : Wheels) : Type 0 where
  pub seconds : length w.second ≡ 60
  pub minutes : length w.minute ≡ 60
  pub hours : length w.hour ≡ 24
  pub days : length w.day ≡ 30
  pub second_ok : GoodWheel w.second
  pub minute_ok : GoodWheel w.minute
  pub hour_ok : GoodWheel w.hour
  pub day_ok : GoodWheel w.day

emplace_lem :
    (wheel : Wheel) (i : ℕ) (e : Entry)
    → i < length wheel
    → GoodEntry e
    → GoodWheel wheel
    → (wheel' : Wheel) × (emplace wheel i e ≡ some wheel')
      × (length wheel' ≡ length wheel)
      × GoodWheel wheel'
unfolding emplace
emplace_lem [] i e h g ok = absurd (omega arith)
emplace_lem (s ∷ wheel) zero e h g ok = (_, refl, refl, ((g, ok.0), ok.1))
emplace_lem (s ∷ wheel) (suc i) e h g ok =
    let (wheel', eq, len, ok') = emplace_lem wheel i e (omega arith) g ok.1 in
    (s ∷ wheel', rw (eq, emplace) refl, ap suc len, (ok.0, ok'))

pub pred_32_lem : (n : ℕ) → 0 < n → pred_32 n ≡ n - 1
unfolding pred_32
pred_32_lem n h = rw (==_ne n 0 (omega arith))

at_most : (delay : ℕ) → delay < timing_day * 31 → ltb 30 (delay / timing_day) ≡ false
at_most delay h = ground arith

module _ {w : Wheels} (s : Sound w) (e : Entry) (g : GoodEntry e) where
  second_lem :
      (delay : ℕ)
      → 0 < delay
      → delay < 60
      → (w' : Wheels) × (insert_second_entry w delay e ≡ kept w') × Sound w'
  unfolding insert_second_entry
  second_lem delay h l =
      let (wheel, eq, len, ok) =
        emplace_lem w.second (delay - 1) e (omega (arith, s.seconds)) g s.second_ok in
      (
        record w { second = wheel },
        rw (pred_32_lem delay h, eq, insert_second_entry) refl,
        record {
          seconds = len ∙ s.seconds;
          minutes = s.minutes;
          hours = s.hours;
          days = s.days;
          second_ok = ok;
          minute_ok = s.minute_ok;
          hour_ok = s.hour_ok;
          day_ok = s.day_ok;
        },
      )

  minute_lem :
      (delay : ℕ)
      → delay % 60 ≢ 0
      → 60 ≤ delay
      → delay < timing_hour
      → (w' : Wheels) × (insert_minute_entry w delay e ≡ kept w') × Sound w'
  unfolding insert_minute_entry
  minute_lem delay m l h =
      let (wheel, eq, len, ok) =
        emplace_lem w.minute (delay / 60 - 1) (later (delay % 60) e) (omega (arith, s.minutes))
          (omega arith, omega arith, g) s.minute_ok in
      (
        record w { minute = wheel },
        rw (pred_32_lem (delay / 60) (omega arith), eq, insert_minute_entry) refl,
        record {
          seconds = s.seconds;
          minutes = len ∙ s.minutes;
          hours = s.hours;
          days = s.days;
          second_ok = s.second_ok;
          minute_ok = ok;
          hour_ok = s.hour_ok;
          day_ok = s.day_ok;
        },
      )

  hour_lem :
      (delay : ℕ)
      → delay % 60 ≢ 0
      → timing_hour ≤ delay
      → delay < timing_day
      → (w' : Wheels) × (insert_hour_entry w delay e ≡ kept w') × Sound w'
  unfolding insert_hour_entry
  hour_lem delay m l h =
      let (wheel, eq, len, ok) =
        emplace_lem w.hour (delay / 3600 - 1) (later (delay % 3600) e) (omega (arith, s.hours))
          (omega arith, omega arith, g) s.hour_ok in
      (
        record w { hour = wheel },
        rw (pred_32_lem (delay / 3600) (omega arith), eq, insert_hour_entry) refl,
        record {
          seconds = s.seconds;
          minutes = s.minutes;
          hours = len ∙ s.hours;
          days = s.days;
          second_ok = s.second_ok;
          minute_ok = s.minute_ok;
          hour_ok = ok;
          day_ok = s.day_ok;
        },
      )

  day_lem :
      (delay : ℕ)
      → delay % 60 ≢ 0
      → timing_day ≤ delay
      → delay < timing_day * 31
      → (w' : Wheels) × (insert_day_entry w delay e ≡ kept w') × Sound w'
  unfolding insert_day_entry
  day_lem delay m l h =
      let (wheel, eq, len, ok) =
        emplace_lem w.day (delay / 86400 - 1) (later (delay % 86400) e) (omega (arith, s.days))
          (omega arith, omega arith, g) s.day_ok in
      (
        record w { day = wheel },
        rw (pred_32_lem (delay / 86400) (omega arith), eq, insert_day_entry) refl,
        record {
          seconds = s.seconds;
          minutes = s.minutes;
          hours = s.hours;
          days = len ∙ s.days;
          second_ok = s.second_ok;
          minute_ok = s.minute_ok;
          hour_ok = s.hour_ok;
          day_ok = ok;
        },
      )

  -- An insertion with a delay that is no multiple of a minute and below 31 days is accepted, and keeps the
  -- wheels sound.
  pub insert_entry-Sound :
      (delay : ℕ)
      → delay % 60 ≢ 0
      → delay < timing_day * 31
      → (w' : Wheels) × (insert_entry w delay e ≡ kept w') × Sound w'
  unfolding insert_entry
  insert_entry-Sound delay m h = elim (Bool-cases (ltb delay 60)) [
    | inl a ↦ rw a (second_lem delay (omega arith) (ltb→lt delay 60 a))
    | inr a ↦ elim (Bool-cases (ltb delay timing_hour)) [
      | inl b ↦ rw (a, b) (minute_lem delay m (not_ltb→le delay 60 a) (ltb→lt delay timing_hour b))
      | inr b ↦ elim (Bool-cases (ltb delay timing_day)) [
        | inl c ↦
            rw (a, b, c)
              (hour_lem delay m (not_ltb→le delay timing_hour b) (ltb→lt delay timing_day c))
        | inr c ↦
            let large = not_ltb→le delay timing_day c in
            rw (a, b, c, at_most delay h) (day_lem delay m large h)
      ]
    ]
  ]

-- The destructor of an entry in sound wheels calls callbacks and inserts, always in range.
pub release-Sound :
    (e : Entry) (w : Wheels)
    → GoodEntry e
    → Sound w
    → (w' : Wheels) × (fs : List ℕ) × (release e w ≡ some (w', fs)) × Sound w'
unfolding release
release-Sound (user n) w g s = (w, n ∷ [], refl, s)
release-Sound (later delay e) w (m, l, g) s =
    let (w', eq, s') = insert_entry-Sound s e g delay m (omega arith) in
    (w', [], rw (eq, release) refl, s')

pub release_all-Sound :
    (entries : List Entry) (w : Wheels)
    → GoodEntries entries
    → Sound w
    → (w' : Wheels) × (fs : List ℕ) × (release_all entries w ≡ some (w', fs)) × Sound w'
unfolding release_all
release_all-Sound [] w g s = (w, [], refl, s)
release_all-Sound (e ∷ entries) w g s =
    let (w1, fs1, eq1, s1) = release-Sound e w g.0 s in
    let (w2, fs2, eq2, s2) = release_all-Sound entries w1 g.1 s1 in
    (w2, fs1 ++ fs2, rw (eq1, eq2) refl, s2)
