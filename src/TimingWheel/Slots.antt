-- ===== src/TimingWheel/Slots.antt =====
-- Which entries the slots hold, and that no operation but the shift of a wheel moves them.
use mathlib.Core.List.{
  Mem, Mem-prop, mem-cons_self, mem-cons_of_mem, eq-or-mem_of_mem-cons, mem-append_left,
  mem-append_right, not-mem-nil,
}
use mathlib.Core.Logic.Or
use mathlib.Core.HLevel.{Unit-prop}
use http_nest.Prelude.{
  ℕ, zero, suc, ◌%◌, ◌/◌, subst, List, [], ◌∷◌, ◌++◌, Option, none, some, ltb, Bool-cases, inl, inr,
}
use http_nest.TimingWheel.{
  timing_minute, timing_hour, timing_day, Entry, user, later, Wheel, Wheels, emplace, pred_32,
  Inserted, kept, refused, out_of_range, insert_second_entry, insert_minute_entry,
  insert_hour_entry, insert_day_entry, insert_entry, Fired, release, release_all, ◌>>=◌,
}

-- The entries of the slot with this index.
abbrev pub slot : ℕ → Wheel → List Entry
slot i [] = []
slot zero (s ∷ wheel) = s
slot (suc i) (s ∷ wheel) = slot i wheel

-- One of the four wheels.
pub data Which : Type 0 where
  seconds minutes hours days : Which

abbrev pub pick : Which → Wheels → Wheel
pick seconds w = w.second
pick minutes w = w.minute
pick hours w = w.hour
pick days w = w.day

-- The entry is in the slot, if the operation did not fail.
abbrev pub InWheel : Entry → ℕ → Option Wheel → Type 0
InWheel x i none = Unit {0}
InWheel x i (some wheel) = Mem x (slot i wheel)

abbrev pub InInserted : Which → Entry → ℕ → Inserted → Type 0
InInserted p x i (kept w) = Mem x (slot i (pick p w))
InInserted p x i refused = Unit {0}
InInserted p x i out_of_range = Unit {0}

abbrev pub InFired : Which → Entry → ℕ → Fired → Type 0
InFired p x i none = Unit {0}
InFired p x i (some (w, fs)) = Mem x (slot i (pick p w))

-- The callback was called, if the operation did not fail.
abbrev pub Called : ℕ → Fired → Type 0
Called n none = Unit {0}
Called n (some (w, fs)) = Mem n fs

emplace-InWheel :
    (wheel : Wheel) (k : ℕ) (e x : Entry) (i : ℕ)
    → Mem x (slot i wheel)
    → InWheel x i (emplace wheel k e)
unfolding emplace
emplace-InWheel [] k e x i m = tt
emplace-InWheel (s ∷ wheel) zero e x zero m = mem-cons_of_mem e m
emplace-InWheel (s ∷ wheel) zero e x (suc i) m = m
emplace-InWheel (s ∷ wheel) (suc k) e x zero m = first (emplace wheel k e)
  where
    first : (o : Option Wheel) → InWheel x 0 (elim o [ none ↦ none | some w ↦ some (s ∷ w) ])
    first none = tt
    first (some w) = m
emplace-InWheel (s ∷ wheel) (suc k) e x (suc i) m =
    under (emplace wheel k e) (emplace-InWheel wheel k e x i m)
  where
    under :
        (o : Option Wheel)
        → InWheel x i o
        → InWheel x (suc i) (elim o [ none ↦ none | some w ↦ some (s ∷ w) ])
    under none a = tt
    under (some w) a = a

-- A new entry is in its slot.
pub emplace-InWheel_new : (wheel : Wheel) (k : ℕ) (e : Entry) → InWheel e k (emplace wheel k e)
unfolding emplace
emplace-InWheel_new [] k e = tt
emplace-InWheel_new (s ∷ wheel) zero e = mem-cons_self
emplace-InWheel_new (s ∷ wheel) (suc k) e =
    under (emplace wheel k e) (emplace-InWheel_new wheel k e)
  where
    under :
        (o : Option Wheel)
        → InWheel e k o
        → InWheel e (suc k) (elim o [ none ↦ none | some w ↦ some (s ∷ w) ])
    under none a = tt
    under (some w) a = a

abbrev put : Which → Wheels → Wheel → Wheels
put seconds w s = record w { second = s }
put minutes w s = record w { minute = s }
put hours w s = record w { hour = s }
put days w s = record w { day = s }

-- A wheel that is put in place of one that it includes.
put_lem :
    (p q : Which) (x : Entry) (i : ℕ) (w : Wheels) (s : Wheel)
    → Mem x (slot i (pick p w))
    → (Mem x (slot i (pick q w)) → Mem x (slot i s))
    → Mem x (slot i (pick p (put q w s)))
put_lem seconds seconds x i w s m a = a m
put_lem minutes minutes x i w s m a = a m
put_lem hours hours x i w s m a = a m
put_lem days days x i w s m a = a m
put_lem _ _ x i w s m a = m

emplaced_in :
    (p q : Which) (x : Entry) (i : ℕ) (w : Wheels) (k : ℕ) (e : Entry)
    → Mem x (slot i (pick p w))
    → InInserted p x i
        (elim (emplace (pick q w) k e) [ some s ↦ kept (put q w s) | none ↦ out_of_range ])
emplaced_in p q x i w k e m = at (emplace (pick q w) k e) (emplace-InWheel (pick q w) k e x i)
  where
    at :
        (o : Option Wheel)
        → (Mem x (slot i (pick q w)) → InWheel x i o)
        → InInserted p x i (elim o [ some s ↦ kept (put q w s) | none ↦ out_of_range ])
    at none a = tt
    at (some s) a = put_lem p q x i w s m a

-- No insertion takes an entry out of a slot.
insert_entry-InInserted :
    (p : Which) (x : Entry) (i : ℕ) (w : Wheels) (delay : ℕ) (e : Entry)
    → Mem x (slot i (pick p w))
    → InInserted p x i (insert_entry w delay e)
unfolding insert_entry insert_second_entry insert_minute_entry insert_hour_entry insert_day_entry
insert_entry-InInserted p x i w delay e m = elim (Bool-cases (ltb delay timing_minute)) [
  | inl a ↦ rw a (emplaced_in p seconds x i w (pred_32 delay) e m)
  | inr a ↦ elim (Bool-cases (ltb delay timing_hour)) [
    | inl b ↦
        rw (a, b)
          (emplaced_in p minutes x i w (pred_32 (delay / timing_minute))
            (later (delay % timing_minute) e) m)
    | inr b ↦ elim (Bool-cases (ltb delay timing_day)) [
      | inl c ↦
          rw (a, b, c)
            (emplaced_in p hours x i w (pred_32 (delay / timing_hour))
              (later (delay % timing_hour) e) m)
      | inr c ↦ elim (Bool-cases (ltb 30 (delay / timing_day))) [
        | inl d ↦ rw (a, b, c, d) tt
        | inr d ↦
            rw (a, b, c, d)
              (emplaced_in p days x i w (pred_32 (delay / timing_day))
                (later (delay % timing_day) e) m)
      ]
    ]
  ]
]

release-InFired :
    (p : Which) (x : Entry) (i : ℕ) (e : Entry) (w : Wheels)
    → Mem x (slot i (pick p w))
    → InFired p x i (release e w)
unfolding release
release-InFired p x i (user n) w m = m
release-InFired p x i (later delay e) w m =
    at (insert_entry w delay e) (insert_entry-InInserted p x i w delay e m) (release e w)
      (release-InFired p x i e w m)
  where
    at :
        (r : Inserted)
        → InInserted p x i r
        → (dropped : Fired) → InFired p x i dropped
        → InFired p x i
            (elim r [ kept w' ↦ some (w', []) | refused ↦ dropped | out_of_range ↦ none ])
    at (kept w') a dropped b = a
    at refused a dropped b = b
    at out_of_range a dropped b = tt

-- Two operations in a row.
pub both_in :
    (p : Which) (x : Entry) (i : ℕ) (f : Fired) (k : Wheels × List ℕ → Fired)
    → InFired p x i f
    → ((r : Wheels × List ℕ) → Mem x (slot i (pick p r.0)) → InFired p x i (k r))
    → InFired p x i (f >>= k)
both_in p x i none k a b = tt
both_in p x i (some r) k a b = b r a

pub release_all-InFired :
    (p : Which) (x : Entry) (i : ℕ) (entries : List Entry) (w : Wheels)
    → Mem x (slot i (pick p w))
    → InFired p x i (release_all entries w)
unfolding release_all
release_all-InFired p x i [] w m = m
release_all-InFired p x i (e ∷ entries) w m =
    both_in p x i (release e w) _ (release-InFired p x i e w m) (λ r m1.
      both_in p x i (release_all entries r.0) _ (release_all-InFired p x i entries r.0 m1)
        (λ q m2. m2))

Called-prop : (n : ℕ) (f : Fired) → IsProp (Called n f)
Called-prop n none = Unit-prop
Called-prop n (some r) = Mem-prop

-- What is called by the first of two operations, and by the second.
pub first-Called :
    (n : ℕ) (f : Fired) (k : Wheels → Fired)
    → Called n f
    → Called n (f >>= (λ a. k a.0 >>= (λ b. some (b.0, a.1 ++ b.1))))
first-Called n none k c = tt
first-Called n (some (w, fs)) k c = at (k w)
  where
    at : (g : Fired) → Called n (g >>= (λ b. some (b.0, fs ++ b.1)))
    at none = tt
    at (some (v, gs)) = mem-append_left gs c

second-Called :
    (n : ℕ) (f : Fired) (k : Wheels → Fired)
    → ((w : Wheels) → Called n (k w))
    → Called n (f >>= (λ a. k a.0 >>= (λ b. some (b.0, a.1 ++ b.1))))
second-Called n none k c = tt
second-Called n (some (w, fs)) k c = at (k w) (c w)
  where
    at : (g : Fired) → Called n g → Called n (g >>= (λ b. some (b.0, fs ++ b.1)))
    at none c = tt
    at (some (v, gs)) c = mem-append_right fs c

pub release_all-Called :
    (n : ℕ) (entries : List Entry) (w : Wheels)
    → Mem (user n) entries
    → Called n (release_all entries w)
unfolding release_all
release_all-Called n [] w m = absurd (not-mem-nil m)
release_all-Called n (e ∷ entries) w m =
    Or.elim (Called-prop n (release_all (e ∷ entries) w)) (eq-or-mem_of_mem-cons m)
      (λ same.
        first-Called n (release e w) (release_all entries)
          (subst (λ (y : Entry). Called n (release y w)) same user-Called))
      (λ later_on.
        second-Called n (release e w) (release_all entries)
          (λ v. release_all-Called n entries v later_on))
  where
    user-Called : Called n (release (user n) w)
    user-Called = unfold release in mem-cons_self
