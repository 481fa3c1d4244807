-- ===== src/TimingWheel/Idle/Timeout.antt =====
-- When a shared entry is released.
use http_nest.Prelude.{
  ℕ, zero, suc, ◌+◌, ◌-◌, ◌<◌, ◌≡◌, ◌∙◌, refl, ap, subst, arith, inl, inr, Bool, true, false, ◌&&◌,
  List, [], ◌∷◌, ◌++◌, Option, none, some, ltb, lt→ltb, ◌==◌, ==_iff, Bool-cases, drop,
  if◌then◌else◌,
}
use http_nest.TimingWheel.{pred_32}
use http_nest.TimingWheel.Sound.{pred_32_lem}
use http_nest.TimingWheel.Idle.{
  SharedWheel, holds, held, emplace_shared, insert_shared, pop_shared, note, Act, inserts, ticks,
  run_shared,
}

-- The entry is in the slot of this index and in none behind it.
abbrev pub LastIn : ℕ → ℕ → SharedWheel → Type 0
LastIn k id [] = ⊥
LastIn zero id (slot ∷ wheel) = (holds id slot ≡ true) × (held id wheel ≡ false)
LastIn (suc k) id (slot ∷ wheel) = LastIn k id wheel

-- What holds of the wheel after an insertion, if the index was in range.
abbrev After : (SharedWheel → Type 0) → Option SharedWheel → Type 0
After P none = Unit {0}
After P (some wheel) = P wheel

holds_added : (id : ℕ) (slot : List ℕ) → holds id (if holds id slot then slot else id ∷ slot) ≡ true
unfolding holds
holds_added id slot = elim (Bool-cases (holds id slot)) [
  | inl e ↦ rw e e
  | inr e ↦ rw (e, (==_iff id id).1 refl) refl
]

-- An insertion of the entry in a slot behind those that hold it.
emplace_shared-LastIn :
    (k id : ℕ) (wheel : SharedWheel)
    → held id (drop (suc k) wheel) ≡ false
    → After (LastIn k id) (emplace_shared wheel k id)
unfolding emplace_shared
emplace_shared-LastIn k id [] h = tt
emplace_shared-LastIn zero id (slot ∷ wheel) h = (holds_added id slot, h)
emplace_shared-LastIn (suc k) id (slot ∷ wheel) h =
    behind slot (emplace_shared wheel k id) (emplace_shared-LastIn k id wheel h)
  where
    behind :
        (slot : List ℕ) (o : Option SharedWheel)
        → After (LastIn k id) o
        → After (LastIn (suc k) id) (elim o [ none ↦ none | some w ↦ some (slot ∷ w) ])
    behind slot none h = tt
    behind slot (some w) h = h

-- An insertion of another entry.
holds_other :
    (id other : ℕ) (slot : List ℕ)
    → (id == other) ≡ false
    → holds id (if holds other slot then slot else other ∷ slot) ≡ holds id slot
unfolding holds
holds_other id other slot e = elim (Bool-cases (holds other slot)) [
  | inl f ↦ rw f refl
  | inr f ↦ rw (f, e) refl
]

held_other :
    (k id other : ℕ) (wheel : SharedWheel)
    → (id == other) ≡ false
    → After (λ w. held id w ≡ held id wheel) (emplace_shared wheel k other)
unfolding emplace_shared held
held_other k id other [] e = tt
held_other zero id other (slot ∷ wheel) e = rw (holds_other id other slot e) refl
held_other (suc k) id other (slot ∷ wheel) e =
    behind (emplace_shared wheel k other) (held_other k id other wheel e)
  where
    behind :
        (o : Option SharedWheel)
        → After (λ w. held id w ≡ held id wheel) o
        → After
            (λ w. held id w ≡ (if holds id slot then true else held id wheel))
            (elim o [ none ↦ none | some w ↦ some (slot ∷ w) ])
    behind none h = tt
    behind (some w) h = rw h refl

emplace_shared-LastIn_other :
    (j k id other : ℕ) (wheel : SharedWheel)
    → (id == other) ≡ false
    → LastIn k id wheel
    → After (LastIn k id) (emplace_shared wheel j other)
unfolding emplace_shared
emplace_shared-LastIn_other j k id other [] e h = tt
emplace_shared-LastIn_other zero zero id other (slot ∷ wheel) e h =
    (holds_other id other slot e ∙ h.0, h.1)
emplace_shared-LastIn_other zero (suc k) id other (slot ∷ wheel) e h = h
emplace_shared-LastIn_other (suc j) zero id other (slot ∷ wheel) e h =
    behind (emplace_shared wheel j other) (held_other j id other wheel e)
  where
    behind :
        (o : Option SharedWheel)
        → After (λ w. held id w ≡ held id wheel) o
        → After (LastIn zero id) (elim o [ none ↦ none | some w ↦ some (slot ∷ w) ])
    behind none a = tt
    behind (some w) a = (h.0, a ∙ h.1)
emplace_shared-LastIn_other (suc j) (suc k) id other (slot ∷ wheel) e h =
    behind (emplace_shared wheel j other) (emplace_shared-LastIn_other j k id other wheel e h)
  where
    behind :
        (o : Option SharedWheel)
        → After (LastIn k id) o
        → After (LastIn (suc k) id) (elim o [ none ↦ none | some w ↦ some (slot ∷ w) ])
    behind none a = tt
    behind (some w) a = a

held-append : (id : ℕ) (wheel : SharedWheel) → held id (wheel ++ [] ∷ []) ≡ held id wheel
unfolding held holds
held-append id [] = refl
held-append id (slot ∷ wheel) = rw (held-append id wheel) refl

LastIn-append :
    (k id : ℕ) (wheel : SharedWheel) → LastIn k id wheel → LastIn k id (wheel ++ [] ∷ [])
LastIn-append k id [] h = elim h [ ]
LastIn-append zero id (slot ∷ wheel) h = (h.0, held-append id wheel ∙ h.1)
LastIn-append (suc k) id (slot ∷ wheel) h = LastIn-append k id wheel h

LastIn-held : (k id : ℕ) (wheel : SharedWheel) → LastIn k id wheel → held id wheel ≡ true
unfolding held
LastIn-held k id [] h = elim h [ ]
LastIn-held zero id (slot ∷ wheel) h = rw h.0 refl
LastIn-held (suc k) id (slot ∷ wheel) h = elim (Bool-cases (holds id slot)) [
  | inl e ↦ rw e refl
  | inr e ↦ rw e (LastIn-held k id wheel h)
]

-- The number of ticks, and that only other entries are inserted.
abbrev pub count_ticks : List Act → ℕ
count_ticks [] = 0
count_ticks (inserts delay other ∷ acts) = count_ticks acts
count_ticks (ticks ∷ acts) = suc (count_ticks acts)

abbrev pub OthersOnly : ℕ → List Act → Type 0
OthersOnly id [] = Unit {0}
OthersOnly id (inserts delay other ∷ acts) = ((id == other) ≡ false) × OthersOnly id acts
OthersOnly id (ticks ∷ acts) = OthersOnly id acts

-- So many releases, if no index was out of range.
abbrev pub Released : Option (SharedWheel × ℕ) → ℕ → Type 0
Released none times = Unit {0}
Released (some (wheel, n)) times = n ≡ times

note-Released :
    (b : Bool) (r : Option (SharedWheel × ℕ)) (n : ℕ)
    → Released r n
    → Released (note b r) (if b then n + 1 else n)
unfolding note
note-Released b none n h = tt
note-Released b (some (wheel, m)) n h = ap (λ k. if b then k + 1 else k) h

-- A tick where no slot holds the entry, where the front is the last that does, and where another is.
pop_gone :
    (id : ℕ) (wheel : SharedWheel)
    → held id wheel ≡ false
    → ((pop_shared id wheel).1 ≡ false) × (held id (pop_shared id wheel).0 ≡ false)
unfolding pop_shared held holds
pop_gone id [] h = (refl, refl)
pop_gone id (slot ∷ wheel) h = elim (Bool-cases (holds id slot)) [
  | inl e ↦ let c : (if holds id slot then true else held id wheel) ≡ true = rw e refl in cc
  | inr e ↦ (
    rw e refl,
    held-append id wheel ∙ subst (λ b. (if b then true else held id wheel) ≡ false) e h,
  )
]

pop_last :
    (id : ℕ) (wheel : SharedWheel)
    → LastIn zero id wheel
    → ((pop_shared id wheel).1 ≡ true) × (held id (pop_shared id wheel).0 ≡ false)
unfolding pop_shared
pop_last id [] h = elim h [ ]
pop_last id (slot ∷ wheel) h = (rw (h.0, h.1) refl, held-append id wheel ∙ h.1)

pop_early :
    (k id : ℕ) (wheel : SharedWheel)
    → LastIn (suc k) id wheel
    → ((pop_shared id wheel).1 ≡ false) × LastIn k id (pop_shared id wheel).0
unfolding pop_shared
pop_early k id [] h = elim h [ ]
pop_early k id (slot ∷ wheel) h =
    (rw (LastIn-held k id wheel h, and_false (holds id slot)) refl, LastIn-append k id wheel h)
  where
    and_false : (b : Bool) → (b && false) ≡ false
    and_false true = refl
    and_false false = refl

-- An insertion, with what holds of the wheel after it.
inserted :
    (P : SharedWheel → Type 0) (id n : ℕ) (acts : List Act) (r : Option SharedWheel)
    → After P r
    → ((w : SharedWheel) → P w → Released (run_shared id acts w) n)
    → Released (elim r [ none ↦ none | some w ↦ run_shared id acts w ]) n
inserted P id n acts none a go = tt
inserted P id n acts (some w) a go = go w a

gone-Released :
    (id : ℕ) (acts : List Act) (wheel : SharedWheel)
    → OthersOnly id acts
    → held id wheel ≡ false
    → Released (run_shared id acts wheel) 0
unfolding run_shared insert_shared
gone-Released id [] wheel o h = refl
gone-Released id (inserts delay other ∷ acts) wheel o h =
    inserted (λ w. held id w ≡ held id wheel) id 0 acts (emplace_shared wheel (pred_32 delay) other)
      (held_other (pred_32 delay) id other wheel o.0) (λ w e. gone-Released id acts w o.1 (e ∙ h))
gone-Released id (ticks ∷ acts) wheel o h =
    let (b, gone) = pop_gone id wheel h in
    rw b (note-Released false _ 0 (gone-Released id acts (pop_shared id wheel).0 o gone))

last-Released :
    (k id : ℕ) (acts : List Act) (wheel : SharedWheel)
    → OthersOnly id acts
    → LastIn k id wheel
    → Released (run_shared id acts wheel) (if ltb k (count_ticks acts) then 1 else 0)
unfolding run_shared insert_shared
last-Released k id [] wheel o h = rw (not_below k) refl
  where
    not_below : (k : ℕ) → ltb k 0 ≡ false
    not_below k = ground arith
last-Released k id (inserts delay other ∷ acts) wheel o h =
    inserted (LastIn k id) id _ acts (emplace_shared wheel (pred_32 delay) other)
      (emplace_shared-LastIn_other (pred_32 delay) k id other wheel o.0 h)
      (λ w e. last-Released k id acts w o.1 e)
last-Released zero id (ticks ∷ acts) wheel o h =
    let (b, gone) = pop_last id wheel h in
    rw (b, lt→ltb 0 (suc (count_ticks acts)) (omega arith))
      (note-Released true _ 0 (gone-Released id acts (pop_shared id wheel).0 o gone))
last-Released (suc k) id (ticks ∷ acts) wheel o h =
    let (b, l) = pop_early k id wheel h in
    rw (b, shifted k (count_ticks acts))
      (note-Released false _ _ (last-Released k id acts (pop_shared id wheel).0 o l))
  where
    shifted : (k n : ℕ) → ltb (suc k) (suc n) ≡ ltb k n
    shifted k n = ground arith

-- If `InsertSecondEntry` puts an entry into a second wheel that has this slot and holds the entry in no slot
-- behind it, and the entry is not inserted again, then the turns of that wheel, taken by itself, release it
-- exactly once, at the turn whose number is the delay and at none before, whatever other entries
-- `InsertSecondEntry` inserts meanwhile within the wheel.
pub insert_shared-Released :
    (delay id : ℕ) (acts : List Act) (wheel wheel' : SharedWheel)
    → 0 < delay
    → held id (drop delay wheel) ≡ false
    → insert_shared wheel delay id ≡ some wheel'
    → OthersOnly id acts
    → Released (run_shared id acts wheel') (if ltb (count_ticks acts) delay then 0 else 1)
unfolding insert_shared
insert_shared-Released delay id acts wheel wheel' lo h e o =
    let at : pred_32 delay ≡ delay - 1 = pred_32_lem delay lo in
    let d : suc (delay - 1) ≡ delay = omega arith in
    let l : LastIn (delay - 1) id wheel' =
      subst (After (LastIn (delay - 1) id))
        (subst (λ k. emplace_shared wheel k id ≡ some wheel') at e)
        (emplace_shared-LastIn (delay - 1) id wheel (rw d h)) in
    rw (flip delay (count_ticks acts) lo) (last-Released (delay - 1) id acts wheel' o l)
  where
    flip :
        (delay n : ℕ)
        → 0 < delay
        → ◌≡◌ {A = ℕ} (if ltb n delay then 0 else 1) (if ltb (delay - 1) n then 1 else 0)
    flip delay n lo = ground arith
