-- ===== src/EventLoop/Work.antt =====
-- The work of functions, and what a loop does while it handles events.
use http_nest.Prelude.{
  ℕ, ◌≡◌, ◌∙◌, refl, sym, ap, Bool, true, false, not, List, [], ◌∷◌, ◌++◌, Option, none, some,
  if◌then◌else◌, append_assoc, append-nil,
}
use http_nest.EventLoop.{
  Function, finished, work, run_in_loop, then_do, Loop, Loops, eq_loop, set_loop, push, pop, Step,
  enters, works, calls, posts, pops, handles, works_at_once, calls_at_once, posts_at_once, returns,
  arrives, Reach, here, next,
}

-- The work that a function does in loop `i` itself, with the functions that it calls there.
unfoldable pub work_of : Bool → Function → List ℕ
work_of i finished = []
work_of i (work n f) = n ∷ work_of i f
work_of i (run_in_loop j g f) =
    let rest = work_of i f in let inner = work_of i g in if eq_loop i j then inner ++ rest else rest

unfoldable pub work_of_all : Bool → List Function → List ℕ
work_of_all i [] = []
work_of_all i (f ∷ fns) = work_of i f ++ work_of_all i fns

pub work_of-then_do :
    (i : Bool) (f g : Function) → work_of i (then_do f g) ≡ work_of i f ++ work_of i g
unfolding work_of then_do
work_of-then_do i finished g = refl
work_of-then_do i (work n f) g = ap (◌∷◌ n) (work_of-then_do i f g)
work_of-then_do i (run_in_loop j h f) g = by_loop (eq_loop i j) (work_of-then_do i f g)
  where
    by_loop :
        (b : Bool)
        → work_of i (then_do f g) ≡ work_of i f ++ work_of i g
        → (if b then work_of i h ++ work_of i (then_do f g) else work_of i (then_do f g))
          ≡ (if b then work_of i h ++ work_of i f else work_of i f) ++ work_of i g
    by_loop true e =
        ap (λ (xs : List ℕ). work_of i h ++ xs) e
        ∙ sym (append_assoc (work_of i h) (work_of i f) (work_of i g))
    by_loop false e = e

pub eq_loop_refl : (i : Bool) → eq_loop i i ≡ true
eq_loop_refl true = refl
eq_loop_refl false = refl

-- What is left of the event that is handled.
abbrev left_at_once : Bool → Option Function → List ℕ
left_at_once i none = []
left_at_once i (some f) = work_of i f

abbrev pub total_at_once : Bool → Loop → List ℕ
total_at_once i l = l.handled ++ left_at_once i l.handling

-- The work of an event that loop `j` begins to handle.
unfoldable pub event : {s t : Loops} → Step s t → Bool → List ℕ
event (enters i e h) j = []
event (works i n g e) j = []
event (calls i f g e) j = []
event (posts i f g e free) j = []
event (pops i e) j = []
event (handles i f e h) j = if eq_loop i j then work_of j f else []
event (works_at_once i n g e) j = []
event (calls_at_once i f g e) j = []
event (posts_at_once i f g e free) j = []
event (returns i e) j = []
event (arrives i f e) j = []

unfoldable pub all_events : {s t : Loops} → Reach s t → Bool → List ℕ
all_events here j = []
all_events (next r st) j = all_events r j ++ event st j

kept_at_once :
    (i j : Bool) (l : Loop) (s : Loops)
    → total_at_once i l ≡ total_at_once i (s.loop i)
    → total_at_once j ((set_loop i l s).loop j) ≡ total_at_once j (s.loop j) ++ []
unfolding set_loop
kept_at_once true true l s h = h ∙ sym (append-nil _)
kept_at_once true false l s h = sym (append-nil _)
kept_at_once false true l s h = sym (append-nil _)
kept_at_once false false l s h = h ∙ sym (append-nil _)

-- A change of loop `i` and a push to the other one.
kept_both :
    (i j : Bool) (l : Loop) (f : Function) (s : Loops)
    → total_at_once i l ≡ total_at_once i (s.loop i)
    → total_at_once j ((set_loop i l (set_loop (not i) (push f (s.loop (not i))) s)).loop j)
      ≡ total_at_once j (s.loop j) ++ []
unfolding set_loop
kept_both true true l f s h = h ∙ sym (append-nil _)
kept_both true false l f s h = sym (append-nil _)
kept_both false true l f s h = sym (append-nil _)
kept_both false false l f s h = h ∙ sym (append-nil _)

begun :
    (i j : Bool) (f : Function) (s : Loops)
    → (s.loop i).handling ≡ none
    → total_at_once j ((set_loop i (record (s.loop i) { handling = some f }) s).loop j)
      ≡ total_at_once j (s.loop j) ++ (if eq_loop i j then work_of j f else [])
unfolding set_loop
begun true true f s e = rw (e, append-nil (s.loop true).handled) refl
begun true false f s e = sym (append-nil _)
begun false true f s e = sym (append-nil _)
begun false false f s e = rw (e, append-nil (s.loop false).handled) refl

popped :
    (i : Bool) (l : Loop) (fns : List Function)
    → l.fns ≡ fns
    → total_at_once i (pop l) ≡ total_at_once i l
unfolding pop
popped i l [] e = rw (e, pop) refl
popped i l (f ∷ fns) e = rw (e, pop) refl

Step-event :
    {s t : Loops} (st : Step s t) (j : Bool)
    → total_at_once j (t.loop j) ≡ total_at_once j (s.loop j) ++ event st j
unfolding event work_of
Step-event {s} (enters i e h) j = kept_at_once i j _ s refl
Step-event {s} (works i n g e) j = kept_at_once i j _ s refl
Step-event {s} (calls i f g e) j = kept_at_once i j _ s refl
Step-event {s} (posts i f g e free) j = kept_both i j _ f s refl
Step-event {s} (pops i e) j = kept_at_once i j _ s (popped i (s.loop i) (s.loop i).fns refl)
Step-event {s} (handles i f e h) j = begun i j f s h
Step-event {s} (works_at_once i n g e) j =
    kept_at_once i j _ s (rw e (append_assoc (s.loop i).handled (n ∷ []) _))
Step-event {s} (calls_at_once i f g e) j =
    kept_at_once i j _ s (rw (e, work_of-then_do i f g, eq_loop_refl i) refl)
Step-event {s} (posts_at_once i f g e free) j = kept_both i j _ f s (other_work i f g s e)
  where
    other : (i : Bool) → eq_loop i (not i) ≡ false
    other true = refl
    other false = refl

    other_work :
        (i : Bool) (f g : Function) (s : Loops)
        → (s.loop i).handling ≡ some (run_in_loop (not i) f g)
        → (s.loop i).handled ++ work_of i g ≡ total_at_once i (s.loop i)
    other_work i f g s e = rw (e, other i) refl
Step-event {s} (returns i e) j = kept_at_once i j _ s (rw e refl)
Step-event {s} (arrives i f e) j = kept_at_once i j _ s refl

pub Reach-at_once :
    {s t : Loops} (r : Reach s t) (j : Bool)
    → total_at_once j (t.loop j) ≡ total_at_once j (s.loop j) ++ all_events r j
unfolding all_events
Reach-at_once here j = sym (append-nil _)
Reach-at_once {s} (next {t} r st) j =
    Step-event st j
    ∙ ap (λ (xs : List ℕ). xs ++ event st j) (Reach-at_once r j)
    ∙ append_assoc (total_at_once j (s.loop j)) (all_events r j) (event st j)
