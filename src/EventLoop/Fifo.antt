-- ===== src/EventLoop/Fifo.antt =====
-- What a loop has done and has left, under the steps of all threads.
use http_nest.Prelude.{
  ℕ, ◌≡◌, ◌∙◌, refl, sym, ap, Bool, true, false, not, List, [], ◌∷◌, ◌++◌, Option, none, some,
  if◌then◌else◌, append_assoc, append-nil,
}
use http_nest.EventLoop.Work.{
  work_of, work_of_all, work_of-then_do, eq_loop_refl, total_at_once, all_events, Reach-at_once,
}
use http_nest.EventLoop.{
  Function, finished, run_in_loop, Loop, Loops, eq_loop, set_loop, push, front, pop, Step, enters,
  works, calls, posts, pops, handles, works_at_once, calls_at_once, posts_at_once, returns, arrives,
  Reach, here, next,
}

abbrev tail : List Function → List Function
tail [] = []
tail (f ∷ fns) = fns

-- The work that is left: of the function that runs and of those behind it, or of the whole queue.
unfoldable pub left : Bool → Option Function → List Function → List ℕ
left i none fns = work_of_all i fns
left i (some f) fns = work_of i f ++ work_of_all i (tail fns)

-- The work that is done and the work that is left.
abbrev pub total : Bool → Loop → List ℕ
total i l = l.done ++ left i l.running l.fns

-- The work that a step hands to loop `j`.
unfoldable pub handed : {s t : Loops} → Step s t → Bool → List ℕ
handed (enters i e h) j = []
handed (works i n g e) j = []
handed (calls i f g e) j = []
handed (posts i f g e free) j = if eq_loop (not i) j then work_of j f else []
handed (pops i e) j = []
handed (handles i f e h) j = []
handed (works_at_once i n g e) j = []
handed (calls_at_once i f g e) j = []
handed (posts_at_once i f g e free) j = if eq_loop (not i) j then work_of j f else []
handed (returns i e) j = []
handed (arrives i f e) j = if eq_loop i j then work_of j f else []

unfoldable pub all_handed : {s t : Loops} → Reach s t → Bool → List ℕ
all_handed here j = []
all_handed (next r st) j = all_handed r j ++ handed st j

work_of_all-append :
    (i : Bool) (fns : List Function) (f : Function)
    → work_of_all i (fns ++ f ∷ []) ≡ work_of_all i fns ++ work_of i f
unfolding work_of_all
work_of_all-append i [] f = append-nil (work_of i f)
work_of_all-append i (x ∷ fns) f =
    ap (λ (xs : List ℕ). work_of i x ++ xs) (work_of_all-append i fns f)
    ∙ sym (append_assoc (work_of i x) (work_of_all i fns) (work_of i f))

left-front : (i : Bool) (fns : List Function) → left i (front fns) fns ≡ work_of_all i fns
unfolding left work_of_all
left-front i [] = refl
left-front i (f ∷ fns) = refl

-- A change of loop `i` that keeps its total keeps all of them.
kept :
    (i j : Bool) (l : Loop) (s : Loops)
    → total i l ≡ total i (s.loop i)
    → total j ((set_loop i l s).loop j) ≡ total j (s.loop j)
unfolding set_loop
kept true true l s h = h
kept true false l s h = refl
kept false true l s h = refl
kept false false l s h = h

here_pushed :
    (i : Bool) (f : Function) (l : Loop)
    → l.running ≡ none
    → total i (push f l) ≡ total i l ++ work_of i f
unfolding left
here_pushed i f l e =
    rw (e, left)
      (ap (λ (xs : List ℕ). l.done ++ xs) (work_of_all-append i l.fns f)
        ∙ sym (append_assoc l.done (work_of_all i l.fns) (work_of i f)))

-- A push to loop `i` outside RunFuctions.
pushed :
    (i j : Bool) (f : Function) (s : Loops)
    → (s.loop i).running ≡ none
    → total j ((set_loop i (push f (s.loop i)) s).loop j)
      ≡ total j (s.loop j) ++ (if eq_loop i j then work_of j f else [])
unfolding set_loop
pushed true true f s e = here_pushed true f (s.loop true) e
pushed true false f s e = sym (append-nil _)
pushed false true f s e = sym (append-nil _)
pushed false false f s e = here_pushed false f (s.loop false) e

posted :
    (i j : Bool) (f g : Function) (s : Loops)
    → (s.loop i).running ≡ some (run_in_loop (not i) f g)
    → (s.loop (not i)).running ≡ none
    → total j (
        (set_loop i
            (record (s.loop i) { running = some g })
            (set_loop (not i) (push f (s.loop (not i))) s)).loop
          j)
      ≡ total j (s.loop j) ++ (if eq_loop (not i) j then work_of j f else [])
unfolding left work_of set_loop
posted true true f g s e free = rw e (sym (append-nil _))
posted true false f g s e free = here_pushed false f (s.loop false) free
posted false true f g s e free = here_pushed true f (s.loop true) free
posted false false f g s e free = rw e (sym (append-nil _))

posted_at_once :
    (i j : Bool) (f g : Function) (s : Loops)
    → (s.loop (not i)).running ≡ none
    → total j (
        (set_loop i
            (record (s.loop i) { handling = some g })
            (set_loop (not i) (push f (s.loop (not i))) s)).loop
          j)
      ≡ total j (s.loop j) ++ (if eq_loop (not i) j then work_of j f else [])
unfolding set_loop
posted_at_once true true f g s free = sym (append-nil _)
posted_at_once true false f g s free = here_pushed false f (s.loop false) free
posted_at_once false true f g s free = here_pushed true f (s.loop true) free
posted_at_once false false f g s free = sym (append-nil _)

pop_lem :
    (i : Bool) (l : Loop) (fns : List Function)
    → l.running ≡ some finished
    → l.fns ≡ fns
    → total i (pop l) ≡ total i l
unfolding left work_of pop work_of_all
pop_lem i l [] e q = rw (e, q, pop) refl
pop_lem i l (f ∷ fns) e q = rw (e, q, pop) (ap (λ (xs : List ℕ). l.done ++ xs) (left-front i fns))

Step-handed :
    {s t : Loops} (st : Step s t) (j : Bool)
    → total j (t.loop j) ≡ total j (s.loop j) ++ handed st j
unfolding handed left work_of
Step-handed {s} (enters i e h) j =
    kept i j _ s (rw e (ap (λ (xs : List ℕ). (s.loop i).done ++ xs) (left-front i (s.loop i).fns)))
    ∙ sym (append-nil _)
Step-handed {s} (works i n g e) j =
    kept i j _ s (rw e (append_assoc (s.loop i).done (n ∷ []) _)) ∙ sym (append-nil _)
Step-handed {s} (calls i f g e) j =
    kept i j _ s (rw (e, work_of-then_do i f g, eq_loop_refl i) refl) ∙ sym (append-nil _)
Step-handed {s} (posts i f g e free) j = posted i j f g s e free
Step-handed {s} (pops i e) j =
    kept i j _ s (pop_lem i (s.loop i) (s.loop i).fns e refl) ∙ sym (append-nil _)
Step-handed {s} (handles i f e h) j = kept i j _ s refl ∙ sym (append-nil _)
Step-handed {s} (works_at_once i n g e) j = kept i j _ s refl ∙ sym (append-nil _)
Step-handed {s} (calls_at_once i f g e) j = kept i j _ s refl ∙ sym (append-nil _)
Step-handed {s} (posts_at_once i f g e free) j = posted_at_once i j f g s free
Step-handed {s} (returns i e) j = kept i j _ s refl ∙ sym (append-nil _)
Step-handed {s} (arrives i f e) j = pushed i j f s e

Reach-total :
    {s t : Loops} (r : Reach s t) (j : Bool)
    → total j (t.loop j) ≡ total j (s.loop j) ++ all_handed r j
unfolding all_handed
Reach-total here j = sym (append-nil _)
Reach-total {s} (next {t} r st) j =
    Step-handed st j
    ∙ ap (λ (xs : List ℕ). xs ++ handed st j) (Reach-total r j)
    ∙ append_assoc (total j (s.loop j)) (all_handed r j) (handed st j)

-- Under any steps of the threads, what a loop has done of its queue and has left of it is what it had done
-- and had left before, followed by what other threads handed to it, in the order in which they handed it
-- over: no function of the queue is lost, run twice or overtaken by another of the queue. What the loop has
-- done while it handled events, with the functions that it called in its own thread, and has left of the
-- event that it handles, is what it had done and had left before, followed by that of the new events, in
-- their order.
pub Reach-handed :
    {s t : Loops} (r : Reach s t) (j : Bool)
    → (total j (t.loop j) ≡ total j (s.loop j) ++ all_handed r j)
      × (total_at_once j (t.loop j) ≡ total_at_once j (s.loop j) ++ all_events r j)
Reach-handed r j = (Reach-total r j, Reach-at_once r j)
