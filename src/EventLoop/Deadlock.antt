-- ===== src/EventLoop/Deadlock.antt =====
-- Two loops whose functions post to each other.
use http_nest.Prelude.{◌≡◌, ◌∙◌, sym, Bool, true, false, not, none, some}
use http_nest.EventLoop.{
  Function, run_in_loop, Loops, set_loop, front, Step, enters, works, calls, posts, pops, handles,
  works_at_once, calls_at_once, posts_at_once, returns, arrives, Reach, here, next,
}

-- What loop `i` is about to do is a post to the other one.
abbrev Posting : Loops → Bool → Type 0
Posting s i =
    (f : Function) × (g : Function) × ((s.loop i).running ≡ some (run_in_loop (not i) f g))

not_self : (i : Bool) → i ≡ not i → ⊥
not_self true e = cc
not_self false e = cc

stuck :
    (s : Loops)
    → ((i : Bool) → Posting s i)
    → ((i : Bool) → (s.loop i).handling ≡ none)
    → (t : Loops) → ¬ Step s t
stuck s p q t (enters i e h) = let (f, g, r) = p i in cc
stuck s p q t (works i n h e) = let (f, g, r) = p i in cc
stuck s p q t (calls i f' g' e) = let (f, g, r) = p i in not_self i (same f' g' f g (sym e ∙ r))
  where
    same :
        (f' g' f g : Function)
        → some (run_in_loop i f' g') ≡ some (run_in_loop (not i) f g)
        → i ≡ not i
    same f' g' f g e = cc
stuck s p q t (posts i f' g' e free) = let (f, g, r) = p (not i) in cc
stuck s p q t (pops i e) = let (f, g, r) = p i in cc
stuck s p q t (handles i f' e h) = let (f, g, r) = p i in cc
stuck s p q t (works_at_once i n h e) = let r = q i in cc
stuck s p q t (calls_at_once i f' g' e) = let r = q i in cc
stuck s p q t (posts_at_once i f' g' e free) = let r = q i in cc
stuck s p q t (returns i e) = let r = q i in cc
stuck s p q t (arrives i f' e) = let (f, g, r) = p i in cc

-- If both loops are outside RunFuctions, handle no event, and the function at the front of each queue begins by posting
-- to the other loop, then a state can be reached in which no thread can take a step: each loop holds
-- its own mutex and waits for the other's.
pub posts-Stuck :
    (s : Loops) (f g : Bool → Function)
    → ((i : Bool) → (s.loop i).running ≡ none)
    → ((i : Bool) → (s.loop i).handling ≡ none)
    → ((i : Bool) → front (s.loop i).fns ≡ some (run_in_loop (not i) (f i) (g i)))
    → (t : Loops) × Reach s t × ((u : Loops) → ¬ Step t u)
unfolding set_loop
posts-Stuck s f g idle calm fronts =
    let first : Loops =
      set_loop true (record (s.loop true) { running = front (s.loop true).fns }) s in
    let second : Loops =
      set_loop false (record (first.loop false) { running = front (first.loop false).fns }) first in
    (
      second,
      next (next here (enters true (idle true) (calm true)))
          (enters false (idle false) (calm false)),
      stuck second both still,
    )
  where
    both :
        (i : Bool)
        → Posting
            (set_loop false
              (record (s.loop false) { running = front (s.loop false).fns })
              (set_loop true (record (s.loop true) { running = front (s.loop true).fns }) s))
            i
    both true = (f true, g true, fronts true)
    both false = (f false, g false, fronts false)

    still :
        (i : Bool)
        → ((set_loop false
              (record (s.loop false) { running = front (s.loop false).fns })
              (set_loop true (record (s.loop true) { running = front (s.loop true).fns }) s)).loop
            i).handling
          ≡ none
    still true = calm true
    still false = calm false
