-- ===== src/EventLoop/Tests.antt =====
-- Runs of two loops, and witnesses.
use http_nest.Prelude.{◌≡◌, refl, true, false, not, List, [], ◌∷◌, ◌++◌, none}
use http_nest.EventLoop.{
  Function, finished, work, run_in_loop, then_do, Loop, Loops, set_loop, Step, arrives, enters,
  works, handles, calls_at_once, works_at_once, returns, Reach, here, next,
}
use http_nest.EventLoop.Work.{total_at_once, all_events}
use http_nest.EventLoop.Fifo.{total, all_handed, Reach-handed}
use http_nest.EventLoop.Deadlock.{posts-Stuck}

abbrev idle : List Function → Loop
idle fns = record { fns = fns; running = none; done = []; handling = none; handled = [] }

abbrev idle_loops : Loops
idle_loops = record { loop = λ i. idle [] }

-- A function that works, then calls another of its own loop.
abbrev nested : Function
nested = work 1 (run_in_loop true (work 2 finished) (work 3 finished))

run : (t : Loops) × Reach idle_loops t
unfolding set_loop then_do
run = (
  _,
  next
      (next
        (next
          (next
            (next
              (next
                (next (next here (arrives true nested refl)) (arrives false (work 9 finished) refl))
                (handles true (run_in_loop true (work 5 finished) finished) refl refl))
              (calls_at_once true _ _ refl))
            (works_at_once true 5 _ refl))
          (returns true refl))
        (enters true refl refl))
      (works true 1 _ refl),
)

Reach-handed_example :
    (total true (run.0.loop true) ≡ total true (idle_loops.loop true) ++ all_handed run.1 true)
    × (total_at_once true (run.0.loop true)
        ≡ total_at_once true (idle_loops.loop true) ++ all_events run.1 true)
Reach-handed_example = Reach-handed run.1 true

abbrev crossed : Loops
crossed = record { loop = λ i. idle (run_in_loop (not i) (work 1 finished) (work 2 finished) ∷ []) }

posts-Stuck_example : (t : Loops) × Reach crossed t × ((u : Loops) → ¬ Step t u)
posts-Stuck_example =
    posts-Stuck crossed (λ i. work 1 finished) (λ i. work 2 finished) (λ i. refl) (λ i. refl)
      (λ i. refl)
