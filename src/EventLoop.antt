-- ===== src/EventLoop.antt =====
-- EventLoop: the functions that are run in a loop's thread, of src/network/net/EventLoop.cpp, for two
-- loops whose threads interleave. A function is a sequence of actions: work, named by a number, and a
-- call of `RunInLoop` on one of the loops with a further function. What `HandleEvent` does for a channel
-- is such a function too, run outside `RunFuctions`. The mutex of a loop is held while `RunFuctions` runs
-- its functions. What `WakeUp` writes to the pipe, and when the thread comes to
-- `RunFuctions`, is left open: a thread may come to it at any time.
pub mod Work
pub mod Fifo
pub mod Deadlock
mod Tests
use http_nest.Prelude.{
  ℕ, Bool, true, false, not, List, [], ◌∷◌, ◌++◌, Option, none, some, ◌≡◌, if◌then◌else◌,
}

-- The two loops are named by a Boolean.
pub data Function : Type 0 where
  finished : Function
  work : ℕ → Function → Function
  run_in_loop : Bool → Function → Function → Function

-- A function, then another.
unfoldable pub then_do : Function → Function → Function
then_do finished f = f
then_do (work n g) f = work n (then_do g f)
then_do (run_in_loop loop h g) f = run_in_loop loop h (then_do g f)

-- `fns` is the queue; its front is there until it has been run. `running` is what is left of the front
-- while the thread is in `RunFuctions`, which holds the mutex all along, and `done` the work done there.
-- `handling` is what is left while the thread handles an event, and `handled` the work done there.
pub record Loop : Type 0 where
  pub fns : List Function
  pub running : Option Function
  pub done : List ℕ
  pub handling : Option Function
  pub handled : List ℕ

pub record Loops : Type 0 where
  pub loop : Bool → Loop

abbrev pub eq_loop : Bool → Bool → Bool
eq_loop true b = b
eq_loop false b = not b

unfoldable pub set_loop : Bool → Loop → Loops → Loops
set_loop i l s = record { loop = λ j. if eq_loop i j then l else s.loop j }

-- `fns_.push` under the mutex.
abbrev pub push : Function → Loop → Loop
push f l = record l { fns = l.fns ++ f ∷ [] }

-- The front of the queue is run next; the mutex is released where there is none.
abbrev pub front : List Function → Option Function
front [] = none
front (f ∷ fns) = some f

-- `pop`, and the next turn of the loop of `RunFuctions`.
unfoldable pub pop : Loop → Loop
pop l = go l.fns
  where
    go : List Function → Loop
    go [] = record l { running = none }
    go (f ∷ fns) = record l { fns = fns; running = front fns }

-- A step of a thread: of loop `i`, in `RunFuctions` or while it handles an event, or of another thread that
-- calls `RunInLoop`.
pub data Step (s : Loops) : Loops → Type 0 where
  -- The mutex is taken by `RunFuctions`, when the events are handled.
  enters :
      (i : Bool)
      → (s.loop i).running ≡ none
      → (s.loop i).handling ≡ none
      → Step s (set_loop i (record (s.loop i) { running = front (s.loop i).fns }) s)
  works :
      (i : Bool) (n : ℕ) (g : Function)
      → (s.loop i).running ≡ some (work n g)
      → Step s
          (set_loop i (record (s.loop i) { running = some g; done = (s.loop i).done ++ n ∷ [] }) s)
  -- `RunInLoop` in the loop's own thread.
  calls :
      (i : Bool) (f g : Function)
      → (s.loop i).running ≡ some (run_in_loop i f g)
      → Step s (set_loop i (record (s.loop i) { running = some (then_do f g) }) s)
  -- `RunInLoop` on the other loop waits for that loop's mutex.
  posts :
      (i : Bool) (f g : Function)
      → (s.loop i).running ≡ some (run_in_loop (not i) f g)
      → (s.loop (not i)).running ≡ none
      → Step s (
          set_loop i
            (record (s.loop i) { running = some g })
            (set_loop (not i) (push f (s.loop (not i))) s))
  pops : (i : Bool) → (s.loop i).running ≡ some finished → Step s (set_loop i (pop (s.loop i)) s)
  -- An event is handled, outside `RunFuctions`.
  handles :
      (i : Bool) (f : Function)
      → (s.loop i).running ≡ none
      → (s.loop i).handling ≡ none
      → Step s (set_loop i (record (s.loop i) { handling = some f }) s)
  works_at_once :
      (i : Bool) (n : ℕ) (g : Function)
      → (s.loop i).handling ≡ some (work n g)
      → Step s (
          set_loop i
            (record (s.loop i) { handling = some g; handled = (s.loop i).handled ++ n ∷ [] })
            s)
  -- `RunInLoop` in the loop's own thread runs the function at once, before those of the queue.
  calls_at_once :
      (i : Bool) (f g : Function)
      → (s.loop i).handling ≡ some (run_in_loop i f g)
      → Step s (set_loop i (record (s.loop i) { handling = some (then_do f g) }) s)
  posts_at_once :
      (i : Bool) (f g : Function)
      → (s.loop i).handling ≡ some (run_in_loop (not i) f g)
      → (s.loop (not i)).running ≡ none
      → Step s (
          set_loop i
            (record (s.loop i) { handling = some g })
            (set_loop (not i) (push f (s.loop (not i))) s))
  returns :
      (i : Bool)
      → (s.loop i).handling ≡ some finished
      → Step s (set_loop i (record (s.loop i) { handling = none }) s)
  -- `RunInLoop` in a thread that runs neither loop.
  arrives :
      (i : Bool) (f : Function)
      → (s.loop i).running ≡ none
      → Step s (set_loop i (push f (s.loop i)) s)

pub data Reach (s : Loops) : Loops → Type 0 where
  here : Reach s s
  next : {t u : Loops} → Reach s t → Step t u → Reach s u
