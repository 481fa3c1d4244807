-- ===== src/TaskMgr.antt =====
-- Task and TaskMgr: src/base/Task.h, Task.cpp, TaskMgr.h and TaskMgr.cpp. A task is an object with a
-- number; the set of tasks is a list without repetitions in the order in which an iterator visits it.
-- Times are milliseconds that are not negative. A callback of a task may restart its own task; it may
-- not call `Add` or `Del`, which would wait for the mutex that `OnWork` holds.
pub mod Due
mod Tests
use http_nest.Prelude.{ℕ, ◌+◌, Bool, true, false, List, [], ◌∷◌, ◌++◌, ltb, ◌==◌, if◌then◌else◌}

-- `when` is `when_`; `restarts` says that the callback calls `Restart`.
pub record Task : Type 0 where
  pub interval : ℕ
  pub when : ℕ
  pub has_callback : Bool
  pub restarts : Bool

-- The constructor at a time.
abbrev pub new_task : ℕ → Bool → ℕ → Task
new_task interval restarts now = record {
  interval = interval;
  when = interval + now;
  has_callback = true;
  restarts = restarts;
}

abbrev pub restart : ℕ → Task → Task
restart now t = record t { when = t.interval + now }

-- `Run`, at a time.
unfoldable pub run : ℕ → Task → Task
run now t = if t.has_callback then if t.restarts then restart now t else t else t

-- The objects by their numbers.
abbrev pub Objects : Type 0
Objects = ℕ → Task

unfoldable pub update : ℕ → Task → Objects → Objects
update id t objects other = if other == id then t else objects other

unfoldable pub contains : ℕ → List ℕ → Bool
contains id [] = false
contains id (key ∷ tasks) = let rest = contains id tasks in if id == key then true else rest

-- `Add`: what it returns, and the set.
unfoldable pub add : ℕ → List ℕ → Bool × List ℕ
add id tasks = if contains id tasks then (false, tasks) else (true, tasks ++ id ∷ [])

unfoldable pub del : ℕ → List ℕ → Bool × List ℕ
del id tasks = (true, erase tasks)
  where
    erase : List ℕ → List ℕ
    erase [] = []
    erase (key ∷ tasks) = if id == key then erase tasks else key ∷ erase tasks

-- The set, the objects, and the tasks that were run, after `OnWork`.
pub record Worked : Type 0 where
  pub tasks : List ℕ
  pub objects : Objects
  pub ran : List ℕ

abbrev pub keep : ℕ → Worked → Worked
keep id w = record w { tasks = id ∷ w.tasks }

abbrev pub note : ℕ → Worked → Worked
note id w = record w { ran = id ∷ w.ran }

-- `OnWork`, with the time that it reads at its beginning and the times that the callbacks read.
unfoldable pub on_work : ℕ → (ℕ → ℕ) → List ℕ → Objects → Worked
on_work now later [] objects = record { tasks = []; objects = objects; ran = [] }
on_work now later (id ∷ tasks) objects =
    let t = run (later id) (objects id) in
    let after_run = on_work now later tasks (update id t objects) in
    let unchanged = on_work now later tasks objects in
    if ltb (objects id).when now
    then note id (if ltb t.when now then after_run else keep id after_run)
    else keep id unchanged
