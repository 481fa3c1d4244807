-- ===== src/TaskMgr/Tests.antt =====
-- Runs of the tasks, and witnesses.
use http_nest.Prelude.{ℕ, ◌≡◌, refl, true, false, List, [], ◌∷◌, ◌==◌, if◌then◌else◌}
use http_nest.TaskMgr.{new_task, Objects, run, update, contains, add, del, on_work}
use http_nest.TaskMgr.Due.{WorksAs, on_work-WorksAs}

-- Task 1 restarts itself, task 2 does not, and task 3 is not due at 100.
abbrev objects : Objects
objects id =
    if id == 1
    then new_task 10 true 50
    else if id == 2
    then new_task 20 false 50
    else new_task 90 false 50

abbrev tasks : List ℕ
tasks = 1 ∷ 2 ∷ 3 ∷ []

on_work_runs :
    ((on_work 100 (λ id. 101) tasks objects).tasks ≡ 1 ∷ 3 ∷ [])
    × ((on_work 100 (λ id. 101) tasks objects).ran ≡ 1 ∷ 2 ∷ [])
unfolding on_work run update
on_work_runs = (refl, refl)

add_runs : (add 3 tasks ≡ (false, tasks)) × (del 2 tasks ≡ (true, 1 ∷ 3 ∷ []))
unfolding add del contains
add_runs = (refl, refl)

on_work-WorksAs_example :
    WorksAs 100 (λ id. 101) tasks objects (on_work 100 (λ id. 101) tasks objects)
unfolding contains
on_work-WorksAs_example = on_work-WorksAs 100 (λ id. 101) tasks objects (refl, (refl, (refl, tt)))
