-- ===== src/TaskMgr/Due.antt =====
-- What `OnWork` does, by the tasks that are due.
use http_nest.Prelude.{
  ℕ, ◌≡◌, ◌∙◌, refl, ap, subst, arith, inl, inr, Bool, true, false, List, [], ◌∷◌, ltb, ◌==◌,
  Bool-cases, if◌then◌else◌,
}
use http_nest.TaskMgr.{Task, Objects, run, update, contains, Worked, keep, note, on_work}

-- No number is twice in the set.
abbrev pub Distinct : List ℕ → Type 0
Distinct [] = Unit {0}
Distinct (id ∷ tasks) = (contains id tasks ≡ false) × Distinct tasks

-- The task as OnWork leaves it.
abbrev pub after : ℕ → ℕ → Task → Task
after now later t = if ltb t.when now then run later t else t

-- The tasks that are due.
unfoldable pub due : ℕ → List ℕ → Objects → List ℕ
due now [] objects = []
due now (id ∷ tasks) objects =
    let rest = due now tasks objects in if ltb (objects id).when now then id ∷ rest else rest

-- The tasks that are not due once those that are have run.
unfoldable pub remaining : ℕ → (ℕ → ℕ) → List ℕ → Objects → List ℕ
remaining now later [] objects = []
remaining now later (id ∷ tasks) objects =
    let rest = remaining now later tasks objects in
    if ltb (after now (later id) (objects id)).when now then rest else id ∷ rest

-- The set and the runs of a result.
pub record WorksAs (now : ℕ) (later : ℕ → ℕ) (tasks : List ℕ) (objects : Objects) (w : Worked)
    : Type 0 where
  pub kept : w.tasks ≡ remaining now later tasks objects
  pub runs : w.ran ≡ due now tasks objects

module _ (now : ℕ) (later : ℕ → ℕ) (id : ℕ) (t : Task) where
  -- A change of a task that is not in the set.
  elsewhere :
      (key : ℕ) (tasks : List ℕ) (objects : Objects)
      → contains id (key ∷ tasks) ≡ false
      → (update id t objects key ≡ objects key) × (contains id tasks ≡ false)
  unfolding update contains
  elsewhere key tasks objects h = elim (Bool-cases (id == key)) [
    | inl e ↦ absurd (contradiction e)
    | inr e ↦ (rw (other e) refl, subst (λ b. (if b then true else contains id tasks) ≡ false) e h)
  ]
    where
      contradiction : (id == key) ≡ true → ⊥
      contradiction e =
          let c = subst (λ b. (if b then true else contains id tasks) ≡ false) e h in cc

      other : (id == key) ≡ false → (key == id) ≡ false
      other e = ground arith

  due-update :
      (tasks : List ℕ) (objects : Objects)
      → contains id tasks ≡ false
      → due now tasks (update id t objects) ≡ due now tasks objects
  unfolding due
  due-update [] objects h = refl
  due-update (key ∷ tasks) objects h =
      let (same, rest) = elsewhere key tasks objects h in
      rw (same, due-update tasks objects rest) refl

  remaining-update :
      (tasks : List ℕ) (objects : Objects)
      → contains id tasks ≡ false
      → remaining now later tasks (update id t objects) ≡ remaining now later tasks objects
  unfolding remaining
  remaining-update [] objects h = refl
  remaining-update (key ∷ tasks) objects h =
      let (same, rest) = elsewhere key tasks objects h in
      rw (same, remaining-update tasks objects rest) refl

-- A turn of the loop, by whether the task is due, and due once it has run.
turn :
    (d f g : Bool) (id : ℕ) (w w' : Worked) (left runs : List ℕ)
    → g ≡ (if d then f else false)
    → (w.tasks ≡ left) × (w.ran ≡ runs)
    → (w'.tasks ≡ left) × (w'.ran ≡ runs)
    → ((if d then note id (if f then w else keep id w) else keep id w').tasks
        ≡ (if g then left else id ∷ left))
      × ((if d then note id (if f then w else keep id w) else keep id w').ran
          ≡ (if d then id ∷ runs else runs))
turn true true true id w w' left runs e h h' = (h.0, ap (◌∷◌ id) h.1)
turn true true false id w w' left runs e h h' = cc
turn true false true id w w' left runs e h h' = cc
turn true false false id w w' left runs e h h' = (ap (◌∷◌ id) h.0, ap (◌∷◌ id) h.1)
turn false f true id w w' left runs e h h' = cc
turn false f false id w w' left runs e h h' = (ap (◌∷◌ id) h'.0, h'.1)

after_lem :
    (now later : ℕ) (t : Task)
    → ltb (after now later t).when now
      ≡ (if ltb t.when now then ltb (run later t).when now else false)
after_lem now later t = by_test (ltb t.when now) refl
  where
    by_test :
        (d : Bool)
        → ltb t.when now ≡ d
        → ltb (if d then run later t else t).when now
          ≡ (if d then ltb (run later t).when now else false)
    by_test true e = refl
    by_test false e = e

-- OnWork runs each task of the set that is due exactly once, in the order of the set, and leaves in the
-- set, in order, the tasks that are not due afterwards: those that were not due, and those whose
-- callback restarted them.
pub on_work-WorksAs :
    (now : ℕ) (later : ℕ → ℕ) (tasks : List ℕ) (objects : Objects)
    → Distinct tasks
    → WorksAs now later tasks objects (on_work now later tasks objects)
unfolding on_work due remaining
on_work-WorksAs now later [] objects d = record { kept = refl; runs = refl }
on_work-WorksAs now later (id ∷ tasks) objects d =
    let t = run (later id) (objects id) in
    let h = on_work-WorksAs now later tasks (update id t objects) d.1 in
    let h' = on_work-WorksAs now later tasks objects d.1 in
    let (kept, runs) =
      turn (ltb (objects id).when now) (ltb t.when now) _ id
        (on_work now later tasks (update id t objects)) (on_work now later tasks objects)
        (remaining now later tasks objects) (due now tasks objects)
        (after_lem now (later id) (objects id))
        (
          h.kept ∙ remaining-update now later id t tasks objects d.0,
          h.runs ∙ due-update now later id t tasks objects d.0,
        )
        (h'.kept, h'.runs) in
    record { kept = kept; runs = runs }
