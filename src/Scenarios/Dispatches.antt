-- ===== src/Scenarios/Dispatches.antt =====
-- The executor on a small queue: a role with one slot, a project, and three tasks.
use paihuo.Prelude.{ℕ, ◌≤◌, ◌≡◌, refl, true, false, none, some, List, [], ◌∷◌, arith}
use paihuo.Model.{Task, Role, concurrency_limit}
use paihuo.Model.Words.{Perm, queued, full, weak}
use paihuo.Store.Db.{Db, update_one}
use paihuo.Store.State.{claim_task}
use paihuo.Store.Delivery.{check_task_dependency, workflow_dependencies}
use paihuo.Store.Db.Rows.{count_rows, update_rows}
use paihuo.Exec.Slots.{
  increment, decrement, reserve_role_slot, reserve_project_slot, reserve_workflow_slot,
  release_role_slot, release_workflow_slot,
}
use paihuo.Exec.Dispatch.{
  World, limit_of, limits_of, dispatch_tasks, dispatch, dispatch_one, end_run,
}
use paihuo.Exec.Dispatch.Rule.{board, admit_tasks, Sound}
use paihuo.Exec.Dispatch.Admits.{dispatch_tasks-admit_tasks}
use paihuo.Exec.Dispatch.Bounds.{Kept, alone}
use paihuo.Exec.Dispatch.Loop.{
  Load, Steps, pass, ends, here, next, idle, dispatch-Kept, Steps-Serial,
}
use paihuo.Scenarios.{queue, task_row}

abbrev pub worker : Role
worker = record {
  id = 5;
  max_concurrency = 2;
  delegation_enabled = false;
  delegation_max_perm = Perm.unset;
  enabled = true;
}

abbrev job : ℕ → Task
job i = record (task_row i queued full none weak) { role_id = some 5 }

abbrev jobs : List Task
jobs = job 1 ∷ (job 2 ∷ [])

abbrev office : Db
office = record queue { tasks = jobs; last_id = 2; roles = worker ∷ [] }

abbrev start : World
start = (idle office).world

abbrev ids : List Task → List ℕ
ids [] = []
ids (t ∷ ts) = t.id ∷ ids ts

-- The second task waits: its project runs one already.
one_starts : ids (dispatch (λ r. none) 9 jobs start).running ≡ 1 ∷ []
unfolding concurrency_limit dispatch dispatch_tasks dispatch_one limit_of check_task_dependency
    workflow_dependencies reserve_role_slot reserve_project_slot reserve_workflow_slot
    release_role_slot release_workflow_slot claim_task update_one increment decrement count_rows
    update_rows
one_starts = refl

start-Sound : Sound (λ r. 0) start
unfolding count_rows
start-Sound = record { by_role = λ r. omega arith; by_project = λ p. refl; by_run = λ r. refl }

dispatch_tasks-admit_tasks_example :
    (board (dispatch_tasks (limits_of (λ r. none) office) 9 jobs start)
      ≡ admit_tasks (limits_of (λ r. none) office) (λ r. 0) 9 jobs (board start))
    × Sound (λ r. 0) (dispatch_tasks (limits_of (λ r. none) office) 9 jobs start)
dispatch_tasks-admit_tasks_example =
    dispatch_tasks-admit_tasks (limits_of (λ r. none) office) 9 jobs start start-Sound

dispatch-Kept_example :
    Kept (limits_of (λ r. none) office) (λ r. 0) [] (dispatch (λ r. none) 9 jobs start).running
dispatch-Kept_example = dispatch-Kept (λ r. 0) (λ r. none) 9 jobs start start-Sound

abbrev first : Load
first = record (idle office) { world = dispatch (λ r. none) 9 jobs start }

abbrev second : Load
second = record first { world = end_run 0 (first.world) }

steps : Steps (idle office) second
steps = next (pass (λ r. none) 9 jobs (idle office)) (next (ends 0 first) here)

Steps-Serial_example :
    Sound second.sessions second.world
    × ((project : ℕ) → count_rows (alone project) second.world.running ≤ 1)
Steps-Serial_example = Steps-Serial office second steps
