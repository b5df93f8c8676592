-- ===== src/Exec/Dispatch.antt =====
-- `dispatch` of internal/exec/executor.go, the end of `runTask`, and the recovery after a restart. The
-- tasks whose goroutine has been started and has not returned are a list; what a task does meanwhile is
-- not modelled.
pub mod Rule
pub mod Stages
pub mod Admits
pub mod Ends
pub mod Bounds
pub mod Loop
use paihuo.Prelude.{
  ℕ, zero, suc, Bool, true, false, Option, none, some, List, [], ◌∷◌, ◌==◌, if◌then◌else◌, refers,
}
use paihuo.Model.{Task, Role, concurrency_limit}
use paihuo.Store.Db.{Db}
use paihuo.Store.State.{claim_task}
use paihuo.Store.Delivery.{DependencyCheck, check_task_dependency}
use paihuo.Exec.Slots.{
  Slots, reserve_role_slot, restore_role_slot, release_role_slot, reserve_project_slot,
  release_project_slot, restore_project_slot, reserve_workflow_slot, release_workflow_slot,
  restore_workflow_slot,
}

pub record World : Type 0 where
  pub db : Db
  pub slots : Slots
  pub running : List Task

-- The limits that one pass reads: it keeps each in a map, so that it reads it once. `none` is an error of
-- the query, or a role that is not enabled.
pub record PassLimits : Type 0 where
  pub roles : ℕ → Option ℕ
  pub runs : ℕ → Option ℕ

-- `GetRole`, with the test of `Enabled`.
unfoldable pub limit_of : List Role → ℕ → Option ℕ
limit_of [] i = none
limit_of (r ∷ rs) i =
    let rest = limit_of rs i in
    if r.id == i then (if r.enabled then some (concurrency_limit r) else none) else rest

abbrev pub limits_of : (ℕ → Option ℕ) → Db → PassLimits
limits_of run_limit db = record { roles = limit_of db.roles; runs = run_limit }

-- The end of one round: claim, and start the goroutine or give the slots back.
abbrev pub release_all : ℕ → Task → Slots → Slots
release_all role_id tk s =
    release_workflow_slot tk (release_project_slot tk (release_role_slot role_id s))

abbrev pub launch : ℕ → Task → World → Slots → Db × Bool → World
launch role_id tk w s (db, true) = record { db = db; slots = s; running = tk ∷ w.running }
launch role_id tk w s (db, false) = record w { db = db; slots = release_all role_id tk s }

abbrev pub take_project : ℕ → ℕ → Task → World → Slots × Bool → World
take_project now role_id tk w (s, true) = launch role_id tk w s (claim_task now tk.id w.db)
take_project now role_id tk w (s, false) = record w {
  slots = release_workflow_slot tk (release_role_slot role_id s);
}

abbrev pub take_role : ℕ → ℕ → Task → World → Slots × Bool → World
take_role now role_id tk w (s, true) = take_project now role_id tk w (reserve_project_slot tk s)
take_role now role_id tk w (s, false) = record w { slots = release_workflow_slot tk s }

abbrev pub with_limit : ℕ → ℕ → Task → World → Slots → Option ℕ → World
with_limit now role_id tk w s none = record w { slots = release_workflow_slot tk s }
with_limit now role_id tk w s (some limit) =
    take_role now role_id tk w (reserve_role_slot role_id limit s)

abbrev pub take_run : PassLimits → ℕ → ℕ → Task → World → Slots × Bool → World
take_run limits now role_id tk w (s, true) = with_limit now role_id tk w s (limits.roles role_id)
take_run limits now role_id tk w (s, false) = w

abbrev pub with_run_limit : PassLimits → ℕ → ℕ → Task → World → Option ℕ → World
with_run_limit limits now role_id tk w none = w
with_run_limit limits now role_id tk w (some limit) =
    take_run limits now role_id tk w (reserve_workflow_slot tk limit w.slots)

abbrev pub with_run : PassLimits → ℕ → ℕ → Task → World → Option ℕ → World
with_run limits now role_id tk w none = with_limit now role_id tk w w.slots (limits.roles role_id)
with_run limits now role_id tk w (some run) =
    with_run_limit limits now role_id tk w (limits.runs run)

abbrev pub if_ready : Option DependencyCheck → World → World → World
if_ready none go w = w
if_ready (some c) go w = if c.ready then go else w

abbrev pub with_role : PassLimits → ℕ → Task → World → Option ℕ → World
with_role limits now tk w none = w
with_role limits now tk w (some role_id) =
    if_ready (check_task_dependency w.db tk) (with_run limits now role_id tk w tk.workflow_run_id) w

-- One round of the loop of `dispatch`.
unfoldable pub dispatch_one : PassLimits → ℕ → Task → World → World
dispatch_one limits now tk w = with_role limits now tk w tk.role_id

-- The loop, over what `ListQueuedTasks` has returned.
unfoldable pub dispatch_tasks : PassLimits → ℕ → List Task → World → World
dispatch_tasks limits now [] w = w
dispatch_tasks limits now (tk ∷ tks) w =
    dispatch_tasks limits now tks (dispatch_one limits now tk w)

-- `dispatch`.
unfoldable pub dispatch : (ℕ → Option ℕ) → ℕ → List Task → World → World
dispatch run_limit now queued w = dispatch_tasks (limits_of run_limit w.db) now queued w

abbrev pub nth : ℕ → List Task → Option Task
nth n [] = none
nth zero (t ∷ ts) = some t
nth (suc n) (t ∷ ts) = nth n ts

abbrev pub remove_at : ℕ → List Task → List Task
remove_at n [] = []
remove_at zero (t ∷ ts) = ts
remove_at (suc n) (t ∷ ts) = t ∷ remove_at n ts

-- The deferred end of `runTask`, in the goroutine at the place `n`; it has its own copy of the task.
abbrev pub release_role : Option ℕ → Slots → Slots
release_role none s = s
release_role (some role_id) s = release_role_slot role_id s

abbrev pub ended : ℕ → World → Option Task → World
ended n w none = w
ended n w (some tk) = record w {
  slots = release_workflow_slot tk (release_project_slot tk (release_role tk.role_id w.slots));
  running = remove_at n w.running;
}

unfoldable pub end_run : ℕ → World → World
end_run n w = ended n w (nth n w.running)

-- `recoverInterrupted`, for a task whose tmux window is still alive.
abbrev pub restore_role : Option ℕ → Task → World → World
restore_role none tk w = w
restore_role (some role_id) tk w = record w {
  slots = restore_workflow_slot tk (restore_project_slot tk (restore_role_slot role_id w.slots));
  running = tk ∷ w.running;
}

unfoldable pub restore_run : Task → World → World
restore_run tk w = restore_role tk.role_id tk w
