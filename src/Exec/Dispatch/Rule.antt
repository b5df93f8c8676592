-- ===== src/Exec/Dispatch/Rule.antt =====
-- What `dispatch` of internal/exec/executor.go decides, told without the counters: a task starts when the
-- tasks that run leave room for it.
use paihuo.Prelude.{
  ℕ, ◌+◌, Bool, true, false, ◌&&◌, ◌||◌, Option, none, some, List, [], ◌∷◌, ◌==◌, ltb,
  if◌then◌else◌,
}
use paihuo.Model.{Task}
use paihuo.Store.Db.{Db}
use paihuo.Store.Db.Rows.{count_rows}
use paihuo.Store.State.{claim_task}
use paihuo.Store.Delivery.{DependencyCheck, check_task_dependency}
use paihuo.Exec.Slots.{at_least_one}
use paihuo.Exec.Slots.Accounts.{of_role, of_project, of_run, Agrees}
use paihuo.Exec.Dispatch.{World, PassLimits}

-- The world without its counters.
pub record Board : Type 0 where
  pub db : Db
  pub running : List Task

abbrev pub board : World → Board
board w = record { db = w.db; running = w.running }

abbrev pub below : Option ℕ → ℕ → Bool
below none n = false
below (some limit) n = ltb n (at_least_one limit)

abbrev pub run_free : PassLimits → List Task → Option ℕ → Bool
run_free limits running none = true
run_free limits running (some run) = below (limits.runs run) (count_rows (of_run run) running)

abbrev pub role_free : PassLimits → (ℕ → ℕ) → List Task → Option ℕ → Bool
role_free limits outside running none = false
role_free limits outside running (some role_id) =
    below (limits.roles role_id) (outside role_id + count_rows (of_role role_id) running)

abbrev pub project_free : Bool → List Task → Option ℕ → Bool
project_free concurrent running none = true
project_free concurrent running (some project) =
    concurrent || count_rows (of_project project) running == 0

abbrev pub ready : Option DependencyCheck → Bool
ready none = false
ready (some c) = c.ready

-- Of the slots: `role` and `run` are the task's.
abbrev pub room : PassLimits → (ℕ → ℕ) → Task → List Task → Option ℕ → Option ℕ → Bool
room limits outside tk running role run =
    run_free limits running run
    && (role_free limits outside running role && project_free tk.concurrent running tk.project_id)

-- Is there room for the task beside those that run? `outside` are the role slots that sessions hold.
unfoldable pub admits : PassLimits → (ℕ → ℕ) → Task → Board → Bool
admits limits outside tk b =
    ready (check_task_dependency b.db tk)
    && room limits outside tk b.running tk.role_id tk.workflow_run_id

abbrev pub started : Task → Board → Db × Bool → Board
started tk b (db, true) = record { db = db; running = tk ∷ b.running }
started tk b (db, false) = record b { db = db }

unfoldable pub admit_one : PassLimits → (ℕ → ℕ) → ℕ → Task → Board → Board
admit_one limits outside now tk b =
    if admits limits outside tk b then started tk b (claim_task now tk.id b.db) else b

unfoldable pub admit_tasks : PassLimits → (ℕ → ℕ) → ℕ → List Task → Board → Board
admit_tasks limits outside now [] b = b
admit_tasks limits outside now (tk ∷ tks) b =
    admit_tasks limits outside now tks (admit_one limits outside now tk b)

-- The counters count the tasks that run.
abbrev pub Sound : (ℕ → ℕ) → World → Type 0
Sound outside w = Agrees outside w.running w.running w.running w.slots
