-- ===== src/Store/Definitions.antt =====
-- internal/store/workflows.go: the workflow definitions, which are tasks of the type workflow, and the end
-- of a run.
pub mod Finished
pub mod Removed
use paihuo.Prelude.{
  ℕ, suc, ◌+◌, String, Bool, true, false, ◌&&◌, ◌||◌, not, Option, none, some, List, [], ◌∷◌, ◌==◌,
  ltb, if◌then◌else◌, any, elem, refers, keep, is_some,
}
use paihuo.Model.{Task, zero_task}
use paihuo.Model.Words.{adopted, TaskType, workflow, type_is}
use paihuo.Store.Db.{
  Db, Edge, Error, revision_conflict, no_rows, constraint, runs_active, invalid_status, Result, ok,
  err, require, ◌>>=◌, ◌>>◌, get_task, update_one,
}
use paihuo.Store.Db.Rows.{find_where, exists_row, update_rows, delete_rows}
use paihuo.Store.Insert.{ref_ok}
use paihuo.Store.Create.{create_task}
use paihuo.Store.Delete.{references, restricts, drop_edges}
use paihuo.Workflow.Spec.{Spec}
use paihuo.Store.Workflows.{RunStatus, created, running, succeeded, failed, cancelled, Run, Base}

-- `spec` of the row `i`.
abbrev pub set_spec : ℕ → Spec → (ℕ → Option Spec) → ℕ → Option Spec
set_spec i spec specs j = if i == j then some spec else specs j

-- `CreateWorkflowTask`.
abbrev pub definition_row : Spec → String → Bool → Option ℕ → Task
definition_row spec cron enabled project = record zero_task {
  shape = workflow;
  title = spec.goal;
  body = spec.goal;
  status = adopted;
  project_id = project;
  cron = cron;
  enabled = enabled;
}

unfoldable pub create_workflow_task : ℕ → Spec → String → Bool → Option ℕ → Base → Result (Base × ℕ)
create_workflow_task now spec cron enabled project b =
    create_task now (definition_row spec cron enabled project) b.db >>= λ (r : Db × ℕ).
    ok (record b { db = r.0; specs = set_spec r.1 spec b.specs }, r.1)

-- `GetWorkflowTask`; `AsWorkflow` wants the type.
abbrev pub workflow_row : Option Task → Option Task
workflow_row none = none
workflow_row (some t) = if type_is t.shape workflow then some t else none

unfoldable pub get_workflow_task : ℕ → Db → Option Task
get_workflow_task i db = workflow_row (get_task i db)

-- `UpdateWorkflowTask`.
unfoldable pub update_workflow_task :
    ℕ → ℕ → ℕ → Spec → String → Bool → Option ℕ → Base → Result Base
update_workflow_task now i expected spec cron enabled project b =
    let (db', one) =
      update_one i (λ t. t.revision == expected && type_is t.shape workflow)
        (λ t. record t {
          title = spec.goal;
          body = spec.goal;
          cron = cron;
          enabled = enabled;
          project_id = project;
          updated_at = now;
          revision = t.revision + 1;
        })
        b.db in
    require one revision_conflict
    >> (require (ref_ok b.db.projects project) constraint
        >> ok (record b { db = db'; specs = set_spec i spec b.specs }))

-- `workflow_id=? AND status IN ('created', 'running')`.
abbrev pub is_active : RunStatus → Bool
is_active created = true
is_active running = true
is_active _ = false

abbrev pub active_run : ℕ → Run → Bool
active_run workflow_id r = r.workflow_id == workflow_id && is_active r.status

-- `workflow_run_id IN (SELECT id FROM workflow_runs WHERE workflow_id=?)`.
abbrev pub belongs_to : ℕ → Option ℕ → Run → Bool
belongs_to workflow_id run r = r.workflow_id == workflow_id && refers run r.id

abbrev pub in_runs : ℕ → List Run → Task → Bool
in_runs workflow_id runs t = any (belongs_to workflow_id t.workflow_run_id) runs

-- `UPDATE tasks SET workflow_run_id=NULL, … WHERE` that.
unfoldable pub unlink_runs : ℕ → ℕ → Base → Base
unlink_runs now workflow_id b = record b {
  db = record b.db {
    tasks =
        update_rows (in_runs workflow_id b.runs)
          (λ t. record t { workflow_run_id = none; updated_at = now }) b.db.tasks;
  };
}

-- `DELETE FROM workflow_runs WHERE workflow_id=?`: `ON DELETE CASCADE` takes the tasks that still name one
-- of the runs with it.
unfoldable pub delete_runs : ℕ → Base → Base
delete_runs workflow_id b = record b {
  db = record b.db {
    tasks = delete_rows (in_runs workflow_id b.runs) b.db.tasks;
    runs = keep (λ i. not (any (belongs_to workflow_id (some i)) b.runs)) b.db.runs;
  };
  runs = keep (λ r. not (r.workflow_id == workflow_id)) b.runs;
}

-- `DELETE FROM tasks WHERE id=? AND revision=? AND type=?`, under the foreign keys of the tasks, the edges
-- and the runs.
abbrev pub definition_at : ℕ → ℕ → Task → Bool
definition_at i expected t = t.id == i && (t.revision == expected && type_is t.shape workflow)

unfoldable pub delete_definition : ℕ → ℕ → Base → Result Base
delete_definition i expected b =
    if exists_row (definition_at i expected) b.db.tasks
      && (exists_row (references i) b.db.tasks
          || (any (restricts i) b.db.edges || any (λ r. r.workflow_id == i) b.runs))
    then err constraint
    else ok (record b {
      db = record b.db {
        tasks = delete_rows (definition_at i expected) b.db.tasks;
        edges =
            if exists_row (definition_at i expected) b.db.tasks
            then drop_edges i b.db.edges
            else b.db.edges;
      };
    })

-- `DeleteWorkflowTask`.
abbrev pub check_revision : ℕ → Option Task → Result (Unit {0})
check_revision expected none = err no_rows
check_revision expected (some t) = require (t.revision == expected) revision_conflict

unfoldable pub delete_workflow_task : ℕ → ℕ → ℕ → Base → Result Base
delete_workflow_task now i expected b =
    check_revision expected (find_where (λ t. t.id == i && type_is t.shape workflow) b.db.tasks)
    >> (require (not (any (active_run i) b.runs)) runs_active
        >> delete_definition i expected (delete_runs i (unlink_runs now i b)))

-- `FinishWorkflowRun`.
abbrev pub is_end : RunStatus → Bool
is_end succeeded = true
is_end failed = true
is_end cancelled = true
is_end _ = false

abbrev pub is_running : RunStatus → Bool
is_running running = true
is_running _ = false

abbrev pub run_at : ℕ → ℕ → Run → Bool
run_at run expected r = r.id == run && (r.revision == expected && is_running r.status)

unfoldable pub update_runs : (Run → Bool) → (Run → Run) → List Run → List Run
update_runs p f [] = []
update_runs p f (r ∷ rs) = (if p r then f r else r) ∷ update_runs p f rs

unfoldable pub count_runs : (Run → Bool) → List Run → ℕ
count_runs p [] = 0
count_runs p (r ∷ rs) = let rest = count_runs p rs in if p r then suc rest else rest

unfoldable pub finish_workflow_run : ℕ → ℕ → ℕ → RunStatus → List Run → Result (List Run)
finish_workflow_run now run expected status runs =
    require (is_end status) invalid_status
    >> (require (count_runs (run_at run expected) runs == 1) revision_conflict
        >> ok (
            update_runs (run_at run expected)
              (λ r. record r { status = status; finished_at = some now; revision = r.revision + 1 })
              runs))

-- `ListActiveWorkflowRuns`; the rows stand in the order of their ids.
unfoldable pub list_active_workflow_runs : List Run → List Run
list_active_workflow_runs runs = keep (λ r. is_running r.status) runs
