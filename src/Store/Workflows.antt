-- ===== src/Store/Workflows.antt =====
-- internal/store/workflows.go: the runs of workflow definitions. A run is one row of `workflow_runs` and a
-- queued task for each node of the specification. The table is kept twice: `Db.runs` has the ids, for the
-- foreign key of the tasks, and `runs` the rows.
pub mod Sorted
pub mod Launched
pub mod Apart
pub mod Total
pub mod Startable
pub mod Planted
pub mod Linked
use paihuo.Prelude.{
  ℕ, suc, String, Bool, true, false, ◌&&◌, ◌||◌, not, Option, none, some, List, [], ◌∷◌, ◌++◌, ◌==◌,
  if◌then◌else◌, any, elem, refers, map, keep,
}
use Prim.Native.String.{compare, ◌++◌ as str_append}
use paihuo.Workflow.Text.{codes, contains}
use text.Mathlib.Text.{◌==◌ as str_eq, is_lt}
use paihuo.Prelude.Signed.{ℤ, pos, ltb_ℤ}
use paihuo.Model.{Task, zero_task}
use paihuo.Model.Words.{
  Status, queued, adopted, status_is, Perm, full, review, RunMode, batch, Mode, independent,
  TaskType, workflow, type_is,
}
use paihuo.Store.Db.{
  Db, Edge, Error, revision_conflict, no_rows, constraint, invalid_project, invalid_dependency,
  invalid_spec, Result, ok, err, require, ◌>>=◌, ◌>>◌, get_task,
}
use paihuo.Store.Db.Rows.{exists_row, update_rows, delete_rows}
use paihuo.Store.Create.{prepare_task_for_insert, assign_next_task_sort_order, insert_task}
use paihuo.Workflow.Spec.{Spec, Node}

-- The status of a run; the schema's default is `created`.
pub data RunStatus : Type 0 where
  created running succeeded failed cancelled : RunStatus

-- The map from the ids of the nodes to those of their tasks, the last entry of an id first.
abbrev pub TaskIds : Type 0
TaskIds = List (String × ℕ)

-- `Run`, less its times of creation and start.
pub record Run : Type 0 where
  pub id : ℕ
  pub workflow_id : ℕ
  pub project_id : ℕ
  pub task : String
  pub status : RunStatus
  pub task_ids : TaskIds
  pub revision : ℕ
  pub finished_at : Option ℕ

-- The database with the rows of `workflow_runs`; `active_dir` is the directory of a project that is active,
-- `specs` what the column `spec` of a task decodes to.
pub record Base : Type 0 where
  pub db : Db
  pub runs : List Run
  pub last_run : ℕ
  pub active_dir : ℕ → Option String
  pub specs : ℕ → Option Spec

-- `strings.TrimSpace`, what `text/template` makes of an intent and a task, if it can, and the numbers of
-- the texts that are no permission.
pub record Texts : Type 0 where
  pub trim : String → String
  pub template : String → String → Option String
  pub number : String → ℕ

abbrev pub rendered : String → Option String → String
rendered intent none = intent
rendered intent (some s) = s

-- `RenderIntent` of internal/workflow/render.go.
unfoldable pub render_intent : Texts → String → String → String
render_intent x intent task =
    if contains (codes intent) (codes "{{")
    then rendered intent (x.template intent (x.trim task))
    else if str_eq (x.trim task) ""
    then intent
    else str_append intent (str_append "\n\n自定义任务：" (x.trim task))

-- `WorkflowTask`, with what its text `spec` decodes to.
pub record WorkflowTask : Type 0 where
  pub id : ℕ
  pub revision : ℕ
  pub status : Status
  pub spec : Option Spec

-- What the tasks of one run have in common.
pub record Launch : Type 0 where
  pub run : ℕ
  pub project : ℕ
  pub dir : String
  pub concurrent : Bool
  pub task : String

abbrev pub perm_of : Texts → String → Perm
perm_of x s =
    if str_eq s "full"
    then full
    else if str_eq s "review"
    then review
    else if str_eq s ""
    then Perm.unset
    else Perm.unknown (x.number s)

-- The literal `nodeTask`.
unfoldable pub node_task : Texts → Launch → Node → Task
node_task x l n = record zero_task {
  title = render_intent x n.intent l.task;
  body = render_intent x n.intent l.task;
  status = queued;
  perm = perm_of x n.permission;
  run_mode = batch;
  concurrent = l.concurrent;
  role_id = some n.role.role_id;
  project_id = some l.project;
  project_dir = l.dir;
  workflow_run_id = some l.run;
  dependency_mode = independent;
  block_on_failure = str_eq n.failure_policy "stop";
}

-- `sort.SliceStable`, by the id.
unfoldable pub insert_node : Node → List Node → List Node
insert_node n [] = n ∷ []
insert_node n (m ∷ ms) =
    let rest = insert_node n ms in if is_lt (compare m.id n.id) then m ∷ rest else n ∷ m ∷ ms

unfoldable pub sort_nodes : List Node → List Node
sort_nodes [] = []
sort_nodes (n ∷ ns) = insert_node n (sort_nodes ns)

-- The loop that inserts the tasks.
unfoldable pub insert_nodes : Texts → ℕ → Launch → List Node → TaskIds → Db → Result (Db × TaskIds)
insert_nodes x now l [] ids db = ok (db, ids)
insert_nodes x now l (n ∷ ns) ids db =
    insert_task db (assign_next_task_sort_order db (prepare_task_for_insert now (node_task x l n)))
    >>= λ (r : Db × ℕ). insert_nodes x now l ns ((n.id, r.1) ∷ ids) r.0

unfoldable pub task_id_of : String → TaskIds → Option ℕ
task_id_of id [] = none
task_id_of id ((key, i) ∷ ids) = if str_eq key id then some i else task_id_of id ids

-- A missing key of a Go map reads as zero.
abbrev pub or_zero : Option ℕ → ℕ
or_zero none = 0
or_zero (some i) = i

abbrev pub same_edge : Edge → Edge → Bool
same_edge e f = e.task_id == f.task_id && e.depends_on == f.depends_on

-- INSERT INTO task_dependencies, with the foreign keys, the primary key and the check of the table.
unfoldable pub insert_dependency : Edge → Db → Result Db
insert_dependency e db =
    if exists_row (λ t. t.id == e.task_id) db.tasks
      && (exists_row (λ t. t.id == e.depends_on) db.tasks
          && (not (e.task_id == e.depends_on) && not (any (same_edge e) db.edges)))
    then ok (record db { edges = db.edges ++ e ∷ [] })
    else err constraint

abbrev pub edge_of : TaskIds → Node → ℕ → Edge
edge_of ids n source = record {
  task_id = or_zero (task_id_of n.id ids);
  depends_on = source;
  resume = str_eq n.failure_policy "continue";
}

-- The loop over the dependencies of a node, and that over the nodes.
unfoldable pub link_node : TaskIds → Node → List String → Db → Result Db
link_node ids n [] db = ok db
link_node ids n (d ∷ ds) db = elim (task_id_of d ids) [
  | none ↦ err invalid_dependency
  | some source ↦ insert_dependency (edge_of ids n source) db >>= λ db'. link_node ids n ds db'
]

unfoldable pub link_nodes : TaskIds → List Node → Db → Result Db
link_nodes ids [] db = ok db
link_nodes ids (n ∷ ns) db = link_node ids n n.depends_on db >>= λ db'. link_nodes ids ns db'

-- INSERT INTO workflow_runs, with its foreign keys.
unfoldable pub insert_run : ℕ → ℕ → String → Base → Result Base
insert_run workflow_id project task b =
    if exists_row (λ t. t.id == workflow_id) b.db.tasks && elem project b.db.projects
    then ok (record b {
      db = record b.db { runs = b.db.runs ++ suc b.last_run ∷ [] };
      runs =
          b.runs
          ++ record {
            id = suc b.last_run;
            workflow_id = workflow_id;
            project_id = project;
            task = task;
            status = running;
            task_ids = [];
            revision = 1;
            finished_at = none;
          }
            ∷ [];
      last_run = suc b.last_run;
    })
    else err constraint

-- `UPDATE workflow_runs SET task_ids=? WHERE id=?`.
unfoldable pub set_task_ids : ℕ → TaskIds → List Run → List Run
set_task_ids run ids [] = []
set_task_ids run ids (r ∷ rs) =
    (if r.id == run then record r { task_ids = ids } else r) ∷ set_task_ids run ids rs

abbrev pub decoded : Option Spec → Result Spec
decoded none = err invalid_spec
decoded (some spec) = ok spec

abbrev pub dir_of_project : Option String → Result String
dir_of_project none = err invalid_project
dir_of_project (some dir) = ok dir

-- `SELECT status, revision FROM tasks WHERE id=?`, and the test of both.
abbrev pub still_adopted : WorkflowTask → Option Task → Result (Unit {0})
still_adopted tk none = err no_rows
still_adopted tk (some t) =
    require (status_is t.status adopted && t.revision == tk.revision) revision_conflict

-- The tasks and the edges of the new run, and its row with their ids.
unfoldable pub plant : Texts → ℕ → Launch → Spec → Base → Result Base
plant x now l spec b =
    insert_nodes x now l (sort_nodes spec.nodes) [] b.db >>= λ (r : Db × TaskIds).
    link_nodes r.1 (sort_nodes spec.nodes) r.0 >>= λ db'.
    ok (record b { db = db'; runs = set_task_ids l.run r.1 b.runs })

-- `InstantiateWorkflow`, with the id of the new run: from the insertion of the run on, from the query of
-- the project on, and as a whole.
unfoldable pub launch_run :
    Texts → ℕ → WorkflowTask → ℕ → String → Base → Spec → String → Result (Base × ℕ)
launch_run x now tk project custom b spec dir = insert_run tk.id project (x.trim custom) b >>= λ b'.
    plant x now
      (record {
        run = b'.last_run;
        project = project;
        dir = dir;
        concurrent = ltb_ℤ (pos 1) spec.limits.max_concurrency;
        task = x.trim custom;
      })
      spec b'
    >>= λ b''. ok (b'', b'.last_run)

unfoldable pub launch_in : Texts → ℕ → WorkflowTask → ℕ → String → Base → Spec → Result (Base × ℕ)
launch_in x now tk project custom b spec =
    dir_of_project (b.active_dir project) >>= launch_run x now tk project custom b spec

unfoldable pub instantiate_workflow :
    Texts → ℕ → WorkflowTask → ℕ → String → Base → Result (Base × ℕ)
instantiate_workflow x now tk project custom b =
    still_adopted tk (get_task tk.id b.db)
    >> (decoded tk.spec >>= launch_in x now tk project custom b)
