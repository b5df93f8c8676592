-- ===== src/Application/Workflows.antt =====
-- internal/application/workflow_service.go: the checks of a workflow definition before it is stored or
-- started, and the state of a run as it follows from the tasks of its nodes. An error is `err` with that
-- of the store, or `refused` for the texts that the service makes itself.
pub mod Checked
pub mod Verdict
use paihuo.Prelude.{
  ℕ, zero, suc, ◌+◌, String, Bool, true, false, ◌&&◌, ◌||◌, not, Option, none, some, List, [], ◌∷◌,
  ◌==◌, ltb, leb, if◌then◌else◌, is_some,
}
use paihuo.Prelude.Signed.{ℤ, pos, negsuc}
use text.Mathlib.Text.{◌==◌ as str_eq}
use mathlib.Core.Option
use paihuo.Model.{Task, Role}
use paihuo.Model.Words.{adopted, queued, cancelled, status_is}
use paihuo.Store.Db.{Db, Error, revision_conflict, no_rows, Result, ok, err, get_task, update_one}
use paihuo.Store.Roles.{find_role}
use paihuo.Store.Delivery.{DependencyCheck, task_delivery_result, check_task_dependency}
use paihuo.Workflow.Spec.{Spec, Limits, Violation}
use paihuo.Workflow.Policy.{RoleCapabilities, Policy, default_policy, validate}
use paihuo.Workflow.Policy.Nodes.{ids}
use paihuo.Store.Workflows.{
  RunStatus, succeeded, failed, Run, TaskIds, Texts, WorkflowTask, Base, instantiate_workflow,
}
use paihuo.Store.Definitions.{
  create_workflow_task, get_workflow_task, update_workflow_task, delete_workflow_task,
  finish_workflow_run, list_active_workflow_runs,
}

-- What the service returns: a value, the error of the store, the violations of the policy, or an error of
-- its own.
pub data Reply {ℓ} (A : Type ℓ) : Type ℓ where
  reply : A → Reply A
  by_store : Error → Reply A
  violates : List Violation → Reply A
  refused : Reply A

abbrev pub and_reply {ℓ κ} : {A : Type ℓ} {B : Type κ} → Reply A → (A → Reply B) → Reply B
and_reply (reply a) go = go a
and_reply (by_store e) go = by_store e
and_reply (violates vs) go = violates vs
and_reply refused go = refused

abbrev pub from_store {ℓ} : {A : Type ℓ} → Result A → Reply A
from_store (ok a) = reply a
from_store (err e) = by_store e

abbrev pub check : Bool → Reply (Unit {0})
check true = reply tt
check false = refused

-- The capabilities of a role's runtime, `GetProject` with the test of its status, and the order in which
-- the ids of the nodes are met by `graphDepth`.
pub record Service : Type 0 where
  pub runtime : ℕ → String → Bool
  pub order : Spec → List String

-- `resolveRole`.
abbrev pub role_capabilities : Service → Option Role → RoleCapabilities
role_capabilities s none = record { exists = false; enabled = false; capabilities = λ c. false }
role_capabilities s (some role) = record {
  exists = true;
  enabled = role.enabled;
  capabilities = s.runtime role.id;
}

unfoldable pub resolve_role_of : Service → Db → ℕ → RoleCapabilities
resolve_role_of s db role_id = role_capabilities s (find_role role_id db.roles)

abbrev pub policy_of : Service → Db → Policy
policy_of s db = default_policy (resolve_role_of s db)

-- The defaults at the head of `prepareSpec`.
abbrev pub or_default : ℤ → ℕ → ℤ
or_default (pos zero) n = pos n
or_default (pos (suc m)) n = pos (suc m)
or_default (negsuc m) n = negsuc m

unfoldable pub spec_defaults : Spec → Spec
spec_defaults spec = record spec {
  version = or_default spec.version 1;
  limits = record spec.limits {
    max_nodes = or_default spec.limits.max_nodes 32;
    max_depth = or_default spec.limits.max_depth 8;
    max_concurrency = or_default spec.limits.max_concurrency 2;
  };
}

-- `len(violations) > 0`; no answer of `graphDepth` is an error, which does not happen.
abbrev pub clean : Option (List Violation) → Reply (Unit {0})
clean none = refused
clean (some []) = reply tt
clean (some (v ∷ vs)) = violates (v ∷ vs)

abbrev pub bound_project : Base → String → Option ℕ → Bool
bound_project b cron none = str_eq cron ""
bound_project b cron (some project) = is_some (b.active_dir project)

-- `prepareSpec`.
unfoldable pub prepare_spec : Service → Base → Spec → String → Option ℕ → Reply Spec
prepare_spec s b spec cron project =
    let spec' = spec_defaults spec in
    and_reply (clean (validate (policy_of s b.db) (s.order spec') spec')) (λ (u : Unit {0}).
      and_reply (check (bound_project b cron project)) (λ (v : Unit {0}). reply spec'))

-- `CreateWorkflow`, with the id of the new definition.
unfoldable pub create_workflow :
    Service → ℕ → Spec → String → Bool → Option ℕ → Base → Reply (Base × ℕ)
create_workflow s now spec cron enabled project b =
    and_reply (prepare_spec s b spec cron project)
      (λ spec'. from_store (create_workflow_task now spec' cron enabled project b))

-- The checks at the head of `UpdateWorkflow`, `DeleteWorkflow` and `StartPlan`.
abbrev pub current_row : ℕ → Option Task → Reply Task
current_row expected none = by_store no_rows
current_row expected (some t) =
    if t.revision == expected then reply t else by_store revision_conflict

unfoldable pub current_workflow : ℕ → ℕ → Db → Reply Task
current_workflow i expected db = current_row expected (get_workflow_task i db)

-- `UpdateWorkflow`.
unfoldable pub update_workflow :
    Service → ℕ → ℕ → ℕ → Spec → String → Bool → Option ℕ → Base → Reply Base
update_workflow s now i expected spec cron enabled project b =
    and_reply (current_workflow i expected b.db) (λ t.
      and_reply (prepare_spec s b spec cron project)
        (λ spec'. from_store (update_workflow_task now i expected spec' cron enabled project b)))

-- `DeleteWorkflow`.
unfoldable pub delete_workflow : ℕ → ℕ → ℕ → Base → Reply Base
delete_workflow now i expected b =
    and_reply (current_workflow i expected b.db)
      (λ t. from_store (delete_workflow_task now i expected b))

-- `specOf`.
abbrev pub spec_at : Option Spec → Reply Spec
spec_at none = refused
spec_at (some spec) = reply spec

abbrev pub workflow_of : Base → Task → WorkflowTask
workflow_of b t = record {
  id = t.id;
  revision = t.revision;
  status = t.status;
  spec = b.specs t.id;
}

-- `StartPlan`, with the id of the new run.
unfoldable pub start_plan : Service → Texts → ℕ → ℕ → ℕ → ℕ → String → Base → Reply (Base × ℕ)
start_plan s x now i expected project task b =
    and_reply (check (not (project == 0))) (λ (u : Unit {0}).
      and_reply (current_workflow i expected b.db) (λ t.
        and_reply (check (status_is t.status adopted)) (λ (v : Unit {0}).
          and_reply (spec_at (b.specs t.id)) (λ spec.
            and_reply (clean (validate (policy_of s b.db) (s.order spec) spec)) (λ (w : Unit {0}).
              from_store (instantiate_workflow x now (workflow_of b t) project task b))))))

-- The loop of `runStatus`, over the ids of the tasks in ascending order, with its three flags. `none` is
-- the return where a query fails.
pub record Flags : Type 0 where
  pub all_terminal : Bool
  pub failed : Bool
  pub blocked : Bool

abbrev pub is_blocked : Option DependencyCheck → Bool
is_blocked none = false
is_blocked (some c) = c.blocked

abbrev pub step_flags : Db → Task → Flags → Bool × Bool → Flags
step_flags db t f (true, true) = f
step_flags db t f (true, false) = record f { failed = true }
step_flags db t f (false, s) = record f {
  all_terminal = false;
  blocked = f.blocked || (status_is t.status queued && is_blocked (check_task_dependency db t));
}

unfoldable pub collect_flags : Db → List ℕ → Flags → Option Flags
collect_flags db [] f = some f
collect_flags db (i ∷ is) f = elim (get_task i db) [
  | none ↦ collect_flags db is (record f { failed = true })
  | some t ↦ elim (task_delivery_result db i) [
    | none ↦ none
    | some r ↦ collect_flags db is (step_flags db t f r)
  ]
]

-- `runStatus`: no status yet, a blocked run, or its end.
pub data RunVerdict : Type 0 where
  undecided blocked_run : RunVerdict
  decided : RunStatus → RunVerdict

abbrev pub verdict_of : Option Flags → RunVerdict
verdict_of none = undecided
verdict_of (some f) =
    if f.blocked
    then blocked_run
    else if not f.all_terminal
    then undecided
    else if f.failed
    then decided failed
    else decided succeeded

unfoldable pub run_status : Db → List ℕ → RunVerdict
run_status db is =
    verdict_of
      (collect_flags db is (record { all_terminal = true; failed = false; blocked = false }))

-- A queued task of a blocked run, as `reconcileRuns` cancels it by `UpdateTask`.
abbrev pub cancel_if_queued : ℕ → ℕ → Db → Option Task → Db
cancel_if_queued now i db none = db
cancel_if_queued now i db (some t) =
    if status_is t.status queued
    then (update_one i (λ u. true)
        (λ u. record u {
          status = cancelled;
          finished_at = some now;
          error = "Workflow 前置节点失败";
          updated_at = now;
          revision = u.revision + 1;
        })
        db).0
    else db

unfoldable pub cancel_queued : ℕ → List ℕ → Db → Db
cancel_queued now [] db = db
cancel_queued now (i ∷ is) db = cancel_queued now is (cancel_if_queued now i db (get_task i db))

-- The ids of the map, and their order in `runStatus`.
abbrev pub run_task_ids : TaskIds → List ℕ
run_task_ids [] = []
run_task_ids ((k, i) ∷ rest) = i ∷ run_task_ids rest

unfoldable pub insert_id : ℕ → List ℕ → List ℕ
insert_id i [] = i ∷ []
insert_id i (j ∷ js) = if leb i j then i ∷ j ∷ js else j ∷ insert_id i js

unfoldable pub sort_ids : List ℕ → List ℕ
sort_ids [] = []
sort_ids (i ∷ is) = insert_id i (sort_ids is)

-- The body of the loop of `reconcileRuns`, where an error of `FinishWorkflowRun` is passed over.
abbrev pub finished_or : List Run → Result (List Run) → List Run
finished_or runs (ok runs') = runs'
finished_or runs (err e) = runs

abbrev pub finish_as : ℕ → Run → RunStatus → Base → Base
finish_as now run status b = record b {
  runs = finished_or b.runs (finish_workflow_run now run.id run.revision status b.runs);
}

abbrev pub settle_run : ℕ → Run → Base → RunVerdict → Base
settle_run now run b undecided = b
settle_run now run b (decided status) = finish_as now run status b
settle_run now run b blocked_run =
    finish_as now run failed (record b { db = cancel_queued now (run_task_ids run.task_ids) b.db })

unfoldable pub reconcile_each : ℕ → List Run → Base → Base
reconcile_each now [] b = b
reconcile_each now (run ∷ rest) b =
    reconcile_each now rest
      (settle_run now run b (run_status b.db (sort_ids (run_task_ids run.task_ids))))

-- `reconcileRuns`.
unfoldable pub reconcile_runs : ℕ → Base → Base
reconcile_runs now b = reconcile_each now (list_active_workflow_runs b.runs) b
