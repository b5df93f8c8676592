-- ===== src/Scenarios/Services.antt =====
-- Definitions and runs through the service: one is created and started, one is deleted, a run ends.
use paihuo.Prelude.{ℕ, true, none, some, List, [], ◌∷◌, ◌≡◌, refl, arith}
use paihuo.Model.{zero_task}
use paihuo.Model.Words.{queued, adopted, TaskType}
use text.Mathlib.Text.{◌==◌ as str_eq}
use paihuo.Store.Db.{revision_conflict, Result, ok, err}
use paihuo.Store.Insert.Laws.{IsKeyed}
use paihuo.Store.Workflows.{RunStatus, Run, Base}
use paihuo.Store.Definitions.{delete_workflow_task, finish_workflow_run}
use paihuo.Store.Definitions.Removed.{Removed, delete_workflow_task-Removed}
use paihuo.Store.Definitions.Finished.{finish_workflow_run-once}
use paihuo.Application.Workflows.{
  Service, Reply, reply, policy_of, spec_defaults, create_workflow, start_plan,
}
use paihuo.Application.Workflows.Verdict.{Judged, run_status-Judged}
use paihuo.Application.Workflows.Checked.{create_workflow-start_plan}
use paihuo.Workflow.Policy.Admitted.{Admitted}
use paihuo.Workflow.Policy.Nodes.{ids, ids-Lists}
use paihuo.Scenarios.Plans.{plan}
use paihuo.Scenarios.Launches.{base, base-IsKeyed, texts}
use paihuo.Prelude.Signed.{wrap}
use paihuo.Workflow.Text.{is_blank, node_id_matches, dangerous_action, invalid_reference}
use paihuo.Workflow.Depth.{graph_depth, visit_node, visit_nodes, scan_targets, set_mark}
use paihuo.Workflow.Policy.{
  default_policy, node_graph, find_node, validate, check_spec, check_limits, check_nodes,
  check_node, check_role, check_capabilities, check_actions, check_refs, total_budget,
  check_all_dependencies, check_dependencies, check_dependency,
}
use paihuo.Store.Roles.{find_role}
use paihuo.Store.Create.{
  create_task, prepare_task_for_insert, assign_next_task_sort_order, insert_task,
  normalize_dependency_mode,
}
use paihuo.Store.Insert.{insert_row, references_ok, clashes, appended}
use paihuo.Store.Db.Rows.{exists_row, find_where, update_rows, delete_rows}
use paihuo.Store.Definitions.{
  create_workflow_task, delete_definition, delete_runs, unlink_runs, count_runs, update_runs,
}
use paihuo.Store.Delete.{drop_edges}
use paihuo.Application.Workflows.{prepare_spec, resolve_role_of}

abbrev service : Service
service = record { runtime = λ role c. str_eq c "batch"; order = λ spec. ids spec.nodes }

abbrev base_of : Reply (Base × ℕ) → Base
base_of (reply r) = r.0
base_of _ = base

abbrev stored_base : Base
stored_base = base_of (create_workflow service 3 plan "" true none base)

created : create_workflow service 3 plan "" true none base ≡ reply (stored_base, 2)
unfolding create_workflow prepare_spec resolve_role_of spec_defaults create_workflow_task find_role
    create_task prepare_task_for_insert assign_next_task_sort_order insert_task
    normalize_dependency_mode insert_row references_ok clashes appended exists_row validate
    graph_depth node_graph find_node visit_node visit_nodes scan_targets set_mark check_spec
    check_limits check_nodes check_node check_role check_capabilities check_actions check_refs
    total_budget check_all_dependencies check_dependencies check_dependency default_policy wrap
    is_blank node_id_matches dangerous_action invalid_reference
created = refl

spec_kept : spec_defaults plan ≡ plan
unfolding spec_defaults
spec_kept = refl

create_workflow-start_plan_example :
    Admitted (policy_of service base.db) (spec_defaults plan)
    × (stored_base.specs 2 ≡ some (spec_defaults plan))
    × (b : Base) × (start_plan service texts 5 2 1 7 "fix it" stored_base ≡ reply (b, 1))
create_workflow-start_plan_example =
    create_workflow-start_plan service texts 3 5 plan "" true none base stored_base 2 7 "/srv/app"
      "fix it" base-IsKeyed tt (ids-Lists (spec_defaults plan).nodes) created
      (λ e. absurd (omega arith)) refl refl

-- A run that has succeeded, with one task, beside a task of no run.
abbrev run : RunStatus → ℕ → Run
run status revision = record {
  id = 1;
  workflow_id = 1;
  project_id = 7;
  task = "";
  status = status;
  task_ids = ("design", 2) ∷ [];
  revision = revision;
  finished_at = none;
}

abbrev old_base : RunStatus → Base
old_base status = record base {
  db = record base.db {
    tasks =
        record zero_task { id = 1; shape = TaskType.workflow; status = adopted; revision = 4 }
        ∷ record zero_task { id = 2; status = queued; workflow_run_id = some 1 }
        ∷ record zero_task { id = 3; status = queued }
        ∷ [];
    last_id = 3;
    runs = 1 ∷ [];
  };
  runs = run status 1 ∷ [];
  last_run = 1;
}

abbrev base_after : Result Base → Base
base_after (ok b) = b
base_after (err e) = base

abbrev cleared : Base
cleared = base_after (delete_workflow_task 9 1 4 (old_base RunStatus.succeeded))

deleted : delete_workflow_task 9 1 4 (old_base RunStatus.succeeded) ≡ ok cleared
unfolding delete_workflow_task delete_definition delete_runs unlink_runs find_where exists_row
    update_rows delete_rows drop_edges
deleted = refl

old-IsKeyed : IsKeyed (old_base RunStatus.succeeded).db
old-IsKeyed = record { unique = omega arith; below = omega arith; positive = omega arith }

delete_workflow_task-Removed_example : Removed 9 1 (old_base RunStatus.succeeded) cleared
delete_workflow_task-Removed_example =
    delete_workflow_task-Removed 9 1 4 (old_base RunStatus.succeeded) cleared old-IsKeyed deleted

abbrev ended_runs : List Run
ended_runs = record (run RunStatus.succeeded 2) { finished_at = some 8 } ∷ []

ended_once :
    finish_workflow_run 8 1 1 RunStatus.succeeded (run RunStatus.running 1 ∷ []) ≡ ok ended_runs
unfolding finish_workflow_run count_runs update_runs
ended_once = refl

finish_workflow_run-once_example :
    finish_workflow_run 9 1 2 RunStatus.failed ended_runs ≡ err revision_conflict
finish_workflow_run-once_example =
    finish_workflow_run-once 8 1 1 RunStatus.succeeded 9 2 RunStatus.failed
      (run RunStatus.running 1 ∷ []) ended_runs (tt, tt) ended_once refl

run_status-Judged_example : Judged (old_base RunStatus.running).db (2 ∷ [])
run_status-Judged_example = run_status-Judged (old_base RunStatus.running).db (2 ∷ [])
