-- ===== src/Scenarios/Launches.antt =====
-- A run of the plan of three nodes, for the project 7.
use paihuo.Prelude.{ℕ, true, false, none, some, [], ◌∷◌, ◌≡◌, refl, arith, ◌==◌, if◌then◌else◌}
use paihuo.Model.{Task, Role, zero_task}
use paihuo.Model.Words.{adopted, full, TaskType}
use paihuo.Store.Db.{Result, ok, err}
use paihuo.Store.Db.Rows.{find}
use paihuo.Store.Insert.Laws.{IsKeyed}
use paihuo.Store.Workflows.{Texts, WorkflowTask, Base, Run, RunStatus, instantiate_workflow}
use paihuo.Store.Workflows.Launched.{Launched, instantiate_workflow-Launched}
use paihuo.Store.Workflows.Startable.{CanStart, instantiate_workflow-WellFormed}
use paihuo.Workflow.Policy.{default_policy}
use paihuo.Scenarios.Plans.{plan, policy, batch_role, plan-Admitted}

abbrev definition : Task
definition = record zero_task { id = 1; shape = TaskType.workflow; status = adopted; revision = 1 }

abbrev worker : Role
worker = record {
  id = 1;
  max_concurrency = 2;
  delegation_enabled = false;
  delegation_max_perm = full;
  enabled = true;
}

abbrev pub base : Base
base = record {
  db = record {
    tasks = definition ∷ [];
    last_id = 1;
    edges = [];
    projects = 7 ∷ [];
    roles = worker ∷ [];
    runs = [];
  };
  runs = [];
  last_run = 0;
  active_dir = λ p. if p == 7 then some "/srv/app" else none;
  specs = λ i. if i == 1 then some plan else none;
}

abbrev pub texts : Texts
texts = record { trim = λ s. s; template = λ s t. none; number = λ s. 0 }

abbrev start_task : WorkflowTask
start_task = record { id = 1; revision = 1; status = adopted; spec = some plan }

pub base-IsKeyed : IsKeyed base.db
base-IsKeyed = record {
  unique = (tt, tt);
  below = (omega arith, tt);
  positive = ((λ e. absurd (omega arith)), tt);
}

base-CanStart : CanStart base start_task 7 policy
unfolding find default_policy
base-CanStart = record {
  definition = (definition, refl, refl, refl);
  dir = ("/srv/app", refl);
  project_row = refl;
  roles = (batch_role, refl, λ i h. ground arith);
  keyed = base-IsKeyed;
  edges = tt;
}

instantiate_workflow-WellFormed_example :
    (b' : Base) × (instantiate_workflow texts 5 start_task 7 "fix it" base ≡ ok (b', 1))
instantiate_workflow-WellFormed_example =
    instantiate_workflow-WellFormed texts 5 start_task 7 "fix it" base policy plan refl
      plan-Admitted.formed base-CanStart

-- The same project with a run that has failed before.
abbrev old_run : Run
old_run = record {
  id = 1;
  workflow_id = 1;
  project_id = 7;
  task = "";
  status = RunStatus.failed;
  task_ids = [];
  revision = 2;
  finished_at = some 3;
}

abbrev used : Base
used = record base { db = record base.db { runs = 1 ∷ [] }; runs = old_run ∷ []; last_run = 1 }

used-IsKeyed : IsKeyed used.db
used-IsKeyed = record {
  unique = (tt, tt);
  below = (omega arith, tt);
  positive = ((λ e. absurd (omega arith)), tt);
}

used-CanStart : CanStart used start_task 7 policy
unfolding find default_policy
used-CanStart = record {
  definition = (definition, refl, refl, refl);
  dir = ("/srv/app", refl);
  project_row = refl;
  roles = (batch_role, refl, λ i h. ground arith);
  keyed = used-IsKeyed;
  edges = tt;
}

abbrev base_of : Result (Base × ℕ) → Base
base_of (ok r) = r.0
base_of (err e) = used

abbrev after_start : Base
after_start = base_of (instantiate_workflow texts 5 start_task 7 "fix it" used)

started : instantiate_workflow texts 5 start_task 7 "fix it" used ≡ ok (after_start, 2)
started =
    let (b', e) =
      instantiate_workflow-WellFormed texts 5 start_task 7 "fix it" used policy plan refl
        plan-Admitted.formed used-CanStart in
    rw e refl

instantiate_workflow-Launched_example : Launched texts 5 start_task 7 "fix it" used after_start 2
instantiate_workflow-Launched_example =
    instantiate_workflow-Launched texts 5 start_task 7 "fix it" used plan after_start 2 refl
      (omega arith) used-IsKeyed plan-Admitted.formed.distinct started
