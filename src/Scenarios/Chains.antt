-- ===== src/Scenarios/Chains.antt =====
-- The dependency chain and the scheduling gate of internal/store on sample databases.
use paihuo.Prelude.{ℕ, ◌≡◌, ◌≢◌, ◌↔◌, refl, Bool, true, false, none, some, [], ◌∷◌, arith, inl}
use paihuo.Model.{Task}
use paihuo.Model.Words.{queued, succeeded, full, weak, strong}
use paihuo.Store.Db.{Db, get_task}
use paihuo.Store.Db.Rows.{find, find_where}
use paihuo.Store.Chain.{dependency_reaches, next_of, graph_of, project_graph_acyclic}
use paihuo.Store.Chain.Walk.{Walk, Returns}
use paihuo.Store.Chain.Reaches.{dependency_reaches_iff}
use paihuo.Store.Chain.Acyclic.{project_graph_acyclic_iff}
use paihuo.Store.Delivery.{
  delivery_state_of, DependencyCheck, insert_edge, workflow_dependencies, check_task_dependency,
  check_edges,
}
use paihuo.Store.Delivery.Ready.{
  Delivered, Passed, check_task_dependency-Passed, check_task_dependency-strong,
}
use paihuo.Store.Merge.{get_merge_task_for_source}
use paihuo.Scenarios.{queue, queue-IsKeyed, task_row}

one : ◌≢◌ {A = ℕ} 1 0
one e = absurd (omega arith)

dependency_reaches_iff_example :
    (b : Bool) × (dependency_reaches queue 3 1 ≡ some b) × ((b ≡ true) ↔ Walk (next_of queue) 3 1)
dependency_reaches_iff_example = dependency_reaches_iff queue 3 1 queue-IsKeyed one

project_graph_acyclic_iff_example :
    (b : Bool) × (project_graph_acyclic queue 1 ≡ some b)
    × ((b ≡ true) ↔ ((j : ℕ) → ¬ Returns (graph_of 1 queue.tasks) j))
project_graph_acyclic_iff_example = project_graph_acyclic_iff queue 1

-- Task 2 is a workflow step that waits for task 1, which has succeeded without a branch; task 3 waits for
-- the same task by a strong dependency.
abbrev source : Task
source = record (task_row 1 succeeded full none weak) { worktree_branch = "" }

abbrev steps : Db
steps = record queue {
  tasks =
      source ∷ (task_row 2 queued full none weak ∷ (task_row 3 queued full (some 1) strong ∷ []));
  edges = record { task_id = 2; depends_on = 1; resume = false } ∷ [];
}

abbrev passes_check : DependencyCheck
passes_check = record { ready = true; skipped = false; blocked = false }

step_checked : check_task_dependency steps (task_row 2 queued full none weak) ≡ some passes_check
unfolding check_task_dependency workflow_dependencies insert_edge check_edges delivery_state_of
    get_merge_task_for_source find find_where
step_checked = refl

no_edges : workflow_dependencies 3 steps.edges ≡ []
unfolding workflow_dependencies
no_edges = refl

check_task_dependency-Passed_example :
    Passed steps (record { task_id = 2; depends_on = 1; resume = false })
check_task_dependency-Passed_example =
    check_task_dependency-Passed steps (task_row 2 queued full none weak) refl step_checked refl
      (record { task_id = 2; depends_on = 1; resume = false }) (inl refl) refl

check_task_dependency-strong_example :
    (c : DependencyCheck) × (check_task_dependency steps (task_row 3 queued full (some 1) strong)
      ≡ some c)
    × ((c.ready ≡ true) ↔ ((s : Task) × (get_task 1 steps ≡ some s) × Delivered steps s))
check_task_dependency-strong_example =
    check_task_dependency-strong steps (task_row 3 queued full (some 1) strong) 1 refl no_edges refl
      refl
