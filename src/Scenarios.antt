-- ===== src/Scenarios.antt =====
-- Small databases on which the theorems are tried; the children run the operations of internal/store
-- on them.
pub mod Plans
pub mod Services
pub mod Launches
pub mod States
pub mod Merges
pub mod Chains
pub mod Trees
pub mod Creation
pub mod Edits
pub mod Orders
pub mod Streams
pub mod Dispatches
pub mod Sessions
pub mod Tokens
pub mod Queues
pub mod Spawns
pub mod Resumes
use paihuo.Prelude.{
  ℕ, ◌<◌, ◌≡◌, ◌≢◌, refl, Bool, true, false, Option, none, some, List, [], ◌∷◌, arith,
}
use paihuo.Model.{Task, zero_task}
use paihuo.Model.Words.{
  Status, queued, claimed, awaiting_review, succeeded, Perm, full, review, Mode, weak, strong,
  batch, task,
}
use paihuo.Store.Db.{Db, Edge}
use paihuo.Store.Db.Rows.{UniqueIds, Fresh}
use paihuo.Store.Insert.Laws.{IsKeyed}

-- An implementation task of project 1.
abbrev pub task_row : ℕ → Status → Perm → Option ℕ → Mode → Task
task_row i status perm depends_on mode = record zero_task {
  id = i;
  shape = task;
  status = status;
  perm = perm;
  run_mode = batch;
  project_id = some 1;
  depends_on = depends_on;
  dependency_mode = mode;
  block_on_failure = true;
  worktree_branch = "task";
  sort_order = i;
  enabled = true;
  revision = 1;
  created_at = i;
  updated_at = i;
}

-- Three tasks in a chain: one waits, one is claimed, one is up for review.
abbrev pub queue : Db
queue = record {
  tasks =
      task_row 1 queued full none weak
      ∷ (task_row 2 claimed full (some 1) strong
          ∷ (task_row 3 awaiting_review review (some 2) strong ∷ []));
  last_id = 3;
  edges = [];
  projects = 1 ∷ [];
  roles = [];
  runs = [];
}

pub queue_unique : UniqueIds queue.tasks
queue_unique = (
  ((λ e. absurd (omega arith)), ((λ e. absurd (omega arith)), tt)),
  (((λ e. absurd (omega arith)), tt), (tt, tt)),
)

pub queue-IsKeyed : IsKeyed queue
queue-IsKeyed = record {
  unique = queue_unique;
  below = (omega arith, (omega arith, (omega arith, tt)));
  positive = (
    (λ e. absurd (omega arith)),
    ((λ e. absurd (omega arith)), ((λ e. absurd (omega arith)), tt)),
  );
}
