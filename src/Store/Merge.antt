-- ===== src/Store/Merge.antt =====
-- internal/store/task_merge.go and `EnsureMergeTask` of task_dependency.go: a source task is finished
-- and the one task that merges its code is created, in one transaction.
pub mod Sources
pub mod Inserted
pub mod Once
pub mod Ensure
use paihuo.Prelude.{
  ℕ, suc, ◌+◌, String, Bool, true, false, ◌&&◌, ◌||◌, not, Option, none, some, ◌==◌, if◌then◌else◌,
  refers, is_some,
}
use text.Mathlib.Text.{◌==◌ as str_eq}
use paihuo.Model.{Task, zero_task, new_merge_task}
use paihuo.Model.Words.{queued, succeeded, full, independent, batch, task, status_is}
use paihuo.Store.Db.{
  Db, Error, Result, ok, err, ◌>>=◌, ◌>>◌, require, get_task, no_rows, invalid_source,
  not_mergeable, not_deliverable,
}
use paihuo.Store.Db.Rows.{exists_row, find_where}
use paihuo.Store.Insert.{insert_row}
use paihuo.Store.State.{complete_source, deliver_source, approve_source}

-- `prepareMergeTask`. A time of 0 is the empty text.
unfoldable pub prepare_merge_task : ℕ → ℕ → Task → Task
prepare_merge_task now source_id merge =
    let created = if merge.created_at == 0 then now else merge.created_at in
    record merge {
      parent_id = some source_id;
      merge_of = some source_id;
      status = queued;
      perm = full;
      run_mode = batch;
      concurrent = false;
      depends_on = none;
      dependency_mode = independent;
      schedule_id = none;
      resume_of = none;
      created_at = created;
      updated_at = if merge.updated_at == 0 then created else merge.updated_at;
    }

-- `inheritMergeFailurePolicy`: the policy is the one in the table, not the one in the snapshot.
abbrev pub with_policy : Option Task → Task → Result Task
with_policy none merge = err no_rows
with_policy (some source) merge = ok (record merge { block_on_failure = source.block_on_failure })

unfoldable pub inherit_merge_failure_policy : Db → ℕ → Task → Result Task
inherit_merge_failure_policy db source_id merge = with_policy (get_task source_id db) merge

-- `insertMergeTask`: the columns that the statement names; the others take the schema's defaults.
unfoldable pub insert_merge_task : Db → Task → Result (Db × ℕ)
insert_merge_task db merge = insert_row db (record zero_task {
  shape = task;
  title = merge.title;
  body = merge.body;
  status = merge.status;
  perm = merge.perm;
  run_mode = merge.run_mode;
  concurrent = merge.concurrent;
  role_id = merge.role_id;
  project_id = merge.project_id;
  project_dir = merge.project_dir;
  parent_id = merge.parent_id;
  depends_on = merge.depends_on;
  dependency_mode = merge.dependency_mode;
  block_on_failure = merge.block_on_failure;
  schedule_id = merge.schedule_id;
  resume_of = merge.resume_of;
  merge_of = merge.merge_of;
  session_id = merge.session_id;
  workflow_run_id = merge.workflow_run_id;
  sort_order = merge.sort_order;
  enabled = true;
  created_at = merge.created_at;
  updated_at = merge.updated_at;
})

-- The end that the three transactions share: inherit the policy and insert.
unfoldable pub create_merge : Db → ℕ → Task → Result (Db × ℕ)
create_merge db source_id merge = do
  inherited ← inherit_merge_failure_policy db source_id merge
  insert_merge_task db inherited

-- `CompleteTaskAndCreateMerge`.
unfoldable pub complete_task_and_create_merge : ℕ → ℕ → Task → Db → Result (Db × ℕ)
complete_task_and_create_merge now source_id merge db = do
  let (db', won) = complete_source now source_id db
  require won not_mergeable
  create_merge db' source_id (prepare_merge_task now source_id merge)

-- `DeliverTaskAndCreateMerge`.
unfoldable pub deliver_task_and_create_merge : ℕ → ℕ → Task → Db → Result (Db × ℕ)
deliver_task_and_create_merge now source_id merge db = do
  let (db', won) = deliver_source now source_id db
  require won not_deliverable
  create_merge db' source_id (prepare_merge_task now source_id merge)

-- `ApproveTaskAndCreateMerge`.
unfoldable pub approve_task_and_create_merge : ℕ → ℕ → ℕ → Task → Db → Result (Db × ℕ)
approve_task_and_create_merge now source_id expected merge db = do
  let (db', won) = approve_source now source_id expected db
  require won not_mergeable
  create_merge db' source_id (prepare_merge_task now source_id merge)

-- The condition under which `EnsureMergeTask` still creates a merge task.
abbrev pub eligible : ℕ → Task → Bool
eligible source_id t =
    t.id == source_id
    && (status_is t.status succeeded
        && (not (is_some t.merge_of) && not (str_eq t.worktree_branch "")))

-- `EnsureMergeTask`: the state, the merge task's id, and whether it was created now.
unfoldable pub ensure_merge_task : ℕ → String → String → Task → Db → Result (Db × ℕ × Bool)
ensure_merge_task now title body source db =
    if source.id == 0
    then err invalid_source
    else elim (find_where (λ t. refers t.merge_of source.id) db.tasks) [
      | some existing ↦ ok (db, existing.id, false)
      | none ↦
          if exists_row (eligible source.id) db.tasks
          then (create_merge db source.id
                (prepare_merge_task now source.id (new_merge_task title body source))
              >>= λ r. ok (r.0, r.1, true))
          else err not_mergeable
    ]

-- `HasMergeTaskForSource`.
unfoldable pub has_merge_task_for_source : ℕ → Db → Bool
has_merge_task_for_source source_id db = exists_row (λ t. refers t.merge_of source_id) db.tasks

-- `GetMergeTaskForSource`.
unfoldable pub get_merge_task_for_source : ℕ → Db → Option Task
get_merge_task_for_source source_id db = find_where (λ t. refers t.merge_of source_id) db.tasks
