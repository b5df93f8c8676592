-- ===== src/Scenarios/Merges.antt =====
-- internal/store/task_merge.go and `EnsureMergeTask` on sample databases.
use paihuo.Prelude.{ℕ, ◌≡◌, refl, Bool, true, false, none, some, [], ◌∷◌, arith}
use paihuo.Model.{Task, new_merge_task}
use paihuo.Model.Words.{queued, claimed, succeeded, full, weak}
use paihuo.Store.Db.{Db, Result, ok, err, update_one}
use paihuo.Store.Db.Rows.{exists_row, find, find_where, update_rows, count_rows}
use paihuo.Store.State.{complete_source, deliver_source, approve_source}
use paihuo.Store.Insert.{insert_row, references_ok, clashes}
use paihuo.Store.Insert.Laws.{IsKeyed}
use paihuo.Store.Merge.{
  prepare_merge_task, inherit_merge_failure_policy, insert_merge_task, create_merge,
  complete_task_and_create_merge, deliver_task_and_create_merge, approve_task_and_create_merge,
  ensure_merge_task,
}
use paihuo.Store.Merge.Sources.{Executing}
use paihuo.Store.Merge.Once.{Merged, complete_task_and_create_merge-Merged}
use paihuo.Store.Merge.Ensure.{ensure_merge_task-once}
use paihuo.Scenarios.{queue, queue-IsKeyed, task_row}

-- The database that a successful call leaves.
abbrev left_by : Result (Db × ℕ) → Db
left_by (ok (db, m)) = db
left_by (err e) = queue

abbrev merge_of_task : ℕ → Task
merge_of_task i = new_merge_task "merge" "branch" (task_row i claimed full none weak)

completes :
    complete_task_and_create_merge 9 2 (merge_of_task 2) queue
    ≡ ok (left_by (complete_task_and_create_merge 9 2 (merge_of_task 2) queue), 4)
unfolding complete_task_and_create_merge complete_source create_merge inherit_merge_failure_policy
    insert_merge_task insert_row prepare_merge_task new_merge_task update_one update_rows count_rows
    find_where exists_row references_ok clashes find
completes = refl

-- A session has handed in its work as task 1, which still waits.
abbrev handed_over : Db
handed_over = record queue {
  tasks = record (task_row 1 queued full none weak) { session_id = some 1 } ∷ [];
}

handed_over-IsKeyed : IsKeyed handed_over
handed_over-IsKeyed = record {
  unique = (tt, tt);
  below = (omega arith, tt);
  positive = ((λ e. absurd (omega arith)), tt);
}

delivers :
    deliver_task_and_create_merge 9 1 (merge_of_task 1) handed_over
    ≡ ok (left_by (deliver_task_and_create_merge 9 1 (merge_of_task 1) handed_over), 4)
unfolding deliver_task_and_create_merge deliver_source create_merge inherit_merge_failure_policy
    insert_merge_task insert_row prepare_merge_task new_merge_task update_one update_rows count_rows
    find_where exists_row references_ok clashes find
delivers = refl

approves :
    approve_task_and_create_merge 9 3 1 (merge_of_task 3) queue
    ≡ ok (left_by (approve_task_and_create_merge 9 3 1 (merge_of_task 3) queue), 4)
unfolding approve_task_and_create_merge approve_source create_merge inherit_merge_failure_policy
    insert_merge_task insert_row prepare_merge_task new_merge_task update_one update_rows count_rows
    find_where exists_row references_ok clashes find
approves = refl

complete_task_and_create_merge-Merged_example :
    Merged Executing 2 4 queue
      (left_by (complete_task_and_create_merge 9 2 (merge_of_task 2) queue))
complete_task_and_create_merge-Merged_example =
    complete_task_and_create_merge-Merged 9 2 (merge_of_task 2) queue queue-IsKeyed completes

-- A source that has succeeded and still lacks its merge task.
abbrev finished : Task
finished = task_row 1 succeeded full none weak

abbrev unmerged : Db
unmerged = record queue { tasks = finished ∷ []; last_id = 1 }

abbrev db_of : Result (Db × ℕ × Bool) → Db
db_of (ok (db, m, b)) = db
db_of (err e) = queue

ensures :
    ensure_merge_task 5 "merge" "branch" finished unmerged
    ≡ ok (db_of (ensure_merge_task 5 "merge" "branch" finished unmerged), 2, true)
unfolding ensure_merge_task create_merge inherit_merge_failure_policy insert_merge_task insert_row
    prepare_merge_task new_merge_task find_where exists_row references_ok clashes find
ensures = refl

ensure_merge_task-once_example :
    ensure_merge_task 6 "again" "branch" finished
      (db_of (ensure_merge_task 5 "merge" "branch" finished unmerged))
    ≡ ok (db_of (ensure_merge_task 5 "merge" "branch" finished unmerged), 2, false)
ensure_merge_task-once_example =
    ensure_merge_task-once 5 6 "merge" "branch" "again" "branch" finished finished unmerged ensures
      refl
