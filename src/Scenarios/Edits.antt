-- ===== src/Scenarios/Edits.antt =====
-- internal/store/task_update.go on the sample queue.
use paihuo.Prelude.{ℕ, ◌≡◌, ◌≢◌, refl, Option, none, some}
use paihuo.Model.{Task}
use paihuo.Model.Words.{strong}
use paihuo.Store.Db.{Db, dependency_update, Result, ok, err, get_task, update_one}
use paihuo.Store.Db.Rows.{exists_row, find, update_rows, count_rows}
use paihuo.Store.Chain.{
  next_of, reaches_from, dependency_reaches, mark, visit, visit_all, graph_of, graph_keys,
  project_graph_acyclic,
}
use paihuo.Store.Create.{valid_dependency_mode, validate_dependency_target}
use paihuo.Store.Edit.{
  number, mode_name, Changes, chosen_project, chosen_mode, chosen_target, settle_strong, settle,
  verify, write_dependency, update_task_at_revision, insert_in_order, project_order, previous_in,
  previous_project_task,
}
use paihuo.Store.Edit.Stale.{revision_of}
use paihuo.Store.Edit.Guarded.{Accepted, update_task_at_revision-Accepted}
use paihuo.Store.Edit.Total.{update_task_at_revision_total}
use paihuo.Scenarios.{queue, queue-IsKeyed}

-- Task 3 is asked to wait for task 1 instead of task 2.
abbrev rewire : ℕ → Changes
rewire d = record {
  dependency_mode = some (mode_name strong);
  depends_on = some (number d);
  project_id = none;
  rest = none;
}

abbrev answer_of : Option (Result Db) → Db
answer_of (some (ok db)) = db
answer_of _ = queue

abbrev after_edit : Db
after_edit = answer_of (update_task_at_revision 9 3 1 (rewire 1) queue)

accepts : update_task_at_revision 9 3 1 (rewire 1) queue ≡ some (ok after_edit)
unfolding update_task_at_revision chosen_project chosen_mode chosen_target settle settle_strong
    write_dependency verify valid_dependency_mode validate_dependency_target find update_one
    update_rows count_rows dependency_reaches reaches_from next_of project_graph_acyclic visit_all
    visit mark graph_of graph_keys exists_row
accepts = refl

-- Task 1 cannot wait for task 3, which waits for it.
refuses_cycle : update_task_at_revision 9 1 1 (rewire 3) queue ≡ some (err dependency_update)
unfolding update_task_at_revision chosen_project chosen_mode chosen_target settle settle_strong
    valid_dependency_mode validate_dependency_target find dependency_reaches reaches_from next_of
refuses_cycle = refl

-- The predecessor of task 3 in the order of its project.
precedes : previous_project_task queue 1 3 ≡ some 2
unfolding previous_project_task project_order insert_in_order previous_in
precedes = refl

other_revision : revision_of (get_task 3 queue) ≢ some 5
unfolding find
other_revision e = cc

update_task_at_revision-Accepted_example :
    (t : Task) × (get_task 3 queue ≡ some t) × Accepted 9 3 1 (rewire 1) t queue after_edit
update_task_at_revision-Accepted_example =
    update_task_at_revision-Accepted 9 3 1 (rewire 1) queue queue-IsKeyed refl accepts

update_task_at_revision_total_example :
    (r : Result Db) × (update_task_at_revision 9 3 1 (rewire 1) queue ≡ some r)
update_task_at_revision_total_example =
    update_task_at_revision_total 9 3 1 (rewire 1) queue queue-IsKeyed
