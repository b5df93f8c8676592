-- ===== src/Scenarios/Resumes.antt =====
-- A failed task is resumed by hand.
use paihuo.Prelude.{ℕ, ◌+◌, ◌≡◌, ◌≢◌, refl, true, none, some, [], ◌∷◌, ◌==◌, is_some}
use paihuo.Model.{Task}
use paihuo.Model.Words.{queued, failed, succeeded, full, weak}
use paihuo.Store.Db.{Db, get_task, update_one}
use paihuo.Store.Db.Rows.{find, count_rows}
use paihuo.Store.State.{is_terminal, resume_task}
use paihuo.Application.Transitions.{
  Done, done, failed_with, conflict, task_at_revision, source_has_or_needs_merge, validate_requeue,
  resume,
}
use paihuo.Application.Transitions.Resumed.{Unmerged, resume-Unmerged}
use paihuo.Scenarios.{queue, task_row}

abbrev stopped : Db
stopped = record queue {
  tasks =
      record (task_row 1 failed full none weak) { role_id = some 5 }
      ∷ (record (task_row 2 succeeded full none weak) { role_id = some 5 } ∷ []);
}

abbrev db_of : Done Db → Db
db_of (done db) = db
db_of (failed_with e) = queue

abbrev back : Db
back = db_of (resume 9 1 1 stopped)

resumes : resume 9 1 1 stopped ≡ done back
unfolding resume task_at_revision find validate_requeue resume_task update_one count_rows
resumes = refl

-- The second task has succeeded on a branch.
not_resumed : resume 9 2 1 stopped ≡ failed_with conflict
unfolding resume task_at_revision find validate_requeue source_has_or_needs_merge
not_resumed = refl

resume-Unmerged_example :
    (t : Task) × (get_task 1 stopped ≡ some t)
    × ((t.revision == 1) ≡ true)
    × (is_terminal t.status ≡ true)
    × (is_some t.role_id ≡ true)
    × Unmerged stopped t
    × (u : Task) × (get_task 1 back ≡ some u)
    × (u.status ≡ queued)
    × (u.revision ≡ t.revision + 1)
    × ((j : ℕ) → j ≢ 1 → get_task j back ≡ get_task j stopped)
resume-Unmerged_example = resume-Unmerged 9 1 1 stopped resumes
