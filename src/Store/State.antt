-- ===== src/Store/State.antt =====
-- internal/store/task_state.go, and the conditional UPDATEs of task_update.go, task_dependency.go and
-- task_merge.go that move one task from a status to the next. Each returns whether one row changed.
pub mod Diagram
pub mod Claims
use paihuo.Prelude.{
  ℕ, ◌+◌, String, Bool, true, false, ◌&&◌, ◌||◌, not, Option, none, some, ◌==◌, is_some,
  if◌then◌else◌,
}
use text.Mathlib.Text.{◌==◌ as str_eq}
use paihuo.Model.{Task}
use paihuo.Model.Words.{
  Status, queued, claimed, running, awaiting_review, succeeded, failed, cancelled, status_is, Perm,
  full, review, perm_is,
}
use paihuo.Store.Db.{Db, update_one}

-- `COALESCE(column, value)`.
abbrev pub coalesce : Option ℕ → ℕ → Option ℕ
coalesce none v = some v
coalesce (some x) v = some x

-- `ClaimTask`: queued -> claimed.
unfoldable pub claim_task : ℕ → ℕ → Db → Db × Bool
claim_task now i =
    update_one i (λ t. status_is t.status queued)
      λ t. record t {
        status = claimed;
        started_at = some now;
        updated_at = now;
        revision = t.revision + 1;
      }

-- `StartTask`: claimed -> running.
unfoldable pub start_task : ℕ → ℕ → Db → Db × Bool
start_task now i =
    update_one i (λ t. status_is t.status claimed)
      λ t. record t {
        status = running;
        started_at = some now;
        updated_at = now;
        revision = t.revision + 1;
      }

abbrev pub is_terminal : Status → Bool
is_terminal s = status_is s succeeded || (status_is s failed || status_is s cancelled)

-- `ResumeTask`: a terminal task goes back to the queue, at the revision that the caller read.
unfoldable pub resume_task : ℕ → ℕ → ℕ → Db → Db × Bool
resume_task now i expected =
    update_one i (λ t. t.revision == expected && is_terminal t.status)
      λ t. record t {
        status = queued;
        started_at = none;
        finished_at = none;
        error = "";
        exit_code = none;
        tmux_log_offset = 0;
        updated_at = now;
        revision = t.revision + 1;
      }

abbrev pub is_executing : Status → Bool
is_executing s = status_is s claimed || status_is s running

-- `MarkTaskSucceededAwaitingMerge`.
unfoldable pub mark_task_succeeded_awaiting_merge : ℕ → ℕ → Db → Db × Bool
mark_task_succeeded_awaiting_merge now i =
    update_one i
      (λ t.
        is_executing t.status
        && (perm_is t.perm full && (not (is_some t.merge_of) && not (str_eq t.worktree_branch ""))))
      λ t. record t {
        status = succeeded;
        finished_at = coalesce t.finished_at now;
        exit_code = some 0;
        error = "";
        updated_at = now;
        revision = t.revision + 1;
      }

-- The UPDATE of `CompleteTaskAndCreateMerge`.
unfoldable pub complete_source : ℕ → ℕ → Db → Db × Bool
complete_source now i =
    update_one i (λ t. is_executing t.status && (perm_is t.perm full && not (is_some t.merge_of)))
      λ t. record t {
        status = succeeded;
        finished_at = some now;
        exit_code = some 0;
        error = "";
        updated_at = now;
        revision = t.revision + 1;
      }

-- The UPDATE of `DeliverTaskAndCreateMerge`.
unfoldable pub deliver_source : ℕ → ℕ → Db → Db × Bool
deliver_source now i =
    update_one i
      (λ t.
        status_is t.status queued
        && (perm_is t.perm full && (not (is_some t.merge_of) && is_some t.session_id)))
      λ t. record t {
        status = succeeded;
        finished_at = some now;
        exit_code = some 0;
        error = "";
        updated_at = now;
        revision = t.revision + 1;
      }

-- The UPDATE of `ApproveTaskAndCreateMerge`.
unfoldable pub approve_source : ℕ → ℕ → ℕ → Db → Db × Bool
approve_source now i expected =
    update_one i
      (λ t. t.revision == expected && (status_is t.status awaiting_review && perm_is t.perm review))
      λ t. record t {
        status = succeeded;
        finished_at = coalesce t.finished_at now;
        exit_code = coalesce t.exit_code 0;
        updated_at = now;
        revision = t.revision + 1;
      }

-- `ApproveTaskDeliver`.
unfoldable pub approve_task_deliver : ℕ → ℕ → ℕ → Db → Db × Bool
approve_task_deliver now i expected =
    update_one i (λ t. t.revision == expected && status_is t.status awaiting_review)
      λ t. record t {
        status = succeeded;
        merge_skipped = true;
        finished_at = coalesce t.finished_at now;
        exit_code = coalesce t.exit_code 0;
        updated_at = now;
        revision = t.revision + 1;
      }
