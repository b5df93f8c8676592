-- ===== src/Application/Transitions.antt =====
-- internal/application/task_transitions.go: what a user may do to a task by hand.
pub mod Resumed
use paihuo.Prelude.{
  ℕ, String, Bool, true, false, ◌&&◌, ◌||◌, not, Option, none, some, ◌==◌, if◌then◌else◌, is_some,
}
use text.Mathlib.Text.{◌==◌ as str_eq}
use paihuo.Model.{Task, new_merge_task}
use paihuo.Model.Words.{
  Status, queued, claimed, running, awaiting_review, succeeded, failed, cancelled, status_is,
}
use paihuo.Store.Db.{Db, Error, revision_conflict, dependency_update, Result, ok, err, get_task}
use paihuo.Store.State.{is_terminal, resume_task, approve_task_deliver}
use paihuo.Store.Merge.{has_merge_task_for_source, approve_task_and_create_merge}

-- `TaskErrorKind`.
pub data TaskError : Type 0 where
  invalid not_found conflict internal stale : TaskError

pub data Done {ℓ} (A : Type ℓ) : Type ℓ where
  done : A → Done A
  failed_with : TaskError → Done A

-- `if !test { return error }`, and `if err != nil { return err }`.
abbrev pub unless {ℓ} : {A : Type ℓ} → Bool → TaskError → Done A → Done A
unless true e next = failed_with e
unless false e next = next

abbrev pub then_do {ℓ κ} : {A : Type ℓ} {B : Type κ} → Done A → (A → Done B) → Done B
then_do (failed_with e) next = failed_with e
then_do (done a) next = next a

-- `canTransitionTask`, of the table `manualTaskTransitions`.
unfoldable pub can_transition_task : Status → Status → Bool
can_transition_task queued to = status_is to cancelled
can_transition_task claimed to = status_is to cancelled
can_transition_task running to = status_is to cancelled
can_transition_task awaiting_review to =
    status_is to queued || (status_is to succeeded || status_is to cancelled)
can_transition_task succeeded to = status_is to queued
can_transition_task failed to = status_is to queued
can_transition_task cancelled to = status_is to queued
can_transition_task _ to = false

-- `taskAtRevision`.
abbrev pub row_at_revision : ℕ → Option Task → Done Task
row_at_revision expected none = failed_with not_found
row_at_revision expected (some t) = unless (not (t.revision == expected)) stale (done t)

unfoldable pub task_at_revision : ℕ → ℕ → Db → Done Task
task_at_revision i expected db = row_at_revision expected (get_task i db)

-- `sourceHasOrNeedsMerge`.
unfoldable pub source_has_or_needs_merge : Db → Task → Bool
source_has_or_needs_merge db t =
    not (is_some t.merge_of)
    && (not (str_eq t.worktree_branch "") || has_merge_task_for_source t.id db)

-- The two tests that `validateRequeue` and `Resume` share.
unfoldable pub validate_requeue : Db → Task → Done (Unit {0})
validate_requeue db t =
    unless
      (status_is t.status succeeded && (not (is_some t.merge_of) && source_has_or_needs_merge db t))
      conflict (unless (status_is t.status succeeded && is_some t.merge_of) conflict (done tt))

-- `ValidateTransition`.
unfoldable pub validate_transition : ℕ → ℕ → Status → Db → Done (Unit {0})
validate_transition i expected target db = then_do (task_at_revision i expected db) (λ t.
    unless (not (can_transition_task t.status target)) invalid
      (if status_is target queued then validate_requeue db t else done tt))

-- `transitionStoreError`.
abbrev pub store_error : Error → TaskError → TaskError
store_error revision_conflict fallback = stale
store_error dependency_update fallback = invalid
store_error _ fallback = fallback

-- `Resume`, less the log and the events.
abbrev pub resumed : Db × Bool → Done Db
resumed (db, true) = done db
resumed (db, false) = failed_with conflict

unfoldable pub resume : ℕ → ℕ → ℕ → Db → Done Db
resume now i expected db = then_do (task_at_revision i expected db) (λ t.
    unless (not (is_some t.role_id)) invalid (
      unless (not (is_terminal t.status)) conflict
        (then_do (validate_requeue db t) (λ u. resumed (resume_task now i expected db)))))

-- What git answers: is the snapshot taken, and has the branch changed (`none`: it cannot tell)?
pub record Git : Type 0 where
  pub snapshot : Bool
  pub changes : Option Bool

abbrev pub unchanged : Option Bool → Bool
unchanged none = false
unchanged (some changed) = not changed

abbrev pub delivered_by : Db × Bool → Done Db
delivered_by (db, true) = done db
delivered_by (db, false) = failed_with conflict

abbrev pub merged_by : Result (Db × ℕ) → Done Db
merged_by (ok (db, merge_id)) = done db
merged_by (err e) = failed_with (store_error e conflict)

-- `Approve`, less the clean-up, the log and the events; `trim` is `strings.TrimSpace`.
unfoldable pub approve : (String → String) → Git → String → String → ℕ → ℕ → ℕ → Db → Done Db
approve trim git title body now i expected db = then_do (task_at_revision i expected db) (λ t.
    unless (not (can_transition_task t.status succeeded)) invalid (
      unless (not (is_some t.role_id)) invalid (
        unless (str_eq (trim t.project_dir) "") invalid (
          unless (not (str_eq t.worktree_branch "") && not git.snapshot) conflict (
            if unchanged git.changes
            then delivered_by (approve_task_deliver now i expected db)
            else merged_by
                (approve_task_and_create_merge now i expected (new_merge_task title body t) db))))))
