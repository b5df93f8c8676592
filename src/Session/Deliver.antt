-- ===== src/Session/Deliver.antt =====
-- `Create` and `Deliver` of internal/session/manager.go: a session begins as a row of its own, and ends as
-- the source of a task that its work is merged from.
use paihuo.Prelude.{
  ℕ, String, Bool, true, false, ◌&&◌, ◌||◌, Option, none, some, if◌then◌else◌, elem, is_some,
}
use text.Mathlib.Text.{◌==◌ as str_eq}
use paihuo.Model.{Task, Role, zero_task, new_merge_task}
use paihuo.Model.Words.{
  queued, awaiting_review, succeeded, failed, created, delivered, Perm, full, review, perm_is,
  batch, session,
}
use paihuo.Store.Db.{Db, Result, ok, err, get_task}
use paihuo.Store.Create.{create_task}
use paihuo.Store.Merge.{deliver_task_and_create_merge}
use paihuo.Store.Order.{update_task}
use paihuo.Exec.Slots.{release_role_slot}
use paihuo.Session.{
  Manager, Reason, not_found, invalid_transition, role_missing, no_project, not_created,
  not_snapshotted, not_merged, not_written, bad_perm, crashed, with_slots, with_db, load_session,
  role_of, stop_channel, write_status, can_transition,
}

-- The answer: the id of the new task, or why there is none.
pub data Delivery : Type 0 where
  task_made : ℕ → Delivery
  gave_up : Reason → Delivery

-- `if perm == "" { perm = PermFull }`.
abbrev pub perm_or_full : Perm → Perm
perm_or_full perm = if perm_is perm Perm.unset then full else perm

abbrev pub perm_known : Perm → Bool
perm_known perm = perm_is perm full || perm_is perm review

-- The row of a new session; `CreateSessionTask` makes its type `session`.
abbrev pub new_session : Option ℕ → ℕ → String → Perm → Task
new_session project role_id title perm = record zero_task {
  shape = session;
  project_id = project;
  role_id = some role_id;
  title = title;
  status = created;
  perm = perm;
}

abbrev pub has_project : Manager → Option ℕ → Bool
has_project m none = true
has_project m (some project) = elem project m.world.db.projects

-- What the directory of the session turns out to be: its branch, or a failure.
abbrev pub written_row : ℕ → Manager → Option Db → Manager × Delivery
written_row i m none = (m, gave_up not_written)
written_row i m (some db) = (with_db db m, task_made i)

abbrev pub placed : Bool → ℕ → ℕ → Option String → Manager → Manager × Delivery
placed written now i none m = (m, gave_up not_created)
placed written now i (some branch) m =
    written_row i m
      (write_status written now i (λ t. record t { worktree_branch = branch }) m.world.db)

abbrev pub created_row :
    Bool → ℕ → (ℕ → Option String) → Manager → Result (Db × ℕ) → Manager × Delivery
created_row written now place m (err e) = (m, gave_up not_created)
created_row written now place m (ok (db, i)) = placed written now i (place i) (with_db db m)

abbrev pub create_as :
    Bool
    → Bool
    → ℕ
    → (ℕ → Option String)
    → Option ℕ
    → Perm
    → ℕ
    → String
    → Manager
    → Option Role
    → Manager × Delivery
create_as structured written now place project perm role_id title m none = (m, gave_up role_missing)
create_as structured written now place project perm role_id title m (some agent) =
    if has_project m project
    then (if agent.enabled && structured
        then created_row written now place m
            (create_task now (new_session project role_id title perm) m.world.db)
        else (m, gave_up not_created))
    else (m, gave_up no_project)

-- `Create`: `place` is what `EnsureSessionWorktree` answers for an id, `title` the name of the role.
unfoldable pub create :
    Bool
    → Bool
    → ℕ
    → (ℕ → Option String)
    → Option ℕ
    → ℕ
    → String
    → Perm
    → Manager
    → Manager × Delivery
create structured written now place project role_id title perm m =
    if perm_known (perm_or_full perm)
    then create_as structured written now place project (perm_or_full perm) role_id title m
        (role_of m role_id)
    else (m, gave_up bad_perm)

-- What a delivery is asked to make, and the texts that it fills in.
pub record Request : Type 0 where
  pub title : String
  pub body : String
  pub summary : String
  pub dir : String
  pub merge_title : String
  pub merge_body : String
  pub message : String
  pub perm : Perm

-- The new task; a review starts with its first round done, a session without a branch is finished.
abbrev pub base_row : Request → Perm → Role → Task → Task
base_row q perm agent ss = record zero_task {
  title = q.title;
  body = if str_eq q.body "" then q.summary else q.body;
  status = queued;
  perm = perm;
  run_mode = batch;
  role_id = some agent.id;
  project_id = ss.project_id;
  project_dir = q.dir;
  session_id = some ss.id;
  worktree_branch = ss.worktree_branch;
}

unfoldable pub delivered_row : ℕ → Request → Perm → Role → Task → Task
delivered_row now q perm agent ss =
    if perm_is perm review
    then record (base_row q perm agent ss) {
      status = awaiting_review;
      review_rounds = 1;
      finished_at = some now;
      exit_code = some 0;
    }
    else (if str_eq ss.worktree_branch ""
        then record (base_row q perm agent ss) { status = succeeded; finished_at = some now }
        else base_row q perm agent ss)

-- The last write, of the session.
abbrev pub archived : ℕ → Manager → Option Db → Manager × Delivery
archived task_id m none = (m, gave_up not_written)
archived task_id m (some db) = (with_db db m, task_made task_id)

abbrev pub archive : Bool → ℕ → ℕ → ℕ → Manager → Manager × Delivery
archive written now i task_id m =
    archived task_id m
      (write_status written now i (λ t. record t { status = delivered }) m.world.db)

-- `_ = UpdateTask(taskID, failed)`.
abbrev pub or_same : Db → Result Db → Db
or_same db (ok db2) = db2
or_same db (err e) = db

abbrev pub fail_task : ℕ → Request → ℕ → Manager → Manager
fail_task now q task_id m =
    with_db
      (or_same m.world.db (
        update_task now task_id none
          (some (λ t. record t { status = failed; finished_at = some now; error = q.message }))
          m.world.db))
      m

abbrev pub merged : Bool → ℕ → Request → ℕ → ℕ → Manager → Result (Db × ℕ) → Manager × Delivery
merged written now q i task_id m (err e) = (fail_task now q task_id m, gave_up not_merged)
merged written now q i task_id m (ok (db, merge_id)) = archive written now i task_id (with_db db m)

abbrev pub snapshotted :
    Bool → ℕ → Request → Perm → ℕ → ℕ → Task → Manager → Bool → Manager × Delivery
snapshotted written now q perm i task_id source m false =
    (fail_task now q task_id m, gave_up not_snapshotted)
snapshotted written now q perm i task_id source m true =
    if perm_is perm full
    then merged written now q i task_id m (
        deliver_task_and_create_merge now task_id (new_merge_task q.merge_title q.merge_body source)
          m.world.db)
    else archive written now i task_id m

abbrev pub reread :
    Bool → Bool → ℕ → Request → Perm → ℕ → ℕ → Manager → Option Task → Manager × Delivery
reread snapshot written now q perm i task_id m none = (m, gave_up not_created)
reread snapshot written now q perm i task_id m (some source) =
    snapshotted written now q perm i task_id source m snapshot

abbrev pub made :
    Bool → Bool → ℕ → Request → Perm → Task → Manager → Result (Db × ℕ) → Manager × Delivery
made snapshot written now q perm ss m (err e) = (m, gave_up not_created)
made snapshot written now q perm ss m (ok (db, task_id)) =
    if str_eq ss.worktree_branch ""
    then archive written now ss.id task_id (with_db db m)
    else reread snapshot written now q perm ss.id task_id (with_db db m) (get_task task_id db)

-- The channel ends and the slot is given back before the task is made.
abbrev pub hand_over : Bool → Bool → ℕ → Request → Perm → Role → Task → Manager → Manager × Delivery
hand_over snapshot written now q perm agent ss m =
    let m2 = with_slots (release_role_slot agent.id) (stop_channel ss.id m) in
    made snapshot written now q perm ss m2
      (create_task now (delivered_row now q perm agent ss) m2.world.db)

abbrev pub deliver_as :
    Bool → Bool → ℕ → Request → Perm → Task → Manager → Option Role → Manager × Delivery
deliver_as snapshot written now q perm ss m none = (m, gave_up role_missing)
deliver_as snapshot written now q perm ss m (some agent) =
    if perm_known perm
    then (if is_some ss.project_id
        then hand_over snapshot written now q perm agent ss m
        else (m, gave_up no_project))
    else (m, gave_up bad_perm)

abbrev pub deliver_of : Bool → Bool → ℕ → Request → Task → Manager → Option ℕ → Manager × Delivery
deliver_of snapshot written now q ss m none = (m, gave_up crashed)
deliver_of snapshot written now q ss m (some r) =
    deliver_as snapshot written now q (perm_or_full q.perm) ss m (role_of m r)

abbrev pub deliver_session : Bool → Bool → ℕ → Request → Manager → Option Task → Manager × Delivery
deliver_session snapshot written now q m none = (m, gave_up not_found)
deliver_session snapshot written now q m (some ss) =
    if can_transition ss.status delivered
    then deliver_of snapshot written now q ss m ss.role_id
    else (m, gave_up invalid_transition)

-- `Deliver`.
unfoldable pub deliver : Bool → Bool → ℕ → Request → ℕ → Manager → Manager × Delivery
deliver snapshot written now q i m = deliver_session snapshot written now q m (load_session i m)
