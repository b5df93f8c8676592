-- ===== src/Session.antt =====
-- internal/session/session.go and internal/session/manager.go: the life of a session, from its creation to
-- its delivery as a task. The channel to the agent's process, git and the file system are outside: whether
-- a call of theirs succeeds is an argument, and so is whether a write to the database succeeds.
pub mod Deliver
pub mod Rows
pub mod Balance
pub mod Events
pub mod Moves
pub mod Leaks
pub mod Handover
use paihuo.Prelude.{
  ℕ, Bool, true, false, ◌&&◌, ◌||◌, not, Option, none, some, List, [], ◌∷◌, ◌==◌, if◌then◌else◌,
  elem, keep,
}
use text.Mathlib.Text.{◌==◌ as str_eq}
use paihuo.Model.{Task, Role, concurrency_limit}
use paihuo.Model.Words.{
  Status, created, active, suspended, delivered, deleted, status_is, session, type_is,
}
use paihuo.Store.Db.{Db, Result, ok, err, get_task}
use paihuo.Store.Order.{update_task}
use paihuo.Store.Roles.{find_role}
use paihuo.Exec.Slots.{Slots, reserve_role_slot, release_role_slot}
use paihuo.Exec.Dispatch.{World}

-- `CanTransition`, of the table `transitions`.
unfoldable pub can_transition : Status → Status → Bool
can_transition created to = status_is to active || status_is to deleted
can_transition active to =
    status_is to suspended || (status_is to delivered || status_is to deleted)
can_transition suspended to =
    status_is to active || (status_is to delivered || status_is to deleted)
can_transition delivered to = status_is to deleted
can_transition _ to = false

-- `Manager`: the executor and its database, and the sessions that have a channel (the keys of `procs`).
pub record Manager : Type 0 where
  pub world : World
  pub procs : List ℕ

-- Why an operation fails; `crashed` is a nil pointer that the code reads.
pub data Reason : Type 0 where
  not_found invalid_transition role_missing role_disabled busy unsupported no_channel not_written :
      Reason
  bad_perm no_project not_created not_snapshotted not_merged crashed : Reason

pub data Answer : Type 0 where
  done : Answer
  refused : Reason → Answer

abbrev pub with_slots : (Slots → Slots) → Manager → Manager
with_slots f m = record m { world = record (m.world) { slots = f m.world.slots } }

abbrev pub with_db : Db → Manager → Manager
with_db db m = record m { world = record (m.world) { db = db } }

-- `GetSessionTask`, and with it `loadSession`.
abbrev pub as_session : Option Task → Option Task
as_session none = none
as_session (some t) = if type_is t.shape session then some t else none

unfoldable pub load_session : ℕ → Manager → Option Task
load_session i m = as_session (get_task i m.world.db)

abbrev pub role_of : Manager → ℕ → Option Role
role_of m i = find_role i m.world.db.roles

-- `detach`, and with it `stopChannel`.
unfoldable pub stop_channel : ℕ → Manager → Manager
stop_channel i m = record m { procs = keep (λ j. not (j == i)) m.procs }

-- `UpdateTask` of the status; `none` is an error of the database.
abbrev pub saved : Result Db → Option Db
saved (ok db) = some db
saved (err e) = none

unfoldable pub write_status : Bool → ℕ → ℕ → (Task → Task) → Db → Option Db
write_status false now i change db = none
write_status true now i change db = saved (update_task now i none (some change) db)

abbrev pub finish : Manager → Option Db → Manager × Answer
finish m none = (m, refused not_written)
finish m (some db) = (with_db db m, done)

-- `Start`: `structured` is whether the role's runtime has sessions, `opened` whether `startChannel` succeeds.
abbrev pub started : ℕ → Manager → Option Db → Manager × Answer
started i m none = (stop_channel i m, refused not_written)
started i m (some db) = (with_db db m, done)

abbrev pub activate : ℕ → Task → Task
activate now t = record t { status = active; started_at = some now }

abbrev pub open_channel : Bool → Bool → Bool → ℕ → ℕ → Role → Manager → Manager × Answer
open_channel false opened written now i agent m =
    (with_slots (release_role_slot agent.id) m, refused unsupported)
open_channel true false written now i agent m =
    (with_slots (release_role_slot agent.id) m, refused no_channel)
open_channel true true written now i agent m =
    started i (record m { procs = i ∷ m.procs })
      (write_status written now i (activate now) m.world.db)

abbrev pub if_reserved :
    Bool → Bool → Bool → ℕ → ℕ → Role → Manager → Slots × Bool → Manager × Answer
if_reserved structured opened written now i agent m (s, false) = (m, refused busy)
if_reserved structured opened written now i agent m (s, true) =
    open_channel structured opened written now i agent (with_slots (λ old. s) m)

abbrev pub start_as : Bool → Bool → Bool → ℕ → ℕ → Manager → Option Role → Manager × Answer
start_as structured opened written now i m none = (m, refused role_missing)
start_as structured opened written now i m (some agent) =
    if agent.enabled
    then if_reserved structured opened written now i agent m
        (reserve_role_slot agent.id (concurrency_limit agent) m.world.slots)
    else (m, refused role_disabled)

abbrev pub start_of : Bool → Bool → Bool → ℕ → ℕ → Manager → Option ℕ → Manager × Answer
start_of structured opened written now i m none = (m, refused crashed)
start_of structured opened written now i m (some r) =
    start_as structured opened written now i m (role_of m r)

abbrev pub start_session : Bool → Bool → Bool → ℕ → ℕ → Manager → Option Task → Manager × Answer
start_session structured opened written now i m none = (m, refused not_found)
start_session structured opened written now i m (some t) =
    if can_transition t.status active
    then start_of structured opened written now i m t.role_id
    else (m, refused invalid_transition)

unfoldable pub start : Bool → Bool → Bool → ℕ → ℕ → Manager → Manager × Answer
start structured opened written now i m =
    start_session structured opened written now i m (load_session i m)

-- `if agent, err := GetRole(…); err == nil { ReleaseRoleSlot(agent.ID) }`.
abbrev pub release_agent : Option Role → Manager → Manager
release_agent none m = m
release_agent (some agent) m = with_slots (release_role_slot agent.id) m

abbrev pub set_status : Status → Task → Task
set_status s t = record t { status = s }

-- `Suspend` and `Delete`: stop the channel, give the slot back, write the status.
abbrev pub leave_as : Status → Bool → ℕ → ℕ → Manager → Option ℕ → Manager × Answer
leave_as to written now i m none = (m, refused crashed)
leave_as to written now i m (some r) =
    let m2 = release_agent (role_of m r) m in
    finish m2 (write_status written now i (set_status to) m2.world.db)

abbrev pub leave_session : Status → Bool → ℕ → ℕ → Manager → Option Task → Manager × Answer
leave_session to written now i m none = (m, refused not_found)
leave_session to written now i m (some t) =
    if can_transition t.status to
    then leave_as to written now i (stop_channel i m) t.role_id
    else (m, refused invalid_transition)

unfoldable pub suspend : Bool → ℕ → ℕ → Manager → Manager × Answer
suspend written now i m = leave_session suspended written now i m (load_session i m)

unfoldable pub delete : Bool → ℕ → ℕ → Manager → Manager × Answer
delete written now i m = leave_session deleted written now i m (load_session i m)

-- `handleExit`: the channel has ended by itself. A session without a role would end the process here;
-- `Create` gives each one.
abbrev pub release_of : Option ℕ → Manager → Manager
release_of none m = m
release_of (some r) m = release_agent (role_of m r) m

abbrev pub exited : Option ℕ → Manager → Option Db → Manager
exited role m none = m
exited role m (some db) = release_of role (with_db db m)

abbrev pub exit_session : Bool → ℕ → ℕ → Manager → Option Task → Manager
exit_session written now i m none = m
exit_session written now i m (some t) =
    if status_is t.status active
    then exited t.role_id m (write_status written now i (set_status suspended) m.world.db)
    else m

unfoldable pub handle_exit : Bool → ℕ → ℕ → Manager → Manager
handle_exit written now i m =
    if elem i m.procs then exit_session written now i (stop_channel i m) (load_session i m) else m

-- `Recover`, over the rows that `ListSessionTasks` selects, in their stored order. `written` says for
-- which of them the write succeeds.
abbrev pub recovered : Manager → Option Db → Manager
recovered m none = m
recovered m (some db) = with_db db m

abbrev pub is_left_active : Task → Bool
is_left_active t = type_is t.shape session && (str_eq t.cron "" && status_is t.status active)

unfoldable pub recover_each : (ℕ → Bool) → ℕ → List Task → Manager → Manager
recover_each written now [] m = m
recover_each written now (t ∷ ts) m = recover_each written now ts (
    if is_left_active t
    then recovered m (write_status (written t.id) now t.id (set_status suspended) m.world.db)
    else m)

unfoldable pub recover : (ℕ → Bool) → ℕ → Manager → Manager
recover written now m = recover_each written now m.world.db.tasks m
