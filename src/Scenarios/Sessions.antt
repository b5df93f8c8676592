-- ===== src/Scenarios/Sessions.antt =====
-- Two sessions of one role: one is active, one has been created.
use paihuo.Prelude.{ℕ, ◌+◌, ◌≡◌, refl, true, false, some, [], ◌∷◌, arith, elem, keep, not, ◌==◌}
use paihuo.Model.{Task, Role, zero_task, concurrency_limit}
use paihuo.Model.Words.{Status, active, created, suspended, delivered, deleted, full, session}
use paihuo.Store.Db.Rows.{find, count_rows, UniqueIds}
use paihuo.Exec.Slots.{reserve_role_slot, release_role_slot}
use paihuo.Exec.Slots.Accounts.{of_role}
use paihuo.Session.{
  Manager, load_session, role_of, can_transition, start, suspend, delete, handle_exit, refused,
  not_written,
}
use paihuo.Store.Roles.{find_role}
use paihuo.Session.Deliver.{Request, deliver}
use paihuo.Session.Rows.{holders}
use paihuo.Session.Balance.{Balanced}
use paihuo.Session.Events.{starts, happen, Staffed, happen-Balanced}
use paihuo.Session.Moves.{Moved, manager-Moved}
use paihuo.Session.Leaks.{delete-Balanced, delete-leak, start-unsaved}
use paihuo.Session.Handover.{deliver-leak}
use paihuo.Scenarios.{queue}

abbrev talk : ℕ → Status → Task
talk i status = record zero_task {
  id = i;
  shape = session;
  status = status;
  perm = full;
  role_id = some 5;
  project_id = some 1;
  revision = 1;
}

abbrev guide : ℕ → Role
guide limit = record {
  id = 5;
  max_concurrency = limit;
  delegation_enabled = false;
  delegation_max_perm = full;
  enabled = true;
}

abbrev desk : ℕ → Status → Manager
desk limit status = record {
  world = record {
    db = record queue {
      tasks = talk 1 active ∷ (talk 2 status ∷ []);
      last_id = 2;
      roles = guide limit ∷ [];
    };
    slots = record {
      active = λ r. holders (record queue { tasks = talk 1 active ∷ (talk 2 status ∷ []) }) r;
      active_proj = λ p. 0;
      active_runs = λ r. 0;
    };
    running = [];
  };
  procs = 1 ∷ [];
}

desk_unique : (limit : ℕ) (status : Status) → UniqueIds (desk limit status).world.db.tasks
desk_unique limit status = (((λ e. absurd (omega arith)), tt), (tt, tt))

desk-Balanced : (limit : ℕ) (status : Status) → Balanced (desk limit status)
unfolding count_rows
desk-Balanced limit status = record {
  by_role = λ r. omega arith;
  by_project = λ p. refl;
  by_run = λ r. refl;
}

desk_one : (limit : ℕ) → load_session 1 (desk limit created) ≡ some (talk 1 active)
unfolding load_session find
desk_one limit = refl

desk_two : (limit : ℕ) (status : Status) → load_session 2 (desk limit status) ≡ some (talk 2 status)
unfolding load_session find
desk_two limit status = refl

desk_role : (limit : ℕ) (status : Status) → role_of (desk limit status) 5 ≡ some (guide limit)
unfolding find_role
desk_role limit status = refl

desk-Staffed : Staffed (desk 2 created)
unfolding load_session find find_role
desk-Staffed i t h = (5, guide 2, ground arith, refl)

happen-Balanced_example : Balanced (happen 9 (starts true true 2) (desk 2 created))
happen-Balanced_example =
    happen-Balanced 9 (starts true true 2) (desk 2 created) (desk_unique 2 created) desk-Staffed
      (desk-Balanced 2 created)

manager-Moved_example :
    Moved (desk 2 created).world.db (start true true true 9 2 (desk 2 created)).0.world.db
    × Moved (desk 2 created).world.db (suspend true 9 2 (desk 2 created)).0.world.db
    × Moved (desk 2 created).world.db (delete true 9 2 (desk 2 created)).0.world.db
    × Moved (desk 2 created).world.db (handle_exit true 9 2 (desk 2 created)).world.db
manager-Moved_example = manager-Moved 9 2 (desk 2 created) true true true

delete-Balanced_example : Balanced (delete true 9 1 (desk 1 created)).0
delete-Balanced_example =
    delete-Balanced 9 1 (desk 1 created) (desk_one 1) 5 refl (desk_role 1 created) refl
      (desk_unique 1 created) (desk-Balanced 1 created)

created_goes : can_transition created deleted ≡ true
unfolding can_transition
created_goes = refl

desk_full : (desk 1 created).world.slots.active 5 ≡ 1
unfolding count_rows
desk_full = refl

delete-leak_example :
    ((delete true 9 2 (desk 1 created)).0.world.slots.active 5 + 1
      ≡ holders (delete true 9 2 (desk 1 created)).0.world.db 5
        + count_rows (of_role 5) (delete true 9 2 (desk 1 created)).0.world.running)
    × ((reserve_role_slot 5 1 (delete true 9 2 (desk 1 created)).0.world.slots).1 ≡ true)
delete-leak_example =
    delete-leak 9 2 (desk 1 created) (desk_two 1 created) 5 refl (desk_role 1 created) 1
      created_goes refl (desk_unique 1 created) (desk-Balanced 1 created) desk_full

created_starts : can_transition created active ≡ true
unfolding can_transition
created_starts = refl

desk_room :
    (reserve_role_slot 5 (concurrency_limit (guide 2)) (desk 2 created).world.slots).1 ≡ true
unfolding reserve_role_slot concurrency_limit count_rows
desk_room = refl

start-unsaved_example :
    ((start true true false 9 2 (desk 2 created)).1 ≡ refused not_written)
    × ((start true true false 9 2 (desk 2 created)).0.world.db ≡ (desk 2 created).world.db)
    × (elem 2 (start true true false 9 2 (desk 2 created)).0.procs ≡ false)
    × ((start true true false 9 2 (desk 2 created)).0.world.slots.active 5
        ≡ (desk 2 created).world.slots.active 5 + 1)
start-unsaved_example =
    start-unsaved 9 2 (desk 2 created) (desk_two 2 created) 5 refl (desk_role 2 created)
      created_starts refl desk_room

-- The delivery of the active session, which has a channel, and of a suspended one.
abbrev request : Request
request = record {
  title = "work";
  body = "";
  summary = "a session's work";
  dir = "";
  merge_title = "";
  merge_body = "";
  message = "";
  perm = full;
}

active_goes : can_transition active delivered ≡ true
unfolding can_transition
active_goes = refl

suspended_goes : can_transition suspended delivered ≡ true
unfolding can_transition
suspended_goes = refl

desk_busy : (desk 1 suspended).world.slots.active 5 ≡ 1
unfolding count_rows
desk_busy = refl

deliver-leak_example :
    (elem 1 (deliver true true 9 request 1 (desk 1 created)).0.procs ≡ false)
    × ((deliver true true 9 request 1 (desk 1 created)).0.procs
        ≡ keep (λ j. not (j == 1)) (desk 1 created).procs)
    × ((deliver true true 9 request 1 (desk 1 created)).0.world.slots
        ≡ release_role_slot 5 (desk 1 created).world.slots)
    × ((reserve_role_slot 5 1 (deliver true true 9 request 1 (desk 1 created)).0.world.slots).1
        ≡ true)
deliver-leak_example =
    deliver-leak true true 9 1 request (desk 1 created) (desk_one 1) 5 refl (desk_role 1 created) 1
      refl refl active_goes desk_full

suspended_leak :
    (reserve_role_slot 5 1 (deliver true true 9 request 2 (desk 1 suspended)).0.world.slots).1
    ≡ true
suspended_leak =
    (deliver-leak true true 9 2 request (desk 1 suspended) (desk_two 1 suspended) 5 refl
      (desk_role 1 suspended) 1 refl refl suspended_goes desk_busy).3
