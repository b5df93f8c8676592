-- ===== src/Session/Leaks.antt =====
-- The slots after `Delete`, and after a `Start` that fails, of internal/session/manager.go.
use paihuo.Prelude.{
  ℕ, ◌+◌, ◌≡◌, refl, sym, ap, ◌∙◌, Bool, true, false, some, List, arith, if◌then◌else◌, ◌==◌, elem,
  keep, not, [], ◌∷◌,
}
use paihuo.Model.{Task, Role, concurrency_limit}
use paihuo.Model.Words.{Status, created, active, suspended, delivered, deleted, unknown, status_is}
use paihuo.Store.Db.{update_one}
use paihuo.Store.Db.Rows.{count_rows, UniqueIds}
use paihuo.Store.Order.{update_task}
use paihuo.Exec.Slots.{
  Slots, increment, decrement, at_least_one, reserve_role_slot, release_role_slot,
}
use paihuo.Exec.Slots.Accounts.{of_role}
use paihuo.Session.{
  Manager, Answer, can_transition, load_session, role_of, stop_channel, write_status, set_status,
  delete, start, start_session, start_of, start_as, if_reserved, refused, not_written,
}
use paihuo.Session.Rows.{holders, holders-update, load_session-parts, find_role-id}
use paihuo.Session.Balance.{Balanced, row_written, left_behind}

if-true {ℓ} : {A : Type ℓ} {b : Bool} {x : A} (y : A) → b ≡ true → (if b then x else y) ≡ x
if-true {b = b} {x = x} y e = ap (λ c. if c then x else y) e

pub elem-keep : (i : ℕ) (js : List ℕ) → elem i (keep (λ j. not (j == i)) js) ≡ false
elem-keep i [] = refl
elem-keep i (j ∷ js) = ground (arith, elem-keep i js)

-- What is left of a deletion, of a session that is there and has a role that is there.
left : ℕ → ℕ → ℕ → Manager → Manager
left now i k m = record (stop_channel i m) {
  world = record (m.world) {
    db = row_written now i (set_status deleted) m.world.db;
    slots = release_role_slot k m.world.slots;
  };
}

active-deleted : (s : Status) → status_is s active ≡ true → can_transition s deleted ≡ true
unfolding can_transition
active-deleted active h = refl
active-deleted delivered h = refl
active-deleted created h = refl
active-deleted suspended h = refl
active-deleted (unknown n) h = absurd (ground arith)
active-deleted _ h = cc

module _ (now i : ℕ) (m : Manager) {t : Task} {agent : Role} (loaded : load_session i m ≡ some t)
    (role : ℕ) (staffed : t.role_id ≡ some role) (there : role_of m role ≡ some agent) where
  delete-left : can_transition t.status deleted ≡ true → (delete true now i m).0 ≡ left now i role m
  unfolding delete stop_channel write_status update_task update_one left
  delete-left can = rw (loaded, can, staffed, there, find_role-id role m.world.db.roles there) refl

  -- Deleting an active session, the write to the database succeeding, keeps the slots of each role those
  -- of its running tasks and active sessions.
  pub delete-Balanced :
      status_is t.status active ≡ true
      → UniqueIds m.world.db.tasks
      → Balanced m
      → Balanced (delete true now i m).0
  unfolding left stop_channel
  delete-Balanced busy unique balanced =
      rw (delete-left (active-deleted t.status busy))
        (left_behind now i m unique loaded role staffed balanced deleted busy refl role refl)

  left-holders :
      status_is t.status active ≡ false
      → UniqueIds m.world.db.tasks
      → holders (left now i role m).world.db role ≡ holders m.world.db role
  unfolding left
  left-holders idle unique =
      let parts = load_session-parts i m loaded in
      ground
        (arith, holders-update now i (set_status deleted) m.world.db {t = t} unique parts.0 role)

  left-slot :
      (limit : ℕ)
      → m.world.slots.active role ≡ at_least_one limit
      → (left now i role m).world.slots.active role + 1 ≡ m.world.slots.active role
  unfolding left release_role_slot decrement
  left-slot limit full = ground arith

  left-opens :
      (limit : ℕ)
      → m.world.slots.active role ≡ at_least_one limit
      → (reserve_role_slot role limit (left now i role m).world.slots).1 ≡ true
  unfolding left release_role_slot decrement reserve_role_slot
  left-opens limit full = ground arith

  -- When the tasks and sessions of a role hold as many slots as its limit, and a session of that role is
  -- deleted that is not active (created, suspended or delivered), the counter of the role is then one
  -- below the number of its running tasks and active sessions, and the next reservation succeeds beyond
  -- the limit. The write to the database succeeds.
  pub delete-leak :
      (limit : ℕ)
      → can_transition t.status deleted ≡ true
      → status_is t.status active ≡ false
      → UniqueIds m.world.db.tasks
      → Balanced m
      → m.world.slots.active role ≡ at_least_one limit
      → ((delete true now i m).0.world.slots.active role + 1
          ≡ holders (delete true now i m).0.world.db role
            + count_rows (of_role role) (delete true now i m).0.world.running)
        × ((reserve_role_slot role limit (delete true now i m).0.world.slots).1 ≡ true)
  unfolding left stop_channel
  delete-leak limit can idle unique balanced full = rw (delete-left can) (
    left-slot limit full
        ∙ balanced.by_role role
        ∙ ap (λ n. n + count_rows (of_role role) m.world.running) (sym (left-holders idle unique)),
    left-opens limit full,
  )

  unsaved : Slots → Manager
  unsaved s =
      stop_channel i (record m { world = record (m.world) { slots = s }; procs = i ∷ m.procs })

  start-refused :
      can_transition t.status active ≡ true
      → agent.enabled ≡ true
      → (reserve_role_slot agent.id (concurrency_limit agent) m.world.slots).1 ≡ true
      → start true true false now i m ≡ (
        unsaved (reserve_role_slot agent.id (concurrency_limit agent) m.world.slots).0,
        refused not_written,
      )
  unfolding start unsaved write_status
  start-refused can on room =
      ap (start_session true true false now i m) loaded
      ∙ if-true _ can
      ∙ ap (start_of true true false now i m) staffed
      ∙ ap (start_as true true false now i m) there
      ∙ if-true _ on
      ∙ by (reserve_role_slot agent.id (concurrency_limit agent) m.world.slots) room
    where
      by :
          (p : Slots × Bool)
          → p.1 ≡ true
          → if_reserved true true false now i agent m p ≡ (unsaved p.0, refused not_written)
      by (s, true) h = refl
      by (s, false) h = cc

  counted :
      agent.id ≡ role
      → (reserve_role_slot agent.id (concurrency_limit agent) m.world.slots).1 ≡ true
      → (unsaved
            (reserve_role_slot agent.id
              (concurrency_limit agent)
              m.world.slots).0).world.slots.active
          role
        ≡ m.world.slots.active role + 1
  unfolding unsaved reserve_role_slot increment stop_channel
  counted e room = ground (arith, e)

  -- When the channel of a session has been opened and the write of its status fails, the session stays as
  -- it was and has no channel, but the slot that was reserved for it is not given back.
  pub start-unsaved :
      can_transition t.status active ≡ true
      → agent.enabled ≡ true
      → (reserve_role_slot agent.id (concurrency_limit agent) m.world.slots).1 ≡ true
      → ((start true true false now i m).1 ≡ refused not_written)
        × ((start true true false now i m).0.world.db ≡ m.world.db)
        × (elem i (start true true false now i m).0.procs ≡ false)
        × ((start true true false now i m).0.world.slots.active role
            ≡ m.world.slots.active role + 1)
  unfolding unsaved stop_channel
  start-unsaved can on room =
      let e = start-refused can on room in
      (
        ap (λ (p : Manager × Answer). p.1) e,
        ap (λ (p : Manager × Answer). p.0.world.db) e,
        ap (λ (p : Manager × Answer). elem i p.0.procs) e ∙ elem-keep i (i ∷ m.procs),
        ap (λ (p : Manager × Answer). p.0.world.slots.active role) e
            ∙ counted (find_role-id role m.world.db.roles there) room,
      )
