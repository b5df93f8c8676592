-- ===== src/Session/Moves.antt =====
-- The statuses that `Start`, `Suspend`, `Delete` and `handleExit` of internal/session/manager.go write,
-- against the table of session.go.
use paihuo.Prelude.{
  some-eq, ℕ, ◌≡◌, refl, sym, ap, ◌∙◌, subst, ==→≡, ◌⊎◌, inl, inr, Bool, true, false, ◌&&◌, Option,
  none, some, arith, if-cases, if◌then◌else◌, ◌==◌, elem,
}
use paihuo.Model.{Task, Role, concurrency_limit}
use paihuo.Model.Words.{Status, active, suspended, deleted, unknown, status_is, session, type_is}
use paihuo.Store.Db.{Db, get_task, update_one}
use paihuo.Store.Db.Rows.{find-update_rows, find-id, changed}
use paihuo.Store.Order.{stamped, update_task}
use paihuo.Exec.Slots.{Slots, reserve_role_slot}
use paihuo.Session.{
  Manager, Answer, can_transition, load_session, role_of, stop_channel, write_status, activate,
  open_channel, if_reserved, start_as, start_of, start_session, start, finish, with_db, set_status,
  release_agent, leave_as, leave_session, suspend, delete, exited, exit_session, handle_exit,
}
use paihuo.Session.Rows.{load_session-parts}
use paihuo.Session.Balance.{row_written}

-- Each row of `after` is a row of `before` whose status is the same, or has moved along the table.
abbrev pub Moved : Db → Db → Type 0
Moved before after =
    (j : ℕ) (u : Task)
    → get_task j after ≡ some u
    → (t : Task) × (get_task j before ≡ some t)
      × ((u.status ≡ t.status)
          ⊎ ((type_is t.shape session ≡ true) × (can_transition t.status u.status ≡ true)))

Moved-refl : (db : Db) → Moved db db
Moved-refl db j u e = (u, e, inl refl)

picked :
    (b : Bool) {x y u : Task}
    → some (if b && true then x else y) ≡ some u
    → ((b ≡ true) × (u ≡ x)) ⊎ (u ≡ y)
picked true {x = x} {u = u} h = inl (refl, ground arith)
picked false {y = y} {u = u} h = inr (ground arith)

-- A write of a session's row that its status allows.
row_written-Moved :
    (now i : ℕ) (f : Task → Task) (db : Db) {t : Task}
    → get_task i db ≡ some t
    → type_is t.shape session ≡ true
    → can_transition t.status (f t).status ≡ true
    → Moved db (row_written now i f db)
row_written-Moved now i f db {t = t} found shape can j u e =
    by (get_task j db) refl
      (sym (find-update_rows (λ v. v.id == i && true) (stamped now f) (λ v. refl) j db.tasks) ∙ e)
  where
    allowed :
        (v : Task)
        → get_task j db ≡ some v
        → v.id == i ≡ true
        → u ≡ stamped now f v
        → (type_is v.shape session ≡ true) × (can_transition v.status u.status ≡ true)
    allowed v d same up =
        let at =
          subst (λ k. get_task k db ≡ some v) (sym (find-id j db.tasks d) ∙ ==→≡ v.id i same) d in
        subst
          (λ (x : Task).
            (type_is x.shape session ≡ true) × (can_transition x.status u.status ≡ true))
          (some-eq (sym found ∙ at))
          (
            shape,
            ap (can_transition t.status) (
                  ap (λ (x : Task). x.status) up
                  ∙ ap (λ (x : Task). (f x).status) (some-eq (sym at ∙ found)))
                ∙ can,
          )

    by :
        (o : Option Task)
        → get_task j db ≡ o
        → changed (λ v. v.id == i && true) (stamped now f) o ≡ some u
        → (v : Task) × (get_task j db ≡ some v)
          × ((u.status ≡ v.status)
              ⊎ ((type_is v.shape session ≡ true) × (can_transition v.status u.status ≡ true)))
    by none d h = cc
    by (some v) d h = (
      v,
      d,
      elim (picked (v.id == i) h) [
        | inl both ↦ inr (allowed v d both.0 both.1)
        | inr same ↦ inl (ap (λ (x : Task). x.status) same)
      ],
    )

active-suspended : (s : Status) → status_is s active ≡ true → can_transition s suspended ≡ true
unfolding can_transition
active-suspended active h = refl
active-suspended (unknown n) h = absurd (ground arith)
active-suspended _ h = cc

module _ (now i : ℕ) (m : Manager) where
  abbrev Fair : Manager → Type 0
  Fair m2 = Moved m.world.db m2.world.db

  module _ {t : Task} (loaded : load_session i m ≡ some t) where
    written_fair :
        (to : Status) (f : Task → Task)
        → ((u : Task) → (f u).status ≡ to)
        → can_transition t.status to ≡ true
        → Moved m.world.db (row_written now i f m.world.db)
    written_fair to f sets can =
        let parts = load_session-parts i m loaded in
        row_written-Moved now i f m.world.db parts.0 parts.1
          (ap (can_transition t.status) (sets t) ∙ can)

    open_channel-Moved :
        (structured opened written : Bool) (agent : Role) (s : Slots)
        → can_transition t.status active ≡ true
        → Fair
            (open_channel structured opened written now i agent
              (record m { world = record (m.world) { slots = s } })).0
    unfolding write_status update_task update_one stop_channel
    open_channel-Moved false opened written agent s can = Moved-refl m.world.db
    open_channel-Moved true false written agent s can = Moved-refl m.world.db
    open_channel-Moved true true false agent s can = Moved-refl m.world.db
    open_channel-Moved true true true agent s can =
        written_fair active (activate now) (λ u. refl) can

    if_reserved-Moved :
        (structured opened written : Bool) (agent : Role) (p : Slots × Bool)
        → can_transition t.status active ≡ true
        → Fair (if_reserved structured opened written now i agent m p).0
    if_reserved-Moved structured opened written agent (s, false) can = Moved-refl m.world.db
    if_reserved-Moved structured opened written agent (s, true) can =
        open_channel-Moved structured opened written agent s can

    start_of-Moved :
        (structured opened written : Bool) (o : Option ℕ)
        → can_transition t.status active ≡ true
        → Fair (start_of structured opened written now i m o).0
    start_of-Moved structured opened written none can = Moved-refl m.world.db
    start_of-Moved structured opened written (some r) can = by (role_of m r)
      where
        by : (o : Option Role) → Fair (start_as structured opened written now i m o).0
        by none = Moved-refl m.world.db
        by (some agent) =
            if-cases (λ (p : Manager × Answer). Fair p.0) agent.enabled
              (λ on.
                if_reserved-Moved structured opened written agent
                  (reserve_role_slot agent.id (concurrency_limit agent) m.world.slots) can)
              (λ off. Moved-refl m.world.db)

    leave_as-Moved :
        (to : Status) (written : Bool) (o : Option ℕ)
        → can_transition t.status to ≡ true
        → Fair (leave_as to written now i (stop_channel i m) o).0
    unfolding write_status update_task update_one stop_channel
    leave_as-Moved to written none can = Moved-refl m.world.db
    leave_as-Moved to written (some r) can = by written (role_of m r)
      where
        by :
            (b : Bool) (o : Option Role)
            → Fair
                (finish (release_agent o (stop_channel i m)) (
                  write_status b now i
                    (set_status to)
                    (release_agent o (stop_channel i m)).world.db)).0
        by false none = Moved-refl m.world.db
        by false (some agent) = Moved-refl m.world.db
        by true none = written_fair to (set_status to) (λ u. refl) can
        by true (some agent) = written_fair to (set_status to) (λ u. refl) can

    exited-Moved :
        (written : Bool) (o : Option ℕ)
        → status_is t.status active ≡ true
        → Fair (
            exited o
              (stop_channel i m)
              (write_status written now i (set_status suspended) m.world.db))
    unfolding write_status update_task update_one stop_channel
    exited-Moved false o busy = Moved-refl m.world.db
    exited-Moved true none busy =
        written_fair suspended (set_status suspended) (λ u. refl) (active-suspended t.status busy)
    exited-Moved true (some r) busy = by (role_of m r)
      where
        by :
            (o : Option Role)
            → Fair (
                release_agent o (
                  with_db (row_written now i (set_status suspended) m.world.db) (stop_channel i m)))
        by none =
            written_fair suspended (set_status suspended) (λ u. refl)
              (active-suspended t.status busy)
        by (some agent) =
            written_fair suspended (set_status suspended) (λ u. refl)
              (active-suspended t.status busy)

  start_session-Moved :
      (structured opened written : Bool) (o : Option Task)
      → load_session i m ≡ o
      → Fair (start_session structured opened written now i m o).0
  start_session-Moved structured opened written none e = Moved-refl m.world.db
  start_session-Moved structured opened written (some t) e =
      if-cases (λ (p : Manager × Answer). Fair p.0) (can_transition t.status active)
        (λ can. start_of-Moved e structured opened written t.role_id can)
        (λ cannot. Moved-refl m.world.db)

  leave_session-Moved :
      (to : Status) (written : Bool) (o : Option Task)
      → load_session i m ≡ o
      → Fair (leave_session to written now i m o).0
  leave_session-Moved to written none e = Moved-refl m.world.db
  leave_session-Moved to written (some t) e =
      if-cases (λ (p : Manager × Answer). Fair p.0) (can_transition t.status to)
        (λ can. leave_as-Moved e to written t.role_id can) (λ cannot. Moved-refl m.world.db)

  exit_session-Moved :
      (written : Bool) (o : Option Task)
      → load_session i m ≡ o
      → Fair (exit_session written now i (stop_channel i m) o)
  unfolding stop_channel
  exit_session-Moved written none e = Moved-refl m.world.db
  exit_session-Moved written (some t) e =
      if-cases Fair (status_is t.status active) (λ busy. exited-Moved e written t.role_id busy)
        (λ idle. Moved-refl m.world.db)

  -- Whatever the calls outside answer, starting, suspending or deleting a session, and the end of its
  -- channel, leave each row of the database its status or move it, in the row of a session, along the
  -- transition table.
  pub manager-Moved :
      (structured opened written : Bool)
      → Moved m.world.db (start structured opened written now i m).0.world.db
        × Moved m.world.db (suspend written now i m).0.world.db
        × Moved m.world.db (delete written now i m).0.world.db
        × Moved m.world.db (handle_exit written now i m).world.db
  unfolding start suspend delete handle_exit stop_channel
  manager-Moved structured opened written = (
    start_session-Moved structured opened written (load_session i m) refl,
    leave_session-Moved suspended written (load_session i m) refl,
    leave_session-Moved deleted written (load_session i m) refl,
    if-cases Fair (elem i m.procs) (λ there. exit_session-Moved written (load_session i m) refl)
        (λ gone. Moved-refl m.world.db),
  )
