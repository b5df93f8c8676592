-- ===== src/Session/Events.antt =====
-- What may happen to a session of internal/session/manager.go while it is not given up: it starts, it is
-- suspended, its channel ends.
use paihuo.Prelude.{ℕ, ◌≡◌, refl, Bool, true, Option, none, some, if-cases, elem}
use paihuo.Model.{Task, Role}
use paihuo.Model.Words.{Status, active, suspended, status_is}
use paihuo.Store.Db.{update_one}
use paihuo.Store.Db.Rows.{UniqueIds}
use paihuo.Store.Order.{update_task}
use paihuo.Session.{
  Manager, Answer, can_transition, load_session, role_of, stop_channel, write_status, start_session,
  start, leave_session, suspend, exit_session, handle_exit,
}
use paihuo.Session.Rows.{find_role-id}
use paihuo.Session.Balance.{Balanced, start_as-Balanced, left_behind, leave_as-Balanced}

-- An event, with what the calls outside answer; the writes to the database succeed.
pub data Event : Type 0 where
  starts : Bool → Bool → ℕ → Event
  suspends : ℕ → Event
  exits : ℕ → Event

unfoldable pub happen : ℕ → Event → Manager → Manager
happen now (starts structured opened i) m = (start structured opened true now i m).0
happen now (suspends i) m = (suspend true now i m).0
happen now (exits i) m = handle_exit true now i m

-- Each session has a role, and the role is there.
abbrev pub Staffed : Manager → Type 0
Staffed m =
    (i : ℕ) (t : Task)
    → load_session i m ≡ some t
    → (r : ℕ) × (a : Role) × (t.role_id ≡ some r) × (role_of m r ≡ some a)

can_transition-active : (s : Status) → can_transition s suspended ≡ true → status_is s active ≡ true
unfolding can_transition
can_transition-active active h = refl
can_transition-active _ h = cc

module _ (now i : ℕ) (m : Manager) (unique : UniqueIds m.world.db.tasks) (staffed : Staffed m)
    (balanced : Balanced m) where
  start_session-Balanced :
      (structured opened : Bool) (o : Option Task)
      → load_session i m ≡ o
      → Balanced (start_session structured opened true now i m o).0
  start_session-Balanced structured opened none e = balanced
  start_session-Balanced structured opened (some t) e =
      let (r, a, has, there) = staffed i t e in
      if-cases (λ (p : Manager × Answer). Balanced p.0) (can_transition t.status active)
        (λ can. rw has (
          start_as-Balanced now i m unique e r has balanced structured opened can (role_of m r)
            refl))
        (λ cannot. balanced)

  suspend_session-Balanced :
      (o : Option Task) → load_session i m ≡ o → Balanced (leave_session suspended true now i m o).0
  suspend_session-Balanced none e = balanced
  suspend_session-Balanced (some t) e =
      let (r, a, has, there) = staffed i t e in
      if-cases (λ (p : Manager × Answer). Balanced p.0) (can_transition t.status suspended)
        (λ can. rw has (
          leave_as-Balanced now i m unique e r has balanced suspended
            (can_transition-active t.status can) refl a there))
        (λ cannot. balanced)

  exit_session-Balanced :
      (o : Option Task)
      → load_session i m ≡ o
      → Balanced (exit_session true now i (stop_channel i m) o)
  unfolding stop_channel write_status update_task update_one
  exit_session-Balanced none e = balanced
  exit_session-Balanced (some t) e =
      let (r, a, has, there) = staffed i t e in
      if-cases Balanced (status_is t.status active)
        (λ busy.
          rw (has, there)
            (left_behind now i m unique e r has balanced suspended busy refl a.id
              (find_role-id r m.world.db.roles there)))
        (λ idle. balanced)

-- If the slots of each role are those of its running tasks and active sessions, they still are after a
-- session is started (whether or not its role is enabled, has room, and its channel opens), suspended or
-- ended by its channel, the writes to the database succeeding. Task ids are unique, and each session has
-- a role that is there.
pub happen-Balanced :
    (now : ℕ) (e : Event) (m : Manager)
    → UniqueIds m.world.db.tasks
    → Staffed m
    → Balanced m
    → Balanced (happen now e m)
unfolding happen start suspend handle_exit stop_channel
happen-Balanced now (starts structured opened i) m unique staffed balanced =
    start_session-Balanced now i m unique staffed balanced structured opened (load_session i m) refl
happen-Balanced now (suspends i) m unique staffed balanced =
    suspend_session-Balanced now i m unique staffed balanced (load_session i m) refl
happen-Balanced now (exits i) m unique staffed balanced =
    if-cases Balanced (elem i m.procs)
      (λ there. exit_session-Balanced now i m unique staffed balanced (load_session i m) refl)
      (λ gone. balanced)
