-- ===== src/Session/Balance.antt =====
-- The slots of roles that the sessions of internal/session/manager.go hold, against the rows of the
-- sessions.
use paihuo.Prelude.{
  ℕ, ◌<◌, ◌≡◌, refl, sym, ap, subst, Bool, true, false, ◌&&◌, Option, none, some, List, arith, ◌==◌,
  if-cases,
}
use paihuo.Model.{Task, Role, concurrency_limit}
use paihuo.Model.Words.{Status, created, active, suspended, delivered, status_is, session, type_is}
use paihuo.Store.Db.{Db, get_task, update_one}
use paihuo.Store.Db.Rows.{update_rows, UniqueIds}
use paihuo.Store.Order.{stamped, update_task}
use paihuo.Exec.Slots.{Slots, increment, decrement, reserve_role_slot, release_role_slot}
use paihuo.Exec.Slots.Accounts.{Agrees}
use paihuo.Exec.Dispatch.Loop.{reserve_role_slot-session, release_role_slot-session}
use paihuo.Exec.Dispatch.Rule.{Sound}
use paihuo.Session.{
  Manager, Answer, can_transition, load_session, role_of, stop_channel, write_status, activate,
  open_channel, if_reserved, start_as, set_status, leave_as,
}
use paihuo.Session.Rows.{holders, holders-update, load_session-parts, find_role-id}

-- Each active session holds one slot of its role, and nothing but active sessions and running tasks does.
abbrev pub Balanced : Manager → Type 0
Balanced m = Sound (holders m.world.db) m.world

Agrees-outside :
    {o o2 : ℕ → ℕ} {R P W : List Task} {s : Slots}
    → ((r : ℕ) → o r ≡ o2 r)
    → Agrees o R P W s
    → Agrees o2 R P W s
Agrees-outside same a = record {
  by_role = λ r. ground (arith, a.by_role r, same r);
  by_project = a.by_project;
  by_run = a.by_run;
}

-- A reservation that is given back.
given_back :
    {o : ℕ → ℕ} {R P W : List Task} {s : Slots} (k : ℕ)
    → Agrees (increment o k) R P W s
    → Agrees o R P W (release_role_slot k s)
unfolding increment decrement
given_back {o = o} k a =
    Agrees-outside (λ r. ground arith) (release_role_slot-session a k (ground arith))

abbrev pub row_written : ℕ → ℕ → (Task → Task) → Db → Db
row_written now i f db = record db {
  tasks = update_rows (λ u. u.id == i && true) (stamped now f) db.tasks;
}

module _ (now i : ℕ) (db : Db) {t : Task} (unique : UniqueIds db.tasks)
    (found : get_task i db ≡ some t) (role : ℕ) (staffed : t.role_id ≡ some role)
    (shape : type_is t.shape session ≡ true) where
  holders-activate :
      status_is t.status active ≡ false
      → (r : ℕ) → increment (holders db) role r ≡ holders (row_written now i (activate now) db) r
  unfolding increment
  holders-activate idle r =
      ground (arith, holders-update now i (activate now) db {t = t} unique found r)

  holders-leave :
      (to : Status)
      → status_is t.status active ≡ true
      → status_is to active ≡ false
      → (r : ℕ) → decrement (holders db) role r ≡ holders (row_written now i (set_status to) db) r
  unfolding decrement
  holders-leave to busy idle r =
      ground (arith, holders-update now i (set_status to) db {t = t} unique found r)

  pub holders-positive : status_is t.status active ≡ true → 0 < holders db role
  holders-positive busy =
      ground (arith, holders-update now i (set_status suspended) db {t = t} unique found role)

can_transition-idle : (s : Status) → can_transition s active ≡ true → status_is s active ≡ false
unfolding can_transition
can_transition-idle created h = refl
can_transition-idle suspended h = refl
can_transition-idle active h = cc
can_transition-idle delivered h = cc
can_transition-idle _ h = cc

module _ (now i : ℕ) (m : Manager) {t : Task} (unique : UniqueIds m.world.db.tasks)
    (loaded : load_session i m ≡ some t) (role : ℕ) (staffed : t.role_id ≡ some role)
    (balanced : Balanced m) where
  activated :
      (agent : Role)
      → agent.id ≡ role
      → can_transition t.status active ≡ true
      → (s : Slots)
      → Agrees
          (increment (holders m.world.db) agent.id)
          m.world.running
          m.world.running
          m.world.running
          s
      → Agrees
          (holders (row_written now i (activate now) m.world.db))
          m.world.running
          m.world.running
          m.world.running
          s
  activated agent e can s a =
      let parts = load_session-parts i m loaded in
      Agrees-outside
        (subst
          (λ k.
            (r : ℕ)
            → increment (holders m.world.db) k r
              ≡ holders (row_written now i (activate now) m.world.db) r)
          (sym e)
          (holders-activate now i m.world.db unique parts.0 role staffed parts.1
            (can_transition-idle t.status can)))
        a

  open_channel-Balanced :
      (structured opened : Bool) (agent : Role) (s : Slots)
      → agent.id ≡ role
      → can_transition t.status active ≡ true
      → Agrees
          (increment (holders m.world.db) agent.id)
          m.world.running
          m.world.running
          m.world.running
          s
      → Balanced
          (open_channel structured opened true now i agent
            (record m { world = record (m.world) { slots = s } })).0
  unfolding write_status update_task update_one
  open_channel-Balanced false opened agent s e can a = given_back agent.id a
  open_channel-Balanced true false agent s e can a = given_back agent.id a
  open_channel-Balanced true true agent s e can a = activated agent e can s a

  if_reserved-Balanced :
      (structured opened : Bool) (agent : Role)
      → agent.id ≡ role
      → can_transition t.status active ≡ true
      → (p : Slots × Bool) → reserve_role_slot agent.id (concurrency_limit agent) m.world.slots ≡ p
      → Balanced (if_reserved structured opened true now i agent m p).0
  if_reserved-Balanced structured opened agent e can (s, false) h = balanced
  if_reserved-Balanced structured opened agent e can (s, true) h =
      open_channel-Balanced structured opened agent s e can (
        subst
          (λ (x : Slots).
            Agrees (increment (holders m.world.db) agent.id) m.world.running m.world.running
              m.world.running x)
          (ap (λ p. p.0) h)
          (reserve_role_slot-session balanced agent.id (concurrency_limit agent) (ap (λ p. p.1) h)))

  pub start_as-Balanced :
      (structured opened : Bool)
      → can_transition t.status active ≡ true
      → (o : Option Role) → role_of m role ≡ o
      → Balanced (start_as structured opened true now i m o).0
  start_as-Balanced structured opened can none e = balanced
  start_as-Balanced structured opened can (some agent) e =
      if-cases (λ (p : Manager × Answer). Balanced p.0) agent.enabled
        (λ on.
          if_reserved-Balanced structured opened agent (find_role-id role m.world.db.roles e) can
            (reserve_role_slot agent.id (concurrency_limit agent) m.world.slots) refl)
        (λ off. balanced)

  pub left_behind :
      (to : Status)
      → status_is t.status active ≡ true
      → status_is to active ≡ false
      → (k : ℕ) → k ≡ role
      → Agrees
          (holders (row_written now i (set_status to) m.world.db))
          m.world.running
          m.world.running
          m.world.running
          (release_role_slot k m.world.slots)
  left_behind to busy idle k e =
      let parts = load_session-parts i m loaded in
      subst
        (λ k.
          Agrees (holders (row_written now i (set_status to) m.world.db)) m.world.running
            m.world.running m.world.running (release_role_slot k m.world.slots))
        (sym e)
        (Agrees-outside
          (holders-leave now i m.world.db unique parts.0 role staffed parts.1 to busy idle)
          (release_role_slot-session balanced role
            (holders-positive now i m.world.db unique parts.0 role staffed parts.1 busy)))

  pub leave_as-Balanced :
      (to : Status)
      → status_is t.status active ≡ true
      → status_is to active ≡ false
      → (agent : Role) → role_of m role ≡ some agent
      → Balanced (leave_as to true now i (stop_channel i m) (some role)).0
  unfolding stop_channel write_status update_task update_one
  leave_as-Balanced to busy idle agent e =
      rw e (left_behind to busy idle agent.id (find_role-id role m.world.db.roles e))
