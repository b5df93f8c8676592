-- ===== src/Exec/Dispatch/Loop.antt =====
-- The life of the executor of internal/exec/executor.go as steps: passes of `dispatch`, ends of tasks, and
-- sessions of internal/session/manager.go that take and give back a slot of their role.
use paihuo.Prelude.{
  ℕ, ◌≤◌, ◌<◌, ◌≡◌, refl, sym, subst, ap, Bool, true, Option, none, some, List, [], arith,
}
use paihuo.Model.{Task}
use paihuo.Store.Db.{Db}
use paihuo.Store.Db.Rows.{count_rows}
use paihuo.Exec.Slots.{Slots, increment, decrement, reserve_role_slot, release_role_slot}
use paihuo.Exec.Slots.Accounts.{Agrees}
use paihuo.Exec.Dispatch.{World, limits_of, nth, remove_at, dispatch, end_run, ended}
use paihuo.Exec.Dispatch.Rule.{board, Sound}
use paihuo.Exec.Dispatch.Admits.{dispatch_tasks-admit_tasks}
use paihuo.Exec.Dispatch.Bounds.{Kept, Serial, alone, admit_tasks-Kept, admit_tasks-Serial}
use paihuo.Exec.Dispatch.Ends.{count_rows-remove_at, end_run-Sound}

-- The executor, and how many sessions hold a slot of each role.
pub record Load : Type 0 where
  pub sessions : ℕ → ℕ
  pub world : World

pub data Step : Load → Load → Type 0 where
  pass :
      (run_limit : ℕ → Option ℕ) (now : ℕ) (queued : List Task) (l : Load)
      → Step l (record l { world = dispatch run_limit now queued l.world })
  ends : (n : ℕ) (l : Load) → Step l (record l { world = end_run n l.world })
  writes : (db : Db) (l : Load) → Step l (record l { world = record (l.world) { db = db } })
  takes :
      (role_id limit : ℕ) (l : Load)
      → (reserve_role_slot role_id limit l.world.slots).1 ≡ true
      → Step l (record {
        sessions = increment l.sessions role_id;
        world = record (l.world) { slots = (reserve_role_slot role_id limit l.world.slots).0 };
      })
  gives :
      (role_id : ℕ) (l : Load)
      → 0 < l.sessions role_id
      → Step l (record {
        sessions = decrement l.sessions role_id;
        world = record (l.world) { slots = release_role_slot role_id l.world.slots };
      })

pub data Steps : Load → Load → Type 0 where
  here : {l : Load} → Steps l l
  next : {a b c : Load} → Step a b → Steps b c → Steps a c

abbrev pub idle : Db → Load
idle db = record {
  sessions = λ r. 0;
  world = record {
    db = db;
    slots = record { active = λ r. 0; active_proj = λ p. 0; active_runs = λ r. 0 };
    running = [];
  };
}

-- A pass of the dispatcher never brings the tasks and sessions of a role above the role's limit, nor the
-- tasks of a run above the run's: after it their number is what it was before, or at most the limit (and
-- at most 1 for a limit below 1). Of a role that is gone or not enabled, and of a run whose limit cannot
-- be read, it starts nothing. The counters must count the tasks that run and the sessions.
pub dispatch-Kept :
    (sessions : ℕ → ℕ) (run_limit : ℕ → Option ℕ) (now : ℕ) (queued : List Task) (w : World)
    → Sound sessions w
    → Kept (limits_of run_limit w.db) sessions w.running (dispatch run_limit now queued w).running
unfolding dispatch
dispatch-Kept sessions run_limit now queued w sound =
    subst (Kept (limits_of run_limit w.db) sessions w.running)
      (sym (
        ap (λ b. b.running)
          (dispatch_tasks-admit_tasks (limits_of run_limit w.db) now queued w sound).0))
      (admit_tasks-Kept (limits_of run_limit w.db) sessions now queued (board w))

abbrev Fine : Load → Type 0
Fine l = Sound l.sessions l.world × Serial l.world.running

fewer :
    (p : Task → Bool) (n : ℕ) (ts : List Task) {tk : Task}
    → nth n ts ≡ some tk
    → count_rows p (remove_at n ts) ≤ count_rows p ts
unfolding count_rows
fewer p n ts {tk = tk} e = ground (arith, count_rows-remove_at p n ts {tk = tk} e)

Serial-end_run : (n : ℕ) (w : World) → Serial w.running → Serial (end_run n w).running
unfolding end_run
Serial-end_run n w s = by (nth n w.running) refl
  where
    by : (o : Option Task) → nth n w.running ≡ o → Serial (ended n w o).running
    by none e = s
    by (some tk) e = λ p. omega (arith, fewer (alone p) n w.running e, s p)

module _ {sessions : ℕ → ℕ} {R P W : List Task} {s : Slots} (a : Agrees sessions R P W s)
    (role_id : ℕ) where
  pub reserve_role_slot-session :
      (limit : ℕ)
      → (reserve_role_slot role_id limit s).1 ≡ true
      → Agrees (increment sessions role_id) R P W (reserve_role_slot role_id limit s).0
  unfolding reserve_role_slot increment
  reserve_role_slot-session limit e = record {
    by_role = λ r. ground (arith, a.by_role r);
    by_project = λ p. ground (arith, a.by_project p);
    by_run = λ r. ground (arith, a.by_run r);
  }

  pub release_role_slot-session :
      0 < sessions role_id → Agrees (decrement sessions role_id) R P W (release_role_slot role_id s)
  unfolding release_role_slot decrement
  release_role_slot-session e = record {
    by_role = λ r. ground (arith, a.by_role r, a.by_role role_id);
    by_project = a.by_project;
    by_run = a.by_run;
  }

Step-Fine : {a b : Load} → Step a b → Fine a → Fine b
unfolding dispatch
Step-Fine (pass run_limit now queued l) h =
    let done = dispatch_tasks-admit_tasks (limits_of run_limit l.world.db) now queued l.world h.0 in
    (
      done.1,
      subst Serial (sym (ap (λ b. b.running) done.0)) (
          admit_tasks-Serial (limits_of run_limit l.world.db) l.sessions now queued (board l.world)
            h.1),
    )
Step-Fine (ends n l) h = (end_run-Sound n l.world h.0, Serial-end_run n l.world h.1)
Step-Fine (writes db l) h = h
Step-Fine (takes role_id limit l e) h = (reserve_role_slot-session h.0 role_id limit e, h.1)
Step-Fine (gives role_id l e) h = (release_role_slot-session h.0 role_id e, h.1)

Steps-Fine : {a b : Load} → Steps a b → Fine a → Fine b
Steps-Fine here h = h
Steps-Fine (next s rest) h = Steps-Fine rest (Step-Fine s h)

-- From a start with nothing running, after any number of passes of the dispatcher, ends of tasks, writes
-- of others to the database, and sessions that take a slot of their role when there is room and give one
-- back that a session holds: the counter of each role is the number of its tasks that run and of its
-- sessions, the counters of projects and of runs are the numbers of their tasks that run, and of a
-- project's tasks that are not concurrent at most one runs.
pub Steps-Serial :
    (db : Db) (l : Load)
    → Steps (idle db) l
    → Sound l.sessions l.world × ((project : ℕ) → count_rows (alone project) l.world.running ≤ 1)
unfolding count_rows
Steps-Serial db l s = Steps-Fine s (
  record { by_role = λ r. omega arith; by_project = λ p. refl; by_run = λ r. refl },
  λ p. omega arith,
)
