-- ===== src/Exec/Dispatch/Bounds.antt =====
-- What the dispatch loop of internal/exec/executor.go keeps of the concurrency limits of roles, of workflow
-- runs and of projects.
use paihuo.Prelude.{
  ℕ, suc, ◌+◌, ◌≤◌, ◌≡◌, refl, sym, subst, ◌∙◌, inl, inr, ◌⊎◌, Bool, true, false, not, ◌&&◌, Option,
  none, some, List, [], ◌∷◌, arith, Bool-cases, refers, ==→≡,
}
use paihuo.Model.{Task}
use paihuo.Store.Db.{Db}
use paihuo.Store.Db.Rows.{count_rows}
use paihuo.Store.State.{claim_task}
use paihuo.Exec.Slots.{at_least_one}
use paihuo.Exec.Slots.Accounts.{of_role, of_project, of_run}
use paihuo.Exec.Dispatch.{PassLimits}
use paihuo.Exec.Dispatch.Rule.{
  Board, below, project_free, room, admits, started, admit_one, admit_tasks,
}

-- A count that a pass has left alone, or has raised no further than to the limit. With no limit (an error
-- of the query, a role that is gone or not enabled) it is left alone.
abbrev pub Held : Option ℕ → ℕ → ℕ → Type 0
Held none before after = after ≡ before
Held (some limit) before after = (after ≡ before) ⊎ (after ≤ at_least_one limit)

Held-trans : (o : Option ℕ) (a b c : ℕ) → Held o a b → Held o b c → Held o a c
Held-trans none a b c h g = g ∙ h
Held-trans (some limit) a b c h g = grind arith

Held-refl : (o : Option ℕ) (a : ℕ) → Held o a a
Held-refl none a = refl
Held-refl (some limit) a = inl refl

Held-suc : (o : Option ℕ) (a : ℕ) → below o a ≡ true → Held o a (suc a)
Held-suc none a h = cc
Held-suc (some limit) a h = inr (ground arith)

Held-added :
    (o : Option ℕ) (b : Bool) (m k : ℕ)
    → (b ≡ true → below o m ≡ true)
    → (b ≡ true → k ≡ suc m)
    → (b ≡ false → k ≡ m)
    → Held o m k
Held-added o true m k h more same =
    subst (λ j. Held o m j) (sym (more refl)) (Held-suc o m (h refl))
Held-added o false m k h more same = subst (λ j. Held o m j) (sym (same refl)) (Held-refl o m)

-- The limits hold between what ran before and what runs after.
pub record Kept (limits : PassLimits) (outside : ℕ → ℕ) (before after : List Task) : Type 0 where
  pub of_roles :
      (r : ℕ)
      → Held
          (limits.roles r)
          (outside r + count_rows (of_role r) before)
          (outside r + count_rows (of_role r) after)
  pub of_runs :
      (r : ℕ) → Held (limits.runs r) (count_rows (of_run r) before) (count_rows (of_run r) after)

-- The tasks of a project that asked to run alone.
abbrev pub alone : ℕ → Task → Bool
alone p t = of_project p t && not t.concurrent

abbrev pub Serial : List Task → Type 0
Serial running = (p : ℕ) → count_rows (alone p) running ≤ 1

alone-of_project : (p : ℕ) (ts : List Task) → count_rows (alone p) ts ≤ count_rows (of_project p) ts
unfolding count_rows
alone-of_project p [] = omega arith
alone-of_project p (t ∷ ts) = ground (arith, alone-of_project p ts)

few : {a b : ℕ} → a ≤ b → b ≡ 0 → suc a ≤ 1
few h e = omega (arith, h, e)

module _ {limits : PassLimits} {outside : ℕ → ℕ} where
  Kept-refl : (ts : List Task) → Kept limits outside ts ts
  Kept-refl ts = record {
    of_roles = λ r. Held-refl (limits.roles r) (outside r + count_rows (of_role r) ts);
    of_runs = λ r. Held-refl (limits.runs r) (count_rows (of_run r) ts);
  }

  Kept-trans :
      {a b c : List Task}
      → Kept limits outside a b
      → Kept limits outside b c
      → Kept limits outside a c
  Kept-trans {a = a} {b = b} {c = c} h g = record {
    of_roles = λ r.
        Held-trans (limits.roles r) (outside r + count_rows (of_role r) a)
          (outside r + count_rows (of_role r) b) (outside r + count_rows (of_role r) c)
          (h.of_roles r) (g.of_roles r);
    of_runs = λ r.
        Held-trans (limits.runs r) (count_rows (of_run r) a) (count_rows (of_run r) b)
          (count_rows (of_run r) c) (h.of_runs r) (g.of_runs r);
  }

-- One more task, where there is room for it.
module _ (limits : PassLimits) (outside : ℕ → ℕ) (tk : Task) (running : List Task) where
  room-below_roles :
      (r : ℕ) (role run : Option ℕ)
      → room limits outside tk running role run ≡ true
      → refers role r ≡ true
      → below (limits.roles r) (outside r + count_rows (of_role r) running) ≡ true
  room-below_roles r none run h f = cc
  room-below_roles r (some role_id) run h f =
      subst (λ k. below (limits.roles k) (outside k + count_rows (of_role k) running) ≡ true)
        (==→≡ role_id r f) (ground arith)

  room-below_runs :
      (r : ℕ) (role run : Option ℕ)
      → room limits outside tk running role run ≡ true
      → refers run r ≡ true
      → below (limits.runs r) (count_rows (of_run r) running) ≡ true
  room-below_runs r role none h f = cc
  room-below_runs r role (some id) h f =
      subst (λ k. below (limits.runs k) (count_rows (of_run k) running) ≡ true) (==→≡ id r f)
        (ground arith)

  room-idle :
      (p : ℕ) (concurrent : Bool) (project : Option ℕ)
      → project_free concurrent running project ≡ true
      → refers project p ≡ true
      → not concurrent ≡ true
      → count_rows (of_project p) running ≡ 0
  room-idle p concurrent none h f g = cc
  room-idle p concurrent (some id) h f g =
      subst (λ k. count_rows (of_project k) running ≡ 0) (==→≡ id p f) (ground arith)

  room-Kept :
      room limits outside tk running tk.role_id tk.workflow_run_id ≡ true
      → Kept limits outside running (tk ∷ running)
  unfolding count_rows
  room-Kept h = record {
    of_roles = λ r.
        Held-added (limits.roles r) (of_role r tk) (outside r + count_rows (of_role r) running) _
          (room-below_roles r tk.role_id tk.workflow_run_id h) (λ e. ground (arith))
          (λ e. ground arith);
    of_runs = λ r.
        Held-added (limits.runs r) (of_run r tk) (count_rows (of_run r) running) _
          (room-below_runs r tk.role_id tk.workflow_run_id h) (λ e. ground (arith))
          (λ e. ground arith);
  }

  room-Serial :
      room limits outside tk running tk.role_id tk.workflow_run_id ≡ true
      → Serial running
      → Serial (tk ∷ running)
  unfolding count_rows
  room-Serial h s = λ p. elim (Bool-cases (alone p tk)) [
    | inl e ↦ rw e (
        few (alone-of_project p running)
          (room-idle p tk.concurrent tk.project_id (ground arith) (ground arith) (ground arith)))
    | inr e ↦ rw e (s p)
  ]

admit_one-running :
    (limits : PassLimits) (outside : ℕ → ℕ) (now : ℕ) (tk : Task) (b : Board)
    → ((admit_one limits outside now tk b).running ≡ b.running)
      ⊎ (((admit_one limits outside now tk b).running ≡ tk ∷ b.running)
          × (room limits outside tk b.running tk.role_id tk.workflow_run_id ≡ true))
unfolding admit_one admits
admit_one-running limits outside now tk b = elim (Bool-cases (admits limits outside tk b)) [
  | inl e ↦ rw e (by (claim_task now tk.id b.db) (ground arith))
  | inr e ↦ rw e (inl refl)
]
  where
    by :
        (c : Db × Bool)
        → room limits outside tk b.running tk.role_id tk.workflow_run_id ≡ true
        → ((started tk b c).running ≡ b.running)
          ⊎ (((started tk b c).running ≡ tk ∷ b.running)
              × (room limits outside tk b.running tk.role_id tk.workflow_run_id ≡ true))
    by (db, true) h = inr (refl, h)
    by (db, false) h = inl refl

module _ (limits : PassLimits) (outside : ℕ → ℕ) (now : ℕ) where
  pub admit_tasks-Kept :
      (queued : List Task) (b : Board)
      → Kept limits outside b.running (admit_tasks limits outside now queued b).running
  unfolding admit_tasks
  admit_tasks-Kept [] b = Kept-refl b.running
  admit_tasks-Kept (tk ∷ tks) b = elim (admit_one-running limits outside now tk b) [
    | inl e ↦
        Kept-trans (subst (Kept limits outside b.running) (sym e) (Kept-refl b.running))
          (admit_tasks-Kept tks (admit_one limits outside now tk b))
    | inr h ↦
        Kept-trans
          (subst (Kept limits outside b.running) (sym h.0)
            (room-Kept limits outside tk b.running h.1))
          (admit_tasks-Kept tks (admit_one limits outside now tk b))
  ]

  pub admit_tasks-Serial :
      (queued : List Task) (b : Board)
      → Serial b.running
      → Serial (admit_tasks limits outside now queued b).running
  unfolding admit_tasks
  admit_tasks-Serial [] b s = s
  admit_tasks-Serial (tk ∷ tks) b s =
      admit_tasks-Serial tks (admit_one limits outside now tk b)
        (elim (admit_one-running limits outside now tk b) [
          | inl e ↦ subst Serial (sym e) s
          | inr h ↦ subst Serial (sym h.0) (room-Serial limits outside tk b.running h.1 s)
        ])
