-- ===== src/Exec/Dispatch/Stages.antt =====
-- One round of `dispatch` of internal/exec/executor.go, stage by stage, from the claim back to the first
-- reservation.
use paihuo.Prelude.{
  ℕ, ◌+◌, ◌≡◌, refl, sym, subst, Bool, true, false, ◌&&◌, Option, none, some, List, ◌∷◌, arith,
  if◌then◌else◌, Bool-cases, inl, inr,
}
use paihuo.Model.{Task}
use paihuo.Store.Db.{Db}
use paihuo.Store.Db.Rows.{count_rows}
use paihuo.Store.State.{claim_task}
use paihuo.Store.Delivery.{DependencyCheck, check_task_dependency}
use paihuo.Exec.Slots.{
  Slots, reserve_role_slot, reserve_in_project, reserve_project_slot, reserve_workflow_slot,
}
use paihuo.Exec.Slots.Accounts.{
  of_role, of_run, Agrees, reserve_role_slot-Agrees, release_role_slot-Agrees,
  reserve_project_slot-Agrees, release_project_slot-Agrees, reserve_workflow_slot-Agrees,
  release_workflow_slot-Agrees, reserve_role_slot-refused, reserve_project_slot-refused,
}
use paihuo.Exec.Dispatch.{
  World, PassLimits, launch, take_project, take_role, with_limit, take_run, with_run_limit,
  with_run, if_ready, with_role,
}
use paihuo.Exec.Dispatch.Rule.{
  Board, board, below, run_free, role_free, project_free, ready, room, started, Sound,
}

abbrev pub Meets : (ℕ → ℕ) → World → Board → Type 0
Meets outside w b = (board w ≡ b) × Sound outside w

no_role : (a b : Bool) → (a && (b && false)) ≡ false
no_role a b = ground arith

-- Each reservation succeeds just when there is room.
module _ {outside : ℕ → ℕ} {R P W : List Task} {s : Slots} (a : Agrees outside R P W s) where
  reserve_project_slot-free :
      (tk : Task) → (reserve_project_slot tk s).1 ≡ project_free tk.concurrent P tk.project_id
  unfolding reserve_project_slot
  reserve_project_slot-free tk = by tk.project_id
    where
      by : (o : Option ℕ) → (reserve_in_project tk o s).1 ≡ project_free tk.concurrent P o
      by none = refl
      by (some project) = ground (arith, a.by_project project)

  reserve_role_slot-free :
      (role_id limit : ℕ)
      → (reserve_role_slot role_id limit s).1
        ≡ below (some limit) (outside role_id + count_rows (of_role role_id) R)
  unfolding reserve_role_slot
  reserve_role_slot-free role_id limit = ground (arith, a.by_role role_id)

  reserve_workflow_slot-free :
      (tk : Task) (run limit : ℕ)
      → tk.workflow_run_id ≡ some run
      → (reserve_workflow_slot tk limit s).1 ≡ below (some limit) (count_rows (of_run run) W)
  unfolding reserve_workflow_slot
  reserve_workflow_slot-free tk run limit e = rw e (ground (arith, a.by_run run))

  -- A task of no run takes no slot of a run.
  of_no_run-Agrees : (tk : Task) → tk.workflow_run_id ≡ none → Agrees outside R P (tk ∷ W) s
  unfolding count_rows
  of_no_run-Agrees tk e = record {
    by_role = a.by_role;
    by_project = a.by_project;
    by_run = λ r. ground (arith, a.by_run r);
  }

module _ {outside : ℕ → ℕ} (limits : PassLimits) (now : ℕ) (tk : Task) (w : World) where
  launch-Meets :
      (role_id : ℕ) (s : Slots) (c : Db × Bool)
      → tk.role_id ≡ some role_id
      → Agrees outside (tk ∷ w.running) (tk ∷ w.running) (tk ∷ w.running) s
      → Meets outside (launch role_id tk w s c) (started tk (board w) c)
  launch-Meets role_id s (db, true) e a = (refl, a)
  launch-Meets role_id s (db, false) e a = (
    refl,
    release_workflow_slot-Agrees
        (release_project_slot-Agrees (release_role_slot-Agrees a tk w.running role_id e refl) tk
          w.running refl)
        tk w.running refl,
  )

  given_back :
      (role_id : ℕ) (s : Slots)
      → tk.role_id ≡ some role_id
      → Agrees outside (tk ∷ w.running) w.running (tk ∷ w.running) s
      → Meets outside (take_project now role_id tk w (s, false)) (board w)
  given_back role_id s e a = (
    refl,
    release_workflow_slot-Agrees (release_role_slot-Agrees a tk w.running role_id e refl) tk
        w.running refl,
  )

  take_project-Meets :
      (role_id : ℕ) (s : Slots) (r : Slots × Bool)
      → tk.role_id ≡ some role_id
      → Agrees outside (tk ∷ w.running) w.running (tk ∷ w.running) s
      → (r.1 ≡ true → Agrees outside (tk ∷ w.running) (tk ∷ w.running) (tk ∷ w.running) r.0)
      → (r.1 ≡ false → r.0 ≡ s)
      → Meets outside
          (take_project now role_id tk w r)
          (if r.1 then started tk (board w) (claim_task now tk.id w.db) else board w)
  take_project-Meets role_id s (s2, true) e a taken kept =
      launch-Meets role_id s2 (claim_task now tk.id w.db) e (taken refl)
  take_project-Meets role_id s (s2, false) e a taken kept = given_back role_id s2 e (
      subst (λ (x : Slots). Agrees outside (tk ∷ w.running) w.running (tk ∷ w.running) x)
        (sym (kept refl)) a)

  take_role-Meets :
      (role_id : ℕ) (s : Slots) (r : Slots × Bool)
      → tk.role_id ≡ some role_id
      → Agrees outside w.running w.running (tk ∷ w.running) s
      → (r.1 ≡ true → Agrees outside (tk ∷ w.running) w.running (tk ∷ w.running) r.0)
      → (r.1 ≡ false → r.0 ≡ s)
      → Meets outside (take_role now role_id tk w r) (
          if r.1 && project_free tk.concurrent w.running tk.project_id
          then started tk (board w) (claim_task now tk.id w.db)
          else board w)
  take_role-Meets role_id s (s2, true) e a taken kept =
      subst
        (λ (b : Bool).
          Meets outside (take_role now role_id tk w (s2, true))
            (if b then started tk (board w) (claim_task now tk.id w.db) else board w))
        (reserve_project_slot-free (taken refl) tk)
        (take_project-Meets role_id s2 (reserve_project_slot tk s2) e (taken refl)
          (λ h. (reserve_project_slot-Agrees (taken refl) tk h).0)
          (reserve_project_slot-refused s2 tk))
  take_role-Meets role_id s (s2, false) e a taken kept = (
    refl,
    release_workflow_slot-Agrees
        (subst (λ (x : Slots). Agrees outside w.running w.running (tk ∷ w.running) x)
          (sym (kept refl)) a)
        tk w.running refl,
  )

  with_limit-Meets :
      (role_id : ℕ) (s : Slots) (o : Option ℕ)
      → tk.role_id ≡ some role_id
      → Agrees outside w.running w.running (tk ∷ w.running) s
      → Meets outside (with_limit now role_id tk w s o) (
          if below o (outside role_id + count_rows (of_role role_id) w.running)
            && project_free tk.concurrent w.running tk.project_id
          then started tk (board w) (claim_task now tk.id w.db)
          else board w)
  with_limit-Meets role_id s none e a = (refl, release_workflow_slot-Agrees a tk w.running refl)
  with_limit-Meets role_id s (some limit) e a =
      subst
        (λ (b : Bool). Meets outside (with_limit now role_id tk w s (some limit)) (
          if b && project_free tk.concurrent w.running tk.project_id
          then started tk (board w) (claim_task now tk.id w.db)
          else board w))
        (reserve_role_slot-free a role_id limit)
        (take_role-Meets role_id s (reserve_role_slot role_id limit s) e a
          (λ h. (reserve_role_slot-Agrees a tk role_id limit e h).0)
          (reserve_role_slot-refused s role_id limit))

  take_run-Meets :
      (role_id : ℕ) (r : Slots × Bool)
      → tk.role_id ≡ some role_id
      → Sound outside w
      → (r.1 ≡ true → Agrees outside w.running w.running (tk ∷ w.running) r.0)
      → Meets outside (take_run limits now role_id tk w r) (
          if r.1
            && (role_free limits outside w.running (some role_id)
                && project_free tk.concurrent w.running tk.project_id)
          then started tk (board w) (claim_task now tk.id w.db)
          else board w)
  take_run-Meets role_id (s, true) e sound taken =
      with_limit-Meets role_id s (limits.roles role_id) e (taken refl)
  take_run-Meets role_id (s, false) e sound taken = (refl, sound)

  with_run_limit-Meets :
      (role_id run : ℕ) (o : Option ℕ)
      → tk.role_id ≡ some role_id
      → tk.workflow_run_id ≡ some run
      → Sound outside w
      → Meets outside (with_run_limit limits now role_id tk w o) (
          if below o (count_rows (of_run run) w.running)
            && (role_free limits outside w.running (some role_id)
                && project_free tk.concurrent w.running tk.project_id)
          then started tk (board w) (claim_task now tk.id w.db)
          else board w)
  with_run_limit-Meets role_id run none e f sound = (refl, sound)
  with_run_limit-Meets role_id run (some limit) e f sound =
      subst
        (λ (b : Bool). Meets outside (with_run_limit limits now role_id tk w (some limit)) (
          if b
            && (role_free limits outside w.running (some role_id)
                && project_free tk.concurrent w.running tk.project_id)
          then started tk (board w) (claim_task now tk.id w.db)
          else board w))
        (reserve_workflow_slot-free sound tk run limit f)
        (take_run-Meets role_id (reserve_workflow_slot tk limit w.slots) e sound
          (λ h. (reserve_workflow_slot-Agrees sound tk limit h).0))

  with_run-Meets :
      (role_id : ℕ) (o : Option ℕ)
      → tk.role_id ≡ some role_id
      → tk.workflow_run_id ≡ o
      → Sound outside w
      → Meets outside (with_run limits now role_id tk w o) (
          if room limits outside tk w.running (some role_id) o
          then started tk (board w) (claim_task now tk.id w.db)
          else board w)
  with_run-Meets role_id none e f sound =
      with_limit-Meets role_id w.slots (limits.roles role_id) e (of_no_run-Agrees sound tk f)
  with_run-Meets role_id (some run) e f sound =
      with_run_limit-Meets role_id run (limits.runs run) e f sound

  if_ready-Meets :
      (c : Option DependencyCheck) (go : World) (b : Bool) (d : Db × Bool)
      → Sound outside w
      → Meets outside go (if b then started tk (board w) d else board w)
      → Meets outside (if_ready c go w) (if ready c && b then started tk (board w) d else board w)
  if_ready-Meets none go b d sound h = (refl, sound)
  if_ready-Meets (some c) go b d sound h = elim (Bool-cases c.ready) [
    | inl e ↦ rw e h
    | inr e ↦ rw e (refl, sound)
  ]

  pub dispatch_one-Meets :
      (o : Option ℕ)
      → tk.role_id ≡ o
      → Sound outside w
      → Meets outside (with_role limits now tk w o) (
          if ready (check_task_dependency w.db tk)
            && room limits outside tk w.running o tk.workflow_run_id
          then started tk (board w) (claim_task now tk.id w.db)
          else board w)
  dispatch_one-Meets none e sound =
      rw
        (no_role (ready (check_task_dependency w.db tk))
          (run_free limits w.running tk.workflow_run_id))
        (refl, sound)
  dispatch_one-Meets (some role_id) e sound =
      if_ready-Meets (check_task_dependency w.db tk)
        (with_run limits now role_id tk w tk.workflow_run_id)
        (room limits outside tk w.running (some role_id) tk.workflow_run_id)
        (claim_task now tk.id w.db) sound (with_run-Meets role_id tk.workflow_run_id e refl sound)
