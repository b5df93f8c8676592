-- ===== src/Exec/Dispatch/Ends.antt =====
-- The end of `runTask` and `recoverInterrupted` of internal/exec/executor.go give back, and take, the slots
-- of one task.
use paihuo.Prelude.{
  ℕ, zero, suc, ◌+◌, ◌≡◌, refl, ◌∙◌, Bool, Option, none, some, List, [], ◌∷◌, arith, ap,
}
use paihuo.Model.{Task}
use paihuo.Store.Db.Rows.{count_rows}
use paihuo.Exec.Slots.{Slots}
use paihuo.Exec.Slots.Accounts.{
  of_role, of_project, of_run, Agrees, release_role_slot-Agrees, restore_role_slot-Agrees,
  release_project_slot-Agrees, restore_project_slot-Agrees, release_workflow_slot-Agrees,
  restore_workflow_slot-Agrees,
}
use paihuo.Exec.Dispatch.{
  World, nth, remove_at, release_role, ended, end_run, restore_role, restore_run,
}
use paihuo.Exec.Dispatch.Rule.{Sound}

pub count_rows-remove_at :
    (p : Task → Bool) (n : ℕ) (ts : List Task) {tk : Task}
    → nth n ts ≡ some tk
    → count_rows p ts ≡ count_rows p (tk ∷ remove_at n ts)
unfolding count_rows
count_rows-remove_at p n [] h = cc
count_rows-remove_at p zero (t ∷ ts) h = ground arith
count_rows-remove_at p (suc n) (t ∷ ts) {tk = u} h =
    ground (arith, count_rows-remove_at p n ts {tk = u} h)

module _ {outside : ℕ → ℕ} where
  release_role-Agrees :
      {tk : Task} {Q P W : List Task} {s : Slots} (o : Option ℕ)
      → tk.role_id ≡ o
      → Agrees outside (tk ∷ Q) P W s
      → Agrees outside Q P W (release_role o s)
  unfolding count_rows
  release_role-Agrees none e a = record {
    by_role = λ r. ground (arith, a.by_role r);
    by_project = a.by_project;
    by_run = a.by_run;
  }
  release_role-Agrees {tk = tk} {Q = Q} (some role_id) e a =
      release_role_slot-Agrees a tk Q role_id e refl

  apart-Agrees :
      (n : ℕ) (w : World) (tk : Task)
      → nth n w.running ≡ some tk
      → Sound outside w
      → Agrees outside
          (tk ∷ remove_at n w.running)
          (tk ∷ remove_at n w.running)
          (tk ∷ remove_at n w.running)
          w.slots
  apart-Agrees n w tk e a =
      let same = λ (p : Task → Bool). count_rows-remove_at p n w.running e in
      record {
        by_role = λ r. a.by_role r ∙ ap (λ k. outside r + k) (same (of_role r));
        by_project = λ p. a.by_project p ∙ same (of_project p);
        by_run = λ r. a.by_run r ∙ same (of_run r);
      }

  ended-Sound :
      (n : ℕ) (w : World) (o : Option Task)
      → nth n w.running ≡ o
      → Sound outside w
      → Sound outside (ended n w o)
  ended-Sound n w none e a = a
  ended-Sound n w (some tk) e a =
      release_workflow_slot-Agrees
        (release_project_slot-Agrees (release_role-Agrees tk.role_id refl (apart-Agrees n w tk e a))
          tk (remove_at n w.running) refl)
        tk (remove_at n w.running) refl

  pub end_run-Sound : (n : ℕ) (w : World) → Sound outside w → Sound outside (end_run n w)
  unfolding end_run
  end_run-Sound n w a = ended-Sound n w (nth n w.running) refl a

  pub restore_run-Sound :
      (tk : Task) (w : World) → Sound outside w → Sound outside (restore_run tk w)
  unfolding restore_run
  restore_run-Sound tk w a = by tk.role_id refl
    where
      by : (o : Option ℕ) → tk.role_id ≡ o → Sound outside (restore_role o tk w)
      by none e = a
      by (some role_id) e =
          restore_workflow_slot-Agrees
            (restore_project_slot-Agrees (restore_role_slot-Agrees a tk role_id e) tk) tk
