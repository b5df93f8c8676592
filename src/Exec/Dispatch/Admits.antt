-- ===== src/Exec/Dispatch/Admits.antt =====
-- `dispatch` of internal/exec/executor.go against the rule without counters.
use paihuo.Prelude.{ℕ, ◌≡◌, refl, ap, ◌∙◌, List, [], ◌∷◌}
use paihuo.Model.{Task}
use paihuo.Exec.Dispatch.{World, PassLimits, dispatch_one, dispatch_tasks}
use paihuo.Exec.Dispatch.Rule.{board, admits, admit_one, admit_tasks, Sound}
use paihuo.Exec.Dispatch.Stages.{dispatch_one-Meets}

module _ {outside : ℕ → ℕ} (limits : PassLimits) (now : ℕ) where
  pub dispatch_one-admit_one :
      (tk : Task) (w : World)
      → Sound outside w
      → (board (dispatch_one limits now tk w) ≡ admit_one limits outside now tk (board w))
        × Sound outside (dispatch_one limits now tk w)
  unfolding dispatch_one admit_one admits
  dispatch_one-admit_one tk w sound = dispatch_one-Meets limits now tk w tk.role_id refl sound

  -- If the counters count the tasks that run (for a role also the slots of its sessions, `outside`), a
  -- pass of the dispatcher starts the tasks that the rule without counters starts, in the same order: one
  -- after the other, each whose dependencies are ready, whose run has fewer running tasks than its limit,
  -- whose role is enabled with fewer running tasks and sessions than its limit, whose project is idle if
  -- the task is not concurrent, and that the database still lets it claim. After the pass the counters
  -- count the tasks that run.
  pub dispatch_tasks-admit_tasks :
      (queued : List Task) (w : World)
      → Sound outside w
      → (board (dispatch_tasks limits now queued w)
          ≡ admit_tasks limits outside now queued (board w))
        × Sound outside (dispatch_tasks limits now queued w)
  unfolding dispatch_tasks admit_tasks
  dispatch_tasks-admit_tasks [] w sound = (refl, sound)
  dispatch_tasks-admit_tasks (tk ∷ tks) w sound =
      let here = dispatch_one-admit_one tk w sound in
      let rest = dispatch_tasks-admit_tasks tks (dispatch_one limits now tk w) here.1 in
      (rest.0 ∙ ap (admit_tasks limits outside now tks) here.0, rest.1)
