-- ===== src/Scenarios/States.antt =====
-- internal/store/task_state.go on the sample queue.
use paihuo.Prelude.{◌≡◌, refl, true, false, some, [], ◌∷◌}
use paihuo.Model.{Task}
use paihuo.Model.Words.{queued}
use paihuo.Store.Db.{get_task, update_one}
use paihuo.Store.Db.Rows.{count_rows}
use paihuo.Store.State.{claim_task}
use paihuo.Store.State.Diagram.{
  claiming, starting, completing, apply_all, Followed, apply_all-Followed,
}
use paihuo.Store.State.Claims.{claimed_row, claim_task-once}
use paihuo.Scenarios.{queue, queue_unique}

claims : (claim_task 7 1 queue).1 ≡ true
unfolding claim_task update_one count_rows
claims = refl

apply_all-Followed_example :
    Followed
      (get_task 1 queue)
      (get_task 1 (apply_all (claiming 7 1 ∷ (starting 8 1 ∷ (completing 9 1 ∷ []))) queue))
apply_all-Followed_example =
    apply_all-Followed (claiming 7 1 ∷ (starting 8 1 ∷ (completing 9 1 ∷ []))) queue 1

claim_task-once_example :
    (t : Task) × (get_task 1 queue ≡ some t)
    × (t.status ≡ queued)
    × (get_task 1 (claim_task 7 1 queue).0 ≡ some (claimed_row 7 t))
    × ((claim_task 8 1 (claim_task 7 1 queue).0).1 ≡ false)
claim_task-once_example = claim_task-once 7 8 1 queue queue_unique claims
