-- ===== src/Store/State/Claims.antt =====
-- Claims and starts of a task, and the calls of conditional updates that report failure.
use paihuo.Prelude.{
  ℕ, ◌+◌, ◌≡◌, refl, ◌≢◌, true, false, ◌&&◌, some, arith, ◌==◌, Option-cases, inl, inr,
}
use paihuo.Model.{Task}
use paihuo.Model.Words.{Status, queued, claimed, status_is}
use paihuo.Store.Db.{Db, get_task}
use paihuo.Store.Db.Rows.{UniqueIds, changed, passes, find-id}
use paihuo.Store.Db.Update.{
  update_one_flag, update_one_refused, update_one-UniqueIds, get_task-update_one,
}
use paihuo.Store.State.{
  claim_task, start_task, resume_task, mark_task_succeeded_awaiting_merge, complete_source,
  deliver_source, approve_source, approve_task_deliver,
}
use paihuo.Store.State.Diagram.{
  Op, claiming, starting, marking, completing, delivering, resuming, approving, skipping, apply,
}

-- The row that a won claim leaves.
abbrev pub claimed_row : ℕ → Task → Task
claimed_row now t = record t {
  status = claimed;
  started_at = some now;
  updated_at = now;
  revision = t.revision + 1;
}

-- Where the ids are a primary key, a call of a conditional update that reports that it changed no row
-- leaves the whole database as it was.
pub apply_refused :
    (op : Op) (db : Db) → UniqueIds db.tasks → (apply op db).1 ≡ false → (apply op db).0 ≡ db
unfolding apply claim_task start_task resume_task mark_task_succeeded_awaiting_merge complete_source
    deliver_source approve_source approve_task_deliver
apply_refused (claiming now i) db u h = update_one_refused i _ _ db u h
apply_refused (starting now i) db u h = update_one_refused i _ _ db u h
apply_refused (marking now i) db u h = update_one_refused i _ _ db u h
apply_refused (completing now i) db u h = update_one_refused i _ _ db u h
apply_refused (delivering now i) db u h = update_one_refused i _ _ db u h
apply_refused (resuming now i r) db u h = update_one_refused i _ _ db u h
apply_refused (approving now i r) db u h = update_one_refused i _ _ db u h
apply_refused (skipping now i r) db u h = update_one_refused i _ _ db u h

claim_flag :
    (now i : ℕ) (db : Db)
    → UniqueIds db.tasks
    → (claim_task now i db).1 ≡ passes (λ t. status_is t.status queued) (get_task i db)
unfolding claim_task
claim_flag now i db u = update_one_flag i _ _ db u

claim_row :
    (now i : ℕ) (db : Db)
    → get_task i (claim_task now i db).0
      ≡ changed (λ t. t.id == i && status_is t.status queued) (claimed_row now) (get_task i db)
unfolding claim_task
claim_row now i db = get_task-update_one i _ _ db i (λ t. refl)

claim_task-UniqueIds :
    (now i : ℕ) (db : Db) → UniqueIds db.tasks → UniqueIds (claim_task now i db).0.tasks
unfolding claim_task
claim_task-UniqueIds now i db u = update_one-UniqueIds i _ _ db (λ t. refl) u

status_is→≡ : (s : Status) → status_is s queued ≡ true → s ≡ queued
status_is→≡ queued h = refl
status_is→≡ _ h = absurd (ground arith)

-- A claim that reports success found the task queued and leaves it claimed, with its revision one
-- higher; and a second claim of the same task, at any time, then fails.
pub claim_task-once :
    (now later i : ℕ) (db : Db)
    → UniqueIds db.tasks
    → (claim_task now i db).1 ≡ true
    → (t : Task) × (get_task i db ≡ some t)
      × (t.status ≡ queued)
      × (get_task i (claim_task now i db).0 ≡ some (claimed_row now t))
      × ((claim_task later i (claim_task now i db).0).1 ≡ false)
claim_task-once now later i db u won = elim (Option-cases (get_task i db)) [
  | inl e ↦ absurd (ground (arith, claim_flag now i db u))
  | inr (t, e) ↦
      let queued_before : status_is t.status queued ≡ true =
        ground (arith, claim_flag now i db u) in
      let after : get_task i (claim_task now i db).0 ≡ some (claimed_row now t) =
        ground (arith, claim_row now i db, find-id i db.tasks {t = t}) in
      (
        t,
        e,
        status_is→≡ t.status queued_before,
        after,
        ground (
          arith,
          after,
          claim_flag later i (claim_task now i db).0 (claim_task-UniqueIds now i db u),
        ),
      )
]

start_flag :
    (now i : ℕ) (db : Db)
    → UniqueIds db.tasks
    → (start_task now i db).1 ≡ passes (λ t. status_is t.status claimed) (get_task i db)
unfolding start_task
start_flag now i db u = update_one_flag i _ _ db u

status_is_not : (s : Status) → s ≢ claimed → status_is s claimed ≡ false
status_is_not claimed h = absurd (h refl)
status_is_not _ h = ground arith

start_unchanged :
    (now i : ℕ) (db : Db)
    → UniqueIds db.tasks
    → (start_task now i db).1 ≡ false
    → (start_task now i db).0 ≡ db
unfolding start_task
start_unchanged now i db u h = update_one_refused i _ _ db u h

-- A task that was cancelled (or moved anywhere else) between its claim and its start is not started,
-- and the failed start changes nothing.
pub start_task-refused :
    (now i : ℕ) (db : Db) {t : Task}
    → UniqueIds db.tasks
    → get_task i db ≡ some t
    → t.status ≢ claimed
    → start_task now i db ≡ (db, false)
start_task-refused now i db {t = t} u found gone =
    let refused : (start_task now i db).1 ≡ false =
      ground (arith, start_flag now i db u, status_is_not t.status gone) in
    λ k. (start_unchanged now i db u refused k, refused k)
