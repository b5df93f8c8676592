-- ===== src/Application/Transitions/Resumed.antt =====
-- Which tasks `Resume` of internal/application/task_transitions.go puts back into the queue.
use paihuo.Prelude.{
  ℕ, ◌+◌, ◌≡◌, ◌≢◌, refl, ap, subst, ◌∙◌, Bool, true, false, ◌&&◌, not, Option, none, some, arith,
  ◌==◌, is_some, if◌then◌else◌, ==_refl,
}
use paihuo.Model.{Task}
use paihuo.Model.Words.{queued, succeeded, status_is}
use paihuo.Store.Db.{Db, get_task}
use paihuo.Store.Db.Rows.{find-id, changed}
use paihuo.Store.Db.Update.{get_task-update_one, get_task-update_one_ne}
use paihuo.Store.State.{is_terminal, resume_task}
use paihuo.Application.Transitions.{
  TaskError, Done, done, failed_with, unless, then_do, row_at_revision, task_at_revision,
  source_has_or_needs_merge, validate_requeue, resumed, resume, conflict, invalid, stale,
}

unless-parts {ℓ} :
    {A : Type ℓ} (b : Bool) (e : TaskError) (next : Done A) {a : A}
    → unless b e next ≡ done a
    → (b ≡ false) × (next ≡ done a)
unless-parts true e next h = cc
unless-parts false e next h = (refl, h)

then_do-parts {ℓ κ} :
    {A : Type ℓ} {B : Type κ} (first : Done A) (next : A → Done B) {b : B}
    → then_do first next ≡ done b
    → (a : A) × (first ≡ done a) × (next a ≡ done b)
then_do-parts (failed_with e) next h = cc
then_do-parts (done a) next h = (a, refl, h)

row_at_revision-parts :
    (expected : ℕ) (o : Option Task) {t : Task}
    → row_at_revision expected o ≡ done t
    → (o ≡ some t) × ((t.revision == expected) ≡ true)
row_at_revision-parts expected none h = cc
row_at_revision-parts expected (some u) {t = t} h =
    let (same, e) = unless-parts (not (u.revision == expected)) stale (done u) h in
    let f : u ≡ t = cc in
    (ap some f, subst (λ (v : Task). (v.revision == expected) ≡ true) f (ground (arith, same)))

-- Nothing of the code of this task is merged, or is to be.
abbrev pub Unmerged : Db → Task → Type 0
Unmerged db t =
    (status_is t.status succeeded && (not (is_some t.merge_of) && source_has_or_needs_merge db t)
      ≡ false)
    × (status_is t.status succeeded && is_some t.merge_of ≡ false)

validate_requeue-Unmerged :
    (db : Db) (t : Task) {u : Unit {0}} → validate_requeue db t ≡ done u → Unmerged db t
unfolding validate_requeue
validate_requeue-Unmerged db t h =
    let (a, h1) =
      unless-parts
        (status_is t.status succeeded
          && (not (is_some t.merge_of) && source_has_or_needs_merge db t))
        conflict _ h in
    (a, (unless-parts (status_is t.status succeeded && is_some t.merge_of) conflict (done tt) h1).0)

not-false : (b : Bool) → not b ≡ false → b ≡ true
not-false b h = ground arith

resumed-db : (r : Db × Bool) {db' : Db} → resumed r ≡ done db' → r.0 ≡ db'
resumed-db (db, true) h = cc
resumed-db (db, false) h = cc

-- The row that is put back, and the test of the statement.
abbrev put_back : ℕ → Task → Task
put_back now t = record t {
  status = queued;
  started_at = none;
  finished_at = none;
  error = "";
  exit_code = none;
  tmux_log_offset = 0;
  updated_at = now;
  revision = t.revision + 1;
}

abbrev may_resume : ℕ → Task → Bool
may_resume expected t = t.revision == expected && is_terminal t.status

resume_task-row :
    (now i expected : ℕ) (db : Db) (t : Task) {db' : Db}
    → get_task i db ≡ some t
    → (t.revision == expected) ≡ true
    → is_terminal t.status ≡ true
    → (resume_task now i expected db).0 ≡ db'
    → (u : Task) × (get_task i db' ≡ some u)
      × (u.status ≡ queued)
      × (u.revision ≡ t.revision + 1)
      × ((j : ℕ) → j ≢ i → get_task j db' ≡ get_task j db)
unfolding resume_task
resume_task-row now i expected db t {db' = db'} found same terminal e =
    subst
      (λ (d : Db).
        (u : Task) × (get_task i d ≡ some u)
        × (u.status ≡ queued)
        × (u.revision ≡ t.revision + 1)
        × ((j : ℕ) → j ≢ i → get_task j d ≡ get_task j db))
      e
      (
        put_back now t,
        get_task-update_one i (may_resume expected) (put_back now) db i (λ v. refl)
            ∙ ap (changed (λ v. v.id == i && may_resume expected v) (put_back now)) found
            ∙ ap (λ b. some (if b then put_back now t else t)) hit,
        refl,
        refl,
        λ j ne. get_task-update_one_ne i (may_resume expected) (put_back now) db j (λ v. refl) ne,
      )
  where
    hit : (t.id == i && (t.revision == expected && is_terminal t.status)) ≡ true
    hit = ground (arith, find-id i db.tasks {t = t} found, ==_refl i)

-- A task that is resumed stood in the table at the revision that the caller read, in a terminal status,
-- with a role; it was no merge task that has succeeded, and no source that has succeeded with a branch of
-- its own or with a merge task. It is queued now, one revision on, and every other row is as it was.
pub resume-Unmerged :
    (now i expected : ℕ) (db : Db) {db' : Db}
    → resume now i expected db ≡ done db'
    → (t : Task) × (get_task i db ≡ some t)
      × ((t.revision == expected) ≡ true)
      × (is_terminal t.status ≡ true)
      × (is_some t.role_id ≡ true)
      × Unmerged db t
      × (u : Task) × (get_task i db' ≡ some u)
      × (u.status ≡ queued)
      × (u.revision ≡ t.revision + 1)
      × ((j : ℕ) → j ≢ i → get_task j db' ≡ get_task j db)
unfolding resume task_at_revision
resume-Unmerged now i expected db {db' = db'} h =
    let (t, at, h1) = then_do-parts (row_at_revision expected (get_task i db)) _ h in
    let (role, h2) = unless-parts (not (is_some t.role_id)) invalid _ h1 in
    let (terminal, h3) = unless-parts (not (is_terminal t.status)) conflict _ h2 in
    let (u, valid, h4) = then_do-parts (validate_requeue db t) _ h3 in
    let (found, same) = row_at_revision-parts expected (get_task i db) at in
    let (row, stored, waits, next, others) =
      resume_task-row now i expected db t found same (not-false (is_terminal t.status) terminal)
        (resumed-db (resume_task now i expected db) h4) in
    (
      t,
      found,
      same,
      not-false (is_terminal t.status) terminal,
      not-false (is_some t.role_id) role,
      validate_requeue-Unmerged db t valid,
      row,
      stored,
      waits,
      next,
      others,
    )
