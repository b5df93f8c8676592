-- ===== src/Store/Merge/Ensure.antt =====
-- Repeated calls of `EnsureMergeTask`: by the executor's start, its timer, and after a failed transaction.
use paihuo.Prelude.{ℕ, ◌≡◌, refl, ◌∙◌, String, true, false, none, some, arith, ◌==◌, refers}
use paihuo.Model.{Task, new_merge_task}
use paihuo.Store.Db.{Db, ok}
use paihuo.Store.Db.Rows.{find_where}
use paihuo.Store.Merge.{prepare_merge_task, create_merge, ensure_merge_task}
use paihuo.Store.Merge.Once.{create_merge-found}

-- The merge task that already exists is the answer, and nothing changes.
ensure-existing :
    (now : ℕ) (title body : String) (source row : Task) (db : Db)
    → (source.id == 0) ≡ false
    → find_where (λ t. refers t.merge_of source.id) db.tasks ≡ some row
    → ensure_merge_task now title body source db ≡ ok (db, row.id, false)
unfolding ensure_merge_task
ensure-existing now title body source row db real e = rw (real, e)

-- What a call that created a task did.
ensure-parts :
    (now : ℕ) (title body : String) (source : Task) (db : Db) {db' : Db} {m : ℕ}
    → ensure_merge_task now title body source db ≡ ok (db', m, true)
    → ((source.id == 0) ≡ false)
      × (find_where (λ t. refers t.merge_of source.id) db.tasks ≡ none)
      × (create_merge db source.id
            (prepare_merge_task now source.id (new_merge_task title body source))
          ≡ ok (db', m))
unfolding ensure_merge_task
ensure-parts now title body source db h = ground arith

-- Once a call of `EnsureMergeTask` has created the merge task `m`, every later call for the same
-- source, with whatever snapshot of it, answers `m`, creates nothing and changes nothing.
pub ensure_merge_task-once :
    (now later : ℕ) (title body title' body' : String) (source source' : Task) (db : Db) {db' : Db}
    {m : ℕ}
    → ensure_merge_task now title body source db ≡ ok (db', m, true)
    → source'.id ≡ source.id
    → ensure_merge_task later title' body' source' db' ≡ ok (db', m, false)
unfolding prepare_merge_task
ensure_merge_task-once now later title body title' body' source source' db {db' = db'} h same =
    let (real, before, created) = ensure-parts now title body source db h in
    let (row, found, named) =
      create_merge-found db source.id
        (prepare_merge_task now source.id (new_merge_task title body source)) refl before created in
    ensure-existing later title' body' source' row db' (rw same real) (rw same found) ∙ rw named
