-- ===== src/Store/Merge/Once.antt =====
-- The transactions that finish a source and create its merge task.
use paihuo.Prelude.{
  ℕ, ◌+◌, ◌≡◌, refl, sym, ◌∙◌, ap, ◌≢◌, Bool, true, none, some, arith, refers, some_eq, In,
}
use paihuo.Model.{Task}
use paihuo.Model.Words.{succeeded}
use paihuo.Store.Db.{
  Db, require, not_mergeable, not_deliverable, ok, >>=-eq-ok, get_task, update_one,
}
use paihuo.Store.Db.Rows.{find-id, find_where, passes-parts, KeepsId}
use paihuo.Store.Db.Update.{update_one_flag, get_task-update_one, get_task-update_one_ne}
use paihuo.Store.Insert.Laws.{IsKeyed, update_one-IsKeyed}
use paihuo.Store.State.{complete_source, deliver_source, approve_source}
use paihuo.Store.Merge.{
  prepare_merge_task, create_merge, complete_task_and_create_merge, deliver_task_and_create_merge,
  approve_task_and_create_merge,
}
use paihuo.Store.Merge.Inserted.{
  IsMergeOf, IsMergeOf-source, prepare-merges, insert_merge-IsMergeOf, create_merge-parts,
  insert_merge-others, insert_merge-apart, insert_merge-IsKeyed, require-true, insert_merge-only,
  insert_merge-found,
}
use paihuo.Store.Merge.Sources.{
  Executing, HandedOver, Reviewed, Executing-guard, HandedOver-guard, Reviewed-guard,
}

-- The whole effect of a transaction that finished the source `i`, which was as `Was` says, and created its
-- one merge task `m`.
pub record Merged (Was : Task → Type 0) (i m : ℕ) (db db' : Db) : Type 0 where
  pub source : Task
  pub finished : Task
  pub merge : Task
  pub found : get_task i db ≡ some source
  pub was : Was source
  pub settled : get_task i db' ≡ some finished
  pub succeeds : finished.status ≡ succeeded
  pub bumped : finished.revision ≡ source.revision + 1
  pub created : get_task m db' ≡ some merge
  pub is_merge : IsMergeOf i m source merge
  pub distinct : m ≢ i
  pub only : (t : Task) → In t db'.tasks → t.merge_of ≡ some i → t.id ≡ m
  pub others : (j : ℕ) → j ≢ i → j ≢ m → get_task j db' ≡ get_task j db
  pub keyed : IsKeyed db'

-- A conditional update that finishes the row `i`, then `create_merge`, has that effect.
module _ (now i : ℕ) (merge : Task) (test : Task → Bool) (change : Task → Task) (db : Db)
    (Was : Task → Type 0) (guards : (t : Task) → test t ≡ true → Was t) (keeps : KeepsId change)
    (succeeds : (t : Task) → (change t).status ≡ succeeded)
    (bumps : (t : Task) → (change t).revision ≡ t.revision + 1)
    (policy : (t : Task) → (change t).block_on_failure ≡ t.block_on_failure) where
  finish-row :
      {source : Task}
      → get_task i db ≡ some source
      → test source ≡ true
      → get_task i (update_one i test change db).0 ≡ some (change source)
  finish-row {source = t} found passed =
      get_task-update_one i test change db i keeps
      ∙ (ground (arith, found, find-id i db.tasks {t = t}))

  finish-Merged :
      {db' : Db} {m : ℕ}
      → IsKeyed db
      → (update_one i test change db).1 ≡ true
      → create_merge (update_one i test change db).0 i (prepare_merge_task now i merge)
        ≡ ok (db', m)
      → Merged Was i m db db'
  finish-Merged {db'} {m} k won h =
      let db₁ : Db = (update_one i test change db).0 in
      let k₁ : IsKeyed db₁ = update_one-IsKeyed i test change db keeps k in
      let (source, found, passed) =
        passes-parts test (get_task i db) (sym (update_one_flag i test change db k.unique) ∙ won) in
      let after : get_task i db₁ ≡ some (change source) = finish-row found passed in
      let (row, at_row, inserted) = create_merge-parts db₁ i (prepare_merge_task now i merge) h in
      let same : change source ≡ row = some_eq (sym after ∙ at_row) in
      let (new, at_new, fits) = insert_merge-IsMergeOf now i merge row db₁ k₁ inserted in
      let apart : m ≢ i = λ e. insert_merge-apart db₁ _ i k₁ inserted at_row e in
      record {
        source = source;
        finished = change source;
        merge = new;
        found = found;
        was = guards source passed;
        settled = insert_merge-others db₁ _ i inserted (λ e. apart (sym e)) ∙ after;
        succeeds = succeeds source;
        bumped = bumps source;
        created = at_new;
        is_merge =
            IsMergeOf-source row source new fits
              (ap (λ (t : Task). t.block_on_failure) (sym same) ∙ policy source);
        distinct = apart;
        only = insert_merge-only db₁ _ i (prepare-merges now i merge) inserted;
        others = λ j ne ne'.
            insert_merge-others db₁ _ j inserted ne'
            ∙ get_task-update_one_ne i test change db j keeps ne;
        keyed = insert_merge-IsKeyed db₁ _ k₁ inserted;
      }

-- A source that is claimed or running is finished, and its one merge task created: when
-- `CompleteTaskAndCreateMerge` succeeds, the source's row was claimed or running, had the permission mode
-- full and merged no other task; it is succeeded now, at the next revision; the merge task's row is new,
-- queued, automatic and serial, points at the source as parent and as merged task, has the failure
-- policy of the source's row, and is the only row that merges the source; and every other row is as it
-- was. The ids of the database are unique and handed out.
pub complete_task_and_create_merge-Merged :
    (now i : ℕ) (merge : Task) (db : Db) {db' : Db} {m : ℕ}
    → IsKeyed db
    → complete_task_and_create_merge now i merge db ≡ ok (db', m)
    → Merged Executing i m db db'
unfolding complete_task_and_create_merge complete_source
complete_task_and_create_merge-Merged now i merge db k h =
    let (u, won, rest) = >>=-eq-ok (require (update_one i _ _ db).1 not_mergeable) _ h in
    finish-Merged now i merge _ _ db Executing Executing-guard (λ t. refl) (λ t. refl) (λ t. refl)
      (λ t. refl) k (require-true _ _ won) rest

-- A session's delivery, still queued, is finished and its one merge task created: a successful
-- `DeliverTaskAndCreateMerge` has the same whole effect.
pub deliver_task_and_create_merge-Merged :
    (now i : ℕ) (merge : Task) (db : Db) {db' : Db} {m : ℕ}
    → IsKeyed db
    → deliver_task_and_create_merge now i merge db ≡ ok (db', m)
    → Merged HandedOver i m db db'
unfolding deliver_task_and_create_merge deliver_source
deliver_task_and_create_merge-Merged now i merge db k h =
    let (u, won, rest) = >>=-eq-ok (require (update_one i _ _ db).1 not_deliverable) _ h in
    finish-Merged now i merge _ _ db HandedOver HandedOver-guard (λ t. refl) (λ t. refl) (λ t. refl)
      (λ t. refl) k (require-true _ _ won) rest

-- An approval at the revision that the reviewer read has the same whole effect.
pub approve_task_and_create_merge-Merged :
    (now i expected : ℕ) (merge : Task) (db : Db) {db' : Db} {m : ℕ}
    → IsKeyed db
    → approve_task_and_create_merge now i expected merge db ≡ ok (db', m)
    → Merged (Reviewed expected) i m db db'
unfolding approve_task_and_create_merge approve_source
approve_task_and_create_merge-Merged now i expected merge db k h =
    let (u, won, rest) = >>=-eq-ok (require (update_one i _ _ db).1 not_mergeable) _ h in
    finish-Merged now i merge _ _ db (Reviewed expected) (Reviewed-guard expected) (λ t. refl)
      (λ t. refl) (λ t. refl) (λ t. refl) k (require-true _ _ won) rest

-- After `create_merge`, the merge task that a query for the source finds is the new one.
pub create_merge-found :
    (db : Db) (i : ℕ) (merge : Task) {db' : Db} {m : ℕ}
    → merge.merge_of ≡ some i
    → find_where (λ t. refers t.merge_of i) db.tasks ≡ none
    → create_merge db i merge ≡ ok (db', m)
    → (row : Task) × (find_where (λ t. refers t.merge_of i) db'.tasks ≡ some row) × (row.id ≡ m)
create_merge-found db i merge target before h =
    let (source, found, inserted) = create_merge-parts db i merge h in
    insert_merge-found db _ i target before inserted
