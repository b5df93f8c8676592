-- ===== src/Store/Merge/Inserted.antt =====
-- What `insertMergeTask` and `create_merge` store (internal/store/task_merge.go).
use paihuo.Prelude.{
  ℕ, ◌≡◌, refl, sym, ◌∙◌, ap, ◌≢◌, Bool, true, false, Option, none, some, arith, refers, inl, inr,
  In, In-append-split, List, [], ◌∷◌,
}
use paihuo.Model.{Task}
use paihuo.Model.Words.{queued, full}
use paihuo.Store.Db.{Db, Error, require, ok, ◌>>=◌, get_task}
use paihuo.Store.Db.Rows.{exists_row, find_where}
use paihuo.Store.Insert.{insert_row, stored, clashes}
use paihuo.Store.Insert.Laws.{
  IsKeyed, find-insert_row, find-insert_row_before, find-insert_row_ne, insert_row-IsKeyed,
  insert_row-tasks, find_where-append,
}
use paihuo.Store.Merge.{
  with_policy, prepare_merge_task, inherit_merge_failure_policy, insert_merge_task, create_merge,
}

-- The merge task `m` of the source `i`, as it is created.
pub record IsMergeOf (i m : ℕ) (source merge : Task) : Type 0 where
  pub identity : merge.id ≡ m
  pub merges : merge.merge_of ≡ some i
  pub child : merge.parent_id ≡ some i
  pub waiting : merge.status ≡ queued
  pub automatic : merge.perm ≡ full
  pub serial : merge.concurrent ≡ false
  pub unordered : merge.depends_on ≡ none
  pub policy : merge.block_on_failure ≡ source.block_on_failure

-- Only the source's failure policy matters of the source.
pub IsMergeOf-source :
    {i m : ℕ} (source source' merge : Task)
    → IsMergeOf i m source merge
    → source.block_on_failure ≡ source'.block_on_failure
    → IsMergeOf i m source' merge
IsMergeOf-source source source' merge fits e = record {
  identity = fits.identity;
  merges = fits.merges;
  child = fits.child;
  waiting = fits.waiting;
  automatic = fits.automatic;
  serial = fits.serial;
  unordered = fits.unordered;
  policy = fits.policy ∙ e;
}

pub prepare-merges : (now i : ℕ) (merge : Task) → (prepare_merge_task now i merge).merge_of ≡ some i
unfolding prepare_merge_task
prepare-merges now i merge = refl

-- The row that `create_merge` inserts, by its columns.
pub insert_merge-IsMergeOf :
    (now i : ℕ) (merge source : Task) (db : Db) {db' : Db} {m : ℕ}
    → IsKeyed db
    → insert_merge_task db
        (record (prepare_merge_task now i merge) { block_on_failure = source.block_on_failure })
      ≡ ok (db', m)
    → (row : Task) × (get_task m db' ≡ some row) × IsMergeOf i m source row
unfolding insert_merge_task prepare_merge_task
insert_merge-IsMergeOf now i merge source db k h = (
  _,
  find-insert_row db _ h k,
  record {
    identity = refl;
    merges = refl;
    child = refl;
    waiting = refl;
    automatic = refl;
    serial = refl;
    unordered = refl;
    policy = refl;
  },
)

pub with_policy-parts :
    (db : Db) (merge : Task) (o : Option Task) {r : Db × ℕ}
    → (with_policy o merge >>= insert_merge_task db) ≡ ok r
    → (source : Task) × (o ≡ some source)
      × (insert_merge_task db (record merge { block_on_failure = source.block_on_failure }) ≡ ok r)
with_policy-parts db merge none h = cc
with_policy-parts db merge (some source) h = (source, refl, h)

-- What a successful `create_merge` did.
pub create_merge-parts :
    (db : Db) (i : ℕ) (merge : Task) {r : Db × ℕ}
    → create_merge db i merge ≡ ok r
    → (source : Task) × (get_task i db ≡ some source)
      × (insert_merge_task db (record merge { block_on_failure = source.block_on_failure }) ≡ ok r)
unfolding create_merge inherit_merge_failure_policy
create_merge-parts db i merge h = with_policy-parts db merge (get_task i db) h

pub insert_merge-others :
    (db : Db) (merge : Task) {db' : Db} {m : ℕ} (j : ℕ)
    → insert_merge_task db merge ≡ ok (db', m)
    → j ≢ m
    → get_task j db' ≡ get_task j db
unfolding insert_merge_task
insert_merge-others db merge j h ne = find-insert_row_ne db _ h j ne

pub insert_merge-apart :
    (db : Db) (merge : Task) {db' : Db} {m : ℕ} (i : ℕ) {t : Task}
    → IsKeyed db
    → insert_merge_task db merge ≡ ok (db', m)
    → get_task i db ≡ some t
    → m ≢ i
unfolding insert_merge_task
insert_merge-apart db merge i k h found e =
    cc (find-insert_row_before db _ h k, ap (λ j. get_task j db) e, found)

pub insert_merge-IsKeyed :
    (db : Db) (merge : Task) {db' : Db} {m : ℕ}
    → IsKeyed db
    → insert_merge_task db merge ≡ ok (db', m)
    → IsKeyed db'
unfolding insert_merge_task
insert_merge-IsKeyed db merge k h = insert_row-IsKeyed db _ h k

pub require-true : (b : Bool) (e : Error) {u : Unit {0}} → require b e ≡ ok u → b ≡ true
require-true true e h = refl
require-true false e h = cc

pub insert_row-found :
    (db : Db) (t : Task) {db' : Db} {m : ℕ} (i : ℕ)
    → t.merge_of ≡ some i
    → find_where (λ t. refers t.merge_of i) db.tasks ≡ none
    → insert_row db t ≡ ok (db', m)
    → find_where (λ t. refers t.merge_of i) db'.tasks ≡ some (stored m t)
insert_row-found db t {m = m} i target before h =
    rw
      (
        insert_row-tasks db t h,
        find_where-append (λ t. refers t.merge_of i) db.tasks (stored m t),
        before,
      )
      (ground arith)

pub exists_row-none :
    (p : Task → Bool) (ts : List Task) (t : Task) → exists_row p ts ≡ false → In t ts → p t ≡ false
unfolding exists_row
exists_row-none p [] t h m = absurd m
exists_row-none p (u ∷ us) t h (inl e) =
    let gone : p u ≡ false = ground arith in ap p (sym e) ∙ gone
exists_row-none p (u ∷ us) t h (inr m) = exists_row-none p us t (ground arith) m

-- No other row may merge what a new row merges.
pub insert_row-only :
    (db : Db) (t : Task) {db' : Db} {m : ℕ} (i : ℕ)
    → t.merge_of ≡ some i
    → insert_row db t ≡ ok (db', m)
    → (u : Task) → In u db'.tasks
    → u.merge_of ≡ some i
    → u.id ≡ m
unfolding insert_row clashes
insert_row-only db t {db'} {m} i target h u at_row merges =
    elim (In-append-split u (stored m t) db.tasks
      (rw (insert_row-tasks db t {db' = db'} {n = m} h) at at_row)) [
        | inl old ↦
            let none_clash : exists_row (clashes t) db.tasks ≡ false = ground arith in
            let apart : clashes t u ≡ false =
              exists_row-none (clashes t) db.tasks u none_clash old in
            absurd (ground arith)
        | inr same ↦ ap (λ (x : Task). x.id) (sym same)
      ]

pub insert_merge-only :
    (db : Db) (merge : Task) {db' : Db} {m : ℕ} (i : ℕ)
    → merge.merge_of ≡ some i
    → insert_merge_task db merge ≡ ok (db', m)
    → (u : Task) → In u db'.tasks
    → u.merge_of ≡ some i
    → u.id ≡ m
unfolding insert_merge_task
insert_merge-only db merge {db'} {m} i target h =
    insert_row-only db _ {db' = db'} {m = m} i target h

pub insert_merge-found :
    (db : Db) (merge : Task) {db' : Db} {m : ℕ} (i : ℕ)
    → merge.merge_of ≡ some i
    → find_where (λ t. refers t.merge_of i) db.tasks ≡ none
    → insert_merge_task db merge ≡ ok (db', m)
    → (row : Task) × (find_where (λ t. refers t.merge_of i) db'.tasks ≡ some row) × (row.id ≡ m)
unfolding insert_merge_task
insert_merge-found db merge i target before h = (_, insert_row-found db _ i target before h, refl)
