-- ===== src/Store/Db/Update.antt =====
-- The laws of `UPDATE tasks SET … WHERE id=i AND …` under the primary key.
use paihuo.Prelude.{
  Option, none, some, ℕ, ◌≡◌, ◌≢◌, refl, Bool, false, ◌&&◌, List, [], ◌∷◌, arith, ◌==◌, ap, sym,
  ◌∙◌,
}
use paihuo.Model.{Task}
use paihuo.Store.Db.{Db, get_task, update_one}
use paihuo.Store.Db.Rows.{
  find-id, find, find-update_rows, update_rows, count_rows_at, UniqueIds, UniqueIds-update_rows,
  KeepsId, changed, passes, Fresh,
}

-- A statement that matches no row leaves the table as it is.
update_rows-Fresh :
    (q : Task → Bool) (f : Task → Task) (i : ℕ) (ts : List Task)
    → Fresh i ts
    → update_rows (λ t. t.id == i && q t) f ts ≡ ts
unfolding update_rows
update_rows-Fresh q f i [] h = refl
update_rows-Fresh q f i (t ∷ ts) h = ground (arith, update_rows-Fresh q f i ts)

update_rows_refused :
    (q : Task → Bool) (f : Task → Task) (i : ℕ) (ts : List Task)
    → UniqueIds ts
    → passes q (find i ts) ≡ false
    → update_rows (λ t. t.id == i && q t) f ts ≡ ts
unfolding update_rows find
update_rows_refused q f i [] u h = refl
update_rows_refused q f i (t ∷ ts) u h =
    ground (arith, update_rows_refused q f i ts, update_rows-Fresh q f i ts)

module _ (i : ℕ) (test : Task → Bool) (change : Task → Task) (db : Db) where
  -- It reports one changed row exactly if the row `i` passes the test.
  pub update_one_flag :
      UniqueIds db.tasks → (update_one i test change db).1 ≡ passes test (get_task i db)
  unfolding update_one
  update_one_flag u = ground (arith, count_rows_at test i db.tasks u)

  pub update_one_refused :
      UniqueIds db.tasks
      → (update_one i test change db).1 ≡ false
      → (update_one i test change db).0 ≡ db
  unfolding update_one
  update_one_refused u h =
      ap (λ ts. record db { tasks = ts })
        (update_rows_refused test change i db.tasks u (sym (update_one_flag u) ∙ h))

  pub update_one-UniqueIds :
      KeepsId change → UniqueIds db.tasks → UniqueIds (update_one i test change db).0.tasks
  unfolding update_one
  update_one-UniqueIds k u = UniqueIds-update_rows _ change k db.tasks u

  -- Every query by id sees the change at `i`, and nothing else.
  pub get_task-update_one :
      (j : ℕ)
      → KeepsId change
      → get_task j (update_one i test change db).0
        ≡ changed (λ t. t.id == i && test t) change (get_task j db)
  unfolding update_one
  get_task-update_one j k = find-update_rows _ change k j db.tasks

  changed_elsewhere :
      (j : ℕ)
      → j ≢ i
      → (o : Option Task) → ((t : Task) → o ≡ some t → t.id ≡ j)
      → changed (λ t. t.id == i && test t) change o ≡ o
  changed_elsewhere j ne none same = refl
  changed_elsewhere j ne (some t) same = ground (arith, same t refl)

  -- A query of another id sees what it saw.
  pub get_task-update_one_ne :
      (j : ℕ) → KeepsId change → j ≢ i → get_task j (update_one i test change db).0 ≡ get_task j db
  get_task-update_one_ne j k ne =
      get_task-update_one j k
      ∙ changed_elsewhere j ne (get_task j db) (λ t found. find-id j db.tasks {t = t} found)
