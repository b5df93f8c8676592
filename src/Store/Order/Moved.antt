-- ===== src/Store/Order/Moved.antt =====
-- `UpdateTask` on a task that changes its project.
use paihuo.Prelude.{
  ℕ, suc, ◌≡◌, ◌≢◌, ◌<◌, refl, Bool, true, false, ◌&&◌, Option, none, some, arith, ◌==◌,
  if◌then◌else◌, In, ap, sym, ◌∙◌, ==_refl,
}
use paihuo.Model.{Task}
use paihuo.Store.Db.{Db, constraint, ok, >>=-eq-ok, require, get_task}
use paihuo.Store.Db.Rows.{find-id}
use paihuo.Store.Db.Update.{get_task-update_one, get_task-update_one_ne}
use paihuo.Store.Create.{implements, max_sort_order}
use paihuo.Store.Create.Chained.{max_sort_order_above}
use paihuo.Store.Edit.{number, write_rest}
use paihuo.Store.Order.{
  same_project, place_in, placed_at, stamped, update_columns, known_project, move_found,
  update_task,
}

-- What the move writes to a row.
abbrev pub moved_columns : ℕ → Option (Task → Task) → Db → Task → Task
moved_columns project rest db u = record (write_rest rest u) {
  project_id = some project;
  sort_order = suc (max_sort_order project db.tasks);
}

place_in-other :
    (db : Db) (project : ℕ) (t : Task)
    → t.merge_of ≡ none
    → same_project t.project_id (some project) ≡ false
    → place_in db (some project) t ≡ some (suc (max_sort_order project db.tasks))
unfolding place_in
place_in-other db project t merges differs = rw (merges, differs) refl

get_task-update_columns :
    (now i : ℕ) (write : Task → Task) (db : Db) {t : Task}
    → get_task i db ≡ some t
    → get_task i (update_columns now i write db) ≡ some (stamped now write t)
get_task-update_columns now i write db {t} found =
    let number : t.id ≡ i = find-id i db.tasks {t = t} found in
    get_task-update_one i (λ u. true) (stamped now write) db i (λ u. refl)
    ∙ rw found (met (t.id == i) (ap (λ (n : ℕ). n == i) number ∙ ==_refl i))
  where
    met :
        (b : Bool)
        → b ≡ true
        → some (if b && true then stamped now write t else t) ≡ some (stamped now write t)
    met true e = refl
    met false e = absurd (cc)

-- When `UpdateTask` moves an implementation task to another project, its row names that project and
-- stands beyond every implementation task that the project has, and no other row changes.
pub update_task-moved :
    (now i project : ℕ) (rest : Option (Task → Task)) (db : Db) (t : Task) {db' : Db}
    → get_task i db ≡ some t
    → t.merge_of ≡ none
    → same_project t.project_id (some project) ≡ false
    → update_task now i (some (number project)) rest db ≡ ok db'
    → (u : Task) × (get_task i db' ≡ some u)
      × (u.project_id ≡ some project)
      × ((v : Task) → In v db.tasks → implements project v ≡ true → v.sort_order < u.sort_order)
      × ((j : ℕ) → j ≢ i → get_task j db' ≡ get_task j db)
unfolding update_task
update_task-moved now i project rest db t {db'} found merges differs h =
    let k : move_found now i (some project) rest db (get_task i db) ≡ ok db' = ground arith in
    let k' : move_found now i (some project) rest db (some t) ≡ ok db' = rw found at k in
    let (u, known, last) = >>=-eq-ok (require (known_project db (some project)) constraint) _ k' in
    let same : update_columns now i
          (λ x.
            placed_at (place_in db (some project) t)
              (record (write_rest rest x) { project_id = some project }))
          db
        ≡ db' =
      cc in
    let end : update_columns now i (moved_columns project rest db) db ≡ db' =
      rw (place_in-other db project t merges differs) at same in
    (
      stamped now (moved_columns project rest db) t,
      ap (λ (d : Db). get_task i d) (sym end)
          ∙ get_task-update_columns now i (moved_columns project rest db) db {t = t} found,
      refl,
      (λ v m is. omega (arith, max_sort_order_above project db.tasks v m is)),
      λ j ne.
          ap (λ (d : Db). get_task j d) (sym end)
          ∙ get_task-update_one_ne i (λ x. true) (stamped now (moved_columns project rest db)) db j
              (λ x. refl) ne,
    )
