-- ===== src/Store/Create/Chained.antt =====
-- `CreateTaskWithProjectDependency` (internal/store/task_create.go) on a plain task of a project.
use paihuo.Prelude.{
  ℕ, suc, ◌≡◌, ◌≢◌, ◌<◌, ◌≤◌, refl, true, none, some, List, [], ◌∷◌, arith, In, inl, inr, sym, ◌∙◌,
}
use text.Mathlib.Text.{◌==◌ as str_eq}
use paihuo.Model.{Task}
use paihuo.Model.Words.{Mode, weak}
use paihuo.Store.Db.{Db, ok, get_task}
use paihuo.Store.Insert.{insert_row, stored}
use paihuo.Store.Insert.Laws.{IsKeyed, find-insert_row, find-insert_row_ne, insert_row-IsKeyed}
use paihuo.Store.Create.{
  normalize_dependency_mode, valid_dependency_mode, with_defaults, prepare_task_for_insert,
  insert_task, implements, max_sort_order, assign_next_task_sort_order, last_in_project, id_of,
  resolve_new_task_dependency, weak_by_default, create_task_with_project_dependency,
}
use paihuo.Store.Create.Target.{Last, last_in_project-Last}

pub max_sort_order_above :
    (project : ℕ) (ts : List Task) (u : Task)
    → In u ts
    → implements project u ≡ true
    → u.sort_order ≤ max_sort_order project ts
unfolding max_sort_order
max_sort_order_above project [] u m i = absurd m
max_sort_order_above project (t ∷ ts) u (inl same) i =
    let j : implements project t ≡ true = rw same i in rw (sym same) (ground (arith, j))
max_sort_order_above project (t ∷ ts) u (inr m) i =
    ground (arith, max_sort_order_above project ts u m i)

-- A task that a caller hands in without saying where it stands.
pub record Plain (project : ℕ) (t : Task) : Type 0 where
  pub of_project : t.project_id ≡ some project
  pub no_merge : t.merge_of ≡ none
  pub no_mode : t.dependency_mode ≡ Mode.unset
  pub no_target : t.depends_on ≡ none
  pub no_cron : str_eq t.cron "" ≡ true
  pub no_place : t.sort_order ≡ 0

-- The row that is written for it.
abbrev pub chained : ℕ → ℕ → Db → Task → Task
chained now project db t = record (with_defaults now t) {
  dependency_mode = weak;
  sort_order = suc (max_sort_order project db.tasks);
  depends_on = id_of (last_in_project project db.tasks);
  error = "";
  tmux_log_offset = 0;
  started_at = none;
}

module _ (now project : ℕ) (t : Task) (db : Db) (plain : Plain project t) where
  weakened : weak_by_default t ≡ record t { dependency_mode = weak }
  weakened = rw (plain.of_project, plain.no_merge, plain.no_mode, plain.no_target) refl

  prepared :
      prepare_task_for_insert now (weak_by_default t)
      ≡ record (with_defaults now t) { dependency_mode = weak }
  unfolding prepare_task_for_insert normalize_dependency_mode
  prepared = rw (weakened, plain.no_cron) refl

  placed :
      assign_next_task_sort_order db (prepare_task_for_insert now (weak_by_default t))
      ≡ record (with_defaults now t) {
        dependency_mode = weak;
        sort_order = suc (max_sort_order project db.tasks);
      }
  unfolding assign_next_task_sort_order
  placed = rw (prepared, plain.of_project, plain.no_merge, plain.no_place) refl

  resolved :
      resolve_new_task_dependency db
        (assign_next_task_sort_order db (prepare_task_for_insert now (weak_by_default t)))
      ≡ ok (record (with_defaults now t) {
        dependency_mode = weak;
        sort_order = suc (max_sort_order project db.tasks);
        depends_on = id_of (last_in_project project db.tasks);
      })
  unfolding resolve_new_task_dependency normalize_dependency_mode valid_dependency_mode
  resolved = rw (placed, plain.no_merge, plain.of_project) refl

  inserted : create_task_with_project_dependency now t db ≡ insert_row db (chained now project db t)
  unfolding create_task_with_project_dependency insert_task
  inserted = rw resolved refl

-- The effect on the table of creating task `n` of the project.
pub record Chained (project n : ℕ) (db db' : Db) : Type 0 where
  pub row : Task
  pub stored_at : get_task n db' ≡ some row
  pub waits : row.dependency_mode ≡ weak
  pub after : row.depends_on ≡ id_of (last_in_project project db.tasks)
  pub last : Last project db.tasks (last_in_project project db.tasks)
  pub beyond :
      (u : Task) → In u db.tasks → implements project u ≡ true → u.sort_order < row.sort_order
  pub others : (j : ℕ) → j ≢ n → get_task j db' ≡ get_task j db
  pub keyed : IsKeyed db'

-- A plain task of a project goes to the end of it: when `CreateTaskWithProjectDependency` succeeds on a
-- task that names a project and neither mode, target, schedule nor place, the new row waits, weakly, for
-- the last implementation task in the project's order (or for none, if there is none), its place is
-- beyond that of every implementation task of the project, and every other row is as it was.
pub create_task_with_project_dependency-Chained :
    (now project : ℕ) (t : Task) (db : Db) {db' : Db} {n : ℕ}
    → IsKeyed db
    → Plain project t
    → create_task_with_project_dependency now t db ≡ ok (db', n)
    → Chained project n db db'
create_task_with_project_dependency-Chained now project t db {db'} {n} k plain h =
    let e : insert_row db (chained now project db t) ≡ ok (db', n) =
      sym (inserted now project t db plain) ∙ h in
    record {
      row = stored n (chained now project db t);
      stored_at = find-insert_row db (chained now project db t) {db' = db'} {n = n} e k;
      waits = refl;
      after = refl;
      last = last_in_project-Last project db.tasks;
      beyond = λ u m i. omega (arith, max_sort_order_above project db.tasks u m i);
      others = find-insert_row_ne db (chained now project db t) {db' = db'} {n = n} e;
      keyed = insert_row-IsKeyed db (chained now project db t) {db' = db'} {n = n} e k;
    }
