-- ===== src/Store/Create.antt =====
-- internal/store/task_create.go: a new task, its defaults, its place in the order of its project, and
-- the task that it depends on. The texts of the refusals are not modelled.
pub mod Target
pub mod Chained
pub mod Acyclic
use paihuo.Prelude.{
  ℕ, suc, ◌+◌, Bool, true, false, ◌&&◌, ◌||◌, not, Option, none, some, List, [], ◌∷◌, ◌==◌, ltb,
  if◌then◌else◌, is_some, refers,
}
use text.Mathlib.Text.{◌==◌ as str_eq}
use paihuo.Model.{Task}
use paihuo.Model.Words.{
  Mode, mode_is, independent, weak, strong, RunMode, batch, run_mode_is, TaskType, task, type_is,
}
use paihuo.Store.Db.{Db, Error, invalid_dependency, Result, ok, err, ◌>>=◌, get_task}
use paihuo.Store.Insert.{insert_row}

-- `validDependencyMode`.
unfoldable pub valid_dependency_mode : Mode → Bool
valid_dependency_mode mode = mode_is mode independent || (mode_is mode weak || mode_is mode strong)

-- `normalizeDependencyMode`.
unfoldable pub normalize_dependency_mode : Task → Task
normalize_dependency_mode t =
    if mode_is t.dependency_mode Mode.unset
    then record t { dependency_mode = if is_some t.depends_on then strong else independent }
    else t

-- The defaults at the head of `prepareTaskForInsert`. A time of 0 is the empty text.
abbrev pub with_defaults : ℕ → Task → Task
with_defaults now t =
    let created = if t.created_at == 0 then now else t.created_at in
    record t {
      created_at = created;
      updated_at = if t.updated_at == 0 then created else t.updated_at;
      shape = if type_is t.shape TaskType.unset then task else t.shape;
      run_mode = if run_mode_is t.run_mode RunMode.unset then batch else t.run_mode;
    }

-- A definition of a schedule is never executed.
abbrev pub outside_chain : Task → Task
outside_chain t =
    if str_eq t.cron ""
    then t
    else record t { dependency_mode = independent; depends_on = none; run_mode = batch }

-- `prepareTaskForInsert`.
unfoldable pub prepare_task_for_insert : ℕ → Task → Task
prepare_task_for_insert now t = normalize_dependency_mode (outside_chain (with_defaults now t))

-- `insertTask`: the columns that the statement does not name take the schema's defaults.
unfoldable pub insert_task : Db → Task → Result (Db × ℕ)
insert_task db t = insert_row db (record t { error = ""; tmux_log_offset = 0; started_at = none })

-- `project_id=? AND merge_of IS NULL`.
abbrev pub implements : ℕ → Task → Bool
implements project t = refers t.project_id project && not (is_some t.merge_of)

-- `COALESCE(MAX(sort_order), 0)` over those rows.
unfoldable pub max_sort_order : ℕ → List Task → ℕ
max_sort_order project [] = 0
max_sort_order project (t ∷ ts) =
    let rest = max_sort_order project ts in
    if implements project t && ltb rest t.sort_order then t.sort_order else rest

-- `assignNextTaskSortOrder`; the test `next < 1` cannot hold of the successor.
abbrev pub placed_in : Db → Task → Option ℕ → Task
placed_in db t none = t
placed_in db t (some project) =
    if is_some t.merge_of || ltb 0 t.sort_order
    then t
    else record t { sort_order = suc (max_sort_order project db.tasks) }

unfoldable pub assign_next_task_sort_order : Db → Task → Task
assign_next_task_sort_order db t = placed_in db t t.project_id

-- `CreateTask`: `assignNextTaskSortOrder` repeats the test that tells its two paths apart.
unfoldable pub create_task : ℕ → Task → Db → Result (Db × ℕ)
create_task now t db =
    insert_task db (assign_next_task_sort_order db (prepare_task_for_insert now t))

-- `validateDependencyTarget`.
abbrev pub is_target : ℕ → Task → Bool
is_target project t =
    type_is t.shape task
    && (str_eq t.cron "" && (not (is_some t.merge_of) && refers t.project_id project))

abbrev pub check_target : ℕ → Option Task → Result (Unit {0})
check_target project none = err invalid_dependency
check_target project (some t) = if is_target project t then ok tt else err invalid_dependency

unfoldable pub validate_dependency_target : Db → ℕ → ℕ → Result (Unit {0})
validate_dependency_target db project dependency =
    if dependency == 0
    then err invalid_dependency
    else check_target project (get_task dependency db)

-- `ORDER BY sort_order DESC, created_at DESC, id DESC`: does `a` come before `b`?
abbrev pub comes_later : Task → Task → Bool
comes_later a b =
    ltb b.sort_order a.sort_order
    || (a.sort_order == b.sort_order
        && (ltb b.created_at a.created_at || (a.created_at == b.created_at && ltb b.id a.id)))

abbrev pub later_of : Task → Option Task → Task
later_of t none = t
later_of t (some u) = if comes_later t u then t else u

-- The first row of that order among those of `project_id=? AND merge_of IS NULL AND cron=''`.
unfoldable pub last_in_project : ℕ → List Task → Option Task
last_in_project project [] = none
last_in_project project (t ∷ ts) =
    let rest = last_in_project project ts in
    if implements project t && str_eq t.cron "" then some (later_of t rest) else rest

abbrev pub id_of : Option Task → Option ℕ
id_of none = none
id_of (some t) = some t.id

-- The switch of `resolveNewTaskDependency`, for a task of a project.
abbrev pub check_strong : Db → ℕ → Task → Option ℕ → Result Task
check_strong db project t none = err invalid_dependency
check_strong db project t (some dependency) =
    validate_dependency_target db project dependency >>= λ (u : Unit {0}). ok t

abbrev pub resolve_by_mode : Db → ℕ → Task → Mode → Result Task
resolve_by_mode db project t independent = ok (record t { depends_on = none })
resolve_by_mode db project t strong = check_strong db project t t.depends_on
resolve_by_mode db project t weak =
    ok (record t { depends_on = id_of (last_in_project project db.tasks) })
resolve_by_mode db project t _ = err invalid_dependency

abbrev pub resolve_in : Db → Task → Option ℕ → Result Task
resolve_in db t none =
    if is_some t.depends_on || not (mode_is t.dependency_mode independent)
    then err invalid_dependency
    else ok t
resolve_in db t (some project) = resolve_by_mode db project t t.dependency_mode

-- `resolveNewTaskDependency`.
abbrev pub resolve_normal : Db → Task → Result Task
resolve_normal db t =
    if valid_dependency_mode t.dependency_mode
    then resolve_in db t t.project_id
    else err invalid_dependency

unfoldable pub resolve_new_task_dependency : Db → Task → Result Task
resolve_new_task_dependency db t =
    if is_some t.merge_of
    then ok (record t { depends_on = none; dependency_mode = independent })
    else resolve_normal db (normalize_dependency_mode t)

-- The default at the head of `CreateTaskWithProjectDependency`.
abbrev pub weak_by_default : Task → Task
weak_by_default t =
    if not (is_some t.merge_of)
      && (is_some t.project_id
          && (mode_is t.dependency_mode Mode.unset && not (is_some t.depends_on)))
    then record t { dependency_mode = weak }
    else t

-- `CreateTaskWithProjectDependency`.
unfoldable pub create_task_with_project_dependency : ℕ → Task → Db → Result (Db × ℕ)
create_task_with_project_dependency now t db =
    resolve_new_task_dependency db
      (assign_next_task_sort_order db (prepare_task_for_insert now (weak_by_default t)))
    >>= λ resolved. insert_task db resolved
