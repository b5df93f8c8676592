-- ===== src/Application.antt =====
-- internal/application/task_lifecycle.go: `Create`, by which users, schedules and agents make tasks. Each
-- of its errors is of one kind, `TaskErrorInvalid`, here `none`.
pub mod Kept
pub mod Workflows
pub mod Transitions
use paihuo.Prelude.{
  ℕ, String, Bool, true, false, ◌&&◌, ◌||◌, not, Option, none, some, ◌==◌, if◌then◌else◌, is_some,
  elem, List,
}
use text.Mathlib.Text.{◌==◌ as str_eq}
use paihuo.Model.{Task, Role, zero_task}
use paihuo.Model.Words.{
  queued, Perm, full, review, perm_is, Mode, independent, weak, strong, mode_is, RunMode, batch,
  interactive, run_mode_is,
}
use paihuo.Store.Db.{Db, Result, ok, err, get_task}
use paihuo.Store.Roles.{find_role}
use paihuo.Store.Create.{create_task_with_project_dependency}

-- `if !test { return error }`, and `if err != nil { return err }` after a call.
module _ {ℓ} {A : Type ℓ} where
  abbrev pub when : Bool → Option A → Option A
  when true next = next
  when false next = none

  abbrev pub after {κ} : {B : Type κ} → Option B → (B → Option A) → Option A
  after none next = none
  after (some b) next = next b

-- `strings.TrimSpace`, whether a role's runtime has interactive tasks, and the directory of a project.
pub record Env : Type 0 where
  pub trim : String → String
  pub supports : ℕ → Bool
  pub dir_of : ℕ → String

pub record CreateTaskRequest : Type 0 where
  pub title : String
  pub body : String
  pub role_id : Option ℕ
  pub project_id : Option ℕ
  pub external_key : String
  pub permission : Perm
  pub run_mode : RunMode
  pub concurrent : Bool
  pub dependency_mode : Mode
  pub depends_on : Option ℕ
  pub block_on_failure : Bool
  pub parent_id : Option ℕ
  pub resume_of : Option ℕ
  pub parent_session_id : Option ℕ
  pub parent_task_id : Option ℕ
  pub cron : String
  pub enabled : Bool

-- `normalizeDependency`.
abbrev pub default_mode : Option ℕ → Mode → Mode
default_mode project mode =
    if mode_is mode Mode.unset then (if is_some project then weak else independent) else mode

abbrev pub positive_target : Option ℕ → Bool
positive_target none = false
positive_target (some i) = not (i == 0)

abbrev pub by_mode : Task → Mode → Option Task
by_mode t independent = some (record t { dependency_mode = independent; depends_on = none })
by_mode t weak =
    when (is_some t.project_id) (some (record t { dependency_mode = weak; depends_on = none }))
by_mode t strong =
    when (is_some t.project_id && positive_target t.depends_on)
      (some (record t { dependency_mode = strong }))
by_mode t _ = none

unfoldable pub normalize_dependency : Task → Option Task
normalize_dependency t = by_mode t (default_mode t.project_id t.dependency_mode)

-- The defaults and the checks of the permission and of the way to run.
abbrev pub default_perm : Perm → Perm
default_perm perm = if perm_is perm Perm.unset then full else perm

abbrev pub perm_ok : Perm → Bool
perm_ok perm = perm_is perm full || perm_is perm review

abbrev pub default_run : RunMode → RunMode
default_run mode = if run_mode_is mode RunMode.unset then batch else mode

abbrev pub run_ok : RunMode → Bool
run_ok mode = run_mode_is mode batch || run_mode_is mode interactive

abbrev pub dir_for : Env → Option ℕ → String
dir_for env none = ""
dir_for env (some project) = env.dir_of project

abbrev pub project_ok : Db → Option ℕ → Bool
project_ok db none = true
project_ok db (some project) = elem project db.projects

-- The role must be there and enabled; an interactive task needs a role whose runtime has them.
abbrev pub able : Env → CreateTaskRequest → Option Role → Bool
able env q none = false
able env q (some role) =
    role.enabled
    && not (
        run_mode_is (default_run q.run_mode) interactive
        && (not (is_some q.resume_of) && not (env.supports role.id)))

abbrev pub role_ok : Env → CreateTaskRequest → Db → Option ℕ → Bool
role_ok env q db none = not (run_mode_is (default_run q.run_mode) interactive)
role_ok env q db (some r) = able env q (find_role r db.roles)

unfoldable pub requested : Env → CreateTaskRequest → Task
requested env q = record zero_task {
  title = env.trim q.title;
  body = q.body;
  status = queued;
  perm = default_perm q.permission;
  run_mode = default_run q.run_mode;
  concurrent = q.concurrent;
  role_id = q.role_id;
  project_id = q.project_id;
  parent_id = q.parent_id;
  resume_of = q.resume_of;
  external_key = q.external_key;
  dependency_mode = q.dependency_mode;
  depends_on = q.depends_on;
  block_on_failure = q.block_on_failure;
  parent_session_id = q.parent_session_id;
  parent_task_id = q.parent_task_id;
  cron = q.cron;
  enabled = q.enabled;
  project_dir = dir_for env q.project_id;
}

abbrev pub reread : Db → Option Task → Option (Db × Task)
reread db none = none
reread db (some t) = some (db, t)

abbrev pub inserted : Result (Db × ℕ) → Option (Db × Task)
inserted (err e) = none
inserted (ok (db, i)) = reread db (get_task i db)

-- `Create`.
unfoldable pub create : Env → ℕ → CreateTaskRequest → Db → Option (Db × Task)
create env now q db = when (not (str_eq (env.trim q.title) "")) (
    when (perm_ok (default_perm q.permission)) (
      when (run_ok (default_run q.run_mode)) (
        when (project_ok db q.project_id) (
          when (role_ok env q db q.role_id) (
            after (normalize_dependency (requested env q))
              (λ t. inserted (create_task_with_project_dependency now t db)))))))
