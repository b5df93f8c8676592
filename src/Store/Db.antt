-- ===== src/Store/Db.antt =====
-- The tables of internal/store/schema.go that the modelled statements touch, and what each SQL
-- statement written in internal/store does to their rows. A SELECT is a function of the rows, an
-- UPDATE maps them and counts those that matched, a transaction returns its new state or an error.
pub mod Rows
pub mod Update
use paihuo.Prelude.{
  ℕ, suc, ◌+◌, ◌≡◌, refl, String, Bool, true, false, ◌&&◌, ◌||◌, Option, none, some, List, [], ◌∷◌,
  ◌++◌, ◌==◌, if◌then◌else◌, refers, any, elem, map,
}
use text.Mathlib.Text.{◌==◌ as str_eq}
use paihuo.Model.{Task, Role}
use Rows.{find, count_rows, update_rows, exists_row}

-- A row of `task_dependencies`; `resume` is `on_failure = 'continue'`.
pub record Edge : Type 0 where
  pub task_id : ℕ
  pub depends_on : ℕ
  pub resume : Bool

pub record Db : Type 0 where
  pub tasks : List Task
  pub last_id : ℕ
  pub edges : List Edge
  pub projects : List ℕ
  pub roles : List Role
  pub runs : List ℕ

-- The errors of the store: `ErrRevisionConflict`, `sql.ErrNoRows`, `TaskDependencyUpdateError`,
-- `TaskDependencyError`, a constraint that SQLite refuses, and the plain errors by their text.
pub data Error : Type 0 where
  revision_conflict : Error
  no_rows : Error
  dependency_update : Error
  task_dependency : ℕ → ℕ → Error
  constraint : Error
  invalid_source : Error
  not_mergeable : Error
  not_deliverable : Error
  invalid_dependency : Error
  invalid_project : Error
  invalid_order : Error
  cyclic : Error
  invalid_spec : Error
  runs_active : Error
  invalid_status : Error

pub data Result {ℓ} (A : Type ℓ) : Type ℓ where
  ok : A → Result A
  err : Error → Result A

-- `if !test { return err }`.
abbrev pub require : Bool → Error → Result (Unit {0})
require false reason = err reason
require true reason = ok tt

-- `if err != nil { return err }` after a call.
module _ {ℓ κ} {A : Type ℓ} {B : Type κ} where
  infixl 5 ◌>>=◌
  abbrev pub ◌>>=◌ : Result A → (A → Result B) → Result B
  err reason >>= next = err reason
  ok value >>= next = next value

  pub >>=-eq-ok :
      (first : Result A) (next : A → Result B) {b : B}
      → (first >>= next) ≡ ok b
      → (a : A) × (first ≡ ok a) × (next a ≡ ok b)
  >>=-eq-ok (err reason) next h = cc
  >>=-eq-ok (ok value) next h = (value, refl, h)

infixl 5 ◌>>◌
abbrev pub ◌>>◌ {ℓ} : {B : Type ℓ} → Result (Unit {0}) → Result B → Result B
first >> last = first >>= λ done. last

-- `GetTask`; `none` is `sql.ErrNoRows`.
abbrev pub get_task : ℕ → Db → Option Task
get_task i db = find i db.tasks

-- `UPDATE tasks SET … WHERE id=i AND …`, with whether it changed exactly one row.
unfoldable pub update_one : ℕ → (Task → Bool) → (Task → Task) → Db → Db × Bool
update_one i test change db = (
  record db { tasks = update_rows (λ t. t.id == i && test t) change db.tasks },
  count_rows (λ t. t.id == i && test t) db.tasks == 1,
)
