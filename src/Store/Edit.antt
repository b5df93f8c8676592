-- ===== src/Store/Edit.antt =====
-- internal/store/task_update.go and revision.go: edits of a task that carry the revision their author
-- has read, and the order of the tasks of a project. The outer `none` is fuel that ran out.
pub mod Stale
pub mod Guarded
pub mod Total
use paihuo.Prelude.{
  ℕ, suc, ◌+◌, Bool, true, false, ◌&&◌, ◌||◌, not, Option, none, some, List, [], ◌∷◌, ◌==◌, ltb,
  if◌then◌else◌, is_some, elem,
}
use text.Mathlib.Text.{◌==◌ as str_eq}
use paihuo.Model.{Task}
use paihuo.Model.Words.{Mode, mode_is, independent, weak, strong, task, type_is}
use paihuo.Store.Db.{
  Db, Error, revision_conflict, dependency_update, constraint, Result, ok, err, ◌>>=◌, ◌>>◌,
  require, get_task, update_one,
}
use paihuo.Store.Insert.{task_ref_ok}
use paihuo.Store.Chain.{dependency_reaches, project_graph_acyclic}
use paihuo.Store.Create.{implements, valid_dependency_mode, validate_dependency_target}

-- A value of the map `set`: nil, an integer (0 stands for every one that is not positive), a dependency
-- mode, or a value of another type.
pub data Value : Type 0 where
  null : Value
  number : ℕ → Value
  mode_name : Mode → Value
  other : Value

-- The map `set`: the keys that the code reads, and what the remaining keys write to a row.
pub record Changes : Type 0 where
  pub dependency_mode : Option Value
  pub depends_on : Option Value
  pub project_id : Option Value
  pub rest : Option (Task → Task)

abbrev pub is_empty : Changes → Bool
is_empty set = not (
    is_some set.dependency_mode
    || (is_some set.depends_on || (is_some set.project_id || is_some set.rest)))

abbrev pub write_rest : Option (Task → Task) → Task → Task
write_rest none t = t
write_rest (some f) t = f t

-- A key that is written as it stands; the foreign key refuses what is no project.
abbrev pub written_project : List ℕ → Option Value → Task → Result (Option ℕ)
written_project projects none t = ok t.project_id
written_project projects (some null) t = ok none
written_project projects (some (number p)) t =
    if elem p projects then ok (some p) else err constraint
written_project projects (some _) t = err constraint

-- `UPDATE tasks SET …, updated_at=?, revision=revision+1 WHERE id=? AND revision=?`, of the row `t` that
-- is there.
abbrev pub edited : ℕ → Changes → Option ℕ → Task → Task
edited now set project t = record (write_rest set.rest t) {
  id = t.id;
  depends_on = t.depends_on;
  dependency_mode = t.dependency_mode;
  project_id = project;
  updated_at = now;
  revision = t.revision + 1;
}

-- `changed != 1` is a conflict.
abbrev pub or_conflict : Db × Bool → Result Db
or_conflict (db, changed) = if changed then ok db else err revision_conflict

unfoldable pub write_at : ℕ → ℕ → Changes → (Task → Task) → Option Task → Db → Result Db
write_at i expected set change none db = err revision_conflict
write_at i expected set change (some t) db =
    if t.revision == expected
    then (written_project db.projects set.project_id t >>= λ (p : Option ℕ).
        or_conflict (update_one i (λ u. u.revision == expected) change db))
    else err revision_conflict

abbrev pub written_or_same : List ℕ → Option Value → Task → Option ℕ
written_or_same projects v t = elim (written_project projects v t) [
  | ok p ↦ p
  | err e ↦ t.project_id
]

-- `UpdateAtRevision` of a task.
unfoldable pub update_at_revision : ℕ → ℕ → ℕ → Changes → Db → Result Db
update_at_revision now i expected set db =
    if expected == 0 || is_empty set
    then err revision_conflict
    else write_at i expected set
        (λ t. edited now set (written_or_same db.projects set.project_id t) t) (get_task i db) db

-- `AssertRevision` of a task.
abbrev pub assert_found : ℕ → Option Task → Result (Unit {0})
assert_found expected none = err Error.no_rows
assert_found expected (some t) = require (t.revision == expected) revision_conflict

unfoldable pub assert_revision : ℕ → ℕ → Db → Result (Unit {0})
assert_revision i expected db =
    if expected == 0 then err revision_conflict else assert_found expected (get_task i db)

-- `ORDER BY CASE WHEN sort_order > 0 THEN sort_order ELSE 9223372036854775807 END, created_at, id`.
abbrev pub rank : Task → ℕ
rank t = if ltb 0 t.sort_order then t.sort_order else 9223372036854775807

abbrev pub comes_first : Task → Task → Bool
comes_first a b =
    ltb (rank a) (rank b)
    || (rank a == rank b
        && (ltb a.created_at b.created_at || (a.created_at == b.created_at && ltb a.id b.id)))

unfoldable pub insert_in_order : Task → List Task → List Task
insert_in_order t [] = t ∷ []
insert_in_order t (u ∷ us) =
    let rest = insert_in_order t us in if comes_first u t then u ∷ rest else t ∷ u ∷ us

-- The implementation tasks of a project, less the definitions of schedules, in that order.
unfoldable pub project_order : ℕ → List Task → List Task
project_order project [] = []
project_order project (t ∷ ts) =
    let rest = project_order project ts in
    if implements project t && str_eq t.cron "" then insert_in_order t rest else rest

-- `previousProjectTask`: the loop over them.
unfoldable pub previous_in : ℕ → Option ℕ → List Task → Option ℕ
previous_in i previous [] = previous
previous_in i previous (t ∷ ts) =
    let rest = previous_in i (some t.id) ts in if t.id == i then previous else rest

unfoldable pub previous_project_task : Db → ℕ → ℕ → Option ℕ
previous_project_task db project i = previous_in i none (project_order project db.tasks)

-- The project after the edit, 0 for none.
abbrev pub current_project : Option ℕ → ℕ
current_project none = 0
current_project (some p) = p

unfoldable pub chosen_project : Task → Option Value → Result ℕ
chosen_project t none = ok (current_project t.project_id)
chosen_project t (some null) = ok 0
chosen_project t (some (number p)) = if p == 0 then err dependency_update else ok p
chosen_project t (some _) = err dependency_update

-- The mode after the edit.
abbrev pub current_mode : Task → Mode
current_mode t =
    if mode_is t.dependency_mode Mode.unset
    then (if is_some t.depends_on then strong else independent)
    else t.dependency_mode

unfoldable pub chosen_mode : Task → Option Value → Result Mode
chosen_mode t none = ok (current_mode t)
chosen_mode t (some (mode_name mode)) =
    if valid_dependency_mode mode then ok mode else err dependency_update
chosen_mode t (some _) = err dependency_update

-- The target that is asked for, or the one that stands.
unfoldable pub chosen_target : Task → Option Value → Result (Option ℕ)
chosen_target t none = ok t.depends_on
chosen_target t (some null) = ok none
chosen_target t (some (number d)) = if d == 0 then err dependency_update else ok (some d)
chosen_target t (some _) = err dependency_update

-- The switch on the mode. `asked` is `changesTarget`.
abbrev pub checked : Result (Unit {0}) → Option (Result (Option ℕ)) → Option (Result (Option ℕ))
checked (ok u) go = go
checked (err e) go = some (err dependency_update)

abbrev pub unless_cycle : ℕ → Option Bool → Option (Result (Option ℕ))
unless_cycle d none = none
unless_cycle d (some true) = some (err dependency_update)
unless_cycle d (some false) = some (ok (some d))

unfoldable pub settle_strong : Db → ℕ → ℕ → Option ℕ → Option (Result (Option ℕ))
settle_strong db i project none = some (err dependency_update)
settle_strong db i project (some d) =
    checked (validate_dependency_target db project d)
      (if d == i then some (err dependency_update) else unless_cycle d (dependency_reaches db d i))

unfoldable pub settle : Db → ℕ → ℕ → Mode → Bool → Option ℕ → Option (Result (Option ℕ))
settle db i project independent asked target = some (ok none)
settle db i project weak asked target =
    if project == 0 || (asked && is_some target)
    then some (err dependency_update)
    else some (ok (previous_project_task db project i))
settle db i project strong asked target =
    if project == 0 then some (err dependency_update) else settle_strong db i project target
settle db i project mode asked target = some (ok target)

-- The check after the write.
abbrev pub if_acyclic : Db → Option Bool → Option (Result Db)
if_acyclic db none = none
if_acyclic db (some false) = some (err dependency_update)
if_acyclic db (some true) = some (ok db)

unfoldable pub verify : ℕ → Db → Option (Result Db)
verify project db =
    if project == 0 then some (ok db) else if_acyclic db (project_graph_acyclic db project)

-- The UPDATE of `UpdateTaskAtRevision`, with the mode and the target that were settled.
abbrev pub relinked : Mode → Option ℕ → Task → Task
relinked mode target t = record t { dependency_mode = mode; depends_on = target }

unfoldable pub write_dependency : ℕ → ℕ → ℕ → Changes → Mode → Option ℕ → Task → Db → Result Db
write_dependency now i expected set mode target t db =
    written_project db.projects set.project_id t >>= λ (p : Option ℕ).
    require (task_ref_ok db.tasks target) constraint
    >> or_conflict (
        update_one i (λ u. u.revision == expected) (λ u. relinked mode target (edited now set p u))
          db)

abbrev pub then_verify : ℕ → Result Db → Option (Result Db)
then_verify project (err e) = some (err e)
then_verify project (ok db) = verify project db

abbrev pub finish :
    ℕ → ℕ → ℕ → Changes → ℕ → Mode → Task → Db → Option (Result (Option ℕ)) → Option (Result Db)
finish now i expected set project mode t db none = none
finish now i expected set project mode t db (some (err e)) = some (err e)
finish now i expected set project mode t db (some (ok target)) =
    then_verify project (write_dependency now i expected set mode target t db)

-- The three choices, in the order of the code.
abbrev pub with_target :
    ℕ → ℕ → ℕ → Changes → Task → Db → ℕ → Mode → Result (Option ℕ) → Option (Result Db)
with_target now i expected set t db project mode (err e) = some (err e)
with_target now i expected set t db project mode (ok target) =
    finish now i expected set project mode t db
      (settle db i project mode (is_some set.depends_on) target)

abbrev pub with_mode : ℕ → ℕ → ℕ → Changes → Task → Db → ℕ → Result Mode → Option (Result Db)
with_mode now i expected set t db project (err e) = some (err e)
with_mode now i expected set t db project (ok mode) =
    with_target now i expected set t db project mode (chosen_target t set.depends_on)

abbrev pub with_project : ℕ → ℕ → ℕ → Changes → Task → Db → Result ℕ → Option (Result Db)
with_project now i expected set t db (err e) = some (err e)
with_project now i expected set t db (ok project) =
    with_mode now i expected set t db project (chosen_mode t set.dependency_mode)

-- The guards on the row that was read.
abbrev pub guarded : ℕ → ℕ → ℕ → Changes → Db → Option Task → Option (Result Db)
guarded now i expected set db none = some (err revision_conflict)
guarded now i expected set db (some t) =
    if not (t.revision == expected)
    then some (err revision_conflict)
    else if is_some t.merge_of
    then some (err dependency_update)
    else if not (type_is t.shape task)
    then some (err dependency_update)
    else if not (str_eq t.cron "")
    then some (err dependency_update)
    else with_project now i expected set t db (chosen_project t set.project_id)

-- `UpdateTaskAtRevision`.
unfoldable pub update_task_at_revision : ℕ → ℕ → ℕ → Changes → Db → Option (Result Db)
update_task_at_revision now i expected set db =
    if not (is_some set.dependency_mode || is_some set.depends_on)
    then some (update_at_revision now i expected set db)
    else if expected == 0
    then some (err revision_conflict)
    else guarded now i expected set db (get_task i db)
