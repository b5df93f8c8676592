-- ===== src/Store/Delete.antt =====
-- internal/store/task_delete.go: deleting a task with its tree. The walks over the tree and along the
-- dependencies run on fuel; `none` means that it ran out. The rows stand in the order of their ids, as
-- AUTOINCREMENT hands them out, so that `ORDER BY id` is the order of the list.
pub mod Replace
pub mod Unlink
pub mod Tree
use paihuo.Prelude.{
  ℕ, zero, suc, ◌+◌, Bool, true, false, ◌&&◌, ◌||◌, not, Option, none, some, List, [], ◌∷◌, ◌++◌,
  ◌==◌, if◌then◌else◌, elem, refers, length, any, ◌≡◌, refl,
}
use paihuo.Model.{Task}
use paihuo.Model.Words.{Mode, mode_is, strong, independent}
use paihuo.Store.Db.{
  Db, Edge, Error, no_rows, constraint, task_dependency, Result, ok, err, ◌>>=◌, get_task,
  update_one,
}
use paihuo.Store.Db.Rows.{exists_row, delete_rows, update_rows}

-- `collectTaskTreeIDs`: the children by `parent_id` or `merge_of`; `seen` is the map, as a list.
unfoldable pub children_by_tree : ℕ → List Task → List ℕ
children_by_tree i [] = []
children_by_tree i (t ∷ ts) =
    let rest = children_by_tree i ts in
    if refers t.parent_id i || refers t.merge_of i then t.id ∷ rest else rest

-- A loop over children, with what is done for each.
unfoldable pub for_each : (List ℕ → ℕ → Option (List ℕ)) → List ℕ → List ℕ → Option (List ℕ)
for_each visit seen [] = some seen
for_each visit seen (c ∷ cs) = elim (visit seen c) [
  | none ↦ none
  | some seen' ↦ for_each visit seen' cs
]

unfoldable pub collect_task_tree_ids : ℕ → Db → List ℕ → ℕ → Option (List ℕ)
collect_task_tree_ids zero db seen i = none
collect_task_tree_ids (suc fuel) db seen i =
    let rest = for_each (collect_task_tree_ids fuel db) (i ∷ seen) (children_by_tree i db.tasks) in
    if elem i seen
    then some seen
    else if exists_row (λ t. t.id == i) db.tasks
    then rest
    else some seen

-- `unlinkTaskSessionReferences`.
unfoldable pub unlink_task_session_references : ℕ → List ℕ → Db → Db
unlink_task_session_references now [] db = db
unlink_task_session_references now (i ∷ deleting) db =
    unlink_task_session_references now deleting (record db {
      tasks =
          update_rows (λ t. refers t.session_id i)
            (λ t. record t { session_id = none; updated_at = now; revision = t.revision + 1 })
            db.tasks;
    })

-- `dependsOn.Valid && mode != none && mode != ""`.
abbrev pub followed : Task → Option ℕ
followed t =
    if mode_is t.dependency_mode independent || mode_is t.dependency_mode Mode.unset
    then none
    else t.depends_on

abbrev pub followed_row : Option Task → Option ℕ
followed_row none = none
followed_row (some t) = followed t

-- `dependencyReplacement`: the outer `none` is the fuel, the inner one SQL's NULL.
unfoldable pub dependency_replacement : ℕ → List ℕ → List ℕ → Db → ℕ → Option (Option ℕ)
dependency_replacement zero deleting seen db current = none
dependency_replacement (suc fuel) deleting seen db current =
    let rest : Option (Option ℕ) = elim (followed_row (get_task current db)) [
      | none ↦ some none
      | some candidate ↦
          let next = dependency_replacement fuel deleting (current ∷ seen) db candidate in
          if elem candidate deleting then next else some (some candidate)
    ] in
    if elem current seen then some none else rest

-- `UPDATE tasks SET depends_on=?, … WHERE id=?`.
unfoldable pub set_depends_on : ℕ → ℕ → Option ℕ → Db → Db
set_depends_on now i target db =
    (update_one i (λ t. true)
      (λ t. record t { depends_on = target; updated_at = now; revision = t.revision + 1 }) db).0

-- `SELECT id, dependency_mode FROM tasks WHERE depends_on=?`.
unfoldable pub dependents_of : ℕ → List Task → List (ℕ × Mode)
dependents_of source [] = []
dependents_of source (t ∷ ts) =
    let rest = dependents_of source ts in
    if refers t.depends_on source then (t.id, t.dependency_mode) ∷ rest else rest

abbrev pub relink : ℕ → ℕ → Db → Option (Option ℕ) → Option (Result Db)
relink now dependent db none = none
relink now dependent db (some replacement) = some (ok (set_depends_on now dependent replacement db))

abbrev pub and_go_on : Option (Result Db) → (Db → Option (Result Db)) → Option (Result Db)
and_go_on none go = none
and_go_on (some (err e)) go = some (err e)
and_go_on (some (ok db)) go = go db

pub and_go_on-parts :
    (r : Option (Result Db)) (go : Db → Option (Result Db)) {b : Db}
    → and_go_on r go ≡ some (ok b)
    → (a : Db) × (r ≡ some (ok a)) × (go a ≡ some (ok b))
and_go_on-parts none go h = cc
and_go_on-parts (some (err e)) go h = cc
and_go_on-parts (some (ok a)) go h = (a, refl, h)

-- The inner loop of `unlinkTaskDependencies`, over the dependents of one source.
unfoldable pub unlink_dependents : ℕ → List ℕ → ℕ → List (ℕ × Mode) → Db → Option (Result Db)
unlink_dependents now deleting source [] db = some (ok db)
unlink_dependents now deleting source ((dependent, mode) ∷ rest) db =
    and_go_on
      (if elem dependent deleting
        then some (ok db)
        else if mode_is mode strong
        then some (err (task_dependency dependent source))
        else relink now dependent db
            (dependency_replacement (suc (suc (length deleting))) deleting [] db source))
      (λ db'. unlink_dependents now deleting source rest db')

-- `unlinkTaskDependencies`: `sources` runs through the set `deleting`.
unfoldable pub unlink_task_dependencies : ℕ → List ℕ → List ℕ → Db → Option (Result Db)
unlink_task_dependencies now deleting [] db = some (ok db)
unlink_task_dependencies now deleting (source ∷ sources) db =
    and_go_on (unlink_dependents now deleting source (dependents_of source db.tasks) db)
      (λ db'. unlink_task_dependencies now deleting sources db')

-- The children of `deleteTaskTree`, by four columns.
abbrev pub is_child : ℕ → Task → Bool
is_child i t =
    refers t.parent_id i
    || (refers t.merge_of i || (refers t.parent_session_id i || refers t.parent_task_id i))

unfoldable pub children_of : ℕ → List Task → List ℕ
children_of i [] = []
children_of i (t ∷ ts) = let rest = children_of i ts in if is_child i t then t.id ∷ rest else rest

-- Another row, or an edge, that a foreign key holds to the row `i`.
abbrev pub references : ℕ → Task → Bool
references i t =
    not (t.id == i)
    && (refers t.parent_id i
        || (refers t.depends_on i
            || (refers t.resume_of i
                || (refers t.session_id i
                    || (refers t.parent_session_id i || refers t.parent_task_id i)))))

abbrev pub restricts : ℕ → Edge → Bool
restricts i e = e.depends_on == i

unfoldable pub drop_edges : ℕ → List Edge → List Edge
drop_edges i [] = []
drop_edges i (e ∷ es) = let rest = drop_edges i es in if e.task_id == i then rest else e ∷ rest

-- `DELETE FROM tasks WHERE id=?`, under the foreign keys; its own edges go with it.
unfoldable pub delete_row : ℕ → Db → Result Db
delete_row i db =
    if not (exists_row (λ t. t.id == i) db.tasks)
    then err no_rows
    else if exists_row (references i) db.tasks || any (restricts i) db.edges
    then err constraint
    else ok
        (record db { tasks = delete_rows (λ t. t.id == i) db.tasks; edges = drop_edges i db.edges })

-- The loop of `deleteTaskTree` over the children.
unfoldable pub delete_each : (ℕ → Db → Option (Result Db)) → List ℕ → Db → Option (Result Db)
delete_each delete [] db = some (ok db)
delete_each delete (c ∷ cs) db = and_go_on (delete c db) (λ db'. delete_each delete cs db')

-- `deleteTaskTree`.
unfoldable pub delete_task_tree : ℕ → ℕ → Db → Option (Result Db)
delete_task_tree zero i db = none
delete_task_tree (suc fuel) i db =
    and_go_on (delete_each (delete_task_tree fuel) (children_of i db.tasks) db)
      (λ db'. some (delete_row i db'))

-- `DeleteTask`: the fuel bounds the depth of both trees.
abbrev pub delete_collected : ℕ → ℕ → ℕ → Db → List ℕ → Option (Result Db)
delete_collected fuel now i db [] = some (err no_rows)
delete_collected fuel now i db (d ∷ ds) =
    and_go_on (unlink_task_dependencies now (d ∷ ds) (d ∷ ds) db)
      (λ db'. delete_task_tree fuel i (unlink_task_session_references now (d ∷ ds) db'))

unfoldable pub delete_task : ℕ → ℕ → ℕ → Db → Option (Result Db)
delete_task fuel now i db = elim (collect_task_tree_ids fuel db [] i) [
  | none ↦ none
  | some deleting ↦ delete_collected fuel now i db deleting
]
