-- ===== src/Store/Order.antt =====
-- internal/store/task_update.go: `ReorderProjectTasks`, which moves the queued tasks of a project among
-- the places that they hold, and `UpdateTask`, which places a task in the order of another project. The
-- outer `none` of the first is fuel that ran out.
pub mod Untouched
pub mod Moved
pub mod Exact
use paihuo.Prelude.{
  ℕ, suc, ◌+◌, Bool, true, false, ◌&&◌, ◌||◌, not, Option, none, some, List, [], ◌∷◌, ◌==◌, ltb,
  if◌then◌else◌, is_some, elem, refers, length,
}
use paihuo.Model.{Task}
use paihuo.Model.Words.{Mode, weak, mode_is, queued, status_is}
use paihuo.Store.Db.{
  Db, Error, invalid_project, invalid_order, cyclic, no_rows, constraint, Result, ok, err, ◌>>=◌,
  ◌>>◌, require, get_task, update_one,
}
use paihuo.Store.Chain.{project_graph_acyclic}
use paihuo.Store.Create.{implements, max_sort_order}
use paihuo.Store.Edit.{Value, null, number, write_rest, project_order}

-- `project_id=? AND merge_of IS NULL AND status=queued`.
abbrev pub movable : ℕ → Task → Bool
movable project t = implements project t && status_is t.status queued

abbrev pub queued_ids : List Task → List ℕ
queued_ids [] = []
queued_ids (t ∷ ts) =
    let rest = queued_ids ts in if status_is t.status queued then t.id ∷ rest else rest

-- The places of the queued tasks; `n` is the number of the row, from 1.
unfoldable pub positions_from : ℕ → List Task → List ℕ
positions_from n [] = []
positions_from n (t ∷ ts) =
    let rest = positions_from (suc n) ts in
    if status_is t.status queued
    then (if ltb 0 t.sort_order then t.sort_order else n) ∷ rest
    else rest

-- `!eligible[id] || seen[id]`, over the request.
unfoldable pub fits : List ℕ → List ℕ → List ℕ → Bool
fits eligible seen [] = true
fits eligible seen (i ∷ ids) =
    let rest = fits eligible (i ∷ seen) ids in elem i eligible && (not (elem i seen) && rest)

-- One UPDATE of a place.
unfoldable pub set_place : ℕ → ℕ → ℕ → ℕ → Db → Db
set_place now project position i db =
    (update_one i (movable project)
      (λ t. record t { sort_order = position; updated_at = now; revision = t.revision + 1 }) db).0

unfoldable pub set_places : ℕ → ℕ → List ℕ → List ℕ → Db → Db
set_places now project (p ∷ ps) (i ∷ ids) db =
    set_places now project ps ids (set_place now project p i db)
set_places now project _ _ db = db

-- One UPDATE of a weak dependency.
unfoldable pub set_weak : ℕ → ℕ → Option ℕ → ℕ → Db → Db
set_weak now project predecessor i db =
    (update_one i (λ t. movable project t && mode_is t.dependency_mode weak)
      (λ t. record t { depends_on = predecessor; updated_at = now; revision = t.revision + 1 })
      db).0

-- `rebuildQueuedWeakDependencies`: the rows are those of the query at its start.
unfoldable pub rebuild_from : ℕ → ℕ → Option ℕ → List Task → Db → Db
rebuild_from now project predecessor [] db = db
rebuild_from now project predecessor (t ∷ ts) db = rebuild_from now project (some t.id) ts (
    if status_is t.status queued && mode_is t.dependency_mode weak
    then set_weak now project predecessor t.id db
    else db)

unfoldable pub rebuild_queued_weak_dependencies : ℕ → ℕ → Db → Db
rebuild_queued_weak_dependencies now project db =
    rebuild_from now project none (project_order project db.tasks) db

abbrev pub commit_if : Db → Option Bool → Option (Result Db)
commit_if db none = none
commit_if db (some false) = some (err cyclic)
commit_if db (some true) = some (ok db)

-- The writes, and the check after them.
unfoldable pub reordered : ℕ → ℕ → List ℕ → Db → Db
reordered now project ordered db =
    rebuild_queued_weak_dependencies now project
      (set_places now project (positions_from 1 (project_order project db.tasks)) ordered db)

-- `ReorderProjectTasks`.
unfoldable pub reorder_project_tasks : ℕ → ℕ → List ℕ → Db → Option (Result Db)
reorder_project_tasks now project ordered db =
    let eligible = queued_ids (project_order project db.tasks) in
    if project == 0 || not (elem project db.projects)
    then some (err invalid_project)
    else if not (length ordered == length eligible)
    then some (err invalid_order)
    else if not (fits eligible [] ordered)
    then some (err invalid_order)
    else commit_if (reordered now project ordered db)
        (project_graph_acyclic (reordered now project ordered db) project)

-- The place of a task whose project is written by `UpdateTask`.
abbrev pub same_project : Option ℕ → Option ℕ → Bool
same_project none none = true
same_project (some a) (some b) = a == b
same_project _ _ = false

unfoldable pub place_in : Db → Option ℕ → Task → Option ℕ
place_in db none t = some 0
place_in db (some project) t =
    if is_some t.merge_of
    then some 0
    else if not (same_project t.project_id (some project)) || t.sort_order == 0
    then some (suc (max_sort_order project db.tasks))
    else none

abbrev pub placed_at : Option ℕ → Task → Task
placed_at none t = t
placed_at (some place) t = record t { sort_order = place }

-- `updateOneExecer`: the columns, then the stamp.
abbrev pub stamped : ℕ → (Task → Task) → Task → Task
stamped now write t = record (write t) { id = t.id; updated_at = now; revision = t.revision + 1 }

abbrev pub update_columns : ℕ → ℕ → (Task → Task) → Db → Db
update_columns now i write db = (update_one i (λ t. true) (stamped now write) db).0

abbrev pub known_project : Db → Option ℕ → Bool
known_project db none = true
known_project db (some project) = elem project db.projects

abbrev pub move_found : ℕ → ℕ → Option ℕ → Option (Task → Task) → Db → Option Task → Result Db
move_found now i project rest db none = err no_rows
move_found now i project rest db (some t) =
    require (known_project db project) constraint
    >> ok (
        update_columns now i
          (λ u.
            placed_at (place_in db project t) (record (write_rest rest u) { project_id = project }))
          db)

abbrev pub update_plain : ℕ → ℕ → Option (Task → Task) → Db → Db
update_plain now i none db = db
update_plain now i (some write) db = update_columns now i write db

-- `UpdateTask`: the value of the key `project_id`, where it is there, and what the other keys write.
unfoldable pub update_task : ℕ → ℕ → Option Value → Option (Task → Task) → Db → Result Db
update_task now i none rest db = ok (update_plain now i rest db)
update_task now i (some null) rest db = move_found now i none rest db (get_task i db)
update_task now i (some (number project)) rest db =
    if project == 0
    then err invalid_project
    else move_found now i (some project) rest db (get_task i db)
update_task now i (some _) rest db = err invalid_project
