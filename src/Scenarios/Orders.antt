-- ===== src/Scenarios/Orders.antt =====
-- The order of a project's tasks on the sample databases.
use paihuo.Prelude.{ℕ, ◌≡◌, refl, false, Option, none, some, [], ◌∷◌}
use paihuo.Model.{Task}
use paihuo.Model.Words.{queued, running, full, weak}
use paihuo.Store.Db.{Db, Result, ok, err, get_task, update_one}
use paihuo.Store.Db.Rows.{find, update_rows}
use paihuo.Store.Chain.{mark, visit, visit_all, graph_of, graph_keys, project_graph_acyclic}
use paihuo.Store.Chain.Walk.{Returns}
use paihuo.Store.Edit.{number, insert_in_order, project_order}
use paihuo.Store.Order.{
  movable, positions_from, fits, set_place, set_places, set_weak, rebuild_from,
  rebuild_queued_weak_dependencies, reordered, reorder_project_tasks, update_task,
}
use paihuo.Store.Order.Untouched.{reorder_project_tasks-Untouched}
use paihuo.Scenarios.{queue, task_row}

-- Task 1 runs, tasks 2 and 3 wait.
abbrev waiting : Db
waiting = record queue {
  tasks =
      task_row 1 running full none weak
      ∷ (task_row 2 queued full (some 1) weak ∷ (task_row 3 queued full (some 2) weak ∷ []));
  projects = 1 ∷ (2 ∷ []);
}

abbrev answer_of : Option (Result Db) → Db
answer_of (some (ok db)) = db
answer_of _ = queue

abbrev swapped : Db
swapped = answer_of (reorder_project_tasks 9 1 (3 ∷ (2 ∷ [])) waiting)

swaps : reorder_project_tasks 9 1 (3 ∷ (2 ∷ [])) waiting ≡ some (ok swapped)
unfolding reorder_project_tasks reordered fits positions_from set_places set_place set_weak
    rebuild_from rebuild_queued_weak_dependencies project_order insert_in_order update_one
    update_rows project_graph_acyclic visit_all visit mark graph_of graph_keys
swaps = refl

reorder_project_tasks-Untouched_example :
    ((j : ℕ) (t : Task)
      → get_task j waiting ≡ some t
      → movable 1 t ≡ false
      → get_task j swapped ≡ some t)
    × ((j : ℕ) → ¬ Returns (graph_of 1 swapped.tasks) j)
reorder_project_tasks-Untouched_example =
    reorder_project_tasks-Untouched 9 1 (3 ∷ (2 ∷ [])) waiting swaps

abbrev result_of : Result Db → Db
result_of (ok db) = db
result_of (err e) = queue

abbrev moved : Db
moved = result_of (update_task 9 2 (some (number 2)) none waiting)

moves : update_task 9 2 (some (number 2)) none waiting ≡ ok moved
unfolding update_task find
moves = refl

second_row : get_task 2 waiting ≡ some (task_row 2 queued full (some 1) weak)
unfolding find
second_row = refl
