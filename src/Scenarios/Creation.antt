-- ===== src/Scenarios/Creation.antt =====
-- internal/store/task_create.go on the sample queue.
use paihuo.Prelude.{ℕ, ◌≡◌, ◌≤◌, refl, some, arith, inl, inr, ap, ◌<◌}
use paihuo.Model.{Task, zero_task}
use paihuo.Model.Words.{queued, full, strong}
use paihuo.Store.Db.{Db, Result, ok, err, get_task}
use paihuo.Store.Db.Rows.{exists_row, find}
use paihuo.Store.Insert.{insert_row, references_ok, clashes}
use paihuo.Store.Chain.{graph_of}
use paihuo.Store.Chain.Walk.{Walk, here, along, Returns}
use paihuo.Store.Create.{
  valid_dependency_mode, normalize_dependency_mode, prepare_task_for_insert, insert_task,
  max_sort_order, assign_next_task_sort_order, last_in_project, validate_dependency_target,
  resolve_new_task_dependency, create_task_with_project_dependency,
}
use paihuo.Store.Create.Chained.{Plain, Chained, create_task_with_project_dependency-Chained}
use paihuo.Store.Create.Target.{Resolved}
use paihuo.Store.Create.Acyclic.{Referenced, create_task_with_project_dependency-acyclic}
use paihuo.Scenarios.{queue, queue-IsKeyed}

abbrev asked : Task
asked = record zero_task { title = "new"; status = queued; perm = full; project_id = some 1 }

asked-Plain : Plain 1 asked
asked-Plain = record {
  of_project = refl;
  no_merge = refl;
  no_mode = refl;
  no_target = refl;
  no_cron = refl;
  no_place = refl;
}

abbrev left_by : Result (Db × ℕ) → Db
left_by (ok (db, n)) = db
left_by (err e) = queue

abbrev after_creation : Db
after_creation = left_by (create_task_with_project_dependency 9 asked queue)

creates : create_task_with_project_dependency 9 asked queue ≡ ok (after_creation, 4)
unfolding create_task_with_project_dependency prepare_task_for_insert normalize_dependency_mode
    assign_next_task_sort_order max_sort_order resolve_new_task_dependency valid_dependency_mode
    last_in_project insert_task insert_row references_ok clashes exists_row
creates = refl

create_task_with_project_dependency-Chained_example : Chained 1 4 queue after_creation
create_task_with_project_dependency-Chained_example =
    create_task_with_project_dependency-Chained 9 1 asked queue queue-IsKeyed asked-Plain creates

queue-Referenced : Referenced queue
queue-Referenced u (inl e) d f = absurd (cc (ap (λ (x : Task). x.depends_on) e, f))
queue-Referenced u (inr (inl e)) d f = ground arith
queue-Referenced u (inr (inr (inl e))) d f = ground arith
queue-Referenced u (inr (inr (inr m))) d f = absurd m

graph_below : (project j d : ℕ) → graph_of project queue.tasks j ≡ some d → d < j
unfolding graph_of
graph_below project j d h = ground arith

queue_acyclic : (project j : ℕ) → ¬ Returns (graph_of project queue.tasks) j
queue_acyclic project j (b, e, w) = absurd (omega (arith, graph_below project j b e, down w))
  where
    down : {a b : ℕ} → Walk (graph_of project queue.tasks) a b → b ≤ a
    down here = omega arith
    down {a} (along {b = m} e w) = omega (arith, graph_below project a m e, down w)

create_task_with_project_dependency-acyclic_example :
    ((row : Task) × (get_task 4 after_creation ≡ some row) × Resolved queue row)
    × ((j : ℕ) → ¬ Returns (graph_of 1 after_creation.tasks) j)
    × Referenced after_creation
create_task_with_project_dependency-acyclic_example =
    create_task_with_project_dependency-acyclic 9 asked 1 queue queue-IsKeyed queue-Referenced
      creates (queue_acyclic 1)

resolves :
    resolve_new_task_dependency queue (record asked { depends_on = some 3 })
    ≡ ok (record asked { depends_on = some 3; dependency_mode = strong })
unfolding resolve_new_task_dependency normalize_dependency_mode valid_dependency_mode
    validate_dependency_target find
resolves = refl
