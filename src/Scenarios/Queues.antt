-- ===== src/Scenarios/Queues.antt =====
-- Three queued tasks of one project: one merges.
use paihuo.Prelude.{◌≡◌, refl, true, false, none, some, List, [], ◌∷◌, arith}
use paihuo.Model.{Task}
use paihuo.Model.Words.{queued, full, weak}
use paihuo.Store.Queue.{proj_earliest, queue_key, queued_task_less}
use paihuo.Store.Queue.Order.{queued_task_less-order}
use paihuo.Scenarios.{task_row}

abbrev merging : Task
merging = record (task_row 3 queued full none weak) { merge_of = some 9 }

abbrev waiting : List Task
waiting = task_row 1 queued full none weak ∷ (task_row 2 queued full none weak ∷ (merging ∷ []))

merges_first : queued_task_less waiting merging (task_row 1 queued full none weak) ≡ true
unfolding queued_task_less queue_key proj_earliest
merges_first = refl

in_order :
    queued_task_less waiting (task_row 1 queued full none weak) (task_row 2 queued full none weak)
    ≡ true
unfolding queued_task_less queue_key proj_earliest
in_order = refl

queued_task_less-order_example :
    (queued_task_less waiting merging (task_row 2 queued full none weak) ≡ true)
    × (queued_task_less waiting (task_row 1 queued full none weak) merging ≡ false)
queued_task_less-order_example =
    queued_task_less-order waiting merging (task_row 1 queued full none weak)
      (task_row 2 queued full none weak) (λ e. (1, refl, refl)) (λ e. (1, refl, refl))
      (λ e. absurd (omega arith)) merges_first in_order

-- Two projects whose earliest tasks are of the same second: the comparison runs in a circle.
abbrev first : Task
first = record (task_row 11 queued full none weak) { sort_order = 1; created_at = 5 }

abbrev second : Task
second = record (task_row 12 queued full none weak) { sort_order = 2; created_at = 1 }

abbrev other : Task
other = record (task_row 13 queued full none weak) { project_id = some 2; created_at = 1 }

abbrev mixed : List Task
mixed = first ∷ (second ∷ (other ∷ []))

circle :
    (queued_task_less mixed first second ≡ true)
    × (queued_task_less mixed second other ≡ true)
    × (queued_task_less mixed other first ≡ true)
unfolding queued_task_less queue_key proj_earliest
circle = (refl, refl, refl)
