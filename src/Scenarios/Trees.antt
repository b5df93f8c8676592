-- ===== src/Scenarios/Trees.antt =====
-- internal/store/task_delete.go on sample databases.
use paihuo.Prelude.{ℕ, ◌≡◌, refl, none, some, List, [], ◌∷◌, In, inl, All}
use paihuo.Model.{Task}
use paihuo.Model.Words.{queued, succeeded, full, weak, independent}
use paihuo.Store.Db.{Db, ok, err, no_rows, update_one}
use paihuo.Store.Db.Rows.{find, exists_row, delete_rows, update_rows}
use paihuo.Store.Delete.{
  children_by_tree, for_each, collect_task_tree_ids, unlink_task_session_references,
  dependency_replacement, set_depends_on, dependents_of, unlink_dependents,
  unlink_task_dependencies, children_of, drop_edges, delete_row, delete_each, delete_task_tree,
  delete_task,
}
use paihuo.Store.Delete.Unlink.{Clear, unlink_task_dependencies-Clear}
use paihuo.Store.Delete.Tree.{delete_task_tree-twice, delete_task_tree-endless}
use paihuo.Scenarios.{queue, task_row}

-- Task 1 has delegated task 2, and task 3 was created with task 2 as its parent and task 1 as the task that
-- it comes from, both of which a request may name.
abbrev delegated : Task
delegated = record (task_row 2 succeeded full none weak) { parent_task_id = some 1 }

abbrev shared : Task
shared = record (task_row 3 queued full none independent) {
  parent_id = some 2;
  parent_task_id = some 1;
}

abbrev family : Db
family = record queue { tasks = task_row 1 succeeded full none weak ∷ (delegated ∷ (shared ∷ [])) }

-- Task 3 depends on task 2, and that on task 1.
abbrev chain : Db
chain = record queue {
  tasks =
      task_row 1 queued full none weak
      ∷ (task_row 2 queued full (some 1) weak ∷ (task_row 3 queued full (some 2) weak ∷ []));
}

abbrev relinked : Db
relinked = record chain {
  tasks =
      task_row 1 queued full none weak
      ∷ (task_row 2 queued full (some 1) weak
          ∷ (record (task_row 3 queued full (some 1) weak) { updated_at = 9; revision = 2 } ∷ []));
}

-- The dependent of a deleted task moves on to the task before it.
unlinks : unlink_task_dependencies 9 (2 ∷ []) (2 ∷ []) chain ≡ some (ok relinked)
unfolding unlink_task_dependencies unlink_dependents dependents_of dependency_replacement
    set_depends_on update_one update_rows find
unlinks = refl

unlink_task_dependencies-Clear_example : All (Clear (2 ∷ []) (2 ∷ [])) relinked.tasks
unlink_task_dependencies-Clear_example = unlink_task_dependencies-Clear (2 ∷ []) 9 chain unlinks

abbrev only_root : Db
only_root = record family { tasks = task_row 1 succeeded full none weak ∷ [] }

child_deleted : delete_task_tree 2 2 family ≡ some (ok only_root)
unfolding delete_task_tree delete_each children_of delete_row exists_row delete_rows drop_edges
child_deleted = refl

both_children : children_of 1 family.tasks ≡ 2 ∷ 3 ∷ []
unfolding children_of
both_children = refl

shared_child : In 3 (children_of 2 family.tasks)
unfolding children_of
shared_child = inl refl

delete_task_tree-twice_example : delete_task_tree 3 1 family ≡ some (err no_rows)
delete_task_tree-twice_example =
    delete_task_tree-twice 1 1 2 3 [] family only_root both_children child_deleted shared_child

-- The whole deletion of the task that delegated fails.
family_stays : delete_task 4 9 1 family ≡ some (err no_rows)
unfolding delete_task collect_task_tree_ids for_each children_by_tree unlink_task_session_references
    unlink_task_dependencies unlink_dependents dependents_of update_rows delete_task_tree
    delete_each children_of delete_row exists_row delete_rows drop_edges find
family_stays = refl

-- A task that has been made its own parent.
abbrev own_parent : Db
own_parent = record queue {
  tasks = record (task_row 1 succeeded full none weak) { parent_id = some 1 } ∷ [];
}

abbrev IsFirst : ℕ → Type 0
IsFirst i = i ≡ 1

own_child :
    (i : ℕ)
    → IsFirst i
    → (c : ℕ) × IsFirst c × (rest : List ℕ) × (children_of i own_parent.tasks ≡ c ∷ rest)
unfolding children_of
own_child i e = rw e (1, refl, [], refl)

delete_task_tree-endless_example : delete_task_tree 100 1 own_parent ≡ none
delete_task_tree-endless_example = delete_task_tree-endless IsFirst own_parent own_child 100 1 refl
