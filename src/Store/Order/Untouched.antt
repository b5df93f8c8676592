-- ===== src/Store/Order/Untouched.antt =====
-- What `ReorderProjectTasks` writes.
use paihuo.Prelude.{
  ℕ, ◌≡◌, refl, Bool, true, false, ◌&&◌, Option, none, some, List, [], ◌∷◌, arith, ◌==◌,
  if◌then◌else◌, sym, ◌∙◌, some_eq,
}
use paihuo.Model.{Task}
use paihuo.Model.Words.{weak, mode_is, queued, status_is}
use paihuo.Store.Db.{Db, ok, get_task, update_one}
use paihuo.Store.Db.Rows.{KeepsId}
use paihuo.Store.Db.Update.{get_task-update_one}
use paihuo.Store.Chain.{graph_of, project_graph_acyclic}
use paihuo.Store.Chain.Walk.{Returns}
use paihuo.Store.Chain.Acyclic.{project_graph_acyclic_iff}
use paihuo.Store.Edit.{project_order}
use paihuo.Store.Order.{
  movable, positions_from, set_place, set_places, set_weak, rebuild_from,
  rebuild_queued_weak_dependencies, commit_if, reordered, reorder_project_tasks,
}

get_task-unmatched :
    (i j : ℕ) (test : Task → Bool) (change : Task → Task) (db : Db) {t : Task}
    → KeepsId change
    → test t ≡ false
    → get_task j db ≡ some t
    → get_task j (update_one i test change db).0 ≡ some t
get_task-unmatched i j test change db {t} keeps out found =
    get_task-update_one i test change db j keeps ∙ rw found (rw out (skip (t.id == i)))
  where
    skip : (b : Bool) → some (if b && false then change t else t) ≡ some t
    skip true = refl
    skip false = refl

module _ (now project j : ℕ) (t : Task) (out : movable project t ≡ false) where
  set_places-kept :
      (ps ids : List ℕ) (db : Db)
      → get_task j db ≡ some t
      → get_task j (set_places now project ps ids db) ≡ some t
  unfolding set_places set_place
  set_places-kept [] ids db found = found
  set_places-kept (p ∷ ps) [] db found = found
  set_places-kept (p ∷ ps) (i ∷ ids) db found =
      set_places-kept ps ids _
        (get_task-unmatched i j (movable project) _ db {t = t} (λ u. refl) out found)

  set_weak-kept :
      (predecessor : Option ℕ) (i : ℕ) (db : Db)
      → get_task j db ≡ some t
      → get_task j (set_weak now project predecessor i db) ≡ some t
  unfolding set_weak
  set_weak-kept predecessor i db found =
      get_task-unmatched i j (λ u. movable project u && mode_is u.dependency_mode weak) _ db {t = t}
        (λ u. refl) (rw out refl) found

  rebuild_from-kept :
      (predecessor : Option ℕ) (ts : List Task) (db : Db)
      → get_task j db ≡ some t
      → get_task j (rebuild_from now project predecessor ts db) ≡ some t
  unfolding rebuild_from
  rebuild_from-kept predecessor [] db found = found
  rebuild_from-kept predecessor (u ∷ us) db found =
      rebuild_from-kept (some u.id) us _
        (step (status_is u.status queued && mode_is u.dependency_mode weak))
    where
      step :
          (b : Bool)
          → get_task j (if b then set_weak now project predecessor u.id db else db) ≡ some t
      step true = set_weak-kept predecessor u.id db found
      step false = found

  reordered-kept :
      (ordered : List ℕ) (db : Db)
      → get_task j db ≡ some t
      → get_task j (reordered now project ordered db) ≡ some t
  unfolding reordered rebuild_queued_weak_dependencies
  reordered-kept ordered db found =
      rebuild_from-kept none _ _
        (set_places-kept (positions_from 1 (project_order project db.tasks)) ordered db found)

commit_if-parts :
    (db : Db) (o : Option Bool) {db' : Db}
    → commit_if db o ≡ some (ok db')
    → (db ≡ db') × (o ≡ some true)
commit_if-parts db none h = absurd (cc)
commit_if-parts db (some false) h = absurd (cc)
commit_if-parts db (some true) h = (cc, refl)

-- When `ReorderProjectTasks` succeeds, each task that is not queued, or merges another, or belongs to
-- another project, is exactly as it was, and the project has no cycle of dependencies.
pub reorder_project_tasks-Untouched :
    (now project : ℕ) (ordered : List ℕ) (db : Db) {db' : Db}
    → reorder_project_tasks now project ordered db ≡ some (ok db')
    → ((j : ℕ) (t : Task)
        → get_task j db ≡ some t
        → movable project t ≡ false
        → get_task j db' ≡ some t)
      × ((j : ℕ) → ¬ Returns (graph_of project db'.tasks) j)
unfolding reorder_project_tasks
reorder_project_tasks-Untouched now project ordered db {db'} h =
    let k : commit_if (reordered now project ordered db)
          (project_graph_acyclic (reordered now project ordered db) project)
        ≡ some (ok db') =
      ground arith in
    let (same, sound) = commit_if-parts (reordered now project ordered db) _ k in
    let (b, answer, meaning) =
      project_graph_acyclic_iff (reordered now project ordered db) project in
    (
      (λ j t found out. rw (sym same) (reordered-kept now project j t out ordered db found)),
      rw same at (meaning.0 (some_eq (sym answer ∙ sound))),
    )
