-- ===== src/Store/Create/Acyclic.antt =====
-- A new row in the graph of dependencies (`CreateTaskWithProjectDependency`, internal/store/task_create.go).
use paihuo.Prelude.{
  ℕ, suc, ◌≡◌, ◌≢◌, ◌≤◌, refl, true, false, ◌&&◌, none, some, List, [], ◌∷◌, ◌++◌, arith, ◌==◌, In,
  inl, inr, Bool-cases, sym, ap, ◌∙◌, In-append-split,
}
use paihuo.Model.{Task}
use paihuo.Store.Db.{Db, ok, >>=-eq-ok, get_task}
use paihuo.Store.Db.Rows.{exists_row}
use paihuo.Store.Insert.{insert_row, stored, references_ok, task_ref_ok, appended}
use paihuo.Store.Insert.Laws.{
  IsKeyed, Below, insert_row-tasks, insert_row-appended, find-insert_row,
}
use paihuo.Store.Create.Target.{
  Resolved, free, explicit, automatic, resolve_new_task_dependency-Resolved,
}
use paihuo.Store.Chain.{Next, graph_of, in_graph}
use paihuo.Store.Chain.Walk.{Walk, here, along, Returns}
use paihuo.Store.Create.{
  insert_task, create_task_with_project_dependency, resolve_new_task_dependency,
  assign_next_task_sort_order, prepare_task_for_insert, weak_by_default,
}

-- The foreign key of `depends_on`, over a whole table.
abbrev pub Referenced : Db → Type 0
Referenced db = (t : Task) → In t db.tasks → (d : ℕ) → t.depends_on ≡ some d → d ≤ db.last_id

exists_row-Below :
    (n i : ℕ) (ts : List Task) → Below n ts → exists_row (λ t. t.id == i) ts ≡ true → i ≤ n
unfolding exists_row
exists_row-Below n i [] b h = absurd (cc)
exists_row-Below n i (t ∷ ts) b h = elim (Bool-cases (t.id == i)) [
  | inl e ↦ ground (arith, b.0)
  | inr e ↦ exists_row-Below n i ts b.1 (ground (arith, e))
]

-- An old node keeps its successor.
graph_of-append :
    (project j : ℕ) (ts : List Task) (r : Task)
    → (r.id == j) ≡ false
    → graph_of project (ts ++ (r ∷ [])) j ≡ graph_of project ts j
unfolding graph_of
graph_of-append project j [] r e = rw e refl
graph_of-append project j (t ∷ ts) r e = ground (arith, graph_of-append project j ts r e)

-- Every edge of the graph is a dependency of a row.
graph_of-row :
    (project j : ℕ) (ts : List Task) {d : ℕ}
    → graph_of project ts j ≡ some d
    → (t : Task) × In t ts × (t.depends_on ≡ some d)
unfolding graph_of
graph_of-row project j [] h = absurd (cc)
graph_of-row project j (t ∷ ts) {d} h = elim (Bool-cases (t.id == j && in_graph project t)) [
  | inl e ↦ (t, inl refl, rw e at h)
  | inr e ↦ let (u, m, f) = graph_of-row project j ts {d = d} (rw e at h) in (u, inr m, f)
]

module _ (new old : Next) (n : ℕ) (same : (j : ℕ) → j ≢ n → new j ≡ old j)
    (away : (j d : ℕ) → new j ≡ some d → d ≢ n) where
  Walk-away : {a b : ℕ} → a ≢ n → Walk new a b → Walk old a b × (b ≢ n)
  Walk-away ne here = (here, ne)
  Walk-away {a} ne (along {b = m} e w) =
      let (v, out) = Walk-away (away a m e) w in (along (sym (same a ne) ∙ e) v, out)

  Returns-away : (a : ℕ) → Returns new a → Returns old a
  Returns-away a (b, e, w) = let (v, out) = Walk-away (away a b e) w in (b, sym (same a out) ∙ e, v)

module _ (db : Db) (t : Task) {db' : Db} {n : ℕ} (k : IsKeyed db) (refs : Referenced db)
    (h : insert_row db t ≡ ok (db', n)) where
  target_stored : (d : ℕ) → t.depends_on ≡ some d → d ≤ db.last_id
  unfolding insert_row references_ok
  target_stored d e = exists_row-Below db.last_id d db.tasks k.below (checked e)
    where
      checked : t.depends_on ≡ some d → exists_row (λ u. u.id == d) db.tasks ≡ true
      checked e =
          let whole : references_ok db t ≡ true = ground arith in
          let known : task_ref_ok db.tasks t.depends_on ≡ true = ground arith in rw e at known

  target_known : (u : Task) → In u db'.tasks → (d : ℕ) → u.depends_on ≡ some d → d ≤ db.last_id
  target_known u m d e =
      elim (In-append-split u (stored n t) db.tasks
        (rw (insert_row-tasks db t {db' = db'} {n = n} h) at m)) [
          | inl old ↦ refs u old d e
          | inr same ↦ target_stored d (ap (λ (x : Task). x.depends_on) same ∙ e)
        ]

  number : n ≡ suc db.last_id
  number = (insert_row-appended db t {db' = db'} {n = n} h).1

  graph_kept : (project j : ℕ) → j ≢ n → graph_of project db'.tasks j ≡ graph_of project db.tasks j
  graph_kept project j ne =
      rw (insert_row-tasks db t {db' = db'} {n = n} h)
        (graph_of-append project j db.tasks (stored n t) (ground arith))

  graph_away : (project j d : ℕ) → graph_of project db'.tasks j ≡ some d → d ≢ n
  graph_away project j d e same =
      let (u, m, f) = graph_of-row project j db'.tasks {d = d} e in
      absurd (omega (arith, target_known u m d f, number, same))

  pub insert_row-Returns :
      (project j : ℕ)
      → Returns (graph_of project db'.tasks) j
      → Returns (graph_of project db.tasks) j
  insert_row-Returns project j r =
      Returns-away (graph_of project db'.tasks) (graph_of project db.tasks) n (graph_kept project)
        (graph_away project) j r

  pub insert_row-Referenced : Referenced db'
  unfolding appended
  insert_row-Referenced u m d e =
      let counter : db'.last_id ≡ suc db.last_id =
        ap (λ (x : Db). x.last_id) (insert_row-appended db t {db' = db'} {n = n} h).0 in
      omega (arith, target_known u m d e, counter)

-- The row that is stored has the dependency that was resolved.
Resolved-stored :
    (db : Db) (n : ℕ) (r : Task)
    → Resolved db r
    → Resolved db (stored n (record r { error = ""; tmux_log_offset = 0; started_at = none }))
Resolved-stored db n r (free e m) = free e m
Resolved-stored db n r (explicit project d s m p e found fits) =
    explicit project d s m p e found fits
Resolved-stored db n r (automatic project m p o last e) = automatic project m p o last e

-- Creating a task, in any mode, cannot close a cycle. In a keyed database whose dependencies all name
-- stored ids, a successful `CreateTaskWithProjectDependency` stores an independent row, or one with a
-- strong dependency on an implementation task of its own project that is in the table and no definition
-- of a schedule, or one with a weak dependency on the last implementation task of its project (on none, if
-- there is none); every dependency still names a stored id; and a project whose graph was free of cycles
-- keeps it so.
pub create_task_with_project_dependency-acyclic :
    (now : ℕ) (t : Task) (project : ℕ) (db : Db) {db' : Db} {n : ℕ}
    → IsKeyed db
    → Referenced db
    → create_task_with_project_dependency now t db ≡ ok (db', n)
    → ((j : ℕ) → ¬ Returns (graph_of project db.tasks) j)
    → ((row : Task) × (get_task n db' ≡ some row) × Resolved db row)
      × ((j : ℕ) → ¬ Returns (graph_of project db'.tasks) j)
      × Referenced db'
unfolding create_task_with_project_dependency insert_task
create_task_with_project_dependency-acyclic now t project db {db'} {n} k refs h acyclic =
    let (r, known, e) =
      >>=-eq-ok
        (resolve_new_task_dependency db
          (assign_next_task_sort_order db (prepare_task_for_insert now (weak_by_default t))))
        _ h in
    let row = record r { error = ""; tmux_log_offset = 0; started_at = none } in
    (
      (
        stored n row,
        find-insert_row db row {db' = db'} {n = n} e k,
        Resolved-stored db n r (resolve_new_task_dependency-Resolved db _ {r = r} known),
      ),
      (λ j back. acyclic j (insert_row-Returns db row {db' = db'} {n = n} k refs e project j back)),
      insert_row-Referenced db row {db' = db'} {n = n} k refs e,
    )
