-- ===== src/Store/Delete/Tree.antt =====
-- `deleteTaskTree` of internal/store/task_delete.go on the rows of a tree.
use paihuo.Prelude.{
  ℕ, zero, suc, ◌≡◌, refl, Bool, true, false, Option, none, some, List, [], ◌∷◌, arith, ◌==◌, In,
  Bool-cases, ==_refl, inl, inr, ap,
}
use paihuo.Model.{Task}
use paihuo.Store.Db.{Db, no_rows, Result, ok, err}
use paihuo.Store.Db.Rows.{exists_row, delete_rows}
use paihuo.Store.Delete.{
  is_child, children_of, delete_row, delete_each, delete_task_tree, and_go_on-parts,
}

-- Only rows of `ts` are left.
abbrev pub Within : List Task → List Task → Type 0
Within ts' ts = (t : Task) → In t ts' → In t ts

-- No row `i` is left, and no child of it.
abbrev pub Gone : ℕ → List Task → Type 0
Gone i ts = (t : Task) → In t ts → ((t.id == i) ≡ false) × (is_child i t ≡ false)

In-delete_rows :
    (p : Task → Bool) (t : Task) (ts : List Task)
    → In t (delete_rows p ts)
    → In t ts × (p t ≡ false)
unfolding delete_rows
In-delete_rows p t [] m = absurd m
In-delete_rows p t (u ∷ us) m = elim (Bool-cases (p u)) [
  | inl e ↦ let (there, out) = In-delete_rows p t us (rw e at m) in (inr there, out)
  | inr e ↦ kept (λ n. In-delete_rows p t us n) e (rw e at m)
]
  where
    kept :
        (In t (delete_rows p us) → In t us × (p t ≡ false))
        → p u ≡ false
        → In t (u ∷ delete_rows p us)
        → In t (u ∷ us) × (p t ≡ false)
    kept go e (inl same) = (inl same, rw same at e)
    kept go e (inr later) = let (there, out) = go later in (inr there, out)

In-children_of :
    (i : ℕ) (t : Task) (ts : List Task) → In t ts → is_child i t ≡ true → In t.id (children_of i ts)
unfolding children_of
In-children_of i t [] m c = m
In-children_of i t (u ∷ us) (inl e) c =
    let here : is_child i u ≡ true = rw e c in rw here (inl (ap (λ (x : Task). x.id) e))
In-children_of i t (u ∷ us) (inr m) c = elim (Bool-cases (is_child i u)) [
  | inl b ↦ rw b (inr (In-children_of i t us m c))
  | inr b ↦ rw b (In-children_of i t us m c)
]

delete_row-rows :
    (i : ℕ) (db : Db) {db' : Db}
    → delete_row i db ≡ ok db'
    → (t : Task) → In t db'.tasks
    → In t db.tasks × ((t.id == i) ≡ false)
unfolding delete_row
delete_row-rows i db {db'} h t m =
    let e : delete_rows (λ u. u.id == i) db.tasks ≡ db'.tasks = ground arith in
    In-delete_rows (λ u. u.id == i) t db.tasks (rw e m)

delete_row-absent :
    (i : ℕ) (db : Db) → exists_row (λ t. t.id == i) db.tasks ≡ false → delete_row i db ≡ err no_rows
unfolding delete_row
delete_row-absent i db e = rw e refl

absent :
    (i : ℕ) (ts : List Task)
    → Gone i ts
    → (exists_row (λ t. t.id == i) ts ≡ false) × (children_of i ts ≡ [])
unfolding exists_row children_of
absent i [] g = (refl, refl)
absent i (t ∷ ts) g =
    let (here, childless) = g t (inl refl) in
    let (a, b) = absent i ts (λ u m. g u (inr m)) in (rw (here, a) refl, rw (childless, b) refl)

-- The loop keeps what each deletion brings about.
delete_each-Gone :
    (delete : ℕ → Db → Option (Result Db))
    → ((c : ℕ) (db db' : Db)
        → delete c db ≡ some (ok db')
        → Within db'.tasks db.tasks × Gone c db'.tasks)
    → (cs : List ℕ) (db db' : Db) → delete_each delete cs db ≡ some (ok db')
    → Within db'.tasks db.tasks × ((c : ℕ) → In c cs → Gone c db'.tasks)
unfolding delete_each
delete_each-Gone delete each [] db db' h =
    let e : db ≡ db' = cc in ((λ t m. rw e m), λ c m. absurd m)
delete_each-Gone delete each (c ∷ cs) db db' h =
    let (db₁, first, rest) = and_go_on-parts _ _ h in
    let (less, gone) = each c db db₁ first in
    let (fewer, others) = delete_each-Gone delete each cs db₁ db' rest in
    ((λ t m. less t (fewer t m)), later db₁ fewer gone others)
  where
    moved : (db₁ : Db) → Within db'.tasks db₁.tasks → Gone c db₁.tasks → Gone c db'.tasks
    moved db₁ fewer gone t m = gone t (fewer t m)

    later :
        (db₁ : Db)
        → Within db'.tasks db₁.tasks
        → Gone c db₁.tasks
        → ((x : ℕ) → In x cs → Gone x db'.tasks)
        → (x : ℕ) → In x (c ∷ cs)
        → Gone x db'.tasks
    later db₁ fewer gone others x (inl e) = rw e at (moved db₁ fewer gone)
    later db₁ fewer gone others x (inr n) = others x n

-- The loop stops with the error of a child that is gone already.
delete_each-err :
    (delete : ℕ → Db → Option (Result Db)) (c m : ℕ) (rest : List ℕ) (db db₁ : Db)
    → delete c db ≡ some (ok db₁)
    → delete m db₁ ≡ some (err no_rows)
    → delete_each delete (c ∷ m ∷ rest) db ≡ some (err no_rows)
unfolding delete_each
delete_each-err delete c m rest db db₁ first second = rw (first, second) refl

delete_task_tree-absent :
    (fuel m : ℕ) (db : Db) → Gone m db.tasks → delete_task_tree (suc fuel) m db ≡ some (err no_rows)
unfolding delete_task_tree delete_each
delete_task_tree-absent fuel m db g =
    let (missing, childless) = absent m db.tasks g in
    rw (childless, delete_row-absent m db missing) refl

delete_task_tree-loop_fails :
    (fuel i : ℕ) (cs : List ℕ) (db : Db)
    → children_of i db.tasks ≡ cs
    → delete_each (delete_task_tree fuel) cs db ≡ some (err no_rows)
    → delete_task_tree (suc fuel) i db ≡ some (err no_rows)
unfolding delete_task_tree
delete_task_tree-loop_fails fuel i cs db kids loop = rw (kids, loop) refl

-- When `deleteTaskTree` succeeds on a task, it has only removed rows; the task is gone and so are its
-- children, the children by `parent_id`, `merge_of`, `parent_session_id` and `parent_task_id`, and no
-- row is left that names the task, or one of its children, in one of these four columns.
pub delete_task_tree-Gone :
    (fuel i : ℕ) (db db' : Db)
    → delete_task_tree fuel i db ≡ some (ok db')
    → Within db'.tasks db.tasks
      × Gone i db'.tasks
      × ((c : ℕ) → In c (children_of i db.tasks) → Gone c db'.tasks)
unfolding delete_task_tree
delete_task_tree-Gone zero i db db' h = cc
delete_task_tree-Gone (suc fuel) i db db' h =
    let (db₁, first, last) = and_go_on-parts _ _ h in
    let (fewer, gone) =
      delete_each-Gone (delete_task_tree fuel)
        (λ c a b e. let r = delete_task_tree-Gone fuel c a b e in (r.0, r.1))
        (children_of i db.tasks) db db₁ first in
    let row : delete_row i db₁ ≡ ok db' = ground arith in
    let kept = delete_row-rows i db₁ {db' = db'} row in
    (
      (λ t m. fewer t (kept t m).0),
      (λ t m. ((kept t m).1, childless t (fewer t (kept t m).0) (λ k. gone t.id k t (kept t m).0))),
      (λ c m t n. gone c m t (kept t n).0),
    )
  where
    childless :
        (t : Task)
        → In t db.tasks
        → (In t.id (children_of i db.tasks) → ((t.id == t.id) ≡ false) × (is_child t.id t ≡ false))
        → is_child i t ≡ false
    childless t m f = elim (Bool-cases (is_child i t)) [
      | inl e ↦ absurd (cc ((f (In-children_of i t db.tasks m e)).0, ==_refl t.id))
      | inr e ↦ e
    ]

-- When the second child of a task is itself a child of the first, `deleteTaskTree` deletes it with the
-- first, tries to delete it again, and the deletion of the whole tree fails with `sql.ErrNoRows`.
pub delete_task_tree-twice :
    (fuel i c m : ℕ) (rest : List ℕ) (db db₁ : Db)
    → children_of i db.tasks ≡ c ∷ m ∷ rest
    → delete_task_tree (suc fuel) c db ≡ some (ok db₁)
    → In m (children_of c db.tasks)
    → delete_task_tree (suc (suc fuel)) i db ≡ some (err no_rows)
delete_task_tree-twice fuel i c m rest db db₁ kids first shared =
    let (fewer, gone, others) = delete_task_tree-Gone (suc fuel) c db db₁ first in
    let loop =
      delete_each-err (delete_task_tree (suc fuel)) c m rest db db₁ first
        (delete_task_tree-absent fuel m db₁ (others m shared)) in
    delete_task_tree-loop_fails (suc fuel) i (c ∷ m ∷ rest) db kids loop

-- When each task of a kind has a first child of that kind (a task that is its own parent, for one),
-- `deleteTaskTree` does not return on it, however deep it goes.
pub delete_task_tree-endless :
    (Kind : ℕ → Type 0) (db : Db)
    → ((i : ℕ) → Kind i → (c : ℕ) × Kind c × (rest : List ℕ) × (children_of i db.tasks ≡ c ∷ rest))
    → (fuel i : ℕ) → Kind i
    → delete_task_tree fuel i db ≡ none
unfolding delete_task_tree delete_each
delete_task_tree-endless Kind db child zero i k = refl
delete_task_tree-endless Kind db child (suc fuel) i k =
    let (c, k', rest, kids) = child i k in
    rw (kids, delete_task_tree-endless Kind db child fuel c k') refl
