-- ===== src/Store/Workflows/Planted.antt =====
-- The loop of `InstantiateWorkflow` that inserts a task for each node.
use paihuo.Prelude.{
  ℕ, suc, ◌≤◌, ◌<◌, ◌≡◌, ◌≢◌, refl, sym, ◌∙◌, ap, subst, String, none, some, List, [], ◌∷◌, arith,
  All, In, some_eq, inl, inr, ◌⊎◌, ◌==◌, Bool-cases,
}
use text.Mathlib.Text.{◌==◌ as str_eq}
use text.Mathlib.TextEquality.{eq_iff}
use paihuo.Model.{Task}
use paihuo.Model.Words.{queued, batch, independent, task}
use paihuo.Store.Db.{Db, Result, ok, >>=-eq-ok, get_task}
use paihuo.Store.Insert.{appended}
use paihuo.Store.Insert.Laws.{
  IsKeyed, insert_row-appended, find-insert_row, find-insert_row_ne, find-insert_row_before,
  insert_row-IsKeyed,
}
use paihuo.Store.Create.{
  prepare_task_for_insert, assign_next_task_sort_order, insert_task, normalize_dependency_mode,
}
use paihuo.Workflow.Spec.{Node}
use paihuo.Workflow.Policy.Nodes.{Distinct, ids}
use paihuo.Store.Workflows.{
  Texts, Launch, TaskIds, render_intent, perm_of, node_task, insert_nodes, task_id_of,
}

module _ (x : Texts) (now : ℕ) (l : Launch) where
  -- The row of a node's task, as the loop stores it.
  pub record IsNodeTask (n : Node) (i : ℕ) (t : Task) : Type 0 where
    pub id : t.id ≡ i
    pub shape : t.shape ≡ task
    pub title : t.title ≡ render_intent x n.intent l.task
    pub body : t.body ≡ render_intent x n.intent l.task
    pub status : t.status ≡ queued
    pub perm : t.perm ≡ perm_of x n.permission
    pub run_mode : t.run_mode ≡ batch
    pub concurrent : t.concurrent ≡ l.concurrent
    pub role_id : t.role_id ≡ some n.role.role_id
    pub project_id : t.project_id ≡ some l.project
    pub project_dir : t.project_dir ≡ l.dir
    pub run : t.workflow_run_id ≡ some l.run
    pub mode : t.dependency_mode ≡ independent
    pub depends_on : t.depends_on ≡ none
    pub merge_of : t.merge_of ≡ none
    pub block_on_failure : t.block_on_failure ≡ str_eq n.failure_policy "stop"

  abbrev pub node_insert : Node → Db → Result (Db × ℕ)
  node_insert n db =
      insert_task db
        (assign_next_task_sort_order db (prepare_task_for_insert now (node_task x l n)))

  -- What the insertion of one task leaves as it was.
  pub record Grown (db db' : Db) : Type 0 where
    pub keyed : IsKeyed db'
    pub kept : (j : ℕ) (t : Task) → get_task j db ≡ some t → get_task j db' ≡ some t
    pub edges : db'.edges ≡ db.edges
    pub roles : db'.roles ≡ db.roles
    pub projects : db'.projects ≡ db.projects
    pub runs : db'.runs ≡ db.runs
    pub later : db.last_id ≤ db'.last_id

  Grown-trans : {a b c : Db} → Grown a b → Grown b c → Grown a c
  Grown-trans f g = record {
    keyed = g.keyed;
    kept = λ j t e. g.kept j t (f.kept j t e);
    edges = g.edges ∙ f.edges;
    roles = g.roles ∙ f.roles;
    projects = g.projects ∙ f.projects;
    runs = g.runs ∙ f.runs;
    later = omega (arith, f.later, g.later);
  }

  -- The task of a node in the new database.
  pub record Stands (n : Node) (low i : ℕ) (db : Db) : Type 0 where
    pub later : low < i
    pub bound : i ≤ db.last_id
    pub row : (t : Task) × (get_task i db ≡ some t) × IsNodeTask n i t

  pub node_insert_lem :
      (n : Node) (db db' : Db) (i : ℕ)
      → IsKeyed db
      → node_insert n db ≡ ok (db', i)
      → Grown db db' × Stands n db.last_id i db' × (db'.last_id ≡ i)
  unfolding insert_task prepare_task_for_insert assign_next_task_sort_order node_task
      normalize_dependency_mode appended
  node_insert_lem n db db' i k h =
      let (e, f) = insert_row-appended db _ {db' = db'} {n = i} h in
      let last : db'.last_id ≡ suc db.last_id = ap (λ (d : Db). d.last_id) e in
      (
        record {
          keyed = insert_row-IsKeyed db _ {db' = db'} {n = i} h k;
          kept = λ j t found.
              find-insert_row_ne db _ {db' = db'} {n = i} h j (apart j t found) ∙ found;
          edges = ap (λ (d : Db). d.edges) e;
          roles = ap (λ (d : Db). d.roles) e;
          projects = ap (λ (d : Db). d.projects) e;
          runs = ap (λ (d : Db). d.runs) e;
          later = omega arith;
        },
        record {
          later = omega arith;
          bound = omega arith;
          row = (
            _,
            find-insert_row db _ {db' = db'} {n = i} h k,
            record {
              id = refl;
              shape = refl;
              title = refl;
              body = refl;
              status = refl;
              perm = refl;
              run_mode = refl;
              concurrent = refl;
              role_id = refl;
              project_id = refl;
              project_dir = refl;
              run = refl;
              mode = refl;
              depends_on = refl;
              merge_of = refl;
              block_on_failure = refl;
            },
          );
        },
        omega arith,
      )
    where
      apart : (j : ℕ) (t : Task) → get_task j db ≡ some t → j ≢ i
      apart j t found same =
          let gone = find-insert_row_before db _ {db' = db'} {n = i} h k in
          let gone' : get_task j db ≡ none = subst (λ m. get_task m db ≡ none) (sym same) gone in cc

  node_insert-others :
      (n : Node) (db db' : Db) (i j : ℕ)
      → node_insert n db ≡ ok (db', i)
      → j ≢ i
      → get_task j db' ≡ get_task j db
  unfolding insert_task
  node_insert-others n db db' i j h ne = find-insert_row_ne db _ {db' = db'} {n = i} h j ne

  -- A row is as it was, or it is the task of a node.
  abbrev pub Accounted : List Node → Db → Db → TaskIds → ℕ → Type 0
  Accounted ns db db' after j =
      (get_task j db' ≡ get_task j db) ⊎ ((n : Node) × In n ns × (task_id_of n.id after ≡ some j))

  Accounted-cons :
      (n : Node) (ns : List Node) (db db₁ db' : Db) (after : TaskIds) (i j : ℕ)
      → node_insert n db ≡ ok (db₁, i)
      → task_id_of n.id after ≡ some i
      → Accounted ns db₁ db' after j
      → Accounted (n ∷ ns) db db' after j
  Accounted-cons n ns db db₁ db' after i j first head (inr (n', m, e)) = inr (n', inr m, e)
  Accounted-cons n ns db db₁ db' after i j first head (inl same) = elim (Bool-cases (j == i)) [
    | inl e ↦ let here : i ≡ j = ground (arith, e) in inr (n, inl refl, head ∙ ap some here)
    | inr e ↦
        let apart : j ≢ i = λ q. absurd (ground (arith, e, q)) in
        inl (same ∙ node_insert-others n db db₁ i j first apart)
  ]

  Stands-kept :
      (n : Node) (low low' i : ℕ) (db db' : Db)
      → low' ≤ low
      → Grown db db'
      → Stands n low i db
      → Stands n low' i db'
  Stands-kept n low low' i db db' le g s =
      let (t, found, r) = s.row in
      record {
        later = omega (arith, s.later);
        bound = omega (arith, s.bound, g.later);
        row = (t, g.kept i t found, r);
      }

  -- Each node's task is found under its id, above the rows that were there.
  abbrev pub Made : List Node → ℕ → TaskIds → Db → Type 0
  Made ns low after db =
      All (λ n. (i : ℕ) × (task_id_of n.id after ≡ some i) × Stands n low i db) ns

  pub Made-In :
      (ns : List Node) (low : ℕ) (after : TaskIds) (db : Db) (k : String)
      → Made ns low after db
      → In k (ids ns)
      → (i : ℕ) × (task_id_of k after ≡ some i)
        × (low < i)
        × (i ≤ db.last_id)
        × (t : Task) × (get_task i db ≡ some t)
        × (t.id ≡ i)
  Made-In [] low after db k m h = absurd h
  Made-In (n ∷ ns) low after db k m (inr deeper) = Made-In ns low after db k m.1 deeper
  Made-In (n ∷ ns) low after db k m (inl e) =
      let (i, found, s) = m.0 in
      let (t, row, r) = s.row in
      (i, ap (λ (j : String). task_id_of j after) (sym e) ∙ found, s.later, s.bound, t, row, r.id)

  Made-kept :
      (ns : List Node) (low low' : ℕ) (after : TaskIds) (db : Db)
      → low' ≤ low
      → Made ns low after db
      → Made ns low' after db
  Made-kept [] low low' after db le m = tt
  Made-kept (n ∷ ns) low low' after db le m =
      let (i, found, s) = m.0 in
      (
        (i, found, record { later = omega (arith, s.later); bound = s.bound; row = s.row }),
        Made-kept ns low low' after db le m.1,
      )

  -- What the whole loop does.
  pub record Inserted (ns : List Node) (db : Db) (before : TaskIds) (db' : Db) (after : TaskIds)
      : Type 0 where
    pub grown : Grown db db'
    pub made : Made ns db.last_id after db'
    pub accounted : (j : ℕ) → Accounted ns db db' after j
    pub others : (k : String) → ¬ In k (ids ns) → task_id_of k after ≡ task_id_of k before
    pub unique :
        (a b : String) (i : ℕ)
        → In a (ids ns)
        → In b (ids ns)
        → task_id_of a after ≡ some i
        → task_id_of b after ≡ some i
        → a ≡ b

  task_id_of_head :
      (k : String) (i : ℕ) (before : TaskIds) → task_id_of k ((k, i) ∷ before) ≡ some i
  unfolding task_id_of
  task_id_of_head k i before = ground (arith, eq_iff k k)

  task_id_of_ne :
      (k j : String) (i : ℕ) (before : TaskIds)
      → k ≢ j
      → task_id_of j ((k, i) ∷ before) ≡ task_id_of j before
  unfolding task_id_of
  task_id_of_ne k j i before ne = ground (arith, eq_iff k j)

  clash :
      (n : Node) (ns : List Node) (i : ℕ) (db₁ db' : Db) (after : TaskIds)
      → task_id_of n.id after ≡ some i
      → db₁.last_id ≡ i
      → Made ns db₁.last_id after db'
      → (a b : String) (j : ℕ) → n.id ≡ a
      → In b (ids ns)
      → task_id_of a after ≡ some j
      → task_id_of b after ≡ some j
      → ⊥
  clash n ns i db₁ db' after head last made a b j p q e e' =
      let (m, found, low, high, t, row, same) = Made-In ns db₁.last_id after db' b made q in
      let one : m ≡ j = some_eq (sym found ∙ e') in
      let head' : task_id_of a after ≡ some i =
        subst (λ (y : String). task_id_of y after ≡ some i) p head in
      let two : i ≡ j = some_eq (sym head' ∙ e) in omega arith

  unique_cons :
      (n : Node) (ns : List Node) (i : ℕ) (db₁ db' : Db) (after : TaskIds)
      → task_id_of n.id after ≡ some i
      → db₁.last_id ≡ i
      → Made ns db₁.last_id after db'
      → ((a b : String) (j : ℕ)
          → In a (ids ns)
          → In b (ids ns)
          → task_id_of a after ≡ some j
          → task_id_of b after ≡ some j
          → a ≡ b)
      → (a b : String) (j : ℕ) → In a (n.id ∷ ids ns)
      → In b (n.id ∷ ids ns)
      → task_id_of a after ≡ some j
      → task_id_of b after ≡ some j
      → a ≡ b
  unique_cons n ns i db₁ db' after head last made rec a b j (inl p) (inl q) e e' = sym p ∙ q
  unique_cons n ns i db₁ db' after head last made rec a b j (inr p) (inr q) e e' =
      rec a b j p q e e'
  unique_cons n ns i db₁ db' after head last made rec a b j (inl p) (inr q) e e' =
      absurd (clash n ns i db₁ db' after head last made a b j p q e e')
  unique_cons n ns i db₁ db' after head last made rec a b j (inr p) (inl q) e e' =
      absurd (clash n ns i db₁ db' after head last made b a j q p e' e)

  pub insert_nodes_lem :
      (ns : List Node) (before : TaskIds) (db db' : Db) (after : TaskIds)
      → IsKeyed db
      → Distinct (ids ns)
      → insert_nodes x now l ns before db ≡ ok (db', after)
      → Inserted ns db before db' after
  unfolding insert_nodes task_id_of
  insert_nodes_lem [] before db db' after k d h =
      subst (λ (r : Db × TaskIds). Inserted [] db before r.0 r.1) same
        (record {
          grown = record {
            keyed = k;
            kept = λ j t e. e;
            edges = refl;
            roles = refl;
            projects = refl;
            runs = refl;
            later = omega arith;
          };
          made = tt;
          accounted = λ j. inl refl;
          others = λ j m. refl;
          unique = λ a b i m. absurd m;
        })
    where
      same : ◌≡◌ {A = Db × TaskIds} (db, before) (db', after)
      same = cc
  insert_nodes_lem (n ∷ ns) before db db' after k d h =
      let ((db₁, i), first, rest) =
        >>=-eq-ok (node_insert n db)
          (λ (r : Db × ℕ). insert_nodes x now l ns ((n.id, r.1) ∷ before) r.0) h in
      let (g, s, last) = node_insert_lem n db db₁ i k first in
      let ih = insert_nodes_lem ns ((n.id, i) ∷ before) db₁ db' after g.keyed d.1 rest in
      let head : task_id_of n.id after ≡ some i =
        ih.others n.id d.0 ∙ task_id_of_head n.id i before in
      record {
        grown = Grown-trans g ih.grown;
        made = (
          (i, head, Stands-kept n db.last_id db.last_id i db₁ db' (omega arith) ih.grown s),
          Made-kept ns db₁.last_id db.last_id after db' g.later ih.made,
        );
        accounted = λ j. Accounted-cons n ns db db₁ db' after i j first head (ih.accounted j);
        others = λ j m.
            ih.others j (λ deeper. m (inr deeper)) ∙ task_id_of_ne n.id j i before (λ e. m (inl e));
        unique = λ a b j m m' e e'.
            unique_cons n ns i db₁ db' after head last ih.made ih.unique a b j m m' e e';
      }
