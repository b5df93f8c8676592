-- ===== src/Store/Workflows/Launched.antt =====
-- What a run of `InstantiateWorkflow` that succeeds leaves.
use paihuo.Prelude.{
  ℕ, suc, ◌≡◌, refl, sym, ◌∙◌, ap, subst, String, true, Option, none, some, List, [], ◌∷◌, ◌++◌,
  arith, ◌==◌, All, All-map, In, inl, inr, ◌⊎◌, ◌≤◌, false, ==_refl, some_eq,
}
use paihuo.Prelude.Signed.{pos, ltb_ℤ}
use paihuo.Model.{Task}
use paihuo.Model.Words.{adopted, status_is}
use paihuo.Store.Db.{Db, Edge, ok, ◌>>=◌, >>=-eq-ok, get_task}
use paihuo.Store.Insert.Laws.{IsKeyed}
use paihuo.Workflow.Spec.{Node, Spec}
use paihuo.Store.Db.Rows.{find}
use paihuo.Workflow.Policy.Nodes.{Distinct, ids}
use paihuo.Store.Workflows.{
  Texts, Launch, TaskIds, WorkflowTask, Run, Base, running, task_id_of, sort_nodes, insert_nodes,
  link_nodes, insert_run, set_task_ids, plant, decoded, dir_of_project, still_adopted, launch_run,
  launch_in, instantiate_workflow,
}
use paihuo.Store.Workflows.Sorted.{All-sort_nodes, sort_nodes-Distinct, sort_nodes-In}
use paihuo.Store.Workflows.Planted.{IsNodeTask, insert_nodes_lem}
use paihuo.Store.Workflows.Linked.{planned, link_nodes-edges}

abbrev pub launch_of : Texts → Spec → ℕ → String → String → ℕ → Launch
launch_of x spec project dir custom run = record {
  run = run;
  project = project;
  dir = dir;
  concurrent = ltb_ℤ (pos 1) spec.limits.max_concurrency;
  task = x.trim custom;
}

-- The row of the new run.
abbrev pub run_row : Texts → ℕ → ℕ → String → ℕ → TaskIds → Run
run_row x workflow_id project custom run m = record {
  id = run;
  workflow_id = workflow_id;
  project_id = project;
  task = x.trim custom;
  status = running;
  task_ids = m;
  revision = 1;
  finished_at = none;
}

-- The tasks of the nodes and their edges stand in the database, and no other row has changed.
pub record IsPlanted (x : Texts) (now : ℕ) (l : Launch) (spec : Spec) (m : TaskIds) (db db' : Db)
    : Type 0 where
  pub tasks :
      All
        (λ n.
          (i : ℕ) × (task_id_of n.id m ≡ some i)
          × (t : Task) × (get_task i db' ≡ some t)
          × IsNodeTask x now l n i t)
        spec.nodes
  pub edges : db'.edges ≡ db.edges ++ planned m (sort_nodes spec.nodes)
  pub kept : (j : ℕ) (t : Task) → get_task j db ≡ some t → get_task j db' ≡ some t
  pub accounted :
      (j : ℕ)
      → (get_task j db' ≡ get_task j db)
        ⊎ ((n : Node) × In n spec.nodes × (task_id_of n.id m ≡ some j))
  pub roles : db'.roles ≡ db.roles
  pub projects : db'.projects ≡ db.projects
  pub run_ids : db'.runs ≡ db.runs

-- The database once the new run's id is handed out.
abbrev pub numbered : ℕ → Db → Db
numbered run db = record db { runs = db.runs ++ (run ∷ []) }

-- The ids of the runs have been handed out.
abbrev pub Issued : Base → Type 0
Issued b = All (λ (r : Run). r.id ≤ b.last_run) b.runs

-- What the whole transaction does.
pub record Launched (x : Texts) (now : ℕ) (tk : WorkflowTask) (project : ℕ) (custom : String)
    (b b' : Base) (run : ℕ) : Type 0 where
  pub definition :
      (t : Task) × (get_task tk.id b.db ≡ some t)
      × (status_is t.status adopted ≡ true)
      × (t.revision ≡ tk.revision)
  pub next : run ≡ suc b.last_run
  pub counted : b'.last_run ≡ run
  pub planted :
      (spec : Spec) × (tk.spec ≡ some spec)
      × (dir : String) × (b.active_dir project ≡ some dir)
      × (m : TaskIds) × (b'.runs ≡ b.runs ++ (run_row x tk.id project custom run m ∷ []))
      × IsPlanted x now (launch_of x spec project dir custom run) spec m (numbered run b.db) b'.db

-- The UPDATE of the new run's row changes no other.
set_task_ids-last :
    (last : ℕ) (m : TaskIds) (rs : List Run) (r : Run)
    → All (λ (q : Run). q.id ≤ last) rs
    → r.id ≡ suc last
    → set_task_ids (suc last) m (rs ++ (r ∷ [])) ≡ rs ++ (record r { task_ids = m } ∷ [])
unfolding set_task_ids
set_task_ids-last last m [] r old e =
    let here : (r.id == suc last) ≡ true = rw e (==_refl (suc last)) in rw here refl
set_task_ids-last last m (q ∷ qs) r old e =
    let other : (q.id == suc last) ≡ false = ground (arith, old.0) in
    let rest = set_task_ids-last last m qs r old.1 e in rw other (ap (λ (l : List Run). q ∷ l) rest)

plant-IsPlanted :
    (x : Texts) (now : ℕ) (l : Launch) (spec : Spec) (b b' : Base)
    → IsKeyed b.db
    → Distinct (ids spec.nodes)
    → plant x now l spec b ≡ ok b'
    → (m : TaskIds) × (b'.runs ≡ set_task_ids l.run m b.runs)
      × (b'.last_run ≡ b.last_run)
      × IsPlanted x now l spec m b.db b'.db
unfolding plant
plant-IsPlanted x now l spec b b' k d h =
    let ((db₁, m), first, rest) =
      >>=-eq-ok (insert_nodes x now l (sort_nodes spec.nodes) [] b.db) _ h in
    let (db₂, second, last) = >>=-eq-ok (link_nodes m (sort_nodes spec.nodes) db₁) _ rest in
    let made =
      insert_nodes_lem x now l (sort_nodes spec.nodes) [] b.db db₁ m k
        (sort_nodes-Distinct spec.nodes d) first in
    let linked = link_nodes-edges m (sort_nodes spec.nodes) db₁ db₂ second in
    let same : record b { db = db₂; runs = set_task_ids l.run m b.runs } ≡ b' = cc in
    let rows : db₂.tasks ≡ db₁.tasks = ap (λ (e : Db). e.tasks) linked in
    let stays : (j : ℕ) (t : Task) → get_task j db₁ ≡ some t → get_task j db₂ ≡ some t =
      λ j t e. rw rows e in
    subst
      (λ (c : Base).
        (m' : TaskIds) × (c.runs ≡ set_task_ids l.run m' b.runs)
        × (c.last_run ≡ b.last_run)
        × IsPlanted x now l spec m' b.db c.db)
      same
      (
        m,
        refl,
        refl,
        record {
          tasks = All-sort_nodes _ spec.nodes (
              All-map _ _
                (λ n (i, found, s). let (t, row, r) = s.row in (i, found, t, stays i t row, r))
                (sort_nodes spec.nodes) made.made);
          edges =
              ap (λ (e : Db). e.edges) linked
              ∙ ap (λ (es : List Edge). es ++ planned m (sort_nodes spec.nodes)) made.grown.edges;
          kept = λ j t e. stays j t (made.grown.kept j t e);
          accounted = λ j. elim (made.accounted j) [
            | inl e ↦ inl (ap (find j) rows ∙ e)
            | inr (n, at_n, e) ↦ inr (n, sort_nodes-In n spec.nodes at_n, e)
          ];
          roles = ap (λ (e : Db). e.roles) linked ∙ made.grown.roles;
          projects = ap (λ (e : Db). e.projects) linked ∙ made.grown.projects;
          run_ids = ap (λ (e : Db). e.runs) linked ∙ made.grown.runs;
        },
      )

-- The base after the row of the run is inserted.
abbrev pub with_run_row : Texts → ℕ → ℕ → String → Base → Base
with_run_row x workflow_id project custom b = record b {
  db = record b.db { runs = b.db.runs ++ suc b.last_run ∷ [] };
  runs = b.runs ++ run_row x workflow_id project custom (suc b.last_run) [] ∷ [];
  last_run = suc b.last_run;
}

insert_run-row :
    (x : Texts) (workflow_id project : ℕ) (custom : String) (b b' : Base)
    → insert_run workflow_id project (x.trim custom) b ≡ ok b'
    → b' ≡ with_run_row x workflow_id project custom b
unfolding insert_run
insert_run-row x workflow_id project custom b b' h = ground arith

still_adopted-parts :
    (tk : WorkflowTask) (o : Option Task)
    → still_adopted tk o ≡ ok tt
    → (t : Task) × (o ≡ some t) × (status_is t.status adopted ≡ true) × (t.revision ≡ tk.revision)
still_adopted-parts tk none h = absurd (cc)
still_adopted-parts tk (some t) h = (t, refl, ground arith, ground arith)

decoded-ok : (o : Option Spec) {spec : Spec} → decoded o ≡ ok spec → o ≡ some spec
decoded-ok none h = cc
decoded-ok (some s) h = cc

dir_of_project-ok : (o : Option String) {dir : String} → dir_of_project o ≡ ok dir → o ≡ some dir
dir_of_project-ok none h = cc
dir_of_project-ok (some s) h = cc

module _ (x : Texts) (now : ℕ) (tk : WorkflowTask) (project : ℕ) (custom : String) (b : Base) where
  Launched-from :
      (spec : Spec) (dir : String) (b' : Base)
      → tk.spec ≡ some spec
      → b.active_dir project ≡ some dir
      → (t : Task) × (get_task tk.id b.db ≡ some t)
        × (status_is t.status adopted ≡ true)
        × (t.revision ≡ tk.revision)
      → Issued b
      → IsKeyed b.db
      → Distinct (ids spec.nodes)
      → plant x now
          (launch_of x spec project dir custom (suc b.last_run))
          spec
          (with_run_row x tk.id project custom b)
        ≡ ok b'
      → Launched x now tk project custom b b' (suc b.last_run)
  Launched-from spec dir b' es ed def issued k d h =
      let l = launch_of x spec project dir custom (suc b.last_run) in
      let b₁ = with_run_row x tk.id project custom b in
      let (m, rows, counter, planted) =
        plant-IsPlanted x now l spec b₁ b'
          (record { unique = k.unique; below = k.below; positive = k.positive }) d h in
      record {
        definition = def;
        next = refl;
        counted = counter;
        planted = (
          spec,
          es,
          dir,
          ed,
          m,
          rows
              ∙ set_task_ids-last b.last_run m b.runs
                  (run_row x tk.id project custom (suc b.last_run) []) issued refl,
          record {
            tasks = planted.tasks;
            edges = planted.edges;
            kept = planted.kept;
            accounted = planted.accounted;
            roles = planted.roles;
            projects = planted.projects;
            run_ids = planted.run_ids;
          },
        );
      }

  launch_run-planted :
      (spec : Spec) (dir : String) (b' : Base) (run : ℕ)
      → launch_run x now tk project custom b spec dir ≡ ok (b', run)
      → (run ≡ suc b.last_run)
        × (plant x now
              (launch_of x spec project dir custom (suc b.last_run))
              spec
              (with_run_row x tk.id project custom b)
            ≡ ok b')
  unfolding launch_run
  launch_run-planted spec dir b' run h =
      let (b₁, first, rest) = >>=-eq-ok (insert_run tk.id project (x.trim custom) b) _ h in
      let (b₂, second, last) =
        >>=-eq-ok (plant x now (launch_of x spec project dir custom b₁.last_run) spec b₁)
          (λ b''. ok (b'', b₁.last_run)) rest in
      let row = insert_run-row x tk.id project custom b b₁ first in
      let same : b₂ ≡ b' = cc in
      let id : b₁.last_run ≡ run = cc in
      (
        sym id ∙ ap (λ (c : Base). c.last_run) row,
        subst
            (λ (c : Base).
              plant x now (launch_of x spec project dir custom c.last_run) spec c ≡ ok b')
            row (second ∙ ap ok same),
      )

  -- Where `InstantiateWorkflow` succeeds on nodes with different ids, the definition is adopted at the
  -- revision of the caller and the project is active; the new run has the next id, it is running at
  -- revision 1, of the workflow, the project and the trimmed text of the caller, and knows the task of each
  -- node; its row is put after those of the other runs, which stay as they were; each of its tasks is a
  -- queued batch task of the run and of the project, with the rendered intent, the permission, the role and
  -- the failure policy of its node, and without a dependency of its own; the edges that are added are
  -- those of the dependencies, each from a node's task to that of the other, passed over after a failure
  -- exactly if the node continues; every other task, and the roles and the projects, are as they were. The
  -- ids of the tasks are unique and handed out, and those of the runs handed out.
  pub instantiate_workflow-Launched :
      (spec : Spec) (b' : Base) (run : ℕ)
      → tk.spec ≡ some spec
      → Issued b
      → IsKeyed b.db
      → Distinct (ids spec.nodes)
      → instantiate_workflow x now tk project custom b ≡ ok (b', run)
      → Launched x now tk project custom b b' run
  unfolding instantiate_workflow launch_in
  instantiate_workflow-Launched spec b' run es issued k d h =
      let (u, adopted_now, h₁) =
        >>=-eq-ok (still_adopted tk (get_task tk.id b.db))
          (λ (v : Unit {0}). decoded tk.spec >>= launch_in x now tk project custom b) h in
      let (spec', e₁, h₂) = >>=-eq-ok (decoded tk.spec) (launch_in x now tk project custom b) h₁ in
      let (dir, e₂, h₃) =
        >>=-eq-ok (dir_of_project (b.active_dir project))
          (launch_run x now tk project custom b spec') h₂ in
      let same : spec ≡ spec' = some_eq (sym es ∙ decoded-ok tk.spec e₁) in
      let (id, planted) = launch_run-planted spec' dir b' run h₃ in
      subst (Launched x now tk project custom b b') (sym id) (
        Launched-from spec' dir b' (decoded-ok tk.spec e₁)
          (dir_of_project-ok (b.active_dir project) e₂)
          (still_adopted-parts tk (get_task tk.id b.db) adopted_now) issued k
          (subst (λ (q : Spec). Distinct (ids q.nodes)) same d) planted)
