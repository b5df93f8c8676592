-- ===== src/Store/Workflows/Startable.antt =====
-- `InstantiateWorkflow` on a specification that `Validate` lets pass.
use paihuo.Prelude.{
  ℕ, suc, ◌≤◌, ◌<◌, ◌≡◌, ◌≢◌, refl, sym, ◌∙◌, ap, subst, String, true, false, some, List, [], ◌∷◌,
  ◌++◌, arith, All, All-map, In, elem, any,
}
use paihuo.Model.{Task, Role}
use paihuo.Model.Words.{adopted, status_is}
use paihuo.Store.Db.{Db, Edge, ok, get_task}
use paihuo.Store.Insert.Laws.{IsKeyed}
use paihuo.Workflow.Spec.{Spec, Node}
use paihuo.Workflow.Policy.{Policy, RoleCapabilities}
use paihuo.Workflow.Policy.Nodes.{NodeOk, DepsOk, Distinct, ids}
use paihuo.Workflow.Policy.Clean.{RoleOk}
use paihuo.Workflow.Policy.Admitted.{WellFormed}
use paihuo.Store.Workflows.{
  Texts, Launch, TaskIds, WorkflowTask, Base, task_id_of, or_zero, same_edge, edge_of, sort_nodes,
  link_nodes, insert_run, set_task_ids, plant, still_adopted, launch_run, launch_in,
  instantiate_workflow,
}
use paihuo.Store.Workflows.Sorted.{
  sort_nodes-All, sort_nodes-Distinct, sort_nodes-ids, In-ids, All-at,
}
use paihuo.Store.Workflows.Planted.{Inserted, Made-In, insert_nodes_lem}
use paihuo.Store.Workflows.Linked.{planned, with_edges}
use paihuo.Store.Workflows.Apart.{Apart, Apart-new, All-planned, planned-AllApart}
use paihuo.Store.Workflows.Total.{
  HasRow, find-HasRow, HasRole, Fits, insert_nodes-total, link_nodes-total,
}
use paihuo.Store.Workflows.Launched.{launch_of, with_run_row}

-- What the caller and the database must be: the definition is adopted at the revision of the caller, the
-- project is active, the policy asks for roles that are rows, and the tables keep their keys.
pub record CanStart (b : Base) (tk : WorkflowTask) (project : ℕ) (p : Policy) : Type 0 where
  pub definition :
      (t : Task) × (get_task tk.id b.db ≡ some t)
      × (status_is t.status adopted ≡ true)
      × (t.revision ≡ tk.revision)
  pub dir : (s : String) × (b.active_dir project ≡ some s)
  pub project_row : elem project b.db.projects ≡ true
  pub roles :
      (resolve : ℕ → RoleCapabilities) × (p.resolve_role ≡ some resolve)
      × ((i : ℕ) → (resolve i).exists ≡ true → HasRole b.db.roles i)
  pub keyed : IsKeyed b.db
  pub edges : All (λ e. e.task_id ≤ b.db.last_id) b.db.edges

-- Old edges start from old tasks.
old-apart :
    (low : ℕ) (e : Edge) (es : List Edge)
    → low < e.task_id
    → All (λ f. f.task_id ≤ low) es
    → any (same_edge e) es ≡ false
old-apart low e [] h a = refl
old-apart low e (f ∷ fs) h a = ground (arith, old-apart low e fs h a.1)

module _ (x : Texts) (now : ℕ) (l : Launch) (p : Policy) (spec : Spec)
    (formed : WellFormed p spec) where
  abbrev sorted : List Node
  sorted = sort_nodes spec.nodes

  -- The dependencies of the sorted nodes are among them, and differ from each other.
  sorted_deps :
      All
        (λ n. All (λ d. (d ≢ n.id) × In d (ids sorted)) n.depends_on × Distinct n.depends_on)
        sorted
  sorted_deps = sort_nodes-All _ spec.nodes (
      All-map (DepsOk spec.nodes) _
        (λ n k. (
          All-map _ _ (λ d (ne, m). (ne, sort_nodes-ids d spec.nodes m)) n.depends_on k.others,
          k.distinct,
        ))
        spec.nodes formed.dependencies)

  dep_of :
      (n : Node) (d : String) → In n sorted → In d n.depends_on → (d ≢ n.id) × In d (ids sorted)
  dep_of n d m k = All-at _ n.depends_on (All-at _ sorted sorted_deps m).0 k

  module _ (db db' : Db) (m : TaskIds) (made : Inserted x now l sorted db [] db' m)
      (old : All (λ e. e.task_id ≤ db.last_id) db.edges) where
    id_at :
        (k : String)
        → In k (ids sorted)
        → (db.last_id < or_zero (task_id_of k m))
          × HasRow db' (or_zero (task_id_of k m))
          × (task_id_of k m ≡ some (or_zero (task_id_of k m)))
    id_at k h =
        let (i, found, low, high, t, row, same) =
          Made-In x now l sorted db.last_id m db' k made.made h in
        rw found (low, find-HasRow i db'.tasks {t = t} row, refl)

    apart :
        (a b : String)
        → In a (ids sorted)
        → In b (ids sorted)
        → or_zero (task_id_of a m) ≡ or_zero (task_id_of b m)
        → a ≡ b
    apart a b h k e =
        made.unique a b (or_zero (task_id_of b m)) h k ((id_at a h).2 ∙ ap some e) (id_at b k).2

    Fits-planned : All (Fits db') (planned m sorted)
    Fits-planned = All-planned (Fits db') m sorted (λ n d h k.
        let (ne, d_in) = dep_of n d h k in
        let n_in = In-ids n sorted h in
        ((id_at n.id n_in).1, (id_at d d_in).1, λ e. ne (sym (apart n.id d n_in d_in e))))

    all_new : Apart db'.edges (planned m sorted)
    all_new =
        Apart-new db'.edges (planned m sorted)
          (All-planned _ m sorted (λ n d h k. rw made.grown.edges (
            old-apart db.last_id (edge_of m n (or_zero (task_id_of d m))) db.edges
              (id_at n.id (In-ids n sorted h)).0 old)))
          (planned-AllApart m (ids sorted) apart sorted (λ n h. In-ids n sorted h)
            (λ n d h k. (dep_of n d h k).1) (sort_nodes-Distinct spec.nodes formed.distinct)
            (λ n h. (All-at _ sorted sorted_deps h).1))

    linked : link_nodes m sorted db' ≡ ok (with_edges db' (planned m sorted))
    linked =
        link_nodes-total m sorted db'
          (λ n d h k. (or_zero (task_id_of d m), (id_at d (dep_of n d h k).1).2)) Fits-planned
          all_new

  role_rows :
      (roles : List Role) (resolve : ℕ → RoleCapabilities)
      → p.resolve_role ≡ some resolve
      → ((i : ℕ) → (resolve i).exists ≡ true → HasRole roles i)
      → All (λ n. HasRole roles n.role.role_id) sorted
  role_rows roles resolve e rows = sort_nodes-All _ spec.nodes (
      All-map (NodeOk p) _
        (λ n k.
          let r : RoleOk n (some resolve) = subst (RoleOk n) e k.role in rows n.role.role_id r.0)
        spec.nodes formed.nodes)

  plant-total :
      (b : Base)
      → IsKeyed b.db
      → All (λ n. HasRole b.db.roles n.role.role_id) sorted
      → elem l.project b.db.projects ≡ true
      → elem l.run b.db.runs ≡ true
      → All (λ e. e.task_id ≤ b.db.last_id) b.db.edges
      → (b' : Base) × (plant x now l spec b ≡ ok b')
  unfolding plant
  plant-total b k roles project run old =
      let (db', m, first) = insert_nodes-total x now l sorted [] b.db k roles project run in
      let made =
        insert_nodes_lem x now l sorted [] b.db db' m k
          (sort_nodes-Distinct spec.nodes formed.distinct) first in
      (
        record b { db = with_edges db' (planned m sorted); runs = set_task_ids l.run m b.runs },
        rw (first, linked b.db db' m made old) refl,
      )

elem-append : (i : ℕ) (xs : List ℕ) → elem i (xs ++ i ∷ []) ≡ true
elem-append i [] = ground arith
elem-append i (x ∷ xs) = ground (arith, elem-append i xs)

insert_run-total :
    (x : Texts) (workflow_id project : ℕ) (custom : String) (b : Base)
    → HasRow b.db workflow_id
    → elem project b.db.projects ≡ true
    → insert_run workflow_id project (x.trim custom) b
      ≡ ok (with_run_row x workflow_id project custom b)
unfolding insert_run
insert_run-total x workflow_id project custom b row e = rw (row, e) refl

-- A definition of which `Validate` reports nothing but perhaps the sum of the budgets can be started:
-- where it is adopted at the revision of the caller, the project is active, the roles that the policy
-- takes for existing are rows, and the tables keep their keys, `InstantiateWorkflow` succeeds with the next
-- id of a run; no dependency is missing, no edge is stored twice and none leads from a task to itself.
pub instantiate_workflow-WellFormed :
    (x : Texts) (now : ℕ) (tk : WorkflowTask) (project : ℕ) (custom : String) (b : Base)
    (p : Policy) (spec : Spec)
    → tk.spec ≡ some spec
    → WellFormed p spec
    → CanStart b tk project p
    → (b' : Base) × (instantiate_workflow x now tk project custom b ≡ ok (b', suc b.last_run))
unfolding instantiate_workflow launch_in launch_run
instantiate_workflow-WellFormed x now tk project custom b p spec es formed can =
    let (t, row, status, revision) = can.definition in
    let (dir, ed) = can.dir in
    let (resolve, er, rows) = can.roles in
    let l = launch_of x spec project dir custom (suc b.last_run) in
    let b₁ = with_run_row x tk.id project custom b in
    let keyed : IsKeyed b₁.db = record {
      unique = can.keyed.unique;
      below = can.keyed.below;
      positive = can.keyed.positive;
    } in
    let (b', planted) =
      plant-total x now l p spec formed b₁ keyed
        (role_rows x now l p spec formed b.db.roles resolve er rows) can.project_row
        (elem-append (suc b.last_run) b.db.runs) can.edges in
    let inserted =
      insert_run-total x tk.id project custom b (find-HasRow tk.id b.db.tasks {t = t} row)
        can.project_row in
    let open_row : still_adopted tk (get_task tk.id b.db) ≡ ok tt =
      rw (row, status) (ground arith) in
    (b', rw (open_row, es, ed, inserted, planted) refl)
