-- ===== src/Application/Workflows/Checked.antt =====
-- What `CreateWorkflow` stores, and that it can be started.
use paihuo.Prelude.{
  ℕ, suc, ◌≤◌, ◌≡◌, ◌≢◌, refl, sym, ◌∙◌, ap, subst, String, Bool, true, false, Option, none, some,
  List, [], ◌∷◌, arith, ◌==◌, All, elem, is_some, some_eq, ==_refl,
}
use paihuo.Model.{Task, Role}
use paihuo.Model.Words.{adopted, status_is, workflow, type_is}
use paihuo.Store.Db.{Db, Edge, Result, ok, err, >>=-eq-ok, get_task}
use paihuo.Store.Roles.{find_role}
use paihuo.Store.Insert.{stored, appended}
use paihuo.Store.Insert.Laws.{IsKeyed, insert_row-appended, find-insert_row, insert_row-IsKeyed}
use paihuo.Store.Create.{
  create_task, prepare_task_for_insert, assign_next_task_sort_order, insert_task,
  normalize_dependency_mode,
}
use paihuo.Workflow.Spec.{Spec, Violation}
use paihuo.Workflow.Depth.Longest.{Lists}
use paihuo.Workflow.Policy.{Policy, node_graph, validate, default_policy}
use paihuo.Workflow.Policy.Admitted.{WellFormed, Admitted, validate-Admitted}
use paihuo.Store.Workflows.{Texts, Base, instantiate_workflow}
use paihuo.Store.Workflows.Total.{HasRole}
use paihuo.Store.Workflows.Startable.{CanStart, instantiate_workflow-WellFormed}
use paihuo.Store.Definitions.{definition_row, set_spec, create_workflow_task, get_workflow_task}
use paihuo.Application.Workflows.{
  Reply, reply, and_reply, from_store, check, Service, role_capabilities, resolve_role_of,
  policy_of, spec_defaults, clean, bound_project, prepare_spec, create_workflow, start_plan,
  workflow_of, spec_at, current_workflow,
}

module _ {ℓ κ} {A : Type ℓ} {B : Type κ} where
  and_reply-eq-reply :
      (m : Reply A) (f : A → Reply B) {b : B}
      → and_reply m f ≡ reply b
      → (a : A) × (m ≡ reply a) × (f a ≡ reply b)
  and_reply-eq-reply (reply a) f h = (a, refl, h)
  and_reply-eq-reply (Reply.by_store e) f h = absurd (cc)
  and_reply-eq-reply (Reply.violates vs) f h = absurd (cc)
  and_reply-eq-reply Reply.refused f h = absurd (cc)

from_store-reply {ℓ} : {A : Type ℓ} (m : Result A) {a : A} → from_store m ≡ reply a → m ≡ ok a
from_store-reply (ok b) h = cc
from_store-reply (err e) h = cc

clean-reply : (o : Option (List Violation)) → clean o ≡ reply tt → o ≡ some []
clean-reply none h = absurd (cc)
clean-reply (some []) h = refl
clean-reply (some (v ∷ vs)) h = absurd (cc)

-- The row that `CreateWorkflowTask` inserts.
abbrev row_of : ℕ → Spec → String → Bool → Option ℕ → Db → Task
row_of now spec cron enabled project db =
    record (assign_next_task_sort_order db
      (prepare_task_for_insert now (definition_row spec cron enabled project))) {
        error = "";
        tmux_log_offset = 0;
        started_at = none;
      }

row-shape :
    (now : ℕ) (spec : Spec) (cron : String) (enabled : Bool) (project : Option ℕ) (db : Db)
    → ((row_of now spec cron enabled project db).shape ≡ workflow)
      × ((row_of now spec cron enabled project db).status ≡ adopted)
unfolding prepare_task_for_insert assign_next_task_sort_order normalize_dependency_mode
row-shape now spec cron enabled none db = ground arith
row-shape now spec cron enabled (some p) db = ground arith

-- What the insertion of a definition leaves.
record Defined (spec : Spec) (b b' : Base) (i : ℕ) : Type 0 where
  row :
      (t : Task) × (get_task i b'.db ≡ some t)
      × (t.id ≡ i)
      × (t.shape ≡ workflow)
      × (t.status ≡ adopted)
      × (t.revision ≡ 1)
  column : b'.specs i ≡ some spec
  keyed : IsKeyed b'.db
  roles : b'.db.roles ≡ b.db.roles
  projects : b'.db.projects ≡ b.db.projects
  edges : b'.db.edges ≡ b.db.edges
  later : b.db.last_id ≤ b'.db.last_id
  dirs : b'.active_dir ≡ b.active_dir
  runs : b'.last_run ≡ b.last_run

create_workflow_task-Defined :
    (now : ℕ) (spec : Spec) (cron : String) (enabled : Bool) (project : Option ℕ) (b b' : Base)
    (i : ℕ)
    → IsKeyed b.db
    → create_workflow_task now spec cron enabled project b ≡ ok (b', i)
    → Defined spec b b' i
unfolding create_workflow_task create_task insert_task appended
create_workflow_task-Defined now spec cron enabled project b b' i k h =
    let ((db', j), first, last) =
      >>=-eq-ok (create_task now (definition_row spec cron enabled project) b.db)
        (λ (r : Db × ℕ). ok (record b { db = r.0; specs = set_spec r.1 spec b.specs }, r.1)) h in
    let row = row_of now spec cron enabled project b.db in
    let (e, f) = insert_row-appended b.db row {db' = db'} {n = j} first in
    let (shape, status) = row-shape now spec cron enabled project b.db in
    let same : ◌≡◌ {A = Base × ℕ} (record b { db = db'; specs = set_spec j spec b.specs }, j)
        (b', i) =
      cc in
    subst (λ (r : Base × ℕ). Defined spec b r.0 r.1) same
      (record {
        row = (
          stored j row,
          find-insert_row b.db row {db' = db'} {n = j} first k,
          refl,
          shape,
          status,
          refl,
        );
        column = rw (==_refl j) refl;
        keyed = insert_row-IsKeyed b.db row {db' = db'} {n = j} first k;
        roles = ap (λ (d : Db). d.roles) e;
        projects = ap (λ (d : Db). d.projects) e;
        edges = ap (λ (d : Db). d.edges) e;
        later = let last_id = ap (λ (d : Db). d.last_id) e in omega arith;
        dirs = refl;
        runs = refl;
      })

-- `prepareSpec` returns the specification with its defaults, once the policy has nothing against it.
prepare_spec-parts :
    (s : Service) (b : Base) (spec : Spec) (cron : String) (project : Option ℕ) (spec' : Spec)
    → prepare_spec s b spec cron project ≡ reply spec'
    → (spec' ≡ spec_defaults spec)
      × (validate (policy_of s b.db) (s.order (spec_defaults spec)) (spec_defaults spec) ≡ some [])
unfolding prepare_spec
prepare_spec-parts s b spec cron project spec' h =
    let (u, cleared, h₁) =
      and_reply-eq-reply
        (clean (validate (policy_of s b.db) (s.order (spec_defaults spec)) (spec_defaults spec)))
        (λ (v : Unit {0}).
          and_reply (check (bound_project b cron project))
            (λ (w : Unit {0}). reply (spec_defaults spec)))
        h in
    let (u', bound, h₂) =
      and_reply-eq-reply (check (bound_project b cron project))
        (λ (w : Unit {0}). reply (spec_defaults spec)) h₁ in
    (cc, clean-reply _ cleared)

module _ (s : Service) (now : ℕ) (spec : Spec) (cron : String) (enabled : Bool) (project : Option ℕ)
    (b b' : Base) (i : ℕ) (keyed : IsKeyed b.db)
    (made : create_workflow s now spec cron enabled project b ≡ reply (b', i)) where
  create_workflow-parts :
      (validate (policy_of s b.db) (s.order (spec_defaults spec)) (spec_defaults spec) ≡ some [])
      × Defined (spec_defaults spec) b b' i
  unfolding create_workflow
  create_workflow-parts =
      let (spec', prepared, h) =
        and_reply-eq-reply (prepare_spec s b spec cron project)
          (λ spec'. from_store (create_workflow_task now spec' cron enabled project b)) made in
      let (same, cleared) = prepare_spec-parts s b spec cron project spec' prepared in
      (
        cleared,
        subst (λ (q : Spec). Defined q b b' i) same
            (create_workflow_task-Defined now spec' cron enabled project b b' i keyed
              (from_store-reply _ h)),
      )

-- The policy of the service depends on the rows of the roles only.
policy_of-roles :
    (s : Service) (db db' : Db) → db'.roles ≡ db.roles → policy_of s db' ≡ policy_of s db
unfolding resolve_role_of
policy_of-roles s db db' e =
    ap (λ (rs : List Role). default_policy (λ i. role_capabilities s (find_role i rs))) e

find_role-HasRole :
    (i : ℕ) (roles : List Role) → is_some (find_role i roles) ≡ true → HasRole roles i
unfolding find_role
find_role-HasRole i [] h = absurd (cc)
find_role-HasRole i (r ∷ rs) h = ground (arith, find_role-HasRole i rs)

exists-HasRole :
    (s : Service) (db : Db) (i : ℕ) → (resolve_role_of s db i).exists ≡ true → HasRole db.roles i
unfolding resolve_role_of
exists-HasRole s db i h = find_role-HasRole i db.roles (found (find_role i db.roles) h)
  where
    found : (o : Option Role) → (role_capabilities s o).exists ≡ true → is_some o ≡ true
    found none h = h
    found (some r) h = refl

grown_edges :
    (low high : ℕ) (es : List Edge)
    → low ≤ high
    → All (λ e. e.task_id ≤ low) es
    → All (λ e. e.task_id ≤ high) es
grown_edges low high [] le h = tt
grown_edges low high (e ∷ es) le h = (omega arith, grown_edges low high es le h.1)

spec_at-some {ℓ} :
    {B : Type ℓ} (o : Option Spec) {spec : Spec}
    → o ≡ some spec
    → (f : Spec → Reply B) → and_reply (spec_at o) f ≡ f spec
spec_at-some none e f = absurd (cc)
spec_at-some (some q) e f = ap f (some_eq e)

-- The equation of `StartPlan` where every check passes.
start_plan-reply :
    (s : Service) (x : Texts) (now i project : ℕ) (task : String) (b : Base) (t : Task)
    (spec : Spec) {r : Base × ℕ}
    → project ≢ 0
    → get_task i b.db ≡ some t
    → t.shape ≡ workflow
    → t.status ≡ adopted
    → t.revision ≡ 1
    → b.specs t.id ≡ some spec
    → validate (policy_of s b.db) (s.order spec) spec ≡ some []
    → instantiate_workflow x now (workflow_of b t) project task b ≡ ok r
    → start_plan s x now i 1 project task b ≡ reply r
unfolding start_plan current_workflow get_workflow_task
start_plan-reply s x now i project task b t spec nz found shape status revision column cleared run =
    let positive : (project == 0) ≡ false = ground arith in
    let of_type : type_is t.shape workflow ≡ true = ap (λ k. type_is k workflow) shape in
    let ready : status_is t.status adopted ≡ true = ap (λ k. status_is k adopted) status in
    let current : (t.revision == 1) ≡ true = ap (λ k. k == 1) revision in
    let last : Reply (Base × ℕ) =
      from_store (instantiate_workflow x now (workflow_of b t) project task b) in
    rw (positive, found, of_type, current, ready)
      (spec_at-some (b.specs t.id) column (λ spec'.
          and_reply (clean (validate (policy_of s b.db) (s.order spec') spec'))
            (λ (w : Unit {0}). last))
        ∙ (ap (λ v. and_reply (clean v) (λ (w : Unit {0}). last)) cleared ∙ ap from_store run))

-- What `InstantiateWorkflow` asks of the database holds after a definition is stored.
Defined-CanStart :
    (s : Service) (spec : Spec) (b b' : Base) (i project : ℕ) (dir : String)
    (d : Defined spec b b' i)
    → All (λ e. e.task_id ≤ b.db.last_id) b.db.edges
    → b.active_dir project ≡ some dir
    → elem project b.db.projects ≡ true
    → CanStart b' (workflow_of b' d.row.0) project (policy_of s b'.db)
unfolding default_policy
Defined-CanStart s spec b b' i project dir d old ed ep =
    let (t, found, id, shape, status, revision) = d.row in
    record {
      definition = (
        t,
        ap (λ (j : ℕ). get_task j b'.db) id ∙ found,
        ap (λ k. status_is k adopted) status,
        refl,
      );
      dir = (dir, ap (λ (f : ℕ → Option String). f project) d.dirs ∙ ed);
      project_row = subst (λ (ps : List ℕ). elem project ps ≡ true) (sym d.projects) ep;
      roles = (resolve_role_of s b'.db, refl, λ j h. exists-HasRole s b'.db j h);
      keyed = d.keyed;
      edges =
          subst (λ (es : List Edge). All (λ e. e.task_id ≤ b'.db.last_id) es) (sym d.edges)
            (grown_edges b.db.last_id b'.db.last_id b.db.edges d.later old);
    }

-- A definition that `CreateWorkflow` accepts is stored as adopted, at revision 1, with its defaults; it
-- keeps the policy, and it can be started at once: for every active project `StartPlan` at that revision
-- returns, with the next id of a run. The tables are taken to keep their keys, edges to start from tasks
-- that are there, and the iteration of `graphDepth` to meet each node of the stored specification.
pub create_workflow-start_plan :
    (s : Service) (x : Texts) (now now' : ℕ) (spec : Spec) (cron : String) (enabled : Bool)
    (bound : Option ℕ) (b b' : Base) (i project : ℕ) (dir task : String)
    → IsKeyed b.db
    → All (λ e. e.task_id ≤ b.db.last_id) b.db.edges
    → Lists (node_graph (spec_defaults spec).nodes) (s.order (spec_defaults spec))
    → create_workflow s now spec cron enabled bound b ≡ reply (b', i)
    → project ≢ 0
    → b.active_dir project ≡ some dir
    → elem project b.db.projects ≡ true
    → Admitted (policy_of s b.db) (spec_defaults spec)
      × (b'.specs i ≡ some (spec_defaults spec))
      × (b'' : Base) × (start_plan s x now' i 1 project task b' ≡ reply (b'', suc b.last_run))
create_workflow-start_plan s x now now' spec cron enabled bound b b' i project dir task k old listed
      made nz ed ep =
    let (cleared, d) = create_workflow-parts s now spec cron enabled bound b b' i k made in
    let (t, found, id, shape, status, revision) = d.row in
    let spec' = spec_defaults spec in
    let admitted = validate-Admitted (policy_of s b.db) (s.order spec') spec' listed cleared in
    let same = policy_of-roles s b.db b'.db d.roles in
    let cleared' : validate (policy_of s b'.db) (s.order spec') spec' ≡ some [] =
      ap (λ (p : Policy). validate p (s.order spec') spec') same ∙ cleared in
    let column : b'.specs t.id ≡ some spec' = ap b'.specs id ∙ d.column in
    let can : CanStart b' (workflow_of b' t) project (policy_of s b'.db) =
      Defined-CanStart s spec' b b' i project dir d old ed ep in
    let (b'', run) =
      instantiate_workflow-WellFormed x now' (workflow_of b' t) project task b' (policy_of s b'.db)
        spec' column (subst (λ (p : Policy). WellFormed p spec') (sym same) admitted.formed) can in
    (
      admitted,
      d.column,
      b'',
      start_plan-reply s x now' i project task b' t spec' nz found shape status revision column
          cleared' (run ∙ ap (λ (n : ℕ). ok (b'', suc n)) d.runs),
    )
