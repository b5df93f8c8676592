-- ===== src/Workflow/Policy.antt =====
-- internal/workflow/policy.go: `Validate`, which reports every way in which a specification breaks the
-- policy. Its loop over the nodes is four functions here, for the violations, the map of nodes, the sum of
-- the budgets and the check of the dependencies.
pub mod Clean
pub mod Nodes
pub mod Admitted
pub mod Budget
use paihuo.Prelude.{
  ℕ, String, Bool, true, false, not, ◌&&◌, ◌||◌, Option, none, some, List, [], ◌∷◌, ◌++◌,
  if◌then◌else◌, any, length, is_some, map,
}
use paihuo.Prelude.Signed.{ℤ, pos, ltb_ℤ, ◌+int64◌}
use text.Mathlib.Text.{◌==◌ as str_eq}
use mathlib.Core.Option
use paihuo.Workflow.Spec.{Limits, Node, Spec, Code, Violation}
use paihuo.Workflow.Text.{is_blank, node_id_matches, dangerous_action, invalid_reference}
use paihuo.Workflow.Depth.{Graph, Depth, cyclic, depth, graph_depth}

pub record RoleCapabilities : Type 0 where
  pub exists : Bool
  pub enabled : Bool
  pub capabilities : String → Bool

pub record Policy : Type 0 where
  pub max_nodes : ℤ
  pub max_depth : ℤ
  pub max_concurrency : ℤ
  pub max_budget : ℤ
  pub max_timeout : ℤ
  pub resolve_role : Option (ℕ → RoleCapabilities)

-- `DefaultPolicy`.
unfoldable pub default_policy : (ℕ → RoleCapabilities) → Policy
default_policy resolve = record {
  max_nodes = pos 64;
  max_depth = pos 12;
  max_concurrency = pos 8;
  max_budget = pos 1000000;
  max_timeout = pos 86400;
  resolve_role = some resolve;
}

-- `if test { add(code, nodeID, …) }`.
abbrev pub report : Bool → Code → String → List Violation
report test code node_id = if test then record { code = code; node_id = node_id } ∷ [] else []

-- `value < low || value > high`.
abbrev pub outside : ℤ → ℤ → ℤ → Bool
outside low high value = ltb_ℤ value low || ltb_ℤ high value

-- A row of such tests, each after the other.
abbrev pub adds : List (List Violation) → List Violation
adds [] = []
adds (v ∷ vs) = v ++ adds vs

-- The checks of the goal and of the limits.
abbrev pub limit_checks : Policy → Spec → List (List Violation)
limit_checks p spec =
    report (is_blank spec.goal) Code.goal_required ""
    ∷ report (outside (pos 1) p.max_nodes spec.limits.max_nodes) Code.max_nodes ""
    ∷ report (outside (pos 1) p.max_depth spec.limits.max_depth) Code.max_depth ""
    ∷ report (outside (pos 1) p.max_concurrency spec.limits.max_concurrency) Code.max_concurrency ""
    ∷ report (outside (pos 0) p.max_budget spec.limits.budget) Code.budget ""
    ∷ report
        (outside (pos 1) p.max_nodes (pos (length spec.nodes))
          || ltb_ℤ spec.limits.max_nodes (pos (length spec.nodes)))
        Code.node_count ""
    ∷ []

unfoldable pub check_limits : Policy → Spec → List Violation
check_limits p spec = adds (limit_checks p spec)

-- `value != a && value != b`.
abbrev pub neither : String → String → String → Bool
neither a b value = not (str_eq value a) && not (str_eq value b)

unfoldable pub check_capabilities : String → (String → Bool) → List String → List Violation
check_capabilities node_id has [] = []
check_capabilities node_id has (c ∷ cs) =
    report (not (has c)) Code.runtime_capability node_id ++ check_capabilities node_id has cs

unfoldable pub check_role : Node → Option (ℕ → RoleCapabilities) → List Violation
check_role n none = []
check_role n (some resolve) =
    let role = resolve n.role.role_id in
    if not role.exists || not role.enabled
    then record { code = Code.role_unavailable; node_id = n.id } ∷ []
    else check_capabilities n.id role.capabilities ("batch" ∷ n.role.required_capabilities)

unfoldable pub check_actions : Node → List String → List Violation
check_actions n [] = []
check_actions n (a ∷ more) =
    report (dangerous_action a && not n.approval_required) Code.approval_required n.id
    ++ check_actions n more

unfoldable pub check_refs : Node → List String → List Violation
check_refs n [] = []
check_refs n (r ∷ rs) = report (invalid_reference r) Code.input_reference n.id ++ check_refs n rs

-- The body of the loop, where `nodes` holds the nodes before this one.
abbrev pub node_checks : Policy → List Node → Node → List (List Violation)
node_checks p nodes n =
    report (not (node_id_matches n.id)) Code.node_id n.id
    ∷ report (any (λ m. str_eq m.id n.id) nodes) Code.duplicate_node n.id
    ∷ report (is_blank n.intent) Code.intent_required n.id
    ∷ report (neither "full" "review" n.permission) Code.permission n.id
    ∷ report (outside (pos 1) p.max_timeout n.timeout_seconds) Code.timeout n.id
    ∷ report (neither "stop" "continue" n.failure_policy) Code.failure_policy n.id
    ∷ report (ltb_ℤ n.budget (pos 0)) Code.node_budget n.id
    ∷ check_role n p.resolve_role
    ∷ check_actions n n.allowed_actions
    ∷ check_refs n n.input_refs
    ∷ []

unfoldable pub check_node : Policy → List Node → Node → List Violation
check_node p nodes n = adds (node_checks p nodes n)

unfoldable pub check_nodes : Policy → List Node → List Node → List Violation
check_nodes p nodes [] = []
check_nodes p nodes (n ∷ ns) = check_node p nodes n ++ check_nodes p (n ∷ nodes) ns

-- `totalBudget += node.Budget`, in `int64`.
unfoldable pub total_budget : ℤ → List Node → ℤ
total_budget total [] = total
total_budget total (n ∷ ns) = total_budget (total +int64 n.budget) ns

-- The map `nodes` after the loop: the last node of an id.
unfoldable pub find_node : String → List Node → Option Node
find_node id [] = none
find_node id (n ∷ ns) = elim (find_node id ns) [
  | some later ↦ some later
  | none ↦ if str_eq n.id id then some n else none
]

-- The second loop, over the dependencies of one node, where `seen` are those before.
unfoldable pub check_dependency : List Node → Node → List String → String → List Violation
check_dependency nodes n seen d =
    if str_eq d n.id
    then record { code = Code.self_dependency; node_id = n.id } ∷ []
    else if not (is_some (find_node d nodes))
    then record { code = Code.missing_dependency; node_id = n.id } ∷ []
    else report (any (λ e. str_eq e d) seen) Code.duplicate_dependency n.id

unfoldable pub check_dependencies : List Node → Node → List String → List String → List Violation
check_dependencies nodes n seen [] = []
check_dependencies nodes n seen (d ∷ ds) =
    check_dependency nodes n seen d ++ check_dependencies nodes n (d ∷ seen) ds

unfoldable pub check_all_dependencies : List Node → List Node → List Violation
check_all_dependencies nodes [] = []
check_all_dependencies nodes (n ∷ ns) =
    check_dependencies nodes n [] n.depends_on ++ check_all_dependencies nodes ns

-- The map `nodes`, as `graphDepth` reads it.
unfoldable pub node_graph : List Node → Graph
node_graph nodes id = Option.map (λ n. n.depends_on) (find_node id nodes)

abbrev pub check_depth : Policy → Spec → Depth → List Violation
check_depth p spec cyclic = report true Code.cycle ""
check_depth p spec (depth d) =
    report (ltb_ℤ spec.limits.max_depth (pos d) || ltb_ℤ p.max_depth (pos d)) Code.depth ""

-- All but the check of the depth.
abbrev pub spec_checks : Policy → Spec → List (List Violation)
spec_checks p spec =
    check_limits p spec
    ∷ check_nodes p [] spec.nodes
    ∷ report (ltb_ℤ spec.limits.budget (total_budget (pos 0) spec.nodes)) Code.budget_exceeded ""
    ∷ check_all_dependencies spec.nodes spec.nodes
    ∷ []

unfoldable pub check_spec : Policy → Spec → List Violation
check_spec p spec = adds (spec_checks p spec)

-- `Validate`, where `keys` is the order in which the iteration of `graphDepth` meets the ids of the nodes;
-- `none` means that the search of `graphDepth` ran out of fuel.
unfoldable pub validate : Policy → List String → Spec → Option (List Violation)
validate p keys spec =
    Option.map (λ d. check_spec p spec ++ check_depth p spec d)
      (graph_depth (node_graph spec.nodes) keys)
