-- ===== src/Scenarios/Plans.antt =====
-- A plan of three nodes, and one whose budgets are larger than an `int64`.
use paihuo.Prelude.{ℕ, String, true, some, List, [], ◌∷◌, ◌≡◌, ◌↔◌, refl, arith, ◌==◌}
use paihuo.Prelude.Signed.{pos, ◌≤ℤ◌, wrap}
use paihuo.Workflow.Text.{is_blank, node_id_matches, dangerous_action, invalid_reference}
use text.Mathlib.Text.{◌==◌ as str_eq}
use paihuo.Workflow.Spec.{Spec, Node, Violation}
use paihuo.Workflow.Depth.{
  Depth, depth, graph_depth, visit_node, visit_nodes, scan_targets, set_mark,
}
use paihuo.Workflow.Depth.Longest.{Means, graph_depth_lem}
use paihuo.Workflow.Policy.{
  Policy, RoleCapabilities, default_policy, node_graph, find_node, validate, check_spec,
  check_limits, check_nodes, check_node, check_role, check_capabilities, check_actions, check_refs,
  total_budget, check_all_dependencies, check_dependencies, check_dependency,
}
use paihuo.Workflow.Policy.Nodes.{ids, ids-Lists}
use paihuo.Workflow.Policy.Admitted.{Admitted, validate_iff, validate-Admitted}
use paihuo.Workflow.Policy.Budget.{spend, validate-overspent, Admitted-spend}

abbrev pub node : String → List String → ℕ → Node
node id deps budget = record {
  id = id;
  intent = "write it";
  role = record { role_id = 1; required_capabilities = [] };
  depends_on = deps;
  permission = "full";
  allowed_actions = "merge_workspace" ∷ [];
  approval_required = true;
  input_refs = "node:plan.md" ∷ [];
  timeout_seconds = pos 60;
  failure_policy = "stop";
  budget = pos budget;
}

abbrev pub spec_with : List Node → Spec
spec_with nodes = record {
  version = pos 1;
  goal = "a release";
  created_by = "ann";
  limits = record {
    budget = pos 1000;
    max_nodes = pos 8;
    max_depth = pos 3;
    max_concurrency = pos 2;
  };
  nodes = nodes;
}

abbrev pub batch_role : ℕ → RoleCapabilities
batch_role id = record { exists = id == 1; enabled = true; capabilities = λ c. str_eq c "batch" }

abbrev pub policy : Policy
policy = default_policy batch_role

abbrev pub plan : Spec
plan = spec_with (
    node "build" ("design" ∷ []) 300
    ∷ node "design" [] 200
    ∷ node "check" ("build" ∷ "design" ∷ []) 100
    ∷ [])

abbrev costly : Spec
costly =
    spec_with
      (node "design" [] 4611686018427387904 ∷ node "build" ("design" ∷ []) 4611686018427387904 ∷ [])

graph_depth_run : graph_depth (node_graph plan.nodes) (ids plan.nodes) ≡ some (depth 3)
unfolding graph_depth node_graph find_node visit_node visit_nodes scan_targets set_mark
graph_depth_run = refl

graph_depth_lem_example :
    (v : Depth) × (graph_depth (node_graph plan.nodes) (ids plan.nodes) ≡ some v)
    × Means (node_graph plan.nodes) (ids plan.nodes) v
graph_depth_lem_example =
    graph_depth_lem (node_graph plan.nodes) (ids plan.nodes) (ids-Lists plan.nodes)

abbrev turned : List String
turned = "check" ∷ "build" ∷ "design" ∷ []

plan_passes : validate policy (ids plan.nodes) plan ≡ some []
unfolding validate graph_depth node_graph find_node visit_node visit_nodes scan_targets set_mark
    check_spec check_limits check_nodes check_node check_role check_capabilities check_actions
    check_refs total_budget check_all_dependencies check_dependencies check_dependency
    default_policy wrap is_blank node_id_matches dangerous_action invalid_reference
plan_passes = refl

costly_passes : validate policy (ids costly.nodes) costly ≡ some []
unfolding validate graph_depth node_graph find_node visit_node visit_nodes scan_targets set_mark
    check_spec check_limits check_nodes check_node check_role check_capabilities check_actions
    check_refs total_budget check_all_dependencies check_dependencies check_dependency
    default_policy wrap is_blank node_id_matches dangerous_action invalid_reference
costly_passes = refl

validate_iff_example :
    (vs : List Violation) × (validate policy (ids plan.nodes) plan ≡ some vs)
    × ((vs ≡ []) ↔ Admitted policy plan)
validate_iff_example = validate_iff policy (ids plan.nodes) plan (ids-Lists plan.nodes)

pub plan-Admitted : Admitted policy plan
plan-Admitted = validate-Admitted policy (ids plan.nodes) plan (ids-Lists plan.nodes) plan_passes

costly-Admitted : Admitted policy costly
costly-Admitted =
    validate-Admitted policy (ids costly.nodes) costly (ids-Lists costly.nodes) costly_passes

Admitted-spend_example :
    (pos (spend plan.nodes) ≤ℤ plan.limits.budget) × (pos (spend plan.nodes) ≤ℤ policy.max_budget)
unfolding spend
Admitted-spend_example = Admitted-spend policy plan plan-Admitted (omega arith)

validate-overspent_example : validate policy (ids costly.nodes) costly ≡ some []
unfolding spend
validate-overspent_example =
    validate-overspent policy (ids costly.nodes) costly (ids-Lists costly.nodes)
      costly-Admitted.formed (omega arith) (omega arith)
