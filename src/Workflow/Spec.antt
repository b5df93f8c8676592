-- ===== src/Workflow/Spec.antt =====
-- internal/workflow/model.go: the specification of a workflow, and what the policy reports. Ids of roles
-- are natural numbers, a negative one being no role's id; `OutputSchema` is read by nothing.
use paihuo.Prelude.{ℕ, String, Bool, List}
use paihuo.Prelude.Signed.{ℤ}

pub record Limits : Type 0 where
  pub budget : ℤ
  pub max_nodes : ℤ
  pub max_depth : ℤ
  pub max_concurrency : ℤ

pub record RoleSelector : Type 0 where
  pub role_id : ℕ
  pub required_capabilities : List String

pub record Node : Type 0 where
  pub id : String
  pub intent : String
  pub role : RoleSelector
  pub depends_on : List String
  pub permission : String
  pub allowed_actions : List String
  pub approval_required : Bool
  pub input_refs : List String
  pub timeout_seconds : ℤ
  pub failure_policy : String
  pub budget : ℤ

pub record Spec : Type 0 where
  pub version : ℤ
  pub goal : String
  pub created_by : String
  pub limits : Limits
  pub nodes : List Node

-- The codes of `Violation`.
pub data Code : Type 0 where
  goal_required max_nodes max_depth max_concurrency budget node_count : Code
  node_id duplicate_node intent_required permission timeout failure_policy node_budget : Code
  role_unavailable runtime_capability approval_required input_reference budget_exceeded : Code
  self_dependency missing_dependency duplicate_dependency cycle depth : Code

-- `Violation`, less its message.
pub record Violation : Type 0 where
  pub code : Code
  pub node_id : String
