-- ===== src/Workflow.antt =====
-- internal/workflow: the specification of a workflow (model.go), its policy (policy.go) and the life of
-- its runs. The children hold the depth of the graph, the texts, the policy and the intents.
pub mod Spec
pub mod Text
pub mod Depth
pub mod Policy
