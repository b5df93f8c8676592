-- ===== src/Workflow/Policy/Budget.antt =====
-- The sum of the budgets of the nodes, and the range of `int64`.
use paihuo.Prelude.{
  ℕ, ◌+◌, ◌-◌, ◌≤◌, ◌<◌, ◌≡◌, sym, subst, All-map, ◌∙◌, ap, List, [], ◌∷◌, arith, All, ltb,
  if◌then◌else◌, String, some,
}
use paihuo.Prelude.Signed.{ℤ, pos, negsuc, ◌≤ℤ◌, half_range, full_range, wrap, pos_part, ◌+int64◌}
use paihuo.Workflow.Spec.{Node, Spec}
use paihuo.Workflow.Policy.{Policy, total_budget, node_graph, validate}
use paihuo.Workflow.Policy.Nodes.{NodeOk}
use paihuo.Workflow.Policy.Admitted.{WellFormed, Admitted, validate_iff}
use paihuo.Workflow.Depth.Longest.{Lists}

-- What the nodes may spend, as a number without bounds.
unfoldable pub spend : List Node → ℕ
spend [] = 0
spend (n ∷ ns) = pos_part n.budget + spend ns

-- No budget is negative.
abbrev pub Funded : List Node → Type 0
Funded = All (λ n. pos 0 ≤ℤ n.budget)

-- The `int64` that a sum below 2^64 shows as.
abbrev shown : ℕ → ℤ
shown t = if ltb t half_range then pos t else negsuc (full_range - t - 1)

wrap-shown :
    (t : ℕ) (b : ℤ)
    → pos 0 ≤ℤ b
    → t + pos_part b < full_range
    → shown t +int64 b ≡ shown (t + pos_part b)
unfolding wrap
wrap-shown t b h k = ground arith

total_lem :
    (t : ℕ) (ns : List Node)
    → Funded ns
    → t + spend ns < full_range
    → total_budget (shown t) ns ≡ shown (t + spend ns)
unfolding total_budget spend
total_lem t [] f h = ap shown (omega arith)
total_lem t (n ∷ ns) f h =
    ap (λ x. total_budget x ns) (wrap-shown t n.budget f.0 (omega arith))
    ∙ (total_lem (t + pos_part n.budget) ns f.1 (omega arith) ∙ ap shown (omega arith))

funded : (p : Policy) (spec : Spec) → WellFormed p spec → Funded spec.nodes
funded p spec w = All-map (NodeOk p) (λ n. pos 0 ≤ℤ n.budget) (λ n k. k.budget) spec.nodes w.nodes

-- Where the budgets of the nodes add up to less than 2^63, a specification that
-- `Validate` lets pass spends no more than its own budget and no more than that of the policy.
pub Admitted-spend :
    (p : Policy) (spec : Spec)
    → Admitted p spec
    → spend spec.nodes < half_range
    → (pos (spend spec.nodes) ≤ℤ spec.limits.budget) × (pos (spend spec.nodes) ≤ℤ p.max_budget)
Admitted-spend p spec a h =
    let total = total_lem 0 spec.nodes (funded p spec a.formed) (omega arith) in
    let same : shown (0 + spend spec.nodes) ≡ pos (spend spec.nodes) = ground arith in
    let within : pos (spend spec.nodes) ≤ℤ spec.limits.budget =
      subst (λ x. x ≤ℤ spec.limits.budget) (total ∙ same) a.budget in
    let ceiling = a.formed.limits.budget in (within, omega arith)

-- The sum wraps around: where the budgets of the nodes add up to at least 2^63 and less than 2^64,
-- `Validate` reports nothing of a specification that is well-formed otherwise, whatever its own budget, in
-- whatever order the iteration meets the nodes.
pub validate-overspent :
    (p : Policy) (keys : List String) (spec : Spec)
    → Lists (node_graph spec.nodes) keys
    → WellFormed p spec
    → half_range ≤ spend spec.nodes
    → spend spec.nodes < full_range
    → validate p keys spec ≡ some []
validate-overspent p keys spec listed w h k =
    let total = total_lem 0 spec.nodes (funded p spec w) (omega arith) in
    let own = w.limits.budget in
    let below : shown (0 + spend spec.nodes) ≤ℤ spec.limits.budget = ground arith in
    let (vs, run, iff) = validate_iff p keys spec listed in
    run
    ∙ ap some (
        iff.1
          (record { formed = w; budget = subst (λ x. x ≤ℤ spec.limits.budget) (sym total) below }))
