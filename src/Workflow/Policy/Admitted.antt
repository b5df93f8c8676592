-- ===== src/Workflow/Policy/Admitted.antt =====
-- `Validate` and the specifications that it lets pass.
use paihuo.Prelude.{
  ℕ, ◌≤◌, ◌≡◌, ◌↔◌, refl, ◌∙◌, String, true, some, List, [], ◌++◌, arith, All, is_some, inl, inr,
  ◌⊎◌, some_eq, sym,
}
use paihuo.Prelude.Signed.{pos, ◌≤ℤ◌, ltb_ℤ→le, le→ltb_ℤ}
use paihuo.Workflow.Spec.{Spec, Code, Violation}
use paihuo.Workflow.Depth.{Depth, cyclic, depth}
use paihuo.Workflow.Depth.Chains.{Leads, Chain}
use paihuo.Workflow.Depth.Longest.{Lists, Means, graph_depth_lem}
use paihuo.Workflow.Policy.{
  Policy, total_budget, node_graph, check_depth, check_spec, spec_checks, validate,
}
use paihuo.Workflow.Policy.Clean.{
  LimitsOk, check_limits-Ok, Ok-check_limits, adds-nil, nil-adds, append-nil, report-nil,
  nil-report,
}
use paihuo.Workflow.Policy.Nodes.{
  NodeOk, DepsOk, Distinct, ids, check_nodes_iff, check_all_dependencies_iff,
}

-- What the policy asks of a specification, but for the sum of the budgets.
pub record WellFormed (p : Policy) (spec : Spec) : Type 0 where
  pub limits : LimitsOk p spec
  pub nodes : All (NodeOk p) spec.nodes
  pub distinct : Distinct (ids spec.nodes)
  pub dependencies : All (DepsOk spec.nodes) spec.nodes
  pub acyclic : (j : String) → ¬ Leads (node_graph spec.nodes) j j
  pub shallow :
      (j : String) (n : ℕ)
      → is_some (node_graph spec.nodes j) ≡ true
      → Chain (node_graph spec.nodes) j n
      → (pos n ≤ℤ spec.limits.max_depth) × (pos n ≤ℤ p.max_depth)

-- All of it; the sum is that of the code, in `int64`.
pub record Admitted (p : Policy) (spec : Spec) : Type 0 where
  pub formed : WellFormed p spec
  pub budget : total_budget (pos 0) spec.nodes ≤ℤ spec.limits.budget

module _ (p : Policy) (spec : Spec) where
  depth-shallow :
      (keys : List String) (v : Depth)
      → Means (node_graph spec.nodes) keys v
      → check_depth p spec v ≡ []
      → ((j : String) → ¬ Leads (node_graph spec.nodes) j j)
        × ((j : String) (n : ℕ)
            → is_some (node_graph spec.nodes j) ≡ true
            → Chain (node_graph spec.nodes) j n
            → (pos n ≤ℤ spec.limits.max_depth) × (pos n ≤ℤ p.max_depth))
  depth-shallow keys cyclic m h = absurd (cc)
  depth-shallow keys (depth d) m h =
      let low : pos d ≤ℤ spec.limits.max_depth =
        ltb_ℤ→le spec.limits.max_depth (pos d) (ground arith) in
      let low' : pos d ≤ℤ p.max_depth = ltb_ℤ→le p.max_depth (pos d) (ground arith) in
      (m.acyclic, λ j n known c. let le : n ≤ d = m.bound j n known c in (omega arith, omega arith))

  shallow-depth :
      (keys : List String) (v : Depth)
      → Means (node_graph spec.nodes) keys v
      → WellFormed p spec
      → check_depth p spec v ≡ []
  shallow-depth keys cyclic (j, l) w = absurd (w.acyclic j l)
  shallow-depth keys (depth d) m w =
      let (low, low') : (pos d ≤ℤ spec.limits.max_depth) × (pos d ≤ℤ p.max_depth) =
        fits m.reached in
      nil-report _ Code.depth "" (
        ground
          (arith, le→ltb_ℤ spec.limits.max_depth (pos d) low, le→ltb_ℤ p.max_depth (pos d) low'))
    where
      fits :
          (keys ≡ [] × (d ≡ 0))
            ⊎ ((j : String) × (is_some (node_graph spec.nodes j) ≡ true)
                × Chain (node_graph spec.nodes) j d)
          → (pos d ≤ℤ spec.limits.max_depth) × (pos d ≤ℤ p.max_depth)
      fits (inl (e, z)) = let l = w.limits.max_depth in (omega arith, omega arith)
      fits (inr (j, known, c)) = w.shallow j d known c

  checks-Admitted :
      (keys : List String) (v : Depth)
      → Means (node_graph spec.nodes) keys v
      → check_spec p spec ++ check_depth p spec v ≡ []
      → Admitted p spec
  unfolding check_spec
  checks-Admitted keys v m h =
      let (e, f) = append-nil (check_spec p spec) (check_depth p spec v) h in
      let hs = adds-nil (spec_checks p spec) e in
      let (acyclic, shallow) = depth-shallow keys v m f in
      let (distinct, nodes) = (check_nodes_iff p spec.nodes).0 hs.1.0 in
      record {
        formed = record {
          limits = check_limits-Ok p spec hs.0;
          nodes = nodes;
          distinct = distinct;
          dependencies = (check_all_dependencies_iff spec.nodes spec.nodes).0 hs.1.1.1.0;
          acyclic = acyclic;
          shallow = shallow;
        };
        budget =
            ltb_ℤ→le spec.limits.budget (total_budget (pos 0) spec.nodes)
              (report-nil _ Code.budget_exceeded "" hs.1.1.0);
      }

  Admitted-checks :
      (keys : List String) (v : Depth)
      → Means (node_graph spec.nodes) keys v
      → Admitted p spec
      → check_spec p spec ++ check_depth p spec v ≡ []
  unfolding check_spec
  Admitted-checks keys v m a =
      let w = a.formed in
      rw
        (nil-adds (spec_checks p spec) (
          Ok-check_limits p spec w.limits,
          (
            (check_nodes_iff p spec.nodes).1 (w.distinct, w.nodes),
            (
              nil-report _ Code.budget_exceeded ""
                  (le→ltb_ℤ spec.limits.budget (total_budget (pos 0) spec.nodes) a.budget),
              ((check_all_dependencies_iff spec.nodes spec.nodes).1 w.dependencies, tt),
            ),
          ),
        ))
        (shallow-depth keys v m w)

-- `Validate` always answers, in whatever order the iteration meets the nodes, and it reports nothing
-- exactly if the specification keeps the policy: the goal is not blank; the limits lie within those of the
-- policy and the number of nodes within both; each node has a slug for its id, an intent, a permission, a
-- timeout and a failure policy that are allowed, a budget that is not negative, a role that is there,
-- enabled and has the capabilities, an approval for dangerous actions and controlled references; no id
-- comes twice; each dependency is another node that is there and is named once; no node depends on itself
-- through others; no chain of dependencies is longer than either limit; and the sum of the budgets, as
-- `int64` adds them, is within the budget.
pub validate_iff :
    (p : Policy) (keys : List String) (spec : Spec)
    → Lists (node_graph spec.nodes) keys
    → (vs : List Violation) × (validate p keys spec ≡ some vs) × ((vs ≡ []) ↔ Admitted p spec)
unfolding validate
validate_iff p keys spec listed =
    let (v, run, m) = graph_depth_lem (node_graph spec.nodes) keys listed in
    (
      check_spec p spec ++ check_depth p spec v,
      rw run refl,
      (checks-Admitted p spec keys v m, Admitted-checks p spec keys v m),
    )

pub validate-Admitted :
    (p : Policy) (keys : List String) (spec : Spec)
    → Lists (node_graph spec.nodes) keys
    → validate p keys spec ≡ some []
    → Admitted p spec
validate-Admitted p keys spec listed clean =
    let (vs, run, iff) = validate_iff p keys spec listed in iff.0 (some_eq (sym run ∙ clean))
