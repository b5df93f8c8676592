-- ===== src/Workflow/Depth/Chains.antt =====
-- Chains and cycles of the graph of nodes, as relations.
use paihuo.Prelude.{ℕ, zero, suc, ◌≤◌, ◌≡◌, true, arith, In, String, is_some}
use paihuo.Workflow.Depth.{Graph, targets_of}

-- The node `a` names `b` among its dependencies, and there is such a node.
pub record NodeEdge (g : Graph) (a b : String) : Type 0 where
  pub named : In b (targets_of (g a))
  pub known : is_some (g b) ≡ true

-- `b` is met on a way from `a`.
pub data Walk (g : Graph) (a : String) : String → Type 0 where
  here : Walk g a a
  onward : {b c : String} → Walk g a b → NodeEdge g b c → Walk g a c

-- One or more edges lead from `a` to `b`.
abbrev pub Leads : Graph → String → String → Type 0
Leads g a b = (m : String) × Walk g a m × NodeEdge g m b

-- A chain of `n` nodes, each a dependency of the one before it, starts at `a`.
pub data Chain (g : Graph) : String → ℕ → Type 0 where
  one : {a : String} → Chain g a (suc zero)
  more : {a b : String} {n : ℕ} → NodeEdge g a b → Chain g b n → Chain g a (suc n)

-- The longest chain from `a` has `d` nodes.
pub record Deepest (g : Graph) (a : String) (d : ℕ) : Type 0 where
  pub reached : Chain g a d
  pub bound : (n : ℕ) → Chain g a n → n ≤ d

pub Leads-Walk : {g : Graph} {a b : String} → Leads g a b → Walk g a b
Leads-Walk (m, w, e) = onward w e

pub Walk-Leads : {g : Graph} {a b c : String} → Walk g a b → NodeEdge g b c → Leads g a c
Walk-Leads {b = b} w e = (b, w, e)

-- A chain goes on from where a walk ends.
Walk-Chain :
    {g : Graph} {a b : String} {n : ℕ} → Walk g a b → Chain g b n → (m : ℕ) × (n ≤ m) × Chain g a m
Walk-Chain {n = n} here c = (n, omega arith, c)
Walk-Chain (onward w e) c = let (m, le, c') = Walk-Chain w (more e c) in (m, omega arith, c')

-- From a node that comes back to itself there is no longest chain.
pub Deepest-not-Leads : {g : Graph} {a : String} {d : ℕ} → Deepest g a d → ¬ Leads g a a
Deepest-not-Leads h (m, w, e) =
    let (k, le, c) = Walk-Chain w (more e h.reached) in let top : k ≤ _ = h.bound k c in omega arith
