-- ===== src/Workflow/Depth.antt =====
-- `graphDepth` of internal/workflow/policy.go: the depth of the graph of nodes, by a depth-first search
-- with a memo. The map `nodes` is read for its keys and for `DependsOn` only; the maps `state` and `memo`
-- are one, since a node is in the state 2 exactly if it has a memo. The search runs on fuel, where `none`
-- means that it ran out.
pub mod Chains
pub mod Search
pub mod Longest
use paihuo.Prelude.{
  ℕ, zero, suc, ◌+◌, Bool, true, false, Option, none, some, List, [], ◌∷◌, ltb, if◌then◌else◌,
  String, length, is_some,
}
use text.Mathlib.Text.{◌==◌ as str_eq}

-- `nodes[id].DependsOn`, where there is such a node.
abbrev pub Graph : Type 0
Graph = String → Option (List String)

-- The states 0, 1 and 2 of a node, the last with `memo[id]`.
pub data Mark : Type 0 where
  fresh active : Mark
  finished : ℕ → Mark

abbrev pub Marks : Type 0
Marks = String → Mark

unfoldable pub set_mark : Marks → String → Mark → Marks
set_mark st i c j = if str_eq i j then c else st j

-- What a call of `visit` returns: `(0, true)`, or a depth and false, with the marks it leaves.
pub data Found : Type 0 where
  loops : Found
  deep : ℕ → Marks → Found

abbrev pub unless_loops : Option Found → (ℕ → Marks → Option Found) → Option Found
unless_loops none go = none
unless_loops (some loops) go = some loops
unless_loops (some (deep d st)) go = go d st

-- `if value+1 > depth { depth = value + 1 }`
abbrev pub raise_depth : ℕ → ℕ → ℕ
raise_depth depth value = if ltb depth (suc value) then suc value else depth

-- The loop over `nodes[id].DependsOn`, where `go` is `visit`.
unfoldable pub scan_targets :
    Graph → (String → Marks → Option Found) → ℕ → Marks → List String → Option Found
scan_targets g go depth st [] = some (deep depth st)
scan_targets g go depth st (d ∷ ds) = elim (g d) [
  | none ↦ scan_targets g go depth st ds
  | some _ ↦
      unless_loops (go d st) (λ value st'. scan_targets g go (raise_depth depth value) st' ds)
]

abbrev pub targets_of : Option (List String) → List String
targets_of none = []
targets_of (some ds) = ds

-- `state[id] = 2; memo[id] = depth; return depth, false`
abbrev pub finish_node : String → ℕ → Marks → Option Found
finish_node i depth st = some (deep depth (set_mark st i (finished depth)))

-- The closure `visit`.
unfoldable pub visit_node : Graph → ℕ → String → Marks → Option Found
visit_node g zero i st = none
visit_node g (suc fuel) i st = elim (st i) [
  | active ↦ some loops
  | finished memo ↦ some (deep memo st)
  | fresh ↦
      unless_loops (scan_targets g (visit_node g fuel) 1 (set_mark st i active) (targets_of (g i)))
        (finish_node i)
]

-- `if depth > maximum { maximum = depth }`
abbrev pub larger : ℕ → ℕ → ℕ
larger maximum depth = if ltb maximum depth then depth else maximum

-- The loop over the keys, in the order in which the map yields them.
unfoldable pub visit_nodes : Graph → ℕ → ℕ → Marks → List String → Option Found
visit_nodes g fuel maximum st [] = some (deep maximum st)
visit_nodes g fuel maximum st (i ∷ ids) =
    unless_loops (visit_node g fuel i st)
      (λ depth st'. visit_nodes g fuel (larger maximum depth) st' ids)

-- The result of `graphDepth`: `(0, true)`, or a depth and false.
pub data Depth : Type 0 where
  cyclic : Depth
  depth : ℕ → Depth

abbrev pub depth_of : Option Found → Option Depth
depth_of none = none
depth_of (some loops) = some cyclic
depth_of (some (deep d st)) = some (depth d)

-- `graphDepth`, where `keys` are the keys in the order of the iteration.
unfoldable pub graph_depth : Graph → List String → Option Depth
graph_depth g keys = depth_of (visit_nodes g (suc (length keys)) 0 (λ i. fresh) keys)
