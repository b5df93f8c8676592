-- ===== src/Store/Workflows/Linked.antt =====
-- The loop of `InstantiateWorkflow` that stores an edge for each dependency.
use paihuo.Prelude.{◌≡◌, sym, ◌∙◌, ap, String, List, [], ◌∷◌, ◌++◌, arith, inl, inr, Option-cases}
use mathlib.Core.List.{append_assoc, append-nil}
use paihuo.Store.Db.{Db, Edge, ok, ◌>>=◌, >>=-eq-ok}
use paihuo.Workflow.Spec.{Node}
use paihuo.Store.Workflows.{
  TaskIds, task_id_of, or_zero, edge_of, insert_dependency, link_node, link_nodes,
}

-- The edges of a node and of a list of nodes, in the order of the loops.
abbrev pub node_edges : TaskIds → Node → List String → List Edge
node_edges m n [] = []
node_edges m n (d ∷ ds) = edge_of m n (or_zero (task_id_of d m)) ∷ node_edges m n ds

abbrev pub planned : TaskIds → List Node → List Edge
planned m [] = []
planned m (n ∷ ns) = node_edges m n n.depends_on ++ planned m ns

abbrev pub with_edges : Db → List Edge → Db
with_edges db es = record db { edges = db.edges ++ es }

insert_dependency-edges :
    (e : Edge) (db db' : Db) → insert_dependency e db ≡ ok db' → db' ≡ with_edges db (e ∷ [])
unfolding insert_dependency
insert_dependency-edges e db db' h = ground arith

pub with_edges-append :
    (db : Db) (es fs : List Edge) → with_edges (with_edges db es) fs ≡ with_edges db (es ++ fs)
with_edges-append db es fs =
    ap (λ (gs : List Edge). record db { edges = gs }) (append_assoc db.edges es fs)

pub with_edges-nil : (db : Db) → db ≡ with_edges db []
with_edges-nil db = ap (λ (gs : List Edge). record db { edges = gs }) (sym (append-nil db.edges))

module _ (m : TaskIds) where
  link_node-edges :
      (n : Node) (ds : List String) (db db' : Db)
      → link_node m n ds db ≡ ok db'
      → db' ≡ with_edges db (node_edges m n ds)
  unfolding link_node
  link_node-edges n [] db db' h = let same : db ≡ db' = cc in sym same ∙ with_edges-nil db
  link_node-edges n (d ∷ ds) db db' h = elim (Option-cases (task_id_of d m)) [
    | inl e ↦ absurd (ground arith)
    | inr (i, e) ↦
        let h' : (insert_dependency (edge_of m n i) db >>= λ db₂. link_node m n ds db₂) ≡ ok db' =
          ground arith in
        let (db₁, first, rest) = >>=-eq-ok _ _ h' in
        let one = insert_dependency-edges (edge_of m n i) db db₁ first in
        let more = link_node-edges n ds db₁ db' rest in
        rw e (
          more
          ∙ (ap (λ (b : Db). with_edges b (node_edges m n ds)) one
              ∙ with_edges-append db (edge_of m n i ∷ []) (node_edges m n ds)))
  ]

  -- The loops add exactly the planned edges, and change nothing else.
  pub link_nodes-edges :
      (ns : List Node) (db db' : Db)
      → link_nodes m ns db ≡ ok db'
      → db' ≡ with_edges db (planned m ns)
  unfolding link_nodes
  link_nodes-edges [] db db' h = let same : db ≡ db' = cc in sym same ∙ with_edges-nil db
  link_nodes-edges (n ∷ ns) db db' h =
      let (db₁, first, rest) =
        >>=-eq-ok (link_node m n n.depends_on db) (λ db₂. link_nodes m ns db₂) h in
      let one = link_node-edges n n.depends_on db db₁ first in
      let more = link_nodes-edges ns db₁ db' rest in
      more
      ∙ (ap (λ (b : Db). with_edges b (planned m ns)) one
          ∙ with_edges-append db (node_edges m n n.depends_on) (planned m ns))
