-- ===== src/Store/Workflows/Sorted.antt =====
-- The order in which `InstantiateWorkflow` takes the nodes has the same nodes.
use paihuo.Prelude.{
  ◌≡◌, ◌⊎◌, sym, subst, String, List, [], ◌∷◌, All, In, All-In, inl, inr, Bool-cases, refl, ap,
}
use Prim.Native.String.{compare}
use text.Mathlib.Text.{is_lt}
use paihuo.Workflow.Spec.{Node}
use paihuo.Workflow.Policy.Nodes.{Distinct, ids}
use paihuo.Store.Workflows.{insert_node, sort_nodes}

pub All-at : {A : Type 0} (P : A → Type 0) (xs : List A) {a : A} → All P xs → In a xs → P a
All-at P [] h m = absurd m
All-at P (x ∷ xs) h (inl e) = subst P e h.0
All-at P (x ∷ xs) h (inr m) = All-at P xs h.1 m

In-insert_node : (a n : Node) (ms : List Node) → (n ≡ a) ⊎ In a ms → In a (insert_node n ms)
unfolding insert_node
In-insert_node a n [] h = h
In-insert_node a n (m ∷ ms) h = elim (Bool-cases (is_lt (compare m.id n.id))) [
  | inr e ↦ rw e h
  | inl e ↦ rw e (later (In-insert_node a n ms) h)
]
  where
    later :
        ((n ≡ a) ⊎ In a ms → In a (insert_node n ms))
        → (n ≡ a) ⊎ ((m ≡ a) ⊎ In a ms)
        → (m ≡ a) ⊎ In a (insert_node n ms)
    later rec (inl q) = inr (rec (inl q))
    later rec (inr (inl q)) = inl q
    later rec (inr (inr k)) = inr (rec (inr k))

In-sort_nodes : (a : Node) (ns : List Node) → In a ns → In a (sort_nodes ns)
unfolding sort_nodes
In-sort_nodes a [] h = h
In-sort_nodes a (n ∷ ns) (inl e) = In-insert_node a n (sort_nodes ns) (inl e)
In-sort_nodes a (n ∷ ns) (inr m) = In-insert_node a n (sort_nodes ns) (inr (In-sort_nodes a ns m))

-- What holds of each node in the order of the loops holds of each node of the specification.
pub All-sort_nodes : (P : Node → Type 0) (ns : List Node) → All P (sort_nodes ns) → All P ns
All-sort_nodes P ns h = All-In P ns (λ n m. All-at P (sort_nodes ns) h (In-sort_nodes n ns m))

insert_node-All :
    (P : Node → Type 0) (n : Node) (ms : List Node) → P n → All P ms → All P (insert_node n ms)
unfolding insert_node
insert_node-All P n [] p h = (p, tt)
insert_node-All P n (m ∷ ms) p h = elim (Bool-cases (is_lt (compare m.id n.id))) [
  | inr e ↦ rw e (p, h)
  | inl e ↦ rw e (h.0, insert_node-All P n ms p h.1)
]

pub sort_nodes-All : (P : Node → Type 0) (ns : List Node) → All P ns → All P (sort_nodes ns)
unfolding sort_nodes
sort_nodes-All P [] h = tt
sort_nodes-All P (n ∷ ns) h = insert_node-All P n (sort_nodes ns) h.0 (sort_nodes-All P ns h.1)

insert_node-In : (a n : Node) (ms : List Node) → In a (insert_node n ms) → (n ≡ a) ⊎ In a ms
unfolding insert_node
insert_node-In a n [] h = h
insert_node-In a n (m ∷ ms) h = elim (Bool-cases (is_lt (compare m.id n.id))) [
  | inr e ↦ rw e at h
  | inl e ↦
      let h' : (m ≡ a) ⊎ In a (insert_node n ms) = rw e at h in
      elim h' [
        | inl q ↦ inr (inl q)
        | inr k ↦ elim (insert_node-In a n ms k) [ inl q ↦ inl q | inr r ↦ inr (inr r) ]
      ]
]

-- No node is made up.
pub sort_nodes-In : (a : Node) (ns : List Node) → In a (sort_nodes ns) → In a ns
unfolding sort_nodes
sort_nodes-In a [] h = h
sort_nodes-In a (n ∷ ns) h = elim (insert_node-In a n (sort_nodes ns) h) [
  | inl e ↦ inl e
  | inr m ↦ inr (sort_nodes-In a ns m)
]

-- An id of the longer list is that of the new node or of another.
ids-insert_node :
    (k : String) (n : Node) (ms : List Node)
    → In k (ids (insert_node n ms))
    → (n.id ≡ k) ⊎ In k (ids ms)
unfolding insert_node
ids-insert_node k n [] h = h
ids-insert_node k n (m ∷ ms) h = elim (Bool-cases (is_lt (compare m.id n.id))) [
  | inr e ↦ rw e at h
  | inl e ↦
      let h' : (m.id ≡ k) ⊎ In k (ids (insert_node n ms)) = rw e at h in
      again (ids-insert_node k n ms) h'
]
  where
    again :
        (In k (ids (insert_node n ms)) → (n.id ≡ k) ⊎ In k (ids ms))
        → (m.id ≡ k) ⊎ In k (ids (insert_node n ms))
        → (n.id ≡ k) ⊎ In k (ids (m ∷ ms))
    again rec (inl q) = inr (inl q)
    again rec (inr k') = elim (rec k') [ inl q ↦ inl q | inr r ↦ inr (inr r) ]

ids-sort_nodes : (k : String) (ns : List Node) → In k (ids (sort_nodes ns)) → In k (ids ns)
unfolding sort_nodes
ids-sort_nodes k [] h = h
ids-sort_nodes k (n ∷ ns) h = elim (ids-insert_node k n (sort_nodes ns) h) [
  | inl e ↦ inl e
  | inr m ↦ inr (ids-sort_nodes k ns m)
]

pub In-ids : (n : Node) (ns : List Node) → In n ns → In n.id (ids ns)
In-ids n (m ∷ ms) (inl e) = inl (ap (λ (y : Node). y.id) e)
In-ids n (m ∷ ms) (inr k) = inr (In-ids n ms k)
In-ids n [] h = absurd h

ids-In : (k : String) (ns : List Node) → In k (ids ns) → (n : Node) × In n ns × (n.id ≡ k)
ids-In k [] h = absurd h
ids-In k (n ∷ ns) (inl e) = (n, inl refl, e)
ids-In k (n ∷ ns) (inr m) = let (a, b, c) = ids-In k ns m in (a, inr b, c)

-- The ids of the nodes are those of the sorted nodes.
pub sort_nodes-ids : (k : String) (ns : List Node) → In k (ids ns) → In k (ids (sort_nodes ns))
sort_nodes-ids k ns h =
    let (n, m, e) = ids-In k ns h in
    subst (λ (y : String). In y (ids (sort_nodes ns))) e
      (In-ids n (sort_nodes ns) (In-sort_nodes n ns m))

insert_node-Distinct :
    (n : Node) (ms : List Node)
    → ¬ In n.id (ids ms)
    → Distinct (ids ms)
    → Distinct (ids (insert_node n ms))
unfolding insert_node
insert_node-Distinct n [] h d = (h, d)
insert_node-Distinct n (m ∷ ms) h d = elim (Bool-cases (is_lt (compare m.id n.id))) [
  | inr e ↦ rw e (h, d)
  | inl e ↦ rw e (fresh, insert_node-Distinct n ms (λ k. h (inr k)) d.1)
]
  where
    fresh : ¬ In m.id (ids (insert_node n ms))
    fresh k = elim (ids-insert_node m.id n ms k) [ inl e ↦ h (inl (sym e)) | inr r ↦ d.0 r ]

pub sort_nodes-Distinct : (ns : List Node) → Distinct (ids ns) → Distinct (ids (sort_nodes ns))
unfolding sort_nodes
sort_nodes-Distinct [] d = d
sort_nodes-Distinct (n ∷ ns) d =
    insert_node-Distinct n (sort_nodes ns) (λ k. d.0 (ids-sort_nodes n.id ns k))
      (sort_nodes-Distinct ns d.1)
