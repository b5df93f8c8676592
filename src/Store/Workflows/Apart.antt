-- ===== src/Store/Workflows/Apart.antt =====
-- The edges that `InstantiateWorkflow` stores keep the primary key of `task_dependencies`.
use paihuo.Prelude.{
  ◌≡◌, ◌≢◌, refl, sym, subst, String, Bool, false, List, [], ◌∷◌, ◌++◌, arith, All, In, inl, inr,
  any,
}
use mathlib.Core.List.{append_assoc, append-nil}
use paihuo.Store.Db.{Edge}
use paihuo.Workflow.Spec.{Node}
use paihuo.Workflow.Policy.Nodes.{Distinct, ids}
use paihuo.Store.Workflows.{TaskIds, task_id_of, or_zero, edge_of, same_edge}
use paihuo.Store.Workflows.Sorted.{In-ids}
use paihuo.Store.Workflows.Linked.{node_edges, planned}

-- Each edge is new where it is stored.
abbrev pub Apart : List Edge → List Edge → Type 0
Apart old [] = Unit
Apart old (e ∷ es) = (any (same_edge e) old ≡ false) × Apart (old ++ e ∷ []) es

-- No two edges are between the same tasks.
abbrev pub AllApart : List Edge → Type 0
AllApart [] = Unit
AllApart (e ∷ es) = All (λ f. same_edge e f ≡ false) es × AllApart es

any-append :
    (p : Edge → Bool) (xs : List Edge) (y : Edge)
    → any p xs ≡ false
    → p y ≡ false
    → any p (xs ++ y ∷ []) ≡ false
any-append p [] y h k = ground arith
any-append p (x ∷ xs) y h k = ground (arith, any-append p xs y)

pub Apart-new :
    (old es : List Edge) → All (λ e. any (same_edge e) old ≡ false) es → AllApart es → Apart old es
Apart-new old [] h a = tt
Apart-new old (e ∷ es) h a = (h.0, Apart-new (old ++ e ∷ []) es (both es h.1 a.0) a.1)
  where
    both :
        (fs : List Edge)
        → All (λ f. any (same_edge f) old ≡ false) fs
        → All (λ f. same_edge e f ≡ false) fs
        → All (λ f. any (same_edge f) (old ++ e ∷ []) ≡ false) fs
    both [] p q = tt
    both (f ∷ fs) p q = (any-append (same_edge f) old e p.0 (ground arith), both fs p.1 q.1)

pub Apart-append :
    (old xs ys : List Edge) → Apart old (xs ++ ys) → Apart old xs × Apart (old ++ xs) ys
Apart-append old [] ys h = (tt, subst (λ o. Apart o ys) (sym (append-nil old)) h)
Apart-append old (x ∷ xs) ys h =
    let (a, b) = Apart-append (old ++ x ∷ []) xs ys h.1 in
    ((h.0, a), subst (λ o. Apart o ys) (append_assoc old (x ∷ []) xs) b)

AllApart-append :
    (xs ys : List Edge)
    → AllApart xs
    → AllApart ys
    → All (λ x. All (λ y. same_edge x y ≡ false) ys) xs
    → AllApart (xs ++ ys)
AllApart-append [] ys a b c = b
AllApart-append (x ∷ xs) ys a b c = (joined xs ys a.0 c.0, AllApart-append xs ys a.1 b c.1)
  where
    joined :
        (us vs : List Edge)
        → All (λ y. same_edge x y ≡ false) us
        → All (λ y. same_edge x y ≡ false) vs
        → All (λ y. same_edge x y ≡ false) (us ++ vs)
    joined [] vs p q = q
    joined (u ∷ us) vs p q = (p.0, joined us vs p.1 q)

All-node_edges :
    (P : Edge → Type 0) (m : TaskIds) (n : Node) (ds : List String)
    → ((d : String) → In d ds → P (edge_of m n (or_zero (task_id_of d m))))
    → All P (node_edges m n ds)
All-node_edges P m n [] h = tt
All-node_edges P m n (d ∷ ds) h = (h d (inl refl), All-node_edges P m n ds (λ e k. h e (inr k)))

pub All-planned :
    (P : Edge → Type 0) (m : TaskIds) (ns : List Node)
    → ((n : Node) (d : String)
        → In n ns
        → In d n.depends_on
        → P (edge_of m n (or_zero (task_id_of d m))))
    → All P (planned m ns)
All-planned P m [] h = tt
All-planned P m (n ∷ ns) h =
    joined (node_edges m n n.depends_on) (planned m ns)
      (All-node_edges P m n n.depends_on (λ d k. h n d (inl refl) k))
      (All-planned P m ns (λ a d k j. h a d (inr k) j))
  where
    joined : (us vs : List Edge) → All P us → All P vs → All P (us ++ vs)
    joined [] vs p q = q
    joined (u ∷ us) vs p q = (p.0, joined us vs p.1 q)

module _ (m : TaskIds) (all : List String)
    (apart : (a b : String)
      → In a all
      → In b all
      → or_zero (task_id_of a m) ≡ or_zero (task_id_of b m)
      → a ≡ b) where
  AllApart-node_edges :
      (n : Node) (ds : List String)
      → ((d : String) → In d ds → In d all)
      → Distinct ds
      → AllApart (node_edges m n ds)
  AllApart-node_edges n [] within d = tt
  AllApart-node_edges n (s ∷ ss) within d = (
    All-node_edges _ m n ss (λ e k.
        differ s e (within s (inl refl)) (within e (inr k))
          (λ same. d.0 (subst (λ z. In z ss) (sym same) k))),
    AllApart-node_edges n ss (λ e k. within e (inr k)) d.1,
  )
    where
      differ :
          (a b : String)
          → In a all
          → In b all
          → a ≢ b
          → same_edge
              (edge_of m n (or_zero (task_id_of a m)))
              (edge_of m n (or_zero (task_id_of b m)))
            ≡ false
      differ a b p q ne =
          ground (
            arith,
            λ (e : or_zero (task_id_of a m) ≡ or_zero (task_id_of b m)). ne (apart a b p q e),
          )

  -- The edges of nodes with different ids, each with different dependencies, are apart.
  pub planned-AllApart :
      (ns : List Node)
      → ((n : Node) → In n ns → In n.id all)
      → ((n : Node) (d : String) → In n ns → In d n.depends_on → In d all)
      → Distinct (ids ns)
      → ((n : Node) → In n ns → Distinct n.depends_on)
      → AllApart (planned m ns)
  planned-AllApart [] own deps d each = tt
  planned-AllApart (n ∷ ns) own deps d each =
      AllApart-append (node_edges m n n.depends_on) (planned m ns)
        (AllApart-node_edges n n.depends_on (λ e k. deps n e (inl refl) k) (each n (inl refl)))
        (planned-AllApart ns (λ a k. own a (inr k)) (λ a e k j. deps a e (inr k) j) d.1
          (λ a k. each a (inr k)))
        (All-node_edges _ m n n.depends_on (λ e k. All-planned _ m ns (λ a f q r.
          differ a e f (own n (inl refl)) (own a (inr q))
            (λ same. d.0 (subst (λ (z : String). In z (ids ns)) (sym same) (In-ids a ns q))))))
    where
      differ :
          (a : Node) (e f : String)
          → In n.id all
          → In a.id all
          → n.id ≢ a.id
          → same_edge
              (edge_of m n (or_zero (task_id_of e m)))
              (edge_of m a (or_zero (task_id_of f m)))
            ≡ false
      differ a e f p q ne = ground (
        arith,
        λ (h : or_zero (task_id_of n.id m) ≡ or_zero (task_id_of a.id m)).
            ne (apart n.id a.id p q h),
      )
