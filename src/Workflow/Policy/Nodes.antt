-- ===== src/Workflow/Policy/Nodes.antt =====
-- What the nodes and their dependencies must be for `Validate` to report nothing.
use paihuo.Prelude.{
  ◌≡◌, ◌≢◌, ◌⊎◌, ◌↔◌, refl, sym, ap, String, true, false, Option, none, some, List, [], ◌∷◌, arith,
  All, In, inl, inr, any, is_some, map, Option-cases, subst,
}
use paihuo.Prelude.Signed.{pos, ◌≤ℤ◌}
use text.Mathlib.Text.{◌==◌ as str_eq}
use text.Mathlib.TextEquality.{eq_iff}
use paihuo.Workflow.Spec.{Node}
use paihuo.Workflow.Text.{is_blank, node_id_matches, dangerous_action, invalid_reference}
use paihuo.Workflow.Policy.{
  neither, Policy, node_checks, check_node, check_nodes, find_node, check_dependency,
  check_dependencies, check_all_dependencies, node_graph,
}
use mathlib.Core.Option
use paihuo.Workflow.Depth.Longest.{Lists}
use paihuo.Workflow.Policy.Clean.{
  adds-nil, nil-adds, append-nil, Within, RoleOk, actions_iff, refs_iff, role_iff,
}

-- One node by itself.
pub record NodeOk (p : Policy) (n : Node) : Type 0 where
  pub slug : node_id_matches n.id ≡ true
  pub intent : is_blank n.intent ≡ false
  pub permission : (n.permission ≡ "full") ⊎ (n.permission ≡ "review")
  pub timeout : Within (pos 1) p.max_timeout n.timeout_seconds
  pub failure_policy : (n.failure_policy ≡ "stop") ⊎ (n.failure_policy ≡ "continue")
  pub budget : pos 0 ≤ℤ n.budget
  pub role : RoleOk n p.resolve_role
  pub actions : All (λ a. dangerous_action a ≡ true → n.approval_required ≡ true) n.allowed_actions
  pub refs : All (λ r. invalid_reference r ≡ false) n.input_refs

-- No text stands twice in the list.
abbrev pub Distinct : List String → Type 0
Distinct [] = Unit
Distinct (x ∷ xs) = ¬ In x xs × Distinct xs

-- No text of the list stands in `seen` or before itself.
abbrev New : List String → List String → Type 0
New seen [] = Unit
New seen (x ∷ xs) = ¬ In x seen × New (x ∷ seen) xs

New-apart : (seen xs : List String) → New seen xs → (x : String) → In x xs → ¬ In x seen
New-apart seen [] h x m = absurd m
New-apart seen (y ∷ xs) h x (inl e) = subst (λ z. ¬ In z seen) e h.0
New-apart seen (y ∷ xs) h x (inr m) = λ k. New-apart (y ∷ seen) xs h.1 x m (inr k)

New-Distinct : (seen xs : List String) → New seen xs → Distinct xs
New-Distinct seen [] h = tt
New-Distinct seen (x ∷ xs) h =
    (λ m. New-apart (x ∷ seen) xs h.1 x m (inl refl), New-Distinct (x ∷ seen) xs h.1)

Distinct-New :
    (seen xs : List String) → Distinct xs → ((x : String) → In x xs → ¬ In x seen) → New seen xs
Distinct-New seen [] d apart = tt
Distinct-New seen (x ∷ xs) d apart = (
  apart x (inl refl),
  Distinct-New (x ∷ seen) xs d.1 (λ y m k. elim k [
    | inl e ↦ d.0 (subst (λ z. In z xs) (sym e) m)
    | inr deeper ↦ apart y (inr m) deeper
  ]),
)

pub New-iff : (xs : List String) → New [] xs ↔ Distinct xs
New-iff xs = (New-Distinct [] xs, λ d. Distinct-New [] xs d (λ x m k. k))

abbrev pub ids : List Node → List String
ids = map (λ n. n.id)

any-In : (id : String) (ns : List Node) → any (λ m. str_eq m.id id) ns ≡ false → ¬ In id (ids ns)
any-In id [] h = λ m. m
any-In id (n ∷ ns) h = λ m. elim m [
  | inl e ↦ absurd (ground (arith, eq_iff n.id id))
  | inr k ↦ any-In id ns (ground arith) k
]

In-any : (id : String) (ns : List Node) → ¬ In id (ids ns) → any (λ m. str_eq m.id id) ns ≡ false
In-any id [] h = refl
In-any id (n ∷ ns) h =
    ground (arith, eq_iff n.id id, λ (e : n.id ≡ id). h (inl e), In-any id ns (λ m. h (inr m)))

neither_iff : (a b value : String) → (neither a b value ≡ false) ↔ ((value ≡ a) ⊎ (value ≡ b))
neither_iff a b value = ground (arith, eq_iff value a, eq_iff value b)

node_iff :
    (p : Policy) (nodes : List Node) (n : Node)
    → (check_node p nodes n ≡ []) ↔ (¬ In n.id (ids nodes) × NodeOk p n)
unfolding check_node
node_iff p nodes n = (
  λ h.
      let hs = adds-nil (node_checks p nodes n) h in
      let apart : any (λ m. str_eq m.id n.id) nodes ≡ false = ground arith in
      (
        any-In n.id nodes apart,
        ground (
          arith,
          neither_iff "full" "review" n.permission,
          neither_iff "stop" "continue" n.failure_policy,
          role_iff n p.resolve_role,
          actions_iff n n.allowed_actions,
          refs_iff n n.input_refs,
        ),
      ),
  λ (apart, k).
      let fresh = In-any n.id nodes apart in
      nil-adds (node_checks p nodes n) (
        ground (
          arith,
          neither_iff "full" "review" n.permission,
          neither_iff "stop" "continue" n.failure_policy,
          role_iff n p.resolve_role,
          actions_iff n n.allowed_actions,
          refs_iff n n.input_refs,
        )),
)

-- The first loop reports nothing exactly if each node is right and no id comes twice.
nodes_lem :
    (p : Policy) (nodes ns : List Node)
    → (check_nodes p nodes ns ≡ []) ↔ (New (ids nodes) (ids ns) × All (NodeOk p) ns)
unfolding check_nodes
nodes_lem p nodes [] = (λ h. (tt, tt), λ h. refl)
nodes_lem p nodes (n ∷ ns) =
    let one = node_iff p nodes n in
    let rest = nodes_lem p (n ∷ nodes) ns in
    (
      λ h.
          let (e, f) = append-nil (check_node p nodes n) (check_nodes p (n ∷ nodes) ns) h in
          let (apart, k) = one.0 e in let (new, ks) = rest.0 f in ((apart, new), (k, ks)),
      λ (new, ks). rw (one.1 (new.0, ks.0), rest.1 (new.1, ks.1)),
    )

pub check_nodes_iff :
    (p : Policy) (ns : List Node)
    → (check_nodes p [] ns ≡ []) ↔ (Distinct (ids ns) × All (NodeOk p) ns)
check_nodes_iff p ns =
    let lem = nodes_lem p [] ns in
    (
      λ h. let (new, ks) = lem.0 h in ((New-iff (ids ns)).0 new, ks),
      λ (d, ks). lem.1 ((New-iff (ids ns)).1 d, ks),
    )

-- The dependencies of a node: other nodes that are there, none twice.
pub record DepsOk (nodes : List Node) (n : Node) : Type 0 where
  pub others : All (λ d. (d ≢ n.id) × In d (ids nodes)) n.depends_on
  pub distinct : Distinct n.depends_on

pub find_node-In :
    (id : String) (ns : List Node) → is_some (find_node id ns) ≡ true → In id (ids ns)
unfolding find_node
find_node-In id [] h = absurd (cc)
find_node-In id (n ∷ ns) h = elim (Option-cases (find_node id ns)) [
  | inl e ↦ inl (ground (arith, eq_iff n.id id))
  | inr (m, e) ↦ inr (find_node-In id ns (ap is_some e))
]

pub In-find_node :
    (id : String) (ns : List Node) → In id (ids ns) → is_some (find_node id ns) ≡ true
unfolding find_node
In-find_node id [] m = absurd m
In-find_node id (n ∷ ns) m = elim (Option-cases (find_node id ns)) [
  | inr (x, e) ↦ rw e refl
  | inl e ↦ elim m [
    | inl same ↦ ground (arith, eq_iff n.id id)
    | inr k ↦ absurd (ground (arith, In-find_node id ns k))
  ]
]

any_eq-In : (d : String) (seen : List String) → any (λ e. str_eq e d) seen ≡ false → ¬ In d seen
any_eq-In d [] h = λ m. m
any_eq-In d (x ∷ xs) h = λ m. elim m [
  | inl e ↦ absurd (ground (arith, eq_iff x d))
  | inr k ↦ any_eq-In d xs (ground arith) k
]

In-any_eq : (d : String) (seen : List String) → ¬ In d seen → any (λ e. str_eq e d) seen ≡ false
In-any_eq d [] h = refl
In-any_eq d (x ∷ xs) h =
    ground (arith, eq_iff x d, λ (e : x ≡ d). h (inl e), In-any_eq d xs (λ m. h (inr m)))

dependency_iff :
    (nodes : List Node) (n : Node) (seen : List String) (d : String)
    → (check_dependency nodes n seen d ≡ []) ↔ (((d ≢ n.id) × In d (ids nodes)) × ¬ In d seen)
unfolding check_dependency
dependency_iff nodes n seen d = (
  λ h.
      let known : is_some (find_node d nodes) ≡ true = ground arith in
      let new : any (λ e. str_eq e d) seen ≡ false = ground arith in
      ((λ e. ground (arith, eq_iff d n.id), find_node-In d nodes known), any_eq-In d seen new),
  λ ((other, m), new).
      ground (arith, eq_iff d n.id, In-find_node d nodes m, In-any_eq d seen new, other),
)

dependencies_lem :
    (nodes : List Node) (n : Node) (seen ds : List String)
    → (check_dependencies nodes n seen ds ≡ [])
      ↔ (All (λ d. (d ≢ n.id) × In d (ids nodes)) ds × New seen ds)
unfolding check_dependencies
dependencies_lem nodes n seen [] = (λ h. (tt, tt), λ h. refl)
dependencies_lem nodes n seen (d ∷ ds) =
    let one = dependency_iff nodes n seen d in
    let rest = dependencies_lem nodes n (d ∷ seen) ds in
    (
      λ h.
          let (e, f) =
            append-nil (check_dependency nodes n seen d) (check_dependencies nodes n (d ∷ seen) ds)
              h in
          let (k, new) = one.0 e in let (ks, news) = rest.0 f in ((k, ks), (new, news)),
      λ (ks, new). rw (one.1 (ks.0, new.0), rest.1 (ks.1, new.1)),
    )

-- The second loop reports nothing exactly if the dependencies of each node are right.
pub check_all_dependencies_iff :
    (nodes ns : List Node) → (check_all_dependencies nodes ns ≡ []) ↔ All (DepsOk nodes) ns
unfolding check_all_dependencies
check_all_dependencies_iff nodes [] = (λ h. tt, λ h. refl)
check_all_dependencies_iff nodes (n ∷ ns) =
    let one = dependencies_lem nodes n [] n.depends_on in
    let rest = check_all_dependencies_iff nodes ns in
    (
      λ h.
          let (e, f) =
            append-nil (check_dependencies nodes n [] n.depends_on)
              (check_all_dependencies nodes ns) h in
          let (ks, new) = one.0 e in
          (record { others = ks; distinct = (New-iff n.depends_on).0 new }, rest.0 f),
      λ (k, ks). rw (one.1 (k.others, (New-iff n.depends_on).1 k.distinct), rest.1 ks),
    )

-- The ids of the nodes are the keys of the map.
pub ids-Lists : (nodes : List Node) → Lists (node_graph nodes) (ids nodes)
unfolding node_graph
ids-Lists nodes = record {
  complete = λ i h. find_node-In i nodes (unmapped (find_node i nodes) h);
  sound = λ i m. mapped (find_node i nodes) (In-find_node i nodes m);
}
  where
    unmapped :
        (o : Option Node) → is_some (Option.map (λ n. n.depends_on) o) ≡ true → is_some o ≡ true
    unmapped none h = h
    unmapped (some n) h = refl

    mapped :
        (o : Option Node) → is_some o ≡ true → is_some (Option.map (λ n. n.depends_on) o) ≡ true
    mapped none h = h
    mapped (some n) h = refl
