-- ===== src/Workflow/Depth/Longest.antt =====
-- `graphDepth` and the longest chain of dependencies.
use paihuo.Prelude.{
  ℕ, suc, ◌<◌, ◌≤◌, ◌≡◌, ◌≢◌, ◌⊎◌, refl, sym, ◌∙◌, ap, subst, true, Option, none, some, List, [],
  ◌∷◌, arith, In, inl, inr, String, is_some, length, tally, tally-le-length, tally_mono, if-cases,
}
use paihuo.Workflow.Depth.{
  Graph, fresh, active, Marks, Found, loops, deep, unless_loops, larger, visit_node, visit_nodes,
  Depth, cyclic, depth, depth_of, graph_depth,
}
use paihuo.Workflow.Depth.Chains.{Leads, Chain, Deepest, Deepest-not-Leads}
use paihuo.Workflow.Depth.Search.{is_fresh, IsSound, Spread, Good, visit_node_lem}

-- The list holds the keys of the map, each once or more often.
pub record Lists (g : Graph) (keys : List String) : Type 0 where
  pub complete : (i : String) → is_some (g i) ≡ true → In i keys
  pub sound : (i : String) → In i keys → is_some (g i) ≡ true

-- What a depth says of the graph: it is the length of the longest chain, and 0 only without nodes; and a
-- cycle is one.
pub record Longest (g : Graph) (keys : List String) (d : ℕ) : Type 0 where
  pub acyclic : (j : String) → ¬ Leads g j j
  pub bound : (j : String) (n : ℕ) → is_some (g j) ≡ true → Chain g j n → n ≤ d
  pub reached : (keys ≡ [] × (d ≡ 0)) ⊎ ((j : String) × (is_some (g j) ≡ true) × Chain g j d)

abbrev pub Means : Graph → List String → Depth → Type 0
Means g keys cyclic = (j : String) × Leads g j j
Means g keys (depth d) = Longest g keys d

larger_cases : (m d : ℕ) → (larger m d ≡ m) ⊎ (larger m d ≡ d)
larger_cases m d = if-cases (λ x. (x ≡ m) ⊎ (x ≡ d)) _ (λ e. inr refl) (λ e. inl refl)

module _ (g : Graph) (keys : List String) (listed : Lists g keys) where
  -- What the loop over the keys has found so far.
  record Upto (m : ℕ) (ids : List String) (m' : ℕ) : Type 0 where
    grows : m ≤ m'
    bound : (j : String) → In j ids → (d : ℕ) × Deepest g j d × (d ≤ m')
    reached : (m' ≡ m) ⊎ ((j : String) × (is_some (g j) ≡ true) × Chain g j m')

  abbrev Covered : ℕ → List String → Option Found → Type 0
  Covered m ids none = ⊥
  Covered m ids (some loops) = (j : String) × Leads g j j
  Covered m ids (some (deep m' st')) = Upto m ids m'

  Upto-cons :
      (m : ℕ) (i : String) (ids : List String) (d m' : ℕ)
      → Deepest g i d
      → is_some (g i) ≡ true
      → Upto (larger m d) ids m'
      → Upto m (i ∷ ids) m'
  Upto-cons m i ids d m' top known u = record {
    grows = ground (arith, u.grows);
    bound = λ j k. elim k [
      | inl e ↦ (d, subst (λ x. Deepest g x d) e top, ground (arith, u.grows))
      | inr deeper ↦ u.bound j deeper
    ];
    reached = elim u.reached [
      | inr found ↦ inr found
      | inl e ↦ elim (larger_cases m d) [
        | inl f ↦ inl (e ∙ f)
        | inr f ↦ inr (i, known, subst (Chain g i) (sym (e ∙ f)) top.reached)
      ]
    ];
  }

  widen :
      (m d : ℕ) (i : String) (ids : List String)
      → Deepest g i d
      → is_some (g i) ≡ true
      → (r : Option Found) → Covered (larger m d) ids r
      → Covered m (i ∷ ids) r
  widen m d i ids top known none h = h
  widen m d i ids top known (some loops) h = h
  widen m d i ids top known (some (deep m' st')) u = Upto-cons m i ids d m' top known u

  abbrev Idle : Marks → Type 0
  Idle st = (j : String) → st j ≢ active

  next :
      (m : ℕ) (st : Marks) (i : String) (ids : List String)
      → (rest : ℕ → Marks → Option Found) → is_some (g i) ≡ true
      → ((d : ℕ) (st' : Marks) → Spread g st st' → Covered (larger m d) ids (rest d st'))
      → (r : Option Found) → Good g st i r
      → Covered m (i ∷ ids) (unless_loops r rest)
  next m st i ids rest known go none h = h
  next m st i ids rest known go (some loops) h = h
  next m st i ids rest known go (some (deep d st')) (top, sp) =
      widen m d i ids top known (rest d st') (go d st' sp)

  visit_nodes_lem :
      (fuel m : ℕ) (st : Marks) (ids : List String)
      → ((i : String) → In i ids → In i keys)
      → IsSound g st
      → Idle st
      → tally (is_fresh st) keys < fuel
      → Covered m ids (visit_nodes g fuel m st ids)
  unfolding visit_nodes
  visit_nodes_lem fuel m st [] within sound idle h = record {
    grows = omega arith;
    bound = λ j k. absurd k;
    reached = inl refl;
  }
  visit_nodes_lem fuel m st (i ∷ ids) within sound idle h =
      let known = listed.sound i (within i (inl refl)) in
      next m st i ids _ known
        (λ d st' sp.
          visit_nodes_lem fuel (larger m d) st' ids (λ j k. within j (inr k)) sp.sound
            (λ j a. idle j (sp.actives j a))
            (omega (arith, tally_mono (is_fresh st) (is_fresh st') keys sp.fewer)))
        (visit_node g fuel i st)
        (visit_node_lem g keys listed.complete fuel i st known sound (λ j a. absurd (idle j a)) h)

  Upto-Longest : (d : ℕ) → Upto 0 keys d → Longest g keys d
  Upto-Longest d u = record {
    acyclic = λ j l.
        let (k, top, low) = u.bound j (listed.complete j (Leads-known l)) in
        Deepest-not-Leads top l;
    bound = λ j n known c.
        let (k, top, low) = u.bound j (listed.complete j known) in
        let short : n ≤ k = top.bound n c in omega arith;
    reached = elim u.reached [
      | inr found ↦ inr found
      | inl e ↦ none_left keys listed.sound u.bound e
    ];
  }
    where
      Leads-known : {j k : String} → Leads g j k → is_some (g k) ≡ true
      Leads-known (m, w, e) = e.known

      none_left :
          (ids : List String)
          → ((i : String) → In i ids → is_some (g i) ≡ true)
          → ((j : String) → In j ids → (k : ℕ) × Deepest g j k × (k ≤ d))
          → d ≡ 0
          → (ids ≡ [] × (d ≡ 0)) ⊎ ((j : String) × (is_some (g j) ≡ true) × Chain g j d)
      none_left [] sound bound e = inl (refl, e)
      none_left (i ∷ ids) sound bound e =
          let (k, top, low) = bound i (inl refl) in
          let same : k ≡ d = omega arith in
          inr (i, sound i (inl refl), subst (Chain g i) same top.reached)

  finish :
      (r : Option Found) → Covered 0 keys r → (v : Depth) × (depth_of r ≡ some v) × Means g keys v
  finish none h = absurd h
  finish (some loops) h = (cyclic, refl, h)
  finish (some (deep d st')) u = (depth d, refl, Upto-Longest d u)

  -- `graphDepth` always answers, with one round of fuel for each key and one more, in whatever order the
  -- map yields its keys: a cycle exactly if some node depends on itself through one or more
  -- dependencies that exist, and else the length of the longest chain of such dependencies.
  pub graph_depth_lem : (v : Depth) × (graph_depth g keys ≡ some v) × Means g keys v
  unfolding graph_depth
  graph_depth_lem = finish (visit_nodes g (suc (length keys)) 0 (λ i. fresh) keys) (
      visit_nodes_lem (suc (length keys)) 0 (λ i. fresh) keys (λ i m. m) (λ j d e. cc) (λ j e. cc)
        (omega (arith, tally-le-length (is_fresh (λ i. fresh)) keys)))

-- The answer of `graphDepth` does not depend on the order in which the map yields its keys.
pub graph_depth-order :
    (g : Graph) (keys keys' : List String)
    → Lists g keys
    → Lists g keys'
    → graph_depth g keys ≡ graph_depth g keys'
graph_depth-order g keys keys' listed listed' =
    let (v, run, m) = graph_depth_lem g keys listed in
    let (v', run', m') = graph_depth_lem g keys' listed' in
    run ∙ (ap some (agree v v' m m') ∙ sym run')
  where
    at_most : (ks ks' : List String) (d d' : ℕ) → Longest g ks d → Longest g ks' d' → d ≤ d'
    at_most ks ks' d d' l l' = elim l.reached [
      | inl (e, z) ↦ omega arith
      | inr (j, known, c) ↦ l'.bound j d known c
    ]

    agree : (v v' : Depth) → Means g keys v → Means g keys' v' → v ≡ v'
    agree cyclic cyclic m m' = refl
    agree cyclic (depth d) (j, l) m' = absurd (m'.acyclic j l)
    agree (depth d) cyclic m (j, l) = absurd (m.acyclic j l)
    agree (depth d) (depth d') m m' =
        let low = at_most keys keys' d d' m m' in
        let high = at_most keys' keys d' d m' m in let same : d ≡ d' = omega arith in ap depth same
