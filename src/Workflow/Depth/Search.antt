-- ===== src/Workflow/Depth/Search.antt =====
-- One call of the depth-first search: it returns, and what it returns is the longest chain or a cycle.
use paihuo.Prelude.{
  ℕ, zero, suc, ◌<◌, ◌≤◌, ◌≡◌, ◌⊎◌, refl, sym, ap, subst, Bool, true, false, Option, none, some,
  List, [], ◌∷◌, arith, In, inl, inr, Bool-cases, Option-cases, String, is_some, tally, tally_falls,
  tally_mono, if-cases,
}
use text.Mathlib.Text.{◌==◌ as str_eq}
use text.Mathlib.TextEquality.{eq_iff}
use paihuo.Workflow.Depth.{
  Graph, Mark, fresh, active, finished, Marks, set_mark, Found, loops, deep, unless_loops,
  raise_depth, scan_targets, targets_of, finish_node, visit_node,
}
use paihuo.Workflow.Depth.Chains.{
  NodeEdge, Walk, here, Leads, Leads-Walk, Walk-Leads, Chain, one, more, Deepest,
}

abbrev fresh_mark : Mark → Bool
fresh_mark fresh = true
fresh_mark active = false
fresh_mark (finished d) = false

abbrev pub is_fresh : Marks → String → Bool
is_fresh st x = fresh_mark (st x)

Mark-cases : (c : Mark) → (c ≡ fresh) ⊎ ((c ≡ active) ⊎ ((d : ℕ) × (c ≡ finished d)))
Mark-cases fresh = inl refl
Mark-cases active = inr (inl refl)
Mark-cases (finished d) = inr (inr (d, refl))

module _ (g : Graph) where
  -- Every memo is the length of the longest chain.
  abbrev pub IsSound : Marks → Type 0
  IsSound st = (j : String) (d : ℕ) → st j ≡ finished d → Deepest g j d

  -- The nodes that are being visited lead to `i`.
  abbrev pub OnPath : Marks → String → Type 0
  OnPath st i = (j : String) → st j ≡ active → Leads g j i

  abbrev Under : Marks → String → Type 0
  Under st i = (j : String) → st j ≡ active → Walk g j i

  -- What a search may do to the marks.
  pub record Spread (st st' : Marks) : Type 0 where
    pub sound : IsSound st'
    pub actives : (j : String) → st' j ≡ active → st j ≡ active
    pub fewer : (j : String) → is_fresh st' j ≡ true → is_fresh st j ≡ true

  -- A call of `visit` found the longest chain from `i`, or a cycle.
  abbrev pub Good : Marks → String → Option Found → Type 0
  Good st i none = ⊥
  Good st i (some loops) = (j : String) × Leads g j j
  Good st i (some (deep d st')) = Deepest g i d × Spread st st'

  -- The loop over `ds` found the longest chain from `i` through one of them, or a cycle.
  abbrev Scanned : Marks → String → ℕ → List String → Option Found → Type 0
  Scanned st i d ds none = ⊥
  Scanned st i d ds (some loops) = (j : String) × Leads g j j
  Scanned st i d ds (some (deep d' st')) =
      (d ≤ d')
      × Chain g i d'
      × ((b : String) (n : ℕ) → In b ds → is_some (g b) ≡ true → Chain g b n → suc n ≤ d')
      × Spread st st'

  Spread-trans : {a b c : Marks} → Spread a b → Spread b c → Spread a c
  Spread-trans f s = record {
    sound = s.sound;
    actives = λ j e. f.actives j (s.actives j e);
    fewer = λ j e. f.fewer j (s.fewer j e);
  }

  -- One round of the loop, from the result of the call for `d` on.
  next :
      (st : Marks) (i : String) (k : ℕ) (d : String) (ds : List String)
      → (rest : ℕ → Marks → Option Found)
      → ((value : ℕ) (st' : Marks)
          → Deepest g d value
          → Spread st st'
          → Scanned st' i (raise_depth k value) ds (rest value st'))
      → (r : Option Found) → Good st d r
      → Scanned st i k (d ∷ ds) (unless_loops r rest)
  next st i k d ds rest go none h = h
  next st i k d ds rest go (some loops) h = h
  next st i k d ds rest go (some (deep value st')) (top, sp) =
      widen (rest value st') (go value st' top sp)
    where
      widen :
          (r : Option Found) → Scanned st' i (raise_depth k value) ds r → Scanned st i k (d ∷ ds) r
      widen none h = h
      widen (some loops) h = h
      widen (some (deep k' st'')) (grows, c, covers, sp') = (
        ground arith,
        c,
        λ b n m known ch. elim m [
          | inl e ↦
              let low : n ≤ value = top.bound n (subst (λ x. Chain g x n) (sym e) ch) in
              ground arith
          | inr deeper ↦ covers b n deeper known ch
        ],
        Spread-trans sp sp',
      )

  module _ (keys : List String) (dom : (i : String) → is_some (g i) ≡ true → In i keys) where
    abbrev fresh_left : Marks → ℕ
    fresh_left st = tally (is_fresh st) keys

    -- The call for each node returns, with the longest chain or a cycle, if the fuel is enough.
    abbrev Calls : ℕ → (String → Marks → Option Found) → Type 0
    Calls fuel go =
        (d : String) (st : Marks)
        → is_some (g d) ≡ true
        → IsSound st
        → OnPath st d
        → fresh_left st < fuel
        → Good st d (go d st)

    scan_absent :
        (go : String → Marks → Option Found) (k : ℕ) (st : Marks) (d : String) (ds : List String)
        → g d ≡ none
        → scan_targets g go k st (d ∷ ds) ≡ scan_targets g go k st ds
    unfolding scan_targets
    scan_absent go k st d ds e = rw (e, scan_targets)

    scan_present :
        (go : String → Marks → Option Found) (k : ℕ) (st : Marks) (d : String) (ds ts : List String)
        → g d ≡ some ts
        → scan_targets g go k st (d ∷ ds)
          ≡ unless_loops (go d st) (λ value st'. scan_targets g go (raise_depth k value) st' ds)
    unfolding scan_targets
    scan_present go k st d ds ts e = rw (e, scan_targets)

    scan_lem :
        (fuel : ℕ) (go : String → Marks → Option Found)
        → Calls fuel go
        → (st : Marks) (i : String) (k : ℕ) (ds : List String)
        → ((b : String) → In b ds → is_some (g b) ≡ true → NodeEdge g i b)
        → IsSound st
        → Under st i
        → fresh_left st < fuel
        → Chain g i k
        → Scanned st i k ds (scan_targets g go k st ds)
    unfolding scan_targets
    scan_lem fuel go calls st i k [] edges sound under h c = (
      omega arith,
      c,
      λ b n m known ch. absurd m,
      record { sound = sound; actives = λ j e. e; fewer = λ j e. e },
    )
    scan_lem fuel go calls st i k (d ∷ ds) edges sound under h c = elim (Option-cases (g d)) [
      | inl e ↦ subst (Scanned st i k (d ∷ ds)) (sym (scan_absent go k st d ds e)) (
          skip e (scan_targets g go k st ds)
            (scan_lem fuel go calls st i k ds (λ b m. edges b (inr m)) sound under h c))
      | inr (ts, e) ↦
          let known : is_some (g d) ≡ true = ap is_some e in
          let edge = edges d (inl refl) known in
          subst (Scanned st i k (d ∷ ds)) (sym (scan_present go k st d ds ts e)) (
            next st i k d ds _
              (λ value st' top sp.
                scan_lem fuel go calls st' i (raise_depth k value) ds (λ b m. edges b (inr m))
                  sp.sound (λ j a. under j (sp.actives j a))
                  (omega (arith, tally_mono (is_fresh st) (is_fresh st') keys sp.fewer))
                  (taller value edge top))
              (go d st) (calls d st known sound (λ j a. Walk-Leads (under j a) edge) h))
    ]
      where
        taller : (value : ℕ) → NodeEdge g i d → Deepest g d value → Chain g i (raise_depth k value)
        taller value edge top = if-cases (Chain g i) _ (λ e. more edge top.reached) (λ e. c)

        skip : g d ≡ none → (r : Option Found) → Scanned st i k ds r → Scanned st i k (d ∷ ds) r
        skip e none h = h
        skip e (some loops) h = h
        skip e (some (deep k' st'')) (grows, c, covers, sp) = (
          grows,
          c,
          λ b n m known ch. elim m [
            | inl same ↦ absurd (ground (arith, ap g same))
            | inr deeper ↦ covers b n deeper known ch
          ],
          sp,
        )

    NodeEdge-targets_of :
        (i b : String) → In b (targets_of (g i)) → is_some (g b) ≡ true → NodeEdge g i b
    NodeEdge-targets_of i b m known = record { named = m; known = known }

    -- A chain from `i` is no longer than what the loop over its targets_of has found.
    Deepest-scan_targets :
        (i : String) (k : ℕ)
        → (suc zero ≤ k)
        → ((b : String) (n : ℕ)
            → In b (targets_of (g i))
            → is_some (g b) ≡ true
            → Chain g b n
            → suc n ≤ k)
        → Chain g i k
        → Deepest g i k
    Deepest-scan_targets i k low covers c = record { reached = c; bound = top }
      where
        top : (n : ℕ) → Chain g i n → n ≤ k
        top n one = low
        top n (more e ch) = covers _ _ e.named e.known ch

    visit_fresh :
        (f : ℕ) (i : String) (st : Marks)
        → st i ≡ fresh
        → visit_node g (suc f) i st
          ≡ unless_loops
              (scan_targets g (visit_node g f) 1 (set_mark st i active) (targets_of (g i)))
              (finish_node i)
    unfolding visit_node
    visit_fresh f i st e = rw (e, visit_node)

    visit_active :
        (f : ℕ) (i : String) (st : Marks) → st i ≡ active → visit_node g (suc f) i st ≡ some loops
    unfolding visit_node
    visit_active f i st e = rw (e, visit_node)

    visit_finished :
        (f : ℕ) (i : String) (st : Marks) (d : ℕ)
        → st i ≡ finished d
        → visit_node g (suc f) i st ≡ some (deep d st)
    unfolding visit_node
    visit_finished f i st d e = rw (e, visit_node)

    IsSound-set_mark : (st : Marks) (i : String) → IsSound st → IsSound (set_mark st i active)
    unfolding set_mark
    IsSound-set_mark st i sound j d h = sound j d (ground (arith, eq_iff i j))

    Under-set_mark : (st : Marks) (i : String) → OnPath st i → Under (set_mark st i active) i
    unfolding set_mark
    Under-set_mark st i path j h = elim (Bool-cases (str_eq i j)) [
      | inl e ↦ subst (Walk g j) (sym ((eq_iff i j).0 e)) here
      | inr e ↦ Leads-Walk (path j (ground arith))
    ]

    mark_self : (st : Marks) (i : String) (c : Mark) → set_mark st i c i ≡ c
    unfolding set_mark
    mark_self st i c = ground (arith, eq_iff i i)

    fresh-set_mark :
        (st : Marks) (i x : String) (c : Mark)
        → fresh_mark c ≡ false
        → is_fresh (set_mark st i c) x ≡ true
        → is_fresh st x ≡ true
    unfolding set_mark
    fresh-set_mark st i x c h q = elim (Bool-cases (str_eq i x)) [
      | inl e ↦ let q' : fresh_mark c ≡ true = rw e at q in cc (h, q')
      | inr e ↦ rw e at q
    ]

    falls :
        (fuel : ℕ) (i : String) (st : Marks)
        → st i ≡ fresh
        → is_some (g i) ≡ true
        → fresh_left st < suc fuel
        → fresh_left (set_mark st i active) < fuel
    falls fuel i st e known h = omega (
      arith,
      tally_falls (is_fresh st) (is_fresh (set_mark st i active)) i keys
          (λ x q. fresh-set_mark st i x active refl q) (dom i known) (ap fresh_mark e)
          (ap fresh_mark (mark_self st i active)),
    )

    -- What is left when `visit` marks the node as finished.
    Spread-close :
        (st st' : Marks) (i : String) (k : ℕ)
        → Deepest g i k
        → Spread (set_mark st i active) st'
        → Spread st (set_mark st' i (finished k))
    unfolding set_mark
    Spread-close st st' i k top sp = record {
      sound = λ j d h. elim (Bool-cases (str_eq i j)) [
        | inl e ↦
            let same : k ≡ d = ground arith in
            subst (λ x. Deepest g x d) ((eq_iff i j).0 e) (subst (Deepest g i) same top)
        | inr e ↦ sp.sound j d (ground arith)
      ];
      actives = λ j h. ground (arith, sp.actives j);
      fewer = λ j h.
          fresh-set_mark st i j active refl
            (sp.fewer j (fresh-set_mark st' i j (finished k) refl h));
    }

    leave :
        (st : Marks) (i : String) (r : Option Found)
        → Scanned (set_mark st i active) i 1 (targets_of (g i)) r
        → Good st i (unless_loops r (finish_node i))
    leave st i none h = h
    leave st i (some loops) h = h
    leave st i (some (deep k st')) (low, c, covers, sp) =
        let top = Deepest-scan_targets i k low covers c in (top, Spread-close st st' i k top sp)

    -- Each call of `visit` returns with more fuel than there are fresh nodes.
    pub visit_node_lem : (fuel : ℕ) → Calls fuel (visit_node g fuel)
    visit_node_lem zero i st known sound path h = elim h [ ]
    visit_node_lem (suc fuel) i st known sound path h = elim (Mark-cases (st i)) [
      | inl e ↦
          let st' = set_mark st i active in
          subst (Good st i) (sym (visit_fresh fuel i st e)) (
            leave st i (scan_targets g (visit_node g fuel) 1 st' (targets_of (g i))) (
              scan_lem fuel (visit_node g fuel) (visit_node_lem fuel) st' i 1 (targets_of (g i))
                (NodeEdge-targets_of i) (IsSound-set_mark st i sound) (Under-set_mark st i path)
                (falls fuel i st e known h) one))
      | inr (inl e) ↦ subst (Good st i) (sym (visit_active fuel i st e)) (i, path i e)
      | inr (inr (d, e)) ↦
          subst (Good st i) (sym (visit_finished fuel i st d e))
            (sound i d e, record { sound = sound; actives = λ j a. a; fewer = λ j a. a })
    ]
