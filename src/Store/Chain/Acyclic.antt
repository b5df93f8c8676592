-- ===== src/Store/Chain/Acyclic.antt =====
-- `validateProjectDependencyGraph` and the cycles of a project's graph.
use paihuo.Prelude.{
  tally-le-length, ℕ, suc, ◌<◌, ◌≡◌, ◌≢◌, ◌↔◌, refl, sym, Bool, true, false, ◌&&◌, some, List, [],
  ◌∷◌, arith, ◌==◌, In, length, inl, inr, Bool-cases, ==→≡, is_some, &&→fst,
}
use paihuo.Model.{Task}
use paihuo.Store.Db.{Db}
use paihuo.Store.Chain.{
  Next, Marks, fresh, active, visit, visit_all, graph_of, graph_keys, in_graph,
  project_graph_acyclic,
}
use paihuo.Store.Chain.Walk.{Returns, Ends, Ends-not-Returns}
use paihuo.Store.Chain.Visit.{
  Visits, is_fresh, visit_total, Visits-active, Visits-Ends, Visits-Returns, Finished,
}

-- Between two visits no node is active.
Idle : Marks → Type 0
Idle st = (j : ℕ) → st j ≢ active

-- The walk from every listed node ends, or some walk returns.
abbrev Verdict : Next → List ℕ → Bool → Type 0
Verdict next ids true = (i : ℕ) → In i ids → Ends next i
Verdict next ids false = (j : ℕ) × Returns next j

Verdict-cons :
    {next : Next} (i : ℕ) (ids : List ℕ) (b : Bool)
    → Ends next i
    → Verdict next ids b
    → Verdict next (i ∷ ids) b
Verdict-cons i ids false ends v = v
Verdict-cons i ids true ends v = λ j m. elim m [ inl e ↦ rw (sym e) ends | inr k ↦ v j k ]

module _ (next : Next) (keys : List ℕ) (dom : (a b : ℕ) → next a ≡ some b → In a keys) where
  visit_all_lem :
      (fuel : ℕ) (st : Marks) (ids : List ℕ)
      → length keys < fuel
      → Idle st
      → Finished next st
      → (b : Bool) × (visit_all next fuel st ids ≡ some b) × Verdict next ids b
  unfolding visit_all Idle
  visit_all_lem fuel st [] h idle inv = (true, refl, λ i m. absurd m)
  visit_all_lem fuel st (i ∷ ids) h idle inv =
      let (b, st', run, v) =
        visit_total next keys dom fuel st i (omega (arith, tally-le-length (is_fresh st) keys)) in
      go (λ st'' idle' inv'. visit_all_lem fuel st'' ids h idle' inv') b st' run v
    where
      go :
          ((st'' : Marks)
            → Idle st''
            → Finished next st''
            → (c : Bool) × (visit_all next fuel st'' ids ≡ some c) × Verdict next ids c)
          → (b : Bool) (st' : Marks) → visit next fuel st i ≡ some (b, st')
          → Visits next st i b st'
          → (c : Bool) × (visit_all next fuel st (i ∷ ids) ≡ some c) × Verdict next (i ∷ ids) c
      go rest true st' run v =
          let (ends, inv') = Visits-Ends v refl inv in
          let (c, done, verdict) = rest st' (λ j e. idle j (Visits-active v refl j e)) inv' in
          (c, rw run done, Verdict-cons i ids c ends verdict)
      go rest false st' run v =
          (false, rw run refl, Visits-Returns v refl (λ j e. absurd (idle j e)))

  -- The loop over all keys answers, and answers true exactly if no walk returns.
  visit_all_iff :
      (b : Bool) × (visit_all next (suc (length keys)) (λ i. fresh) keys ≡ some b)
      × ((b ≡ true) ↔ ((j : ℕ) → ¬ Returns next j))
  unfolding Idle
  visit_all_iff =
      let (b, done, verdict) =
        visit_all_lem (suc (length keys)) (λ i. fresh) keys (omega arith) (λ j e. cc) (λ j e. cc) in
      (b, done, decide b verdict)
    where
      decide : (b : Bool) → Verdict next keys b → ((b ≡ true) ↔ ((j : ℕ) → ¬ Returns next j))
      decide true v =
          ((λ e j (r : Returns next j). Ends-not-Returns (v j (dom j r.0 r.1)) r), λ _. refl)
      decide false (j, r) = ((λ e. cc), λ none_returns. absurd (none_returns j r))

graph_of-In :
    (project : ℕ) (ts : List Task) (a b : ℕ)
    → graph_of project ts a ≡ some b
    → In a (graph_keys project ts)
unfolding graph_of graph_keys
graph_of-In project [] a b h = absurd (cc)
graph_of-In project (t ∷ ts) a b h = elim (Bool-cases (t.id == a && in_graph project t)) [
  | inl e ↦
      let listed : (in_graph project t && is_some t.depends_on) ≡ true = ground arith in
      rw listed (inl (==→≡ t.id a (&&→fst _ _ e)))
  | inr e ↦
      let deeper : In a (graph_keys project ts) = graph_of-In project ts a b (ground arith) in
      elim (Bool-cases (in_graph project t && is_some t.depends_on)) [
        | inl k ↦ rw k (inr deeper)
        | inr k ↦ rw k deeper
      ]
]

-- `validateProjectDependencyGraph` always answers, with one round of fuel for each task that has a
-- dependency and one more, and it accepts exactly if no task of the project comes back to itself along
-- one or more dependencies.
pub project_graph_acyclic_iff :
    (db : Db) (project : ℕ)
    → (b : Bool) × (project_graph_acyclic db project ≡ some b)
      × ((b ≡ true) ↔ ((j : ℕ) → ¬ Returns (graph_of project db.tasks) j))
unfolding project_graph_acyclic
project_graph_acyclic_iff db project =
    visit_all_iff (graph_of project db.tasks) (graph_keys project db.tasks)
      (graph_of-In project db.tasks)
