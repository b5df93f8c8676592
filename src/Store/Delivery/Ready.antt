-- ===== src/Store/Delivery/Ready.antt =====
-- When a queued task may start.
use paihuo.Prelude.{
  ℕ, Bool, true, false, ◌≡◌, refl, sym, ◌∙◌, ◌↔◌, ◌⊎◌, inl, inr, Option, none, some, List, [], ◌∷◌,
  arith, ◌==◌, leb, In, Bool-cases, Option-cases, some_eq,
}
use text.Mathlib.Text.{◌==◌ as str_eq}
use paihuo.Model.{Task}
use paihuo.Model.Words.{Status, strong}
use paihuo.Store.Db.{Db, Edge, get_task}
use paihuo.Store.Merge.{get_merge_task_for_source}
use paihuo.Store.Delivery.{
  DeliveryState, pending, succeeded, failed, succeeded_state, delivery_state_of, DependencyCheck,
  check_edges, check_with, check_task_dependency, insert_edge, workflow_dependencies, edge_step,
  strong_check, waiting,
}

-- A delivery is complete, said without the code's switches: an implementation task has succeeded, and
-- either it was found to change nothing, or its merge task has succeeded, or it has no branch and no
-- merge task.
pub record Delivered (db : Db) (source : Task) : Type 0 where
  pub implements : source.merge_of ≡ none
  pub done : source.status ≡ Status.succeeded
  pub merged :
      (source.merge_skipped ≡ true)
      ⊎ (((m : Task) × (get_merge_task_for_source source.id db ≡ some m)
            × (m.status ≡ Status.succeeded))
          ⊎ ((get_merge_task_for_source source.id db ≡ none)
              × (str_eq source.worktree_branch "" ≡ true)))

succeeded-merged :
    (source : Task) (o : Option Task)
    → succeeded_state source o ≡ succeeded
    → ((m : Task) × (o ≡ some m) × (m.status ≡ Status.succeeded))
      ⊎ ((o ≡ none) × (str_eq source.worktree_branch "" ≡ true))
succeeded-merged source none h = inr (refl, ground arith)
succeeded-merged source (some m) h = inl (m, refl, ground arith)

-- The delivery state is `succeeded` exactly for the deliveries that are complete.
pub delivery_state_of_iff :
    (db : Db) (source : Task) → (delivery_state_of db source ≡ succeeded) ↔ Delivered db source
unfolding delivery_state_of
delivery_state_of_iff db source = (to, from)
  where
    to : delivery_state_of db source ≡ succeeded → Delivered db source
    to h = record {
      implements = ground arith;
      done = ground arith;
      merged = elim (Bool-cases source.merge_skipped) [
        | inl e ↦ inl e
        | inr e ↦
            inr (succeeded-merged source (get_merge_task_for_source source.id db) (ground arith))
      ];
    }

    from : Delivered db source → delivery_state_of db source ≡ succeeded
    from d = elim d.merged [
      | inl e ↦ ground arith
      | inr (inl (m, found, e)) ↦ ground (arith, found)
      | inr (inr (absent, e)) ↦ ground (arith, absent)
    ]

-- What lets a Workflow edge pass: its source is there and delivered, or has failed and the edge resumes.
abbrev pub Passed : Db → Edge → Type 0
Passed db e =
    (t : Task) × (get_task e.depends_on db ≡ some t)
    × (Delivered db t ⊎ ((delivery_state_of db t ≡ failed) × (e.resume ≡ true)))

edge-Passed :
    (skipped resume : Bool) (s : DeliveryState) (go : Bool → Option DependencyCheck)
    {c : DependencyCheck}
    → edge_step skipped resume s go ≡ some c
    → c.ready ≡ true
    → (skipped' : Bool) × (go skipped' ≡ some c)
      × ((s ≡ succeeded) ⊎ ((s ≡ failed) × (resume ≡ true)))
edge-Passed skipped resume succeeded go h r = (skipped, h, inl refl)
edge-Passed skipped true failed go h r = (true, h, inr (refl, refl))
edge-Passed skipped false failed go h r = absurd (ground arith)
edge-Passed skipped resume pending go h r = absurd (ground arith)

check_edges-Passed :
    (db : Db) (skipped : Bool) (es : List Edge) {c : DependencyCheck}
    → check_edges db skipped es ≡ some c
    → c.ready ≡ true
    → (e : Edge) → In e es
    → Passed db e
unfolding check_edges
check_edges-Passed db skipped [] h r = λ e m. absurd m
check_edges-Passed db skipped (f ∷ fs) {c = c} h r =
    elim (Option-cases (get_task f.depends_on db)) [
      | inl absent ↦ absurd (ground (arith, absent))
      | inr (t, found) ↦
          let (skipped', rest, passed) =
            edge-Passed skipped f.resume (delivery_state_of db t) (λ s. check_edges db s fs) {c = c}
              (rw (found, check_edges) at h) r in
          λ e m. elim m [
            | inl same ↦ rw (sym same) (
              t,
              found,
              elim passed [ inl s ↦ inl ((delivery_state_of_iff db t).0 s) | inr p ↦ inr p ],
            )
            | inr deeper ↦ check_edges-Passed db skipped' fs {c = c} rest r e deeper
          ]
    ]

In-insert_edge : (e x : Edge) (es : List Edge) → (x ≡ e) ⊎ In e es → In e (insert_edge x es)
unfolding insert_edge
In-insert_edge e x [] (inl p) = inl p
In-insert_edge e x [] (inr m) = absurd m
In-insert_edge e x (f ∷ fs) h = elim (Bool-cases (leb x.depends_on f.depends_on)) [
  | inl b ↦ rw b h
  | inr b ↦ rw b (elim h [
    | inl p ↦ inr (In-insert_edge e x fs (inl p))
    | inr (inl p) ↦ inl p
    | inr (inr m) ↦ inr (In-insert_edge e x fs (inr m))
  ])
]

In-workflow_dependencies :
    (i : ℕ) (e : Edge) (es : List Edge)
    → In e es
    → (e.task_id == i) ≡ true
    → In e (workflow_dependencies i es)
unfolding workflow_dependencies
In-workflow_dependencies i e [] m own = m
In-workflow_dependencies i e (f ∷ fs) (inl p) own =
    let here : (f.task_id == i) ≡ true = rw p own in rw here (In-insert_edge e f _ (inl p))
In-workflow_dependencies i e (f ∷ fs) (inr m) own = elim (Bool-cases (f.task_id == i)) [
  | inl b ↦ rw b (In-insert_edge e f _ (inr (In-workflow_dependencies i e fs m own)))
  | inr b ↦ rw b (In-workflow_dependencies i e fs m own)
]

check_with-Passed :
    (db : Db) (t : Task) (es : List Edge) {c : DependencyCheck}
    → check_with db t es ≡ some c
    → c.ready ≡ true
    → (e : Edge) → In e es
    → Passed db e
check_with-Passed db t [] h r = λ e m. absurd m
check_with-Passed db t (f ∷ fs) {c = c} h r = check_edges-Passed db false (f ∷ fs) {c = c} h r

-- If a task that merges nothing may start, then each of its Workflow edges has a source in the table
-- that is delivered, or that has failed over an edge that resumes.
pub check_task_dependency-Passed :
    (db : Db) (t : Task) {c : DependencyCheck}
    → t.merge_of ≡ none
    → check_task_dependency db t ≡ some c
    → c.ready ≡ true
    → (e : Edge) → In e db.edges
    → (e.task_id == t.id) ≡ true
    → Passed db e
unfolding check_task_dependency
check_task_dependency-Passed db t {c = c} plain h r e m own =
    check_with-Passed db t (workflow_dependencies t.id db.edges) {c = c} (rw plain at h) r e
      (In-workflow_dependencies t.id e db.edges m own)

-- A task with one explicit dependency, and no Workflow edge, may start exactly if that dependency is in
-- the table and delivered: a failure, a cancellation and a missing row all hold it back.
pub check_task_dependency-strong :
    (db : Db) (t : Task) (d : ℕ)
    → t.merge_of ≡ none
    → workflow_dependencies t.id db.edges ≡ []
    → t.depends_on ≡ some d
    → t.dependency_mode ≡ strong
    → (c : DependencyCheck) × (check_task_dependency db t ≡ some c)
      × ((c.ready ≡ true) ↔ ((s : Task) × (get_task d db ≡ some s) × Delivered db s))
unfolding check_task_dependency
check_task_dependency-strong db t d plain alone target mode = elim (Option-cases (get_task d db)) [
  | inl absent ↦ (
    waiting,
    rw (plain, alone, target, mode) (ground (arith, absent)),
    ((λ (r : false ≡ true). absurd (cc)), λ w. absurd (cc (absent, w.1))),
  )
  | inr (s, found) ↦ (
    strong_check (delivery_state_of db s),
    rw (plain, alone, target, mode) (ground (arith, found)),
    (
      (λ r. (s, found, (delivery_state_of_iff db s).0 (strong-ready (delivery_state_of db s) r))),
      λ w.
          strong-delivered (delivery_state_of db s)
            ((delivery_state_of_iff db s).1 (rw (some_eq (sym found ∙ w.1)) w.2)),
    ),
  )
]
  where
    strong-ready : (s : DeliveryState) → (strong_check s).ready ≡ true → s ≡ succeeded
    strong-ready succeeded r = refl
    strong-ready failed r = cc
    strong-ready pending r = cc

    strong-delivered : (s : DeliveryState) → s ≡ succeeded → (strong_check s).ready ≡ true
    strong-delivered s e = rw e
