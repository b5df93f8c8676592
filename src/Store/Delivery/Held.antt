-- ===== src/Store/Delivery/Held.antt =====
-- When the gate of internal/store/task_dependency.go reports a task as blocked.
use paihuo.Prelude.{
  ℕ, Bool, true, false, ◌≡◌, refl, sym, ◌∙◌, ap, ◌↔◌, ◌⊎◌, inl, inr, Option, none, some, List, [],
  ◌∷◌, arith, Option-cases, some_eq, subst,
}
use paihuo.Model.{Task}
use paihuo.Model.Words.{Mode, strong, weak, independent}
use paihuo.Store.Db.{Db, Edge, get_task}
use paihuo.Store.Delivery.{
  DeliveryState, pending, succeeded, failed, delivery_state_of, DependencyCheck, strong_check,
  weak_check, single_check, check_single, check_edges, check_with, check_task_dependency,
  workflow_dependencies, edge_step,
}

-- The flag of an answer; an error of `GetTask` blocks nothing.
abbrev pub reports_block : Option DependencyCheck → Bool
reports_block none = false
reports_block (some c) = c.blocked

-- An edge that the loop goes past: its source is delivered, or has failed and the edge resumes.
abbrev pub GoesPast : Db → Edge → Type 0
GoesPast db e =
    (s : Task) × (get_task e.depends_on db ≡ some s)
    × ((delivery_state_of db s ≡ succeeded)
        ⊎ ((delivery_state_of db s ≡ failed) × (e.resume ≡ true)))

-- An edge that stops the loop for good: its source has failed, and the edge does not resume.
abbrev pub Stops : Db → Edge → Type 0
Stops db e =
    (s : Task) × (get_task e.depends_on db ≡ some s)
    × (delivery_state_of db s ≡ failed)
    × (e.resume ≡ false)

-- The first edge that the loop does not go past stops it for good.
abbrev pub Stopped : Db → List Edge → Type 0
Stopped db [] = ⊥
Stopped db (e ∷ es) = Stops db e ⊎ (GoesPast db e × Stopped db es)

-- The dependency `d` of a task without edges has failed, and in this mode that holds the task back.
abbrev pub HoldsBack : Db → Mode → ℕ → Type 0
HoldsBack db mode d =
    (s : Task) × (get_task d db ≡ some s)
    × (delivery_state_of db s ≡ failed)
    × ((mode ≡ strong) ⊎ ((mode ≡ weak) × (s.block_on_failure ≡ true)))

abbrev pub Refused : Db → Task → Type 0
Refused db t = (d : ℕ) × (t.depends_on ≡ some d) × HoldsBack db t.dependency_mode d

abbrev pub HeldBy : Db → Task → List Edge → Type 0
HeldBy db t [] = Refused db t
HeldBy db t (e ∷ es) = Stopped db (e ∷ es)

-- A task that merges nothing and that a failure before it holds back.
abbrev pub Held : Db → Task → Type 0
Held db t = (t.merge_of ≡ none) × HeldBy db t (workflow_dependencies t.id db.edges)

-- One step of the loop, for what is said of the rest of it.
abbrev Outcome : DeliveryState → Bool → Type 0 → Type 0
Outcome d resume Q =
    ((d ≡ failed) × (resume ≡ false)) ⊎ (((d ≡ succeeded) ⊎ ((d ≡ failed) × (resume ≡ true))) × Q)

edge_step_blocked :
    (skipped resume : Bool) (d : DeliveryState) (go : Bool → Option DependencyCheck) (Q : Type 0)
    → ((b : Bool) → (reports_block (go b) ≡ true) ↔ Q)
    → (reports_block (edge_step skipped resume d go) ≡ true) ↔ Outcome d resume Q
edge_step_blocked skipped resume succeeded go Q rest = (
  λ h. inr (inl refl, (rest skipped).0 h),
  λ o. elim o [ inl (f, g) ↦ absurd (cc f) | inr (p, q) ↦ (rest skipped).1 q ],
)
edge_step_blocked skipped true failed go Q rest = (
  λ h. inr (inr (refl, refl), (rest true).0 h),
  λ o. elim o [ inl (f, g) ↦ absurd (cc g) | inr (p, q) ↦ (rest true).1 q ],
)
edge_step_blocked skipped false failed go Q rest = (λ h. inl (refl, refl), λ o. refl)
edge_step_blocked skipped resume pending go Q rest = (
  λ h. absurd (cc h),
  λ o. elim o [
    | inl (f, g) ↦ absurd (cc f)
    | inr (inl p, q) ↦ absurd (cc p)
    | inr (inr (p, r), q) ↦ absurd (cc p)
  ],
)

module _ (db : Db) (e : Edge) (s : Task) (found : get_task e.depends_on db ≡ some s)
    (Q : Type 0) where
  Outcome-Stopped : Outcome (delivery_state_of db s) e.resume Q → Stops db e ⊎ (GoesPast db e × Q)
  Outcome-Stopped (inl (f, g)) = inl (s, found, f, g)
  Outcome-Stopped (inr (p, q)) = inr ((s, found, p), q)

  Stopped-Outcome : Stops db e ⊎ (GoesPast db e × Q) → Outcome (delivery_state_of db s) e.resume Q
  Stopped-Outcome (inl (u, at_u, f, g)) =
      inl (ap (delivery_state_of db) (some_eq (sym found ∙ at_u)) ∙ f, g)
  Stopped-Outcome (inr ((u, at_u, p), q)) = inr (
    subst (λ (d : DeliveryState). (d ≡ succeeded) ⊎ ((d ≡ failed) × (e.resume ≡ true)))
        (sym (ap (delivery_state_of db) (some_eq (sym found ∙ at_u)))) p,
    q,
  )

check_edges_step :
    (db : Db) (skipped : Bool) (e : Edge) (es : List Edge) (s : Task)
    → get_task e.depends_on db ≡ some s
    → check_edges db skipped (e ∷ es)
      ≡ edge_step skipped e.resume (delivery_state_of db s) (λ b. check_edges db b es)
unfolding check_edges
check_edges_step db skipped e es s found = rw (found, check_edges) refl

check_edges_blocked :
    (db : Db) (es : List Edge) (skipped : Bool)
    → (reports_block (check_edges db skipped es) ≡ true) ↔ Stopped db es
unfolding check_edges
check_edges_blocked db [] skipped = (λ h. absurd (cc h), λ h. absurd h)
check_edges_blocked db (e ∷ es) skipped = elim (Option-cases (get_task e.depends_on db)) [
  | inl absent ↦ (
    λ h. absurd (ground (arith, absent)),
    λ h. elim h [
      | inl (s, found, f, g) ↦ absurd (cc (absent, found))
      | inr ((s, found, p), deeper) ↦ absurd (cc (absent, found))
    ],
  )
  | inr (s, found) ↦
      let step =
        edge_step_blocked skipped e.resume (delivery_state_of db s) (λ b. check_edges db b es)
          (Stopped db es) (check_edges_blocked db es) in
      let same = ap reports_block (check_edges_step db skipped e es s found) in
      (
        λ h. Outcome-Stopped db e s found (Stopped db es) (step.0 (sym same ∙ h)),
        λ h. same ∙ step.1 (Stopped-Outcome db e s found (Stopped db es) h),
      )
]

-- A dependency without edges.
strong_blocked : (d : DeliveryState) → ((strong_check d).blocked ≡ true) ↔ (d ≡ failed)
strong_blocked succeeded = (λ h. absurd (cc h), λ h. absurd (cc h))
strong_blocked failed = (λ h. refl, λ h. refl)
strong_blocked pending = (λ h. absurd (cc h), λ h. absurd (cc h))

weak_blocked :
    (block : Bool) (d : DeliveryState)
    → ((weak_check block d).blocked ≡ true) ↔ ((d ≡ failed) × (block ≡ true))
weak_blocked block succeeded = (λ h. absurd (cc h), λ h. absurd (cc (h.0)))
weak_blocked true failed = (λ h. (refl, refl), λ h. refl)
weak_blocked false failed = (λ h. absurd (cc h), λ h. absurd (cc (h.1)))
weak_blocked block pending = (λ h. absurd (cc h), λ h. absurd (cc (h.0)))

single_blocked :
    (db : Db) (mode : Mode) (d : ℕ)
    → ((single_check db mode d).blocked ≡ true) ↔ HoldsBack db mode d
single_blocked db strong d = elim (Option-cases (get_task d db)) [
  | inl absent ↦
      (λ h. absurd (ground (arith, absent)), λ (s, found, f, g). absurd (cc (absent, found)))
  | inr (s, found) ↦ (
    λ h. (
      s,
      found,
      (strong_blocked (delivery_state_of db s)).0 (rw (found, single_check) at h),
      inl refl,
    ),
    λ (u, at_u, f, g).
        rw (found, single_check)
          ((strong_blocked (delivery_state_of db s)).1
            (ap (delivery_state_of db) (some_eq (sym found ∙ at_u)) ∙ f)),
  )
]
single_blocked db weak d = elim (Option-cases (get_task d db)) [
  | inl absent ↦
      (λ h. absurd (ground (arith, absent)), λ (s, found, f, g). absurd (cc (absent, found)))
  | inr (s, found) ↦ (
    λ h.
        let (f, b) =
          (weak_blocked s.block_on_failure (delivery_state_of db s)).0
            (rw (found, single_check) at h) in
        (s, found, f, inr (refl, b)),
    λ (u, at_u, f, g).
        let same : s ≡ u = some_eq (sym found ∙ at_u) in
        let blocks : u.block_on_failure ≡ true = elim g [
          | inl e ↦ absurd (cc e)
          | inr (e, b) ↦ b
        ] in
        rw (found, single_check)
          ((weak_blocked s.block_on_failure (delivery_state_of db s)).1 (
            ap (delivery_state_of db) same ∙ f,
            ap (λ (x : Task). x.block_on_failure) same ∙ blocks,
          )),
  )
]
single_blocked db independent d = (
  λ h. absurd (cc h),
  λ (s, found, f, g). elim g [ inl e ↦ absurd (cc e) | inr (e, b) ↦ absurd (cc e) ],
)
single_blocked db Mode.unset d = (
  λ h. absurd (cc h),
  λ (s, found, f, g). elim g [ inl e ↦ absurd (cc e) | inr (e, b) ↦ absurd (cc e) ],
)
single_blocked db (Mode.unknown n) d = (
  λ h. absurd (cc h),
  λ (s, found, f, g). elim g [ inl e ↦ absurd (cc e) | inr (e, b) ↦ absurd (cc e) ],
)

check_single_blocked :
    (db : Db) (t : Task) (o : Option ℕ)
    → ((check_single db t o).blocked ≡ true)
      ↔ ((d : ℕ) × (o ≡ some d) × HoldsBack db t.dependency_mode d)
check_single_blocked db t none = (λ h. absurd (cc h), λ (d, e, rest). absurd (cc e))
check_single_blocked db t (some d) = (
  λ h. (d, refl, (single_blocked db t.dependency_mode d).0 h),
  λ (d', e, rest).
      (single_blocked db t.dependency_mode d).1
        (subst (HoldsBack db t.dependency_mode) (sym (some_eq e)) rest),
)

check_with_blocked :
    (db : Db) (t : Task) (es : List Edge)
    → (reports_block (check_with db t es) ≡ true) ↔ HeldBy db t es
check_with_blocked db t [] = check_single_blocked db t t.depends_on
check_with_blocked db t (e ∷ es) = check_edges_blocked db (e ∷ es) false

-- The gate reports a task as blocked exactly if it is held back.
pub check_task_dependency-Held :
    (db : Db) (t : Task) → (reports_block (check_task_dependency db t) ≡ true) ↔ Held db t
unfolding check_task_dependency
check_task_dependency-Held db t = by t.merge_of refl
  where
    by :
        (o : Option ℕ)
        → t.merge_of ≡ o
        → (reports_block (check_task_dependency db t) ≡ true) ↔ Held db t
    by none e = (
      λ h. (e, (check_with_blocked db t (workflow_dependencies t.id db.edges)).0 (rw e at h)),
      λ h. rw e ((check_with_blocked db t (workflow_dependencies t.id db.edges)).1 h.1),
    )
    by (some i) e = (λ h. absurd (ground (arith, e)), λ h. absurd (cc (h.0, e)))
