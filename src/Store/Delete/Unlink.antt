-- ===== src/Store/Delete/Unlink.antt =====
-- `unlinkTaskDependencies` of internal/store/task_delete.go and the dependencies on deleted tasks.
use paihuo.Prelude.{
  ℕ, suc, ◌+◌, ◌≡◌, refl, sym, ◌∙◌, ap, Bool, true, false, ◌&&◌, ◌⊎◌, Option, none, some, List, [],
  ◌∷◌, arith, ◌==◌, if◌then◌else◌, elem, In, length, inl, inr, Bool-cases, Option-cases, refers,
  All, All-map, All-In, ==→≡, ==_refl,
}
use paihuo.Model.{Task}
use paihuo.Model.Words.{Mode, mode_is, strong}
use paihuo.Store.Db.{Db, ok, err, task_dependency, update_one}
use paihuo.Store.Db.Rows.{update_rows}
use paihuo.Store.Delete.{
  set_depends_on, dependents_of, relink, and_go_on-parts, unlink_dependents,
  unlink_task_dependencies, dependency_replacement,
}
use paihuo.Store.Delete.Replace.{replacement-outside}

-- Does a task depend on a member of a list?
abbrev pub points_into : List ℕ → Option ℕ → Bool
points_into done none = false
points_into done (some d) = elem d done

-- A task that goes itself, or depends on none of `done`.
abbrev pub Clear : List ℕ → List ℕ → Task → Type 0
Clear deleting done t = (elem t.id deleting ≡ true) ⊎ (points_into done t.depends_on ≡ false)

abbrev pub names : List (ℕ × Mode) → List ℕ
names [] = []
names ((i, m) ∷ rest) = i ∷ names rest

-- The same in the midst of the work on `source`, whose dependents still to treat are `left`.
abbrev Midway : List ℕ → List ℕ → ℕ → List ℕ → Task → Type 0
Midway deleting done source left t =
    (elem t.id deleting ≡ true)
    ⊎ ((points_into done t.depends_on ≡ false) × (refers t.depends_on source ≡ true → In t.id left))

All-update_rows :
    (P Q : Task → Type 0) (p : Task → Bool) (f : Task → Task)
    → ((t : Task) → P t → Q (if p t then f t else t))
    → (ts : List Task) → All P ts
    → All Q (update_rows p f ts)
unfolding update_rows
All-update_rows P Q p f h [] a = tt
All-update_rows P Q p f h (t ∷ ts) a = (h t a.0, All-update_rows P Q p f h ts a.1)

-- A target that stays: NULL, or a task that is not deleted.
abbrev Stays : List ℕ → Option ℕ → Type 0
Stays deleting none = Unit
Stays deleting (some c) = elem c deleting ≡ false

Stays-apart :
    (deleting done : List ℕ) (target : Option ℕ)
    → ((x : ℕ) → elem x done ≡ true → elem x deleting ≡ true)
    → Stays deleting target
    → points_into done target ≡ false
Stays-apart deleting done none sub st = refl
Stays-apart deleting done (some c) sub st = ground (arith, sub c)

Stays-other :
    (deleting : List ℕ) (source : ℕ) (target : Option ℕ)
    → elem source deleting ≡ true
    → Stays deleting target
    → refers target source ≡ false
Stays-other deleting source none m st = refl
Stays-other deleting source (some c) m st = elim (Bool-cases (c == source)) [
  | inl e ↦ absurd (cc (rw (==→≡ c source e) at st, m))
  | inr e ↦ e
]

module _ (deleting done : List ℕ) (source : ℕ) (own : elem source deleting ≡ true)
    (sub : (x : ℕ) → elem x done ≡ true → elem x deleting ≡ true) where
  Midway-changed :
      (now d : ℕ) (left : List ℕ) (target : Option ℕ)
      → Stays deleting target
      → (t : Task) → Midway deleting done source (d ∷ left) t
      → Midway deleting done source left (
          if t.id == d && true
          then record t { depends_on = target; updated_at = now; revision = t.revision + 1 }
          else t)
  Midway-changed now d left target st t h = elim (Bool-cases (t.id == d && true)) [
    | inl e ↦ rw e (elim h [
      | inl gone ↦ inl gone
      | inr q ↦ inr (
        Stays-apart deleting done target sub st,
        λ r. absurd (cc (r, Stays-other deleting source target own st)),
      )
    ])
    | inr e ↦ rw e (elim h [
      | inl gone ↦ inl gone
      | inr (clear, waits) ↦
          inr (clear, λ r. elim (waits r) [ inl same ↦ absurd (ground arith) | inr m ↦ m ])
    ])
  ]

  Midway-set :
      (now d : ℕ) (left : List ℕ) (target : Option ℕ) (db : Db)
      → Stays deleting target
      → All (Midway deleting done source (d ∷ left)) db.tasks
      → All (Midway deleting done source left) (set_depends_on now d target db).tasks
  unfolding set_depends_on update_one
  Midway-set now d left target db st a =
      All-update_rows _ _ _ _ (Midway-changed now d left target st) db.tasks a

  Midway-skip :
      (d : ℕ) (left : List ℕ)
      → elem d deleting ≡ true
      → (t : Task) → Midway deleting done source (d ∷ left) t
      → Midway deleting done source left t
  Midway-skip d left gone t (inl g) = inl g
  Midway-skip d left gone t (inr (clear, waits)) = elim (Bool-cases (elem t.id deleting)) [
    | inl g ↦ inl g
    | inr g ↦
        inr (clear, λ r. elim (waits r) [ inl same ↦ absurd (cc (rw same at gone, g)) | inr m ↦ m ])
  ]

  -- One dependent, in the loop's words.
  relink-Midway :
      (now d : ℕ) (left : List ℕ) (db : Db) (r : Option (Option ℕ)) {db₁ : Db}
      → ((c : ℕ) → r ≡ some (some c) → elem c deleting ≡ false)
      → relink now d db r ≡ some (ok db₁)
      → All (Midway deleting done source (d ∷ left)) db.tasks
      → All (Midway deleting done source left) db₁.tasks
  relink-Midway now d left db r {db₁} out h a = elim (Option-cases r) [
    | inl e ↦ absurd (ground arith)
    | inr (target, e) ↦
        let same : set_depends_on now d target db ≡ db₁ = ground arith in
        rw same at (Midway-set now d left target db (stays target (λ c f. out c (e ∙ ap some f))) a)
  ]
    where
      stays :
          (target : Option ℕ)
          → ((c : ℕ) → target ≡ some c → elem c deleting ≡ false)
          → Stays deleting target
      stays none f = tt
      stays (some c) f = f c refl

  -- The whole inner loop.
  unlink_dependents-Midway :
      (now : ℕ) (left : List (ℕ × Mode)) (db : Db) {db' : Db}
      → unlink_dependents now deleting source left db ≡ some (ok db')
      → All (Midway deleting done source (names left)) db.tasks
      → All (Midway deleting done source []) db'.tasks
  unfolding unlink_dependents
  unlink_dependents-Midway now [] db {db'} h a = let e : db ≡ db' = cc in rw e at a
  unlink_dependents-Midway now ((d, mode) ∷ left) db {db'} h a =
      let (db₁, first, rest) = and_go_on-parts _ _ h in
      unlink_dependents-Midway now left db₁ {db' = db'} rest (treat db₁ first)
    where
      treat :
          (db₁ : Db)
          → (if elem d deleting
              then some (ok db)
              else if mode_is mode strong
              then some (err (task_dependency d source))
              else relink now d db
                  (dependency_replacement (suc (suc (length deleting))) deleting [] db source))
            ≡ some (ok db₁)
          → All (Midway deleting done source (names left)) db₁.tasks
      treat db₁ first = elim (Bool-cases (elem d deleting)) [
        | inl gone ↦
            let e : db ≡ db₁ = ground (arith, gone) in
            rw e at (All-map _ _ (Midway-skip d (names left) gone) db.tasks a)
        | inr stays ↦ elim (Bool-cases (mode_is mode strong)) [
          | inl s ↦ absurd (ground (arith, stays, s))
          | inr s ↦
              relink-Midway now d (names left) db
                (dependency_replacement (suc (suc (length deleting))) deleting [] db source)
                {db₁ = db₁} (λ c e. replacement-outside deleting db _ [] source {c = c} e)
                (rw (stays, s) at first) a
        ]
      ]

All-map-In :
    (P Q : Task → Type 0) (ts : List Task)
    → ((t : Task) → In t ts → P t → Q t)
    → All P ts
    → All Q ts
All-map-In P Q [] f a = tt
All-map-In P Q (t ∷ ts) f a = (f t (inl refl) a.0, All-map-In P Q ts (λ u m. f u (inr m)) a.1)

In-dependents_of :
    (source : ℕ) (t : Task) (ts : List Task)
    → In t ts
    → refers t.depends_on source ≡ true
    → In t.id (names (dependents_of source ts))
unfolding dependents_of
In-dependents_of source t [] m r = m
In-dependents_of source t (u ∷ us) (inl e) r =
    let here : refers u.depends_on source ≡ true = rw e r in
    rw here (inl (ap (λ (x : Task). x.id) e))
In-dependents_of source t (u ∷ us) (inr m) r = elim (Bool-cases (refers u.depends_on source)) [
  | inl b ↦ rw b (inr (In-dependents_of source t us m r))
  | inr b ↦ rw b (In-dependents_of source t us m r)
]

Clear-cons :
    (deleting done : List ℕ) (source : ℕ) (t : Task)
    → Midway deleting done source [] t
    → Clear deleting (source ∷ done) t
Clear-cons deleting done source t (inl gone) = inl gone
Clear-cons deleting done source t (inr (clear, waits)) =
    inr (elim (Bool-cases (refers t.depends_on source)) [
      | inl r ↦ absurd (waits r)
      | inr r ↦ apart t.depends_on clear r
    ])
  where
    apart :
        (o : Option ℕ)
        → points_into done o ≡ false
        → refers o source ≡ false
        → points_into (source ∷ done) o ≡ false
    apart none c r = refl
    apart (some d) c r = ground arith

module _ (deleting : List ℕ) where
  unlink-Clear :
      (now : ℕ) (done sources : List ℕ) (db : Db) {db' : Db}
      → ((x : ℕ) → elem x done ≡ true → elem x deleting ≡ true)
      → ((x : ℕ) → elem x sources ≡ true → elem x deleting ≡ true)
      → unlink_task_dependencies now deleting sources db ≡ some (ok db')
      → All (Clear deleting done) db.tasks
      → (done' : List ℕ) × All (Clear deleting done') db'.tasks
        × ((x : ℕ) → elem x done ≡ true → elem x done' ≡ true)
        × ((x : ℕ) → elem x sources ≡ true → elem x done' ≡ true)
  unfolding unlink_task_dependencies
  unlink-Clear now done [] db {db'} sub own h a =
      let e : db ≡ db' = cc in (done, rw e at a, (λ x m. m), λ x m. absurd (cc))
  unlink-Clear now done (source ∷ sources) db {db'} sub own h a =
      let (db₁, first, rest) = and_go_on-parts _ _ h in
      let mine : elem source deleting ≡ true = own source (ground (arith, ==_refl source)) in
      let started =
        All-map-In _ (Midway deleting done source (names (dependents_of source db.tasks))) db.tasks
          (λ t m c. begin t m c) a in
      let treated =
        unlink_dependents-Midway deleting done source mine sub now (dependents_of source db.tasks)
          db {db' = db₁} first started in
      let (done', clear, old, new) =
        unlink-Clear now (source ∷ done) sources db₁ {db' = db'} (λ x m. widen x mine m)
          (λ x m. own x (ground arith)) rest
          (All-map _ _ (Clear-cons deleting done source) db₁.tasks treated) in
      (
        done',
        clear,
        (λ x m. old x (ground arith)),
        λ x m. elim (Bool-cases (source == x)) [
          | inl e ↦ old x (ground arith)
          | inr e ↦ new x (ground arith)
        ],
      )
    where
      begin :
          (t : Task)
          → In t db.tasks
          → Clear deleting done t
          → Midway deleting done source (names (dependents_of source db.tasks)) t
      begin t m (inl gone) = inl gone
      begin t m (inr clear) = inr (clear, λ r. In-dependents_of source t db.tasks m r)

      widen :
          (x : ℕ)
          → elem source deleting ≡ true
          → elem x (source ∷ done) ≡ true
          → elem x deleting ≡ true
      widen x mine m = elim (Bool-cases (source == x)) [
        | inl e ↦ rw (sym (==→≡ source x e)) mine
        | inr e ↦ sub x (ground arith)
      ]

  -- When `unlinkTaskDependencies` succeeds, no task that stays depends on a task that is being deleted,
  -- whatever the order in which the set is run through.
  pub unlink_task_dependencies-Clear :
      (now : ℕ) (db : Db) {db' : Db}
      → unlink_task_dependencies now deleting deleting db ≡ some (ok db')
      → All (Clear deleting deleting) db'.tasks
  unlink_task_dependencies-Clear now db {db'} h =
      let (done', clear, old, new) =
        unlink-Clear now [] deleting db {db' = db'} (λ x m. absurd (cc)) (λ x m. m) h
          (All-In _ db.tasks (λ t m. inr (nothing t.depends_on))) in
      All-map _ _ (λ t c. narrow done' t new c) db'.tasks clear
    where
      nothing : (o : Option ℕ) → points_into [] o ≡ false
      nothing none = refl
      nothing (some d) = refl

      narrower :
          (done' : List ℕ) (o : Option ℕ)
          → ((x : ℕ) → elem x deleting ≡ true → elem x done' ≡ true)
          → points_into done' o ≡ false
          → points_into deleting o ≡ false
      narrower done' none new p = refl
      narrower done' (some d) new p = elim (Bool-cases (elem d deleting)) [
        | inl e ↦ absurd (cc (new d e, p))
        | inr e ↦ e
      ]

      narrow :
          (done' : List ℕ) (t : Task)
          → ((x : ℕ) → elem x deleting ≡ true → elem x done' ≡ true)
          → Clear deleting done' t
          → Clear deleting deleting t
      narrow done' t new (inl gone) = inl gone
      narrow done' t new (inr clear) = inr (narrower done' t.depends_on new clear)
