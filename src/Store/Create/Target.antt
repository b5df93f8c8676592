-- ===== src/Store/Create/Target.antt =====
-- `resolveNewTaskDependency`: which tasks a new one may be made to wait for.
use paihuo.Prelude.{
  ℕ, ◌≡◌, refl, Bool, true, false, ◌&&◌, Option, none, some, List, [], ◌∷◌, arith, if◌then◌else◌,
  In, inl, inr, Bool-cases, is_some, refers,
}
use text.Mathlib.Text.{◌==◌ as str_eq}
use paihuo.Model.{Task}
use paihuo.Model.Words.{Mode, independent, weak, strong, mode_is, task, type_is}
use paihuo.Store.Db.{Db, ok, >>=-eq-ok, get_task}
use paihuo.Store.Create.{
  normalize_dependency_mode, implements, is_target, check_target, validate_dependency_target,
  comes_later, later_of, last_in_project, id_of, check_strong, resolve_by_mode, resolve_in,
  resolve_normal, resolve_new_task_dependency,
}

-- An implementation task of the project that is no definition of a schedule.
abbrev pub in_order : ℕ → Task → Bool
in_order project t = implements project t && str_eq t.cron ""

-- What the query for the predecessor answers: NULL if the project has no such task, else the task that no
-- other comes after.
abbrev pub Last : ℕ → List Task → Option Task → Type 0
Last project ts none = (u : Task) → In u ts → in_order project u ≡ false
Last project ts (some s) =
    In s ts
    × (in_order project s ≡ true)
    × ((u : Task) → In u ts → in_order project u ≡ true → comes_later u s ≡ false)

later_trans :
    (a b c : Task) → comes_later a b ≡ true → comes_later c b ≡ false → comes_later c a ≡ false
later_trans a b c h k = ground arith

later_irrefl : (a : Task) → comes_later a a ≡ false
later_irrefl a = ground arith

pub last_in_project-Last :
    (project : ℕ) (ts : List Task) → Last project ts (last_in_project project ts)
unfolding last_in_project
last_in_project-Last project [] = λ u m. absurd m
last_in_project-Last project (t ∷ ts) =
    extend (last_in_project project ts) (last_in_project-Last project ts)
  where
    out :
        (r : Option Task) → in_order project t ≡ false → Last project ts r → Last project (t ∷ ts) r
    out none e l = none_of
      where
        none_of : (u : Task) → In u (t ∷ ts) → in_order project u ≡ false
        none_of u (inl same) = rw same at e
        none_of u (inr m) = l u m
    out (some s) e (m, i, top) = (inr m, i, above)
      where
        above : (u : Task) → In u (t ∷ ts) → in_order project u ≡ true → comes_later u s ≡ false
        above u (inl same) j =
            let e' : in_order project u ≡ false = rw same at e in absurd (cc (e', j))
        above u (inr n) j = top u n j

    alone : in_order project t ≡ true → Last project ts none → Last project (t ∷ ts) (some t)
    alone e l = (inl refl, e, above)
      where
        above : (u : Task) → In u (t ∷ ts) → in_order project u ≡ true → comes_later u t ≡ false
        above u (inl same) j = rw same (later_irrefl u)
        above u (inr n) j = absurd (cc (l u n, j))

    first :
        (s : Task)
        → in_order project t ≡ true
        → comes_later t s ≡ true
        → Last project ts (some s)
        → Last project (t ∷ ts) (some t)
    first s e c (m, i, top) = (inl refl, e, above)
      where
        above : (u : Task) → In u (t ∷ ts) → in_order project u ≡ true → comes_later u t ≡ false
        above u (inl same) j = rw same (later_irrefl u)
        above u (inr n) j = later_trans t s u c (top u n j)

    second :
        (s : Task)
        → comes_later t s ≡ false
        → Last project ts (some s)
        → Last project (t ∷ ts) (some s)
    second s c (m, i, top) = (inr m, i, above)
      where
        above : (u : Task) → In u (t ∷ ts) → in_order project u ≡ true → comes_later u s ≡ false
        above u (inl same) j = rw same at c
        above u (inr n) j = top u n j

    extend :
        (r : Option Task)
        → Last project ts r
        → Last project (t ∷ ts) (if in_order project t then some (later_of t r) else r)
    extend r l = elim (Bool-cases (in_order project t)) [
      | inr e ↦ rw e (out r e l)
      | inl e ↦ rw e (inside r e l)
    ]
      where
        inside :
            (r : Option Task)
            → in_order project t ≡ true
            → Last project ts r
            → Last project (t ∷ ts) (some (later_of t r))
        inside none e l = alone e l
        inside (some s) e l = pick (comes_later t s) refl
          where
            pick :
                (b : Bool) → comes_later t s ≡ b → Last project (t ∷ ts) (some (if b then t else s))
            pick true c = first s e c l
            pick false c = second s c l

-- An implementation task of the project that a task may name as its dependency.
pub record IsTarget (project : ℕ) (s : Task) : Type 0 where
  pub shape : type_is s.shape task ≡ true
  pub no_cron : str_eq s.cron "" ≡ true
  pub no_merge : s.merge_of ≡ none
  pub of_project : s.project_id ≡ some project

-- The dependency that a new task is stored with.
pub data Resolved (db : Db) (r : Task) : Type 0 where
  free : r.depends_on ≡ none → r.dependency_mode ≡ independent → Resolved db r
  explicit :
      (project d : ℕ) (s : Task)
      → r.dependency_mode ≡ strong
      → r.project_id ≡ some project
      → r.depends_on ≡ some d
      → get_task d db ≡ some s
      → IsTarget project s
      → Resolved db r
  automatic :
      (project : ℕ)
      → r.dependency_mode ≡ weak
      → r.project_id ≡ some project
      → (o : Option Task) → Last project db.tasks o
      → r.depends_on ≡ id_of o
      → Resolved db r

is_target-IsTarget : (project : ℕ) (s : Task) → is_target project s ≡ true → IsTarget project s
is_target-IsTarget project s h = record {
  shape = ground arith;
  no_cron = ground arith;
  no_merge = ground arith;
  of_project = refers_some s.project_id (ground arith);
}
  where
    refers_some : (o : Option ℕ) → refers o project ≡ true → o ≡ some project
    refers_some none k = absurd (cc k)
    refers_some (some j) k = ground arith

check_target-parts :
    (project : ℕ) (o : Option Task) {u : Unit {0}}
    → check_target project o ≡ ok u
    → (s : Task) × (o ≡ some s) × (is_target project s ≡ true)
check_target-parts project none h = cc
check_target-parts project (some s) h = (s, refl, ground arith)

validate_dependency_target-parts :
    (db : Db) (project d : ℕ) {u : Unit {0}}
    → validate_dependency_target db project d ≡ ok u
    → (s : Task) × (get_task d db ≡ some s) × (is_target project s ≡ true)
unfolding validate_dependency_target
validate_dependency_target-parts db project d {u} h =
    let e : check_target project (get_task d db) ≡ ok u = ground arith in
    check_target-parts project (get_task d db) e

resolve_by_mode-Resolved :
    (db : Db) (project : ℕ) (t : Task) (mode : Mode) {r : Task}
    → t.dependency_mode ≡ mode
    → t.project_id ≡ some project
    → resolve_by_mode db project t mode ≡ ok r
    → Resolved db r
resolve_by_mode-Resolved db project t independent e p h = free (ground arith) (ground arith)
resolve_by_mode-Resolved db project t weak {r} e p h =
    let same : record t { depends_on = id_of (last_in_project project db.tasks) } ≡ r = cc in
    let a : Resolved db (record t { depends_on = id_of (last_in_project project db.tasks) }) =
      automatic project e p (last_in_project project db.tasks)
        (last_in_project-Last project db.tasks) refl in
    rw same at a
resolve_by_mode-Resolved db project t strong {r} e p h = target t.depends_on refl h
  where
    target : (o : Option ℕ) → t.depends_on ≡ o → check_strong db project t o ≡ ok r → Resolved db r
    target none f k = absurd (cc)
    target (some d) f k =
        let (u, valid, same) = >>=-eq-ok (validate_dependency_target db project d) _ k in
        let (s, found, fits) = validate_dependency_target-parts db project d valid in
        let equal : t ≡ r = cc in
        let a : Resolved db t =
          explicit project d s e p f found (is_target-IsTarget project s fits) in
        rw equal at a
resolve_by_mode-Resolved db project t Mode.unset e p h = absurd (cc)
resolve_by_mode-Resolved db project t (Mode.unknown n) e p h = absurd (cc)

only_independent : (mode : Mode) → mode_is mode independent ≡ true → mode ≡ independent
only_independent independent h = refl
only_independent _ h = ground arith

resolve_in-Resolved :
    (db : Db) (t : Task) (o : Option ℕ) {r : Task}
    → t.project_id ≡ o
    → resolve_in db t o ≡ ok r
    → Resolved db r
resolve_in-Resolved db t none e h =
    let mode : t.dependency_mode ≡ independent =
      only_independent t.dependency_mode (ground arith) in
    free (ground arith) (ground arith)
resolve_in-Resolved db t (some project) {r} e h =
    resolve_by_mode-Resolved db project t t.dependency_mode {r = r} refl e h

-- A new task is stored as independent with no dependency, or with a strong one on an implementation task of its own
-- project that is in the table and no definition of a schedule, or with the weak one on the last
-- implementation task of its project, if there is one.
pub resolve_new_task_dependency-Resolved :
    (db : Db) (t : Task) {r : Task} → resolve_new_task_dependency db t ≡ ok r → Resolved db r
unfolding resolve_new_task_dependency
resolve_new_task_dependency-Resolved db t {r} h = elim (Bool-cases (is_some t.merge_of)) [
  | inl e ↦ free (ground (arith, e)) (ground (arith, e))
  | inr e ↦
      let k : resolve_normal db (normalize_dependency_mode t) ≡ ok r = ground (arith, e) in
      let m : resolve_in db (normalize_dependency_mode t) (normalize_dependency_mode t).project_id
          ≡ ok r =
        ground arith in
      resolve_in-Resolved db (normalize_dependency_mode t) _ {r = r} refl m
]
