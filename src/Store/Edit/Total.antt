-- ===== src/Store/Edit/Total.antt =====
-- The searches of `UpdateTaskAtRevision` and their fuel.
use paihuo.Prelude.{
  ℕ, ◌≡◌, ◌≢◌, refl, Bool, true, false, ◌&&◌, ◌||◌, not, Option, none, some, ◌==◌, if◌then◌else◌,
  is_some, inl, inr, Bool-cases,
}
use text.Mathlib.Text.{◌==◌ as str_eq}
use paihuo.Model.{Task}
use paihuo.Model.Words.{Mode, independent, weak, strong, task, type_is}
use paihuo.Store.Db.{Db, Error, revision_conflict, dependency_update, Result, ok, err, get_task}
use paihuo.Store.Db.Rows.{find-Fresh}
use paihuo.Store.Insert.Laws.{IsKeyed}
use paihuo.Store.Chain.{dependency_reaches, project_graph_acyclic}
use paihuo.Store.Chain.Reaches.{dependency_reaches_iff}
use paihuo.Store.Chain.Acyclic.{project_graph_acyclic_iff}
use paihuo.Store.Create.{validate_dependency_target}
use paihuo.Store.Edit.{
  Changes, checked, unless_cycle, settle_strong, settle, if_acyclic, verify, then_verify,
  write_dependency, finish, with_target, with_mode, with_project, guarded, update_task_at_revision,
  chosen_project, chosen_mode, chosen_target,
}

abbrev pub Answers {ℓ} : {A : Type ℓ} → Option A → Type ℓ
Answers {A = A} o = (r : A) × (o ≡ some r)

unless_cycle-Answers : (d : ℕ) (o : Option Bool) → Answers o → Answers (unless_cycle d o)
unless_cycle-Answers d none (b, e) = absurd (cc)
unless_cycle-Answers d (some true) a = (_, refl)
unless_cycle-Answers d (some false) a = (_, refl)

checked-Answers :
    (r : Result (Unit {0})) (go : Option (Result (Option ℕ))) → Answers go → Answers (checked r go)
checked-Answers (ok u) go a = a
checked-Answers (err e) go a = (_, refl)

verify-Answers : (project : ℕ) (db : Db) → Answers (verify project db)
unfolding verify
verify-Answers project db = elim (Bool-cases (project == 0)) [
  | inl z ↦ rw z (_, refl)
  | inr z ↦
      rw z (answer (project_graph_acyclic db project) (project_graph_acyclic_iff db project).1)
]
  where
    answer : {b : Bool} (o : Option Bool) → o ≡ some b → Answers (if_acyclic db o)
    answer none e = absurd (cc)
    answer (some false) e = (_, refl)
    answer (some true) e = (_, refl)

then_verify-Answers : (project : ℕ) (r : Result Db) → Answers (then_verify project r)
then_verify-Answers project (err e) = (_, refl)
then_verify-Answers project (ok db) = verify-Answers project db

module _ (db : Db) (i : ℕ) (k : IsKeyed db) (positive : i ≢ 0) where
  settle_strong-Answers :
      (project : ℕ) (target : Option ℕ) → Answers (settle_strong db i project target)
  unfolding settle_strong
  settle_strong-Answers project none = (_, refl)
  settle_strong-Answers project (some d) =
      checked-Answers (validate_dependency_target db project d) _ (unless (d == i))
    where
      unless :
          (own : Bool)
          → Answers (
              if own
              then some (err dependency_update)
              else unless_cycle d (dependency_reaches db d i))
      unless true = (_, refl)
      unless false =
          let (b, e, meaning) = dependency_reaches_iff db d i k positive in
          unless_cycle-Answers d (dependency_reaches db d i) (b, e)

  settle-Answers :
      (project : ℕ) (mode : Mode) (asked : Bool) (target : Option ℕ)
      → Answers (settle db i project mode asked target)
  unfolding settle
  settle-Answers project independent asked target = (_, refl)
  settle-Answers project weak asked target =
      elim (Bool-cases (project == 0 || (asked && is_some target))) [
        | inl e ↦ rw e (_, refl)
        | inr e ↦ rw e (_, refl)
      ]
  settle-Answers project strong asked target = elim (Bool-cases (project == 0)) [
    | inl e ↦ rw e (_, refl)
    | inr e ↦ rw e (settle_strong-Answers project target)
  ]
  settle-Answers project Mode.unset asked target = (_, refl)
  settle-Answers project (Mode.unknown n) asked target = (_, refl)

  module _ (now expected : ℕ) (set : Changes) (t : Task) where
    finish-Answers :
        (p : ℕ) (mode : Mode) (o : Option (Result (Option ℕ)))
        → Answers o
        → Answers (finish now i expected set p mode t db o)
    finish-Answers p mode none (r, e) = absurd (cc)
    finish-Answers p mode (some (err e)) a = (_, refl)
    finish-Answers p mode (some (ok target)) a =
        then_verify-Answers p (write_dependency now i expected set mode target t db)

    with_target-Answers :
        (p : ℕ) (mode : Mode) (r : Result (Option ℕ))
        → Answers (with_target now i expected set t db p mode r)
    with_target-Answers p mode (err e) = (_, refl)
    with_target-Answers p mode (ok target) =
        finish-Answers p mode _ (settle-Answers p mode (is_some set.depends_on) target)

    with_mode-Answers : (p : ℕ) (r : Result Mode) → Answers (with_mode now i expected set t db p r)
    with_mode-Answers p (err e) = (_, refl)
    with_mode-Answers p (ok mode) = with_target-Answers p mode (chosen_target t set.depends_on)

    with_project-Answers : (r : Result ℕ) → Answers (with_project now i expected set t db r)
    with_project-Answers (err e) = (_, refl)
    with_project-Answers (ok p) = with_mode-Answers p (chosen_mode t set.dependency_mode)

guarded-Answers :
    (now i expected : ℕ) (set : Changes) (db : Db) (o : Option Task)
    → IsKeyed db
    → get_task i db ≡ o
    → Answers (guarded now i expected set db o)
guarded-Answers now i expected set db none k e = (_, refl)
guarded-Answers now i expected set db (some t) k e =
    past revision_conflict (not (t.revision == expected)) (
      past dependency_update (is_some t.merge_of) (
        past dependency_update (not (type_is t.shape task)) (
          past dependency_update (not (str_eq t.cron "")) (
            with_project-Answers db i k there now expected set t
              (chosen_project t set.project_id)))))
  where
    there : i ≢ 0
    there z = absurd (cc (find-Fresh 0 db.tasks k.positive, rw z at e))

    past :
        (e : Error) {go : Option (Result Db)} (b : Bool)
        → Answers go
        → Answers (if b then some (err e) else go)
    past e true a = (_, refl)
    past e false a = a

-- In a keyed database `UpdateTaskAtRevision` always comes to an answer: none of its searches along the
-- dependencies runs out of fuel, whatever cycles the table holds.
pub update_task_at_revision_total :
    (now i expected : ℕ) (set : Changes) (db : Db)
    → IsKeyed db
    → (r : Result Db) × (update_task_at_revision now i expected set db ≡ some r)
unfolding update_task_at_revision
update_task_at_revision_total now i expected set db k =
    elim (Bool-cases (is_some set.dependency_mode || is_some set.depends_on)) [
      | inr plain ↦ rw plain (_, refl)
      | inl asks ↦ elim (Bool-cases (expected == 0)) [
        | inl z ↦ rw (asks, z) (_, refl)
        | inr z ↦ rw (asks, z) (guarded-Answers now i expected set db (get_task i db) k refl)
      ]
    ]
