-- ===== src/Store/Edit/Guarded.antt =====
-- What an edit that is accepted has done.
use paihuo.Prelude.{
  ℕ, ◌≡◌, ◌≢◌, refl, Bool, true, false, ◌&&◌, ◌||◌, Option, none, some, List, arith, ◌==◌, is_some,
  inl, inr, Bool-cases, ap, sym, ◌∙◌, ==→≡, ==_refl, some_eq,
}
use paihuo.Model.{Task}
use paihuo.Model.Words.{Mode}
use paihuo.Store.Db.{Db, Result, ok, err, >>=-eq-ok, require, get_task, update_one}
use paihuo.Store.Db.Rows.{find-id, KeepsId, changed, passes-parts}
use paihuo.Store.Db.Update.{update_one_flag, get_task-update_one, get_task-update_one_ne}
use paihuo.Store.Insert.{task_ref_ok}
use paihuo.Store.Insert.Laws.{IsKeyed}
use paihuo.Store.Chain.{graph_of, project_graph_acyclic}
use paihuo.Store.Chain.Walk.{Returns}
use paihuo.Store.Chain.Acyclic.{project_graph_acyclic_iff}
use paihuo.Store.Edit.{
  Value, null, number, mode_name, other, Changes, or_conflict, written_project, current_project,
  chosen_project, chosen_mode, chosen_target, settle, if_acyclic, verify, relinked, edited,
  write_dependency, then_verify, finish, with_target, with_mode, with_project, guarded,
  update_task_at_revision,
}

-- The effect of an accepted edit of task `i` at a revision: that row was at this revision and is changed;
-- no other is.
pub record Edited (i expected : ℕ) (change : Task → Task) (db db' : Db) : Type 0 where
  pub before : Task
  pub found : get_task i db ≡ some before
  pub read : before.revision ≡ expected
  pub after : get_task i db' ≡ some (change before)
  pub others : (j : ℕ) → j ≢ i → get_task j db' ≡ get_task j db

or_conflict-parts : (r : Db × Bool) {db' : Db} → or_conflict r ≡ ok db' → (r.1 ≡ true) × (r.0 ≡ db')
or_conflict-parts (db, true) h = (refl, cc)
or_conflict-parts (db, false) h = absurd (cc)

pub or_conflict-Edited :
    (i expected : ℕ) (change : Task → Task) (db : Db) {db' : Db}
    → KeepsId change
    → IsKeyed db
    → or_conflict (update_one i (λ u. u.revision == expected) change db) ≡ ok db'
    → Edited i expected change db db'
or_conflict-Edited i expected change db {db'} keeps k h =
    let (won, same) = or_conflict-parts (update_one i (λ u. u.revision == expected) change db) h in
    let (t, found, read) =
      passes-parts (λ u. u.revision == expected) (get_task i db)
        (sym (update_one_flag i (λ u. u.revision == expected) change db k.unique) ∙ won) in
    let number : t.id ≡ i = find-id i db.tasks {t = t} found in
    let seen : changed (λ u. u.id == i && u.revision == expected) change (get_task i db)
        ≡ some (change t) =
      rw (found, number, ==_refl i, read) refl in
    record {
      before = t;
      found = found;
      read = ==→≡ t.revision expected read;
      after =
          ap (λ (d : Db). get_task i d) (sym same)
          ∙ get_task-update_one i (λ u. u.revision == expected) change db i keeps
          ∙ seen;
      others = λ j ne.
          ap (λ (d : Db). get_task j d) (sym same)
          ∙ get_task-update_one_ne i (λ u. u.revision == expected) change db j keeps ne;
    }

-- The project that is written is the one whose graph is checked.
project_written :
    (projects : List ℕ) (t : Task) (v : Option Value) {p : ℕ} {q : Option ℕ}
    → chosen_project t v ≡ ok p
    → written_project projects v t ≡ ok q
    → current_project q ≡ p
unfolding chosen_project
project_written projects t none h k = ground arith
project_written projects t (some null) h k = ground arith
project_written projects t (some (number n)) h k = ground arith
project_written projects t (some (mode_name m)) h k = absurd (cc)
project_written projects t (some other) h k = absurd (cc)

verify-parts :
    (project : ℕ) (db : Db) {db' : Db}
    → verify project db ≡ some (ok db')
    → (db ≡ db') × (project ≢ 0 → project_graph_acyclic db project ≡ some true)
unfolding verify
verify-parts project db {db'} h = elim (Bool-cases (project == 0)) [
  | inl z ↦ (ground arith, λ ne. absurd (ne (==→≡ project 0 z)))
  | inr z ↦ let (e, f) = answer (project_graph_acyclic db project) (rw z at h) in (e, λ ne. f)
]
  where
    answer : (o : Option Bool) → if_acyclic db o ≡ some (ok db') → (db ≡ db') × (o ≡ some true)
    answer none k = absurd (cc)
    answer (some false) k = absurd (cc)
    answer (some true) k = (cc, refl)

-- An accepted edit of a dependency: who was edited, into what, and the graph it has left.
pub record Accepted (now i expected : ℕ) (set : Changes) (t : Task) (db db' : Db) : Type 0 where
  pub project : Option ℕ
  pub mode : Mode
  pub target : Option ℕ
  pub asked : Option ℕ
  pub mode_chosen : chosen_mode t set.dependency_mode ≡ ok mode
  pub asked_chosen : chosen_target t set.depends_on ≡ ok asked
  pub settled :
      settle db i (current_project project) mode (is_some set.depends_on) asked ≡ some (ok target)
  pub effect : Edited i expected (λ x. relinked mode target (edited now set project x)) db db'
  pub free_of_cycles :
      current_project project ≢ 0
      → (j : ℕ) → ¬ Returns (graph_of (current_project project) db'.tasks) j

acyclic_of :
    (db : Db) (p : ℕ)
    → project_graph_acyclic db p ≡ some true
    → (j : ℕ) → ¬ Returns (graph_of p db.tasks) j
acyclic_of db p h =
    let (b, answer, meaning) = project_graph_acyclic_iff db p in
    meaning.0 (some_eq (sym answer ∙ h))

module _ (now i expected : ℕ) (set : Changes) (t : Task) (db : Db) (k : IsKeyed db) where
  write-Accepted :
      (p : ℕ) (mode : Mode) (asked target : Option ℕ) {db' : Db}
      → chosen_project t set.project_id ≡ ok p
      → chosen_mode t set.dependency_mode ≡ ok mode
      → chosen_target t set.depends_on ≡ ok asked
      → settle db i p mode (is_some set.depends_on) asked ≡ some (ok target)
      → then_verify p (write_dependency now i expected set mode target t db) ≡ some (ok db')
      → Accepted now i expected set t db db'
  unfolding write_dependency
  write-Accepted p mode asked target {db'} chosen moded wished settled h =
      written (write_dependency now i expected set mode target t db) refl h
    where
      written :
          (r : Result Db)
          → write_dependency now i expected set mode target t db ≡ r
          → then_verify p r ≡ some (ok db')
          → Accepted now i expected set t db db'
      written (err e) f g = absurd (cc)
      written (ok db₁) f g =
          let (q, stored, rest) = >>=-eq-ok (written_project db.projects set.project_id t) _ f in
          let (u, known, last) = >>=-eq-ok (require (task_ref_ok db.tasks target) _) _ rest in
          let same : current_project q ≡ p =
            project_written db.projects t set.project_id {p = p} {q = q} chosen stored in
          let (end, free) = verify-parts p db₁ {db' = db'} g in
          record {
            project = q;
            mode = mode;
            target = target;
            asked = asked;
            mode_chosen = moded;
            asked_chosen = wished;
            settled = rw same settled;
            effect =
                or_conflict-Edited i expected (λ x. relinked mode target (edited now set q x)) db
                  {db' = db'} (λ x. refl) k (last ∙ ap (λ (d : Db). ok d) end);
            free_of_cycles = λ ne. rw (same, sym end) (acyclic_of db₁ p (free (rw same at ne)));
          }

  pub with_project-Accepted :
      {db' : Db}
      → with_project now i expected set t db (chosen_project t set.project_id) ≡ some (ok db')
      → Accepted now i expected set t db db'
  with_project-Accepted {db'} = projects (chosen_project t set.project_id) refl
    where
      targets :
          (p : ℕ) (mode : Mode) (asked : Option ℕ) (o : Option (Result (Option ℕ)))
          → chosen_project t set.project_id ≡ ok p
          → chosen_mode t set.dependency_mode ≡ ok mode
          → chosen_target t set.depends_on ≡ ok asked
          → settle db i p mode (is_some set.depends_on) asked ≡ o
          → finish now i expected set p mode t db o ≡ some (ok db')
          → Accepted now i expected set t db db'
      targets p mode asked none c m w s h = absurd (cc)
      targets p mode asked (some (err e)) c m w s h = absurd (cc)
      targets p mode asked (some (ok target)) c m w s h =
          write-Accepted p mode asked target {db' = db'} c m w s h

      asks :
          (p : ℕ) (mode : Mode) (r : Result (Option ℕ))
          → chosen_project t set.project_id ≡ ok p
          → chosen_mode t set.dependency_mode ≡ ok mode
          → chosen_target t set.depends_on ≡ r
          → with_target now i expected set t db p mode r ≡ some (ok db')
          → Accepted now i expected set t db db'
      asks p mode (err e) c m w h = absurd (cc)
      asks p mode (ok asked) c m w h =
          targets p mode asked (settle db i p mode (is_some set.depends_on) asked) c m w refl h

      modes :
          (p : ℕ) (r : Result Mode)
          → chosen_project t set.project_id ≡ ok p
          → chosen_mode t set.dependency_mode ≡ r
          → with_mode now i expected set t db p r ≡ some (ok db')
          → Accepted now i expected set t db db'
      modes p (err e) c m h = absurd (cc)
      modes p (ok mode) c m h = asks p mode (chosen_target t set.depends_on) c m refl h

      projects :
          (r : Result ℕ)
          → chosen_project t set.project_id ≡ r
          → with_project now i expected set t db r ≡ some (ok db')
          → Accepted now i expected set t db db'
      projects (err e) c h = absurd (cc)
      projects (ok p) c h = modes p (chosen_mode t set.dependency_mode) c refl h

guarded-Accepted :
    (now i expected : ℕ) (set : Changes) (db : Db) (o : Option Task) {db' : Db}
    → IsKeyed db
    → guarded now i expected set db o ≡ some (ok db')
    → (t : Task) × (o ≡ some t) × Accepted now i expected set t db db'
guarded-Accepted now i expected set db none {db'} k h = absurd (cc)
guarded-Accepted now i expected set db (some t) {db'} k h =
    (t, refl, with_project-Accepted now i expected set t db k {db' = db'} (ground arith))

-- When `UpdateTaskAtRevision` accepts an edit of a dependency, the task was at the revision that its
-- author had read; the row is the edited one, at the next revision, with the mode and the target that the
-- rules settle on; no other row has changed; and the project that the task is now in, if any, has no
-- cycle of dependencies.
pub update_task_at_revision-Accepted :
    (now i expected : ℕ) (set : Changes) (db : Db) {db' : Db}
    → IsKeyed db
    → is_some set.dependency_mode || is_some set.depends_on ≡ true
    → update_task_at_revision now i expected set db ≡ some (ok db')
    → (t : Task) × (get_task i db ≡ some t) × Accepted now i expected set t db db'
unfolding update_task_at_revision
update_task_at_revision-Accepted now i expected set db {db'} k asks h =
    guarded-Accepted now i expected set db (get_task i db) {db' = db'} k (ground (arith, asks))
