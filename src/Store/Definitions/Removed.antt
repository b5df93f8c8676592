-- ===== src/Store/Definitions/Removed.antt =====
-- What is left after a workflow definition is deleted.
use paihuo.Prelude.{
  ℕ, ◌≡◌, ◌≢◌, refl, ◌∙◌, ap, Bool, true, false, ◌&&◌, not, Option, none, some, List, [], ◌∷◌,
  arith, ◌==◌, In, inl, inr, any, keep, Bool-cases, ==→≡, subst,
}
use paihuo.Model.{Task}
use paihuo.Model.Words.{workflow, type_is}
use paihuo.Store.Db.{runs_active, ok, require, ◌>>◌, >>=-eq-ok, get_task}
use paihuo.Store.Db.Rows.{
  find, find_where, update_rows, delete_rows, changed, find-update_rows, Fresh, UniqueIds,
  Fresh-update_rows, find-Fresh,
}
use paihuo.Store.Insert.Laws.{IsKeyed}
use paihuo.Store.Workflows.{Run, Base}
use paihuo.Store.Definitions.{
  in_runs, active_run, unlink_runs, delete_runs, delete_definition, definition_at, check_revision,
  delete_workflow_task,
}

-- The row of a task that belonged to a run of the workflow.
abbrev pub unlinked : ℕ → Task → Task
unlinked now t = record t { workflow_run_id = none; updated_at = now }

-- The rows after the UPDATE that unlinks the tasks.
abbrev free_rows : ℕ → ℕ → List Run → List Task → List Task
free_rows now i runs ts = update_rows (in_runs i runs) (unlinked now) ts

in_runs-unlinked :
    (now i : ℕ) (t : Task) (runs : List Run) → in_runs i runs (unlinked now t) ≡ false
in_runs-unlinked now i t [] = refl
in_runs-unlinked now i t (r ∷ rs) = ground (arith, in_runs-unlinked now i t rs)

-- No task is left for the cascade.
delete_rows-free_rows :
    (now i : ℕ) (runs : List Run) (ts : List Task)
    → delete_rows (in_runs i runs) (free_rows now i runs ts) ≡ free_rows now i runs ts
unfolding delete_rows update_rows
delete_rows-free_rows now i runs [] = refl
delete_rows-free_rows now i runs (t ∷ ts) = elim (Bool-cases (in_runs i runs t)) [
  | inl e ↦
      rw (e, in_runs-unlinked now i t runs)
        (ap (λ (us : List Task). unlinked now t ∷ us) (delete_rows-free_rows now i runs ts))
  | inr e ↦ rw (e, e) (ap (λ (us : List Task). t ∷ us) (delete_rows-free_rows now i runs ts))
]

find-delete_rows :
    (p : Task → Bool) (j : ℕ) (ts : List Task)
    → ((t : Task) → (t.id == j) ≡ true → p t ≡ false)
    → find j (delete_rows p ts) ≡ find j ts
unfolding find delete_rows
find-delete_rows p j [] h = refl
find-delete_rows p j (t ∷ ts) h = ground (arith, h t, find-delete_rows p j ts h)

Fresh-delete_rows :
    (p : Task → Bool) (i : ℕ) (ts : List Task) → Fresh i ts → Fresh i (delete_rows p ts)
unfolding delete_rows
Fresh-delete_rows p i [] h = tt
Fresh-delete_rows p i (t ∷ ts) h = elim (Bool-cases (p t)) [
  | inl e ↦ rw e (Fresh-delete_rows p i ts h.1)
  | inr e ↦ rw e (h.0, Fresh-delete_rows p i ts h.1)
]

abbrev is_definition : ℕ → Task → Bool
is_definition i t = t.id == i && type_is t.shape workflow

find_where-Fresh : (i : ℕ) (ts : List Task) → Fresh i ts → find_where (is_definition i) ts ≡ none
unfolding find_where
find_where-Fresh i [] h = refl
find_where-Fresh i (t ∷ ts) h = ground (arith, find_where-Fresh i ts)

-- The definition that the first query found is deleted by the last statement.
definition-gone :
    (now i expected : ℕ) (runs : List Run) (ts : List Task) {d : Task}
    → UniqueIds ts
    → find_where (is_definition i) ts ≡ some d
    → (d.revision == expected) ≡ true
    → find i (delete_rows (definition_at i expected) (free_rows now i runs ts)) ≡ none
unfolding find_where delete_rows update_rows find
definition-gone now i expected runs [] u e r = absurd (cc)
definition-gone now i expected runs (t ∷ ts) {d = d} u e r = elim (Bool-cases (t.id == i)) [
  | inr ne ↦
      let e' : find_where (is_definition i) ts ≡ some d = ground arith in
      let ih = definition-gone now i expected runs ts {d = d} u.1 e' r in
      elim (Bool-cases (in_runs i runs t)) [ inl q ↦ ground arith | inr q ↦ ground arith ]
  | inl same ↦
      let fresh : Fresh i ts = subst (λ j. Fresh j ts) (==→≡ t.id i same) u.0 in
      let rest : find i (delete_rows (definition_at i expected) (free_rows now i runs ts)) ≡ none =
        find-Fresh i _ (
          Fresh-delete_rows (definition_at i expected) i _
            (Fresh-update_rows (in_runs i runs) (unlinked now) (λ v. refl) i ts fresh)) in
      let none_left = find_where-Fresh i ts fresh in
      elim (Bool-cases (in_runs i runs t)) [ inl q ↦ ground arith | inr q ↦ ground arith ]
]

In-keep : (p : Run → Bool) (r : Run) (rs : List Run) → In r (keep p rs) → p r ≡ true
In-keep p r [] h = absurd h
In-keep p r (s ∷ ss) h = elim (Bool-cases (p s)) [
  | inl e ↦ let h' : In r (s ∷ keep p ss) = rw e at h in split e h' (In-keep p r ss)
  | inr e ↦ let h' : In r (keep p ss) = rw e at h in In-keep p r ss h'
]
  where
    split : p s ≡ true → In r (s ∷ keep p ss) → (In r (keep p ss) → p r ≡ true) → p r ≡ true
    split e (inl q) rec = subst (λ z. p z ≡ true) q e
    split e (inr k) rec = rec k

pub record Removed (now i : ℕ) (b b' : Base) : Type 0 where
  pub idle : any (active_run i) b.runs ≡ false
  pub runs : (r : Run) → In r b'.runs → r.workflow_id ≢ i
  pub gone : get_task i b'.db ≡ none
  pub kept :
      (j : ℕ)
      → j ≢ i
      → get_task j b'.db ≡ changed (in_runs i b.runs) (unlinked now) (get_task j b.db)

check_revision-parts :
    (expected : ℕ) (o : Option Task)
    → check_revision expected o ≡ ok tt
    → (d : Task) × (o ≡ some d) × ((d.revision == expected) ≡ true)
check_revision-parts expected none h = absurd (cc)
check_revision-parts expected (some d) h = (d, refl, ground arith)

delete_definition-rows :
    (i expected : ℕ) (b b' : Base)
    → delete_definition i expected b ≡ ok b'
    → (b'.runs ≡ b.runs) × (b'.db.tasks ≡ delete_rows (definition_at i expected) b.db.tasks)
unfolding delete_definition
delete_definition-rows i expected b b' h = ground arith

-- Where `DeleteWorkflowTask` succeeds, no run of the definition was created or running, and afterwards the
-- definition is gone and no run of it is left, while every other task stays: those of its runs lose the
-- link to the run, so that the cascade of the runs does not take them, and the others are as they were.
pub delete_workflow_task-Removed :
    (now i expected : ℕ) (b b' : Base)
    → IsKeyed b.db
    → delete_workflow_task now i expected b ≡ ok b'
    → Removed now i b b'
unfolding delete_workflow_task delete_runs unlink_runs
delete_workflow_task-Removed now i expected b b' k h =
    let (u, found, h₁) =
      >>=-eq-ok (check_revision expected (find_where (is_definition i) b.db.tasks))
        (λ (v : Unit {0}).
          require (not (any (active_run i) b.runs)) runs_active
          >> delete_definition i expected (delete_runs i (unlink_runs now i b)))
        h in
    let (u', idle, h₂) =
      >>=-eq-ok (require (not (any (active_run i) b.runs)) runs_active)
        (λ (v : Unit {0}). delete_definition i expected (delete_runs i (unlink_runs now i b))) h₁ in
    let (d, row, rev) = check_revision-parts expected _ found in
    let (runs, rows) = delete_definition-rows i expected _ b' h₂ in
    let tasks : b'.db.tasks
        ≡ delete_rows (definition_at i expected) (free_rows now i b.runs b.db.tasks) =
      rows
      ∙ ap (delete_rows (definition_at i expected))
          (delete_rows-free_rows now i b.runs b.db.tasks) in
    record {
      idle = ground arith;
      runs = λ r m.
          let passed = In-keep (λ s. not (s.workflow_id == i)) r b.runs (subst (In r) runs m) in
          ground arith;
      gone =
          ap (find i) tasks
          ∙ definition-gone now i expected b.runs b.db.tasks {d = d} k.unique row rev;
      kept = λ j ne.
          ap (find j) tasks
          ∙ (find-delete_rows (definition_at i expected) j _ (λ t e. ground arith)
              ∙ find-update_rows (in_runs i b.runs) (unlinked now) (λ t. refl) j b.db.tasks);
    }
