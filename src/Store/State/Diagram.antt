-- ===== src/Store/State/Diagram.antt =====
-- The status diagram of the conditional updates, and runs of them in any order.
use paihuo.Prelude.{
  ℕ, zero, suc, ◌+◌, ◌≡◌, refl, Bool, true, ◌&&◌, Option, none, some, List, [], ◌∷◌, arith, ◌==◌,
  Bool-cases, inl, inr, &&→fst, &&→snd,
}
use paihuo.Model.{Task}
use paihuo.Model.Words.{
  Status, queued, claimed, running, awaiting_review, succeeded, failed, cancelled, status_is,
}
use paihuo.Store.Db.{Db, get_task, update_one}
use paihuo.Store.Db.Rows.{find-update_rows, KeepsId, changed}
use paihuo.Store.State.{
  claim_task, start_task, resume_task, mark_task_succeeded_awaiting_merge, complete_source,
  deliver_source, approve_source, approve_task_deliver, is_executing, is_terminal,
}

-- The edges that the code takes.
infix 40 ◌⟶◌
pub data ◌⟶◌ : Status → Status → Type 0 where
  claim : queued ⟶ claimed
  start : claimed ⟶ running
  finish_claimed : claimed ⟶ succeeded
  finish : running ⟶ succeeded
  deliver : queued ⟶ succeeded
  approve : awaiting_review ⟶ succeeded
  resume_succeeded : succeeded ⟶ queued
  resume_failed : failed ⟶ queued
  resume_cancelled : cancelled ⟶ queued

ruleset edges = (
  claim, start, finish_claimed, finish, deliver, approve, resume_succeeded, resume_failed,
  resume_cancelled,
)

-- The operations, with the time and the arguments of each call.
pub data Op : Type 0 where
  claiming starting marking completing delivering : ℕ → ℕ → Op
  resuming approving skipping : ℕ → ℕ → ℕ → Op

unfoldable pub apply : Op → Db → Db × Bool
apply (claiming now i) = claim_task now i
apply (starting now i) = start_task now i
apply (marking now i) = mark_task_succeeded_awaiting_merge now i
apply (completing now i) = complete_source now i
apply (delivering now i) = deliver_source now i
apply (resuming now i r) = resume_task now i r
apply (approving now i r) = approve_source now i r
apply (skipping now i r) = approve_task_deliver now i r

-- Any interleaving of calls, by any number of callers.
unfoldable pub apply_all : List Op → Db → Db
apply_all [] db = db
apply_all (op ∷ ops) db = apply_all ops (apply op db).0

-- A row either stays as it is, or takes one edge and one revision.
pub data Moved (t : Task) (u : Task) : Type 0 where
  stayed : u ≡ t → Moved t u
  moved : t.status ⟶ u.status → u.revision ≡ t.revision + 1 → u.id ≡ t.id → Moved t u

abbrev pub MovedRow : Option Task → Option Task → Type 0
MovedRow none none = Unit
MovedRow none (some u) = ⊥
MovedRow (some t) none = ⊥
MovedRow (some t) (some u) = Moved t u

module _ (test : Task → Bool) (change : Task → Task) (keeps : KeepsId change)
    (edge : (t : Task) → test t ≡ true → t.status ⟶ (change t).status)
    (bumps : (t : Task) → (change t).revision ≡ t.revision + 1) where
  changed-Moved :
      (i : ℕ) (r : Option Task) → MovedRow r (changed (λ t. t.id == i && test t) change r)
  changed-Moved i none = tt
  changed-Moved i (some t) = elim (Bool-cases (t.id == i && test t)) [
    | inl e ↦ rw e (moved (edge t (&&→snd (t.id == i) (test t) e)) (bumps t) (keeps t))
    | inr e ↦ rw e (stayed refl)
  ]

  update_one-Moved :
      (i j : ℕ) (db : Db) → MovedRow (get_task j db) (get_task j (update_one i test change db).0)
  unfolding update_one
  update_one-Moved i j db =
      rw (find-update_rows (λ t. t.id == i && test t) change keeps j db.tasks)
        (changed-Moved i (get_task j db))

claim_edge : (s : Status) → status_is s queued ≡ true → s ⟶ claimed
claim_edge queued h = claim
claim_edge _ h = absurd (ground arith)

start_edge : (s : Status) → status_is s claimed ≡ true → s ⟶ running
start_edge claimed h = start
start_edge _ h = absurd (ground arith)

finish_edge : (s : Status) → is_executing s ≡ true → s ⟶ succeeded
finish_edge claimed h = finish_claimed
finish_edge running h = finish
finish_edge _ h = absurd (ground arith)

deliver_edge : (s : Status) → status_is s queued ≡ true → s ⟶ succeeded
deliver_edge queued h = deliver
deliver_edge _ h = absurd (ground arith)

approve_edge : (s : Status) → status_is s awaiting_review ≡ true → s ⟶ succeeded
approve_edge awaiting_review h = approve
approve_edge _ h = absurd (ground arith)

resume_edge : (s : Status) → is_terminal s ≡ true → s ⟶ queued
resume_edge succeeded h = resume_succeeded
resume_edge failed h = resume_failed
resume_edge cancelled h = resume_cancelled
resume_edge _ h = absurd (ground arith)

apply-Moved : (op : Op) (j : ℕ) (db : Db) → MovedRow (get_task j db) (get_task j (apply op db).0)
unfolding apply claim_task start_task resume_task mark_task_succeeded_awaiting_merge complete_source
    deliver_source approve_source approve_task_deliver
apply-Moved (claiming now i) j db =
    update_one-Moved _ _ (λ t. refl) (λ t h. claim_edge _ h) (λ t. refl) i j db
apply-Moved (starting now i) j db =
    update_one-Moved _ _ (λ t. refl) (λ t h. start_edge _ h) (λ t. refl) i j db
apply-Moved (marking now i) j db =
    update_one-Moved _ _ (λ t. refl) (λ t h. finish_edge _ (&&→fst _ _ h)) (λ t. refl) i j db
apply-Moved (completing now i) j db =
    update_one-Moved _ _ (λ t. refl) (λ t h. finish_edge _ (&&→fst _ _ h)) (λ t. refl) i j db
apply-Moved (delivering now i) j db =
    update_one-Moved _ _ (λ t. refl) (λ t h. deliver_edge _ (&&→fst _ _ h)) (λ t. refl) i j db
apply-Moved (resuming now i r) j db =
    update_one-Moved _ _ (λ t. refl) (λ t h. resume_edge _ (&&→snd _ _ h)) (λ t. refl) i j db
apply-Moved (approving now i r) j db =
    update_one-Moved _ _ (λ t. refl) (λ t h. approve_edge _ (&&→fst _ _ (&&→snd _ _ h))) (λ t. refl)
      i j db
apply-Moved (skipping now i r) j db =
    update_one-Moved _ _ (λ t. refl) (λ t h. approve_edge _ (&&→snd _ _ h)) (λ t. refl) i j db

-- `n` edges lead from one status to another.
pub data Steps : ℕ → Status → Status → Type 0 where
  here : {s : Status} → Steps zero s s
  step : {n : ℕ} {s t u : Status} → s ⟶ t → Steps n t u → Steps (suc n) s u

-- A row's history: it is still there, its status followed the diagram, one edge for each revision.
abbrev pub Followed : Option Task → Option Task → Type 0
Followed none r = r ≡ none
Followed (some t) r =
    (u : Task) × (n : ℕ) × (r ≡ some u) × Steps n t.status u.status × (u.revision ≡ t.revision + n)

Followed-cons : (r s q : Option Task) → MovedRow r s → Followed s q → Followed r q
Followed-cons none none q m f = f
Followed-cons none (some u) q m f = absurd m
Followed-cons (some t) none q m f = absurd m
Followed-cons (some t) (some u) q (stayed e) f = rw e at f
Followed-cons (some t) (some u) q (moved edge more same) (v, n, e, steps, rev) =
    (v, suc n, e, step edge steps, omega arith)

Followed-refl : (r : Option Task) → Followed r r
Followed-refl none = refl
Followed-refl (some t) = (t, zero, refl, here, omega arith)

-- Whatever conditional updates run, in whatever order, by however many callers, a task's status only
-- follows edges of the diagram, its revision counts the edges taken, and no row appears or is lost.
pub apply_all-Followed :
    (ops : List Op) (db : Db) (j : ℕ) → Followed (get_task j db) (get_task j (apply_all ops db))
unfolding apply_all
apply_all-Followed [] db j = Followed-refl (get_task j db)
apply_all-Followed (op ∷ ops) db j =
    Followed-cons (get_task j db) (get_task j (apply op db).0) _ (apply-Moved op j db)
      (apply_all-Followed ops (apply op db).0 j)
