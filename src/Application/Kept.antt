-- ===== src/Application/Kept.antt =====
-- What the row of a new task keeps of what was asked for, through internal/application/task_lifecycle.go and
-- internal/store/task_create.go.
use paihuo.Prelude.{
  ℕ, ◌≡◌, ◌≢◌, refl, sym, ap, subst, ◌∙◌, Bool, true, false, ◌&&◌, ◌||◌, not, Option, none, some,
  arith, if-cases, is_some, some-eq,
}
use text.Mathlib.Text.{◌==◌ as str_eq}
use paihuo.Model.{Task}
use paihuo.Model.Words.{queued, Mode, independent, weak, strong, mode_is}
use paihuo.Store.Db.{Db, invalid_dependency, Result, ok, err, ◌>>=◌, >>=-eq-ok, get_task}
use paihuo.Store.Insert.{insert_row, stored}
use paihuo.Store.Insert.Laws.{IsKeyed, find-insert_row, find-insert_row_ne}
use paihuo.Store.Create.{
  normalize_dependency_mode, valid_dependency_mode, outside_chain, with_defaults,
  prepare_task_for_insert, insert_task, placed_in, assign_next_task_sort_order,
  validate_dependency_target, check_strong, resolve_by_mode, resolve_in, resolve_normal,
  resolve_new_task_dependency, weak_by_default, create_task_with_project_dependency,
}
use paihuo.Application.{
  positive_target, when, after, Env, CreateTaskRequest, by_mode, default_mode, normalize_dependency,
  default_perm, perm_ok, default_run, run_ok, project_ok, role_ok, requested, reread, inserted,
  create,
}

-- The permission, the status and the owner of two rows are the same.
pub record Kept (t u : Task) : Type 0 where
  pub perm : u.perm ≡ t.perm
  pub status : u.status ≡ t.status
  pub owner : u.parent_session_id ≡ t.parent_session_id

pub Kept-refl : (t : Task) → Kept t t
Kept-refl t = record { perm = refl; status = refl; owner = refl }

Kept-trans : {t u v : Task} → Kept t u → Kept u v → Kept t v
Kept-trans a b = record {
  perm = b.perm ∙ a.perm;
  status = b.status ∙ a.status;
  owner = b.owner ∙ a.owner;
}

weak_by_default-Kept : (t : Task) → Kept t (weak_by_default t)
weak_by_default-Kept t = record { perm = ground arith; status = ground arith; owner = ground arith }

normalize_dependency_mode-Kept : (t : Task) → Kept t (normalize_dependency_mode t)
unfolding normalize_dependency_mode
normalize_dependency_mode-Kept t = record {
  perm = ground arith;
  status = ground arith;
  owner = ground arith;
}

with_defaults-Kept : (now : ℕ) (t : Task) → Kept t (with_defaults now t)
with_defaults-Kept now t = record { perm = refl; status = refl; owner = refl }

outside_chain-Kept : (t : Task) → Kept t (outside_chain t)
outside_chain-Kept t = record { perm = ground arith; status = ground arith; owner = ground arith }

prepare_task_for_insert-Kept : (now : ℕ) (t : Task) → Kept t (prepare_task_for_insert now t)
unfolding prepare_task_for_insert
prepare_task_for_insert-Kept now t =
    Kept-trans (Kept-trans (with_defaults-Kept now t) (outside_chain-Kept (with_defaults now t)))
      (normalize_dependency_mode-Kept (outside_chain (with_defaults now t)))

assign_next_task_sort_order-Kept : (db : Db) (t : Task) → Kept t (assign_next_task_sort_order db t)
unfolding assign_next_task_sort_order
assign_next_task_sort_order-Kept db t = by t.project_id
  where
    by : (o : Option ℕ) → Kept t (placed_in db t o)
    by none = Kept-refl t
    by (some p) = record { perm = ground arith; status = ground arith; owner = ground arith }

-- Of results.
abbrev AllKept : Task → Result Task → Type 0
AllKept t (ok u) = Kept t u
AllKept t (err e) = Unit

resolve_by_mode-Kept :
    (db : Db) (project : ℕ) (t : Task) (mode : Mode) → AllKept t (resolve_by_mode db project t mode)
resolve_by_mode-Kept db project t independent = record { perm = refl; status = refl; owner = refl }
resolve_by_mode-Kept db project t strong = by t.depends_on
  where
    checked : (r : Result (Unit {0})) → AllKept t (r >>= λ (u : Unit {0}). ok t)
    checked (ok u) = Kept-refl t
    checked (err e) = tt

    by : (o : Option ℕ) → AllKept t (check_strong db project t o)
    by none = tt
    by (some d) = checked (validate_dependency_target db project d)
resolve_by_mode-Kept db project t weak = record { perm = refl; status = refl; owner = refl }
resolve_by_mode-Kept db project t _ = tt

resolve_in-Kept : (db : Db) (t : Task) (o : Option ℕ) → AllKept t (resolve_in db t o)
resolve_in-Kept db t none =
    if-cases (AllKept t) (is_some t.depends_on || not (mode_is t.dependency_mode independent))
      {x = err invalid_dependency} {y = ok t} (λ e. tt) (λ e. Kept-refl t)
resolve_in-Kept db t (some project) = resolve_by_mode-Kept db project t t.dependency_mode

resolve_normal-Kept : (db : Db) (t : Task) → AllKept t (resolve_normal db t)
resolve_normal-Kept db t =
    if-cases (AllKept t) (valid_dependency_mode t.dependency_mode)
      {x = resolve_in db t t.project_id} {y = err invalid_dependency}
      (λ e. resolve_in-Kept db t t.project_id) (λ e. tt)

resolve_new_task_dependency-Kept :
    (db : Db) (t : Task) {u : Task} → resolve_new_task_dependency db t ≡ ok u → Kept t u
unfolding resolve_new_task_dependency
resolve_new_task_dependency-Kept db t {u = u} h = subst (AllKept t) h (
    if-cases (AllKept t) (is_some t.merge_of)
      {x = ok (record t { depends_on = none; dependency_mode = independent })}
      {y = resolve_normal db (normalize_dependency_mode t)}
      (λ e. record { perm = refl; status = refl; owner = refl })
      (λ e.
        normal (resolve_normal db (normalize_dependency_mode t))
          (resolve_normal-Kept db (normalize_dependency_mode t))))
  where
    normal : (r : Result Task) → AllKept (normalize_dependency_mode t) r → AllKept t r
    normal (ok v) k = Kept-trans (normalize_dependency_mode-Kept t) k
    normal (err e) k = tt

abbrev written : Task → Task
written v = record v { error = ""; tmux_log_offset = 0; started_at = none }

written-Kept : (n : ℕ) (v : Task) → Kept v (stored n (written v))
written-Kept n v = record { perm = refl; status = refl; owner = refl }

-- What is asked of the dependency resolution.
abbrev placed_row : ℕ → Db → Task → Task
placed_row now db t =
    assign_next_task_sort_order db (prepare_task_for_insert now (weak_by_default t))

placed_row-Kept : (now : ℕ) (db : Db) (t : Task) → Kept t (placed_row now db t)
placed_row-Kept now db t =
    Kept-trans
      (Kept-trans (weak_by_default-Kept t) (prepare_task_for_insert-Kept now (weak_by_default t)))
      (assign_next_task_sort_order-Kept db (prepare_task_for_insert now (weak_by_default t)))

-- A row that was created is there, is of what was asked for, and is the only row that is new.
pub create_task_with_project_dependency-Kept :
    (now : ℕ) (t : Task) (db : Db) {db' : Db} {n : ℕ}
    → IsKeyed db
    → create_task_with_project_dependency now t db ≡ ok (db', n)
    → (u : Task) × (get_task n db' ≡ some u)
      × Kept t u
      × ((j : ℕ) → j ≢ n → get_task j db' ≡ get_task j db)
unfolding create_task_with_project_dependency insert_task
create_task_with_project_dependency-Kept now t db {db' = db'} {n = n} keyed h =
    let (v, resolved, inserts) =
      >>=-eq-ok (resolve_new_task_dependency db (placed_row now db t))
        (λ w. insert_row db (written w)) h in
    made v resolved inserts
  where
    made :
        (v : Task)
        → resolve_new_task_dependency db (placed_row now db t) ≡ ok v
        → insert_row db (written v) ≡ ok (db', n)
        → (u : Task) × (get_task n db' ≡ some u)
          × Kept t u
          × ((j : ℕ) → j ≢ n → get_task j db' ≡ get_task j db)
    made v e f = (
      stored n (written v),
      find-insert_row db (written v) {db' = db'} {n = n} f keyed,
      Kept-trans
          (Kept-trans (placed_row-Kept now db t)
            (resolve_new_task_dependency-Kept db (placed_row now db t) e))
          (written-Kept n v),
      λ j ne. find-insert_row_ne db (written v) {db' = db'} {n = n} f j ne,
    )

module _ {ℓ} {A : Type ℓ} where
  pub when-parts : (b : Bool) (o : Option A) {x : A} → when b o ≡ some x → (b ≡ true) × (o ≡ some x)
  when-parts true o h = (refl, h)
  when-parts false o h = cc

  pub after-parts {κ} :
      {B : Type κ} (o : Option B) (next : B → Option A) {x : A}
      → after o next ≡ some x
      → (b : B) × (o ≡ some b) × (next b ≡ some x)
  after-parts none next h = cc
  after-parts (some b) next h = (b, refl, h)

normalize_dependency-Kept : (t : Task) {u : Task} → normalize_dependency t ≡ some u → Kept t u
unfolding normalize_dependency
normalize_dependency-Kept t {u = u} h = by (default_mode t.project_id t.dependency_mode) h
  where
    kept : (v : Task) → Kept t v → some v ≡ some u → Kept t u
    kept v k e = subst (Kept t) (some-eq e) k

    by : (mode : Mode) → by_mode t mode ≡ some u → Kept t u
    by independent e =
        kept (record t { dependency_mode = independent; depends_on = none })
          (record { perm = refl; status = refl; owner = refl }) e
    by weak e =
        kept (record t { dependency_mode = weak; depends_on = none })
          (record { perm = refl; status = refl; owner = refl })
          (when-parts (is_some t.project_id)
            (some (record t { dependency_mode = weak; depends_on = none })) e).1
    by strong e =
        kept (record t { dependency_mode = strong })
          (record { perm = refl; status = refl; owner = refl })
          (when-parts (is_some t.project_id && positive_target t.depends_on)
            (some (record t { dependency_mode = strong })) e).1
    by _ e = cc

-- A task that `Create` has made: a queued row with the permission that was asked for (`full` by default)
-- and the owner that was asked for, and no other row is touched.
pub create-Kept :
    (env : Env) (now : ℕ) (q : CreateTaskRequest) (db : Db) {db' : Db} {u : Task}
    → IsKeyed db
    → create env now q db ≡ some (db', u)
    → (n : ℕ) × (get_task n db' ≡ some u)
      × (u.perm ≡ default_perm q.permission)
      × (u.status ≡ queued)
      × (u.parent_session_id ≡ q.parent_session_id)
      × ((j : ℕ) → j ≢ n → get_task j db' ≡ get_task j db)
unfolding create requested
create-Kept env now q db {db' = db'} {u = u} keyed h =
    let h1 = (when-parts (not (str_eq (env.trim q.title) "")) _ h).1 in
    let h2 = (when-parts (perm_ok (default_perm q.permission)) _ h1).1 in
    let h3 = (when-parts (run_ok (default_run q.run_mode)) _ h2).1 in
    let h4 = (when-parts (project_ok db q.project_id) _ h3).1 in
    let h5 = (when-parts (role_ok env q db q.role_id) _ h4).1 in
    let (t, normal, h6) =
      after-parts (normalize_dependency (requested env q))
        (λ t. inserted (create_task_with_project_dependency now t db)) h5 in
    made t (normalize_dependency-Kept (requested env q) normal)
      (create_task_with_project_dependency now t db) refl h6
  where
    Made : Type 0
    Made =
        (n : ℕ) × (get_task n db' ≡ some u)
        × (u.perm ≡ default_perm q.permission)
        × (u.status ≡ queued)
        × (u.parent_session_id ≡ q.parent_session_id)
        × ((j : ℕ) → j ≢ n → get_task j db' ≡ get_task j db)

    made :
        (t : Task)
        → Kept (requested env q) t
        → (r : Result (Db × ℕ)) → create_task_with_project_dependency now t db ≡ r
        → inserted r ≡ some (db', u)
        → Made
    made t k (err e) f g = cc
    made t k (ok (db2, n)) f g =
        let (v, at, kv, others) =
          create_task_with_project_dependency-Kept now t db {db' = db2} {n = n} keyed f in
        subst
          (λ (p : Db × Task).
            (n : ℕ) × (get_task n p.0 ≡ some p.1)
            × (p.1.perm ≡ default_perm q.permission)
            × (p.1.status ≡ queued)
            × (p.1.parent_session_id ≡ q.parent_session_id)
            × ((j : ℕ) → j ≢ n → get_task j p.0 ≡ get_task j db))
          (some-eq (ap (reread db2) (sym at) ∙ g))
          (n, at, kv.perm ∙ k.perm, kv.status ∙ k.status, kv.owner ∙ k.owner, others)
