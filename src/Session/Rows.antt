-- ===== src/Session/Rows.antt =====
-- What the writes of a session's status in internal/session/manager.go do to the number of the sessions
-- that are active.
use paihuo.Prelude.{
  ℕ, suc, ◌+◌, ◌≡◌, refl, subst, Bool, true, ◌&&◌, Option, none, some, List, [], ◌∷◌, arith, ◌==◌,
  if◌then◌else◌, refers, ==→≡, Bool-cases, inl, inr,
}
use paihuo.Model.{Task, Role}
use paihuo.Model.Words.{active, status_is, session, type_is}
use paihuo.Store.Db.{Db, get_task, update_one}
use paihuo.Store.Db.Rows.{find, count_rows, update_rows, Fresh, UniqueIds}
use paihuo.Store.Order.{update_task, stamped}
use paihuo.Session.{Manager, write_status, load_session, as_session}
use paihuo.Store.Roles.{find_role}

abbrev pub one_if : Bool → ℕ
one_if b = if b then 1 else 0

-- The sessions of a role that are active, which is when they are to hold one of its slots.
abbrev pub is_holder : ℕ → Task → Bool
is_holder r t = type_is t.shape session && (status_is t.status active && refers t.role_id r)

abbrev pub holders : Db → ℕ → ℕ
holders db r = count_rows (is_holder r) db.tasks

update_rows-Fresh :
    (i : ℕ) (f : Task → Task) (ts : List Task)
    → Fresh i ts
    → update_rows (λ t. t.id == i && true) f ts ≡ ts
unfolding update_rows
update_rows-Fresh i f [] h = refl
update_rows-Fresh i f (t ∷ ts) h = ground (arith, update_rows-Fresh i f ts h.1, ==→≡ t.id i)

-- With a primary key, a write changes the count of the rows of one kind by the one row that it changes.
pub count_rows-update_rows :
    (q : Task → Bool) (i : ℕ) (f : Task → Task) (ts : List Task) {t : Task}
    → UniqueIds ts
    → find i ts ≡ some t
    → count_rows q (update_rows (λ u. u.id == i && true) f ts) + one_if (q t)
      ≡ count_rows q ts + one_if (q (f t))
unfolding count_rows update_rows find
count_rows-update_rows q i f [] h e = cc
count_rows-update_rows q i f (u ∷ us) {t = t} h e = elim (Bool-cases (u.id == i)) [
  | inl same ↦
      subst
        (λ (x : Task).
          count_rows q (update_rows (λ u. u.id == i && true) f (u ∷ us)) + one_if (q x)
          ≡ count_rows q (u ∷ us) + one_if (q (f x)))
        (found u us same e)
        (rw (same, update_rows-Fresh i f us (subst (λ k. Fresh k us) (==→≡ u.id i same) h.0))
          (by (q u) (q (f u)) (count_rows q us)))
  | inr other ↦ ground (arith, count_rows-update_rows q i f us {t = t} h.1)
]
  where
    by :
        (a b : Bool) (n : ℕ)
        → (if b then suc n else n) + one_if a ≡ (if a then suc n else n) + one_if b
    by a b n = ground arith

    found : (u : Task) (us : List Task) → u.id == i ≡ true → find i (u ∷ us) ≡ some t → u ≡ t
    found u us same e = ground arith

pub write_status-written :
    (now i : ℕ) (f : Task → Task) (db : Db)
    → write_status true now i f db
      ≡ some (record db { tasks = update_rows (λ u. u.id == i && true) (stamped now f) db.tasks })
unfolding write_status update_task update_one
write_status-written now i f db = refl

pub holders-update :
    (now i : ℕ) (f : Task → Task) (db : Db) {t : Task}
    → UniqueIds db.tasks
    → get_task i db ≡ some t
    → (r : ℕ)
    → holders
          (record db { tasks = update_rows (λ u. u.id == i && true) (stamped now f) db.tasks })
          r
        + one_if (is_holder r t)
      ≡ holders db r + one_if (is_holder r (stamped now f t))
holders-update now i f db {t = t} unique e r =
    count_rows-update_rows (is_holder r) i (stamped now f) db.tasks {t = t} unique e

pub load_session-parts :
    (i : ℕ) (m : Manager) {t : Task}
    → load_session i m ≡ some t
    → (get_task i m.world.db ≡ some t) × (type_is t.shape session ≡ true)
unfolding load_session
load_session-parts i m {t = t} h = by (get_task i m.world.db) h
  where
    by : (o : Option Task) → as_session o ≡ some t → (o ≡ some t) × (type_is t.shape session ≡ true)
    by none h = cc
    by (some u) h = ground arith

pub find_role-id : (i : ℕ) (rs : List Role) {a : Role} → find_role i rs ≡ some a → a.id ≡ i
unfolding find_role
find_role-id i [] h = cc
find_role-id i (r ∷ rs) {a = a} h = ground (arith, ==→≡ r.id i, find_role-id i rs {a = a})
