-- ===== src/Store/Insert/Laws.antt =====
-- What a query finds after an INSERT, where the ids are a primary key below the AUTOINCREMENT counter.
use paihuo.Prelude.{
  ℕ, suc, ◌≤◌, ◌≡◌, refl, ◌≢◌, Bool, false, none, some, List, [], ◌∷◌, ◌++◌, arith, ◌==◌,
  if◌then◌else◌, ap, ◌∙◌, ==_refl,
}
use paihuo.Model.{Task}
use paihuo.Store.Db.{Db, ok, get_task, update_one}
use paihuo.Store.Db.Rows.{
  find, find_where, exists_row, Fresh, UniqueIds, KeepsId, update_rows, UniqueIds-update_rows,
  Fresh-update_rows,
}
use paihuo.Store.Insert.{insert_row, appended, stored, clashes}

abbrev pub Below : ℕ → List Task → Type 0
Below n [] = Unit
Below n (t ∷ ts) = (t.id ≤ n) × Below n ts

-- The ids are a primary key, positive, and none is above the counter.
pub record IsKeyed (db : Db) : Type 0 where
  pub unique : UniqueIds db.tasks
  pub below : Below db.last_id db.tasks
  pub positive : Fresh 0 db.tasks

find-append :
    (j : ℕ) (ts : List Task) (r : Task)
    → find j (ts ++ (r ∷ []))
      ≡ elim (find j ts) [ some t ↦ some t | none ↦ if r.id == j then some r else none ]
unfolding find
find-append j [] r = refl
find-append j (t ∷ ts) r = ground (arith, find-append j ts r)

pub find_where-append :
    (p : Task → Bool) (ts : List Task) (r : Task)
    → find_where p (ts ++ (r ∷ []))
      ≡ elim (find_where p ts) [ some t ↦ some t | none ↦ if p r then some r else none ]
unfolding find_where
find_where-append p [] r = refl
find_where-append p (t ∷ ts) r = ground (arith, find_where-append p ts r)

find_above : (n : ℕ) (ts : List Task) → Below n ts → find (suc n) ts ≡ none
unfolding find
find_above n [] h = refl
find_above n (t ∷ ts) h = ground (arith, find_above n ts)

Below-append :
    (n : ℕ) (ts : List Task) (r : Task) → Below n ts → r.id ≡ suc n → Below (suc n) (ts ++ (r ∷ []))
Below-append n [] r h e = (omega arith, tt)
Below-append n (t ∷ ts) r h e = (omega arith, Below-append n ts r h.1 e)

Fresh-append :
    (i : ℕ) (ts : List Task) (r : Task) → Fresh i ts → r.id ≢ i → Fresh i (ts ++ (r ∷ []))
Fresh-append i [] r h e = (e, tt)
Fresh-append i (t ∷ ts) r h e = (h.0, Fresh-append i ts r h.1 e)

Unique-append :
    (n : ℕ) (ts : List Task) (r : Task)
    → UniqueIds ts
    → Below n ts
    → r.id ≡ suc n
    → UniqueIds (ts ++ (r ∷ []))
Unique-append n [] r u h e = (tt, tt)
Unique-append n (t ∷ ts) r u h e =
    (Fresh-append t.id ts r u.0 (omega arith), Unique-append n ts r u.1 h.1 e)

module _ (db : Db) (t : Task) {db' : Db} {n : ℕ} (h : insert_row db t ≡ ok (db', n)) where
  pub insert_row-appended : (db' ≡ appended db t) × (n ≡ suc db.last_id)
  unfolding insert_row
  insert_row-appended = ground arith

  pub insert_row-tasks : db'.tasks ≡ db.tasks ++ (stored n t ∷ [])
  unfolding appended
  insert_row-tasks = rw (insert_row-appended.0, insert_row-appended.1)

  pub insert_row_unique : exists_row (clashes t) db.tasks ≡ false
  unfolding insert_row
  insert_row_unique = ground arith

  pub find-insert_row_before : IsKeyed db → get_task n db ≡ none
  find-insert_row_before k =
      ap (λ i. find i db.tasks) insert_row-appended.1 ∙ find_above db.last_id db.tasks k.below

  pub find-insert_row : IsKeyed db → get_task n db' ≡ some (stored n t)
  find-insert_row k =
      rw (insert_row-tasks, find-append n db.tasks (stored n t))
        (rw (find-insert_row_before k) (rw (==_refl n)))

  pub find-insert_row_ne : (j : ℕ) → j ≢ n → get_task j db' ≡ get_task j db
  find-insert_row_ne j ne =
      rw (insert_row-tasks, find-append j db.tasks (stored n t)) (ground arith)

  pub insert_row-IsKeyed : IsKeyed db → IsKeyed db'
  unfolding appended
  insert_row-IsKeyed k = rw insert_row-appended.0 (record {
    unique = Unique-append db.last_id db.tasks (stored (suc db.last_id) t) k.unique k.below refl;
    below = Below-append db.last_id db.tasks (stored (suc db.last_id) t) k.below refl;
    positive = Fresh-append 0 db.tasks (stored (suc db.last_id) t) k.positive (omega arith);
  })

Below-update_rows :
    (p : Task → Bool) (f : Task → Task) (k : KeepsId f) (n : ℕ) (ts : List Task)
    → Below n ts
    → Below n (update_rows p f ts)
unfolding update_rows
Below-update_rows p f k n [] h = tt
Below-update_rows p f k n (t ∷ ts) h = (ground (arith, k t), Below-update_rows p f k n ts h.1)

-- An UPDATE keeps the primary key and its bound.
pub update_one-IsKeyed :
    (i : ℕ) (test : Task → Bool) (change : Task → Task) (db : Db)
    → KeepsId change
    → IsKeyed db
    → IsKeyed (update_one i test change db).0
unfolding update_one
update_one-IsKeyed i test change db keeps k = record {
  unique = UniqueIds-update_rows _ change keeps db.tasks k.unique;
  below = Below-update_rows _ change keeps db.last_id db.tasks k.below;
  positive = Fresh-update_rows _ change keeps 0 db.tasks k.positive;
}
