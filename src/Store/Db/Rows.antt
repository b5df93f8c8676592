-- ===== src/Store/Db/Rows.antt =====
-- SQL statements over the rows of a table, as functions on lists, and their laws.
use paihuo.Prelude.{
  length, In, ap, ℕ, suc, ◌≡◌, refl, ◌≢◌, Bool, true, false, ◌&&◌, ◌||◌, Option, none, some, List,
  [], ◌∷◌, arith, ◌==◌, if◌then◌else◌, Bool-cases, inl, inr, ==→≡,
}
use paihuo.Model.{Task}

-- `SELECT … WHERE id=?`.
unfoldable pub find : ℕ → List Task → Option Task
find i [] = none
find i (t ∷ ts) = if t.id == i then some t else find i ts

-- `SELECT … WHERE` a condition, of the first such row.
unfoldable pub find_where : (Task → Bool) → List Task → Option Task
find_where p [] = none
find_where p (t ∷ ts) = if p t then some t else find_where p ts

-- `SELECT EXISTS(SELECT 1 FROM tasks WHERE …)`.
unfoldable pub exists_row : (Task → Bool) → List Task → Bool
exists_row p [] = false
exists_row p (t ∷ ts) = p t || exists_row p ts

-- `UPDATE tasks SET … WHERE …`.
unfoldable pub update_rows : (Task → Bool) → (Task → Task) → List Task → List Task
update_rows p f [] = []
update_rows p f (t ∷ ts) = (if p t then f t else t) ∷ update_rows p f ts

-- `RowsAffected` of that statement.
unfoldable pub count_rows : (Task → Bool) → List Task → ℕ
count_rows p [] = 0
count_rows p (t ∷ ts) = let rest = count_rows p ts in if p t then suc rest else rest

-- `DELETE FROM tasks WHERE …`.
unfoldable pub delete_rows : (Task → Bool) → List Task → List Task
delete_rows p [] = []
delete_rows p (t ∷ ts) = let rest = delete_rows p ts in if p t then rest else t ∷ rest

-- The primary key: no row of the list has the id `i`; all ids differ.
abbrev pub Fresh : ℕ → List Task → Type 0
Fresh i [] = Unit
Fresh i (t ∷ ts) = (t.id ≢ i) × Fresh i ts

abbrev pub UniqueIds : List Task → Type 0
UniqueIds [] = Unit
UniqueIds (t ∷ ts) = Fresh t.id ts × UniqueIds ts

-- What an UPDATE does to the row that a query finds.
abbrev pub changed : (Task → Bool) → (Task → Task) → Option Task → Option Task
changed p f none = none
changed p f (some t) = some (if p t then f t else t)

abbrev pub KeepsId : (Task → Task) → Type 0
KeepsId f = (t : Task) → (f t).id ≡ t.id

pub find-update_rows :
    (p : Task → Bool) (f : Task → Task) (k : KeepsId f) (j : ℕ) (ts : List Task)
    → find j (update_rows p f ts) ≡ changed p f (find j ts)
unfolding find update_rows
find-update_rows p f k j [] = refl
find-update_rows p f k j (t ∷ ts) = ground (arith, k t, find-update_rows p f k j ts)

pub find-id : (j : ℕ) (ts : List Task) {t : Task} → find j ts ≡ some t → t.id ≡ j
unfolding find
find-id j [] h = cc
find-id j (t ∷ ts) {t = u} h = ground (arith, find-id j ts {t = u})

pub Fresh-update_rows :
    (p : Task → Bool) (f : Task → Task) (k : KeepsId f) (i : ℕ) (ts : List Task)
    → Fresh i ts
    → Fresh i (update_rows p f ts)
unfolding update_rows
Fresh-update_rows p f k i [] h = tt
Fresh-update_rows p f k i (t ∷ ts) h = (ground (arith, k t), Fresh-update_rows p f k i ts h.1)

pub UniqueIds-update_rows :
    (p : Task → Bool) (f : Task → Task) (k : KeepsId f) (ts : List Task)
    → UniqueIds ts
    → UniqueIds (update_rows p f ts)
unfolding update_rows
UniqueIds-update_rows p f k [] h = tt
UniqueIds-update_rows p f k (t ∷ ts) h = elim (Bool-cases (p t)) [
  | inl e ↦ rw (e, k t) (Fresh-update_rows p f k t.id ts h.0, UniqueIds-update_rows p f k ts h.1)
  | inr e ↦ rw e (Fresh-update_rows p f k t.id ts h.0, UniqueIds-update_rows p f k ts h.1)
]

pub count_rows-Fresh :
    (q : Task → Bool) (i : ℕ) (ts : List Task)
    → Fresh i ts
    → count_rows (λ t. t.id == i && q t) ts ≡ 0
unfolding count_rows
count_rows-Fresh q i [] h = refl
count_rows-Fresh q i (t ∷ ts) h = ground (arith, count_rows-Fresh q i ts)

abbrev pub passes : (Task → Bool) → Option Task → Bool
passes q none = false
passes q (some t) = q t

pub passes-parts :
    (q : Task → Bool) (o : Option Task)
    → passes q o ≡ true
    → (t : Task) × (o ≡ some t) × (q t ≡ true)
passes-parts q none h = cc
passes-parts q (some t) h = (t, refl, h)

-- With a primary key, a statement `WHERE id=i AND …` changes one row, or none.
pub count_rows_at :
    (q : Task → Bool) (i : ℕ) (ts : List Task)
    → UniqueIds ts
    → count_rows (λ t. t.id == i && q t) ts ≡ (if passes q (find i ts) then 1 else 0)
unfolding count_rows find
count_rows_at q i [] h = refl
count_rows_at q i (t ∷ ts) h =
    ground (arith, count_rows_at q i ts, count_rows-Fresh q i ts, ==→≡ t.id i)

pub find-Fresh : (i : ℕ) (ts : List Task) → Fresh i ts → find i ts ≡ none
unfolding find
find-Fresh i [] h = refl
find-Fresh i (t ∷ ts) h = ground (arith, find-Fresh i ts)

-- The ids of the rows.
abbrev pub ids_of : List Task → List ℕ
ids_of [] = []
ids_of (t ∷ ts) = t.id ∷ ids_of ts

pub length-ids_of : (ts : List Task) → length (ids_of ts) ≡ length ts
length-ids_of [] = refl
length-ids_of (t ∷ ts) = ap suc (length-ids_of ts)

pub In-ids_of : (i : ℕ) (ts : List Task) {t : Task} → find i ts ≡ some t → In i (ids_of ts)
unfolding find
In-ids_of i [] h = cc
In-ids_of i (t ∷ ts) {t = u} h = elim (Bool-cases (t.id == i)) [
  | inl e ↦ inl (==→≡ t.id i e)
  | inr e ↦ inr (In-ids_of i ts {t = u} (ground arith))
]
