-- ===== src/Store/Order/Exact.antt =====
-- The request of `ReorderProjectTasks` and the rows that it has to name.
use paihuo.Prelude.{
  ℕ, suc, ◌≤◌, ◌≡◌, ◌↔◌, refl, true, false, ◌&&◌, some, List, [], ◌∷◌, arith, ◌==◌, if◌then◌else◌,
  In, elem, length, inl, inr, Bool-cases, ap, sym, ◌∙◌, ==→≡, ==_refl, ◌⊎◌,
}
use text.Mathlib.Text.{◌==◌ as str_eq}
use paihuo.Model.{Task}
use paihuo.Model.Words.{queued, status_is}
use paihuo.Store.Db.{Db, ok}
use paihuo.Store.Create.{implements}
use paihuo.Store.Edit.{insert_in_order, project_order}
use paihuo.Store.Order.{movable, queued_ids, fits, reorder_project_tasks}

abbrev remove : ℕ → List ℕ → List ℕ
remove x [] = []
remove x (y ∷ ys) = let rest = remove x ys in if y == x then ys else y ∷ rest

elem-remove :
    (z x : ℕ) (ys : List ℕ) → elem z ys ≡ true → (x == z) ≡ false → elem z (remove x ys) ≡ true
elem-remove z x [] h ne = absurd (cc)
elem-remove z x (y ∷ ys) h ne = ground (arith, elem-remove z x ys)

length-remove : (x : ℕ) (ys : List ℕ) → elem x ys ≡ true → length ys ≡ suc (length (remove x ys))
length-remove x [] h = absurd (cc)
length-remove x (y ∷ ys) h = ground (arith, length-remove x ys)

-- Names that are all different fit only into a list that is as long.
fits-length :
    (eligible seen xs ys : List ℕ)
    → fits eligible seen xs ≡ true
    → ((z : ℕ) → elem z xs ≡ true → elem z seen ≡ false → elem z ys ≡ true)
    → length xs ≤ length ys
unfolding fits
fits-length eligible seen [] ys h into = omega arith
fits-length eligible seen (x ∷ xs) ys h into =
    let fresh : elem x seen ≡ false = ground arith in
    let here : elem x ys ≡ true = into x (ground (arith, ==_refl x)) fresh in
    let rest : fits eligible (x ∷ seen) xs ≡ true = ground arith in
    omega (
      arith,
      length-remove x ys here,
      fits-length eligible (x ∷ seen) xs (remove x ys) rest (λ z m out. inside z m out),
    )
  where
    inside : (z : ℕ) → elem z xs ≡ true → elem z (x ∷ seen) ≡ false → elem z (remove x ys) ≡ true
    inside z m out = elem-remove z x ys (into z (ground arith) (ground arith)) (ground arith)

fits-eligible :
    (eligible seen xs : List ℕ) (z : ℕ)
    → fits eligible seen xs ≡ true
    → elem z xs ≡ true
    → elem z eligible ≡ true
unfolding fits
fits-eligible eligible seen [] z h m = absurd (cc)
fits-eligible eligible seen (x ∷ xs) z h m = ground (arith, fits-eligible eligible (x ∷ seen) xs z)

fits-all :
    (eligible xs : List ℕ) (z : ℕ)
    → fits eligible [] xs ≡ true
    → length xs ≡ length eligible
    → elem z eligible ≡ true
    → elem z xs ≡ true
fits-all eligible xs z h same m = elim (Bool-cases (elem z xs)) [
  | inl e ↦ e
  | inr e ↦ absurd (
      omega (
        arith,
        same,
        length-remove z eligible m,
        fits-length eligible [] xs (remove z eligible) h (λ y n o. others y n e),
      ))
]
  where
    others : (y : ℕ) → elem y xs ≡ true → elem z xs ≡ false → elem y (remove z eligible) ≡ true
    others y n e =
        elem-remove y z eligible (fits-eligible eligible [] xs y h n) (apart (Bool-cases (z == y)))
      where
        apart : ((z == y) ≡ true) ⊎ ((z == y) ≡ false) → (z == y) ≡ false
        apart (inr f) = f
        apart (inl f) = absurd (cc (rw (==→≡ z y f) at e, n))

-- The rows that a request has to name.
abbrev pub Waits : ℕ → List Task → ℕ → Type 0
Waits project ts x =
    (t : Task) × In t ts × (t.id ≡ x) × (movable project t ≡ true) × (str_eq t.cron "" ≡ true)

insert_in_order-elem :
    (t : Task) (us : List Task) (x : ℕ)
    → elem x (queued_ids (insert_in_order t us)) ≡ elem x (queued_ids (t ∷ us))
unfolding insert_in_order
insert_in_order-elem t [] x = refl
insert_in_order-elem t (u ∷ us) x = ground (arith, insert_in_order-elem t us x)

later :
    (project : ℕ) (t : Task) (ts : List Task) (x : ℕ)
    → Waits project ts x
    → Waits project (t ∷ ts) x
later project t ts x (u, m, e, i, c) = (u, inr m, e, i, c)

-- One more row in the table.
module _ (project : ℕ) (t : Task) (ts us : List Task) (x : ℕ)
    (rest : (elem x (queued_ids us) ≡ true) ↔ Waits project ts x) where
  first_row :
      implements project t ≡ true
      → str_eq t.cron "" ≡ true
      → elem x (queued_ids (t ∷ us)) ≡ true
      → Waits project (t ∷ ts) x
  first_row i c h = elim (Bool-cases (status_is t.status queued && t.id == x)) [
    | inl e ↦ (t, inl refl, ==→≡ t.id x (ground arith), ground (arith, i), c)
    | inr e ↦
        let deep : elem x (queued_ids us) ≡ true = ground (arith, e) in
        later project t ts x (rest.0 deep)
  ]

  waits_first : elem x (queued_ids us) ≡ true → elem x (queued_ids (t ∷ us)) ≡ true
  waits_first h = ground (arith, h)

  waits_row : movable project t ≡ true → t.id ≡ x → elem x (queued_ids (t ∷ us)) ≡ true
  waits_row m e = ground arith

pub project_order-Waits :
    (project : ℕ) (ts : List Task) (x : ℕ)
    → (elem x (queued_ids (project_order project ts)) ≡ true) ↔ Waits project ts x
unfolding project_order
project_order-Waits project [] x = ((λ h. absurd (cc)), λ w. absurd (w.1))
project_order-Waits project (t ∷ ts) x =
    step (project_order project ts) (project_order-Waits project ts x)
  where
    back :
        (us : List Task)
        → implements project t ≡ true
        → str_eq t.cron "" ≡ true
        → ((elem x (queued_ids us) ≡ true) ↔ Waits project ts x)
        → Waits project (t ∷ ts) x
        → elem x (queued_ids (t ∷ us)) ≡ true
    back us i c rest (u, inl same, e, m, f) =
        waits_row project t ts us x rest (rw (sym same) at m) (ap (λ (v : Task). v.id) same ∙ e)
    back us i c rest (u, inr n, e, m, f) =
        waits_first project t ts us x rest (rest.1 (u, n, e, m, f))

    out :
        (us : List Task)
        → (implements project t && str_eq t.cron "") ≡ false
        → ((elem x (queued_ids us) ≡ true) ↔ Waits project ts x)
        → Waits project (t ∷ ts) x
        → elem x (queued_ids us) ≡ true
    out us b rest (u, inl same, e, m, f) =
        let m' : movable project t ≡ true = rw (sym same) at m in
        let f' : str_eq t.cron "" ≡ true = rw (sym same) at f in absurd (ground arith)
    out us b rest (u, inr n, e, m, f) = rest.1 (u, n, e, m, f)

    step :
        (us : List Task)
        → ((elem x (queued_ids us) ≡ true) ↔ Waits project ts x)
        → (elem x (
              queued_ids
                (if implements project t && str_eq t.cron "" then insert_in_order t us else us))
            ≡ true)
          ↔ Waits project (t ∷ ts) x
    step us rest = elim (Bool-cases (implements project t && str_eq t.cron "")) [
      | inl b ↦
          rw (b, insert_in_order-elem t us x)
            (
              first_row project t ts us x rest (ground arith) (ground arith),
              back us (ground arith) (ground arith) rest,
            )
      | inr b ↦ rw b ((λ h. later project t ts x (rest.0 h)), out us b rest)
    ]

-- `ReorderProjectTasks` succeeds only on a request that names exactly the queued implementation tasks of
-- the project that are no definitions of a schedule: no such task is left out, and no other is named.
pub reorder_project_tasks-Exact :
    (now project : ℕ) (ordered : List ℕ) (db : Db) {db' : Db}
    → reorder_project_tasks now project ordered db ≡ some (ok db')
    → (x : ℕ) → (elem x ordered ≡ true) ↔ Waits project db.tasks x
unfolding reorder_project_tasks
reorder_project_tasks-Exact now project ordered db {db'} h x =
    let eligible = queued_ids (project_order project db.tasks) in
    let same : length ordered ≡ length eligible = ground arith in
    let right : fits eligible [] ordered ≡ true = ground arith in
    let rows = project_order-Waits project db.tasks x in
    (
      (λ m. rows.0 (fits-eligible eligible [] ordered x right m)),
      λ w. fits-all eligible ordered x right same (rows.1 w),
    )
