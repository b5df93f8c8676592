-- ===== src/Store/Queue/Order.antt =====
-- What the comparison of `ListQueuedTasks` in internal/store/task_query.go is an order on.
use paihuo.Prelude.{
  ℕ, ◌≡◌, ◌≢◌, ◌≤◌, refl, sym, ap, ◌∙◌, ==_refl, Bool, true, false, ◌&&◌, not, Option, none, some,
  List, [], ◌∷◌, arith, ◌==◌, ltb, if◌then◌else◌, is_some, refers, refers→≡, subst, In, inl, inr,
  ◌⊎◌, Bool-cases,
}
use paihuo.Model.{Task}
use paihuo.Store.Queue.{earlier, proj_earliest, queue_key, by_place, queued_task_less}

-- Two tasks that compete with the same key are of one project.
abbrev pub OneProject : List Task → Task → Task → Type 0
OneProject rows a b =
    queue_key rows a ≡ queue_key rows b
    → (p : ℕ) × (a.project_id ≡ some p) × (b.project_id ≡ some p)

-- The numbers that are compared, in order.
abbrev lex : ℕ → ℕ → ℕ → ℕ → ℕ → ℕ → Bool
lex sa ca ia sb cb ib =
    if not (sa == sb) then ltb sa sb else (if not (ca == cb) then ltb ca cb else ltb ia ib)

lex_trans :
    (sa ca ia sb cb ib sc cc ic : ℕ)
    → lex sa ca ia sb cb ib ≡ true
    → lex sb cb ib sc cc ic ≡ true
    → lex sa ca ia sc cc ic ≡ true
lex_trans sa ca ia sb cb ib sc cc ic h g = ground arith

lex-total : (sa ca ia sb cb ib : ℕ) → ia ≢ ib → lex sb cb ib sa ca ia ≡ not (lex sa ca ia sb cb ib)
lex-total sa ca ia sb cb ib h = ground arith

by_place-lex :
    (p : ℕ) (a b : Task)
    → a.project_id ≡ some p
    → b.project_id ≡ some p
    → by_place a b ≡ lex a.sort_order a.created_at a.id b.sort_order b.created_at b.id
by_place-lex p a b ea eb = rw (ea, eb, ==_refl p) refl

by_place_trans :
    (p : ℕ) (a b c : Task)
    → a.project_id ≡ some p
    → b.project_id ≡ some p
    → c.project_id ≡ some p
    → by_place a b ≡ true
    → by_place b c ≡ true
    → by_place a c ≡ true
by_place_trans p a b c ea eb ec h g =
    by_place-lex p a c ea ec
    ∙ lex_trans a.sort_order a.created_at a.id b.sort_order b.created_at b.id c.sort_order
        c.created_at c.id (sym (by_place-lex p a b ea eb) ∙ h) (sym (by_place-lex p b c eb ec) ∙ g)

by_place-total :
    (p : ℕ) (a b : Task)
    → a.project_id ≡ some p
    → b.project_id ≡ some p
    → a.id ≢ b.id
    → by_place b a ≡ not (by_place a b)
by_place-total p a b ea eb h =
    by_place-lex p b a eb ea
    ∙ lex-total a.sort_order a.created_at a.id b.sort_order b.created_at b.id h
    ∙ ap not (sym (by_place-lex p a b ea eb))

-- The whole comparison, with the tests of the last part given.
abbrev ranked : ℕ → ℕ → Bool → Bool → Bool → Bool
ranked ka kb ma mb x =
    if not (ka == kb)
    then ltb ka kb
    else (if ma then (if mb then x else true) else (if mb then false else x))

ranked_trans :
    (ka kb kc : ℕ) (ma mb mc ab bc ac : Bool)
    → ranked ka kb ma mb ab ≡ true
    → ranked kb kc mb mc bc ≡ true
    → (ka ≡ kb → kb ≡ kc → ab ≡ true → bc ≡ true → ac ≡ true)
    → ranked ka kc ma mc ac ≡ true
ranked_trans ka kb kc ma mb mc ab bc ac h g last = elim (Bool-cases (ka == kb && kb == kc)) [
  | inl e ↦ ranks (ground arith) (ground arith)
  | inr e ↦ ground arith
]
  where
    ranks : ka ≡ kb → kb ≡ kc → ranked ka kc ma mc ac ≡ true
    ranks e f = elim (Bool-cases (ab && bc)) [
      | inl both ↦ ground (arith, last e f (ground arith) (ground arith))
      | inr neither ↦ ground arith
    ]

ranked-total :
    (ka kb : ℕ) (ma mb ab ba : Bool)
    → (ka ≡ kb → ba ≡ not ab)
    → ranked kb ka mb ma ba ≡ not (ranked ka kb ma mb ab)
ranked-total ka kb ma mb ab ba last = elim (Bool-cases (ka == kb)) [
  | inl e ↦ ground (arith, last (ground arith))
  | inr e ↦ ground arith
]

-- Among queued tasks where equal keys mean the same project, the comparison is a strict order: it is
-- transitive, and of two tasks with different ids only one comes before the other.
pub queued_task_less-order :
    (rows : List Task) (a b c : Task)
    → OneProject rows a b
    → OneProject rows b c
    → a.id ≢ b.id
    → queued_task_less rows a b ≡ true
    → queued_task_less rows b c ≡ true
    → (queued_task_less rows a c ≡ true) × (queued_task_less rows b a ≡ false)
unfolding queued_task_less
queued_task_less-order rows a b c one two apart h g = (
  ranked_trans (queue_key rows a) (queue_key rows b) (queue_key rows c) (is_some a.merge_of)
      (is_some b.merge_of) (is_some c.merge_of) (by_place a b) (by_place b c) (by_place a c) h g
      placed,
  ranked-total (queue_key rows a) (queue_key rows b) (is_some a.merge_of) (is_some b.merge_of)
        (by_place a b) (by_place b a) flipped
      ∙ ap not h,
)
  where
    placed :
        queue_key rows a ≡ queue_key rows b
        → queue_key rows b ≡ queue_key rows c
        → by_place a b ≡ true
        → by_place b c ≡ true
        → by_place a c ≡ true
    placed e f =
        let (p, ea, eb) = one e in
        let (k, fb, fc) = two f in by_place_trans p a b c ea eb (fc ∙ sym fb ∙ eb)

    flipped : queue_key rows a ≡ queue_key rows b → by_place b a ≡ not (by_place a b)
    flipped e = let (p, ea, eb) = one e in by_place-total p a b ea eb apart

proj_earliest_attained :
    (p : ℕ) (rows : List Task) {e : ℕ}
    → proj_earliest p rows ≡ some e
    → (u : Task) × In u rows × (u.project_id ≡ some p) × (u.created_at ≡ e)
unfolding proj_earliest
proj_earliest_attained p [] h = cc
proj_earliest_attained p (t ∷ ts) {e = e} h =
    by (proj_earliest p ts) refl (Bool-cases (refers t.project_id p))
      (λ f. proj_earliest_attained p ts {e = e} f)
  where
    Attained : List Task → Type 0
    Attained us = (u : Task) × In u us × (u.project_id ≡ some p) × (u.created_at ≡ e)

    later : Attained ts → Attained (t ∷ ts)
    later (u, m, d, c) = (u, inr m, d, c)

    by :
        (o : Option ℕ)
        → proj_earliest p ts ≡ o
        → (refers t.project_id p ≡ true) ⊎ (refers t.project_id p ≡ false)
        → (proj_earliest p ts ≡ some e → Attained ts)
        → Attained (t ∷ ts)
    by o d (inr no_ref) rec = later (rec (ground arith))
    by none d (inl ref) rec = (t, inl refl, refers→≡ t.project_id p ref, ground arith)
    by (some cur) d (inl ref) rec = elim (Bool-cases (ltb t.created_at cur)) [
      | inl less ↦ (t, inl refl, refers→≡ t.project_id p ref, ground arith)
      | inr more ↦ later (rec (ground arith))
    ]

earlier_below : (o : Option ℕ) (at : ℕ) → (x : ℕ) × (earlier o at ≡ some x) × (x ≤ at)
earlier_below none at = (at, refl, omega arith)
earlier_below (some cur) at = elim (Bool-cases (ltb at cur)) [
  | inl less ↦ (at, ground arith, omega arith)
  | inr more ↦ (cur, ground arith, ground arith)
]

proj_earliest_below :
    (p : ℕ) (rows : List Task) (t : Task)
    → In t rows
    → t.project_id ≡ some p
    → (e : ℕ) × (proj_earliest p rows ≡ some e) × (e ≤ t.created_at)
unfolding proj_earliest
proj_earliest_below p [] t m h = absurd m
proj_earliest_below p (u ∷ us) t (inl same) h =
    subst
      (λ (v : Task).
        (e : ℕ) × ((if refers v.project_id p
            then earlier (proj_earliest p us) v.created_at
            else proj_earliest p us)
          ≡ some e)
        × (e ≤ t.created_at))
      (sym same) (rw (h, ==_refl p) (earlier_below (proj_earliest p us) t.created_at))
proj_earliest_below p (u ∷ us) t (inr m) h =
    let (e, d, le) = proj_earliest_below p us t m h in
    elim (Bool-cases (refers u.project_id p && ltb u.created_at e)) [
      | inl less ↦ (u.created_at, ground arith, ground arith)
      | inr more ↦ (e, ground arith, le)
    ]

-- The key of a task of a project that is queued itself is the least time of creation among the queued
-- tasks of the project, and so no later than its own.
pub queue_key-earliest :
    (rows : List Task) (t : Task) (p : ℕ)
    → In t rows
    → t.project_id ≡ some p
    → (queue_key rows t ≤ t.created_at)
      × (u : Task) × In u rows
      × (u.project_id ≡ some p)
      × (u.created_at ≡ queue_key rows t)
unfolding queue_key
queue_key-earliest rows t p m e =
    let (x, d, le) = proj_earliest_below p rows t m e in
    let (u, v, w, y) = proj_earliest_attained p rows d in rw (e, d) (le, u, v, w, y)
