-- ===== src/Store/Chain/Visit.antt =====
-- One call of the depth-first search: it returns, what a true answer means, and what a false one.
use paihuo.Prelude.{
  tally, tally_falls, ℕ, zero, suc, ◌<◌, ◌≡◌, ◌⊎◌, refl, sym, ◌∙◌, ap, Bool, true, false, none,
  some, List, arith, ◌==◌, In, inl, inr, Bool-cases, Option-cases, ==→≡, ==_refl,
}
use paihuo.Store.Chain.{Next, Colour, fresh, active, finished, Marks, mark, leave, visit}
use paihuo.Store.Chain.Walk.{Walk, here, Walk-snoc, Returns, Ends, stop, go}

abbrev pub fresh_colour : Colour → Bool
fresh_colour fresh = true
fresh_colour active = false
fresh_colour finished = false

abbrev pub is_fresh : Marks → ℕ → Bool
is_fresh st x = fresh_colour (st x)

pub Colour-cases : (c : Colour) → (c ≡ fresh) ⊎ ((c ≡ active) ⊎ (c ≡ finished))
Colour-cases fresh = inl refl
Colour-cases active = inr (inl refl)
Colour-cases finished = inr (inr refl)

-- Marking makes no node fresh.
fresh-mark :
    (st : Marks) (i x : ℕ) (c : Colour)
    → fresh_colour c ≡ false
    → is_fresh (mark st i c) x ≡ true
    → is_fresh st x ≡ true
unfolding mark
fresh-mark st i x c h q = elim (Bool-cases (i == x)) [
  | inl e ↦ let q' : fresh_colour c ≡ true = rw e at q in cc (h, q')
  | inr e ↦ rw e at q
]

mark_self : (st : Marks) (i : ℕ) (c : Colour) → mark st i c i ≡ c
unfolding mark
mark_self st i c = rw (==_refl i)

-- The runs of `visit`, as a relation between the marks before, the node, the answer and the marks after.
pub data Visits (next : Next) : Marks → ℕ → Bool → Marks → Type 0 where
  hit : {st : Marks} {i : ℕ} → st i ≡ active → Visits next st i false st
  known : {st : Marks} {i : ℕ} → st i ≡ finished → Visits next st i true st
  leaf :
      {st : Marks} {i : ℕ}
      → st i ≡ fresh
      → next i ≡ none
      → Visits next st i true (mark st i finished)
  fails :
      {st : Marks} {i n : ℕ} {st' : Marks}
      → st i ≡ fresh
      → next i ≡ some n
      → Visits next (mark st i active) n false st'
      → Visits next st i false st'
  passes :
      {st : Marks} {i n : ℕ} {st' : Marks}
      → st i ≡ fresh
      → next i ≡ some n
      → Visits next (mark st i active) n true st'
      → Visits next st i true (mark st' i finished)

module _ (next : Next) where
  -- The equations of `visit`, one for each way through it.
  visit_active : (f i : ℕ) (st : Marks) → st i ≡ active → visit next (suc f) st i ≡ some (false, st)
  unfolding visit
  visit_active f i st e = ground arith

  visit_finished :
      (f i : ℕ) (st : Marks) → st i ≡ finished → visit next (suc f) st i ≡ some (true, st)
  unfolding visit
  visit_finished f i st e = ground arith

  visit_leaf :
      (f i : ℕ) (st : Marks)
      → st i ≡ fresh
      → next i ≡ none
      → visit next (suc f) st i ≡ some (true, mark st i finished)
  unfolding visit
  visit_leaf f i st e d = ground arith

  visit_inner :
      (f i n : ℕ) (st : Marks)
      → st i ≡ fresh
      → next i ≡ some n
      → visit next (suc f) st i ≡ leave i (visit next f (mark st i active) n)
  unfolding visit
  visit_inner f i n st e d = ground arith

  -- Every visit ends, if the fuel passes the number of fresh nodes that have a successor.
  leave-Visits :
      {st : Marks} {i n : ℕ} (st' : Marks) (b : Bool)
      → st i ≡ fresh
      → next i ≡ some n
      → Visits next (mark st i active) n b st'
      → (c : Bool) × (st'' : Marks) × (leave i (some (b, st')) ≡ some (c, st''))
        × Visits next st i c st''
  leave-Visits st' false e d v = (false, st', refl, fails e d v)
  leave-Visits {i = i} st' true e d v = (true, mark st' i finished, refl, passes e d v)

  module _ (ids : List ℕ) (dom : (a b : ℕ) → next a ≡ some b → In a ids) where
    pub visit_total :
        (f : ℕ) (st : Marks) (i : ℕ)
        → tally (is_fresh st) ids < f
        → (b : Bool) × (st' : Marks) × (visit next f st i ≡ some (b, st')) × Visits next st i b st'
    visit_total zero st i h = elim h [ ]
    visit_total (suc f) st i h = elim (Colour-cases (st i)) [
      | inr (inl e) ↦ (false, st, visit_active f i st e, hit e)
      | inr (inr e) ↦ (true, st, visit_finished f i st e, known e)
      | inl e ↦ elim (Option-cases (next i)) [
        | inl d ↦ (true, mark st i finished, visit_leaf f i st e d, leaf e d)
        | inr (n, d) ↦
            let (b, st', run, v) = visit_total f (mark st i active) n (fewer st i n e d h) in
            let (c, st'', left, w) = leave-Visits st' b e d v in
            (c, st'', visit_inner f i n st e d ∙ (ap (leave i) run ∙ left), w)
      ]
    ]
      where
        fewer :
            (st : Marks) (i n : ℕ)
            → st i ≡ fresh
            → next i ≡ some n
            → tally (is_fresh st) ids < suc f
            → tally (is_fresh (mark st i active)) ids < f
        fewer st i n e d h = omega (
          arith,
          tally_falls (is_fresh st) (is_fresh (mark st i active)) i ids
              (λ x q. fresh-mark st i x active refl q) (dom i n d) (ap fresh_colour e)
              (ap fresh_colour (mark_self st i active)),
        )

active-mark :
    (st : Marks) (i j : ℕ) → mark st i finished j ≡ active → ((i == j) ≡ false) × (st j ≡ active)
unfolding mark
active-mark st i j h = ground arith

active-mark_ne :
    (st : Marks) (i j : ℕ) → (i == j) ≡ false → mark st i active j ≡ active → st j ≡ active
unfolding mark
active-mark_ne st i j ne h = ground arith

-- From every finished node the walk ends.
abbrev pub Finished : Next → Marks → Type 0
Finished next st = (j : ℕ) → st j ≡ finished → Ends next j

finished-mark :
    {next : Next} (st : Marks) (i : ℕ)
    → Finished next st
    → Ends next i
    → Finished next (mark st i finished)
unfolding mark
finished-mark {next} st i inv t j h = elim (Bool-cases (i == j)) [
  | inl e ↦ rw (sym (==→≡ i j e)) t
  | inr e ↦ inv j (ground arith)
]

Finished-active :
    {next : Next} (st : Marks) (i : ℕ) → Finished next st → Finished next (mark st i active)
unfolding mark
Finished-active st i inv j h = inv j (ground arith)

-- Each active node leads, in one or more steps, to the node that is visited next.
abbrev pub OnPath : Next → Marks → ℕ → Type 0
OnPath next st i = (j : ℕ) → st j ≡ active → (m : ℕ) × (next j ≡ some m) × Walk next m i

OnPath-next :
    {next : Next} (st : Marks) (i n : ℕ)
    → next i ≡ some n
    → OnPath next st i
    → OnPath next (mark st i active) n
unfolding mark
OnPath-next {next} st i n d path j h = elim (Bool-cases (i == j)) [
  | inl e ↦ (n, ap next (sym (==→≡ i j e)) ∙ d, here)
  | inr e ↦ let (m, f, w) = path j (ground arith) in (m, f, Walk-snoc w d)
]

module _ {next : Next} where
  -- A node once marked is never fresh again.
  pub Visits-fresh :
      {st : Marks} {i : ℕ} {b : Bool} {st' : Marks}
      → Visits next st i b st'
      → (x : ℕ) → is_fresh st' x ≡ true
      → is_fresh st x ≡ true
  Visits-fresh (hit e) x q = q
  Visits-fresh (known e) x q = q
  Visits-fresh {st = st} {i = i} (leaf e d) x q = fresh-mark st i x finished refl q
  Visits-fresh {st = st} {i = i} (fails e d v) x q =
      fresh-mark st i x active refl (Visits-fresh v x q)
  Visits-fresh {st = st} {i = i} (passes {st' = st'} e d v) x q =
      fresh-mark st i x active refl (Visits-fresh v x (fresh-mark st' i x finished refl q))

  -- A visit that answers true leaves no node active that was not.
  pub Visits-active :
      {st : Marks} {i : ℕ} {b : Bool} {st' : Marks}
      → Visits next st i b st'
      → b ≡ true
      → (j : ℕ) → st' j ≡ active
      → st j ≡ active
  Visits-active (hit e) t j q = q
  Visits-active (known e) t j q = q
  Visits-active {st = st} {i = i} (leaf e d) t j q = (active-mark st i j q).1
  Visits-active (fails e d v) t j q = absurd (cc)
  Visits-active {st = st} {i = i} (passes {st' = st'} e d v) t j q =
      let (ne, q') = active-mark st' i j q in active-mark_ne st i j ne (Visits-active v refl j q')

  -- After a visit that answers true, the walk from the node ends, and so from all finished nodes.
  pub Visits-Ends :
      {st : Marks} {i : ℕ} {b : Bool} {st' : Marks}
      → Visits next st i b st'
      → b ≡ true
      → Finished next st
      → Ends next i × Finished next st'
  Visits-Ends (hit e) t inv = absurd (cc)
  Visits-Ends {i = i} (known e) t inv = (inv i e, inv)
  Visits-Ends {st = st} {i = i} (leaf e d) t inv = (stop d, finished-mark st i inv (stop d))
  Visits-Ends (fails e d v) t inv = absurd (cc)
  Visits-Ends {st = st} {i = i} (passes {st' = st'} e d v) t inv =
      let (ends, inv') = Visits-Ends v refl (Finished-active st i inv) in
      (go d ends, finished-mark st' i inv' (go d ends))

  -- A visit that answers false has found a cycle.
  pub Visits-Returns :
      {st : Marks} {i : ℕ} {b : Bool} {st' : Marks}
      → Visits next st i b st'
      → b ≡ false
      → OnPath next st i
      → (j : ℕ) × Returns next j
  Visits-Returns {i = i} (hit e) t path = (i, path i e)
  Visits-Returns (known e) t path = absurd (cc)
  Visits-Returns (leaf e d) t path = absurd (cc)
  Visits-Returns {st = st} {i = i} (fails {n = n} e d v) t path =
      Visits-Returns v refl (OnPath-next st i n d path)
  Visits-Returns (passes e d v) t path = absurd (cc)
