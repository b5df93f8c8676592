-- ===== src/Store/Chain/Reaches.antt =====
-- `dependencyReaches` and the walks along dependencies.
use paihuo.Prelude.{
  tally, tally-le-length, tally_falls, ℕ, zero, suc, ◌<◌, ◌≡◌, ◌≢◌, ◌↔◌, ◌⊎◌, refl, sym, ◌∙◌, Bool,
  true, false, not, none, some, List, [], ◌∷◌, arith, ◌==◌, elem, In, elem→In, length, inl, inr,
  Bool-cases, Option-cases, ==→≡, some_eq, ap,
}
use paihuo.Store.Db.{Db, get_task}
use paihuo.Store.Db.Rows.{find-Fresh, ids_of, length-ids_of, In-ids_of}
use paihuo.Store.Insert.Laws.{IsKeyed}
use paihuo.Store.Chain.{Next, next_of, reaches_from, dependency_reaches}
use paihuo.Store.Chain.Walk.{Walk, here, along}

abbrev unmet : List ℕ → ℕ → Bool
unmet seen x = not (elem x seen)

module _ (next : Next) (ids : List ℕ) (dom : (a b : ℕ) → next a ≡ some b → In a ids) where
  reaches_from_total :
      (fuel : ℕ) (seen : List ℕ) (wanted current : ℕ)
      → tally (unmet seen) ids < fuel
      → (b : Bool) × (reaches_from next fuel seen wanted current ≡ some b)
  unfolding reaches_from
  reaches_from_total zero seen wanted current h = elim h [ ]
  reaches_from_total (suc fuel) seen wanted zero h = (false, refl)
  reaches_from_total (suc fuel) seen wanted (suc c) h = elim (Bool-cases (suc c == wanted)) [
    | inl e ↦ (true, rw e)
    | inr e ↦ elim (Bool-cases (elem (suc c) seen)) [
      | inl met ↦ (false, rw (e, met))
      | inr new ↦ elim (Option-cases (next (suc c))) [
        | inl end ↦ (false, rw (e, new, end))
        | inr (n, step) ↦
            let falls : tally (unmet (suc c ∷ seen)) ids < tally (unmet seen) ids =
              tally_falls (unmet seen) (unmet (suc c ∷ seen)) (suc c) ids (λ x q. ground arith)
                (dom (suc c) n step) (ground arith) (ground arith) in
            let (b, done) = reaches_from_total fuel (suc c ∷ seen) wanted n (omega arith) in
            (b, rw (e, new, step) done)
      ]
    ]
  ]

module _ (next : Next) where
  reaches_from_sound :
      (fuel : ℕ) (seen : List ℕ) (wanted current : ℕ)
      → reaches_from next fuel seen wanted current ≡ some true
      → Walk next current wanted
  unfolding reaches_from
  reaches_from_sound zero seen wanted current h = absurd (cc)
  reaches_from_sound (suc fuel) seen wanted zero h = absurd (ground arith)
  reaches_from_sound (suc fuel) seen wanted (suc c) h = elim (Bool-cases (suc c == wanted)) [
    | inl e ↦ rw (sym (==→≡ (suc c) wanted e)) here
    | inr e ↦ elim (Option-cases (next (suc c))) [
      | inl end ↦ absurd (ground arith)
      | inr (n, step) ↦ along step (reaches_from_sound fuel (suc c ∷ seen) wanted n (ground arith))
    ]
  ]

  -- A set of nodes that is closed under successors is never left.
  closed-Walk :
      (seen : List ℕ)
      → ((x y : ℕ) → In x seen → next x ≡ some y → In y seen)
      → {a b : ℕ} → In a seen
      → Walk next a b
      → In b seen
  closed-Walk seen closed m here = m
  closed-Walk seen closed m (along e w) = closed-Walk seen closed (closed _ _ m e) w

  -- A walk from a node with no successor goes nowhere.
  Walk-stuck : {a b : ℕ} → next a ≡ none → Walk next a b → a ≡ b
  Walk-stuck e here = refl
  Walk-stuck e (along f w) = absurd (cc)

  Walk-tail : {a n b : ℕ} → next a ≡ some n → a ≢ b → Walk next a b → Walk next n b
  Walk-tail e ne here = absurd (ne refl)
  Walk-tail {a} {n} {b} e ne (along {b = m} f w) =
      let same : m ≡ n = some_eq (sym f ∙ e) in rw same at w

  -- What the loop has met leads to where it stands.
  LeadsTo : List ℕ → ℕ → Type 0
  LeadsTo seen current = (x y : ℕ) → In x seen → next x ≡ some y → (y ≡ current) ⊎ In y seen

  reaches_from_complete :
      (fuel : ℕ) (seen : List ℕ) (wanted current : ℕ)
      → next zero ≡ none
      → wanted ≢ zero
      → LeadsTo seen current
      → ¬ In wanted seen
      → reaches_from next fuel seen wanted current ≡ some false
      → ¬ Walk next current wanted
  unfolding reaches_from LeadsTo
  reaches_from_complete zero seen wanted current z nz inv new h = absurd (cc)
  reaches_from_complete (suc fuel) seen wanted zero z nz inv new h = λ w. nz (sym (Walk-stuck z w))
  reaches_from_complete (suc fuel) seen wanted (suc c) z nz inv new h =
      elim (Bool-cases (suc c == wanted)) [
        | inl e ↦ absurd (ground arith)
        | inr e ↦
            let apart : suc c ≢ wanted = ground arith in
            elim (Bool-cases (elem (suc c) seen)) [
              | inl met ↦
                  let inside : In (suc c) seen = elem→In (suc c) seen met in
                  λ w. new (closed-Walk seen (λ x y m f. stays seen inside (inv x y m f)) inside w)
              | inr unseen ↦ elim (Option-cases (next (suc c))) [
                | inl end ↦ λ w. apart (Walk-stuck end w)
                | inr (n, step) ↦ λ w.
                    reaches_from_complete fuel (suc c ∷ seen) wanted n z nz
                      (λ x y m f. extends seen c n inv step x y m f)
                      (λ m. elim m [ inl same ↦ apart same | inr deep ↦ new deep ]) (ground arith)
                      (Walk-tail step apart w)
              ]
            ]
      ]
    where
      stays : (seen : List ℕ) {c y : ℕ} → In c seen → (y ≡ c) ⊎ In y seen → In y seen
      stays seen m (inl e) = rw e m
      stays seen m (inr k) = k

      extends :
          (seen : List ℕ) (c n : ℕ)
          → ((x y : ℕ) → In x seen → next x ≡ some y → (y ≡ suc c) ⊎ In y seen)
          → next (suc c) ≡ some n
          → (x y : ℕ) → In x (suc c ∷ seen)
          → next x ≡ some y
          → (y ≡ n) ⊎ In y (suc c ∷ seen)
      extends seen c n inv step x y (inl e) f = inl (some_eq (sym f ∙ (ap next (sym e) ∙ step)))
      extends seen c n inv step x y (inr m) f = elim (inv x y m f) [
        | inl e ↦ inr (inl (sym e))
        | inr k ↦ inr (inr k)
      ]

next_of-In : (db : Db) (a b : ℕ) → next_of db a ≡ some b → In a (ids_of db.tasks)
unfolding next_of
next_of-In db a b h = elim (Option-cases (get_task a db)) [
  | inl e ↦ absurd (ground arith)
  | inr (t, e) ↦ In-ids_of a db.tasks {t = t} e
]

next_of-zero : (db : Db) → IsKeyed db → next_of db zero ≡ none
unfolding next_of
next_of-zero db k = rw (find-Fresh zero db.tasks k.positive)

-- In a keyed database `dependencyReaches` always answers, within one round for each row and two more,
-- and it answers true exactly if the task `wanted` is met on the chain of dependencies from `start`,
-- also where that chain runs into a cycle that misses `wanted`.
pub dependency_reaches_iff :
    (db : Db) (start wanted : ℕ)
    → IsKeyed db
    → wanted ≢ 0
    → (b : Bool) × (dependency_reaches db start wanted ≡ some b)
      × ((b ≡ true) ↔ Walk (next_of db) start wanted)
unfolding dependency_reaches LeadsTo
dependency_reaches_iff db start wanted k nz =
    let (b, done) =
      reaches_from_total (next_of db) (ids_of db.tasks) (next_of-In db)
        (suc (suc (length db.tasks))) [] wanted start
        (omega (arith, tally-le-length (unmet []) (ids_of db.tasks), length-ids_of db.tasks)) in
    (
      b,
      done,
      (
        (λ e. reaches_from_sound (next_of db) _ [] wanted start (done ∙ ap some e)),
        λ w. elim (Bool-cases b) [
          | inl e ↦ e
          | inr e ↦ absurd (
              reaches_from_complete (next_of db) _ [] wanted start (next_of-zero db k) nz
                (λ x y m f. absurd m) (λ m. m) (done ∙ ap some e) w)
        ],
      ),
    )
