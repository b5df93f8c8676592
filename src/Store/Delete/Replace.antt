-- ===== src/Store/Delete/Replace.antt =====
-- The search of `dependencyReplacement`, internal/store/task_delete.go.
use paihuo.Prelude.{
  tally, tally-le-length, tally_falls, ℕ, zero, suc, ◌<◌, ◌≡◌, Bool, true, false, not, Option, none,
  some, List, [], ◌∷◌, arith, elem, elem→In, length, inl, inr, Bool-cases, Option-cases,
}
use paihuo.Store.Db.{Db, get_task}
use paihuo.Store.Delete.{followed_row, dependency_replacement}

abbrev unmet : List ℕ → ℕ → Bool
unmet seen x = not (elem x seen)

module _ (deleting : List ℕ) (db : Db) where
  replacement_total :
      (fuel : ℕ) (seen : List ℕ) (current : ℕ)
      → elem current deleting ≡ true
      → tally (unmet seen) deleting < fuel
      → (r : Option ℕ) × (dependency_replacement fuel deleting seen db current ≡ some r)
  unfolding dependency_replacement
  replacement_total zero seen current m h = elim h [ ]
  replacement_total (suc fuel) seen current m h = elim (Bool-cases (elem current seen)) [
    | inl met ↦ (none, rw met)
    | inr new ↦ elim (Option-cases (followed_row (get_task current db))) [
      | inl end ↦ (none, ground (arith, end))
      | inr (n, step) ↦ elim (Bool-cases (elem n deleting)) [
        | inr out ↦ (some n, ground (arith, step))
        | inl inside ↦
            let falls : tally (unmet (current ∷ seen)) deleting < tally (unmet seen) deleting =
              tally_falls (unmet seen) (unmet (current ∷ seen)) current deleting
                (λ x q. ground arith) (elem→In current deleting m) (ground arith) (ground arith) in
            let (r, done) = replacement_total fuel (current ∷ seen) n inside (omega arith) in
            (r, ground (arith, step, done))
      ]
    ]
  ]

  -- The replacement is outside the set that is being deleted.
  pub replacement-outside :
      (fuel : ℕ) (seen : List ℕ) (current : ℕ) {c : ℕ}
      → dependency_replacement fuel deleting seen db current ≡ some (some c)
      → elem c deleting ≡ false
  unfolding dependency_replacement
  replacement-outside zero seen current h = absurd (cc)
  replacement-outside (suc fuel) seen current {c = c} h =
      elim (Option-cases (followed_row (get_task current db))) [
        | inl end ↦ absurd (ground (arith, end))
        | inr (n, step) ↦ elim (Bool-cases (elem n deleting)) [
          | inr out ↦ ground (arith, step)
          | inl inside ↦ replacement-outside fuel (current ∷ seen) n {c = c} (ground (arith, step))
        ]
      ]

  -- With two rounds more than there are tasks to delete the search for a replacement always ends.
  pub dependency_replacement_total :
      (source : ℕ)
      → elem source deleting ≡ true
      → (r : Option ℕ) × (dependency_replacement (suc (suc (length deleting))) deleting [] db source
          ≡ some r)
  dependency_replacement_total source m =
      replacement_total (suc (suc (length deleting))) [] source m
        (omega (arith, tally-le-length (unmet []) deleting))
