-- ===== src/Prelude/Lists.antt =====
-- Lists measured by native numbers, and the predicates on lists that the components share.
use Prim.Native.Nat.{ℕ, zero, suc, ◌+◌, ◌≤◌, ◌<◌}
use mathlib.Core.Path.{◌≡◌, refl, ap}
use mathlib.Core.Logic.{◌⊎◌, inl, inr}
use mathlib.Core.Bool.{Bool, true, false, ◌&&◌, ◌||◌}
use mathlib.Core.List.{List, [], ◌∷◌, ◌++◌}
use native.Mathlib.Omega.{arith}
use paihuo.Prelude.Tests.{◌==◌, if◌then◌else◌}

module _ {ℓ} {A : Type ℓ} where
  abbrev pub length : List A → ℕ
  length [] = 0
  length (x ∷ xs) = suc (length xs)

  abbrev pub take : ℕ → List A → List A
  take zero xs = []
  take (suc n) [] = []
  take (suc n) (x ∷ xs) = x ∷ take n xs

  abbrev pub drop : ℕ → List A → List A
  drop zero xs = xs
  drop (suc n) [] = []
  drop (suc n) (x ∷ xs) = drop n xs

  -- The elements that pass a test, in their order.
  abbrev pub keep : (A → Bool) → List A → List A
  keep p [] = []
  keep p (x ∷ xs) = let rest = keep p xs in if p x then x ∷ rest else rest

  abbrev pub any : (A → Bool) → List A → Bool
  any p [] = false
  any p (x ∷ xs) = p x || any p xs

  abbrev pub all : (A → Bool) → List A → Bool
  all p [] = true
  all p (x ∷ xs) = p x && all p xs

  pub length-append : (xs ys : List A) → length (xs ++ ys) ≡ length xs + length ys
  length-append [] ys = omega arith
  length-append (x ∷ xs) ys = omega (arith, length-append xs ys)

-- Membership with the place kept.
module _ {A : Type 0} where
  abbrev pub In : A → List A → Type 0
  In a [] = ⊥
  In a (x ∷ xs) = (x ≡ a) ⊎ In a xs

  pub In-append-split : (a r : A) (xs : List A) → In a (xs ++ (r ∷ [])) → In a xs ⊎ (r ≡ a)
  In-append-split a r [] (inl e) = inr e
  In-append-split a r [] (inr m) = absurd m
  In-append-split a r (x ∷ xs) (inl e) = inl (inl e)
  In-append-split a r (x ∷ xs) (inr m) = elim (In-append-split a r xs m) [
    | inl n ↦ inl (inr n)
    | inr e ↦ inr e
  ]

  pub In-append : (a : A) (xs ys : List A) → In a xs → In a (xs ++ ys)
  In-append a [] ys h = absurd h
  In-append a (x ∷ xs) ys (inl e) = inl e
  In-append a (x ∷ xs) ys (inr h) = inr (In-append a xs ys h)

-- Is a number in the list?
abbrev pub elem : ℕ → List ℕ → Bool
elem n [] = false
elem n (x ∷ xs) = x == n || elem n xs

pub elem→In : (n : ℕ) (xs : List ℕ) → elem n xs ≡ true → In n xs
elem→In n [] h = absurd (ground arith)
elem→In n (x ∷ xs) h = ground (arith, elem→In n xs)

pub In→elem : (n : ℕ) (xs : List ℕ) → In n xs → elem n xs ≡ true
In→elem n [] h = absurd h
In→elem n (x ∷ xs) (inl e) = ground arith
In→elem n (x ∷ xs) (inr h) = ground (arith, In→elem n xs h)

module _ {ℓ} {A : Type 0} where
  -- A predicate that holds of each element.
  abbrev pub All : (A → Type ℓ) → List A → Type ℓ
  All P [] = Unit
  All P (x ∷ xs) = P x × All P xs

  pub All-map : (P Q : A → Type ℓ) → ((x : A) → P x → Q x) → (xs : List A) → All P xs → All Q xs
  All-map P Q f [] h = tt
  All-map P Q f (x ∷ xs) h = (f x h.0, All-map P Q f xs h.1)

  pub All-In : (P : A → Type ℓ) (xs : List A) → ((x : A) → In x xs → P x) → All P xs
  All-In P [] h = tt
  All-In P (x ∷ xs) h = (h x (inl refl), All-In P xs (λ y m. h y (inr m)))

module _ {A : Type 0} where
  -- How many elements of a list pass a test.
  pub tally : (A → Bool) → List A → ℕ
  tally p [] = 0
  tally p (x ∷ xs) = let rest = tally p xs in if p x then suc rest else rest

  pub tally-le-length : (p : A → Bool) (xs : List A) → tally p xs ≤ length xs
  unfolding tally
  tally-le-length p [] = omega arith
  tally-le-length p (x ∷ xs) = ground (arith, tally-le-length p xs)

  pub tally_mono :
      (p q : A → Bool) (xs : List A) → ((x : A) → q x ≡ true → p x ≡ true) → tally q xs ≤ tally p xs
  unfolding tally
  tally_mono p q [] h = omega arith
  tally_mono p q (x ∷ xs) h = ground (arith, h x, tally_mono p q xs h)

  -- It falls where the second test fails at an element that passes the first.
  pub tally_falls :
      (p q : A → Bool) (a : A) (xs : List A)
      → ((x : A) → q x ≡ true → p x ≡ true)
      → In a xs
      → p a ≡ true
      → q a ≡ false
      → tally q xs < tally p xs
  unfolding tally
  tally_falls p q a [] h m pa qa = absurd m
  tally_falls p q a (x ∷ xs) h (inl e) pa qa = ground (arith, tally_mono p q xs h, ap p e, ap q e)
  tally_falls p q a (x ∷ xs) h (inr m) pa qa = ground (arith, h x, tally_falls p q a xs h m pa qa)
