-- ===== src/Store/Chain/Walk.antt =====
-- Walks along successors, as a relation; walks that end, walks that return; and the count of the nodes
-- that a search has not met, which bounds its rounds.
use paihuo.Prelude.{ℕ, ◌≡◌, sym, ◌∙◌, none, some, some_eq}
use paihuo.Store.Chain.{Next}

-- `b` is met on the way from `a`, in any number of steps.
pub data Walk (next : Next) : ℕ → ℕ → Type 0 where
  here : {a : ℕ} → Walk next a a
  along : {a b c : ℕ} → next a ≡ some b → Walk next b c → Walk next a c

-- One or more steps lead from `a` back to `a`.
abbrev pub Returns : Next → ℕ → Type 0
Returns next a = (b : ℕ) × (next a ≡ some b) × Walk next b a

-- The walk from `a` comes to an end.
pub data Ends (next : Next) : ℕ → Type 0 where
  stop : {a : ℕ} → next a ≡ none → Ends next a
  go : {a b : ℕ} → next a ≡ some b → Ends next b → Ends next a

pub Walk-snoc : {next : Next} {a b c : ℕ} → Walk next a b → next b ≡ some c → Walk next a c
Walk-snoc here e = along e here
Walk-snoc (along d w) e = along d (Walk-snoc w e)

-- A walk that returns goes on returning after each step.
Returns-next : {next : Next} {a b : ℕ} → next a ≡ some b → Returns next a → Returns next b
Returns-next {next} {a} {b} e (c, f, w) =
    let same : c ≡ b = some_eq (sym f ∙ e) in rotate (rw same at w) e
  where
    rotate : {x y : ℕ} → Walk next x y → next y ≡ some x → Returns next x
    rotate here d = (_, d, here)
    rotate (along d v) d' = (_, d, Walk-snoc v d')

-- A walk that ends does not return.
pub Ends-not-Returns : {next : Next} {a : ℕ} → Ends next a → ¬ Returns next a
Ends-not-Returns (stop e) (b, f, w) = cc
Ends-not-Returns (go e t) r = Ends-not-Returns t (Returns-next e r)
