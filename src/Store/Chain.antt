-- ===== src/Store/Chain.antt =====
-- Chains of `depends_on` (internal/store/task_update.go): `dependencyReaches`, and the depth-first
-- search of `validateProjectDependencyGraph`. Each task has one successor at most. Both run on fuel,
-- where `none` means that it ran out; the children prove which fuel is enough.
pub mod Walk
pub mod Reaches
pub mod Visit
pub mod Acyclic
use paihuo.Prelude.{
  ℕ, zero, suc, Bool, true, false, ◌&&◌, not, Option, none, some, List, [], ◌∷◌, ◌==◌,
  if◌then◌else◌, elem, refers, is_some, length,
}
use paihuo.Model.{Task}
use paihuo.Store.Db.{Db, Error, cyclic, Result, ok, err, get_task}

-- The successor of each task.
abbrev pub Next : Type 0
Next = ℕ → Option ℕ

-- `SELECT depends_on FROM tasks WHERE id=?`: no row and NULL end a walk alike.
abbrev pub target_of : Option Task → Option ℕ
target_of none = none
target_of (some t) = t.depends_on

unfoldable pub next_of : Db → Next
next_of db i = target_of (get_task i db)

-- The loop of `dependencyReaches`: `seen` is the map, `current > 0` the loop's test.
unfoldable pub reaches_from : Next → ℕ → List ℕ → ℕ → ℕ → Option Bool
reaches_from next zero seen wanted current = none
reaches_from next (suc fuel) seen wanted zero = some false
reaches_from next (suc fuel) seen wanted (suc c) =
    let rest : Option Bool = elim (next (suc c)) [
      | none ↦ some false
      | some n ↦ reaches_from next fuel (suc c ∷ seen) wanted n
    ] in
    if suc c == wanted then some true else if elem (suc c) seen then some false else rest

-- `dependencyReaches`, with one round for each row and two to spare.
unfoldable pub dependency_reaches : Db → ℕ → ℕ → Option Bool
dependency_reaches db start wanted =
    reaches_from (next_of db) (suc (suc (length db.tasks))) [] wanted start

-- The values 0, 1 and 2 of the map `state`.
pub data Colour : Type 0 where
  fresh active finished : Colour

abbrev pub Marks : Type 0
Marks = ℕ → Colour

unfoldable pub mark : Marks → ℕ → Colour → Marks
mark st i c j = if i == j then c else st j

-- What `visit` does when the call for the successor has returned.
abbrev pub leave : ℕ → Option (Bool × Marks) → Option (Bool × Marks)
leave i none = none
leave i (some (false, st)) = some (false, st)
leave i (some (true, st)) = some (true, mark st i finished)

-- The closure `visit` of `validateProjectDependencyGraph`.
unfoldable pub visit : Next → ℕ → Marks → ℕ → Option (Bool × Marks)
visit next zero st i = none
visit next (suc fuel) st i = elim (st i) [
  | active ↦ some (false, st)
  | finished ↦ some (true, st)
  | fresh ↦ elim (next i) [
    | none ↦ some (true, mark st i finished)
    | some n ↦ leave i (visit next fuel (mark st i active) n)
  ]
]

-- `for id := range dependencies`: the keys in some order.
abbrev pub and_then : Option (Bool × Marks) → (Marks → Option Bool) → Option Bool
and_then none go = none
and_then (some (false, st)) go = some false
and_then (some (true, st)) go = go st

unfoldable pub visit_all : Next → ℕ → Marks → List ℕ → Option Bool
visit_all next fuel st [] = some true
visit_all next fuel st (i ∷ ids) =
    and_then (visit next fuel st i) (λ st'. visit_all next fuel st' ids)

-- The map `dependencies` of one project: `merge_of IS NULL`, and a valid `depends_on`.
abbrev pub in_graph : ℕ → Task → Bool
in_graph project t = refers t.project_id project && not (is_some t.merge_of)

unfoldable pub graph_of : ℕ → List Task → Next
graph_of project [] i = none
graph_of project (t ∷ ts) i =
    if t.id == i && in_graph project t then t.depends_on else graph_of project ts i

unfoldable pub graph_keys : ℕ → List Task → List ℕ
graph_keys project [] = []
graph_keys project (t ∷ ts) =
    let rest = graph_keys project ts in
    if in_graph project t && is_some t.depends_on then t.id ∷ rest else rest

-- `validateProjectDependencyGraph`: whether the project's graph has no cycle.
unfoldable pub project_graph_acyclic : Db → ℕ → Option Bool
project_graph_acyclic db project =
    let keys = graph_keys project db.tasks in
    visit_all (graph_of project db.tasks) (suc (length keys)) (λ i. fresh) keys
