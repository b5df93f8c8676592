-- ===== src/Store/Roles.antt =====
-- internal/store/roles.go: a role by its id.
use paihuo.Prelude.{ℕ, Option, none, some, List, [], ◌∷◌, ◌==◌, if◌then◌else◌}
use paihuo.Model.{Role}

-- `GetRole`.
unfoldable pub find_role : ℕ → List Role → Option Role
find_role i [] = none
find_role i (r ∷ rs) = let rest = find_role i rs in if r.id == i then some r else rest
