-- ===== src/Exec/Slots.antt =====
-- The slots of internal/exec/executor.go: how many tasks of a role, of a project and of a workflow run are
-- executing. A map from ids to counts is a function; a key that is not there counts 0. Each operation
-- holds the mutex for its whole length.
pub mod Accounts
use paihuo.Prelude.{
  ℕ, ◌+◌, ◌-◌, Bool, true, false, ◌&&◌, not, Option, none, some, ◌==◌, ltb, leb, if◌then◌else◌,
}
use paihuo.Model.{Task}

pub record Slots : Type 0 where
  pub active : ℕ → ℕ
  pub active_proj : ℕ → ℕ
  pub active_runs : ℕ → ℕ

-- `m[k]++`.
unfoldable pub increment : (ℕ → ℕ) → ℕ → ℕ → ℕ
increment m k j = if k == j then m j + 1 else m j

-- `if m[k] <= 1 { delete(m, k) } else { m[k]-- }`.
unfoldable pub decrement : (ℕ → ℕ) → ℕ → ℕ → ℕ
decrement m k j = if k == j then (if leb (m j) 1 then 0 else m j - 1) else m j

-- `if limit < 1 { limit = 1 }`.
abbrev pub at_least_one : ℕ → ℕ
at_least_one limit = if ltb limit 1 then 1 else limit

-- `reserveRoleSlot`.
unfoldable pub reserve_role_slot : ℕ → ℕ → Slots → Slots × Bool
reserve_role_slot role_id limit s =
    if leb (at_least_one limit) (s.active role_id)
    then (s, false)
    else (record s { active = increment s.active role_id }, true)

-- `restoreRoleSlot`.
unfoldable pub restore_role_slot : ℕ → Slots → Slots
restore_role_slot role_id s = record s { active = increment s.active role_id }

-- `releaseRoleSlot`.
unfoldable pub release_role_slot : ℕ → Slots → Slots
release_role_slot role_id s = record s { active = decrement s.active role_id }

abbrev pub reserve_in_project : Task → Option ℕ → Slots → Slots × Bool
reserve_in_project tk none s = (s, true)
reserve_in_project tk (some project) s =
    if not tk.concurrent && ltb 0 (s.active_proj project)
    then (s, false)
    else (record s { active_proj = increment s.active_proj project }, true)

-- `reserveProjectSlot`.
unfoldable pub reserve_project_slot : Task → Slots → Slots × Bool
reserve_project_slot tk s = reserve_in_project tk tk.project_id s

abbrev pub change_project : ((ℕ → ℕ) → ℕ → ℕ → ℕ) → Option ℕ → Slots → Slots
change_project change none s = s
change_project change (some project) s = record s { active_proj = change s.active_proj project }

-- `releaseProjectSlot` and `restoreProjectSlot`.
unfoldable pub release_project_slot : Task → Slots → Slots
release_project_slot tk s = change_project decrement tk.project_id s

unfoldable pub restore_project_slot : Task → Slots → Slots
restore_project_slot tk s = change_project increment tk.project_id s

abbrev pub reserve_in_run : Option ℕ → ℕ → Slots → Slots × Bool
reserve_in_run none limit s = (s, true)
reserve_in_run (some run) limit s =
    if leb (at_least_one limit) (s.active_runs run)
    then (s, false)
    else (record s { active_runs = increment s.active_runs run }, true)

-- `reserveWorkflowSlot`.
unfoldable pub reserve_workflow_slot : Task → ℕ → Slots → Slots × Bool
reserve_workflow_slot tk limit s = reserve_in_run tk.workflow_run_id limit s

abbrev pub change_run : ((ℕ → ℕ) → ℕ → ℕ → ℕ) → Option ℕ → Slots → Slots
change_run change none s = s
change_run change (some run) s = record s { active_runs = change s.active_runs run }

-- `releaseWorkflowSlot` and `restoreWorkflowSlot`.
unfoldable pub release_workflow_slot : Task → Slots → Slots
release_workflow_slot tk s = change_run decrement tk.workflow_run_id s

unfoldable pub restore_workflow_slot : Task → Slots → Slots
restore_workflow_slot tk s = change_run increment tk.workflow_run_id s
