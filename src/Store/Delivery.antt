-- ===== src/Store/Delivery.antt =====
-- internal/store/task_dependency.go: the state of a delivery, and whether a queued task may start. The
-- texts `Reason` are not modelled.
pub mod Ready
pub mod Held
use paihuo.Prelude.{
  ℕ, Bool, true, false, not, ◌&&◌, Option, none, some, List, [], ◌∷◌, ◌==◌, leb, if◌then◌else◌,
  is_some, ◌||◌,
}
use text.Mathlib.Text.{◌==◌ as str_eq}
use paihuo.Model.{Task}
use paihuo.Model.Words.{Status, Mode, mode_is, weak, strong, independent}
use paihuo.Store.Db.{Db, Edge, get_task}
use paihuo.Store.Merge.{get_merge_task_for_source}

pub data DeliveryState : Type 0 where
  pending succeeded failed : DeliveryState

-- The inner switch, on the status of the merge task; `default` is pending.
abbrev pub merge_state : Status → DeliveryState
merge_state Status.succeeded = succeeded
merge_state Status.failed = failed
merge_state Status.cancelled = failed
merge_state _ = pending

-- A source that has succeeded: its merge task decides, where it has or needs one.
abbrev pub succeeded_state : Task → Option Task → DeliveryState
succeeded_state source none = if str_eq source.worktree_branch "" then succeeded else pending
succeeded_state source (some merge) = merge_state merge.status

-- The outer switch; `default` is pending.
abbrev pub status_state : Status → Db → Task → DeliveryState
status_state Status.failed db source = failed
status_state Status.cancelled db source = failed
status_state Status.succeeded db source =
    if source.merge_skipped
    then succeeded
    else succeeded_state source (get_merge_task_for_source source.id db)
status_state _ db source = pending

-- `deliveryStateOf`.
unfoldable pub delivery_state_of : Db → Task → DeliveryState
delivery_state_of db source =
    if is_some source.merge_of then failed else status_state source.status db source

-- `DependencyCheck`, less its text.
pub record DependencyCheck : Type 0 where
  pub ready : Bool
  pub skipped : Bool
  pub blocked : Bool

abbrev pub waiting : DependencyCheck
waiting = record { ready = false; skipped = false; blocked = false }

abbrev pub go_ahead : Bool → DependencyCheck
go_ahead skipped = record { ready = true; skipped = skipped; blocked = false }

abbrev pub blocked_by : Bool → DependencyCheck
blocked_by b = record { ready = false; skipped = false; blocked = b }

-- `workflowDependencies`: the edges of a task, `ORDER BY depends_on`.
unfoldable pub insert_edge : Edge → List Edge → List Edge
insert_edge e [] = e ∷ []
insert_edge e (f ∷ fs) = if leb e.depends_on f.depends_on then e ∷ f ∷ fs else f ∷ insert_edge e fs

unfoldable pub workflow_dependencies : ℕ → List Edge → List Edge
workflow_dependencies i [] = []
workflow_dependencies i (e ∷ es) =
    let rest = workflow_dependencies i es in if e.task_id == i then insert_edge e rest else rest

-- The loop over those edges; `none` is an error of `GetTask`.
abbrev pub edge_step :
    Bool → Bool → DeliveryState → (Bool → Option DependencyCheck) → Option DependencyCheck
edge_step skipped resume succeeded go = go skipped
edge_step skipped resume failed go = if resume then go true else some (blocked_by true)
edge_step skipped resume pending go = some waiting

unfoldable pub check_edges : Db → Bool → List Edge → Option DependencyCheck
check_edges db skipped [] = some (go_ahead skipped)
check_edges db skipped (e ∷ es) = elim (get_task e.depends_on db) [
  | none ↦ none
  | some dependency ↦
      edge_step skipped e.resume (delivery_state_of db dependency)
        (λ skipped'. check_edges db skipped' es)
]

-- The switch on the dependency mode, once the dependency's state is known.
abbrev pub strong_check : DeliveryState → DependencyCheck
strong_check succeeded = go_ahead false
strong_check failed = blocked_by true
strong_check pending = blocked_by false

abbrev pub weak_check : Bool → DeliveryState → DependencyCheck
weak_check block succeeded = go_ahead false
weak_check block failed = if block then blocked_by true else go_ahead true
weak_check block pending = waiting

abbrev pub single_check : Db → Mode → ℕ → DependencyCheck
single_check db strong d = elim (get_task d db) [
  | none ↦ waiting
  | some dependency ↦ strong_check (delivery_state_of db dependency)
]
single_check db weak d = elim (get_task d db) [
  | none ↦ go_ahead true
  | some dependency ↦ weak_check dependency.block_on_failure (delivery_state_of db dependency)
]
single_check db independent d = go_ahead false
single_check db Mode.unset d = go_ahead false
single_check db (Mode.unknown n) d = waiting

-- `CheckTaskDependency`.
abbrev pub check_single : Db → Task → Option ℕ → DependencyCheck
check_single db t none = go_ahead false
check_single db t (some d) = single_check db t.dependency_mode d

abbrev pub check_with : Db → Task → List Edge → Option DependencyCheck
check_with db t [] = some (check_single db t t.depends_on)
check_with db t (e ∷ es) = check_edges db false (e ∷ es)

unfoldable pub check_task_dependency : Db → Task → Option DependencyCheck
check_task_dependency db t =
    if is_some t.merge_of
    then some (go_ahead false)
    else check_with db t (workflow_dependencies t.id db.edges)

-- `TaskDeliveryResult`: terminal, and succeeded; `none` is an error of `GetTask`.
abbrev pub result_of : DeliveryState → Bool × Bool
result_of succeeded = (true, true)
result_of failed = (true, false)
result_of pending = (false, false)

unfoldable pub task_delivery_result : Db → ℕ → Option (Bool × Bool)
task_delivery_result db i = elim (get_task i db) [
  | none ↦ none
  | some t ↦ some (result_of (delivery_state_of db t))
]
