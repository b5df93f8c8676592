-- ===== src/Store/Queue.antt =====
-- `ListQueuedTasks` of internal/store/task_query.go: which tasks the dispatcher is given, and the order in
-- which it gets them.
pub mod Order
use paihuo.Prelude.{
  ℕ, ◌≡◌, Bool, true, false, ◌&&◌, not, Option, none, some, List, [], ◌∷◌, ◌==◌, ltb, if◌then◌else◌,
  is_some, keep, refers,
}
use text.Mathlib.Text.{◌==◌ as str_eq}
use paihuo.Model.{Task, Role}
use paihuo.Model.Words.{queued, status_is, task, type_is}
use paihuo.Store.Db.{Db}

-- `a.enabled=1`, in the join with the roles.
abbrev pub is_enabled : List Role → Option ℕ → Bool
is_enabled [] o = false
is_enabled (r ∷ rs) o = let rest = is_enabled rs o in if refers o r.id then r.enabled else rest

-- The WHERE clause.
abbrev pub is_queued : Db → Task → Bool
is_queued db t =
    status_is t.status queued
    && (type_is t.shape task && (str_eq t.cron "" && is_enabled db.roles t.role_id))

-- `projEarliest`: over the rows, the least creation time of a project.
abbrev pub earlier : Option ℕ → ℕ → Option ℕ
earlier none at = some at
earlier (some cur) at = if ltb at cur then some at else some cur

unfoldable pub proj_earliest : ℕ → List Task → Option ℕ
proj_earliest project [] = none
proj_earliest project (t ∷ ts) =
    let rest = proj_earliest project ts in
    if refers t.project_id project then earlier rest t.created_at else rest

-- `queueKey`.
abbrev pub key_or : ℕ → Option ℕ → ℕ
key_or at none = at
key_or at (some e) = e

abbrev pub queue_key_of : ℕ → List Task → Option ℕ → ℕ
queue_key_of at rows none = at
queue_key_of at rows (some project) = key_or at (proj_earliest project rows)

unfoldable pub queue_key : List Task → Task → ℕ
queue_key rows t = queue_key_of t.created_at rows t.project_id

abbrev pub same_project : Option ℕ → Option ℕ → Bool
same_project (some a) (some b) = a == b
same_project _ _ = false

-- `queuedTaskLess`, from the order of a project on.
abbrev pub by_time : Task → Task → Bool
by_time a b =
    if not (a.created_at == b.created_at) then ltb a.created_at b.created_at else ltb a.id b.id

abbrev pub by_place : Task → Task → Bool
by_place a b =
    if same_project a.project_id b.project_id && not (a.sort_order == b.sort_order)
    then ltb a.sort_order b.sort_order
    else by_time a b

-- `queuedTaskLess`.
unfoldable pub queued_task_less : List Task → Task → Task → Bool
queued_task_less rows a b =
    if not (queue_key rows a == queue_key rows b)
    then ltb (queue_key rows a) (queue_key rows b)
    else (if is_some a.merge_of
        then (if is_some b.merge_of then by_place a b else true)
        else (if is_some b.merge_of then false else by_place a b))
