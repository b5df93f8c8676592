-- ===== src/Model.antt =====
-- internal/store/models.go: the record `Task`, roles, and the task that merges another's code.
pub mod Words
use paihuo.Prelude.{ℕ, String, Bool, true, false, Option, none, some, ltb, if◌then◌else◌}
use paihuo.Model.Words.{
  Status, queued, Perm, full, review, Mode, independent, RunMode, batch, TaskType, perm_is,
}

-- `Task`, less the columns that no modelled operation reads or writes (display names, terminal
-- size, and the fields of the session and workflow shapes). Ids, counters and revisions are natural
-- numbers; a timestamp is one too, with 0 for the empty string: `Now()` writes texts of one width,
-- whose order as texts is the order in time.
pub record Task : Type 0 where
  pub id : ℕ
  pub shape : TaskType
  pub title : String
  pub body : String
  pub status : Status
  pub perm : Perm
  pub run_mode : RunMode
  pub concurrent : Bool
  pub role_id : Option ℕ
  pub project_id : Option ℕ
  pub project_dir : String
  pub parent_id : Option ℕ
  pub depends_on : Option ℕ
  pub dependency_mode : Mode
  pub block_on_failure : Bool
  pub schedule_id : Option ℕ
  pub error : String
  pub exit_code : Option ℕ
  pub review_rounds : ℕ
  pub tmux_log_offset : ℕ
  pub worktree_branch : String
  pub resume_of : Option ℕ
  pub merge_of : Option ℕ
  pub merge_skipped : Bool
  pub session_id : Option ℕ
  pub workflow_run_id : Option ℕ
  pub sort_order : ℕ
  pub parent_session_id : Option ℕ
  pub parent_task_id : Option ℕ
  pub cron : String
  pub enabled : Bool
  pub external_key : String
  pub revision : ℕ
  pub created_at : ℕ
  pub started_at : Option ℕ
  pub finished_at : Option ℕ
  pub updated_at : ℕ

-- A Go composite literal leaves the fields that it does not name at their zero values.
abbrev pub zero_task : Task
zero_task = record {
  id = 0;
  shape = TaskType.unset;
  title = "";
  body = "";
  status = Status.unset;
  perm = Perm.unset;
  run_mode = RunMode.unset;
  concurrent = false;
  role_id = none;
  project_id = none;
  project_dir = "";
  parent_id = none;
  depends_on = none;
  dependency_mode = Mode.unset;
  block_on_failure = false;
  schedule_id = none;
  error = "";
  exit_code = none;
  review_rounds = 0;
  tmux_log_offset = 0;
  worktree_branch = "";
  resume_of = none;
  merge_of = none;
  merge_skipped = false;
  session_id = none;
  workflow_run_id = none;
  sort_order = 0;
  parent_session_id = none;
  parent_task_id = none;
  cron = "";
  enabled = false;
  external_key = "";
  revision = 0;
  created_at = 0;
  started_at = none;
  finished_at = none;
  updated_at = 0;
}

-- `NewMergeTask`. Its title and body are texts that fmt.Sprintf makes from the source's id, title
-- and branch; they come in as arguments.
unfoldable pub new_merge_task : String → String → Task → Task
new_merge_task title body source = record zero_task {
  title = title;
  body = body;
  status = queued;
  perm = full;
  run_mode = batch;
  role_id = source.role_id;
  project_id = source.project_id;
  project_dir = source.project_dir;
  workflow_run_id = source.workflow_run_id;
  parent_session_id = source.parent_session_id;
  parent_task_id = source.parent_task_id;
  parent_id = some source.id;
  merge_of = some source.id;
  dependency_mode = independent;
  block_on_failure = source.block_on_failure;
}

-- `Role`, as far as scheduling and delegation read it.
pub record Role : Type 0 where
  pub id : ℕ
  pub max_concurrency : ℕ
  pub delegation_enabled : Bool
  pub delegation_max_perm : Perm
  pub enabled : Bool

-- `Role.DelegationPermAllowed`.
unfoldable pub delegation_perm_allowed : Role → Perm → Bool
delegation_perm_allowed a perm =
    if a.delegation_enabled
    then (let max_perm =
          if perm_is a.delegation_max_perm Perm.unset then review else a.delegation_max_perm in
        if perm_is perm full then perm_is max_perm full else perm_is perm review)
    else false

-- `Role.ConcurrencyLimit`.
unfoldable pub concurrency_limit : Role → ℕ
concurrency_limit a = if ltb a.max_concurrency 1 then 1 else a.max_concurrency
