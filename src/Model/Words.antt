-- ===== src/Model/Words.antt =====
-- The string constants of internal/store/models.go, as enumerations. A column that holds any other
-- text is `unknown`, numbered by the text; `unset` is the empty string.
use paihuo.Prelude.{ℕ, ◌+◌, Bool, ◌==◌}

-- The statuses of tasks, of sessions and of workflow definitions share the column `tasks.status`.
pub data Status : Type 0 where
  queued claimed running awaiting_review succeeded failed cancelled : Status
  created active suspended delivered deleted : Status
  adopted : Status
  unset : Status
  unknown : ℕ → Status

abbrev pub status_tag : Status → ℕ
status_tag queued = 0
status_tag claimed = 1
status_tag running = 2
status_tag awaiting_review = 3
status_tag succeeded = 4
status_tag failed = 5
status_tag cancelled = 6
status_tag created = 7
status_tag active = 8
status_tag suspended = 9
status_tag delivered = 10
status_tag deleted = 11
status_tag adopted = 12
status_tag unset = 13
status_tag (unknown n) = 14 + n

-- `status == constant`.
abbrev pub status_is : Status → Status → Bool
status_is a b = status_tag a == status_tag b

-- Permission modes.
pub data Perm : Type 0 where
  full review : Perm
  unset : Perm
  unknown : ℕ → Perm

abbrev pub perm_tag : Perm → ℕ
perm_tag full = 0
perm_tag review = 1
perm_tag unset = 2
perm_tag (unknown n) = 3 + n

abbrev pub perm_is : Perm → Perm → Bool
perm_is a b = perm_tag a == perm_tag b

-- Dependency modes.
pub data Mode : Type 0 where
  independent weak strong : Mode
  unset : Mode
  unknown : ℕ → Mode

abbrev pub mode_tag : Mode → ℕ
mode_tag independent = 0
mode_tag weak = 1
mode_tag strong = 2
mode_tag unset = 3
mode_tag (unknown n) = 4 + n

abbrev pub mode_is : Mode → Mode → Bool
mode_is a b = mode_tag a == mode_tag b

-- Run modes.
pub data RunMode : Type 0 where
  batch interactive : RunMode
  unset : RunMode
  unknown : ℕ → RunMode

abbrev pub run_mode_tag : RunMode → ℕ
run_mode_tag batch = 0
run_mode_tag interactive = 1
run_mode_tag unset = 2
run_mode_tag (unknown n) = 3 + n

abbrev pub run_mode_is : RunMode → RunMode → Bool
run_mode_is a b = run_mode_tag a == run_mode_tag b

-- The shapes of a task: the schema admits the first three.
pub data TaskType : Type 0 where
  task session workflow : TaskType
  unset : TaskType
  unknown : ℕ → TaskType

abbrev pub type_tag : TaskType → ℕ
type_tag task = 0
type_tag session = 1
type_tag workflow = 2
type_tag unset = 3
type_tag (unknown n) = 4 + n

abbrev pub type_is : TaskType → TaskType → Bool
type_is a b = type_tag a == type_tag b
