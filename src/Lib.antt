-- ===== src/Lib.antt =====
-- paihuo is a local dispatcher of coding agents: tasks stand in a queue of a SQLite database, roles run
-- them in tmux sessions and git worktrees, and each finished task hands its code to a merge task. This
-- library models the store of tasks, internal/store: the rows and their constraints, the statuses of a
-- task, merge tasks, the dependencies among tasks and the gate that reads them, creation, edits, the order
-- of a project, and deletion; the stream of events, internal/events; the executor's slots and dispatch
-- loop, internal/exec; the life of a session, internal/session; the creation of tasks by users and by
-- agents, internal/application and internal/orchestrator; workflows, which are graphs of nodes with a
-- policy, internal/workflow, and their definitions and runs, internal/store/workflows.go and
-- internal/application/workflow_service.go. The parts meet in the database and in the slots:
-- the dispatcher reads the queue, asks the store whether a task's dependencies are delivered, reserves a
-- slot of its run, its role and its project, and claims it; a session reserves a slot of its role from the
-- same counters, makes tasks of its own while it is active, and becomes a task when it is delivered; a run
-- of a workflow is a queued task for each node, with an edge for each dependency, which the same gate
-- reads, and it ends when the deliveries of its tasks do.
--
-- How the code is read. An operation of `Store` is a function from the state `Db` (the rows of the
-- tables) to its new state and answer. A transaction is a function into `Result`: on `err` nothing has
-- changed, which is what `defer tx.Rollback()` comes to. SQLite serialises the writers of one database,
-- so that an interleaving of callers is a list of operations. A SELECT is a function on the list of rows,
-- `UPDATE … WHERE` maps the rows and counts those that matched, DELETE filters them. Rows stand in the
-- order of their ids, which AUTOINCREMENT hands out. Failures of the disk, of the driver and of Scan are
-- not modelled. Ids, counters, revisions and times are natural numbers; the time 0 is the empty text, and
-- each operation reads the clock once, an argument of its function. The texts of errors and of reasons
-- are not modelled; those of a merge task are arguments. Foreign keys are checked by INSERT, by DELETE and
-- by the UPDATEs that write an id which a request names. A request's map of columns is a record of the
-- keys that the code reads, with a function for what the other keys write.
--
-- The executor is the database, its three counters and the list of the tasks whose goroutine has started
-- and not returned; a goroutine is named by its place in that list. A map of counters is a function, with
-- 0 for a missing key, and each operation on it holds the mutex throughout. A pass of `dispatch` runs over
-- the list that ListQueuedTasks has returned; the limit of a run, which the code reads from the text of a
-- workflow's definition, is a parameter. The manager of sessions is the executor with the ids of the
-- sessions that have a channel. What git, a process, a runtime or the disk answers is an argument of the
-- operation, and for sessions so is whether the write of a status succeeds. Bytes are numbers in the
-- tokens; HMAC and base64 are parameters, with what is documented of base64 as a hypothesis.
--
-- A workflow's specification is the value that its JSON text stands for; where the text does not parse, it
-- is missing. Its numbers are signed, and a sum of budgets wraps around as `int64` does. The maps `nodes`,
-- `state` and `memo` are functions of an id, and the order in which a map yields its keys is an argument.
-- The table of runs is kept as rows and, for the foreign key of the tasks, as ids. `text/template` and
-- `strings.TrimSpace` on what is stored are parameters; where the policy trims, the trimming is written
-- out, on code points.
--
-- Recursion that the code does not bound runs on fuel, and `none` is fuel that ran out. The definitions
-- take the fuel that the code's own marks allow: `dependencyReaches` stops at a task it has seen, so that
-- it has one round for each row and two more; a call of the closure of `validateProjectDependencyGraph`
-- marks a task with a dependency, so that it has one round for each of those and one more;
-- `dependencyReplacement` goes on only inside the deleted set, and has two rounds more than that has
-- tasks; `graphDepth` marks each node that it visits, and has one round for each key of the map and one
-- more. `deleteTaskTree` keeps no marks, and its fuel is an argument.
--
--   Prelude, Prelude/*        names of the libraries, tests and lists
--   Model, Model/*            internal/store/models.go: Task, Role, NewMergeTask, the constants
--   Store/Db, Store/Db/*      internal/store/schema.go: the tables, and the SQL statements on rows
--   Store/Insert              INSERT INTO tasks with its constraints
--   Store/State               internal/store/task_state.go and the conditional UPDATEs of task_update.go,
--                             task_merge.go and task_dependency.go
--   Store/Merge               internal/store/task_merge.go, EnsureMergeTask; Sources and Inserted are about
--                             the two halves of its transactions, Once and Ensure about the whole
--   Store/Chain               dependencyReaches, validateProjectDependencyGraph
--   Store/Delivery            internal/store/task_dependency.go: deliveryStateOf, CheckTaskDependency; Ready
--                             says what it lets start, Held what it blocks
--   Store/Create              internal/store/task_create.go
--   Store/Edit                UpdateTaskAtRevision, previousProjectTask; UpdateAtRevision and
--                             AssertRevision of internal/store/revision.go, for tasks
--   Store/Order               ReorderProjectTasks, rebuildQueuedWeakDependencies, UpdateTask
--   Store/Delete              internal/store/task_delete.go
--   Store/Queue               ListQueuedTasks, queuedTaskLess, queueKey of internal/store/task_query.go
--   Store/Roles               GetRole of internal/store/roles.go
--   Store/Workflows           InstantiateWorkflow of internal/store/workflows.go; Sorted, Planted, Linked,
--                             Apart and Total are about its loops, Launched and Startable about the whole
--   Store/Definitions         the definitions of workflows and the end of a run, in the same file
--   Workflow/Spec, Text       internal/workflow/model.go, and the texts that policy.go reads
--   Workflow/Depth, Depth/*   graphDepth of internal/workflow/policy.go
--   Workflow/Policy, Policy/* Validate of internal/workflow/policy.go
--   Exec/Slots                the counters of internal/exec/executor.go and their reservation
--   Exec/Slots/Accounts       the counters against the lists of their holders
--   Exec/Dispatch             dispatch, the end of runTask, recoverInterrupted
--   Exec/Dispatch/Rule        what dispatch decides, without counters; Stages and Admits relate the two
--   Exec/Dispatch/Bounds      the limits; Exec/Dispatch/Loop: the executor's life as steps
--   Session                   internal/session/session.go, and Start, Suspend, Delete, handleExit and
--                             Recover of internal/session/manager.go
--   Session/Deliver           Create and Deliver of internal/session/manager.go
--   Session/*                 the slots and the statuses of sessions
--   Application               TaskLifecycle.Create of internal/application/task_lifecycle.go
--   Application/Transitions   Resume, Approve and ValidateTransition of task_transitions.go, there
--   Application/Workflows     internal/application/workflow_service.go
--   Orchestrator/Decimal      the decimal texts, Orchestrator/Token: SignToken and VerifyToken, and
--   Orchestrator/Spawn        sessionContext and spawnCreate, of internal/orchestrator/orchestrator.go
--   Events                    internal/events/stream.go, internal/store/logs_events.go
--   Scenarios, Scenarios/*    the theorems at concrete databases
--
-- `format_int` has as many rounds as its number is large, more than it has digits.
--
-- Not modelled: most columns of sessions, the hash of a workflow's text, the deletion of artifacts,
-- statistics and projections (read-side SQL), migrations; what a task does between its start
-- and its end, tmux, runtimes, git, the channels of sessions, the HTTP server and the frontend, which are
-- input and output around these parts; the stable sort of the queue, of which the comparison is modelled.
pub mod Prelude
pub mod Model
pub mod Events
pub mod Store
pub mod Workflow
pub mod Exec
pub mod Session
pub mod Application
pub mod Orchestrator
pub mod Scenarios
