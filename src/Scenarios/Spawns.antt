-- ===== src/Scenarios/Spawns.antt =====
-- An agent's session that may delegate up to review makes a task.
use paihuo.Prelude.{ℕ, ◌≡◌, ◌≢◌, refl, true, false, none, some, [], ◌∷◌, arith}
use paihuo.Model.{Task, Role, zero_task, delegation_perm_allowed}
use paihuo.Model.Words.{Perm, Mode, RunMode, active, queued, review, session}
use paihuo.Store.Db.{Db, get_task}
use paihuo.Store.Insert.Laws.{IsKeyed}
use paihuo.Application.{Env}
use paihuo.Application.{normalize_dependency, requested, create}
use paihuo.Store.Roles.{find_role}
use paihuo.Store.Db.Rows.{find, exists_row}
use paihuo.Store.Insert.{insert_row, appended, clashes, references_ok}
use paihuo.Store.Create.{
  create_task_with_project_dependency, resolve_new_task_dependency, assign_next_task_sort_order,
  prepare_task_for_insert, normalize_dependency_mode, valid_dependency_mode, insert_task,
  max_sort_order,
}
use paihuo.Orchestrator.Spawn.{
  session_context, spawn_as, child_perm, SpawnArgs, Caller, spawn_create, spawn_create-Allowed,
}
use paihuo.Scenarios.{queue}

abbrev boss : Role
boss = record {
  id = 5;
  max_concurrency = 1;
  delegation_enabled = true;
  delegation_max_perm = review;
  enabled = true;
}

abbrev office : Db
office = record queue {
  tasks =
      record zero_task {
        id = 1;
        shape = session;
        status = active;
        role_id = some 5;
        project_id = some 1;
        revision = 1;
      }
      ∷ [];
  last_id = 1;
  roles = boss ∷ [];
}

office-IsKeyed : IsKeyed office
office-IsKeyed = record {
  unique = (tt, tt);
  below = (omega arith, tt);
  positive = ((λ e. absurd (omega arith)), tt);
}

abbrev plain_env : Env
plain_env = record { trim = λ s. s; supports = λ r. false; dir_of = λ p. "dir" }

abbrev job : SpawnArgs
job = record {
  project_id = none;
  role_id = 5;
  title = "part";
  body = "do this";
  perm = Perm.unset;
  run_mode = RunMode.unset;
  concurrent = false;
  dependency_mode = Mode.unset;
  depends_on = none;
  block_on_failure = false;
}

abbrev answer : Db × Task
answer = elim (spawn_create plain_env 9 1 job office) [ none ↦ (office, zero_task) | some p ↦ p ]

spawns : spawn_create plain_env 9 1 job office ≡ some answer
unfolding spawn_create session_context find find_role spawn_as child_perm delegation_perm_allowed
    create normalize_dependency requested create_task_with_project_dependency
    resolve_new_task_dependency assign_next_task_sort_order prepare_task_for_insert
    normalize_dependency_mode valid_dependency_mode insert_task insert_row max_sort_order exists_row
    appended clashes references_ok
spawns = refl

spawn_create-Allowed_example :
    (ss : Task) × (agent : Role) × Caller 1 office ss agent
    × (delegation_perm_allowed agent (answer.1).perm ≡ true)
    × ((answer.1).parent_session_id ≡ some 1)
    × ((answer.1).status ≡ queued)
    × (n : ℕ) × (get_task n (answer.0) ≡ some answer.1)
    × ((j : ℕ) → j ≢ n → get_task j (answer.0) ≡ get_task j office)
spawn_create-Allowed_example = spawn_create-Allowed plain_env 9 1 job office office-IsKeyed spawns
