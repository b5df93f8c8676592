-- ===== src/Orchestrator/Spawn.antt =====
-- `sessionContext` and `spawnCreate` of internal/orchestrator/orchestrator.go: an agent's session makes a
-- task for another role. Each refusal is `none`; a session without a role, which `Create` never makes,
-- would be a nil pointer.
use paihuo.Prelude.{
  ℕ, String, ◌≡◌, ◌≢◌, refl, subst, ap, ◌∙◌, Bool, true, false, ◌&&◌, not, Option, none, some, ltb,
  if◌then◌else◌, arith, some-eq,
}
use text.Mathlib.Text.{◌==◌ as str_eq}
use paihuo.Model.{Task, Role, delegation_perm_allowed}
use paihuo.Model.Words.{
  active, queued, status_is, session, type_is, Perm, full, review, perm_is, Mode, independent,
  mode_is, RunMode, batch, run_mode_is,
}
use paihuo.Store.Db.{Db, get_task}
use paihuo.Store.Roles.{find_role}
use paihuo.Store.Insert.Laws.{IsKeyed}
use paihuo.Session.{as_session}
use paihuo.Application.{
  Env, CreateTaskRequest, when, after, create, default_perm, perm_ok, project_ok,
}
use paihuo.Application.Kept.{when-parts, after-parts, create-Kept}

-- `spawnArgs`, less the fields of a synchronous call.
pub record SpawnArgs : Type 0 where
  pub project_id : Option ℕ
  pub role_id : ℕ
  pub title : String
  pub body : String
  pub perm : Perm
  pub run_mode : RunMode
  pub concurrent : Bool
  pub dependency_mode : Mode
  pub depends_on : Option ℕ
  pub block_on_failure : Bool

-- The role of the session, from which `sessionContext` and `spawnCreate` read.
abbrev pub role_at : Db → Option ℕ → Option Role
role_at db none = none
role_at db (some r) = find_role r db.roles

-- `sessionContext`, with the role of the session.
unfoldable pub session_context : ℕ → Db → Option (Task × Role)
session_context session_id db = after (as_session (get_task session_id db)) (λ ss.
    when (status_is ss.status active)
      (after (role_at db ss.role_id) (λ agent. when agent.delegation_enabled (some (ss, agent)))))

abbrev pub child_enabled : Option Role → Bool
child_enabled none = false
child_enabled (some role) = role.enabled

-- Without a permission the highest that the delegation allows.
unfoldable pub child_perm : Role → Perm → Perm
child_perm agent perm =
    if perm_is perm Perm.unset
    then (if delegation_perm_allowed agent full then full else review)
    else perm

abbrev pub child_run : RunMode → RunMode
child_run mode = if run_mode_is mode RunMode.unset then batch else mode

abbrev pub child_project : Option ℕ → Option ℕ → Option ℕ
child_project none own = own
child_project (some p) own = some p

abbrev pub request_of : Env → ℕ → Perm → Option ℕ → SpawnArgs → CreateTaskRequest
request_of env session_id perm project args = record {
  title = env.trim args.title;
  body = env.trim args.body;
  role_id = some args.role_id;
  project_id = project;
  external_key = "";
  permission = perm;
  run_mode = child_run args.run_mode;
  concurrent = args.concurrent;
  dependency_mode =
      if mode_is args.dependency_mode Mode.unset then independent else args.dependency_mode;
  depends_on = args.depends_on;
  block_on_failure = args.block_on_failure;
  parent_id = none;
  resume_of = none;
  parent_session_id = some session_id;
  parent_task_id = some session_id;
  cron = "";
  enabled = false;
}

-- `spawnCreate`, after `sessionContext`.
unfoldable pub spawn_as : Env → ℕ → ℕ → SpawnArgs → Db → Task → Role → Option (Db × Task)
spawn_as env now session_id args db ss agent =
    when (not (str_eq (env.trim args.title) "") && not (str_eq (env.trim args.body) "")) (
      when (not (ltb args.role_id 1) && child_enabled (find_role args.role_id db.roles)) (
        when (perm_ok (child_perm agent args.perm)) (
          when (delegation_perm_allowed agent (child_perm agent args.perm)) (
            when (run_mode_is (child_run args.run_mode) batch) (
              when (project_ok db (child_project args.project_id ss.project_id)) (
                create env now
                  (request_of env session_id (child_perm agent args.perm)
                    (child_project args.project_id ss.project_id) args)
                  db))))))

unfoldable pub spawn_create : Env → ℕ → ℕ → SpawnArgs → Db → Option (Db × Task)
spawn_create env now session_id args db =
    after (session_context session_id db) (λ p. spawn_as env now session_id args db p.0 p.1)

default_perm-known : (p : Perm) → perm_ok p ≡ true → default_perm p ≡ p
default_perm-known p h = by (perm_is p Perm.unset) refl
  where
    by : (b : Bool) → perm_is p Perm.unset ≡ b → (if b then full else p) ≡ p
    by true e = absurd (ground arith)
    by false e = refl

-- The session that has called, and its role.
pub record Caller (session_id : ℕ) (db : Db) (ss : Task) (agent : Role) : Type 0 where
  pub found : get_task session_id db ≡ some ss
  pub shape : type_is ss.shape session ≡ true
  pub running : status_is ss.status active ≡ true
  pub role : role_at db ss.role_id ≡ some agent
  pub delegates : agent.delegation_enabled ≡ true

as_session-parts :
    (o : Option Task) {ss : Task}
    → as_session o ≡ some ss
    → (o ≡ some ss) × (type_is ss.shape session ≡ true)
as_session-parts none h = cc
as_session-parts (some t) {ss = ss} h = ground arith

session_context-Caller :
    (session_id : ℕ) (db : Db) (p : Task × Role)
    → session_context session_id db ≡ some p
    → Caller session_id db p.0 p.1
unfolding session_context
session_context-Caller session_id db p h =
    let (ss, a, h1) = after-parts (as_session (get_task session_id db)) _ h in
    let (run, h2) = when-parts (status_is ss.status active) _ h1 in
    let (agent, b, h3) = after-parts (role_at db ss.role_id) _ h2 in
    let (on, h4) = when-parts agent.delegation_enabled _ h3 in
    let parts = as_session-parts (get_task session_id db) a in
    subst (λ (q : Task × Role). Caller session_id db q.0 q.1) (some-eq h4)
      (record { found = parts.0; shape = parts.1; running = run; role = b; delegates = on })

-- No session raises its rights by delegation. When a tool call makes a task, the caller is an active
-- session whose role may delegate, the new row is queued, belongs to this session and has a permission
-- that the delegation of the role allows, and no other row is touched.
pub spawn_create-Allowed :
    (env : Env) (now session_id : ℕ) (args : SpawnArgs) (db : Db) {db' : Db} {u : Task}
    → IsKeyed db
    → spawn_create env now session_id args db ≡ some (db', u)
    → (ss : Task) × (agent : Role) × Caller session_id db ss agent
      × (delegation_perm_allowed agent u.perm ≡ true)
      × (u.parent_session_id ≡ some session_id)
      × (u.status ≡ queued)
      × (n : ℕ) × (get_task n db' ≡ some u)
      × ((j : ℕ) → j ≢ n → get_task j db' ≡ get_task j db)
unfolding spawn_create spawn_as
spawn_create-Allowed env now session_id args db {db' = db'} {u = u} keyed h =
    let (p, context, h1) = after-parts (session_context session_id db) _ h in
    let h2 =
      (when-parts (not (str_eq (env.trim args.title) "") && not (str_eq (env.trim args.body) "")) _
        h1).1 in
    let h3 =
      (when-parts (not (ltb args.role_id 1) && child_enabled (find_role args.role_id db.roles)) _
        h2).1 in
    let (known, h4) = when-parts (perm_ok (child_perm p.1 args.perm)) _ h3 in
    let (allowed, h5) = when-parts (delegation_perm_allowed p.1 (child_perm p.1 args.perm)) _ h4 in
    let h6 = (when-parts (run_mode_is (child_run args.run_mode) batch) _ h5).1 in
    let h7 = (when-parts (project_ok db (child_project args.project_id p.0.project_id)) _ h6).1 in
    let (n, at, perm, status, owner, others) = create-Kept env now _ db keyed h7 in
    (
      p.0,
      p.1,
      session_context-Caller session_id db p context,
      ap (delegation_perm_allowed p.1) (perm ∙ default_perm-known (child_perm p.1 args.perm) known)
          ∙ allowed,
      owner,
      status,
      n,
      at,
      others,
    )
