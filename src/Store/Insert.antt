-- ===== src/Store/Insert.antt =====
-- INSERT INTO tasks, with what internal/store/schema.go checks of the new row: its shape, the foreign
-- keys, and the unique indexes on `merge_of` and on a non-empty `external_key`.
pub mod Laws
use paihuo.Prelude.{
  ℕ, suc, ◌+◌, Bool, true, false, ◌&&◌, ◌||◌, not, Option, none, some, List, [], ◌∷◌, ◌++◌, ◌==◌,
  if◌then◌else◌, refers, elem, any,
}
use text.Mathlib.Text.{◌==◌ as str_eq}
use paihuo.Model.{Task, Role}
use paihuo.Model.Words.{TaskType, task, session, workflow, type_is}
use paihuo.Store.Db.{Db, Error, constraint, Result, ok, err}
use paihuo.Store.Db.Rows.{exists_row}

-- `REFERENCES tasks(id)`.
abbrev pub task_ref_ok : List Task → Option ℕ → Bool
task_ref_ok ts none = true
task_ref_ok ts (some i) = exists_row (λ t. t.id == i) ts

-- `REFERENCES projects(id)` and `REFERENCES workflow_runs(id)`.
abbrev pub ref_ok : List ℕ → Option ℕ → Bool
ref_ok ids none = true
ref_ok ids (some i) = elem i ids

-- `REFERENCES roles(id)`.
abbrev pub role_ref_ok : List Role → Option ℕ → Bool
role_ref_ok roles none = true
role_ref_ok roles (some i) = any (λ r. r.id == i) roles

-- The foreign keys of one row. `merge_of` and `schedule_id` have none.
unfoldable pub references_ok : Db → Task → Bool
references_ok db t =
    role_ref_ok db.roles t.role_id
    && (ref_ok db.projects t.project_id
        && (task_ref_ok db.tasks t.parent_id
            && (task_ref_ok db.tasks t.depends_on
                && (task_ref_ok db.tasks t.resume_of
                    && (task_ref_ok db.tasks t.session_id
                        && (ref_ok db.runs t.workflow_run_id
                            && (task_ref_ok db.tasks t.parent_session_id
                                && task_ref_ok db.tasks t.parent_task_id)))))))

-- `CHECK (type IN ('task', 'session', 'workflow'))`.
abbrev pub shape_ok : TaskType → Bool
shape_ok s = type_is s task || (type_is s session || type_is s workflow)

abbrev pub merges_same : Option ℕ → Task → Bool
merges_same none old = false
merges_same (some s) old = refers old.merge_of s

-- The unique indexes: another row merges the same source, or has the same non-empty key.
unfoldable pub clashes : Task → Task → Bool
clashes new old =
    merges_same new.merge_of old
    || (not (str_eq new.external_key "") && str_eq new.external_key old.external_key)

-- The row that an INSERT stores: revision 1 by default.
abbrev pub stored : ℕ → Task → Task
stored n t = record t { id = n; revision = 1 }

-- The table after it: the row has the next number of AUTOINCREMENT.
unfoldable pub appended : Db → Task → Db
appended db t = record db {
  tasks = db.tasks ++ (stored (suc db.last_id) t ∷ []);
  last_id = suc db.last_id;
}

-- One INSERT.
unfoldable pub insert_row : Db → Task → Result (Db × ℕ)
insert_row db t =
    if shape_ok t.shape && (references_ok db t && not (exists_row (clashes t) db.tasks))
    then ok (appended db t, suc db.last_id)
    else err constraint
