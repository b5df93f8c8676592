-- ===== src/Store/Edit/Stale.antt =====
-- An edit at a revision that is no longer the task's.
use paihuo.Prelude.{
  ℕ, ◌≡◌, ◌≢◌, refl, ◌||◌, Option, none, some, ◌==◌, is_some, Bool-cases, inl, inr, ap, ==→≡,
}
use paihuo.Model.{Task}
use paihuo.Store.Db.{Db, revision_conflict, Result, err, get_task}
use paihuo.Store.Edit.{
  Changes, is_empty, write_at, update_at_revision, guarded, update_task_at_revision,
}

-- The revision of a row; a missing row has none.
abbrev pub revision_of : Option Task → Option ℕ
revision_of none = none
revision_of (some t) = some t.revision

write_at-stale :
    (i expected : ℕ) (set : Changes) (change : Task → Task) (db : Db) (o : Option Task)
    → revision_of o ≢ some expected
    → write_at i expected set change o db ≡ err revision_conflict
unfolding write_at
write_at-stale i expected set change db none ne = refl
write_at-stale i expected set change db (some t) ne = elim (Bool-cases (t.revision == expected)) [
  | inl e ↦ absurd (ne (ap (λ (n : ℕ). some n) (==→≡ t.revision expected e)))
  | inr e ↦ rw e refl
]

guarded-stale :
    (now i expected : ℕ) (set : Changes) (db : Db) (o : Option Task)
    → revision_of o ≢ some expected
    → guarded now i expected set db o ≡ some (err revision_conflict)
guarded-stale now i expected set db none ne = refl
guarded-stale now i expected set db (some t) ne = elim (Bool-cases (t.revision == expected)) [
  | inl e ↦ absurd (ne (ap (λ (n : ℕ). some n) (==→≡ t.revision expected e)))
  | inr e ↦ rw e refl
]

-- An edit that carries a revision other than the task's, or that names a task which is not there, is
-- refused as a conflict whatever it asks for, before any other check of it; a transaction that is refused
-- leaves the database as it was.
pub update_task_at_revision-stale :
    (now i expected : ℕ) (set : Changes) (db : Db)
    → revision_of (get_task i db) ≢ some expected
    → update_task_at_revision now i expected set db ≡ some (err revision_conflict)
unfolding update_task_at_revision update_at_revision
update_task_at_revision-stale now i expected set db ne =
    elim (Bool-cases (is_some set.dependency_mode || is_some set.depends_on)) [
      | inl asks ↦ elim (Bool-cases (expected == 0)) [
        | inl z ↦ rw (asks, z) refl
        | inr z ↦ rw (asks, z) (guarded-stale now i expected set db (get_task i db) ne)
      ]
      | inr plain ↦ elim (Bool-cases (expected == 0 || is_empty set)) [
        | inl z ↦ rw (plain, z) refl
        | inr z ↦
            rw (plain, z)
              (ap (λ (r : Result Db). some r)
                (write_at-stale i expected set _ db (get_task i db) ne))
      ]
    ]
