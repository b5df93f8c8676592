-- ===== src/Exec/Slots/Accounts.antt =====
-- The slots as an account of who holds them.
use paihuo.Prelude.{
  ℕ, ◌+◌, ◌<◌, ◌≡◌, refl, Bool, true, false, Option, none, some, List, ◌∷◌, arith, refers,
}
use paihuo.Model.{Task}
use paihuo.Store.Db.Rows.{count_rows}
use paihuo.Exec.Slots.{
  Slots, increment, decrement, at_least_one, reserve_role_slot, restore_role_slot,
  release_role_slot, reserve_in_project, reserve_project_slot, change_project, release_project_slot,
  restore_project_slot, reserve_in_run, reserve_workflow_slot, change_run, release_workflow_slot,
  restore_workflow_slot,
}

abbrev pub of_role : ℕ → Task → Bool
of_role r t = refers t.role_id r

abbrev pub of_project : ℕ → Task → Bool
of_project p t = refers t.project_id p

abbrev pub of_run : ℕ → Task → Bool
of_run r t = refers t.workflow_run_id r

-- The holders of the slots: `outside` counts the role slots that are held by others than tasks.
pub record Agrees (outside : ℕ → ℕ) (roles projects runs : List Task) (s : Slots) : Type 0 where
  pub by_role : (r : ℕ) → s.active r ≡ outside r + count_rows (of_role r) roles
  pub by_project : (p : ℕ) → s.active_proj p ≡ count_rows (of_project p) projects
  pub by_run : (r : ℕ) → s.active_runs r ≡ count_rows (of_run r) runs

module _ {outside : ℕ → ℕ} {R P W : List Task} {s : Slots} (a : Agrees outside R P W s) where
  pub reserve_role_slot-Agrees :
      (tk : Task) (role_id limit : ℕ)
      → tk.role_id ≡ some role_id
      → (reserve_role_slot role_id limit s).1 ≡ true
      → Agrees outside (tk ∷ R) P W (reserve_role_slot role_id limit s).0
        × (outside role_id + count_rows (of_role role_id) R < at_least_one limit)
  unfolding reserve_role_slot increment count_rows
  reserve_role_slot-Agrees tk role_id limit e h = (
    record {
      by_role = λ r. ground (arith, a.by_role r, a.by_role role_id);
      by_project = λ p. ground (arith, a.by_project p);
      by_run = λ r. ground (arith, a.by_run r);
    },
    ground (arith, a.by_role role_id),
  )

  pub release_role_slot-Agrees :
      (tk : Task) (Q : List Task) (role_id : ℕ)
      → tk.role_id ≡ some role_id
      → R ≡ tk ∷ Q
      → Agrees outside Q P W (release_role_slot role_id s)
  unfolding release_role_slot decrement count_rows
  release_role_slot-Agrees tk Q role_id e h = record {
    by_role = λ r. ground (arith, a.by_role r);
    by_project = λ p. ground (arith, a.by_project p);
    by_run = λ r. ground (arith, a.by_run r);
  }

  pub restore_role_slot-Agrees :
      (tk : Task) (role_id : ℕ)
      → tk.role_id ≡ some role_id
      → Agrees outside (tk ∷ R) P W (restore_role_slot role_id s)
  unfolding restore_role_slot increment count_rows
  restore_role_slot-Agrees tk role_id e = record {
    by_role = λ r. ground (arith, a.by_role r);
    by_project = λ p. ground (arith, a.by_project p);
    by_run = λ r. ground (arith, a.by_run r);
  }

  -- A project's slot is given to a task that may run beside others, or that is alone.
  pub reserve_project_slot-Agrees :
      (tk : Task)
      → (reserve_project_slot tk s).1 ≡ true
      → Agrees outside R (tk ∷ P) W (reserve_project_slot tk s).0
        × ((p : ℕ)
            → tk.project_id ≡ some p
            → tk.concurrent ≡ false
            → count_rows (of_project p) P ≡ 0)
  unfolding reserve_project_slot increment count_rows
  reserve_project_slot-Agrees tk = by tk.project_id refl
    where
      by :
          (o : Option ℕ)
          → tk.project_id ≡ o
          → (reserve_in_project tk o s).1 ≡ true
          → Agrees outside R (tk ∷ P) W (reserve_in_project tk o s).0
            × ((p : ℕ) → o ≡ some p → tk.concurrent ≡ false → count_rows (of_project p) P ≡ 0)
      by none e h = (
        record {
          by_role = a.by_role;
          by_project = λ p. ground (arith, a.by_project p);
          by_run = a.by_run;
        },
        λ p f c. absurd (cc),
      )
      by (some project) e h = (
        record {
          by_role = λ r. ground (arith, a.by_role r);
          by_project = λ p. ground (arith, a.by_project p);
          by_run = λ r. ground (arith, a.by_run r);
        },
        λ p f c. ground (arith, a.by_project p),
      )

  pub release_project_slot-Agrees :
      (tk : Task) (Q : List Task) → P ≡ tk ∷ Q → Agrees outside R Q W (release_project_slot tk s)
  unfolding release_project_slot decrement count_rows
  release_project_slot-Agrees tk Q h = by tk.project_id refl
    where
      by : (o : Option ℕ) → tk.project_id ≡ o → Agrees outside R Q W (change_project decrement o s)
      by none e = record {
        by_role = a.by_role;
        by_project = λ p. ground (arith, a.by_project p);
        by_run = a.by_run;
      }
      by (some project) e = record {
        by_role = λ r. ground (arith, a.by_role r);
        by_project = λ p. ground (arith, a.by_project p);
        by_run = λ r. ground (arith, a.by_run r);
      }

  pub restore_project_slot-Agrees :
      (tk : Task) → Agrees outside R (tk ∷ P) W (restore_project_slot tk s)
  unfolding restore_project_slot increment count_rows
  restore_project_slot-Agrees tk = by tk.project_id refl
    where
      by :
          (o : Option ℕ)
          → tk.project_id ≡ o
          → Agrees outside R (tk ∷ P) W (change_project increment o s)
      by none e = record {
        by_role = a.by_role;
        by_project = λ p. ground (arith, a.by_project p);
        by_run = a.by_run;
      }
      by (some project) e = record {
        by_role = λ r. ground (arith, a.by_role r);
        by_project = λ p. ground (arith, a.by_project p);
        by_run = λ r. ground (arith, a.by_run r);
      }

  pub reserve_workflow_slot-Agrees :
      (tk : Task) (limit : ℕ)
      → (reserve_workflow_slot tk limit s).1 ≡ true
      → Agrees outside R P (tk ∷ W) (reserve_workflow_slot tk limit s).0
        × ((r : ℕ) → tk.workflow_run_id ≡ some r → count_rows (of_run r) W < at_least_one limit)
  unfolding reserve_workflow_slot increment count_rows
  reserve_workflow_slot-Agrees tk limit = by tk.workflow_run_id refl
    where
      by :
          (o : Option ℕ)
          → tk.workflow_run_id ≡ o
          → (reserve_in_run o limit s).1 ≡ true
          → Agrees outside R P (tk ∷ W) (reserve_in_run o limit s).0
            × ((r : ℕ) → o ≡ some r → count_rows (of_run r) W < at_least_one limit)
      by none e h = (
        record {
          by_role = a.by_role;
          by_project = a.by_project;
          by_run = λ r. ground (arith, a.by_run r);
        },
        λ r f. absurd (cc),
      )
      by (some run) e h = (
        record {
          by_role = λ r. ground (arith, a.by_role r);
          by_project = λ p. ground (arith, a.by_project p);
          by_run = λ r. ground (arith, a.by_run r);
        },
        λ r f. ground (arith, a.by_run r),
      )

  pub release_workflow_slot-Agrees :
      (tk : Task) (Q : List Task) → W ≡ tk ∷ Q → Agrees outside R P Q (release_workflow_slot tk s)
  unfolding release_workflow_slot decrement count_rows
  release_workflow_slot-Agrees tk Q h = by tk.workflow_run_id refl
    where
      by : (o : Option ℕ) → tk.workflow_run_id ≡ o → Agrees outside R P Q (change_run decrement o s)
      by none e = record {
        by_role = a.by_role;
        by_project = a.by_project;
        by_run = λ r. ground (arith, a.by_run r);
      }
      by (some run) e = record {
        by_role = λ r. ground (arith, a.by_role r);
        by_project = λ p. ground (arith, a.by_project p);
        by_run = λ r. ground (arith, a.by_run r);
      }

  pub restore_workflow_slot-Agrees :
      (tk : Task) → Agrees outside R P (tk ∷ W) (restore_workflow_slot tk s)
  unfolding restore_workflow_slot increment count_rows
  restore_workflow_slot-Agrees tk = by tk.workflow_run_id refl
    where
      by :
          (o : Option ℕ)
          → tk.workflow_run_id ≡ o
          → Agrees outside R P (tk ∷ W) (change_run increment o s)
      by none e = record {
        by_role = a.by_role;
        by_project = a.by_project;
        by_run = λ r. ground (arith, a.by_run r);
      }
      by (some run) e = record {
        by_role = λ r. ground (arith, a.by_role r);
        by_project = λ p. ground (arith, a.by_project p);
        by_run = λ r. ground (arith, a.by_run r);
      }

module _ (s : Slots) where
  pub reserve_role_slot-refused :
      (role_id limit : ℕ)
      → (reserve_role_slot role_id limit s).1 ≡ false
      → (reserve_role_slot role_id limit s).0 ≡ s
  unfolding reserve_role_slot
  reserve_role_slot-refused role_id limit h = ground arith

  pub reserve_project_slot-refused :
      (tk : Task) → (reserve_project_slot tk s).1 ≡ false → (reserve_project_slot tk s).0 ≡ s
  unfolding reserve_project_slot
  reserve_project_slot-refused tk h = ground arith

  pub reserve_workflow_slot-refused :
      (tk : Task) (limit : ℕ)
      → (reserve_workflow_slot tk limit s).1 ≡ false
      → (reserve_workflow_slot tk limit s).0 ≡ s
  unfolding reserve_workflow_slot
  reserve_workflow_slot-refused tk limit h = ground arith
