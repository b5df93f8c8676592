-- ===== src/Session/Handover.antt =====
-- The channel and the slot of a session in `Deliver` of internal/session/manager.go.
use paihuo.Prelude.{
  ℕ, ◌≡◌, refl, ap, ◌∙◌, Bool, true, false, Option, none, some, arith, if-cases, is_some, List,
  elem, keep, not, ◌==◌,
}
use text.Mathlib.Text.{◌==◌ as str_eq}
use paihuo.Model.{Task, Role, new_merge_task}
use paihuo.Model.Words.{delivered, full, perm_is, Perm}
use paihuo.Store.Db.{Db, Result, ok, err, get_task}
use paihuo.Store.Create.{create_task}
use paihuo.Store.Merge.{deliver_task_and_create_merge}
use paihuo.Exec.Slots.{Slots, decrement, at_least_one, reserve_role_slot, release_role_slot}
use paihuo.Session.{
  Manager, with_slots, can_transition, load_session, role_of, stop_channel, write_status,
}
use paihuo.Session.Deliver.{
  Delivery, Request, perm_or_full, perm_known, delivered_row, archived, archive, merged,
  snapshotted, reread, made, hand_over, deliver,
}
use paihuo.Session.Rows.{find_role-id}
use paihuo.Session.Leaks.{elem-keep}

-- The channels and the slots of one manager are those of another.
abbrev pub SameHold : Manager → Manager → Type 0
SameHold m m2 = (m2.procs ≡ m.procs) × (m2.world.slots ≡ m.world.slots)

module _ (snapshot written : Bool) (now : ℕ) (q : Request) (perm : Perm) (ss : Task) where
  archive-SameHold : (i k : ℕ) (m : Manager) → SameHold m (archive written now i k m).0
  archive-SameHold i k m =
      by (write_status written now i (λ t. record t { status = delivered }) m.world.db)
    where
      by : (o : Option Db) → SameHold m (archived k m o).0
      by none = (refl, refl)
      by (some db) = (refl, refl)

  merged-SameHold :
      (i k : ℕ) (m : Manager) (r : Result (Db × ℕ)) → SameHold m (merged written now q i k m r).0
  merged-SameHold i k m (err e) = (refl, refl)
  merged-SameHold i k m (ok (db, j)) =
      archive-SameHold i k (record m { world = record (m.world) { db = db } })

  snapshotted-SameHold :
      (i k : ℕ) (source : Task) (m : Manager) (b : Bool)
      → SameHold m (snapshotted written now q perm i k source m b).0
  snapshotted-SameHold i k source m false = (refl, refl)
  snapshotted-SameHold i k source m true =
      if-cases (λ (p : Manager × Delivery). SameHold m p.0) (perm_is perm full)
        (λ f. merged-SameHold i k m (
          deliver_task_and_create_merge now k (new_merge_task q.merge_title q.merge_body source)
            m.world.db))
        (λ f. archive-SameHold i k m)

  reread-SameHold :
      (i k : ℕ) (m : Manager) (o : Option Task)
      → SameHold m (reread snapshot written now q perm i k m o).0
  reread-SameHold i k m none = (refl, refl)
  reread-SameHold i k m (some source) = snapshotted-SameHold i k source m snapshot

  made-SameHold :
      (m : Manager) (r : Result (Db × ℕ)) → SameHold m (made snapshot written now q perm ss m r).0
  made-SameHold m (err e) = (refl, refl)
  made-SameHold m (ok (db, k)) =
      if-cases (λ (p : Manager × Delivery). SameHold m p.0) (str_eq ss.worktree_branch "")
        (λ e. archive-SameHold ss.id k (record m { world = record (m.world) { db = db } }))
        (λ e.
          reread-SameHold ss.id k (record m { world = record (m.world) { db = db } })
            (get_task k db))

module _ (snapshot written : Bool) (now i : ℕ) (q : Request) (m : Manager) {ss : Task}
    {agent : Role} (loaded : load_session i m ≡ some ss) (role : ℕ)
    (staffed : ss.role_id ≡ some role) (there : role_of m role ≡ some agent) where
  handed :
      perm_known (perm_or_full q.perm) ≡ true
      → is_some ss.project_id ≡ true
      → can_transition ss.status delivered ≡ true
      → (deliver snapshot written now q i m).0
        ≡ (hand_over snapshot written now q (perm_or_full q.perm) agent ss m).0
  unfolding deliver
  handed known project can = rw (loaded, can, staffed, there, known, project) refl

  freed :
      (limit : ℕ)
      → m.world.slots.active role ≡ at_least_one limit
      → (reserve_role_slot role limit (release_role_slot role m.world.slots)).1 ≡ true
  unfolding reserve_role_slot release_role_slot decrement
  freed limit busy = ground arith

  -- A delivery that is not refused at once (the session's status allows it, it has a project, the
  -- permission mode is one of the two) ends the session's channel, and no other, and gives one slot of its
  -- role back, whatever fails after that, and also for a suspended session, which holds none: where the
  -- role's counter was at a limit, the next reservation under that limit succeeds.
  pub deliver-leak :
      (limit : ℕ)
      → perm_known (perm_or_full q.perm) ≡ true
      → is_some ss.project_id ≡ true
      → can_transition ss.status delivered ≡ true
      → m.world.slots.active role ≡ at_least_one limit
      → (elem ss.id (deliver snapshot written now q i m).0.procs ≡ false)
        × ((deliver snapshot written now q i m).0.procs ≡ keep (λ j. not (j == ss.id)) m.procs)
        × ((deliver snapshot written now q i m).0.world.slots
            ≡ release_role_slot role m.world.slots)
        × ((reserve_role_slot role limit (deliver snapshot written now q i m).0.world.slots).1
            ≡ true)
  unfolding stop_channel
  deliver-leak limit known project can busy =
      let m2 = with_slots (release_role_slot agent.id) (stop_channel ss.id m) in
      let p = perm_or_full q.perm in
      let same =
        made-SameHold snapshot written now q p ss m2
          (create_task now (delivered_row now q p agent ss) m2.world.db) in
      let slots =
        same.1
        ∙ ap (λ k. release_role_slot k m.world.slots) (find_role-id role m.world.db.roles there) in
      rw (handed known project can) (
        ap (λ (l : List ℕ). elem ss.id l) same.0 ∙ elem-keep ss.id m.procs,
        same.0,
        slots,
        ap (λ (s : Slots). (reserve_role_slot role limit s).1) slots ∙ freed limit busy,
      )
