-- ===== src/Store/Merge/Sources.antt =====
-- The sources that the transactions of internal/store/task_merge.go take.
use paihuo.Prelude.{ℕ, ◌≡◌, refl, true, none, arith, is_some, not, ◌&&◌, ◌==◌, ◌⊎◌, inl, inr}
use paihuo.Model.{Task}
use paihuo.Model.Words.{
  Status, queued, claimed, running, awaiting_review, status_is, Perm, full, review, perm_is,
}
use paihuo.Store.State.{is_executing}

-- The state in which each of the three transactions takes its source.
abbrev pub Executing : Task → Type 0
Executing t = ((t.status ≡ claimed) ⊎ (t.status ≡ running)) × (t.perm ≡ full) × (t.merge_of ≡ none)

abbrev pub HandedOver : Task → Type 0
HandedOver t =
    (t.status ≡ queued) × (t.perm ≡ full) × (t.merge_of ≡ none) × (is_some t.session_id ≡ true)

abbrev pub Reviewed : ℕ → Task → Type 0
Reviewed expected t = (t.revision ≡ expected) × (t.status ≡ awaiting_review) × (t.perm ≡ review)

pub either : (s : Status) → is_executing s ≡ true → (s ≡ claimed) ⊎ (s ≡ running)
either claimed h = inl refl
either running h = inr refl
either _ h = absurd (ground arith)

pub only_queued : (s : Status) → status_is s queued ≡ true → s ≡ queued
only_queued queued h = refl
only_queued _ h = ground arith

pub only_awaiting : (s : Status) → status_is s awaiting_review ≡ true → s ≡ awaiting_review
only_awaiting awaiting_review h = refl
only_awaiting _ h = ground arith

pub only_full : (p : Perm) → perm_is p full ≡ true → p ≡ full
only_full full h = refl
only_full _ h = ground arith

pub only_review : (p : Perm) → perm_is p review ≡ true → p ≡ review
only_review review h = refl
only_review _ h = ground arith

pub Executing-guard :
    (t : Task)
    → (is_executing t.status && (perm_is t.perm full && not (is_some t.merge_of))) ≡ true
    → Executing t
Executing-guard t h =
    (either t.status (ground arith), only_full t.perm (ground arith), ground arith)

pub HandedOver-guard :
    (t : Task)
    → (status_is t.status queued
        && (perm_is t.perm full && (not (is_some t.merge_of) && is_some t.session_id)))
      ≡ true
    → HandedOver t
HandedOver-guard t h = (
  only_queued t.status (ground arith),
  only_full t.perm (ground arith),
  ground arith,
  ground arith,
)

pub Reviewed-guard :
    (expected : ℕ) (t : Task)
    → (t.revision == expected && (status_is t.status awaiting_review && perm_is t.perm review))
      ≡ true
    → Reviewed expected t
Reviewed-guard expected t h =
    (ground arith, only_awaiting t.status (ground arith), only_review t.perm (ground arith))
