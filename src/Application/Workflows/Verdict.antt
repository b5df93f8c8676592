-- ===== src/Application/Workflows/Verdict.antt =====
-- What `runStatus` makes of the tasks of a run.
use paihuo.Prelude.{
  ℕ, ◌≡◌, ◌↔◌, refl, sym, ◌∙◌, ap, Bool, true, false, ◌&&◌, ◌||◌, not, Option, none, some, List, [],
  ◌∷◌, arith, if◌then◌else◌, All, In, inl, inr, all, any, Bool-cases, Option-cases,
}
use paihuo.Model.{Task}
use paihuo.Model.Words.{Status, queued, status_is}
use paihuo.Store.Delivery.Held.{Held, check_task_dependency-Held}
use paihuo.Store.Db.{Db, get_task}
use paihuo.Store.Delivery.{
  DeliveryState, delivery_state_of, task_delivery_result, result_of, check_task_dependency,
}
use paihuo.Store.Workflows.{succeeded, failed}
use paihuo.Application.Workflows.{
  Flags, step_flags, collect_flags, RunVerdict, undecided, blocked_run, decided, verdict_of,
  run_status, is_blocked,
}

-- How the delivery of a task stands; none, if there is no such task.
abbrev pub delivery_at : Db → ℕ → Option DeliveryState
delivery_at db i = elim (get_task i db) [ none ↦ none | some t ↦ some (delivery_state_of db t) ]

abbrev is_pending : Option DeliveryState → Bool
is_pending (some DeliveryState.pending) = true
is_pending _ = false

abbrev is_lost : Option DeliveryState → Bool
is_lost none = true
is_lost (some DeliveryState.failed) = true
is_lost _ = false

-- A queued task that its dependencies block for ever.
abbrev blocks : Db → Option Task → Bool
blocks db none = false
blocks db (some t) =
    is_pending (some (delivery_state_of db t))
    && (status_is t.status queued && is_blocked (check_task_dependency db t))

abbrev all_done : Db → List ℕ → Bool
all_done db is = all (λ i. not (is_pending (delivery_at db i))) is

abbrev any_lost : Db → List ℕ → Bool
any_lost db is = any (λ i. is_lost (delivery_at db i)) is

abbrev any_blocked : Db → List ℕ → Bool
any_blocked db is = any (λ i. blocks db (get_task i db)) is

abbrev flags_of : Db → List ℕ → Flags → Flags
flags_of db is f = record {
  all_terminal = f.all_terminal && all_done db is;
  failed = f.failed || any_lost db is;
  blocked = f.blocked || any_blocked db is;
}

step_flags-lem :
    (db : Db) (t : Task) (f : Flags) (d : DeliveryState)
    → delivery_state_of db t ≡ d
    → step_flags db t f (result_of d) ≡ record {
      all_terminal = f.all_terminal && not (is_pending (some d));
      failed = f.failed || is_lost (some d);
      blocked =
          f.blocked
          || (is_pending (some d)
              && (status_is t.status queued && is_blocked (check_task_dependency db t)));
    }
step_flags-lem db t f DeliveryState.succeeded e = ground arith
step_flags-lem db t f DeliveryState.failed e = ground arith
step_flags-lem db t f DeliveryState.pending e = ground arith

collect_flags-lem :
    (db : Db) (is : List ℕ) (f : Flags) → collect_flags db is f ≡ some (flags_of db is f)
unfolding collect_flags task_delivery_result
collect_flags-lem db [] f = ground arith
collect_flags-lem db (i ∷ is) f = elim (Option-cases (get_task i db)) [
  | inl e ↦ ground (arith, collect_flags-lem db is (record f { failed = true }))
  | inr (t, e) ↦ ground (
    arith,
    step_flags-lem db t f (delivery_state_of db t) refl,
    collect_flags-lem db is (step_flags db t f (result_of (delivery_state_of db t))),
  )
]

any-In : (p : ℕ → Bool) (xs : List ℕ) → (any p xs ≡ true) ↔ ((i : ℕ) × In i xs × (p i ≡ true))
any-In p [] = (λ h. absurd (cc), λ (i, m, h). absurd m)
any-In p (x ∷ xs) = (
  λ h. elim (Bool-cases (p x)) [
    | inl e ↦ (x, inl refl, e)
    | inr e ↦ let (i, m, q) = (any-In p xs).0 (ground arith) in (i, inr m, q)
  ],
  λ (i, m, h). elim m [
    | inl e ↦ let h' : p x ≡ true = ap p e ∙ h in rw h' refl
    | inr k ↦ let rest = (any-In p xs).1 (i, k, h) in ground arith
  ],
)

all-not : (p : ℕ → Bool) (xs : List ℕ) → all (λ i. not (p i)) xs ≡ not (any p xs)
all-not p [] = refl
all-not p (x ∷ xs) = ground (arith, all-not p xs)

-- A blocked task is not done.
any_blocked-pending : (db : Db) (is : List ℕ) → any_blocked db is ≡ true → all_done db is ≡ false
any_blocked-pending db [] h = absurd (cc)
any_blocked-pending db (i ∷ is) h = elim (Option-cases (get_task i db)) [
  | inl e ↦ ground (arith, any_blocked-pending db is)
  | inr (t, e) ↦ ground (arith, any_blocked-pending db is)
]

abbrev pub AllDelivered : Db → List ℕ → Type 0
AllDelivered db = All (λ i. delivery_at db i ≡ some DeliveryState.succeeded)

delivered_of :
    (o : Option DeliveryState)
    → is_pending o ≡ false
    → is_lost o ≡ false
    → o ≡ some DeliveryState.succeeded
delivered_of none h k = absurd (cc)
delivered_of (some DeliveryState.pending) h k = absurd (cc)
delivered_of (some DeliveryState.succeeded) h k = refl
delivered_of (some DeliveryState.failed) h k = absurd (cc)

pending_of : (o : Option DeliveryState) → is_pending o ≡ true → o ≡ some DeliveryState.pending
pending_of none h = absurd (cc)
pending_of (some DeliveryState.pending) h = refl
pending_of (some DeliveryState.succeeded) h = absurd (cc)
pending_of (some DeliveryState.failed) h = absurd (cc)

all_done-AllDelivered :
    (db : Db) (is : List ℕ) → all_done db is ≡ true → any_lost db is ≡ false → AllDelivered db is
all_done-AllDelivered db [] h k = tt
all_done-AllDelivered db (i ∷ is) h k = (
  delivered_of (delivery_at db i) (ground arith) (ground arith),
  all_done-AllDelivered db is (ground arith) (ground arith),
)

AllDelivered-all_done :
    (db : Db) (is : List ℕ)
    → AllDelivered db is
    → (all_done db is ≡ true) × (any_lost db is ≡ false)
AllDelivered-all_done db [] h = (refl, refl)
AllDelivered-all_done db (i ∷ is) h =
    let (a, b) = AllDelivered-all_done db is h.1 in (rw (h.0, a) refl, rw (h.0, b) refl)

-- The answer by the three flags.
abbrev by_flags : Bool → Bool → Bool → RunVerdict
by_flags done lost blocked =
    if blocked
    then blocked_run
    else if not done
    then undecided
    else if lost
    then decided failed
    else decided succeeded

run_status-flags :
    (db : Db) (is : List ℕ)
    → run_status db is ≡ by_flags (all_done db is) (any_lost db is) (any_blocked db is)
unfolding run_status
run_status-flags db is =
    ap verdict_of
      (collect_flags-lem db is (record { all_terminal = true; failed = false; blocked = false }))

verdicts :
    (done lost blocked : Bool)
    → ((by_flags done lost blocked ≡ decided succeeded)
        ↔ ((blocked ≡ false) × (done ≡ true) × (lost ≡ false)))
      × ((by_flags done lost blocked ≡ blocked_run) ↔ (blocked ≡ true))
      × ((by_flags done lost blocked ≡ undecided) ↔ ((blocked ≡ false) × (done ≡ false)))
verdicts done lost blocked = ground arith

not_true : {b : Bool} → (b ≡ true → ⊥) → b ≡ false
not_true {b = true} h = absurd (h refl)
not_true {b = false} h = refl

-- A task of the run that is there and queued, and that a failure before it holds back.
abbrev pub Blocking : Db → ℕ → Type 0
Blocking db i = (t : Task) × (get_task i db ≡ some t) × (t.status ≡ Status.queued) × Held db t

only_queued : (s : Status) → status_is s Status.queued ≡ true → s ≡ Status.queued
only_queued queued h = refl
only_queued _ h = ground arith

queued-pending :
    (db : Db) (t : Task)
    → t.status ≡ Status.queued
    → t.merge_of ≡ none
    → delivery_state_of db t ≡ DeliveryState.pending
unfolding delivery_state_of
queued-pending db t e f = rw (e, f) refl

blocks_iff : (db : Db) (i : ℕ) → (blocks db (get_task i db) ≡ true) ↔ Blocking db i
blocks_iff db i = elim (Option-cases (get_task i db)) [
  | inl absent ↦
      (λ h. absurd (ground (arith, absent)), λ (t, found, e, held). absurd (cc (absent, found)))
  | inr (t, found) ↦ (
    λ h.
        let h' : blocks db (some t) ≡ true = rw found at h in
        (
          t,
          found,
          only_queued t.status (ground arith),
          (check_task_dependency-Held db t).0 (ground arith),
        ),
    λ (u, at_u, e, held).
        let pending = queued-pending db u e held.0 in
        let gate = (check_task_dependency-Held db u).1 held in
        let open_task : blocks db (some u) ≡ true = ground (arith, pending, e, gate) in
        ap (blocks db) at_u ∙ open_task,
  )
]

any_blocked-Blocking :
    (db : Db) (is : List ℕ) → (any_blocked db is ≡ true) ↔ ((i : ℕ) × In i is × Blocking db i)
any_blocked-Blocking db is =
    let found = any-In (λ i. blocks db (get_task i db)) is in
    (
      λ h. let (i, m, b) = found.0 h in (i, m, (blocks_iff db i).0 b),
      λ (i, m, b). found.1 (i, m, (blocks_iff db i).1 b),
    )

-- What each verdict of a run says of its tasks.
pub record Judged (db : Db) (is : List ℕ) : Type 0 where
  pub success : (run_status db is ≡ decided succeeded) ↔ AllDelivered db is
  pub blocked : (run_status db is ≡ blocked_run) ↔ ((i : ℕ) × In i is × Blocking db i)
  pub open_ended : (run_status db is ≡ undecided) ↔ (
      ¬ ((i : ℕ) × In i is × Blocking db i)
      × (i : ℕ) × In i is
      × (delivery_at db i ≡ some DeliveryState.pending))

-- `runStatus` ends a run as succeeded exactly if every task of it is there and its delivery is complete; it
-- reports the run as blocked exactly if a queued task of it that merges nothing is held back: by the
-- first of its Workflow edges, in the order of the gate, that it does not go past (an edge is passed
-- whose source is delivered, or has failed where the edge resumes), if the source of that edge has failed
-- and the edge does not resume; or, without Workflow edges, by a failed dependency that is strong, or weak
-- on a task that blocks on failure. It leaves the run undecided exactly if no task is so held back and
-- the delivery of some task that is there is pending.
pub run_status-Judged : (db : Db) (is : List ℕ) → Judged db is
run_status-Judged db is =
    let flags = run_status-flags db is in
    let (s, b, u) = verdicts (all_done db is) (any_lost db is) (any_blocked db is) in
    let blocked_iff = any_blocked-Blocking db is in
    let pending_iff = any-In (λ i. is_pending (delivery_at db i)) is in
    let turned = all-not (λ i. is_pending (delivery_at db i)) is in
    record {
      success = (
        λ h. let (x, y, z) = s.0 (sym flags ∙ h) in all_done-AllDelivered db is y z,
        λ h.
            let (y, z) = AllDelivered-all_done db is h in
            flags ∙ s.1 (ground (arith, any_blocked-pending db is), y, z),
      );
      blocked = (λ h. blocked_iff.0 (b.0 (sym flags ∙ h)), λ h. flags ∙ b.1 (blocked_iff.1 h));
      open_ended = (
        λ h.
            let (y, z) = u.0 (sym flags ∙ h) in
            let (i, m, q) = pending_iff.0 (ground arith) in
            (λ found. let seen = blocked_iff.1 found in cc, i, m, pending_of (delivery_at db i) q),
        λ (none_blocked, i, m, q).
            let pending = pending_iff.1 (i, m, ap is_pending q) in
            let free : any_blocked db is ≡ false = not_true (λ e. none_blocked (blocked_iff.0 e)) in
            flags ∙ u.1 (free, ground arith),
      );
    }
