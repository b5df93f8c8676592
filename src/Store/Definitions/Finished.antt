-- ===== src/Store/Definitions/Finished.antt =====
-- The end of a run.
use paihuo.Prelude.{
  ℕ, ◌+◌, ◌≡◌, ◌≢◌, refl, sym, true, false, List, [], ◌∷◌, arith, ◌==◌, Bool-cases, inl, inr, some,
  ==→≡,
}
use paihuo.Store.Db.{ok, err, revision_conflict}
use paihuo.Store.Workflows.{RunStatus, running, Run}
use paihuo.Store.Definitions.{
  is_end, is_running, run_at, update_runs, count_runs, finish_workflow_run,
}

-- The primary key of `workflow_runs`.
abbrev FreshRun : ℕ → List Run → Type 0
FreshRun i [] = Unit
FreshRun i (r ∷ rs) = (r.id ≢ i) × FreshRun i rs

abbrev pub UniqueRuns : List Run → Type 0
UniqueRuns [] = Unit
UniqueRuns (r ∷ rs) = FreshRun r.id rs × UniqueRuns rs

abbrev pub ended_run : ℕ → RunStatus → Run → Run
ended_run now status r = record r {
  status = status;
  finished_at = some now;
  revision = r.revision + 1;
}

abbrev pub end_rows : ℕ → ℕ → ℕ → RunStatus → List Run → List Run
end_rows now run expected status runs =
    update_runs (run_at run expected) (ended_run now status) runs

count_runs-FreshRun :
    (run expected : ℕ) (rs : List Run) → FreshRun run rs → count_runs (run_at run expected) rs ≡ 0
unfolding count_runs
count_runs-FreshRun run expected [] f = refl
count_runs-FreshRun run expected (r ∷ rs) f = ground (arith, count_runs-FreshRun run expected rs)

update_runs-FreshRun :
    (now run expected i : ℕ) (status : RunStatus) (rs : List Run)
    → FreshRun i rs
    → FreshRun i (end_rows now run expected status rs)
unfolding update_runs
update_runs-FreshRun now run expected i status [] f = tt
update_runs-FreshRun now run expected i status (r ∷ rs) f =
    (ground arith, update_runs-FreshRun now run expected i status rs f.1)

end_not_running : (status : RunStatus) → is_end status ≡ true → is_running status ≡ false
end_not_running RunStatus.created h = refl
end_not_running running h = cc
end_not_running RunStatus.succeeded h = refl
end_not_running RunStatus.failed h = refl
end_not_running RunStatus.cancelled h = refl

-- After the run has ended_run, no row answers to it as running.
count_runs-ended_run :
    (now run expected : ℕ) (status : RunStatus) (expected' : ℕ) (rs : List Run)
    → UniqueRuns rs
    → is_end status ≡ true
    → count_runs (run_at run expected) rs ≡ 1
    → count_runs (run_at run expected') (end_rows now run expected status rs) ≡ 0
unfolding count_runs update_runs
count_runs-ended_run now run expected status expected' [] u e h = absurd (omega arith)
count_runs-ended_run now run expected status expected' (r ∷ rs) u e h =
    elim (Bool-cases (r.id == run)) [
      | inr ne ↦ ground (arith, count_runs-ended_run now run expected status expected' rs)
      | inl same ↦
          let fresh : FreshRun run rs = rw (sym (==→≡ r.id run same)) u.0 in
          let rest =
            count_runs-FreshRun run expected' (end_rows now run expected status rs)
              (update_runs-FreshRun now run expected run status rs fresh) in
          let none_left = count_runs-FreshRun run expected rs fresh in
          let stopped = end_not_running status e in ground arith
    ]

-- A run ends once: where the ids of the runs are a primary key and `FinishWorkflowRun` has succeeded, every
-- later call for the same run that names an end is a revision conflict, at whatever revision.
pub finish_workflow_run-once :
    (now run expected : ℕ) (status : RunStatus) (now' expected' : ℕ) (status' : RunStatus)
    (runs runs' : List Run)
    → UniqueRuns runs
    → finish_workflow_run now run expected status runs ≡ ok runs'
    → is_end status' ≡ true
    → finish_workflow_run now' run expected' status' runs' ≡ err revision_conflict
unfolding finish_workflow_run
finish_workflow_run-once now run expected status now' expected' status' runs runs' u h e' =
    let e : is_end status ≡ true = ground arith in
    let one : count_runs (run_at run expected) runs ≡ 1 = ground arith in
    let same : runs' ≡ end_rows now run expected status runs = ground arith in
    let gone = count_runs-ended_run now run expected status expected' runs u e one in
    rw (same, e', gone) refl
