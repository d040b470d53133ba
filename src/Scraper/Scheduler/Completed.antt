-- ===== src/Scraper/Scheduler/Completed.antt =====
-- Completed jobs over any rounds of the scheduler (src/scraper/scheduler.rs).
use dsearch.Base.{
  ℕ, ◌≡◌, refl, ◌∙◌, ap, inl, inr, Bool, true, Option, none, some, List, [], ◌∷◌, Text, All, map,
  is_some, arith, Option-cases,
}
use dsearch.Model.{ScrapeJob}
use dsearch.Scraper.Scheduler.{
  JobState, after_success, after_failure, run_one, find_state, find_job, with_parameters, Tick,
  synced, tick, run_scheduler,
}
use dsearch.Scraper.Scheduler.Sync.{find_state-sync_job_states}
use dsearch.Scraper.Scheduler.Runs.{run_one_idle, completed_idle}

abbrev pub has_job : Text → Option (List ScrapeJob) → Bool
has_job n none = true
has_job n (some jobs) = is_some (find_job n jobs)

-- A job of this name that is completed after so many successful runs.
abbrev pub IsCompleted : Text → ℕ → List JobState → Type 0
IsCompleted n runs states =
    (s : JobState) × (find_state n states ≡ some s) × (s.completed ≡ true) × (s.run_count ≡ runs)

run_one-name :
    (succeeds : JobState → Bool) (now : ℕ) (job : JobState)
    → (run_one succeeds now job).name ≡ job.name
unfolding run_one after_success after_failure
run_one-name succeeds now job = ground arith

abbrev run_found : (JobState → Bool) → ℕ → Option JobState → Option JobState
run_found succeeds now none = none
run_found succeeds now (some s) = some (run_one succeeds now s)

find_state-run :
    (n : Text) (succeeds : JobState → Bool) (now : ℕ) (states : List JobState)
    → find_state n (map (run_one succeeds now) states)
      ≡ run_found succeeds now (find_state n states)
unfolding find_state
find_state-run n succeeds now [] = refl
find_state-run n succeeds now (s ∷ states) =
    ground (arith, find_state-run n succeeds now states, run_one-name succeeds now s)

synced-IsCompleted :
    (n : Text) (runs : ℕ) (states : List JobState) (config : Option (List ScrapeJob))
    → has_job n config ≡ true
    → IsCompleted n runs states
    → IsCompleted n runs (synced states config)
unfolding with_parameters
synced-IsCompleted n runs states none h c = c
synced-IsCompleted n runs states (some jobs) h (s, found, done, count) =
    elim (Option-cases (find_job n jobs)) [
      | inl gone ↦ absurd (cc (rw gone at h))
      | inr (job, there) ↦ (
        with_parameters s job,
        find_state-sync_job_states n states jobs ∙ rw (found, there) refl,
        done,
        count,
      )
    ]

tick-IsCompleted :
    (n : Text) (runs : ℕ) (states : List JobState) (t : Tick)
    → has_job n t.config ≡ true
    → IsCompleted n runs states
    → IsCompleted n runs (tick states t)
unfolding tick
tick-IsCompleted n runs states t h c =
    let (s, found, done, count) = synced-IsCompleted n runs states t.config h c in
    (
      s,
      find_state-run n t.succeeds t.now (synced states t.config)
          ∙ ap (run_found t.succeeds t.now) found
          ∙ ap some (run_one_idle t.succeeds t.now s (completed_idle s t.now done)),
      done,
      count,
    )

-- A completed job stays completed, and is not run again, in any rounds whose configurations have a
-- job of its name, whatever its policy is changed to.
pub run_scheduler-IsCompleted :
    (n : Text) (runs : ℕ) (states : List JobState) (ticks : List Tick)
    → All (λ t. has_job n t.config ≡ true) ticks
    → IsCompleted n runs states
    → IsCompleted n runs (run_scheduler states ticks)
unfolding run_scheduler
run_scheduler-IsCompleted n runs states [] h c = c
run_scheduler-IsCompleted n runs states (t ∷ ticks) (h, hs) c =
    run_scheduler-IsCompleted n runs (tick states t) ticks hs (tick-IsCompleted n runs states t h c)
