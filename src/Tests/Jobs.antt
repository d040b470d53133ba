-- ===== src/Tests/Jobs.antt =====
-- Runs of the scheduler, and the theorems at them.
use dsearch.Base.{ℕ, ◌≡◌, refl, Bool, true, none, some, [], ◌∷◌, ◌||◌, Text, codes, text_eq}
use dsearch.Scraper.Scheduler.{JobState, Tick, find_state, find_job, sync_job_states, run_scheduler}
use dsearch.Scraper.Scheduler.Sync.{sync_one, find_state-sync_job_states}
use dsearch.Scraper.Scheduler.Completed.{IsCompleted, run_scheduler-IsCompleted}

abbrev state : Text → ℕ → Bool → JobState
state policy runs completed = record {
  name = codes "j";
  source = codes "url";
  target = codes "https://a";
  refresh = policy;
  interval_secs = 3600;
  lifecycle = codes "persist";
  ttl_secs = 0;
  last_run = 0;
  run_count = runs;
  completed = completed;
}

find_state-sync_job_states_example :
    find_state (codes "j") (sync_job_states (state (codes "once") 1 true ∷ []) [])
    ≡ sync_one (find_state (codes "j") (state (codes "once") 1 true ∷ [])) (find_job (codes "j") [])
find_state-sync_job_states_example =
    find_state-sync_job_states (codes "j") (state (codes "once") 1 true ∷ []) []

periodic :
    (text_eq (codes "interval") (codes "interval")
      || text_eq (codes "interval") (codes "on-change"))
    ≡ true
unfolding text_eq
periodic = refl

found :
    find_state (codes "j") (state (codes "once") 1 true ∷ []) ≡ some (state (codes "once") 1 true)
unfolding find_state text_eq
found = refl

abbrev round : ℕ → Tick
round now = record { config = none; now = now; succeeds = λ j. true }

run_scheduler-IsCompleted_example :
    IsCompleted
      (codes "j")
      1
      (run_scheduler (state (codes "once") 1 true ∷ []) (round 60 ∷ round 120 ∷ []))
run_scheduler-IsCompleted_example =
    run_scheduler-IsCompleted (codes "j") 1 (state (codes "once") 1 true ∷ [])
      (round 60 ∷ round 120 ∷ []) (refl, (refl, tt))
      (state (codes "once") 1 true, found, refl, refl)
