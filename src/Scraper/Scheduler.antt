-- ===== src/Scraper/Scheduler.antt =====
-- The job scheduler (src/scraper/scheduler.rs). A tick is one round of its endless loop, after the
-- sleep: it has the jobs of the configuration that is read, or none where that fails, the time, and
-- for each job whether its run succeeds. The runs themselves are input and output.
pub mod Sync
pub mod Runs
pub mod Completed
use dsearch.Base.{
  ℕ, ◌+◌, Bool, true, false, not, ◌&&◌, ◌||◌, Option, none, some, List, [], ◌∷◌, ◌++◌, ltb, leb,
  ◌==◌, if◌then◌else◌, Text, text_eq, codes, any, retain, map, add_u64,
}
use dsearch.Model.{ScrapeJob}
use dsearch.Model.Source as Source
use dsearch.Model.Refresh as Refresh
use dsearch.Model.Life as Life

pub record JobState : Type 0 where
  pub name : Text
  pub source : Text
  pub target : Text
  pub refresh : Text
  pub interval_secs : ℕ
  pub lifecycle : Text
  pub ttl_secs : ℕ
  pub last_run : ℕ
  pub run_count : ℕ
  pub completed : Bool

unfoldable pub new_state : ScrapeJob → JobState
new_state j = record {
  name = j.name;
  source = Source.as_str j.source;
  target = j.target;
  refresh = Refresh.as_str j.refresh;
  interval_secs = j.interval_secs;
  lifecycle = Life.as_str j.lifecycle;
  ttl_secs = j.ttl_secs;
  last_run = 0;
  run_count = 0;
  completed = false;
}

-- The states at the start.
unfoldable pub initial_states : List ScrapeJob → List JobState
initial_states jobs = map new_state jobs

unfoldable pub should_run : JobState → ℕ → Bool
should_run job now =
    if text_eq job.refresh (codes "once")
    then job.run_count == 0
    else if text_eq job.refresh (codes "interval") || text_eq job.refresh (codes "on-change")
    then leb (add_u64 job.last_run job.interval_secs) now
    else false

-- Whether a job is run in a tick.
unfoldable pub is_due : JobState → ℕ → Bool
unfolding should_run
is_due job now = not job.completed && should_run job now

unfoldable pub after_success : JobState → ℕ → JobState
after_success job now = record job {
  run_count = add_u64 job.run_count 1;
  last_run = now;
  completed = if text_eq job.refresh (codes "once") then true else job.completed;
}

unfoldable pub after_failure : JobState → ℕ → JobState
after_failure job now = record job { last_run = now }

-- One round of the loop over the jobs.
unfoldable pub run_one : (JobState → Bool) → ℕ → JobState → JobState
run_one succeeds now job =
    if is_due job now
    then (if succeeds job then after_success job now else after_failure job now)
    else job

unfoldable pub find_state : Text → List JobState → Option JobState
find_state n [] = none
find_state n (s ∷ states) =
    let rest = find_state n states in if text_eq s.name n then some s else rest

unfoldable pub find_job : Text → List ScrapeJob → Option ScrapeJob
find_job n [] = none
find_job n (j ∷ jobs) = let rest = find_job n jobs in if text_eq j.name n then some j else rest

-- The jobs whose names are new are added one after the other.
unfoldable pub add_new : List JobState → List ScrapeJob → List JobState
add_new states [] = states
add_new states (job ∷ jobs) =
    add_new
      (if any (λ s. text_eq s.name job.name) states then states else states ++ new_state job ∷ [])
      jobs

unfoldable pub remove_old : List ScrapeJob → List JobState → List JobState
remove_old jobs states = retain (λ s. any (λ j. text_eq j.name s.name) jobs) states

-- A state takes the parameters of its job, but not its source.
unfoldable pub with_parameters : JobState → ScrapeJob → JobState
with_parameters state job = record state {
  target = job.target;
  interval_secs = job.interval_secs;
  ttl_secs = job.ttl_secs;
  refresh = Refresh.as_str job.refresh;
  lifecycle = Life.as_str job.lifecycle;
}

abbrev pub update_from : JobState → Option ScrapeJob → JobState
update_from state none = state
update_from state (some job) = with_parameters state job

unfoldable pub update_existing : List ScrapeJob → List JobState → List JobState
update_existing jobs states = map (λ s. update_from s (find_job s.name jobs)) states

unfoldable pub sync_job_states : List JobState → List ScrapeJob → List JobState
sync_job_states states jobs = update_existing jobs (remove_old jobs (add_new states jobs))

pub record Tick : Type 0 where
  pub config : Option (List ScrapeJob)
  pub now : ℕ
  pub succeeds : JobState → Bool

abbrev pub synced : List JobState → Option (List ScrapeJob) → List JobState
synced states none = states
synced states (some jobs) = sync_job_states states jobs

-- One round of the scheduler's loop.
unfoldable pub tick : List JobState → Tick → List JobState
tick states t = map (run_one t.succeeds t.now) (synced states t.config)

unfoldable pub run_scheduler : List JobState → List Tick → List JobState
run_scheduler states [] = states
run_scheduler states (t ∷ ticks) = run_scheduler (tick states t) ticks
