-- ===== src/Scraper/Scheduler/Sync.antt =====
-- The states after the configuration is read (src/scraper/scheduler.rs).
use dsearch.Base.{
  ◌≡◌, refl, ◌∙◌, ap, inl, inr, Bool, true, false, Option, none, some, List, [], ◌∷◌, ◌++◌,
  if◌then◌else◌, Text, text_eq, text_eq_iff, any, retain, arith, Option-cases, is_some,
}
use dsearch.Model.{ScrapeJob}
use dsearch.Model.Source as Source
use dsearch.Model.Refresh as Refresh
use dsearch.Model.Life as Life
use dsearch.Scraper.Scheduler.{
  JobState, new_state, find_state, find_job, add_new, remove_old, with_parameters, update_from,
  update_existing, sync_job_states,
}

-- What becomes of the state of a name, from its job in the configuration.
abbrev pub sync_one : Option JobState → Option ScrapeJob → Option JobState
sync_one state none = none
sync_one none (some job) = some (record {
  name = job.name;
  source = Source.as_str job.source;
  target = job.target;
  refresh = Refresh.as_str job.refresh;
  interval_secs = job.interval_secs;
  lifecycle = Life.as_str job.lifecycle;
  ttl_secs = job.ttl_secs;
  last_run = 0;
  run_count = 0;
  completed = false;
})
sync_one (some state) (some job) = some (record {
  name = state.name;
  source = state.source;
  target = job.target;
  refresh = Refresh.as_str job.refresh;
  interval_secs = job.interval_secs;
  lifecycle = Life.as_str job.lifecycle;
  ttl_secs = job.ttl_secs;
  last_run = state.last_run;
  run_count = state.run_count;
  completed = state.completed;
})

any-find_state :
    (n : Text) (l : List JobState) → any (λ s. text_eq s.name n) l ≡ is_some (find_state n l)
unfolding any find_state
any-find_state n [] = refl
any-find_state n (s ∷ l) = ground (arith, any-find_state n l)

any-find_job :
    (n : Text) (l : List ScrapeJob) → any (λ j. text_eq j.name n) l ≡ is_some (find_job n l)
unfolding any find_job
any-find_job n [] = refl
any-find_job n (s ∷ l) = ground (arith, any-find_job n l)

abbrev first : Option JobState → Option JobState → Option JobState
first none o = o
first (some s) o = some s

find_state-append :
    (n : Text) (l r : List JobState)
    → find_state n (l ++ r) ≡ first (find_state n l) (find_state n r)
unfolding find_state
find_state-append n [] r = refl
find_state-append n (s ∷ l) r = ground (arith, find_state-append n l r)

abbrev added : Option JobState → Option ScrapeJob → Option JobState
added (some s) o = some s
added none none = none
added none (some job) = some (new_state job)

find_state-new :
    (n : Text) (job : ScrapeJob)
    → find_state n (new_state job ∷ [])
      ≡ (if text_eq job.name n then some (new_state job) else none)
unfolding find_state new_state
find_state-new n job = refl

find_state-add_new :
    (n : Text) (states : List JobState) (jobs : List ScrapeJob)
    → find_state n (add_new states jobs) ≡ added (find_state n states) (find_job n jobs)
unfolding add_new find_job
find_state-add_new n states [] = ground arith
find_state-add_new n states (job ∷ jobs) =
    let same = text_eq_iff job.name n in
    elim (Option-cases (find_state job.name states)) [
      | inl gone ↦
          let absent : any (λ s. text_eq s.name job.name) states ≡ false =
            any-find_state job.name states ∙ ap is_some gone in
          rw absent (
            ground (
              arith,
              find_state-add_new n (states ++ new_state job ∷ []) jobs,
              find_state-append n states (new_state job ∷ []),
              find_state-new n job,
              same,
            ))
      | inr (state, found) ↦
          let present : any (λ s. text_eq s.name job.name) states ≡ true =
            any-find_state job.name states ∙ ap is_some found in
          rw present (ground (arith, find_state-add_new n states jobs, same))
    ]

find_state-retain :
    (n : Text) (keep : Text → Bool) (states : List JobState)
    → find_state n (retain (λ s. keep s.name) states)
      ≡ (if keep n then find_state n states else none)
unfolding find_state retain
find_state-retain n keep [] = ground arith
find_state-retain n keep (s ∷ states) =
    ground (arith, find_state-retain n keep states, text_eq_iff s.name n)

abbrev updated : Option ScrapeJob → Option JobState → Option JobState
updated job none = none
updated job (some s) = some (update_from s job)

update_from-name : (s : JobState) (job : Option ScrapeJob) → (update_from s job).name ≡ s.name
unfolding with_parameters
update_from-name s none = refl
update_from-name s (some job) = refl

find_state-update_existing :
    (n : Text) (jobs : List ScrapeJob) (states : List JobState)
    → find_state n (update_existing jobs states) ≡ updated (find_job n jobs) (find_state n states)
unfolding find_state update_existing
find_state-update_existing n jobs [] = refl
find_state-update_existing n jobs (s ∷ states) = ground (
  arith,
  find_state-update_existing n jobs states,
  update_from-name s (find_job s.name jobs),
  text_eq_iff s.name n,
)

parameters :
    (state : Option JobState) (job : Option ScrapeJob)
    → updated job (if is_some job then added state job else none) ≡ sync_one state job
unfolding with_parameters new_state
parameters none none = refl
parameters none (some job) = refl
parameters (some state) none = refl
parameters (some state) (some job) = refl

-- After the configuration is read, a name has a state exactly if it has a job. A new state has the
-- fields of the job and has not run; one that was there takes target, refresh policy, interval,
-- lifecycle and time to live from the job, and keeps its source, its runs and its completion.
pub find_state-sync_job_states :
    (n : Text) (states : List JobState) (jobs : List ScrapeJob)
    → find_state n (sync_job_states states jobs) ≡ sync_one (find_state n states) (find_job n jobs)
unfolding sync_job_states remove_old
find_state-sync_job_states n states jobs =
    let kept = remove_old jobs (add_new states jobs) in
    find_state-update_existing n jobs kept
    ∙ ap (updated (find_job n jobs)) (
        find_state-retain n (λ m. any (λ j. text_eq j.name m) jobs) (add_new states jobs)
        ∙ rw (any-find_job n jobs, find_state-add_new n states jobs) refl)
    ∙ parameters (find_state n states) (find_job n jobs)
