-- ===== src/Scraper/Scheduler/Runs.antt =====
-- Runs of the jobs (src/scraper/scheduler.rs).
use dsearch.Base.{
  ℕ, ◌+◌, ◌*◌, ◌≤◌, ◌<◌, ◌≡◌, refl, inl, inr, Bool, true, false, ◌||◌, List, [], ◌∷◌, if◌then◌else◌,
  text_eq, text_eq_iff, codes, All, All-map, u64_mod, arith, Bool-cases,
}
use dsearch.Scraper.Scheduler.{JobState, should_run, is_due, after_success, after_failure, run_one}

-- How often a job is run in rounds at these times, each with its result, while its configuration
-- stays as it is.
unfoldable pub attempts : JobState → List (ℕ × Bool) → ℕ
attempts job [] = 0
attempts job ((now, ok) ∷ rounds) =
    let rest = attempts (run_one (λ j. ok) now job) rounds in
    if is_due job now then 1 + rest else rest

pub completed_idle : (job : JobState) (now : ℕ) → job.completed ≡ true → is_due job now ≡ false
unfolding is_due
completed_idle job now c = rw c refl

attempts_completed :
    (job : JobState) (rounds : List (ℕ × Bool)) → job.completed ≡ true → attempts job rounds ≡ 0
unfolding attempts run_one
attempts_completed job [] c = refl
attempts_completed job ((now, ok) ∷ rounds) c =
    rw (completed_idle job now c) (attempts_completed job rounds c)

run_one_due :
    (succeeds : JobState → Bool) (now : ℕ) (job : JobState)
    → is_due job now ≡ true
    → run_one succeeds now job
      ≡ (if succeeds job then after_success job now else after_failure job now)
unfolding run_one
run_one_due succeeds now job due = rw due refl

pub run_one_idle :
    (succeeds : JobState → Bool) (now : ℕ) (job : JobState)
    → is_due job now ≡ false
    → run_one succeeds now job ≡ job
unfolding run_one
run_one_idle succeeds now job idle = rw idle refl

due_once :
    (job : JobState) (now : ℕ)
    → job.refresh ≡ codes "once"
    → job.completed ≡ false
    → job.run_count ≡ 0
    → is_due job now ≡ true
unfolding is_due should_run
due_once job now r c n = ground (arith, text_eq_iff job.refresh (codes "once"))

completed_once :
    (job : JobState) (now : ℕ)
    → job.refresh ≡ codes "once"
    → (after_success job now).completed ≡ true
unfolding after_success
completed_once job now r = ground (arith, text_eq_iff job.refresh (codes "once"))

-- The rounds up to the first that succeeds, that one included.
unfoldable pub until_success : List (ℕ × Bool) → ℕ
until_success [] = 0
until_success ((now, ok) ∷ rounds) = let rest = until_success rounds in if ok then 1 else 1 + rest

-- A job of the policy "once" that has not succeeded yet is run in every round, whatever the times,
-- until it succeeds, and never after.
pub attempts-once :
    (job : JobState) (rounds : List (ℕ × Bool))
    → job.refresh ≡ codes "once"
    → job.completed ≡ false
    → job.run_count ≡ 0
    → attempts job rounds ≡ until_success rounds
unfolding attempts until_success after_failure
attempts-once job [] r c n = refl
attempts-once job ((now, true) ∷ rounds) r c n =
    let due = due_once job now r c n in
    let done = attempts_completed (after_success job now) rounds (completed_once job now r) in
    rw (due, run_one_due (λ j. true) now job due) (omega (arith, done))
attempts-once job ((now, false) ∷ rounds) r c n =
    let due = due_once job now r c n in
    let again = attempts-once (after_failure job now) rounds r c n in
    rw (due, run_one_due (λ j. false) now job due) (omega (arith, again))

abbrev IsPeriodic : JobState → Type 0
IsPeriodic job =
    (text_eq job.refresh (codes "interval") || text_eq job.refresh (codes "on-change")) ≡ true

not_once : (job : JobState) → IsPeriodic job → text_eq job.refresh (codes "once") ≡ false
unfolding text_eq
not_once job p = elim (Bool-cases (text_eq job.refresh (codes "once"))) [
  | inl h ↦ absurd (cc (rw ((text_eq_iff job.refresh (codes "once")).0 h) at p))
  | inr h ↦ h
]

-- A periodic job is not run before its interval has passed since its last run.
waiting :
    (job : JobState) (limit : ℕ) (rounds : List (ℕ × Bool))
    → IsPeriodic job
    → job.last_run + job.interval_secs < u64_mod
    → limit ≤ job.last_run + job.interval_secs
    → All (λ r. r.0 < limit) rounds
    → attempts job rounds ≡ 0
unfolding attempts run_one is_due should_run
waiting job limit [] p w h inside = refl
waiting job limit ((now, ok) ∷ rounds) p w h (early, inside) =
    ground (arith, not_once job p, waiting job limit rounds p w h inside)

-- After a run, whatever its result, a periodic job waits.
waiting_after :
    (ok : Bool) (job : JobState) (now limit : ℕ) (rounds : List (ℕ × Bool))
    → IsPeriodic job
    → is_due job now ≡ true
    → now + job.interval_secs < u64_mod
    → limit ≤ now + job.interval_secs
    → All (λ r. r.0 < limit) rounds
    → attempts (run_one (λ j. ok) now job) rounds ≡ 0
unfolding after_success after_failure
waiting_after true job now limit rounds p due w h inside =
    rw (run_one_due (λ j. true) now job due)
      (waiting (after_success job now) limit rounds p w h inside)
waiting_after false job now limit rounds p due w h inside =
    rw (run_one_due (λ j. false) now job due)
      (waiting (after_failure job now) limit rounds p w h inside)

-- A job of the policy "interval" or "on-change" is run at most once in rounds at times less than
-- its interval apart, whether it succeeds or not, where no sum of u64 can wrap.
pub attempts-interval :
    (job : JobState) (start : ℕ) (rounds : List (ℕ × Bool))
    → (text_eq job.refresh (codes "interval") || text_eq job.refresh (codes "on-change")) ≡ true
    → start + 2 * job.interval_secs < u64_mod
    → All (λ r. (start ≤ r.0) × (r.0 < start + job.interval_secs)) rounds
    → attempts job rounds ≤ 1
unfolding attempts
attempts-interval job start [] p w inside = omega arith
attempts-interval job start ((now, ok) ∷ rounds) p w ((late, early), inside) =
    elim (Bool-cases (is_due job now)) [
      | inl due ↦
          let none_left =
            waiting_after ok job now (start + job.interval_secs) rounds p due (omega arith)
              (omega arith) (All-map rounds (λ r h. h.1) inside) in
          rw due (omega (arith, none_left))
      | inr idle ↦
          rw (idle, run_one_idle (λ j. ok) now job idle)
            (attempts-interval job start rounds p w inside)
    ]
