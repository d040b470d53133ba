-- ===== src/Storage/Tier2Limiter.antt =====
-- The rate limiter of announcements (src/storage/tier2_limiter.rs). Instants are numbers, and the
-- one that a method reads from the clock is its argument `now`.
pub mod Window
use dsearch.Base.{
  ℕ, ◌+◌, ◌-◌, Bool, true, false, none, some, List, [], ltb, leb, if◌then◌else◌, Text, lookup, put,
  or_insert, retain, length,
}

pub record TokenBucket : Type 0 where
  pub count : ℕ
  pub reset_at : ℕ

pub record Tier2Limiter : Type 0 where
  pub buckets : List (Text × TokenBucket)
  pub max_requests : ℕ
  pub window : ℕ

-- The bucket of an address in `allow`: a new one where there is none, reset where its window has
-- elapsed.
unfoldable pub new : ℕ → ℕ → Tier2Limiter
new max_requests window = record { buckets = []; max_requests = max_requests; window = window }

unfoldable pub fresh : Tier2Limiter → ℕ → TokenBucket
fresh l now = record { count = 0; reset_at = now + l.window }

unfoldable pub current_bucket : Tier2Limiter → ℕ → Text → TokenBucket
current_bucket l now ip =
    let bucket = or_insert (lookup ip l.buckets) (fresh l now) in
    if leb bucket.reset_at now then fresh l now else bucket

unfoldable pub allow : Tier2Limiter → ℕ → Text → Bool × Tier2Limiter
allow l now ip =
    let bucket = current_bucket l now ip in
    if ltb bucket.count l.max_requests
    then (
      true,
      record l { buckets = put ip (record bucket { count = bucket.count + 1 }) l.buckets },
    )
    else (false, record l { buckets = put ip bucket l.buckets })

unfoldable pub remaining : Tier2Limiter → ℕ → Text → ℕ
remaining l now ip = elim (lookup ip l.buckets) [
  | none ↦ l.max_requests
  | some bucket ↦ if leb bucket.reset_at now then l.max_requests else l.max_requests - bucket.count
]

unfoldable pub prune_expired : Tier2Limiter → ℕ → Tier2Limiter
prune_expired l now = record l { buckets = retain (λ e. ltb now e.1.reset_at) l.buckets }

-- The number of addresses tracked.
unfoldable pub len : Tier2Limiter → ℕ
len l = length l.buckets
