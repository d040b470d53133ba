-- ===== src/Storage/Tier2Limiter/Window.antt =====
-- What the rate limiter of announcements lets through (src/storage/tier2_limiter.rs).
use dsearch.Base.{
  ℕ, ◌+◌, ◌-◌, ◌≤◌, ◌<◌, ◌≡◌, refl, none, some, List, [], ◌∷◌, ltb, leb, min, if◌then◌else◌, Text,
  lt→leb_false, text_eq, text_eq_refl, text_eq_iff, lookup, lookup-put, Distinct, lookup-retain,
  length, arith, All, ap, ◌∙◌, Option-cases, Bool-cases, inl, inr,
}
use dsearch.Storage.Tier2Limiter.{
  TokenBucket, Tier2Limiter, current_bucket, fresh, allow, remaining, prune_expired,
}

-- The bucket of an address after a request.
abbrev charged : Tier2Limiter → ℕ → Text → TokenBucket
charged l now ip =
    let b = current_bucket l now ip in
    record {
      count = if ltb b.count l.max_requests then b.count + 1 else b.count;
      reset_at = b.reset_at;
    }

allow-lookup :
    (l : Tier2Limiter) (now : ℕ) (ip j : Text)
    → lookup j (allow l now ip).1.buckets
      ≡ (if text_eq ip j then some (charged l now ip) else lookup j l.buckets)
unfolding allow
allow-lookup l now ip j = elim (Bool-cases (ltb (current_bucket l now ip).count l.max_requests)) [
  | inl h ↦ rw (h, lookup-put)
  | inr h ↦ rw (h, lookup-put)
]

allow-limits :
    (l : Tier2Limiter) (now : ℕ) (ip : Text)
    → ((allow l now ip).1.max_requests ≡ l.max_requests)
      × ((allow l now ip).1.window ≡ l.window)
      × ((allow l now ip).0 ≡ ltb (current_bucket l now ip).count l.max_requests)
unfolding allow
allow-limits l now ip = elim (Bool-cases (ltb (current_bucket l now ip).count l.max_requests)) [
  | inl h ↦ rw h (refl, refl, refl)
  | inr h ↦ rw h (refl, refl, refl)
]

-- The bucket in use has what `remaining` says, and its window is open.
current_bucket-remaining :
    (l : Tier2Limiter) (now : ℕ) (ip : Text)
    → 0 < l.window
    → (l.max_requests - (current_bucket l now ip).count ≡ remaining l now ip)
      × (now < (current_bucket l now ip).reset_at)
unfolding current_bucket remaining fresh
current_bucket-remaining l now ip w = elim (Option-cases (lookup ip l.buckets)) [
  | inl gone ↦ ground arith
  | inr (b, found) ↦ ground arith
]

-- Where windows are not empty, a request is accepted exactly when some remain for its address; it
-- takes one from them, and none from another address.
pub allow-remaining :
    (l : Tier2Limiter) (now : ℕ) (ip j : Text)
    → 0 < l.window
    → ((allow l now ip).0 ≡ ltb 0 (remaining l now ip))
      × (remaining (allow l now ip).1 now j
          ≡ (if text_eq ip j then remaining l now j - 1 else remaining l now j))
unfolding remaining
allow-remaining l now ip j w =
    let (left, in_window) = current_bucket-remaining l now ip w in
    let (same_max, same_window, verdict) = allow-limits l now ip in
    (ground (arith), ground (arith, allow-lookup l now ip j, text_eq_iff ip j))

-- How many requests of an address at these times are accepted, one after the other.
unfoldable pub accepted : Tier2Limiter → Text → List ℕ → ℕ
accepted l ip [] = 0
accepted l ip (now ∷ times) =
    let (ok, l') = allow l now ip in
    let rest = accepted l' ip times in if ok then 1 + rest else rest

current_bucket_open :
    (l : Tier2Limiter) (now : ℕ) (ip : Text) (b : TokenBucket)
    → lookup ip l.buckets ≡ some b
    → now < b.reset_at
    → current_bucket l now ip ≡ b
unfolding current_bucket
current_bucket_open l now ip b found before = rw (found, lt→leb_false _ _ before) refl

current_bucket-fresh :
    (l : Tier2Limiter) (now : ℕ) (ip : Text)
    → lookup ip l.buckets ≡ none
    → current_bucket l now ip ≡ fresh l now
unfolding current_bucket
current_bucket-fresh l now ip gone =
    rw gone
      (elim (Bool-cases (leb (fresh l now).reset_at now)) [ inl h ↦ rw h refl | inr h ↦ rw h refl ])

accepted_before_reset :
    (l : Tier2Limiter) (ip : Text) (b : TokenBucket) (times : List ℕ)
    → lookup ip l.buckets ≡ some b
    → All (λ t. t < b.reset_at) times
    → accepted l ip times ≡ min (length times) (l.max_requests - b.count)
unfolding accepted
accepted_before_reset l ip b [] found early = ground arith
accepted_before_reset l ip b (t ∷ times) found (before, early) =
    let (same_max, same_window, verdict) = allow-limits l t ip in
    let now_found =
      allow-lookup l t ip ip
      ∙ ap (λ e. if e then some (charged l t ip) else lookup ip l.buckets) (text_eq_refl ip) in
    let same = current_bucket_open l t ip b found before in
    let rest =
      accepted_before_reset (allow l t ip).1 ip (charged l t ip) times now_found (rw same early) in
    ground arith

-- From a limiter that has no bucket for an address, of the requests at some time and at any times
-- before the end of the window that it opens exactly the first `max_requests` are accepted.
pub accepted_window :
    (l : Tier2Limiter) (ip : Text) (start : ℕ) (times : List ℕ)
    → lookup ip l.buckets ≡ none
    → All (λ t. t < start + l.window) times
    → accepted l ip (start ∷ times) ≡ min (1 + length times) l.max_requests
unfolding accepted current_bucket fresh
accepted_window l ip start times gone early =
    let (same_max, same_window, verdict) = allow-limits l start ip in
    let now_found =
      allow-lookup l start ip ip
      ∙ ap (λ e. if e then some (charged l start ip) else lookup ip l.buckets) (text_eq_refl ip) in
    let same : current_bucket l start ip ≡ fresh l start = current_bucket-fresh l start ip gone in
    let rest =
      accepted_before_reset (allow l start ip).1 ip (charged l start ip) times now_found
        (rw same early) in
    ground arith

-- In a limiter without duplicate addresses, pruning changes what remains for no address, now or
-- later.
pub prune_expired-remaining :
    (l : Tier2Limiter) (now later : ℕ) (ip : Text)
    → Distinct l.buckets
    → now ≤ later
    → remaining (prune_expired l now) later ip ≡ remaining l later ip
unfolding prune_expired remaining
prune_expired-remaining l now later ip d after = elim (Option-cases (lookup ip l.buckets)) [
  | inl gone ↦ ground (arith, lookup-retain (λ e. ltb now e.1.reset_at) ip l.buckets d)
  | inr (b, found) ↦ ground (arith, lookup-retain (λ e. ltb now e.1.reset_at) ip l.buckets d)
]
