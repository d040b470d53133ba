-- ===== src/Api/Keys/Rate.antt =====
-- How many requests the rate limit of the gateway lets through (src/api/gateway_keys.rs).
use dsearch.Base.{
  ℕ, ◌+◌, ◌-◌, ◌≤◌, ◌<◌, ◌≡◌, refl, false, none, some, List, [], ◌∷◌, leb, min, if◌then◌else◌, Text,
  text_eq_refl, lookup, lookup-put, length, arith, All, u32_mod, u64_mod, sub_u64, add_u32,
}
use dsearch.Api.Keys.{RateLimitEntry, new_window, current_entry, check_rate_limit}

-- How many requests of an identifier at these times are allowed, one after the other.
unfoldable pub allowed : List (Text × RateLimitEntry) → Text → ℕ → List ℕ → ℕ
allowed limits identifier limit_per_min [] = 0
allowed limits identifier limit_per_min (now ∷ times) =
    let (ok, limits') = check_rate_limit limits now identifier limit_per_min in
    let rest = allowed limits' identifier limit_per_min times in if ok then 1 + rest else rest

module _ (limits : List (Text × RateLimitEntry)) (identifier : Text) (limit_per_min : ℕ) where
  current_entry_open :
      (now : ℕ) (e : RateLimitEntry)
      → lookup identifier limits ≡ some e
      → e.window_start ≤ now
      → now < e.window_start + 60
      → now < u64_mod
      → current_entry limits now identifier ≡ e
  unfolding current_entry
  current_entry_open now e found from before word =
      let in_window : leb 60 (sub_u64 now e.window_start) ≡ false = ground arith in
      rw (found, in_window) refl

  pub current_entry-new_window :
      (now : ℕ)
      → lookup identifier limits ≡ none
      → current_entry limits now identifier ≡ new_window now
  unfolding current_entry
  current_entry-new_window now gone = rw gone (ground arith)

  -- The verdict on a request, and the entry that it leaves.
  check_rate_limit_entry :
      (now : ℕ) (e : RateLimitEntry)
      → current_entry limits now identifier ≡ e
      → e.count + 1 < u32_mod
      → ((check_rate_limit limits now identifier limit_per_min).0 ≡ leb (e.count + 1) limit_per_min)
        × (lookup identifier (check_rate_limit limits now identifier limit_per_min).1
            ≡ some (record e { count = e.count + 1 }))
  unfolding check_rate_limit
  check_rate_limit_entry now e same word =
      let counted : add_u32 e.count 1 ≡ e.count + 1 = omega arith in
      rw (same, counted, lookup-put, text_eq_refl) (refl, refl)

-- A request within the window of an entry.
abbrev InWindow : ℕ → ℕ → Type 0
InWindow start t = (start ≤ t) × (t < start + 60) × (t < u64_mod)

allowed_open :
    (limits : List (Text × RateLimitEntry)) (identifier : Text) (limit_per_min : ℕ)
    (e : RateLimitEntry) (times : List ℕ)
    → lookup identifier limits ≡ some e
    → All (InWindow e.window_start) times
    → e.count + length times < u32_mod
    → allowed limits identifier limit_per_min times ≡ min (length times) (limit_per_min - e.count)
unfolding allowed
allowed_open limits identifier limit_per_min e [] found early word = ground arith
allowed_open limits identifier limit_per_min e (t ∷ times) found ((from, before, t_word), early)
      word =
    let same = current_entry_open limits identifier limit_per_min t e found from before t_word in
    let (verdict, next) =
      check_rate_limit_entry limits identifier limit_per_min t e same (omega arith) in
    let rest =
      allowed_open (check_rate_limit limits t identifier limit_per_min).1 identifier limit_per_min
        (record e { count = e.count + 1 }) times next early (omega arith) in
    rw verdict (ground arith)

-- Of the requests of an identifier that has no window yet, of which the others come less than 60
-- seconds after the first and none before it, exactly the first `limit_per_min` are allowed, where
-- they are fewer than 2 ^ 32 and times are less than 2 ^ 64.
pub allowed_window :
    (limits : List (Text × RateLimitEntry)) (identifier : Text) (limit_per_min start : ℕ)
    (times : List ℕ)
    → lookup identifier limits ≡ none
    → All (λ t. (start ≤ t) × (t < start + 60) × (t < u64_mod)) times
    → 1 + length times < u32_mod
    → allowed limits identifier limit_per_min (start ∷ times) ≡ min (1 + length times) limit_per_min
unfolding allowed
allowed_window limits identifier limit_per_min start times gone early word =
    let same = current_entry-new_window limits identifier limit_per_min start gone in
    let (verdict, next) =
      check_rate_limit_entry limits identifier limit_per_min start (new_window start) same
        (omega arith) in
    let rest =
      allowed_open (check_rate_limit limits start identifier limit_per_min).1 identifier
        limit_per_min (record { count = 1; window_start = start }) times next early word in
    rw verdict (ground arith)
