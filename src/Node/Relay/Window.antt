-- ===== src/Node/Relay/Window.antt =====
-- What the bandwidth quota lets through (src/node/relay.rs).
use dsearch.Base.{
  ℕ, ◌+◌, ◌≤◌, ◌<◌, ◌≡◌, refl, none, some, List, [], ◌∷◌, leb, ap, ◌∙◌, if◌then◌else◌, Text,
  lt→leb_false, text_eq_refl, lookup, lookup-put, u64_mod, add_u64, arith, All, Bool-cases, inl,
  inr, text_eq,
}
use dsearch.Node.Relay.{
  BandwidthAccount, RelayBandwidthAccount, fresh, current_account, set_used, allow,
}

-- What an account has counted after a transfer.
abbrev pub used_after : RelayBandwidthAccount → BandwidthAccount → ℕ → ℕ
used_after r b bytes =
    if leb (add_u64 b.bytes_used bytes) r.limit_bytes_per_window
    then add_u64 b.bytes_used bytes
    else b.bytes_used

abbrev charged : RelayBandwidthAccount → ℕ → Text → ℕ → BandwidthAccount
charged r now peer_id bytes =
    let b = current_account r now peer_id in
    record { bytes_used = used_after r b bytes; reset_at = b.reset_at }

allow-lookup :
    (r : RelayBandwidthAccount) (now : ℕ) (p : Text) (bytes : ℕ) (j : Text)
    → lookup j (allow r now p bytes).1.accounts
      ≡ (if text_eq p j then some (charged r now p bytes) else lookup j r.accounts)
unfolding allow set_used
allow-lookup r now p bytes j =
    elim (Bool-cases
      (leb (add_u64 (current_account r now p).bytes_used bytes) r.limit_bytes_per_window)) [
        | inl h ↦ rw (h, lookup-put)
        | inr h ↦ rw (h, lookup-put)
      ]

allow-limits :
    (r : RelayBandwidthAccount) (now : ℕ) (p : Text) (bytes : ℕ)
    → ((allow r now p bytes).1.limit_bytes_per_window ≡ r.limit_bytes_per_window)
      × ((allow r now p bytes).1.window ≡ r.window)
      × ((allow r now p bytes).0
          ≡ leb (add_u64 (current_account r now p).bytes_used bytes) r.limit_bytes_per_window)
unfolding allow set_used
allow-limits r now p bytes =
    elim (Bool-cases
      (leb (add_u64 (current_account r now p).bytes_used bytes) r.limit_bytes_per_window)) [
        | inl h ↦ rw h (refl, refl, refl)
        | inr h ↦ rw h (refl, refl, refl)
      ]

current_account_open :
    (r : RelayBandwidthAccount) (now : ℕ) (p : Text) (b : BandwidthAccount)
    → lookup p r.accounts ≡ some b
    → now < b.reset_at
    → current_account r now p ≡ b
unfolding current_account
current_account_open r now p b found before = rw (found, lt→leb_false _ _ before) refl

current_account-fresh :
    (r : RelayBandwidthAccount) (now : ℕ) (p : Text)
    → lookup p r.accounts ≡ none
    → current_account r now p ≡ fresh r now
unfolding current_account
current_account-fresh r now p gone =
    rw gone
      (elim (Bool-cases (leb (fresh r now).reset_at now)) [ inl h ↦ rw h refl | inr h ↦ rw h refl ])

-- The bytes of the transfers of a peer that are accepted, each given by its time and size.
unfoldable pub relayed : RelayBandwidthAccount → Text → List (ℕ × ℕ) → ℕ
relayed r p [] = 0
relayed r p ((now, bytes) ∷ transfers) =
    let (ok, r') = allow r now p bytes in
    let rest = relayed r' p transfers in if ok then bytes + rest else rest

-- Before the end of a window, and of a size that cannot wrap the sum.
abbrev pub InWindow : ℕ → ℕ → ℕ × ℕ → Type 0
InWindow limit end (now, bytes) = (now < end) × (bytes + limit < u64_mod)

relayed_before_reset :
    (r : RelayBandwidthAccount) (p : Text) (b : BandwidthAccount) (transfers : List (ℕ × ℕ))
    → lookup p r.accounts ≡ some b
    → b.bytes_used ≤ r.limit_bytes_per_window
    → All (InWindow r.limit_bytes_per_window b.reset_at) transfers
    → relayed r p transfers + b.bytes_used ≤ r.limit_bytes_per_window
unfolding relayed
relayed_before_reset r p b [] found low early = ground arith
relayed_before_reset r p b ((t, bytes) ∷ transfers) found low ((before, small), early) =
    let (same_limit, same_window, verdict) = allow-limits r t p bytes in
    let now_found =
      allow-lookup r t p bytes p
      ∙ ap (λ e. if e then some (charged r t p bytes) else lookup p r.accounts) (text_eq_refl p) in
    let same = current_account_open r t p b found before in
    let rest =
      relayed_before_reset (allow r t p bytes).1 p (charged r t p bytes) transfers now_found
        (ground arith) (rw (same, same_limit) early) in
    ground arith

-- From a tracker with no account for a peer, the transfers of the peer that are accepted until the
-- end of the window that the first opens do not exceed the limit together, when no size is so
-- large that the sum of `u64` could wrap.
pub relayed_window :
    (r : RelayBandwidthAccount) (p : Text) (start bytes : ℕ) (transfers : List (ℕ × ℕ))
    → lookup p r.accounts ≡ none
    → bytes < u64_mod
    → All (InWindow r.limit_bytes_per_window (start + r.window)) transfers
    → relayed r p ((start, bytes) ∷ transfers) ≤ r.limit_bytes_per_window
unfolding relayed fresh
relayed_window r p start bytes transfers gone small early =
    let (same_limit, same_window, verdict) = allow-limits r start p bytes in
    let now_found =
      allow-lookup r start p bytes p
      ∙ ap (λ e. if e then some (charged r start p bytes) else lookup p r.accounts)
          (text_eq_refl p) in
    let same : current_account r start p ≡ fresh r start = current_account-fresh r start p gone in
    let rest =
      relayed_before_reset (allow r start p bytes).1 p (charged r start p bytes) transfers now_found
        (ground arith) (rw (same, same_limit) early) in
    ground arith
