-- ===== src/Node/Relay.antt =====
-- The bandwidth quotas of relayed peers (src/node/relay.rs). Instants are numbers, and the one that
-- a method reads from the clock is its argument `now`; sums of `u64` wrap.
pub mod Window
use dsearch.Base.{
  ℕ, ◌+◌, ◌-◌, Bool, true, false, none, some, List, ltb, leb, if◌then◌else◌, Text, lookup, put,
  or_insert, retain, length, add_u64,
}

pub record BandwidthAccount : Type 0 where
  pub bytes_used : ℕ
  pub reset_at : ℕ

pub record RelayBandwidthAccount : Type 0 where
  pub accounts : List (Text × BandwidthAccount)
  pub limit_bytes_per_window : ℕ
  pub window : ℕ

unfoldable pub fresh : RelayBandwidthAccount → ℕ → BandwidthAccount
fresh r now = record { bytes_used = 0; reset_at = now + r.window }

-- The account that `allow` and `record` write to: a new one where there is none, reset where its
-- window has elapsed.
unfoldable pub current_account : RelayBandwidthAccount → ℕ → Text → BandwidthAccount
current_account r now peer_id =
    let account = or_insert (lookup peer_id r.accounts) (fresh r now) in
    if leb account.reset_at now then fresh r now else account

unfoldable pub set_used :
    RelayBandwidthAccount → Text → BandwidthAccount → ℕ → RelayBandwidthAccount
set_used r peer_id account used = record r {
  accounts = put peer_id (record account { bytes_used = used }) r.accounts;
}

unfoldable pub allow : RelayBandwidthAccount → ℕ → Text → ℕ → Bool × RelayBandwidthAccount
allow r now peer_id bytes =
    let account = current_account r now peer_id in
    if leb (add_u64 account.bytes_used bytes) r.limit_bytes_per_window
    then (true, set_used r peer_id account (add_u64 account.bytes_used bytes))
    else (false, set_used r peer_id account account.bytes_used)

-- `record`, which is a reserved word here: the bytes are counted without a check.
unfoldable pub record_bytes : RelayBandwidthAccount → ℕ → Text → ℕ → RelayBandwidthAccount
record_bytes r now peer_id bytes =
    let account = current_account r now peer_id in
    set_used r peer_id account (add_u64 account.bytes_used bytes)

unfoldable pub remaining : RelayBandwidthAccount → ℕ → Text → ℕ
remaining r now peer_id = elim (lookup peer_id r.accounts) [
  | none ↦ r.limit_bytes_per_window
  | some account ↦
      if leb account.reset_at now
      then r.limit_bytes_per_window
      else r.limit_bytes_per_window - account.bytes_used
]

unfoldable pub prune_expired : RelayBandwidthAccount → ℕ → RelayBandwidthAccount
prune_expired r now = record r { accounts = retain (λ e. ltb now e.1.reset_at) r.accounts }

-- The number of peers tracked.
unfoldable pub len : RelayBandwidthAccount → ℕ
len r = length r.accounts
