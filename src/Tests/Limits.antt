-- ===== src/Tests/Limits.antt =====
-- Runs of the two limiters, and the theorems at them.
use dsearch.Base.{
  put, without, ◌-◌, ◌≡◌, refl, true, [], ◌∷◌, min, codes, text_eq, lookup, lookup_empty, arith,
  u64_mod,
}
use dsearch.Storage.Tier2Limiter
use dsearch.Storage.Tier2Limiter.{Tier2Limiter, TokenBucket}
use dsearch.Storage.Tier2Limiter.Window.{accepted, accepted_window}
use dsearch.Node.Relay
use dsearch.Node.Relay.{RelayBandwidthAccount}
use dsearch.Node.Relay.Window.{relayed}

abbrev limiter : Tier2Limiter
limiter = record { buckets = []; max_requests = 2; window = 60 }

-- Four requests in one window: the first two are accepted.
four : accepted limiter (codes "a") (0 ∷ 10 ∷ 20 ∷ 30 ∷ []) ≡ 2
unfolding accepted Tier2Limiter.allow Tier2Limiter.current_bucket Tier2Limiter.fresh lookup put
    without text_eq
four = refl

-- A window is fixed, not rolling: four requests within four seconds.
around_reset : accepted limiter (codes "a") (0 ∷ 58 ∷ 60 ∷ 61 ∷ []) ≡ 4
unfolding accepted Tier2Limiter.allow Tier2Limiter.current_bucket Tier2Limiter.fresh lookup put
    without text_eq
around_reset = refl

accepted_window_example : accepted limiter (codes "a") (0 ∷ 10 ∷ 20 ∷ []) ≡ min 3 2
accepted_window_example =
    accepted_window limiter (codes "a") 0 (10 ∷ 20 ∷ []) (lookup_empty (codes "a"))
      (omega arith, (omega arith, tt))

abbrev tracked : Tier2Limiter
tracked = record limiter { buckets = (codes "a", record { count = 2; reset_at = 60 }) ∷ [] }

abbrev relay : RelayBandwidthAccount
relay = record { accounts = []; limit_bytes_per_window = 1000; window = 10 }

-- Two transfers of 600 bytes: the second is refused.
two : relayed relay (codes "p") ((0, 600) ∷ (1, 600) ∷ []) ≡ 600
unfolding relayed Relay.allow Relay.set_used Relay.current_account Relay.fresh lookup put without
    text_eq
two = refl

-- A size near 2 ^ 64 wraps the sum and is accepted.
wrapped :
    (Relay.allow (Relay.allow relay 0 (codes "p") 600).1 1 (codes "p") (u64_mod - 600)).0 ≡ true
unfolding Relay.allow Relay.set_used Relay.current_account Relay.fresh lookup put without text_eq
wrapped = refl
