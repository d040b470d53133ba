-- ===== src/Config/Set.antt =====
-- Setting one value of the configuration (src/config/mod.rs). The keys of the source's match are
-- the keys of a list here, each with what it sets.
pub mod Viewed
use dsearch.Base.{
  ℕ, ◌-◌, Bool, true, false, Option, none, some, List, [], ◌∷◌, Result, ok, err, Text, codes,
  text_eq, lookup, ◌++◌, if◌then◌else◌, u32_mod, u64_mod,
}
use dsearch.Search.Dates.{parse_number}
use dsearch.Config.{DsearchConfig, ConfigError, invalid_value, unknown_key}

-- `parse` of a `bool`.
unfoldable pub parse_bool : Text → Option Bool
parse_bool s =
    if text_eq s (codes "true")
    then some true
    else if text_eq s (codes "false")
    then some false
    else none

abbrev pub Setter : Type 0
Setter = Text → DsearchConfig → Option DsearchConfig

abbrev pub set_text : (Text → DsearchConfig → DsearchConfig) → Setter
set_text f value config = some (f value config)

abbrev pub set_parsed {ℓ} : {A : Type ℓ} → Option A → (A → DsearchConfig) → Option DsearchConfig
set_parsed none f = none
set_parsed (some a) f = some (f a)

abbrev pub set_number : ℕ → (ℕ → DsearchConfig → DsearchConfig) → Setter
set_number max f value config = set_parsed (parse_number max value) (λ n. f n config)

abbrev pub set_bool : (Bool → DsearchConfig → DsearchConfig) → Setter
set_bool f value config = set_parsed (parse_bool value) (λ b. f b config)

abbrev pub u8_max : ℕ
u8_max = 255

abbrev pub u16_max : ℕ
u16_max = 65535

abbrev pub u32_max : ℕ
u32_max = u32_mod - 1

abbrev pub u64_max : ℕ
u64_max = u64_mod - 1

abbrev pub node_setters : List (Text × Setter)
node_setters =
    (codes "node.role", set_text λ v c. record c { node = record c.node { role = v } })
    ∷ (
      codes "node.max_connections",
      set_number u32_max λ n c. record c { node = record c.node { max_connections = n } },
    )
    ∷ (
      codes "node.max_concurrent_queries",
      set_number u32_max λ n c. record c { node = record c.node { max_concurrent_queries = n } },
    )
    ∷ (
      codes "node.min_protocol_version",
      set_number u8_max λ n c. record c { node = record c.node { min_protocol_version = n } },
    )
    ∷ (codes "node.ipv4", set_bool λ b c. record c { node = record c.node { ipv4 = b } })
    ∷ (codes "node.ipv6", set_bool λ b c. record c { node = record c.node { ipv6 = b } })
    ∷ []

abbrev pub gateway_setters : List (Text × Setter)
gateway_setters =
    (codes "api.port", set_number u16_max λ n c. record c { api = record c.api { port = n } })
    ∷ (
      codes "gateway.enabled",
      set_bool λ b c. record c { gateway = record c.gateway { enabled = b } },
    )
    ∷ (codes "gateway.bind", set_text λ v c. record c { gateway = record c.gateway { bind = v } })
    ∷ (
      codes "gateway.rate_limit_per_min",
      set_number u32_max λ n c. record c { gateway = record c.gateway { rate_limit_per_min = n } },
    )
    ∷ (
      codes "gateway.require_api_key",
      set_bool λ b c. record c { gateway = record c.gateway { require_api_key = b } },
    )
    ∷ []

abbrev pub storage_setters : List (Text × Setter)
storage_setters =
    (
      codes "storage.quota_mb",
      set_number u32_max λ n c. record c { storage = record c.storage { quota_mb = n } },
    )
    ∷ (
      codes "storage.quota_action",
      set_text λ v c. record c { storage = record c.storage { quota_action = v } },
    )
    ∷ (
      codes "storage.tier2_max_mb",
      set_number u32_max λ n c. record c { storage = record c.storage { tier2_max_mb = n } },
    )
    ∷ (
      codes "relay.bandwidth_limit_mbps",
      set_number u32_max λ n c. record c { relay = record c.relay { bandwidth_limit_mbps = n } },
    )
    ∷ (
      codes "scraper.default_interval_secs",
      set_number u64_max
          λ n c. record c { scraper = record c.scraper { default_interval_secs = n } },
    )
    ∷ (
      codes "scraper.default_replicate",
      set_number u32_max λ n c. record c { scraper = record c.scraper { default_replicate = n } },
    )
    ∷ (
      codes "scraper.default_lifecycle",
      set_text λ v c. record c { scraper = record c.scraper { default_lifecycle = v } },
    )
    ∷ []

abbrev pub log_setters : List (Text × Setter)
log_setters =
    (codes "log.level", set_text λ v c. record c { log = record c.log { level = v } })
    ∷ (codes "log.output", set_text λ v c. record c { log = record c.log { output = v } })
    ∷ (codes "log.file", set_text λ v c. record c { log = record c.log { file = v } })
    ∷ (
      codes "log.max_size_mb",
      set_number u32_max λ n c. record c { log = record c.log { max_size_mb = n } },
    )
    ∷ (
      codes "log.rotate_count",
      set_number u32_max λ n c. record c { log = record c.log { rotate_count = n } },
    )
    ∷ (
      codes "bootstrap.use_defaults",
      set_bool λ b c. record c { bootstrap = record c.bootstrap { use_defaults = b } },
    )
    ∷ []

abbrev pub setters : List (Text × Setter)
setters = node_setters ++ gateway_setters ++ storage_setters ++ log_setters

abbrev pub or_invalid_value : Text → Option DsearchConfig → Result DsearchConfig ConfigError
or_invalid_value key none = err (invalid_value key)
or_invalid_value key (some config) = ok config

-- What the setter of a key makes of a value.
abbrev pub apply_setter :
    Option Setter → DsearchConfig → Text → Text → Result DsearchConfig ConfigError
apply_setter none config key value = err (unknown_key key)
apply_setter (some set) config key value = or_invalid_value key (set value config)

unfoldable pub set_config_value : DsearchConfig → Text → Text → Result DsearchConfig ConfigError
set_config_value config key value = apply_setter (lookup key setters) config key value
