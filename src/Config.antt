-- ===== src/Config.antt =====
-- The configuration and its defaults (src/config/mod.rs, src/config/migrations.rs).
pub mod Set
pub mod File
use dsearch.Base.{
  ℕ, ◌+◌, ◌<◌, Bool, true, false, List, [], Result, ok, err, Text, codes, ltb, if◌then◌else◌,
}
use dsearch.Model.{ScrapeJob}
use dsearch.Storage.Db.{StorageConfig}

abbrev pub current_config_version : ℕ
current_config_version = 1

pub record NodeConfig : Type 0 where
  pub role : Text
  pub max_connections : ℕ
  pub min_protocol_version : ℕ
  pub ipv4 : Bool
  pub ipv6 : Bool
  pub max_concurrent_queries : ℕ

pub record ApiConfig : Type 0 where
  pub port : ℕ

pub record GatewayConfig : Type 0 where
  pub enabled : Bool
  pub bind : Text
  pub rate_limit_per_min : ℕ
  pub require_api_key : Bool

pub record RelayConfig : Type 0 where
  pub bandwidth_limit_mbps : ℕ

pub record ScraperConfig : Type 0 where
  pub default_interval_secs : ℕ
  pub default_replicate : ℕ
  pub default_lifecycle : Text
  pub jobs : List ScrapeJob

pub record LogConfig : Type 0 where
  pub level : Text
  pub output : Text
  pub file : Text
  pub max_size_mb : ℕ
  pub rotate_count : ℕ

pub record BootstrapConfig : Type 0 where
  pub use_defaults : Bool

pub record DsearchConfig : Type 0 where
  pub node : NodeConfig
  pub api : ApiConfig
  pub gateway : GatewayConfig
  pub storage : StorageConfig
  pub relay : RelayConfig
  pub scraper : ScraperConfig
  pub log : LogConfig
  pub bootstrap : BootstrapConfig

abbrev pub default_node : NodeConfig
default_node = record {
  role = codes "light";
  max_connections = 200;
  min_protocol_version = 1;
  ipv4 = true;
  ipv6 = true;
  max_concurrent_queries = 50;
}

abbrev pub default_api : ApiConfig
default_api = record { port = 7743 }

abbrev pub default_gateway : GatewayConfig
default_gateway = record {
  enabled = false;
  bind = codes "0.0.0.0:7744";
  rate_limit_per_min = 60;
  require_api_key = false;
}

abbrev pub default_storage : StorageConfig
default_storage = record { quota_mb = 0; quota_action = codes "evict_oldest"; tier2_max_mb = 512 }

abbrev pub default_relay : RelayConfig
default_relay = record { bandwidth_limit_mbps = 100 }

abbrev pub default_scraper : ScraperConfig
default_scraper = record {
  default_interval_secs = 3600;
  default_replicate = 0;
  default_lifecycle = codes "ephemeral";
  jobs = [];
}

abbrev pub default_log : LogConfig
default_log = record {
  level = codes "info";
  output = codes "stderr";
  file = codes "{data_dir}/dsearch.log";
  max_size_mb = 50;
  rotate_count = 3;
}

abbrev pub default_bootstrap : BootstrapConfig
default_bootstrap = record { use_defaults = true }

-- `DsearchConfig::default`
abbrev pub default_config : DsearchConfig
default_config = record {
  node = default_node;
  api = default_api;
  gateway = default_gateway;
  storage = default_storage;
  relay = default_relay;
  scraper = default_scraper;
  log = default_log;
  bootstrap = default_bootstrap;
}

pub data ConfigError : Type 0 where
  invalid_value : Text → ConfigError
  unknown_key : Text → ConfigError
  future_version : ℕ → ConfigError
  unparsed : ConfigError

-- The migrations of the configuration: there are none yet, and a version to come is refused.
unfoldable pub run_migrations : ℕ → Result (Unit {0}) ConfigError
run_migrations current_version =
    if ltb current_config_version current_version
    then err (future_version current_version)
    else ok tt
