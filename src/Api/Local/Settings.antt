-- ===== src/Api/Local/Settings.antt =====
-- The handlers of the node's settings, of its scrapers and of its start (src/api/handlers.rs).
use dsearch.Base.{
  ℕ, Bool, true, Option, none, some, List, [], ◌∷◌, ◌++◌, map, Result, ok, err, Text, codes,
  text_eq, length, if◌then◌else◌,
}
use dsearch.Api.Local.{reply, body_field}
use dsearch.Api.Platform.{Platform, StoreOf}
use dsearch.Api.Request.{HttpRequest}
use dsearch.Api.Response.{
  HttpResponse, json, bad_request, not_found, internal_error, with_node_headers,
}
use dsearch.Bootstrap.{BootstrapPeer, TomlCodec, resolve_bootstrap_peers}
use dsearch.Config.{DsearchConfig, ConfigError}
use dsearch.Config.File.{Toml, load_config, save_config}
use dsearch.Config.Set.{set_config_value}
use dsearch.Model.{ScrapeJob}
use dsearch.Model.Life as Life
use dsearch.Scraper.Job.{ScrapeResult, JobError, run_url_job}
use dsearch.Storage.Db.{record_count}

-- TOML, configurations and jobs as values of JSON, and the texts of errors.
pub record SettingsCodec (P : Platform) : Type 0 where
  pub toml : Toml
  pub of_config : DsearchConfig → P.json.Value
  pub of_jobs : List ScrapeJob → P.json.Value
  pub config_error : ConfigError → Text
  pub job_error : JobError → Text

module _ (P : Platform) (C : SettingsCodec P) (node_id : Text) where
  unfoldable pub handle_node : DsearchConfig → StoreOf P → HttpResponse
  handle_node config store = reply P node_id (
      (codes "node_id", P.json.string node_id)
      ∷ (codes "role", P.json.string config.node.role)
      ∷ (codes "protocol_version", P.json.number config.node.min_protocol_version)
      ∷ (codes "peers", P.json.number 0)
      ∷ (codes "records", P.json.number (record_count P.redb store.db))
      ∷ (codes "bandwidth_limit_mbps", P.json.number config.relay.bandwidth_limit_mbps)
      ∷ [])

  unfoldable pub handle_list_scrapers : DsearchConfig → HttpResponse
  handle_list_scrapers config = reply P node_id (
      (codes "jobs", C.of_jobs config.scraper.jobs)
      ∷ (codes "default_interval_secs", P.json.number config.scraper.default_interval_secs)
      ∷ (codes "default_lifecycle", P.json.string config.scraper.default_lifecycle)
      ∷ [])

  unfoldable pub find_job : Text → List ScrapeJob → Option ScrapeJob
  find_job name [] = none
  find_job name (j ∷ jobs) =
      let rest = find_job name jobs in if text_eq j.name name then some j else rest

  abbrev pub scraped_reply : Result ScrapeResult JobError → HttpResponse
  scraped_reply (err e) = internal_error P.json (C.job_error e)
  scraped_reply (ok result) = reply P node_id (
      (codes "ok", P.json.boolean true)
      ∷ (codes "job_name", P.json.string result.job_name)
      ∷ (codes "record_id", P.json.string result.record_id)
      ∷ (codes "inserted", P.json.boolean result.was_inserted)
      ∷ (codes "replaced", P.json.boolean result.was_replaced)
      ∷ [])

  -- `fetch` is what fetching a target gives.
  unfoldable pub handle_run_scraper :
      HttpRequest
      → DsearchConfig
      → StoreOf P
      → (Text → Result Text Text)
      → ℕ
      → HttpResponse × StoreOf P
  handle_run_scraper req config store fetch now = elim (body_field P req (codes "name")) [
    | err resp ↦ (resp, store)
    | ok name ↦ elim (find_job name config.scraper.jobs) [
      | none ↦ (not_found P.json (codes "scraper job '" ++ (name ++ codes "' not found")), store)
      | some job ↦
          let (result, store') =
            run_url_job P store job.name job.target (Life.as_str job.lifecycle) job.ttl_secs
              (fetch job.target) now in
          (scraped_reply result, store')
    ]
  ]

  abbrev pub config_reply : Result DsearchConfig ConfigError → HttpResponse
  config_reply (err e) = internal_error P.json (C.config_error e)
  config_reply (ok config) =
      with_node_headers node_id (json (P.json.to_string (C.of_config config)))

  unfoldable pub handle_get_config : Option Text → HttpResponse
  handle_get_config file = config_reply (load_config C.toml file)

  -- What setting a value of the loaded configuration leaves in the file.
  abbrev pub set_loaded :
      Option Text → Text → Text → Result DsearchConfig ConfigError → HttpResponse × Option Text
  set_loaded file key value (err e) = (internal_error P.json (C.config_error e), file)
  set_loaded file key value (ok config) = elim (set_config_value config key value) [
    | err e ↦ (bad_request P.json (C.config_error e), file)
    | ok changed ↦ (
      reply P node_id (
          (codes "ok", P.json.boolean true)
          ∷ (codes "key", P.json.string key)
          ∷ (codes "value", P.json.string value)
          ∷ []),
      some (save_config C.toml file changed),
    )
  ]

  -- Both fields are looked up in one body, the key first.
  unfoldable pub handle_set_config : HttpRequest → Option Text → HttpResponse × Option Text
  handle_set_config req file = elim (body_field P req (codes "key")) [
    | err resp ↦ (resp, file)
    | ok key ↦ elim (body_field P req (codes "value")) [
      | err resp ↦ (resp, file)
      | ok value ↦ set_loaded file key value (load_config C.toml file)
    ]
  ]

  -- Whether the file of the key is there is an argument.
  unfoldable pub handle_identity : Bool → HttpResponse
  handle_identity has_key = reply P node_id (
      (codes "node_id", P.json.string node_id)
      ∷ (codes "has_identity", P.json.boolean has_key)
      ∷ [])

  abbrev pub peer_json : BootstrapPeer → P.json.Value
  peer_json p = P.json.object (
      (codes "id", P.json.string p.id)
      ∷ (codes "addr", P.json.string p.addr)
      ∷ (codes "note", P.json.string p.note)
      ∷ [])

  -- `answers` are those of the servers of DNS.
  unfoldable pub handle_bootstrap :
      TomlCodec → Option Text → List (Result (List BootstrapPeer) Text) → HttpResponse
  handle_bootstrap T file answers =
      let peers = resolve_bootstrap_peers T file answers in
      reply P node_id (
        (codes "peers", P.json.array (map peer_json peers))
        ∷ (codes "count", P.json.number (length peers))
        ∷ [])
