-- ===== src/Api/Local/Route.antt =====
-- The routes of the local interface (src/api/handlers.rs): which handler a method and a path lead to.
use dsearch.Base.{
  Option, none, some, Text, codes, text_eq, starts_with, lookup, if◌then◌else◌, List, [], ◌∷◌,
}

-- The handlers.
pub data Endpoint : Type 0 where
  health node search get_record list_records list_schemas get_schema list_peers : Endpoint
  add_peer ban_peer unban_peer list_scrapers run_scraper insert_record pin_record : Endpoint
  unpin_record delete_record announce_record sweep storage_info storage_quota storage_pow : Endpoint
  storage_cache storage_vacuum storage_export storage_import get_config set_config : Endpoint
  identity bootstrap openapi : Endpoint

-- The paths of a method, each with its handler.
abbrev pub get_paths : List (Text × Endpoint)
get_paths =
    (codes "/health", health)
    ∷ (codes "/node", node)
    ∷ (codes "/search", search)
    ∷ (codes "/records", list_records)
    ∷ (codes "/schema", list_schemas)
    ∷ (codes "/peers", list_peers)
    ∷ (codes "/scraper", list_scrapers)
    ∷ (codes "/storage", storage_info)
    ∷ (codes "/storage/quota", storage_quota)
    ∷ (codes "/storage/pow", storage_pow)
    ∷ (codes "/storage/cache", storage_cache)
    ∷ (codes "/config", get_config)
    ∷ (codes "/identity", identity)
    ∷ (codes "/bootstrap", bootstrap)
    ∷ (codes "/openapi.json", openapi)
    ∷ []

abbrev pub post_paths : List (Text × Endpoint)
post_paths =
    (codes "/peers/add", add_peer)
    ∷ (codes "/peers/ban", ban_peer)
    ∷ (codes "/peers/unban", unban_peer)
    ∷ (codes "/scraper/run", run_scraper)
    ∷ (codes "/record/insert", insert_record)
    ∷ (codes "/record/pin", pin_record)
    ∷ (codes "/record/unpin", unpin_record)
    ∷ (codes "/record/delete", delete_record)
    ∷ (codes "/record/announce", announce_record)
    ∷ (codes "/record/sweep", sweep)
    ∷ (codes "/storage/vacuum", storage_vacuum)
    ∷ (codes "/storage/export", storage_export)
    ∷ (codes "/storage/import", storage_import)
    ∷ (codes "/config/set", set_config)
    ∷ []

-- The handler of a request; an unknown route has none. No path of the list starts with one of the
-- two prefixes, so the order of the source's match does not matter.
unfoldable pub route : Text → Text → Option Endpoint
route method path =
    if text_eq method (codes "GET")
    then (if starts_with (codes "/record/") path
        then some get_record
        else if starts_with (codes "/schema/") path
        then some get_schema
        else lookup path get_paths)
    else if text_eq method (codes "POST")
    then lookup path post_paths
    else none
