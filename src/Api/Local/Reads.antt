-- ===== src/Api/Local/Reads.antt =====
-- The handlers that read (src/api/handlers.rs), and the routes of the gateway share them
-- (src/api/gateway.rs). The path of a record is what follows the eight bytes of "/record/".
use dsearch.Base.{
  true, is_ok, Option, none, some, List, [], ◌∷◌, ◌++◌, map, Result, ok, err, Text, codes, text_eq,
  any, length, lookup, drop, if◌then◌else◌,
}
use dsearch.Model.{ContentRecord}
use dsearch.Storage.Db.{StorageError, record_count, records_size_bytes}
use dsearch.Storage.Store.{get_record, list_records}
use dsearch.Storage.Store.Passed.{check_quota}
use dsearch.Storage.Store.Search.{search_records}
use dsearch.Trust.Pow.{default_difficulty}
use dsearch.Api.Local.{Fields, reply, limit_of, text_or_empty, effective_query}
use dsearch.Api.Platform.{Platform, StoreOf, Clock}
use dsearch.Api.Request.{HttpRequest}
use dsearch.Api.Response.{
  HttpResponse, json, not_found, internal_error, with_node_headers, with_record_count,
}

abbrev pub known_schemas : List Text
known_schemas =
    codes "wiki/article" ∷ codes "rust/crate" ∷ codes "link/media" ∷ codes "generic/kv" ∷ []

module _ (P : Platform) (node_id : Text) where
  unfoldable pub handle_health : HttpResponse
  handle_health =
      reply P node_id (
        (codes "status", P.json.string (codes "ok"))
        ∷ (codes "node_id", P.json.string node_id)
        ∷ [])

  abbrev pub records_value : List ContentRecord → P.json.Value
  records_value records = P.json.array (map P.json.of_record records)

  -- The response to a search for a query, as the store answers it.
  abbrev pub search_reply : Text → Result (List ContentRecord) StorageError → HttpResponse
  search_reply query (err e) = internal_error P.json (P.storage_error e)
  search_reply query (ok results) = with_record_count (length results) (
      reply P node_id (
        (codes "query", P.json.string query)
        ∷ (codes "results", records_value results)
        ∷ (codes "count", P.json.number (length results))
        ∷ []))

  unfoldable pub handle_search : HttpRequest → StoreOf P → Clock → HttpResponse × StoreOf P
  handle_search req store clock =
      let query = text_or_empty (lookup (codes "q") req.query) in
      let (found, store') =
        search_records P.floats P.to_lowercase P.redb P.serde P.list_serde P.ed25519 store
          clock.instant clock.now (effective_query (lookup (codes "schema") req.query) query)
          (limit_of 20 req) in
      (search_reply query found, store')

  abbrev pub record_reply : Text → Result (Option ContentRecord) StorageError → HttpResponse
  record_reply id (err e) = internal_error P.json (P.storage_error e)
  record_reply id (ok none) = not_found P.json (codes "record not found: " ++ id)
  record_reply id (ok (some r)) =
      with_node_headers node_id (json (P.json.to_string (P.json.of_record r)))

  unfoldable pub handle_get_record : Text → StoreOf P → HttpResponse
  handle_get_record path store =
      let id = drop 8 path in
      record_reply id (get_record P.redb P.serde P.ed25519 P.signature_bytes store id)

  abbrev pub list_reply : Result (List ContentRecord) StorageError → HttpResponse
  list_reply (err e) = internal_error P.json (P.storage_error e)
  list_reply (ok records) = with_record_count (length records) (
      reply P node_id (
        (codes "records", records_value records)
        ∷ (codes "count", P.json.number (length records))
        ∷ []))

  unfoldable pub handle_list_records : HttpRequest → StoreOf P → HttpResponse
  handle_list_records req store = list_reply (
      list_records P.redb P.serde P.ed25519 P.signature_bytes store
        (lookup (codes "schema") req.query) (limit_of 50 req))

  unfoldable pub handle_list_schemas : HttpResponse
  handle_list_schemas =
      reply P node_id ((codes "schemas", P.json.array (map P.json.string known_schemas)) ∷ [])

  unfoldable pub handle_get_schema : Text → HttpResponse
  handle_get_schema path =
      let id = drop 8 path in
      if any (λ schema. text_eq schema id) known_schemas
      then reply P node_id
          ((codes "id", P.json.string id) ∷ (codes "known", P.json.boolean true) ∷ [])
      else not_found P.json (codes "unknown schema: " ++ id)

  -- The counts of the store do not fail; `redb` itself is left out.
  abbrev pub size_fields : StoreOf P → Fields P
  size_fields store =
      (codes "record_count", P.json.number (record_count P.redb store.db))
      ∷ (codes "size_bytes", P.json.number (records_size_bytes P.redb store.db))
      ∷ []

  unfoldable pub handle_storage_info : StoreOf P → HttpResponse
  handle_storage_info store = reply P node_id (size_fields store)

  unfoldable pub handle_storage_vacuum : StoreOf P → HttpResponse
  handle_storage_vacuum store = reply P node_id (
      (codes "ok", P.json.boolean true)
      ∷ (
        codes "message",
        P.json.string (codes "vacuum requires stopping the node first to compact the database"),
      )
      ∷ size_fields store)

  unfoldable pub handle_storage_pow : HttpResponse
  handle_storage_pow =
      reply P node_id ((codes "default_difficulty", P.json.number default_difficulty) ∷ [])

  -- The check of the quota may evict records, also here.
  unfoldable pub handle_storage_quota : StoreOf P → HttpResponse × StoreOf P
  handle_storage_quota store =
      let (checked, store') = check_quota P.redb P.serde P.ed25519 store 0 in
      (
        reply P node_id
            (size_fields store ++ (codes "within_quota", P.json.boolean (is_ok checked)) ∷ []),
        store',
      )
