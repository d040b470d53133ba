-- ===== src/Api/Local/Upkeep.antt =====
-- The handlers that announce, sweep, import, export and report the caches (src/api/handlers.rs).
-- The files that are named in a request are outside: what reading or writing them gives is an
-- argument.
pub mod Cached
pub mod Totals
pub mod Announced
use dsearch.Base.{
  ℕ, ◌+◌, ◌==◌, Bool, true, false, Option, none, some, List, [], ◌∷◌, ◌++◌, map, Result, ok, err,
  Text, codes, length, if◌then◌else◌, add_u64,
}
use dsearch.Model.{ContentRecord, Announcement}
use dsearch.Sanitize.{SanitizeError, sanitize_record}
use dsearch.Storage.Db.{StorageError}
use dsearch.Storage.Records.{InsertResult, inserted, skipped_older, replaced_newer}
use dsearch.Storage.Store.{
  StoreError, storage, self_verification_failed, index_panic, get_record, insert_announcement,
  list_records, tier2_allow, relay_allow, relay_record, prune_tier2, prune_relay,
  invalidate_search_cache, clear_search_cache,
}
use dsearch.Storage.Store.Passed.{
  sweep_once, tier2_remaining, relay_remaining, search_cache_len, verify_record_id,
}
use dsearch.Storage.Tier2Limiter as Tier2Limiter
use dsearch.Node.Relay as Relay
use dsearch.Trust.Verify.{VerifyResult}
use dsearch.Api.Local.{reply, body_field, text_or_empty}
use dsearch.Api.Local.Writes.{failed, id_field, insert_into, record_not_found}
use dsearch.Api.Platform.{Platform, StoreOf, Clock}
use dsearch.Api.Request.{HttpRequest}
use dsearch.Api.Response.{HttpResponse, bad_request, not_found, internal_error}

-- The announcement of a record; one that does not expire is announced for a day.
unfoldable pub announcement_of : ContentRecord → ℕ → Announcement
announcement_of r now = record {
  record_id = r.id;
  source_hash = r.source_hash;
  schema = r.schema;
  tags = r.tags;
  holder_addr = codes "127.0.0.1:7744";
  expires_at = if r.expires_at == 0 then add_u64 now 86400 else r.expires_at;
  sig = [];
}

-- How the records of an import went.
pub record Imported : Type 0 where
  pub inserted_count : ℕ
  pub replaced_count : ℕ
  pub skipped_count : ℕ
  pub error_count : ℕ

unfoldable pub no_imports : Imported
no_imports = record { inserted_count = 0; replaced_count = 0; skipped_count = 0; error_count = 0 }

unfoldable pub count_error : Imported → Imported
count_error n = record n { error_count = n.error_count + 1 }

unfoldable pub count_result : InsertResult → Imported → Imported
count_result inserted n = record n { inserted_count = n.inserted_count + 1 }
count_result replaced_newer n = record n { replaced_count = n.replaced_count + 1 }
count_result skipped_older n = record n { skipped_count = n.skipped_count + 1 }

module _ (P : Platform) where
  -- The counts after an insert; a panic has none.
  abbrev pub count_insert : Result InsertResult StoreError → Imported → Option Imported
  count_insert (ok result) n = some (count_result result n)
  count_insert (err (storage e)) n = some (count_error n)
  count_insert (err self_verification_failed) n = some (count_error n)
  count_insert (err index_panic) n = none

  -- One record of an import.
  unfoldable pub import_record : ContentRecord → Imported → StoreOf P → Option Imported × StoreOf P
  import_record r n store = elim (sanitize_record r) [
    | err e ↦ (some (count_error n), store)
    | ok clean ↦
        let ((result, store'), signed) = insert_into P store clean in
        (count_insert result n, store')
  ]

  -- The records of an import, one after the other, up to a panic.
  unfoldable pub import_records :
      List ContentRecord → Imported → StoreOf P → Option Imported × StoreOf P
  import_records [] n store = (some n, store)
  import_records (r ∷ records) n store =
      let (counted, store') = import_record r n store in
      elim counted [ none ↦ (none, store') | some m ↦ import_records records m store' ]

  module _ (node_id : Text) where
    abbrev pub imported_reply : Text → Option Imported → Option HttpResponse
    imported_reply path none = none
    imported_reply path (some n) = some (
        reply P node_id (
          (codes "ok", P.json.boolean true)
          ∷ (codes "inserted", P.json.number n.inserted_count)
          ∷ (codes "replaced", P.json.number n.replaced_count)
          ∷ (codes "skipped", P.json.number n.skipped_count)
          ∷ (codes "errors", P.json.number n.error_count)
          ∷ (codes "path", P.json.string path)
          ∷ []))

    -- `read` is what reading the file of this path gives.
    unfoldable pub handle_storage_import :
        HttpRequest → (Text → Result Text Text) → StoreOf P → Option HttpResponse × StoreOf P
    handle_storage_import req read store = elim (body_field P req (codes "path")) [
      | err resp ↦ (some resp, store)
      | ok path ↦ elim (read path) [
        | err e ↦ (some (internal_error P.json (codes "read: " ++ e)), store)
        | ok contents ↦ elim (P.json.records_from_str contents) [
          | err e ↦ (some (bad_request P.json (codes "parse: " ++ e)), store)
          | ok records ↦
              let (counted, store') = import_records records no_imports store in
              (imported_reply path counted, store')
        ]
      ]
    ]

    abbrev pub exported_reply : Text → ℕ → Result (Unit {0}) Text → HttpResponse
    exported_reply path count (err e) = internal_error P.json (codes "write: " ++ e)
    exported_reply path count (ok u) = reply P node_id (
        (codes "ok", P.json.boolean true)
        ∷ (codes "exported", P.json.number count)
        ∷ (codes "path", P.json.string path)
        ∷ [])

    -- `opened` is what opening the database once more gives, and `write` what writing this text to
    -- a file of this path does. The list that is written does not fail to serialise.
    unfoldable pub handle_storage_export :
        HttpRequest
        → Result (StoreOf P) Text
        → (Text → Text → Result (Unit {0}) Text)
        → HttpResponse
    handle_storage_export req opened write = elim (body_field P req (codes "path")) [
      | err resp ↦ resp
      | ok path ↦ elim opened [
        | err e ↦ internal_error P.json e
        | ok store ↦
            elim (list_records P.redb P.serde P.ed25519 P.signature_bytes store none 1000000) [
              | err e ↦ internal_error P.json (P.storage_error e)
              | ok records ↦ exported_reply path (length records) (
                  write path
                    (P.json.to_string_pretty (P.json.array (map P.json.of_record records))))
            ]
      ]
    ]

    abbrev pub announced_reply : Text → Result (Unit {0}) StoreError → Option HttpResponse
    announced_reply id (err e) = failed P e
    announced_reply id (ok u) =
        some (
          reply P node_id ((codes "ok", P.json.boolean true) ∷ (codes "id", P.json.string id) ∷ []))

    -- A record that is stored is announced when its id is that of its content.
    unfoldable pub announce_found :
        Text → StoreOf P → ℕ → ContentRecord → Option HttpResponse × StoreOf P
    announce_found id store now r =
        let checked = verify_record_id P.blake3_hex r in
        if checked.valid
        then (let ((result, store'), signed) =
              insert_announcement P.redb P.serde P.ed25519 P.signature_bytes store
                (announcement_of r now) in
            (announced_reply id result, store'))
        else (
          some (
              bad_request P.json
                (codes "record ID verification failed: " ++ text_or_empty checked.reason)),
          store,
        )

    abbrev pub announce_result :
        Text
        → StoreOf P
        → ℕ
        → Result (Option ContentRecord) StorageError
        → Option HttpResponse × StoreOf P
    announce_result id store now (err e) = (some (internal_error P.json (P.storage_error e)), store)
    announce_result id store now (ok none) = (some (record_not_found P id), store)
    announce_result id store now (ok (some r)) = announce_found id store now r

    unfoldable pub handle_announce_record :
        HttpRequest → StoreOf P → ℕ → Option HttpResponse × StoreOf P
    handle_announce_record req store now = elim (id_field P req) [
      | err resp ↦ (some resp, store)
      | ok id ↦
          announce_result id store now
            (get_record P.redb P.serde P.ed25519 P.signature_bytes store id)
    ]

    abbrev pub swept_reply : Result (ℕ × ℕ) StorageError → HttpResponse
    swept_reply (err e) = internal_error P.json (P.storage_error e)
    swept_reply (ok (records, announcements)) = reply P node_id (
        (codes "ok", P.json.boolean true)
        ∷ (codes "records_removed", P.json.number records)
        ∷ (codes "announcements_removed", P.json.number announcements)
        ∷ [])

    unfoldable pub handle_sweep : StoreOf P → ℕ → HttpResponse × StoreOf P
    handle_sweep store now =
        let (result, store') = sweep_once P.redb P.serde P.ed25519 store now in
        (swept_reply result, store')

    -- What the report of the caches does to the store before it counts; the clock of instants is
    -- read once here.
    unfoldable pub exercise_caches : StoreOf P → ℕ → StoreOf P
    exercise_caches store instant =
        let R = P.redb in
        let E = P.ed25519 in
        let B = P.signature_bytes in
        let S = P.serde in
        let cleared = clear_search_cache R S E B (invalidate_search_cache R S E B store []) in
        let limited = (tier2_allow R S E B cleared instant (codes "127.0.0.1")).1 in
        let relayed = (relay_allow R S E B limited instant (codes "self") 0).1 in
        prune_relay R S E B (prune_tier2 R S E B relayed instant) instant

    unfoldable pub handle_storage_cache : StoreOf P → ℕ → HttpResponse × StoreOf P
    handle_storage_cache store instant =
        let s = exercise_caches store instant in
        (
          reply P node_id (
              (codes "cache_len", P.json.number (search_cache_len P.redb P.serde P.ed25519 s))
              ∷ (
                codes "tier2_remaining",
                P.json.number
                    (tier2_remaining P.redb P.serde P.ed25519 s instant (codes "127.0.0.1")),
              )
              ∷ (codes "tier2_len", P.json.number (Tier2Limiter.len s.tier2_limiter))
              ∷ (
                codes "relay_remaining",
                P.json.number (relay_remaining P.redb P.serde P.ed25519 s instant (codes "self")),
              )
              ∷ (codes "relay_len", P.json.number (Relay.len s.bandwidth_account))
              ∷ []),
          relay_record P.redb P.serde P.ed25519 P.signature_bytes s instant (codes "self") 0,
        )
