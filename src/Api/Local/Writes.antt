-- ===== src/Api/Local/Writes.antt =====
-- The handlers that change the store (src/api/handlers.rs). A handler whose task panics, in the
-- index of tags, gives no response: it returns `none`.
pub mod Pinned
use dsearch.Base.{
  ℕ, ◌+◌, ◌==◌, Bool, true, false, Option, none, some, List, [], ◌∷◌, ◌++◌, map, Result, ok, err,
  Text, codes, length, byte_len, if◌then◌else◌,
}
use dsearch.Model.{ContentRecord, Announcement}
use dsearch.Sanitize.{SanitizeError, sanitize_record}
use dsearch.Storage.Db.{StorageError}
use dsearch.Storage.Records.{InsertResult, inserted, skipped_older, replaced_newer}
use dsearch.Storage.Store.{
  StoreError, storage, self_verification_failed, index_panic, insert_record, get_record,
  delete_record, insert_announcement, list_records, tier2_allow, relay_allow, relay_record,
  prune_tier2, prune_relay, invalidate_search_cache, clear_search_cache,
}
use dsearch.Storage.Store.Passed.{
  pin_record, unpin_record, sweep_once, check_quota, tier2_remaining, relay_remaining,
  search_cache_len, verify_record_id,
}
use dsearch.Storage.Tier2Limiter as Tier2Limiter
use dsearch.Node.Relay as Relay
use dsearch.Trust.Verify.{VerifyResult}
use dsearch.Api.Local.{reply, body_field, text_or_empty, Fields}
use dsearch.Api.Platform.{Platform, StoreOf, Clock}
use dsearch.Api.Request.{HttpRequest}
use dsearch.Api.Response.{HttpResponse, bad_request, not_found, internal_error}

abbrev pub action_name : InsertResult → Text
action_name inserted = codes "inserted"
action_name replaced_newer = codes "replaced"
action_name skipped_older = codes "skipped"

module _ (P : Platform) where
  -- The text of an error of the store; a panic has none.
  abbrev pub error_text : StoreError → Option Text
  error_text (storage e) = some (P.storage_error e)
  error_text self_verification_failed = some P.self_verification_error
  error_text index_panic = none

  abbrev pub failed : StoreError → Option HttpResponse
  failed e = elim (error_text e) [ none ↦ none | some t ↦ some (internal_error P.json t) ]

  abbrev pub record_not_found : Text → HttpResponse
  record_not_found id = not_found P.json (codes "record not found: " ++ id)

  -- The field "id" of the body, or the response without it.
  abbrev pub id_field : HttpRequest → Result Text HttpResponse
  id_field req = body_field P req (codes "id")

  abbrev pub insert_into :
      StoreOf P → ContentRecord → (Result InsertResult StoreError × StoreOf P) × ContentRecord
  insert_into = insert_record P.redb P.serde P.ed25519 P.signature_bytes

  module _ (node_id : Text) where
    abbrev pub inserted_reply : Text → Result InsertResult StoreError → Option HttpResponse
    inserted_reply id (err e) = failed e
    inserted_reply id (ok result) = some (
        reply P node_id (
          (codes "ok", P.json.boolean true)
          ∷ (codes "action", P.json.string (action_name result))
          ∷ (codes "id", P.json.string id)
          ∷ []))

    -- A sanitized record, when the quota has room for its body or makes it.
    unfoldable pub insert_checked :
        ContentRecord → Result (Unit {0}) StorageError × StoreOf P → Option HttpResponse × StoreOf P
    insert_checked r (err e, store) =
        (some (internal_error P.json (codes "quota check: " ++ P.storage_error e)), store)
    insert_checked r (ok u, store) =
        let ((result, store'), signed) = insert_into store r in
        (inserted_reply signed.id result, store')

    unfoldable pub insert_parsed : ContentRecord → StoreOf P → Option HttpResponse × StoreOf P
    insert_parsed r store = elim (sanitize_record r) [
      | err e ↦
          (some (bad_request P.json (codes "sanitization failed: " ++ P.sanitize_error e)), store)
      | ok clean ↦
          insert_checked clean (check_quota P.redb P.serde P.ed25519 store (byte_len clean.body))
    ]

    unfoldable pub handle_insert_record : HttpRequest → StoreOf P → Option HttpResponse × StoreOf P
    handle_insert_record req store = elim (P.json.record_from_str req.body) [
      | err e ↦ (some (bad_request P.json (codes "invalid record JSON: " ++ e)), store)
      | ok r ↦ insert_parsed r store
    ]

    abbrev pub pinned_reply : Text → Result Bool StorageError → HttpResponse
    pinned_reply id (err e) = internal_error P.json (P.storage_error e)
    pinned_reply id (ok false) = record_not_found id
    pinned_reply id (ok true) = reply P node_id (
        (codes "ok", P.json.boolean true)
        ∷ (codes "id", P.json.string id)
        ∷ (codes "pinned", P.json.boolean true)
        ∷ [])

    -- `stamp` is the time, as the table of pins has it.
    unfoldable pub handle_pin_record : HttpRequest → StoreOf P → Text → HttpResponse × StoreOf P
    handle_pin_record req store stamp = elim (id_field req) [
      | err resp ↦ (resp, store)
      | ok id ↦
          let (result, store') = pin_record P.redb P.serde P.ed25519 store id stamp in
          (pinned_reply id result, store')
    ]

    abbrev pub unpinned_reply : Text → Result Bool StorageError → HttpResponse
    unpinned_reply id (err e) = internal_error P.json (P.storage_error e)
    unpinned_reply id (ok removed) = reply P node_id (
        (codes "ok", P.json.boolean true)
        ∷ (codes "id", P.json.string id)
        ∷ (codes "was_pinned", P.json.boolean removed)
        ∷ [])

    unfoldable pub handle_unpin_record : HttpRequest → StoreOf P → HttpResponse × StoreOf P
    handle_unpin_record req store = elim (id_field req) [
      | err resp ↦ (resp, store)
      | ok id ↦
          let (result, store') = unpin_record P.redb P.serde P.ed25519 store id in
          (unpinned_reply id result, store')
    ]

    abbrev pub deleted_reply : Text → Result Bool StoreError → Option HttpResponse
    deleted_reply id (err e) = failed e
    deleted_reply id (ok false) = some (record_not_found id)
    deleted_reply id (ok true) = some (
        reply P node_id (
          (codes "ok", P.json.boolean true)
          ∷ (codes "id", P.json.string id)
          ∷ (codes "deleted", P.json.boolean true)
          ∷ []))

    unfoldable pub handle_delete_record : HttpRequest → StoreOf P → Option HttpResponse × StoreOf P
    handle_delete_record req store = elim (id_field req) [
      | err resp ↦ (some resp, store)
      | ok id ↦
          let (result, store') =
            delete_record P.redb P.serde P.ed25519 P.signature_bytes store id in
          (deleted_reply id result, store')
    ]
