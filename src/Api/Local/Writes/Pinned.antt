-- ===== src/Api/Local/Writes/Pinned.antt =====
-- Pins through the local interface (src/api/handlers.rs).
use dsearch.Base.{◌≡◌, inl, inr, not, ◌||◌, ◌&&◌, ok, Text, text_eq, is_some, Bool-cases, arith}
use dsearch.Storage.Records as Records
use dsearch.Storage.Store.Passed.{is_pinned, pin_record, unpin_record}
use dsearch.Storage.Table.{IsRedb}
use dsearch.Api.Local.Writes.{handle_pin_record, handle_unpin_record, id_field}
use dsearch.Api.Platform.{Platform, StoreOf}
use dsearch.Api.Request.{HttpRequest}
use dsearch.Api.Response.{not_found, new}

module _ (P : Platform) (redb : IsRedb P.redb) (node_id : Text) where
  -- A record whose pin is answered with status 200 is pinned, and the pins of the others stay.
  pub is_pinned-handle_pin_record :
      (req : HttpRequest) (store : StoreOf P) (stamp id q : Text)
      → id_field P req ≡ ok id
      → (handle_pin_record P node_id req store stamp).0.status ≡ 200
      → is_pinned P.redb P.serde P.ed25519 (handle_pin_record P node_id req store stamp).1 q
        ≡ (text_eq id q || is_pinned P.redb P.serde P.ed25519 store q)
  unfolding handle_pin_record pin_record is_pinned Records.pin_record Records.is_pinned not_found
      new
  is_pinned-handle_pin_record req store stamp id q accepted success =
      elim (Bool-cases (is_some (P.redb.get id store.db.records))) [
        | inr gone ↦ absurd (ground (arith, rw (accepted, handle_pin_record, gone) at success))
        | inl there ↦
            rw (accepted, handle_pin_record, there)
              (rw (redb.get_insert id stamp q store.db.pins) (ground arith))
      ]

  -- A record whose unpin is accepted is not pinned any more, and the pins of the others stay.
  pub is_pinned-handle_unpin_record :
      (req : HttpRequest) (store : StoreOf P) (id q : Text)
      → id_field P req ≡ ok id
      → is_pinned P.redb P.serde P.ed25519 (handle_unpin_record P node_id req store).1 q
        ≡ (not (text_eq id q) && is_pinned P.redb P.serde P.ed25519 store q)
  unfolding handle_unpin_record unpin_record is_pinned Records.unpin_record Records.is_pinned
  is_pinned-handle_unpin_record req store id q accepted =
      rw (accepted, handle_unpin_record) (rw (redb.get_remove id q store.db.pins) (ground arith))
