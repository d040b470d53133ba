-- ===== src/Api/Local/Upkeep/Announced.antt =====
-- Which records are announced (src/api/handlers.rs).
use dsearch.Base.{◌≡◌, true, Option, none, some, ok, Text}
use dsearch.Model.{ContentRecord}
use dsearch.Storage.Store.{get_record}
use dsearch.Storage.Store.Passed.{verify_record_id}
use dsearch.Api.Platform.{Platform, StoreOf}
use dsearch.Api.Response.{HttpResponse}

module _ (P : Platform) (node_id : Text) where
  -- A stored record whose id is that of its content.
  abbrev pub IsAnnounceable : StoreOf P → Text → Type 0
  IsAnnounceable store id =
      (r : ContentRecord) × (get_record P.redb P.serde P.ed25519 P.signature_bytes store id
        ≡ ok (some r))
      × ((verify_record_id P.blake3_hex r).valid ≡ true)

  abbrev pub IsSuccess : Option HttpResponse → Type 0
  IsSuccess none = ⊥
  IsSuccess (some resp) = resp.status ≡ 200
