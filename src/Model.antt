-- ===== src/Model.antt =====
-- Records, announcements and scrape jobs (src/model.rs). The JSON codec is that of `serde_json`, a
-- parameter.
pub mod Source
pub mod Refresh
pub mod Life
use dsearch.Base.{
  ℕ, ◌≡◌, Option, none, some, List, if◌then◌else◌, ltb, Result, ok, err, Text, codes, text_eq,
  byte_len,
}
use Source.{ScrapeSource}
use Refresh.{RefreshPolicy}
use Life.{Lifecycle}

-- 1 MB.
abbrev pub max_record_size : ℕ
max_record_size = 1048576

abbrev pub max_announcement_size : ℕ
max_announcement_size = 256

pub record ContentRecord : Type 0 where
  pub id : Text
  pub source_url : Text
  pub source_hash : Text
  pub schema : Text
  pub tags : List Text
  pub body : Text
  pub created_at : ℕ
  pub expires_at : ℕ
  pub scrape_source : ScrapeSource
  pub refresh_policy : RefreshPolicy
  pub sig : Text

pub record Announcement : Type 0 where
  pub record_id : Text
  pub source_hash : Text
  pub schema : Text
  pub tags : List Text
  pub holder_addr : Text
  pub expires_at : ℕ
  pub sig : Text

pub record ScrapeJob : Type 0 where
  pub name : Text
  pub source : ScrapeSource
  pub target : Text
  pub transform : Option Text
  pub refresh : RefreshPolicy
  pub interval_secs : ℕ
  pub lifecycle : Lifecycle
  pub ttl_secs : ℕ
  pub max_results : Option ℕ

-- `serde_json` at the two stored types.
pub record Serde : Type 0 where
  pub to_json : ContentRecord → Text
  pub from_json : Text → Option ContentRecord
  pub announcement_to_json : Announcement → Text
  pub announcement_from_json : Text → Option Announcement

-- What is serialised reads back as it was.
pub record IsSerde (S : Serde) : Type 0 where
  pub record_read : (r : ContentRecord) → S.from_json (S.to_json r) ≡ some r
  pub announcement_read :
      (a : Announcement) → S.announcement_from_json (S.announcement_to_json a) ≡ some a

module _ (S : Serde) where
  -- `ContentRecord::validate_size`; the error carries the size.
  unfoldable pub validate_record_size : ContentRecord → Result (Unit {0}) ℕ
  validate_record_size r =
      let size = byte_len (S.to_json r) in if ltb max_record_size size then err size else ok tt

  -- `Announcement::validate_size`
  unfoldable pub validate_announcement_size : Announcement → Result (Unit {0}) ℕ
  validate_announcement_size a =
      let size = byte_len (S.announcement_to_json a) in
      if ltb max_announcement_size size then err size else ok tt
