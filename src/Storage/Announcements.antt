-- ===== src/Storage/Announcements.antt =====
-- Announcements of Tier 2 and their expiry (src/storage/records.rs).
use dsearch.Base.{
  ℕ, none, some, List, [], ◌∷◌, ◌++◌, length, ltb, if◌then◌else◌, Result, ok, err, ◌>>=◌, Text,
  codes,
}
use dsearch.Model.{Announcement, Serde, validate_announcement_size}
use dsearch.Storage.Table.{Redb}
use dsearch.Storage.Db.{Db, StorageError, announcement_too_large, unreadable, Outcome}

module _ (R : Redb) (S : Serde) where
  abbrev pub announcement_key : Announcement → Text
  announcement_key a = a.record_id ++ (codes ":" ++ a.holder_addr)

  unfoldable pub insert_announcement : Db R → Announcement → Outcome R (Unit {0})
  insert_announcement db ann = elim (validate_announcement_size S ann) [
    | err size ↦ (err (announcement_too_large size), db)
    | ok _ ↦ (
      ok tt,
      record db {
        announcements =
            R.insert (announcement_key ann) (S.announcement_to_json ann) db.announcements;
      },
    )
  ]

  unfoldable pub collect_expired_announcements :
      ℕ → List (Text × Text) → Result (List Text) StorageError
  collect_expired_announcements now [] = ok []
  collect_expired_announcements now ((k, json) ∷ l) = elim (S.announcement_from_json json) [
    | none ↦ err unreadable
    | some a ↦ do
      rest ← collect_expired_announcements now l
      ok (if ltb a.expires_at now then k ∷ rest else rest)
  ]

  unfoldable pub remove_all : List Text → R.Table → R.Table
  remove_all [] t = t
  remove_all (k ∷ ks) t = remove_all ks (R.remove k t)

  unfoldable pub delete_expired_announcements : Db R → ℕ → Outcome R ℕ
  delete_expired_announcements db now =
      elim (collect_expired_announcements now (R.entries db.announcements)) [
        | err e ↦ (err e, db)
        | ok to_delete ↦ (
          ok (length to_delete),
          record db { announcements = remove_all to_delete db.announcements },
        )
      ]
