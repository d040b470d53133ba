-- ===== src/Storage/Quota.antt =====
-- The storage quota and eviction (src/storage/quota.rs). `u64` sums wrap.
use dsearch.Base.{
  ℕ, ◌*◌, none, some, List, [], ◌∷◌, ltb, leb, ◌==◌, if◌then◌else◌, Result, ok, err, ◌>>=◌, Text,
  codes, text_eq, byte_len, add_u64, sub_u64,
}
use dsearch.Model.{Serde}
use dsearch.Storage.Table.{Redb}
use dsearch.Storage.Db.{
  Db, StorageConfig, StorageError, unreadable, over_quota_after_eviction, scraper_should_pause,
  unknown_quota_action, Outcome, records_size_bytes,
}
use dsearch.Storage.Records.{is_pinned}
use dsearch.Storage.Sweep.{drop_records}

-- A record that may be evicted: (id, source_hash, created_at, json_len).
pub record Candidate : Type 0 where
  pub id : Text
  pub source_hash : Text
  pub created_at : ℕ
  pub json_len : ℕ

-- `sort_by_key(|c| c.2)`: the stable sort of the standard library, by insertion.
unfoldable pub insert_by_age : Candidate → List Candidate → List Candidate
insert_by_age c [] = c ∷ []
insert_by_age c (d ∷ l) =
    let rest = insert_by_age c l in if leb c.created_at d.created_at then c ∷ d ∷ l else d ∷ rest

unfoldable pub sort_by_age : List Candidate → List Candidate
sort_by_age [] = []
sort_by_age (c ∷ l) = insert_by_age c (sort_by_age l)

-- The loop that chooses the records to evict: `freed` and the list so far.
unfoldable pub choose : ℕ → ℕ → List Candidate → ℕ × List (Text × Text)
choose needed_bytes freed [] = (freed, [])
choose needed_bytes freed (c ∷ l) =
    let (total, rest) = choose needed_bytes (add_u64 freed c.json_len) l in
    if leb needed_bytes freed then (freed, []) else (total, (c.id, c.source_hash) ∷ rest)

module _ (R : Redb) (S : Serde) where
  -- Phase 1: the records without a pin.
  unfoldable pub collect_candidates :
      Db R → List (Text × Text) → Result (List Candidate) StorageError
  collect_candidates db [] = ok []
  collect_candidates db ((key, json) ∷ l) =
      let rest = collect_candidates db l in
      if is_pinned R S db key then rest else elim (S.from_json json) [
        | none ↦ err unreadable
        | some r ↦ do
          others ← rest
          ok (
              record {
                id = key;
                source_hash = r.source_hash;
                created_at = r.created_at;
                json_len = byte_len json;
              }
              ∷ others)
      ]

  unfoldable pub evict_chosen : Db R → ℕ × List (Text × Text) → Outcome R ℕ
  evict_chosen db (freed, []) = (ok 0, db)
  evict_chosen db (freed, e ∷ l) = (ok freed, drop_records R S db (e ∷ l))

  unfoldable pub evict_oldest : Db R → ℕ → Outcome R ℕ
  evict_oldest db needed_bytes = elim (collect_candidates db (R.entries db.records)) [
    | err e ↦ (err e, db)
    | ok candidates ↦ evict_chosen db (choose needed_bytes 0 (sort_by_age candidates))
  ]

  -- The `evict_oldest` policy, with the bytes that are wanted in all and the quota.
  unfoldable pub make_room : Db R → StorageConfig → ℕ → ℕ → Outcome R (Unit {0})
  make_room db config wanted quota_bytes =
      let (freed, db') = evict_oldest db (sub_u64 wanted quota_bytes) in
      elim freed [
        | err e ↦ (err e, db')
        | ok n ↦
            if ltb quota_bytes (sub_u64 wanted n)
            then (err (over_quota_after_eviction config.quota_mb n), db')
            else (ok tt, db')
      ]

  unfoldable pub apply_policy : Db R → StorageConfig → ℕ → ℕ → Outcome R (Unit {0})
  apply_policy db config wanted quota_bytes =
      if text_eq config.quota_action (codes "evict_oldest")
      then make_room db config wanted quota_bytes
      else if text_eq config.quota_action (codes "pause_scraper")
      then (err (scraper_should_pause config.quota_mb), db)
      else if text_eq config.quota_action (codes "warn_only")
      then (ok tt, db)
      else (err (unknown_quota_action config.quota_mb config.quota_action), db)

  unfoldable pub check_quota : Db R → StorageConfig → ℕ → Outcome R (Unit {0})
  check_quota db config additional_bytes =
      if config.quota_mb == 0
      then (ok tt, db)
      else (let quota_bytes = config.quota_mb * 1024 * 1024 in
          let wanted = add_u64 (records_size_bytes R db) additional_bytes in
          if ltb quota_bytes wanted then apply_policy db config wanted quota_bytes else (ok tt, db))
