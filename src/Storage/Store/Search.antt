-- ===== src/Storage/Store/Search.antt =====
-- Searches of the store (src/storage/mod.rs). Lists of records are cached as JSON by `serde_json`,
-- which is a parameter; a search reads the clock of instants once.
use dsearch.Base.{
  ℕ, ◌*◌, ◌%◌, Option, none, some, List, [], ◌∷◌, ◌++◌, if◌then◌else◌, Result, ok, err, Text, codes,
  lookup, retain, take, decimal, u64_mod,
}
use dsearch.Model.{ContentRecord, Serde}
use dsearch.Search.Cache as Cache
use dsearch.Search.Query.{ParsedQuery, parse_query}
use dsearch.Search.Matching.{matches_query}
use dsearch.Search.Scoring.{Floats, score_record}
use dsearch.Storage.Table.{Redb}
use dsearch.Storage.Db.{StorageError}
use dsearch.Storage.Records
use dsearch.Storage.Store.{Store}
use dsearch.Trust.Sign.{Ed25519}

-- `serde_json` at lists of records.
pub record ListSerde : Type 0 where
  pub to_json : List ContentRecord → Option Text
  pub from_json : Text → Option (List ContentRecord)

abbrev pub cache_key : Text → ℕ → Text
cache_key query limit = query ++ codes ":" ++ decimal limit

abbrev pub limit_or : Option ℕ → ℕ → ℕ
limit_or none limit = limit
limit_or (some n) limit = n

-- The list of a cached text, if there is one and it reads.
abbrev pub cached_list : ListSerde → Option Text → Option (List ContentRecord)
cached_list L none = none
cached_list L (some json) = L.from_json json

module _ (F : Floats) (to_lowercase : Text → Text) where
  -- `sort_by` on the scores, the greatest first; it is stable, as an insertion sort.
  unfoldable pub insert_by_score :
      ParsedQuery → ℕ → ContentRecord → List ContentRecord → List ContentRecord
  insert_by_score query now r [] = r ∷ []
  insert_by_score query now r (q ∷ l) =
      let rest = insert_by_score query now r l in
      if F.less (score_record F to_lowercase r query 1 now)
        (score_record F to_lowercase q query 1 now)
      then q ∷ rest
      else r ∷ q ∷ l

  unfoldable pub sort_by_score : ParsedQuery → ℕ → List ContentRecord → List ContentRecord
  sort_by_score query now [] = []
  sort_by_score query now (r ∷ l) = insert_by_score query now r (sort_by_score query now l)

  -- The records of a scan that match, the best first, up to the limit.
  unfoldable pub ranked : ParsedQuery → ℕ → ℕ → List ContentRecord → List ContentRecord
  ranked query limit now all_records =
      take limit
        (sort_by_score query now (retain (λ r. matches_query to_lowercase r query) all_records))

  module _ (R : Redb) (S : Serde) (L : ListSerde) (E : Ed25519) where
    -- A search that goes to the tables; `now` is the time for the scores.
    unfoldable pub search_tables :
        Store R E → Text → ℕ → ℕ → Result (List ContentRecord) StorageError
    search_tables s query_str limit now =
        let parsed = parse_query to_lowercase query_str in
        let effective_limit = limit_or parsed.limit limit in
        elim (Records.list_records R S s.db (lookup (codes "schema") parsed.fields)
          (effective_limit * 10 % u64_mod)) [
            | err e ↦ err e
            | ok all_records ↦ ok (ranked parsed effective_limit now all_records)
          ]

    abbrev pub cache_results : Option Text → Cache.SearchCache → ℕ → Text → Cache.SearchCache
    cache_results none cache instant key = cache
    cache_results (some json) cache instant key = Cache.insert cache instant key json

    unfoldable pub search_records :
        Store R E → ℕ → ℕ → Text → ℕ → Result (List ContentRecord) StorageError × Store R E
    search_records s instant now query_str limit =
        let key = cache_key query_str limit in
        let (cached, cache) = Cache.get s.search_cache instant key in
        elim (cached_list L cached) [
          | some records ↦ (ok records, record s { search_cache = cache })
          | none ↦ elim (search_tables s query_str limit now) [
            | err e ↦ (err e, record s { search_cache = cache })
            | ok results ↦ (
              ok results,
              record s { search_cache = cache_results (L.to_json results) cache instant key },
            )
          ]
        ]
