-- ===== src/Storage/Store/Searched.antt =====
-- What searches return (src/storage/mod.rs).
use dsearch.Base.{
  ℕ, zero, suc, ◌+◌, ◌-◌, ◌<◌, ◌≡◌, refl, ◌∙◌, ap, inl, inr, Bool, true, false, none, some, List,
  [], ◌∷◌, ok, Text, All, All-take, retain, length, take, length-take, min, ltb, lt→ltb, arith,
  Bool-cases, Distinct,
}
use dsearch.Model.{ContentRecord, Serde}
use dsearch.Search.Cache as Cache
use dsearch.Search.Cache.Lookup.{insert-get, get-Distinct}
use dsearch.Search.Query.{ParsedQuery}
use dsearch.Search.Matching.{matches_query}
use dsearch.Search.Scoring.{Floats, score_record}
use dsearch.Storage.Table.{Redb}
use dsearch.Storage.Db.{Db}
use dsearch.Storage.Store.{Store}
use dsearch.Storage.Store.Search.{
  ListSerde, cache_key, insert_by_score, sort_by_score, ranked, search_tables, search_records,
}
use dsearch.Trust.Sign.{Ed25519}

-- The documented behaviour of `partial_cmp`: where a float is less than another, that is not less
-- than it.
pub record IsOrdered (F : Floats) : Type 0 where
  pub asymmetric : (a b : F.Float) → F.less a b ≡ true → F.less b a ≡ false

module _ (F : Floats) (to_lowercase : Text → Text) where
  -- A record does not have a lower score than the one after it.
  abbrev pub IsBetter : ParsedQuery → ℕ → ContentRecord → List ContentRecord → Type 0
  IsBetter query now r [] = Unit
  IsBetter query now r (q ∷ l) =
      F.less (score_record F to_lowercase r query 1 now) (score_record F to_lowercase q query 1 now)
      ≡ false

  unfoldable pub IsRanked : ParsedQuery → ℕ → List ContentRecord → Type 0
  IsRanked query now [] = Unit
  IsRanked query now (r ∷ l) = IsBetter query now r l × IsRanked query now l

  IsBetter-insert_by_score :
      (query : ParsedQuery) (now : ℕ) (q r : ContentRecord) (l : List ContentRecord)
      → F.less
          (score_record F to_lowercase q query 1 now)
          (score_record F to_lowercase r query 1 now)
        ≡ false
      → IsBetter query now q l
      → IsBetter query now q (insert_by_score F to_lowercase query now r l)
  unfolding insert_by_score
  IsBetter-insert_by_score query now q r [] h g = h
  IsBetter-insert_by_score query now q r (p ∷ l) h g =
      elim (Bool-cases (
        F.less (score_record F to_lowercase r query 1 now)
          (score_record F to_lowercase p query 1 now))) [ inl b ↦ rw b g | inr b ↦ rw b h ]

  insert_by_score-IsRanked :
      IsOrdered F
      → (query : ParsedQuery) (now : ℕ) (r : ContentRecord) (l : List ContentRecord)
      → IsRanked query now l
      → IsRanked query now (insert_by_score F to_lowercase query now r l)
  unfolding insert_by_score IsRanked
  insert_by_score-IsRanked order query now r [] h = (tt, tt)
  insert_by_score-IsRanked order query now r (q ∷ l) (g, h) =
      elim (Bool-cases (
        F.less (score_record F to_lowercase r query 1 now)
          (score_record F to_lowercase q query 1 now))) [
            | inl b ↦ rw b (
              IsBetter-insert_by_score query now q r l (order.asymmetric _ _ b) g,
              insert_by_score-IsRanked order query now r l h,
            )
            | inr b ↦ rw b (b, (g, h))
          ]

  sort_by_score-IsRanked :
      IsOrdered F
      → (query : ParsedQuery) (now : ℕ) (l : List ContentRecord)
      → IsRanked query now (sort_by_score F to_lowercase query now l)
  unfolding sort_by_score IsRanked
  sort_by_score-IsRanked order query now [] = tt
  sort_by_score-IsRanked order query now (r ∷ l) =
      insert_by_score-IsRanked order query now r (sort_by_score F to_lowercase query now l)
        (sort_by_score-IsRanked order query now l)

  IsBetter-take :
      (query : ParsedQuery) (now n : ℕ) (r : ContentRecord) (l : List ContentRecord)
      → IsBetter query now r l
      → IsBetter query now r (take n l)
  IsBetter-take query now zero r l h = tt
  IsBetter-take query now (suc n) r [] h = tt
  IsBetter-take query now (suc n) r (q ∷ l) h = h

  take-IsRanked :
      (query : ParsedQuery) (now n : ℕ) (l : List ContentRecord)
      → IsRanked query now l
      → IsRanked query now (take n l)
  unfolding IsRanked
  take-IsRanked query now zero l h = tt
  take-IsRanked query now (suc n) [] h = tt
  take-IsRanked query now (suc n) (r ∷ l) (g, h) =
      (IsBetter-take query now n r l g, take-IsRanked query now n l h)

  All-insert_by_score :
      (P : ContentRecord → Type 0) (query : ParsedQuery) (now : ℕ) (r : ContentRecord)
      (l : List ContentRecord)
      → P r
      → All P l
      → All P (insert_by_score F to_lowercase query now r l)
  unfolding insert_by_score
  All-insert_by_score P query now r [] p h = (p, tt)
  All-insert_by_score P query now r (q ∷ l) p (g, h) =
      elim (Bool-cases (
        F.less (score_record F to_lowercase r query 1 now)
          (score_record F to_lowercase q query 1 now))) [
            | inl b ↦ rw b (g, All-insert_by_score P query now r l p h)
            | inr b ↦ rw b (p, (g, h))
          ]

  All-sort_by_score :
      (P : ContentRecord → Type 0) (query : ParsedQuery) (now : ℕ) (l : List ContentRecord)
      → All P l
      → All P (sort_by_score F to_lowercase query now l)
  unfolding sort_by_score
  All-sort_by_score P query now [] h = tt
  All-sort_by_score P query now (r ∷ l) (p, h) =
      All-insert_by_score P query now r (sort_by_score F to_lowercase query now l) p
        (All-sort_by_score P query now l h)

  length-insert_by_score :
      (query : ParsedQuery) (now : ℕ) (r : ContentRecord) (l : List ContentRecord)
      → length (insert_by_score F to_lowercase query now r l) ≡ 1 + length l
  unfolding insert_by_score
  length-insert_by_score query now r [] = refl
  length-insert_by_score query now r (q ∷ l) = ground (arith, length-insert_by_score query now r l)

  length-sort_by_score :
      (query : ParsedQuery) (now : ℕ) (l : List ContentRecord)
      → length (sort_by_score F to_lowercase query now l) ≡ length l
  unfolding sort_by_score
  length-sort_by_score query now [] = refl
  length-sort_by_score query now (r ∷ l) = omega (
    arith,
    length-insert_by_score query now r (sort_by_score F to_lowercase query now l),
    length-sort_by_score query now l,
  )

  matching : ParsedQuery → ContentRecord → Bool
  matching query r = matches_query to_lowercase r query

retained {ℓ} : {A : Type ℓ} (p : A → Bool) (l : List A) → All (λ x. p x ≡ true) (retain p l)
unfolding retain
retained p [] = tt
retained p (x ∷ l) = elim (Bool-cases (p x)) [
  | inl b ↦ rw b (b, retained p l)
  | inr b ↦ rw b (retained p l)
]

retain-All {ℓ} :
    {A : Type ℓ} (P : A → Type 0) (p : A → Bool) (l : List A) → All P l → All P (retain p l)
unfolding retain
retain-All P p [] h = tt
retain-All P p (x ∷ l) (q, h) = elim (Bool-cases (p x)) [
  | inl b ↦ rw b (q, retain-All P p l h)
  | inr b ↦ rw b (retain-All P p l h)
]

module _ (F : Floats) (to_lowercase : Text → Text) where
  -- Of the records that are scanned, a search returns as many that match as the limit allows: each
  -- result matches the query, what holds of all records that are scanned holds of it, and no result
  -- has a lower score than the one after it, where the order of floats is asymmetric.
  pub ranked_lem :
      (order : IsOrdered F) (P : ContentRecord → Type 0) (query : ParsedQuery) (limit now : ℕ)
      (all_records : List ContentRecord)
      → All P all_records
      → (length (ranked F to_lowercase query limit now all_records)
          ≡ min limit (length (retain (λ r. matches_query to_lowercase r query) all_records)))
        × All
            (λ r. matches_query to_lowercase r query ≡ true)
            (ranked F to_lowercase query limit now all_records)
        × All P (ranked F to_lowercase query limit now all_records)
        × IsRanked F to_lowercase query now (ranked F to_lowercase query limit now all_records)
  unfolding ranked
  ranked_lem order P query limit now all_records h =
      let matched = retain (λ r. matches_query to_lowercase r query) all_records in
      let sorted = sort_by_score F to_lowercase query now matched in
      (
        length-take limit sorted
            ∙ ap (min limit) (length-sort_by_score F to_lowercase query now matched),
        All-take _ limit sorted (
            All-sort_by_score F to_lowercase _ query now matched
              (retained (λ r. matches_query to_lowercase r query) all_records)),
        All-take _ limit sorted
            (All-sort_by_score F to_lowercase _ query now matched (retain-All P _ all_records h)),
        take-IsRanked F to_lowercase query now limit sorted
            (sort_by_score-IsRanked F to_lowercase order query now matched),
      )

  module _ (R : Redb) (S : Serde) (L : ListSerde) (E : Ed25519) where
    after_miss :
        (s : Store R E) (instant now limit : ℕ) (query json : Text) (results : List ContentRecord)
        → (Cache.get s.search_cache instant (cache_key query limit)).0 ≡ none
        → search_tables F to_lowercase R S L E s query limit now ≡ ok results
        → L.to_json results ≡ some json
        → (search_records F to_lowercase R S L E s instant now query limit).1.search_cache
          ≡ Cache.insert
              (Cache.get s.search_cache instant (cache_key query limit)).1
              instant
              (cache_key query limit)
              json
    unfolding search_records
    after_miss s instant now limit query json results miss found to =
        rw (miss, found, to, search_records) refl

    answer_hit :
        (s : Store R E) (instant now limit : ℕ) (query json : Text) (results : List ContentRecord)
        → (Cache.get s.search_cache instant (cache_key query limit)).0 ≡ some json
        → L.from_json json ≡ some results
        → (search_records F to_lowercase R S L E s instant now query limit).0 ≡ ok results
    unfolding search_records
    answer_hit s instant now limit query json results hit from = rw (hit, from, search_records) refl

    -- A search that finds nothing in the cache, goes to the tables and returns results is answered
    -- from the cache afterwards for as long as an entry lives, with the same results, whatever has
    -- become of the tables.
    pub search_records_again :
        (s : Store R E) (instant now later now' limit : ℕ) (query json : Text)
        (results : List ContentRecord) (db : Db R)
        → Distinct s.search_cache.entries
        → (Cache.get s.search_cache instant (cache_key query limit)).0 ≡ none
        → search_tables F to_lowercase R S L E s query limit now ≡ ok results
        → L.to_json results ≡ some json
        → L.from_json json ≡ some results
        → later - instant < s.search_cache.ttl
        → (search_records F to_lowercase R S L E
            (record (search_records F to_lowercase R S L E s instant now query limit).1 { db = db })
            later
            now'
            query
            limit).0
          ≡ ok results
    search_records_again s instant now later now' limit query json results db d miss found to from
          early =
        let key = cache_key query limit in
        let cache = (Cache.get s.search_cache instant key).1 in
        let (distinct, same_ttl) = get-Distinct s.search_cache instant key d in
        let next = (search_records F to_lowercase R S L E s instant now query limit).1 in
        let live : ltb (later - instant) cache.ttl ≡ true =
          lt→ltb (later - instant) cache.ttl (rw same_ttl early) in
        let hit : (Cache.get next.search_cache later key).0 ≡ some json =
          ap (λ c. (Cache.get c later key).0)
            (after_miss s instant now limit query json results miss found to)
          ∙ (insert-get cache instant later key json key distinct).0
          ∙ rw live refl in
        answer_hit (record next { db = db }) later now' limit query json results hit from
