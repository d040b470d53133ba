-- ===== src/Storage/Index.antt =====
-- The inverted index of tags (src/storage/index.rs). The table maps a schema, a tag key and a tag
-- value, joined by NUL, to the ids of the records with that tag, joined by commas. Input and output
-- errors of the table are left out.
pub mod Split
pub mod Ids
pub mod Records
use dsearch.Base.{
  ℕ, Bool, true, false, not, ◌&&◌, ◌||◌, Option, none, some, List, [], ◌∷◌, ◌++◌, ◌==◌,
  if◌then◌else◌, Text, text_eq, any, retain, join, starts_with,
}
use dsearch.Storage.Table.{Redb}
use dsearch.Sanitize.{split_colon}

-- A tag without a colon has the empty key.
unfoldable pub parse_tag : Text → Text × Text
parse_tag tag = elim (split_colon tag) [ none ↦ ([], tag) | some parts ↦ parts ]

unfoldable pub index_key : Text → Text → Text
index_key schema tag =
    let (tag_key, tag_value) = parse_tag tag in schema ++ 0 ∷ tag_key ++ 0 ∷ tag_value

abbrev pub comma : ℕ
comma = 44

-- A character put before the first of the parts.
abbrev pub prepend : ℕ → List Text → List Text
prepend c [] = (c ∷ []) ∷ []
prepend c (w ∷ ws) = (c ∷ w) ∷ ws

-- `split(',')`, which gives at least one part.
unfoldable pub split_comma : Text → List Text
split_comma [] = [] ∷ []
split_comma (c ∷ s) = let rest = split_comma s in if c == comma then [] ∷ rest else prepend c rest

-- A record whose id already stands at a key makes `index_record` panic there: the value read is
-- `Some(None)`, which the code takes for unreachable. What was committed before stays.
pub data Indexed (T : Type 0) : Type 0 where
  done : T → Indexed T
  panicked : T → Indexed T

-- What is stored when an id is added to a value: an empty value is replaced.
abbrev pub with_id : Text → Text → Text
with_id [] record_id = record_id
with_id (c ∷ s) record_id = (c ∷ s) ++ comma ∷ record_id

module _ (R : Redb) where
  unfoldable pub append_id : R.Table → Text → Text → Text → Indexed R.Table
  append_id t key current record_id =
      if any (λ id. text_eq id record_id) (split_comma current)
      then panicked t
      else done (R.insert key (with_id current record_id) t)

  -- One round of the loop of `index_record`.
  unfoldable pub index_tag : R.Table → Text → Text → Indexed R.Table
  index_tag t record_id key = elim (R.get key t) [
    | none ↦ done (R.insert key record_id t)
    | some current ↦ append_id t key current record_id
  ]

  unfoldable pub index_record : R.Table → Text → Text → List Text → Indexed R.Table
  index_record t record_id schema [] = done t
  index_record t record_id schema (tag ∷ tags) =
      elim (index_tag t record_id (index_key schema tag)) [
        | panicked t' ↦ panicked t'
        | done t' ↦ index_record t' record_id schema tags
      ]

  -- One round of the loop of `deindex_record`.
  unfoldable pub deindex_tag : R.Table → Text → Text → R.Table
  deindex_tag t record_id key = elim (R.get key t) [
    | none ↦ t
    | some current ↦ elim (retain (λ id. not (text_eq id record_id)) (split_comma current)) [
      | [] ↦ R.remove key t
      | id ∷ ids ↦ R.insert key (join (comma ∷ []) (id ∷ ids)) t
    ]
  ]

  unfoldable pub deindex_record : R.Table → Text → Text → List Text → R.Table
  deindex_record t record_id schema [] = t
  deindex_record t record_id schema (tag ∷ tags) =
      deindex_record (deindex_tag t record_id (index_key schema tag)) record_id schema tags

  abbrev pub search_prefix : Text → Option Text → Option Text → Text
  search_prefix schema (some tk) (some tv) = schema ++ 0 ∷ tk ++ 0 ∷ tv
  search_prefix schema (some tk) none = schema ++ 0 ∷ tk ++ 0 ∷ []
  search_prefix schema none tag_value = schema ++ 0 ∷ []

  -- The ids of an entry that are not among the results yet.
  unfoldable pub push_ids : List Text → List Text → List Text
  push_ids results [] = results
  push_ids results ([] ∷ ids) = push_ids results ids
  push_ids results ((c ∷ s) ∷ ids) =
      let present = push_ids results ids in
      let absent = push_ids (results ++ (c ∷ s) ∷ []) ids in
      if any (λ r. text_eq r (c ∷ s)) results then present else absent

  unfoldable pub search_entries : Text → List (Text × Text) → List Text → List Text
  search_entries prefix [] results = results
  search_entries prefix ((key, ids) ∷ l) results =
      let skipped = search_entries prefix l results in
      let matched = search_entries prefix l (push_ids results (split_comma ids)) in
      if starts_with prefix key then matched else skipped

  unfoldable pub search_index : R.Table → Text → Option Text → Option Text → List Text
  search_index t schema tag_key tag_value =
      search_entries (search_prefix schema tag_key tag_value) (R.entries t) []
