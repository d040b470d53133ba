-- ===== src/Storage/Index/Records.antt =====
-- Records in the index (src/storage/index.rs).
use dsearch.Base.{
  ◌≡◌, refl, sym, ◌∙◌, ap, inl, inr, Bool, true, false, not, ◌||◌, ◌&&◌, List, [], ◌∷◌, Text,
  text_eq, text_eq_refl, any, arith, Bool-cases,
}
use dsearch.Storage.Table.{Redb, IsRedb}
use dsearch.Storage.Index.{
  Indexed, done, panicked, index_key, index_tag, index_record, deindex_tag, deindex_record,
}
use dsearch.Storage.Index.Split.{IsPlain}
use dsearch.Storage.Index.Ids.{
  is_listed, deindex_tag-is_listed, index_tag-is_listed, index_tag_listed,
}

-- The table that is left, after a panic too.
abbrev table : {T : Type 0} → Indexed T → T
table (done t) = t
table (panicked t) = t

-- Whether a key is that of one of the tags.
unfoldable pub is_tagged : Text → List Text → Text → Bool
is_tagged schema tags key = any (λ tag. text_eq (index_key schema tag) key) tags

pub is_tagged_cons :
    (schema tag : Text) (tags : List Text) (key : Text)
    → is_tagged schema (tag ∷ tags) key
      ≡ (text_eq (index_key schema tag) key || is_tagged schema tags key)
unfolding is_tagged any
is_tagged_cons schema tag tags key = refl

is_tagged_nil : (schema key : Text) → is_tagged schema [] key ≡ false
unfolding is_tagged any
is_tagged_nil schema key = refl

index_record_step :
    (R : Redb) (t u : R.Table) (id schema tag : Text) (tags : List Text)
    → index_tag R t id (index_key schema tag) ≡ done u
    → index_record R t id schema (tag ∷ tags) ≡ index_record R u id schema tags
unfolding index_record
index_record_step R t u id schema tag tags h = rw (h, index_record) refl

index_record_stop :
    (R : Redb) (t u : R.Table) (id schema tag : Text) (tags : List Text)
    → index_tag R t id (index_key schema tag) ≡ panicked u
    → index_record R t id schema (tag ∷ tags) ≡ panicked u
unfolding index_record
index_record_stop R t u id schema tag tags h = rw (h, index_record) refl

module _ {R : Redb} (law : IsRedb R) where
  -- Deindexing a record takes its id from the keys of the tags, and changes nothing else.
  pub deindex_record-is_listed :
      (t : R.Table) (id schema : Text) (tags : List Text) (key j : Text)
      → is_listed R (deindex_record R t id schema tags) key j
        ≡ (is_listed R t key j && not (is_tagged schema tags key && text_eq id j))
  unfolding deindex_record
  deindex_record-is_listed t id schema [] key j = ground (arith, is_tagged_nil schema key)
  deindex_record-is_listed t id schema (tag ∷ tags) key j = ground (
    arith,
    is_tagged_cons schema tag tags key,
    deindex_record-is_listed (deindex_tag R t id (index_key schema tag)) id schema tags key j,
    deindex_tag-is_listed law t id (index_key schema tag) key j,
  )

  -- Where indexing a record with a nonempty id without commas does not panic, it adds the id at the
  -- keys of the tags, and changes nothing else.
  pub index_record-is_listed :
      (t t' : R.Table) (id schema : Text) (tags : List Text) (key j : Text)
      → IsPlain id
      → text_eq [] id ≡ false
      → index_record R t id schema tags ≡ done t'
      → is_listed R t' key j ≡ (is_listed R t key j || is_tagged schema tags key && text_eq id j)
  unfolding index_record
  index_record-is_listed t t' id schema [] key j p some_id h =
      ap (λ u. is_listed R (table u) key j) (sym h) ∙ ground (arith, is_tagged_nil schema key)
  index_record-is_listed t t' id schema (tag ∷ tags) key j p some_id h =
      elim (Bool-cases (is_listed R t (index_key schema tag) id)) [
        | inl listed ↦
            let step = index_tag_listed law t id (index_key schema tag) listed in
            let stop = index_record_stop R t t id schema tag tags step in absurd (cc)
        | inr absent ↦
            let (u, step, law_u) =
              index_tag-is_listed law t id (index_key schema tag) p some_id absent in
            let later =
              index_record-is_listed u t' id schema tags key j p some_id
                (sym (index_record_step R t u id schema tag tags step) ∙ h) in
            ground (arith, is_tagged_cons schema tag tags key, law_u key j)
      ]

  pub index_record_listed :
      (t : R.Table) (id schema tag : Text) (tags : List Text)
      → is_listed R t (index_key schema tag) id ≡ true
      → index_record R t id schema (tag ∷ tags) ≡ panicked t
  index_record_listed t id schema tag tags listed =
      index_record_stop R t t id schema tag tags
        (index_tag_listed law t id (index_key schema tag) listed)

  -- Indexing a record with a nonempty id without commas again, under the same tags, panics when it
  -- has a tag.
  pub index_record_again :
      (t t' : R.Table) (id schema tag : Text) (tags : List Text)
      → IsPlain id
      → text_eq [] id ≡ false
      → index_record R t id schema (tag ∷ tags) ≡ done t'
      → index_record R t' id schema (tag ∷ tags) ≡ panicked t'
  index_record_again t t' id schema tag tags p some_id h =
      let key = index_key schema tag in
      let listed : is_listed R t' key id ≡ true =
        index_record-is_listed t t' id schema (tag ∷ tags) key id p some_id h
        ∙ ground (arith, is_tagged_cons schema tag tags key, text_eq_refl key, text_eq_refl id) in
      index_record_listed t' id schema tag tags listed
