-- ===== src/Storage/Index/Ids.antt =====
-- The ids that stand at a key of the index, and one round of its loops (src/storage/index.rs).
use dsearch.Base.{
  any-append, ◌≡◌, refl, ◌∙◌, ap, inl, inr, Bool, true, false, not, ◌||◌, ◌&&◌, Option, none, some,
  List, [], ◌∷◌, ◌++◌, if◌then◌else◌, Text, text_eq, text_eq_iff, any, retain, join, All, arith,
  Bool-cases, Option-cases,
}
use dsearch.Storage.Table.{Redb, IsRedb}
use dsearch.Storage.Index.{
  done, panicked, comma, with_id, split_comma, append_id, index_tag, deindex_tag,
}
use dsearch.Storage.Index.Split.{
  IsPlain, split_comma_plain, split_comma-append, split_comma-IsPlain, split_comma-join, All-retain,
}

-- Whether an id is among those of a value; the empty id never counts, as in a search.
unfoldable pub has_id : Text → Option Text → Bool
has_id id none = false
has_id id (some ids) = any (λ i. text_eq i id) (split_comma ids) && not (text_eq [] id)

-- Whether an id is listed at a key.
unfoldable pub is_listed : (R : Redb) → R.Table → Text → Text → Bool
is_listed R t key id = has_id id (R.get key t)

any-retain-not :
    (l : List Text) (id j : Text)
    → any (λ i. text_eq i j) (retain (λ i. not (text_eq i id)) l)
      ≡ (any (λ i. text_eq i j) l && not (text_eq id j))
unfolding any retain
any-retain-not [] id j = refl
any-retain-not (x ∷ l) id j =
    ground (arith, any-retain-not l id j, text_eq_iff x j, text_eq_iff x id, text_eq_iff id j)

has_id_parts :
    (ids : Text) (l : List Text) (j : Text)
    → split_comma ids ≡ l
    → has_id j (some ids) ≡ (any (λ i. text_eq i j) l && not (text_eq [] j))
unfolding has_id
has_id_parts ids l j e = rw e refl

-- The value that is stored when an id is appended.
has_id_appended :
    (current id j : Text)
    → IsPlain id
    → has_id j (some (with_id current id))
      ≡ (has_id j (some current) || text_eq id j && not (text_eq [] j))
unfolding has_id any
has_id_appended [] id j p = ground (
  arith,
  has_id_parts [] ([] ∷ []) j nothing,
  has_id_parts id (id ∷ []) j (split_comma_plain id p),
)
  where
    nothing : split_comma [] ≡ [] ∷ []
    nothing = split_comma_plain [] tt
has_id_appended (c ∷ s) id j p =
    let parts =
      split_comma-append (c ∷ s) id ∙ ap (◌++◌ (split_comma (c ∷ s))) (split_comma_plain id p) in
    ground (
      arith,
      has_id_parts (c ∷ s ++ comma ∷ id) (split_comma (c ∷ s) ++ id ∷ []) j parts,
      any-append (λ i. text_eq i j) (split_comma (c ∷ s)) (id ∷ []),
    )

-- What stands at a key after an id is added.
abbrev value_with : Option Text → Text → Text
value_with none id = id
value_with (some current) id = with_id current id

has_id-value_with :
    (old : Option Text) (id j : Text)
    → IsPlain id
    → text_eq [] id ≡ false
    → has_id j (some (value_with old id)) ≡ (has_id j old || text_eq id j)
unfolding has_id any
has_id-value_with none id j p h =
    ground (arith, has_id_parts id (id ∷ []) j (split_comma_plain id p), text_eq_iff id j)
has_id-value_with (some current) id j p h =
    ground (arith, has_id_appended current id j p, text_eq_iff id j)

-- What is stored of the ids that are left.
abbrev stored_ids : List Text → Option Text
stored_ids [] = none
stored_ids (x ∷ xs) = some (join (comma ∷ []) (x ∷ xs))

has_id-stored_ids :
    (ids : List Text) (j : Text)
    → All IsPlain ids
    → has_id j (stored_ids ids) ≡ (any (λ i. text_eq i j) ids && not (text_eq [] j))
unfolding any has_id
has_id-stored_ids [] j p = refl
has_id-stored_ids (x ∷ xs) j p =
    has_id_parts (join (comma ∷ []) (x ∷ xs)) (x ∷ xs) j (split_comma-join x xs p)

module _ {R : Redb} (law : IsRedb R) where
  stored_ids-get :
      (t : R.Table) (id key key' current : Text)
      → R.get key t ≡ some current
      → R.get key' (deindex_tag R t id key) ≡ (
          if text_eq key key'
          then stored_ids (retain (λ i. not (text_eq i id)) (split_comma current))
          else R.get key' t)
  unfolding deindex_tag
  stored_ids-get t id key key' current found =
      rw (found, deindex_tag) (go (retain (λ i. not (text_eq i id)) (split_comma current)))
    where
      go :
          (ids : List Text)
          → R.get key' (elim ids [
            | [] ↦ R.remove key t
            | i ∷ is ↦ R.insert key (join (comma ∷ []) (i ∷ is)) t
          ])
            ≡ (if text_eq key key' then stored_ids ids else R.get key' t)
      go [] = law.get_remove key key' t
      go (i ∷ is) = law.get_insert key (join (comma ∷ []) (i ∷ is)) key' t

  -- Deindexing takes an id from one key, and nothing else.
  pub deindex_tag-is_listed :
      (t : R.Table) (id key key' j : Text)
      → is_listed R (deindex_tag R t id key) key' j
        ≡ (is_listed R t key' j && not (text_eq key key' && text_eq id j))
  unfolding is_listed has_id deindex_tag text_eq
  deindex_tag-is_listed t id key key' j = elim (Option-cases (R.get key t)) [
    | inl gone ↦ rw (gone, deindex_tag) (ground (arith, text_eq_iff key key'))
    | inr (current, found) ↦
        let plain =
          All-retain IsPlain (λ i. not (text_eq i id)) (split_comma current)
            (split_comma-IsPlain current) in
        ground (
          arith,
          stored_ids-get t id key key' current found,
          text_eq_iff key key',
          has_id-stored_ids (retain (λ i. not (text_eq i id)) (split_comma current)) j plain,
          any-retain-not (split_comma current) id j,
        )
  ]

  index_tag_unlisted :
      (t : R.Table) (id key : Text)
      → is_listed R t key id ≡ false
      → text_eq [] id ≡ false
      → index_tag R t id key ≡ done (R.insert key (value_with (R.get key t) id) t)
  unfolding is_listed has_id index_tag append_id
  index_tag_unlisted t id key h some_id = elim (Option-cases (R.get key t)) [
    | inl gone ↦ rw (gone, index_tag) refl
    | inr (current, found) ↦ elim (Bool-cases (any (λ i. text_eq i id) (split_comma current))) [
      | inl there ↦ absurd (ground arith)
      | inr absent ↦ rw (found, index_tag, absent) refl
    ]
  ]

  -- Where a nonempty id is not listed at the key, indexing adds it there, and nothing else.
  pub index_tag-is_listed :
      (t : R.Table) (id key : Text)
      → IsPlain id
      → text_eq [] id ≡ false
      → is_listed R t key id ≡ false
      → (t' : R.Table) × (index_tag R t id key ≡ done t')
        × ((key' j : Text)
            → is_listed R t' key' j ≡ (is_listed R t key' j || text_eq key key' && text_eq id j))
  unfolding is_listed
  index_tag-is_listed t id key p some_id h = (
    R.insert key (value_with (R.get key t) id) t,
    index_tag_unlisted t id key h some_id,
    λ key' j. ground (
      arith,
      law.get_insert key (value_with (R.get key t) id) key' t,
      text_eq_iff key key',
      text_eq_iff id j,
      has_id-value_with (R.get key t) id j p some_id,
    ),
  )

  -- Where it is listed, indexing panics.
  pub index_tag_listed :
      (t : R.Table) (id key : Text)
      → is_listed R t key id ≡ true
      → index_tag R t id key ≡ panicked t
  unfolding is_listed has_id index_tag append_id
  index_tag_listed t id key h = elim (Option-cases (R.get key t)) [
    | inl gone ↦ ground arith
    | inr (current, found) ↦ ground arith
  ]
