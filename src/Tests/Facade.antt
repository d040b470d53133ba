-- ===== src/Tests/Facade.antt =====
-- Runs of the facade of the store, and the theorems at them.
use dsearch.Base.{
  not, if◌then◌else◌, ℕ, ◌+◌, ◌*◌, ◌/◌, ltb, ◌-◌, ◌<◌, ◌≡◌, refl, true, false, ◌&&◌, none, some,
  List, [], ◌∷◌, ok, err, Text, codes, text_eq, lookup, replicate, retain, any, Distinct, arith,
}
use dsearch.Model.{ContentRecord}
use dsearch.Search.Cache as Cache
use dsearch.Search.Tokens.{tokenize}
use dsearch.Search.Query.{
  parse_query, parse_tokens, parse_token, add_token, excluded, unquote, parse_field_filter,
  field_of_parts,
}
use dsearch.Sanitize.{split_colon}
use dsearch.Search.Scoring.{Floats}
use dsearch.Storage.Db.{StorageConfig}
use dsearch.Storage.Records.{inserted, list_records, list_scan}
use dsearch.Storage.Index.{index_key, index_record, index_tag, parse_tag, split_comma}
use dsearch.Storage.Index.Ids.{is_listed}
use dsearch.Storage.Index.Records.{is_tagged}
use dsearch.Storage.Store.Deleted.{delete_record-is_listed}
use dsearch.Storage.Store.{delete_record, Store, new, index_panic, insert_signed, index_inserted}
use dsearch.Storage.Store.Signing.{SignatureBytes, sign_if_needed, verify_record}
use dsearch.Storage.Store.Signed.{IsSignatureBytes, verify_record-sign_if_needed}
use dsearch.Storage.Store.Swept.{IsStopped, insert_signed_swept}
use dsearch.Storage.Store.Index.{table_result}
use dsearch.Storage.Sweep.{delete_expired_records}
use dsearch.Storage.Store.{with_db}
use dsearch.Storage.Store.Search.{
  ListSerde, cache_key, ranked, sort_by_score, search_tables, search_records,
}
use dsearch.Storage.Store.Searched.{IsOrdered, search_records_again}
use dsearch.Trust.Sign.{Ed25519, IsEd25519}
use dsearch.Trust.Verify.{valid_result}
use dsearch.Tests.Tables.{assoc_table, assoc_table-IsRedb, latest}
use dsearch.Tests.Codec.{codec, codec-IsSerde}
use dsearch.Storage.Records.Stored.{stored}
use dsearch.Storage.Records.Invariant.{IsValid}
use dsearch.Tests.Store.{one, one-IsValid, record_of, nothing, first, program}

-- A scheme with one signature, of 64 zero bytes.
abbrev pub one_signature : Ed25519
one_signature = record {
  SigningKey = Unit {0};
  VerifyingKey = Unit {0};
  Signature = Unit {0};
  verifying_key = λ sk. sk;
  sign = λ sk message. tt;
  verify = λ vk message sig. true;
}

one_signature-IsEd25519 : IsEd25519 one_signature
one_signature-IsEd25519 = record { signed = λ sk message. refl }

abbrev pub zero_bytes : SignatureBytes one_signature
zero_bytes = record { to_bytes = λ sig. replicate 64 0; from_bytes = λ bytes. tt }

zero_bytes-IsSignatureBytes : IsSignatureBytes zero_bytes
zero_bytes-IsSignatureBytes = record {
  size = λ sig. refl;
  in_range = λ sig. omega arith;
  read_back = λ sig. refl;
}

verify_record-sign_if_needed_example :
    (signed : ContentRecord) × (sign_if_needed one_signature zero_bytes (some tt) first
      ≡ some signed)
    × (signed ≡ record first { sig = signed.sig })
    × (verify_record one_signature zero_bytes signed tt ≡ some valid_result)
verify_record-sign_if_needed_example =
    verify_record-sign_if_needed one_signature-IsEd25519 zero_bytes-IsSignatureBytes tt first refl

abbrev pub tagged : ContentRecord
tagged = record first { tags = codes "level:easy" ∷ [] }

abbrev settings : StorageConfig
settings = record { quota_mb = 0; quota_action = codes "warn_only"; tier2_max_mb = 0 }

abbrev pub store : Store assoc_table one_signature
store = new one_signature nothing settings

program_with_index : Unit {0}
unfolding program new index_record index_tag index_key insert_signed
program_with_index = tt

taken : table_result assoc_table codec store tagged ≡ ok inserted
unfolding program new
taken = refl

inserts : (insert_signed assoc_table codec one_signature zero_bytes store tagged).0 ≡ ok inserted
unfolding program_with_index index_inserted
inserts = refl

some_id : text_eq [] (codes "r1") ≡ false
unfolding text_eq
some_id = refl

-- It has expired at 100.
abbrev expiring : ContentRecord
expiring = record tagged { expires_at = 50 }

expiring_inserts :
    (insert_signed assoc_table codec one_signature zero_bytes store expiring).0 ≡ ok inserted
unfolding program_with_index index_inserted
expiring_inserts = refl

abbrev swept : Store assoc_table one_signature
swept =
    let s' = (insert_signed assoc_table codec one_signature zero_bytes store expiring).1 in
    with_db assoc_table codec one_signature zero_bytes s'
      (delete_expired_records assoc_table codec s'.db 100).1

insert_signed_swept_example :
    IsStopped assoc_table codec one_signature zero_bytes assoc_table-IsRedb swept expiring
insert_signed_swept_example =
    insert_signed_swept assoc_table codec one_signature zero_bytes assoc_table-IsRedb store expiring
      expiring inserted (codes "level:easy") [] [] 100 refl refl refl refl (refl, (refl, tt))
      some_id tt expiring_inserts

swept_gone : stored assoc_table codec swept.db (codes "r1") ≡ none
unfolding program_with_index index_inserted delete_expired_records
    dsearch.Storage.Sweep.collect_expired dsearch.Storage.Sweep.is_expired
    dsearch.Storage.Sweep.drop_records dsearch.Storage.Records.is_pinned latest
swept_gone = refl

swept_panics :
    (insert_signed assoc_table codec one_signature zero_bytes swept expiring).0 ≡ err index_panic
unfolding program_with_index index_inserted delete_expired_records
    dsearch.Storage.Sweep.collect_expired dsearch.Storage.Sweep.is_expired
    dsearch.Storage.Sweep.drop_records dsearch.Storage.Records.is_pinned any split_comma latest
    parse_tag split_colon dsearch.Storage.Index.append_id
swept_panics = refl

-- Numbers in place of floats.
abbrev pub whole : Floats
whole = record {
  Float = ℕ;
  of_nat = λ n. n;
  add = λ a b. a + b;
  mul = λ a b. a * b;
  div = λ a b. a / b;
  ln = λ a. a;
  max = λ a b. a;
  less = λ a b. ltb a b;
}

whole-IsOrdered : IsOrdered whole
whole-IsOrdered = record { asymmetric = λ a b h. ground arith }

-- A codec of the empty list.
abbrev pub empty_lists : ListSerde
empty_lists = record { to_json = λ l. some (codes "[]"); from_json = λ t. some [] }

abbrev same : Text → Text
same t = t

lives : 9 - 5 < store.search_cache.ttl
unfolding new Cache.new
lives = omega arith

no_entries : Distinct store.search_cache.entries
unfolding new Cache.new
no_entries = tt

finds :
    search_tables whole same assoc_table codec empty_lists one_signature store (codes "rust") 10 7
    ≡ ok []
unfolding search_tables list_records list_scan ranked sort_by_score new latest parse_query
    parse_tokens parse_token tokenize text_eq add_token excluded unquote parse_field_filter
    field_of_parts split_colon retain
finds = refl

misses : (Cache.get store.search_cache 5 (cache_key (codes "rust") 10)).0 ≡ none
unfolding new Cache.new Cache.get lookup
misses = refl

search_records_again_example :
    (search_records whole same assoc_table codec empty_lists one_signature
      (record (search_records whole same assoc_table codec empty_lists one_signature store 5 7
        (codes "rust")
        10).1 { db = nothing })
      9
      8
      (codes "rust")
      10).0
    ≡ ok []
search_records_again_example =
    search_records_again whole same assoc_table codec empty_lists one_signature store 5 7 9 8 10
      (codes "rust") (codes "[]") [] nothing no_entries misses finds refl refl lives

abbrev two_records : List ContentRecord
two_records = first ∷ record_of (codes "r2") (codes "s2") 20 ∷ []

abbrev with_one : Store assoc_table one_signature
with_one = new one_signature one settings

with_one-IsValid : IsValid assoc_table codec with_one.db
unfolding new
with_one-IsValid = one-IsValid

there : stored assoc_table codec with_one.db (codes "r1") ≡ some first
unfolding program new
there = refl

delete_record-is_listed_example :
    ((delete_record assoc_table codec one_signature zero_bytes with_one (codes "r1")).0 ≡ ok true)
    × IsValid assoc_table codec
        (delete_record assoc_table codec one_signature zero_bytes with_one (codes "r1")).1.db
    × ((j : Text)
        → stored assoc_table codec
            (delete_record assoc_table codec one_signature zero_bytes with_one (codes "r1")).1.db
            j
          ≡ (if text_eq (codes "r1") j then none else stored assoc_table codec with_one.db j))
    × ((key j : Text)
        → is_listed assoc_table
            (delete_record assoc_table codec one_signature zero_bytes with_one
              (codes "r1")).1.db.inverted_index
            key
            j
          ≡ (is_listed assoc_table with_one.db.inverted_index key j
              && not (is_tagged first.schema first.tags key && text_eq (codes "r1") j)))
delete_record-is_listed_example =
    delete_record-is_listed one_signature zero_bytes assoc_table-IsRedb codec-IsSerde with_one
      with_one-IsValid (codes "r1") first there
