-- ===== src/Tests/Store.antt =====
-- Runs of the store over the concrete table and codec, and the theorems at them.
use dsearch.Base.{
  lookup, without, replicate, length, length-replicate, lt→ltb, ℕ, ◌<◌, ◌≡◌, refl, ◌⊎◌, true, ◌&&◌,
  none, some, [], if◌then◌else◌, Text, codes, text_eq, arith, is_some, byte_len, char_size, ok, err,
  is_ok,
}
use dsearch.Model.{ContentRecord, max_record_size, validate_record_size}
use dsearch.Model.Source.{url}
use dsearch.Model.Refresh.{once}
use dsearch.Storage.Db.{Db, record_too_large, quota_exceeded}
use dsearch.Storage.Records.{
  skipped_older, replaced_newer, insert_record, pin_record, is_pinned, exceeds_quota, dedup,
  insert_deduped, commit_insert, put_record, remove_existing, drop_record,
}
use dsearch.Storage.Records.Stored.{stored}
use dsearch.Storage.Records.Invariant.{IsValid}
use dsearch.Storage.Records.Sources.{by_source, HasOwnId}
use dsearch.Storage.Records.Insert.{
  newest, verdict, insert_record-IsValid, insert_record-newest, insert_record_fails,
}
use dsearch.Storage.Records.Delete.{pin_record-is_pinned}
use dsearch.Storage.Sweep.{delete_expired_records}
use dsearch.Storage.Sweep.Expiry.{kept, delete_expired_records-kept}
use dsearch.Tests.Tables.{assoc_table, assoc_table-IsRedb}
use dsearch.Tests.Codec.{codec, codec-IsSerde, body-le-write_record, write_record, read_record}

abbrev pub record_of : Text → Text → ℕ → ContentRecord
record_of id source created_at = record {
  id = id;
  source_url = codes "https://example.com";
  source_hash = source;
  schema = codes "wiki/article";
  tags = [];
  body = codes "hello";
  created_at = created_at;
  expires_at = 50;
  scrape_source = url;
  refresh_policy = once;
  sig = [];
}

abbrev pub nothing : Db assoc_table
nothing = record {
  records = [];
  source_index = [];
  pins = [];
  announcements = [];
  inverted_index = [];
}

nothing-IsValid : IsValid assoc_table codec nothing
unfolding stored lookup
nothing-IsValid = record {
  readable = λ id json p. absurd (cc);
  own_id = λ id r p. absurd (cc);
  complete = λ id r p. absurd (cc);
  sound = λ h id p. absurd (cc);
}

abbrev pub first : ContentRecord
first = record_of (codes "r1") (codes "s1") 10

abbrev second : ContentRecord
second = record_of (codes "r2") (codes "s1") 20

first_own : HasOwnId assoc_table codec nothing first
unfolding stored lookup
first_own s p = absurd (cc)

abbrev pub one : Db assoc_table
one = (insert_record assoc_table codec nothing first none).1

unfoldable pub program : Unit {0}
unfolding char_size insert_record dedup insert_deduped commit_insert exceeds_quota put_record
    remove_existing lookup text_eq without byte_len stored write_record read_record
    validate_record_size by_source drop_record
program = tt

insert_runs : (insert_record assoc_table codec one second none).0 ≡ ok replaced_newer
unfolding program
insert_runs = refl

insert_older :
    (insert_record assoc_table codec one (record_of (codes "r0") (codes "s1") 9) none).0
    ≡ ok skipped_older
unfolding program
insert_older = refl

replaced_lookup :
    by_source assoc_table codec (insert_record assoc_table codec one second none).1 (codes "s1")
    ≡ some second
unfolding program
replaced_lookup = refl

-- A record under the id of another source's takes the place of that one, and the other source then
-- leads to it.
abbrev stolen : ContentRecord
stolen = record_of (codes "r1") (codes "s2") 5

stolen_id :
    by_source assoc_table codec (insert_record assoc_table codec one stolen none).1 (codes "s1")
    ≡ some stolen
unfolding program
stolen_id = refl

pub one-IsValid : IsValid assoc_table codec one
one-IsValid =
    insert_record-IsValid assoc_table-IsRedb codec-IsSerde nothing-IsValid first first_own none

second_own : HasOwnId assoc_table codec one second
unfolding program
second_own s p = absurd (cc)

insert_record-IsValid_example :
    IsValid assoc_table codec (insert_record assoc_table codec one second none).1
insert_record-IsValid_example =
    insert_record-IsValid assoc_table-IsRedb codec-IsSerde one-IsValid second second_own none

insert_record-newest_example :
    (replaced_newer ≡ verdict (by_source assoc_table codec one (codes "s1")) second)
    × ((h : Text)
        → by_source assoc_table codec (insert_record assoc_table codec one second none).1 h ≡ (
            if text_eq (codes "s1") h
            then some (newest (by_source assoc_table codec one (codes "s1")) second)
            else by_source assoc_table codec one h))
insert_record-newest_example =
    insert_record-newest assoc_table-IsRedb codec-IsSerde one-IsValid second second_own none
      replaced_newer insert_runs

pin_record-is_pinned_example :
    ((pin_record assoc_table codec one (codes "r1") (codes "7")).0
      ≡ ok (is_some (stored assoc_table codec one (codes "r1"))))
    × IsValid assoc_table codec (pin_record assoc_table codec one (codes "r1") (codes "7")).1
    × ((j : Text)
        → is_pinned assoc_table codec
            (pin_record assoc_table codec one (codes "r1") (codes "7")).1
            j
          ≡ (if text_eq (codes "r1") j && is_some (stored assoc_table codec one (codes "r1"))
              then true
              else is_pinned assoc_table codec one j))
pin_record-is_pinned_example =
    pin_record-is_pinned assoc_table-IsRedb codec-IsSerde one-IsValid (codes "r1") (codes "7")

delete_expired_records-kept_example :
    (is_ok (delete_expired_records assoc_table codec one 100).0 ≡ true)
    × IsValid assoc_table codec (delete_expired_records assoc_table codec one 100).1
    × ((id : Text)
        → stored assoc_table codec (delete_expired_records assoc_table codec one 100).1 id
          ≡ kept assoc_table codec one 100 id (stored assoc_table codec one id))
    × ((delete_expired_records assoc_table codec one 100).1.pins ≡ one.pins)
delete_expired_records-kept_example =
    delete_expired_records-kept assoc_table-IsRedb codec-IsSerde one-IsValid 100

-- A body of `n` characters; shut, so that it is never written out.
letters : ℕ → Text
letters n = replicate n 97

length-letters : (n : ℕ) → length (letters n) ≡ n
unfolding letters
length-letters n = length-replicate n 97

abbrev huge : ContentRecord
huge = record first { body = letters 1100000 }

huge_size : max_record_size < byte_len (write_record huge)
huge_size = omega (arith, body-le-write_record huge, length-letters 1100000)

huge_invalid : validate_record_size codec huge ≡ err (byte_len (write_record huge))
unfolding validate_record_size
huge_invalid = rw (lt→ltb _ _ huge_size)

huge_fails :
    (insert_record assoc_table codec nothing huge none).0
    ≡ err (record_too_large (byte_len (write_record huge)))
unfolding insert_record
huge_fails = rw (huge_invalid, insert_record)

insert_record_fails_example :
    ((insert_record assoc_table codec nothing huge none).1 ≡ nothing)
    × (((record_too_large (byte_len (write_record huge))
            ≡ record_too_large (byte_len (write_record huge)))
          × (max_record_size < byte_len (write_record huge)))
        ⊎ ((mb : ℕ) × (record_too_large (byte_len (write_record huge)) ≡ quota_exceeded mb)
            × (exceeds_quota assoc_table codec nothing huge none ≡ some mb)))
insert_record_fails_example =
    insert_record_fails assoc_table-IsRedb codec-IsSerde nothing-IsValid huge none
      (record_too_large (byte_len (write_record huge))) huge_fails
