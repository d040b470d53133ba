-- ===== src/Tests/Index.antt =====
-- Runs of the inverted index, and the theorems at them.
use dsearch.Base.{◌≡◌, refl, false, List, [], ◌∷◌, Text, codes, text_eq, lookup}
use dsearch.Storage.Index.{done, panicked, index_record, index_tag, index_key}
use dsearch.Storage.Index.Records.{index_record_again}
use dsearch.Tests.Tables.{assoc_table, assoc_table-IsRedb}

abbrev tags : List Text
tags = codes "level:easy" ∷ []

abbrev indexed : List (Text × Text)
indexed = (index_key (codes "s") (codes "level:easy"), codes "r1") ∷ []

first_time : index_record assoc_table [] (codes "r1") (codes "s") tags ≡ done indexed
unfolding index_record index_tag lookup text_eq
first_time = refl

some_id : text_eq [] (codes "r1") ≡ false
unfolding text_eq
some_id = refl

index_record_again_example :
    index_record assoc_table indexed (codes "r1") (codes "s") tags ≡ panicked indexed
index_record_again_example =
    index_record_again assoc_table-IsRedb [] indexed (codes "r1") (codes "s") (codes "level:easy")
      [] (refl, (refl, tt)) some_id first_time
