-- ===== src/Tests/Platform.antt =====
-- Libraries to run the interfaces on: JSON values are texts behind a tag, records are read by the
-- codec of the tests.
use dsearch.Base.{
  ◌≡◌, refl, ap, Option, none, some, List, [], ◌∷◌, length, Result, ok, err, Text, codes, lookup,
}
use dsearch.Api.Platform.{Platform}
use dsearch.Api.Response.{Json, IsJson}
use dsearch.Model.{ContentRecord}
use dsearch.Tests.Codec.{codec, put_texts, get_texts, get-put_texts, write_record}
use dsearch.Tests.Facade.{one_signature, zero_bytes, whole, empty_lists}
use dsearch.Tests.Tables.{assoc_table}

abbrev flatten : List (Text × Text) → List Text
flatten [] = []
flatten ((k, v) ∷ l) = k ∷ v ∷ flatten l

abbrev pairs : List Text → List (Text × Text)
pairs [] = []
pairs (k ∷ []) = []
pairs (k ∷ v ∷ l) = (k, v) ∷ pairs l

pairs-flatten : (l : List (Text × Text)) → pairs (flatten l) ≡ l
pairs-flatten [] = refl
pairs-flatten ((k, v) ∷ l) = ap (λ r. (k, v) ∷ r) (pairs-flatten l)

-- Texts behind their number.
abbrev write_texts : List Text → Text
write_texts ts = length ts ∷ put_texts ts []

abbrev read_texts : Text → Option (List Text)
read_texts [] = none
read_texts (n ∷ s) = get_texts n (λ ts rest. some ts) s

abbrev as_string : Text → Option Text
as_string [] = none
as_string (c ∷ t) = some t

abbrev lookup_in : Text → Option (List Text) → Option Text
lookup_in key none = none
lookup_in key (some ts) = lookup key (pairs ts)

abbrev field_of : Text → Text → Option Text
field_of key [] = none
field_of key (c ∷ t) = lookup_in key (read_texts t)

abbrev items_of : Text → Option (List Text)
items_of [] = none
items_of (c ∷ t) = read_texts t

abbrev record_or_error : Option ContentRecord → Result ContentRecord Text
record_or_error none = err (codes "no record")
record_or_error (some r) = ok r

abbrev small_json : Json
small_json = record {
  Value = Text;
  string = λ t. 0 ∷ t;
  number = λ n. 3 ∷ n ∷ [];
  boolean = λ b. 4 ∷ [];
  array = λ values. 2 ∷ write_texts values;
  object = λ fields. 1 ∷ write_texts (flatten fields);
  of_record = λ r. 5 ∷ write_record r;
  to_string = λ v. v;
  to_string_pretty = λ v. v;
  from_str = λ t. ok t;
  list_from_str = items_of;
  record_from_str = λ t. record_or_error (codec.from_json t);
  records_from_str = λ t. ok [];
  get = field_of;
  as_str = as_string;
}

abbrev pub small_platform : Platform
small_platform = record {
  redb = assoc_table;
  serde = codec;
  list_serde = empty_lists;
  json = small_json;
  ed25519 = one_signature;
  signature_bytes = zero_bytes;
  floats = whole;
  to_lowercase = λ t. t;
  blake3_hex = λ bytes. codes "00";
  storage_error = λ e. codes "storage";
  self_verification_error = codes "signature";
  sanitize_error = λ e. codes "size";
}

pub small_json-IsJson : IsJson small_platform.json
small_json-IsJson = record {
  string_read = λ t. refl;
  field_read = λ key fields.
      rw (get-put_texts (flatten fields) (λ ts rest. some ts) [])
        (ap (lookup key) (pairs-flatten fields));
  list_read = λ values. get-put_texts values (λ ts rest. some ts) [];
}
