-- ===== src/Tests/Codec.antt =====
-- A codec that stands for `serde_json`: numbers as they are, texts behind their length.
use dsearch.Base.{
  ◌≤◌, byte_len, byte_len-append, char_size, ℕ, zero, suc, ◌≡◌, refl, Option, none, some, List, [],
  ◌∷◌, ◌++◌, length, take, drop, take-append, drop-append, Text, arith,
}
use dsearch.Model.{ContentRecord, Announcement, Serde, IsSerde}
use dsearch.Model.Source.{ScrapeSource, url, feed, api, keyword}
use dsearch.Model.Refresh.{RefreshPolicy, once, interval, on_change}

-- What is left to write or to read.
abbrev pub put_text : Text → Text → Text
put_text t rest = length t ∷ (t ++ rest)

unfoldable pub put_texts : List Text → Text → Text
put_texts [] rest = rest
put_texts (t ∷ ts) rest = put_text t (put_texts ts rest)

abbrev pub get_text {ℓ} : {A : Type ℓ} → (Text → Text → Option A) → Text → Option A
get_text k [] = none
get_text k (n ∷ s) = k (take n s) (drop n s)

unfoldable pub get_texts {ℓ} : {A : Type ℓ} → ℕ → (List Text → Text → Option A) → Text → Option A
get_texts zero k s = k [] s
get_texts (suc n) k s = get_text (λ t. get_texts n (λ ts. k (t ∷ ts))) s

abbrev pub get_number {ℓ} : {A : Type ℓ} → (ℕ → Text → Option A) → Text → Option A
get_number k [] = none
get_number k (n ∷ s) = k n s

pub get-put_text {ℓ} :
    {A : Type ℓ} (k : Text → Text → Option A) (t rest : Text)
    → get_text k (put_text t rest) ≡ k t rest
get-put_text k t rest = rw (take-append, drop-append)

pub get-put_texts {ℓ} :
    {A : Type ℓ} (ts : List Text) (k : List Text → Text → Option A) (rest : Text)
    → get_texts (length ts) k (put_texts ts rest) ≡ k ts rest
unfolding get_texts put_texts
get-put_texts [] k rest = refl
get-put_texts (t ∷ ts) k rest =
    rw (take-append, drop-append) (get-put_texts ts (λ us. k (t ∷ us)) rest)

abbrev source_code : ScrapeSource → ℕ
source_code url = 0
source_code feed = 1
source_code api = 2
source_code keyword = 3

abbrev code_source : ℕ → ScrapeSource
code_source zero = url
code_source (suc zero) = feed
code_source (suc (suc zero)) = api
code_source (suc (suc (suc n))) = keyword

abbrev refresh_code : RefreshPolicy → ℕ
refresh_code once = 0
refresh_code interval = 1
refresh_code on_change = 2

abbrev code_refresh : ℕ → RefreshPolicy
code_refresh zero = once
code_refresh (suc zero) = interval
code_refresh (suc (suc n)) = on_change

code_source-source_code : (s : ScrapeSource) → code_source (source_code s) ≡ s
code_source-source_code url = refl
code_source-source_code _ = refl

code_refresh-refresh_code : (p : RefreshPolicy) → code_refresh (refresh_code p) ≡ p
code_refresh-refresh_code once = refl
code_refresh-refresh_code _ = refl

unfoldable pub write_record : ContentRecord → Text
unfolding put_texts
write_record r = put_text r.id (
    put_text r.source_url (
      put_text r.source_hash (
        put_text r.schema (
          length r.tags
          ∷ put_texts r.tags (
              put_text r.body (
                r.created_at
                ∷ r.expires_at
                ∷ source_code r.scrape_source
                ∷ refresh_code r.refresh_policy
                ∷ put_text r.sig []))))))

unfoldable pub read_record : Text → Option ContentRecord
unfolding get_texts
read_record = get_text λ id. get_text λ source_url. get_text λ source_hash. get_text λ schema.
    get_number λ n. get_texts n λ tags. get_text λ body. get_number λ created_at.
      get_number λ expires_at. get_number λ source. get_number λ refresh. get_text λ sig _.
        some (record {
          id = id;
          source_url = source_url;
          source_hash = source_hash;
          schema = schema;
          tags = tags;
          body = body;
          created_at = created_at;
          expires_at = expires_at;
          scrape_source = code_source source;
          refresh_policy = code_refresh refresh;
          sig = sig;
        })

read-write_record : (r : ContentRecord) → read_record (write_record r) ≡ some r
unfolding read_record write_record
read-write_record r =
    simp
      (take-append, drop-append, get-put_texts, code_source-source_code, code_refresh-refresh_code)

unfoldable pub write_announcement : Announcement → Text
unfolding put_texts
write_announcement a = put_text a.record_id (
    put_text a.source_hash (
      put_text a.schema (
        length a.tags
        ∷ put_texts a.tags (put_text a.holder_addr (a.expires_at ∷ put_text a.sig [])))))

unfoldable pub read_announcement : Text → Option Announcement
unfolding get_texts
read_announcement = get_text λ record_id. get_text λ source_hash. get_text λ schema. get_number λ n.
    get_texts n λ tags. get_text λ holder_addr. get_number λ expires_at. get_text λ sig _.
      some (record {
        record_id = record_id;
        source_hash = source_hash;
        schema = schema;
        tags = tags;
        holder_addr = holder_addr;
        expires_at = expires_at;
        sig = sig;
      })

read-write_announcement : (a : Announcement) → read_announcement (write_announcement a) ≡ some a
unfolding read_announcement write_announcement
read-write_announcement a = simp (take-append, drop-append, get-put_texts)

abbrev pub codec : Serde
codec = record {
  to_json = write_record;
  from_json = read_record;
  announcement_to_json = write_announcement;
  announcement_from_json = read_announcement;
}

pub codec-IsSerde : IsSerde codec
codec-IsSerde = record {
  record_read = read-write_record;
  announcement_read = read-write_announcement;
}

length-le-byte_len : (s : Text) → length s ≤ byte_len s
unfolding byte_len char_size
length-le-byte_len [] = omega arith
length-le-byte_len (c ∷ s) = ground (arith, length-le-byte_len s)

put_texts-le : (ts : List Text) (rest : Text) → byte_len rest ≤ byte_len (put_texts ts rest)
unfolding put_texts byte_len
put_texts-le [] rest = omega arith
put_texts-le (t ∷ ts) rest =
    omega (arith, byte_len-append t (put_texts ts rest), put_texts-le ts rest)

-- A text that is written is at least as long as the body.
pub body-le-write_record : (r : ContentRecord) → length r.body ≤ byte_len (write_record r)
unfolding write_record byte_len
body-le-write_record r = omega (arith, byte_len-append, put_texts-le, length-le-byte_len r.body)
