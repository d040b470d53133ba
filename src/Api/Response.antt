-- ===== src/Api/Response.antt =====
-- The responses of the local interface and of the gateway (src/api/response.rs). JSON is that of
-- `serde_json`, a parameter. The headers are a list, in an order
-- that the hash map leaves open.
pub mod Framing
use dsearch.Base.{
  ℕ, ◌≡◌, Bool, not, Option, some, List, [], ◌∷◌, ◌++◌, if◌then◌else◌, Result, ok, Text, codes,
  text_eq, length, lookup, put, as_bytes, decimal,
}
use dsearch.Model.{ContentRecord}

-- The values of `serde_json`, what `json!` builds them from, and the texts they are written as.
pub record Json : Type 1 where
  pub Value : Type 0
  pub string : Text → Value
  pub number : ℕ → Value
  pub boolean : Bool → Value
  pub array : List Value → Value
  pub object : List (Text × Value) → Value
  pub of_record : ContentRecord → Value
  pub to_string : Value → Text
  pub to_string_pretty : Value → Text
  pub from_str : Text → Result Value Text
  pub list_from_str : Text → Option (List Value)
  pub record_from_str : Text → Result ContentRecord Text
  pub records_from_str : Text → Result (List ContentRecord) Text
  pub get : Text → Value → Option Value
  pub as_str : Value → Option Text

-- Their documented behaviour: strings and fields are read as they were given, and a list that is
-- written is read back.
pub record IsJson (J : Json) : Type 0 where
  pub string_read : (t : Text) → J.as_str (J.string t) ≡ some t
  pub field_read :
      (key : Text) (fields : List (Text × J.Value))
      → J.get key (J.object fields) ≡ lookup key fields
  pub list_read :
      (values : List J.Value) → J.list_from_str (J.to_string_pretty (J.array values)) ≡ some values

pub record HttpResponse : Type 0 where
  pub status : ℕ
  pub status_text : Text
  pub headers : List (Text × Text)
  pub body : List ℕ

unfoldable pub new : ℕ → Text → List ℕ → HttpResponse
new status status_text body = record {
  status = status;
  status_text = status_text;
  headers = put (codes "server") (codes "dsearch") (put (codes "connection") (codes "close") []);
  body = body;
}

unfoldable pub ok_response : List ℕ → HttpResponse
ok_response body = new 200 (codes "OK") body

abbrev pub insert_header : Text → Text → HttpResponse → HttpResponse
insert_header key value resp = record resp { headers = put key value resp.headers }

abbrev pub json_type : HttpResponse → HttpResponse
json_type = insert_header (codes "content-type") (codes "application/json; charset=utf-8")

unfoldable pub json : Text → HttpResponse
json body = json_type (ok_response (as_bytes body))

module _ (J : Json) where
  abbrev pub error_body : Text → ℕ → List ℕ
  error_body error code = as_bytes (
      J.to_string (J.object ((codes "error", J.string error) ∷ (codes "code", J.number code) ∷ [])))

  unfoldable pub not_found : Text → HttpResponse
  not_found error = json_type (new 404 (codes "Not Found") (error_body error 404))

  unfoldable pub bad_request : Text → HttpResponse
  bad_request error = json_type (new 400 (codes "Bad Request") (error_body error 400))

  unfoldable pub internal_error : Text → HttpResponse
  internal_error error = json_type (new 500 (codes "Internal Server Error") (error_body error 500))

  unfoldable pub method_not_allowed : Text → HttpResponse
  method_not_allowed error = json_type (new 405 (codes "Method Not Allowed") (error_body error 405))

unfoldable pub with_node_headers : Text → HttpResponse → HttpResponse
with_node_headers node_id resp =
    insert_header (codes "x-protocol-version") (codes "1")
      (insert_header (codes "x-node-id") node_id resp)

unfoldable pub with_record_count : ℕ → HttpResponse → HttpResponse
with_record_count count resp = insert_header (codes "x-record-count") (decimal count) resp

abbrev pub crlf : Text
crlf = 13 ∷ 10 ∷ []

abbrev pub header_line : Text → Text → Text
header_line key value = key ++ (codes ": " ++ value)

abbrev pub status_line : HttpResponse → Text
status_line resp = codes "HTTP/1.1 " ++ (decimal resp.status ++ (codes " " ++ resp.status_text))

-- Each line with its end.
unfoldable pub write_lines : List Text → List ℕ
write_lines [] = []
write_lines (line ∷ rest) = as_bytes line ++ (crlf ++ write_lines rest)

module _ (to_lowercase : Text → Text) where
  -- The lines of the headers; a content length among them is passed over.
  unfoldable pub header_lines : List (Text × Text) → List Text
  header_lines [] = []
  header_lines ((key, value) ∷ headers) =
      let rest = header_lines headers in
      if text_eq (to_lowercase key) (codes "content-length")
      then rest
      else header_line key value ∷ rest

  -- The lines before the blank one.
  unfoldable pub head_lines : HttpResponse → List Text
  head_lines resp =
      status_line resp
      ∷ header_line (codes "content-length") (decimal (length resp.body))
      ∷ header_lines resp.headers

  unfoldable pub to_bytes : HttpResponse → List ℕ
  to_bytes resp = write_lines (head_lines resp) ++ (crlf ++ resp.body)
