-- ===== src/Api/Local.antt =====
-- The handlers of the local interface (src/api/handlers.rs). They share what they do with the body
-- of a request and with a field of it.
pub mod Reads
pub mod Peers
pub mod Writes
pub mod Upkeep
pub mod Settings
pub mod Route
use dsearch.Base.{
  ℕ, ◌-◌, Option, none, some, List, [], ◌∷◌, ◌++◌, Result, ok, err, Text, codes, u64_mod, lookup,
}
use dsearch.Search.Dates.{parse_number}
use dsearch.Api.Platform.{Platform}
use dsearch.Api.Request.{HttpRequest}
use dsearch.Api.Response.{HttpResponse, bad_request, json, with_node_headers}

-- `parse` of a `usize` of 64 bits, or a default.
abbrev pub usize_or : ℕ → Option Text → ℕ
usize_or n none = n
usize_or n (some t) = elim (parse_number (u64_mod - 1) t) [ none ↦ n | some m ↦ m ]

abbrev pub text_or_empty : Option Text → Text
text_or_empty none = []
text_or_empty (some t) = t

-- The limit of a search or a list.
abbrev pub limit_of : ℕ → HttpRequest → ℕ
limit_of default req = usize_or default (lookup (codes "limit") req.query)

-- The query of a search, with the schema in front if one is given.
abbrev pub effective_query : Option Text → Text → Text
effective_query none query = query
effective_query (some []) query = query
effective_query (some (c ∷ s)) query = codes "schema:" ++ (c ∷ s ++ (codes " " ++ query))

module _ (P : Platform) where
  abbrev pub string : Text → P.json.Value
  string = P.json.string

  abbrev pub Fields : Type 0
  Fields = List (Text × P.json.Value)

  -- The response with an object of these fields.
  abbrev pub reply : Text → Fields → HttpResponse
  reply node_id fields = with_node_headers node_id (json (P.json.to_string (P.json.object fields)))

  -- A text field of a body, as `get` and `as_str` give it.
  abbrev pub as_text : Option P.json.Value → Option Text
  as_text none = none
  as_text (some value) = P.json.as_str value

  abbrev pub text_field : Text → P.json.Value → Option Text
  text_field name body = as_text (P.json.get name body)

  -- What a handler is given: the text field of this name in the body, or the response without it.
  abbrev pub or_missing : Text → Option Text → Result Text HttpResponse
  or_missing name none = err (bad_request P.json (codes "missing field: " ++ name))
  or_missing name (some value) = ok value

  abbrev pub or_invalid : Result P.json.Value Text → Result P.json.Value HttpResponse
  or_invalid (ok body) = ok body
  or_invalid (err e) = err (bad_request P.json (codes "invalid JSON: " ++ e))

  unfoldable pub parse_body : HttpRequest → Result P.json.Value HttpResponse
  parse_body req = or_invalid (P.json.from_str req.body)

  unfoldable pub body_field : HttpRequest → Text → Result Text HttpResponse
  body_field req name = elim (parse_body req) [
    | err resp ↦ err resp
    | ok body ↦ or_missing name (text_field name body)
  ]
