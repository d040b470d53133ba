-- ===== src/Api/Gateway.antt =====
-- The gateway for readers on the network (src/api/gateway.rs): one connection from the bytes that
-- are read to the response that is written. Errors of the socket, and the cap on connections that
-- are served at once, are left out.
pub mod Guarded
use dsearch.Base.{
  ℕ, Bool, true, false, not, ◌&&◌, Option, none, some, List, [], ◌∷◌, Result, ok, err, Text, codes,
  text_eq, lookup, starts_with, drop, as_bytes, is_some, if◌then◌else◌, is_empty_text,
}
use dsearch.Storage.Db.{record_count}
use dsearch.Api.Keys.{KeyCodec, RateLimitEntry, check_rate_limit, validate_key}
use dsearch.Api.Local.{reply}
use dsearch.Api.Local.Reads.{handle_health, handle_search, handle_get_record, handle_list_records}
use dsearch.Api.Platform.{Platform, StoreOf, Clock}
use dsearch.Api.Request.{HttpRequest, RequestError, parse_http_request, trim}
use dsearch.Api.Response.{HttpResponse, new, not_found, method_not_allowed}

-- `strip_prefix`
abbrev pub strip_bearer : Option Text → Option Text
strip_bearer none = none
strip_bearer (some auth) =
    if starts_with (codes "Bearer ") auth then some (trim (drop 7 auth)) else none

abbrev pub first_of : Option Text → Option Text → Option Text
first_of none other = other
first_of (some key) other = some key

unfoldable pub extract_api_key : HttpRequest → Option Text
extract_api_key req =
    first_of (strip_bearer (lookup (codes "authorization") req.headers))
      (lookup (codes "api_key") req.query)

-- The context of the gateway and what its connections share: the file of keys, the windows of the
-- rate limit, and the store.
pub record Gateway (P : Platform) : Type 0 where
  pub node_id : Text
  pub store : StoreOf P
  pub keys_file : Option Text
  pub rate_limits : List (Text × RateLimitEntry)
  pub rate_limit : ℕ
  pub require_key : Bool

abbrev pub identifier_of : Option Text → Text → Text
identifier_of none ip = ip
identifier_of (some key) ip = key

unfoldable pub too_many_requests : HttpResponse
too_many_requests =
    new 429 (codes "Too Many Requests")
      (as_bytes (codes "{\"error\":\"rate limit exceeded\",\"code\":429}"))

unfoldable pub unauthorized : Text → HttpResponse
unauthorized body = new 401 (codes "Unauthorized") (as_bytes body)

abbrev pub key_required : HttpResponse
key_required = unauthorized (codes "{\"error\":\"API key required\",\"code\":401}")

abbrev pub invalid_key : HttpResponse
invalid_key = unauthorized (codes "{\"error\":\"invalid API key\",\"code\":401}")

module _ (P : Platform) (C : KeyCodec) where
  -- The routes that only read; a search changes the cache.
  unfoldable pub gateway_route : HttpRequest → Text → StoreOf P → Clock → HttpResponse × StoreOf P
  gateway_route req node_id store clock =
      if text_eq req.path (codes "/health")
      then (handle_health P node_id, store)
      else if text_eq req.path (codes "/search")
      then handle_search P node_id req store clock
      else if text_eq req.path (codes "/records")
      then (handle_list_records P node_id req store, store)
      else if starts_with (codes "/record/") req.path
      then (handle_get_record P node_id req.path store, store)
      else if text_eq req.path (codes "/node")
      then (
        reply P node_id (
            (codes "node_id", P.json.string node_id)
            ∷ (codes "records", P.json.number (record_count P.redb store.db))
            ∷ []),
        store,
      )
      else (not_found P.json (codes "unknown route"), store)

  -- Whether a key that is given is valid; without one there is nothing to check.
  abbrev pub key_accepted : Option Text → Option Text → Bool
  key_accepted file none = true
  key_accepted file (some key) = validate_key C file key

  -- What follows when the rate limit lets the request through.
  unfoldable pub serve : Gateway P → Clock → Option Text → HttpRequest → HttpResponse × Gateway P
  serve g clock api_key req =
      if g.require_key && not (is_some api_key)
      then (key_required, g)
      else if not (key_accepted g.keys_file api_key)
      then (invalid_key, g)
      else if not (text_eq req.method (codes "GET"))
      then (method_not_allowed P.json (codes "gateway is read-only, only GET is allowed"), g)
      else (let (resp, store) = gateway_route req g.node_id g.store clock in
          (resp, record g { store = store }))

  -- One request: the windows are counted first.
  unfoldable pub handle_request : Gateway P → Clock → Text → HttpRequest → HttpResponse × Gateway P
  handle_request g clock ip req =
      let api_key = extract_api_key req in
      let (allowed, limits) =
        check_rate_limit g.rate_limits clock.now (identifier_of api_key ip) g.rate_limit in
      let counted : Gateway P = record g { rate_limits = limits } in
      if not allowed then (too_many_requests, counted) else serve counted clock api_key req

  -- One connection from this address, with the text of the bytes that its one read gave; a request
  -- that does not parse is an error, and nothing is written.
  unfoldable pub handle_gateway_connection :
      Gateway P → Clock → Text → Text → Result (Option HttpResponse) RequestError × Gateway P
  handle_gateway_connection g clock ip raw =
      if is_empty_text raw then (ok none, g) else elim (parse_http_request P.to_lowercase raw) [
        | err e ↦ (err e, g)
        | ok req ↦ let (resp, g') = handle_request g clock ip req in (ok (some resp), g')
      ]
