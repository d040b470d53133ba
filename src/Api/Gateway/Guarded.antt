-- ===== src/Api/Gateway/Guarded.antt =====
-- What the gateway lets through, and what it leaves as it was (src/api/gateway.rs).
use dsearch.Base.{
  ◌≤◌, ◌≡◌, ap, inl, inr, refl, true, false, not, ◌&&◌, Option, none, some, Text, codes, text_eq,
  text_eq_iff, lookup, starts_with, is_some, is_empty_text, arith, le→leb, Bool-cases, Result-cases,
  leb,
}
use dsearch.Api.Keys.{KeyCodec, check_rate_limit, validate_key}
use dsearch.Api.Keys.Rate.{current_entry-new_window}
use dsearch.Api.Local.Reads.{handle_search}
use dsearch.Api.Gateway.{
  Gateway, extract_api_key, identifier_of, too_many_requests, unauthorized, invalid_key,
  gateway_route, key_accepted, serve, handle_request, handle_gateway_connection,
}
use dsearch.Api.Platform.{Platform, StoreOf, Clock}
use dsearch.Api.Request.{HttpRequest, parse_http_request}
use dsearch.Api.Response.{new, method_not_allowed}
use dsearch.Storage.Store.Kept.{search_records-kept}

module _ (P : Platform) where
  -- The store with another cache.
  abbrev pub with_cache : StoreOf P → StoreOf P → StoreOf P
  with_cache s s' = record s { search_cache = s'.search_cache }

  -- The gateway with other windows and another cache.
  abbrev pub with_counts : Gateway P → Gateway P → Gateway P
  with_counts g g' = record g { rate_limits = g'.rate_limits; store = with_cache g.store g'.store }

  module _ (C : KeyCodec) where
    gateway_route-kept :
        (req : HttpRequest) (node_id : Text) (store : StoreOf P) (clock : Clock)
        → (gateway_route P C req node_id store clock).1
          ≡ with_cache store (gateway_route P C req node_id store clock).1
    unfolding gateway_route handle_search
    gateway_route-kept req node_id store clock =
        elim (Bool-cases (text_eq req.path (codes "/health"))) [
          | inl a ↦ rw (a, gateway_route) refl
          | inr a ↦ elim (Bool-cases (text_eq req.path (codes "/search"))) [
            | inl b ↦
                rw (a, b, gateway_route, handle_search)
                  (search_records-kept P.floats P.to_lowercase P.redb P.serde P.list_serde P.ed25519
                    store clock.instant clock.now _ _)
            | inr b ↦ elim (Bool-cases (text_eq req.path (codes "/records"))) [
              | inl c ↦ rw (a, b, c, gateway_route) refl
              | inr c ↦ elim (Bool-cases (starts_with (codes "/record/") req.path)) [
                | inl d ↦ rw (a, b, c, d, gateway_route) refl
                | inr d ↦ elim (Bool-cases (text_eq req.path (codes "/node"))) [
                  | inl e ↦ rw (a, b, c, d, e, gateway_route) refl
                  | inr e ↦ rw (a, b, c, d, e, gateway_route) refl
                ]
              ]
            ]
          ]
        ]

    serve-kept :
        (g : Gateway P) (clock : Clock) (api_key : Option Text) (req : HttpRequest)
        → (serve P C g clock api_key req).1 ≡ with_counts g (serve P C g clock api_key req).1
    unfolding serve
    serve-kept g clock api_key req = elim (Bool-cases (g.require_key && not (is_some api_key))) [
      | inl a ↦ rw (a, serve) refl
      | inr a ↦ elim (Bool-cases (not (key_accepted P C g.keys_file api_key))) [
        | inl b ↦ rw (a, b, serve) refl
        | inr b ↦ elim (Bool-cases (not (text_eq req.method (codes "GET")))) [
          | inl c ↦ rw (a, b, c, serve) refl
          | inr c ↦
              rw (a, b, c, serve)
                (ap (λ s. record g { store = s }) (gateway_route-kept req g.node_id g.store clock))
        ]
      ]
    ]

    handle_request-kept :
        (g : Gateway P) (clock : Clock) (ip : Text) (req : HttpRequest)
        → (handle_request P C g clock ip req).1
          ≡ with_counts g (handle_request P C g clock ip req).1
    unfolding handle_request
    handle_request-kept g clock ip req =
        let api_key = extract_api_key req in
        let checked =
          check_rate_limit g.rate_limits clock.now (identifier_of api_key ip) g.rate_limit in
        elim (Bool-cases (not checked.0)) [
          | inl a ↦ rw (a, handle_request) refl
          | inr a ↦
              rw (a, handle_request)
                (serve-kept (record g { rate_limits = checked.1 }) clock api_key req)
        ]

    -- Whatever is sent to the gateway, a connection changes the windows of the rate limit and the
    -- cache of searches and nothing else: the tables, the keys and the settings stay.
    pub handle_gateway_connection-kept :
        (g : Gateway P) (clock : Clock) (ip raw : Text)
        → (handle_gateway_connection P C g clock ip raw).1
          ≡ with_counts g (handle_gateway_connection P C g clock ip raw).1
    unfolding handle_gateway_connection
    handle_gateway_connection-kept g clock ip raw = elim (Bool-cases (is_empty_text raw)) [
      | inl a ↦ rw (a, handle_gateway_connection) refl
      | inr a ↦ elim (Result-cases (parse_http_request P.to_lowercase raw)) [
        | inl (req, b) ↦ rw (a, b, handle_gateway_connection) (handle_request-kept g clock ip req)
        | inr (e, b) ↦ rw (a, b, handle_gateway_connection) refl
      ]
    ]

    -- What a request that is served has shown.
    abbrev pub IsServed : Gateway P → HttpRequest → Type 0
    IsServed g req =
        (req.method ≡ codes "GET")
        × (key_accepted P C g.keys_file (extract_api_key req) ≡ true)
        × ((g.require_key && not (is_some (extract_api_key req))) ≡ false)

    serve-IsServed :
        (g : Gateway P) (clock : Clock) (req : HttpRequest)
        → (serve P C g clock (extract_api_key req) req).0.status ≡ 200
        → IsServed g req
    unfolding serve unauthorized method_not_allowed new
    serve-IsServed g clock req served =
        elim (Bool-cases (g.require_key && not (is_some (extract_api_key req)))) [
          | inl a ↦ absurd (ground (arith, rw (a, serve) at served))
          | inr a ↦ elim (Bool-cases (key_accepted P C g.keys_file (extract_api_key req))) [
            | inr b ↦ absurd (ground (arith, rw (a, b, serve) at served))
            | inl b ↦ elim (Bool-cases (text_eq req.method (codes "GET"))) [
              | inr c ↦ absurd (ground (arith, rw (a, b, c, serve) at served))
              | inl c ↦ ((text_eq_iff req.method (codes "GET")).0 c, b, a)
            ]
          ]
        ]

    -- A response of status 200 is only given to a request that the rate limit lets through, whose
    -- method is GET, whose key is valid if it has one, and which has one where a key is required.
    pub handle_request-IsServed :
        (g : Gateway P) (clock : Clock) (ip : Text) (req : HttpRequest)
        → (handle_request P C g clock ip req).0.status ≡ 200
        → ((check_rate_limit g.rate_limits clock.now
              (identifier_of (extract_api_key req) ip)
              g.rate_limit).0
            ≡ true)
          × IsServed g req
    unfolding handle_request too_many_requests new
    handle_request-IsServed g clock ip req served =
        let api_key = extract_api_key req in
        let checked =
          check_rate_limit g.rate_limits clock.now (identifier_of api_key ip) g.rate_limit in
        elim (Bool-cases checked.0) [
          | inr a ↦ absurd (ground (arith, rw (a, handle_request) at served))
          | inl a ↦ (
            a,
            serve-IsServed (record g { rate_limits = checked.1 }) clock req
                (rw (a, handle_request) at served),
          )
        ]

    -- Where the rate limit is at least 1, a request with an invalid key that has no window yet is
    -- answered with 401 at any time and from any address: the rate limit does not hold it back.
    pub handle_request_invented_key :
        (g : Gateway P) (clock : Clock) (ip key : Text) (req : HttpRequest)
        → extract_api_key req ≡ some key
        → lookup key g.rate_limits ≡ none
        → 1 ≤ g.rate_limit
        → validate_key C g.keys_file key ≡ false
        → (handle_request P C g clock ip req).0 ≡ invalid_key
    unfolding handle_request serve check_rate_limit
    handle_request_invented_key g clock ip key req given unseen some_rate invalid =
        let entry = current_entry-new_window g.rate_limits key g.rate_limit clock.now unseen in
        let passes : leb 1 g.rate_limit ≡ true = le→leb 1 g.rate_limit some_rate in
        rw (given, entry, passes, invalid, serve, handle_request) (ground arith)
