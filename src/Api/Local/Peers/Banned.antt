-- ===== src/Api/Local/Peers/Banned.antt =====
-- Bans and their end (src/api/handlers.rs).
use dsearch.Base.{
  ◌≡◌, refl, ◌∙◌, inl, inr, true, false, not, ◌||◌, ◌&&◌, Option, none, some, List, [], ◌∷◌, ◌++◌,
  ok, Text, codes, text_eq, text_eq_iff, lookup, Option-cases, any, any-append, retain, Bool-cases,
  arith,
}
use dsearch.Api.Local.{body_field, text_field}
use dsearch.Api.Local.Peers.{
  read_values, write_values, is_of, peer_value, unban, handle_ban_peer, handle_unban_peer,
  is_banned,
}
use dsearch.Api.Platform.{Platform}
use dsearch.Api.Request.{HttpRequest}
use dsearch.Api.Response.{IsJson}

module _ (P : Platform) (json : IsJson P.json) where
  found : (v : P.json.Value) → lookup (codes "peer_id") ((codes "peer_id", v) ∷ []) ≡ some v
  unfolding lookup text_eq
  found v = refl

  is_of-peer_value : (q peer_id : Text) → is_of P q (peer_value P peer_id) ≡ text_eq peer_id q
  unfolding is_of
  is_of-peer_value q peer_id =
      let named : P.json.Value = P.json.string peer_id in
      let field : P.json.get (codes "peer_id") (peer_value P peer_id) ≡ some named =
        json.field_read (codes "peer_id") ((codes "peer_id", named) ∷ []) ∙ found named in
      rw (field, json.string_read peer_id, is_of) refl

  written : (values : List P.json.Value) → read_values P (write_values P values) ≡ values
  unfolding read_values
  written values = rw (json.list_read values) refl

  -- A value is of one peer.
  is_of_only :
      (q peer_id : Text) (v : P.json.Value)
      → is_of P peer_id v ≡ true
      → is_of P q v ≡ text_eq peer_id q
  unfolding is_of
  is_of_only q peer_id v h = elim (Option-cases (text_field P (codes "peer_id") v)) [
    | inl e ↦ absurd (ground (arith, rw (e, is_of) at h))
    | inr (u, e) ↦
        let same : u ≡ peer_id = (text_eq_iff u peer_id).0 (rw (e, is_of) at h) in
        rw (e, is_of) (rw same refl)
  ]

  any-unban :
      (q peer_id : Text) (values : List P.json.Value)
      → any (is_of P q) (unban P peer_id values)
        ≡ (not (text_eq peer_id q) && any (is_of P q) values)
  unfolding any unban retain
  any-unban q peer_id [] = ground arith
  any-unban q peer_id (v ∷ values) = elim (Bool-cases (is_of P peer_id v)) [
    | inl a ↦ rw a (ground (arith, is_of_only q peer_id v a, any-unban q peer_id values))
    | inr a ↦ elim (Bool-cases (text_eq peer_id q)) [
      | inl t ↦
          let same : peer_id ≡ q = (text_eq_iff peer_id q).0 t in
          let other : is_of P q v ≡ false = rw (← same) a in
          rw (a, t, other) (ground (arith, any-unban q peer_id values))
      | inr t ↦ rw (a, t) (ground (arith, any-unban q peer_id values))
    ]
  ]

  -- A peer whose ban is accepted is banned by the file that is left, and about other peers the file
  -- says what it said before.
  pub is_banned-handle_ban_peer :
      (node_id : Text) (req : HttpRequest) (file : Option Text) (peer_id q : Text)
      → body_field P req (codes "peer_id") ≡ ok peer_id
      → is_banned P q (handle_ban_peer P node_id req file).1
        ≡ (text_eq peer_id q || is_banned P q file)
  unfolding is_banned handle_ban_peer any
  is_banned-handle_ban_peer node_id req file peer_id q accepted =
      elim (Bool-cases (any (is_of P peer_id) (read_values P file))) [
        | inl already ↦ elim (Bool-cases (text_eq peer_id q)) [
          | inl t ↦
              let same : peer_id ≡ q = (text_eq_iff peer_id q).0 t in
              rw (accepted, already, t, handle_ban_peer) (rw (← same) already)
          | inr t ↦ rw (accepted, already, t, handle_ban_peer) refl
        ]
        | inr new ↦
            rw (accepted, new, handle_ban_peer)
              (rw
                (
                  written (read_values P file ++ peer_value P peer_id ∷ []),
                  any-append (is_of P q) (read_values P file) (peer_value P peer_id ∷ []),
                  is_of-peer_value q peer_id,
                )
                (ground arith))
      ]

  -- A peer whose unban is accepted is not banned by the file that is left, and about other peers
  -- the file says what it said before.
  pub is_banned-handle_unban_peer :
      (node_id : Text) (req : HttpRequest) (file : Option Text) (peer_id q : Text)
      → body_field P req (codes "peer_id") ≡ ok peer_id
      → is_banned P q (handle_unban_peer P node_id req file).1
        ≡ (not (text_eq peer_id q) && is_banned P q file)
  unfolding is_banned handle_unban_peer read_values any
  is_banned-handle_unban_peer node_id req none peer_id q accepted =
      rw (accepted, handle_unban_peer) (ground arith)
  is_banned-handle_unban_peer node_id req (some contents) peer_id q accepted =
      rw (accepted, handle_unban_peer, written (unban P peer_id (read_values P (some contents))))
        (any-unban q peer_id (read_values P (some contents)))
