-- ===== src/Api/Local/Peers.antt =====
-- The files of peers and of banned peers (src/api/handlers.rs). A file is its text, or `none` where
-- it does not exist; failures to read or write it are left out.
pub mod Banned
use dsearch.Base.{
  ℕ, Bool, true, false, not, Option, none, some, List, [], ◌∷◌, ◌++◌, map, ltb, Result, ok, err,
  Text, codes, text_eq, any, retain, length, if◌then◌else◌,
}
use dsearch.Api.Local.{reply, body_field, text_field}
use dsearch.Api.Platform.{Platform}
use dsearch.Api.Request.{HttpRequest}
use dsearch.Api.Response.{HttpResponse}

module _ (P : Platform) where
  abbrev pub Values : Type 0
  Values = List P.json.Value

  abbrev pub or_none : Option Values → Values
  or_none none = []
  or_none (some values) = values

  -- The values of a file; one that is missing or does not parse has none.
  unfoldable pub read_values : Option Text → Values
  read_values none = []
  read_values (some contents) = or_none (P.json.list_from_str contents)

  abbrev pub write_values : Values → Option Text
  write_values values = some (P.json.to_string_pretty (P.json.array values))

  abbrev pub is_text : Text → Option Text → Bool
  is_text t none = false
  is_text t (some u) = text_eq u t

  -- Whether a value is of this peer.
  unfoldable pub is_of : Text → P.json.Value → Bool
  is_of peer_id value = is_text peer_id (text_field P (codes "peer_id") value)

  abbrev pub peer_value : Text → P.json.Value
  peer_value peer_id = P.json.object ((codes "peer_id", P.json.string peer_id) ∷ [])

  -- The bans of the others.
  unfoldable pub unban : Text → Values → Values
  unban peer_id banned = retain (λ value. not (is_of peer_id value)) banned

  module _ (node_id : Text) where
    unfoldable pub handle_list_peers : Option Text → HttpResponse
    handle_list_peers peers_file =
        let peers = read_values peers_file in
        reply P node_id
          ((codes "peers", P.json.array peers) ∷ (codes "count", P.json.number (length peers)) ∷ [])

    unfoldable pub handle_add_peer : HttpRequest → Option Text → HttpResponse × Option Text
    handle_add_peer req peers_file = elim (body_field P req (codes "addr")) [
      | err resp ↦ (resp, peers_file)
      | ok addr ↦ (
        reply P node_id
            ((codes "ok", P.json.boolean true) ∷ (codes "added", P.json.string addr) ∷ []),
        write_values (
            read_values peers_file ++ P.json.object ((codes "addr", P.json.string addr) ∷ []) ∷ []),
      )
    ]

    unfoldable pub handle_ban_peer : HttpRequest → Option Text → HttpResponse × Option Text
    handle_ban_peer req banned_file = elim (body_field P req (codes "peer_id")) [
      | err resp ↦ (resp, banned_file)
      | ok peer_id ↦
          let banned = read_values banned_file in
          if any (is_of peer_id) banned
          then (
            reply P node_id (
                (codes "ok", P.json.boolean true)
                ∷ (codes "banned", P.json.string peer_id)
                ∷ (codes "already_banned", P.json.boolean true)
                ∷ []),
            banned_file,
          )
          else (
            reply P node_id
                ((codes "ok", P.json.boolean true) ∷ (codes "banned", P.json.string peer_id) ∷ []),
            write_values (banned ++ peer_value peer_id ∷ []),
          )
    ]

    abbrev pub unbanned_reply : Text → Bool → HttpResponse
    unbanned_reply peer_id was_banned = reply P node_id (
        (codes "ok", P.json.boolean true)
        ∷ (codes "unbanned", P.json.string peer_id)
        ∷ (codes "was_banned", P.json.boolean was_banned)
        ∷ [])

    -- The list without the bans of a peer is written, if there is a file.
    abbrev pub unban_in : Text → Option Text → HttpResponse × Option Text
    unban_in peer_id none = (unbanned_reply peer_id false, none)
    unban_in peer_id (some contents) =
        let banned = read_values (some contents) in
        let kept = unban peer_id banned in
        (unbanned_reply peer_id (ltb (length kept) (length banned)), write_values kept)

    unfoldable pub handle_unban_peer : HttpRequest → Option Text → HttpResponse × Option Text
    handle_unban_peer req banned_file = elim (body_field P req (codes "peer_id")) [
      | err resp ↦ (resp, banned_file)
      | ok peer_id ↦ unban_in peer_id banned_file
    ]

  -- Whether a peer is banned by the file.
  unfoldable pub is_banned : Text → Option Text → Bool
  is_banned peer_id banned_file = any (is_of peer_id) (read_values banned_file)
