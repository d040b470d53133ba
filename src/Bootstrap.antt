-- ===== src/Bootstrap.antt =====
-- The peers that a node starts from (src/bootstrap/resolver.rs, src/bootstrap/defaults.rs): the file
-- bootstrap.toml, the records of DNS, and those that are compiled in. TOML is that of the `toml`
-- crate, a parameter; a file is its text, or `none` where there is none.
pub mod Dns
use dsearch.Base.{
  ℕ, Bool, true, false, not, Option, none, some, List, [], ◌∷◌, ◌++◌, any, retain, length, ◌==◌,
  Result, ok, err, Text, codes, text_eq, if◌then◌else◌,
}

pub record BootstrapPeer : Type 0 where
  pub id : Text
  pub addr : Text
  pub note : Text

pub record BootstrapToml : Type 0 where
  pub use_defaults : Bool
  pub peers : List BootstrapPeer

pub record TomlCodec : Type 0 where
  pub from_str : Text → Option BootstrapToml
  pub to_string_pretty : BootstrapToml → Text

unfoldable pub default_bootstrap_peers : List BootstrapPeer
default_bootstrap_peers =
    record {
      id = codes "dsearch_bootstrap_us_east_1";
      addr = codes "bootstrap-us-east.dsearch.network:7744";
      note = codes "official bootstrap US-East";
    }
    ∷ record {
      id = codes "dsearch_bootstrap_eu_west_1";
      addr = codes "bootstrap-eu-west.dsearch.network:7744";
      note = codes "official bootstrap EU-West";
    }
    ∷ record {
      id = codes "dsearch_bootstrap_ap_east_1";
      addr = codes "bootstrap-ap-east.dsearch.network:7744";
      note = codes "official bootstrap AP-East";
    }
    ∷ []

abbrev pub has_id : Text → BootstrapPeer → Bool
has_id id p = text_eq p.id id

-- The peers whose ids are new, one after the other at the end.
unfoldable pub add_new : List BootstrapPeer → List BootstrapPeer → List BootstrapPeer
add_new [] peers = peers
add_new (p ∷ rest) peers = add_new rest (if any (has_id p.id) peers then peers else peers ++ p ∷ [])

-- The answer of the first server that gives one.
unfoldable pub resolve_dns_srv : List (Result (List BootstrapPeer) Text) → List BootstrapPeer
resolve_dns_srv [] = []
resolve_dns_srv (ok records ∷ rest) = records
resolve_dns_srv (err e ∷ rest) = resolve_dns_srv rest

abbrev pub no_peers : BootstrapToml
no_peers = record { use_defaults = true; peers = [] }

abbrev pub toml_or_default : Option BootstrapToml → BootstrapToml
toml_or_default none = no_peers
toml_or_default (some config) = config

module _ (T : TomlCodec) where
  -- What the file says; one that does not parse counts as none here.
  abbrev pub read_toml : Option Text → BootstrapToml
  read_toml none = no_peers
  read_toml (some contents) = toml_or_default (T.from_str contents)

  -- `answers` are those of the servers of DNS.
  unfoldable pub resolve_bootstrap_peers :
      Option Text → List (Result (List BootstrapPeer) Text) → List BootstrapPeer
  resolve_bootstrap_peers file answers =
      let config = read_toml file in
      if config.use_defaults
      then add_new default_bootstrap_peers (add_new (resolve_dns_srv answers) config.peers)
      else config.peers

  unfoldable pub write_bootstrap_peer : Option Text → Text → Text → Text → Text
  write_bootstrap_peer file id addr note =
      let config = read_toml file in
      T.to_string_pretty (record config {
        peers = config.peers ++ record { id = id; addr = addr; note = note } ∷ [];
      })

  unfoldable pub remove_bootstrap_peer : Option Text → Text → Bool × Option Text
  remove_bootstrap_peer none id = (false, none)
  remove_bootstrap_peer (some contents) id =
      let config = toml_or_default (T.from_str contents) in
      let kept = retain (λ p. not (has_id id p)) config.peers in
      if length kept == length config.peers
      then (false, some contents)
      else (true, some (T.to_string_pretty (record config { peers = kept })))
