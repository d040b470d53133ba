-- ===== src/Node/Roles.antt =====
-- The roles of a node (src/node/roles.rs).
use dsearch.Base.{◌≡◌, refl, Option, none, some, if◌then◌else◌, Text, codes, text_eq}

pub data NodeRole : Type 0 where
  light full bootstrap relay stun scraper archive indexer gateway observer : NodeRole

unfoldable pub as_str : NodeRole → Text
as_str light = codes "light"
as_str full = codes "full"
as_str bootstrap = codes "bootstrap"
as_str relay = codes "relay"
as_str stun = codes "stun"
as_str scraper = codes "scraper"
as_str archive = codes "archive"
as_str indexer = codes "indexer"
as_str gateway = codes "gateway"
as_str observer = codes "observer"

unfoldable pub from_str : Text → Option NodeRole
from_str s =
    if text_eq s (codes "light")
    then some light
    else if text_eq s (codes "full")
    then some full
    else if text_eq s (codes "bootstrap")
    then some bootstrap
    else if text_eq s (codes "relay")
    then some relay
    else if text_eq s (codes "stun")
    then some stun
    else if text_eq s (codes "scraper")
    then some scraper
    else if text_eq s (codes "archive")
    then some archive
    else if text_eq s (codes "indexer")
    then some indexer
    else if text_eq s (codes "gateway")
    then some gateway
    else if text_eq s (codes "observer")
    then some observer
    else none

pub from_str-as_str : (r : NodeRole) → from_str (as_str r) ≡ some r
unfolding from_str as_str text_eq
from_str-as_str light = refl
from_str-as_str full = refl
from_str-as_str bootstrap = refl
from_str-as_str relay = refl
from_str-as_str stun = refl
from_str-as_str scraper = refl
from_str-as_str archive = refl
from_str-as_str indexer = refl
from_str-as_str gateway = refl
from_str-as_str observer = refl
