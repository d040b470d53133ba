-- ===== src/Model/Life.antt =====
-- `Lifecycle` and its text form (src/model.rs).
use dsearch.Base.{Option, none, some, if◌then◌else◌, Text, codes, text_eq}

pub data Lifecycle : Type 0 where
  ephemeral pinned : Lifecycle

unfoldable pub as_str : Lifecycle → Text
as_str ephemeral = codes "ephemeral"
as_str pinned = codes "pinned"

unfoldable pub from_str : Text → Option Lifecycle
from_str s =
    if text_eq s (codes "ephemeral")
    then some ephemeral
    else if text_eq s (codes "pinned")
    then some pinned
    else none
