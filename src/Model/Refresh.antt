-- ===== src/Model/Refresh.antt =====
-- `RefreshPolicy` and its text form (src/model.rs).
use dsearch.Base.{Option, none, some, if◌then◌else◌, Text, codes, text_eq}

pub data RefreshPolicy : Type 0 where
  once interval on_change : RefreshPolicy

unfoldable pub as_str : RefreshPolicy → Text
as_str once = codes "once"
as_str interval = codes "interval"
as_str on_change = codes "on-change"

unfoldable pub from_str : Text → Option RefreshPolicy
from_str s =
    if text_eq s (codes "once")
    then some once
    else if text_eq s (codes "interval")
    then some interval
    else if text_eq s (codes "on-change")
    then some on_change
    else none
