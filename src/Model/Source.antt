-- ===== src/Model/Source.antt =====
-- `ScrapeSource` and its text form (src/model.rs).
use dsearch.Base.{Option, none, some, if◌then◌else◌, Text, codes, text_eq}

pub data ScrapeSource : Type 0 where
  url feed api keyword : ScrapeSource

unfoldable pub as_str : ScrapeSource → Text
as_str url = codes "url"
as_str feed = codes "feed"
as_str api = codes "api"
as_str keyword = codes "keyword"

unfoldable pub from_str : Text → Option ScrapeSource
from_str s =
    if text_eq s (codes "url")
    then some url
    else if text_eq s (codes "feed")
    then some feed
    else if text_eq s (codes "api")
    then some api
    else if text_eq s (codes "keyword")
    then some keyword
    else none
