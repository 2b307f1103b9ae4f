-- ===== src/Crawler/Page/Requests.antt =====
-- What `crawlPage` (tlgs/crawler/crawler.cpp) requests.
use tlgs.Common.{◌≡◌, true, List}
use tlgs.Common.Decimal.{ℤ}
use tlgs.Crawler.Page.World.{Event, World, Setting}
use tlgs.Crawler.Page.Redirects.{text}
use tlgs.Crawler.Page.Quiet.{Quiet}
use tlgs.Crawler.Page.Granted.{is_granted}
use tlgs.Url.{Url}

module _ (unset : ℤ) (w : World) (p : Setting) (url : Url) where
  -- The page's own URL may be requested.
  abbrev Own : List Event → Type 0
  Own log = is_granted (text url) log ≡ true
