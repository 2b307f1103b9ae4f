-- ===== src/Crawler/Queue.antt =====
-- `getNextCrawlPage` of tlgs/crawler/crawler.cpp. The URLs that `getNextPotentialCarwlUrl` gives
-- one after the other are an argument, each with the answers that `shouldCrawl` gets for it.
pub mod Found
use tlgs.Common.{
  ℕ, ◌≡◌, refl, ap, ◌∙◌, sym, Bool, true, false, not, ◌&&◌, ◌||◌, List, [], ◌∷◌, ◌++◌, leb, ltb,
  Option, none, some, if◌then◌else◌, Bytes, any, all, bytes_eq, Bool-cases, Option-cases, inl, inr,
  arith, ◌⊎◌,
}
use mathlib.Core.List.{Mem}
use tlgs.Common.Decimal.{ℤ}
use tlgs.Crawler.Policy.{Timeouts, Answers, Outcome, should_crawl}
use tlgs.Url.{str}
use tlgs.Url.Parse.{parse}

-- `c < 0x20` on a signed char
abbrev pub is_below_space : ℕ → Bool
is_below_space c = ltb c 32 || leb 128 c

abbrev pub block_url :
    Bytes
    → Option (Option Bytes × Timeouts × List Bytes)
    → Option (Option Bytes × Timeouts × List Bytes)
block_url url_str none = none
block_url url_str (some (page, timeouts, blocked)) = some (page, timeouts, url_str ∷ blocked)

-- The page to crawl, the timeouts, and the URLs whose rows are set to "blocked". `none` is an
-- exception.
unfoldable pub get_next_crawl_page :
    (Bytes → Bytes → Bytes → Bytes)
    → ℤ
    → Timeouts
    → List (Bytes × Answers)
    → Option (Option Bytes × Timeouts × List Bytes)
get_next_crawl_page replace_all junk timeouts [] = some (none, timeouts, [])
get_next_crawl_page replace_all junk timeouts ((url_str, a) ∷ rest) =
    elim (any is_below_space url_str) [
      | true ↦ block_url url_str (get_next_crawl_page replace_all junk timeouts rest)
      | false ↦ elim (should_crawl replace_all junk timeouts a url_str) [
        | none ↦ none
        | some o ↦ elim o.should_crawl [
          | true ↦ some (some (str (parse junk true url_str)).0, o.timeouts, [])
          | false ↦ block_url url_str (get_next_crawl_page replace_all junk o.timeouts rest)
        ]
      ]
    ]
