-- ===== src/Crawler/Queue/Found.antt =====
-- What `getNextCrawlPage` (tlgs/crawler/crawler.cpp) gives.
use tlgs.Common.{
  ◌≡◌, ap, sym, true, false, List, [], ◌∷◌, Option, none, some, Bytes, any, Bool-cases,
  Option-cases, inl, inr, arith,
}
use tlgs.Common.Decimal.{ℤ}
use tlgs.Crawler.Policy.{Timeouts, Answers, Outcome, should_crawl}
use tlgs.Crawler.Queue.{is_below_space, block_url, get_next_crawl_page}
use tlgs.Url.{str}
use tlgs.Url.Parse.{parse}

-- `page` is the text of the first URL of the queue that has only bytes from 0x20 to 0x7f and that
-- `shouldCrawl` lets through, where it is asked with the timeouts that the URLs before have left;
-- `blocked` is what stands in front of it, each of which fails one of the two tests.
pub data IsFound (replace_all : Bytes → Bytes → Bytes → Bytes) (junk : ℤ) (page : Bytes)
    : Timeouts → List (Bytes × Answers) → List Bytes → Type 0 where
  here :
      {timeouts : Timeouts} {url_str : Bytes} {a : Answers} {rest : List (Bytes × Answers)}
      (o : Outcome)
      → any is_below_space url_str ≡ false
      → should_crawl replace_all junk timeouts a url_str ≡ some o
      → o.should_crawl ≡ true
      → page ≡ (str (parse junk true url_str)).0
      → IsFound replace_all junk page timeouts ((url_str, a) ∷ rest) []
  bad_byte :
      {timeouts : Timeouts} {url_str : Bytes} {a : Answers} {rest : List (Bytes × Answers)}
      {blocked : List Bytes}
      → any is_below_space url_str ≡ true
      → IsFound replace_all junk page timeouts rest blocked
      → IsFound replace_all junk page timeouts ((url_str, a) ∷ rest) (url_str ∷ blocked)
  refused :
      {timeouts : Timeouts} {url_str : Bytes} {a : Answers} {rest : List (Bytes × Answers)}
      {blocked : List Bytes} (o : Outcome)
      → any is_below_space url_str ≡ false
      → should_crawl replace_all junk timeouts a url_str ≡ some o
      → o.should_crawl ≡ false
      → IsFound replace_all junk page o.timeouts rest blocked
      → IsFound replace_all junk page timeouts ((url_str, a) ∷ rest) (url_str ∷ blocked)

abbrev Result : Type 0
Result = Option (Option Bytes × Timeouts × List Bytes)

abbrev page_of : Result → Bytes
page_of (some (some page, t, blocked)) = page
page_of (some (none, t, blocked)) = []
page_of none = []

abbrev blocked_of : Result → List Bytes
blocked_of (some (p, t, blocked)) = blocked
blocked_of none = []

module _ (replace_all : Bytes → Bytes → Bytes → Bytes) (junk : ℤ) (page url_str : Bytes)
    (a : Answers) (rest : List (Bytes × Answers)) (before after : Timeouts) where
  blocked-IsFound :
      ((b : List Bytes)
        → IsFound replace_all junk page after rest b
        → IsFound replace_all junk page before ((url_str, a) ∷ rest) (url_str ∷ b))
      → (r : Result) (t' : Timeouts) (blocked : List Bytes)
      → ((t : Timeouts) (b : List Bytes)
          → r ≡ some (some page, t, b)
          → IsFound replace_all junk page after rest b)
      → block_url url_str r ≡ some (some page, t', blocked)
      → IsFound replace_all junk page before ((url_str, a) ∷ rest) blocked
  blocked-IsFound skip none t' blocked ih h = absurd (cc)
  blocked-IsFound skip (some (none, t, b)) t' blocked ih h = absurd (ground (arith, h))
  blocked-IsFound skip (some (some p, t, b)) t' blocked ih h =
      let e = ap page_of h in
      rw (sym (ap blocked_of h)) (skip b (ih t b (ap (λ (q : Bytes). some (some q, t, b)) e)))

-- A page that is given is the text of the first URL of the queue that has only bytes from 0x20 to
-- 0x7f and that `shouldCrawl` lets through; the URLs in front of it, and no other, are set to
-- "blocked", and each of those fails one of the two tests.
pub get_next_crawl_page-IsFound :
    (replace_all : Bytes → Bytes → Bytes → Bytes) (junk : ℤ) (timeouts : Timeouts)
    (queue : List (Bytes × Answers))
    → (page : Bytes) (t : Timeouts) (blocked : List Bytes)
    → get_next_crawl_page replace_all junk timeouts queue ≡ some (some page, t, blocked)
    → IsFound replace_all junk page timeouts queue blocked
unfolding get_next_crawl_page
get_next_crawl_page-IsFound replace_all junk timeouts [] page t blocked h =
    absurd (ground (arith, h))
get_next_crawl_page-IsFound replace_all junk timeouts ((url_str, a) ∷ rest) page t blocked h =
    elim (Bool-cases (any is_below_space url_str)) [
      | inl k ↦
          blocked-IsFound replace_all junk page url_str a rest timeouts timeouts
            (λ b found. bad_byte k found) (get_next_crawl_page replace_all junk timeouts rest) t
            blocked (λ t b e. get_next_crawl_page-IsFound replace_all junk timeouts rest page t b e)
            (ground (arith, h, k))
      | inr k ↦ elim (Option-cases (should_crawl replace_all junk timeouts a url_str)) [
        | inl e ↦ absurd (ground (arith, h, k, e))
        | inr (o, e) ↦ elim (Bool-cases o.should_crawl) [
          | inl c ↦
              let q : ◌≡◌ {A = Result}
                  (some (some (str (parse junk true url_str)).0, o.timeouts, []))
                  (some (some page, t, blocked)) =
                ground (arith, h, k, e, c) in
              rw (sym (ap blocked_of q)) (here o k e c (sym (ap page_of q)))
          | inr c ↦
              blocked-IsFound replace_all junk page url_str a rest timeouts o.timeouts
                (λ b found. refused o k e c found)
                (get_next_crawl_page replace_all junk o.timeouts rest) t blocked
                (λ t b e. get_next_crawl_page-IsFound replace_all junk o.timeouts rest page t b e)
                (ground (arith, h, k, e, c))
        ]
      ]
    ]
