-- ===== src/Tests/SupplyRuns.antt =====
-- `getNextPotentialCarwlUrl` of tlgs/crawler/crawler.cpp.
use tlgs.Common.{
  ℕ, ◌≡◌, refl, List, [], ◌∷◌, some, if◌then◌else◌, ltb, Bytes, codes, arith, contains,
}
use tlgs.Crawler.Supply.{
  Batch, urls, failed, Supply, Outcome, found, nothing, raised, Moment, at_end, take_batch, fill,
  next_url, alone,
}
use tlgs.Crawler.Supply.Enough.{IsShuffle, IsAnswering, Stems, next_url-enough}

abbrev unchanged : List Bytes → List Bytes
unchanged batch = batch

unchanged-IsShuffle : IsShuffle unchanged
unfolding IsShuffle
unchanged-IsShuffle batch p = refl

-- Only a sample of more than half of the pages has one to crawl.
abbrev rare : ℕ → ℕ → Batch
rare n pct = urls (if ltb 50 pct then codes "gemini://a.org/" ∷ [] else [])

rare-IsAnswering : IsAnswering rare
unfolding IsAnswering
rare-IsAnswering n pct = (if ltb 50 pct then codes "gemini://a.org/" ∷ [] else [], refl)

abbrev empty_queue : Supply
empty_queue = record { craw_queue = []; sample_pct = 1 }

next_url-enough_example :
    (o : Outcome) × (q' : Supply) × (next_url unchanged rare alone 12 0 empty_queue ≡ some (o, q'))
    × Stems rare [] o
next_url-enough_example =
    next_url-enough unchanged rare unchanged-IsShuffle rare-IsAnswering 0 empty_queue (omega arith)

found_at_last :
    next_url unchanged rare alone 12 0 empty_queue
    ≡ some (found (codes "gemini://a.org/"), record { craw_queue = []; sample_pct = 61 })
unfolding next_url fill take_batch
found_at_last = refl

-- Every query fails in the same way.
abbrev failing : Bytes → ℕ → ℕ → Batch
failing e n pct = failed e

raised_at_once :
    next_url unchanged (failing (codes "no connection")) alone 12 0 empty_queue
    ≡ some (raised (codes "no connection"), empty_queue)
unfolding next_url fill take_batch contains
raised_at_once = refl

-- Another task takes the only URL before the last look into the queue.
abbrev greedy : ℕ → Moment → Supply → Supply
greedy n at_end q = record q { craw_queue = [] }
greedy n _ q = q

taken_away :
    next_url unchanged rare greedy 12 0 empty_queue
    ≡ some (nothing, record { craw_queue = []; sample_pct = 61 })
unfolding next_url fill take_batch
taken_away = refl
