-- ===== src/Crawler/Dispatch/Bound.antt =====
-- What `dispatchCrawl` (tlgs/crawler/crawler.cpp) keeps to, whatever the order of its threads'
-- steps.
use tlgs.Common.{ℕ, ◌+◌, ◌≤◌, ◌≡◌, ◌↔◌, List, [], ◌∷◌, ◌++◌, length, arith}
use tlgs.Crawler.Dispatch.{Task, Crawler, exhaust, Reach, initial}
use tlgs.Crawler.Dispatch.Sound.{
  count_if, is_active, IsValid, is_bad, is_admissible, split_facts, exhaust-shared, Reach-IsValid,
  size_bound,
}

active-le :
    (n : ℕ) (ts : List Task)
    → count_if (is_bad n) ts ≡ 0
    → count_if is_active ts ≤ count_if (is_admissible n) ts
active-le n [] h = omega arith
active-le n (t ∷ ts) h = ground (arith, active-le n ts)

bound_of :
    (n : ℕ) (s : Crawler)
    → IsValid n s
    → (count_if is_active s.tasks ≤ n) × (s.ongoing_crawlings ≡ length s.tasks)
unfolding IsValid
bound_of n s (a, b, c, d, h) = (omega (arith, active-le n s.tasks d), b)

-- Whatever the order of the threads' steps, at most `max_concurrent_connections` tasks fetch or
-- crawl at a time, and the counter holds the number of the tasks.
pub Reach-bound :
    {s : Crawler} (n : ℕ)
    → Reach (initial n) s
    → (count_if is_active s.tasks ≤ n) × (s.ongoing_crawlings ≡ length s.tasks)
Reach-bound {s} n r = bound_of n s (Reach-IsValid n r)

-- A task that finds no URL left makes the crawl end just if one OTHER task lives on: the last task
-- of all does not.
pub exhaust_other :
    (n : ℕ) {s : Crawler} (before : List Task) (t : Task) (after : List Task)
    → Reach (initial n) s
    → s.tasks ≡ before ++ t ∷ after
    → ((exhaust s before t after).enders ≡ s.enders + 1) ↔ (length (before ++ after) ≡ 1)
exhaust_other n {s} before t after r e =
    let v = Reach-IsValid n r in
    let (k, g, d, h) = split_facts n s before t after e v in
    let (_, q) =
      exhaust-shared n s before t after (length (before ++ after)) g k (size_bound n s _ k v) in
    (λ h. ground arith, λ h. ground arith)
