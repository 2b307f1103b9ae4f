-- ===== src/Crawler/Dispatch.antt =====
-- `dispatchCrawl` of tlgs/crawler/crawler.cpp, with the counter `ongoing_crawlings_` and the flag
-- `ended_`, and the end of `awaitEnd` in tlgs/crawler/crawler.hpp. The event loops' threads
-- interleave at the operations on the two atomics. Each live task holds one Counter (that several
-- `shared_ptr`s share); there are fewer than 2^64 tasks, and `max_concurrent_connections_` does
-- not change during a crawl.
pub mod Sound
pub mod Bound
use tlgs.Common.{
  ℕ, suc, ◌+◌, ◌-◌, ◌≤◌, ◌<◌, ◌≡◌, Bool, true, false, ◌||◌, List, [], ◌∷◌, ◌++◌, ◌==◌,
  if◌then◌else◌,
}
use tlgs.Counter.{Counter, acquire, release, destroy, fetch_sub, size_mod}

-- Before the test of `counter->count()`, in `getNextCrawlPage`, and in `crawlPage`.
pub data Phase : Type 0 where
  testing fetching crawling : Phase

pub record Task : Type 0 where
  pub counter : Counter
  pub phase : Phase

pub record Crawler : Type 0 where
  pub max_concurrent_connections : ℕ
  pub ongoing_crawlings : ℕ
  pub ended : Bool
  -- calls of `dispatchCrawl` that have read `ended_` as false and not taken a counter yet
  pub callers : ℕ
  -- tasks whose release gave 1 and that have not set `ended_` yet
  pub enders : ℕ
  pub tasks : List Task

-- One of the calls takes its counter.
unfoldable pub enter : Crawler → Crawler
enter s =
    let (c, n) = acquire s.ongoing_crawlings in
    record s {
      ongoing_crawlings = n;
      callers = s.callers - 1;
      tasks = record { counter = c; phase = testing } ∷ s.tasks;
    }

abbrev in_phase : Task → Phase → Task
in_phase t p = record t { phase = p }

-- The task goes away and its counter is destroyed.
unfoldable pub drop_task : Crawler → List Task → Task → List Task → Crawler
drop_task s before t after = record s {
  ongoing_crawlings = destroy t.counter s.ongoing_crawlings;
  tasks = before ++ after;
}

-- No URL is left: `if(counter->release() == 1) ended_ = true`. The released counter has nothing
-- left to destroy.
unfoldable pub exhaust : Crawler → List Task → Task → List Task → Crawler
exhaust s before t after =
    let (c, n, left) = release t.counter s.ongoing_crawlings in
    record s {
      ongoing_crawlings = destroy c n;
      enders = if left == 1 then s.enders + 1 else s.enders;
      tasks = before ++ after;
    }

-- One step of any of the threads.
pub data Step (s : Crawler) : Crawler → Type 0 where
  -- from `crawlAll`, `awaitEnd`, or the loop's queue
  calls : {s' : Crawler} → s.ended ≡ false → s' ≡ record s { callers = s.callers + 1 } → Step s s'
  enters :
      {s' : Crawler} → 1 ≤ s.callers → s.ongoing_crawlings + 1 < size_mod → s' ≡ enter s → Step s s'
  refused :
      {s' : Crawler} (before : List Task) (t : Task) (after : List Task)
      → s.tasks ≡ before ++ t ∷ after
      → t.phase ≡ testing
      → s.max_concurrent_connections ≤ t.counter.count
      → s' ≡ drop_task s before t after
      → Step s s'
  admitted :
      {s' : Crawler} (before : List Task) (t : Task) (after : List Task)
      → s.tasks ≡ before ++ t ∷ after
      → t.phase ≡ testing
      → t.counter.count < s.max_concurrent_connections
      → s' ≡ record s { tasks = before ++ in_phase t fetching ∷ after }
      → Step s s'
  found :
      {s' : Crawler} (before : List Task) (t : Task) (after : List Task)
      → s.tasks ≡ before ++ t ∷ after
      → t.phase ≡ fetching
      → s' ≡ record s { tasks = before ++ in_phase t crawling ∷ after }
      → Step s s'
  exhausts :
      {s' : Crawler} (before : List Task) (t : Task) (after : List Task)
      → s.tasks ≡ before ++ t ∷ after
      → t.phase ≡ fetching
      → s' ≡ exhaust s before t after
      → Step s s'
  -- `getNextCrawlPage` throws: the exception handler dispatches anew, and the task ends.
  fails :
      {s' : Crawler} (before : List Task) (t : Task) (after : List Task)
      → s.tasks ≡ before ++ t ∷ after
      → t.phase ≡ fetching
      → s' ≡ drop_task s before t after
      → Step s s'
  finishes :
      {s' : Crawler} (before : List Task) (t : Task) (after : List Task)
      → s.tasks ≡ before ++ t ∷ after
      → t.phase ≡ crawling
      → s' ≡ drop_task s before t after
      → Step s s'
  ends :
      {s' : Crawler}
      → 1 ≤ s.enders
      → s' ≡ record s { ended = true; enders = s.enders - 1 }
      → Step s s'
  -- the fifth time in a row that `awaitEnd` sees no crawl
  gives_up : {s' : Crawler} → s.ongoing_crawlings ≡ 0 → s' ≡ record s { ended = true } → Step s s'

pub data Reach (s : Crawler) : Crawler → Type 0 where
  here : Reach s s
  next : {t u : Crawler} → Reach s t → Step t u → Reach s u

unfoldable pub initial : ℕ → Crawler
initial n = record {
  max_concurrent_connections = n;
  ongoing_crawlings = 0;
  ended = false;
  callers = 0;
  enders = 0;
  tasks = [];
}
