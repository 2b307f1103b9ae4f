-- ===== src/Crawler/Supply.antt =====
-- `getNextPotentialCarwlUrl` of tlgs/crawler/crawler.cpp. The queue and the size of the sample are
-- shared: what the other tasks make of them before each access of this one, the database's answers,
-- and std::shuffle are arguments.
pub mod Enough
use tlgs.Common.{
  ℕ, zero, suc, ◌+◌, Bool, true, false, not, ◌&&◌, ◌||◌, List, [], ◌∷◌, ◌++◌, ltb, leb, ◌==◌,
  Option, none, some, if◌then◌else◌, Bytes, codes, length, contains,
}

-- The answer to a query: the addresses, or the text of the exception.
pub data Batch : Type 0 where
  urls : List Bytes → Batch
  failed : Bytes → Batch

pub record Supply : Type 0 where
  pub craw_queue : List Bytes
  pub sample_pct : ℕ

pub data Outcome : Type 0 where
  found : Bytes → Outcome
  nothing : Outcome
  raised : Bytes → Outcome

pub data Turn : Type 0 where
  again : Supply → Turn
  ends : Outcome → Supply → Turn

-- std::min(tablesample_pct + 10, 100)
abbrev pub larger_sample : ℕ → ℕ
larger_sample pct = if ltb 100 (pct + 10) then 100 else pct + 10

-- `urls.size() < urls_per_batch*0.9`, for 360 addresses in a batch; `pct` has been loaded before the
-- query, and the exchange fails if another task has changed the size since.
abbrev pub resample : ℕ → ℕ → Supply → Supply
resample n pct q =
    if ltb n 324 && q.sample_pct == pct then record q { sample_pct = larger_sample pct } else q

abbrev is_rollback : Bytes → Bool
is_rollback e = contains e (codes "deadlock") || contains e (codes "transaction")

-- The body of the loop, behind the answer to the query.
unfoldable pub take_batch : (List Bytes → List Bytes) → ℕ → Supply → Batch → Turn
take_batch shuffle pct q (urls batch) =
    let q' = resample (length batch) pct q in
    if length batch == 0 && leb 100 pct
    then ends nothing q'
    else again (record q' { craw_queue = q'.craw_queue ++ shuffle batch })
take_batch shuffle pct q (failed e) = if not (is_rollback e) then ends (raised e) q else again q

-- When the others act: before the first `try_pop`, before the condition of the loop, while the
-- query runs, and before the last `try_pop`.
pub data Moment : Type 0 where
  at_start at_loop in_query at_end : Moment

-- `try_pop`, and else what follows.
abbrev pub pop_or : Supply → Option (Outcome × Supply) → Option (Outcome × Supply)
pop_or q rest = elim q.craw_queue [
  | url ∷ urls' ↦ some (found url, record q { craw_queue = urls' })
  | [] ↦ rest
]

-- `answers` gives the answer to the n-th query, which is for a sample of so many percent.
module _ (shuffle : List Bytes → List Bytes) (answers : ℕ → ℕ → Batch)
    (others : ℕ → Moment → Supply → Supply) where
  -- The last `try_pop`: another task may have emptied the queue again.
  abbrev pub pop_last : ℕ → Supply → Option (Outcome × Supply)
  pop_last n q = let q' = others n at_end q in pop_or q' (some (nothing, q'))

  unfoldable pub fill : ℕ → ℕ → Supply → Option (Outcome × Supply)
  fill zero n q = none
  fill (suc fuel) n q =
      let pct = (others n at_loop q).sample_pct in
      elim (others n at_loop q).craw_queue [
        | url ∷ rest ↦ pop_last n (others n at_loop q)
        | [] ↦
            elim (take_batch shuffle pct (others n in_query (others n at_loop q)) (answers n pct)) [
              | again q' ↦ fill fuel (suc n) q'
              | ends o q' ↦ some (o, q')
            ]
      ]

  unfoldable pub next_url : ℕ → ℕ → Supply → Option (Outcome × Supply)
  next_url fuel n q = let q' = others n at_start q in let rest = fill fuel n q' in pop_or q' rest

-- No other task changes the queue or the sample.
abbrev pub alone : ℕ → Moment → Supply → Supply
alone n moment q = q
