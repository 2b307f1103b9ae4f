-- ===== src/Crawler/Dispatch/Sound.antt =====
-- The invariant of the steps of `dispatchCrawl` (tlgs/crawler/crawler.cpp).
use tlgs.Common.{
  ℕ, suc, ◌+◌, ◌≤◌, ◌<◌, ◌≡◌, refl, sym, ap, ◌∙◌, Bool, true, false, not, ◌&&◌, ◌||◌, List, [], ◌∷◌,
  ◌++◌, ◌==◌, if◌then◌else◌, length, ltb, arith, Bool-cases, inl, inr,
}
use tlgs.Counter.{shared, acquire, release, destroy, fetch_sub, size_mod}
use tlgs.Crawler.Dispatch.{
  Phase, testing, fetching, crawling, Task, Crawler, enter, drop_task, exhaust, Step, calls, enters,
  refused, admitted, found, exhausts, fails, finishes, ends, gives_up, Reach, here, next, initial,
}

-- How many of the tasks pass the test.
abbrev pub count_if : (Task → Bool) → List Task → ℕ
count_if f [] = 0
count_if f (t ∷ ts) = if f t then suc (count_if f ts) else count_if f ts

-- Does the task fetch or crawl?
abbrev pub is_active : Task → Bool
is_active t = elim t.phase [ testing ↦ false | _ ↦ true ]

abbrev pub is_admissible : ℕ → Task → Bool
is_admissible n t = ltb t.counter.count n

abbrev pub has_counter : Task → Bool
has_counter t = elim t.counter.pointer [ shared ↦ true | _ ↦ false ]

-- Is the task without a counter, or active though it may not be?
abbrev pub is_bad : ℕ → Task → Bool
is_bad n t = not (has_counter t) || (is_active t && not (is_admissible n t))

unfoldable pub IsValid : ℕ → Crawler → Type 0
IsValid n s =
    (s.max_concurrent_connections ≡ n)
    × (s.ongoing_crawlings ≡ length s.tasks)
    × (s.ongoing_crawlings < size_mod)
    × (count_if (is_bad n) s.tasks ≡ 0)
    × (count_if (is_admissible n) s.tasks ≤ n)

length_insert :
    (before : List Task) (t : Task) (after : List Task)
    → length (before ++ t ∷ after) ≡ suc (length (before ++ after))
length_insert [] t after = refl
length_insert (x ∷ before) t after = ap suc (length_insert before t after)

count_if_insert :
    (f : Task → Bool) (before : List Task) (t : Task) (after : List Task)
    → count_if f (before ++ t ∷ after) ≡ count_if f (t ∷ before ++ after)
count_if_insert f [] t after = refl
count_if_insert f (x ∷ before) t after = ground (arith, count_if_insert f before t after)

count_if_le : (f : Task → Bool) (ts : List Task) → count_if f ts ≤ length ts
count_if_le f [] = omega arith
count_if_le f (t ∷ ts) = ground (arith, count_if_le f ts)

fetch_sub-suc : (n : ℕ) → suc n < size_mod → fetch_sub (suc n) ≡ n
fetch_sub-suc n h = omega arith

-- What a sound state with the task `t` says of `t` and of the other tasks.
pub split_facts :
    (n : ℕ) (s : Crawler) (before : List Task) (t : Task) (after : List Task)
    → s.tasks ≡ before ++ t ∷ after
    → IsValid n s
    → (s.ongoing_crawlings ≡ suc (length (before ++ after)))
      × (is_bad n t ≡ false)
      × (count_if (is_bad n) (before ++ after) ≡ 0)
      × (count_if (is_admissible n) (t ∷ before ++ after) ≤ n)
unfolding IsValid
split_facts n s before t after e (a, b, c, d, h) =
    let d' =
      sym (count_if_insert (is_bad n) before t after) ∙ ap (count_if (is_bad n)) (sym e) ∙ d in
    let h' = ap (count_if (is_admissible n)) e ∙ count_if_insert (is_admissible n) before t after in
    (
      b ∙ ap length e ∙ length_insert before t after,
      elim (Bool-cases (is_bad n t)) [ inl k ↦ absurd (ground arith) | inr k ↦ k ],
      ground arith,
      omega arith,
    )

destroy-shared :
    (n : ℕ) (t : Task) (k : ℕ)
    → is_bad n t ≡ false
    → suc k < size_mod
    → destroy t.counter (suc k) ≡ k
unfolding destroy
destroy-shared n t k h b = ground (arith, fetch_sub-suc k b)

drop_task-IsValid :
    (n : ℕ) (s : Crawler) (before : List Task) (t : Task) (after : List Task)
    → s.tasks ≡ before ++ t ∷ after
    → IsValid n s
    → IsValid n (drop_task s before t after)
unfolding IsValid drop_task
drop_task-IsValid n s before t after e v =
    let (a, b, c, d, h) = v in
    let (k, g, d', h') = split_facts n s before t after e v in
    let r =
      ap (destroy t.counter) k ∙ destroy-shared n t (length (before ++ after)) g (omega arith) in
    (a, r, omega arith, d', ground arith)

-- A task that goes from one phase to another.
move_on-IsValid :
    (n : ℕ) (s : Crawler) (before : List Task) (t : Task) (p : Phase) (after : List Task)
    → s.tasks ≡ before ++ t ∷ after
    → IsValid n s
    → is_bad n (record t { phase = p }) ≡ false
    → IsValid n (record s { tasks = before ++ record t { phase = p } ∷ after })
unfolding IsValid
move_on-IsValid n s before t p after e v g' =
    let (a, b, c, d, h) = v in
    let (k, g, d', h') = split_facts n s before t after e v in
    (
      a,
      k ∙ sym (length_insert before (record t { phase = p }) after),
      c,
      count_if_insert (is_bad n) before (record t { phase = p }) after ∙ ground arith,
      ground (arith, count_if_insert (is_admissible n) before (record t { phase = p }) after),
    )

pub exhaust-shared :
    (n : ℕ) (s : Crawler) (before : List Task) (t : Task) (after : List Task) (k : ℕ)
    → is_bad n t ≡ false
    → s.ongoing_crawlings ≡ suc k
    → suc k < size_mod
    → ((exhaust s before t after).ongoing_crawlings ≡ k)
      × ((exhaust s before t after).enders ≡ (if k == 1 then s.enders + 1 else s.enders))
unfolding exhaust release destroy
exhaust-shared n s before t after k g e b =
    let r = ap fetch_sub e ∙ fetch_sub-suc k b in (ground arith, ground arith)

exhaust_fields :
    (n : ℕ) (s : Crawler) (before : List Task) (t : Task) (after : List Task)
    → s.max_concurrent_connections ≡ n
    → (exhaust s before t after).ongoing_crawlings ≡ length (before ++ after)
    → (exhaust s before t after).ongoing_crawlings < size_mod
    → count_if (is_bad n) (before ++ after) ≡ 0
    → count_if (is_admissible n) (before ++ after) ≤ n
    → IsValid n (exhaust s before t after)
unfolding IsValid exhaust
exhaust_fields n s before t after a r c d h = (a, r, c, d, h)

exhaust-IsValid :
    (n : ℕ) (s : Crawler) (before : List Task) (t : Task) (after : List Task)
    → s.tasks ≡ before ++ t ∷ after
    → IsValid n s
    → IsValid n (exhaust s before t after)
unfolding IsValid
exhaust-IsValid n s before t after e v =
    let (a, b, c, d, h) = v in
    let (k, g, d', h') = split_facts n s before t after e v in
    let (r, q) = exhaust-shared n s before t after (length (before ++ after)) g k (omega arith) in
    exhaust_fields n s before t after a r (omega arith) d' (ground arith)

enter-IsValid :
    (n : ℕ) (s : Crawler) → IsValid n s → s.ongoing_crawlings + 1 < size_mod → IsValid n (enter s)
unfolding IsValid enter acquire
enter-IsValid n s (a, b, c, d, h) k =
    let l = count_if_le (is_admissible n) s.tasks in
    (a, ground (arith), omega arith, ground arith, ground arith)

initial-IsValid : (n : ℕ) → IsValid n (initial n)
unfolding IsValid initial
initial-IsValid n = (refl, refl, omega arith, refl, omega arith)

max_eq : (n : ℕ) (s : Crawler) → IsValid n s → s.max_concurrent_connections ≡ n
unfolding IsValid
max_eq n s (a, b, c, d, h) = a

pub size_bound :
    (n : ℕ) (s : Crawler) (k : ℕ) → s.ongoing_crawlings ≡ suc k → IsValid n s → suc k < size_mod
unfolding IsValid
size_bound n s k e (a, b, c, d, h) = omega arith

active_count :
    (n : ℕ) (s : Crawler) (before : List Task) (t : Task) (after : List Task)
    → s.tasks ≡ before ++ t ∷ after
    → IsValid n s
    → is_active t ≡ true
    → is_admissible n t ≡ true
active_count n s before t after e v h =
    let (k, g, d, i) = split_facts n s before t after e v in ground arith

-- The flags and the pending calls do not matter.
counts-IsValid :
    (n : ℕ) (s : Crawler) (b : Bool) (c e : ℕ)
    → IsValid n s
    → IsValid n (record s { ended = b; callers = c; enders = e })
unfolding IsValid
counts-IsValid n s b c e v = v

same-IsValid : (n : ℕ) {s s' : Crawler} → s' ≡ s → IsValid n s → IsValid n s'
same-IsValid n e v = rw e v

-- A task may go on to a phase that its counter allows.
active-allowed :
    (n : ℕ) (t : Task) (p : Phase)
    → is_bad n t ≡ false
    → is_admissible n t ≡ true
    → is_bad n (record t { phase = p }) ≡ false
active-allowed n t p g h = ground arith

Step-IsValid : {s s' : Crawler} (n : ℕ) → IsValid n s → Step s s' → IsValid n s'
Step-IsValid n v (calls h e) = same-IsValid n e (counts-IsValid n _ _ _ _ v)
Step-IsValid n v (enters h k e) = same-IsValid n e (enter-IsValid n _ v k)
Step-IsValid n v (refused before t after e p q r) =
    same-IsValid n r (drop_task-IsValid n _ before t after e v)
Step-IsValid {s} n v (admitted before t after e p q r) =
    let (k, g, d, h) = split_facts n s before t after e v in
    let m = max_eq n s v in
    same-IsValid n r (
      move_on-IsValid n s before t fetching after e v
        (active-allowed n t fetching g (ground arith)))
Step-IsValid {s} n v (found before t after e p r) =
    let (k, g, d, h) = split_facts n s before t after e v in
    same-IsValid n r (
      move_on-IsValid n s before t crawling after e v
        (active-allowed n t crawling g (ground arith)))
Step-IsValid n v (exhausts before t after e p r) =
    same-IsValid n r (exhaust-IsValid n _ before t after e v)
Step-IsValid n v (fails before t after e p r) =
    same-IsValid n r (drop_task-IsValid n _ before t after e v)
Step-IsValid n v (finishes before t after e p r) =
    same-IsValid n r (drop_task-IsValid n _ before t after e v)
Step-IsValid n v (ends h e) = same-IsValid n e (counts-IsValid n _ _ _ _ v)
Step-IsValid n v (gives_up h e) = same-IsValid n e (counts-IsValid n _ _ _ _ v)

pub Reach-IsValid : (n : ℕ) {s : Crawler} → Reach (initial n) s → IsValid n s
Reach-IsValid n here = initial-IsValid n
Reach-IsValid n (next r h) = Step-IsValid n (Reach-IsValid n r) h
