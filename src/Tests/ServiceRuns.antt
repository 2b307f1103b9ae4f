-- ===== src/Tests/ServiceRuns.antt =====
-- `tlgs_search` and `backlinks` of tlgs/server/controllers/search.cpp.
use tlgs.Common.{
  ◌*◌, ◌≡◌, ◌≢◌, ◌⊎◌, inl, inr, refl, sym, ap, ◌∙◌, Bool, true, false, List, [], ◌∷◌, Option, none,
  some, if◌then◌else◌, Bytes, codes, length, bytes_eq, bytes_eq_iff, Bool-cases, Each, arith, map,
}
use tlgs.Common.Decimal.{pos, value_from, to_string_ℕ}
use tlgs.Counter
use tlgs.Search.{
  RankedResult, FilterConstraint, SearchFilter, no_filter, filtered_result, has_no_filter,
  eval_filter,
}
use tlgs.Search.Service.{
  Tools, admit, Search, hash_filter, raw_key, filtered_key, CacheMap, begin_search, finish_search,
  store_filtered, Service, arrive, arrives, resumes, resume, Reach, start, next,
}
use tlgs.Search.Service.Fresh.{IsCacheMap, AreDistinct, IsAnswer, Reach-answers}
use tlgs.Search.Service.Keys.{Remembers, twice, begin_search-twice}
use tlgs.Search.Shown.{PageRow, SearchResult, show_results}
use tlgs.Tests.UrlRuns.{run}
use tlgs.Search.Shown.Rows.{listed, IsFrom, show_results-rows}

abbrev pub looked_up : {V : Type 0} → Bytes → List (Bytes × V) → Option V
looked_up k [] = none
looked_up k ((k', v) ∷ entries) =
    let rest = looked_up k entries in if bytes_eq k k' then some v else rest

-- A cache that forgets everything when its timer goes.
abbrev pub entries : {V : Type 0} → CacheMap V
entries {V} = record {
  Cache = List (Bytes × V);
  fetch = λ k c. (looked_up k c, c);
  insert = λ k v n c. (k, v) ∷ c;
  expire = λ c. [];
  fresh = [];
}

looked_up-cons :
    {V : Type 0} (k k' : Bytes) (v v' : V) (c : List (Bytes × V))
    → looked_up k' ((k, v) ∷ c) ≡ some v'
    → ((k' ≡ k) × (v' ≡ v)) ⊎ (looked_up k' c ≡ some v')
looked_up-cons k k' v v' c h = elim (Bool-cases (bytes_eq k' k)) [
  | inl e ↦ inl ((bytes_eq_iff k' k).0 e, ground (arith, e, h))
  | inr e ↦ inr (ground (arith, e, h))
]

pub entries-IsCacheMap : {V : Type 0} → IsCacheMap (entries {V = V})
entries-IsCacheMap = record {
  fetched = λ k k' v c h. h;
  inserted = λ k k' v v' n c h. looked_up-cons k k' v v' c h;
  expired = λ k v c h. absurd (ground (arith, h));
  empty = λ k v h. ground (arith, h);
}

entries-Remembers : Remembers (entries {V = List RankedResult})
unfolding Remembers
entries-Remembers k v n c = rw ((bytes_eq_iff k k).1 refl) refl

abbrev tools : Tools
tools = record {
  hash_text = length;
  hash_size = λ n. n;
  fixed_random = 5;
  words_of = λ s. s ∷ [];
  scaled = λ text unit. some (value_from 0 text * unit);
  pow_of = λ n. 1;
  junk = pos 0;
}

abbrev b_org : FilterConstraint
b_org = record { value = codes "b.org"; negate = false }

abbrev only_b : SearchFilter
only_b = record { content_type = []; domain = b_org ∷ []; size = []; title = [] }

abbrev pick : Bool → Search
pick true = record { query_str = codes "cat"; filter = only_b }
pick false = record { query_str = codes "cat"; filter = no_filter }

abbrev Picked : Search → Type 0
Picked s = (b : Bool) × (s ≡ pick b)

pick-raw_key : (b b' : Bool) → raw_key tools (pick b).query_str ≢ filtered_key tools (pick b')
unfolding raw_key filtered_key hash_filter bytes_eq to_string_ℕ
pick-raw_key true true h = absurd (omega (arith, ap length h))
pick-raw_key true false h = absurd (omega (arith, ap length h))
pick-raw_key false true h = absurd (omega (arith, ap length h))
pick-raw_key false false h = absurd (omega (arith, ap length h))

pick-filtered_key :
    (b b' : Bool) → filtered_key tools (pick b) ≡ filtered_key tools (pick b') → pick b ≡ pick b'
unfolding raw_key filtered_key hash_filter bytes_eq to_string_ℕ
pick-filtered_key true true h = refl
pick-filtered_key true false h = absurd (ground (arith, h))
pick-filtered_key false true h = absurd (ground (arith, h))
pick-filtered_key false false h = refl

one_query : (b b' : Bool) → (pick b).query_str ≡ (pick b').query_str
one_query true true = refl
one_query true false = refl
one_query false true = refl
one_query false false = refl

Picked-AreDistinct : AreDistinct tools Picked
Picked-AreDistinct = record {
  raw = λ s s' (b, e) (b', e') h.
      ap (λ (x : Search). x.query_str) e
      ∙ one_query b b'
      ∙ sym (ap (λ (x : Search). x.query_str) e');
  filtered = λ s s' (b, e) (b', e') h.
      e
      ∙ pick-filtered_key b b' (sym (ap (filtered_key tools) e) ∙ h ∙ ap (filtered_key tools) e')
      ∙ sym e';
  apart = λ s s' (b, e) (b', e') h.
      pick-raw_key b b'
        (sym (ap (λ (x : Search). raw_key tools x.query_str) e) ∙ h ∙ ap (filtered_key tools) e');
}

abbrev item : Bytes → RankedResult
item url = record { url = url; content_type = codes "text/gemini"; size = 9; content_hash = 0 }

abbrev cats : List RankedResult
cats = item (codes "gemini://a.org/cat") ∷ item (codes "gemini://b.org/cat") ∷ []

abbrev Found : Bytes → List RankedResult → Type 0
Found query ranked = ranked ≡ cats

abbrev idle : Service (entries {V = List RankedResult})
idle = record { cache = []; waiting = []; answers = [] }

abbrev asked_once : Service (entries {V = List RankedResult})
asked_once = arrive tools entries idle (pick false)

abbrev searched : Service (entries {V = List RankedResult})
searched = resume tools entries asked_once (pick false) [] cats

abbrev asked_again : Service (entries {V = List RankedResult})
asked_again = arrive tools entries searched (pick true)

asked_once-waiting : asked_once.waiting ≡ pick false ∷ []
unfolding arrive begin_search
asked_once-waiting = refl

-- A search, its end, and another request for the query, with a filter.
history : Reach tools entries Picked Found asked_again
history =
    next
      (next (next start (arrives (pick false) (false, refl)))
        (resumes [] [] (pick false) cats asked_once-waiting refl))
      (arrives (pick true) (true, refl))

Reach-answers_example : Each (λ (s, results). IsAnswer tools Found s results) asked_again.answers
Reach-answers_example =
    Reach-answers tools entries Picked Found entries-IsCacheMap Picked-AreDistinct asked_again
      history

-- Is the search one without a filter?
abbrev is_unfiltered : Search → Bool
is_unfiltered s = has_no_filter s.filter

-- The second request has not waited, and is shown one result.
two_answers : map (λ (a : Search × List RankedResult). length a.1) asked_again.answers ≡ 1 ∷ 2 ∷ []
unfolding arrive resume begin_search finish_search store_filtered filtered_result has_no_filter
    eval_filter raw_key filtered_key hash_filter to_string_ℕ bytes_eq run
two_answers = refl

begin_search-twice_example :
    (begin_search tools entries
      (record { query_str = codes "cat"; filter = twice b_org })
      (finish_search tools entries
        (record { query_str = codes "cat"; filter = no_filter })
        cats
        []).1).0
    ≡ some cats
begin_search-twice_example =
    begin_search-twice tools entries (codes "cat") b_org cats [] entries-Remembers

abbrev row : Bytes → PageRow
row url = record {
  url = url;
  size = 9;
  title = codes "Cats";
  content_type = codes "text/gemini";
  preview = [];
  last_crawl_success_at = codes "now";
}

abbrev same_time : Bytes → Bytes
same_time s = s

show_results-rows_example :
    (map
        (λ (r : SearchResult). r.url)
        (show_results same_time (row (codes "gemini://b.org/cat") ∷ []) cats)
      ≡ listed (row (codes "gemini://b.org/cat") ∷ []) cats)
    × Each
        (IsFrom same_time (row (codes "gemini://b.org/cat") ∷ []))
        (show_results same_time (row (codes "gemini://b.org/cat") ∷ []) cats)
show_results-rows_example = show_results-rows same_time (row (codes "gemini://b.org/cat") ∷ []) cats

-- Beyond 64 requests in flight, and 576 of those sent away, the client waits for 512 seconds.
sent_away : (admit tools (record { in_flight = 65; backup_count = 577 })).0 ≡ some 512
unfolding admit Counter.acquire
sent_away = refl
