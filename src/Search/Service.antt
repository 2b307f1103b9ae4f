-- ===== src/Search/Service.antt =====
-- `tlgs_search` of tlgs/server/controllers/search.cpp, up to the list of results: the answer under
-- load, the reading of the query, and the cache of results, which the requests share. A request
-- that has to search waits for the database while others go on.
pub mod Keys
pub mod Fresh
pub mod Accounts
use Prim.Native.Nat.{bit_xor}
use tlgs.Common.{
  ℕ, ◌≡◌, ◌+◌, ◌*◌, Bool, true, false, List, [], ◌∷◌, ◌++◌, ltb, Option, none, some, if◌then◌else◌,
  Bytes, codes, is_empty, lower,
}
use tlgs.Common.Decimal.{ℤ, to_string_ℕ}
use tlgs.Counter.{acquire}
use tlgs.Search.{RankedResult, FilterConstraint, SizeConstraint, SearchFilter, filtered_result}
use tlgs.Search.Pages.{u64}
use tlgs.Search.Query.{parse_search_query}

-- std::hash for texts and sizes, the number drawn at the start, the words of a text by splitString,
-- std::stod times a unit, std::pow(2, n / 64.0) cut to a whole number, and what the variable of the
-- default port happens to hold.
pub record Tools : Type 0 where
  pub hash_text : Bytes → ℕ
  pub hash_size : ℕ → ℕ
  pub fixed_random : ℕ
  pub words_of : Bytes → List Bytes
  pub scaled : Bytes → ℕ → Option ℕ
  pub pow_of : ℕ → ℕ
  pub junk : ℤ

-- The requests in flight and those sent away since one has been let in.
pub record Load : Type 0 where
  pub in_flight : ℕ
  pub backup_count : ℕ

abbrev pub backoff : Tools → ℕ → ℕ
backoff t count = if ltb (9 * 64) count then 512 else t.pow_of count

-- The seconds after which the client may try again, or nothing if the request is let in. The count
-- of requests falls again where the handler returns.
unfoldable pub admit : Tools → Load → Option ℕ × Load
admit t load =
    let (counter, in_flight) = acquire load.in_flight in
    if ltb 64 counter.count
    then (
      some (backoff t load.backup_count),
      record { in_flight = load.in_flight; backup_count = u64 (load.backup_count + 1) },
    )
    else (none, record { in_flight = in_flight; backup_count = 0 })

pub record Search : Type 0 where
  pub query_str : Bytes
  pub filter : SearchFilter

abbrev as_search : Bytes × SearchFilter → Option Search
as_search (query_str, filter) =
    if is_empty (lower query_str)
    then none
    else some (record { query_str = lower query_str; filter = filter })

-- The search that is asked for: `some none` if the query is empty and the client is asked for one,
-- `none` for an exception.
unfoldable pub read_search : Tools → Bytes → Option (Option Search)
read_search t input = elim (parse_search_query t.scaled (t.words_of input)) [
  | none ↦ none
  | some parsed ↦ some (as_search parsed)
]

-- std::hash<FilterConstrant> and std::hash<SizeConstrant>
abbrev pub hash_constraint : Tools → FilterConstraint → ℕ
hash_constraint t fc = u64 (t.hash_text fc.value + (if fc.negate then 1 else 0))

abbrev pub hash_size_constraint : Tools → SizeConstraint → ℕ
hash_size_constraint t sc = u64 (t.hash_size sc.size + (if sc.greater then 1 else 0))

-- `hash ^= ...` over a list of constraints
abbrev pub xor_hashes {ℓ} : {A : Type ℓ} → (A → ℕ) → ℕ → List A → ℕ
xor_hashes h hash [] = hash
xor_hashes h hash (c ∷ cs) = xor_hashes h (bit_xor hash (h c)) cs

-- std::hash<SearchFilter>
unfoldable pub hash_filter : Tools → SearchFilter → ℕ
hash_filter t sf =
    let types = xor_hashes (hash_constraint t) 0 sf.content_type in
    let domains = xor_hashes (hash_constraint t) types sf.domain in
    let sizes = xor_hashes (hash_size_constraint t) domains sf.size in
    xor_hashes (hash_constraint t) sizes sf.title

unfoldable pub raw_key : Tools → Bytes → Bytes
raw_key t query_str =
    query_str ++ (codes "|" ++ to_string_ℕ (bit_xor (t.hash_text query_str) t.fixed_random))

unfoldable pub filtered_key : Tools → Search → Bytes
filtered_key t s =
    raw_key t s.query_str
    ++ (codes "|" ++ to_string_ℕ (bit_xor (hash_filter t s.filter) t.fixed_random))

-- drogon's CacheMap, with values of a type `V`: findAndFetch, insert for so many seconds, and what
-- its timer does.
pub record CacheMap (V : Type 0) : Type 1 where
  pub Cache : Type 0
  pub fetch : Bytes → Cache → Option V × Cache
  pub insert : Bytes → V → ℕ → Cache → Cache
  pub expire : Cache → Cache
  pub fresh : Cache

module _ (t : Tools) (m : CacheMap (List RankedResult)) where
  -- The filter is applied, and its results are stored.
  unfoldable pub store_filtered : Search → List RankedResult → m.Cache → List RankedResult × m.Cache
  store_filtered s ranked_result cache =
      let results = filtered_result t.junk s.filter ranked_result in
      (results, m.insert (filtered_key t s) results 600 cache)

  -- Behind `co_await pageSearch(query_str)`.
  unfoldable pub finish_search : Search → List RankedResult → m.Cache → List RankedResult × m.Cache
  finish_search s ranked_result cache =
      store_filtered s ranked_result (m.insert (raw_key t s.query_str) ranked_result 600 cache)

  -- What a request comes to with what is in the cache; without results it has to search.
  abbrev pub use_ranked :
      Search → Option (List RankedResult) → m.Cache → Option (List RankedResult) × m.Cache
  use_ranked s none cache = (none, cache)
  use_ranked s (some ranked_result) cache =
      let (results, cache') = store_filtered s ranked_result cache in (some results, cache')

  abbrev pub use_filtered :
      Search → Option (List RankedResult) → m.Cache → Option (List RankedResult) × m.Cache
  use_filtered s (some results) cache = (some results, cache)
  use_filtered s none cache =
      let (ranked_result, cache') = m.fetch (raw_key t s.query_str) cache in
      use_ranked s ranked_result cache'

  unfoldable pub begin_search : Search → m.Cache → Option (List RankedResult) × m.Cache
  begin_search s cache =
      let (results, cache') = m.fetch (filtered_key t s) cache in use_filtered s results cache'

-- The cache, the requests that wait for the database, and the results of those that have come to an
-- end.
pub record Service (m : CacheMap (List RankedResult)) : Type 0 where
  pub cache : m.Cache
  pub waiting : List Search
  pub answers : List (Search × List RankedResult)

module _ (t : Tools) (m : CacheMap (List RankedResult)) where
  abbrev pub begun : Service m → Search → Option (List RankedResult) → m.Cache → Service m
  begun st s none cache = record st { cache = cache; waiting = s ∷ st.waiting }
  begun st s (some results) cache = record st { cache = cache; answers = (s, results) ∷ st.answers }

  unfoldable pub arrive : Service m → Search → Service m
  arrive st s = let (results, cache) = begin_search t m s st.cache in begun st s results cache

  -- One of the waiting requests goes on with the result of its search.
  unfoldable pub resume : Service m → Search → List Search → List RankedResult → Service m
  resume st s rest ranked_result =
      let (results, cache) = finish_search t m s ranked_result st.cache in
      record { cache = cache; waiting = rest; answers = (s, results) ∷ st.answers }

  -- `Asked` are the searches that are asked for; `Gives query ranked` says that pageSearch gives
  -- these results for the query at some time.
  pub data Step (Asked : Search → Type 0) (Gives : Bytes → List RankedResult → Type 0)
      (st : Service m) : Service m → Type 0 where
    arrives : (s : Search) → Asked s → Step Asked Gives st (arrive st s)
    resumes :
        (before after : List Search) (s : Search) (ranked : List RankedResult)
        → st.waiting ≡ before ++ s ∷ after
        → Gives s.query_str ranked
        → Step Asked Gives st (resume st s (before ++ after) ranked)
    expires : Step Asked Gives st (record st { cache = m.expire st.cache })

-- The states after any steps, in any order, from the start of the server.
pub data Reach (t : Tools) (m : CacheMap (List RankedResult)) (Asked : Search → Type 0)
    (Gives : Bytes → List RankedResult → Type 0) : Service m → Type 0 where
  start : Reach t m Asked Gives (record { cache = m.fresh; waiting = []; answers = [] })
  next :
      {st st' : Service m}
      → Reach t m Asked Gives st
      → Step t m Asked Gives st st'
      → Reach t m Asked Gives st'
