-- ===== src/Search/Service/Accounts.antt =====
-- What becomes of the requests of `tlgs_search` (tlgs/server/controllers/search.cpp).
use tlgs.Common.{ℕ, ◌+◌, Bool, List, [], ◌∷◌, if◌then◌else◌, Bytes, map}
use tlgs.Search.{RankedResult}
use tlgs.Search.Service.{
  Tools, Search, CacheMap, Service, Reach, arrives, resumes, expires, start, next,
}

-- How many of the searches have a property.
abbrev pub tally : (Search → Bool) → List Search → ℕ
tally p [] = 0
tally p (s ∷ ss) = (if p s then 1 else 0) + tally p ss

-- The searches that have been answered, the last one first.
abbrev pub answered : {m : CacheMap (List RankedResult)} → Service m → List Search
answered st = map (λ (a : Search × List RankedResult). a.0) st.answers

-- The searches of the requests that have arrived on the way to a state, the last one first.
pub arrived :
    {t : Tools} {m : CacheMap (List RankedResult)} {Asked : Search → Type 0}
    {Gives : Bytes → List RankedResult → Type 0} {st : Service m}
    → Reach t m Asked Gives st
    → List Search
arrived start = []
arrived (next r (arrives s a)) = s ∷ arrived r
arrived (next r (resumes before after s ranked w g)) = arrived r
arrived (next r expires) = arrived r

module _ (t : Tools) (m : CacheMap (List RankedResult)) (Asked : Search → Type 0)
    (Gives : Bytes → List RankedResult → Type 0) (p : Search → Bool) where
  -- Those that wait and those that have been answered.
  abbrev known : Service m → ℕ
  known st = tally p st.waiting + tally p (answered st)
