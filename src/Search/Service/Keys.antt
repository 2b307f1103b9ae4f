-- ===== src/Search/Service/Keys.antt =====
-- The keys under which `tlgs_search` (tlgs/server/controllers/search.cpp) stores the results.
use Prim.Native.Nat.{bit_xor, bit_xor-bitwise, digits, differ}
use tlgs.Common.{ℕ, zero, suc, ◌/◌, ◌%◌, ◌≤◌, ◌≡◌, refl, ap, ◌∙◌, List, [], ◌∷◌, some, Bytes, arith}
use tlgs.Search.{
  RankedResult, FilterConstraint, SearchFilter, no_filter, has_no_filter, filtered_result,
}
use tlgs.Search.Service.{
  Tools, Search, hash_constraint, hash_filter, filtered_key, CacheMap, finish_search, begin_search,
  use_filtered, store_filtered,
}

differ_self : (d : ℕ) → differ d d ≡ 0
differ_self zero = refl
differ_self (suc d) = differ_self d

digits_self : (n a : ℕ) → a ≤ n → digits (λ b. b) differ n a a ≡ 0
digits_self zero a h = omega arith
digits_self (suc n) zero h = refl
digits_self (suc n) (suc a) h =
    rw (digits_self n (suc a / 2) (omega arith), differ_self (suc a % 2)) refl

bit_xor_self : (a : ℕ) → bit_xor a a ≡ 0
bit_xor_self a = (λ i. bit_xor-bitwise a a i) ∙ digits_self a a (omega arith)

bit_xor_zero : (a : ℕ) → bit_xor 0 a ≡ a
bit_xor_zero a = λ i. bit_xor-bitwise 0 a i

-- A filter that asks for one domain, twice.
abbrev pub twice : FilterConstraint → SearchFilter
twice c = record no_filter { domain = c ∷ c ∷ [] }

hash_filter-twice :
    (t : Tools) (c : FilterConstraint) → hash_filter t (twice c) ≡ hash_filter t no_filter
unfolding hash_filter
hash_filter-twice t c =
    rw (bit_xor_zero (hash_constraint t c), bit_xor_self (hash_constraint t c)) refl

filtered_key-twice :
    (t : Tools) (query_str : Bytes) (c : FilterConstraint)
    → filtered_key t (record { query_str = query_str; filter = twice c })
      ≡ filtered_key t (record { query_str = query_str; filter = no_filter })
unfolding filtered_key
filtered_key-twice t query_str c = rw (hash_filter-twice t c) refl

-- What a cache remembers for as long as a result is kept.
unfoldable pub Remembers : {V : Type 0} → CacheMap V → Type 0
Remembers {V} m =
    (k : Bytes) (v : V) (n : ℕ) (c : m.Cache) → (m.fetch k (m.insert k v n c)).0 ≡ some v

begin_search-found :
    (t : Tools) (m : CacheMap (List RankedResult)) (s : Search) (results : List RankedResult)
    (c : m.Cache)
    → (m.fetch (filtered_key t s) c).0 ≡ some results
    → (begin_search t m s c).0 ≡ some results
unfolding begin_search
begin_search-found t m s results c h =
    ap (λ o. (use_filtered t m s o (m.fetch (filtered_key t s) c).1).0) h

-- Whatever the hashes are, if the cache gives back what has just been inserted: right after a
-- search without a filter, the same query for one domain that is written twice is answered with the
-- results of every domain.
pub begin_search-twice :
    (t : Tools) (m : CacheMap (List RankedResult)) (query_str : Bytes) (c : FilterConstraint)
    (ranked : List RankedResult) (cache : m.Cache)
    → Remembers m
    → (begin_search t m
        (record { query_str = query_str; filter = twice c })
        (finish_search t m (record { query_str = query_str; filter = no_filter }) ranked cache).1).0
      ≡ some ranked
unfolding finish_search store_filtered filtered_result has_no_filter Remembers
begin_search-twice t m query_str c ranked cache keep =
    begin_search-found t m (record { query_str = query_str; filter = twice c }) ranked _
      (rw (filtered_key-twice t query_str c) (keep _ _ 600 _))
