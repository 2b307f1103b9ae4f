-- ===== src/Search/Service/Fresh.antt =====
-- The results that `tlgs_search` (tlgs/server/controllers/search.cpp) shows, from the cache or not.
use tlgs.Common.{
  ℕ, ◌≡◌, ◌≢◌, refl, sym, ◌∙◌, ◌⊎◌, inl, inr, List, ◌∷◌, ◌++◌, Option, none, some, Bytes, Each,
  Each-pick,
}
use mathlib.Core.Path.{subst}
use tlgs.Search.{RankedResult, filtered_result}
use tlgs.Search.Service.{
  Tools, Search, raw_key, filtered_key, CacheMap, store_filtered, finish_search, use_ranked,
  use_filtered, begin_search, Service, begun, arrive, resume, Step, arrives, resumes, expires,
  Reach, start, next,
}

-- A value that is found has been inserted under its key; reading and the timer add none.
pub record IsCacheMap {V : Type 0} (m : CacheMap V) : Type 0 where
  pub fetched :
      (k k' : Bytes) (v : V) (c : m.Cache)
      → (m.fetch k' (m.fetch k c).1).0 ≡ some v
      → (m.fetch k' c).0 ≡ some v
  pub inserted :
      (k k' : Bytes) (v v' : V) (n : ℕ) (c : m.Cache)
      → (m.fetch k' (m.insert k v n c)).0 ≡ some v'
      → ((k' ≡ k) × (v' ≡ v)) ⊎ ((m.fetch k' c).0 ≡ some v')
  pub expired :
      (k : Bytes) (v : V) (c : m.Cache)
      → (m.fetch k (m.expire c)).0 ≡ some v
      → (m.fetch k c).0 ≡ some v
  pub empty : (k : Bytes) (v : V) → (m.fetch k m.fresh).0 ≢ some v

-- The keys of the searches that are asked for tell them apart.
pub record AreDistinct (t : Tools) (Asked : Search → Type 0) : Type 0 where
  pub raw :
      (s s' : Search)
      → Asked s
      → Asked s'
      → raw_key t s.query_str ≡ raw_key t s'.query_str
      → s.query_str ≡ s'.query_str
  pub filtered :
      (s s' : Search) → Asked s → Asked s' → filtered_key t s ≡ filtered_key t s' → s ≡ s'
  pub apart : (s s' : Search) → Asked s → Asked s' → raw_key t s.query_str ≢ filtered_key t s'

-- The filtered results of a search for the query, done at some time.
pub IsAnswer : Tools → (Bytes → List RankedResult → Type 0) → Search → List RankedResult → Type 0
IsAnswer t Gives s results =
    (ranked : List RankedResult) × Gives s.query_str ranked
    × (results ≡ filtered_result t.junk s.filter ranked)

module _ (t : Tools) (m : CacheMap (List RankedResult)) (law : IsCacheMap m)
    (Asked : Search → Type 0) (Gives : Bytes → List RankedResult → Type 0)
    (keys : AreDistinct t Asked) where
  -- What may stand under a key.
  Stored : Bytes → List RankedResult → Type 0
  Stored k v =
      (s : Search) × Asked s
      × (((k ≡ raw_key t s.query_str) × Gives s.query_str v)
          ⊎ ((k ≡ filtered_key t s) × IsAnswer t Gives s v))

  Sound : m.Cache → Type 0
  Sound c = (k : Bytes) (v : List RankedResult) → (m.fetch k c).0 ≡ some v → Stored k v

  fetch-Sound : (k : Bytes) (c : m.Cache) → Sound c → Sound (m.fetch k c).1
  unfolding Sound
  fetch-Sound k c ok k' v h = ok k' v (law.fetched k k' v c h)

  insert-Sound :
      (k : Bytes) (v : List RankedResult) (n : ℕ) (c : m.Cache)
      → Stored k v
      → Sound c
      → Sound (m.insert k v n c)
  unfolding Sound
  insert-Sound k v n c st ok k' v' h = elim (law.inserted k k' v v' n c h) [
    | inl (a, b) ↦ rw (a, b) st
    | inr e ↦ ok k' v' e
  ]

  raw_value :
      (s : Search) (k : Bytes) (v : List RankedResult)
      → Asked s
      → k ≡ raw_key t s.query_str
      → Stored k v
      → Gives s.query_str v
  unfolding Stored
  raw_value s k v a e (s', a', inl (e', g)) = rw (keys.raw s s' a a' (sym e ∙ e')) g
  raw_value s k v a e (s', a', inr (e', g)) = absurd (keys.apart s s' a a' (sym e ∙ e'))

  filtered_value :
      (s : Search) (k : Bytes) (v : List RankedResult)
      → Asked s
      → k ≡ filtered_key t s
      → Stored k v
      → IsAnswer t Gives s v
  unfolding Stored
  filtered_value s k v a e (s', a', inl (e', g)) = absurd (keys.apart s' s a' a (sym e' ∙ e))
  filtered_value s k v a e (s', a', inr (e', g)) = rw (keys.filtered s s' a a' (sym e ∙ e')) g

  -- What an operation of the cache comes to.
  Outcome : Search → Option (List RankedResult) × m.Cache → Type 0
  Outcome s (none, c) = Sound c
  Outcome s (some results, c) = IsAnswer t Gives s results × Sound c

  store_filtered-Sound :
      (s : Search) (ranked : List RankedResult) (c : m.Cache)
      → Asked s
      → Gives s.query_str ranked
      → Sound c
      → IsAnswer t Gives s (store_filtered t m s ranked c).0
        × Sound (store_filtered t m s ranked c).1
  unfolding store_filtered Stored IsAnswer
  store_filtered-Sound s ranked c a g ok =
      let answer : IsAnswer t Gives s (filtered_result t.junk s.filter ranked) =
        (ranked, g, refl) in
      (
        answer,
        insert-Sound (filtered_key t s) (filtered_result t.junk s.filter ranked) 600 c
            (s, a, inr (refl, answer)) ok,
      )

  finish_search-Sound :
      (s : Search) (ranked : List RankedResult) (c : m.Cache)
      → Asked s
      → Gives s.query_str ranked
      → Sound c
      → IsAnswer t Gives s (finish_search t m s ranked c).0 × Sound (finish_search t m s ranked c).1
  unfolding finish_search Stored
  finish_search-Sound s ranked c a g ok =
      store_filtered-Sound s ranked (m.insert (raw_key t s.query_str) ranked 600 c) a g
        (insert-Sound (raw_key t s.query_str) ranked 600 c (s, a, inl (refl, g)) ok)

  use_ranked-sound :
      (s : Search) (o : Option (List RankedResult)) (c : m.Cache)
      → Asked s
      → ((v : List RankedResult) → o ≡ some v → Gives s.query_str v)
      → Sound c
      → Outcome s (use_ranked t m s o c)
  unfolding Outcome
  use_ranked-sound s none c a g ok = ok
  use_ranked-sound s (some ranked) c a g ok = store_filtered-Sound s ranked c a (g ranked refl) ok

  use_filtered-sound :
      (s : Search) (o : Option (List RankedResult)) (c : m.Cache)
      → Asked s
      → ((v : List RankedResult) → o ≡ some v → IsAnswer t Gives s v)
      → Sound c
      → Outcome s (use_filtered t m s o c)
  unfolding Outcome Sound
  use_filtered-sound s (some results) c a g ok = (g results refl, ok)
  use_filtered-sound s none c a g ok =
      use_ranked-sound s (m.fetch (raw_key t s.query_str) c).0 (m.fetch (raw_key t s.query_str) c).1
        a (λ v e. raw_value s (raw_key t s.query_str) v a refl (ok (raw_key t s.query_str) v e))
        (fetch-Sound (raw_key t s.query_str) c ok)

  begin_search-sound :
      (s : Search) (c : m.Cache) → Asked s → Sound c → Outcome s (begin_search t m s c)
  unfolding begin_search Sound
  begin_search-sound s c a ok =
      use_filtered-sound s (m.fetch (filtered_key t s) c).0 (m.fetch (filtered_key t s) c).1 a
        (λ v e. filtered_value s (filtered_key t s) v a refl (ok (filtered_key t s) v e))
        (fetch-Sound (filtered_key t s) c ok)

  -- The cache is right, those who wait have asked, and each answer is one for its search.
  record IsSound (st : Service m) : Type 0 where
    sound : Sound st.cache
    asked : Each Asked st.waiting
    right : Each (λ (s, results). IsAnswer t Gives s results) st.answers

  begun-IsSound :
      (st : Service m) (s : Search) (o : Option (List RankedResult)) (c : m.Cache)
      → Asked s
      → Outcome s (o, c)
      → IsSound st
      → IsSound (begun t m st s o c)
  unfolding Outcome
  begun-IsSound st s none c a ok i = record { sound = ok; asked = (a, i.asked); right = i.right }
  begun-IsSound st s (some results) c a (r, ok) i = record {
    sound = ok;
    asked = i.asked;
    right = (r, i.right);
  }

  resume-IsSound :
      (st : Service m) (before after : List Search) (s : Search) (ranked : List RankedResult)
      → st.waiting ≡ before ++ s ∷ after
      → Gives s.query_str ranked
      → IsSound st
      → IsSound (resume t m st s (before ++ after) ranked)
  unfolding resume
  resume-IsSound st before after s ranked w g i =
      let (a, rest) = Each-pick Asked before s after (subst (Each Asked) w i.asked) in
      let (r, ok) = finish_search-Sound s ranked st.cache a g i.sound in
      record { sound = ok; asked = rest; right = (r, i.right) }

  Step-IsSound : (st st' : Service m) → IsSound st → Step t m Asked Gives st st' → IsSound st'
  unfolding arrive Sound
  Step-IsSound st _ i (arrives s a) =
      begun-IsSound st s (begin_search t m s st.cache).0 (begin_search t m s st.cache).1 a
        (begin_search-sound s st.cache a i.sound) i
  Step-IsSound st _ i (resumes before after s ranked w g) =
      resume-IsSound st before after s ranked w g i
  Step-IsSound st _ i expires = record {
    sound = λ k v h. i.sound k v (law.expired k v st.cache h);
    asked = i.asked;
    right = i.right;
  }

  Reach-IsSound : (st : Service m) → Reach t m Asked Gives st → IsSound st
  unfolding Sound
  Reach-IsSound _ start = record {
    sound = λ k v h. absurd (law.empty k v h);
    asked = tt;
    right = tt;
  }
  Reach-IsSound _ (next {st} {st'} r step) = Step-IsSound st st' (Reach-IsSound st r) step

-- If the cache holds nothing but what is inserted, and the keys of the searches tell them apart: in
-- whatever order the requests arrive and go on, and entries are forgotten, each request is answered
-- with the filtered results of a search for its own query.
pub Reach-answers :
    (t : Tools) (m : CacheMap (List RankedResult)) (Asked : Search → Type 0)
    (Gives : Bytes → List RankedResult → Type 0)
    → IsCacheMap m
    → AreDistinct t Asked
    → (st : Service m) → Reach t m Asked Gives st
    → Each (λ (s, results). IsAnswer t Gives s results) st.answers
Reach-answers t m Asked Gives law keys st r = (Reach-IsSound t m law Asked Gives keys st r).right
