-- ===== src/Server/Api/Own.antt =====
-- The answers of tlgs/server/controllers/api.cpp through the shared cache.
use tlgs.Common.{
  ◌≡◌, inl, inr, refl, sym, ap, ◌∙◌, true, false, List, [], ◌∷◌, ◌*◌, Option, none, some, Bytes,
  codes, length, bytes_eq, Each, Bool-cases, arith,
}
use tlgs.Common.Decimal.{ℤ}
use tlgs.Search.Service.{CacheMap}
use tlgs.Search.Service.Fresh.{IsCacheMap}
use tlgs.Server.Api.{
  Json, strings, Database, Call, known_hosts, known_feeds, known_security_txt,
  known_perma_redirects, feed_type, is_allowed, fresh_json, key_of, is_valid, cached_or, serve,
  handle, Event, request, timer, run,
}

-- A key that is no feed type is not that of a list of feeds.
no_feeds : (key type : Bytes) → key ≡ type → is_allowed key ≡ false → is_allowed type ≡ true → ⊥
no_feeds key type e h k = ground (arith, ap is_allowed e, h, k)

-- Two valid calls with one key are answered alike.
same_key :
    (junk : ℤ) (db : Database) (c c' : Call)
    → is_valid c ≡ true
    → is_valid c' ≡ true
    → key_of c ≡ key_of c'
    → fresh_json junk db c ≡ fresh_json junk db c'
unfolding fresh_json key_of is_valid is_allowed bytes_eq
same_key junk db (known_feeds q) (known_feeds q') v v' e = ap (λ t. strings (db.feeds t)) e
same_key junk db known_hosts known_hosts v v' e = refl
same_key junk db known_hosts known_security_txt v v' e = absurd (omega (arith, ap length e))
same_key junk db known_hosts known_perma_redirects v v' e = absurd (omega (arith, ap length e))
same_key junk db known_hosts (known_feeds q) v v' e =
    absurd (no_feeds (codes "hosts") (feed_type q) e refl v')
same_key junk db (known_feeds q) known_hosts v v' e =
    absurd (no_feeds (codes "hosts") (feed_type q) (sym e) refl v)
same_key junk db known_security_txt known_hosts v v' e = absurd (omega (arith, ap length e))
same_key junk db known_security_txt known_security_txt v v' e = refl
same_key junk db known_security_txt known_perma_redirects v v' e =
    absurd (omega (arith, ap length e))
same_key junk db known_security_txt (known_feeds q) v v' e =
    absurd (no_feeds (codes "security_txt") (feed_type q) e refl v')
same_key junk db (known_feeds q) known_security_txt v v' e =
    absurd (no_feeds (codes "security_txt") (feed_type q) (sym e) refl v)
same_key junk db known_perma_redirects known_hosts v v' e = absurd (omega (arith, ap length e))
same_key junk db known_perma_redirects known_security_txt v v' e =
    absurd (omega (arith, ap length e))
same_key junk db known_perma_redirects known_perma_redirects v v' e = refl
same_key junk db known_perma_redirects (known_feeds q) v v' e =
    absurd (no_feeds (codes "perma_redirects") (feed_type q) e refl v')
same_key junk db (known_feeds q) known_perma_redirects v v' e =
    absurd (no_feeds (codes "perma_redirects") (feed_type q) (sym e) refl v)

-- What a call would be answered with at one of the times that `Seen` holds of.
pub IsOwn : ℤ → (Database → Type 0) → Call → Option Json → Type 0
IsOwn junk Seen call none = is_valid call ≡ false
IsOwn junk Seen call (some json) =
    (db : Database) × Seen db × (is_valid call ≡ true) × (json ≡ fresh_json junk db call)

-- The databases of the requests.
unfoldable pub AllSeen : (Database → Type 0) → List Event → Type 0
AllSeen Seen [] = Unit {0}
AllSeen Seen (timer ∷ events) = AllSeen Seen events
AllSeen Seen (request db call ∷ events) = Seen db × AllSeen Seen events

module _ (m : CacheMap Json) (law : IsCacheMap m) (junk : ℤ) (Seen : Database → Type 0) where
  -- Under each key there is what a valid call with this key has been answered with.
  Sound : m.Cache → Type 0
  Sound cache =
      (k : Bytes) (json : Json)
      → (m.fetch k cache).0 ≡ some json
      → (call : Call) × (k ≡ key_of call) × IsOwn junk Seen call (some json)

  Served : Call → Json × m.Cache → Type 0
  Served call (json, cache) = IsOwn junk Seen call (some json) × Sound cache

  cached_or-Served :
      (db : Database) (call : Call) (found : Option Json) (cache : m.Cache)
      → Seen db
      → is_valid call ≡ true
      → ((json : Json) → found ≡ some json → IsOwn junk Seen call (some json))
      → Sound cache
      → Served call (cached_or m junk (key_of call) (fresh_json junk db call) found cache)
  unfolding Served Sound IsOwn
  cached_or-Served db call (some json) cache s v h ok = (h json refl, ok)
  cached_or-Served db call none cache s v h ok = ((db, s, v, refl), kept)
    where
      kept : Sound (m.insert (key_of call) (fresh_json junk db call) (3600 * 8) cache)
      kept k json e =
          elim (law.inserted (key_of call) k (fresh_json junk db call) json (3600 * 8) cache e) [
            | inl (a, b) ↦ (call, a, (db, s, v, b))
            | inr old ↦ ok k json old
          ]

  found-IsOwn :
      (call : Call) (cache : m.Cache) (json : Json)
      → is_valid call ≡ true
      → Sound cache
      → (m.fetch (key_of call) cache).0 ≡ some json
      → IsOwn junk Seen call (some json)
  unfolding Sound IsOwn
  found-IsOwn call cache json v ok e =
      let (call', k, (db, s, v', own)) = ok (key_of call) json e in
      (db, s, v, own ∙ same_key junk db call' call v' v (sym k))

  serve-Served :
      (db : Database) (call : Call) (cache : m.Cache)
      → Seen db
      → is_valid call ≡ true
      → Sound cache
      → Served call (serve m junk db call cache)
  unfolding serve Sound
  serve-Served db call cache s v ok =
      cached_or-Served db call (m.fetch (key_of call) cache).0 (m.fetch (key_of call) cache).1 s v
        (λ json e. found-IsOwn call cache json v ok e)
        (λ k json e. ok k json (law.fetched (key_of call) k json cache e))

  fresh-Sound : Sound m.fresh
  unfolding Sound
  fresh-Sound k json e = absurd (law.empty k json e)

  Handled : Call → Option Json × m.Cache → Type 0
  Handled call (answer, cache) = IsOwn junk Seen call answer × Sound cache

  handle-Handled :
      (db : Database) (call : Call) (cache : m.Cache)
      → Seen db
      → Sound cache
      → Handled call (handle m junk db call cache)
  unfolding handle Handled Served IsOwn
  handle-Handled db call cache s ok = elim (Bool-cases (is_valid call)) [
    | inl v ↦ rw (v) (serve-Served db call cache s v ok)
    | inr v ↦ rw (v) (v, ok)
  ]

  run-IsOwn :
      (events : List Event) (cache : m.Cache)
      → AllSeen Seen events
      → Sound cache
      → Each (λ (call, answer). IsOwn junk Seen call answer) (run m junk events cache)
  unfolding run AllSeen Handled Sound
  run-IsOwn [] cache seen ok = tt
  run-IsOwn (timer ∷ events) cache seen ok =
      run-IsOwn events (m.expire cache) seen (λ k json e. ok k json (law.expired k json cache e))
  run-IsOwn (request db call ∷ events) cache (s, seen) ok =
      let (own, ok') = handle-Handled db call cache s ok in
      (own, run-IsOwn events (handle m junk db call cache).1 seen ok')

-- If the cache holds nothing but what is inserted: in a run from an empty cache every valid call is
-- answered with what its own handler makes of the database at the time of one of the requests,
-- though the four handlers share one cache; a call for a feed type that is not allowed has no
-- answer.
pub run-answers :
    (m : CacheMap Json) (junk : ℤ) (Seen : Database → Type 0) (events : List Event)
    → IsCacheMap m
    → AllSeen Seen events
    → Each (λ (call, answer). IsOwn junk Seen call answer) (run m junk events m.fresh)
run-answers m junk Seen events law seen =
    run-IsOwn m law junk Seen events m.fresh seen (fresh-Sound m law junk Seen)
