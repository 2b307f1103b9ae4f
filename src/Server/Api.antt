-- ===== src/Server/Api.antt =====
-- tlgs/server/controllers/api.cpp: the four lists that the server gives as JSON, and the cache that
-- they share. What a handler reads from the database is an argument.
pub mod Own
use tlgs.Common.{
  ℕ, ◌*◌, Bool, true, false, ◌||◌, List, [], ◌∷◌, ◌++◌, map, Option, none, some, if◌then◌else◌,
  Bytes, codes, is_empty, bytes_eq,
}
use tlgs.Common.Decimal.{ℤ}
use tlgs.Search.Service.{CacheMap}
use tlgs.Server.Tools.{HostRow}
use tlgs.Common.Decimal.{to_string}
use tlgs.Url.{str}
use tlgs.Url.Parse.{parse}

-- The values that the handlers build: a `json` is null until something is pushed onto it.
pub data Json : Type 0 where
  null : Json
  strings : List Bytes → Json
  redirect_objects : List (Bytes × Bytes) → Json

-- The answers of the database to the four queries.
pub record Database : Type 0 where
  pub hosts : List HostRow
  pub feeds : Bytes → List Bytes
  pub security_txt : List Bytes
  pub perma_redirects : List (Bytes × Bytes)

pub data Call : Type 0 where
  known_hosts : Call
  known_feeds : Bytes → Call
  known_security_txt : Call
  known_perma_redirects : Call

abbrev pub host_text : ℤ → HostRow → Bytes
host_text junk host =
    let url = parse junk true (
      codes "gemini://"
      ++ (host.domain_name ++ (codes ":" ++ (to_string host.port ++ codes "/")))) in
    (str url).0

abbrev pub push_redirect : Json → Bytes × Bytes → Json
push_redirect null redirect = redirect_objects (redirect ∷ [])
push_redirect (strings ss) redirect = strings ss
push_redirect (redirect_objects rs) redirect = redirect_objects (rs ++ redirect ∷ [])

abbrev pub push_redirects : Json → List (Bytes × Bytes) → Json
push_redirects json [] = json
push_redirects json (redirect ∷ redirects) = push_redirects (push_redirect json redirect) redirects

abbrev pub feed_type : Bytes → Bytes
feed_type query = if is_empty query then codes "atom" else query

unfoldable pub is_allowed : Bytes → Bool
is_allowed type =
    bytes_eq type (codes "atom")
    || bytes_eq type (codes "rss")
    || bytes_eq type (codes "twtxt")
    || bytes_eq type (codes "gemsub")

-- What a handler makes of the rows, and the key under which it keeps it.
unfoldable pub fresh_json : ℤ → Database → Call → Json
fresh_json junk db known_hosts = strings (map (host_text junk) db.hosts)
fresh_json junk db (known_feeds query) = strings (db.feeds (feed_type query))
fresh_json junk db known_security_txt = strings db.security_txt
fresh_json junk db known_perma_redirects = push_redirects null db.perma_redirects

unfoldable pub key_of : Call → Bytes
key_of known_hosts = codes "hosts"
key_of (known_feeds query) = feed_type query
key_of known_security_txt = codes "security_txt"
key_of known_perma_redirects = codes "perma_redirects"

-- A feed type that is not allowed is an exception.
unfoldable pub is_valid : Call → Bool
is_valid (known_feeds query) = is_allowed (feed_type query)
is_valid known_hosts = true
is_valid known_security_txt = true
is_valid known_perma_redirects = true

module _ (m : CacheMap Json) (junk : ℤ) where
  abbrev pub cached_or : Bytes → Json → Option Json → m.Cache → Json × m.Cache
  cached_or key fresh (some json) cache = (json, cache)
  cached_or key fresh none cache = (fresh, m.insert key fresh (3600 * 8) cache)

  unfoldable pub serve : Database → Call → m.Cache → Json × m.Cache
  serve db call cache =
      let (found, cache') = m.fetch (key_of call) cache in
      cached_or (key_of call) (fresh_json junk db call) found cache'

  -- The answer of a handler; there is none for an exception.
  unfoldable pub handle : Database → Call → m.Cache → Option Json × m.Cache
  handle db call cache =
      if is_valid call
      then (let (json, cache') = serve db call cache in (some json, cache'))
      else (none, cache)

-- A request, with what the database holds at the time, or the timer of the cache.
pub data Event : Type 0 where
  request : Database → Call → Event
  timer : Event

module _ (m : CacheMap Json) (junk : ℤ) where
  -- The requests of a run, each with its answer.
  unfoldable pub run : List Event → m.Cache → List (Call × Option Json)
  run [] cache = []
  run (timer ∷ events) cache = run events (m.expire cache)
  run (request db call ∷ events) cache =
      let (answer, cache') = handle m junk db call cache in (call, answer) ∷ run events cache'
