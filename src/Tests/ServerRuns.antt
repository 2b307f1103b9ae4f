-- ===== src/Tests/ServerRuns.antt =====
-- tlgs/server/controllers/tools.cpp and api.cpp.
use tlgs.Common.{◌≡◌, refl, true, List, [], ◌∷◌, none, some, Bytes, codes, bytes_eq, Each}
use tlgs.Common.Decimal.{pos, int_eq, to_string, to_string_ℕ}
use tlgs.Server.Api.{
  Json, strings, null, Database, Call, known_feeds, known_hosts, known_perma_redirects,
  known_security_txt, is_allowed, fresh_json, key_of, is_valid, serve, handle, Event, request,
  timer,
}
use tlgs.Server.Api
use tlgs.Server.Api.Own.{IsOwn, AllSeen, run-answers}
use tlgs.Server.Tools.{Seed, HostRow, count_types, list_hosts, add_seed}
use tlgs.Server.Tools.Seeds.{add_seed-crawlable}
use tlgs.Tests.ServiceRuns.{entries, entries-IsCacheMap}
use tlgs.Tests.UrlRuns.{run}
use tlgs.Url.{render, str, port_or}
use tlgs.Url.Parse.{parse}

abbrev capsule : Seed
capsule = record { url = codes "gemini://a.org/"; domain_name = codes "a.org"; port = pos 1965 }

capsule_added : (add_seed (pos 0) (codes "gemini") (codes "gemini://A.org:1965")).0 ≡ some capsule
unfolding add_seed run str render int_eq to_string port_or
capsule_added = refl

capsule_port : (parse (pos 0) true (codes "gemini://A.org:1965")).default_port ≡ pos 1965
unfolding run
capsule_port = refl

add_seed-crawlable_example :
    (codes "gemini" ≡ codes "gemini")
    × ((parse (pos 1) true capsule.url).good ≡ true)
    × ((parse (pos 1) true capsule.url).protocol ≡ codes "gemini")
    × ((parse (pos 1) true capsule.url).host ≡ capsule.domain_name)
    × ((str (parse (pos 1) true capsule.url)).0 ≡ capsule.url)
add_seed-crawlable_example =
    add_seed-crawlable (pos 0) (pos 1) (codes "gemini") (codes "gemini://A.org:1965") capsule
      capsule_added capsule_port

-- A visitor of the HTTP proxy adds nothing.
not_through_http : (add_seed (pos 0) (codes "https") (codes "gemini://A.org:1965")).0 ≡ none
unfolding add_seed run
not_through_http = refl

abbrev host_row : HostRow
host_row = record { domain_name = codes "a.org"; port = pos 1966 }

abbrev bad_row : HostRow
bad_row = record { domain_name = codes "a.org"; port = pos 70000 }

-- A port that is out of range is left out.
hosts_listed : list_hosts (pos 0) (host_row ∷ bad_row ∷ []) ≡ codes "gemini://a.org:1966/" ∷ []
unfolding list_hosts run str render int_eq to_string to_string_ℕ
hosts_listed = refl

types_counted :
    count_types (
      record { content_type = some []; count = 2 } ∷ record { content_type = none; count = 0 } ∷ [])
    ≡ (codes "<empty string>", 2) ∷ []
unfolding count_types
types_counted = refl

abbrev day : Bytes → Database
day url = record {
  hosts = host_row ∷ [];
  feeds = λ type. url ∷ [];
  security_txt = [];
  perma_redirects = [];
}

abbrev Seen : Database → Type 0
Seen db = (url : Bytes) × (db ≡ day url)

abbrev events : List Event
events =
    request (day (codes "x")) (known_feeds [])
    ∷ request (day (codes "y")) (known_feeds (codes "atom"))
    ∷ timer
    ∷ request (day (codes "z")) (known_feeds (codes "atom"))
    ∷ request (day (codes "z")) (known_feeds (codes "html"))
    ∷ request (day (codes "z")) known_perma_redirects
    ∷ []

all_seen : AllSeen Seen events
unfolding AllSeen
all_seen = (
  (codes "x", refl),
  ((codes "y", refl), ((codes "z", refl), ((codes "z", refl), ((codes "z", refl), tt)))),
)

run-answers_example :
    Each (λ (call, answer). IsOwn (pos 0) Seen call answer) (Api.run entries (pos 0) events [])
run-answers_example = run-answers entries (pos 0) Seen events entries-IsCacheMap all_seen

-- The second answer is the first one again, and with no redirects the last is `null`.
answers_given :
    Api.run entries (pos 0) events []
    ≡ (known_feeds [], some (strings (codes "x" ∷ [])))
      ∷ (known_feeds (codes "atom"), some (strings (codes "x" ∷ [])))
      ∷ (known_feeds (codes "atom"), some (strings (codes "z" ∷ [])))
      ∷ (known_feeds (codes "html"), none)
      ∷ (known_perma_redirects, some null)
      ∷ []
unfolding Api.run handle serve is_valid is_allowed key_of fresh_json bytes_eq
answers_given = refl
