-- ===== src/Tests/CrawlerRuns.antt =====
-- tlgsutils/url_blacklist.hpp, tlgs/crawler/blacklist.cpp and the dispatching of
-- tlgs/crawler/crawler.cpp.
use tlgs.Common.{
  ◌+◌, ◌≤◌, ◌≡◌, refl, ◌↔◌, true, false, ◌||◌, [], ◌∷◌, List, Bytes, codes, arith, some, length,
  any, bytes_eq,
}
use tlgs.Common.Decimal.{pos}
use tlgs.Counter.{shared, acquire}
use tlgs.Crawler.Blacklist.{occurrences, add_all, path_elements, repeats_element, is_looping_path}
use tlgs.Crawler.Blacklist.Accepted.{add_all-is_blocked, blocks, is_looping_path_iff}
use tlgs.Crawler.Dispatch.{
  Task, Crawler, testing, fetching, calls, enters, admitted, Reach, here, next, initial, enter,
  exhaust,
}
use tlgs.Crawler.Dispatch.Bound.{Reach-bound, exhaust_other}
use tlgs.Crawler.Dispatch.Sound.{count_if, is_active}
use tlgs.FilePath.{split_path}
use tlgs.UrlBlacklist.{UrlBlacklist, add, is_blocked, site_key}
use tlgs.UrlBlacklist.Sites.{IsSite, SameSite, site_key_iff}
use tlgs.Tests.UrlRuns.{run, page, page-IsNormal}

page-IsSite : IsSite (run page)
unfolding run
page-IsSite = record {
  normal = page-IsNormal;
  has_protocol = λ h. absurd (cc);
  default_known = refl;
}

site_key_iff_example : (site_key (run page) ≡ site_key (run page)) ↔ SameSite (run page) (run page)
site_key_iff_example = site_key_iff (run page) (run page) page-IsSite page-IsSite

loop_path : is_looping_path (codes "/a/b/a/b/a/b") ≡ true
unfolding is_looping_path repeats_element path_elements bytes_eq split_path
loop_path = refl

abbrev listed : List Bytes
listed = page ∷ []

abbrev blacklist : UrlBlacklist
blacklist = (site_key (run page), (run page).path) ∷ []

listed-added : add_all (pos 0) [] listed ≡ some blacklist
unfolding add_all add run
listed-added = refl

add_all-is_blocked_example :
    is_blocked blacklist (run page)
    ≡ (any (blocks (pos 0) (run page)) listed || is_blocked [] (run page))
add_all-is_blocked_example = add_all-is_blocked (pos 0) [] blacklist listed (run page) listed-added

-- `crawlAll` on a crawler with one connection: one task fetches.
abbrev called : Crawler
called = record (initial 1) { callers = 1 }

abbrev task : Task
task = record { counter = record { count = 0; pointer = shared }; phase = testing }

abbrev fetching_task : Task
fetching_task = record task { phase = fetching }

abbrev one_fetches : Crawler
one_fetches = record {
  max_concurrent_connections = 1;
  ongoing_crawlings = 1;
  ended = false;
  callers = 0;
  enders = 0;
  tasks = fetching_task ∷ [];
}

one_fetches-reached : Reach (initial 1) one_fetches
unfolding initial enter acquire
one_fetches-reached =
    next (next (next here (calls refl refl)) (enters (omega arith) (omega arith) refl))
      (admitted [] task [] refl refl (omega arith) refl)

Reach-bound_example :
    (count_if is_active one_fetches.tasks ≤ 1)
    × (one_fetches.ongoing_crawlings ≡ length one_fetches.tasks)
Reach-bound_example = Reach-bound 1 one_fetches-reached

abbrev no_tasks : List Task
no_tasks = []

exhaust_other_example :
    ((exhaust one_fetches [] fetching_task []).enders ≡ one_fetches.enders + 1)
    ↔ (length no_tasks ≡ 1)
exhaust_other_example = exhaust_other 1 [] fetching_task [] one_fetches-reached refl

is_looping_path_iff_example :
    (is_looping_path (codes "/a/b/a/c/a") ≡ true)
    ↔ ((x : Bytes) × (3 ≤ occurrences x (path_elements (codes "/a/b/a/c/a"))))
is_looping_path_iff_example = is_looping_path_iff (codes "/a/b/a/c/a")
