-- ===== src/Tests/PolicyRuns.antt =====
-- `parseMime`, `shouldCrawl` and `getNextCrawlPage` of tlgs/crawler/crawler.cpp.
use tlgs.Common.{
  ◌≤◌, ◌≡◌, refl, Bool, true, false, [], ◌∷◌, List, none, some, Bytes, codes, starts_with, bytes_eq,
  before, from, lower, ends_with, contains, split_slashes,
}
use tlgs.Common.Decimal.{
  pos, stoi, int_eq, int_lt, to_string, to_string_ℕ, split_sign, value_from, scan_number,
}
use tlgs.Crawler.Blacklist.{
  add_all, init_blacklist, is_blacklisted_domain, is_unwanted_host, is_unwanted_path,
  is_unwanted_text, path_elements, repeats_element, is_looping_path, find_from, is_commit,
  is_refused, in_blacklist,
}
use tlgs.Crawler.Policy.{
  mime_params, parse_mime, Timeouts, timeouts_of, response, Answers, Outcome, ask_host,
  check_policy, should_crawl,
}
use tlgs.Crawler.Policy.Allowed.{should_crawl-safe, should_crawl-again, answer_of}
use tlgs.Crawler.Queue.{get_next_crawl_page}
use tlgs.Crawler.Queue.Found.{IsFound, get_next_crawl_page-IsFound}
use tlgs.FilePath.{
  split_path, go_up, resolve_name, resolve, join_names, render_path, lexically_normal,
}
use tlgs.Robots.{
  get_lines, split_last_colon, match_line, set_insert, read_agent, read_disallow, read_entry,
  read_lines, parse_robots_txt,
}
use tlgs.Robots.Wildcard.{plain_path_match, star_path_match, wildcard_path_match, is_path_blocked}
use tlgs.Url.{
  str, render, protocol_default_port, with_path, with_param, with_fragment, host_with_port,
  normalize,
}
use tlgs.Url.Parse.{
  parse_param, parse_path, parse_port, parse_authority, parse_host, parse_protocol, parse,
}
use tlgs.UrlBlacklist.{add, is_blocked, is_blocked_from, is_blocked_text, site_key}
use tlgs.Tests.UrlRuns.{page}

two_params :
    parse_mime (codes "text/gemini; charset=utf-8;lang=en")
    ≡ (codes "text/gemini", (codes "charset", codes "utf-8") ∷ (codes "lang", codes "en") ∷ [])
unfolding parse_mime mime_params before bytes_eq
two_params = refl

listed : in_blacklist (pos 0) page ≡ some true
unfolding in_blacklist init_blacklist add_all add parse split_slashes parse_protocol
    protocol_default_port bytes_eq parse_host before from parse_authority parse_port stoi
    scan_number split_sign value_from int_lt parse_path parse_param normalize lower lexically_normal
    split_path resolve resolve_name go_up render_path join_names is_refused is_blacklisted_domain
    is_unwanted_host is_unwanted_path is_unwanted_text path_elements repeats_element is_looping_path
    find_from is_commit str render int_eq to_string to_string_ℕ is_blocked is_blocked_from
    is_blocked_text site_key starts_with ends_with contains with_path with_param with_fragment
    wildcard_path_match plain_path_match star_path_match
listed = refl

abbrev keep : Bytes → Bytes → Bytes → Bytes
keep s from to = s

abbrev site : Bytes
site = codes "gemini://tlgs.one:1966/a/c.gmi"

abbrev answers : Answers
answers = record {
  cached = none;
  policy_status = none;
  reply = λ address.
      response (codes "text/plain; lang=en") (codes "20") (codes "User-agent: *\nDisallow: /b\n");
  stored_policy = [];
}

abbrev timeouts : Timeouts
timeouts = (codes "tlgs.one:1966", 3) ∷ []

abbrev policy : List Bytes
policy = codes "/b" ∷ []

abbrev outcome : Outcome
outcome = record {
  should_crawl = true;
  timeouts = timeouts;
  written = some (true, policy);
  cached_now = some policy;
}

crawled : should_crawl keep (pos 0) timeouts answers site ≡ some outcome
unfolding should_crawl check_policy ask_host parse_mime parse_robots_txt get_lines split_last_colon
    match_line set_insert read_agent read_disallow read_entry read_lines is_path_blocked
    host_with_port in_blacklist init_blacklist add_all add parse split_slashes parse_protocol
    protocol_default_port bytes_eq parse_host before from parse_authority parse_port stoi
    scan_number split_sign value_from int_lt parse_path parse_param normalize lower lexically_normal
    split_path resolve resolve_name go_up render_path join_names is_refused is_blacklisted_domain
    is_unwanted_host is_unwanted_path is_unwanted_text path_elements repeats_element is_looping_path
    find_from is_commit str render int_eq to_string to_string_ℕ is_blocked is_blocked_from
    is_blocked_text site_key starts_with ends_with contains with_path with_param with_fragment
    wildcard_path_match plain_path_match star_path_match
crawled = refl

should_crawl-safe_example :
    ((parse (pos 0) true site).good ≡ true)
    × ((parse (pos 0) true site).protocol ≡ codes "gemini")
    × (in_blacklist (pos 0) (str (parse (pos 0) true site)).0 ≡ some false)
    × (timeouts_of timeouts (host_with_port (parse (pos 0) true site) 1965) ≤ 3)
should_crawl-safe_example =
    should_crawl-safe keep (pos 0) timeouts answers site outcome crawled refl

should_crawl-again_example :
    (answer_of (should_crawl keep (pos 0) timeouts (record answers { cached = some policy }) site)
      ≡ some outcome.should_crawl)
    × ((have : Bool) (m : List Bytes)
        → outcome.written ≡ some (have, m)
        → answer_of (
            should_crawl keep
              (pos 0)
              timeouts
              (record answers { cached = none; policy_status = some have; stored_policy = m })
              site)
          ≡ some outcome.should_crawl)
should_crawl-again_example =
    should_crawl-again keep (pos 0) timeouts answers site outcome crawled policy refl

abbrev queue : List (Bytes × Answers)
queue = (page, answers) ∷ (site, answers) ∷ []

next_page :
    get_next_crawl_page keep (pos 0) timeouts queue
    ≡ some (some (codes "gemini://tlgs.one:1966/a/c.gmi"), timeouts, page ∷ [])
unfolding get_next_crawl_page should_crawl check_policy ask_host parse_mime parse_robots_txt
    get_lines split_last_colon match_line set_insert read_agent read_disallow read_entry read_lines
    is_path_blocked host_with_port in_blacklist init_blacklist add_all add parse split_slashes
    parse_protocol protocol_default_port bytes_eq parse_host before from parse_authority parse_port
    stoi scan_number split_sign value_from int_lt parse_path parse_param normalize lower
    lexically_normal split_path resolve resolve_name go_up render_path join_names is_refused
    is_blacklisted_domain is_unwanted_host is_unwanted_path is_unwanted_text path_elements
    repeats_element is_looping_path find_from is_commit str render int_eq to_string to_string_ℕ
    is_blocked is_blocked_from is_blocked_text site_key starts_with ends_with contains with_path
    with_param with_fragment wildcard_path_match plain_path_match star_path_match
next_page = refl

get_next_crawl_page-IsFound_example : IsFound keep (pos 0) site timeouts queue (page ∷ [])
get_next_crawl_page-IsFound_example =
    get_next_crawl_page-IsFound keep (pos 0) timeouts queue site timeouts (page ∷ []) next_page
