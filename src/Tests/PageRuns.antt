-- ===== src/Tests/PageRuns.antt =====
-- `crawlPage` of tlgs/crawler/crawler.cpp.
use tlgs.Common.{
  suc, ◌≡◌, refl, Bool, true, false, [], ◌∷◌, List, none, some, Bytes, codes, starts_with, bytes_eq,
  bytes_lt, before, from, lower, ends_with, contains, split_slashes, if◌then◌else◌, arith,
}
use tlgs.Common.Decimal.{
  pos, stoi, int_eq, int_lt, to_string, to_string_ℕ, split_sign, value_from, scan_number,
}
use tlgs.Crawler.Policy.{
  rules_request, parse_mime, Answers, response, ask_host, check_policy, should_crawl,
}
use tlgs.Url.{
  str, render, protocol_default_port, with_path, with_param, with_fragment, with_protocol,
  host_with_port, normalize, port_or, url_lt,
}
use tlgs.Utils.{is_non_uri_action, link_compose, pg_sql_real_escape, index_friendly, filter}
use tlgs.Crawler.Page.World.{
  Result, ok, thrown, Response, insert_page, executed, asked, requested, State, World, Setting,
  execute, request, ask,
}
use tlgs.Crawler.Page.Redirects.{
  Chase, check_redirect, take_redirect, fetch, follow_step, follow, follow_redirects,
}
use tlgs.Crawler.Page.Links.{
  resolve_link, clean_link, read_link, insert_url, collect_links, is_cross_site, texts_where,
}
use tlgs.Crawler.Page.Content.{
  param_of, trim, non_empty, gemini_content, read_content, read_text, info_content, short_title,
}
use tlgs.Crawler.Page.Crawl.{
  link_row, page_row, write_rows, update_links, store_page, index_content, index_response,
  fetch_page, crawl_found, look_up, crawl_body, recover, crawl_page,
}
use tlgs.Crawler.Page.Rounds.{follow-enough}
use tlgs.Crawler.Page.LinkSet.{IsLinkSet, collect_links-IsLinkSet}
use tlgs.Crawler.Blacklist.{
  add_all, init_blacklist, is_blacklisted_domain, is_unwanted_host, is_unwanted_path,
  is_unwanted_text, path_elements, repeats_element, is_looping_path, find_from, is_commit,
  is_refused, in_blacklist,
}
use tlgs.FilePath.{
  append_path, split_path, go_up, resolve_name, resolve, join_names, render_path, lexically_normal,
}
use tlgs.Robots.{
  get_lines, split_last_colon, match_line, set_insert, read_agent, read_disallow, read_entry,
  read_lines, parse_robots_txt,
}
use tlgs.Robots.Wildcard.{plain_path_match, star_path_match, wildcard_path_match, is_path_blocked}
use tlgs.Url.Parse.{
  parse_param, parse_path, parse_port, parse_authority, parse_host, parse_protocol, parse,
}
use tlgs.UrlBlacklist.{add, is_blocked, is_blocked_from, is_blocked_text, site_key}

abbrev setting : Setting
setting = record {
  replace_all = λ s from to. s;
  xx_hash64 = λ s. s;
  convert = λ s charset. s;
  parse_gemini = λ s. [];
  stoi_message = codes "stoi";
  junk = pos 0;
  force_reindex = false;
}

abbrev answers : Answers
answers = record {
  cached = some [];
  policy_status = none;
  reply = λ address. response (codes "text/plain") (codes "51") [];
  stored_policy = [];
}

abbrev page_text : Bytes
page_text = codes "gemini://tlgs.one:1966/c.txt"

abbrev home : Bytes
home = codes "gemini://tlgs.one:1966/"

-- The home page leads to another page, which is a text.
abbrev reply_of : Bytes → Response
unfolding bytes_eq
reply_of url =
    if bytes_eq url home
    then record { status = codes "30"; meta = page_text; body = [] }
    else record { status = codes "20"; meta = codes " text/plain"; body = codes "hi" }

abbrev world : World
world = record {
  redirect_of = λ time url. ok none;
  record_of = λ time url. ok none;
  answers_of = λ time url. ok answers;
  response_of = λ time url. ok (reply_of url);
  refuses = λ time st. none;
  now = λ time. 0;
}

-- Every request times out.
abbrev silent : World
silent = record world { response_of = λ time url. thrown (codes "Timeout") }

abbrev start : State
start = record { time = 0; timeouts = []; log = [] }

-- Names all that the crawl of a page computes with.
crawl : World → Result Bool × State
unfolding should_crawl check_policy ask_host parse_mime parse_robots_txt get_lines split_last_colon
    match_line set_insert read_agent read_disallow read_entry read_lines is_path_blocked
    host_with_port in_blacklist init_blacklist add_all add parse split_slashes parse_protocol
    protocol_default_port bytes_eq parse_host before from parse_authority parse_port stoi
    scan_number split_sign value_from int_lt parse_path parse_param normalize lower lexically_normal
    split_path resolve resolve_name go_up render_path join_names is_refused is_blacklisted_domain
    is_unwanted_host is_unwanted_path is_unwanted_text path_elements repeats_element is_looping_path
    find_from is_commit str render int_eq to_string to_string_ℕ is_blocked is_blocked_from
    is_blocked_text site_key starts_with ends_with contains with_path with_param with_fragment
    wildcard_path_match plain_path_match star_path_match crawl_body look_up crawl_found fetch_page
    follow_redirects follow follow_step fetch check_redirect take_redirect rules_request
    index_response index_content read_text read_content gemini_content info_content short_title
    param_of trim non_empty store_page update_links write_rows link_row page_row collect_links
    read_link resolve_link clean_link insert_url texts_where is_cross_site recover crawl_page
    execute request ask pg_sql_real_escape index_friendly port_or url_lt bytes_lt is_non_uri_action
    link_compose append_path with_protocol filter
crawl w = crawl_page (pos 0) w setting home start

crawled : (crawl world).0 ≡ ok true
unfolding crawl
crawled = refl

abbrev after : State
after = record {
  time = 5;
  timeouts = [];
  log =
      requested home
      ∷ executed (insert_page home (codes "tlgs.one") (pos 1966))
      ∷ asked home true
      ∷ [];
}

-- Where no rules are known, shouldCrawl requests them.
abbrev unknown_site : Answers
unknown_site = record answers { cached = none }

rules_requested :
    rules_request (pos 0) [] unknown_site home ≡ some (codes "gemini://tlgs.one:1966/robots.txt")
unfolding crawl
rules_requested = refl

timed_out :
    crawl_body (pos 0) silent setting (parse (pos 0) true home) start
    ≡ (thrown (codes "Timeout"), after)
unfolding crawl
timed_out = refl

abbrev chase_home : Chase
chase_home = record {
  crawl_url = parse (pos 0) true home;
  redirection_count = 0;
  status = pos 0;
  resp = none;
}

follow-enough_example :
    follow (suc 7) world setting (parse (pos 0) true home) chase_home start
    ≡ follow (suc 5) world setting (parse (pos 0) true home) chase_home start
follow-enough_example =
    follow-enough 5 7 world setting (parse (pos 0) true home) chase_home start (omega arith)
      (omega arith)

abbrev links : List Bytes
links = codes "b.gmi" ∷ codes "mailto:a" ∷ codes "gemini://a.org/#x" ∷ codes "b.gmi" ∷ []

collect_links-IsLinkSet_example :
    IsLinkSet
      (pos 0)
      (parse (pos 0) true home)
      links
      (collect_links (pos 0) (parse (pos 0) true home) links [])
unfolding crawl
collect_links-IsLinkSet_example =
    collect_links-IsLinkSet (pos 0) (parse (pos 0) true home) refl links

two_links :
    texts_where (λ u. true) (collect_links (pos 0) (parse (pos 0) true home) links [])
    ≡ codes "gemini://a.org/" ∷ codes "gemini://tlgs.one:1966/b.gmi" ∷ []
unfolding crawl
two_links = refl
