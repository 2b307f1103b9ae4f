-- ===== src/Crawler/Policy.antt =====
-- `shouldCrawl` and `parseMime` of tlgs/crawler/crawler.cpp. The answers of the database, of the
-- policy cache and of the network are arguments. drogon's cache forgets by time: `cached` is what
-- it finds now.
pub mod Allowed
use tlgs.Common.{
  ℕ, zero, suc, ◌+◌, ◌-◌, Bool, true, false, not, ◌&&◌, ◌||◌, List, [], ◌∷◌, ◌++◌, ltb, ◌==◌,
  Option, none, some, if◌then◌else◌, Bytes, codes, is_empty, length, take, drop, bytes_eq, before,
}
use tlgs.Common.Decimal.{ℤ, pos, int_eq, stoi}
use tlgs.Crawler.Blacklist.{in_blacklist}
use tlgs.Robots.{parse_robots_txt}
use tlgs.Robots.Wildcard.{is_path_blocked}
use tlgs.Url.{Url, str, host_with_port, with_path, with_param, with_fragment}
use tlgs.Url.Parse.{parse}

-- `do {idx++} while(idx < size && goes_on(mime[idx]))`
abbrev pub scan : (ℕ → Bool) → Bytes → ℕ → ℕ
scan goes_on mime idx = suc (idx + length (before (λ c. not (goes_on c)) (drop (suc idx) mime)))

-- A std::string has a zero byte behind its end, which a slice may read.
abbrev pub slice : Bytes → ℕ → ℕ → Bytes
slice mime begin n = take n (drop begin (mime ++ 0 ∷ []))

-- params[key] = value
abbrev pub set_param : List (Bytes × Bytes) → Bytes → Bytes → List (Bytes × Bytes)
set_param [] key value = (key, value) ∷ []
set_param ((k, v) ∷ params) key value =
    let rest = set_param params key value in
    if bytes_eq k key then (k, value) ∷ params else (k, v) ∷ rest

-- The loop over the parameters. Each round moves `idx` forward by three at least.
unfoldable pub mime_params : ℕ → Bytes → ℕ → List (Bytes × Bytes) → List (Bytes × Bytes)
mime_params zero mime idx params = params
mime_params (suc fuel) mime idx params =
    let key_begin = scan (λ c. c == b' ' || c == b'\t') mime idx in
    let key_end = scan (λ c. not (c == b'=')) mime key_begin in
    let value_end = scan (λ c. not (c == b';')) mime key_end in
    let rest = mime_params fuel mime value_end (
      set_param params (slice mime key_begin (key_end - key_begin))
        (slice mime (key_end + 1) (value_end - key_end - 1))) in
    if ltb idx (length mime) then rest else params

unfoldable pub parse_mime : Bytes → Bytes × List (Bytes × Bytes)
parse_mime mime =
    let mime_str = before (λ c. c == b';') mime in
    (mime_str, mime_params (length mime) mime (length mime_str) [])

-- host_timeout_count_
abbrev pub Timeouts : Type 0
Timeouts = List (Bytes × ℕ)

abbrev pub timeouts_of : Timeouts → Bytes → ℕ
timeouts_of [] host = 0
timeouts_of ((h, n) ∷ rest) host = if bytes_eq h host then n else timeouts_of rest host

abbrev pub add_timeout : Timeouts → Bytes → Timeouts
add_timeout [] host = (host, 1) ∷ []
add_timeout ((h, n) ∷ rest) host =
    let counted = add_timeout rest host in
    if bytes_eq h host then (h, n + 1) ∷ rest else (h, n) ∷ counted

-- How the request for robots.txt ends: with an error, or with the content type, the status and the
-- body.
pub data Reply : Type 0 where
  request_failed : Bytes → Reply
  response : Bytes → Bytes → Bytes → Reply

-- What the world outside answers; `reply` is what a request to an address gives, and
-- `policy_status` the row of robot_policies_status, if there is one.
pub record Answers : Type 0 where
  pub cached : Option (List Bytes)
  pub policy_status : Option Bool
  pub reply : Bytes → Reply
  pub stored_policy : List Bytes

-- The answer, the timeouts, what is written to robot_policies with `have_policy`, and what is put
-- in the cache.
pub record Outcome : Type 0 where
  pub should_crawl : Bool
  pub timeouts : Timeouts
  pub written : Option (Bool × List Bytes)
  pub cached_now : Option (List Bytes)

abbrev pub plain_answer : Bool → Timeouts → Outcome
plain_answer b timeouts = record {
  should_crawl = b;
  timeouts = timeouts;
  written = none;
  cached_now = none;
}

abbrev pub our_agents : List Bytes
our_agents = codes "*" ∷ codes "tlgs" ∷ codes "indexer" ∷ []

-- the address of the site's robots.txt
abbrev pub robot_url : Url → Bytes
robot_url url =
    (str (with_fragment (with_path (with_param url []) (codes "/robots.txt") true) [])).0

-- The address that is asked for the rules: there are none in the cache, and none in the database.
abbrev pub rules_address : Url → Answers → Option Bytes
rules_address url a = elim a.cached [
  | some disallowed ↦ none
  | none ↦ elim a.policy_status [ none ↦ some (robot_url url) | some have_policy ↦ none ]
]

-- The request for robots.txt that shouldCrawl makes, if its tests before that let the URL through.
unfoldable pub rules_request : ℤ → Timeouts → Answers → Bytes → Option Bytes
rules_request junk timeouts a url_str =
    let url = parse junk true url_str in
    if is_empty url_str || not url.good || not (bytes_eq url.protocol (codes "gemini"))
    then none
    else elim (in_blacklist junk (str url).0) [
      | none ↦ none
      | some true ↦ none
      | some false ↦
          if ltb 3 (timeouts_of timeouts (host_with_port url 1965))
          then none
          else rules_address url a
    ]

abbrev pub have_robots_txt : Bytes → ℤ → Bool
have_robots_txt content_type status =
    let mime = (parse_mime content_type).0 in
    int_eq status (pos 20)
    && (bytes_eq mime (codes "text/plain") || bytes_eq mime (codes "text/gemini"))

-- The end: the paths are kept in the cache and the URL's path is held against them.
abbrev pub decide : Url → Timeouts → Option (Bool × List Bytes) → List Bytes → Outcome
decide url timeouts written disallowed_path = record {
  should_crawl = not (is_path_blocked url.path disallowed_path);
  timeouts = timeouts;
  written = written;
  cached_now = some disallowed_path;
}

abbrev pub is_timeout : Bytes → Bool
is_timeout error = bytes_eq error (codes "Timeout") || bytes_eq error (codes "NetworkFailure")

module _ (replace_all : Bytes → Bytes → Bytes → Bytes) where
  -- There is no policy in the database: the host is asked.
  unfoldable pub ask_host : Url → Timeouts → Reply → Option Outcome
  ask_host url timeouts (request_failed error) = some (
      plain_answer true
        (if is_timeout error then add_timeout timeouts (host_with_port url 1965) else timeouts))
  ask_host url timeouts (response content_type status body) = elim (stoi status) [
    | none ↦ none
    | some n ↦
        let have = have_robots_txt content_type n in
        let disallowed = if have then parse_robots_txt replace_all body our_agents else [] in
        some (decide url timeouts (some (have, disallowed)) disallowed)
  ]

  -- From the look into the cache on.
  unfoldable pub check_policy : Url → Timeouts → Answers → Option Outcome
  check_policy url timeouts a = elim a.cached [
    | some disallowed ↦ some (plain_answer (not (is_path_blocked url.path disallowed)) timeouts)
    | none ↦ elim a.policy_status [
      | none ↦ ask_host url timeouts (a.reply (robot_url url))
      | some have_policy ↦
          some (decide url timeouts none (if have_policy then a.stored_policy else []))
    ]
  ]

  -- shouldCrawl; `none` is an exception.
  unfoldable pub should_crawl : ℤ → Timeouts → Answers → Bytes → Option Outcome
  should_crawl junk timeouts a url_str =
      let url = parse junk true url_str in
      if is_empty url_str || not url.good || not (bytes_eq url.protocol (codes "gemini"))
      then some (plain_answer false timeouts)
      else elim (in_blacklist junk (str url).0) [
        | none ↦ none
        | some true ↦ some (plain_answer false timeouts)
        | some false ↦
            if ltb 3 (timeouts_of timeouts (host_with_port url 1965))
            then some (plain_answer false timeouts)
            else check_policy url timeouts a
      ]
