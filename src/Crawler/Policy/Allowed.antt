-- ===== src/Crawler/Policy/Allowed.antt =====
-- What `shouldCrawl` (tlgs/crawler/crawler.cpp) lets through.
use tlgs.Common.{
  ◌≤◌, ◌≡◌, ◌⊎◌, refl, ap, ◌∙◌, sym, Bool, true, false, not, ◌||◌, List, [], ltb, Option, none,
  some, if◌then◌else◌, Bytes, codes, is_empty, bytes_eq, bytes_eq_iff, Bool-cases, Option-cases,
  inl, inr, arith,
}
use tlgs.Common.Decimal.{ℤ, stoi}
use tlgs.Crawler.Blacklist.{in_blacklist}
use tlgs.Crawler.Policy.{
  have_robots_txt, our_agents, robot_url, Timeouts, timeouts_of, Reply, request_failed, response,
  Answers, Outcome, plain_answer, decide, ask_host, check_policy, should_crawl,
}
use tlgs.Robots.{parse_robots_txt}
use tlgs.Robots.Wildcard.{is_path_blocked}
use tlgs.Url.{Url, str, host_with_port}
use tlgs.Url.Parse.{parse}

-- May the URL be looked at, before any policy?
abbrev pub is_candidate : ℤ → Bytes → Bool
is_candidate junk url_str =
    let url = parse junk true url_str in
    not (is_empty url_str || not url.good || not (bytes_eq url.protocol (codes "gemini")))

-- The two ends of `should_crawl`.
refused_or_asked :
    (replace_all : Bytes → Bytes → Bytes → Bytes) (junk : ℤ) (timeouts : Timeouts) (a : Answers)
    (url_str : Bytes)
    → (o : Outcome) → should_crawl replace_all junk timeouts a url_str ≡ some o
    → (o ≡ plain_answer false timeouts)
      ⊎ ((is_candidate junk url_str ≡ true)
          × (in_blacklist junk (str (parse junk true url_str)).0 ≡ some false)
          × (timeouts_of timeouts (host_with_port (parse junk true url_str) 1965) ≤ 3)
          × (check_policy replace_all (parse junk true url_str) timeouts a ≡ some o))
unfolding should_crawl
refused_or_asked replace_all junk timeouts a url_str o h =
    elim (Bool-cases (is_candidate junk url_str)) [
      | inr k ↦ inl (ground (arith, h, k))
      | inl k ↦ elim (Option-cases (in_blacklist junk (str (parse junk true url_str)).0)) [
        | inl e ↦ absurd (ground (arith, h, k, e))
        | inr (true, e) ↦ inl (ground (arith, h, k, e))
        | inr (false, e) ↦
            elim (Bool-cases
              (ltb 3 (timeouts_of timeouts (host_with_port (parse junk true url_str) 1965)))) [
                | inl l ↦ inl (ground (arith, h, k, e, l))
                | inr l ↦ inr (k, e, ground (arith, l), ground (arith, h, k, e, l))
              ]
      ]
    ]

-- A page that may be crawled is a good URL of Gemini that is not in the blacklist, and its host has
-- timed out three times at most.
pub should_crawl-safe :
    (replace_all : Bytes → Bytes → Bytes → Bytes) (junk : ℤ) (timeouts : Timeouts) (a : Answers)
    (url_str : Bytes)
    → (o : Outcome) → should_crawl replace_all junk timeouts a url_str ≡ some o
    → o.should_crawl ≡ true
    → ((parse junk true url_str).good ≡ true)
      × ((parse junk true url_str).protocol ≡ codes "gemini")
      × (in_blacklist junk (str (parse junk true url_str)).0 ≡ some false)
      × (timeouts_of timeouts (host_with_port (parse junk true url_str) 1965) ≤ 3)
should_crawl-safe replace_all junk timeouts a url_str o h c =
    elim (refused_or_asked replace_all junk timeouts a url_str o h) [
      | inl e ↦ absurd (ground (arith, ap (λ (p : Outcome). p.should_crawl) e, c))
      | inr (k, b, l, e) ↦ (
        ground (arith, k),
        (bytes_eq_iff (parse junk true url_str).protocol (codes "gemini")).0 (ground (arith, k)),
        b,
        l,
      )
    ]

ask_host-kept :
    (replace_all : Bytes → Bytes → Bytes → Bytes) (url : Url) (timeouts : Timeouts) (reply : Reply)
    (o : Outcome)
    → ask_host replace_all url timeouts reply ≡ some o
    → (o.cached_now ≡ none)
      ⊎ ((have : Bool) × (l : List Bytes) × (o ≡ decide url timeouts (some (have, l)) l)
          × ((if have then l else []) ≡ l))
unfolding ask_host
ask_host-kept replace_all url timeouts (request_failed error) o h = inl (ground (arith, h))
ask_host-kept replace_all url timeouts (response content_type status body) o h =
    elim (Option-cases (stoi status)) [
      | inl e ↦ absurd (ground (arith, h, e))
      | inr (n, e) ↦ inr (
        have_robots_txt content_type n,
        (if have_robots_txt content_type n
            then parse_robots_txt replace_all body our_agents
            else []),
        ground (arith, h, e),
        elim (Bool-cases (have_robots_txt content_type n)) [ inl k ↦ rw k | inr k ↦ rw k ],
      )
    ]

abbrev listed : Option (Bool × List Bytes) → List Bytes
listed none = []
listed (some (have, l)) = if have then l else []

abbrev list_or_none : Option (List Bytes) → List Bytes
list_or_none none = []
list_or_none (some l) = l

some_eq : (l m : List Bytes) → some l ≡ some m → l ≡ m
some_eq l m h = ap list_or_none h

-- What is kept in the cache, and what is written, is the list that has given the answer.
check_policy-kept :
    (replace_all : Bytes → Bytes → Bytes → Bytes) (url : Url) (timeouts : Timeouts) (a : Answers)
    (o : Outcome)
    → check_policy replace_all url timeouts a ≡ some o
    → (o.cached_now ≡ none)
      ⊎ ((l : List Bytes) × (o.cached_now ≡ some l)
          × (o.should_crawl ≡ not (is_path_blocked url.path l))
          × ((b : Bool) (m : List Bytes) → o.written ≡ some (b, m) → (if b then m else []) ≡ l))
unfolding check_policy
check_policy-kept replace_all url timeouts a o h = elim (Option-cases a.cached) [
  | inr (l, e) ↦ inl (ground (arith, h, e))
  | inl e ↦ elim (Option-cases a.policy_status) [
    | inl p ↦
        elim (ask_host-kept replace_all url timeouts (a.reply (robot_url url)) o
          (ground (arith, h, e, p))) [
            | inl k ↦ inl k
            | inr (b, l, q, r) ↦ inr (
              l,
              ap (λ (p : Outcome). p.cached_now) q,
              ap (λ (p : Outcome). p.should_crawl) q,
              λ b' m w. sym (ap listed w) ∙ ap (λ (p : Outcome). listed p.written) q ∙ r,
            )
          ]
    | inr (have, p) ↦
        let q : o ≡ decide url timeouts none (if have then a.stored_policy else []) =
          ground (arith, h, e, p) in
        inr (
          (if have then a.stored_policy else []),
          ap (λ (p : Outcome). p.cached_now) q,
          ap (λ (p : Outcome). p.should_crawl) q,
          λ b' m w. absurd (ground (arith, w, ap (λ (p : Outcome). p.written) q)),
        )
  ]
]

abbrev pub answer_of : Option Outcome → Option Bool
answer_of none = none
answer_of (some o) = some o.should_crawl

-- Behind the first tests it is the policy that decides.
policy_decides :
    (replace_all : Bytes → Bytes → Bytes → Bytes) (junk : ℤ) (timeouts : Timeouts) (a : Answers)
    (url_str : Bytes)
    → is_candidate junk url_str ≡ true
    → in_blacklist junk (str (parse junk true url_str)).0 ≡ some false
    → timeouts_of timeouts (host_with_port (parse junk true url_str) 1965) ≤ 3
    → should_crawl replace_all junk timeouts a url_str
      ≡ check_policy replace_all (parse junk true url_str) timeouts a
unfolding should_crawl
policy_decides replace_all junk timeouts a url_str k b t = ground (arith, k, b, t)

cached_answer :
    (replace_all : Bytes → Bytes → Bytes → Bytes) (url : Url) (timeouts : Timeouts) (a : Answers)
    (l : List Bytes)
    → answer_of (check_policy replace_all url timeouts (record a { cached = some l }))
      ≡ some (not (is_path_blocked url.path l))
unfolding check_policy
cached_answer replace_all url timeouts a l = refl

stored_answer :
    (replace_all : Bytes → Bytes → Bytes → Bytes) (url : Url) (timeouts : Timeouts) (a : Answers)
    (have : Bool) (m : List Bytes)
    → answer_of (
        check_policy replace_all url timeouts
          (record a { cached = none; policy_status = some have; stored_policy = m }))
      ≡ some (not (is_path_blocked url.path (if have then m else [])))
unfolding check_policy
stored_answer replace_all url timeouts a have m = refl

-- The policies in the cache and in the database agree with what was decided: asked again about the
-- URL, with the list that was put in the cache, or with an empty cache and the policy that was
-- written, the crawler answers as before.
pub should_crawl-again :
    (replace_all : Bytes → Bytes → Bytes → Bytes) (junk : ℤ) (timeouts : Timeouts) (a : Answers)
    (url_str : Bytes)
    → (o : Outcome) → should_crawl replace_all junk timeouts a url_str ≡ some o
    → (l : List Bytes) → o.cached_now ≡ some l
    → (answer_of (should_crawl replace_all junk timeouts (record a { cached = some l }) url_str)
        ≡ some o.should_crawl)
      × ((have : Bool) (m : List Bytes)
          → o.written ≡ some (have, m)
          → answer_of (
              should_crawl replace_all junk timeouts
                (record a { cached = none; policy_status = some have; stored_policy = m })
                url_str)
            ≡ some o.should_crawl)
should_crawl-again replace_all junk timeouts a url_str o h l c =
    let url = parse junk true url_str in
    elim (refused_or_asked replace_all junk timeouts a url_str o h) [
      | inl e ↦ absurd (ground (arith, ap (λ (p : Outcome). p.cached_now) e, c))
      | inr (k, b, t, e) ↦ elim (check_policy-kept replace_all url timeouts a o e) [
        | inl n ↦ absurd (ground (arith, n, c))
        | inr (l', c', s, w) ↦
            let same : l' ≡ l = some_eq l' l (sym c' ∙ c) in
            (
              ap answer_of (
                    policy_decides replace_all junk timeouts (record a { cached = some l }) url_str
                      k b t)
                  ∙ cached_answer replace_all url timeouts a l
                  ∙ ap (λ x. some (not (is_path_blocked url.path x))) (sym same)
                  ∙ ap some (sym s),
              λ have m v.
                  ap answer_of (
                    policy_decides replace_all junk timeouts
                      (record a { cached = none; policy_status = some have; stored_policy = m })
                      url_str k b t)
                  ∙ stored_answer replace_all url timeouts a have m
                  ∙ ap (λ x. some (not (is_path_blocked url.path x))) (w have m v)
                  ∙ ap some (sym s),
            )
      ]
    ]
