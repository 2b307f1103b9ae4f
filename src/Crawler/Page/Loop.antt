-- ===== src/Crawler/Page/Loop.antt =====
-- The requests of the redirection loop of `crawlPage` (tlgs/crawler/crawler.cpp).
use tlgs.Common.{
  ℕ, zero, suc, ◌+◌, ◌≤◌, ◌≡◌, refl, Bool, true, false, not, ◌||◌, List, Option, none, some,
  if◌then◌else◌, Bytes, codes, bytes_eq, bytes_eq_refl, arith,
}
use tlgs.Common.Decimal.{ℤ}
use tlgs.Crawler.Page.World.{
  Event, State, World, Setting, M, ◌>>◌, give, throw, guard, read, request, ask, Response,
}
use tlgs.Crawler.Page.Redirects.{
  Chase, tens_are, text, to_int, redirected, keep_redirect, accept_redirect, take_redirect,
  check_redirect, use_status, use_response, fetch, chase, follow_step, goes_on, counted, follow,
  again_if,
}
use tlgs.Crawler.Page.Quiet.{read-Quiet, guard-Quiet, to_int-Quiet, keep_redirect-Quiet}
use tlgs.Url.{Url}
use tlgs.Url.Parse.{parse}
use tlgs.Crawler.Page.Granted.{
  is_granted, all_granted, count_requests, Grown-is_granted, Holds, Ends, bind-Ends, Holds-any,
  quiet-Ends, quiet-Ends_any, GrantedIf, ask-Ends,
}

-- The next URL of the loop may be requested.
abbrev pub Next : Chase → List Event → Type 0
Next c log = is_granted (text c.crawl_url) log ≡ true

guard-Holds :
    (b : Bool) (e url : Bytes) (s : State)
    → GrantedIf url b s.log
    → Holds (λ _ log. is_granted url log ≡ true) (guard b e s).0 (guard b e s).1.log
guard-Holds true e url s h = h refl
guard-Holds false e url s h = tt

pub guard-Ends :
    (n : ℕ) (b : Bool) (e url : Bytes) (s : State)
    → all_granted s.log ≡ true
    → count_requests s.log ≤ n
    → GrantedIf url b s.log
    → Ends n (λ _ log. is_granted url log ≡ true) (guard b e) s
guard-Ends n b e url s h k g =
    let x = quiet-Ends_any n (guard b e) (guard-Quiet b e) s h k in
    record { granted = x.granted; few = x.few; holds = guard-Holds b e url s g }

module _ (w : World) (p : Setting) (n : ℕ) where
  accept_redirect-Ends :
      (c : Chase) (resp : Response) (status : ℤ) (to : Url) (allowed : Bool) (s : State)
      → all_granted s.log ≡ true
      → count_requests s.log ≤ n
      → GrantedIf (text to) allowed s.log
      → Ends n Next (accept_redirect w c resp status to allowed) s
  accept_redirect-Ends c resp status to allowed s a b g =
      let To : List Event → Type 0 = λ log. is_granted (text to) log ≡ true in
      let last : M Chase = give (redirected c resp status to) in
      bind-Ends n n (λ _. To) Next (λ _. keep_redirect w c status to >> last)
        (guard allowed (codes "Redirected to blocked URL")) s
        (guard-Ends n allowed (codes "Redirected to blocked URL") (text to) s a b g) (omega arith)
        (λ _ s₁ a₁ b₁ g₁.
          bind-Ends n n (λ _. To) Next (λ _. last) (keep_redirect w c status to) s₁
            (quiet-Ends n (keep_redirect w c status to) (keep_redirect-Quiet w c status to) s₁ a₁ b₁
              To (λ log g. Grown-is_granted g (text to) g₁))
            (omega arith) (λ _ s₂ a₂ b₂ g₂. record { granted = a₂; few = b₂; holds = g₂ }))

  take_redirect-Ends :
      (c : Chase) (resp : Response) (status : ℤ) (to : Url) (s : State)
      → all_granted s.log ≡ true
      → count_requests s.log ≤ n
      → Ends n Next (take_redirect w p c resp status to) s
  unfolding take_redirect
  take_redirect-Ends c resp status to s a b =
      bind-Ends n n (GrantedIf (text to)) Next (accept_redirect w c resp status to)
        (ask w p (text to)) s (ask-Ends n w p (text to) s a b) (omega arith)
        (λ allowed s₁ a₁ b₁ g₁. accept_redirect-Ends c resp status to allowed s₁ a₁ b₁ g₁)

  thrown-Ends :
      (e : Bytes) (s : State)
      → all_granted s.log ≡ true
      → count_requests s.log ≤ n
      → Ends n Next (throw e) s
  thrown-Ends e s a b = record { granted = a; few = b; holds = tt }

  if-Ends :
      (b : Bool) (m k : M Chase) (s : State)
      → Ends n Next m s
      → Ends n Next k s
      → Ends n Next (if b then m else k) s
  if-Ends true m k s x y = x
  if-Ends false m k s x y = y

  check_redirect-Ends :
      (url : Url) (c : Chase) (resp : Response) (status : ℤ) (s : State)
      → all_granted s.log ≡ true
      → count_requests s.log ≤ n
      → Ends n Next (check_redirect w p url c resp status) s
  unfolding check_redirect
  check_redirect-Ends url c resp status s a b =
      let to = parse p.junk true resp.meta in
      let far : M Chase = throw (codes "Redirected to non-gemini URL") in
      let near = take_redirect w p c resp status to in
      let is_far = not (bytes_eq url.protocol (codes "gemini")) in
      if-Ends (not to.good || bytes_eq (text c.crawl_url) (text to)) (throw (codes "Bad redirect"))
        (if is_far then far else near) s (thrown-Ends (codes "Bad redirect") s a b)
        (if-Ends is_far far near s (thrown-Ends (codes "Redirected to non-gemini URL") s a b)
          (take_redirect-Ends c resp status to s a b))

  -- What `fetch` does with the response.
  use_status-Ends :
      (url : Url) (c : Chase) (resp : Response) (status : ℤ) (s : State)
      → all_granted s.log ≡ true
      → count_requests s.log ≤ n
      → Next c s.log
      → Ends n Next (use_status w p url c resp status) s
  use_status-Ends url c resp status s a b g =
      if-Ends (tens_are 3 status) (check_redirect w p url c resp status)
        (give (record c { status = status; resp = some resp })) s
        (check_redirect-Ends url c resp status s a b) (record { granted = a; few = b; holds = g })

  use_response-Ends :
      (url : Url) (c : Chase) (resp : Response) (s : State)
      → all_granted s.log ≡ true
      → count_requests s.log ≤ n
      → Next c s.log
      → Ends n Next (use_response w p url c resp) s
  use_response-Ends url c resp s a b g =
      bind-Ends n n (λ _. Next c) Next (use_status w p url c resp) (to_int p resp.status) s
        (quiet-Ends n (to_int p resp.status) (to_int-Quiet p resp.status) s a b (Next c)
          (λ log h. Grown-is_granted h (text c.crawl_url) g))
        (omega arith) (λ status s₁ a₁ b₁ g₁. use_status-Ends url c resp status s₁ a₁ b₁ g₁)

-- One request more, for a URL that may be requested.
module _ (w : World) (p : Setting) (url : Url) (n : ℕ) where
  fetch-Ends :
      (c : Chase) (s : State)
      → all_granted s.log ≡ true
      → count_requests s.log ≤ n
      → Next c s.log
      → Ends (suc n) Next (fetch w p url c) s
  unfolding fetch request
  fetch-Ends c s a b g =
      bind-Ends (suc n) (suc n) (λ _. Next c) Next (use_response w p url c)
        (request w (text c.crawl_url)) s
        (record {
          granted = ground (arith, a, g);
          few = omega (arith, b);
          holds =
              Holds-any (Next c) (w.response_of s.time (text c.crawl_url)) _ (ground (arith, g));
        })
        (omega arith) (λ resp s₁ a₁ b₁ g₁. use_response-Ends w p (suc n) url c resp s₁ a₁ b₁ g₁)

  chase-Ends :
      (c : Chase) (found : Option Bytes) (s : State)
      → all_granted s.log ≡ true
      → count_requests s.log ≤ n
      → Next c s.log
      → Ends (suc n) Next (chase w p url c found) s
  chase-Ends c none s a b g = fetch-Ends c s a b g
  chase-Ends c (some target) s a b g = record {
    granted = a;
    few = omega arith;
    holds = ground (arith, bytes_eq_refl (text (parse p.junk true target)));
  }

  follow_step-Ends :
      (c : Chase) (s : State)
      → all_granted s.log ≡ true
      → count_requests s.log ≤ n
      → Next c s.log
      → Ends (suc n) Next (follow_step w p url c) s
  unfolding follow_step
  follow_step-Ends c s a b g =
      let stored_target : M (Option Bytes) = read (λ time. w.redirect_of time (text c.crawl_url)) in
      bind-Ends n (suc n) (λ _. Next c) Next (chase w p url c) stored_target s
        (quiet-Ends n stored_target (read-Quiet _) s a b (Next c)
          (λ log h. Grown-is_granted h (text c.crawl_url) g))
        (omega arith) (λ found s₁ a₁ b₁ g₁. chase-Ends c found s₁ a₁ b₁ g₁)

-- Each round of the loop makes one request at most.
pub follow-Ends :
    (fuel n : ℕ) (w : World) (p : Setting) (url : Url) (c : Chase) (s : State)
    → all_granted s.log ≡ true
    → count_requests s.log ≤ n
    → Next c s.log
    → Ends (n + fuel) Next (follow fuel w p url c) s
unfolding follow
follow-Ends zero n w p url c s a b g = record { granted = a; few = omega arith; holds = g }
follow-Ends (suc fuel) n w p url c s a b g =
    bind-Ends (suc n) (n + suc fuel) Next Next
      (λ c'. again_if (goes_on c') (follow fuel w p url (counted c')) c') (follow_step w p url c) s
      (follow_step-Ends w p url n c s a b g) (omega arith)
      (λ c₁ s₁ a₁ b₁ g₁.
        again-Ends (goes_on c₁) c₁ s₁ a₁ b₁ g₁
          (follow-Ends fuel (suc n) w p url (counted c₁) s₁ a₁ b₁ g₁))
  where
    again-Ends :
        (b : Bool) (c₁ : Chase) (s₁ : State)
        → all_granted s₁.log ≡ true
        → count_requests s₁.log ≤ suc n
        → Next c₁ s₁.log
        → Ends (suc n + fuel) Next (follow fuel w p url (counted c₁)) s₁
        → Ends (n + suc fuel) Next (again_if b (follow fuel w p url (counted c₁)) c₁) s₁
    again-Ends true c₁ s₁ a₁ b₁ g₁ e = record {
      granted = e.granted;
      few = omega (arith, e.few);
      holds = e.holds;
    }
    again-Ends false c₁ s₁ a₁ b₁ g₁ e = record { granted = a₁; few = omega arith; holds = g₁ }
