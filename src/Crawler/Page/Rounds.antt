-- ===== src/Crawler/Page/Rounds.antt =====
-- The redirection loop of `crawlPage` (tlgs/crawler/crawler.cpp) ends by its own test.
use tlgs.Common.{
  ℕ, zero, suc, ◌+◌, ◌≤◌, ◌<◌, ◌≡◌, refl, Bool, true, false, not, ◌||◌, Option, none, some,
  if◌then◌else◌, Bytes, codes, bytes_eq, arith,
}
use tlgs.Common.Decimal.{ℤ}
use tlgs.Crawler.Page.World.{
  Result, ok, thrown, State, World, Setting, M, ◌>>=◌, ◌>>◌, give, throw, guard, read, Response,
  ask, request,
}
use tlgs.Crawler.Page.Redirects.{
  Chase, text, tens_are, to_int, redirected, keep_redirect, accept_redirect, take_redirect,
  check_redirect, use_status, use_response, fetch, chase, follow_step, goes_on, counted, again_if,
  follow,
}
use tlgs.Url.{Url}
use tlgs.Url.Parse.{parse}

-- The count of a result is not below `n`.
abbrev Kept : ℕ → Result Chase → Type 0
Kept n (ok c) = n ≤ c.redirection_count
Kept n (thrown e) = Unit {0}

module _ {ℓ} {A : Type ℓ} (n : ℕ) (f : A → M Chase)
    (kept : (a : A) (s : State) → Kept n (f a s).0) where
  after-Kept : (r : Result A) (s : State) → Kept n (◌>>=◌ (λ _. (r, s)) f s).0
  after-Kept (ok a) s = kept a s
  after-Kept (thrown e) s = tt

  bind-Kept : (m : M A) (s : State) → Kept n ((m >>= f) s).0
  bind-Kept m s = after-Kept (m s).0 (m s).1

if-Kept :
    (n : ℕ) (b : Bool) (m k : M Chase) (s : State)
    → Kept n (m s).0
    → Kept n (k s).0
    → Kept n ((if b then m else k) s).0
if-Kept n true m k s x y = x
if-Kept n false m k s x y = y

module _ (w : World) (p : Setting) (url : Url) (c : Chase) where
  take_redirect-Kept :
      (resp : Response) (status : ℤ) (to : Url) (s : State)
      → Kept c.redirection_count (take_redirect w p c resp status to s).0
  unfolding take_redirect
  take_redirect-Kept resp status to s =
      let n = c.redirection_count in
      let last : M Chase = give (redirected c resp status to) in
      bind-Kept n (accept_redirect w c resp status to)
        (λ allowed s₁.
          bind-Kept n (λ _. keep_redirect w c status to >> last)
            (λ _ s₂. bind-Kept n (λ _. last) (λ _ s₃. omega arith) (keep_redirect w c status to) s₂)
            (guard allowed (codes "Redirected to blocked URL")) s₁)
        (ask w p (text to)) s

  check_redirect-Kept :
      (resp : Response) (status : ℤ) (s : State)
      → Kept c.redirection_count (check_redirect w p url c resp status s).0
  unfolding check_redirect
  check_redirect-Kept resp status s =
      let n = c.redirection_count in
      let to = parse p.junk true resp.meta in
      let far : M Chase = throw (codes "Redirected to non-gemini URL") in
      let near = take_redirect w p c resp status to in
      let is_far = not (bytes_eq url.protocol (codes "gemini")) in
      if-Kept n (not to.good || bytes_eq (text c.crawl_url) (text to))
        (throw (codes "Bad redirect")) (if is_far then far else near) s tt
        (if-Kept n is_far far near s tt (take_redirect-Kept resp status to s))

  fetch-Kept : (s : State) → Kept c.redirection_count (fetch w p url c s).0
  unfolding fetch
  fetch-Kept s =
      let n = c.redirection_count in
      bind-Kept n (use_response w p url c)
        (λ resp s₁.
          bind-Kept n (use_status w p url c resp)
            (λ status s₂.
              if-Kept n (tens_are 3 status) (check_redirect w p url c resp status)
                (give (record c { status = status; resp = some resp })) s₂
                (check_redirect-Kept resp status s₂) (omega arith))
            (to_int p resp.status) s₁)
        (request w (text c.crawl_url)) s

  chase-Kept :
      (found : Option Bytes) (s : State) → Kept c.redirection_count (chase w p url c found s).0
  chase-Kept none s = fetch-Kept s
  chase-Kept (some target) s = omega arith

  follow_step-Kept : (s : State) → Kept c.redirection_count (follow_step w p url c s).0
  unfolding follow_step
  follow_step-Kept s =
      bind-Kept c.redirection_count (chase w p url c) chase-Kept
        (read (λ time. w.redirect_of time (text c.crawl_url))) s

-- Two ways to go on that agree where the loop goes on.
module _ (n : ℕ) (f g : Chase → M Chase) where
  agree_if :
      (b : Bool) (c : Chase) (s : State)
      → (b ≡ true → f c s ≡ g c s)
      → again_if b (f c) c s ≡ again_if b (g c) c s
  agree_if true c s h = h refl
  agree_if false c s h = refl

  agree_after :
      (r : Result Chase) (s : State)
      → Kept n r
      → ((c : Chase) (s' : State) → n ≤ c.redirection_count → goes_on c ≡ true → f c s' ≡ g c s')
      → ◌>>=◌ (λ _. (r, s)) (λ c. again_if (goes_on c) (f c) c) s
        ≡ ◌>>=◌ (λ _. (r, s)) (λ c. again_if (goes_on c) (g c) c) s
  agree_after (ok c) s k h = agree_if (goes_on c) c s (λ t. h c s k t)
  agree_after (thrown e) s k h = refl

going_on-lt : (c : Chase) → goes_on c ≡ true → c.redirection_count < 5
going_on-lt c h = ground (arith, h)

-- Rounds beyond those that the counter allows change nothing: the loop ends by its own test, after
-- six rounds if it starts with a count of 0.
pub follow-enough :
    (fuel more : ℕ) (w : World) (p : Setting) (url : Url) (c : Chase) (s : State)
    → 5 ≤ fuel + c.redirection_count
    → fuel ≤ more
    → follow (suc more) w p url c s ≡ follow (suc fuel) w p url c s
unfolding follow
follow-enough zero more w p url c s h le =
    agree_after c.redirection_count (λ c'. follow more w p url (counted c'))
      (λ c'. give (counted c')) (follow_step w p url c s).0 (follow_step w p url c s).1
      (follow_step-Kept w p url c s) (λ c' s' k t. absurd (omega (arith, going_on-lt c' t)))
follow-enough (suc fuel) zero w p url c s h le = absurd (omega arith)
follow-enough (suc fuel) (suc more) w p url c s h le =
    agree_after c.redirection_count (λ c'. follow (suc more) w p url (counted c'))
      (λ c'. follow (suc fuel) w p url (counted c')) (follow_step w p url c s).0
      (follow_step w p url c s).1 (follow_step-Kept w p url c s)
      (λ c' s' k t. follow-enough fuel more w p url (counted c') s' (omega arith) (omega arith))
