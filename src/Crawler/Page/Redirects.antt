-- ===== src/Crawler/Page/Redirects.antt =====
-- The redirection loop of `crawlPage` (tlgs/crawler/crawler.cpp).
use tlgs.Common.{
  ℕ, zero, suc, ◌+◌, ◌/◌, Bool, true, false, not, ◌&&◌, ◌||◌, Option, none, some, if◌then◌else◌,
  ltb, ◌==◌, Bytes, codes, bytes_eq,
}
use tlgs.Common.Decimal.{ℤ, pos, negsuc, int_eq, stoi}
use tlgs.Crawler.Page.World.{
  ok, insert_redirect, stored, Response, World, Setting, M, ◌>>=◌, ◌>>◌, give, throw, guard, read,
  record_event, execute, request, ask,
}
use tlgs.Url.{Url, str}
use tlgs.Url.Parse.{parse}

-- `status / 10 == k` for a k above 0: C rounds towards 0.
abbrev pub tens_are : ℕ → ℤ → Bool
tens_are k (pos n) = n / 10 == k
tens_are k (negsuc n) = false

-- The loop's variables.
pub record Chase : Type 0 where
  pub crawl_url : Url
  pub redirection_count : ℕ
  pub status : ℤ
  pub resp : Option Response

abbrev pub text : Url → Bytes
text url = (str url).0

-- std::stoi, which throws
abbrev pub int_or_throw : Setting → Option ℤ → M ℤ
int_or_throw p none = throw p.stoi_message
int_or_throw p (some n) = give n

abbrev pub to_int : Setting → Bytes → M ℤ
to_int p s = int_or_throw p (stoi s)

abbrev pub note_stored : Bytes → M (Unit {0})
note_stored target s = (ok tt, record_event (stored target) s)

-- A permanent redirect of the database is followed with no question.
abbrev pub follow_stored : Setting → Chase → Bytes → M Chase
follow_stored p c target = do
  let to = parse p.junk true target
  note_stored (text to)
  give (record c { crawl_url = to; redirection_count = c.redirection_count + 1; status = pos 30 })

abbrev pub redirected : Chase → Response → ℤ → Url → Chase
redirected c resp status to = record c { crawl_url = to; status = status; resp = some resp }

-- A permanent redirect is kept in the database.
abbrev pub keep_redirect : World → Chase → ℤ → Url → M (Unit {0})
keep_redirect w c status to =
    if int_eq status (pos 31)
    then execute w (insert_redirect (text c.crawl_url) (text to))
    else give tt

abbrev pub accept_redirect : World → Chase → Response → ℤ → Url → Bool → M Chase
accept_redirect w c resp status to allowed = do
  guard allowed (codes "Redirected to blocked URL")
  keep_redirect w c status to
  give (redirected c resp status to)

unfoldable pub take_redirect : World → Setting → Chase → Response → ℤ → Url → M Chase
take_redirect w p c resp status to = do
  allowed ← ask w p (text to)
  accept_redirect w c resp status to allowed

-- A redirect of the server. `url` is the page's own, whose protocol the second test looks at.
unfoldable pub check_redirect : World → Setting → Url → Chase → Response → ℤ → M Chase
check_redirect w p url c resp status = do
  let to = parse p.junk true resp.meta
  (if not to.good || bytes_eq (text c.crawl_url) (text to)
      then throw (codes "Bad redirect")
      else if not (bytes_eq url.protocol (codes "gemini"))
      then throw (codes "Redirected to non-gemini URL")
      else take_redirect w p c resp status to)

abbrev pub use_status : World → Setting → Url → Chase → Response → ℤ → M Chase
use_status w p url c resp status =
    if tens_are 3 status
    then check_redirect w p url c resp status
    else give (record c { status = status; resp = some resp })

abbrev pub use_response : World → Setting → Url → Chase → Response → M Chase
use_response w p url c resp = to_int p resp.status >>= use_status w p url c resp

-- A request, and what its status asks for.
unfoldable pub fetch : World → Setting → Url → Chase → M Chase
fetch w p url c = request w (text c.crawl_url) >>= use_response w p url c

abbrev pub chase : World → Setting → Url → Chase → Option Bytes → M Chase
chase w p url c (some target) = follow_stored p c target
chase w p url c none = fetch w p url c

-- the loop's body
unfoldable pub follow_step : World → Setting → Url → Chase → M Chase
follow_step w p url c = do
  redirect ← read (λ time. w.redirect_of time (text c.crawl_url))
  chase w p url c redirect

-- `status / 10 == 3 && redirection_count++ < 5`
abbrev pub goes_on : Chase → Bool
goes_on c = tens_are 3 c.status && ltb c.redirection_count 5

abbrev pub counted : Chase → Chase
counted c = record c { redirection_count = c.redirection_count + 1 }

abbrev pub again_if : Bool → M Chase → Chase → M Chase
again_if true rest c = rest
again_if false rest c = give c

unfoldable pub follow : ℕ → World → Setting → Url → Chase → M Chase
follow zero w p url c = give c
follow (suc fuel) w p url c =
    follow_step w p url c >>= λ c'. again_if (goes_on c') (follow fuel w p url (counted c')) c'

-- The whole loop: six rounds are enough. `status` has no value before it.
unfoldable pub follow_redirects : ℤ → World → Setting → Url → M Chase
follow_redirects unset w p url =
    follow 6 w p url
      (record { crawl_url = url; redirection_count = 0; status = unset; resp = none })
