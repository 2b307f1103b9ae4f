-- ===== src/Crawler/Page/Quiet.antt =====
-- The parts of `crawlPage` (tlgs/crawler/crawler.cpp) that request no page.
use tlgs.Common.{
  ℕ, ◌≡◌, refl, sym, ap, ◌∙◌, Bool, true, false, not, List, [], ◌∷◌, ◌++◌, append_assoc, Option,
  none, some, if◌then◌else◌, Bytes, all, all-append, arith,
}
use tlgs.Common.Decimal.{ℤ, stoi}
use tlgs.Crawler.Policy.{Answers, Outcome, should_crawl, rules_request, is_timeout}
use tlgs.Crawler.Page.World.{
  Result, ok, thrown, Event, executed, asked, requested, requested_rules, note_rules, Statement,
  State, World, Setting, M, ◌>>=◌, ◌>>◌, give, throw, guard, read, settle, take_outcome,
  take_answers, execute, ask, PageRecord, Response,
}
use tlgs.Crawler.Page.Redirects.{Chase, text, to_int, int_or_throw, keep_redirect}
use tlgs.Crawler.Page.Content.{Content, read_text}
use tlgs.Crawler.Page.Crawl.{
  Queries, write_rows, update_links, store_page, index_content, index_response, count_timeout,
  recover,
}
use tlgs.Url.{Url}

abbrev pub is_request : Event → Bool
is_request (requested url) = true
is_request _ = false

abbrev pub no_requests : List Event → Bool
no_requests log = all (λ e. not (is_request e)) log

-- The log has grown from `old`, and by no request.
pub record Grown (old : List Event) (new : List Event) : Type 0 where
  pub added : List Event
  pub is_longer : new ≡ added ++ old
  pub is_quiet : no_requests added ≡ true

pub Grown-refl : (log : List Event) → Grown log log
Grown-refl log = record { added = []; is_longer = refl; is_quiet = refl }

pub Grown-trans : (a b c : List Event) → Grown a b → Grown b c → Grown a c
Grown-trans a b c g h = record {
  added = h.added ++ g.added;
  is_longer =
      h.is_longer ∙ ap (λ l. h.added ++ l) g.is_longer ∙ sym (append_assoc h.added g.added a);
  is_quiet =
      ground (arith, all-append (λ e. not (is_request e)) h.added g.added, g.is_quiet, h.is_quiet);
}

pub Grown-cons : (e : Event) (log : List Event) → is_request e ≡ false → Grown log (e ∷ log)
Grown-cons e log h = record { added = e ∷ []; is_longer = refl; is_quiet = ground (arith, h) }

pub record Quiet {ℓ} {A : Type ℓ} (m : M A) : Type ℓ where
  pub grows : (s : State) → Grown s.log (m s).1.log

module _ {ℓ} {A : Type ℓ} where
  pub give-Quiet : (a : A) → Quiet (give a)
  give-Quiet a = record { grows = λ s. Grown-refl s.log }

  pub throw-Quiet : (e : Bytes) → Quiet {A = A} (throw e)
  throw-Quiet e = record { grows = λ s. Grown-refl s.log }

  pub read-Quiet : (answer : ℕ → Result A) → Quiet (read answer)
  read-Quiet answer = record { grows = λ s. Grown-refl s.log }

  pub if-Quiet : (b : Bool) (m n : M A) → Quiet m → Quiet n → Quiet (if b then m else n)
  if-Quiet true m n p q = p
  if-Quiet false m n p q = q

module _ {ℓ κ} {A : Type ℓ} {B : Type κ} where
  after-Grown :
      (f : A → M B)
      → ((a : A) → Quiet (f a))
      → (r : Result A) (s' : State) (old : List Event) → Grown old s'.log
      → Grown old (◌>>=◌ (λ _. (r, s')) f s').1.log
  after-Grown f q (ok a) s' old g = Grown-trans old s'.log (f a s').1.log g ((q a).grows s')
  after-Grown f q (thrown e) s' old g = g

  pub bind-Quiet : (m : M A) (f : A → M B) → Quiet m → ((a : A) → Quiet (f a)) → Quiet (m >>= f)
  bind-Quiet m f p q = record { grows = λ s. after-Grown f q (m s).0 (m s).1 s.log (p.grows s) }

pub guard-Quiet : (b : Bool) (e : Bytes) → Quiet (guard b e)
guard-Quiet true e = give-Quiet tt
guard-Quiet false e = throw-Quiet e

settle-Grown : (st : Statement) (r : Option Bytes) (s : State) → Grown s.log (settle st r s).1.log
settle-Grown st none s = Grown-cons (executed st) s.log refl
settle-Grown st (some e) s = Grown-refl s.log

pub execute-Quiet : (w : World) (st : Statement) → Quiet (execute w st)
unfolding execute
execute-Quiet w st = record { grows = λ s. settle-Grown st (w.refuses s.time st) s }

take_outcome-Grown :
    (p : Setting) (url : Bytes) (o : Option Outcome) (s : State)
    → Grown s.log (take_outcome p url o s).1.log
take_outcome-Grown p url none s = Grown-refl s.log
take_outcome-Grown p url (some o) s = Grown-cons (asked url o.should_crawl) s.log refl

note_rules-Grown : (rules : Option Bytes) (s : State) → Grown s.log (note_rules rules s).log
note_rules-Grown none s = Grown-refl s.log
note_rules-Grown (some address) s = Grown-cons (requested_rules address) s.log refl

take_answers-Grown :
    (p : Setting) (url : Bytes) (a : Result Answers) (s : State)
    → Grown s.log (take_answers p url a s).1.log
take_answers-Grown p url (thrown e) s = Grown-refl s.log
take_answers-Grown p url (ok a) s =
    let rules = rules_request p.junk s.timeouts a url in
    Grown-trans s.log (note_rules rules s).log _ (note_rules-Grown rules s) (
      take_outcome-Grown p url (should_crawl p.replace_all p.junk s.timeouts a url)
        (note_rules rules s))

pub ask-Quiet : (w : World) (p : Setting) (url : Bytes) → Quiet (ask w p url)
unfolding ask
ask-Quiet w p url = record { grows = λ s. take_answers-Grown p url (w.answers_of s.time url) s }

pub then-Quiet {ℓ} : {B : Type ℓ} (m : M (Unit {0})) (k : M B) → Quiet m → Quiet k → Quiet (m >> k)
then-Quiet m k p q = bind-Quiet m (λ _. k) p (λ _. q)

pub keep_redirect-Quiet :
    (w : World) (c : Chase) (status : ℤ) (to : Url) → Quiet (keep_redirect w c status to)
keep_redirect-Quiet w c status to = if-Quiet _ _ _ (execute-Quiet w _) (give-Quiet tt)

int_or_throw-Quiet : (p : Setting) (n : Option ℤ) → Quiet (int_or_throw p n)
int_or_throw-Quiet p none = throw-Quiet p.stoi_message
int_or_throw-Quiet p (some n) = give-Quiet n

pub to_int-Quiet : (p : Setting) (s : Bytes) → Quiet (to_int p s)
to_int-Quiet p s = int_or_throw-Quiet p (stoi s)

pub write_rows-Quiet :
    (w : World) (p : Setting) (url : Url) (us : List Url) (q : Queries)
    → Quiet (write_rows w p url us q)
unfolding write_rows
write_rows-Quiet w p url [] q = give-Quiet q
write_rows-Quiet w p url (u ∷ us) q =
    bind-Quiet _ _ (ask-Quiet w p (text u)) (λ allowed. write_rows-Quiet w p url us _)

update_links-Quiet :
    (w : World) (p : Setting) (url : Url) (us : List Url) → Quiet (update_links w p url us)
unfolding update_links
update_links-Quiet w p url us = bind-Quiet _ _ (write_rows-Quiet w p url us _) (λ q.
    then-Quiet _ _ (execute-Quiet w _) (
      then-Quiet _ _ (execute-Quiet w _)
        (then-Quiet _ _ (if-Quiet _ _ _ (execute-Quiet w _) (give-Quiet tt)) (give-Quiet true))))

store_page-Quiet :
    (w : World) (p : Setting) (url : Url) (status : ℤ) (resp : Response) (c : Content)
    (ih rh : Bytes)
    → Quiet (store_page w p url status resp c ih rh)
unfolding store_page
store_page-Quiet w p url status resp c ih rh = then-Quiet _ _ (execute-Quiet w _) (
    then-Quiet _ _ (execute-Quiet w _)
      (if-Quiet _ _ _ (give-Quiet true) (update_links-Quiet w p url _)))

index_content-Quiet :
    (w : World) (p : Setting) (url : Url) (row : PageRecord) (status : ℤ) (resp : Response)
    (c : Content)
    → Quiet (index_content w p url row status resp c)
unfolding index_content
index_content-Quiet w p url row status resp c =
    if-Quiet _ _ _ (then-Quiet _ _ (execute-Quiet w _) (give-Quiet true))
      (store_page-Quiet w p url status resp _ _ _)

read_text-Quiet : (p : Setting) (url : Url) (resp : Response) → Quiet (read_text p url resp)
unfolding read_text
read_text-Quiet p url resp = if-Quiet _ _ _ (throw-Quiet _) (give-Quiet _)

pub index_response-Quiet :
    (w : World) (p : Setting) (url : Url) (row : PageRecord) (status : ℤ) (resp : Response)
    → Quiet (index_response w p url row status resp)
unfolding index_response
index_response-Quiet w p url row status resp =
    if-Quiet _ _ _
      (if-Quiet _ _ _ (then-Quiet _ _ (execute-Quiet w _) (give-Quiet true)) (
        bind-Quiet _ _ (read_text-Quiet p url resp)
          (λ c. index_content-Quiet w p url row status resp c)))
      (if-Quiet _ _ _ (index_content-Quiet w p url row status resp _) (
        then-Quiet _ _ (execute-Quiet w _) (then-Quiet _ _ (execute-Quiet w _) (give-Quiet false))))

count_timeout-Grown : (url : Url) (b : Bool) (s : State) → Grown s.log (count_timeout url b s).1.log
count_timeout-Grown url true s = Grown-refl s.log
count_timeout-Grown url false s = Grown-refl s.log

pub recover-Quiet : (w : World) (url : Url) (error : Bytes) → Quiet (recover w url error)
unfolding recover
recover-Quiet w url error =
    then-Quiet _ _ (record { grows = count_timeout-Grown url (is_timeout error) })
      (if-Quiet _ _ _ (give-Quiet true) (
        then-Quiet _ _ (execute-Quiet w _) (then-Quiet _ _ (execute-Quiet w _) (give-Quiet false))))
