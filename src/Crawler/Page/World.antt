-- ===== src/Crawler/Page/World.antt =====
-- What `crawlPage` (tlgs/crawler/crawler.cpp) acts on. `World` is the database and the network,
-- whose answers depend on when they are asked; `Setting` is the code outside the repository that
-- the page is read with. A log holds what was done, the newest event first.
use tlgs.Common.{ℕ, ◌+◌, Bool, true, false, List, ◌∷◌, Option, none, some, Bytes}
use tlgs.Common.Decimal.{ℤ}
use tlgs.Crawler.Policy.{Timeouts, Answers, Outcome, should_crawl, rules_request}
use tlgs.Gemini.{Node}

-- An exception carries what its `what()` gives.
pub data Result {ℓ} (A : Type ℓ) : Type ℓ where
  ok : A → Result A
  thrown : Bytes → Result A

-- a row of `pages`; `last_crawled_at` is in seconds, 0 where it is null
pub record PageRecord : Type 0 where
  pub indexed_content_hash : Bytes
  pub raw_content_hash : Bytes
  pub last_status : ℤ
  pub last_crawled_at : ℕ

-- the headers "gemini-status" and "meta", and the body
pub record Response : Type 0 where
  pub status : Bytes
  pub meta : Bytes
  pub body : Bytes

-- The columns that the large UPDATE sets.
pub record PageUpdate : Type 0 where
  pub content_body : Bytes
  pub size : ℕ
  pub charset : Option Bytes
  pub lang : Option Bytes
  pub last_status : ℤ
  pub last_meta : Bytes
  pub content_type : Bytes
  pub title : Bytes
  pub cross_site_links : List Bytes
  pub internal_links : List Bytes
  pub indexed_content_hash : Bytes
  pub raw_content_hash : Bytes
  pub feed_type : Option Bytes

-- The statements that `crawlPage` executes, each with its parameters; the first argument is the
-- page's URL. `touch_page` sets the time of the last success and leaves the content, `fail_page`
-- sets only the status, and `expire_page` deletes a page with no success in 30 days. The last two
-- hold the text of the query.
pub data Statement : Type 0 where
  remove_page remove_links_of skip_page expire_page delete_links : Bytes → Statement
  insert_page : Bytes → Bytes → ℤ → Statement
  insert_redirect : Bytes → Bytes → Statement
  touch_page : Bytes → ℤ → Bytes → Bytes → Statement
  fail_page : Bytes → ℤ → Bytes → Statement
  update_page : Bytes → PageUpdate → Statement
  index_page : Bytes → Bytes → Statement
  insert_links insert_pages : Bytes → Statement

-- `asked` has the answer of `shouldCrawl`, `requested_rules` the robots.txt that it requests, and
-- `stored` the text of a permanent redirect's target. `requested` is a request of `crawlPage` itself.
pub data Event : Type 0 where
  executed : Statement → Event
  asked : Bytes → Bool → Event
  stored : Bytes → Event
  requested : Bytes → Event
  requested_rules : Bytes → Event

pub record State : Type 0 where
  pub time : ℕ
  pub timeouts : Timeouts
  pub log : List Event

pub record World : Type 0 where
  pub redirect_of : ℕ → Bytes → Result (Option Bytes)
  pub record_of : ℕ → Bytes → Result (Option PageRecord)
  pub answers_of : ℕ → Bytes → Result Answers
  pub response_of : ℕ → Bytes → Result Response
  pub refuses : ℕ → Statement → Option Bytes
  pub now : ℕ → ℕ

-- `stoi_message` is the text of std::stoi's exceptions, `junk` what an unset `default_port_` holds.
pub record Setting : Type 0 where
  pub replace_all : Bytes → Bytes → Bytes → Bytes
  pub xx_hash64 : Bytes → Bytes
  pub convert : Bytes → Bytes → Bytes
  pub parse_gemini : Bytes → List Node
  pub stoi_message : Bytes
  pub junk : ℤ
  pub force_reindex : Bool

abbrev pub M {ℓ} : Type ℓ → Type ℓ
M A = State → Result A × State

infixl 5 ◌>>=◌ ◌>>◌
abbrev pub ◌>>=◌ {ℓ κ} : {A : Type ℓ} {B : Type κ} → M A → (A → M B) → M B
◌>>=◌ m f s = let (r, s') = m s in elim r [ ok a ↦ f a s' | thrown e ↦ (thrown e, s') ]

abbrev pub ◌>>◌ {ℓ} : {B : Type ℓ} → M (Unit {0}) → M B → M B
m >> k = m >>= λ _. k

abbrev pub give {ℓ} : {A : Type ℓ} → A → M A
give a s = (ok a, s)

abbrev pub throw {ℓ} : {A : Type ℓ} → Bytes → M A
throw e s = (thrown e, s)

abbrev pub guard : Bool → Bytes → M (Unit {0})
guard true e = give tt
guard false e = throw e

abbrev pub tick : State → State
tick s = record s { time = s.time + 1 }

abbrev pub record_event : Event → State → State
record_event e s = record s { time = s.time + 1; log = e ∷ s.log }

-- A read: time goes on, and an exception of the read is one of the code.
abbrev pub read {ℓ} : {A : Type ℓ} → (ℕ → Result A) → M A
read answer s = (answer s.time, tick s)

-- What a statement does, whether the database refuses it or not.
abbrev pub settle : Statement → Option Bytes → M (Unit {0})
settle st none s = (ok tt, record_event (executed st) s)
settle st (some e) s = (thrown e, tick s)

unfoldable pub execute : World → Statement → M (Unit {0})
execute w st s = settle st (w.refuses s.time st) s

unfoldable pub request : World → Bytes → M Response
request w url s = (w.response_of s.time url, record_event (requested url) s)

abbrev pub take_outcome : Setting → Bytes → Option Outcome → M Bool
take_outcome p url none s = (thrown p.stoi_message, tick s)
take_outcome p url (some o) s = (
  ok o.should_crawl,
  record s { time = s.time + 1; timeouts = o.timeouts; log = asked url o.should_crawl ∷ s.log },
)

abbrev pub note_rules : Option Bytes → State → State
note_rules none s = s
note_rules (some address) s = record s { log = requested_rules address ∷ s.log }

abbrev pub take_answers : Setting → Bytes → Result Answers → M Bool
take_answers p url (thrown e) s = (thrown e, tick s)
take_answers p url (ok a) s =
    take_outcome p url (should_crawl p.replace_all p.junk s.timeouts a url)
      (note_rules (rules_request p.junk s.timeouts a url) s)

-- `shouldCrawl`, whose own writes are those of its `Outcome`
unfoldable pub ask : World → Setting → Bytes → M Bool
ask w p url s = take_answers p url (w.answers_of s.time url) s
