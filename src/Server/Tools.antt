-- ===== src/Server/Tools.antt =====
-- tlgs/server/controllers/tools.cpp: the statistics, the list of hosts, and the URLs that visitors
-- add. The rows of the database are arguments.
pub mod Seeds
use tlgs.Common.{
  ℕ, ◌+◌, Bool, true, false, not, ◌||◌, List, [], ◌∷◌, ◌++◌, Option, none, some, if◌then◌else◌,
  Bytes, codes, is_empty, bytes_eq,
}
use tlgs.Common.Decimal.{ℤ, pos, to_string}
use tlgs.Url.{Url, str, port_or}
use tlgs.Url.Parse.{parse}

-- A count of pages for a content type, which may be null.
pub record TypeRow : Type 0 where
  pub content_type : Option Bytes
  pub count : ℕ

pub record ServerStatistics : Type 0 where
  pub update_time : Bytes
  pub page_count : ℕ
  pub domain_count : ℕ
  pub content_type_count : List (Bytes × ℕ)

abbrev pub type_name : Bytes → Bytes
type_name type = if is_empty type then codes "<empty string>" else type

unfoldable pub count_types : List TypeRow → List (Bytes × ℕ)
count_types [] = []
count_types (row ∷ rows) = elim row.content_type [
  | none ↦ count_types rows
  | some type ↦ (type_name type, row.count) ∷ count_types rows
]

unfoldable pub make_statistics : Bytes → ℕ → ℕ → List TypeRow → ServerStatistics
make_statistics now page_count domain_count rows = record {
  update_time = now;
  page_count = page_count;
  domain_count = domain_count;
  content_type_count = count_types rows;
}

pub record HostRow : Type 0 where
  pub domain_name : Bytes
  pub port : ℤ

abbrev pub host_url : ℤ → HostRow → Url
host_url junk host =
    parse junk true (codes "gemini://" ++ (host.domain_name ++ (codes ":" ++ to_string host.port)))

-- Only good URLs are listed.
unfoldable pub list_hosts : ℤ → List HostRow → List Bytes
list_hosts junk [] = []
list_hosts junk (host ∷ hosts) =
    let rest = list_hosts junk hosts in
    let url = host_url junk host in if not url.good then rest else (str url).0 ∷ rest

-- The row that is put in, unless the URL has one.
pub record Seed : Type 0 where
  pub url : Bytes
  pub domain_name : Bytes
  pub port : ℤ

pub data Answer : Type 0 where
  ask_input : Bytes → Answer
  forbidden : Bytes → Answer
  page : Bytes → Answer

-- The row for a URL: its text, its host, and its port or else 1965.
abbrev pub seed_of : Url → Seed
seed_of url = record { url = (str url).0; domain_name = url.host; port = port_or url (pos 1965) }

-- add_seed: the row that it puts in, and its answer. `protocol` is the header of the request.
unfoldable pub add_seed : ℤ → Bytes → Bytes → Option Seed × Answer
add_seed junk protocol input =
    let url = parse junk true input in
    if is_empty input
    then (none, ask_input (codes "URL to your capsule"))
    else if not url.good || not (bytes_eq url.protocol (codes "gemini"))
    then (none, ask_input (codes "Invalid URL. Try again"))
    else if not (bytes_eq protocol (codes "gemini"))
    then (none, forbidden (codes "We only accept links directly through Gemini"))
    else (some (seed_of url), page (codes "# Adding Capsule\nAdded " ++ input))
