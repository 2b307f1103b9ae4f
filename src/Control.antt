-- ===== src/Control.antt =====
-- tlgs/tlgs_ctl/main.cpp: the statements of the three subcommands. The database that executes them
-- is an argument.
pub mod Schema
use tlgs.Common.{ℕ, Bool, true, false, List, [], ◌∷◌, ◌++◌, Option, none, some, Bytes, codes}
use tlgs.Common.Decimal.{to_string_ℕ}
use tlgs.Common.Options.{◌>>=◌}

pub record Column : Type 0 where
  pub name : Bytes
  pub type : Bytes

-- An index has a flag for IF NOT EXISTS, which every table has. `delete_where` compares a column
-- with a pattern by LIKE.
pub data Statement : Type 0 where
  create_table : Bytes → List Column → List Bytes → Statement
  create_index : Bool → Bytes → Bytes → Bytes → Statement
  delete_where : Bytes → Bytes → Bytes → Statement

abbrev col : Bytes → Bytes → Column
col name type = record { name = name; type = type }

abbrev pub pages_table : Statement
pages_table =
    create_table (codes "pages")
      (col (codes "url") (codes "text NOT NULL")
        ∷ col (codes "domain_name") (codes "text NOT NULL")
        ∷ col (codes "port") (codes "integer NOT NULL")
        ∷ col (codes "content_type") (codes "text")
        ∷ col (codes "charset") (codes "text")
        ∷ col (codes "lang") (codes "text")
        ∷ col (codes "title") (codes "text")
        ∷ col (codes "content_body") (codes "text")
        ∷ col (codes "feed_type") (codes "TEXT")
        ∷ col (codes "size") (codes "bigint DEFAULT 0 NOT NULL")
        ∷ col (codes "last_indexed_at") (codes "timestamp without time zone")
        ∷ col (codes "last_crawled_at") (codes "timestamp without time zone")
        ∷ col (codes "last_crawl_success_at") (codes "timestamp without time zone")
        ∷ col (codes "last_status") (codes "integer")
        ∷ col (codes "last_meta") (codes "text")
        ∷ col (codes "first_seen_at") (codes "timestamp without time zone NOT NULL")
        ∷ col (codes "search_vector") (codes "tsvector")
        ∷ col (codes "cross_site_links") (codes "json")
        ∷ col (codes "internal_links") (codes "json")
        ∷ col (codes "title_vector") (codes "tsvector")
        ∷ col (codes "last_queued_at") (codes "timestamp without time zone")
        ∷ col (codes "indexed_content_hash") (codes "text NOT NULL default ''")
        ∷ col (codes "raw_content_hash") (codes "text NOT NULL default ''")
        ∷ [])
      (codes "url" ∷ [])

abbrev pub links_table : Statement
links_table =
    create_table (codes "links")
      (col (codes "url") (codes "text NOT NULL")
        ∷ col (codes "host") (codes "text NOT NULL")
        ∷ col (codes "port") (codes "integer NOT NULL")
        ∷ col (codes "to_url") (codes "text NOT NULL")
        ∷ col (codes "to_host") (codes "text NOT NULL")
        ∷ col (codes "to_port") (codes "integer NOT NULL")
        ∷ col (codes "is_cross_site") (codes "boolean NOT NULL")
        ∷ [])
      []

abbrev pub robot_policies_table : Statement
robot_policies_table =
    create_table (codes "robot_policies")
      (col (codes "host") (codes "text NOT NULL")
        ∷ col (codes "port") (codes "integer NOT NULL")
        ∷ col (codes "disallowed") (codes "text NOT NULL")
        ∷ [])
      []

abbrev pub robot_policies_status_table : Statement
robot_policies_status_table =
    create_table (codes "robot_policies_status")
      (col (codes "host") (codes "text NOT NULL")
        ∷ col (codes "port") (codes "integer NOT NULL")
        ∷ col (codes "last_crawled_at") (codes "timestamp without time zone NOT NULL")
        ∷ col (codes "have_policy") (codes "boolean NOT NULL")
        ∷ [])
      (codes "host" ∷ codes "port" ∷ [])

abbrev pub perma_redirects_table : Statement
perma_redirects_table =
    create_table (codes "perma_redirects")
      (col (codes "from_url") (codes "text NOT NULL")
        ∷ col (codes "to_url") (codes "text NOT NULL")
        ∷ [])
      (codes "from_url" ∷ [])

-- createDb: what stands before the index on the URLs of the links, and what follows it.
abbrev pub first_statements : List Statement
first_statements =
    pages_table
    ∷ create_index true (codes "last_crawled_index") (codes "pages")
        (codes "btree (last_crawled_at DESC)")
    ∷ create_index true (codes "search_vector_index") (codes "pages") (codes "gin (search_vector)")
    ∷ links_table
    ∷ create_index true (codes "is_cross_site_index") (codes "links")
        (codes "btree (is_cross_site)")
    ∷ []

abbrev pub last_statements : List Statement
last_statements =
    create_index false (codes "to_url_index") (codes "links") (codes "btree (to_url)")
    ∷ robot_policies_table
    ∷ create_index true (codes "host_port_index") (codes "robot_policies")
        (codes "btree (host, port)")
    ∷ robot_policies_status_table
    ∷ perma_redirects_table
    ∷ []

unfoldable pub schema : List Statement
schema =
    first_statements
    ++ create_index false (codes "source_url_index") (codes "links") (codes "btree (url)")
      ∷ last_statements

-- purgePage, for a pattern
abbrev pub purge : Bytes → List Statement
purge url =
    delete_where (codes "pages") (codes "url") url
    ∷ delete_where (codes "links") (codes "url") url
    ∷ delete_where (codes "links") (codes "to_url") url
    ∷ []

-- indexStatus: the lines that are printed for the three counts.
abbrev pub index_status : ℕ → ℕ → ℕ → List Bytes
index_status domain_count count need_update =
    (to_string_ℕ domain_count ++ codes " domains in index")
    ∷ (to_string_ℕ count ++ codes " pages in index")
    ∷ (to_string_ℕ need_update ++ codes " pages need update")
    ∷ []

-- One statement after the other; a refused one is an exception and ends the subcommand.
module _ {Db : Type 0} (execute : Statement → Db → Option Db) where
  unfoldable pub execute_all : List Statement → Db → Option Db
  execute_all [] db = some db
  execute_all (statement ∷ statements) db = do
    db' ← execute statement db
    execute_all statements db'

  unfoldable pub create_db : Db → Option Db
  create_db db = execute_all schema db

  unfoldable pub purge_page : Bytes → Db → Option Db
  purge_page url db = execute_all (purge url) db
