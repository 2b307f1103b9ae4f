-- ===== src/Crawler/Page/Crawl.antt =====
-- `crawlPage` of tlgs/crawler/crawler.cpp, from its parts.
use tlgs.Common.{
  ℕ, ◌+◌, ◌*◌, Bool, true, false, not, ◌&&◌, ◌||◌, List, [], ◌∷◌, ◌++◌, Option, none, some,
  if◌then◌else◌, ltb, ◌-◌, Bytes, codes, length, take, bytes_eq, is_empty,
}
use tlgs.Common.Decimal.{ℤ, pos, int_eq, to_string}
use tlgs.Url.{Url, host_with_port, port_or}
use tlgs.Url.Parse.{parse}
use tlgs.Utils.{pg_sql_real_escape, index_friendly}
use tlgs.Crawler.Policy.{is_timeout, add_timeout}
use tlgs.Crawler.Page.World.{
  ok, thrown, PageRecord, Response, remove_page, remove_links_of, skip_page, expire_page,
  delete_links, insert_page, touch_page, fail_page, update_page, index_page, insert_links,
  insert_pages, World, Setting, M, ◌>>=◌, ◌>>◌, give, throw, guard, read, execute, ask,
}
use tlgs.Crawler.Page.Redirects.{tens_are, text, follow_redirects}
use tlgs.Crawler.Page.Links.{collect_links, is_cross_site, texts_where}
use tlgs.Crawler.Page.Content.{Content, mime_of, read_text, info_content, short_title}

-- The texts of the two queries, and the number of the pages.
pub record Queries : Type 0 where
  pub link_query : Bytes
  pub page_query : Bytes
  pub page_count : ℕ

abbrev pub quoted : Setting → Bytes → Bytes
quoted p s = codes "'" ++ (pg_sql_real_escape p.replace_all s ++ codes "'")

abbrev pub bool_text : Bool → Bytes
bool_text b = if b then codes "true" else codes "false"

abbrev pub port_text : Url → Bytes
port_text u = to_string (port_or u (pos 0))

-- "('{}', '{}', {}, '{}', {}, '{}', {}), "
unfoldable pub link_row : Setting → Url → Url → Bytes
link_row p url link_url =
    codes "("
    ++ (quoted p (text url)
        ++ (codes ", "
            ++ (quoted p url.host
                ++ (codes ", "
                    ++ (port_text url
                        ++ (codes ", "
                            ++ (quoted p (text link_url)
                                ++ (codes ", "
                                    ++ (bool_text (is_cross_site url link_url)
                                        ++ (codes ", "
                                            ++ (quoted p link_url.host
                                                ++ (codes ", "
                                                    ++ (port_text link_url
                                                        ++ codes "), ")))))))))))))

-- "('{}', '{}', {}, CURRENT_TIMESTAMP), "
unfoldable pub page_row : Setting → Url → Bytes
page_row p link_url =
    codes "("
    ++ (quoted p (text link_url)
        ++ (codes ", "
            ++ (quoted p link_url.host
                ++ (codes ", " ++ (port_text link_url ++ codes ", CURRENT_TIMESTAMP), ")))))

-- The loop that writes the rows: the pages are those that may be crawled.
unfoldable pub write_rows : World → Setting → Url → List Url → Queries → M Queries
write_rows w p url [] q = give q
write_rows w p url (link_url ∷ link_urls) q = do
  allowed ← ask w p (text link_url)
  let q' : Queries = record q { link_query = q.link_query ++ link_row p url link_url }
  write_rows w p url link_urls (
      if allowed
      then record q' {
        page_query = q.page_query ++ page_row p link_url;
        page_count = q.page_count + 1;
      }
      else q')

abbrev link_query_start : Bytes
link_query_start =
    codes "INSERT INTO links (url, host, port, to_url, is_cross_site, to_host, to_port) VALUES "

abbrev page_query_start : Bytes
page_query_start = codes "INSERT INTO pages (url, domain_name, port, first_seen_at) VALUES "

-- `query.substr(0, query.size() - 2) + " ON CONFLICT DO NOTHING;"`
abbrev pub finish_query : Bytes → Bytes
finish_query query = take (length query - 2) query ++ codes " ON CONFLICT DO NOTHING;"

unfoldable pub update_links : World → Setting → Url → List Url → M Bool
update_links w p url link_urls = do
  q ←
      write_rows w p url link_urls
        (record { link_query = link_query_start; page_query = page_query_start; page_count = 0 })
  execute w (delete_links (text url))
  execute w (insert_links (finish_query q.link_query))
  (if ltb 0 q.page_count then execute w (insert_pages (finish_query q.page_query)) else give tt)
  give true

-- From the collection of the links to the end of the try block.
unfoldable pub store_page : World → Setting → Url → ℤ → Response → Content → Bytes → Bytes → M Bool
store_page w p url status resp c indexed_hash raw_hash =
    let link_urls = collect_links p.junk url c.links [] in
    let cross_site_links = texts_where (is_cross_site url) link_urls in
    let internal_links = texts_where (λ u. not (is_cross_site url u)) link_urls in
    do
      execute w (
          update_page (text url) (record {
            content_body = c.body;
            size = c.body_size;
            charset = c.charset;
            lang = c.lang;
            last_status = status;
            last_meta = resp.meta;
            content_type = c.mime;
            title = c.title;
            cross_site_links = cross_site_links;
            internal_links = internal_links;
            indexed_content_hash = indexed_hash;
            raw_content_hash = raw_hash;
            feed_type = c.feed_type;
          }))
      execute w (index_page (text url) (index_friendly p.replace_all url))
      (if is_empty internal_links && is_empty cross_site_links
          then give true
          else update_links w p url link_urls)

-- The end of the reading: nothing is done if both hashes are the old ones.
unfoldable pub index_content : World → Setting → Url → PageRecord → ℤ → Response → Content → M Bool
index_content w p url row status resp content =
    let c : Content = record content { title = short_title content.title } in
    let indexed_hash = p.xx_hash64 c.body in
    let raw_hash = p.xx_hash64 resp.body in
    if bytes_eq indexed_hash row.indexed_content_hash && bytes_eq raw_hash row.raw_content_hash
    then (do execute w (touch_page (text url) status resp.meta c.mime); give true)
    else store_page w p url status resp c indexed_hash raw_hash

-- What the final status asks for.
unfoldable pub index_response : World → Setting → Url → PageRecord → ℤ → Response → M Bool
index_response w p url row status resp =
    if tens_are 2 status
    then (if not p.force_reindex && bytes_eq row.raw_content_hash (p.xx_hash64 resp.body)
        then (do execute w (touch_page (text url) status resp.meta (mime_of resp.meta)); give true)
        else do content ← read_text p url resp; index_content w p url row status resp content)
    else if tens_are 1 status
    then index_content w p url row status resp (info_content resp)
    else do
      execute w (fail_page (text url) status resp.meta)
      execute w (expire_page (text url))
      give false

abbrev pub index_last : World → Setting → Url → PageRecord → ℤ → Option Response → M Bool
index_last w p url row status none = throw (codes "No concrete response. Too many redirects?")
index_last w p url row status (some resp) = index_response w p url row status resp

unfoldable pub fetch_page : ℤ → World → Setting → Url → PageRecord → M Bool
fetch_page unset w p url row =
    follow_redirects unset w p url >>= λ c. index_last w p url row c.status c.resp

abbrev pub no_record : PageRecord
no_record = record {
  indexed_content_hash = [];
  raw_content_hash = [];
  last_status = pos 0;
  last_crawled_at = 0;
}

-- `last_status == 53 && last_crawled_at.after(21*7*24*3600) < now`
abbrev pub was_proxy_error : ℕ → PageRecord → Bool
was_proxy_error now row =
    int_eq row.last_status (pos 53) && ltb (row.last_crawled_at + 21 * 7 * 24 * 3600) now

-- The clock is read where the row has been.
abbrev pub skip_or_fetch : ℤ → World → Setting → Url → PageRecord → Bool → M Bool
skip_or_fetch unset w p url row true = execute w (skip_page (text url)) >> give true
skip_or_fetch unset w p url row false = fetch_page unset w p url row

unfoldable pub crawl_found : ℤ → World → Setting → Url → Option PageRecord → M Bool
crawl_found unset w p url none =
    execute w (insert_page (text url) url.host (port_or url (pos 0)))
    >> fetch_page unset w p url no_record
crawl_found unset w p url (some row) =
    read (λ time. ok (was_proxy_error (w.now time) row)) >>= skip_or_fetch unset w p url row

unfoldable pub look_up : ℤ → World → Setting → Url → M Bool
look_up unset w p url = read (λ time. w.record_of time (text url)) >>= crawl_found unset w p url

abbrev pub admit : ℤ → World → Setting → Url → Bool → M Bool
admit unset w p url allowed = guard allowed (codes "Blocked by robots.txt") >> look_up unset w p url

-- The try block.
unfoldable pub crawl_body : ℤ → World → Setting → Url → M Bool
crawl_body unset w p url = ask w p (text url) >>= admit unset w p url

abbrev pub count_timeout : Url → Bool → M (Unit {0})
count_timeout url true s =
    (ok tt, record s { timeouts = add_timeout s.timeouts (host_with_port url 1965) })
count_timeout url false s = (ok tt, s)

-- Behind the catch block, where `error` is not empty for an exception with a text.
unfoldable pub recover : World → Url → Bytes → M Bool
recover w url error = do
  count_timeout url (is_timeout error)
  (if is_empty error then give true else (do
    execute w (fail_page (text url) (pos 0) error)
    execute w (expire_page (text url))
    give false))

abbrev pub catch : M Bool → (Bytes → M Bool) → M Bool
catch body handle s = let (r, s') = body s in elim r [ ok b ↦ (ok b, s') | thrown e ↦ handle e s' ]

-- crawlPage. `unset` is what the variable `status` holds before the loop.
unfoldable pub crawl_page : ℤ → World → Setting → Bytes → M Bool
crawl_page unset w p url_str =
    let url = parse p.junk true url_str in
    if not url.good || not (bytes_eq (text url) url_str)
    then (do execute w (remove_page url_str); execute w (remove_links_of url_str); give false)
    else catch (crawl_body unset w p url) (recover w url)
