-- ===== src/Crawler/Page.antt =====
-- `crawlPage` of tlgs/crawler/crawler.cpp: what it does with the database, the network and the
-- crawler's own state, in the order in which it does it.
pub mod World
pub mod Redirects
pub mod Links
pub mod Content
pub mod Crawl
pub mod Quiet
pub mod Granted
pub mod Loop
pub mod Requests
pub mod Rounds
pub mod LinkSet
