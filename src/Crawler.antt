-- ===== src/Crawler.antt =====
-- tlgs/crawler: the crawler's components.
pub mod Blacklist
pub mod Dispatch
pub mod Policy
pub mod Queue
pub mod Supply
pub mod Page
