-- ===== src/Lib.antt =====
-- TLGS, a search engine for the Gemini space: a crawler fills a database with pages and links, and
-- a server answers queries from it. The two programs share the library tlgsutils. The modules:
--
--   Common        shared names; lists, byte strings, decimal numbers (std::stoi, std::to_string)
--   FilePath      std::filesystem::path on POSIX paths: lexically_normal, parent_path, append
--   Url           tlgsutils/url_parser.hpp, tlgsutils/url_parser.cpp: the class Url. Url.Parse is
--                 the constructor, stage by stage; Url has the other methods and the operators.
--   Utils         tlgsutils/utils.cpp: isAsciiArt, urlEncode, linkCompose, isNonUriAction,
--                 try_strtoull, indexFriendly, pgSQLRealEscape
--   Robots        tlgsutils/robots_txt_parser.cpp: parseRobotsTxt (Robots), wildcardPathMatch and
--                 isPathBlocked (Robots.Wildcard)
--   Gemini        tlgsutils/gemini_parser.cpp: extractGemini, extractGeminiConcise, isGemsub
--   UrlBlacklist  tlgsutils/url_blacklist.hpp
--   Counter       tlgsutils/counter.hpp
--   Crawler       Crawler.Blacklist is tlgs/crawler/blacklist.cpp. Crawler.Policy (parseMime,
--                 shouldCrawl), Crawler.Queue (getNextCrawlPage), Crawler.Supply
--                 (getNextPotentialCarwlUrl), Crawler.Page (crawlPage) and
--                 Crawler.Dispatch (dispatchCrawl, awaitEnd) are parts of
--                 tlgs/crawler/crawler.cpp and tlgs/crawler/crawler.hpp.
--   Search        tlgs/server/controllers/search.cpp: the filters of a search and sanitizeGemini
--                 (Search), parseSearchQuery (Search.Query), the graph of pageSearch
--                 (Search.Graph) and its removal of duplicates (Search.Merge), the links that
--                 salsaRank keeps (Search.Ranking), its scores (Search.Scores) and those
--                 of hitsRank (Search.Hits), pageSearch as a whole (Search.PageSearch);
--                 tlgs_search: its cache (Search.Service), the ranges of its pages
--                 (Search.Pages) and what they show (Search.Shown); jump_search
--                 (Search.Pages) and backlinks (Search.Shown)
--   Server        tlgs/server/controllers/tools.cpp (Server.Tools),
--                 tlgs/server/controllers/api.cpp (Server.Api), and what tlgs/server/main.cpp
--                 does to the pages served through Spartan (Server.Spartan)
--   Control       tlgs/tlgs_ctl/main.cpp: the statements of its subcommands
--   Tests         runs on inputs of tlgsutils/tests, and the theorems at concrete inputs
--
-- How the parts meet: every link and every stored address goes through Url. The crawler resolves
-- links with linkCompose, asks the blacklist and the rules of the site's robots.txt, and both
-- match paths with wildcardPathMatch. dispatchCrawl bounds the crawls by a Counter. tlgs_search
-- bounds its requests by a Counter too, reads the query, asks its cache, and else has pageSearch
-- build the graph from the rows of the database, rank it and merge its pages; the filters are
-- applied to that, and one page of the results is shown.
--
-- Conventions. A string is a list of bytes, each a natural number below 256. A method that changes
-- its object returns the new one. An exception is `none`. Machine integers: the port is an
-- int, in the range that std::stoi accepts; size_t has 64 bits, and its wrap-around is written out
-- where it can happen. `default_port_` has no initialiser in the class, so the parser takes the
-- value that it happens to hold as the argument `junk`, and the theorems hold for every value.
-- A regular expression of the source is the matcher it stands for, or, where it is built from a
-- pattern, an item list with its own matcher.
-- Loops are recursion on the text or the list; only the digits of a number are made with fuel, one
-- more than the number, the removal of links with one more than there are, the queries for a full
-- queue with twelve rounds, as often as the sample can grow and two more, which is enough where no
-- other task takes the addresses away again, the parameters of a mime type with its length (each
-- takes three bytes), and the redirects of a page with six rounds, which its counter does not let
-- it exceed.
--
-- Code outside the repository is an argument: the replacement routine of drogon's utilities where
-- a parser uses it, std::stod, std::stoull to the base 16, std::shuffle, the place that a multimap
-- gives an entry, the JSON parser, the words of splitString, the answers of database and network
-- to shouldCrawl, getNextPotentialCarwlUrl and crawlPage, and the page parser of dremini, whose
-- nodes are the input of Gemini. Threads are steps: Crawler.Dispatch has one step for each access
-- to a shared atomic, in any order; in Crawler.Supply what the other tasks make of the queue and
-- of the size of the sample before each access is an argument. Search.Service has one step for
-- what a request does between two waits, in any order; in Server.Api a handler is one step. Ranks
-- and scores are of any type with the comparison that is used, and the loops of hitsRank and
-- salsaRank run over any two types of numbers with the operations of double and float that they
-- use (Search.Scores.Numbers, and Search.PageSearch.Formula for the score of a page), 300 rounds
-- at most as in the source. std::sort is any function that keeps the elements. drogon's CacheMap
-- is any map that a fetch does not add to, and that holds nothing but what has been inserted;
-- std::hash is any function.
--
-- Not modelled: the database, the network and the framework; the rest of the server's start and its
-- templates; the caches of the handlers of tlgs/server/controllers/tools.cpp, which hold one value
-- each; the command lines; tlgsutils/trie.hpp, which nothing uses, and tlgs/crawler/iconv.hpp, both
-- copies of other projects' code.
pub mod Common
pub mod FilePath
pub mod Url
pub mod Utils
pub mod Robots
pub mod Gemini
pub mod UrlBlacklist
pub mod Counter
pub mod Crawler
pub mod Search
pub mod Server
pub mod Control
mod Tests
