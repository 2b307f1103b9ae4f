-- ===== src/Tests/GeminiRuns.antt =====
-- tlgsutils/gemini_parser.cpp.
use tlgs.Common.{◌≡◌, refl, true, [], ◌∷◌, List, Bytes, codes, bytes_eq, starts_with}
use tlgs.Common.Decimal.{pos}
use tlgs.Gemini.{
  Node, add_node, extract_gemini, extract_gemini_concise, concise_onto, skips_node,
  skips_preformatted, skips_line, still_first, is_dated, is_gemsub, is_gemsub_of, gemsub_loop,
  is_feed_entry,
}
use tlgs.Gemini.Extract.{concise_keeps_links, link_targets}
use tlgs.Gemini.Runs.{is_gemsub_runs, three_in_a_row, verdicts}
use tlgs.Tests.UrlRuns.{run, page}

abbrev text_node : Bytes → Node
text_node s = record { text = s; type = codes "text"; meta = [] }

abbrev link_node : Bytes → Bytes → Node
link_node s target = record { text = s; type = codes "link"; meta = target }

abbrev feed : List Node
feed =
    record { text = codes "Log"; type = codes "heading1"; meta = [] }
    ∷ text_node (codes "-----")
    ∷ link_node (codes "2021-1-3 b") (codes "/b")
    ∷ text_node (codes "news")
    ∷ link_node (codes "2021-01-02 a") (codes "/a")
    ∷ link_node (codes "2020-12-31 z") (codes "/z")
    ∷ []

feed_text : extract_gemini_concise feed ≡ record {
  text = codes "Log\n2021-1-3 b\nnews\n2021-01-02 a\n2020-12-31 z\n";
  title = codes "Log";
  links = codes "/b" ∷ codes "/a" ∷ codes "/z" ∷ [];
}
unfolding extract_gemini_concise concise_onto still_first skips_node skips_preformatted skips_line
    add_node bytes_eq starts_with
feed_text = refl

feed_found : is_gemsub feed ≡ true
unfolding is_gemsub gemsub_loop is_dated bytes_eq
feed_found = refl

concise_keeps_links_example :
    ((extract_gemini_concise feed).links ≡ link_targets feed)
    × ((extract_gemini_concise feed).title ≡ (extract_gemini feed).title)
concise_keeps_links_example = concise_keeps_links feed

is_gemsub_runs_example :
    (is_gemsub feed ≡ three_in_a_row (verdicts (λ node. is_dated node.text) feed))
    × (is_gemsub_of (pos 0) feed (run page) (codes "gemini")
        ≡ three_in_a_row (verdicts (is_feed_entry (pos 0) (run page) (codes "gemini")) feed))
is_gemsub_runs_example = is_gemsub_runs (pos 0) feed (run page) (codes "gemini")
