-- ===== src/Tests/UrlRuns.antt =====
-- tlgsutils/url_parser.cpp and tlgsutils/url_parser.hpp; see tlgsutils/tests/url_parser_test.cpp.
use tlgs.Common.{
  ◌≡◌, refl, ◌≢◌, true, false, List, [], ◌∷◌, Bytes, codes, before, from, bytes_eq, lower,
  split_slashes,
}
use tlgs.Common.Decimal.{
  pos, int_eq, int_lt, to_string, to_string_ℕ, split_sign, value_from, scan_number, stoi,
}
use tlgs.FilePath.{
  split_path, go_up, resolve_name, resolve, join_names, render_path, lexically_normal,
}
use tlgs.Url.{Url, protocol_default_port, render, str, url_eq, normalize}
use tlgs.Url.Cache.{Use, printed, host_set, path_set, after_uses, str-after_uses}
use tlgs.Url.Invariant.{parse-IsNormal}
use tlgs.Url.Normal.{IsNormal, shown_port}
use tlgs.Url.Parse.{
  parse_param, parse_path, parse_port, parse_authority, parse_host, parse_protocol, parse,
}
use tlgs.Url.RoundTrip.{parse-render, str-parse-str}

-- Names all that a run of the parser computes with.
unfoldable pub run : Bytes → Url
unfolding parse split_slashes parse_protocol protocol_default_port bytes_eq parse_host before from
    parse_authority parse_port stoi scan_number split_sign value_from int_lt parse_path parse_param
    normalize lower lexically_normal split_path resolve resolve_name go_up render_path join_names
run s = parse (pos 0) true s

abbrev pub page : Bytes
page = codes "gemini://Example.com:1966/a/./b/../c.gmi?q=1#top"

page_text : render (run page) ≡ codes "gemini://example.com:1966/a/c.gmi?q=1#top"
unfolding run render int_eq to_string to_string_ℕ
page_text = refl

default_port_hidden :
    render (run (codes "gemini://localhost:1965/~user/")) ≡ codes "gemini://localhost/~user/"
unfolding run render int_eq to_string
default_port_hidden = refl

bad_port : (run (codes "gemini://localhost:65536/")).good ≡ false
unfolding run
bad_port = refl

bad_protocol : (run (codes "some_random_thing")).good ≡ false
unfolding run
bad_protocol = refl

upward : (run (codes "gemini://localhost/../../..")).path ≡ codes "/"
unfolding run
upward = refl

-- The default port is looked up before the protocol is put in lower case, so the text of a URL
-- with a protocol in capitals is not a fixed point.
capital_protocol :
    (render (run (codes "GEMINI://a:1965/")) ≡ codes "gemini://a:1965/")
    × (render (run (codes "gemini://a:1965/")) ≡ codes "gemini://a/")
unfolding run render int_eq to_string to_string_ℕ
capital_protocol = (refl, refl)

-- Two URLs with one text may differ under operator==.
same_text_not_equal :
    (render (run (codes "gemini://a:1965/")) ≡ render (run (codes "gemini://a/")))
    × (url_eq (run (codes "gemini://a:1965/")) (run (codes "gemini://a/")) ≡ false)
unfolding run render int_eq to_string to_string_ℕ url_eq
same_text_not_equal = (refl, refl)

page_good : (parse (pos 0) true page).good ≡ true
unfolding run
page_good = refl

page_protocol : (parse (pos 0) true page).protocol ≡ codes "gemini"
unfolding run
page_protocol = refl

page_has_protocol : (parse (pos 0) true page).protocol ≢ []
page_has_protocol h = cc (page_protocol)

page_default_port :
    (parse (pos 0) true page).default_port
    ≡ pos (protocol_default_port (parse (pos 0) true page).protocol)
unfolding run
page_default_port = refl

str-parse-str_example :
    (str (parse (pos 0) true (str (parse (pos 0) true page)).0)).0
    ≡ (str (parse (pos 0) true page)).0
str-parse-str_example = str-parse-str (pos 0) page page_good page_has_protocol page_default_port

parse-IsNormal_example : IsNormal (parse (pos 0) true page)
parse-IsNormal_example = parse-IsNormal (pos 0) page page_good

parse-render_example :
    parse (pos 7) true (render (parse (pos 0) true page))
    ≡ record (parse (pos 0) true page) { port = shown_port (parse (pos 0) true page) }
parse-render_example =
    parse-render (pos 7) (parse (pos 0) true page) parse-IsNormal_example page_has_protocol
      page_default_port

abbrev first_page : Bytes
first_page = codes "gemini://a/x"

abbrev second_page : Bytes
second_page = codes "gemini://a/y"

abbrev third_page : Bytes
third_page = codes "gemini://b/"

abbrev changes : List Use
changes = printed ∷ host_set (codes "b.org") ∷ printed ∷ path_set (codes "/x") true ∷ []

str-after_uses_example :
    ((str (after_uses changes (parse (pos 0) true page))).0
      ≡ render (after_uses changes (parse (pos 0) true page)))
    × ((str (after_uses changes (parse (pos 0) true page))).1.cache
        ≡ render (after_uses changes (parse (pos 0) true page)))
unfolding run
str-after_uses_example = str-after_uses (pos 0) page changes refl

abbrev cached : Url
cached = record (parse (pos 0) true page) { cache = page }

pub page-IsNormal : IsNormal (run page)
unfolding run
page-IsNormal = parse-IsNormal (pos 0) page page_good
