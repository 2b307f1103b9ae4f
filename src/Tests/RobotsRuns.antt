-- ===== src/Tests/RobotsRuns.antt =====
-- tlgsutils/robots_txt_parser.cpp; see tlgsutils/tests/robots_txt_parser_test.cpp.
use tlgs.Common.{
  ◌≡◌, refl, Bool, true, false, [], ◌∷◌, ◌++◌, Bytes, codes, before, from, bytes_eq, bytes_lt,
  lower, contains, starts_with, ends_with,
}
use tlgs.Robots.{
  get_lines, split_last_colon, match_line, set_insert, read_agent, read_disallow, read_entry,
  read_lines, parse_robots_txt,
}
use tlgs.Robots.Groups.{Group, print_groups, rules_for, parse_robots_txt-print_groups}
use tlgs.Robots.Wildcard.{rfind, plain_path_match, star_path_match, wildcard_path_match}
use tlgs.Robots.Wildcard.Regex.{compile_pattern, match_any, match_items, regex_path_match}
use tlgs.Robots.Wildcard.Stars.{IsHead}

abbrev keep : Bytes → Bytes → Bytes → Bytes
keep s from to = s

two_agents :
    parse_robots_txt keep
      (codes "User-agent: a\nUser-agent: *\nDisallow: /b\nDisallow: /a\n")
      (codes "*" ∷ [])
    ≡ codes "/a" ∷ codes "/b" ∷ []
unfolding parse_robots_txt contains starts_with get_lines split_last_colon match_line from
    set_insert bytes_eq bytes_lt read_agent read_disallow read_entry read_lines lower
two_agents = refl

matches : Bytes → Bytes → Bool
unfolding wildcard_path_match plain_path_match star_path_match bytes_eq starts_with ends_with
    contains before rfind compile_pattern match_any match_items regex_path_match
matches = wildcard_path_match

many_stars : matches (codes "/a*b*c") (codes "/aXXbYYc") ≡ true
unfolding matches
many_stars = refl

abbrev group : Group
group = record {
  agent = codes "*";
  more_agents = codes "gus" ∷ [];
  rule = codes "/cgi-bin";
  more_rules = [];
}

abbrev other : Group
other = record {
  agent = codes "bot";
  more_agents = [];
  rule = codes "/x";
  more_rules = codes "/y" ∷ [];
}

parse_robots_txt-print_groups_example :
    parse_robots_txt keep (print_groups (other ∷ group ∷ [])) (codes "*" ∷ codes "tlgs" ∷ [])
    ≡ rules_for (codes "*" ∷ codes "tlgs" ∷ []) (other ∷ group ∷ []) []
parse_robots_txt-print_groups_example =
    parse_robots_txt-print_groups keep (codes "*" ∷ codes "tlgs" ∷ []) (other ∷ group ∷ []) refl

foo-IsHead : IsHead (codes "/foo")
foo-IsHead = record { unstarred = refl; ne_nil = λ h. cc; ne_root = λ h. cc }

no_bar : contains (codes "/foo" ++ codes "xyz") (codes "bar") ≡ false
unfolding contains starts_with
no_bar = refl
