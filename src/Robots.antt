-- ===== src/Robots.antt =====
-- tlgsutils/robots_txt_parser.cpp: `parseRobotsTxt`. A std::set<std::string> is the sorted list of
-- its members; drogon's `replaceAll` is an argument.
pub mod Wildcard
pub mod Lines
pub mod Groups
use tlgs.Common.{
  ℕ, Bool, true, false, not, ◌&&◌, ◌||◌, List, [], ◌∷◌, ◌==◌, Option, none, some, if◌then◌else◌,
  Bytes, codes, any, is_empty, is_blank, lower, bytes_eq, bytes_lt, contains, from,
}

abbrev pub cons_head : ℕ → List Bytes → List Bytes
cons_head c [] = (c ∷ []) ∷ []
cons_head c (w ∷ ws) = (c ∷ w) ∷ ws

-- The lines that std::getline gives one after the other.
unfoldable pub get_lines : Bytes → List Bytes
get_lines [] = []
get_lines (c ∷ s) = let rest = get_lines s in if c == b'\n' then [] ∷ rest else cons_head c rest

abbrev pub not_blank : ℕ → Bool
not_blank c = not (is_blank c)

-- What stands before and behind the last ':'.
unfoldable pub split_last_colon : Bytes → Option (Bytes × Bytes)
split_last_colon [] = none
split_last_colon (c ∷ s) = elim (split_last_colon s) [
  | some (a, b) ↦ some (c ∷ a, b)
  | none ↦ if c == b':' then some ([], s) else none
]

abbrev pub is_return : ℕ → Bool
is_return c = c == b'\r'

-- The groups of `[ \t]*(.*):[ \t]*(.*)` on a whole line. The stars are greedy, so the colon is the
-- last one; '.' matches no carriage return.
unfoldable pub match_line : Bytes → Option (Bytes × Bytes)
match_line line =
    if any is_return line then none else elim (split_last_colon (from not_blank line)) [
      | none ↦ none
      | some (key, value) ↦ some (key, from not_blank value)
    ]

unfoldable pub set_insert : Bytes → List Bytes → List Bytes
set_insert x [] = x ∷ []
set_insert x (y ∷ ys) =
    let rest = set_insert x ys in
    if bytes_eq x y then y ∷ ys else if bytes_lt x y then x ∷ y ∷ ys else y ∷ rest

-- the variables of the loop
pub record Robots : Type 0 where
  pub disallowed_path : List Bytes
  pub care : Bool
  pub last_line_user_agent : Bool

abbrev pub has_agent : List Bytes → Bytes → Bool
has_agent agents agent = any (bytes_eq agent) agents

unfoldable pub read_agent : List Bytes → Bytes → Bytes → Robots → Robots
read_agent agents key value r =
    if bytes_eq key (codes "user-agent")
    then (record r {
      care =
          if r.last_line_user_agent
          then r.care || has_agent agents value
          else has_agent agents value;
      last_line_user_agent = true;
    })
    else record r { last_line_user_agent = false }

unfoldable pub read_disallow : Bytes → Bytes → Robots → Robots
read_disallow key value r =
    if bytes_eq key (codes "disallow") && r.care
    then (record r {
      disallowed_path = if is_empty value then [] else set_insert value r.disallowed_path;
    })
    else r

-- One round of the loop, on a line that matches.
unfoldable pub read_entry : List Bytes → Bytes × Bytes → Robots → Robots
read_entry agents (name, value) r =
    read_disallow (lower name) value (read_agent agents (lower name) value r)

unfoldable pub read_lines : List Bytes → List Bytes → Robots → Robots
read_lines agents [] r = r
read_lines agents (line ∷ lines) r =
    read_lines agents lines
      (elim (match_line line) [ none ↦ r | some entry ↦ read_entry agents entry r ])

abbrev pub start : Robots
start = record { disallowed_path = []; care = true; last_line_user_agent = false }

unfoldable pub parse_robots_txt : (Bytes → Bytes → Bytes → Bytes) → Bytes → List Bytes → List Bytes
parse_robots_txt replace_all str agents =
    let lf_str =
      if contains str (codes "\r\n") then replace_all str (codes "\r\n") (codes "\n") else str in
    (read_lines agents (get_lines lf_str) start).disallowed_path
