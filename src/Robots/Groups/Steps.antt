-- ===== src/Robots/Groups/Steps.antt =====
-- One line of a robots.txt file that is printed from its groups (tlgsutils/robots_txt_parser.cpp).
use tlgs.Common.{
  ◌≡◌, refl, ap, ◌∙◌, Bool, true, false, not, ◌&&◌, ◌||◌, List, [], ◌∷◌, ◌++◌, arith, ◌==◌, some,
  if◌then◌else◌, Bytes, codes, all, all_of_imp, all-append, any, from, lower, bytes_eq,
}
use tlgs.Robots.{
  get_lines, is_return, not_blank, match_line, set_insert, Robots, has_agent, read_agent,
  read_disallow, read_entry, read_lines,
}
use tlgs.Robots.Lines.{is_special, is_word, get_lines-line, match_line-colon, leads}

pub record Group : Type 0 where
  pub agent : Bytes
  pub more_agents : List Bytes
  pub rule : Bytes
  pub more_rules : List Bytes

abbrev pub line_of : Bytes → Bytes → Bytes
line_of key value = key ++ b':' ∷ b' ' ∷ value

abbrev pub lines_of : Bytes → List Bytes → Bytes → Bytes
lines_of key [] rest = rest
lines_of key (v ∷ vs) rest = line_of key v ++ b'\n' ∷ lines_of key vs rest

abbrev pub user_agent : Bytes
user_agent = codes "User-agent"

abbrev pub disallow : Bytes
disallow = codes "Disallow"

-- The text of the groups.
abbrev pub print_groups : List Group → Bytes
print_groups [] = []
print_groups (g ∷ gs) =
    lines_of user_agent (g.agent ∷ g.more_agents)
      (lines_of disallow (g.rule ∷ g.more_rules) (print_groups gs))

abbrev pub insert_all : List Bytes → List Bytes → List Bytes
insert_all [] set = set
insert_all (v ∷ vs) set = insert_all vs (set_insert v set)

-- The rules of the groups that name one of the agents.
abbrev pub rules_for : List Bytes → List Group → List Bytes → List Bytes
rules_for agents [] set = set
rules_for agents (g ∷ gs) set = rules_for agents gs (
    if any (has_agent agents) (g.agent ∷ g.more_agents)
    then insert_all (g.rule ∷ g.more_rules) set
    else set)

abbrev pub is_group : Group → Bool
is_group g = all is_word (g.agent ∷ g.more_agents) && all is_word (g.rule ∷ g.more_rules)

-- A key of the two that are printed.
abbrev pub is_key : Bytes → Bool
is_key k = leads k && all (λ c. not (is_special c)) k

line_clean :
    (k v : Bytes)
    → is_key k ≡ true
    → is_word v ≡ true
    → all (λ c. not (c == b'\n')) (line_of k v) ≡ true
line_clean k v hk hv =
    let weaken =
      all_of_imp (λ c. not (is_special c)) (λ c. not (c == b'\n')) (λ c e. ground arith) in
    all-append (λ c. not (c == b'\n')) k (b':' ∷ b' ' ∷ v) ∙ ground (arith, weaken k, weaken v)

from_value : (v : Bytes) → leads v ≡ true → from not_blank (b' ' ∷ v) ≡ v
unfolding from
from_value [] h = cc
from_value (c ∷ v) h = rw h

match_line_of :
    (k v : Bytes) → is_key k ≡ true → is_word v ≡ true → match_line (line_of k v) ≡ some (k, v)
match_line_of k v hk hv =
    let no_cr =
      all_of_imp (λ c. not (is_special c)) (λ c. not (is_return c)) (λ c e. ground arith) in
    let no_colon =
      all_of_imp (λ c. not (is_special c)) (λ c. not (c == b':')) (λ c e. ground arith) in
    match_line-colon k (b' ' ∷ v) (ground arith) (no_cr k (ground arith)) (no_cr v (ground arith))
      (no_colon v (ground arith))
    ∙ ap (λ x. some (k, x)) (from_value v (ground arith))

next_line :
    (agents : List Bytes) (l : Bytes) (ls : List Bytes) (e : Bytes × Bytes) (r : Robots)
    → match_line l ≡ some e
    → read_lines agents (l ∷ ls) r ≡ read_lines agents ls (read_entry agents e r)
unfolding read_lines
next_line agents l ls e r h = rw h

pub word_lines :
    (agents : List Bytes) (k v rest : Bytes) (r : Robots)
    → is_key k ≡ true
    → is_word v ≡ true
    → read_lines agents (get_lines (line_of k v ++ b'\n' ∷ rest)) r
      ≡ read_lines agents (get_lines rest) (read_entry agents (k, v) r)
word_lines agents k v rest r hk hv =
    ap (λ ls. read_lines agents ls r) (get_lines-line (line_of k v) rest (line_clean k v hk hv))
    ∙ next_line agents (line_of k v) (get_lines rest) (k, v) r (match_line_of k v hk hv)

pub agent_step :
    (agents : List Bytes) (v : Bytes) (r : Robots)
    → read_entry agents (user_agent, v) r ≡ record r {
      care = if r.last_line_user_agent then r.care || has_agent agents v else has_agent agents v;
      last_line_user_agent = true;
    }
unfolding read_entry read_agent read_disallow lower bytes_eq
agent_step agents v r = refl

pub rule_step :
    (agents : List Bytes) (v : Bytes) (r : Robots)
    → is_word v ≡ true
    → read_entry agents (disallow, v) r ≡ record r {
      disallowed_path = if r.care then set_insert v r.disallowed_path else r.disallowed_path;
      last_line_user_agent = false;
    }
unfolding read_entry read_agent read_disallow lower bytes_eq
rule_step agents [] r h = cc
rule_step agents (c ∷ v) r h = ground arith
