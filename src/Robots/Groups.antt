-- ===== src/Robots/Groups.antt =====
-- `parseRobotsTxt` (tlgsutils/robots_txt_parser.cpp) on a file of groups, each some user agents and
-- then some rules.
pub mod Steps
unfoldable pub use Steps.*
use tlgs.Common.{
  ◌≡◌, refl, ap, ◌∙◌, Bool, true, false, not, ◌&&◌, ◌||◌, List, [], ◌∷◌, ◌++◌, arith, ◌==◌, some,
  if◌then◌else◌, Bytes, codes, all, all_of_imp, all-append, any, contains, starts_with, from, lower,
  bytes_eq,
}
use tlgs.Robots.{
  get_lines, is_return, not_blank, match_line, set_insert, Robots, has_agent, read_agent,
  read_disallow, read_entry, read_lines, parse_robots_txt,
}
use tlgs.Robots.Lines.{is_special, is_word, get_lines-line, match_line-colon, leads}

-- the loop's variables, spelled out
abbrev state_of : List Bytes → Bool → Bool → Robots
state_of set care last = record { disallowed_path = set; care = care; last_line_user_agent = last }

or_false : (a : Bool) → a ≡ (a || false)
or_false true = refl
or_false false = refl

or_assoc : (a b c : Bool) → ((a || b) || c) ≡ (a || (b || c))
or_assoc true b c = refl
or_assoc false b c = refl

more_agent_lines :
    (agents vs : List Bytes) (rest : Bytes) (set : List Bytes) (care : Bool)
    → all is_word vs ≡ true
    → read_lines agents (get_lines (lines_of user_agent vs rest)) (state_of set care true)
      ≡ read_lines agents (get_lines rest) (state_of set (care || any (has_agent agents) vs) true)
more_agent_lines agents [] rest set care h =
    ap (λ c. read_lines agents (get_lines rest) (state_of set c true)) (or_false care)
more_agent_lines agents (v ∷ vs) rest set care h =
    word_lines agents user_agent v (lines_of user_agent vs rest) (state_of set care true) refl
      (ground arith)
    ∙ ap (read_lines agents (get_lines (lines_of user_agent vs rest)))
        (agent_step agents v (state_of set care true))
    ∙ more_agent_lines agents vs rest set (care || has_agent agents v) (ground arith)
    ∙ ap (λ c. read_lines agents (get_lines rest) (state_of set c true))
        (or_assoc care (has_agent agents v) (any (has_agent agents) vs))

more_rule_lines :
    (agents vs : List Bytes) (rest : Bytes) (set : List Bytes) (care : Bool)
    → all is_word vs ≡ true
    → read_lines agents (get_lines (lines_of disallow vs rest)) (state_of set care false)
      ≡ read_lines agents
          (get_lines rest)
          (state_of (if care then insert_all vs set else set) care false)
more_rule_lines agents [] rest set true h = refl
more_rule_lines agents [] rest set false h = refl
more_rule_lines agents (v ∷ vs) rest set true h =
    word_lines agents disallow v (lines_of disallow vs rest) (state_of set true false) refl
      (ground arith)
    ∙ ap (read_lines agents (get_lines (lines_of disallow vs rest)))
        (rule_step agents v (state_of set true false) (ground arith))
    ∙ more_rule_lines agents vs rest (set_insert v set) true (ground arith)
more_rule_lines agents (v ∷ vs) rest set false h =
    word_lines agents disallow v (lines_of disallow vs rest) (state_of set false false) refl
      (ground arith)
    ∙ ap (read_lines agents (get_lines (lines_of disallow vs rest)))
        (rule_step agents v (state_of set false false) (ground arith))
    ∙ more_rule_lines agents vs rest set false (ground arith)

-- The rules of a group, read behind its last user agent.
rule_lines :
    (agents vs : List Bytes) (v rest : Bytes) (set : List Bytes) (care : Bool)
    → all is_word (v ∷ vs) ≡ true
    → read_lines agents (get_lines (lines_of disallow (v ∷ vs) rest)) (state_of set care true)
      ≡ read_lines agents
          (get_lines rest)
          (state_of (if care then insert_all (v ∷ vs) set else set) care false)
rule_lines agents vs v rest set care h =
    word_lines agents disallow v (lines_of disallow vs rest) (state_of set care true) refl
      (ground arith)
    ∙ ap (read_lines agents (get_lines (lines_of disallow vs rest)))
        (rule_step agents v (state_of set care true) (ground arith))
    ∙ more_rule_lines agents vs rest (if care then set_insert v set else set) care (ground arith)
    ∙ ap (λ x. read_lines agents (get_lines rest) (state_of x care false)) (same_test care)
  where
    same_test :
        (b : Bool)
        → (if b
            then insert_all vs (if b then set_insert v set else set)
            else if b
            then set_insert v set
            else set)
          ≡ (if b then insert_all (v ∷ vs) set else set)
    same_test true = refl
    same_test false = refl

agent_lines :
    (agents vs : List Bytes) (v rest : Bytes) (set : List Bytes) (care : Bool)
    → all is_word (v ∷ vs) ≡ true
    → read_lines agents (get_lines (lines_of user_agent (v ∷ vs) rest)) (state_of set care false)
      ≡ read_lines agents (get_lines rest) (state_of set (any (has_agent agents) (v ∷ vs)) true)
agent_lines agents vs v rest set care h =
    word_lines agents user_agent v (lines_of user_agent vs rest) (state_of set care false) refl
      (ground arith)
    ∙ ap (read_lines agents (get_lines (lines_of user_agent vs rest)))
        (agent_step agents v (state_of set care false))
    ∙ more_agent_lines agents vs rest set (has_agent agents v) (ground arith)

group_lines :
    (agents : List Bytes) (gs : List Group) (set : List Bytes) (care : Bool)
    → all is_group gs ≡ true
    → (read_lines agents (get_lines (print_groups gs)) (state_of set care false)).disallowed_path
      ≡ rules_for agents gs set
group_lines agents [] set care h = unfold get_lines read_lines in refl
group_lines agents (g ∷ gs) set care h =
    let rest = print_groups gs in
    let cares = any (has_agent agents) (g.agent ∷ g.more_agents) in
    ap (λ r. r.disallowed_path)
      (agent_lines agents g.more_agents g.agent (lines_of disallow (g.rule ∷ g.more_rules) rest) set
          care (ground arith)
        ∙ rule_lines agents g.more_rules g.rule rest set cares (ground arith))
    ∙ group_lines agents gs _ cares (ground arith)

lines_of-no_return :
    (k : Bytes) (vs : List Bytes) (rest : Bytes)
    → is_key k ≡ true
    → all is_word vs ≡ true
    → all (λ c. not (is_return c)) rest ≡ true
    → all (λ c. not (is_return c)) (lines_of k vs rest) ≡ true
lines_of-no_return k [] rest hk hv h = h
lines_of-no_return k (v ∷ vs) rest hk hv h =
    let weaken =
      all_of_imp (λ c. not (is_special c)) (λ c. not (is_return c)) (λ c e. ground arith) in
    all-append (λ c. not (is_return c)) (line_of k v) (b'\n' ∷ lines_of k vs rest)
    ∙ ground (
      arith,
      all-append (λ c. not (is_return c)) k (b':' ∷ b' ' ∷ v),
      weaken k,
      weaken v,
      lines_of-no_return k vs rest hk,
    )

print_groups-no_return :
    (gs : List Group)
    → all is_group gs ≡ true
    → all (λ c. not (is_return c)) (print_groups gs) ≡ true
print_groups-no_return [] h = refl
print_groups-no_return (g ∷ gs) h =
    lines_of-no_return user_agent (g.agent ∷ g.more_agents) _ refl (ground arith) (
      lines_of-no_return disallow (g.rule ∷ g.more_rules) _ refl (ground arith)
        (print_groups-no_return gs (ground arith)))

contains-no_return :
    (s : Bytes) → all (λ c. not (is_return c)) s ≡ true → contains s (codes "\r\n") ≡ false
unfolding contains starts_with
contains-no_return [] h = refl
contains-no_return (c ∷ s) h = ground (arith, contains-no_return s)

-- On a file of groups, with agents and rules that a line can hold, the parser gives the rules of
-- the groups that name one of our agents, in the set's order, whatever the other groups say.
pub parse_robots_txt-print_groups :
    (replace_all : Bytes → Bytes → Bytes → Bytes) (agents : List Bytes) (gs : List Group)
    → all is_group gs ≡ true
    → parse_robots_txt replace_all (print_groups gs) agents ≡ rules_for agents gs []
unfolding parse_robots_txt
parse_robots_txt-print_groups replace_all agents gs h =
    rw (contains-no_return (print_groups gs) (print_groups-no_return gs h), parse_robots_txt)
      (group_lines agents gs [] true h)
