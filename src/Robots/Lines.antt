-- ===== src/Robots/Lines.antt =====
-- The lines of a robots.txt as `parseRobotsTxt` (tlgsutils/robots_txt_parser.cpp) takes them apart.
use tlgs.Common.{
  ℕ, ◌≡◌, refl, ap, ◌∙◌, Bool, true, false, not, ◌&&◌, ◌||◌, List, [], ◌∷◌, ◌++◌, arith, ◌==◌, none,
  some, Bytes, codes, all, all-append, any, is_blank, from, lower, bytes_eq,
}
use tlgs.Robots.{
  get_lines, not_blank, split_last_colon, is_return, match_line, Robots, read_agent, read_disallow,
  read_entry, read_lines,
}

-- A byte that ends a line or a key.
abbrev pub is_special : ℕ → Bool
is_special c = c == b':' || c == b'\n' || c == b'\r'

abbrev pub leads : Bytes → Bool
leads [] = false
leads (c ∷ s) = not (is_blank c)

-- A value that a line can hold: not empty, no blank at its front, and no special byte.
abbrev pub is_word : Bytes → Bool
is_word v = leads v && all (λ c. not (is_special c)) v

pub get_lines-line :
    (l t : Bytes)
    → all (λ c. not (c == b'\n')) l ≡ true
    → get_lines (l ++ b'\n' ∷ t) ≡ l ∷ get_lines t
unfolding get_lines
get_lines-line [] t h = refl
get_lines-line (c ∷ l) t h = ground (arith, get_lines-line l t)

split_last_colon-none :
    (v : Bytes) → all (λ c. not (c == b':')) v ≡ true → split_last_colon v ≡ none
unfolding split_last_colon
split_last_colon-none [] h = refl
split_last_colon-none (c ∷ v) h = ground (arith, split_last_colon-none v)

split_last_colon-some :
    (k v : Bytes)
    → all (λ c. not (c == b':')) v ≡ true
    → split_last_colon (k ++ b':' ∷ v) ≡ some (k, v)
unfolding split_last_colon
split_last_colon-some [] v h = ground (arith, split_last_colon-none v h)
split_last_colon-some (c ∷ k) v h = ground (arith, split_last_colon-some k v h)

any-all : (p : ℕ → Bool) (s : Bytes) → all (λ c. not (p c)) s ≡ true → any p s ≡ false
any-all p [] h = refl
any-all p (c ∷ s) h = ground (arith, any-all p s)

pub from-leads : (k t : Bytes) → leads k ≡ true → from not_blank (k ++ t) ≡ k ++ t
unfolding from
from-leads [] t h = cc
from-leads (c ∷ k) t h = rw h

no_return : (s : Bytes) → Bool
no_return = all (λ c. not (is_return c))

-- The key ends at the line's last colon, and the blanks behind that are dropped.
pub match_line-colon :
    (k v : Bytes)
    → leads k ≡ true
    → all (λ c. not (is_return c)) k ≡ true
    → all (λ c. not (is_return c)) v ≡ true
    → all (λ c. not (c == b':')) v ≡ true
    → match_line (k ++ b':' ∷ v) ≡ some (k, from not_blank v)
unfolding match_line
match_line-colon k v lead hk hv hc =
    let clean : any is_return (k ++ b':' ∷ v) ≡ false =
      any-all is_return (k ++ b':' ∷ v)
        (all-append (λ c. not (is_return c)) k (b':' ∷ v) ∙ ground arith) in
    rw (clean, from-leads k (b':' ∷ v) lead, split_last_colon-some k v hc)

-- A rule whose path has a colon is lost: the line "Disallow: a:b" has the key "Disallow: a", and
-- all it does is to end a run of user agents.
pub read_lines-colon_rule :
    (agents lines : List Bytes) (a b : Bytes) (r : Robots)
    → all (λ c. not (is_return c)) a ≡ true
    → all (λ c. not (is_return c)) b ≡ true
    → all (λ c. not (c == b':')) b ≡ true
    → read_lines agents ((codes "Disallow: " ++ (a ++ b':' ∷ b)) ∷ lines) r
      ≡ read_lines agents lines (record r { last_line_user_agent = false })
unfolding read_lines
read_lines-colon_rule agents lines a b r ha hb hc =
    rw (match_line-colon (codes "Disallow: " ++ a) b refl ha hb hc)
      (ap (read_lines agents lines) (other_key agents a (from not_blank b) r))
  where
    other_key :
        (agents : List Bytes) (a v : Bytes) (r : Robots)
        → read_entry agents (codes "Disallow: " ++ a, v) r
          ≡ record r { last_line_user_agent = false }
    other_key agents a v r = unfold read_entry read_agent read_disallow lower bytes_eq in refl
