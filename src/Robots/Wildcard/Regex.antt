-- ===== src/Robots/Wildcard/Regex.antt =====
-- The last case of `wildcardPathMatch` (tlgsutils/robots_txt_parser.cpp): the pattern is turned
-- into an ECMAScript regular expression in which only ".*", '?', '^' and '$' are special, and the
-- whole path is matched.
use tlgs.Common.{
  ℕ, Bool, true, false, not, ◌&&◌, ◌||◌, List, [], ◌∷◌, ◌==◌, Option, none, some, if◌then◌else◌,
  Bytes, is_empty,
}

pub data Item : Type 0 where
  literal optional : ℕ → Item
  any_string at_start at_end : Item

-- the item that a '?' makes of the one before it
abbrev make_optional : Item → Item
make_optional (literal c) = optional c
make_optional i = i

abbrev is_assertion : ℕ → Bool
is_assertion c = c == b'^' || c == b'$'

abbrev prepend : Option Item → Option (List Item) → Option (List Item)
prepend none items = items
prepend (some i) none = none
prepend (some i) (some items) = some (i ∷ items)

abbrev item_of : ℕ → Item
item_of c = if c == b'*' then any_string else literal c

-- The items of a pattern; `none` is a std::regex_error: a '?' with nothing to repeat. `pending` is
-- the item that a '?' may still follow.
unfoldable pub compile_pattern : Option Item → Bytes → Option (List Item)
compile_pattern pending [] = prepend pending (some [])
compile_pattern pending (c ∷ s) =
    let next =
      if c == b'?'
      then (elim pending [ none ↦ none | some i ↦ some (make_optional i) ])
      else if is_assertion c
      then none
      else some (item_of c) in
    let rest = compile_pattern next s in
    if c == b'?'
    then (elim pending [ none ↦ none | some i ↦ rest ])
    else prepend pending (
        if c == b'^'
        then prepend (some at_start) rest
        else if c == b'$'
        then prepend (some at_end) rest
        else rest)

-- '.' matches no line end.
abbrev pub matches_dot : ℕ → Bool
matches_dot c = not (c == b'\n' || c == b'\r')

unfoldable pub match_any : (Bool → Bytes → Bool) → Bool → Bytes → Bool
match_any k at_front [] = k at_front []
match_any k at_front (c ∷ s) = k at_front (c ∷ s) || (matches_dot c && match_any k false s)

abbrev match_literal : ℕ → (Bool → Bytes → Bool) → Bytes → Bool
match_literal d k [] = false
match_literal d k (c ∷ s) = c == d && k false s

-- Do the items match the whole text? The flag tells whether it is at its front.
unfoldable pub match_items : List Item → Bool → Bytes → Bool
match_items [] at_front s = is_empty s
match_items (literal c ∷ items) at_front s = match_literal c (match_items items) s
match_items (optional c ∷ items) at_front s =
    match_items items at_front s || match_literal c (match_items items) s
match_items (any_string ∷ items) at_front s = match_any (match_items items) at_front s
match_items (at_start ∷ items) at_front s = at_front && match_items items at_front s
match_items (at_end ∷ items) at_front s = is_empty s && match_items items at_front s

unfoldable pub regex_path_match : Bytes → Bytes → Bool
regex_path_match pattern str = elim (compile_pattern none pattern) [
  | none ↦ false
  | some items ↦ match_items items true str
]
