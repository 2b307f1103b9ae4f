-- ===== src/Tests/ControlRuns.antt =====
-- tlgs/tlgs_ctl/main.cpp and the pages of tlgs/server/main.cpp.
use tlgs.Common.{
  ℕ, ◌≡◌, refl, ap, ◌∙◌, sym, Bool, true, false, not, List, [], ◌∷◌, ◌==◌, map, any, Option, none,
  some, if◌then◌else◌, Bytes, codes, bytes_eq, bytes_eq_iff, starts_with, contains, Bool-cases, inl,
  inr, arith,
}
use tlgs.Common.Options.{some-inj}
use tlgs.Control.{
  Statement, create_table, create_index, delete_where, schema, execute_all, create_db,
}
use tlgs.Control.Schema.{NamesRelations, create_db-again}
use tlgs.Robots.{get_lines}
use tlgs.Server.Spartan.{needs_input, mark_line, handle_body}
use tlgs.Server.Spartan.Lines.{no_newline, IsReplaceAll, handle_body-lines}

abbrev has : Bytes → List Bytes → Bool
has name db = any (bytes_eq name) db

abbrev new_index : Bool → Bytes → List Bytes → Option (List Bytes)
new_index taken name db = if taken then none else some (name ∷ db)

-- A database that holds the names of its relations.
abbrev execute : Statement → List Bytes → Option (List Bytes)
execute (create_table name columns key) db = some (name ∷ db)
execute (create_index true name table by) db = some (name ∷ db)
execute (create_index false name table by) db = new_index (has name db) name db
execute (delete_where table column pattern) db = some db

name_kept :
    (name new : Bytes) (db db' : List Bytes)
    → some (new ∷ db) ≡ some db'
    → has name db ≡ true
    → has name db' ≡ true
name_kept name new db db' e h = ap (has name) (sym (some-inj (new ∷ db) db' e)) ∙ ground (arith, h)

name_made : (name : Bytes) (db db' : List Bytes) → some (name ∷ db) ≡ some db' → has name db' ≡ true
name_made name db db' e =
    ap (has name) (sym (some-inj (name ∷ db) db' e))
    ∙ ground (arith, (bytes_eq_iff name name).1 refl)

executed-keeps :
    (statement : Statement) (name : Bytes) (db db' : List Bytes)
    → execute statement db ≡ some db'
    → has name db ≡ true
    → has name db' ≡ true
executed-keeps (create_table new columns key) name db db' e h = name_kept name new db db' e h
executed-keeps (create_index true new table by) name db db' e h = name_kept name new db db' e h
executed-keeps (create_index false new table by) name db db' e h = elim (Bool-cases (has new db)) [
  | inl k ↦ absurd (cc)
  | inr k ↦ name_kept name new db db' (sym (rw (k) refl) ∙ e) h
]
executed-keeps (delete_where table column pattern) name db db' e h =
    ap (has name) (sym (some-inj db db' e)) ∙ h

executed-made :
    (if_not_exists : Bool) (name table by : Bytes) (db db' : List Bytes)
    → execute (create_index if_not_exists name table by) db ≡ some db'
    → has name db' ≡ true
executed-made true name table by db db' e = name_made name db db' e
executed-made false name table by db db' e = elim (Bool-cases (has name db)) [
  | inl k ↦ absurd (cc)
  | inr k ↦ name_made name db db' (sym (rw (k) refl) ∙ e)
]

execute-NamesRelations : NamesRelations execute has
execute-NamesRelations = record {
  keeps = executed-keeps;
  made = executed-made;
  refused = λ name table by db h. rw (h) refl;
}

abbrev relations : List Bytes
relations =
    codes "perma_redirects"
    ∷ codes "robot_policies_status"
    ∷ codes "host_port_index"
    ∷ codes "robot_policies"
    ∷ codes "to_url_index"
    ∷ codes "source_url_index"
    ∷ codes "is_cross_site_index"
    ∷ codes "links"
    ∷ codes "search_vector_index"
    ∷ codes "last_crawled_index"
    ∷ codes "pages"
    ∷ []

relations_made : create_db execute [] ≡ some relations
unfolding create_db schema execute_all bytes_eq
relations_made = refl

create_db-again_example : create_db execute relations ≡ none
create_db-again_example =
    create_db-again execute has [] relations execute-NamesRelations relations_made

-- Each "=>" of a text becomes "=:".
abbrev colon_for : ℕ → ℕ → ℕ
colon_for c d = if (c == b'=') then (if d == b'>' then b':' else d) else d

abbrev arrows_after : ℕ → Bytes → Bytes
arrows_after c [] = []
arrows_after c (d ∷ s) = colon_for c d ∷ arrows_after d s

abbrev replace_arrows : Bytes → Bytes → Bytes → Bytes
replace_arrows s from to = arrows_after 0 s

colon_for-line : (c d : ℕ) → not (d == b'\n') ≡ true → not (colon_for c d == b'\n') ≡ true
colon_for-line c d h = ground (arith, h)

arrows_after-no_newline :
    (c : ℕ) (s : Bytes) → no_newline s ≡ true → no_newline (arrows_after c s) ≡ true
arrows_after-no_newline c [] h = refl
arrows_after-no_newline c (d ∷ s) h =
    ground (arith, colon_for-line c d, arrows_after-no_newline d s, h)

replace_arrows-IsReplaceAll : IsReplaceAll replace_arrows
replace_arrows-IsReplaceAll = record {
  at_start = λ s. (arrows_after b'>' s, refl);
  one_line = λ s h. arrows_after-no_newline 0 s h;
}

abbrev front : Bytes
front = codes "# TLGS\n=> /search Search\n=> /doc/search Help"

abbrev served : Bytes → Bytes
served = handle_body replace_arrows (codes "spartan") (codes "text/gemini")

handle_body-lines_example :
    (get_lines (served front) ≡ map (mark_line replace_arrows) (get_lines front))
    × (served (served front) ≡ served front)
handle_body-lines_example = handle_body-lines replace_arrows front replace_arrows-IsReplaceAll

served-front : served front ≡ codes "# TLGS\n=: /search Search\n=> /doc/search Help\n"
unfolding handle_body bytes_eq get_lines needs_input starts_with contains
served-front = refl
