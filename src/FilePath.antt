-- ===== src/FilePath.antt =====
-- std::filesystem::path on POSIX, as the program uses it (tlgsutils/url_parser.cpp,
-- tlgsutils/utils.cpp, tlgs/crawler/blacklist.cpp): `lexically_normal`, `operator/` and
-- `parent_path`. A path is its generic string.
pub mod Normal
use tlgs.Common.{
  ℕ, ◌≡◌, Bool, true, false, not, ◌&&◌, ◌||◌, List, [], ◌∷◌, ◌++◌, ◌==◌, if◌then◌else◌, Bytes,
  bytes_eq, is_empty, init, last_or, any, codes,
}

abbrev pub dot : Bytes
dot = codes "."

abbrev pub dot_dot : Bytes
dot_dot = codes ".."

abbrev cons_head : ℕ → List Bytes → List Bytes
cons_head c [] = (c ∷ []) ∷ []
cons_head c (w ∷ ws) = (c ∷ w) ∷ ws

-- The stretches between the slashes, empty ones included.
unfoldable pub split_path : Bytes → List Bytes
split_path [] = [] ∷ []
split_path (c ∷ s) = let ws = split_path s in if c == b'/' then [] ∷ ws else cons_head c ws

abbrev pub is_absolute : Bytes → Bool
is_absolute [] = false
is_absolute (c ∷ s) = c == b'/'

-- `..` removes the name before it; at the root it is dropped.
unfoldable pub go_up : Bool → List Bytes → List Bytes
go_up absolute [] = if absolute then [] else dot_dot ∷ []
go_up absolute (t ∷ stack) = if bytes_eq t dot_dot then dot_dot ∷ t ∷ stack else stack

-- The names that are left, the last one first.
unfoldable pub resolve_name : Bool → List Bytes → Bytes → List Bytes
unfolding go_up bytes_eq
resolve_name absolute stack w =
    if is_empty w || bytes_eq w dot
    then stack
    else if bytes_eq w dot_dot
    then go_up absolute stack
    else w ∷ stack

unfoldable pub resolve : Bool → List Bytes → List Bytes → List Bytes
resolve absolute stack [] = stack
resolve absolute stack (w ∷ ws) = resolve absolute (resolve_name absolute stack w) ws

-- The names of the stack from its bottom, each followed by a slash if it is not the last.
unfoldable pub join_names : List Bytes → Bytes
join_names [] = []
join_names (w ∷ []) = w
join_names (w ∷ v ∷ ws) = join_names (v ∷ ws) ++ b'/' ∷ w

-- The path ends at a directory: in a slash, in `.` or in `..`.
abbrev pub is_directory : Bytes → Bool
is_directory w = is_empty w || bytes_eq w dot || bytes_eq w dot_dot

abbrev pub root_of : Bool → Bytes
root_of absolute = if absolute then b'/' ∷ [] else []

unfoldable pub render_path : Bool → Bool → List Bytes → Bytes
unfolding join_names bytes_eq
render_path absolute directory [] = if absolute then b'/' ∷ [] else dot
render_path absolute directory (w ∷ ws) =
    root_of absolute
    ++ (join_names (w ∷ ws) ++ (if directory && not (bytes_eq w dot_dot) then b'/' ∷ [] else []))

unfoldable pub lexically_normal : Bytes → Bytes
unfolding split_path resolve resolve_name render_path bytes_eq
lexically_normal [] = []
lexically_normal (c ∷ s) =
    let names = split_path (c ∷ s) in
    render_path (is_absolute (c ∷ s)) (is_directory (last_or names []))
      (resolve (is_absolute (c ∷ s)) [] names)

-- p / q
unfoldable pub append_path : Bytes → Bytes → Bytes
append_path p q =
    if is_absolute q then q else if is_empty p || last_or p 0 == b'/' then p ++ q else p ++ b'/' ∷ q

-- What stands before the last slash; the slash too, if it is the root.
unfoldable pub drop_name : Bytes → Bytes
drop_name [] = []
drop_name (c ∷ s) = let rest = drop_name s in if any (λ x. x == b'/') s then c ∷ rest else []

unfoldable pub parent_path : Bytes → Bytes
unfolding drop_name
parent_path p = if is_absolute p && is_empty (drop_name p) then b'/' ∷ [] else drop_name p
