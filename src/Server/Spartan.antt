-- ===== src/Server/Spartan.antt =====
-- tlgs/server/main.cpp: what is done to the pages that are served through Spartan.
pub mod Lines
use tlgs.Common.{
  Bool, not, ◌&&◌, ◌||◌, List, [], ◌∷◌, ◌++◌, if◌then◌else◌, Bytes, codes, bytes_eq, contains,
  starts_with,
}
use tlgs.Robots.{get_lines}

-- A link to a page that asks for an input, and does not have it yet.
unfoldable pub needs_input : Bytes → Bool
needs_input line =
    starts_with line (codes "=>")
    && (contains line (codes "/search")
        || contains line (codes "/backlinks")
        || contains line (codes "/add_seed"))
    && not (contains line (codes "/doc"))
    && not (contains line (codes "?"))

-- `replace_all` is drogon's.
module _ (replace_all : Bytes → Bytes → Bytes → Bytes) where
  abbrev pub mark_line : Bytes → Bytes
  mark_line line = if needs_input line then replace_all line (codes "=>") (codes "=:") else line

  abbrev pub mark_lines : List Bytes → Bytes
  mark_lines [] = []
  mark_lines (line ∷ lines) = mark_line line ++ b'\n' ∷ mark_lines lines

  -- The advice that is registered: the new body of a response to a request with this header.
  unfoldable pub handle_body : Bytes → Bytes → Bytes → Bytes
  handle_body protocol content_type body =
      if bytes_eq protocol (codes "spartan") && bytes_eq content_type (codes "text/gemini")
      then mark_lines (get_lines body)
      else body
