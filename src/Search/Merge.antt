-- ===== src/Search/Merge.antt =====
-- The removal of duplicates in `pageSearch` of tlgs/server/controllers/search.cpp. The score is of
-- a type `R`. The order in which the multimap visits its entries is left to `place`, which puts one
-- in.
pub mod Hashes
use tlgs.Common.{
  ℕ, Bool, true, false, not, ◌&&◌, ◌||◌, List, [], ◌∷◌, ◌++◌, ◌==◌, Option, none, some,
  if◌then◌else◌, Bytes, codes, any, init, lower, bytes_eq, ends_with,
}
use tlgs.Common.Decimal.{ℤ}
use tlgs.Search.{RankedResult}
use tlgs.Url.{Url, with_host}
use tlgs.Url.Parse.{parse}

-- A node with its score and its place in the root set.
pub record Ranked (R : Type 0) : Type 0 where
  pub page : RankedResult
  pub score : R
  pub is_root : Bool

-- What stands outside: drogon's replaceAll, the random token behind its slash, and what the
-- variable of the default port happens to hold.
pub record Tools : Type 0 where
  pub replace_all : Bytes → Bytes → Bytes → Bytes
  pub token : Bytes
  pub junk : ℤ

-- The URL of a page, its host in lower case.
abbrev lower_url : Tools → Bytes → Url
lower_url t s = let u = parse t.junk true s in with_host u (lower u.host)

-- "/~", "/users" and "/user" are one name for the directory of a user.
abbrev user_text : Tools → Bytes → Bytes
user_text t s =
    let tilde = t.replace_all s (codes "/~") t.token in
    let users = t.replace_all tilde (codes "/users") t.token in
    t.replace_all users (codes "/user") t.token

abbrev without_slash : Bytes → Bytes
without_slash s = if ends_with s (codes "/") then init s else s

unfoldable pub is_same_page : Tools → RankedResult → RankedResult → Bool
is_same_page t node stored =
    let node_url = lower_url t node.url in
    let stored_url = lower_url t stored.url in
    bytes_eq node_url.host stored_url.host
    || bytes_eq node_url.path stored_url.path
    || ends_with stored.url (node_url.host ++ node_url.path)
    || bytes_eq (without_slash (user_text t node.url)) (user_text t stored.url)

-- An archive of the other page: gemini://example.com/<hostname>/<path>
unfoldable pub is_mirror : Tools → RankedResult → RankedResult → Bool
is_mirror t node stored =
    let stored_url = lower_url t stored.url in
    ends_with node.url (stored_url.host ++ stored_url.path)

module _ {R : Type 0} (less : R → R → Bool) (t : Tools) where
  abbrev pub same_hash : Ranked R → Ranked R → Bool
  same_hash node stored = stored.page.content_hash == node.page.content_hash

  abbrev pub better : Ranked R → Ranked R → Ranked R
  better node stored = if less stored.score node.score then node else stored

  abbrev pub behind : Ranked R → Option (List (Ranked R)) → Option (List (Ranked R))
  behind stored none = none
  behind stored (some rest) = some (stored ∷ rest)

  -- The entries after the loop over those with the node's hash; `none` if nothing was replaced.
  unfoldable pub replace_in : Ranked R → List (Ranked R) → Option (List (Ranked R))
  replace_in node [] = none
  replace_in node (stored ∷ result_map) =
      let later = behind stored (replace_in node result_map) in
      if not (same_hash node stored)
      then later
      else if is_same_page t node.page stored.page
      then some (better node stored ∷ result_map)
      else if is_mirror t node.page stored.page
      then some (stored ∷ result_map)
      else later

  module _ (place : Ranked R → List (Ranked R) → List (Ranked R)) where
    abbrev pub replaced_or_placed :
        Ranked R → List (Ranked R) → Option (List (Ranked R)) → List (Ranked R)
    replaced_or_placed node result_map none = place node result_map
    replaced_or_placed node result_map (some changed) = changed

    unfoldable pub merge_node : Ranked R → List (Ranked R) → List (Ranked R)
    merge_node node result_map =
        if node.page.size == 0 || not (any (same_hash node) result_map)
        then place node result_map
        else replaced_or_placed node result_map (replace_in node result_map)

    -- `is_root` is the node's.
    abbrev pub merge_if_root : Bool → Ranked R → List (Ranked R) → List (Ranked R)
    merge_if_root is_root node result_map =
        if not is_root then result_map else merge_node node result_map

    unfoldable pub merge_nodes : List (Ranked R) → List (Ranked R) → List (Ranked R)
    merge_nodes result_map [] = result_map
    merge_nodes result_map (node ∷ nodes) =
        merge_nodes (merge_if_root node.is_root node result_map) nodes
