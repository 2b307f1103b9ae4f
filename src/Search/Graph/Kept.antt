-- ===== src/Search/Graph/Kept.antt =====
-- What holds of the nodes as `pageSearch` (tlgs/server/controllers/search.cpp) adds them.
use tlgs.Common.{
  ℕ, ◌≤◌, ◌≡◌, refl, ◌∙◌, sym, Bool, true, false, not, ◌&&◌, ◌||◌, List, [], ◌∷◌, ◌++◌, all, length,
  length-append, Option, none, some, Bytes, if◌then◌else◌, arith,
}
use tlgs.Search.{RankedResult}
use tlgs.Search.Graph.{
  Row, Nodes, no_nodes, get_if_exists, hash_or_zero, new_node, known_or_new, add_nodes,
}
use tlgs.Common.Options.{some-inj, bind-some}

-- The pages of the root set.
abbrev pub root_pages : List RankedResult → List Bool → List RankedResult
root_pages [] roots = []
root_pages (page ∷ pages) [] = []
root_pages (page ∷ pages) (is_root ∷ roots) =
    let rest = root_pages pages roots in if is_root then page ∷ rest else rest

root_pages-append :
    (p : RankedResult → Bool) (pages : List RankedResult) (roots : List Bool) (page : RankedResult)
    (is_root : Bool)
    → length roots ≡ length pages
    → all p (root_pages (pages ++ page ∷ []) (roots ++ is_root ∷ []))
      ≡ (all p (root_pages pages roots) && (not is_root || p page))
root_pages-append p [] [] page true h = ground arith
root_pages-append p [] [] page false h = ground arith
root_pages-append p [] (b ∷ roots) page is_root h = absurd (omega (arith, h))
root_pages-append p (x ∷ pages) [] page is_root h = absurd (omega (arith, h))
root_pages-append p (x ∷ pages) (true ∷ roots) page is_root h =
    ground (arith, root_pages-append p pages roots page is_root (omega (arith, h)))
root_pages-append p (x ∷ pages) (false ∷ roots) page is_root h =
    ground (arith, root_pages-append p pages roots page is_root (omega (arith, h)))

-- `new_node`, where the hash is read.
abbrev with_node : {R : Type 0} → (R → Bool) → Nodes R → Row R → ℕ → Nodes R
with_node is_zero s link hash = record {
  node_table = (link.source_url, length s.nodes) ∷ s.node_table;
  nodes =
      s.nodes
      ++ record {
        url = link.source_url;
        content_type = link.content_type;
        size = link.size;
        content_hash = hash;
      }
        ∷ [];
  text_rank = s.text_rank ++ link.rank ∷ [];
  is_root = s.is_root ++ not (is_zero link.rank) ∷ [];
}

module _ {R : Type 0} (stoull : Bytes → Option ℕ) (is_zero : R → Bool) (ok : Row R → Bool)
    (I : Nodes R → Type 0)
    (step : (s : Nodes R) (link : Row R) (hash : ℕ)
      → ok link ≡ true
      → I s
      → I (with_node is_zero s link hash)) where
  new_node-keeps :
      (s : Nodes R) (link : Row R) (s' : Nodes R)
      → ok link ≡ true
      → I s
      → new_node stoull is_zero s link ≡ some s'
      → I s'
  unfolding new_node
  new_node-keeps s link s' h i e =
      let (hash, n, e') = bind-some (stoull (hash_or_zero link.content_hash)) _ s' e in
      rw (sym (some-inj (with_node is_zero s link hash) s' e')) (step s link hash h i)

  known_or_new-keeps :
      (o : Option ℕ) (s : Nodes R) (link : Row R) (s' : Nodes R)
      → ok link ≡ true
      → I s
      → known_or_new stoull is_zero o s link ≡ some s'
      → I s'
  known_or_new-keeps (some idx) s link s' h i e = rw (sym (some-inj s s' e)) i
  known_or_new-keeps none s link s' h i e = new_node-keeps s link s' h i e

  add_nodes-keeps :
      (s : Nodes R) (links : List (Row R)) (s' : Nodes R)
      → all ok links ≡ true
      → I s
      → add_nodes stoull is_zero s links ≡ some s'
      → I s'
  unfolding add_nodes
  add_nodes-keeps s [] s' h i e = rw (sym (some-inj s s' e)) i
  add_nodes-keeps s (link ∷ links) s' h i e =
      let (s₁, e₁, e₂) =
        bind-some (known_or_new stoull is_zero (get_if_exists s.node_table link.source_url) s link)
          _ s' e in
      add_nodes-keeps s₁ links s' (ground (arith, h))
        (known_or_new-keeps (get_if_exists s.node_table link.source_url) s link s₁
          (ground (arith, h)) i e₁)
        e₂

-- A row of a page of the root set has a URL of which `q` holds.
abbrev pub allows : {R : Type 0} → (R → Bool) → (Bytes → Bool) → Row R → Bool
allows is_zero q row = is_zero row.rank || q row.source_url

-- The nodes of the root set have their URLs from rows with a rank that is not 0.
pub root_pages-rows :
    {R : Type 0} (stoull : Bytes → Option ℕ) (is_zero : R → Bool) (q : Bytes → Bool)
    (links : List (Row R)) (s : Nodes R)
    → all (allows is_zero q) links ≡ true
    → add_nodes stoull is_zero no_nodes links ≡ some s
    → all (λ page. q page.url) (root_pages s.nodes s.is_root) ≡ true
root_pages-rows stoull is_zero q links s h e =
    (add_nodes-keeps stoull is_zero (allows is_zero q)
      (λ s.
        (length s.is_root ≡ length s.nodes)
        × (all (λ page. q page.url) (root_pages s.nodes s.is_root) ≡ true))
      (λ s link hash k (size, i). (
        omega (
          arith,
          size,
          length-append s.is_root (not (is_zero link.rank) ∷ []),
          length-append s.nodes (
              record {
                url = link.source_url;
                content_type = link.content_type;
                size = link.size;
                content_hash = hash;
              }
              ∷ []),
        ),
        root_pages-append (λ page. q page.url) s.nodes s.is_root _ (not (is_zero link.rank)) size
            ∙ ground (arith, i, k),
      ))
      no_nodes links s h (refl, refl) e).1

-- With one row there is a node.
pub add_nodes-some :
    {R : Type 0} (stoull : Bytes → Option ℕ) (is_zero : R → Bool) (row : Row R)
    (links : List (Row R)) (s : Nodes R)
    → add_nodes stoull is_zero no_nodes (row ∷ links) ≡ some s
    → 1 ≤ length s.nodes
unfolding add_nodes new_node
add_nodes-some {R} stoull is_zero row links s e =
    let (s₁, e₁, e₂) = bind-some (new_node stoull is_zero no_nodes row) _ s e in
    let (hash, n, e₃) = bind-some (stoull (hash_or_zero row.content_hash)) _ s₁ e₁ in
    add_nodes-keeps stoull is_zero (λ _. true) (λ s. 1 ≤ length s.nodes)
      (λ s link hash k i. omega (
        arith,
        length-append s.nodes (
            record {
              url = link.source_url;
              content_type = link.content_type;
              size = link.size;
              content_hash = hash;
            }
            ∷ []),
      ))
      s₁ links s (all_true links)
      (rw (sym (some-inj (with_node is_zero no_nodes row hash) s₁ e₃)) (omega arith)) e₂
  where
    all_true : (xs : List (Row R)) → all (λ _. true) xs ≡ true
    all_true [] = refl
    all_true (x ∷ xs) = all_true xs
