-- ===== src/Gemini/Extract.antt =====
-- `extractGeminiConcise` against `extractGemini` (tlgsutils/gemini_parser.cpp).
use tlgs.Common.{
  ◌≡◌, refl, sym, ◌∙◌, Bool, true, false, List, [], ◌∷◌, ◌++◌, arith, Bytes, codes, append-nil,
  append_assoc, bytes_eq, bytes_eq_iff, Bool-cases, inl, inr, if◌then◌else◌,
}
use tlgs.Gemini.{
  Node, GeminiDocument, has_type, empty_document, add_node, extract_onto, extract_gemini,
  skips_node, still_first, concise_onto, extract_gemini_concise,
}

record SameLinks (d e : GeminiDocument) : Type 0 where
  links : d.links ≡ e.links
  title : d.title ≡ e.title

add_node-SameLinks :
    (d e : GeminiDocument) (node : Node)
    → SameLinks d e
    → SameLinks (add_node d node) (add_node e node)
unfolding add_node
add_node-SameLinks d e node s = record {
  links = ground (arith, s.links);
  title = ground (arith, s.title);
}

-- a node that is no link and no heading changes neither
other_node :
    (d e : GeminiDocument) (node : Node)
    → has_type node (codes "link") ≡ false
    → has_type node (codes "heading1") ≡ false
    → SameLinks d e
    → SameLinks d (add_node e node)
unfolding add_node
other_node d e node l h s = record { links = rw l s.links; title = rw (l, h) s.title }

not_both :
    (node : Node) (s t : Bytes)
    → bytes_eq s t ≡ false
    → has_type node s ≡ true
    → has_type node t ≡ false
not_both node s t h k = rw ((bytes_eq_iff node.type s).0 k) h

skipped :
    (b : Bool) (node : Node)
    → skips_node b node ≡ true
    → (has_type node (codes "link") ≡ false) × (has_type node (codes "heading1") ≡ false)
unfolding skips_node
skipped b node h = elim (Bool-cases (has_type node (codes "preformatted_text"))) [
  | inl e ↦ (
    not_both node (codes "preformatted_text") (codes "link") (unfold bytes_eq in refl) e,
    not_both node (codes "preformatted_text") (codes "heading1") (unfold bytes_eq in refl) e,
  )
  | inr e ↦
      let t : has_type node (codes "text") ≡ true = ground arith in
      (
        not_both node (codes "text") (codes "link") (unfold bytes_eq in refl) t,
        not_both node (codes "text") (codes "heading1") (unfold bytes_eq in refl) t,
      )
]

concise-SameLinks :
    (nodes : List Node) (b : Bool) (d e : GeminiDocument)
    → SameLinks d e
    → SameLinks (concise_onto b d nodes) (extract_onto e nodes)
unfolding concise_onto extract_onto
concise-SameLinks [] b d e s = s
concise-SameLinks (node ∷ nodes) b d e s =
    concise-SameLinks nodes (still_first b node) _ (add_node e node) (step (skips_node b node) refl)
  where
    step :
        (k : Bool)
        → skips_node b node ≡ k
        → SameLinks (if k then d else add_node d node) (add_node e node)
    step true h = other_node d e node (skipped b node h).0 (skipped b node h).1 s
    step false h = add_node-SameLinks d e node s

-- The targets of the link nodes, in order.
pub link_targets : List Node → List Bytes
link_targets [] = []
link_targets (node ∷ nodes) =
    let rest = link_targets nodes in if has_type node (codes "link") then node.meta ∷ rest else rest

extract_onto-links :
    (d : GeminiDocument) (nodes : List Node)
    → (extract_onto d nodes).links ≡ d.links ++ link_targets nodes
unfolding extract_onto link_targets
extract_onto-links d [] = sym (append-nil d.links)
extract_onto-links d (node ∷ nodes) =
    extract_onto-links (add_node d node) nodes ∙ step (has_type node (codes "link")) refl
  where
    step :
        (k : Bool)
        → has_type node (codes "link") ≡ k
        → (add_node d node).links ++ link_targets nodes
          ≡ d.links ++ (if k then node.meta ∷ link_targets nodes else link_targets nodes)
    step true h =
        unfold add_node in rw h (append_assoc d.links (node.meta ∷ []) (link_targets nodes))
    step false h = unfold add_node in rw h

-- Leaving out ASCII art and separator lines loses nothing else: the links are the targets of all
-- link nodes in their order, and the title is the one of the whole document.
pub concise_keeps_links :
    (nodes : List Node)
    → ((extract_gemini_concise nodes).links ≡ link_targets nodes)
      × ((extract_gemini_concise nodes).title ≡ (extract_gemini nodes).title)
unfolding extract_gemini_concise extract_gemini
concise_keeps_links nodes =
    let s =
      concise-SameLinks nodes true empty_document empty_document
        (record { links = refl; title = refl }) in
    (s.links ∙ extract_onto-links empty_document nodes, s.title)
