-- ===== src/Tests/MergeRuns.antt =====
-- tlgs/server/controllers/search.cpp: the removal of duplicates.
use tlgs.Common.{
  ℕ, ◌≤◌, ◌≡◌, refl, Bool, true, not, ◌||◌, List, [], ◌∷◌, Bytes, codes, ltb, all, any, length,
}
use tlgs.Common.Decimal.{pos}
use tlgs.Search.Merge.{Ranked, Tools, merge_nodes}
use tlgs.Search.Merge.Hashes.{IsPlacing, has_hash, root_with, merge_nodes-keeps_hashes}

abbrev pub tools : Tools
tools = record { replace_all = λ s from to. s; token = codes "/00"; junk = pos 0 }

abbrev ranked : Bytes → ℕ → ℕ → Ranked ℕ
ranked url hash score = record {
  page = record { url = url; content_type = codes "text/gemini"; size = 10; content_hash = hash };
  score = score;
  is_root = ltb 0 score;
}

abbrev roots : List (Ranked ℕ)
roots =
    ranked (codes "gemini://a.org/x") 7 1
    ∷ ranked (codes "gemini://b.org/y") 8 4
    ∷ ranked (codes "gemini://c.org/x") 7 3
    ∷ ranked (codes "gemini://d.org/c.org/x") 7 9
    ∷ ranked (codes "gemini://e.org/") 5 0
    ∷ []

pub cons-IsPlacing : IsPlacing (λ (node : Ranked ℕ) entries. node ∷ entries)
unfolding IsPlacing
cons-IsPlacing node entries = (λ p. refl, refl)

merge_nodes-keeps_hashes_example :
    ((p : Ranked ℕ → Bool)
      → all (λ n. not n.is_root || p n) roots ≡ true
      → all p (merge_nodes ltb tools (λ node entries. node ∷ entries) [] roots) ≡ true)
    × ((h : ℕ)
        → any (has_hash h) (merge_nodes ltb tools (λ node entries. node ∷ entries) [] roots)
          ≡ any (root_with h) roots)
    × (length (merge_nodes ltb tools (λ node entries. node ∷ entries) [] roots) ≤ length roots)
merge_nodes-keeps_hashes_example =
    merge_nodes-keeps_hashes ltb tools (λ node entries. node ∷ entries) cons-IsPlacing roots
