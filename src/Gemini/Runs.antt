-- ===== src/Gemini/Runs.antt =====
-- `isGemsub` (tlgsutils/gemini_parser.cpp): a feed has three dated entries in a row among its
-- links.
use tlgs.Common.{
  ℕ, ◌≤◌, ◌≡◌, refl, ◌∙◌, Bool, true, false, ◌&&◌, ◌||◌, List, [], ◌∷◌, arith, leb, max, Bytes,
  codes, Bool-cases, inl, inr, if◌then◌else◌,
}
use tlgs.Common.Decimal.{ℤ}
use tlgs.Gemini.{Node, has_type, is_dated, gemsub_loop, is_gemsub, is_feed_entry, is_gemsub_of}
use tlgs.Url.{Url}

-- The verdicts on the link nodes, in order.
pub verdicts : (Node → Bool) → List Node → List Bool
verdicts dated [] = []
verdicts dated (node ∷ nodes) =
    if has_type node (codes "link") then dated node ∷ verdicts dated nodes else verdicts dated nodes

pub three_in_a_row : List Bool → Bool
three_in_a_row (a ∷ b ∷ c ∷ r) = (a && b && c) || three_in_a_row (b ∷ c ∷ r)
three_in_a_row _ = false

-- Once three were seen, the verdict stands.
loop_reached :
    (dated : Node → Bool) (nodes : List Node) (count most : ℕ)
    → 3 ≤ most
    → leb 3 (gemsub_loop dated count most nodes) ≡ true
unfolding gemsub_loop
loop_reached dated [] count most h = ground arith
loop_reached dated (node ∷ nodes) count most h = loop_reached dated nodes _ _ (ground arith)

three-false : (r : List Bool) → three_in_a_row (false ∷ r) ≡ three_in_a_row r
unfolding three_in_a_row
three-false [] = refl
three-false (a ∷ []) = refl
three-false (a ∷ b ∷ r) = refl

three-true-false : (r : List Bool) → three_in_a_row (true ∷ false ∷ r) ≡ three_in_a_row r
unfolding three_in_a_row
three-true-false [] = refl
three-true-false (a ∷ r) = three-false (a ∷ r)

three-true-true-false :
    (r : List Bool) → three_in_a_row (true ∷ true ∷ false ∷ r) ≡ three_in_a_row r
unfolding three_in_a_row
three-true-true-false r = three-true-false r

-- The loop with at most two entries in a row behind it, against the verdicts to come.
record Agrees (dated : Node → Bool) (nodes : List Node) : Type 0 where
  after_none :
      (most : ℕ)
      → most ≤ 2
      → leb 3 (gemsub_loop dated 0 most nodes) ≡ three_in_a_row (verdicts dated nodes)
  after_one :
      (most : ℕ)
      → most ≤ 2
      → leb 3 (gemsub_loop dated 1 most nodes) ≡ three_in_a_row (true ∷ verdicts dated nodes)
  after_two :
      (most : ℕ)
      → most ≤ 2
      → leb 3 (gemsub_loop dated 2 most nodes) ≡ three_in_a_row (true ∷ true ∷ verdicts dated nodes)

module _ (dated : Node → Bool) (node : Node) (nodes : List Node) (ih : Agrees dated nodes) where
  none_before :
      (most : ℕ)
      → most ≤ 2
      → leb 3 (gemsub_loop dated 0 most (node ∷ nodes))
        ≡ three_in_a_row (verdicts dated (node ∷ nodes))
  unfolding gemsub_loop verdicts
  none_before most h = ground (
    arith,
    ih.after_none most h,
    ih.after_none (max most 0) (omega arith),
    ih.after_one (max most 1) (omega arith),
    three-false (verdicts dated nodes),
  )

  one_before :
      (most : ℕ)
      → most ≤ 2
      → leb 3 (gemsub_loop dated 1 most (node ∷ nodes))
        ≡ three_in_a_row (true ∷ verdicts dated (node ∷ nodes))
  unfolding gemsub_loop verdicts
  one_before most h = ground (
    arith,
    ih.after_one most h,
    ih.after_none (max most 0) (omega arith),
    ih.after_two (max most 2) (omega arith),
    three-true-false (verdicts dated nodes),
  )

  two_before :
      (most : ℕ)
      → most ≤ 2
      → leb 3 (gemsub_loop dated 2 most (node ∷ nodes))
        ≡ three_in_a_row (true ∷ true ∷ verdicts dated (node ∷ nodes))
  unfolding gemsub_loop verdicts
  two_before most h = elim (Bool-cases (has_type node (codes "link"))) [
    | inr l ↦ ground (arith, ih.after_two most h)
    | inl l ↦ elim (Bool-cases (dated node)) [
      | inr e ↦ ground (
        arith,
        ih.after_none (max most 0) (omega arith),
        three-true-true-false (verdicts dated nodes),
      )
      | inl e ↦
          rw (l, e)
            (loop_reached dated nodes 3 (max most 3) (omega arith) ∙ unfold three_in_a_row in refl)
    ]
  ]

agrees : (dated : Node → Bool) (nodes : List Node) → Agrees dated nodes
agrees dated [] =
    unfold gemsub_loop verdicts three_in_a_row in
    record {
      after_none = λ most h. ground arith;
      after_one = λ most h. ground arith;
      after_two = λ most h. ground arith;
    }
agrees dated (node ∷ nodes) = record {
  after_none = none_before dated node nodes (agrees dated nodes);
  after_one = one_before dated node nodes (agrees dated nodes);
  after_two = two_before dated node nodes (agrees dated nodes);
}

-- A page is a feed just if three link entries in a row, whatever text stands between them, have a
-- text that starts with a date; for a feed at a URL an entry must also lead to that URL's site.
pub is_gemsub_runs :
    (junk : ℤ) (nodes : List Node) (feed_url : Url) (protocol : Bytes)
    → (is_gemsub nodes ≡ three_in_a_row (verdicts (λ node. is_dated node.text) nodes))
      × (is_gemsub_of junk nodes feed_url protocol
          ≡ three_in_a_row (verdicts (is_feed_entry junk feed_url protocol) nodes))
unfolding is_gemsub is_gemsub_of
is_gemsub_runs junk nodes feed_url protocol = (
  (agrees (λ node. is_dated node.text) nodes).after_none 0 (omega arith),
  (agrees (is_feed_entry junk feed_url protocol) nodes).after_none 0 (omega arith),
)
