-- ===== src/Search/Merge/Hashes.antt =====
-- What the removal of duplicates keeps (tlgs/server/controllers/search.cpp).
use tlgs.Common.{
  ℕ, suc, ◌+◌, ◌≤◌, ◌≡◌, refl, ap, ◌∙◌, Bool, true, false, not, ◌&&◌, ◌||◌, List, [], ◌∷◌, ◌==◌,
  Option, none, some, if◌then◌else◌, all, any, length, Bool-cases, inl, inr, arith,
}
use tlgs.Search.Merge.{
  Ranked, Tools, is_same_page, is_mirror, same_hash, behind, replace_in, replaced_or_placed,
  merge_node, merge_if_root, merge_nodes,
}

-- `place` puts the entry among the others, and does nothing else.
unfoldable pub IsPlacing : {R : Type 0} → (Ranked R → List (Ranked R) → List (Ranked R)) → Type 0
IsPlacing {R} place =
    (node : Ranked R) (entries : List (Ranked R))
    → ((p : Ranked R → Bool) → all p (place node entries) ≡ (p node && all p entries))
      × (length (place node entries) ≡ suc (length entries))

abbrev pub has_hash : {R : Type 0} → ℕ → Ranked R → Bool
has_hash h node = node.page.content_hash == h

abbrev pub root_with : {R : Type 0} → ℕ → Ranked R → Bool
root_with h node = node.is_root && has_hash h node

-- Of both entries only pages with the tested property are made, with the same hashes.
Agree : {R : Type 0} → Ranked R → List (Ranked R) → List (Ranked R) → Type 0
Agree {R} node entries changed =
    ((p : Ranked R → Bool) → p node ≡ true → all p entries ≡ true → all p changed ≡ true)
    × ((h : ℕ) → any (has_hash h) changed ≡ any (has_hash h) entries)
    × (length changed ≡ length entries)

Agrees : {R : Type 0} → Ranked R → List (Ranked R) → Option (List (Ranked R)) → Type 0
Agrees node entries none = Unit {0}
Agrees node entries (some changed) = Agree node entries changed

if-Agrees :
    {R : Type 0} (node : Ranked R) (entries : List (Ranked R)) (b : Bool)
    (r r' : Option (List (Ranked R)))
    → (b ≡ true → Agrees node entries r)
    → (b ≡ false → Agrees node entries r')
    → Agrees node entries (if b then r else r')
if-Agrees node entries true r r' h k = h refl
if-Agrees node entries false r r' h k = k refl

-- A choice between both pages, where they have one hash.
chosen-Agree :
    {R : Type 0} (node stored : Ranked R) (entries : List (Ranked R)) (b : Bool)
    → (stored.page.content_hash == node.page.content_hash) ≡ true
    → Agree node (stored ∷ entries) ((if b then node else stored) ∷ entries)
unfolding Agree
chosen-Agree node stored entries true e =
    (λ p n k. ground (arith, n, k), λ h. ground (arith, e), refl)
chosen-Agree node stored entries false e = (λ p n k. k, λ h. refl, refl)

module _ {R : Type 0} (less : R → R → Bool) (t : Tools) (node : Ranked R) where
  behind-Agrees :
      (stored : Ranked R) (entries : List (Ranked R)) (r : Option (List (Ranked R)))
      → Agrees node entries r
      → Agrees node (stored ∷ entries) (behind less t stored r)
  unfolding Agrees Agree
  behind-Agrees stored entries none h = tt
  behind-Agrees stored entries (some changed) (a, b, c) =
      (λ p n k. ground (arith, a p n, k), λ h. ground (arith, b h), omega arith)

  replace_in-Agrees :
      (entries : List (Ranked R)) → Agrees node entries (replace_in less t node entries)
  unfolding replace_in Agrees
  replace_in-Agrees [] = tt
  replace_in-Agrees (stored ∷ entries) =
      let later =
        behind-Agrees stored entries (replace_in less t node entries) (replace_in-Agrees entries) in
      if-Agrees node (stored ∷ entries) (not (same_hash less t node stored)) _ _ (λ _. later)
        (λ e.
          if-Agrees node (stored ∷ entries) (is_same_page t node.page stored.page) _ _
            (λ _.
              chosen-Agree node stored entries (less stored.score node.score) (ground (arith, e)))
            (λ _.
              if-Agrees node (stored ∷ entries) (is_mirror t node.page stored.page) _ _
                (λ _. chosen-Agree node stored entries false (ground (arith, e))) (λ _. later)))

-- A step from the entries to those with one more page.
Adds : {R : Type 0} → Ranked R → List (Ranked R) → List (Ranked R) → Type 0
Adds {R} node entries result =
    ((p : Ranked R → Bool) → p node ≡ true → all p entries ≡ true → all p result ≡ true)
    × ((h : ℕ) → any (has_hash h) result ≡ (has_hash h node || any (has_hash h) entries))
    × (length result ≤ suc (length entries))

pub any-not-all :
    {A : Type 0} (p : A → Bool) (xs : List A) → any p xs ≡ not (all (λ x. not (p x)) xs)
any-not-all p [] = refl
any-not-all p (x ∷ xs) = ground (arith, any-not-all p xs)

absorbed-Adds :
    {R : Type 0} (node : Ranked R) (entries changed : List (Ranked R))
    → any (has_hash node.page.content_hash) entries ≡ true
    → Agree node entries changed
    → Adds node entries changed
unfolding Agree Adds
absorbed-Adds node entries changed e (a, b, c) = (
  a,
  λ h. elim (Bool-cases (node.page.content_hash == h)) [
    | inl k ↦ b h ∙ ap (λ n. any (has_hash n) entries) (ground (arith, k)) ∙ e ∙ ground (arith, k)
    | inr k ↦ b h ∙ ground (arith, k)
  ],
  omega arith,
)

module _ {R : Type 0} (less : R → R → Bool) (t : Tools)
    (place : Ranked R → List (Ranked R) → List (Ranked R)) (ok : IsPlacing place) where
  place-Adds :
      (node : Ranked R) (entries : List (Ranked R)) → Adds node entries (place node entries)
  unfolding Adds IsPlacing
  place-Adds node entries =
      let (every, size) = ok node entries in
      (
        λ p n k. every p ∙ ground (arith, n, k),
        λ h.
            any-not-all (has_hash h) (place node entries)
            ∙ ground (arith, every (λ x. not (has_hash h x)), any-not-all (has_hash h) entries),
        omega (arith, size),
      )

  replaced_or_placed-Adds :
      (node : Ranked R) (entries : List (Ranked R)) (r : Option (List (Ranked R)))
      → any (has_hash node.page.content_hash) entries ≡ true
      → Agrees node entries r
      → Adds node entries (replaced_or_placed less t place node entries r)
  unfolding Agrees
  replaced_or_placed-Adds node entries none e h = place-Adds node entries
  replaced_or_placed-Adds node entries (some changed) e h = absorbed-Adds node entries changed e h

  merge_node-Adds :
      (node : Ranked R) (entries : List (Ranked R))
      → Adds node entries (merge_node less t place node entries)
  unfolding merge_node
  merge_node-Adds node entries =
      elim (Bool-cases (node.page.size == 0 || not (any (same_hash less t node) entries))) [
        | inl e ↦ rw (e) (place-Adds node entries)
        | inr e ↦ rw (e) (
            replaced_or_placed-Adds node entries (replace_in less t node entries)
              (ground (arith, e)) (replace_in-Agrees less t node entries))
      ]

  -- What one node brings: itself, if it is in the root set.
  Brings : Bool → Ranked R → List (Ranked R) → List (Ranked R) → Type 0
  Brings is_root node entries result =
      ((p : Ranked R → Bool)
        → (not is_root || p node) ≡ true
        → all p entries ≡ true
        → all p result ≡ true)
      × ((h : ℕ)
          → any (has_hash h) result ≡ ((is_root && has_hash h node) || any (has_hash h) entries))
      × (length result ≤ suc (length entries))

  merge_if_root-Brings :
      (is_root : Bool) (node : Ranked R) (entries : List (Ranked R))
      → Brings is_root node entries (merge_if_root less t place is_root node entries)
  unfolding Adds Brings
  merge_if_root-Brings true node entries = merge_node-Adds node entries
  merge_if_root-Brings false node entries = (λ p n k. k, λ h. refl, omega arith)

  merge_nodes-from :
      (nodes entries : List (Ranked R))
      → ((p : Ranked R → Bool)
          → all (λ n. not n.is_root || p n) nodes ≡ true
          → all p entries ≡ true
          → all p (merge_nodes less t place entries nodes) ≡ true)
        × ((h : ℕ)
            → any (has_hash h) (merge_nodes less t place entries nodes)
              ≡ (any (root_with h) nodes || any (has_hash h) entries))
        × (length (merge_nodes less t place entries nodes) ≤ length nodes + length entries)
  unfolding merge_nodes Brings
  merge_nodes-from [] entries = (λ p n k. k, λ h. refl, omega arith)
  merge_nodes-from (node ∷ nodes) entries =
      let (a, b, c) = merge_if_root-Brings node.is_root node entries in
      let (a', b', c') =
        merge_nodes-from nodes (merge_if_root less t place node.is_root node entries) in
      (
        λ p n k. a' p (ground (arith, n)) (a p (ground (arith, n)) k),
        λ h. ground (arith, b h, b' h),
        omega arith,
      )

-- However the entries of one hash are ordered: a property that the nodes of the root set have,
-- those have that are left; the hashes of their contents are just those of the root set, so that no
-- content is lost; and there are no more of them than nodes.
pub merge_nodes-keeps_hashes :
    {R : Type 0} (less : R → R → Bool) (t : Tools)
    (place : Ranked R → List (Ranked R) → List (Ranked R))
    → IsPlacing place
    → (nodes : List (Ranked R))
    → ((p : Ranked R → Bool)
        → all (λ n. not n.is_root || p n) nodes ≡ true
        → all p (merge_nodes less t place [] nodes) ≡ true)
      × ((h : ℕ) → any (has_hash h) (merge_nodes less t place [] nodes) ≡ any (root_with h) nodes)
      × (length (merge_nodes less t place [] nodes) ≤ length nodes)
merge_nodes-keeps_hashes less t place ok nodes =
    let (a, b, c) = merge_nodes-from less t place ok nodes [] in
    (λ p n. a p n refl, λ h. ground (arith, b h), omega arith)
