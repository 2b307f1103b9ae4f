-- ===== src/Search/Ranking/Bipartite.antt =====
-- The removal of the links between nodes of one kind in `salsaRank`
-- (tlgs/server/controllers/search.cpp).
use tlgs.Common.{
  ℕ, zero, suc, ◌+◌, ◌<◌, ◌≡◌, refl, sym, ap, ◌∙◌, Bool, true, false, List, [], ◌∷◌, ◌++◌,
  append-nil, append_assoc, Option, some, length, all, length-append, take-length-append,
  Bool-cases, inl, inr, arith, ==_refl,
}
use tlgs.Search.{xor}
use tlgs.Search.Ranking.{get_elem?, remove_step, remove_loop, remove_links}
use tlgs.Search.Ranking.Vectors.{
  count, crosses, differs, crossing, below, get_elem?-below, get_elem?-append, swap_ends,
  snoc-cases, count-append, pred_suc, not_end, ltb_of_lt, ltb_irrefl, below-rotate,
}

module _ (is_auth : List Bool) (here : Bool) where
  crossing-append :
      (xs ys : List ℕ)
      → crossing is_auth here (xs ++ ys) ≡ crossing is_auth here xs ++ crossing is_auth here ys
  crossing-append [] ys = refl
  crossing-append (x ∷ xs) ys = elim (Bool-cases (crosses is_auth here x)) [
    | inl e ↦ rw (e, crossing-append xs ys) refl
    | inr e ↦ rw (e, crossing-append xs ys) refl
  ]

  -- What the loop makes of `mid` behind `done`.
  Swept : List ℕ → List ℕ → Option (List ℕ) → Type 0
  Swept done mid r =
      (out : List ℕ) × (r ≡ some (done ++ out))
      × (all (crosses is_auth here) out ≡ true)
      × ((x : ℕ) → count x out ≡ count x (crossing is_auth here mid))

  module _ (done : List ℕ) (x : ℕ) (rest : List ℕ) (b : Bool) where
    step-crossing :
        (size : ℕ)
        → get_elem? is_auth x ≡ some b
        → xor b here ≡ true
        → remove_step is_auth here (done ++ x ∷ rest) (length done) size
          ≡ some (done ++ x ∷ rest, length done + 1, size)
    unfolding remove_step
    step-crossing size g h = rw (get_elem?-append done x rest, g, h) refl

    step-last :
        get_elem? is_auth x ≡ some b
        → xor b here ≡ false
        → remove_step is_auth here (done ++ x ∷ rest) (length done) (suc (length done))
          ≡ some (done ++ x ∷ rest, length done, length done)
    unfolding remove_step
    step-last g h =
        rw (get_elem?-append done x rest, g, h, pred_suc (length done), ==_refl (length done)) refl

  step-inside :
      (done : List ℕ) (x : ℕ) (mid : List ℕ) (y : ℕ) (gone : List ℕ) (b : Bool)
      → get_elem? is_auth x ≡ some b
      → xor b here ≡ false
      → remove_step is_auth here
          (done ++ x ∷ (mid ++ y ∷ gone))
          (length done)
          (suc (suc (length (done ++ mid))))
        ≡ some (done ++ y ∷ (mid ++ x ∷ gone), length done, suc (length (done ++ mid)))
  unfolding remove_step
  step-inside done x mid y gone b g h =
      rw
        (
          get_elem?-append done x (mid ++ y ∷ gone),
          g,
          h,
          pred_suc (suc (length (done ++ mid))),
          not_end done mid,
          swap_ends done x mid y gone,
        )
        refl

  loop_goes :
      (fuel : ℕ) (v : List ℕ) (j size : ℕ) (w : List ℕ) (i n : ℕ)
      → j < size
      → remove_step is_auth here v j size ≡ some (w, i, n)
      → remove_loop (suc fuel) is_auth here v j size ≡ remove_loop fuel is_auth here w i n
  unfolding remove_loop
  loop_goes fuel v j size w i n lt e = rw (ltb_of_lt j size lt, e) refl

  Swept-keep :
      (done : List ℕ) (x : ℕ) (mid : List ℕ) (r : Option (List ℕ))
      → crosses is_auth here x ≡ true
      → Swept (done ++ x ∷ []) mid r
      → Swept done (x ∷ mid) r
  unfolding Swept
  Swept-keep done x mid r h (out, e, k, c) = (
    x ∷ out,
    e ∙ ap some (append_assoc done (x ∷ []) out),
    ground (arith, h, k),
    λ z. rw (h) (omega (arith, c z)),
  )

  Swept-drop :
      (done : List ℕ) (x : ℕ) (mid mid' : List ℕ) (r : Option (List ℕ))
      → crosses is_auth here x ≡ false
      → ((z : ℕ) → count z (crossing is_auth here mid') ≡ count z (crossing is_auth here mid))
      → Swept done mid' r
      → Swept done (x ∷ mid) r
  unfolding Swept
  Swept-drop done x mid mid' r h same (out, e, k, c) = (out, e, k, λ z. rw (h) (c z ∙ same z))

  rotated :
      (mid : List ℕ) (y z : ℕ)
      → count z (crossing is_auth here (y ∷ mid)) ≡ count z (crossing is_auth here (mid ++ y ∷ []))
  rotated mid y z =
      rw
        (
          crossing-append mid (y ∷ []),
          count-append z (crossing is_auth here mid) (crossing is_auth here (y ∷ [])),
        )
        (elim (Bool-cases (crosses is_auth here y)) [
          | inl e ↦ rw (e) (omega arith)
          | inr e ↦ rw (e) (omega arith)
        ])

  loop_ends :
      (fuel : ℕ) (done gone : List ℕ)
      → remove_loop (suc fuel) is_auth here (done ++ gone) (length done) (length done) ≡ some done
  unfolding remove_loop
  loop_ends fuel done gone = rw (ltb_irrefl (length done), take-length-append done gone) refl

  Swept-end :
      (fuel : ℕ) (done gone : List ℕ)
      → Swept done []
          (remove_loop (suc fuel) is_auth here (done ++ gone) (length done) (length (done ++ [])))
  unfolding Swept
  Swept-end fuel done gone = ([], rw (append-nil done) (loop_ends fuel done gone), refl, λ x. refl)

  loop_congr :
      (fuel : ℕ) (v w : List ℕ) (j i size n : ℕ)
      → v ≡ w
      → j ≡ i
      → size ≡ n
      → remove_loop fuel is_auth here v j size ≡ remove_loop fuel is_auth here w i n
  loop_congr fuel v w j i size n a b c = cc

  loop_crossing :
      (fuel : ℕ) (done : List ℕ) (x : ℕ) (mid gone : List ℕ) (b : Bool)
      → get_elem? is_auth x ≡ some b
      → xor b here ≡ true
      → remove_loop
          (suc fuel)
          is_auth
          here
          (done ++ x ∷ (mid ++ gone))
          (length done)
          (length (done ++ x ∷ mid))
        ≡ remove_loop fuel is_auth here
            ((done ++ x ∷ []) ++ (mid ++ gone))
            (length (done ++ x ∷ []))
            (length ((done ++ x ∷ []) ++ mid))
  loop_crossing fuel done x mid gone b g h =
      loop_goes fuel (done ++ x ∷ (mid ++ gone)) (length done) (length (done ++ x ∷ mid))
        (done ++ x ∷ (mid ++ gone)) (length done + 1) (length (done ++ x ∷ mid))
        (omega (arith, length-append done (x ∷ mid)))
        (step-crossing done x (mid ++ gone) b (length (done ++ x ∷ mid)) g h)
      ∙ loop_congr fuel (done ++ x ∷ (mid ++ gone)) ((done ++ x ∷ []) ++ (mid ++ gone))
          (length done + 1) (length (done ++ x ∷ [])) (length (done ++ x ∷ mid))
          (length ((done ++ x ∷ []) ++ mid)) (sym (append_assoc done (x ∷ []) (mid ++ gone)))
          (omega (arith, length-append done (x ∷ [])))
          (ap length (sym (append_assoc done (x ∷ []) mid)))

  loop_last :
      (fuel : ℕ) (done : List ℕ) (x : ℕ) (gone : List ℕ) (b : Bool)
      → get_elem? is_auth x ≡ some b
      → xor b here ≡ false
      → remove_loop
          (suc fuel)
          is_auth
          here
          (done ++ x ∷ gone)
          (length done)
          (length (done ++ x ∷ []))
        ≡ remove_loop fuel is_auth here (done ++ x ∷ gone) (length done) (length (done ++ []))
  loop_last fuel done x gone b g h =
      let snoc : length (done ++ x ∷ []) ≡ suc (length done) =
        omega (arith, length-append done (x ∷ [])) in
      rw (snoc, append-nil done)
        (loop_goes fuel (done ++ x ∷ gone) (length done) (suc (length done)) (done ++ x ∷ gone)
          (length done) (length done) (omega arith) (step-last done x gone b g h))

  loop_inside :
      (fuel : ℕ) (done : List ℕ) (x : ℕ) (mid : List ℕ) (y : ℕ) (gone : List ℕ) (b : Bool)
      → get_elem? is_auth x ≡ some b
      → xor b here ≡ false
      → remove_loop
          (suc fuel)
          is_auth
          here
          (done ++ x ∷ ((mid ++ y ∷ []) ++ gone))
          (length done)
          (length (done ++ x ∷ (mid ++ y ∷ [])))
        ≡ remove_loop fuel is_auth here
            (done ++ y ∷ (mid ++ x ∷ gone))
            (length done)
            (length (done ++ y ∷ mid))
  loop_inside fuel done x mid y gone b g h =
      let size : length (done ++ x ∷ (mid ++ y ∷ [])) ≡ suc (suc (length (done ++ mid))) = omega (
        arith,
        length-append done (x ∷ (mid ++ y ∷ [])),
        length-append mid (y ∷ []),
        length-append done mid,
      ) in
      let left : length (done ++ y ∷ mid) ≡ suc (length (done ++ mid)) =
        omega (arith, length-append done (y ∷ mid), length-append done mid) in
      rw (size, left, append_assoc mid (y ∷ []) gone)
        (loop_goes fuel (done ++ x ∷ (mid ++ y ∷ gone)) (length done)
          (suc (suc (length (done ++ mid)))) (done ++ y ∷ (mid ++ x ∷ gone)) (length done)
          (suc (length (done ++ mid))) (omega (arith, length-append done mid))
          (step-inside done x mid y gone b g h))

  Swept-congr :
      (done mid mid' : List ℕ) (r r' : Option (List ℕ))
      → mid ≡ mid'
      → r ≡ r'
      → Swept done mid' r'
      → Swept done mid r
  unfolding Swept
  Swept-congr done mid mid' r r' m h (out, e, k, c) =
      (out, h ∙ e, k, λ x. c x ∙ ap (λ l. count x (crossing is_auth here l)) (sym m))

  -- The loop over the links that it has not seen, `mid`, between those kept and those removed.
  sweep_loop :
      (fuel : ℕ) (done mid gone : List ℕ)
      → length mid < fuel
      → below (length is_auth) mid ≡ true
      → Swept done mid (
          remove_loop fuel is_auth here
            (done ++ (mid ++ gone))
            (length done)
            (length (done ++ mid)))
  sweep_loop zero done mid gone lt ok = absurd (omega arith)
  sweep_loop (suc fuel) done [] gone lt ok = Swept-end fuel done gone
  sweep_loop (suc fuel) done (x ∷ mid) gone lt ok =
      let (b, g) = get_elem?-below is_auth x (ground (arith, ok)) in
      elim (Bool-cases (xor b here)) [
        | inl h ↦ Swept-keep done x mid _ (ap (λ o. differs o here) g ∙ h) (
            Swept-congr (done ++ x ∷ []) mid mid _ _ refl (loop_crossing fuel done x mid gone b g h)
              (sweep_loop fuel (done ++ x ∷ []) mid gone (omega arith) (ground (arith, ok))))
        | inr h ↦ elim (snoc-cases mid) [
          | inl e ↦ rw (e) (
              Swept-drop done x [] [] _ (ap (λ o. differs o here) g ∙ h) (λ z. refl)
                (Swept-congr done [] [] _ _ refl (loop_last fuel done x gone b g h)
                  (sweep_loop fuel done [] (x ∷ gone) (omega arith) refl)))
          | inr (mid', y, e) ↦ rw (e) (
              Swept-drop done x (mid' ++ y ∷ []) (y ∷ mid') _ (ap (λ o. differs o here) g ∙ h)
                (rotated mid' y)
                (Swept-congr done (y ∷ mid') (y ∷ mid') _ _ refl
                  (loop_inside fuel done x mid' y gone b g h)
                  (sweep_loop fuel done (y ∷ mid') (x ∷ gone)
                    (omega (arith, ap length e, length-append mid' (y ∷ [])))
                    (below-rotate (length is_auth) mid' y
                      (ap (below (length is_auth)) (sym e) ∙ ground (arith, ok))))))
        ]
      ]

  remove_links-Swept :
      (v : List ℕ) → below (length is_auth) v ≡ true → Swept [] v (remove_links is_auth here v)
  unfolding remove_links
  remove_links-Swept v ok =
      Swept-congr [] v v _ _ refl
        (loop_congr (suc (length v)) v (v ++ []) 0 0 (length v) (length v) (sym (append-nil v)) refl
          refl)
        (sweep_loop (suc (length v)) [] v [] (omega arith) ok)

-- Where every link leads to a node, the loop ends and reads nothing outside of its vectors. What is
-- left are the links to the other kind, each as often as before.
pub remove_links-crossing :
    (is_auth : List Bool) (here : Bool) (v : List ℕ)
    → below (length is_auth) v ≡ true
    → (out : List ℕ) × (remove_links is_auth here v ≡ some out)
      × (all (crosses is_auth here) out ≡ true)
      × ((x : ℕ) → count x out ≡ count x (crossing is_auth here v))
unfolding Swept
remove_links-crossing is_auth here v ok = remove_links-Swept is_auth here v ok
