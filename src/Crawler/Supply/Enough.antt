-- ===== src/Crawler/Supply/Enough.antt =====
-- `getNextPotentialCarwlUrl` of tlgs/crawler/crawler.cpp comes to an end.
use tlgs.Common.{
  ℕ, zero, suc, ◌+◌, ◌*◌, ◌≤◌, ◌≡◌, refl, sym, ap, ◌∙◌, ◌⊎◌, inl, inr, Bool, true, false, List, [],
  ◌∷◌, ◌++◌, ltb, leb, ◌==◌, Option, some, Bytes, length, any, bytes_eq, bytes_eq_refl, Bool-cases,
  arith,
}
use tlgs.Crawler.Supply.{
  Batch, urls, failed, Supply, Outcome, found, nothing, raised, again, ends, resample,
  larger_sample, take_batch, fill, next_url, alone,
}

-- std::shuffle changes the order alone.
unfoldable pub IsShuffle : (List Bytes → List Bytes) → Type 0
IsShuffle shuffle = (batch : List Bytes) (p : Bytes → Bool) → any p (shuffle batch) ≡ any p batch

-- The queries are answered.
unfoldable pub IsAnswering : (ℕ → ℕ → Batch) → Type 0
IsAnswering answers = (n pct : ℕ) → (batch : List Bytes) × (answers n pct ≡ urls batch)

-- Where the result comes from: the queue or a batch, or there was an empty batch of all the pages.
pub Stems : (ℕ → ℕ → Batch) → List Bytes → Outcome → Type 0
Stems answers queue (found url) =
    (any (bytes_eq url) queue ≡ true)
    ⊎ ((n pct : ℕ) × (batch : List Bytes) × (answers n pct ≡ urls batch)
        × (any (bytes_eq url) batch ≡ true))
Stems answers queue nothing = (n pct : ℕ) × (100 ≤ pct) × (answers n pct ≡ urls [])
Stems answers queue (raised e) = (n pct : ℕ) × (answers n pct ≡ failed e)

abbrev Ends : (ℕ → ℕ → Batch) → List Bytes → Option (Outcome × Supply) → Type 0
Ends answers queue r = (o : Outcome) × (q : Supply) × (r ≡ some (o, q)) × Stems answers queue o

larger_sample-le : (m pct : ℕ) → 100 ≤ pct + 10 * suc m → 100 ≤ larger_sample pct + 10 * m
larger_sample-le m pct h = ground arith

suc_not_zero : (n : ℕ) → (suc n == 0) ≡ false
suc_not_zero n = ground arith

itself : (n : ℕ) → (n == n) ≡ true
itself n = ground arith

list-cases : (xs : List Bytes) → (xs ≡ []) ⊎ ((v : Bytes) × (vs : List Bytes) × (xs ≡ v ∷ vs))
list-cases [] = inl refl
list-cases (v ∷ vs) = inr (v, vs, refl)

module _ (shuffle : List Bytes → List Bytes) (answers : ℕ → ℕ → Batch) where
  fill-queue :
      (fuel n : ℕ) (url : Bytes) (rest : List Bytes) (pct : ℕ)
      → fill shuffle answers alone
          (suc fuel)
          n
          (record { craw_queue = url ∷ rest; sample_pct = pct })
        ≡ some (found url, record { craw_queue = rest; sample_pct = pct })
  unfolding fill
  fill-queue fuel n url rest pct = refl

  fill-again :
      (fuel n pct : ℕ) (q : Supply)
      → take_batch shuffle pct (record { craw_queue = []; sample_pct = pct }) (answers n pct)
        ≡ again q
      → fill shuffle answers alone (suc fuel) n (record { craw_queue = []; sample_pct = pct })
        ≡ fill shuffle answers alone fuel (suc n) q
  unfolding fill
  fill-again fuel n pct q e = rw (e, fill) refl

  fill-ends :
      (fuel n pct : ℕ) (o : Outcome) (q : Supply)
      → take_batch shuffle pct (record { craw_queue = []; sample_pct = pct }) (answers n pct)
        ≡ ends o q
      → fill shuffle answers alone (suc fuel) n (record { craw_queue = []; sample_pct = pct })
        ≡ some (o, q)
  unfolding fill
  fill-ends fuel n pct o q e = rw (e, fill) refl

  take_batch-full :
      (q : Supply) (u : Bytes) (us : List Bytes)
      → take_batch shuffle q.sample_pct q (urls (u ∷ us))
        ≡ again (record {
          craw_queue = q.craw_queue ++ shuffle (u ∷ us);
          sample_pct = (resample (length (u ∷ us)) q.sample_pct q).sample_pct;
        })
  unfolding take_batch
  take_batch-full q u us = elim (Bool-cases (ltb (suc (length us)) 324)) [
    | inl e ↦ rw (suc_not_zero (length us), e, itself q.sample_pct) refl
    | inr e ↦ rw (suc_not_zero (length us), e) refl
  ]

  take_batch-empty :
      (pct : ℕ)
      → leb 100 pct ≡ false
      → shuffle [] ≡ []
      → take_batch shuffle pct (record { craw_queue = []; sample_pct = pct }) (urls [])
        ≡ again (record { craw_queue = []; sample_pct = larger_sample pct })
  unfolding take_batch
  take_batch-empty pct e h = rw (e, h, itself pct) refl

  take_batch-last :
      (pct : ℕ)
      → leb 100 pct ≡ true
      → (q : Supply) × (take_batch shuffle pct
            (record { craw_queue = []; sample_pct = pct })
            (urls [])
          ≡ ends nothing q)
  unfolding take_batch
  take_batch-last pct e =
      (record { craw_queue = []; sample_pct = larger_sample pct }, rw (e, itself pct) refl)

  module _ (sh : IsShuffle shuffle) where
    shuffle-nil : shuffle [] ≡ []
    unfolding IsShuffle
    shuffle-nil = elim (list-cases (shuffle [])) [
      | inl e ↦ e
      | inr (v, vs, e) ↦ absurd (ground (arith, e, sh [] (λ _. true)))
    ]

    shuffle-cons :
        (u : Bytes) (us : List Bytes)
        → (v : Bytes) × (vs : List Bytes) × (shuffle (u ∷ us) ≡ v ∷ vs)
          × (any (bytes_eq v) (u ∷ us) ≡ true)
    unfolding IsShuffle
    shuffle-cons u us = elim (list-cases (shuffle (u ∷ us))) [
      | inl e ↦ absurd (ground (arith, e, sh (u ∷ us) (λ _. true)))
      | inr (v, vs, e) ↦ (
        v,
        vs,
        e,
        sym (sh (u ∷ us) (bytes_eq v)) ∙ ap (any (bytes_eq v)) e ∙ ground (arith, bytes_eq_refl v),
      )
    ]

    -- A batch with addresses is the end: the next round takes one of them.
    full_batch :
        (fuel n pct : ℕ) (u : Bytes) (us : List Bytes)
        → answers n pct ≡ urls (u ∷ us)
        → Ends answers [] (
            fill shuffle answers alone
              (suc (suc fuel))
              n
              (record { craw_queue = []; sample_pct = pct }))
    unfolding Stems
    full_batch fuel n pct u us e =
        let (v, vs, k, mem) = shuffle-cons u us in
        let q : Supply = record { craw_queue = []; sample_pct = pct } in
        let pct' = (resample (length (u ∷ us)) q.sample_pct q).sample_pct in
        (
          found v,
          record { craw_queue = vs; sample_pct = pct' },
          fill-again (suc fuel) n pct (record { craw_queue = shuffle (u ∷ us); sample_pct = pct' })
                (ap (take_batch shuffle pct q) e ∙ take_batch-full q u us)
              ∙ ap
                  (λ l.
                    fill shuffle answers alone (suc fuel) (suc n)
                      (record { craw_queue = l; sample_pct = pct' }))
                  k
              ∙ fill-queue fuel (suc n) v vs pct',
          inr (n, pct, u ∷ us, e, mem),
        )

    all_sampled :
        (fuel n pct : ℕ)
        → answers n pct ≡ urls []
        → leb 100 pct ≡ true
        → Ends answers []
            (fill shuffle answers alone (suc fuel) n (record { craw_queue = []; sample_pct = pct }))
    unfolding Stems
    all_sampled fuel n pct e k =
        let (q, t) = take_batch-last pct k in
        (
          nothing,
          q,
          fill-ends fuel n pct nothing q
              (ap (take_batch shuffle pct (record { craw_queue = []; sample_pct = pct })) e ∙ t),
          (n, pct, ground (arith, k), e),
        )

    Ends-congr :
        (r r' : Option (Outcome × Supply)) → r ≡ r' → Ends answers [] r' → Ends answers [] r
    Ends-congr r r' e (o, q, k, st) = (o, q, e ∙ k, st)

    module _ (an : IsAnswering answers) where
      -- The rounds that a queue without addresses needs, each for a larger sample.
      fill-Ends :
          (m n pct : ℕ) (batch : List Bytes)
          → answers n pct ≡ urls batch
          → 100 ≤ pct + 10 * m
          → Ends answers [] (
              fill shuffle answers alone
                (suc (suc m))
                n
                (record { craw_queue = []; sample_pct = pct }))
      unfolding IsAnswering
      fill-Ends m n pct (u ∷ us) e h = full_batch m n pct u us e
      fill-Ends zero n pct [] e h = all_sampled 1 n pct e (ground (arith, h))
      fill-Ends (suc m) n pct [] e h = elim (Bool-cases (leb 100 pct)) [
        | inl k ↦ all_sampled (suc (suc m)) n pct e k
        | inr k ↦
            let (batch, e') = an (suc n) (larger_sample pct) in
            Ends-congr _ _
              (fill-again (suc (suc m)) n pct
                (record { craw_queue = []; sample_pct = larger_sample pct })
                (ap (take_batch shuffle pct (record { craw_queue = []; sample_pct = pct })) e
                  ∙ take_batch-empty pct k shuffle-nil))
              (fill-Ends m (suc n) (larger_sample pct) batch e' (larger_sample-le m pct h))
      ]

enough_for :
    (shuffle : List Bytes → List Bytes) (answers : ℕ → ℕ → Batch)
    → IsShuffle shuffle
    → IsAnswering answers
    → (n : ℕ) (queue : List Bytes) (pct : ℕ) → 1 ≤ pct
    → Ends answers queue
        (next_url shuffle answers alone 12 n (record { craw_queue = queue; sample_pct = pct }))
unfolding IsAnswering Stems next_url
enough_for shuffle answers sh an n (url ∷ rest) pct h = (
  found url,
  record { craw_queue = rest; sample_pct = pct },
  refl,
  inl (ground (arith, bytes_eq_refl url)),
)
enough_for shuffle answers sh an n [] pct h =
    let (batch, e) = an n pct in fill-Ends shuffle answers sh an 10 n pct batch e (omega arith)

-- If the queries are answered and no other task changes the queue or the sample, twelve rounds are
-- enough whatever the answers are, for a sample of one percent or more. A URL that is given has then
-- stood in the queue or in an answer, and there is no URL only after an answer without one to a
-- query for all pages.
pub next_url-enough :
    (shuffle : List Bytes → List Bytes) (answers : ℕ → ℕ → Batch)
    → IsShuffle shuffle
    → IsAnswering answers
    → (n : ℕ) (q : Supply) → 1 ≤ q.sample_pct
    → (o : Outcome) × (q' : Supply) × (next_url shuffle answers alone 12 n q ≡ some (o, q'))
      × Stems answers q.craw_queue o
next_url-enough shuffle answers sh an n q h =
    enough_for shuffle answers sh an n q.craw_queue q.sample_pct h
