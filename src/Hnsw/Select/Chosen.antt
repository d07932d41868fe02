-- ===== src/Hnsw/Select/Chosen.antt =====
-- The neighbors that are selected are candidates, and no more than asked for.
use distributed_vector_searc.Prelude.{
  ℕ, suc, ◌≤◌, ◌<◌, ◌≡◌, refl, ap, ◌∙◌, ◌||◌, List, [], ◌∷◌, ◌++◌, map, Result, ok, ◌==◌, length,
  take, leb, Ord, ◌≼?◌, All, All-append, All-take, map-All, length-map, length-append, length-take,
  Bool-cases, inl, inr, arith,
}
use distributed_vector_searc.Hnsw.{Space, Selection}
use distributed_vector_searc.Hnsw.Layer.Walk.{row-ok}
use distributed_vector_searc.Hnsw.Select.{
  insert_stable, stable_sort, is_closer, keep_loop, is_closest, select_neighbors, with_vectors,
}

module _ {D : Type 0} ⦃o : Ord D⦄ where
  insert_stable-All :
      (Q : D × ℕ → Type 0) (x : D × ℕ) (xs : List (D × ℕ))
      → Q x
      → All Q xs
      → All Q (insert_stable x xs)
  unfolding insert_stable
  insert_stable-All Q x [] h k = (h, tt)
  insert_stable-All Q x (y ∷ ys) h k = elim (Bool-cases (x.0 ≼? y.0)) [
    | inl e ↦ rw e (h, k)
    | inr e ↦ rw e (k.0, insert_stable-All Q x ys h k.1)
  ]

  length-insert_stable :
      (x : D × ℕ) (xs : List (D × ℕ)) → length (insert_stable x xs) ≡ suc (length xs)
  unfolding insert_stable
  length-insert_stable x [] = refl
  length-insert_stable x (y ∷ ys) = elim (Bool-cases (x.0 ≼? y.0)) [
    | inl e ↦ rw e refl
    | inr e ↦ rw e (ap suc (length-insert_stable x ys))
  ]

  pub stable_sort-All : (Q : D × ℕ → Type 0) (xs : List (D × ℕ)) → All Q xs → All Q (stable_sort xs)
  unfolding stable_sort
  stable_sort-All Q [] h = tt
  stable_sort-All Q (x ∷ xs) h =
      insert_stable-All Q x (stable_sort xs) h.0 (stable_sort-All Q xs h.1)

  pub length-stable_sort : (xs : List (D × ℕ)) → length (stable_sort xs) ≡ length xs
  unfolding stable_sort
  length-stable_sort [] = refl
  length-stable_sort (x ∷ xs) =
      length-insert_stable x (stable_sort xs) ∙ ap suc (length-stable_sort xs)

module _ {V D : Type 0} ⦃o : Ord D⦄ (s : Space V D) (rows : List V) where
  module _ (P : ℕ → Type 0) (stored : (n : ℕ) → P n → n < length rows) where
    -- What a selection of at most `m` returns.
    pub record Chosen (m : ℕ) (result : Result (List ℕ)) : Type 0 where
      pub nodes : List ℕ
      pub returns : result ≡ ok nodes
      pub good : All P nodes
      pub few : length nodes ≤ m

    with_vectors-ok :
        (pairs : List (D × ℕ))
        → All (λ c. P c.1) pairs
        → (found : List (D × (V × ℕ))) × (with_vectors s rows pairs ≡ ok found)
          × All (λ c. P c.1.1) found
    unfolding with_vectors
    with_vectors-ok [] h = ([], refl, tt)
    with_vectors-ok ((d, node) ∷ pairs) h =
        let (v, a) = row-ok rows node (stored node h.0) in
        let (rest, b, good) = with_vectors-ok pairs h.1 in
        ((d, (v, node)) ∷ rest, rw a (rw b refl), (h.0, good))

    keep_loop-good :
        (m : ℕ) (kept : List (V × ℕ)) (others : List (D × (V × ℕ)))
        → All (λ k. P k.1) kept
        → All (λ c. P c.1.1) others
        → All (λ k. P k.1) (keep_loop s rows m kept others)
    unfolding keep_loop
    keep_loop-good m kept [] h p = h
    keep_loop-good m kept ((d, (v, node)) ∷ others) h p =
        let good = All-append (λ k. P k.1) kept ((v, node) ∷ []) h (p.0, tt) in
        elim (Bool-cases (is_closer s rows d v kept)) [
          | inr far ↦ rw (far, keep_loop) (keep_loop-good m kept others h p.1)
          | inl near ↦
              rw (near, keep_loop)
                (elim (Bool-cases (suc (length kept) == m)) [
                  | inl full ↦ rw full good
                  | inr room ↦ rw room (keep_loop-good m (kept ++ (v, node) ∷ []) others good p.1)
                ])
        ]

    keep_loop-few :
        (m : ℕ) (kept : List (V × ℕ)) (others : List (D × (V × ℕ)))
        → length kept < m
        → length (keep_loop s rows m kept others) ≤ m
    unfolding keep_loop
    keep_loop-few m kept [] k = omega (arith, k)
    keep_loop-few m kept ((d, (v, node)) ∷ others) k =
        let size = length-append kept ((v, node) ∷ []) in
        elim (Bool-cases (is_closer s rows d v kept)) [
          | inr far ↦ rw (far, keep_loop) (keep_loop-few m kept others k)
          | inl near ↦
              rw (near, keep_loop)
                (elim (Bool-cases (suc (length kept) == m)) [
                  | inl full ↦ rw full (omega (arith, size, k))
                  | inr room ↦ rw room (
                      keep_loop-few m (kept ++ (v, node) ∷ []) others
                        (ground (arith, size, k, room)))
                ])
        ]

    -- If m is positive and the vectors of all candidates are stored, then by either way of
    -- selection _select_neighbors returns without error at most m nodes, all of them candidates
    -- that satisfy whatever all candidates satisfy.
    pub select_neighbors-Chosen :
        (selection : Selection) (candidates : List (D × ℕ)) (m : ℕ)
        → 0 < m
        → All (λ c. P c.1) candidates
        → Chosen m (select_neighbors s rows selection candidates m)
    unfolding select_neighbors
    select_neighbors-Chosen selection candidates m pos h =
        let order = stable_sort candidates in
        let good = stable_sort-All (λ c. P c.1) candidates h in
        elim (Bool-cases (leb (length order) m || is_closest selection)) [
          | inl e ↦ record {
            nodes = map (λ c. c.1) (take m order);
            returns = rw (e, select_neighbors) refl;
            good = map-All P (λ c. c.1) (take m order) (All-take (λ c. P c.1) m order good);
            few =
                omega (arith, length-map (λ (c : D × ℕ). c.1) (take m order), length-take m order);
          }
          | inr e ↦
              let (nearest, a, kept_good) = with_vectors-ok order good in
              let kept = keep_loop s rows m [] nearest in
              record {
                nodes = map (λ k. k.1) kept;
                returns = rw (e, select_neighbors) (rw a refl);
                good = map-All P (λ k. k.1) kept (keep_loop-good m [] nearest tt kept_good);
                few =
                    omega
                      (arith, length-map (λ (k : V × ℕ). k.1) kept, keep_loop-few m [] nearest pos);
              }
        ]
