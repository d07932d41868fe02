-- ===== src/Hnsw/Search/Exact.antt =====
-- `exact_among` of vsearch/hnsw.py beside what it promises: the nearest of the given nodes.
pub mod Tests
use mathlib.Core.Path.{fun_ext}
use mathlib.Core.List.{map-map}
use distributed_vector_searc.Prelude.{
  ℕ, zero, suc, ◌<◌, ◌≤◌, ◌+◌, ◌≡◌, refl, ap, sym, subst, ◌∙◌, true, false, List, [], ◌∷◌, ◌++◌,
  arith, length, take, drop, All, Ord, ◌≼?◌, Bool-cases, inl, inr, map, range, get_elem?, none,
  some, nat_ord, pair_ord, pair_le, map-All, All-imp, All-take, All-of, In, All-In, length-take,
  length-map, length-range, get_elem?-map, ok, err, ◌>>=◌, ltb, ltb→lt,
}
use distributed_vector_searc.Python.Sorting.{
  sorted, nsmallest, IsSorted, sorted-IsSorted, sorted-All,
}
use distributed_vector_searc.Python.Sorting.Rearranged.{
  sorted_of_IsSorted, length-sorted, All_of_sorted, sorted-map-sorted, get_or, get_or_lem,
  range-All, nsmallest-positions, map-get_or-range,
}
use distributed_vector_searc.Hnsw.{Space, Heapq, Hnsw, distances}
use distributed_vector_searc.Hnsw.Layer.Walk.{distances-ok}
use distributed_vector_searc.Hnsw.Search.{exact_among, entries_at}

-- What numpy documents of `argpartition(dists, k)`: the positions in another order, with no larger value at the
-- first `k` of them than at any that follows.
pub record PartitionLaws {V D : Type 0} ⦃o : Ord D⦄ (s : Space V D) : Type 0 where
  pub permutes :
      (dists : List D) (k : ℕ)
      → k < length dists
      → sorted (s.argpartition dists k) ≡ range 0 (length dists)
  pub splits :
      (dists : List D) (k : ℕ) (other : D)
      → k < length dists
      → All
          (λ j.
            All
              (λ i. (get_or other dists i ≼? get_or other dists j) ≡ true)
              (take k (s.argpartition dists k)))
          (drop k (s.argpartition dists k))

module _ {D : Type 0} where
  entries_at-map :
      (other : D × ℕ) (pairs : List (D × ℕ)) (positions : List ℕ)
      → All (λ i. i < length pairs) positions
      → entries_at pairs positions ≡ ok (map (get_or other pairs) positions)
  unfolding entries_at
  entries_at-map other pairs [] h = refl
  entries_at-map other pairs (i ∷ positions) h =
      rw (get_or_lem other pairs i h.0, entries_at)
        (rw (entries_at-map other pairs positions h.1) refl)

  In-get_or :
      (other : D × ℕ) (pairs : List (D × ℕ)) (positions : List ℕ)
      → All (λ i. i < length pairs) positions
      → All (λ r. In r pairs) (map (get_or other pairs) positions)
  In-get_or other pairs [] h = tt
  In-get_or other pairs (i ∷ positions) h =
      ((i, get_or_lem other pairs i h.0), In-get_or other pairs positions h.1)

  get_or-map :
      (other : D × ℕ) (pairs : List (D × ℕ)) (i : ℕ)
      → get_or other.0 (map (λ p. p.0) pairs) i ≡ (get_or other pairs i).0
  get_or-map other [] i = refl
  get_or-map other (p ∷ pairs) zero = refl
  get_or-map other (p ∷ pairs) (suc i) = get_or-map other pairs i

module _ {ℓ κ} {A : Type ℓ} {B : Type κ} (f : A → B) where
  pub map-take : (k : ℕ) (xs : List A) → map f (take k xs) ≡ take k (map f xs)
  map-take zero xs = refl
  map-take (suc k) [] = refl
  map-take (suc k) (x ∷ xs) = ap (◌∷◌ (f x)) (map-take k xs)

  pub map-drop : (k : ℕ) (xs : List A) → map f (drop k xs) ≡ drop k (map f xs)
  map-drop zero xs = refl
  map-drop (suc k) [] = refl
  map-drop (suc k) (x ∷ xs) = map-drop k xs

module _ {D : Type 0} ⦃o : Ord D⦄ where
  IsSorted-distances : (pairs : List (D × ℕ)) → IsSorted pairs → IsSorted (map (λ p. p.0) pairs)
  IsSorted-distances [] h = tt
  IsSorted-distances (p ∷ pairs) h = (
    map-All (λ d. (p.0 ≼? d) ≡ true) (λ q. q.0) pairs
        (All-imp (λ q. pair_le p q ≡ true) (λ q. (p.0 ≼? q.0) ≡ true) pairs
          (λ q k. ground (arith, k)) h.0),
    IsSorted-distances pairs h.1,
  )

  -- The distances of the first `k` results, when they are sorted with their nodes.
  distances-nsmallest :
      (k : ℕ) (pairs : List (D × ℕ))
      → map (λ p. p.0) (take k (sorted pairs)) ≡ nsmallest k (map (λ p. p.0) pairs)
  unfolding nsmallest
  distances-nsmallest k pairs =
      map-take (λ p. p.0) k (sorted pairs)
      ∙ ap (take k) (
          sym (
            sorted_of_IsSorted (map (λ p. p.0) (sorted pairs))
              (IsSorted-distances (sorted pairs) (sorted-IsSorted pairs)))
          ∙ sorted-map-sorted (λ p. p.0) pairs)

take_nil {ℓ} : {A : Type ℓ} (k : ℕ) (xs : List A) → xs ≡ [] → take k xs ≡ []
take_nil zero xs e = refl
take_nil (suc k) [] e = refl
take_nil (suc k) (x ∷ xs) e = cc

-- The pairs of distances and nodes that a search compares, and what it returns of them.
pub record Exact {D : Type 0} ⦃o : Ord D⦄ (k : ℕ) (pairs results : List (D × ℕ)) : Type 0 where
  pub nearest : map (λ r. r.0) results ≡ nsmallest k (map (λ p. p.0) pairs)
  pub among : All (λ r. In r pairs) results

module _ {V D : Type 0} ⦃o : Ord D⦄ (s : Space V D) (laws : PartitionLaws s) where
  -- The positions that argpartition puts first.
  first_positions :
      (other : D × ℕ) (pairs : List (D × ℕ)) (k : ℕ)
      → k < length pairs
      → (let positions = take k (s.argpartition (map (λ p. p.0) pairs) k) in
          let nearest = map (get_or other pairs) positions in
          (entries_at pairs positions ≡ ok nearest)
          × (nsmallest k (map (λ p. p.0) nearest) ≡ nsmallest k (map (λ p. p.0) pairs))
          × All (λ r. In r pairs) nearest)
  first_positions other pairs k few =
      let dists = map (λ p. p.0) pairs in
      let positions = s.argpartition dists k in
      let size : length dists ≡ length pairs = length-map (λ p. p.0) pairs in
      let shift : 0 + length dists ≡ length pairs = omega (arith, size) in
      let few' : k < length dists = omega (arith, size, few) in
      let all = laws.permutes dists k few' in
      let long : k ≤ length positions =
        omega
          (arith, length-sorted positions, ap length all, length-range 0 (length dists), few') in
      let in_range : All (λ i. i < length pairs) positions =
        All_of_sorted (λ i. i < length pairs) positions
          (subst (All (λ i. i < length pairs)) (sym all) (
            subst (λ n. All (λ i. i < n) (range 0 (length dists))) shift
              (range-All 0 (length dists)))) in
      let first = All-take (λ i. i < length pairs) k positions in_range in
      let values =
        map-map (λ p. p.0) (get_or other pairs) (take k positions)
        ∙ ap (λ f. map f (take k positions)) (fun_ext (λ i. sym (get_or-map other pairs i))) in
      (
        entries_at-map other pairs (take k positions) first,
        ap (nsmallest k) values
            ∙ nsmallest-positions other.0 dists positions k long all
                (laws.splits dists k other.0 few'),
        In-get_or other pairs (take k positions) first,
      )

  -- Of the pairs of all nodes that are given, exact_among keeps the nearest.
  kept-Exact :
      (other : D × ℕ) (pairs : List (D × ℕ)) (k : ℕ)
      → (nearest : List (D × ℕ)) × ((elim (ltb k (length pairs)) [
        | true ↦ entries_at pairs (take k (s.argpartition (map (λ p. p.0) pairs) k))
        | false ↦ ok pairs
      ])
          ≡ ok nearest)
        × Exact k pairs (take k (sorted nearest))
  kept-Exact other pairs k = elim (Bool-cases (ltb k (length pairs))) [
    | inl many ↦
        let (found, smallest, members) =
          first_positions other pairs k (ltb→lt k (length pairs) many) in
        let nearest = map (get_or other pairs) (take k (s.argpartition (map (λ p. p.0) pairs) k)) in
        (
          nearest,
          rw many found,
          record {
            nearest = distances-nsmallest k nearest ∙ smallest;
            among = All-take _ k (sorted nearest) (sorted-All (λ r. In r pairs) nearest members);
          },
        )
    | inr few ↦ (
      pairs,
      rw few refl,
      record {
        nearest = distances-nsmallest k pairs;
        among =
            All-take _ k (sorted pairs)
              (sorted-All (λ r. In r pairs) pairs (All-of (λ r. In r pairs) pairs (λ r h. h)));
      },
    )
  ]

module _ {V D R : Type 0} ⦃o : Ord D⦄ (s : Space V D) (heap : Heapq D) where
  -- If argpartition does what numpy documents and the vectors of all given nodes are stored, then
  -- exact_among returns without error for every query, list of nodes and k: the distances of its
  -- results are, in ascending order, the k smallest of the distances of all the given nodes, and
  -- each result is one of these nodes with its distance.
  pub exact_among-Exact :
      (h : Hnsw V R) (vector : V) (nodes : List ℕ) (k : ℕ)
      → PartitionLaws s
      → All (λ n. n < length h.rows) nodes
      → (pairs : List (D × ℕ)) × (results : List (D × ℕ)) × (distances s h.rows
            (s.normalize vector)
            nodes
          ≡ ok pairs)
        × (exact_among s heap h vector nodes k ≡ ok results)
        × Exact k pairs results
  unfolding exact_among nsmallest
  exact_among-Exact h vector [] k laws stored =
      ([], [], refl, refl, record { nearest = sym (take_nil k (sorted []) refl); among = tt })
  exact_among-Exact h vector (node ∷ nodes) k laws stored =
      let unit = s.normalize vector in
      let (pairs, measured, same) =
        distances-ok s h.rows [] (λ n. Unit) unit (node ∷ nodes) stored in
      let (nearest, kept, exact) = kept-Exact s laws (s.distance unit unit, 0) pairs k in
      (pairs, take k (sorted nearest), measured, rw (measured, exact_among) (rw kept refl), exact)
