-- ===== src/Hnsw/Search/Results.antt =====
-- What a search returns: on an index whose graph is closed it does return, whichever nodes are allowed.
use distributed_vector_searc.Prelude.{
  ℕ, zero, suc, ◌+◌, ◌-◌, ◌∙◌, ◌≤◌, ◌<◌, ◌≡◌, refl, ap, subst, Bool, true, List, [], ◌∷◌, Option,
  none, some, Result, Error, ok, err, >>=-eq-ok, length, take, get_elem?, ltb, max, Ord, nat_ord,
  pair_ord, All, All-imp, All-In, All-take, length-take, Option-cases, Bool-cases, inl, inr, arith,
}
use distributed_vector_searc.Python.Sorting.{sorted, IsSorted, sorted-IsSorted, sorted-All}
use distributed_vector_searc.Filtering.Index.Flags.{elem, flag_at}
use distributed_vector_searc.Hnsw.{Space, Heapq, Hnsw, Layer, layer_at, row, distances}
use distributed_vector_searc.Hnsw.Layer.Walk.{IsClosed}
use distributed_vector_searc.Hnsw.Layer.Greedy.{greedy_descend-ok}
use distributed_vector_searc.Hnsw.Layer.Found.{
  HeapqLaws, search_layer_with_distances-ok, search_layer_filtered-ok,
}
use distributed_vector_searc.Hnsw.Insert.{descend}
use distributed_vector_searc.Hnsw.Search.{
  entries_at, search_bottom, search_from, search_with_distances, exact_among,
}

-- An array of allowed nodes has an entry for every node that may be met.
abbrev pub Covers : Option (List Bool) → (ℕ → Type 0) → Type 0
Covers none Q = Unit
Covers (some allowed) Q = (n : ℕ) → Q n → n < length allowed

-- `P layer node` says that a node is in a layer. Each layer is closed under its links and lies within
-- the one below it.
pub record IsGraph {V : Type 0} (rows : List V) (graph : List Layer) (P : ℕ → ℕ → Type 0)
    : Type 0 where
  pub closed :
      (l : ℕ)
      → l < length graph
      → (layer : Layer) × (layer_at graph l ≡ ok layer) × IsClosed rows layer (P l)
  pub nested : (l n : ℕ) → P (suc l) n → P l n

-- An index that is not empty: its entry point is in its top layer.
pub record IsEntered {V R : Type 0} (h : Hnsw V R) (P : ℕ → ℕ → Type 0) (entry top : ℕ)
    : Type 0 where
  pub at : h.entry_point ≡ some entry
  pub layers : h.levels ≡ suc top
  pub enough : top < length h.graph
  pub inside : P top entry

abbrev pub allows : Option (List Bool) → ℕ → Bool
allows none n = true
allows (some allowed) n = flag_at allowed n

ok-inj : {A : Type 0} {a b : A} → ok a ≡ ok b → a ≡ b
ok-inj e = cc

sums : (level above : ℕ) → level + suc above ≡ suc (level + above)
sums level above = omega arith

entered :
    {A : Type 0} (at : Option ℕ) (next : ℕ → Result (List A)) (entry : ℕ)
    → at ≡ some entry
    → (elim at [ none ↦ ok [] | some e ↦ next e ]) ≡ next entry
entered none next entry e = cc
entered (some n) next entry e = let same : n ≡ entry = cc in ap next same

module _ {D : Type 0} ⦃o : Ord D⦄ where
  take-IsSorted : (k : ℕ) (xs : List (D × ℕ)) → IsSorted xs → IsSorted (take k xs)
  take-IsSorted zero xs h = tt
  take-IsSorted (suc k) [] h = tt
  take-IsSorted (suc k) (x ∷ xs) h = (All-take _ k xs h.0, take-IsSorted k xs h.1)

  -- What `sorted(scored)[:k]` is.
  pub record Nearest (k : ℕ) (Q : ℕ → Type 0) (results : List (D × ℕ)) : Type 0 where
    pub ordered : IsSorted results
    pub few : length results ≤ k
    pub good : All (λ r. Q r.1) results

  pub sorted-Nearest :
      (k : ℕ) (Q : ℕ → Type 0) (found : List (D × ℕ))
      → All (λ r. Q r.1) found
      → Nearest k Q (take k (sorted found))
  sorted-Nearest k Q found h = record {
    ordered = take-IsSorted k (sorted found) (sorted-IsSorted found);
    few = omega (arith, length-take k (sorted found));
    good = All-take (λ r. Q r.1) k (sorted found) (sorted-All (λ r. Q r.1) found h);
  }

  pub entries_at-All :
      (Q : D × ℕ → Type 0) (pairs : List (D × ℕ)) (indices : List ℕ) (nearest : List (D × ℕ))
      → All Q pairs
      → entries_at pairs indices ≡ ok nearest
      → All Q nearest
  unfolding entries_at
  entries_at-All Q pairs [] nearest h e = let same : [] ≡ nearest = cc in subst (All Q) same tt
  entries_at-All Q pairs (i ∷ indices) nearest h e = elim (Option-cases (get_elem? pairs i)) [
    | inl absent ↦
        let raised : err Error.index_error ≡ ok nearest = rw (absent, entries_at) at e in cc
    | inr (pair, present) ↦
        let (rest, a, b) =
          >>=-eq-ok (entries_at pairs indices) (λ rest. ok (pair ∷ rest))
            (rw (present, entries_at) at e) in
        let same : pair ∷ rest ≡ nearest = cc in
        subst (All Q) same
          (All-In Q pairs pair h (i, present), entries_at-All Q pairs indices rest h a)
  ]

module _ {V D : Type 0} ⦃o : Ord D⦄ (s : Space V D) (P : ℕ → ℕ → Type 0) where
  pub descend-ok :
      (rows : List V) (graph : List Layer) (unit : V) (level above entry : ℕ)
      → IsGraph rows graph P
      → level + above < length graph
      → P (level + above) entry
      → (found : ℕ) × (descend s rows graph unit level above entry ≡ ok found) × P level found
  unfolding descend
  descend-ok rows graph unit level zero entry g k p =
      let same : level + 0 ≡ level = omega arith in (entry, refl, subst (λ l. P l entry) same p)
  descend-ok rows graph unit level (suc above) entry g k p =
      let (layer, at, closed) = g.closed (level + suc above) k in
      let (next, walks, q) =
        greedy_descend-ok s unit rows layer (P (level + suc above)) closed entry p in
      let (found, rest, r) =
        descend-ok rows graph unit level above next g (omega (arith, k))
          (g.nested (level + above) next (subst (λ l. P l next) (sums level above) q)) in
      (found, rw at (rw walks rest), r)

module _ {V D R : Type 0} ⦃o : Ord D⦄ (s : Space V D) (heap : Heapq D) (laws : HeapqLaws heap)
    (P : ℕ → ℕ → Type 0) where
  search_bottom-ok :
      (h : Hnsw V R) (query : V) (k entry : ℕ) (allowed : Option (List Bool))
      → IsGraph h.rows h.graph P
      → 0 < length h.graph
      → 0 < h.ef_search
      → P 0 entry
      → Covers allowed (P 0)
      → (found : List (D × ℕ)) × (search_bottom s heap h query k entry allowed ≡ ok found)
        × All (λ r. P 0 r.1 × (allows allowed r.1 ≡ true)) found
  unfolding search_bottom
  search_bottom-ok h query k entry none g pos ef p covers =
      let (layer, at, closed) = g.closed 0 pos in
      let (found, returns, some_found, good) =
        search_layer_with_distances-ok s heap laws h.rows layer (P 0) closed query entry h.ef_search
          p in
      (found, rw at returns, All-imp (λ r. P 0 r.1) _ found (λ r q. (q, refl)) good)
  search_bottom-ok h query k entry (some allowed) g pos ef p covers =
      let (layer, at, closed) = g.closed 0 pos in
      let (found, returns, good) =
        search_layer_filtered-ok s heap laws h.rows layer (P 0) closed query entry
          (max h.ef_search k) allowed p (omega (arith, ef)) covers in
      (found, rw at returns, good)

  search_from-ok :
      (h : Hnsw V R) (query : V) (k entry top : ℕ) (allowed : Option (List Bool))
      → IsGraph h.rows h.graph P
      → IsEntered h P entry top
      → 0 < h.ef_search
      → Covers allowed (P 0)
      → (results : List (D × ℕ)) × (search_from s heap h query k allowed entry ≡ ok results)
        × Nearest k (λ n. P 0 n × (allows allowed n ≡ true)) results
  unfolding search_from
  search_from-ok h query k entry top allowed g start ef covers =
      let from : top ≡ 0 + top = omega arith in
      let (bottom, walks, p) =
        descend-ok s P h.rows h.graph query 0 top entry g (omega (arith, start.enough))
          (subst (λ l. P l entry) from start.inside) in
      let (found, returns, good) =
        search_bottom-ok h query k bottom allowed g (omega (arith, start.enough)) ef p covers in
      let levels : h.levels - 1 ≡ top = omega (arith, start.layers) in
      (
        take k (sorted found),
        rw levels (rw walks (rw returns refl)),
        sorted-Nearest k (λ n. P 0 n × (allows allowed n ≡ true)) found good,
      )

  -- On an index that is not empty, whose every layer is closed under its links, has its vectors
  -- stored and lies within the layer below, whose entry point is in its top layer, and whose
  -- ef_search is positive, search_with_distances ends without error for every query, every k, and
  -- no array of allowed nodes or any that has an entry for each node of the lowest layer: it
  -- returns at most k results, sorted by distance and then by node, all of them nodes of the lowest
  -- layer that are allowed.
  pub search_with_distances-ok :
      (h : Hnsw V R) (vector : V) (k entry top : ℕ) (allowed : Option (List Bool))
      → IsGraph h.rows h.graph P
      → IsEntered h P entry top
      → 0 < h.ef_search
      → Covers allowed (P 0)
      → (results : List (D × ℕ)) × (search_with_distances s heap h vector k allowed ≡ ok results)
        × Nearest k (λ n. P 0 n × (allows allowed n ≡ true)) results
  unfolding search_with_distances
  search_with_distances-ok h vector k entry top allowed g start ef covers =
      let (results, returns, good) =
        search_from-ok h (s.normalize vector) k entry top allowed g start ef covers in
      (
        results,
        entered h.entry_point (search_from s heap h (s.normalize vector) k allowed) entry start.at
            ∙ returns,
        good,
      )

module _ {V D : Type 0} ⦃o : Ord D⦄ (s : Space V D) where
  distances-among :
      (rows : List V) (query : V) (nodes : List ℕ) (pairs : List (D × ℕ))
      → distances s rows query nodes ≡ ok pairs
      → All (λ p. elem p.1 nodes ≡ true) pairs
  unfolding distances
  distances-among rows query [] pairs e = let same : [] ≡ pairs = cc in subst (All _) same tt
  distances-among rows query (node ∷ nodes) pairs e =
      let (v, a, k) = >>=-eq-ok (row rows node) _ e in
      let (rest, b, same') =
        >>=-eq-ok (distances s rows query nodes) (λ rest. ok ((s.distance v query, node) ∷ rest))
          k in
      let same : (s.distance v query, node) ∷ rest ≡ pairs = cc in
      subst (All (λ p. elem p.1 (node ∷ nodes) ≡ true)) same (
        ground arith,
        All-imp (λ p. elem p.1 nodes ≡ true) (λ p. elem p.1 (node ∷ nodes) ≡ true) rest
            (λ p h. ground (arith, h)) (distances-among rows query nodes rest b),
      )

module _ {V D R : Type 0} ⦃o : Ord D⦄ (s : Space V D) (heap : Heapq D) where
  -- If exact_among returns, then its results are at most k, sorted by distance and then by node,
  -- and all of them are among the nodes that it was given.
  pub exact_among-Nearest :
      (h : Hnsw V R) (vector : V) (nodes : List ℕ) (k : ℕ) (results : List (D × ℕ))
      → exact_among s heap h vector nodes k ≡ ok results
      → Nearest k (λ n. elem n nodes ≡ true) results
  unfolding exact_among
  exact_among-Nearest h vector [] k results e =
      let same : [] ≡ results = cc in
      subst (Nearest k _) same (record { ordered = tt; few = omega arith; good = tt })
  exact_among-Nearest h vector (node ∷ nodes) k results e =
      let among = node ∷ nodes in
      let (pairs, a, rest) = >>=-eq-ok (distances s h.rows (s.normalize vector) among) _ e in
      let good = distances-among s h.rows (s.normalize vector) among pairs a in
      let (nearest, b, last) = >>=-eq-ok _ (λ nearest. ok (take k (sorted nearest))) rest in
      let same : take k (sorted nearest) ≡ results = cc in
      let nearest_good : All (λ p. elem p.1 among ≡ true) nearest =
        elim (Bool-cases (ltb k (length pairs))) [
          | inl many ↦ entries_at-All _ pairs _ nearest good (rw many at b)
          | inr few ↦ let all : pairs ≡ nearest = ok-inj (rw few at b) in subst (All _) all good
        ] in
      subst (Nearest k _) same (sorted-Nearest k (λ n. elem n among ≡ true) nearest nearest_good)
