-- ===== src/Hnsw/Search/Exact/Tests.antt =====
-- An argpartition that sorts the positions by their values, and a search of three nodes with it.
use mathlib.Core.List.{map-map}
use distributed_vector_searc.Prelude.{
  ℕ, zero, suc, ◌+◌, ◌-◌, ◌≡◌, refl, ap, sym, ◌∙◌, true, List, [], ◌∷◌, ok, some, nat_ord, pair_ord,
  pair_le, All, All-imp, map-All, All-take, All-drop, arith, map, range, length, take, drop, ◌≼?◌,
  leb,
}
use distributed_vector_searc.Python.Sorting.{sorted, IsSorted, sorted-IsSorted, sorted-All}
use distributed_vector_searc.Python.Sorting.TopK.{IsSorted-split}
use distributed_vector_searc.Python.Sorting.Rearranged.{
  sorted_of_IsSorted, sorted-map-sorted, get_or, range-suc,
}
use distributed_vector_searc.Hnsw.{Space, Heapq, Hnsw, heuristic, distances}
use distributed_vector_searc.Hnsw.Search.{exact_among}
use distributed_vector_searc.Hnsw.Search.Exact.{
  PartitionLaws, Exact, exact_among-Exact, map-take, map-drop,
}

-- Values with their positions.
abbrev numbered : List ℕ → List (ℕ × ℕ)
numbered [] = []
numbered (d ∷ dists) = (d, 0) ∷ map (λ z. (z.0, suc z.1)) (numbered dists)

argsort : List ℕ → List ℕ
argsort dists = map (λ z. z.1) (sorted (numbered dists))

map-numbered : (dists : List ℕ) → map (λ z. z.1) (numbered dists) ≡ range 0 (length dists)
map-numbered [] = refl
map-numbered (d ∷ dists) = ap (◌∷◌ 0) (
    map-map (λ z. z.1) (λ z. (z.0, suc z.1)) (numbered dists)
    ∙ sym (map-map suc (λ z. z.1) (numbered dists))
    ∙ ap (map suc) (map-numbered dists)
    ∙ sym (range-suc 0 (length dists)))

numbered-All :
    (other : ℕ) (dists : List ℕ) → All (λ z. get_or other dists z.1 ≡ z.0) (numbered dists)
numbered-All other [] = tt
numbered-All other (d ∷ dists) = (
  refl,
  map-All (λ z. get_or other (d ∷ dists) z.1 ≡ z.0) (λ z. (z.0, suc z.1)) (numbered dists)
      (numbered-All other dists),
)

range-from : (start n : ℕ) → All (λ i. leb start i ≡ true) (range (suc start) n)
range-from start zero = tt
range-from start (suc n) = (
  ground arith,
  All-imp (λ i. leb (suc start) i ≡ true) (λ i. leb start i ≡ true) (range (suc (suc start)) n)
      (λ i h. ground (arith, h)) (range-from (suc start) n),
)

range-IsSorted : (start n : ℕ) → IsSorted (range start n)
range-IsSorted start zero = tt
range-IsSorted start (suc n) = (range-from start n, range-IsSorted (suc start) n)

argsort-permutes : (dists : List ℕ) → sorted (argsort dists) ≡ range 0 (length dists)
unfolding argsort
argsort-permutes dists =
    sorted-map-sorted (λ z. z.1) (numbered dists)
    ∙ ap sorted (map-numbered dists)
    ∙ sorted_of_IsSorted (range 0 (length dists)) (range-IsSorted 0 (length dists))

All-both :
    (P Q : ℕ × ℕ → Type 0) (zs : List (ℕ × ℕ)) → All P zs → All Q zs → All (λ z. P z × Q z) zs
All-both P Q [] h k = tt
All-both P Q (z ∷ zs) h k = ((h.0, k.0), All-both P Q zs h.1 k.1)

argsort-splits :
    (dists : List ℕ) (k other : ℕ)
    → All
        (λ j.
          All (λ i. (get_or other dists i ≼? get_or other dists j) ≡ true) (take k (argsort dists)))
        (drop k (argsort dists))
unfolding argsort
argsort-splits dists k other =
    let zs = sorted (numbered dists) in
    let right =
      sorted-All (λ z. get_or other dists z.1 ≡ z.0) (numbered dists) (numbered-All other dists) in
    let below = IsSorted-split k zs (sorted-IsSorted (numbered dists)) in
    let at = get_or other dists in
    rw (← map-take (λ z. z.1) k zs, ← map-drop (λ z. z.1) k zs)
      (map-All (λ j. All (λ i. (at i ≼? at j) ≡ true) (map (λ z. z.1) (take k zs))) (λ z. z.1)
        (drop k zs)
        (All-imp (λ r. All (λ t. pair_le t r ≡ true) (take k zs) × (at r.1 ≡ r.0))
          (λ r. All (λ i. (at i ≼? at r.1) ≡ true) (map (λ z. z.1) (take k zs))) (drop k zs)
          (λ r h.
            map-All (λ i. (at i ≼? at r.1) ≡ true) (λ z. z.1) (take k zs)
              (All-imp (λ t. (pair_le t r ≡ true) × (at t.1 ≡ t.0)) (λ t. (at t.1 ≼? at r.1) ≡ true)
                (take k zs) (λ t g. smaller (at t.1) (at r.1) t r g.1 h.1 g.0)
                (All-both (λ t. pair_le t r ≡ true) (λ t. at t.1 ≡ t.0) (take k zs) h.0
                  (All-take (λ z. at z.1 ≡ z.0) k zs right))))
          (All-both (λ r. All (λ t. pair_le t r ≡ true) (take k zs)) (λ r. at r.1 ≡ r.0) (drop k zs)
            below (All-drop (λ z. at z.1 ≡ z.0) k zs right))))
  where
    smaller : (a b : ℕ) (t r : ℕ × ℕ) → a ≡ t.0 → b ≡ r.0 → pair_le t r ≡ true → leb a b ≡ true
    smaller a b t r e f h = ground (arith, e, f, h)

abbrev line : Space ℕ ℕ
line = record {
  normalize = λ v. v;
  distance = λ a b. (a - b) + (b - a);
  fits = λ rows v. true;
  argpartition = λ dists k. argsort dists;
}

line_laws : PartitionLaws line
line_laws = record {
  permutes = λ dists k h. argsort-permutes dists;
  splits = λ dists k other h. argsort-splits dists k other;
}

abbrev heap : Heapq ℕ
heap = record { order = λ entries. entries }

abbrev three_nodes : Hnsw ℕ ℕ
three_nodes = record {
  max_links = 2;
  ef_construction = 10;
  ef_search = 10;
  neighbor_selection = heuristic;
  rng = 0;
  rows = 4 ∷ 7 ∷ 9 ∷ [];
  capacity = 16;
  graph = [];
  entry_point = some 1;
  levels = 2;
}

exact_among-Exact_example :
    (pairs : List (ℕ × ℕ)) × (results : List (ℕ × ℕ)) × (distances line
        (4 ∷ 7 ∷ 9 ∷ [])
        8
        (0 ∷ 1 ∷ 2 ∷ [])
      ≡ ok pairs)
    × (exact_among line heap three_nodes 8 (0 ∷ 1 ∷ 2 ∷ []) 2 ≡ ok results)
    × Exact 2 pairs results
exact_among-Exact_example =
    exact_among-Exact line heap three_nodes 8 (0 ∷ 1 ∷ 2 ∷ []) 2 line_laws
      (omega arith, (omega arith, (omega arith, tt)))
