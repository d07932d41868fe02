-- ===== src/Hnsw/Search/Allowed.antt =====
-- A search with an array of allowed nodes returns no other, whatever the graph is like. With this an HNSW
-- index is an index as vsearch/cluster.py relies on it.
use distributed_vector_searc.Prelude.{
  ℕ, zero, suc, ◌-◌, ◌≡◌, subst, Bool, true, not, List, [], ◌∷◌, map, some, Result, Error, ok, err,
  >>=-eq-ok, if◌then◌else◌, keep, max, take, Ord, nat_ord, pair_ord, All, map-All, All-take,
  Bool-cases, Option-cases, List-cases, inl, inr,
}
use distributed_vector_searc.Python.Sorting.{sorted, sorted-All}
use distributed_vector_searc.Filtering.Index.Flags.{flag_at}
use distributed_vector_searc.Hnsw.{
  Space, Neg, neg_ord, Heapq, Hnsw, Layer, layer_at, row, neighbors_of, distances,
}
use distributed_vector_searc.Hnsw.Layer.{
  Beam, is_better, is_visited, offer, expand, beam_loop, is_done, rounds, scored, read_flags,
  search_layer_filtered,
}
use distributed_vector_searc.Hnsw.Layer.Walk.{push_result-All}
use distributed_vector_searc.Hnsw.Layer.Found.{HeapqLaws}
use distributed_vector_searc.Hnsw.Insert.{descend, insert}
use distributed_vector_searc.Hnsw.Search.{
  search_bottom, search_from, search_with_distances, exact_among,
}
use distributed_vector_searc.Hnsw.Search.Results.{exact_among-Nearest}
use distributed_vector_searc.Cluster.Shard.{IndexOps, IndexLaws}

module _ {D : Type 0} ⦃o : Ord D⦄ (allowed : ℕ → Bool) where
  abbrev pub Allowed : List (Neg D × ℕ) → Type 0
  Allowed results = All (λ r. allowed r.1 ≡ true) results

  offer-Allowed :
      (ef : ℕ) (fresh : List (D × ℕ)) (b b' : Beam D)
      → Allowed b.results
      → offer allowed ef fresh b ≡ ok b'
      → Allowed b'.results
  unfolding offer
  offer-Allowed ef [] b b' h e = let same : b ≡ b' = cc in subst (λ b. Allowed b.results) same h
  offer-Allowed ef ((d, node) ∷ fresh) b b' h e =
      let (better, a, rest) = >>=-eq-ok (is_better ef d b.results) _ e in
      elim (Bool-cases better) [
        | inr worse ↦ offer-Allowed ef fresh b b' h (rw worse at rest)
        | inl closer ↦ elim (Bool-cases (allowed node)) [
          | inl may ↦
              offer-Allowed ef fresh _ b'
                (push_result-All (λ r. allowed r.1 ≡ true) ef d node b.results may h)
                (rw may at (rw closer at rest))
          | inr not_may ↦ offer-Allowed ef fresh _ b' h (rw not_may at (rw closer at rest))
        ]
      ]

module _ {V D : Type 0} ⦃o : Ord D⦄ (s : Space V D) (rows : List V) (layer : Layer)
    (reads : List ℕ → Result (Unit {0})) (allowed : ℕ → Bool) (query : V) where
  expand-Allowed :
      (ef node : ℕ) (candidates : List (D × ℕ)) (b b' : Beam D)
      → Allowed allowed b.results
      → expand s rows reads allowed ef layer query node candidates b ≡ ok b'
      → Allowed allowed b'.results
  unfolding expand
  expand-Allowed ef node candidates b b' h e =
      let (adjacent, a, rest) = >>=-eq-ok (neighbors_of layer node) _ e in
      let fresh = keep (λ n. not (is_visited b.visited n)) adjacent in
      let (dists, c, read) = >>=-eq-ok (distances s rows query fresh) _ rest in
      let (done, d, last) = >>=-eq-ok (reads fresh) _ read in
      offer-Allowed allowed ef dists _ b' h last

  beam_loop-Allowed :
      (fuel ef : ℕ) (stop : D → List (Neg D × ℕ) → Result Bool) (b b' : Beam D)
      → Allowed allowed b.results
      → beam_loop s rows fuel stop reads allowed ef layer query b ≡ ok b'
      → Allowed allowed b'.results
  unfolding beam_loop
  beam_loop-Allowed zero ef stop b b' h e = elim (List-cases b.candidates) [
    | inl k ↦
        let done : ok b ≡ ok b' = rw (k, beam_loop) at e in
        let same : b ≡ b' = cc in subst (λ b. Allowed allowed b.results) same h
    | inr (c, cs, k) ↦ let raised : err Error.out_of_fuel ≡ ok b' = rw (k, beam_loop) at e in cc
  ]
  beam_loop-Allowed (suc fuel) ef stop b b' h e = elim (List-cases b.candidates) [
    | inl k ↦
        let done : ok b ≡ ok b' = rw (k, beam_loop) at e in
        let same : b ≡ b' = cc in subst (λ b. Allowed allowed b.results) same h
    | inr ((dist, c), cs, k) ↦
        let (stops, a, rest) = >>=-eq-ok (stop dist b.results) _ (rw (k, beam_loop) at e) in
        elim (Bool-cases stops) [
          | inl t ↦
              let done : ok b ≡ ok b' = rw t at rest in
              let same : b ≡ b' = cc in subst (λ b. Allowed allowed b.results) same h
          | inr f ↦
              let (next, d, more) =
                >>=-eq-ok (expand s rows reads allowed ef layer query c cs b) _ (rw f at rest) in
              beam_loop-Allowed fuel ef stop next b' (expand-Allowed ef c cs b next h d) more
        ]
  ]

module _ {V D : Type 0} ⦃o : Ord D⦄ (s : Space V D) (rows : List V) (layer : Layer)
    (allowed : List Bool) (query : V) where
  search_layer_filtered-Allowed :
      (heap : Heapq D) (laws : HeapqLaws heap) (entry ef : ℕ) (found : List (D × ℕ))
      → search_layer_filtered s rows heap layer query entry ef allowed ≡ ok found
      → All (λ r. flag_at allowed r.1 ≡ true) found
  unfolding search_layer_filtered
  search_layer_filtered-Allowed heap laws entry ef found e =
      let (v, a, rest) = >>=-eq-ok (row rows entry) _ e in
      let (read, r, looped) = >>=-eq-ok (read_flags allowed (entry ∷ [])) _ rest in
      let first : List (Neg D × ℕ) =
        if flag_at allowed entry then (record { value = s.distance v query }, entry) ∷ [] else [] in
      let start : Beam D = record {
        visited = entry ∷ [];
        candidates = (s.distance v query, entry) ∷ [];
        results = first;
      } in
      let first_good : Allowed (flag_at allowed) first = elim (Bool-cases (flag_at allowed entry)) [
        | inl k ↦ rw k (k, tt)
        | inr k ↦ rw k tt
      ] in
      let (b, c, last) =
        >>=-eq-ok
          (beam_loop s rows (rounds rows layer) (is_done ef) (read_flags allowed) (flag_at allowed)
            ef layer query start)
          (λ b. ok (scored heap b.results)) looped in
      let kept =
        beam_loop-Allowed s rows layer (read_flags allowed) (flag_at allowed) query
          (rounds rows layer) ef (is_done ef) start b first_good c in
      let same : scored heap b.results ≡ found = cc in
      subst (All (λ r. flag_at allowed r.1 ≡ true)) same (
        laws.same_entries (λ r. flag_at allowed r.1 ≡ true) (map (λ r. (r.0.value, r.1)) b.results)
          (map-All (λ r. flag_at allowed r.1 ≡ true) (λ r. (r.0.value, r.1)) b.results kept))

module _ {V D R : Type 0} ⦃o : Ord D⦄ (s : Space V D) (heap : Heapq D) (laws : HeapqLaws heap) where
  search_with_distances-Allowed :
      (h : Hnsw V R) (vector : V) (k : ℕ) (allowed : List Bool) (results : List (D × ℕ))
      → search_with_distances s heap h vector k (some allowed) ≡ ok results
      → All (λ r. flag_at allowed r.1 ≡ true) results
  unfolding search_with_distances search_from search_bottom
  search_with_distances-Allowed h vector k allowed results e = elim (Option-cases h.entry_point) [
    | inl none_there ↦
        let empty : ok [] ≡ ok results = rw (none_there, search_with_distances) at e in
        let same : [] ≡ results = cc in subst (All (λ r. flag_at allowed r.1 ≡ true)) same tt
    | inr (entry_point, there) ↦
        let query = s.normalize vector in
        let (bottom, a, rest) =
          >>=-eq-ok (descend s h.rows h.graph query 0 (h.levels - 1) entry_point) _
            (rw (there, search_with_distances) at e) in
        let (found, b, last) =
          >>=-eq-ok (search_bottom s heap h query k bottom (some allowed))
            (λ found. ok (take k (sorted found))) rest in
        let (layer, c, filtered) = >>=-eq-ok (layer_at h.graph 0) _ b in
        let good =
          search_layer_filtered-Allowed s h.rows layer allowed query heap laws bottom
            (max h.ef_search k) found filtered in
        let same : take k (sorted found) ≡ results = cc in
        subst (All (λ r. flag_at allowed r.1 ≡ true)) same (
          All-take (λ r. flag_at allowed r.1 ≡ true) k (sorted found)
            (sorted-All (λ r. flag_at allowed r.1 ≡ true) found good))
  ]

-- The index of a shard: `HNSW(**hnsw_params)` is `empty`, and `draw` is `_random_level`.
abbrev pub hnsw_ops :
    {V D R : Type 0}
    → ⦃o : Ord D⦄ → Space V D
    → Heapq D
    → (R → ℕ × R)
    → Hnsw V R
    → IndexOps (Hnsw V R) V D
hnsw_ops s heap draw empty = record {
  new = empty;
  insert = insert s heap draw;
  search_with_distances = search_with_distances s heap;
  exact_among = exact_among s heap;
  ef_search = λ h. h.ef_search;
}

-- The HNSW index keeps what a shard relies on, for every state of the index, whether or not its
-- graph is well formed, every draw of levels and every k: if a search with an array of allowed
-- nodes returns, its results are allowed nodes only, and if exact_among returns, its results are
-- among the given nodes. It is assumed that the list of a heap has the heap's entries and no
-- others.
pub hnsw_ops-IndexLaws :
    {V D R : Type 0} ⦃o : Ord D⦄ (s : Space V D) (heap : Heapq D) (draw : R → ℕ × R)
    (empty : Hnsw V R)
    → HeapqLaws heap
    → IndexLaws (hnsw_ops s heap draw empty)
hnsw_ops-IndexLaws s heap draw empty laws = record {
  only_allowed = λ h query k allowed results e.
      search_with_distances-Allowed s heap laws h query k allowed results e;
  only_among =
      λ h query nodes k results e. (exact_among-Nearest s heap h query nodes k results e).good;
}
