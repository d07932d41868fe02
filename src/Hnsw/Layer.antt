-- ===== src/Hnsw/Layer.antt =====
-- The walks within one layer: `_greedy_descend`, `_search_layer_with_distances`, `_search_layer_filtered`.
pub mod Greedy
pub mod Unvisited
pub mod Walk
pub mod Found
use distributed_vector_searc.Prelude.{
  ℕ, zero, suc, ◌+◌, ◌*◌, Bool, true, false, not, ◌&&◌, ◌||◌, List, [], ◌∷◌, ◌++◌, map, Option,
  none, some, Result, Error, ok, err, ◌>>=◌, ◌==◌, if◌then◌else◌, length, drop, keep, any, ltb, leb,
  Ord, ◌≼?◌, ◌≺?◌, nat_ord, pair_ord,
}
use distributed_vector_searc.Python.Sorting.{insert}
use distributed_vector_searc.Filtering.Index.Flags.{flag_at}
use distributed_vector_searc.Hnsw.{
  Space, Neg, neg_ord, Heapq, Layer, row, neighbors_of, distances, link_count,
}

-- The heaps of a beam search, each with its smallest entry first, and the nodes met.
pub record Beam (D : Type 0) : Type 0 where
  pub visited : List ℕ
  pub candidates : List (D × ℕ)
  pub results : List (Neg D × ℕ)

abbrev pub is_visited : List ℕ → ℕ → Bool
is_visited visited node = any (λ n. n == node) visited

abbrev pub rounds : {V : Type 0} → List V → Layer → ℕ
rounds rows layer = suc (link_count layer * length rows)

-- The reading of `allowed` at an array of nodes, which raises for a node past its end.
unfoldable pub read_flags : List Bool → List ℕ → Result (Unit {0})
read_flags allowed [] = ok tt
read_flags allowed (node ∷ nodes) =
    let rest = read_flags allowed nodes in
    if ltb node (length allowed) then rest else err Error.index_error

module _ {D : Type 0} ⦃o : Ord D⦄ where
  -- `np.argmin`: the first of the smallest, here of the nodes after the first one.
  unfoldable pub argmin : D × ℕ → List (D × ℕ) → D × ℕ
  argmin best [] = best
  argmin best (other ∷ others) = argmin (if other.0 ≺? best.0 then other else best) others

  -- `-results[0][0]`
  unfoldable pub worst : List (Neg D × ℕ) → Result D
  worst [] = err Error.index_error
  worst ((d, node) ∷ results) = ok d.value

  -- `len(results) < ef or d < -results[0][0]`
  unfoldable pub is_better : ℕ → D → List (Neg D × ℕ) → Result Bool
  unfolding worst
  is_better ef d results =
      if ltb (length results) ef then ok true else do w ← worst results; ok (d ≺? w)

  unfoldable pub push_result : ℕ → D → ℕ → List (Neg D × ℕ) → List (Neg D × ℕ)
  unfolding insert
  push_result ef d node results =
      let pushed = insert (record { value = d }, node) results in
      if ltb ef (length pushed) then drop 1 pushed else pushed

  -- The loop over the fresh neighbors; `allowed` says which nodes may be results.
  unfoldable pub offer : (ℕ → Bool) → ℕ → List (D × ℕ) → Beam D → Result (Beam D)
  unfolding is_better push_result
  offer allowed ef [] b = ok b
  offer allowed ef ((d, node) ∷ fresh) b = do
    better ← is_better ef d b.results
    let pushed : Beam D = record b {
      candidates = insert (d, node) b.candidates;
      results = if allowed node then push_result ef d node b.results else b.results;
    }
    offer allowed ef fresh (if better then pushed else b)

  -- `dist_c > -results[0][0]`
  unfoldable pub is_farther : D → List (Neg D × ℕ) → Result Bool
  unfolding worst
  is_farther d results = do w ← worst results; ok (w ≺? d)

  -- `len(results) >= ef and dist_c > -results[0][0]`
  unfoldable pub is_done : ℕ → D → List (Neg D × ℕ) → Result Bool
  unfolding is_farther
  is_done ef d results = if leb ef (length results) then is_farther d results else ok false

  -- `[(-neg_dist, node_id) for neg_dist, node_id in results]`
  abbrev pub scored : Heapq D → List (Neg D × ℕ) → List (D × ℕ)
  scored heap results = heap.order (map (λ r. (r.0.value, r.1)) results)

module _ {V D : Type 0} ⦃o : Ord D⦄ (s : Space V D) (rows : List V) where
  -- The loop of `_greedy_descend`, on fuel.
  unfoldable pub descend_loop : ℕ → Layer → V → ℕ → D → Result ℕ
  unfolding neighbors_of distances argmin
  descend_loop zero layer query current current_dist = err Error.out_of_fuel
  descend_loop (suc fuel) layer query current current_dist = do
    neighbors ← neighbors_of layer current
    dists ← distances s rows query neighbors
    elim dists [
      | [] ↦ ok current
      | first ∷ others ↦
          let (best_dist, best) = argmin first others in
          if current_dist ≼? best_dist
          then ok current
          else descend_loop fuel layer query best best_dist
    ]

  unfoldable pub greedy_descend : Layer → V → ℕ → Result ℕ
  unfolding descend_loop row
  greedy_descend layer query entry = do
    v ← row rows entry
    descend_loop (suc (length rows)) layer query entry (s.distance v query)

  -- One round, after the closest candidate left the heap; `reads` is the reading of the flags.
  unfoldable pub expand :
      (List ℕ → Result (Unit {0}))
      → (ℕ → Bool)
      → ℕ
      → Layer
      → V
      → ℕ
      → List (D × ℕ)
      → Beam D
      → Result (Beam D)
  unfolding neighbors_of distances offer
  expand reads allowed ef layer query node candidates b = do
    adjacent ← neighbors_of layer node
    let fresh = keep (λ n. not (is_visited b.visited n)) adjacent
    dists ← distances s rows query fresh
    read ← reads fresh
    offer allowed ef dists (record b { visited = b.visited ++ fresh; candidates = candidates })

  -- The loop, on fuel; `stop` is the test of the closest candidate.
  unfoldable pub beam_loop :
      ℕ
      → (D → List (Neg D × ℕ) → Result Bool)
      → (List ℕ → Result (Unit {0}))
      → (ℕ → Bool)
      → ℕ
      → Layer
      → V
      → Beam D
      → Result (Beam D)
  unfolding expand
  beam_loop zero stop reads allowed ef layer query b = elim b.candidates [
    | [] ↦ ok b
    | _ ∷ _ ↦ err Error.out_of_fuel
  ]
  beam_loop (suc fuel) stop reads allowed ef layer query b = elim b.candidates [
    | [] ↦ ok b
    | (dist_c, c) ∷ candidates ↦ do
      done ← stop dist_c b.results
      elim done [
        | true ↦ ok b
        | false ↦ do
          next ← expand reads allowed ef layer query c candidates b
          beam_loop fuel stop reads allowed ef layer query next
      ]
  ]

  unfoldable pub search_layer_with_distances : Heapq D → Layer → V → ℕ → ℕ → Result (List (D × ℕ))
  unfolding beam_loop row is_farther
  search_layer_with_distances heap layer query entry ef = do
    v ← row rows entry
    let d_entry = s.distance v query
    b ←
        beam_loop (rounds rows layer) is_farther (λ nodes. ok tt) (λ n. true) ef layer query
          (record {
            visited = entry ∷ [];
            candidates = (d_entry, entry) ∷ [];
            results = (record { value = d_entry }, entry) ∷ [];
          })
    ok (scored heap b.results)

  unfoldable pub search_layer_filtered :
      Heapq D → Layer → V → ℕ → ℕ → List Bool → Result (List (D × ℕ))
  unfolding beam_loop row is_done read_flags
  search_layer_filtered heap layer query entry ef allowed = do
    v ← row rows entry
    let d_entry = s.distance v query
    read ← read_flags allowed (entry ∷ [])
    b ←
        beam_loop (rounds rows layer) (is_done ef) (read_flags allowed) (flag_at allowed) ef layer
          query
          (record {
            visited = entry ∷ [];
            candidates = (d_entry, entry) ∷ [];
            results =
                if flag_at allowed entry then (record { value = d_entry }, entry) ∷ [] else [];
          })
    ok (scored heap b.results)

  -- `_search_layer`
  unfoldable pub search_layer : Heapq D → Layer → V → ℕ → ℕ → Result (List ℕ)
  unfolding search_layer_with_distances
  search_layer heap layer query entry ef = do
    results ← search_layer_with_distances heap layer query entry ef
    ok (map (λ r. r.1) results)
