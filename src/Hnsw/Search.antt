-- ===== src/Hnsw/Search.antt =====
-- `search_with_distances`, `search` and `exact_among`.
pub mod Exact
pub mod Results
pub mod Allowed
pub mod Tests
use distributed_vector_searc.Prelude.{
  ℕ, zero, suc, ◌+◌, ◌-◌, Bool, true, false, List, [], ◌∷◌, ◌++◌, map, Option, none, some, Result,
  Error, ok, err, ◌>>=◌, if◌then◌else◌, length, take, ltb, max, Ord, nat_ord, pair_ord, get_elem?,
}
use distributed_vector_searc.Python.Sorting.{sorted}
use distributed_vector_searc.Hnsw.{Space, Heapq, Hnsw, Layer, layer_at, distances}
use distributed_vector_searc.Hnsw.Layer.{
  greedy_descend, search_layer_with_distances, search_layer_filtered,
}
use distributed_vector_searc.Hnsw.Insert.{descend}

-- `node_ids[nearest]` and `dists[nearest]`
unfoldable pub entries_at : {D : Type 0} → List (D × ℕ) → List ℕ → Result (List (D × ℕ))
entries_at pairs [] = ok []
entries_at pairs (i ∷ indices) = elim (get_elem? pairs i) [
  | none ↦ err Error.index_error
  | some pair ↦ do rest ← entries_at pairs indices; ok (pair ∷ rest)
]

module _ {V D R : Type 0} ⦃o : Ord D⦄ (s : Space V D) (heap : Heapq D) where
  -- The search of layer 0, of all nodes or of those that an array allows.
  unfoldable pub search_bottom : Hnsw V R → V → ℕ → ℕ → Option (List Bool) → Result (List (D × ℕ))
  unfolding layer_at search_layer_with_distances search_layer_filtered
  search_bottom h query k entry none = do
    layer ← layer_at h.graph 0
    search_layer_with_distances s h.rows heap layer query entry h.ef_search
  search_bottom h query k entry (some allowed) = do
    layer ← layer_at h.graph 0
    search_layer_filtered s h.rows heap layer query entry (max h.ef_search k) allowed

  -- The search of an index that is not empty.
  unfoldable pub search_from : Hnsw V R → V → ℕ → Option (List Bool) → ℕ → Result (List (D × ℕ))
  unfolding descend search_bottom sorted
  search_from h query k allowed entry_point = do
    entry ← descend s h.rows h.graph query 0 (h.levels - 1) entry_point
    found ← search_bottom h query k entry allowed
    ok (take k (sorted found))

  unfoldable pub search_with_distances :
      Hnsw V R → V → ℕ → Option (List Bool) → Result (List (D × ℕ))
  unfolding search_from
  search_with_distances h vector k allowed = elim h.entry_point [
    | none ↦ ok []
    | some entry_point ↦ search_from h (s.normalize vector) k allowed entry_point
  ]

  unfoldable pub search : Hnsw V R → V → ℕ → Result (List ℕ)
  unfolding search_with_distances
  search h query k = do found ← search_with_distances h query k none; ok (map (λ r. r.1) found)

  unfoldable pub exact_among : Hnsw V R → V → List ℕ → ℕ → Result (List (D × ℕ))
  unfolding distances entries_at sorted
  exact_among h vector [] k = ok []
  exact_among h vector (node ∷ nodes) k = do
    pairs ← distances s h.rows (s.normalize vector) (node ∷ nodes)
    nearest ← elim (ltb k (length pairs)) [
      | true ↦ entries_at pairs (take k (s.argpartition (map (λ p. p.0) pairs) k))
      | false ↦ ok pairs
    ]
    ok (take k (sorted nearest))
