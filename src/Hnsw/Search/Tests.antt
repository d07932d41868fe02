-- ===== src/Hnsw/Search/Tests.antt =====
-- Runs of an index of numbers, with two layers.
use distributed_vector_searc.Hnsw.Search.Allowed.{hnsw_ops, hnsw_ops-IndexLaws}
use distributed_vector_searc.Cluster.Shard.{IndexLaws}
use distributed_vector_searc.Prelude.{
  ℕ, zero, suc, ◌+◌, ◌-◌, ◌<◌, ◌≡◌, refl, true, false, List, [], ◌∷◌, some, Error, ok, err, nat_ord,
  pair_ord, All, arith,
}
use distributed_vector_searc.Hnsw.{
  Space, Heapq, Hnsw, Layer, heuristic, layer_at, neighbors_of, link_count,
}
use distributed_vector_searc.Hnsw.Layer.{greedy_descend}
use distributed_vector_searc.Hnsw.Layer.Walk.{IsClosed}
use distributed_vector_searc.Hnsw.Layer.Found.{HeapqLaws}
use distributed_vector_searc.Hnsw.Select.{select_neighbors}
use distributed_vector_searc.Hnsw.Select.Chosen.{Chosen, select_neighbors-Chosen}
use distributed_vector_searc.Hnsw.Search.{search_with_distances, exact_among}
use distributed_vector_searc.Hnsw.Search.Results.{
  IsGraph, IsEntered, Nearest, allows, search_with_distances-ok,
}

abbrev line : Space ℕ ℕ
line = record {
  normalize = λ v. v;
  distance = λ a b. (a - b) + (b - a);
  fits = λ rows v. true;
  argpartition = λ dists k. 2 ∷ 1 ∷ 0 ∷ [];
}

abbrev heap : Heapq ℕ
heap = record { order = λ entries. entries }

heap_laws : HeapqLaws heap
heap_laws = record { same_entries = λ P entries h. h; same_length = λ entries. refl }

abbrev ground_layer : Layer
ground_layer = (0, 1 ∷ []) ∷ (1, 0 ∷ 2 ∷ []) ∷ (2, 1 ∷ []) ∷ []

abbrev upper_layer : Layer
upper_layer = (1, []) ∷ []

abbrev rows : List ℕ
rows = 4 ∷ 7 ∷ 9 ∷ []

abbrev three_nodes : Hnsw ℕ ℕ
three_nodes = record {
  max_links = 2;
  ef_construction = 10;
  ef_search = 10;
  neighbor_selection = heuristic;
  rng = 0;
  rows = rows;
  capacity = 16;
  graph = ground_layer ∷ upper_layer ∷ [];
  entry_point = some 1;
  levels = 2;
}

abbrev InLayer : ℕ → ℕ → Type 0
InLayer zero n = n < 3
InLayer (suc zero) n = n ≡ 1
InLayer (suc (suc l)) n = n < 0

ground_adjacent :
    (n : ℕ)
    → n < 3
    → (links : List ℕ) × (neighbors_of ground_layer n ≡ ok links) × All (λ n. n < 3) links
unfolding neighbors_of
ground_adjacent zero h = (1 ∷ [], refl, (omega arith, tt))
ground_adjacent (suc zero) h = (0 ∷ 2 ∷ [], refl, (omega arith, (omega arith, tt)))
ground_adjacent (suc (suc zero)) h = (1 ∷ [], refl, (omega arith, tt))
ground_adjacent (suc (suc (suc n))) h = absurd (omega (arith, h))

ground_IsClosed : IsClosed rows ground_layer (InLayer 0)
ground_IsClosed = record { adjacent = ground_adjacent; stored = λ n h. h }

upper_adjacent :
    (n : ℕ)
    → n ≡ 1
    → (links : List ℕ) × (neighbors_of upper_layer n ≡ ok links) × All (λ n. n ≡ 1) links
unfolding neighbors_of
upper_adjacent zero h = absurd (omega (arith, h))
upper_adjacent (suc zero) h = ([], refl, tt)
upper_adjacent (suc (suc n)) h = absurd (omega (arith, h))

upper_IsClosed : IsClosed rows upper_layer (InLayer 1)
upper_IsClosed = record { adjacent = upper_adjacent; stored = λ n h. omega (arith, h) }

closed :
    (l : ℕ)
    → l < 2
    → (layer : Layer) × (layer_at three_nodes.graph l ≡ ok layer) × IsClosed rows layer (InLayer l)
unfolding layer_at
closed zero h = (ground_layer, refl, ground_IsClosed)
closed (suc zero) h = (upper_layer, refl, upper_IsClosed)
closed (suc (suc l)) h = absurd (omega (arith, h))

nested : (l n : ℕ) → InLayer (suc l) n → InLayer l n
nested zero n h = omega (arith, h)
nested (suc l) n h = absurd (omega (arith, h))

three_nodes-IsGraph : IsGraph three_nodes.rows three_nodes.graph InLayer
three_nodes-IsGraph = record { closed = closed; nested = nested }

three_nodes-IsEntered : IsEntered three_nodes InLayer 1 1
three_nodes-IsEntered = record { at = refl; layers = refl; enough = omega arith; inside = refl }

search_with_distances-ok_example :
    (results : List (ℕ × ℕ)) × (search_with_distances line heap three_nodes 8 2
        (some (true ∷ false ∷ true ∷ []))
      ≡ ok results)
    × Nearest 2 (λ n. InLayer 0 n × (allows (some (true ∷ false ∷ true ∷ [])) n ≡ true)) results
search_with_distances-ok_example =
    search_with_distances-ok line heap heap_laws InLayer three_nodes 8 2 1 1
      (some (true ∷ false ∷ true ∷ [])) three_nodes-IsGraph three_nodes-IsEntered (omega arith)
      (λ n h. h)

filtered_search :
    search_with_distances line heap three_nodes 8 2 (some (true ∷ false ∷ true ∷ []))
    ≡ ok ((1, 2) ∷ (4, 0) ∷ [])
unfolding search_with_distances link_count
filtered_search = refl

short_array :
    search_with_distances line heap three_nodes 8 2 (some (true ∷ [])) ≡ err Error.index_error
unfolding search_with_distances link_count
short_array = refl

greedy_run : greedy_descend line rows ground_layer 9 0 ≡ ok 2
unfolding greedy_descend
greedy_run = refl

select_neighbors-Chosen_example :
    Chosen line rows
      (λ n. n < 3)
      (λ n h. h)
      1
      (select_neighbors line rows heuristic ((3, 0) ∷ (1, 2) ∷ (0, 1) ∷ []) 1)
select_neighbors-Chosen_example =
    select_neighbors-Chosen line rows (λ n. n < 3) (λ n h. h) heuristic
      ((3, 0) ∷ (1, 2) ∷ (0, 1) ∷ []) 1 (omega arith)
      (omega arith, (omega arith, (omega arith, tt)))

exact_run : exact_among line heap three_nodes 8 (0 ∷ 1 ∷ 2 ∷ []) 2 ≡ ok ((1, 1) ∷ (1, 2) ∷ [])
unfolding exact_among
exact_run = refl

abbrev no_levels : ℕ → ℕ × ℕ
no_levels rng = (0, rng)

hnsw_ops-IndexLaws_example : IndexLaws (hnsw_ops line heap no_levels three_nodes)
hnsw_ops-IndexLaws_example = hnsw_ops-IndexLaws line heap no_levels three_nodes heap_laws
