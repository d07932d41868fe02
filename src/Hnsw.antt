-- ===== src/Hnsw.antt =====
-- The index of vsearch/hnsw.py: its state, the access to its rows and links, and what it uses of numpy
-- and heapq. A vector is of a type `V`, a distance of an ordered type `D`.
pub mod Layer
pub mod Select
pub mod Insert
pub mod Search
use distributed_vector_searc.Prelude.{
  ℕ, zero, suc, ◌+◌, ◌*◌, Bool, true, false, List, [], ◌∷◌, ◌++◌, map, Option, none, some, Result,
  Error, ok, err, ◌>>=◌, ◌==◌, if◌then◌else◌, length, get_elem?, Ord, ◌≡◌, ap,
}

-- `_normalize`, the distance `1.0 - a @ b`, whether a vector can be stored beside those that are there
-- (numpy raises otherwise), and `np.argpartition(dists, k)`.
pub record Space (V D : Type 0) : Type 0 where
  pub normalize : V → V
  pub distance : V → V → D
  pub fits : List V → V → Bool
  pub argpartition : List D → ℕ → List ℕ

-- A number with the opposite order: heapq keeps its smallest entry on top.
pub record Neg (D : Type 0) : Type 0 where
  pub value : D

module _ {D : Type 0} ⦃o : Ord D⦄ where
  abbrev pub neg_le : Neg D → Neg D → Bool
  neg_le a b = o.le b.value a.value

  pub neg_antisymm : (a b : Neg D) → neg_le a b ≡ true → neg_le b a ≡ true → a ≡ b
  neg_antisymm a b h k = ap (λ d. record { value = d }) (o.antisymm a.value b.value k h)

  instance abbrev pub neg_ord : Ord (Neg D)
  neg_ord = record {
    le = neg_le;
    total = λ a b h. o.total b.value a.value h;
    trans = λ a b c h k. o.trans c.value b.value a.value k h;
    antisymm = neg_antisymm;
  }

-- The list that a heap of results is, once it is built: `order` says how its entries are laid out,
-- which heapq leaves open but for the first.
pub record Heapq (D : Type 0) : Type 0 where
  pub order : List (D × ℕ) → List (D × ℕ)

pub data Selection : Type 0 where
  heuristic closest : Selection

-- `{node_id: [neighbor_ids]}`, in insertion order.
abbrev pub Layer : Type 0
Layer = List (ℕ × List ℕ)

-- `levels` is `top_layer + 1`, so 0 stands for -1. `rows` are the rows in use, out of `capacity`.
pub record Hnsw (V R : Type 0) : Type 0 where
  pub max_links : ℕ
  pub ef_construction : ℕ
  pub ef_search : ℕ
  pub neighbor_selection : Selection
  pub rng : R
  pub rows : List V
  pub capacity : ℕ
  pub graph : List Layer
  pub entry_point : Option ℕ
  pub levels : ℕ

unfoldable pub new_index : {V R : Type 0} → ℕ → ℕ → ℕ → Selection → R → Hnsw V R
new_index max_links ef_construction ef_search selection rng = record {
  max_links = max_links;
  ef_construction = ef_construction;
  ef_search = ef_search;
  neighbor_selection = selection;
  rng = rng;
  rows = [];
  capacity = 0;
  graph = [];
  entry_point = none;
  levels = 0;
}

-- `set_vectors`, for vectors that have a component.
unfoldable pub set_vectors : {V D R : Type 0} → Space V D → Hnsw V R → List V → Bool → Hnsw V R
set_vectors s h [] normalized = record h { rows = []; capacity = 0 }
set_vectors s h (v ∷ vectors) normalized =
    let rows = v ∷ vectors in
    record h { rows = if normalized then rows else map s.normalize rows; capacity = length rows }

-- `self.graph[layer]`, `self._data[node]` and `adjacency[node]`.
unfoldable pub layer_at : List Layer → ℕ → Result Layer
layer_at graph layer = elim (get_elem? graph layer) [
  | some links ↦ ok links
  | none ↦ err Error.index_error
]

unfoldable pub row : {V : Type 0} → List V → ℕ → Result V
row rows node = elim (get_elem? rows node) [ some v ↦ ok v | none ↦ err Error.index_error ]

unfoldable pub neighbors_of : Layer → ℕ → Result (List ℕ)
neighbors_of [] node = err Error.key_error
neighbors_of ((n, links) ∷ layer) node = if n == node then ok links else neighbors_of layer node

-- `graph[layer][node] = links`: a node that is there keeps its place.
unfoldable pub put_links : ℕ → List ℕ → Layer → Layer
put_links node links [] = (node, links) ∷ []
put_links node links ((n, old) ∷ layer) =
    if n == node then (n, links) ∷ layer else (n, old) ∷ put_links node links layer

-- The distances from a query to some nodes, with the nodes: `1.0 - self._data[nodes] @ query`.
unfoldable pub distances : {V D : Type 0} → Space V D → List V → V → List ℕ → Result (List (D × ℕ))
unfolding row
distances s rows query [] = ok []
distances s rows query (node ∷ nodes) = do
  v ← row rows node
  rest ← distances s rows query nodes
  ok ((s.distance v query, node) ∷ rest)

-- The number of links in a layer.
unfoldable pub link_count : Layer → ℕ
link_count [] = 0
link_count ((n, links) ∷ layer) = length links + link_count layer
