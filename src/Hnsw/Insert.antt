-- ===== src/Hnsw/Insert.antt =====
-- `insert`: storing a vector, and wiring it into the graph.
pub mod Distinct
pub mod Spare
use distributed_vector_searc.Prelude.{
  ℕ, zero, suc, ◌+◌, ◌-◌, ◌*◌, true, false, List, [], ◌∷◌, ◌++◌, none, some, Result, Error, ok, err,
  ◌>>=◌, ◌==◌, if◌then◌else◌, length, set, min, ltb, Ord,
}
use distributed_vector_searc.Hnsw.{
  Space, Selection, Heapq, Hnsw, Layer, layer_at, row, neighbors_of, put_links, distances,
}
use distributed_vector_searc.Hnsw.Layer.{greedy_descend, search_layer_with_distances}
use distributed_vector_searc.Hnsw.Select.{stable_sort, select_neighbors}

abbrev pub initial_capacity : ℕ
initial_capacity = 16

-- The capacity that `_append` finds or makes before it stores a row.
unfoldable pub grown_capacity : ℕ → ℕ → ℕ
grown_capacity zero count = initial_capacity
grown_capacity (suc capacity) count =
    if count == suc capacity then 2 * suc capacity else suc capacity

-- `while len(self.graph) <= level: self.graph.append({})`
unfoldable pub grow_graph : ℕ → List Layer → List Layer
grow_graph zero [] = [] ∷ []
grow_graph (suc level) [] = [] ∷ grow_graph level []
grow_graph zero (layer ∷ graph) = layer ∷ graph
grow_graph (suc level) (layer ∷ graph) = layer ∷ grow_graph level graph

-- `for layer in range(level + 1): self.graph[layer][node_id] = []`
unfoldable pub register : ℕ → ℕ → List Layer → List Layer
unfolding put_links
register node level [] = []
register node zero (layer ∷ graph) = put_links node [] layer ∷ graph
register node (suc level) (layer ∷ graph) = put_links node [] layer ∷ register node level graph

-- The state while one vector is inserted: the graph, and the node to start the next layer from.
pub record Wiring : Type 0 where
  pub graph : List Layer
  pub entry : ℕ

-- `M * 2` in layer 0, `M` above it.
abbrev pub max_conn : ℕ → ℕ → ℕ
max_conn max_links zero = max_links * 2
max_conn max_links (suc layer) = max_links

module _ {V D : Type 0} ⦃o : Ord D⦄ (s : Space V D) where
  -- Phase A: `levels` layers above layer `level`, from the top down.
  unfoldable pub descend : List V → List Layer → V → ℕ → ℕ → ℕ → Result ℕ
  unfolding layer_at greedy_descend
  descend rows graph unit level zero entry = ok entry
  descend rows graph unit level (suc above) entry = do
    layer ← layer_at graph (level + suc above)
    next ← greedy_descend s rows layer unit entry
    descend rows graph unit level above next

  -- The two links of one new pair, and the bound on the neighbor's.
  unfoldable pub link : List V → Selection → ℕ → ℕ → ℕ → Layer → Result Layer
  unfolding neighbors_of put_links distances select_neighbors row
  link rows selection bound node n layer = do
    own ← neighbors_of layer node
    let layer' = put_links node (own ++ n ∷ []) layer
    others ← neighbors_of layer' n
    let links = others ++ node ∷ []
    let linked = put_links n links layer'
    elim (ltb bound (length links)) [
      | false ↦ ok linked
      | true ↦ do
        base ← row rows n
        dists ← distances s rows base links
        chosen ← select_neighbors s rows selection dists bound
        ok (put_links n chosen linked)
    ]

  unfoldable pub link_all : List V → Selection → ℕ → ℕ → List ℕ → Layer → Result Layer
  unfolding link
  link_all rows selection bound node [] layer = ok layer
  link_all rows selection bound node (n ∷ neighbors) layer = do
    linked ← link rows selection bound node n layer
    link_all rows selection bound node neighbors linked

module _ {V D R : Type 0} ⦃o : Ord D⦄ (s : Space V D) (heap : Heapq D) where
  -- Phase B in one layer.
  unfoldable pub connect : Hnsw V R → V → ℕ → ℕ → Wiring → Result Wiring
  unfolding layer_at search_layer_with_distances stable_sort select_neighbors link_all
  connect h unit node layer w = do
    links ← layer_at w.graph layer
    found ← search_layer_with_distances s h.rows heap links unit w.entry h.ef_construction
    let scored = stable_sort found
    neighbors ← select_neighbors s h.rows h.neighbor_selection scored h.max_links
    linked ←
        link_all s h.rows h.neighbor_selection (max_conn h.max_links layer) node neighbors links
    elim scored [
      | [] ↦ err Error.index_error
      | first ∷ others ↦ ok (record { graph = set w.graph layer linked; entry = first.1 })
    ]

  -- The layers from `layers - 1` down to 0.
  unfoldable pub connect_loop : Hnsw V R → V → ℕ → ℕ → Wiring → Result Wiring
  unfolding connect
  connect_loop h unit node zero w = ok w
  connect_loop h unit node (suc layer) w = do
    next ← connect h unit node layer w
    connect_loop h unit node layer next

  -- Both phases, for an index that has stored and registered the node.
  unfoldable pub wire : Hnsw V R → V → ℕ → ℕ → ℕ → Result (Hnsw V R)
  unfolding descend connect_loop
  wire h unit node level entry_point = do
    entry ← descend s h.rows h.graph unit level (h.levels - suc level) entry_point
    w ←
        connect_loop h unit node (min (suc level) h.levels)
          (record { graph = h.graph; entry = entry })
    let wired : Hnsw V R = record h { graph = w.graph }
    ok (
        if ltb h.levels (suc level)
        then record wired { levels = suc level; entry_point = some node }
        else wired)

  -- `_append` and the registration of the node in its layers; `draw` is `_random_level`.
  unfoldable pub stored : (R → ℕ × R) → Hnsw V R → V → Hnsw V R × ℕ
  unfolding grown_capacity grow_graph register
  stored draw h unit =
      let node = length h.rows in
      let (level, rng') = draw h.rng in
      (
        record h {
          rng = rng';
          rows = h.rows ++ unit ∷ [];
          capacity = grown_capacity h.capacity node;
          graph = register node level (grow_graph level h.graph);
        },
        level,
      )

  -- What follows: the first node is the whole graph, every other is wired to it.
  unfoldable pub placed : Hnsw V R → V → ℕ → ℕ → Result (Hnsw V R)
  unfolding wire
  placed h unit node level = elim h.entry_point [
    | none ↦ ok (record h { entry_point = some node; levels = suc level })
    | some entry_point ↦ wire h unit node level entry_point
  ]

  -- A vector that does not fit leaves no row, but perhaps a larger array. What had been linked before an
  -- exception in the graph is not kept track of.
  unfoldable pub insert : (R → ℕ × R) → Hnsw V R → V → Hnsw V R × Result (Unit {0})
  unfolding stored placed
  insert draw h vector =
      let unit = s.normalize vector in
      let (h', level) = stored draw h unit in
      if s.fits h.rows unit
      then (elim (placed h' unit (length h.rows) level) [
        | ok done ↦ (done, ok tt)
        | err e ↦ (h', err e)
      ])
      else (record h { capacity = h'.capacity }, err Error.value_error)

  -- `build`, which ends at the first vector that cannot be inserted.
  unfoldable pub build : (R → ℕ × R) → Hnsw V R → List V → Hnsw V R × Result (Unit {0})
  unfolding insert
  build draw h [] = (h, ok tt)
  build draw h (v ∷ vectors) =
      let (h', result) = insert draw h v in
      elim result [ ok _ ↦ build draw h' vectors | err e ↦ (h', err e) ]
