-- ===== src/Storage/Snapshot.antt =====
-- `save_snapshot` and `load_snapshot` of vsearch/storage.py: the arrays of a snapshot file, and the shard
-- that they stand for. The format of the file (numpy's .npz, with the settings as JSON) and the
-- way it is put in place are left out: a snapshot is its arrays.
pub mod Restored
pub mod Tests
use distributed_vector_searc.Prelude.{
  ℕ, zero, suc, ◌+◌, ◌-◌, Bool, true, false, ◌||◌, List, [], ◌∷◌, ◌++◌, map, Option, none, some,
  Result, Error, ok, err, ◌>>=◌, ◌>>◌, guard, ◌==◌, leb, if◌then◌else◌, length, take, drop, concat,
  replicate, get_elem?,
}
use distributed_vector_searc.Python.Text.{Text}
use distributed_vector_searc.Python.Utf8.{encode, decode}
use distributed_vector_searc.Filtering.Index.{new_index}
use distributed_vector_searc.Hnsw.{Hnsw, Space, Selection, closest, Layer, put_links, set_vectors}
use distributed_vector_searc.Cluster.Shard.{Shard}

-- `layer{n}_nodes`, `layer{n}_offsets` and `layer{n}_neighbors`.
pub record LayerArrays : Type 0 where
  pub nodes : List ℕ
  pub offsets : List ℕ
  pub neighbors : List ℕ

-- `meta`. The snapshots of older versions have no neighbor_selection. The number of layers is that of
-- the layer arrays.
pub record Meta (R : Type 0) : Type 0 where
  pub format : ℕ
  pub last_seq : ℕ
  pub max_links : ℕ
  pub ef_construction : ℕ
  pub ef_search : ℕ
  pub neighbor_selection : Option Selection
  pub entry_point : Option ℕ
  pub levels : ℕ
  pub rng_state : R

-- The payloads as bytes, with where each one starts; none in snapshots from before there were any.
pub record Snapshot (V R : Type 0) : Type 0 where
  pub vectors : List V
  pub global_ids : List ℕ
  pub payloads : Option (List ℕ × List ℕ)
  pub layers : List LayerArrays
  pub meta : Meta R

abbrev pub snapshot_format : ℕ
snapshot_format = 3

-- `np.cumsum([start] + lengths)`
unfoldable pub cumsum : ℕ → List ℕ → List ℕ
cumsum start [] = start ∷ []
cumsum start (n ∷ lengths) = start ∷ cumsum (start + n) lengths

-- `[payload.encode("utf-8") for payload in payloads]`
unfoldable pub encode_all : List Text → Result (List (List ℕ))
unfolding encode
encode_all [] = ok []
encode_all (text ∷ texts) = do bytes ← encode text; rest ← encode_all texts; ok (bytes ∷ rest)

unfoldable pub layer_arrays : Layer → LayerArrays
unfolding cumsum
layer_arrays adjacency = record {
  nodes = map (λ e. e.0) adjacency;
  offsets = cumsum 0 (map (λ e. length e.1) adjacency);
  neighbors = concat (map (λ e. e.1) adjacency);
}

unfoldable pub meta_of : {V R : Type 0} → Hnsw V R → ℕ → Meta R
meta_of index last_seq = record {
  format = snapshot_format;
  last_seq = last_seq;
  max_links = index.max_links;
  ef_construction = index.ef_construction;
  ef_search = index.ef_search;
  neighbor_selection = some index.neighbor_selection;
  entry_point = index.entry_point;
  levels = index.levels;
  rng_state = index.rng;
}

unfoldable pub save_snapshot : {V R : Type 0} → Shard (Hnsw V R) → ℕ → Result (Snapshot V R)
unfolding encode_all cumsum layer_arrays meta_of
save_snapshot shard last_seq = do
  encoded ← encode_all shard.payloads
  ok (record {
    vectors = shard.index.rows;
    global_ids = shard.global_ids;
    payloads = some (cumsum 0 (map length encoded), concat encoded);
    layers = map layer_arrays shard.index.graph;
    meta = meta_of shard.index last_seq;
  })

-- `xs[start:stop]`
unfoldable pub slice : {A : Type 0} → List A → ℕ → ℕ → List A
slice xs start stop = take (stop - start) (drop start xs)

-- `{node: neighbors[offsets[i]:offsets[i + 1]] for i, node in enumerate(nodes)}`, onto a dict.
unfoldable pub fill_layer : List ℕ → List ℕ → List ℕ → Layer → Result Layer
unfolding slice put_links
fill_layer neighbors [] offsets layer = ok layer
fill_layer neighbors (node ∷ nodes) (start ∷ stop ∷ offsets) layer =
    fill_layer neighbors nodes (stop ∷ offsets) (put_links node (slice neighbors start stop) layer)
fill_layer neighbors (node ∷ nodes) _ layer = err Error.index_error

unfoldable pub load_layers : List LayerArrays → Result (List Layer)
unfolding fill_layer
load_layers [] = ok []
load_layers (arrays ∷ others) = do
  layer ← fill_layer arrays.neighbors arrays.nodes arrays.offsets []
  rest ← load_layers others
  ok (layer ∷ rest)

-- `[blob[offsets[i]:offsets[i + 1]].decode("utf-8") for i in range(len(offsets) - 1)]`
unfoldable pub decode_slices : List ℕ → List ℕ → Result (List Text)
unfolding slice decode
decode_slices blob (start ∷ stop ∷ offsets) = do
  text ← decode (slice blob start stop)
  rest ← decode_slices blob (stop ∷ offsets)
  ok (text ∷ rest)
decode_slices blob _ = ok []

unfoldable pub load_payloads : List ℕ → Option (List ℕ × List ℕ) → Result (List Text)
unfolding decode_slices
load_payloads global_ids none = ok (replicate (length global_ids) [])
load_payloads global_ids (some (offsets, blob)) = decode_slices blob offsets

-- `meta.get("neighbor_selection", "closest")`
abbrev pub selection_of : Option Selection → Selection
selection_of none = closest
selection_of (some selection) = selection

-- `meta["ef_search"] if ef_search is None else ef_search`
abbrev pub ef_of : ℕ → Option ℕ → ℕ
ef_of stored none = stored
ef_of stored (some ef_search) = ef_search

-- The index before its vectors and its graph.
unfoldable pub empty_index : {V R : Type 0} → Meta R → Option ℕ → Hnsw V R
empty_index meta ef_search = record {
  max_links = meta.max_links;
  ef_construction = meta.ef_construction;
  ef_search = ef_of meta.ef_search ef_search;
  neighbor_selection = selection_of meta.neighbor_selection;
  rng = meta.rng_state;
  rows = [];
  capacity = 0;
  graph = [];
  entry_point = none;
  levels = 0;
}

unfoldable pub load_snapshot :
    {V D R : Type 0} → Space V D → Snapshot V R → Option ℕ → Result (Shard (Hnsw V R) × ℕ)
unfolding load_layers load_payloads empty_index set_vectors new_index
load_snapshot space arrays ef_search = do
  guard
      (arrays.meta.format == 1 || arrays.meta.format == 2 || arrays.meta.format == snapshot_format)
      Error.value_error
  graph ← load_layers arrays.layers
  payloads ← load_payloads arrays.global_ids arrays.payloads
  ok (
    record {
      index =
          record (set_vectors space (empty_index arrays.meta ef_search) arrays.vectors
            (leb 2 arrays.meta.format)) {
              graph = graph;
              entry_point = arrays.meta.entry_point;
              levels = arrays.meta.levels;
            };
      global_ids = arrays.global_ids;
      payloads = payloads;
      payload_index = new_index;
    },
    arrays.meta.last_seq,
  )
