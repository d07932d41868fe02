-- ===== src/Storage/HnswShard.antt =====
-- The shard that `DurableShard` of vsearch/storage.py keeps: `Shard(**hnsw_params)` with its HNSW index, its
-- `add_batch`, and its snapshots as the bytes of a file.
pub mod Same
pub mod Storable
pub mod Tests
use distributed_vector_searc.Prelude.{
  ℕ, List, [], ◌∷◌, map, Option, none, some, Result, ok, err, ◌>>=◌, Ord, ◌≡◌,
}
use distributed_vector_searc.Python.Text.{Text}
use distributed_vector_searc.Python.Json.{Json}
use distributed_vector_searc.Hnsw.{Hnsw, Space, Heapq, Selection, new_index}
use distributed_vector_searc.Hnsw.Search.Allowed.{hnsw_ops}
use distributed_vector_searc.Cluster.Shard.{Shard, new_shard, add_batch}
use distributed_vector_searc.Storage.Snapshot.{Snapshot, save_snapshot, load_snapshot}
use distributed_vector_searc.Storage.Durable.{ShardOps}

-- `hnsw_params`, with the state of the random generator that the seed gives.
pub record HnswParams (R : Type 0) : Type 0 where
  pub max_links : ℕ
  pub ef_construction : ℕ
  pub ef_search : ℕ
  pub neighbor_selection : Selection
  pub rng : R

-- The format of a snapshot file: `np.savez` and `np.load`, with the settings as JSON. What was written is read
-- back.
pub record SnapshotFile (V R : Type 0) : Type 0 where
  pub savez : Snapshot V R → List ℕ
  pub read : List ℕ → Result (Snapshot V R)
  pub read_savez : (arrays : Snapshot V R) → read (savez arrays) ≡ ok arrays

-- What the shard uses of the code that is not its own: the functions on vectors, the layout of heaps, the draw of
-- levels, `json.loads`, a row of a float32 array as a vector, and the files.
pub record Machinery (V D R : Type 0) : Type 0 where
  pub space : Space V D
  pub heap : Heapq D
  pub draw : R → ℕ × R
  pub loads : Text → Result Json
  pub vector : List ℕ → V
  pub file : SnapshotFile V R

module _ {V D R : Type 0} ⦃o : Ord D⦄ (m : Machinery V D R) (params : HnswParams R) where
  -- `HNSW(**hnsw_params)`
  unfoldable pub fresh_index : Hnsw V R
  unfolding new_index
  fresh_index =
      new_index params.max_links params.ef_construction params.ef_search params.neighbor_selection
        params.rng

  -- The bytes of a file that `save_snapshot` writes. It raises if a payload cannot be encoded; then there is none.
  unfoldable pub snapshot_file : Shard (Hnsw V R) → ℕ → List ℕ
  snapshot_file s last_seq = elim (save_snapshot s last_seq) [
    | ok arrays ↦ m.file.savez arrays
    | err e ↦ []
  ]

  unfoldable pub read_snapshot : List ℕ → Result (Shard (Hnsw V R) × ℕ)
  read_snapshot bytes = do
    arrays ← m.file.read bytes
    load_snapshot m.space arrays (some params.ef_search)

  abbrev pub hnsw_shard : ShardOps (Shard (Hnsw V R))
  hnsw_shard = record {
    new = new_shard (hnsw_ops m.space m.heap m.draw fresh_index) m.loads;
    add_batch = λ s global_ids vectors payloads.
        add_batch (hnsw_ops m.space m.heap m.draw fresh_index) m.loads s global_ids
          (map m.vector vectors.rows) payloads;
    save_snapshot = snapshot_file;
    load_snapshot = read_snapshot;
  }
