-- ===== src/Storage/Snapshot/Tests.antt =====
-- A shard of two vectors that is saved and loaded.
use distributed_vector_searc.Prelude.{ℕ, ◌-◌, ◌≡◌, refl, true, [], ◌∷◌, some, none, ok}
use distributed_vector_searc.Python.Text.{codes}
use distributed_vector_searc.Hnsw.{Hnsw, Space, heuristic}
use distributed_vector_searc.Cluster.Shard.{Shard}
use distributed_vector_searc.Filtering.Index.{new_index}
use distributed_vector_searc.Storage.Snapshot.{Snapshot, save_snapshot, load_snapshot}
use distributed_vector_searc.Storage.Snapshot.Restored.{restored, load_snapshot-save_snapshot}

abbrev pub line : Space ℕ ℕ
line = record {
  normalize = λ v. v;
  distance = λ a b. a - b;
  fits = λ rows v. true;
  argpartition = λ dists k. [];
}

abbrev two : Shard (Hnsw ℕ ℕ)
two = record {
  index = record {
    max_links = 4;
    ef_construction = 10;
    ef_search = 8;
    neighbor_selection = heuristic;
    rng = 99;
    rows = 5 ∷ 9 ∷ [];
    capacity = 1024;
    graph = ((0, 1 ∷ []) ∷ (1, 0 ∷ []) ∷ []) ∷ ((1, []) ∷ []) ∷ [];
    entry_point = some 1;
    levels = 2;
  };
  global_ids = 3 ∷ 7 ∷ [];
  payloads = [] ∷ codes "é{}" ∷ [];
  payload_index = new_index;
}

abbrev saved : Snapshot ℕ ℕ
saved = record {
  vectors = 5 ∷ 9 ∷ [];
  global_ids = 3 ∷ 7 ∷ [];
  payloads = some (0 ∷ 0 ∷ 4 ∷ [], 0xC3 ∷ 0xA9 ∷ 123 ∷ 125 ∷ []);
  layers =
      record { nodes = 0 ∷ 1 ∷ []; offsets = 0 ∷ 1 ∷ 2 ∷ []; neighbors = 1 ∷ 0 ∷ [] }
      ∷ record { nodes = 1 ∷ []; offsets = 0 ∷ 0 ∷ []; neighbors = [] }
      ∷ [];
  meta = record {
    format = 3;
    last_seq = 12;
    max_links = 4;
    ef_construction = 10;
    ef_search = 8;
    neighbor_selection = some heuristic;
    entry_point = some 1;
    levels = 2;
    rng_state = 99;
  };
}

save_snapshot_run : save_snapshot two 12 ≡ ok saved
unfolding save_snapshot
save_snapshot_run = refl

load_snapshot-save_snapshot_example : load_snapshot line saved none ≡ ok (restored two, 12)
load_snapshot-save_snapshot_example =
    load_snapshot-save_snapshot line two 12 saved (((refl, tt), (tt, tt)), ((tt, tt), tt))
      save_snapshot_run
