-- ===== src/Cluster/Routing.antt =====
-- `route_round_robin` and `route_to_shard` of vsearch/cluster.py. The type of a vector is `V`.
pub mod Batches
pub mod Balance
use distributed_vector_searc.Prelude.{
  ℕ, zero, suc, ◌+◌, ◌%◌, List, [], ◌∷◌, ◌++◌, Option, none, some, Result, Error, ok, err, ◌>>=◌,
  ◌==◌, if◌then◌else◌, length, get_elem?, set, range, replicate, ltb, true, false,
}
use distributed_vector_searc.Python.Text.{Text}

-- The triple (global ids, vectors, payloads) of one shard.
pub record Batch (V : Type 0) : Type 0 where
  pub global_ids : List ℕ
  pub vectors : List V
  pub payloads : List Text

-- `payloads[offset] if payloads is not None else ""`
unfoldable pub payload_at : Option (List Text) → ℕ → Result Text
payload_at none offset = ok []
payload_at (some payloads) offset = elim (get_elem? payloads offset) [
  | some text ↦ ok text
  | none ↦ err Error.index_error
]

-- `list(payloads) if payloads is not None else [""] * len(vectors)`
unfoldable pub payloads_or_blank : Option (List Text) → ℕ → List Text
payloads_or_blank none count = replicate count []
payloads_or_blank (some payloads) count = payloads

module _ {V : Type 0} where
  abbrev pub no_batch : Batch V
  no_batch = record { global_ids = []; vectors = []; payloads = [] }

  -- `ids.append(global_id)`, `vecs.append(v)`, `texts.append(text)`
  abbrev pub append_row : ℕ → V → Text → Batch V → Batch V
  append_row global_id v text batch = record {
    global_ids = batch.global_ids ++ global_id ∷ [];
    vectors = batch.vectors ++ v ∷ [];
    payloads = batch.payloads ++ text ∷ [];
  }

  -- The lists of `batches[i]` are shared by the tuple, so appending to them changes that entry.
  unfoldable pub append_at : ℕ → ℕ → V → Text → List (Batch V) → List (Batch V)
  append_at i global_id v text [] = []
  append_at zero global_id v text (batch ∷ batches) = append_row global_id v text batch ∷ batches
  append_at (suc i) global_id v text (batch ∷ batches) =
      batch ∷ append_at i global_id v text batches

  -- The loop, from `offset` on. `global_id % 0` raises.
  unfoldable pub route_loop :
      ℕ → ℕ → ℕ → List V → Option (List Text) → List (Batch V) → Result (List (Batch V))
  unfolding append_at payload_at
  route_loop num_shards start_id offset [] payloads batches = ok batches
  route_loop num_shards start_id offset (v ∷ vectors) payloads batches = elim (num_shards == 0) [
    | true ↦ err Error.zero_division
    | false ↦ do
      text ← payload_at payloads offset
      let global_id = start_id + offset
      route_loop num_shards start_id (suc offset) vectors payloads
          (append_at (global_id % num_shards) global_id v text batches)
  ]

  unfoldable pub route_round_robin : List V → ℕ → ℕ → Option (List Text) → Result (List (Batch V))
  unfolding route_loop
  route_round_robin vectors num_shards start_id payloads =
      route_loop num_shards start_id 0 vectors payloads (replicate num_shards no_batch)

  unfoldable pub route_to_shard : List V → ℕ → ℕ → ℕ → Option (List Text) → Result (List (Batch V))
  unfolding payloads_or_blank
  route_to_shard vectors num_shards shard start_id payloads =
      if ltb shard num_shards
      then ok (
          set (replicate num_shards no_batch) shard (record {
            global_ids = range start_id (length vectors);
            vectors = vectors;
            payloads = payloads_or_blank payloads (length vectors);
          }))
      else err Error.index_error
