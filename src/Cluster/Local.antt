-- ===== src/Cluster/Local.antt =====
-- `Coordinator` of vsearch/cluster.py in its sequential mode, and the worker process of a shard.
use distributed_vector_searc.Prelude.{
  ℕ, ◌+◌, Bool, true, false, List, [], ◌∷◌, Option, none, some, Result, Error, ok, err, ◌>>=◌,
  length, replicate, get_elem?, set, Ord, nat_ord, pair_ord, list_ord,
}
use distributed_vector_searc.Python.Text.{Text}
use distributed_vector_searc.Python.Json.{Json, Fields}
use distributed_vector_searc.Filtering.Key.{Filter}
use distributed_vector_searc.Cluster.Namespace.{
  tag_namespace, encode_payloads, decode_payload, shard_for_namespace, plan_query,
}
use distributed_vector_searc.Cluster.Routing.{Batch, route_round_robin, route_to_shard}
use distributed_vector_searc.Cluster.Merge.{merge_top_k, merge_top_k_scored}
use distributed_vector_searc.Cluster.Shard.{
  IndexOps, Shard, new_shard, add_batch, search, search_with_payloads,
}

pub record LocalCoordinator (I : Type 0) : Type 0 where
  pub shards : List (Shard I)
  pub size : ℕ

-- What a worker process is sent, and what it answers.
pub data Message (V : Type 0) : Type 0 where
  add_message : List ℕ → List V → List Text → Message V
  search_message : V → ℕ → Bool → Option Filter → Message V
  stop_message : Message V

pub data Reply (D : Type 0) : Type 0 where
  added : ℕ → Reply D
  scored : List (D × ℕ) → Reply D
  scored_payloads : List (D × (ℕ × Text)) → Reply D

-- The result as Hit(id, distance, payload).
unfoldable pub hits_of :
    {D : Type 0}
    → (Text → Result Json)
    → List (D × (ℕ × Text))
    → Result (List (ℕ × (D × Option Json)))
unfolding decode_payload
hits_of loads [] = ok []
hits_of loads ((dist, (global_id, text)) ∷ merged) = do
  payload ← decode_payload loads text
  rest ← hits_of loads merged
  ok ((global_id, (dist, payload)) ∷ rest)

module _ {I V D : Type 0} (o : IndexOps I V D) (loads : Text → Result Json) where
  unfoldable pub new_local : ℕ → LocalCoordinator I
  unfolding new_shard
  new_local num_shards = record { shards = replicate num_shards (new_shard o loads); size = 0 }

  -- One message of `_serve_shard`; none after the last one. A shard that raises ends the process.
  unfoldable pub serve_message : Message V → Shard I → Shard I × Result (Option (Reply D))
  unfolding add_batch search search_with_payloads
  serve_message (add_message ids vectors payloads) s =
      let (s', result) = add_batch o loads s ids vectors (some payloads) in
      (s', result >>= λ done. ok (some (added (length s'.global_ids))))
  serve_message (search_message query k false filter) s =
      let (s', results) = search o loads s query k filter in
      (s', results >>= λ rs. ok (some (scored rs)))
  serve_message (search_message query k true filter) s =
      let (s', results) = search_with_payloads o loads s query k filter in
      (s', results >>= λ rs. ok (some (scored_payloads rs)))
  serve_message stop_message s = (s, ok none)

  -- The messages that a worker takes from its pipe, and its replies.
  unfoldable pub serve_messages : List (Message V) → Shard I → Shard I × List (Reply D)
  unfolding serve_message
  serve_messages [] s = (s, [])
  serve_messages (message ∷ messages) s =
      let (s', answer) = serve_message message s in
      elim answer [
        | err e ↦ (s', [])
        | ok reply ↦ elim reply [
          | none ↦ (s', [])
          | some r ↦ let (s'', replies) = serve_messages messages s' in (s'', r ∷ replies)
        ]
      ]

  -- `for shard, (ids, vecs, texts) in zip(self.shards, batches)`
  unfoldable pub add_batches : List (Shard I) → List (Batch V) → List (Shard I) × Result (Unit {0})
  unfolding add_batch
  add_batches [] batches = ([], ok tt)
  add_batches (s ∷ shards) [] = (s ∷ shards, ok tt)
  add_batches (s ∷ shards) (batch ∷ batches) =
      let (s', result) = add_batch o loads s batch.global_ids batch.vectors (some batch.payloads) in
      let (shards', rest) = add_batches shards batches in
      elim result [ err e ↦ (s' ∷ shards, err e) | ok _ ↦ (s' ∷ shards', rest) ]

  -- The batches of a write.
  unfoldable pub local_batches :
      (Json → Text)
      → LocalCoordinator I
      → List V
      → Option (List (Option Fields))
      → Option Text
      → Result (List (Batch V))
  unfolding tag_namespace encode_payloads route_round_robin route_to_shard shard_for_namespace
  local_batches dumps c vectors payloads namespace = do
    tagged ← tag_namespace payloads (length vectors) namespace
    encoded ← encode_payloads dumps tagged (length vectors)
    elim namespace [
      | none ↦ route_round_robin vectors (length c.shards) c.size (some encoded)
      | some name ↦ do
        shard ← shard_for_namespace name (length c.shards)
        route_to_shard vectors (length c.shards) shard c.size (some encoded)
    ]

  unfoldable pub local_add :
      (Json → Text)
      → LocalCoordinator I
      → List V
      → Option (List (Option Fields))
      → Option Text
      → LocalCoordinator I × Result (Unit {0})
  unfolding local_batches add_batches
  local_add dumps c vectors payloads namespace =
      elim (local_batches dumps c vectors payloads namespace) [
        | err e ↦ (c, err e)
        | ok batches ↦
            let (shards', result) = add_batches c.shards batches in
            (record { shards = shards'; size = c.size + length vectors }, result)
      ]

  -- The searches of the shards to ask, by the search of one shard.
  unfoldable pub scatter_to :
      {A : Type 0}
      → (Shard I → Shard I × Result (List A))
      → List (Shard I)
      → List ℕ
      → List (Shard I) × Result (List (List A))
  scatter_to ask shards [] = (shards, ok [])
  scatter_to ask shards (target ∷ targets) = elim (get_elem? shards target) [
    | none ↦ (shards, err Error.index_error)
    | some s ↦
        let (s', results) = ask s in
        let shards' = set shards target s' in
        elim results [
          | err e ↦ (shards', err e)
          | ok rs ↦
              let (shards'', rest) = scatter_to ask shards' targets in
              (shards'', rest >>= λ others. ok (rs ∷ others))
        ]
  ]

  -- `_scatter`
  unfoldable pub scatter :
      {A : Type 0}
      → (Shard I → Option Filter → Shard I × Result (List A))
      → LocalCoordinator I
      → Option Fields
      → Option Text
      → LocalCoordinator I × Result (List (List A))
  unfolding plan_query scatter_to
  scatter ask c filter namespace = elim (plan_query filter namespace (length c.shards)) [
    | err e ↦ (c, err e)
    | ok (conditions, targets) ↦
        let (shards', results) = scatter_to (λ s. ask s conditions) c.shards targets in
        (record c { shards = shards' }, results)
  ]

  unfoldable pub local_search :
      ⦃order : Ord D⦄
      → LocalCoordinator I
      → V
      → ℕ
      → Option Fields
      → Option Text
      → LocalCoordinator I × Result (List ℕ)
  unfolding scatter search merge_top_k
  local_search c query k filter namespace =
      let (c', results) =
        scatter (λ s conditions. search o loads s query k conditions) c filter namespace in
      (c', results >>= λ per_shard. ok (merge_top_k per_shard k))

  unfoldable pub local_search_hits :
      ⦃order : Ord D⦄
      → LocalCoordinator I
      → V
      → ℕ
      → Option Fields
      → Option Text
      → LocalCoordinator I × Result (List (ℕ × (D × Option Json)))
  unfolding scatter search_with_payloads merge_top_k_scored hits_of
  local_search_hits c query k filter namespace =
      let (c', results) =
        scatter (λ s conditions. search_with_payloads o loads s query k conditions) c filter
          namespace in
      (c', results >>= λ per_shard. hits_of loads (merge_top_k_scored per_shard k))
