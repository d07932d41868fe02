-- ===== src/Client/Search.antt =====
-- `_scatter_gather` of `GrpcCoordinator`, and the searches. A replica of a shard is its position in the
-- shard's group, since the groups' lists share the replicas with the orders.
pub mod Order
pub mod Answers
pub mod Steps
pub mod Failover
use distributed_vector_searc.Client.Replicas.{orders_for, set_down, address_of}
use distributed_vector_searc.Prelude.{
  ℕ, zero, suc, ◌+◌, ◌%◌, ◌<◌, Bool, true, false, not, List, [], ◌∷◌, ◌++◌, map, Option, none, some,
  Result, Error, ok, err, ◌>>=◌, ◌==◌, if◌then◌else◌, length, get_elem?, set, take, drop, keep,
  range, leb, max, Ord, nat_ord, pair_ord, list_ord,
}
use distributed_vector_searc.Python.Text.{Text}
use distributed_vector_searc.Python.Json.{Json, Fields}
use distributed_vector_searc.Python.Sorting.{sorted}
use distributed_vector_searc.Filtering.Key.{Filter}
use distributed_vector_searc.Cluster.Merge.{merge_top_k_scored}
use distributed_vector_searc.Cluster.Namespace.{plan_query, decode_payload}
use distributed_vector_searc.Client.{Replica, Coordinator, Hit, SearchRequest, Calls, is_retryable}

-- An entry of `pending`: the replica asked, those of its shard that are left to try, and the answer.
pub record Pending (D : Type 0) : Type 0 where
  pub shard : ℕ
  pub replica : ℕ
  pub others : List ℕ
  pub answer : Result (List (Hit D))

-- The state of `_scatter_gather`; `A` is the type of a result.
pub record Gather (W D A : Type 0) : Type 0 where
  pub coordinator : Coordinator
  pub world : W
  pub retries : List (Pending D)
  pub per_shard : List (List A)
  pub missing : List ℕ

module _ {W V D : Type 0} (calls : Calls W V D) where
  -- A search sent to one replica.
  unfoldable pub send : SearchRequest V → Coordinator → W → ℕ → ℕ → List ℕ → W × Pending D
  unfolding address_of
  send request c w shard i others =
      let (w', answer) = calls.search w (address_of c.replicas shard i) request in
      (w', record { shard = shard; replica = i; others = others; answer = answer })

  -- The first requests: `order[0]` raises if a shard has no replica.
  unfoldable pub send_first :
      SearchRequest V → Coordinator → W → List (ℕ × List ℕ) → W × Result (List (Pending D))
  unfolding send
  send_first request c w [] = (w, ok [])
  send_first request c w ((shard, []) ∷ orders) = (w, err Error.index_error)
  send_first request c w ((shard, i ∷ others) ∷ orders) =
      let (w', pending) = send request c w shard i others in
      let (w'', rest) = send_first request c w' orders in
      (w'', rest >>= λ pendings. ok (pending ∷ pendings))

  module _ {A : Type 0} (item : Hit D → A) (request : SearchRequest V) where
    -- A replica that answers counts as up again.
    unfoldable pub answered : Pending D → List (Hit D) → Gather W D A → Gather W D A
    unfolding set_down
    answered p hits g =
        let c = g.coordinator in
        record g {
          coordinator = record c { replicas = set_down c.replicas p.shard p.replica 0 };
          per_shard = g.per_shard ++ map item hits ∷ [];
        }

    -- A replica that failed is tried last for a while; the next one is asked, if there is one.
    unfoldable pub failed : Pending D → Gather W D A → Gather W D A
    unfolding set_down send
    failed p g =
        let c = g.coordinator in
        let (w, now) = calls.monotonic g.world in
        let down : Coordinator = record c {
          replicas = set_down c.replicas p.shard p.replica (now + c.retry_after);
        } in
        elim p.others [
          | [] ↦ record g { coordinator = down; world = w; missing = g.missing ++ p.shard ∷ [] }
          | next ∷ others ↦
              let moved : Coordinator = record down { failovers = suc c.failovers } in
              let (w', retry) = send request moved w p.shard next others in
              record g { coordinator = moved; world = w'; retries = g.retries ++ retry ∷ [] }
        ]

    -- One pass over the pending calls. It also returns the state in which it raised.
    unfoldable pub gather_round : List (Pending D) → Gather W D A → Gather W D A × Result (Unit {0})
    unfolding answered failed is_retryable
    gather_round [] g = (g, ok tt)
    gather_round (p ∷ pending) g = elim p.answer [
      | ok hits ↦ gather_round pending (answered p hits g)
      | err e ↦ elim (is_retryable e) [
        | true ↦ gather_round pending (failed p g)
        | false ↦ (g, err e)
      ]
    ]

    -- `while pending`, on fuel.
    unfoldable pub gather_loop :
        ℕ → List (Pending D) → Gather W D A → Gather W D A × Result (Unit {0})
    unfolding gather_round
    gather_loop fuel [] g = (g, ok tt)
    gather_loop zero (p ∷ pending) g = (g, err Error.out_of_fuel)
    gather_loop (suc fuel) (p ∷ pending) g =
        let (g', result) = gather_round (p ∷ pending) (record g { retries = [] }) in
        elim result [ err e ↦ (g', err e) | ok _ ↦ gather_loop fuel g'.retries g' ]

-- Every call leaves fewer replicas of its shard to try, so a round for each of the most that are left.
unfoldable pub most_others : {D : Type 0} → List (Pending D) → ℕ
most_others [] = 0
most_others (p ∷ pending) = max (suc (length p.others)) (most_others pending)

module _ {W V D A : Type 0} ⦃o : Ord A⦄ (calls : Calls W V D) (item : Hit D → A) where
  -- From the orders on: the requests, the rounds, and the merge.
  unfoldable pub gather :
      SearchRequest V
      → Coordinator
      → W
      → List (ℕ × List ℕ)
      → Coordinator × W × Result (List A × List ℕ)
  unfolding send_first gather_loop most_others merge_top_k_scored sorted
  gather request c w orders =
      let (w', first) = send_first calls request c w orders in
      elim first [
        | err e ↦ (c, w', err e)
        | ok pending ↦
            let (g, result) = gather_loop calls item request (most_others pending) pending (record {
              coordinator = c;
              world = w';
              retries = [];
              per_shard = [];
              missing = [];
            }) in
            (
              g.coordinator,
              g.world,
              result >>= λ done. ok (merge_top_k_scored g.per_shard request.k, sorted g.missing),
            )
      ]

  -- `encode_filter` is the argument `encode`.
  unfoldable pub scatter_gather :
      (Option Filter → Text)
      → Coordinator
      → W
      → V
      → ℕ
      → Bool
      → Option Fields
      → Option Text
      → Coordinator × W × Result (List A × List ℕ)
  unfolding plan_query orders_for gather
  scatter_gather encode c w query k with_payloads filter namespace =
      elim (plan_query filter namespace (length c.replicas)) [
        | err e ↦ (c, w, err e)
        | ok (conditions, targets) ↦
            let (w', now) = calls.monotonic w in
            let (c', orders) = orders_for c now targets in
            elim orders [
              | err e ↦ (c', w', err e)
              | ok orders' ↦
                  gather
                    (record {
                      query = query;
                      k = k;
                      with_payloads = with_payloads;
                      filter = encode conditions;
                    })
                    c' w' orders'
            ]
      ]

-- `raise ShardUnavailableError(missing)`
unfoldable pub all_answered : {A : Type 0} → List A × List ℕ → Result (List A)
all_answered (scored, []) = ok scored
all_answered (scored, shard ∷ missing) = err (Error.shard_unavailable (shard ∷ missing))

-- `Hit(id, distance, payload)` with the payload decoded.
unfoldable pub decoded :
    {D : Type 0}
    → (Text → Result Json)
    → List (D × (ℕ × Text))
    → Result (List (ℕ × (D × Option Json)))
unfolding decode_payload
decoded loads [] = ok []
decoded loads ((dist, (global_id, text)) ∷ scored) = do
  payload ← decode_payload loads text
  rest ← decoded loads scored
  ok ((global_id, (dist, payload)) ∷ rest)

module _ {W V D : Type 0} ⦃o : Ord D⦄ (calls : Calls W V D) (encode : Option Filter → Text) where
  abbrev pub scored_item : Hit D → D × ℕ
  scored_item hit = (hit.distance, hit.global_id)

  unfoldable pub search_scored :
      Coordinator
      → W
      → V
      → ℕ
      → Option Fields
      → Option Text
      → Coordinator × W × Result (List (D × ℕ))
  unfolding scatter_gather all_answered
  search_scored c w query k filter namespace =
      let (c', w', result) =
        scatter_gather calls scored_item encode c w query k false filter namespace in
      (c', w', result >>= all_answered)

  unfoldable pub search :
      Coordinator → W → V → ℕ → Option Fields → Option Text → Coordinator × W × Result (List ℕ)
  unfolding search_scored
  search c w query k filter namespace =
      let (c', w', result) = search_scored c w query k filter namespace in
      (c', w', result >>= λ scored. ok (map (λ r. r.1) scored))

  unfoldable pub search_partial :
      Coordinator
      → W
      → V
      → ℕ
      → Option Fields
      → Option Text
      → Coordinator × W × Result (List ℕ × List ℕ)
  unfolding scatter_gather
  search_partial c w query k filter namespace =
      let (c', w', result) =
        scatter_gather calls scored_item encode c w query k false filter namespace in
      (c', w', result >>= λ r. ok (map (λ s. s.1) r.0, r.1))

  unfoldable pub search_hits :
      (Text → Result Json)
      → Coordinator
      → W
      → V
      → ℕ
      → Option Fields
      → Option Text
      → Coordinator × W × Result (List (ℕ × (D × Option Json)))
  unfolding scatter_gather all_answered decoded
  search_hits loads c w query k filter namespace =
      let (c', w', result) =
        scatter_gather calls (λ hit. (hit.distance, (hit.global_id, hit.payload))) encode c w query
          k true filter namespace in
      (c', w', (result >>= all_answered) >>= decoded loads)
