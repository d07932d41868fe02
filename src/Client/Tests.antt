-- ===== src/Client/Tests.antt =====
-- Runs of a coordinator with one shard of three replicas, of which the first does not answer.
use distributed_vector_searc.Prelude.{
  none, ◌⊎◌, ℕ, zero, suc, ◌≡◌, refl, true, false, List, [], ◌∷◌, Result, Error, ok, err, set,
  nat_ord, pair_ord, arith, subst,
}
use distributed_vector_searc.Python.Text.{Text}
use distributed_vector_searc.Python.Sorting.{sorted}
use distributed_vector_searc.Cluster.Merge.{merge_top_k_scored}
use distributed_vector_searc.Cluster.Routing.{Batch}
use distributed_vector_searc.Client.{
  Replica, Coordinator, at, Hit, Status, SearchRequest, Calls, is_retryable,
}
use distributed_vector_searc.Client.Search.{gather}
use distributed_vector_searc.Client.Replicas.{replica_order, up_first, rotated}
use distributed_vector_searc.Client.Search.Order.{Ordered, replica_order-Ordered}
use distributed_vector_searc.Client.Search.Answers.{addresses, answers, unanswered}
use distributed_vector_searc.Client.Search.Failover.{gather-answers}
use distributed_vector_searc.Client.Write.{settle, add}
use distributed_vector_searc.Client.Write.Outcome.{Unsent, Ended, add-Ended}
use distributed_vector_searc.Python.Json.{Json}
use distributed_vector_searc.Client.Repair.{ReplicaSync, repair_shard}
use distributed_vector_searc.Client.Repair.Synced.{IsNewest, AllCopied, behind, repair_shard-Synced}

abbrev replica : ℕ → ℕ → Replica
replica i down_until = record { address = i ∷ []; peer = i ∷ []; down_until = down_until }

abbrev group : List Replica
group = replica 0 0 ∷ replica 1 9 ∷ replica 2 0 ∷ []

abbrev one_shard : Coordinator
one_shard = record {
  replicas = group ∷ [];
  retry_after = 5;
  size = 4;
  shard_sizes = 4 ∷ [];
  failovers = 0;
  next_replica = 1 ∷ [];
  last_seqs = at 2 ∷ [];
}

-- The state is the clock. The replica with address 0 is down.
abbrev reply : Text → Result (List (Hit ℕ))
reply [] = err Error.rpc_unavailable
reply (zero ∷ a) = err Error.rpc_unavailable
reply (suc n ∷ a) = ok (record { global_id = n; distance = 3; payload = [] } ∷ [])

abbrev calls : Calls ℕ ℕ ℕ
calls = record {
  monotonic = λ w. (suc w, w);
  status = λ w a. (w, ok (record { size = 4; durable = true; next_global_id = 4; last_seq = 2 }));
  search = λ w a request. (w, reply a);
  add = λ w a request. (w, ok 5);
  sync_from = λ w a peer. (w, ok (record { method = []; records_applied = 1; last_seq = 2 }));
}

retryable : (a : Text) (e : Error) → reply a ≡ err e → is_retryable e ≡ true
unfolding is_retryable
retryable [] e h =
    let same : Error.rpc_unavailable ≡ e = cc in subst (λ e. is_retryable e ≡ true) same refl
retryable (zero ∷ a) e h =
    let same : Error.rpc_unavailable ≡ e = cc in subst (λ e. is_retryable e ≡ true) same refl
retryable (suc n ∷ a) e h = cc

abbrev scored_item : Hit ℕ → ℕ × ℕ
scored_item hit = (hit.distance, hit.global_id)

abbrev request : SearchRequest ℕ
request = record { query = 7; k = 2; with_payloads = false; filter = [] }

abbrev orders : List (ℕ × List ℕ)
orders = (0, 0 ∷ 2 ∷ 1 ∷ []) ∷ []

replica_order-Ordered_example : Ordered one_shard 0 5 1 group (up_first group 5 (rotated 3 1))
replica_order-Ordered_example = replica_order-Ordered one_shard 0 5 1 group refl refl (omega arith)

replica_order_run : (replica_order one_shard 0 5).1 ≡ ok (2 ∷ 0 ∷ 1 ∷ [])
unfolding replica_order
replica_order_run = refl

gather-answers_example :
    (gather calls scored_item request one_shard 6 orders).2
    ≡ ok (
      merge_top_k_scored (answers (addresses one_shard.replicas) reply scored_item orders) 2,
      sorted (unanswered (addresses one_shard.replicas) reply orders),
    )
gather-answers_example =
    gather-answers calls scored_item request (addresses one_shard.replicas) reply (λ w a. refl)
      retryable one_shard 6 orders refl (omega arith, tt)

gather_run : (gather calls scored_item request one_shard 6 orders).2 ≡ ok ((3, 1) ∷ [], [])
unfolding gather
gather_run = refl

-- The same servers, none of which takes a write.
abbrev refusing : Calls ℕ ℕ ℕ
refusing = record calls { add = λ w a request. (suc w, err Error.rpc_failed) }

abbrev no_text : Json → Text
no_text value = []

refused_write : (add refusing no_text 4 one_shard 6 (7 ∷ []) none none).2 ≡ err Error.rpc_failed
unfolding add
refused_write = refl

add-Ended_example :
    Unsent refusing one_shard 6 (add refusing no_text 4 one_shard 6 (7 ∷ []) none none)
    ⊎ Ended refusing no_text 4
        (7 ∷ [])
        none
        none
        one_shard
        6
        (add refusing no_text 4 one_shard 6 (7 ∷ []) none none)
add-Ended_example = add-Ended refusing no_text 4 one_shard 6 7 [] none none

accepted : (settle ((0, ok 5) ∷ (0, ok 5) ∷ []) one_shard).1 ≡ ok tt
unfolding settle
accepted = refl

abbrev batches : List (Batch ℕ)
batches =
    record { global_ids = 4 ∷ 5 ∷ 6 ∷ []; vectors = 1 ∷ 1 ∷ 1 ∷ []; payloads = [] ∷ [] ∷ [] ∷ [] }
    ∷ []

abbrev status : ℕ → Status
status last_seq = record { size = 4; durable = true; next_global_id = 4; last_seq = last_seq }

abbrev copied : List ReplicaSync
copied =
    record {
      shard = 0;
      replica = 0 ∷ [];
      source = 2 ∷ [];
      method = [];
      records_applied = 1;
      last_seq = 2;
    }
    ∷ []

repaired :
    (repair_shard calls 0 one_shard 6 ((replica 0 0, status 1) ∷ (replica 2 0, status 2) ∷ [])).2
    ≡ ok copied
unfolding repair_shard
repaired = refl

repair_shard-Synced_example :
    (source : Replica) × (newest : Status) × IsNewest
      (source, newest)
      ((replica 0 0, status 1) ∷ (replica 2 0, status 2) ∷ [])
    × AllCopied calls 0 source 6
        (behind newest.last_seq ((replica 0 0, status 1) ∷ (replica 2 0, status 2) ∷ []))
        copied
        (repair_shard calls 0 one_shard 6
          ((replica 0 0, status 1) ∷ (replica 2 0, status 2) ∷ [])).1
    × ((repair_shard calls 0 one_shard 6 ((replica 0 0, status 1) ∷ (replica 2 0, status 2) ∷ [])).0
        ≡ record one_shard { shard_sizes = set one_shard.shard_sizes 0 newest.size })
repair_shard-Synced_example =
    repair_shard-Synced calls 0 one_shard 6 (replica 0 0, status 1) ((replica 2 0, status 2) ∷ [])
      copied repaired
