-- ===== src/Client/Repair.antt =====
-- `repair` of `GrpcCoordinator`: every replica that is behind copies from the most advanced one.
pub mod Synced
use distributed_vector_searc.Prelude.{
  ℕ, zero, suc, Bool, true, false, List, [], ◌∷◌, ◌++◌, Result, Error, ok, err, ◌>>=◌,
  if◌then◌else◌, set, ltb,
}
use distributed_vector_searc.Python.Text.{Text}
use distributed_vector_searc.Client.{
  Replica, Coordinator, Status, SyncResult, Calls, is_retryable, refresh,
}

pub record ReplicaSync : Type 0 where
  pub shard : ℕ
  pub replica : Text
  pub source : Text
  pub method : Text
  pub records_applied : ℕ
  pub last_seq : ℕ

-- `max(statuses, key=lambda item: item[1].last_seq)`: the first of the largest.
unfoldable pub most_advanced : Replica × Status → List (Replica × Status) → Replica × Status
most_advanced best [] = best
most_advanced best (other ∷ others) =
    most_advanced (if ltb best.1.last_seq other.1.last_seq then other else best) others

module _ {W V D : Type 0} (calls : Calls W V D) where
  -- The replicas of a group that answer, with their statuses.
  unfoldable pub reachable : W → List Replica → W × Result (List (Replica × Status))
  unfolding is_retryable
  reachable w [] = (w, ok [])
  reachable w (replica ∷ group) =
      let (w', answer) = calls.status w replica.address in
      elim answer [
        | ok status ↦
            let (w'', rest) = reachable w' group in
            (w'', rest >>= λ statuses. ok ((replica, status) ∷ statuses))
        | err e ↦ elim (is_retryable e) [ true ↦ reachable w' group | false ↦ (w', err e) ]
      ]

  unfoldable pub sync_behind :
      ℕ → Replica → ℕ → W → List (Replica × Status) → W × Result (List ReplicaSync)
  sync_behind shard source newest w [] = (w, ok [])
  sync_behind shard source newest w ((replica, status) ∷ statuses) =
      elim (ltb status.last_seq newest) [
        | false ↦ sync_behind shard source newest w statuses
        | true ↦
            let (w', answer) = calls.sync_from w replica.address source.peer in
            elim answer [
              | err e ↦ (w', err e)
              | ok r ↦
                  let (w'', rest) = sync_behind shard source newest w' statuses in
                  let synced : ReplicaSync = record {
                    shard = shard;
                    replica = replica.address;
                    source = source.address;
                    method = r.method;
                    records_applied = r.records_applied;
                    last_seq = r.last_seq;
                  } in
                  (w'', rest >>= λ others. ok (synced ∷ others))
            ]
      ]

  -- One shard, whose replicas have answered as in `statuses`.
  unfoldable pub repair_shard :
      ℕ → Coordinator → W → List (Replica × Status) → Coordinator × W × Result (List ReplicaSync)
  unfolding most_advanced sync_behind
  repair_shard shard c w [] = (c, w, ok [])
  repair_shard shard c w (first ∷ others) =
      let (source, newest) = most_advanced first others in
      let (w', result) = sync_behind shard source newest.last_seq w (first ∷ others) in
      elim result [
        | err e ↦ (c, w', err e)
        | ok synced ↦
            (record c { shard_sizes = set c.shard_sizes shard newest.size }, w', ok synced)
      ]

  -- The shards from `shard` on.
  unfoldable pub repair_from :
      ℕ → List (List Replica) → Coordinator → W → Coordinator × W × Result (List ReplicaSync)
  unfolding reachable repair_shard
  repair_from shard [] c w = (c, w, ok [])
  repair_from shard (group ∷ groups) c w =
      let (w', answers) = reachable w group in
      elim answers [
        | err e ↦ (c, w', err e)
        | ok statuses ↦
            let (c', w'', result) = repair_shard shard c w' statuses in
            elim result [
              | err e ↦ (c', w'', err e)
              | ok synced ↦
                  let (c'', w''', rest) = repair_from (suc shard) groups c' w'' in
                  (c'', w''', rest >>= λ others. ok (synced ++ others))
            ]
      ]

  unfoldable pub repair : Coordinator → W → Coordinator × W × Result (List ReplicaSync)
  unfolding repair_from refresh
  repair c w =
      let (c', w', result) = repair_from 0 c.replicas c w in
      elim result [ err e ↦ (c', w', err e) | ok synced ↦ (refresh c', w', ok synced) ]
