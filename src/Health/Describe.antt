-- ===== src/Health/Describe.antt =====
-- The sentences of problems, and `describe_health` of vsearch/health.py.
use distributed_vector_searc.Prelude.{ℕ, List, [], ◌∷◌, ◌++◌, map, if◌then◌else◌, nat_ord}
use distributed_vector_searc.Health.{
  Problem, does_not_answer, is_down, no_live_replica, out_of_sync, ServerHealth, shards_of,
  group_of,
}
use distributed_vector_searc.Python.Text.{show_nat, Text, codes, join_with, grouped}

-- "shard S replica R"
unfoldable pub name_of : ℕ → ℕ → Text
unfolding show_nat
name_of shard replica = codes "shard " ++ show_nat shard ++ codes " replica " ++ show_nat replica

-- The sentence of a problem.
unfoldable pub sentence : Problem → Text
unfolding name_of show_nat join_with
sentence (does_not_answer shard replica) =
    name_of shard replica ++ codes " does not answer, although its process is running"
sentence (is_down shard replica) = name_of shard replica ++ codes " is down"
sentence (no_live_replica shard) =
    codes "shard " ++ show_nat shard ++ codes " has no live replica: searches that need it fail"
sentence (out_of_sync shard seqs) =
    codes "replicas of shard "
    ++ show_nat shard
    ++ codes " are out of sync ("
    ++ join_with (codes ", ")
        (map (λ s. codes "replica " ++ show_nat s.0 ++ codes " at seq " ++ show_nat s.1) seqs)
    ++ codes ")"

-- The lines of `describe_health`.
unfoldable pub server_part : ServerHealth → Text
unfolding show_nat grouped
server_part s =
    if s.up
    then codes "replica "
      ++ show_nat s.replica
      ++ codes " up ("
      ++ grouped s.size
      ++ codes " vectors, seq "
      ++ show_nat s.last_seq
      ++ codes ")"
    else codes "replica " ++ show_nat s.replica ++ codes " DOWN (" ++ s.address ++ codes ")"

abbrev pub new_line : Text
new_line = 10 ∷ []

unfoldable pub describe_health : List ServerHealth → Text
unfolding shards_of server_part show_nat join_with
describe_health health = join_with new_line (
    map
      (λ shard.
        codes "shard "
        ++ show_nat shard
        ++ codes ": "
        ++ join_with (codes ", ") (map server_part (group_of health shard)))
      (shards_of health))
