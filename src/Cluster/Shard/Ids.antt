-- ===== src/Cluster/Shard/Ids.antt =====
-- The next global id of a shard.
use distributed_vector_searc.Prelude.{ℕ, ◌≤◌, ◌<◌, List, [], ◌∷◌, All, All-imp, arith}
use distributed_vector_searc.Cluster.Shard.{Shard, next_free, next_global_id}

next_free-All : (ids : List ℕ) → All (λ i. i < next_free ids) ids
unfolding next_free
next_free-All [] = tt
next_free-All (i ∷ ids) = (
  omega arith,
  All-imp (λ j. j < next_free ids) (λ j. j < next_free (i ∷ ids)) ids (λ j h. omega (arith, h))
      (next_free-All ids),
)

next_free_least : (ids : List ℕ) (bound : ℕ) → All (λ i. i < bound) ids → next_free ids ≤ bound
unfolding next_free
next_free_least [] bound h = omega arith
next_free_least (i ∷ ids) bound h = omega (arith, next_free_least ids bound h.1, h.0)

-- The next global id of a shard is larger than every global id that it holds, and it is the least
-- such number.
pub next_global_id_least :
    {I : Type 0} (s : Shard I)
    → All (λ i. i < next_global_id s) s.global_ids
      × ((bound : ℕ) → All (λ i. i < bound) s.global_ids → next_global_id s ≤ bound)
next_global_id_least s =
    (next_free-All s.global_ids, λ bound h. next_free_least s.global_ids bound h)
