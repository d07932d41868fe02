-- ===== src/Health/Tests.antt =====
-- A report on a shard with two replicas.
use distributed_vector_searc.Prelude.{ℕ, ◌≡◌, ◌↔◌, refl, Bool, true, false, [], ◌∷◌}
use distributed_vector_searc.Python.Text.{codes}
use distributed_vector_searc.Health.{ServerHealth, Problem, find_problems}
use distributed_vector_searc.Health.Problems.{IsHealthy, find_problems-IsHealthy}

abbrev server : ℕ → Bool → ℕ → ServerHealth
server replica up last_seq = record {
  shard = 0;
  replica = replica;
  address = codes "localhost:50051";
  up = up;
  process = false;
  size = 3;
  last_seq = last_seq;
  snapshot_seq = 0;
}

find_problems_run :
    find_problems (server 0 true 4 ∷ server 1 true 5 ∷ server 2 false 0 ∷ [])
    ≡ Problem.is_down 0 2 ∷ Problem.out_of_sync 0 ((0, 4) ∷ (1, 5) ∷ []) ∷ []
unfolding find_problems
find_problems_run = refl

find_problems-IsHealthy_example :
    (find_problems (server 0 true 4 ∷ server 1 true 4 ∷ []) ≡ [])
    ↔ IsHealthy (server 0 true 4 ∷ server 1 true 4 ∷ [])
find_problems-IsHealthy_example = find_problems-IsHealthy (server 0 true 4 ∷ server 1 true 4 ∷ [])
