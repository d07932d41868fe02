-- ===== src/Health.antt =====
-- `ServerHealth` and `find_problems` of vsearch/health.py. A problem is what its sentence says.
pub mod Describe
pub mod Members
pub mod Problems
pub mod Tests
use distributed_vector_searc.Prelude.{
  ℕ, zero, suc, Bool, true, false, ◌||◌, List, [], ◌∷◌, ◌++◌, map, ◌==◌, ltb, if◌then◌else◌, length,
  concat, keep, nat_ord,
}
use distributed_vector_searc.Python.Text.{Text}
use distributed_vector_searc.Python.Sorting.{sorted}

pub record ServerHealth : Type 0 where
  pub shard : ℕ
  pub replica : ℕ
  pub address : Text
  pub up : Bool
  pub process : Bool
  pub size : ℕ
  pub last_seq : ℕ
  pub snapshot_seq : ℕ

pub data Problem : Type 0 where
  does_not_answer : (shard replica : ℕ) → Problem
  is_down : (shard replica : ℕ) → Problem
  no_live_replica : (shard : ℕ) → Problem
  out_of_sync : (shard : ℕ) → (seqs : List (ℕ × ℕ)) → Problem

-- `x in xs`, and the elements of the set of `xs`.
unfoldable pub is_in : ℕ → List ℕ → Bool
is_in x [] = false
is_in x (y ∷ ys) = x == y || is_in x ys

unfoldable pub distinct : List ℕ → List ℕ
unfolding is_in
distinct [] = []
distinct (x ∷ xs) = let rest = distinct xs in if is_in x rest then rest else x ∷ rest

-- `sorted({server.shard for server in health})`
unfoldable pub shards_of : List ServerHealth → List ℕ
unfolding sorted distinct
shards_of health = sorted (distinct (map (λ s. s.shard) health))

unfoldable pub down_problems : ℕ → List ServerHealth → List Problem
down_problems shard [] = []
down_problems shard (s ∷ group) =
    let rest = down_problems shard group in
    if s.up
    then rest
    else if s.process
    then does_not_answer shard s.replica ∷ rest
    else is_down shard s.replica ∷ rest

-- What follows the loop over the servers of a shard, for those that are alive.
unfoldable pub sync_problems : ℕ → List ServerHealth → List Problem
unfolding distinct
sync_problems shard [] = no_live_replica shard ∷ []
sync_problems shard (s ∷ alive) =
    if ltb 1 (length (distinct (map (λ t. t.last_seq) (s ∷ alive))))
    then out_of_sync shard (map (λ t. (t.replica, t.last_seq)) (s ∷ alive)) ∷ []
    else []

abbrev pub group_of : List ServerHealth → ℕ → List ServerHealth
group_of health shard = keep (λ s. s.shard == shard) health

abbrev pub alive_of : List ServerHealth → List ServerHealth
alive_of group = keep (λ s. s.up) group

unfoldable pub shard_problems : List ServerHealth → ℕ → List Problem
unfolding down_problems sync_problems
shard_problems health shard =
    let group = group_of health shard in
    down_problems shard group ++ sync_problems shard (alive_of group)

unfoldable pub find_problems : List ServerHealth → List Problem
unfolding shards_of shard_problems
find_problems health = concat (map (shard_problems health) (shards_of health))
