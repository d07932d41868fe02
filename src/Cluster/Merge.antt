-- ===== src/Cluster/Merge.antt =====
-- `merge_top_k_scored` and `merge_top_k` of vsearch/cluster.py. A result is a tuple that starts with
-- its distance and its global id; what follows them is the argument `A`.
use distributed_vector_searc.Prelude.{ℕ, ◌≡◌, List, map, concat, Ord}
use distributed_vector_searc.Python.Sorting.{nsmallest}
use distributed_vector_searc.Python.Sorting.TopK.{nsmallest-concat}

module _ {ℓ} {A : Type ℓ} ⦃o : Ord A⦄ where
  unfoldable pub merge_top_k_scored : List (List A) → ℕ → List A
  unfolding nsmallest
  merge_top_k_scored per_shard k = nsmallest k (concat per_shard)

unfoldable pub merge_top_k {ℓ κ} :
    {D : Type ℓ} {I : Type κ} ⦃o : Ord (D × I)⦄ → List (List (D × I)) → ℕ → List I
unfolding merge_top_k_scored
merge_top_k per_shard k = map (λ (dist, global_id). global_id) (merge_top_k_scored per_shard k)

module _ {ℓ} {A : Type ℓ} ⦃o : Ord A⦄ where
  -- For any totally ordered results: if every shard returns the k smallest of its own results,
  -- merging these gives the k smallest of all the results of all the shards, in the same order and
  -- with the same ties, for every number of shards and every k.
  pub merge_top_k_scored-local :
      (local_results : List (List A)) (k : ℕ)
      → merge_top_k_scored (map (nsmallest k) local_results) k ≡ nsmallest k (concat local_results)
  unfolding merge_top_k_scored
  merge_top_k_scored-local local_results k = nsmallest-concat k local_results
