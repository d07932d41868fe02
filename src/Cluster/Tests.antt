-- ===== src/Cluster/Tests.antt =====
-- Runs of the routing, merging and namespace functions on small inputs.
use distributed_vector_searc.Prelude.{
  ℕ, ◌+◌, ◌<◌, ◌≤◌, ◌≡◌, refl, ◌&&◌, List, [], ◌∷◌, none, some, arith, Result, Error, ok, err,
  if◌then◌else◌, map, concat, get_elem?, keep, nat_ord, pair_ord,
}
use distributed_vector_searc.Python.Text.{Text, text_eq, codes}
use distributed_vector_searc.Python.Json.{Json, str, obj, Fields, end, field}
use distributed_vector_searc.Python.Sorting.{nsmallest}
use distributed_vector_searc.Filtering.Key.{Filter, normalize_fields}
use distributed_vector_searc.Filtering.Matching.{satisfies}
use distributed_vector_searc.Cluster.Merge.{merge_top_k_scored, merge_top_k_scored-local}
use distributed_vector_searc.Cluster.Routing.{Batch, route_round_robin}
use distributed_vector_searc.Cluster.Routing.Batches.{rows, due, batch_of, route_round_robin_lem}
use distributed_vector_searc.Cluster.Routing.Balance.{route_round_robin-balanced}
use distributed_vector_searc.Cluster.Namespace.{namespace_field, tag_namespace, plan_query}
use distributed_vector_searc.Cluster.Namespace.Tagged.{IsTextOf}
use distributed_vector_searc.Cluster.Namespace.Isolation.{namespace_isolation}

abbrev two_shards : List (List (ℕ × ℕ))
two_shards = ((3, 1) ∷ (1, 4) ∷ (2, 7) ∷ []) ∷ ((1, 2) ∷ (5, 5) ∷ []) ∷ []

merge_top_k_scored_run : merge_top_k_scored (map (nsmallest 2) two_shards) 2 ≡ (1, 2) ∷ (1, 4) ∷ []
unfolding merge_top_k_scored
merge_top_k_scored_run = refl

merge_top_k_scored-local_example :
    merge_top_k_scored (map (nsmallest 2) two_shards) 2 ≡ nsmallest 2 (concat two_shards)
merge_top_k_scored-local_example = merge_top_k_scored-local two_shards 2

abbrev three_vectors : List ℕ
three_vectors = 10 ∷ 11 ∷ 12 ∷ []

abbrev three_texts : List Text
three_texts = codes "a" ∷ [] ∷ codes "c" ∷ []

abbrev batch_0 : Batch ℕ
batch_0 = record { global_ids = 4 ∷ []; vectors = 11 ∷ []; payloads = [] ∷ [] }

abbrev batch_1 : Batch ℕ
batch_1 = record {
  global_ids = 3 ∷ 5 ∷ [];
  vectors = 10 ∷ 12 ∷ [];
  payloads = codes "a" ∷ codes "c" ∷ [];
}

route_round_robin_run :
    route_round_robin three_vectors 2 3 (some three_texts) ≡ ok (batch_0 ∷ batch_1 ∷ [])
unfolding route_round_robin
route_round_robin_run = refl

route_round_robin_lem_example :
    (batches : List (Batch ℕ)) × (route_round_robin three_vectors 2 3 (some three_texts)
      ≡ ok batches)
    × ((s : ℕ)
        → s < 2
        → get_elem? batches s ≡ some (batch_of (keep (due 2 s) (rows 3 three_vectors three_texts))))
route_round_robin_lem_example =
    route_round_robin_lem 2 3 three_vectors three_texts (omega arith) refl

route_round_robin-balanced_example : 2 ≤ 1 + 1
route_round_robin-balanced_example =
    route_round_robin-balanced 2 3 three_vectors three_texts (batch_0 ∷ batch_1 ∷ []) 1 0 batch_1
      batch_0 (omega arith) (omega arith) refl route_round_robin_run refl refl

abbrev red : Fields
red = field (codes "color") (str (codes "red")) end

abbrev tagged_red : Fields
tagged_red =
    field (codes "color") (str (codes "red")) (field namespace_field (str (codes "docs")) end)

-- Two texts that are read here: the payload, and the payload with the namespace in it.
abbrev read_red : Text → Result Json
read_red text =
    if text_eq text (codes "R")
    then ok (obj red)
    else if text_eq text (codes "T")
    then ok (obj tagged_red)
    else err Error.decode_error

abbrev red_filter : Filter
red_filter = (codes "color", str (codes "red") ∷ []) ∷ []

abbrev docs_filter : Filter
docs_filter =
    (codes "color", str (codes "red") ∷ []) ∷ (namespace_field, str (codes "docs") ∷ []) ∷ []

tag_namespace_run :
    tag_namespace (some (some red ∷ [])) 1 (some (codes "docs")) ≡ ok (some (some tagged_red ∷ []))
unfolding tag_namespace
tag_namespace_run = refl

tag_namespace-none : tag_namespace (some (some red ∷ [])) 1 none ≡ ok (some (some red ∷ []))
unfolding tag_namespace
tag_namespace-none = refl

plan_query_run : plan_query (some red) (some (codes "docs")) 4 ≡ ok (some docs_filter, 3 ∷ [])
unfolding plan_query
plan_query_run = refl

red_filter_run : normalize_fields red ≡ ok red_filter
unfolding normalize_fields
red_filter_run = refl

red-IsTextOf : IsTextOf read_red (some red) (codes "R")
red-IsTextOf = ((λ h. cc), refl)

tagged_red-IsTextOf : IsTextOf read_red (some tagged_red) (codes "T")
tagged_red-IsTextOf = ((λ h. cc), refl)

namespace_isolation_example :
    satisfies read_red docs_filter (codes "T")
    ≡ (satisfies read_red red_filter (codes "R") && text_eq (codes "docs") (codes "docs"))
namespace_isolation_example =
    namespace_isolation read_red (some red ∷ []) (some tagged_red ∷ []) 1 0 (codes "docs")
      (codes "docs") (some red) (some tagged_red) (codes "R") (codes "T") (some red) 4 docs_filter
      red_filter (3 ∷ []) tag_namespace_run refl refl red-IsTextOf tagged_red-IsTextOf
      plan_query_run red_filter_run
