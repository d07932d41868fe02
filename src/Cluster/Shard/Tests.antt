-- ===== src/Cluster/Shard/Tests.antt =====
-- Runs of a shard over an index that finds the first node that it may return.
use distributed_vector_searc.Prelude.{
  ℕ, ◌≡◌, refl, Bool, true, false, List, [], ◌∷◌, ◌++◌, none, some, Result, Error, ok, err,
  if◌then◌else◌, All, arith, subst,
}
use distributed_vector_searc.Python.Text.{Text, text_eq, codes}
use distributed_vector_searc.Python.Json.{Json, str, obj, end, field}
use distributed_vector_searc.Filtering.Key.{Filter, key_of, items_of, key_eq}
use distributed_vector_searc.Filtering.Index.{new_index, payload_fields}
use distributed_vector_searc.Filtering.Index.Flags.{elem, flag_at}
use distributed_vector_searc.Filtering.Index.Contents.{Readable, new_index-IsIndexed}
use distributed_vector_searc.Cluster.Shard.{
  IndexOps, IndexLaws, Shard, new_shard, add_batch, nearest,
}
use distributed_vector_searc.Cluster.Shard.Filtered.{
  IsShard, Satisfies, add_batch-IsShard, nearest-Satisfies,
}

abbrev first_of : ℕ → List ℕ → Result (List (ℕ × ℕ))
first_of query [] = ok []
first_of query (n ∷ nodes) = ok ((query, n) ∷ [])

abbrev first_index : IndexOps (List ℕ) ℕ ℕ
first_index = record {
  new = [];
  insert = λ index v. (index ++ v ∷ [], ok tt);
  search_with_distances = λ index query k allowed. elim allowed [
    | none ↦ ok []
    | some flags ↦ if flag_at flags 0 then ok ((query, 0) ∷ []) else ok []
  ];
  exact_among = λ index query nodes k. first_of query nodes;
  ef_search = λ index. 50;
}

one_result :
    (P : ℕ × ℕ → Type 0) (r : ℕ × ℕ) (results : List (ℕ × ℕ))
    → P r
    → ok (r ∷ []) ≡ ok results
    → All P results
one_result P r [] p e = tt
one_result P r (s ∷ []) p e = let same : r ≡ s = cc in (subst P same p, tt)
one_result P r (s ∷ t ∷ results) p e = cc

no_result : (P : ℕ × ℕ → Type 0) (results : List (ℕ × ℕ)) → ok [] ≡ ok results → All P results
no_result P [] e = tt
no_result P (s ∷ results) e = cc

elem-first : (n : ℕ) (nodes : List ℕ) → elem n (n ∷ nodes) ≡ true
elem-first n nodes = ground arith

first_among :
    (query : ℕ) (nodes : List ℕ) (results : List (ℕ × ℕ))
    → first_of query nodes ≡ ok results
    → All (λ r. elem r.1 nodes ≡ true) results
first_among query [] results e = no_result (λ r. elem r.1 [] ≡ true) results e
first_among query (n ∷ nodes) results e =
    one_result (λ r. elem r.1 (n ∷ nodes) ≡ true) (query, n) results (elem-first n nodes) e

first_allowed :
    (query : ℕ) (flags : List Bool) (results : List (ℕ × ℕ)) (b : Bool)
    → flag_at flags 0 ≡ b
    → (if b then ok ((query, 0) ∷ []) else ok []) ≡ ok results
    → All (λ r. flag_at flags r.1 ≡ true) results
first_allowed query flags results true f e =
    one_result (λ r. flag_at flags r.1 ≡ true) (query, 0) results f e
first_allowed query flags results false f e = no_result (λ r. flag_at flags r.1 ≡ true) results e

abbrev first_index_laws : IndexLaws first_index
first_index_laws = record {
  only_allowed = λ index query k allowed results e.
      first_allowed query allowed results (flag_at allowed 0) refl e;
  only_among = λ index query nodes k results e. first_among query nodes results e;
}

abbrev red : Json
red = str (codes "red")

abbrev read_red : Text → Result Json
read_red text =
    if text_eq text (codes "R")
    then ok (obj (field (codes "color") red end))
    else err Error.decode_error

abbrev red_filter : Filter
red_filter = (codes "color", red ∷ []) ∷ []

abbrev two_vectors : Shard (List ℕ)
two_vectors = record {
  index = 5 ∷ 6 ∷ [];
  global_ids = 8 ∷ 9 ∷ [];
  payloads = [] ∷ codes "R" ∷ [];
  payload_index = new_index;
}

add_batch_run :
    add_batch first_index read_red
      (new_shard first_index read_red)
      (8 ∷ 9 ∷ [])
      (5 ∷ 6 ∷ [])
      (some ([] ∷ codes "R" ∷ []))
    ≡ (two_vectors, ok tt)
unfolding add_batch new_shard
add_batch_run = refl

empty-IsShard : IsShard first_index first_index_laws read_red (new_shard first_index read_red)
unfolding new_shard
empty-IsShard = record { counted = refl; indexed = new_index-IsIndexed read_red [] }

add_batch-IsShard_example :
    IsShard first_index first_index_laws read_red
      (add_batch first_index read_red
        (new_shard first_index read_red)
        (8 ∷ 9 ∷ [])
        (5 ∷ 6 ∷ [])
        (some ([] ∷ codes "R" ∷ []))).0
add_batch-IsShard_example =
    add_batch-IsShard first_index first_index_laws read_red (new_shard first_index read_red)
      (8 ∷ 9 ∷ []) (5 ∷ 6 ∷ []) (some ([] ∷ codes "R" ∷ [])) empty-IsShard

two_vectors-IsShard : IsShard first_index first_index_laws read_red two_vectors
two_vectors-IsShard = record {
  counted = refl;
  indexed = new_index-IsIndexed read_red ([] ∷ codes "R" ∷ []);
}

payloads-Readable : All (Readable read_red) ([] ∷ codes "R" ∷ [])
unfolding payload_fields
payloads-Readable = (
  record { fields = []; reads = refl },
  (record { fields = (codes "color", red) ∷ []; reads = refl }, tt),
)

nearest_run : (nearest first_index read_red two_vectors 5 3 red_filter).1 ≡ ok ((5, 1) ∷ [])
unfolding nearest new_index key_of items_of key_eq
nearest_run = refl

nearest-Satisfies_example :
    IsShard first_index first_index_laws read_red
      (nearest first_index read_red two_vectors 5 3 red_filter).0
    × All
        (λ (r : ℕ × ℕ). Satisfies first_index first_index_laws read_red two_vectors red_filter r.1)
        ((5, 1) ∷ [])
nearest-Satisfies_example =
    nearest-Satisfies first_index first_index_laws read_red two_vectors 5 3 red_filter ((5, 1) ∷ [])
      two_vectors-IsShard payloads-Readable (omega arith) nearest_run

abbrev three_ids : Shard (List ℕ)
three_ids = record {
  index = [];
  global_ids = 4 ∷ 9 ∷ 2 ∷ [];
  payloads = [];
  payload_index = new_index;
}
