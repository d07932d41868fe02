-- ===== src/Documents/Passages.antt =====
-- `find_passages` of vsearch/documents.py. The coordinator and the embedders are a parameter.
use distributed_vector_searc.Prelude.{ℕ, List, ◌++◌, Option, none, some, Error, if◌then◌else◌}
use distributed_vector_searc.Python.Text.{Text, codes}
use distributed_vector_searc.Actions.{Act, ◌>>=◌, give, raise, attempt, lift}
use distributed_vector_searc.Filtering.Key.{Filter}
use distributed_vector_searc.State.{State, glove, documents, memory}
use distributed_vector_searc.Documents.{holds, shard_of_namespace}
use distributed_vector_searc.Documents.Ingest.{Library, is_value_error}

pub record PassageSearch (H : Type 0) : Type 0 where
  pub hits : List H
  pub shard : Option ℕ
  pub failovers : ℕ

module _ {W V H : Type 0} (library : Library W V H) where
  -- The `except` clauses of `find_passages`.
  unfoldable pub search_failed : Error → Act W (List H × ℕ)
  unfolding is_value_error
  search_failed (Error.shard_unavailable shards) = raise (
      Error.user_error
        (library.message (Error.shard_unavailable shards) ++ codes "; see: vsearch status"))
  search_failed e = raise (if is_value_error e then Error.user_error (library.message e) else e)

  unfoldable pub search_in :
      Text → State → Text → ℕ → Option Filter → Option Text → Act W (PassageSearch H)
  unfolding search_failed shard_of_namespace
  search_in built state question k where_filter namespace = do
    embedder ← library.embedders built
    (hits, failovers) ←
        attempt (library.search_hits (embedder.embed_query question) k where_filter namespace)
          search_failed
    shard ← lift (shard_of_namespace namespace state)
    give (record { hits = hits; shard = shard; failovers = failovers })

  unfoldable pub find_passages :
      State → Text → ℕ → Option Filter → Option Text → Act W (PassageSearch H)
  unfolding search_in holds
  find_passages state question k where_filter namespace = elim state.dataset [
    | none ↦ raise (Error.user_error (codes "nothing is ingested yet; run: vsearch ingest PATH"))
    | some (documents built dim passages sources) ↦
        search_in built state question k where_filter namespace
    | some (glove limit dir) ↦ raise (Error.user_error (holds (glove limit dir)))
    | some (memory embedder dim) ↦ raise (Error.user_error (holds (memory embedder dim)))
  ]
