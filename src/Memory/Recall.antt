-- ===== src/Memory/Recall.antt =====
-- `recall` of vsearch/memory.py.
use distributed_vector_searc.Prelude.{
  ℕ, ◌*◌, true, false, List, [], ◌∷◌, map, Option, none, some, Result, Error, ok, err, Ord, take,
  list_ord, nat_ord,
}
use distributed_vector_searc.Python.Text.{Text}
use distributed_vector_searc.Actions.{Act, ◌>>=◌, ◌>>◌, give, lift}
use distributed_vector_searc.State.{State, Dataset}
use distributed_vector_searc.State.Machines.{Machines}
use distributed_vector_searc.Memory.{
  fact, forgotten, is_among, MemoryHit, Memory, id_of, candidates, check_kind, sorted_by_score,
}
use distributed_vector_searc.Memory.Operations.{
  Store, embedder_by_name, checked_state, MemoryStore, connect_store, search_records, where_of,
  replaced, in_world,
}

module _ {W V D S : Type 0} ⦃o : Ord S⦄ (machines : Machines W) (store : Store W V D S) where
  unfoldable pub memory_of : ℕ → MemoryHit D → Result (Memory S)
  memory_of now hit = elim hit.payload [
    | forgotten memory_id created replaces ↦ err Error.key_error
    | fact memory_id text tags created replaces ↦ ok (record {
      id = memory_id;
      text = text;
      tags = tags;
      created = created;
      similarity = store.similarity hit.distance;
      score = store.score hit.distance now created;
    })
  ]

  -- The loop of `recall` over the hits. A record that is no fact has no text.
  unfoldable pub memories_of : List Text → ℕ → List (MemoryHit D) → Result (List (Memory S))
  unfolding memory_of
  memories_of gone now [] = ok []
  memories_of gone now (hit ∷ hits) = elim (is_among (id_of hit.payload) gone) [
    | true ↦ memories_of gone now hits
    | false ↦ elim (memory_of now hit) [
      | err e ↦ err e
      | ok m ↦ elim (memories_of gone now hits) [ err e ↦ err e | ok rest ↦ ok (m ∷ rest) ]
    ]
  ]

  unfoldable pub recall_from :
      State → Dataset → Text → ℕ → Option (List Text) → Act (MemoryStore W V) (List (Memory S))
  unfolding check_kind embedder_by_name connect_store search_records where_of replaced memories_of
      sorted_by_score
  recall_from state dataset query k tags = do
    (embedder_name, dim) ← lift (check_kind dataset)
    embedder ← embedder_by_name machines store embedder_name
    connect_store machines store state
    hits ←
        search_records machines store (embedder.embed_query query) (k * candidates) (where_of tags)
    gone ← replaced machines store state (map (λ hit. id_of hit.payload) hits)
    now ← in_world (λ w. let (w', time) = store.clock w in (w', ok time))
    memories ← lift (memories_of gone now hits)
    give (take k (sorted_by_score memories))

  unfoldable pub recall : Text → ℕ → Option (List Text) → Act (MemoryStore W V) (List (Memory S))
  unfolding checked_state recall_from
  recall query k tags = do
    state ← checked_state machines store
    elim state.dataset [ none ↦ give [] | some dataset ↦ recall_from state dataset query k tags ]
