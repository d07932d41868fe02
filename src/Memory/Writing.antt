-- ===== src/Memory/Writing.antt =====
-- `remember` and `forget` of vsearch/memory.py.
use distributed_vector_searc.Prelude.{
  Bool, true, false, List, [], ◌∷◌, ◌++◌, Option, none, some, Result, Error, ok, err, Ord, list_ord,
  nat_ord,
}
use distributed_vector_searc.Python.Text.{Text, codes}
use distributed_vector_searc.Python.Sorting.{sorted}
use distributed_vector_searc.Actions.{Act, ◌>>=◌, ◌>>◌, give, raise, lift}
use distributed_vector_searc.State.{State}
use distributed_vector_searc.State.Machines.{Machines, writable}
use distributed_vector_searc.Documents.{distinct_texts}
use distributed_vector_searc.Memory.{
  fact, forgotten, facts, is_among, MemoryHit, id_of, first_of_each, without,
}
use distributed_vector_searc.Memory.Operations.{
  Store, checked_state, search_records, write_record, MemoryStore, replaced, memory_dataset,
  in_world, live_ids, connect_store, embedder_by_name,
}

module _ {W V D S : Type 0} ⦃o : Ord S⦄ (machines : Machines W) (store : Store W V D S) where
  -- The id of a hit that is the same fact and not replaced.
  unfoldable pub find_same : State → List (MemoryHit D) → Act (MemoryStore W V) (Option Text)
  unfolding replaced
  find_same state [] = give none
  find_same state (hit ∷ hits) = elim (store.is_same hit.distance) [
    | false ↦ find_same state hits
    | true ↦ do
      gone ← replaced machines store state (id_of hit.payload ∷ [])
      elim gone [ [] ↦ give (some (id_of hit.payload)) | id ∷ ids ↦ find_same state hits ]
  ]

  -- `if not replaces: for hit in self._search(...)`
  unfoldable pub stored_already : State → V → List Text → Act (MemoryStore W V) (Option Text)
  unfolding search_records find_same
  stored_already state vector [] = do
    hits ← search_records machines store vector 1 facts
    find_same state hits
  stored_already state vector (id ∷ ids) = give none

  unfoldable pub first_vector : List V → Result V
  first_vector [] = err Error.index_error
  first_vector (v ∷ vectors) = ok v

  -- The fact is written down, under a new id.
  unfoldable pub write_fact : V → Text → List Text → List Text → Act (MemoryStore W V) (Text × Bool)
  unfolding write_record distinct_texts sorted
  write_fact vector text tags replaces = do
    hex ← in_world (λ w. let (w', digits) = store.new_hex w in (w', ok digits))
    now ← in_world (λ w. let (w', time) = store.clock w in (w', ok time))
    let memory_id = codes "m" ++ hex
    write_record machines store vector
        (fact memory_id text (sorted (distinct_texts tags)) now replaces)
    give (memory_id, true)

  -- `remember`, once the text is not empty.
  unfoldable pub remember_text :
      Option Text → Text → List Text → List Text → Act (MemoryStore W V) (Text × Bool)
  unfolding checked_state writable memory_dataset connect_store first_of_each live_ids
      embedder_by_name first_vector stored_already write_fact
  remember_text default text tags named = do
    before ← checked_state machines store
    replies ← in_world (writable machines before)
    (state, embedder_name, dim) ←
        memory_dataset machines store default before before.dataset replies
    connect_store machines store state
    let replaces = first_of_each [] named
    live ← live_ids machines store state replaces
    elim (without replaces live) [
      | id ∷ missing ↦ raise (
          Error.user_error (
            codes "no current memory has the id(s) "
            ++ store.show_texts (sorted (id ∷ missing))
            ++ codes "; recall shows the ids"))
      | [] ↦ do
        embedder ← embedder_by_name machines store embedder_name
        vector ← lift (first_vector (embedder.embed_documents (text ∷ [])))
        same ← stored_already state vector replaces
        elim same [ some id ↦ give (id, false) | none ↦ write_fact vector text tags replaces ]
    ]

  unfoldable pub remember :
      Option Text → Text → List Text → List Text → Act (MemoryStore W V) (Text × Bool)
  unfolding remember_text
  remember default text tags replaces = elim (store.strip text) [
    | [] ↦ raise (Error.user_error (codes "there is nothing to remember: the text is empty"))
    | c ∷ stripped ↦ remember_text default (c ∷ stripped) tags replaces
  ]

  unfoldable pub forget : Option Text → Text → Act (MemoryStore W V) (Unit {0})
  unfolding checked_state writable memory_dataset live_ids connect_store write_record
  forget default memory_id = do
    before ← checked_state machines store
    replies ← in_world (writable machines before)
    (state, embedder_name, dim) ←
        memory_dataset machines store default before before.dataset replies
    live ← live_ids machines store state (memory_id ∷ [])
    elim (is_among memory_id live) [
      | false ↦
          raise (Error.user_error (codes "no current memory has the id " ++ store.repr memory_id))
      | true ↦ do
        connect_store machines store state
        hex ← in_world (λ w. let (w', digits) = store.new_hex w in (w', ok digits))
        now ← in_world (λ w. let (w', time) = store.clock w in (w', ok time))
        write_record machines store (store.ones dim)
            (forgotten (codes "f" ++ hex) now (memory_id ∷ []))
    ]
