-- ===== src/Memory/Operations.antt =====
-- `MemoryStore` of vsearch/memory.py.
use distributed_vector_searc.Prelude.{
  ℕ, Bool, true, false, not, ◌&&◌, List, [], ◌∷◌, ◌++◌, map, Option, none, some, Error, ok, err,
  if◌then◌else◌, any, keep, Ord, concat, ◌==◌, list_ord, nat_ord,
}
use distributed_vector_searc.Python.Text.{Text, text_eq, codes}
use distributed_vector_searc.Actions.{Act, ◌>>=◌, ◌>>◌, give, raise, update, attempt, lift}
use distributed_vector_searc.State.{State, ServerStatus, Dataset, memory, shard_addresses}
use distributed_vector_searc.State.Machines.{Machines, read_state, write_state}
use distributed_vector_searc.Documents.{Embedder}
use distributed_vector_searc.Ops.Changing.{is_rpc}
use distributed_vector_searc.Memory.{
  Payload, Where, facts, tagged, of_ids, replacing, is_among, MemoryHit, id_of, replaces_of,
  max_lookup, check_kind,
}
use distributed_vector_searc.Documents.Ingest.{wanted_embedder}

-- The calls of the coordinator, for the records of the owner: `search_hits`, `refresh` and `add`; the
-- embedders; the time; ten hexadecimal digits of a new uuid. `ones` is the vector of ones, `is_same` the
-- test `1.0 - distance >= DUPLICATE_SIMILARITY`, `similarity` is `1.0 - distance`, and `score` adds the bonus for a
-- time now and one of creation. `message` is `str` of an exception, `show_texts` that of a list, and `repr` that of a text.
pub record Store (W V D S : Type 0) : Type 0 where
  pub search_hits : V → ℕ → Where → Act W (List (MemoryHit D))
  pub refresh : W → W
  pub add : V → Payload → Act W (Unit {0})
  pub embedders : Text → Act W (Embedder V)
  pub clock : W → W × ℕ
  pub new_hex : W → W × Text
  pub ones : ℕ → V
  pub is_same : D → Bool
  pub similarity : D → S
  pub score : D → ℕ → ℕ → S
  pub strip : Text → Text
  pub message : Error → Text
  pub show_texts : List Text → Text
  pub repr : Text → Text

-- The variables of the store, with the world: the addresses that its coordinator was made for, if it has
-- one, and the embedders that it keeps.
pub record MemoryStore (W V : Type 0) : Type 0 where
  pub world : W
  pub addresses : Option (List (List Text))
  pub embedder_cache : List (Text × Embedder V)

abbrev pub in_world : {W V A : Type 0} → Act W A → Act (MemoryStore W V) A
in_world act s = let (w, result) = act s.world in (record s { world = w }, result)

-- `name in cache`, with what is there.
unfoldable pub cached : {V : Type 0} → Text → List (Text × Embedder V) → Option (Embedder V)
cached name [] = none
cached name ((n, embedder) ∷ cache) =
    let rest = cached name cache in if text_eq n name then some embedder else rest

unfoldable pub texts_eq : List Text → List Text → Bool
texts_eq [] [] = true
texts_eq [] (y ∷ ys) = false
texts_eq (x ∷ xs) [] = false
texts_eq (x ∷ xs) (y ∷ ys) = text_eq x y && texts_eq xs ys

-- Whether the coordinator that there is was made for these addresses.
unfoldable pub is_for : Option (List (List Text)) → List (List Text) → Bool
unfolding texts_eq
is_for none addresses = false
is_for (some []) [] = true
is_for (some []) (y ∷ ys) = false
is_for (some (x ∷ xs)) [] = false
is_for (some (x ∷ xs)) (y ∷ ys) = texts_eq x y && is_for (some xs) ys

-- `if tags: where["tags"] = list(tags)`
unfoldable pub where_of : Option (List Text) → Where
where_of none = facts
where_of (some []) = facts
where_of (some (tag ∷ tags)) = tagged (tag ∷ tags)

module _ {W V D S : Type 0} ⦃o : Ord S⦄ (machines : Machines W) (store : Store W V D S) where
  unfoldable pub close_store : Act (MemoryStore W V) (Unit {0})
  close_store = update (λ s. record s { addresses = none })

  -- `_connect`
  unfoldable pub connect_store : State → Act (MemoryStore W V) (Unit {0})
  unfolding is_for shard_addresses
  connect_store state s =
      if is_for s.addresses (shard_addresses state)
      then (s, ok tt)
      else (record s { addresses = some (shard_addresses state) }, ok tt)

  -- `_embedder_by_name`
  unfoldable pub embedder_by_name : Text → Act (MemoryStore W V) (Embedder V)
  unfolding cached
  embedder_by_name name s = elim (cached name s.embedder_cache) [
    | some embedder ↦ (s, ok embedder)
    | none ↦
        let (w, made) = store.embedders name s.world in
        elim made [
          | err e ↦ (record s { world = w }, err e)
          | ok embedder ↦ (
            record s { world = w; embedder_cache = s.embedder_cache ++ (name, embedder) ∷ [] },
            ok embedder,
          )
        ]
  ]

  -- The `except` clause of `_search`.
  unfoldable pub search_refused : Error → Act (MemoryStore W V) (List (MemoryHit D))
  search_refused (Error.shard_unavailable shards) = raise (
      Error.user_error
        (store.message (Error.shard_unavailable shards) ++ codes "; see: vsearch status"))
  search_refused e = raise e

  -- `_search`
  unfoldable pub search_records : V → ℕ → Where → Act (MemoryStore W V) (List (MemoryHit D))
  unfolding search_refused
  search_records vector k wanted =
      attempt (in_world (store.search_hits vector k wanted)) search_refused

  unfoldable pub not_stored : Error → Text
  not_stored e =
      codes "the memory was not stored: "
      ++ store.message e
      ++ codes ". Check `vsearch status`, then `vsearch repair`"

  -- The `except` clause of `_write`.
  unfoldable pub write_failed : Error → Act (MemoryStore W V) (Unit {0})
  unfolding is_rpc not_stored
  write_failed (Error.replicas_out_of_sync shard) =
      raise (Error.user_error (not_stored (Error.replicas_out_of_sync shard)))
  write_failed e = raise (if is_rpc e then Error.user_error (not_stored e) else e)

  -- `_write`
  unfoldable pub write_record : V → Payload → Act (MemoryStore W V) (Unit {0})
  unfolding write_failed
  write_record vector payload = do
    update (λ s. record s { world = store.refresh s.world })
    attempt (in_world (store.add vector payload)) write_failed

  -- `_lookup`: none of a cluster that holds nothing.
  unfoldable pub lookup_records :
      Option Dataset → State → Where → Act (MemoryStore W V) (List (MemoryHit D))
  unfolding connect_store search_records check_kind
  lookup_records none state wanted = give []
  lookup_records (some dataset) state wanted = do
    (embedder, dim) ← lift (check_kind dataset)
    connect_store state
    search_records (store.ones dim) max_lookup wanted

  -- `_replaced`
  unfoldable pub replaced : State → List Text → Act (MemoryStore W V) (List Text)
  unfolding lookup_records
  replaced state [] = give []
  replaced state (id ∷ ids) = do
    records ← lookup_records state.dataset state (replacing (id ∷ ids))
    give (keep (λ t. is_among t (id ∷ ids)) (concat (map (λ hit. replaces_of hit.payload) records)))

  -- `_live_ids`
  unfoldable pub live_ids : State → List Text → Act (MemoryStore W V) (List Text)
  unfolding lookup_records replaced
  live_ids state [] = give []
  live_ids state (id ∷ ids) = do
    found ← lookup_records state.dataset state (of_ids (id ∷ ids))
    let names = map (λ hit. id_of hit.payload) found
    gone ← replaced state names
    give (keep (λ name. not (is_among name gone)) names)

  -- `_state`
  unfoldable pub checked_state : Act (MemoryStore W V) State
  unfolding read_state check_kind
  checked_state = do
    state ← in_world (read_state machines)
    elim state.dataset [
      | none ↦ give state
      | some dataset ↦ do settings ← lift (check_kind dataset); give state
    ]

  -- `_dataset`: the state with its record of memories, and what that says.
  unfoldable pub memory_dataset :
      Option Text
      → State
      → Option Dataset
      → List ServerStatus
      → Act (MemoryStore W V) (State × Text × ℕ)
  unfolding check_kind embedder_by_name write_state wanted_embedder
  memory_dataset default state (some dataset) replies = do
    (embedder, dim) ← lift (check_kind dataset)
    give (state, embedder, dim)
  memory_dataset default state none replies =
      if any (λ reply. not (reply.size == 0)) replies
      then raise (
          Error.user_error
            (codes "this cluster already holds vectors; keep memories in a cluster of their own"))
      else do
        embedder ← embedder_by_name (wanted_embedder default)
        let state' : State = record state { dataset = some (memory embedder.name embedder.dim) }
        in_world (write_state machines state')
        give (state', embedder.name, embedder.dim)
