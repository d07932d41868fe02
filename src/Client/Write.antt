-- ===== src/Client/Write.antt =====
-- `add` of `GrpcCoordinator`: every chunk goes to every replica of its shard. `row_bytes` is
-- `dim * vectors.itemsize`, the bytes of one vector.
pub mod Chunk
pub mod Outcome
pub mod Sent
pub mod Settled
use distributed_vector_searc.Prelude.{
  ℕ, zero, suc, ◌+◌, ◌/◌, Bool, true, false, List, [], ◌∷◌, ◌++◌, map, Option, none, some, Result,
  Error, ok, err, ◌>>=◌, ◌==◌, if◌then◌else◌, length, get_elem?, set, take, drop, any, ltb, max,
}
use distributed_vector_searc.Python.Text.{Text}
use distributed_vector_searc.Python.Json.{Json, Fields}
use distributed_vector_searc.Python.Utf8.{encode}
use distributed_vector_searc.Filtering.Index.Flags.{elem}
use distributed_vector_searc.Cluster.Routing.{Batch, route_round_robin, route_to_shard}
use distributed_vector_searc.Cluster.Namespace.{tag_namespace, encode_payloads, shard_for_namespace}
use distributed_vector_searc.Client.{
  Replica, Position, unknown, unchecked, at, Coordinator, AddRequest, Calls, refresh, check_shards,
}

-- `MAX_ADD_BYTES`
abbrev pub max_add_bytes : ℕ
max_add_bytes = 2097152

-- `max(len(text.encode("utf-8")) for text in encoded)`, for texts of which there is one at least.
unfoldable pub largest_payload : List Text → Result ℕ
unfolding encode
largest_payload [] = ok 0
largest_payload (text ∷ texts) = do
  bytes ← encode text
  largest ← largest_payload texts
  ok (max (length bytes) largest)

-- The vectors of one request.
unfoldable pub chunk_size : ℕ → ℕ → Result ℕ
chunk_size row_bytes largest =
    let entry_bytes = row_bytes + largest in
    if entry_bytes == 0 then err Error.zero_division else ok (max 1 (max_add_bytes / entry_bytes))

-- `0 if self._last_seqs[shard] == _UNCHECKED else self._last_seqs[shard] + 1`
unfoldable pub next_seq : Option Position → Result ℕ
next_seq none = err Error.index_error
next_seq (some unknown) = err Error.type_error
next_seq (some unchecked) = ok 0
next_seq (some (at seq)) = ok (suc seq)

-- `chunk_payloads if any(chunk_payloads) else []`
abbrev pub is_text : Text → Bool
is_text [] = false
is_text (c ∷ text) = true

unfoldable pub payloads_or_empty : List Text → List Text
payloads_or_empty texts = if any is_text texts then texts else []

-- The part of a batch from `start` on that goes into one request.
unfoldable pub chunk_request : {V : Type 0} → Batch V → ℕ → ℕ → ℕ → AddRequest V
unfolding payloads_or_empty
chunk_request batch start per_request seq = record {
  global_ids = take per_request (drop start batch.global_ids);
  vectors = take per_request (drop start batch.vectors);
  seq = seq;
  payloads = payloads_or_empty (take per_request (drop start batch.payloads));
}

-- `reported`: the sizes that a shard's replicas report, each once.
unfoldable pub report : ℕ → ℕ → List (ℕ × List ℕ) → List (ℕ × List ℕ)
report shard size [] = (shard, size ∷ []) ∷ []
report shard size ((other, sizes) ∷ reported) =
    let rest = report shard size reported in
    if other == shard
    then (other, if elem size sizes then sizes else sizes ++ size ∷ []) ∷ reported
    else (other, sizes) ∷ rest

-- The answers of one chunk, every one of them: what was reported, and the first failure.
unfoldable pub collect :
    List (ℕ × Result ℕ) → List (ℕ × List ℕ) → Option Error → List (ℕ × List ℕ) × Option Error
unfolding report
collect [] reported failure = (reported, failure)
collect ((shard, ok size) ∷ answers) reported failure =
    collect answers (report shard size reported) failure
collect ((shard, err e) ∷ answers) reported none = collect answers reported (some e)
collect ((shard, err e) ∷ answers) reported (some first) = collect answers reported (some first)

-- `if self._last_seqs[shard] != _UNCHECKED: self._last_seqs[shard] += 1`
unfoldable pub advanced : Position → Position
advanced unknown = unknown
advanced unchecked = unchecked
advanced (at seq) = at (suc seq)

unfoldable pub advance : List Position → ℕ → List Position
unfolding advanced
advance positions shard = elim (get_elem? positions shard) [
  | none ↦ positions
  | some position ↦ set positions shard (advanced position)
]

-- The sizes of the shards after a chunk that no replica refused.
unfoldable pub accept : List (ℕ × List ℕ) → Coordinator → Coordinator × Result (Unit {0})
unfolding advance
accept [] c = (c, ok tt)
accept ((shard, []) ∷ reported) c = (c, err Error.key_error)
accept ((shard, size ∷ []) ∷ reported) c =
    accept reported (record c {
      shard_sizes = set c.shard_sizes shard size;
      last_seqs = advance c.last_seqs shard;
    })
accept ((shard, size ∷ other ∷ sizes) ∷ reported) c = (c, err Error.runtime_error)

-- What `add` makes of the answers of one chunk.
unfoldable pub settle : List (ℕ × Result ℕ) → Coordinator → Coordinator × Result (Unit {0})
unfolding collect accept refresh
settle answers c =
    let (reported, failure) = collect answers [] none in
    elim failure [ some e ↦ (refresh c, err e) | none ↦ accept reported c ]

module _ {W V D : Type 0} (calls : Calls W V D) where
  -- One request to every replica of a shard.
  unfoldable pub send_all : W → ℕ → AddRequest V → List Replica → W × List (ℕ × Result ℕ)
  send_all w shard request [] = (w, [])
  send_all w shard request (replica ∷ group) =
      let (w', answer) = calls.add w replica.address request in
      let (w'', answers) = send_all w' shard request group in (w'', (shard, answer) ∷ answers)

  -- The requests of the chunk from `start` on, shard after shard.
  unfoldable pub send_chunk :
      ℕ → ℕ → Coordinator → W → ℕ → List (Batch V) → W × Result (List (ℕ × Result ℕ))
  unfolding send_all chunk_request next_seq
  send_chunk start per_request c w shard [] = (w, ok [])
  send_chunk start per_request c w shard (batch ∷ batches) =
      elim (take per_request (drop start batch.global_ids)) [
        | [] ↦ send_chunk start per_request c w (suc shard) batches
        | _ ∷ _ ↦ elim (next_seq (get_elem? c.last_seqs shard)) [
          | err e ↦ (w, err e)
          | ok seq ↦ elim (get_elem? c.replicas shard) [
            | none ↦ (w, err Error.index_error)
            | some group ↦
                let (w', answers) =
                  send_all w shard (chunk_request batch start per_request seq) group in
                let (w'', rest) = send_chunk start per_request c w' (suc shard) batches in
                (w'', rest >>= λ others. ok (answers ++ others))
          ]
        ]
      ]

  unfoldable pub write_chunk :
      ℕ → ℕ → Coordinator → W → List (Batch V) → Coordinator × W × Result (Unit {0})
  unfolding send_chunk settle
  write_chunk start per_request c w batches =
      let (w', sent) = send_chunk start per_request c w 0 batches in
      elim sent [
        | err e ↦ (c, w', err e)
        | ok answers ↦ let (c', result) = settle answers c in (c', w', result)
      ]

  -- `for start in range(0, longest, per_request)`, from `start` on; each round of fuel is a chunk.
  unfoldable pub write_loop :
      ℕ → ℕ → ℕ → ℕ → Coordinator → W → List (Batch V) → Coordinator × W × Result (Unit {0})
  unfolding write_chunk
  write_loop zero longest per_request start c w batches =
      (c, w, if ltb start longest then err Error.out_of_fuel else ok tt)
  write_loop (suc fuel) longest per_request start c w batches = elim (ltb start longest) [
    | false ↦ (c, w, ok tt)
    | true ↦
        let (c', w', result) = write_chunk start per_request c w batches in
        elim result [
          | err e ↦ (c', w', err e)
          | ok _ ↦ write_loop fuel longest per_request (start + per_request) c' w' batches
        ]
  ]

  unfoldable pub longest_batch : List (Batch V) → ℕ
  longest_batch [] = 0
  longest_batch (batch ∷ batches) = max (length batch.global_ids) (longest_batch batches)

  -- The batches of a write, with the size before it as the first id.
  unfoldable pub batches_for :
      Coordinator → List V → List Text → Option Text → Result (List (Batch V))
  unfolding route_round_robin route_to_shard shard_for_namespace
  batches_for c vectors encoded none =
      route_round_robin vectors (length c.replicas) c.size (some encoded)
  batches_for c vectors encoded (some namespace) = do
    shard ← shard_for_namespace namespace (length c.replicas)
    route_to_shard vectors (length c.replicas) shard c.size (some encoded)

  -- What is settled before the first chunk: the chunk size and the batches. The max of no batches raises.
  unfoldable pub prepared :
      ℕ → Coordinator → List V → List Text → Option Text → Result (ℕ × List (Batch V))
  unfolding largest_payload chunk_size batches_for
  prepared row_bytes c vectors encoded namespace = do
    largest ← largest_payload encoded
    per_request ← chunk_size row_bytes largest
    batches ← batches_for c vectors encoded namespace
    ok (per_request, batches)

  -- The chunks of a write that is prepared.
  unfoldable pub write_batches :
      Coordinator → W → ℕ → ℕ → List (Batch V) → Coordinator × W × Result (Unit {0})
  unfolding write_loop longest_batch
  write_batches c w count per_request [] =
      (record c { size = c.size + count }, w, err Error.value_error)
  write_batches c w count per_request (first ∷ others) =
      let batches = first ∷ others in
      let longest = longest_batch batches in
      write_loop longest longest per_request 0 (record c { size = c.size + count }) w batches

  unfoldable pub add :
      (Json → Text)
      → ℕ
      → Coordinator
      → W
      → List V
      → Option (List (Option Fields))
      → Option Text
      → Coordinator × W × Result (Unit {0})
  unfolding tag_namespace encode_payloads prepared write_batches check_shards
  add dumps row_bytes c w [] payloads namespace = (c, w, ok tt)
  add dumps row_bytes c w (v ∷ vectors) payloads namespace =
      let count = suc (length vectors) in
      elim (tag_namespace payloads count namespace >>= λ tagged.
      encode_payloads dumps tagged count) [
        | err e ↦ (c, w, err e)
        | ok encoded ↦
            let (c', w', checked) = check_shards calls c w in
            elim checked [
              | err e ↦ (c', w', err e)
              | ok _ ↦ elim (prepared row_bytes c' (v ∷ vectors) encoded namespace) [
                | err e ↦ (c', w', err e)
                | ok (per_request, batches) ↦ write_batches c' w' count per_request batches
              ]
            ]
      ]
