-- ===== src/Cluster/Shard.antt =====
-- `Shard` and `filter_strategy` of vsearch/cluster.py, over an interface for the index.
pub mod Filtered
pub mod Ids
pub mod Tests
use distributed_vector_searc.Prelude.{
  ℕ, zero, suc, ◌+◌, ◌*◌, Bool, true, false, ◌≡◌, List, [], ◌∷◌, ◌++◌, Option, none, some, Result,
  Error, ok, err, ◌>>=◌, ◌>>◌, leb, ◌==◌, if◌then◌else◌, length, replicate, get_elem?, All, max,
}
use distributed_vector_searc.Python.Text.{Text}
use distributed_vector_searc.Python.Json.{Json}
use distributed_vector_searc.Filtering.Key.{Filter}
use distributed_vector_searc.Filtering.Index.{PayloadIndex, new_index, catch_up, matching}
use distributed_vector_searc.Filtering.Index.Flags.{elem, flag_at}

-- What a shard uses of its index: the empty one, `insert`, `search_with_distances` with or without an
-- array of allowed nodes, `exact_among`, and `ef_search`.
pub record IndexOps (I V D : Type 0) : Type 0 where
  pub new : I
  pub insert : I → V → I × Result (Unit {0})
  pub search_with_distances : I → V → ℕ → Option (List Bool) → Result (List (D × ℕ))
  pub exact_among : I → V → List ℕ → ℕ → Result (List (D × ℕ))
  pub ef_search : I → ℕ

-- What it relies on: only allowed nodes are returned, and only nodes among those given.
pub record IndexLaws {I V D : Type 0} (o : IndexOps I V D) : Type 0 where
  pub only_allowed :
      (index : I) (query : V) (k : ℕ) (allowed : List Bool) (results : List (D × ℕ))
      → o.search_with_distances index query k (some allowed) ≡ ok results
      → All (λ r. flag_at allowed r.1 ≡ true) results
  pub only_among :
      (index : I) (query : V) (nodes : List ℕ) (k : ℕ) (results : List (D × ℕ))
      → o.exact_among index query nodes k ≡ ok results
      → All (λ r. elem r.1 nodes ≡ true) results

pub record Shard (I : Type 0) : Type 0 where
  pub index : I
  pub global_ids : List ℕ
  pub payloads : List Text
  pub payload_index : PayloadIndex

abbrev pub exact_advantage : ℕ
exact_advantage = 100

pub data Strategy : Type 0 where
  exact graph : Strategy

unfoldable pub filter_strategy : ℕ → ℕ → ℕ → Strategy
filter_strategy matches size ef =
    if leb (matches * matches) (exact_advantage * ef * size) then exact else graph

-- `np.flatnonzero`, for an array that starts at position `pos`, and `np.count_nonzero`.
unfoldable pub flatnonzero : ℕ → List Bool → List ℕ
flatnonzero pos [] = []
flatnonzero pos (b ∷ flags) =
    let rest = flatnonzero (suc pos) flags in if b then pos ∷ rest else rest

unfoldable pub count_nonzero : List Bool → ℕ
count_nonzero [] = 0
count_nonzero (b ∷ flags) = let rest = count_nonzero flags in if b then suc rest else rest

-- `payloads or [""] * len(global_ids)`
unfoldable pub texts_for : Option (List Text) → List ℕ → List Text
texts_for none global_ids = replicate (length global_ids) []
texts_for (some []) global_ids = replicate (length global_ids) []
texts_for (some (text ∷ texts)) global_ids = text ∷ texts

-- The two lines after `self.index.insert(vector)`, if that does not raise.
unfoldable pub after_insert :
    {I : Type 0} → ℕ → Text → Shard I → I × Result (Unit {0}) → Shard I × Result (Unit {0})
after_insert global_id payload s (index', err e) = (record s { index = index' }, err e)
after_insert global_id payload s (index', ok _) = (
  record s {
    index = index';
    global_ids = s.global_ids ++ global_id ∷ [];
    payloads = s.payloads ++ payload ∷ [];
  },
  ok tt,
)

module _ {I V D : Type 0} (o : IndexOps I V D) (loads : Text → Result Json) where
  unfoldable pub new_shard : Shard I
  unfolding new_index
  new_shard = record { index = o.new; global_ids = []; payloads = []; payload_index = new_index }

  unfoldable pub add : ℕ → V → Text → Shard I → Shard I × Result (Unit {0})
  unfolding after_insert
  add global_id vector payload s = after_insert global_id payload s (o.insert s.index vector)

  -- `zip` stops at the shortest of the three lists.
  unfoldable pub add_loop : List ℕ → List V → List Text → Shard I → Shard I × Result (Unit {0})
  unfolding add
  add_loop (id ∷ ids) (v ∷ vectors) (text ∷ texts) s =
      let (s', result) = add id v text s in
      elim result [ err e ↦ (s', err e) | ok _ ↦ add_loop ids vectors texts s' ]
  add_loop _ _ _ s = (s, ok tt)

  unfoldable pub add_batch :
      Shard I → List ℕ → List V → Option (List Text) → Shard I × Result (Unit {0})
  unfolding add_loop texts_for
  add_batch s global_ids vectors payloads =
      add_loop global_ids vectors (texts_for payloads global_ids) s

  -- The search once the allowed nodes are known.
  unfoldable pub search_allowed : Shard I → V → ℕ → List Bool → Result (List (D × ℕ))
  unfolding filter_strategy flatnonzero count_nonzero
  search_allowed s query k allowed =
      let matches = count_nonzero allowed in
      if matches == 0
      then ok []
      else elim (filter_strategy matches (length s.global_ids) (max (o.ef_search s.index) k)) [
        | exact ↦ o.exact_among s.index query (flatnonzero 0 allowed) k
        | graph ↦ o.search_with_distances s.index query k (some allowed)
      ]

  abbrev pub or_no_condition : Option Filter → Filter
  or_no_condition none = []
  or_no_condition (some filter) = filter

  -- `_nearest`. An empty filter is no filter.
  unfoldable pub nearest : Shard I → V → ℕ → Filter → Shard I × Result (List (D × ℕ))
  unfolding search_allowed catch_up matching
  nearest s query k [] = (s, o.search_with_distances s.index query k none)
  nearest s query k (condition ∷ filter) =
      let (payload_index', caught_up) = catch_up loads s.payloads s.payload_index in
      let s' = record s { payload_index = payload_index' } in
      (
        s',
        do
          caught_up
          allowed ← matching payload_index' (condition ∷ filter) (length s.global_ids)
          search_allowed s' query k allowed,
      )

  -- The global id for each result; an index past the end raises.
  unfoldable pub global_results : List ℕ → List (D × ℕ) → Result (List (D × ℕ))
  global_results global_ids [] = ok []
  global_results global_ids ((dist, local_id) ∷ results) = elim (get_elem? global_ids local_id) [
    | none ↦ err Error.index_error
    | some global_id ↦ do rest ← global_results global_ids results; ok ((dist, global_id) ∷ rest)
  ]

  unfoldable pub search : Shard I → V → ℕ → Option Filter → Shard I × Result (List (D × ℕ))
  unfolding nearest global_results
  search s query k filter =
      let (s', results) = nearest s query k (or_no_condition filter) in
      (s', do local ← results; global_results s'.global_ids local)

  -- The global id and the payload for each result.
  unfoldable pub payload_results :
      List ℕ → List Text → List (D × ℕ) → Result (List (D × (ℕ × Text)))
  payload_results global_ids payloads [] = ok []
  payload_results global_ids payloads ((dist, local_id) ∷ results) =
      elim (get_elem? global_ids local_id) [
        | none ↦ err Error.index_error
        | some global_id ↦ elim (get_elem? payloads local_id) [
          | none ↦ err Error.index_error
          | some text ↦ do
            rest ← payload_results global_ids payloads results
            ok ((dist, (global_id, text)) ∷ rest)
        ]
      ]

  unfoldable pub search_with_payloads :
      Shard I → V → ℕ → Option Filter → Shard I × Result (List (D × (ℕ × Text)))
  unfolding nearest payload_results
  search_with_payloads s query k filter =
      let (s', results) = nearest s query k (or_no_condition filter) in
      (s', do local ← results; payload_results s'.global_ids s'.payloads local)

-- `max(ids, default=-1) + 1`
unfoldable pub next_free : List ℕ → ℕ
next_free [] = 0
next_free (global_id ∷ ids) = max (suc global_id) (next_free ids)

abbrev pub next_global_id : {I : Type 0} → Shard I → ℕ
next_global_id s = next_free s.global_ids
