-- ===== src/Cluster/Shard/Filtered.antt =====
-- A filtered search of a shard returns only vectors whose payload satisfies the filter.
use distributed_vector_searc.Prelude.{
  ℕ, zero, suc, ◌+◌, ◌≡◌, refl, ap, sym, ◌∙◌, Bool, true, false, List, [], ◌∷◌, map, some, Result,
  ok, err, ◌==◌, length, get_elem?, All, arith, Bool-cases, inl, inr, length-append, max, subst,
  ◌<◌, Option, All-imp, Result-cases,
}
use distributed_vector_searc.Python.Text.{Text}
use distributed_vector_searc.Python.Json.{Json}
use distributed_vector_searc.Filtering.Key.{Filter}
use distributed_vector_searc.Filtering.Index.{catch_up, matching}
use distributed_vector_searc.Filtering.Index.Flags.{elem, flag_at}
use distributed_vector_searc.Filtering.Index.Contents.{
  IsIndexed, Readable, catch_up-IsIndexed, append-IsIndexed,
}
use distributed_vector_searc.Filtering.Matching.{satisfies, matching-eq-satisfies}
use distributed_vector_searc.Cluster.Shard.{
  IndexOps, IndexLaws, Shard, Strategy, exact, graph, filter_strategy, flatnonzero, count_nonzero,
  after_insert, add, add_loop, add_batch, search_allowed, nearest, texts_for,
}

flatnonzero-flag :
    (pos : ℕ) (flags : List Bool) (j : ℕ)
    → elem j (flatnonzero pos flags) ≡ true
    → (i : ℕ) × (j ≡ pos + i) × (flag_at flags i ≡ true)
unfolding flatnonzero
flatnonzero-flag pos [] j h = cc
flatnonzero-flag pos (true ∷ flags) j h = elim (Bool-cases (pos == j)) [
  | inl e ↦ (0, ground (arith, e), refl)
  | inr e ↦
      let (i, at, flag) = flatnonzero-flag (suc pos) flags j (ground (arith, e, h)) in
      (suc i, omega (arith, at), flag)
]
flatnonzero-flag pos (false ∷ flags) j h =
    let (i, at, flag) = flatnonzero-flag (suc pos) flags j h in (suc i, omega (arith, at), flag)

flag_at-map :
    (p : Text → Bool) (texts : List Text) (i : ℕ)
    → flag_at (map p texts) i ≡ true
    → (text : Text) × (get_elem? texts i ≡ some text) × (p text ≡ true)
flag_at-map p [] i h = cc
flag_at-map p (text ∷ texts) zero h = (text, refl, h)
flag_at-map p (text ∷ texts) (suc i) h = flag_at-map p texts i h

module _ {I V D : Type 0} (o : IndexOps I V D) (laws : IndexLaws o)
    (loads : Text → Result Json) where
  search_allowed-flags :
      (s : Shard I) (query : V) (k : ℕ) (allowed : List Bool) (results : List (D × ℕ))
      → search_allowed o loads s query k allowed ≡ ok results
      → All (λ r. flag_at allowed r.1 ≡ true) results
  unfolding search_allowed
  search_allowed-flags s query k allowed results h =
      elim (Bool-cases (count_nonzero allowed == 0)) [
        | inl e ↦ empty results (sym (rw (e, search_allowed) refl) ∙ h)
        | inr e ↦
            by_strategy
              (filter_strategy (count_nonzero allowed) (length s.global_ids)
                (max (o.ef_search s.index) k))
              (sym (rw (e, search_allowed) refl) ∙ h)
      ]
    where
      empty :
          (results : List (D × ℕ))
          → ok [] ≡ ok results
          → All (λ r. flag_at allowed r.1 ≡ true) results
      empty [] e = tt
      empty (r ∷ rs) e = cc

      by_strategy :
          (strategy : Strategy)
          → (elim strategy [
            | exact ↦ o.exact_among s.index query (flatnonzero 0 allowed) k
            | graph ↦ o.search_with_distances s.index query k (some allowed)
          ])
            ≡ ok results
          → All (λ r. flag_at allowed r.1 ≡ true) results
      by_strategy exact e =
          All-imp (λ r. elem r.1 (flatnonzero 0 allowed) ≡ true) (λ r. flag_at allowed r.1 ≡ true)
            results
            (λ r m.
              let (i, at, flag) = flatnonzero-flag 0 allowed r.1 m in
              subst (λ n. flag_at allowed n ≡ true) (omega (arith, at)) flag)
            (laws.only_among s.index query (flatnonzero 0 allowed) k results e)
      by_strategy graph e = laws.only_allowed s.index query k allowed results e

  -- An id and a payload for each vector, and an index of the first payloads.
  pub record IsShard (s : Shard I) : Type 0 where
    pub counted : length s.global_ids ≡ length s.payloads
    pub indexed : IsIndexed loads s.payloads s.payload_index

  -- The result is a vector of the shard whose payload satisfies the filter.
  pub record Satisfies (s : Shard I) (filter : Filter) (local_id : ℕ) : Type 0 where
    pub text : Text
    pub stored : get_elem? s.payloads local_id ≡ some text
    pub wanted : satisfies loads filter text ≡ true

  after_insert-IsShard :
      (global_id : ℕ) (payload : Text) (s : Shard I) (index' : I) (result : Result (Unit {0}))
      → IsShard s
      → IsShard (after_insert global_id payload s (index', result)).0
  unfolding after_insert
  after_insert-IsShard global_id payload s index' (err e) inv = record {
    counted = inv.counted;
    indexed = inv.indexed;
  }
  after_insert-IsShard global_id payload s index' (ok _) inv = record {
    counted = omega (
      arith,
      inv.counted,
      length-append s.global_ids (global_id ∷ []),
      length-append s.payloads (payload ∷ []),
    );
    indexed = append-IsIndexed loads s.payloads (payload ∷ []) s.payload_index inv.indexed;
  }

  pub add-IsShard :
      (global_id : ℕ) (vector : V) (payload : Text) (s : Shard I)
      → IsShard s
      → IsShard (add o loads global_id vector payload s).0
  unfolding add
  add-IsShard global_id vector payload s inv =
      after_insert-IsShard global_id payload s (o.insert s.index vector).0
        (o.insert s.index vector).1 inv

  add_loop-IsShard :
      (ids : List ℕ) (vectors : List V) (texts : List Text) (s : Shard I)
      → IsShard s
      → IsShard (add_loop o loads ids vectors texts s).0
  unfolding add_loop
  add_loop-IsShard [] vectors texts s inv = inv
  add_loop-IsShard (id ∷ ids) [] texts s inv = inv
  add_loop-IsShard (id ∷ ids) (v ∷ vectors) [] s inv = inv
  add_loop-IsShard (id ∷ ids) (v ∷ vectors) (text ∷ texts) s inv =
      let here = add-IsShard id v text s inv in
      elim (Result-cases (add o loads id v text s).1) [
        | inl (e, raised) ↦ rw (raised, add_loop) here
        | inr (done, returned) ↦
            rw (returned, add_loop)
              (add_loop-IsShard ids vectors texts (add o loads id v text s).0 here)
      ]

  -- If a shard has an id for each payload and a payload index that holds exactly the payloads that
  -- it has counted, then so does the shard that add_batch leaves, whether it returns or raises part
  -- way through, and for every combination of ids, vectors and payloads.
  pub add_batch-IsShard :
      (s : Shard I) (global_ids : List ℕ) (vectors : List V) (payloads : Option (List Text))
      → IsShard s
      → IsShard (add_batch o loads s global_ids vectors payloads).0
  unfolding add_batch
  add_batch-IsShard s global_ids vectors payloads inv =
      add_loop-IsShard global_ids vectors (texts_for payloads global_ids) s inv

  -- Take a shard with an id for each payload and a payload index that holds exactly the payloads
  -- that it has counted, whose payloads can all be read, and a filter with at least one condition.
  -- If the filtered search returns results, then by whichever strategy they were found, each of
  -- them is the local id of a stored payload that satisfies the filter, and the shard that the
  -- search leaves is again of this kind. The index is assumed to return only allowed nodes, and
  -- only nodes among those that it is given.
  pub nearest-Satisfies :
      (s : Shard I) (query : V) (k : ℕ) (filter : Filter) (results : List (D × ℕ))
      → IsShard s
      → All (Readable loads) s.payloads
      → 0 < length filter
      → (nearest o loads s query k filter).1 ≡ ok results
      → IsShard (nearest o loads s query k filter).0 × All (λ r. Satisfies s filter r.1) results
  unfolding nearest
  nearest-Satisfies s query k [] results inv readable some_condition h = absurd (omega arith)
  nearest-Satisfies s query k (condition ∷ filter) results inv readable some_condition h =
      let full = condition ∷ filter in
      let index' = (catch_up loads s.payloads s.payload_index).0 in
      let (returns, indexed, all) =
        catch_up-IsIndexed loads s.payloads s.payload_index readable inv.indexed in
      let matched : matching index' full (length s.global_ids)
          ≡ ok (map (satisfies loads full) s.payloads) =
        ap (matching index' full) inv.counted
        ∙ matching-eq-satisfies loads s.payloads index' indexed full all in
      let s' : Shard I = record s { payload_index = index' } in
      let found : search_allowed o loads s' query k (map (satisfies loads full) s.payloads)
          ≡ ok results =
        sym (rw (returns, nearest) (rw matched refl)) ∙ h in
      (
        record { counted = inv.counted; indexed = indexed },
        All-imp _ (λ r. Satisfies s full r.1) results
            (λ r flag.
              let (text, stored, wanted) = flag_at-map (satisfies loads full) s.payloads r.1 flag in
              record { text = text; stored = stored; wanted = wanted })
            (search_allowed-flags s' query k (map (satisfies loads full) s.payloads) results found),
      )
