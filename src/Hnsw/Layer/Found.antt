-- ===== src/Hnsw/Layer/Found.antt =====
-- The two beam searches return, with nodes of the layer that are allowed.
use native.Mathlib.Nat.{mul-le-mul_left}
use distributed_vector_searc.Prelude.{
  ℕ, suc, ◌+◌, ◌*◌, ◌≤◌, ◌<◌, ◌≡◌, refl, Bool, true, false, List, [], ◌∷◌, map, ok, if◌then◌else◌,
  length, Ord, ◌≺?◌, All, All-imp, map-All, Bool-cases, inl, inr, arith, ltb, leb, nat_ord,
  pair_ord, length-drop, length-map,
}
use distributed_vector_searc.Python.Sorting.{insert, length-insert}
use distributed_vector_searc.Filtering.Index.Flags.{flag_at}
use distributed_vector_searc.Hnsw.{Space, Neg, neg_ord, Heapq, Layer, link_count}
use distributed_vector_searc.Hnsw.Layer.{
  worst, is_better, push_result, is_farther, is_done, rounds, scored, read_flags,
  search_layer_with_distances, search_layer_filtered,
}
use distributed_vector_searc.Hnsw.Layer.Walk.{IsClosed, row-ok, Tested, beam_loop-ok}
use distributed_vector_searc.Hnsw.Layer.Unvisited.{unvisited, unvisited_bound}

-- The layout of a heap has the entries of the heap and no others, and as many.
pub record HeapqLaws {D : Type 0} (heap : Heapq D) : Type 1 where
  pub same_entries :
      (P : D × ℕ → Type 0) (entries : List (D × ℕ)) → All P entries → All P (heap.order entries)
  pub same_length : (entries : List (D × ℕ)) → length (heap.order entries) ≡ length entries

-- An array that is long enough is read without an error.
read_flags-ok :
    (allowed : List Bool) (nodes : List ℕ)
    → All (λ n. n < length allowed) nodes
    → read_flags allowed nodes ≡ ok tt
unfolding read_flags
read_flags-ok allowed [] h = refl
read_flags-ok allowed (n ∷ nodes) h = ground (arith, h, read_flags-ok allowed nodes h.1)

start_cost : (bound entry n : ℕ) → bound * unvisited (entry ∷ []) n + 1 ≤ suc (bound * n)
start_cost bound entry n = omega (arith, mul-le-mul_left bound (unvisited_bound (entry ∷ []) n))

module _ {D : Type 0} ⦃o : Ord D⦄ where
  worst-ok : (rs : List (Neg D × ℕ)) → 0 < length rs → (d : D) × (worst rs ≡ ok d)
  unfolding worst
  worst-ok [] h = absurd (omega arith)
  worst-ok ((d, n) ∷ rs) h = (d.value, refl)

  is_farther-ok :
      (d : D) (rs : List (Neg D × ℕ)) → 0 < length rs → (b : Bool) × (is_farther d rs ≡ ok b)
  unfolding is_farther
  is_farther-ok d rs h = let (w, e) = worst-ok rs h in (w ≺? d, rw (e, is_farther) refl)

  is_better-ok :
      (ef : ℕ) (d : D) (rs : List (Neg D × ℕ))
      → 0 < ef + length rs
      → (b : Bool) × (is_better ef d rs ≡ ok b)
  unfolding is_better
  is_better-ok ef d rs h = elim (Bool-cases (ltb (length rs) ef)) [
    | inl e ↦ (true, rw (e, is_better) refl)
    | inr e ↦ let (w, k) = worst-ok rs (ground arith) in (d ≺? w, rw (e, is_better) (rw k refl))
  ]

  is_done-ok :
      (ef : ℕ) (d : D) (rs : List (Neg D × ℕ)) → 0 < ef → (b : Bool) × (is_done ef d rs ≡ ok b)
  unfolding is_done
  is_done-ok ef d rs h = elim (Bool-cases (leb ef (length rs))) [
    | inl e ↦ let (b, k) = is_farther-ok d rs (ground arith) in (b, rw (e, is_done) k)
    | inr e ↦ (false, rw (e, is_done) refl)
  ]

  push_result-pos :
      (ef : ℕ) (d : D) (n : ℕ) (rs : List (Neg D × ℕ))
      → 0 < length rs
      → 0 < length (push_result ef d n rs)
  unfolding push_result
  push_result-pos ef d n rs h =
      let pushed = insert (record { value = d }, n) rs in
      elim (Bool-cases (ltb ef (length pushed))) [
        | inl e ↦
            rw e (omega (arith, length-drop 1 pushed, length-insert (record { value = d }, n) rs))
        | inr e ↦ rw e (omega (arith, length-insert (record { value = d }, n) rs))
      ]

module _ {V D : Type 0} ⦃o : Ord D⦄ (s : Space V D) (heap : Heapq D) (laws : HeapqLaws heap)
    (rows : List V) (layer : Layer) (P : ℕ → Type 0) (closed : IsClosed rows layer P) where
  abbrev NonEmpty : List (Neg D × ℕ) → Type 0
  NonEmpty rs = 0 < length rs

  abbrev Anything : List (Neg D × ℕ) → Type 0
  Anything rs = Unit

  unfiltered : (ef : ℕ) → Tested s rows layer P ef is_farther (λ nodes. ok tt) (λ n. true) NonEmpty
  unfiltered ef = record {
    stops = is_farther-ok;
    compares = λ d rs h. is_better-ok ef d rs (omega (arith, h));
    reads_ok = λ nodes h. refl;
    pushes = push_result-pos ef;
  }

  filtered :
      (ef : ℕ) (allowed : List Bool)
      → 0 < ef
      → ((n : ℕ) → P n → n < length allowed)
      → Tested s rows layer P ef (is_done ef) (read_flags allowed) (flag_at allowed) Anything
  filtered ef allowed h covers = record {
    stops = λ d rs g. is_done-ok ef d rs h;
    compares = λ d rs g. is_better-ok ef d rs (omega (arith, h));
    reads_ok =
        λ nodes h. read_flags-ok allowed nodes (All-imp P (λ n. n < length allowed) nodes covers h);
    pushes = λ d n rs g. tt;
  }

  scored-All :
      (Q : ℕ → Type 0) (rs : List (Neg D × ℕ))
      → All (λ r. Q r.1) rs
      → All (λ r. Q r.1) (scored heap rs)
  scored-All Q rs h =
      laws.same_entries (λ r. Q r.1) (map (λ r. (r.0.value, r.1)) rs)
        (map-All (λ r. Q r.1) (λ r. (r.0.value, r.1)) rs h)

  pub search_layer_with_distances-ok :
      (query : V) (entry ef : ℕ)
      → P entry
      → (results : List (D × ℕ)) × (search_layer_with_distances s rows heap layer query entry ef
          ≡ ok results)
        × (0 < length results)
        × All (λ r. P r.1) results
  unfolding search_layer_with_distances
  search_layer_with_distances-ok query entry ef p =
      let (v, stored) = row-ok rows entry (closed.stored entry p) in
      let d = s.distance v query in
      let (last, returns, inv, some) =
        beam_loop-ok s rows layer P ef is_farther (λ nodes. ok tt) (λ n. true) NonEmpty
          (unfiltered ef) query closed (rounds rows layer) (entry ∷ []) ((d, entry) ∷ [])
          ((record { value = d }, entry) ∷ []) (record { good = (p, tt); kept = ((p, refl), tt) })
          (omega arith) (start_cost (link_count layer) entry (length rows)) in
      (
        scored heap last.results,
        rw (stored, search_layer_with_distances) (rw returns refl),
        omega (
          arith,
          some,
          laws.same_length (map (λ r. (r.0.value, r.1)) last.results),
          length-map {B = D × ℕ} (λ r. (r.0.value, r.1)) last.results,
        ),
        scored-All P last.results (All-imp _ (λ r. P r.1) last.results (λ r h. h.0) inv.kept),
      )

  pub search_layer_filtered-ok :
      (query : V) (entry ef : ℕ) (allowed : List Bool)
      → P entry
      → 0 < ef
      → ((n : ℕ) → P n → n < length allowed)
      → (results : List (D × ℕ)) × (search_layer_filtered s rows heap layer query entry ef allowed
          ≡ ok results)
        × All (λ r. P r.1 × (flag_at allowed r.1 ≡ true)) results
  unfolding search_layer_filtered
  search_layer_filtered-ok query entry ef allowed p pos covers =
      let (v, stored) = row-ok rows entry (closed.stored entry p) in
      let d = s.distance v query in
      let first : List (Neg D × ℕ) =
        if flag_at allowed entry then (record { value = d }, entry) ∷ [] else [] in
      let kept : All (λ r. P r.1 × (flag_at allowed r.1 ≡ true)) first =
        elim (Bool-cases (flag_at allowed entry)) [ inl e ↦ rw e ((p, e), tt) | inr e ↦ rw e tt ] in
      let (last, returns, inv, done) =
        beam_loop-ok s rows layer P ef (is_done ef) (read_flags allowed) (flag_at allowed) Anything
          (filtered ef allowed pos covers) query closed (rounds rows layer) (entry ∷ [])
          ((d, entry) ∷ []) first (record { good = (p, tt); kept = kept }) tt
          (start_cost (link_count layer) entry (length rows)) in
      (
        scored heap last.results,
        rw (stored, search_layer_filtered)
            (rw (read_flags-ok allowed (entry ∷ []) (covers entry p, tt)) (rw returns refl)),
        scored-All (λ n. P n × (flag_at allowed n ≡ true)) last.results inv.kept,
      )
