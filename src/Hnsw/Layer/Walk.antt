-- ===== src/Hnsw/Layer/Walk.antt =====
-- A walk of a layer stays within the nodes that its links reach, and raises no error there.
use distributed_vector_searc.Prelude.{
  nat_ord, pair_ord, ℕ, zero, suc, ◌+◌, ◌*◌, ◌≤◌, ◌<◌, ◌≡◌, refl, ap, ◌∙◌, Bool, true, false, not,
  List, [], ◌∷◌, ◌++◌, map, Result, ok, ◌==◌, if◌then◌else◌, length, keep, ltb, Ord, All, All-drop,
  Bool-cases, inl, inr, arith, subst, All-keep, All-imp, All-map, sym, length-map,
}
use distributed_vector_searc.Python.Sorting.{insert, insert-All, length-insert}
use distributed_vector_searc.Hnsw.{
  Space, Neg, neg_ord, Layer, row, neighbors_of, distances, link_count,
}
use distributed_vector_searc.Hnsw.Layer.Unvisited.{unvisited, keep-All, length-keep, fresh_cost}
use distributed_vector_searc.Hnsw.Layer.{
  Beam, is_better, push_result, offer, is_visited, beam_loop, expand,
}

pub neighbors_of-bounded :
    (layer : Layer) (node : ℕ) (links : List ℕ)
    → neighbors_of layer node ≡ ok links
    → length links ≤ link_count layer
unfolding neighbors_of link_count
neighbors_of-bounded [] node links h = cc
neighbors_of-bounded ((n, own) ∷ layer) node links h = elim (Bool-cases (n == node)) [
  | inl e ↦ let same : own ≡ links = ground (arith, e, h) in omega (arith, ap length same)
  | inr e ↦ omega (arith, neighbors_of-bounded layer node links (ground (arith, e, h)))
]

module _ {D : Type 0} ⦃o : Ord D⦄ where
  pub push_result-All :
      (Q : Neg D × ℕ → Type 0) (ef : ℕ) (d : D) (n : ℕ) (rs : List (Neg D × ℕ))
      → Q (record { value = d }, n)
      → All Q rs
      → All Q (push_result ef d n rs)
  unfolding push_result
  push_result-All Q ef d n rs h k =
      let pushed = insert-All Q (record { value = d }, n) rs h k in
      elim (Bool-cases (ltb ef (length (insert (record { value = d }, n) rs)))) [
        | inl e ↦ rw e (All-drop Q 1 (insert (record { value = d }, n) rs) pushed)
        | inr e ↦ rw e pushed
      ]

pub row-ok :
    {V : Type 0} (rows : List V) (node : ℕ) → node < length rows → (v : V) × (row rows node ≡ ok v)
unfolding row
row-ok [] node h = absurd (omega arith)
row-ok (v ∷ rows) zero h = (v, refl)
row-ok (v ∷ rows) (suc node) h = row-ok rows node (omega arith)

-- Nodes that have a row and links in the layer, to such nodes again.
pub record IsClosed {V : Type 0} (rows : List V) (layer : Layer) (P : ℕ → Type 0) : Type 0 where
  pub adjacent : (n : ℕ) → P n → (links : List ℕ) × (neighbors_of layer n ≡ ok links) × All P links
  pub stored : (n : ℕ) → P n → n < length rows

module _ {V D : Type 0} ⦃o : Ord D⦄ (s : Space V D) (rows : List V) (layer : Layer)
    (P : ℕ → Type 0) where
  pub distances-ok :
      (query : V) (nodes : List ℕ)
      → All (λ n. n < length rows) nodes
      → (dists : List (D × ℕ)) × (distances s rows query nodes ≡ ok dists)
        × (map (λ d. d.1) dists ≡ nodes)
  unfolding distances
  distances-ok query [] h = ([], refl, refl)
  distances-ok query (node ∷ nodes) h =
      let (v, found) = row-ok rows node h.0 in
      let (dists, measured, same) = distances-ok query nodes h.1 in
      (
        (s.distance v query, node) ∷ dists,
        rw (found, distances) (rw measured refl),
        ap (◌∷◌ node) same,
      )

  -- Every entry is a good node, and every result is allowed.
  pub record IsBeam (allowed : ℕ → Bool) (b : Beam D) : Type 0 where
    pub good : All (λ c. P c.1) b.candidates
    pub kept : All (λ r. P r.1 × (allowed r.1 ≡ true)) b.results

  -- What the tests of the results need, that the flags of good nodes can be read, and that pushing a result keeps it.
  pub record Tested (ef : ℕ) (stop : D → List (Neg D × ℕ) → Result Bool)
      (reads : List ℕ → Result (Unit {0})) (allowed : ℕ → Bool) (G : List (Neg D × ℕ) → Type 0)
      : Type 0 where
    pub stops : (d : D) (rs : List (Neg D × ℕ)) → G rs → (b : Bool) × (stop d rs ≡ ok b)
    pub compares : (d : D) (rs : List (Neg D × ℕ)) → G rs → (b : Bool) × (is_better ef d rs ≡ ok b)
    pub reads_ok : (nodes : List ℕ) → All P nodes → reads nodes ≡ ok tt
    pub pushes : (d : D) (n : ℕ) (rs : List (Neg D × ℕ)) → G rs → G (push_result ef d n rs)

  module _ (ef : ℕ) (stop : D → List (Neg D × ℕ) → Result Bool) (reads : List ℕ → Result (Unit {0}))
      (allowed : ℕ → Bool) (G : List (Neg D × ℕ) → Type 0)
      (t : Tested ef stop reads allowed G) where
    pub record Offered (b : Beam D) (count : ℕ) (result : Result (Beam D)) : Type 0 where
      pub next : Beam D
      pub returns : result ≡ ok next
      pub beam : IsBeam allowed next
      pub tested : G next.results
      pub visited : next.visited ≡ b.visited
      pub pushed : length next.candidates ≤ length b.candidates + count

    pushed_beam : D → ℕ → Beam D → Beam D
    pushed_beam d n b = record b {
      candidates = insert (d, n) b.candidates;
      results = if allowed n then push_result ef d n b.results else b.results;
    }

    pushed-IsBeam :
        (d : D) (n : ℕ) (b : Beam D) → P n → IsBeam allowed b → IsBeam allowed (pushed_beam d n b)
    unfolding pushed_beam
    pushed-IsBeam d n b h inv = record {
      good = insert-All (λ c. P c.1) (d, n) b.candidates h inv.good;
      kept = elim (Bool-cases (allowed n)) [
        | inl e ↦
            rw e
              (push_result-All (λ r. P r.1 × (allowed r.1 ≡ true)) ef d n b.results (h, e) inv.kept)
        | inr e ↦ rw e inv.kept
      ];
    }

    pushed-tested : (d : D) (n : ℕ) (b : Beam D) → G b.results → G (pushed_beam d n b).results
    unfolding pushed_beam
    pushed-tested d n b g = elim (Bool-cases (allowed n)) [
      | inl e ↦ rw e (t.pushes d n b.results g)
      | inr e ↦ rw e g
    ]

    Offered-push :
        (d : D) (n : ℕ) (fresh : List (D × ℕ)) (b : Beam D)
        → is_better ef d b.results ≡ ok true
        → Offered (pushed_beam d n b) (length fresh) (offer allowed ef fresh (pushed_beam d n b))
        → Offered b (suc (length fresh)) (offer allowed ef ((d, n) ∷ fresh) b)
    unfolding offer pushed_beam
    Offered-push d n fresh b e r = record {
      next = r.next;
      returns = rw (e, offer) r.returns;
      beam = r.beam;
      tested = r.tested;
      visited = r.visited;
      pushed = omega (arith, r.pushed, length-insert (d, n) b.candidates);
    }

    Offered-skip :
        (d : D) (n : ℕ) (fresh : List (D × ℕ)) (b : Beam D)
        → is_better ef d b.results ≡ ok false
        → Offered b (length fresh) (offer allowed ef fresh b)
        → Offered b (suc (length fresh)) (offer allowed ef ((d, n) ∷ fresh) b)
    unfolding offer
    Offered-skip d n fresh b e r = record {
      next = r.next;
      returns = rw (e, offer) r.returns;
      beam = r.beam;
      tested = r.tested;
      visited = r.visited;
      pushed = omega (arith, r.pushed);
    }

    pub offer-Offered :
        (fresh : List (D × ℕ)) (b : Beam D)
        → All (λ f. P f.1) fresh
        → IsBeam allowed b
        → G b.results
        → Offered b (length fresh) (offer allowed ef fresh b)
    unfolding offer pushed_beam
    offer-Offered [] b h inv g = record {
      next = b;
      returns = refl;
      beam = inv;
      tested = g;
      visited = refl;
      pushed = omega arith;
    }
    offer-Offered ((d, n) ∷ fresh) b h inv g =
        let (better, e) = t.compares d b.results g in
        elim (Bool-cases better) [
          | inl accepted ↦ Offered-push d n fresh b (e ∙ ap (λ x. ok x) accepted) (
              offer-Offered fresh (pushed_beam d n b) h.1 (pushed-IsBeam d n b h.0 inv)
                (pushed-tested d n b g))
          | inr refused ↦
              Offered-skip d n fresh b (e ∙ ap (λ x. ok x) refused)
                (offer-Offered fresh b h.1 inv g)
        ]

    pub expand-Offered :
        (query : V) (node : ℕ) (candidates : List (D × ℕ)) (b : Beam D) (links : List ℕ)
        → neighbors_of layer node ≡ ok links
        → All (λ n. P n × (n < length rows)) links
        → All (λ c. P c.1) candidates
        → All (λ r. P r.1 × (allowed r.1 ≡ true)) b.results
        → G b.results
        → (next : Beam D) × (expand s rows reads allowed ef layer query node candidates b ≡ ok next)
          × IsBeam allowed next
          × G next.results
          × (link_count layer * unvisited next.visited (length rows) + length next.candidates
              ≤ link_count layer * unvisited b.visited (length rows) + length candidates)
    unfolding expand
    expand-Offered query node candidates b links found near good kept g =
        let fresh = keep (λ n. not (is_visited b.visited n)) links in
        let near_fresh =
          All-keep (λ n. P n × (n < length rows)) (λ n. not (is_visited b.visited n)) links near in
        let in_rows =
          All-imp (λ n. P n × (n < length rows)) (λ n. n < length rows) fresh (λ n h. h.1)
            near_fresh in
        let (dists, measured, same) = distances-ok query fresh in_rows in
        let start : Beam D = record b { visited = b.visited ++ fresh; candidates = candidates } in
        let all_good = All-imp (λ n. P n × (n < length rows)) P fresh (λ n h. h.0) near_fresh in
        let fresh_good : All (λ f. P f.1) dists =
          All-map P (λ f. f.1) dists (subst (All P) (sym same) all_good) in
        let r = offer-Offered dists start fresh_good (record { good = good; kept = kept }) g in
        let cost =
          fresh_cost b.visited fresh (length rows) (link_count layer) (length candidates)
            (keep-All (λ n. not (is_visited b.visited n)) links) in_rows
            (omega (
              arith,
              length-keep (λ n. not (is_visited b.visited n)) links,
              neighbors_of-bounded layer node links found,
            )) in
        let sizes : length dists ≡ length fresh =
          sym (length-map (λ f. f.1) dists) ∙ ap length same in
        (
          r.next,
          rw (found, expand) (rw measured (rw (t.reads_ok fresh all_good) r.returns)),
          r.beam,
          r.tested,
          rw (r.visited) (omega (arith, cost, r.pushed, sizes)),
        )

    abbrev beam_of : List ℕ → List (D × ℕ) → List (Neg D × ℕ) → Beam D
    beam_of visited candidates results = record {
      visited = visited;
      candidates = candidates;
      results = results;
    }

    pub beam_loop-ok :
        (query : V) (closed : IsClosed rows layer P) (fuel : ℕ) (visited : List ℕ)
        (candidates : List (D × ℕ)) (results : List (Neg D × ℕ))
        → IsBeam allowed (beam_of visited candidates results)
        → G results
        → link_count layer * unvisited visited (length rows) + length candidates ≤ fuel
        → (last : Beam D) × (beam_loop s rows fuel stop reads allowed ef layer query
              (beam_of visited candidates results)
            ≡ ok last)
          × IsBeam allowed last
          × G last.results
    unfolding beam_loop
    beam_loop-ok query closed zero visited [] results inv g h =
        (beam_of visited [] results, refl, inv, g)
    beam_loop-ok query closed zero visited (c ∷ cs) results inv g h = absurd (omega arith)
    beam_loop-ok query closed (suc fuel) visited [] results inv g h =
        (beam_of visited [] results, refl, inv, g)
    beam_loop-ok query closed (suc fuel) visited ((d, c) ∷ cs) results inv g h =
        let b : Beam D = beam_of visited ((d, c) ∷ cs) results in
        let (done, stopped) = t.stops d results g in
        elim (Bool-cases done) [
          | inl over ↦ (b, rw stopped (rw over refl), inv, g)
          | inr more ↦
              let (links, found, near) = closed.adjacent c inv.good.0 in
              let (next, expanded, next_inv, next_g, cost) =
                expand-Offered query c cs b links found
                  (All-imp P (λ n. P n × (n < length rows)) links (λ n p. (p, closed.stored n p))
                    near)
                  inv.good.1 inv.kept g in
              let (last, returns, last_inv, last_g) =
                beam_loop-ok query closed fuel next.visited next.candidates next.results next_inv
                  next_g (omega (arith, cost, h)) in
              (last, rw stopped (rw more (rw expanded returns)), last_inv, last_g)
        ]
