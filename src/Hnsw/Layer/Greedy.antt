-- ===== src/Hnsw/Layer/Greedy.antt =====
-- The greedy walk ends: every hop leaves fewer rows that are closer to the query.
use distributed_vector_searc.Prelude.{
  ℕ, zero, suc, ◌+◌, ◌≤◌, ◌<◌, ◌≡◌, refl, ap, sym, ◌∙◌, true, List, [], ◌∷◌, ok, if◌then◌else◌,
  length, Ord, ◌≼?◌, ◌≺?◌, ≼_refl, All, All-imp, All-map, Bool-cases, inl, inr, arith, subst,
  >>=-eq-ok, ◌⊎◌,
}
use distributed_vector_searc.Hnsw.{Space, Layer, row, neighbors_of, distances}
use distributed_vector_searc.Hnsw.Layer.{argmin, descend_loop, greedy_descend}
use distributed_vector_searc.Hnsw.Layer.Walk.{IsClosed, row-ok, distances-ok}

module _ {V D : Type 0} ⦃o : Ord D⦄ (s : Space V D) (query : V) where
  -- The rows closer to the query than a distance.
  abbrev nearer : List V → D → ℕ
  nearer [] d = 0
  nearer (v ∷ rows) d = (if s.distance v query ≺? d then 1 else 0) + nearer rows d

  nearer_bound : (rows : List V) (d : D) → nearer rows d ≤ length rows
  nearer_bound [] d = omega arith
  nearer_bound (v ∷ rows) d = ground (arith, nearer_bound rows d)

  closer_trans : (x d e : D) → (d ≺? e) ≡ true → (x ≺? d) ≡ true → (x ≺? e) ≡ true
  closer_trans x d e h k = ground (arith, o.total d x, o.total e d, o.trans d e x)

  nearer_mono : (rows : List V) (d e : D) → (d ≺? e) ≡ true → nearer rows d ≤ nearer rows e
  nearer_mono [] d e h = omega arith
  nearer_mono (v ∷ rows) d e h =
      ground (arith, nearer_mono rows d e h, closer_trans (s.distance v query) d e h)

  -- The distance of a stored row counts for a larger distance, not for itself.
  nearer-less :
      (rows : List V) (d e : D) (n : ℕ) (v : V)
      → (d ≺? e) ≡ true
      → row rows n ≡ ok v
      → s.distance v query ≡ d
      → nearer rows d + 1 ≤ nearer rows e
  unfolding row
  nearer-less [] d e n v h r k = cc
  nearer-less (w ∷ rows) d e zero v h r k =
      let same : s.distance w query ≡ d = ap (λ x. s.distance x query) (the_row w v r) ∙ k in
      rw same (ground (arith, nearer_mono rows d e h, h, ≼_refl d))
    where
      the_row : (x y : V) → ok x ≡ ok y → x ≡ y
      the_row x y e = cc
  nearer-less (w ∷ rows) d e (suc n) v h r k =
      ground (arith, nearer-less rows d e n v h r k, closer_trans (s.distance w query) d e h)

  argmin-All :
      (Q : D × ℕ → Type 0) (best : D × ℕ) (others : List (D × ℕ))
      → Q best
      → All Q others
      → Q (argmin best others)
  unfolding argmin
  argmin-All Q best [] h k = h
  argmin-All Q best (other ∷ others) h k = elim (Bool-cases (other.0 ≺? best.0)) [
    | inl e ↦ rw e (argmin-All Q other others k.0 k.1)
    | inr e ↦ rw e (argmin-All Q best others h k.1)
  ]

  module _ (rows : List V) where
    -- An entry has the distance of its row.
    abbrev Measured : D × ℕ → Type 0
    Measured e = (v : V) × (row rows e.1 ≡ ok v) × (s.distance v query ≡ e.0)

    distances-Measured :
        (nodes : List ℕ) (dists : List (D × ℕ))
        → distances s rows query nodes ≡ ok dists
        → All Measured dists
    unfolding distances
    distances-Measured [] [] h = tt
    distances-Measured [] (d ∷ ds) h = cc
    distances-Measured (n ∷ nodes) dists h =
        let (v, found, after) = >>=-eq-ok (row rows n) _ h in
        let (rest, measured, done) = >>=-eq-ok (distances s rows query nodes) _ after in
        subst (All Measured) (the_list _ _ done)
          ((v, found, refl), distances-Measured nodes rest measured)
      where
        the_list : (x y : List (D × ℕ)) → ok x ≡ ok y → x ≡ y
        the_list x y e = cc

    module _ (layer : Layer) (P : ℕ → Type 0) (closed : IsClosed rows layer P) where
      both :
          (es : List (D × ℕ))
          → All (λ e. P e.1) es
          → All Measured es
          → All (λ e. P e.1 × Measured e) es
      both [] a b = tt
      both (e ∷ es) a b = ((a.0, b.0), both es a.1 b.1)

      -- One round: the walk stays, or it hops to a node that is closer.
      Hop : ℕ → D → Type 0
      Hop current d =
          ((fuel : ℕ) → descend_loop s rows (suc fuel) layer query current d ≡ ok current)
          ⊎ ((b : ℕ) × (e : D) × P b
              × (nearer rows e + 1 ≤ nearer rows d)
              × ((fuel : ℕ)
                  → descend_loop s rows (suc fuel) layer query current d
                    ≡ descend_loop s rows fuel layer query b e))

      round :
          (current : ℕ) (d : D) (links : List ℕ) (dists : List (D × ℕ))
          → distances s rows query links ≡ ok dists
          → neighbors_of layer current ≡ ok links
          → All (λ e. P e.1 × Measured e) dists
          → Hop current d
      unfolding descend_loop Hop
      round current d links [] measured adjacent good =
          inl (λ fuel. rw (adjacent, descend_loop) (rw measured refl))
      round current d links (first ∷ others) measured adjacent good =
          let best = argmin first others in
          let (p_best, (v, stored, dist)) =
            argmin-All (λ e. P e.1 × Measured e) first others good.0 good.1 in
          elim (Bool-cases (d ≼? best.0)) [
            | inl stay ↦ inl (λ fuel. rw (adjacent, descend_loop) (rw measured (rw stay refl)))
            | inr hop ↦ inr (
              best.1,
              best.0,
              p_best,
              nearer-less rows best.0 d best.1 v (ground (arith, hop)) stored dist,
              λ fuel. rw (adjacent, descend_loop) (rw measured (rw hop refl)),
            )
          ]

      Hop-from : (current : ℕ) (d : D) → P current → Hop current d
      Hop-from current d p =
          let (links, adjacent, near) = closed.adjacent current p in
          let (dists, measured, same) =
            distances-ok s rows layer P query links
              (All-imp P (λ n. n < length rows) links closed.stored near) in
          round current d links dists measured adjacent (
            both dists (All-map P (λ e. e.1) dists (subst (All P) (sym same) near))
              (distances-Measured links dists measured))

      descend_loop-ok :
          (fuel current : ℕ) (d : D)
          → P current
          → nearer rows d < fuel
          → (found : ℕ) × (descend_loop s rows fuel layer query current d ≡ ok found) × P found
      unfolding Hop
      descend_loop-ok zero current d p h = absurd (omega arith)
      descend_loop-ok (suc fuel) current d p h = elim (Hop-from current d p) [
        | inl stays ↦ (current, stays fuel, p)
        | inr (b, e, p_b, less, hops) ↦
            let (found, returns, p_found) = descend_loop-ok fuel b e p_b (omega (arith, less, h)) in
            (found, hops fuel ∙ returns, p_found)
      ]

      -- From a node of a set that is closed under the links of a layer and whose vectors are all
      -- stored, the greedy walk ends, and the node that it returns is in the set: a hop goes to a
      -- strictly smaller distance, so one more round than there are stored rows is enough.
      pub greedy_descend-ok :
          (entry : ℕ)
          → P entry
          → (found : ℕ) × (greedy_descend s rows layer query entry ≡ ok found) × P found
      unfolding greedy_descend
      greedy_descend-ok entry p =
          let (v, stored) = row-ok rows entry (closed.stored entry p) in
          let d = s.distance v query in
          let (found, returns, p_found) =
            descend_loop-ok (suc (length rows)) entry d p (omega (arith, nearer_bound rows d)) in
          (found, rw (stored, greedy_descend) returns, p_found)
