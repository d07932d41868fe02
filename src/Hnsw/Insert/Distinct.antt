-- ===== src/Hnsw/Insert/Distinct.antt =====
-- The nodes of each layer of the graph, while vectors are inserted: `insert` of vsearch/hnsw.py.
use distributed_vector_searc.Prelude.{
  ℕ, zero, suc, ◌-◌, ◌≡◌, subst, Bool-cases, inl, inr, false, List, [], ◌∷◌, ◌++◌, Result-cases, ok,
  err, >>=-eq-ok, ◌==◌, length, set, min, ltb, Ord, All, Option-cases, Error, arith,
}
use distributed_vector_searc.Hnsw.{
  Space, Selection, Heapq, Hnsw, Layer, layer_at, row, neighbors_of, put_links, distances,
}
use distributed_vector_searc.Hnsw.Layer.{search_layer_with_distances}
use distributed_vector_searc.Hnsw.Select.{stable_sort, select_neighbors}
use distributed_vector_searc.Hnsw.Insert.{
  Wiring, max_conn, grow_graph, register, link, link_all, connect, connect_loop, descend, wire,
  stored, placed, insert,
}

-- The nodes of a layer are different, as the keys of a dict are.
abbrev pub IsDistinct : Layer → Type 0
IsDistinct [] = Unit
IsDistinct ((node, links) ∷ layer) = All (λ e. (node == e.0) ≡ false) layer × IsDistinct layer

put_links-All :
    (P : ℕ → Type 0) (node : ℕ) (links : List ℕ) (layer : Layer)
    → P node
    → All (λ e. P e.0) layer
    → All (λ e. P e.0) (put_links node links layer)
unfolding put_links
put_links-All P node links [] h k = (h, tt)
put_links-All P node links ((n, old) ∷ layer) h k = elim (Bool-cases (n == node)) [
  | inl e ↦ rw e k
  | inr e ↦ rw e (k.0, put_links-All P node links layer h k.1)
]

put_links-IsDistinct :
    (node : ℕ) (links : List ℕ) (layer : Layer)
    → IsDistinct layer
    → IsDistinct (put_links node links layer)
unfolding put_links
put_links-IsDistinct node links [] h = (tt, tt)
put_links-IsDistinct node links ((n, old) ∷ layer) h = elim (Bool-cases (n == node)) [
  | inl e ↦ rw e h
  | inr e ↦ rw e (
    put_links-All (λ m. (n == m) ≡ false) node links layer e h.0,
    put_links-IsDistinct node links layer h.1,
  )
]

grow_graph-IsDistinct :
    (level : ℕ) (graph : List Layer)
    → All IsDistinct graph
    → All IsDistinct (grow_graph level graph)
unfolding grow_graph
grow_graph-IsDistinct zero [] h = (tt, tt)
grow_graph-IsDistinct (suc level) [] h = (tt, grow_graph-IsDistinct level [] tt)
grow_graph-IsDistinct zero (layer ∷ graph) h = h
grow_graph-IsDistinct (suc level) (layer ∷ graph) h = (h.0, grow_graph-IsDistinct level graph h.1)

register-IsDistinct :
    (node level : ℕ) (graph : List Layer)
    → All IsDistinct graph
    → All IsDistinct (register node level graph)
unfolding register
register-IsDistinct node zero [] h = tt
register-IsDistinct node (suc level) [] h = tt
register-IsDistinct node zero (layer ∷ graph) h = (put_links-IsDistinct node [] layer h.0, h.1)
register-IsDistinct node (suc level) (layer ∷ graph) h =
    (put_links-IsDistinct node [] layer h.0, register-IsDistinct node level graph h.1)

set-IsDistinct :
    (graph : List Layer) (i : ℕ) (layer : Layer)
    → All IsDistinct graph
    → IsDistinct layer
    → All IsDistinct (set graph i layer)
set-IsDistinct [] i layer h k = tt
set-IsDistinct (first ∷ graph) zero layer h k = (k, h.1)
set-IsDistinct (first ∷ graph) (suc i) layer h k = (h.0, set-IsDistinct graph i layer h.1 k)

layer_at-IsDistinct :
    (graph : List Layer) (i : ℕ) (layer : Layer)
    → layer_at graph i ≡ ok layer
    → All IsDistinct graph
    → IsDistinct layer
unfolding layer_at
layer_at-IsDistinct [] i layer e h = cc
layer_at-IsDistinct (first ∷ graph) zero layer e h =
    let same : first ≡ layer = cc in subst IsDistinct same h.0
layer_at-IsDistinct (first ∷ graph) (suc i) layer e h = layer_at-IsDistinct graph i layer e h.1

module _ {V D : Type 0} ⦃o : Ord D⦄ (s : Space V D) (rows : List V) (selection : Selection)
    (bound node : ℕ) where
  link-IsDistinct :
      (n : ℕ) (layer linked : Layer)
      → link s rows selection bound node n layer ≡ ok linked
      → IsDistinct layer
      → IsDistinct linked
  unfolding link
  link-IsDistinct n layer linked e h =
      let (own, a, e1) = >>=-eq-ok (neighbors_of layer node) _ e in
      let layer' = put_links node (own ++ n ∷ []) layer in
      let (others, b, e2) = >>=-eq-ok (neighbors_of layer' n) _ e1 in
      let links = others ++ node ∷ [] in
      let both = put_links n links layer' in
      let good =
        put_links-IsDistinct n links layer' (put_links-IsDistinct node (own ++ n ∷ []) layer h) in
      elim (Bool-cases (ltb bound (length links))) [
        | inl many ↦
            let (base, c, e3) = >>=-eq-ok (row rows n) _ (rw many at e2) in
            let (dists, d, e4) = >>=-eq-ok (distances s rows base links) _ e3 in
            let (chosen, f, e5) = >>=-eq-ok (select_neighbors s rows selection dists bound) _ e4 in
            let same : put_links n chosen both ≡ linked = cc in
            subst IsDistinct same (put_links-IsDistinct n chosen both good)
        | inr few ↦
            let same : both ≡ linked = let e3 = rw few at e2 in cc in subst IsDistinct same good
      ]

  link_all-IsDistinct :
      (neighbors : List ℕ) (layer linked : Layer)
      → link_all s rows selection bound node neighbors layer ≡ ok linked
      → IsDistinct layer
      → IsDistinct linked
  unfolding link_all
  link_all-IsDistinct [] layer linked e h =
      let same : layer ≡ linked = cc in subst IsDistinct same h
  link_all-IsDistinct (n ∷ neighbors) layer linked e h =
      let (one, a, e1) = >>=-eq-ok (link s rows selection bound node n layer) _ e in
      link_all-IsDistinct neighbors one linked e1 (link-IsDistinct n layer one a h)

module _ {V D R : Type 0} ⦃o : Ord D⦄ (s : Space V D) (heap : Heapq D) where
  connect-IsDistinct :
      (h : Hnsw V R) (unit : V) (node layer : ℕ) (w w' : Wiring)
      → connect s heap h unit node layer w ≡ ok w'
      → All IsDistinct w.graph
      → All IsDistinct w'.graph
  unfolding connect
  connect-IsDistinct h unit node layer w w' e g =
      let (links, a, e1) = >>=-eq-ok (layer_at w.graph layer) _ e in
      let (found, b, e2) =
        >>=-eq-ok (search_layer_with_distances s h.rows heap links unit w.entry h.ef_construction) _
          e1 in
      let scored = stable_sort found in
      let (neighbors, c, e3) =
        >>=-eq-ok (select_neighbors s h.rows h.neighbor_selection scored h.max_links) _ e2 in
      let (linked, d, e4) =
        >>=-eq-ok
          (link_all s h.rows h.neighbor_selection (max_conn h.max_links layer) node neighbors links)
          _ e3 in
      let good =
        link_all-IsDistinct s h.rows h.neighbor_selection (max_conn h.max_links layer) node
          neighbors links linked d (layer_at-IsDistinct w.graph layer links a g) in
      last scored (set w.graph layer linked) e4 (set-IsDistinct w.graph layer linked g good)
    where
      last :
          (scored : List (D × ℕ)) (graph : List Layer)
          → (elim scored [
            | [] ↦ err Error.index_error
            | first ∷ others ↦ ok (record { graph = graph; entry = first.1 })
          ])
            ≡ ok w'
          → All IsDistinct graph
          → All IsDistinct w'.graph
      last [] graph e k = cc
      last (first ∷ others) graph e k =
          let same : graph ≡ w'.graph = ground (arith, e) in subst (All IsDistinct) same k

  connect_loop-IsDistinct :
      (h : Hnsw V R) (unit : V) (node layers : ℕ) (w w' : Wiring)
      → connect_loop s heap h unit node layers w ≡ ok w'
      → All IsDistinct w.graph
      → All IsDistinct w'.graph
  unfolding connect_loop
  connect_loop-IsDistinct h unit node zero w w' e g =
      let same : w ≡ w' = cc in subst (λ x. All IsDistinct x.graph) same g
  connect_loop-IsDistinct h unit node (suc layer) w w' e g =
      let (next, a, e1) = >>=-eq-ok (connect s heap h unit node layer w) _ e in
      connect_loop-IsDistinct h unit node layer next w' e1
        (connect-IsDistinct h unit node layer w next a g)

  wire-IsDistinct :
      (h done : Hnsw V R) (unit : V) (node level entry_point : ℕ)
      → wire s heap h unit node level entry_point ≡ ok done
      → All IsDistinct h.graph
      → All IsDistinct done.graph
  unfolding wire
  wire-IsDistinct h done unit node level entry_point e g =
      let (entry, a, e1) =
        >>=-eq-ok (descend s h.rows h.graph unit level (h.levels - suc level) entry_point) _ e in
      let start : Wiring = record { graph = h.graph; entry = entry } in
      let (w, b, e2) =
        >>=-eq-ok (connect_loop s heap h unit node (min (suc level) h.levels) start) _ e1 in
      let good = connect_loop-IsDistinct h unit node (min (suc level) h.levels) start w b g in
      let same : w.graph ≡ done.graph = elim (Bool-cases (ltb h.levels (suc level))) [
        | inl higher ↦ let e3 = rw higher at e2 in ground (arith, e3)
        | inr lower ↦ let e3 = rw lower at e2 in ground (arith, e3)
      ] in
      subst (All IsDistinct) same good

  placed-IsDistinct :
      (h done : Hnsw V R) (unit : V) (node level : ℕ)
      → placed s heap h unit node level ≡ ok done
      → All IsDistinct h.graph
      → All IsDistinct done.graph
  unfolding placed
  placed-IsDistinct h done unit node level e g = elim (Option-cases h.entry_point) [
    | inl first ↦
        let e1 = rw (first, placed) at e in
        let same : h.graph ≡ done.graph = ground (arith, e1) in subst (All IsDistinct) same g
    | inr (entry_point, later) ↦
        wire-IsDistinct h done unit node level entry_point (rw (later, placed) at e) g
  ]

  -- Inserting a vector keeps the nodes of each layer different, whether it returns or raises.
  pub insert-IsDistinct :
      (draw : R → ℕ × R) (h : Hnsw V R) (v : V)
      → All IsDistinct h.graph
      → All IsDistinct (insert s heap draw h v).0.graph
  unfolding insert stored
  insert-IsDistinct draw h v g =
      let unit = s.normalize v in
      let (h', level) = stored s heap draw h unit in
      let g' : All IsDistinct h'.graph =
        register-IsDistinct (length h.rows) level (grow_graph level h.graph)
          (grow_graph-IsDistinct level h.graph g) in
      elim (Bool-cases (s.fits h.rows unit)) [
        | inr wide ↦ rw wide g
        | inl fits ↦ rw fits (elim (Result-cases (placed s heap h' unit (length h.rows) level)) [
          | inl (e, raised) ↦ rw raised g'
          | inr (done, returned) ↦
              rw returned (placed-IsDistinct h' done unit (length h.rows) level returned g')
        ])
      ]
