-- ===== src/Hnsw/Insert/Spare.antt =====
-- `insert` of vsearch/hnsw.py beside the spare rows of the index and its `ef_search`.
use mathlib.Core.Path.{fun_ext}
use distributed_vector_searc.Prelude.{
  ℕ, zero, suc, ◌-◌, ◌≡◌, refl, ap, ◌∙◌, Bool-cases, inl, inr, Option, none, some, Result,
  Result-cases, ok, ◌>>=◌, length, min, ltb, Ord,
}
use distributed_vector_searc.Hnsw.{Space, Heapq, Hnsw}
use distributed_vector_searc.Hnsw.Insert.{
  Wiring, connect, connect_loop, descend, wire, stored, placed, insert, grown_capacity,
}

-- An index with other spare rows and another `ef_search`.
abbrev pub respaced : {V R : Type 0} → ℕ → ℕ → Hnsw V R → Hnsw V R
respaced capacity ef_search h = record h { capacity = capacity; ef_search = ef_search }

-- An index without spare rows, and with a given `ef_search`.
abbrev pub compact : {V R : Type 0} → ℕ → Hnsw V R → Hnsw V R
compact ef_search h = record h { capacity = length h.rows; ef_search = ef_search }

abbrev respaced_result : {V R : Type 0} → ℕ → ℕ → Result (Hnsw V R) → Result (Hnsw V R)
respaced_result capacity ef_search r = r >>= λ h. ok (respaced capacity ef_search h)

module _ {V D R : Type 0} ⦃o : Ord D⦄ (s : Space V D) (heap : Heapq D)
    (capacity ef_search : ℕ) where
  connect_loop-respaced :
      (h : Hnsw V R) (unit : V) (node layers : ℕ) (w : Wiring)
      → connect_loop s heap (respaced capacity ef_search h) unit node layers w
        ≡ connect_loop s heap h unit node layers w
  unfolding connect_loop connect
  connect_loop-respaced h unit node zero w = refl
  connect_loop-respaced h unit node (suc layer) w =
      ap (λ f. connect s heap h unit node layer w >>= f)
        (fun_ext (λ next. connect_loop-respaced h unit node layer next))

  wire-respaced :
      (h : Hnsw V R) (unit : V) (node level entry_point : ℕ)
      → wire s heap (respaced capacity ef_search h) unit node level entry_point
        ≡ respaced_result capacity ef_search (wire s heap h unit node level entry_point)
  unfolding wire
  wire-respaced h unit node level entry_point =
      let above = h.levels - suc level in
      let layers = min (suc level) h.levels in
      elim (Result-cases (descend s h.rows h.graph unit level above entry_point)) [
        | inl (e, raised) ↦ rw raised refl
        | inr (entry, found) ↦
            let start : Wiring = record { graph = h.graph; entry = entry } in
            rw (found, connect_loop-respaced h unit node layers start)
              (elim (Result-cases (connect_loop s heap h unit node layers start)) [
                | inl (e, raised) ↦ rw raised refl
                | inr (w, done) ↦ rw done (elim (Bool-cases (ltb h.levels (suc level))) [
                  | inl higher ↦ rw higher refl
                  | inr lower ↦ rw lower refl
                ])
              ])
      ]

  placed-respaced :
      (h : Hnsw V R) (unit : V) (node level : ℕ)
      → placed s heap (respaced capacity ef_search h) unit node level
        ≡ respaced_result capacity ef_search (placed s heap h unit node level)
  unfolding placed
  placed-respaced h unit node level = from h.entry_point
    where
      from :
          (entry_point : Option ℕ)
          → (elim entry_point [
            | none ↦ ok (record (respaced capacity ef_search h) {
              entry_point = some node;
              levels = suc level;
            })
            | some e ↦ wire s heap (respaced capacity ef_search h) unit node level e
          ])
            ≡ respaced_result capacity ef_search (elim entry_point [
              | none ↦ ok (record h { entry_point = some node; levels = suc level })
              | some e ↦ wire s heap h unit node level e
            ])
      from none = refl
      from (some e) = wire-respaced h unit node level e

module _ {V D R : Type 0} ⦃o : Ord D⦄ (s : Space V D) (heap : Heapq D) where
  -- Inserting a vector does the same whatever the spare rows and `ef_search` are.
  pub insert-respaced :
      (draw : R → ℕ × R) (h : Hnsw V R) (v : V) (capacity ef_search : ℕ)
      → ((insert s heap draw (respaced capacity ef_search h) v).1 ≡ (insert s heap draw h v).1)
        × ((e : ℕ)
            → compact e (insert s heap draw (respaced capacity ef_search h) v).0
              ≡ compact e (insert s heap draw h v).0)
  unfolding insert stored
  insert-respaced draw h v capacity ef_search =
      let unit = s.normalize v in
      let node = length h.rows in
      let (h', level) = stored s heap draw h unit in
      elim (Bool-cases (s.fits h.rows unit)) [
        | inr wide ↦ rw wide (refl, λ e. refl)
        | inl fits ↦
            let grown = grown_capacity capacity node in
            let moved = placed-respaced s heap grown ef_search h' unit node level in
            rw fits (elim (Result-cases (placed s heap h' unit node level)) [
              | inl (e, raised) ↦
                  let again = moved ∙ ap (respaced_result grown ef_search) raised in
                  rw (raised, again) (refl, λ e. refl)
              | inr (done, returned) ↦
                  let again = moved ∙ ap (respaced_result grown ef_search) returned in
                  rw (returned, again) (refl, λ e. refl)
            ])
      ]
