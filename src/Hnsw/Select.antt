-- ===== src/Hnsw/Select.antt =====
-- `_select_neighbors`: the neighbors of a base node, chosen among candidates with their distances to it.
pub mod Chosen
use distributed_vector_searc.Prelude.{
  ℕ, zero, suc, ◌+◌, Bool, true, false, not, ◌&&◌, ◌||◌, List, [], ◌∷◌, ◌++◌, map, Result, Error,
  ok, err, ◌>>=◌, ◌==◌, if◌then◌else◌, length, take, all, leb, Ord, ◌≼?◌, ◌≺?◌,
}
use distributed_vector_searc.Hnsw.{Space, Selection, heuristic, closest, row}

abbrev pub is_closest : Selection → Bool
is_closest closest = true
is_closest heuristic = false

module _ {D : Type 0} ⦃o : Ord D⦄ where
  -- A sort by distance alone that keeps the order of equal ones.
  unfoldable pub insert_stable : D × ℕ → List (D × ℕ) → List (D × ℕ)
  insert_stable x [] = x ∷ []
  insert_stable x (y ∷ ys) = if x.0 ≼? y.0 then x ∷ y ∷ ys else y ∷ insert_stable x ys

  unfoldable pub stable_sort : List (D × ℕ) → List (D × ℕ)
  unfolding insert_stable
  stable_sort [] = []
  stable_sort (x ∷ xs) = insert_stable x (stable_sort xs)

module _ {V D : Type 0} ⦃o : Ord D⦄ (s : Space V D) (rows : List V) where
  -- `to_base < nearest_kept[i]`: closer to the base than to every neighbor kept so far.
  unfoldable pub is_closer : D → V → List (V × ℕ) → Bool
  is_closer to_base v kept = all (λ k. to_base ≺? s.distance k.0 v) kept

  -- `self._data[ids]`: every candidate with its vector.
  unfoldable pub with_vectors : List (D × ℕ) → Result (List (D × (V × ℕ)))
  unfolding row
  with_vectors [] = ok []
  with_vectors ((to_base, node) ∷ others) = do
    v ← row rows node
    rest ← with_vectors others
    ok ((to_base, (v, node)) ∷ rest)

  -- The loop, with the neighbors kept so far.
  unfoldable pub keep_loop : ℕ → List (V × ℕ) → List (D × (V × ℕ)) → List (V × ℕ)
  unfolding is_closer
  keep_loop m kept [] = kept
  keep_loop m kept ((to_base, (v, node)) ∷ others) = elim (is_closer to_base v kept) [
    | false ↦ keep_loop m kept others
    | true ↦ elim (suc (length kept) == m) [
      | true ↦ kept ++ (v, node) ∷ []
      | false ↦ keep_loop m (kept ++ (v, node) ∷ []) others
    ]
  ]

  unfoldable pub select_neighbors : Selection → List (D × ℕ) → ℕ → Result (List ℕ)
  unfolding stable_sort with_vectors keep_loop
  select_neighbors selection candidates m =
      let order = stable_sort candidates in
      if leb (length order) m || is_closest selection
      then ok (map (λ c. c.1) (take m order))
      else do nearest ← with_vectors order; ok (map (λ k. k.1) (keep_loop m [] nearest))
