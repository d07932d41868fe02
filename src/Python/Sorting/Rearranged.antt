-- ===== src/Python/Sorting/Rearranged.antt =====
-- `sorted` of a list that is rearranged, and of the values that a function has at its items.
use mathlib.Core.List.{map-map, map-append}
use distributed_vector_searc.Prelude.{
  ℕ, zero, suc, ◌<◌, ◌≤◌, ◌+◌, ◌≡◌, refl, ap, sym, ◌∙◌, true, List, [], ◌∷◌, ◌++◌, arith, length,
  take, drop, All, Ord, ◌≼?◌, Bool-cases, inl, inr, map, range, get_elem?, some, nat_ord, map-All,
  All-imp, take-append-drop, length-take, length-map,
}
use distributed_vector_searc.Python.Sorting.{
  insert, insert_all, sorted, nsmallest, IsSorted, insert_comm, length-insert,
}
use distributed_vector_searc.Python.Sorting.TopK.{insert_all-append, take-insert_all}

module _ {ℓ} {A : Type ℓ} ⦃o : Ord A⦄ where
  insert_first : (x : A) (xs : List A) → All (λ y. (x ≼? y) ≡ true) xs → insert x xs ≡ x ∷ xs
  unfolding insert
  insert_first x [] h = refl
  insert_first x (y ∷ ys) h = rw h.0 refl

  pub sorted_of_IsSorted : (xs : List A) → IsSorted xs → sorted xs ≡ xs
  unfolding sorted insert_all
  sorted_of_IsSorted [] h = refl
  sorted_of_IsSorted (x ∷ xs) h = ap (insert x) (sorted_of_IsSorted xs h.1) ∙ insert_first x xs h.0

  pub length-sorted : (xs : List A) → length (sorted xs) ≡ length xs
  unfolding sorted insert_all
  length-sorted [] = refl
  length-sorted (x ∷ xs) = length-insert x (sorted xs) ∙ ap suc (length-sorted xs)

module _ {ℓ κ} {A : Type ℓ} ⦃o : Ord A⦄ (P : A → Type κ) where
  All_of_insert : (x : A) (xs : List A) → All P (insert x xs) → P x × All P xs
  unfolding insert
  All_of_insert x [] h = h
  All_of_insert x (y ∷ ys) h = elim (Bool-cases (x ≼? y)) [
    | inl e ↦ rw e at h
    | inr e ↦ let h' = rw e at h in let rest = All_of_insert x ys h'.1 in (rest.0, (h'.0, rest.1))
  ]

  pub All_of_sorted : (xs : List A) → All P (sorted xs) → All P xs
  unfolding sorted insert_all
  All_of_sorted [] h = tt
  All_of_sorted (x ∷ xs) h =
      let first = All_of_insert x (sorted xs) h in (first.0, All_of_sorted xs first.1)

module _ {ℓ κ} {A : Type ℓ} {B : Type κ} ⦃o : Ord A⦄ ⦃p : Ord B⦄ (f : A → B) where
  sorted-map-insert :
      (x : A) (l : List A) → sorted (map f (insert x l)) ≡ insert (f x) (sorted (map f l))
  unfolding insert sorted insert_all
  sorted-map-insert x [] = refl
  sorted-map-insert x (y ∷ l) = elim (Bool-cases (x ≼? y)) [
    | inl e ↦ rw e refl
    | inr e ↦
        rw e
          (ap (insert (f y)) (sorted-map-insert x l) ∙ insert_comm (f y) (f x) (sorted (map f l)))
  ]

  -- What a function makes of a list does not depend on its order.
  pub sorted-map-sorted : (xs : List A) → sorted (map f (sorted xs)) ≡ sorted (map f xs)
  unfolding sorted insert_all
  sorted-map-sorted [] = refl
  sorted-map-sorted (x ∷ xs) =
      sorted-map-insert x (sorted xs) ∙ ap (insert (f x)) (sorted-map-sorted xs)

-- The item at a position, or another where there is none.
abbrev pub get_or {ℓ} : {A : Type ℓ} → A → List A → ℕ → A
get_or other [] i = other
get_or other (x ∷ xs) zero = x
get_or other (x ∷ xs) (suc i) = get_or other xs i

pub get_or_lem {ℓ} :
    {A : Type ℓ} (other : A) (xs : List A) (i : ℕ)
    → i < length xs
    → get_elem? xs i ≡ some (get_or other xs i)
get_or_lem other [] i h = absurd (omega arith)
get_or_lem other (x ∷ xs) zero h = refl
get_or_lem other (x ∷ xs) (suc i) h = get_or_lem other xs i (omega arith)

pub range-suc : (start n : ℕ) → range (suc start) n ≡ map suc (range start n)
range-suc start zero = refl
range-suc start (suc n) = ap (◌∷◌ (suc start)) (range-suc (suc start) n)

pub map-get_or-range {ℓ} :
    {A : Type ℓ} (other : A) (xs : List A) → map (get_or other xs) (range 0 (length xs)) ≡ xs
map-get_or-range other [] = refl
map-get_or-range other (x ∷ xs) = ap (◌∷◌ x) (
    ap (map (get_or other (x ∷ xs))) (range-suc 0 (length xs))
    ∙ map-map (get_or other (x ∷ xs)) suc (range 0 (length xs))
    ∙ map-get_or-range other xs)

pub range-All : (start n : ℕ) → All (λ i. i < start + n) (range start n)
range-All start zero = tt
range-All start (suc n) = (
  omega arith,
  All-imp (λ i. i < suc start + n) (λ i. i < start + suc n) (range (suc start) n)
      (λ i h. omega (arith, h)) (range-All (suc start) n),
)

module _ {A : Type 0} ⦃o : Ord A⦄ where
  -- The `k` smallest values of a list are those at the first `k` of its positions, in any order of the
  -- positions that has no larger value before a smaller one across the place `k`.
  pub nsmallest-positions :
      (other : A) (xs : List A) (positions : List ℕ) (k : ℕ)
      → k ≤ length positions
      → sorted positions ≡ range 0 (length xs)
      → All
          (λ j. All (λ i. (get_or other xs i ≼? get_or other xs j) ≡ true) (take k positions))
          (drop k positions)
      → nsmallest k (map (get_or other xs) (take k positions)) ≡ nsmallest k xs
  unfolding nsmallest sorted
  nsmallest-positions other xs positions k few all split =
      let at = get_or other xs in
      let first = map at (take k positions) in
      let others = map at (drop k positions) in
      let size : length first ≡ k =
        omega (arith, length-map at (take k positions), length-take k positions, few) in
      let whole : map at positions ≡ first ++ others =
        ap (map at) (sym (take-append-drop k positions))
        ∙ map-append at (take k positions) (drop k positions) in
      let same : sorted (first ++ others) ≡ sorted xs =
        ap sorted (sym whole)
        ∙ sym (sorted-map-sorted at positions)
        ∙ ap (λ ps. sorted (map at ps)) all
        ∙ ap sorted (map-get_or-range other xs) in
      let apart : All (λ r. All (λ t. (t ≼? r) ≡ true) first) others =
        map-All (λ r. All (λ t. (t ≼? r) ≡ true) first) at (drop k positions)
          (All-imp (λ j. All (λ i. (at i ≼? at j) ≡ true) (take k positions))
            (λ j. All (λ t. (t ≼? at j) ≡ true) first) (drop k positions)
            (λ j h. map-All (λ t. (t ≼? at j) ≡ true) at (take k positions) h) split) in
      let cut : take k (insert_all first (insert_all others [])) ≡ take k (insert_all first []) =
        rw size at (take-insert_all first others [] tt apart) in
      sym cut ∙ ap (take k) (sym (insert_all-append first others [])) ∙ ap (take k) same
