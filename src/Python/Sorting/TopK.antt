-- ===== src/Python/Sorting/TopK.antt =====
-- The k smallest of a collection are found from the k smallest of each of its parts.
use distributed_vector_searc.Prelude.{
  ℕ, zero, suc, ◌<◌, ◌≡◌, refl, ap, sym, ◌∙◌, true, false, List, [], ◌∷◌, ◌++◌, arith, length, take,
  drop, All, Ord, ◌≼?◌, Bool-cases, inl, inr, take-append-drop, length-take, map, concat, leb,
  take_all, All-drop,
}
use distributed_vector_searc.Python.Sorting.{
  insert, insert_all, sorted, nsmallest, IsSorted, insert_comm, insert_all-IsSorted,
  sorted-IsSorted,
}

module _ {ℓ} {A : Type ℓ} ⦃o : Ord A⦄ where
  pub insert_all-insert :
      (xs : List A) (y : A) (l : List A) → insert_all xs (insert y l) ≡ insert y (insert_all xs l)
  unfolding insert_all
  insert_all-insert [] y l = refl
  insert_all-insert (x ∷ xs) y l =
      ap (insert x) (insert_all-insert xs y l) ∙ insert_comm x y (insert_all xs l)

  pub insert_all-append :
      (xs ys l : List A) → insert_all (xs ++ ys) l ≡ insert_all xs (insert_all ys l)
  unfolding insert_all
  insert_all-append [] ys l = refl
  insert_all-append (x ∷ xs) ys l = ap (insert x) (insert_all-append xs ys l)

  insert_all_of_insert :
      (x : A) (xs l : List A) → insert_all (insert x xs) l ≡ insert x (insert_all xs l)
  unfolding insert insert_all
  insert_all_of_insert x [] l = refl
  insert_all_of_insert x (y ∷ ys) l = elim (Bool-cases (x ≼? y)) [
    | inl e ↦ rw e refl
    | inr e ↦ rw e (ap (insert y) (insert_all_of_insert x ys l) ∙ insert_comm y x (insert_all ys l))
  ]

  insert_all-sorted : (xs l : List A) → insert_all (sorted xs) l ≡ insert_all xs l
  unfolding sorted insert_all
  insert_all-sorted [] l = refl
  insert_all-sorted (x ∷ xs) l =
      insert_all_of_insert x (sorted xs) l ∙ ap (insert x) (insert_all-sorted xs l)

  -- The first `k` places of `l` are taken by items up to `r`.
  abbrev Below : ℕ → A → List A → Type 0
  Below zero r l = Unit
  Below (suc k) r [] = ⊥
  Below (suc k) r (y ∷ l) = ((y ≼? r) ≡ true) × Below k r l

  take_cons_same :
      (k : ℕ) (r : A) (l : List A) → IsSorted (r ∷ l) → Below k r l → take k (r ∷ l) ≡ take k l
  take_cons_same zero r l s b = refl
  take_cons_same (suc k) r [] s b = absurd b
  take_cons_same (suc k) r (z ∷ l) s b =
      let e = o.antisymm r z s.0.0 b.0 in
      ap (λ t. t ∷ take k (z ∷ l)) e ∙ ap (◌∷◌ z) (take_cons_same k z l s.1 (rw e at b.1))

  take-insert :
      (k : ℕ) (r : A) (l : List A) → IsSorted l → Below k r l → take k (insert r l) ≡ take k l
  unfolding insert
  take-insert zero r l s b = refl
  take-insert (suc k) r [] s b = absurd b
  take-insert (suc k) r (y ∷ l) s b = elim (Bool-cases (r ≼? y)) [
    | inl e ↦ rw e (
        let same = o.antisymm r y e b.0 in
        ap (λ t. t ∷ take k (y ∷ l)) same ∙ ap (◌∷◌ y) (take_cons_same k y l s (rw same at b.1)))
    | inr e ↦ rw e (ap (◌∷◌ y) (take-insert k r l s.1 b.1))
  ]

  Below-insert :
      (k : ℕ) (r t : A) (l : List A) → (t ≼? r) ≡ true → Below k r l → Below (suc k) r (insert t l)
  unfolding insert
  Below-insert zero r t [] h b = (h, tt)
  Below-insert (suc k) r t [] h b = absurd b
  Below-insert zero r t (y ∷ l) h b = elim (Bool-cases (t ≼? y)) [
    | inl e ↦ rw e (h, tt)
    | inr e ↦ rw e (o.trans y t r (o.total t y e) h, tt)
  ]
  Below-insert (suc k) r t (y ∷ l) h b = elim (Bool-cases (t ≼? y)) [
    | inl e ↦ rw e (h, b)
    | inr e ↦ rw e (b.0, Below-insert k r t l h b.1)
  ]

  Below-insert_all :
      (r : A) (ts l : List A)
      → All (λ t. (t ≼? r) ≡ true) ts
      → Below (length ts) r (insert_all ts l)
  unfolding insert_all
  Below-insert_all r [] l h = tt
  Below-insert_all r (t ∷ ts) l h =
      Below-insert (length ts) r t (insert_all ts l) h.0 (Below-insert_all r ts l h.1)

  -- Items that no item of `ts` exceeds do not reach the first `length ts` places.
  pub take-insert_all :
      (ts rs l : List A)
      → IsSorted l
      → All (λ r. All (λ t. (t ≼? r) ≡ true) ts) rs
      → take (length ts) (insert_all ts (insert_all rs l)) ≡ take (length ts) (insert_all ts l)
  unfolding insert_all
  take-insert_all ts [] l s h = refl
  take-insert_all ts (r ∷ rs) l s h =
      ap (take (length ts)) (insert_all-insert ts r (insert_all rs l))
      ∙ take-insert (length ts) r (insert_all ts (insert_all rs l))
          (insert_all-IsSorted ts (insert_all rs l) (insert_all-IsSorted rs l s))
          (Below-insert_all r ts (insert_all rs l) h.0)
      ∙ take-insert_all ts rs l s h.1

  All-both :
      (x : A) (ts rs : List A)
      → All (λ r. (x ≼? r) ≡ true) rs
      → All (λ r. All (λ t. (t ≼? r) ≡ true) ts) rs
      → All (λ r. All (λ t. (t ≼? r) ≡ true) (x ∷ ts)) rs
  All-both x ts [] h k = tt
  All-both x ts (r ∷ rs) h k = ((h.0, k.0), All-both x ts rs h.1 k.1)

  All-none : (rs : List A) → All (λ r. All (λ t. (t ≼? r) ≡ true) []) rs
  All-none [] = tt
  All-none (r ∷ rs) = (tt, All-none rs)

  pub IsSorted-split :
      (k : ℕ) (l : List A)
      → IsSorted l
      → All (λ r. All (λ t. (t ≼? r) ≡ true) (take k l)) (drop k l)
  IsSorted-split zero l s = All-none l
  IsSorted-split (suc k) [] s = tt
  IsSorted-split (suc k) (x ∷ l) s =
      All-both x (take k l) (drop k l) (All-drop _ k l s.0) (IsSorted-split k l s.1)

  take_cut :
      (k : ℕ) (l s : List A)
      → IsSorted l
      → IsSorted s
      → take k (insert_all (take k l) s) ≡ take k (insert_all l s)
  take_cut k l s hl hs = elim (Bool-cases (leb (length l) k)) [
    | inl e ↦ ap (λ t. take k (insert_all t s)) (take_all k l (ground arith))
    | inr e ↦
        let full : length (take k l) ≡ k = omega (arith, length-take k l, long e) in
        sym (
          ap (λ t. take k (insert_all t s)) (sym (take-append-drop k l))
          ∙ ap (take k) (insert_all-append (take k l) (drop k l) s)
          ∙ (rw full at (take-insert_all (take k l) (drop k l) s hs (IsSorted-split k l hl))))
  ]
    where
      long : leb (length l) k ≡ false → k < length l
      long e = ground arith

  -- Of a part, only its `k` smallest items matter to the `k` smallest of the whole.
  pub nsmallest_cut :
      (k : ℕ) (xs s : List A)
      → IsSorted s
      → take k (insert_all (nsmallest k xs) s) ≡ take k (insert_all xs s)
  unfolding nsmallest
  nsmallest_cut k xs s hs =
      take_cut k (sorted xs) s (sorted-IsSorted xs) hs ∙ ap (take k) (insert_all-sorted xs s)

  take-insert-take :
      (k : ℕ) (x : A) (l : List A) → take k (insert x (take k l)) ≡ take k (insert x l)
  unfolding insert
  take-insert-take zero x l = refl
  take-insert-take (suc k) x [] = refl
  take-insert-take (suc k) x (y ∷ l) = elim (Bool-cases (x ≼? y)) [
    | inl e ↦ rw e (ap (◌∷◌ x) (take_twice k y l))
    | inr e ↦ rw e (ap (◌∷◌ y) (take-insert-take k x l))
  ]
    where
      take_twice : (n : ℕ) (z : A) (m : List A) → take n (z ∷ take n m) ≡ take n (z ∷ m)
      take_twice zero z m = refl
      take_twice (suc n) z [] = refl
      take_twice (suc n) z (w ∷ m) = ap (◌∷◌ z) (take_twice n w m)

  take-insert_all_cong :
      (k : ℕ) (xs l m : List A)
      → take k l ≡ take k m
      → take k (insert_all xs l) ≡ take k (insert_all xs m)
  unfolding insert_all
  take-insert_all_cong k [] l m h = h
  take-insert_all_cong k (x ∷ xs) l m h =
      sym (take-insert-take k x (insert_all xs l))
      ∙ ap (λ t. take k (insert x t)) (take-insert_all_cong k xs l m h)
      ∙ take-insert-take k x (insert_all xs m)

  nsmallest-append :
      (k : ℕ) (xs ys zs : List A)
      → nsmallest k ys ≡ nsmallest k zs
      → nsmallest k (nsmallest k xs ++ ys) ≡ nsmallest k (xs ++ zs)
  unfolding nsmallest sorted
  nsmallest-append k xs ys zs h =
      ap (take k) (insert_all-append (nsmallest k xs) ys [])
      ∙ nsmallest_cut k xs (sorted ys) (sorted-IsSorted ys)
      ∙ take-insert_all_cong k xs (sorted ys) (sorted zs) h
      ∙ ap (take k) (sym (insert_all-append xs zs []))

  -- The `k` smallest of the parts' `k` smallest are the `k` smallest of everything.
  pub nsmallest-concat :
      (k : ℕ) (parts : List (List A))
      → nsmallest k (concat (map (nsmallest k) parts)) ≡ nsmallest k (concat parts)
  nsmallest-concat k [] = refl
  nsmallest-concat k (xs ∷ parts) =
      nsmallest-append k xs (concat (map (nsmallest k) parts)) (concat parts)
        (nsmallest-concat k parts)
