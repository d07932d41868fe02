-- ===== src/Python/Sorting.antt =====
-- `sorted(items)` and `heapq.nsmallest(k, items)`, which Python documents as `sorted(items)[:k]`.
pub mod Rearranged
pub mod TopK
use distributed_vector_searc.Prelude.{
  ℕ, zero, suc, ◌≤◌, ◌+◌, ◌≡◌, refl, ap, sym, ◌∙◌, true, false, List, [], ◌∷◌, ◌++◌, arith, length,
  take, drop, All, Ord, ◌≼?◌, ≼_refl, if◌then◌else◌, Bool-cases, inl, inr, take-append-drop,
  length-take, length-drop,
}

module _ {ℓ} {A : Type ℓ} ⦃o : Ord A⦄ where
  unfoldable pub insert : A → List A → List A
  insert x [] = x ∷ []
  insert x (y ∷ ys) = if x ≼? y then x ∷ y ∷ ys else y ∷ insert x ys

  unfoldable pub insert_all : List A → List A → List A
  insert_all [] ys = ys
  insert_all (x ∷ xs) ys = insert x (insert_all xs ys)

  unfoldable pub sorted : List A → List A
  unfolding insert insert_all
  sorted xs = insert_all xs []

  unfoldable pub nsmallest : ℕ → List A → List A
  unfolding sorted
  nsmallest k xs = take k (sorted xs)

  -- Ascending lists.
  abbrev pub IsSorted : List A → Type ℓ
  IsSorted [] = Unit
  IsSorted (x ∷ xs) = All (λ y. (x ≼? y) ≡ true) xs × IsSorted xs

  All-trans :
      (x y : A) (xs : List A)
      → (x ≼? y) ≡ true
      → All (λ z. (y ≼? z) ≡ true) xs
      → All (λ z. (x ≼? z) ≡ true) xs
  All-trans x y [] h k = tt
  All-trans x y (z ∷ xs) h k = (o.trans x y z h k.0, All-trans x y xs h k.1)

  All-insert :
      (p x : A) (xs : List A)
      → (p ≼? x) ≡ true
      → All (λ z. (p ≼? z) ≡ true) xs
      → All (λ z. (p ≼? z) ≡ true) (insert x xs)
  unfolding insert
  All-insert p x [] h k = (h, tt)
  All-insert p x (y ∷ ys) h k = elim (Bool-cases (x ≼? y)) [
    | inl e ↦ rw e (h, k)
    | inr e ↦ rw e (k.0, All-insert p x ys h k.1)
  ]

  pub insert-IsSorted : (x : A) (xs : List A) → IsSorted xs → IsSorted (insert x xs)
  unfolding insert
  insert-IsSorted x [] s = (tt, tt)
  insert-IsSorted x (y ∷ ys) s = elim (Bool-cases (x ≼? y)) [
    | inl e ↦ rw e ((e, All-trans x y ys e s.0), s)
    | inr e ↦ rw e (All-insert y x ys (o.total x y e) s.0, insert-IsSorted x ys s.1)
  ]

  pub insert_all-IsSorted : (xs ys : List A) → IsSorted ys → IsSorted (insert_all xs ys)
  unfolding insert_all
  insert_all-IsSorted [] ys s = s
  insert_all-IsSorted (x ∷ xs) ys s =
      insert-IsSorted x (insert_all xs ys) (insert_all-IsSorted xs ys s)

  pub insert_comm : (x y : A) (l : List A) → insert x (insert y l) ≡ insert y (insert x l)
  unfolding insert
  insert_comm x y [] = ground (arith, o.total x y, o.total y x, o.antisymm x y)
  insert_comm x y (z ∷ l) = ground (
    arith,
    o.total x y,
    o.total y x,
    o.antisymm x y,
    insert_comm x y l,
    o.trans x y z,
    o.trans y x z,
    o.total x z,
    o.total y z,
    o.trans y z x,
    o.trans x z y,
  )

  pub sorted-IsSorted : (xs : List A) → IsSorted (sorted xs)
  unfolding sorted
  sorted-IsSorted xs = insert_all-IsSorted xs [] tt

module _ {ℓ κ} {A : Type ℓ} ⦃o : Ord A⦄ (P : A → Type κ) where
  pub insert-All : (x : A) (xs : List A) → P x → All P xs → All P (insert x xs)
  unfolding insert
  insert-All x [] h k = (h, tt)
  insert-All x (y ∷ ys) h k = elim (Bool-cases (x ≼? y)) [
    | inl e ↦ rw e (h, k)
    | inr e ↦ rw e (k.0, insert-All x ys h k.1)
  ]

  insert_all-All : (xs ys : List A) → All P xs → All P ys → All P (insert_all xs ys)
  unfolding insert_all
  insert_all-All [] ys h k = k
  insert_all-All (x ∷ xs) ys h k = insert-All x (insert_all xs ys) h.0 (insert_all-All xs ys h.1 k)

  pub sorted-All : (xs : List A) → All P xs → All P (sorted xs)
  unfolding sorted
  sorted-All xs h = insert_all-All xs [] h tt

module _ {ℓ} {A : Type ℓ} ⦃o : Ord A⦄ where
  pub length-insert : (x : A) (xs : List A) → length (insert x xs) ≡ suc (length xs)
  unfolding insert
  length-insert x [] = refl
  length-insert x (y ∷ ys) = elim (Bool-cases (x ≼? y)) [
    | inl e ↦ rw e refl
    | inr e ↦ rw e (ap suc (length-insert x ys))
  ]
