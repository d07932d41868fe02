-- ===== src/Health/Members.antt =====
-- Predicates on lists that are kept, made distinct, sorted and joined, as `find_problems` does it.
use distributed_vector_searc.Prelude.{
  ℕ, ◌≡◌, refl, ap, true, List, [], ◌∷◌, map, ◌==◌, if◌then◌else◌, concat, All, arith, nat_ord,
  ◌≼?◌, Bool-cases, inl, inr, subst, All-map, map-All,
}
use distributed_vector_searc.Python.Sorting.{insert, insert_all, sorted}
use distributed_vector_searc.Health.{ServerHealth, is_in, distinct, shards_of}

pub concat-empty : {A : Type 0} (xss : List (List A)) → concat xss ≡ [] → All (λ xs. xs ≡ []) xss
concat-empty [] h = tt
concat-empty ([] ∷ xss) h = (refl, concat-empty xss h)
concat-empty ((x ∷ xs) ∷ xss) h = cc

pub empty-concat : {A : Type 0} (xss : List (List A)) → All (λ xs. xs ≡ []) xss → concat xss ≡ []
empty-concat [] h = refl
empty-concat ([] ∷ xss) h = empty-concat xss h.1
empty-concat ((x ∷ xs) ∷ xss) h = cc (h.0)

module _ (P : ℕ → Type 0) where
  pub is_in-All : (x : ℕ) (xs : List ℕ) → is_in x xs ≡ true → All P xs → P x
  unfolding is_in
  is_in-All x [] e h = cc
  is_in-All x (y ∷ ys) e h = elim (Bool-cases (x == y)) [
    | inl k ↦ let same : y ≡ x = ground (arith, k) in subst P same h.0
    | inr k ↦ is_in-All x ys (ground (arith, k, e)) h.1
  ]

  pub distinct-All : (xs : List ℕ) → All P (distinct xs) → All P xs
  unfolding distinct
  distinct-All [] h = tt
  distinct-All (x ∷ xs) h = elim (Bool-cases (is_in x (distinct xs))) [
    | inl k ↦
        let rest : All P (distinct xs) =
          subst (All P) (ap (λ b. if b then distinct xs else x ∷ distinct xs) k) h in
        (is_in-All x (distinct xs) k rest, distinct-All xs rest)
    | inr k ↦
        let rest : All P (x ∷ distinct xs) =
          subst (All P) (ap (λ b. if b then distinct xs else x ∷ distinct xs) k) h in
        (rest.0, distinct-All xs rest.1)
  ]

  pub All-distinct : (xs : List ℕ) → All P xs → All P (distinct xs)
  unfolding distinct
  All-distinct [] h = tt
  All-distinct (x ∷ xs) h = elim (Bool-cases (is_in x (distinct xs))) [
    | inl k ↦ rw k (All-distinct xs h.1)
    | inr k ↦ rw k (h.0, All-distinct xs h.1)
  ]

  insert-All : (x : ℕ) (xs : List ℕ) → All P (insert x xs) → P x × All P xs
  unfolding insert
  insert-All x [] h = h
  insert-All x (y ∷ ys) h = elim (Bool-cases (x ≼? y)) [
    | inl k ↦ subst (All P) (ap (λ b. if b then x ∷ y ∷ ys else y ∷ insert x ys) k) h
    | inr k ↦
        let rest : All P (y ∷ insert x ys) =
          subst (All P) (ap (λ b. if b then x ∷ y ∷ ys else y ∷ insert x ys) k) h in
        let below = insert-All x ys rest.1 in (below.0, (rest.0, below.1))
  ]

  All-insert : (x : ℕ) (xs : List ℕ) → P x → All P xs → All P (insert x xs)
  unfolding insert
  All-insert x [] p h = (p, tt)
  All-insert x (y ∷ ys) p h = elim (Bool-cases (x ≼? y)) [
    | inl k ↦ rw k (p, h)
    | inr k ↦ rw k (h.0, All-insert x ys p h.1)
  ]

  insert_all-All : (xs : List ℕ) → All P (insert_all xs []) → All P xs
  unfolding insert_all
  insert_all-All [] h = tt
  insert_all-All (x ∷ xs) h =
      let one = insert-All x (insert_all xs []) h in (one.0, insert_all-All xs one.1)

  All-insert_all : (xs : List ℕ) → All P xs → All P (insert_all xs [])
  unfolding insert_all
  All-insert_all [] h = tt
  All-insert_all (x ∷ xs) h = All-insert x (insert_all xs []) h.0 (All-insert_all xs h.1)

  pub shards_of-All :
      (health : List ServerHealth) → All P (shards_of health) → All (λ s. P s.shard) health
  unfolding shards_of sorted
  shards_of-All health h =
      All-map P (λ s. s.shard) health
        (distinct-All (map (λ s. s.shard) health)
          (insert_all-All (distinct (map (λ s. s.shard) health)) h))

  pub All-shards_of :
      (health : List ServerHealth) → All (λ s. P s.shard) health → All P (shards_of health)
  unfolding shards_of sorted
  All-shards_of health h =
      All-insert_all (distinct (map (λ s. s.shard) health))
        (All-distinct (map (λ s. s.shard) health) (map-All P (λ s. s.shard) health h))
