-- ===== src/Health/Problems.antt =====
-- No problem is found exactly in a cluster that is healthy.
use distributed_vector_searc.Prelude.{
  ℕ, ◌≡◌, ◌≤◌, ◌↔◌, refl, ap, sym, ◌∙◌, Bool, true, false, List, [], ◌∷◌, ◌++◌, map, ◌==◌, ltb,
  if◌then◌else◌, length, keep, All, arith, Bool-cases, inl, inr, subst, All-map, map-All, In,
  All-In, All-of, In-keep, All-keep,
}
use distributed_vector_searc.Health.{
  ServerHealth, Problem, is_in, distinct, shards_of, down_problems, sync_problems, group_of,
  alive_of, shard_problems, find_problems,
}
use distributed_vector_searc.Health.Members.{
  concat-empty, empty-concat, distinct-All, All-distinct, shards_of-All, All-shards_of,
}

-- Every server answers, and the replicas of each shard have applied the same writes.
pub record IsHealthy (health : List ServerHealth) : Type 0 where
  pub answers : (s : ServerHealth) → In s health → s.up ≡ true
  pub in_step :
      (s t : ServerHealth) → In s health → In t health → s.shard ≡ t.shard → s.last_seq ≡ t.last_seq

All-keep-if :
    {A : Type 0} (P : A → Type 0) (p : A → Bool) (xs : List A)
    → All (λ x. p x ≡ true → P x) xs
    → All P (keep p xs)
All-keep-if P p [] h = tt
All-keep-if P p (x ∷ xs) h = elim (Bool-cases (p x)) [
  | inl e ↦ rw e (h.0 e, All-keep-if P p xs h.1)
  | inr e ↦ rw e (All-keep-if P p xs h.1)
]

down_problems-empty :
    (shard : ℕ) (group : List ServerHealth)
    → down_problems shard group ≡ []
    → All (λ s. s.up ≡ true) group
unfolding down_problems
down_problems-empty shard [] h = tt
down_problems-empty shard (s ∷ group) h = ground (arith, down_problems-empty shard group)

down_problems-up :
    (shard : ℕ) (group : List ServerHealth)
    → All (λ s. s.up ≡ true) group
    → down_problems shard group ≡ []
unfolding down_problems
down_problems-up shard [] h = refl
down_problems-up shard (s ∷ group) h = rw (h.0, down_problems) (down_problems-up shard group h.1)

one_value : (xs ds : List ℕ) → distinct xs ≡ ds → length ds ≤ 1 → (d : ℕ) × All (λ n. n ≡ d) xs
one_value xs [] e h = (0, distinct-All (λ n. n ≡ 0) xs (subst (All (λ n. n ≡ 0)) (sym e) tt))
one_value xs (d ∷ []) e h =
    (d, distinct-All (λ n. n ≡ d) xs (subst (All (λ n. n ≡ d)) (sym e) (refl, tt)))
one_value xs (d ∷ c ∷ ds) e h = absurd (omega arith)

is_in-first : (x y : ℕ) (ys : List ℕ) → y ≡ x → is_in x (y ∷ ys) ≡ true
unfolding is_in
is_in-first x y ys e = ground arith

same_values : (d : ℕ) (xs : List ℕ) → All (λ n. n ≡ d) xs → length (distinct xs) ≤ 1
unfolding distinct
same_values d [] h = omega arith
same_values d (x ∷ xs) h =
    let below = same_values d xs h.1 in
    let all_same = All-distinct (λ n. n ≡ d) xs h.1 in
    elim (Bool-cases (is_in x (distinct xs))) [
      | inl k ↦ rw k below
      | inr k ↦ rw k (short (distinct xs) all_same k)
    ]
  where
    short : (ds : List ℕ) → All (λ n. n ≡ d) ds → is_in x ds ≡ false → length (x ∷ ds) ≤ 1
    short [] a k = omega arith
    short (y ∷ ds) a k = let found = is_in-first x y ds (a.0 ∙ sym h.0) in cc

sync_problems-empty :
    (shard : ℕ) (alive : List ServerHealth)
    → sync_problems shard alive ≡ []
    → (d : ℕ) × All (λ s. s.last_seq ≡ d) alive
unfolding sync_problems
sync_problems-empty shard [] h = cc
sync_problems-empty shard (s ∷ alive) h =
    let seqs = map (λ t. t.last_seq) (s ∷ alive) in
    elim (Bool-cases (ltb 1 (length (distinct seqs)))) [
      | inl k ↦ absurd (split _ _ k h)
      | inr k ↦
          let (d, same) = one_value seqs (distinct seqs) refl (ground (arith, k)) in
          (d, All-map (λ n. n ≡ d) (λ t. t.last_seq) (s ∷ alive) same)
    ]
  where
    split : (b : Bool) (p : Problem) → b ≡ true → (if b then p ∷ [] else []) ≡ [] → ⊥
    split true p k h = cc
    split false p k h = cc

sync_problems-same :
    (shard : ℕ) (alive : List ServerHealth) (s : ServerHealth) (d : ℕ)
    → In s alive
    → All (λ t. t.last_seq ≡ d) alive
    → sync_problems shard alive ≡ []
unfolding sync_problems
sync_problems-same shard [] s d (i, e) h = cc
sync_problems-same shard (u ∷ alive) s d i h =
    let seqs = map (λ t. t.last_seq) (u ∷ alive) in
    let few = same_values d seqs (map-All (λ n. n ≡ d) (λ t. t.last_seq) (u ∷ alive) h) in
    let test : ltb 1 (length (distinct seqs)) ≡ false = ground (arith, few) in
    ap
      (λ b.
        if b
        then Problem.out_of_sync shard (map (λ t. (t.replica, t.last_seq)) (u ∷ alive)) ∷ []
        else [])
      test

append-empty : {A : Type 0} (xs ys : List A) → xs ++ ys ≡ [] → (xs ≡ []) × (ys ≡ [])
append-empty [] ys h = (refl, h)
append-empty (x ∷ xs) ys h = cc

same_shard : (s t : ServerHealth) → t.shard ≡ s.shard → (t.shard == s.shard) ≡ true
same_shard s t e = ground (arith, e)

healthy : (health : List ServerHealth) → find_problems health ≡ [] → IsHealthy health
unfolding find_problems shard_problems
healthy health h =
    let clear = λ (n : ℕ). shard_problems health n ≡ [] in
    let each : All (λ s. shard_problems health s.shard ≡ []) health = shards_of-All clear health (
      All-map (λ ps. ps ≡ []) (shard_problems health) (shards_of health)
        (concat-empty (map (shard_problems health) (shards_of health)) h)) in
    let parts = λ (s : ServerHealth) (i : In s health).
      append-empty (down_problems s.shard (group_of health s.shard))
        (sync_problems s.shard (alive_of (group_of health s.shard))) (All-In _ health s each i) in
    let up = λ (s : ServerHealth) (i : In s health).
      All-In (λ t. t.up ≡ true) (group_of health s.shard) s
        (down_problems-empty s.shard (group_of health s.shard) (parts s i).0)
        (In-keep (λ t. t.shard == s.shard) health s i (same_shard s s refl)) in
    record {
      answers = up;
      in_step = λ s t i j e.
          let group = group_of health s.shard in
          let (d, same) = sync_problems-empty s.shard (alive_of group) (parts s i).1 in
          let at = λ (u : ServerHealth) (k : In u health) (l : u.shard ≡ s.shard).
            All-In (λ v. v.last_seq ≡ d) (alive_of group) u same
              (In-keep (λ v. v.up) group u
                (In-keep (λ v. v.shard == s.shard) health u k (same_shard s u l)) (up u k)) in
          at s i refl ∙ sym (at t j (sym e));
    }

no_shard_problems :
    (health : List ServerHealth) (s : ServerHealth)
    → IsHealthy health
    → In s health
    → shard_problems health s.shard ≡ []
unfolding shard_problems
no_shard_problems health s well i =
    let group = group_of health s.shard in
    let all_up = All-of (λ t. t.up ≡ true) health well.answers in
    let same : All (λ t. t.last_seq ≡ s.last_seq) group =
      All-keep-if (λ t. t.last_seq ≡ s.last_seq) (λ t. t.shard == s.shard) health
        (All-of _ health (λ t j e. well.in_step t s j i (ground (arith, e)))) in
    let alive =
      In-keep (λ t. t.up) group s
        (In-keep (λ t. t.shard == s.shard) health s i (same_shard s s refl)) (well.answers s i) in
    rw
      (down_problems-up s.shard group
        (All-keep (λ t. t.up ≡ true) (λ t. t.shard == s.shard) health all_up))
      (sync_problems-same s.shard (alive_of group) s s.last_seq alive
        (All-keep (λ t. t.last_seq ≡ s.last_seq) (λ t. t.up) group same))

no_problems : (health : List ServerHealth) → IsHealthy health → find_problems health ≡ []
unfolding find_problems
no_problems health well = empty-concat (map (shard_problems health) (shards_of health)) (
    map-All (λ ps. ps ≡ []) (shard_problems health) (shards_of health)
      (All-shards_of (λ n. shard_problems health n ≡ []) health
        (All-of (λ s. shard_problems health s.shard ≡ []) health
          (λ s i. no_shard_problems health s well i))))

-- find_problems reports nothing exactly if every server answers and any two servers of one shard
-- have applied the same last write, for any list of servers.
pub find_problems-IsHealthy :
    (health : List ServerHealth) → (find_problems health ≡ []) ↔ IsHealthy health
find_problems-IsHealthy health = (healthy health, no_problems health)
