-- ===== src/Cluster/Routing/Balance.antt =====
-- Round-robin keeps the shards balanced.
use native.Mathlib.Decide.{dec_lt}
use distributed_vector_searc.Python.Text.{Text}
use distributed_vector_searc.Cluster.Routing.Batches.{
  Row, rows, due, batch_of, route_round_robin_lem,
}
use distributed_vector_searc.Cluster.Routing.{Batch, route_round_robin}
use distributed_vector_searc.Prelude.{
  length-map, get_elem?, some, ok, List, [], ◌∷◌, length, keep, ◌==◌, ℕ, suc, ◌+◌, ◌/◌, ◌%◌, ◌<◌,
  ◌≤◌, ◌≡◌, refl, arith, if◌then◌else◌, ltb,
}

-- How many of the ids below `g` are due on shard `s`.
upto : ℕ → ℕ → ℕ → ℕ
upto n s g = g / n + (if ltb s (g % n) then 1 else 0)

div_suc_inside :
    (n g : ℕ) → 0 < n → suc (g % n) < n → (suc g / n ≡ g / n) × (suc g % n ≡ suc (g % n))
div_suc_inside n g pos h = grind arith

div_suc_end : (n g : ℕ) → 0 < n → suc (g % n) ≡ n → (suc g / n ≡ suc (g / n)) × (suc g % n ≡ 0)
div_suc_end n g pos h = grind arith

upto-suc : (n s g : ℕ) → s < n → upto n s (suc g) ≡ upto n s g + (if g % n == s then 1 else 0)
unfolding upto
upto-suc n s g h = elim (dec_lt (suc (g % n)) n) [
  | yes inside ↦ ground (arith, div_suc_inside n g (omega arith) inside)
  | no outside ↦
      let last : suc (g % n) ≡ n = omega arith in ground (arith, div_suc_end n g (omega arith) last)
]

module _ {V : Type 0} where
  due-count :
      (n s start stop : ℕ) (vectors : List V) (texts : List Text)
      → s < n
      → length vectors ≡ length texts
      → start + length vectors ≡ stop
      → length (keep (due n s) (rows start vectors texts)) + upto n s start ≡ upto n s stop
  due-count n s start stop [] [] h e f =
      let same : start ≡ stop = omega arith in rw same (omega arith)
  due-count n s start stop [] (t ∷ texts) h e f = absurd (omega arith)
  due-count n s start stop (v ∷ vectors) [] h e f = absurd (omega arith)
  due-count n s start stop (v ∷ vectors) (t ∷ texts) h e f = ground (
    arith,
    due-count n s (suc start) stop vectors texts h (omega arith) (omega arith),
    upto-suc n s start h,
  )

  -- Of the vectors of one write, no shard is sent more than one more than another.
  pub due-balanced :
      (n s t start : ℕ) (vectors : List V) (texts : List Text)
      → s < n
      → t < n
      → length vectors ≡ length texts
      → length (keep (due n s) (rows start vectors texts))
        ≤ length (keep (due n t) (rows start vectors texts)) + 1
  unfolding upto
  due-balanced n s t start vectors texts hs ht e = ground (
    arith,
    due-count n s start (start + length vectors) vectors texts hs e refl,
    due-count n t start (start + length vectors) vectors texts ht e refl,
  )

  -- If there is a payload text for each vector and routing returns batches, then the batch of one
  -- shard is longer than that of another by at most one vector, for every first id.
  pub route_round_robin-balanced :
      (num_shards start_id : ℕ) (vectors : List V) (texts : List Text) (batches : List (Batch V))
      (s t : ℕ) (b c : Batch V)
      → s < num_shards
      → t < num_shards
      → length vectors ≡ length texts
      → route_round_robin vectors num_shards start_id (some texts) ≡ ok batches
      → get_elem? batches s ≡ some b
      → get_elem? batches t ≡ some c
      → length b.global_ids ≤ length c.global_ids + 1
  route_round_robin-balanced n start vectors texts batches s t b c hs ht e r gb gc =
      let (found, routed, at) = route_round_robin_lem n start vectors texts (omega arith) e in
      let same : batches ≡ found = cc (r, routed) in
      let eb : b ≡ batch_of (keep (due n s) (rows start vectors texts)) = cc (gb, at s hs, same) in
      let ec : c ≡ batch_of (keep (due n t) (rows start vectors texts)) = cc (gc, at t ht, same) in
      rw (eb, ec)
        (omega (
          arith,
          due-balanced n s t start vectors texts hs ht e,
          length-map (λ (r : Row V). r.global_id) (keep (due n s) (rows start vectors texts)),
          length-map (λ (r : Row V). r.global_id) (keep (due n t) (rows start vectors texts)),
        ))
