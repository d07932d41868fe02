-- ===== src/Hnsw/Layer/Unvisited.antt =====
-- The nodes that a walk of a layer has not met, for the number of its rounds.
use native.Mathlib.Nat.{mul-le-mul_left}
use distributed_vector_searc.Prelude.{
  ℕ, zero, suc, ◌+◌, ◌*◌, ◌≤◌, ◌<◌, ◌≡◌, refl, Bool, true, false, not, ◌||◌, List, [], ◌∷◌, ◌++◌,
  ◌==◌, if◌then◌else◌, length, keep, All, Bool-cases, inl, inr, arith,
}
use distributed_vector_searc.Hnsw.Layer.{is_visited}

-- The nodes below `n` that a walk has not met.
abbrev pub unvisited : List ℕ → ℕ → ℕ
unvisited visited zero = 0
unvisited visited (suc n) = (if is_visited visited n then 0 else 1) + unvisited visited n

is_visited-append :
    (visited more : List ℕ) (n : ℕ)
    → is_visited (visited ++ more) n ≡ (is_visited visited n || is_visited more n)
is_visited-append [] more n = refl
is_visited-append (m ∷ visited) more n = ground (arith, is_visited-append visited more n)

unvisited-append :
    (visited more : List ℕ) (n : ℕ) → unvisited (visited ++ more) n ≤ unvisited visited n
unvisited-append visited more zero = omega arith
unvisited-append visited more (suc n) =
    ground (arith, unvisited-append visited more n, is_visited-append visited more n)

unvisited-less :
    (visited more : List ℕ) (x n : ℕ)
    → x < n
    → is_visited visited x ≡ false
    → is_visited more x ≡ true
    → unvisited (visited ++ more) n + 1 ≤ unvisited visited n
unvisited-less visited more x zero h a b = absurd (omega arith)
unvisited-less visited more x (suc n) h a b = elim (Bool-cases (x == n)) [
  | inl e ↦
      let same : x ≡ n = ground (arith, e) in
      let old : is_visited visited n ≡ false = rw (← same) a in
      let new : is_visited more n ≡ true = rw (← same) b in
      ground (arith, unvisited-append visited more n, is_visited-append visited more n, old, new)
  | inr e ↦ ground (
    arith,
    unvisited-less visited more x n (ground (arith, h, e)) a b,
    is_visited-append visited more n,
  )
]

pub unvisited_bound : (visited : List ℕ) (n : ℕ) → unvisited visited n ≤ n
unvisited_bound visited zero = omega arith
unvisited_bound visited (suc n) = ground (arith, unvisited_bound visited n)

pub keep-All : (p : ℕ → Bool) (xs : List ℕ) → All (λ n. p n ≡ true) (keep p xs)
keep-All p [] = tt
keep-All p (x ∷ xs) = elim (Bool-cases (p x)) [
  | inl e ↦ rw e (e, keep-All p xs)
  | inr e ↦ rw e (keep-All p xs)
]

pub length-keep : (p : ℕ → Bool) (xs : List ℕ) → length (keep p xs) ≤ length xs
length-keep p [] = omega arith
length-keep p (x ∷ xs) = ground (arith, length-keep p xs)

-- What a round costs: fresh nodes make the unvisited ones fewer by more than they add candidates.
pub fresh_cost :
    (visited fresh : List ℕ) (n bound left : ℕ)
    → All (λ x. not (is_visited visited x) ≡ true) fresh
    → All (λ x. x < n) fresh
    → length fresh ≤ bound
    → bound * unvisited (visited ++ fresh) n + (left + length fresh)
      ≤ bound * unvisited visited n + left
fresh_cost visited [] n bound left h k b =
    omega (arith, mul-le-mul_left bound (unvisited-append visited [] n))
fresh_cost visited (x ∷ fresh) n bound left h k b =
    let new : is_visited visited x ≡ false = ground (arith, h.0) in
    let met : is_visited (x ∷ fresh) x ≡ true = ground arith in
    omega (arith, b, mul-le-mul_left bound (unvisited-less visited (x ∷ fresh) x n k.0 new met))
