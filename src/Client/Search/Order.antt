-- ===== src/Client/Search/Order.antt =====
-- The order in which the replicas of a shard are tried.
use distributed_vector_searc.Prelude.{
  ℕ, zero, suc, ◌+◌, ◌%◌, ◌≤◌, ◌<◌, ◌≡◌, refl, ap, ◌∙◌, Bool, true, false, not, List, [], ◌∷◌, ◌++◌,
  some, ok, ◌==◌, if◌then◌else◌, length, get_elem?, set, take, drop, keep, range, All,
  take-append-drop, Bool-cases, inl, inr, arith, ltb, leb, ◌&&◌,
}
use distributed_vector_searc.Client.{Replica, Coordinator}
use distributed_vector_searc.Client.Replicas.{is_up, rotated, up_first, replica_order}

-- How often a position stands in a list.
abbrev pub count : ℕ → List ℕ → ℕ
count i [] = 0
count i (j ∷ js) = (if i == j then 1 else 0) + count i js

count-append : (i : ℕ) (xs ys : List ℕ) → count i (xs ++ ys) ≡ count i xs + count i ys
count-append i [] ys = omega arith
count-append i (x ∷ xs) ys = omega (arith, count-append i xs ys)

count-keep :
    (i : ℕ) (p : ℕ → Bool) (xs : List ℕ)
    → count i (keep p xs) + count i (keep (λ x. not (p x)) xs) ≡ count i xs
count-keep i p [] = refl
count-keep i p (x ∷ xs) = elim (Bool-cases (p x)) [
  | inl e ↦ rw e (omega (arith, count-keep i p xs))
  | inr e ↦ rw e (omega (arith, count-keep i p xs))
]

count-range :
    (i start n : ℕ) → count i (range start n) ≡ (if leb start i && ltb i (start + n) then 1 else 0)
count-range i start zero = ground arith
count-range i start (suc n) = ground (arith, count-range i (suc start) n)

-- Up replicas before down ones.
abbrev pub UpFirst : (ℕ → Bool) → List ℕ → Type 0
UpFirst up [] = Unit
UpFirst up (i ∷ order) = (up i ≡ false → All (λ j. up j ≡ false) order) × UpFirst up order

down-UpFirst :
    (up : ℕ → Bool) (xs : List ℕ)
    → UpFirst up (keep (λ x. not (up x)) xs) × All (λ j. up j ≡ false) (keep (λ x. not (up x)) xs)
down-UpFirst up [] = (tt, tt)
down-UpFirst up (x ∷ xs) = elim (Bool-cases (up x)) [
  | inl e ↦ rw e (down-UpFirst up xs)
  | inr e ↦ let (ordered, down) = down-UpFirst up xs in rw e (((λ h. down), ordered), (e, down))
]

up-UpFirst : (up : ℕ → Bool) (xs ys : List ℕ) → UpFirst up ys → UpFirst up (keep up xs ++ ys)
up-UpFirst up [] ys h = h
up-UpFirst up (x ∷ xs) ys h = elim (Bool-cases (up x)) [
  | inl e ↦ rw e ((λ k. cc), up-UpFirst up xs ys h)
  | inr e ↦ rw e (up-UpFirst up xs ys h)
]

-- What `_replica_order` gives for one shard of `n` replicas, of which it starts with `start`.
pub record Ordered (c : Coordinator) (shard now start : ℕ) (group : List Replica) (order : List ℕ)
    : Type 0 where
  pub returns :
      replica_order c shard now
      ≡ (record c { next_replica = set c.next_replica shard (suc start % length group) }, ok order)
  pub each_once : (i : ℕ) → i < length group → count i order ≡ 1
  pub no_others : (i : ℕ) → length group ≤ i → count i order ≡ 0
  pub up_before_down : UpFirst (is_up group now) order
  pub starts : is_up group now start ≡ true → (others : List ℕ) × (order ≡ start ∷ others)

count-rotated : (i n start : ℕ) → count i (rotated n start) ≡ count i (range 0 n)
unfolding rotated
count-rotated i n start =
    let whole = range 0 n in
    omega (
      arith,
      count-append i (drop start whole) (take start whole),
      count-append i (take start whole) (drop start whole),
      ap (count i) (take-append-drop start whole),
    )

count-up_first :
    (i : ℕ) (group : List Replica) (now : ℕ) (order : List ℕ)
    → count i (up_first group now order) ≡ count i order
unfolding up_first
count-up_first i group now order =
    count-append i (keep (is_up group now) order) (keep (λ i. not (is_up group now i)) order)
    ∙ count-keep i (is_up group now) order

drop-range :
    (start from n : ℕ)
    → start < n
    → (others : List ℕ) × (drop start (range from n) ≡ (from + start) ∷ others)
drop-range start from zero h = absurd (omega (arith, h))
drop-range zero from (suc n) h =
    (range (suc from) n, ap (λ m. m ∷ range (suc from) n) (omega arith))
drop-range (suc start) from (suc n) h =
    let (others, e) = drop-range start (suc from) n (omega (arith, h)) in
    (others, e ∙ ap (λ m. m ∷ others) (omega arith))

rotated-starts : (n start : ℕ) → start < n → (others : List ℕ) × (rotated n start ≡ start ∷ others)
unfolding rotated
rotated-starts n start h =
    let (others, e) = drop-range start 0 n h in
    (
      others ++ take start (range 0 n),
      ap (λ l. l ++ take start (range 0 n)) (e ∙ ap (λ m. m ∷ others) (omega arith)),
    )

up_first-starts :
    (group : List Replica) (now start : ℕ) (order others : List ℕ)
    → order ≡ start ∷ others
    → is_up group now start ≡ true
    → (rest : List ℕ) × (up_first group now order ≡ start ∷ rest)
unfolding up_first
up_first-starts group now start order others e up =
    let down = keep (λ i. not (is_up group now i)) order in
    let first : keep (is_up group now) (start ∷ others) ≡ start ∷ keep (is_up group now) others =
      rw up refl in
    (
      keep (is_up group now) others ++ down,
      ap (λ l. l ++ down) (ap (keep (is_up group now)) e ∙ first),
    )

-- If a shard has replicas and its next position is one of theirs, then _replica_order returns
-- without error an order that has every replica of the shard exactly once and nothing else, no
-- replica that is down before one that is up, and the replica at the next position first if it is
-- up, and it moves the next position on by one, around the end.
pub replica_order-Ordered :
    (c : Coordinator) (shard now start : ℕ) (group : List Replica)
    → get_elem? c.replicas shard ≡ some group
    → get_elem? c.next_replica shard ≡ some start
    → start < length group
    → Ordered c shard now start group (up_first group now (rotated (length group) start))
unfolding replica_order
replica_order-Ordered c shard now start group at next inside =
    let n = length group in
    let order = rotated n start in
    let counts : (i : ℕ)
        → count i (up_first group now order) ≡ (if leb 0 i && ltb i (0 + n) then 1 else 0) =
      λ i. count-up_first i group now order ∙ count-rotated i n start ∙ count-range i 0 n in
    let some_replica : (n == 0) ≡ false = ground (arith, inside) in
    let (others, first) = rotated-starts n start inside in
    record {
      returns = rw (at, replica_order) (rw next (rw some_replica refl));
      each_once = λ i h. ground (arith, counts i, h);
      no_others = λ i h. ground (arith, counts i, h);
      up_before_down =
          up-UpFirst (is_up group now) order _ (down-UpFirst (is_up group now) order).0;
      starts = up_first-starts group now start order others first;
    }
