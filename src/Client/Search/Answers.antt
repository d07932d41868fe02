-- ===== src/Client/Search/Answers.antt =====
-- The answer of a shard: that of the first replica, in the order in which they are tried, that answers.
use distributed_vector_searc.Prelude.{
  ℕ, zero, suc, ◌≡◌, refl, ap, sym, ◌∙◌, List, [], ◌∷◌, ◌++◌, map, Option, none, some, Result, ok,
  err, get_elem?, set, Ord, nat_ord, inl, inr, Option-cases, concat, concat-append, append-nil,
  Error, append_assoc, length, ◌<◌,
}
use distributed_vector_searc.Python.Text.{Text}
use distributed_vector_searc.Python.Sorting.{insert, insert_all}
use distributed_vector_searc.Python.Sorting.TopK.{insert_all-append, insert_all-insert}
use distributed_vector_searc.Client.{Replica, Hit}
use distributed_vector_searc.Client.Search.{Pending}
use distributed_vector_searc.Client.Replicas.{set_down, address_of}

module _ {A : Type 0} ⦃o : Ord A⦄ where
  insert_all_comm :
      (xs ys zs : List A) → insert_all xs (insert_all ys zs) ≡ insert_all ys (insert_all xs zs)
  unfolding insert_all
  insert_all_comm [] ys zs = refl
  insert_all_comm (x ∷ xs) ys zs =
      ap (insert x) (insert_all_comm xs ys zs) ∙ sym (insert_all-insert ys x (insert_all xs zs))

  -- What is found moves from the front of three lists to the end of any of them.
  pub to_last :
      (h a b c : List A)
      → insert_all h (insert_all a (insert_all b (insert_all c [])))
        ≡ insert_all a (insert_all b (insert_all (c ++ h) []))
  to_last h a b c =
      insert_all_comm h a (insert_all b (insert_all c []))
      ∙ ap (insert_all a) (
          insert_all_comm h b (insert_all c [])
          ∙ ap (insert_all b) (insert_all_comm h c [] ∙ sym (insert_all-append c h [])))

  pub to_middle :
      (h a b z : List A)
      → insert_all h (insert_all a (insert_all b z)) ≡ insert_all a (insert_all (b ++ h) z)
  to_middle h a b z =
      insert_all_comm h a (insert_all b z)
      ∙ ap (insert_all a) (insert_all_comm h b z ∙ sym (insert_all-append b h z))

-- The addresses of the replicas, which a search does not change.
abbrev pub addresses : List (List Replica) → List (List Text)
addresses groups = map (map (λ r. r.address)) groups

abbrev pub address_in : List (List Text) → ℕ → ℕ → Text
address_in addrs shard i = elim (get_elem? addrs shard) [
  | none ↦ []
  | some group ↦ elim (get_elem? group i) [ none ↦ [] | some a ↦ a ]
]

map-set_same :
    {A B : Type 0} (f : A → B) (xs : List A) (n : ℕ) (a b : A)
    → get_elem? xs n ≡ some a
    → f b ≡ f a
    → map f (set xs n b) ≡ map f xs
map-set_same f [] n a b e k = refl
map-set_same f (x ∷ xs) zero a b e k =
    let same : x ≡ a = cc in ap (λ y. y ∷ map f xs) (k ∙ ap f (sym same))
map-set_same f (x ∷ xs) (suc n) a b e k = ap (◌∷◌ (f x)) (map-set_same f xs n a b e k)

pub addresses-set_down :
    (groups : List (List Replica)) (shard i time : ℕ)
    → addresses (set_down groups shard i time) ≡ addresses groups
unfolding set_down
addresses-set_down groups shard i time = elim (Option-cases (get_elem? groups shard)) [
  | inl e ↦ rw (e, set_down) refl
  | inr (group, e) ↦ elim (Option-cases (get_elem? group i)) [
    | inl k ↦ rw (e, set_down) (rw k refl)
    | inr (r, k) ↦
        rw (e, set_down)
          (rw k (
            map-set_same (map (λ r. r.address)) groups shard group _ e
              (map-set_same (λ r. r.address) group i r _ k refl)))
  ]
]

pub address_of-addresses :
    (groups : List (List Replica)) (shard i : ℕ)
    → address_of groups shard i ≡ address_in (addresses groups) shard i
unfolding address_of
address_of-addresses [] shard i = refl
address_of-addresses (group ∷ groups) (suc shard) i = address_of-addresses groups shard i
address_of-addresses ([] ∷ groups) zero i = refl
address_of-addresses ((r ∷ group) ∷ groups) zero zero = refl
address_of-addresses ((r ∷ group) ∷ groups) zero (suc i) =
    address_of-addresses (group ∷ groups) zero i

abbrev pub or_else : {A : Type 0} → Result A → Option A → Option A
or_else (ok a) other = some a
or_else (err e) other = other

abbrev pub if_none : {A : Type 0} → ℕ → Option A → List ℕ
if_none shard (some a) = []
if_none shard none = shard ∷ []

abbrev pub items_of : {A B : Type 0} → (A → B) → Option (List A) → List B
items_of item (some hits) = map item hits
items_of item none = []

module _ {D : Type 0} (addrs : List (List Text)) (reply : Text → Result (List (Hit D))) where
  -- The first replica of an order that answers.
  abbrev pub first_answer : ℕ → List ℕ → Option (List (Hit D))
  first_answer shard [] = none
  first_answer shard (i ∷ order) =
      or_else (reply (address_in addrs shard i)) (first_answer shard order)

  abbrev pub lost : ℕ → List ℕ → List ℕ
  lost shard order = if_none shard (first_answer shard order)

  -- The shards of which no replica answers.
  abbrev pub unanswered : List (ℕ × List ℕ) → List ℕ
  unanswered [] = []
  unanswered ((shard, order) ∷ orders) = lost shard order ++ unanswered orders

  pub first_answer-ok :
      (shard i : ℕ) (order : List ℕ) (hits : List (Hit D))
      → reply (address_in addrs shard i) ≡ ok hits
      → first_answer shard (i ∷ order) ≡ some hits
  first_answer-ok shard i order hits e = ap (λ r. or_else r (first_answer shard order)) e

  pub first_answer-err :
      (shard i : ℕ) (order : List ℕ) (e : Error)
      → reply (address_in addrs shard i) ≡ err e
      → first_answer shard (i ∷ order) ≡ first_answer shard order
  first_answer-err shard i order e h = ap (λ r. or_else r (first_answer shard order)) h

  -- A call to a replica of which at most `n` others are left to try.
  pub record Asked (n : ℕ) (p : Pending D) : Type 0 where
    pub answer : p.answer ≡ reply (address_in addrs p.shard p.replica)
    pub few : length p.others < n

  abbrev pub all_lost : List (Pending D) → List ℕ
  all_lost [] = []
  all_lost (p ∷ pending) = lost p.shard (p.replica ∷ p.others) ++ all_lost pending

  pub all_lost-snoc :
      (retries : List (Pending D)) (p : Pending D)
      → all_lost (retries ++ p ∷ []) ≡ all_lost retries ++ lost p.shard (p.replica ∷ p.others)
  all_lost-snoc [] p = append-nil _
  all_lost-snoc (r ∷ retries) p =
      let here = lost r.shard (r.replica ∷ r.others) in
      ap (λ l. here ++ l) (all_lost-snoc retries p) ∙ sym (append_assoc here (all_lost retries) _)

  module _ {A : Type 0} (item : Hit D → A) where
    abbrev pub found : ℕ → List ℕ → List A
    found shard order = items_of item (first_answer shard order)

    -- What every shard's first replica that answers gives.
    abbrev pub answers : List (ℕ × List ℕ) → List (List A)
    answers [] = []
    answers ((shard, order) ∷ orders) = found shard order ∷ answers orders

    abbrev pub all_found : List (Pending D) → List A
    all_found [] = []
    all_found (p ∷ pending) = found p.shard (p.replica ∷ p.others) ++ all_found pending

    pub all_found-snoc :
        (retries : List (Pending D)) (p : Pending D)
        → all_found (retries ++ p ∷ []) ≡ all_found retries ++ found p.shard (p.replica ∷ p.others)
    all_found-snoc [] p = append-nil _
    all_found-snoc (r ∷ retries) p =
        let here = found r.shard (r.replica ∷ r.others) in
        ap (λ l. here ++ l) (all_found-snoc retries p)
        ∙ sym (append_assoc here (all_found retries) _)

pub concat-snoc :
    {A : Type 0} (xss : List (List A)) (xs : List A) → concat (xss ++ xs ∷ []) ≡ concat xss ++ xs
concat-snoc xss xs = concat-append xss (xs ∷ []) ∙ ap (λ ys. concat xss ++ ys) (append-nil xs)
