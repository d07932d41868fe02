-- ===== src/Client/Write/Settled.antt =====
-- What `add` takes from the answers to a chunk, and that its loop over the chunks ends.
use distributed_vector_searc.Prelude.{
  zero, ℕ, ◌≡◌, refl, true, List, [], ◌∷◌, Option, none, some, Result, Error, ok, err, ◌==◌,
  if◌then◌else◌, All, arith, In, Bool-cases, Option-cases, Result-cases, All-In, inl, ◌∙◌, inr,
  subst, sym, ap, ◌<◌, ◌≤◌, ◌+◌, suc, ltb, false,
}
use distributed_vector_searc.Filtering.Index.Flags.{elem, elem-snoc}
use distributed_vector_searc.Client.Write.{report, collect, accept, settle, write_chunk, write_loop}
use distributed_vector_searc.Client.{Coordinator, Calls, refresh}
use distributed_vector_searc.Cluster.Routing.{Batch}

-- The first answer that is a failure.
abbrev pub first_failure : List (ℕ × Result ℕ) → Option Error
first_failure [] = none
first_failure ((shard, ok size) ∷ answers) = first_failure answers
first_failure ((shard, err e) ∷ answers) = some e

collect-failed :
    (answers : List (ℕ × Result ℕ)) (reported : List (ℕ × List ℕ)) (e : Error)
    → (collect answers reported (some e)).1 ≡ some e
unfolding collect
collect-failed [] reported e = refl
collect-failed ((shard, ok size) ∷ answers) reported e =
    collect-failed answers (report shard size reported) e
collect-failed ((shard, err e') ∷ answers) reported e = collect-failed answers reported e

pub collect-first_failure :
    (answers : List (ℕ × Result ℕ)) (reported : List (ℕ × List ℕ))
    → (collect answers reported none).1 ≡ first_failure answers
unfolding collect
collect-first_failure [] reported = refl
collect-first_failure ((shard, ok size) ∷ answers) reported =
    collect-first_failure answers (report shard size reported)
collect-first_failure ((shard, err e) ∷ answers) reported = collect-failed answers reported e

-- The sizes reported of a shard so far.
abbrev pub sizes_of : ℕ → List (ℕ × List ℕ) → List ℕ
sizes_of shard [] = []
sizes_of shard ((other, sizes) ∷ reported) =
    let rest = sizes_of shard reported in if other == shard then sizes else rest

report-elem :
    (shard size : ℕ) (reported : List (ℕ × List ℕ))
    → elem size (sizes_of shard (report shard size reported)) ≡ true
unfolding report
report-elem shard size [] = ground arith
report-elem shard size ((other, sizes) ∷ reported) =
    ground (arith, report-elem shard size reported, elem-snoc size sizes size)

report-keeps :
    (shard size other old : ℕ) (reported : List (ℕ × List ℕ))
    → elem old (sizes_of other reported) ≡ true
    → elem old (sizes_of other (report shard size reported)) ≡ true
unfolding report
report-keeps shard size other old [] h = cc
report-keeps shard size other old ((first, sizes) ∷ reported) h =
    ground (arith, report-keeps shard size other old reported, elem-snoc old sizes size, h)

-- Every answer of a shard that came in so far is among the sizes reported of it.
collect-sizes :
    (answers : List (ℕ × Result ℕ)) (reported : List (ℕ × List ℕ)) (failure : Option Error)
    (shard size : ℕ)
    → elem size (sizes_of shard reported) ≡ true
    → elem size (sizes_of shard (collect answers reported failure).0) ≡ true
unfolding collect
collect-sizes [] reported failure shard size h = h
collect-sizes ((other, ok s) ∷ answers) reported failure shard size h =
    collect-sizes answers (report other s reported) failure shard size
      (report-keeps other s shard size reported h)
collect-sizes ((other, err e) ∷ answers) reported none shard size h =
    collect-sizes answers reported (some e) shard size h
collect-sizes ((other, err e) ∷ answers) reported (some first) shard size h =
    collect-sizes answers reported (some first) shard size h

collect-All :
    (answers : List (ℕ × Result ℕ)) (reported : List (ℕ × List ℕ))
    → first_failure answers ≡ none
    → All
        (λ a.
          (size : ℕ) × (a.1 ≡ ok size)
          × (elem size (sizes_of a.0 (collect answers reported none).0) ≡ true))
        answers
unfolding collect
collect-All [] reported h = tt
collect-All ((shard, err e) ∷ answers) reported h = cc
collect-All ((shard, ok size) ∷ answers) reported h = (
  (
    size,
    refl,
    collect-sizes answers (report shard size reported) none shard size
        (report-elem shard size reported),
  ),
  collect-All answers (report shard size reported) h,
)

-- One size for every shard that was reported.
abbrev pub OneSize : List (ℕ × List ℕ) → Type 0
OneSize reported = All (λ r. (size : ℕ) × (r.1 ≡ size ∷ [])) reported

accept-OneSize :
    (reported : List (ℕ × List ℕ)) (c : Coordinator)
    → (accept reported c).1 ≡ ok tt
    → OneSize reported
unfolding accept
accept-OneSize [] c h = tt
accept-OneSize ((shard, []) ∷ reported) c h = cc
accept-OneSize ((shard, size ∷ []) ∷ reported) c h = ((size, refl), accept-OneSize reported _ h)
accept-OneSize ((shard, size ∷ other ∷ sizes) ∷ reported) c h = cc

one_size :
    (reported : List (ℕ × List ℕ)) (shard a b : ℕ)
    → OneSize reported
    → elem a (sizes_of shard reported) ≡ true
    → elem b (sizes_of shard reported) ≡ true
    → a ≡ b
one_size [] shard a b h k l = cc
one_size ((other, sizes) ∷ reported) shard a b h k l =
    let (size, only) = h.0 in
    elim (Bool-cases (other == shard)) [
      | inl e ↦
          let same_a : elem a (size ∷ []) ≡ true = subst (λ l. elem a l ≡ true) only (rw e at k) in
          let same_b : elem b (size ∷ []) ≡ true = subst (λ l. elem b l ≡ true) only (rw e at l) in
          ground (arith, same_a, same_b)
      | inr e ↦ one_size reported shard a b h.1 (rw e at k) (rw e at l)
    ]

reported-In :
    (answers : List (ℕ × Result ℕ)) (reported : List (ℕ × List ℕ)) (shard a : ℕ)
    → All (λ x. (size : ℕ) × (x.1 ≡ ok size) × (elem size (sizes_of x.0 reported) ≡ true)) answers
    → In (shard, ok a) answers
    → elem a (sizes_of shard reported) ≡ true
reported-In answers reported shard a h i =
    let (size, same, there) = All-In _ answers (shard, ok a) h i in
    let same' : size ≡ a = cc in subst (λ s. elem s (sizes_of shard reported) ≡ true) same' there

-- If a call of a chunk failed, then its answers are settled with the first of the failures, and the
-- coordinator is left as it was except that it knows no shard's position.
pub settle-first_failure :
    (answers : List (ℕ × Result ℕ)) (c : Coordinator) (e : Error)
    → first_failure answers ≡ some e
    → settle answers c ≡ (refresh c, err e)
unfolding settle
settle-first_failure answers c e h = rw (collect-first_failure answers [] ∙ h, settle) refl

-- If a chunk of a write is accepted, then no replica failed, and any two replicas of one shard
-- reported the same size.
pub settle-agrees :
    (answers : List (ℕ × Result ℕ)) (c : Coordinator)
    → (settle answers c).1 ≡ ok tt
    → (first_failure answers ≡ none)
      × ((shard a b : ℕ) → In (shard, ok a) answers → In (shard, ok b) answers → a ≡ b)
unfolding settle
settle-agrees answers c h = elim (Option-cases (first_failure answers)) [
  | inr (e, k) ↦
      let raised : err e ≡ ok tt = ap (λ r. r.1) (sym (settle-first_failure answers c e k)) ∙ h in
      cc
  | inl k ↦
      let reported = (collect answers [] none).0 in
      let sizes =
        accept-OneSize reported c (rw (collect-first_failure answers [] ∙ k, settle) at h) in
      let all_in = collect-All answers [] k in
      (
        k,
        λ shard a b i j.
            one_size reported shard a b sizes (reported-In answers reported shard a all_in i)
              (reported-In answers reported shard b all_in j),
      )
]

module _ {W V D : Type 0} (calls : Calls W V D) where
  pub write_loop-done :
      (fuel longest per_request start : ℕ) (c : Coordinator) (w : W) (batches : List (Batch V))
      → longest ≤ start
      → write_loop calls fuel longest per_request start c w batches ≡ (c, w, ok tt)
  unfolding write_loop
  write_loop-done zero longest per_request start c w batches h =
      let past : ltb start longest ≡ false = ground (arith, h) in rw past refl
  write_loop-done (suc fuel) longest per_request start c w batches h =
      let past : ltb start longest ≡ false = ground (arith, h) in rw (past, write_loop) refl

  -- The loop over the chunks of a write does not depend on its fuel: with a positive chunk size,
  -- any two amounts of fuel that reach the longest batch from the start, at one id for each, give
  -- the same coordinator, the same state of the servers and the same result.
  pub write_loop_fuel :
      (fuel fuel' longest per_request start : ℕ) (c : Coordinator) (w : W)
      (batches : List (Batch V))
      → 0 < per_request
      → longest ≤ start + fuel
      → longest ≤ start + fuel'
      → write_loop calls fuel longest per_request start c w batches
        ≡ write_loop calls fuel' longest per_request start c w batches
  unfolding write_loop
  write_loop_fuel zero fuel' longest per_request start c w batches pos a b =
      write_loop-done zero longest per_request start c w batches (omega (arith, a))
      ∙ sym (write_loop-done fuel' longest per_request start c w batches (omega (arith, a)))
  write_loop_fuel (suc fuel) zero longest per_request start c w batches pos a b =
      write_loop-done (suc fuel) longest per_request start c w batches (omega (arith, b))
      ∙ sym (write_loop-done zero longest per_request start c w batches (omega (arith, b)))
  write_loop_fuel (suc fuel) (suc fuel') longest per_request start c w batches pos a b =
      elim (Bool-cases (ltb start longest)) [
        | inr past ↦
            write_loop-done (suc fuel) longest per_request start c w batches (ground (arith, past))
            ∙ sym (
                write_loop-done (suc fuel') longest per_request start c w batches
                  (ground (arith, past)))
        | inl inside ↦
            let (c', w', result) = write_chunk calls start per_request c w batches in
            let rest =
              write_loop_fuel fuel fuel' longest per_request (start + per_request) c' w' batches pos
                (omega (arith, a, pos)) (omega (arith, b, pos)) in
            elim (Result-cases result) [
              | inl (e, k) ↦ rw (inside, write_loop) (rw k refl)
              | inr (u, k) ↦ rw (inside, write_loop) (rw k rest)
            ]
      ]
