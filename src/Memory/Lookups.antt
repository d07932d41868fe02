-- ===== src/Memory/Lookups.antt =====
-- The lookups of vsearch/memory.py, beside the records that the shards have.
use distributed_vector_searc.Prelude.{
  ℕ, zero, suc, ◌≤◌, ◌≡◌, refl, ap, sym, ◌∙◌, true, List, [], ◌∷◌, ◌++◌, map, Option, none, some,
  Error, ok, length, arith, In, Bool-cases, Option-cases, Result-cases, inl, inr, subst, any, keep,
  concat, Ord,
}
use distributed_vector_searc.Python.Text.{Text, text_eq, text_eq_refl, text_eq→eq}
use distributed_vector_searc.Actions.{Act, ◌>>=◌, ◌>>◌, lift, give, attempt}
use distributed_vector_searc.Actions.Within.{
  Change, Within, >>=-ok, >>=-Within, attempt-Within, >>-Within,
}
use distributed_vector_searc.State.{State, Dataset, shard_addresses}
use distributed_vector_searc.State.Machines.{Machines, read_state}
use distributed_vector_searc.Memory.{
  MemoryHit, is_among, Payload, replaces_of, Where, matches, check_kind, max_lookup,
}
use distributed_vector_searc.Memory.Operations.{
  Store, MemoryStore, checked_state, in_world, embedder_by_name, cached, is_for, search_refused,
  search_records, lookup_records, connect_store,
}

pub is_among-In : (t : Text) (xs : List Text) → is_among t xs ≡ true → In t xs
is_among-In t [] h = cc
is_among-In t (x ∷ xs) h = elim (Bool-cases (text_eq t x)) [
  | inl e ↦ (0, ap some (sym (text_eq→eq t x e)))
  | inr e ↦ let (i, k) = is_among-In t xs (ground (arith, e, h)) in (suc i, k)
]

pub In-is_among : (t : Text) (xs : List Text) → In t xs → is_among t xs ≡ true
In-is_among t [] (i, e) = cc
In-is_among t (x ∷ xs) (zero, e) =
    let same : x ≡ t = cc in
    subst (λ y. is_among t (y ∷ xs) ≡ true) (sym same) (ground (arith, text_eq_refl t))
In-is_among t (x ∷ xs) (suc i, e) = ground (arith, In-is_among t xs (i, e))

In-append_left : (t : Text) (xs ys : List Text) → In t xs → In t (xs ++ ys)
In-append_left t [] ys (i, e) = cc
In-append_left t (x ∷ xs) ys (zero, e) = (0, e)
In-append_left t (x ∷ xs) ys (suc i, e) = let (j, k) = In-append_left t xs ys (i, e) in (suc j, k)

In-append_right : (t : Text) (xs ys : List Text) → In t ys → In t (xs ++ ys)
In-append_right t [] ys i = i
In-append_right t (x ∷ xs) ys i = let (j, k) = In-append_right t xs ys i in (suc j, k)

-- What a record replaces is among what all of them replace.
pub replaced-In :
    {D : Type 0} (t : Text) (r : Payload) (hits : List (MemoryHit D))
    → In r (map (λ hit. hit.payload) hits)
    → In t (replaces_of r)
    → In t (concat (map (λ hit. replaces_of hit.payload) hits))
replaced-In t r [] (i, e) k = cc
replaced-In t r (hit ∷ hits) (zero, e) k =
    let same : r ≡ hit.payload = cc in
    In-append_left t (replaces_of hit.payload) _ (subst (λ p. In t (replaces_of p)) same k)
replaced-In t r (hit ∷ hits) (suc i, e) k =
    In-append_right t (replaces_of hit.payload) _ (replaced-In t r hits (i, e) k)

-- A target that is asked for is found in a record that replaces it.
pub asked_for :
    (t : Text) (targets ids : List Text)
    → In t targets
    → is_among t ids ≡ true
    → any (λ target. is_among target ids) targets ≡ true
asked_for t [] ids (i, e) h = cc
asked_for t (x ∷ targets) ids (zero, e) h = let same : is_among x ids ≡ true = cc in rw same refl
asked_for t (x ∷ targets) ids (suc i, e) h = ground (arith, asked_for t targets ids (i, e) h)

-- What the calls of the coordinator promise of the records of the owner: a search changes none, and finds all
-- that match its filter if they are no more than k; what is added is there afterwards. The other
-- calls change no record.
pub record Truthful {W V D S : Type 0} (records : W → List Payload) (machines : Machines W)
    (store : Store W V D S) : Type 0 where
  pub complete :
      (v : V) (k : ℕ) (wanted : Where) (w : W) (hits : List (MemoryHit D)) (r : Payload)
      → (store.search_hits v k wanted w).1 ≡ ok hits
      → length (keep (matches wanted) (records w)) ≤ k
      → In r (records w)
      → matches wanted r ≡ true
      → In r (map (λ hit. hit.payload) hits)
  pub search_same :
      (v : V) (k : ℕ) (wanted : Where) (w : W)
      → records w ≡ records (store.search_hits v k wanted w).0
  pub read_same : (w : W) → records w ≡ records (machines.read w).0
  pub embedders_same : (name : Text) (w : W) → records w ≡ records (store.embedders name w).0

module _ {W V D S : Type 0} ⦃o : Ord S⦄ (records : W → List Payload) (machines : Machines W)
    (store : Store W V D S) (truthful : Truthful records machines store) where
  abbrev pub c : Change (MemoryStore W V)
  c = record {
    rel = λ s t. records s.world ≡ records t.world;
    same = λ s. refl;
    trans = λ s t u h k. h ∙ k;
  }

  same_records : Change W
  same_records = record {
    rel = λ v w. records v ≡ records w;
    same = λ w. refl;
    trans = λ u v w h k. h ∙ k;
  }

  read_state-Within : Within same_records (read_state machines)
  unfolding same_records read_state
  read_state-Within =
      >>=-Within same_records machines.read _ truthful.read_same
        (elim [ none ↦ λ w. refl | some state ↦ λ w. refl ])

  pub state-Within : Within c (checked_state machines store)
  unfolding checked_state same_records
  state-Within =
      >>=-Within c (in_world (read_state machines)) _ (λ s. read_state-Within s.world)
        (λ state. checked state.dataset state)
    where
      checked :
          (dataset : Option Dataset) (state : State)
          → Within c (elim dataset [
            | none ↦ give state
            | some d ↦ do settings ← lift (check_kind d); give state
          ])
      checked none state = c.same
      checked (some d) state = >>=-Within c (lift _) _ c.same (λ settings. c.same)

  pub connect_store-Within : (state : State) → Within c (connect_store machines store state)
  unfolding connect_store
  connect_store-Within state s = elim (Bool-cases (is_for s.addresses (shard_addresses state))) [
    | inl e ↦ rw e refl
    | inr e ↦ rw e refl
  ]

  pub embedder-Within : (name : Text) → Within c (embedder_by_name machines store name)
  unfolding embedder_by_name
  embedder-Within name s = elim (Option-cases (cached name s.embedder_cache)) [
    | inr (embedder, e) ↦ rw (e, embedder_by_name) refl
    | inl e ↦
        let step = truthful.embedders_same name s.world in
        elim (Result-cases (store.embedders name s.world).1) [
          | inl (raised, h) ↦ rw (e, h, embedder_by_name) step
          | inr (embedder, h) ↦ rw (e, h, embedder_by_name) step
        ]
  ]

  search_refused-Within : (e : Error) → Within c (search_refused machines store e)
  unfolding search_refused
  search_refused-Within = elim [ Error.shard_unavailable shards ↦ c.same | _ ↦ c.same ]

  pub search_records-Within :
      (v : V) (k : ℕ) (wanted : Where) → Within c (search_records machines store v k wanted)
  unfolding search_records
  search_records-Within v k wanted =
      attempt-Within c (in_world (store.search_hits v k wanted)) _
        (λ s. truthful.search_same v k wanted s.world) search_refused-Within

  -- A search that returns is one of the coordinator.
  pub search_records-ok :
      (v : V) (k : ℕ) (wanted : Where) (s : MemoryStore W V) (hits : List (MemoryHit D))
      → (search_records machines store v k wanted s).1 ≡ ok hits
      → (store.search_hits v k wanted s.world).1 ≡ ok hits
  unfolding search_records attempt search_refused
  search_records-ok v k wanted s hits h =
      elim (Result-cases (store.search_hits v k wanted s.world).1) [
        | inr (found, e) ↦ let same : ok found ≡ ok hits = rw e at h in e ∙ same
        | inl (raised, e) ↦ absurd (refused raised _ (rw e at h))
      ]
    where
      refused :
          (e : Error) (t : MemoryStore W V) → (search_refused machines store e t).1 ≡ ok hits → ⊥
      refused = elim [ Error.shard_unavailable shards ↦ λ t k. cc | _ ↦ λ t k. cc ]

  -- What follows a connection that is there or is made.
  pub after_connection :
      {A : Type 0} (state : State) (s : MemoryStore W V) (next : Act (MemoryStore W V) A) (a : A)
      → ((connect_store machines store state >> next) s).1 ≡ ok a
      → (t : MemoryStore W V) × (records s.world ≡ records t.world) × ((next t).1 ≡ ok a)
  unfolding connect_store ◌>>◌
  after_connection state s next a h =
      elim (Bool-cases (is_for s.addresses (shard_addresses state))) [
        | inl e ↦ (s, refl, rw (e, connect_store) at h)
        | inr e ↦ (
          record s { addresses = some (shard_addresses state) },
          refl,
          rw (e, connect_store) at h,
        )
      ]

  pub lookup_records-Within :
      (dataset : Option Dataset) (state : State) (wanted : Where)
      → Within c (lookup_records machines store dataset state wanted)
  unfolding lookup_records
  lookup_records-Within none state wanted = c.same
  lookup_records-Within (some dataset) state wanted =
      >>=-Within c (lift (check_kind dataset)) _ c.same (λ settings.
        >>-Within c _ _ (connect_store-Within state)
          (search_records-Within (store.ones settings.1) max_lookup wanted))

  -- A lookup in a cluster that holds memories finds every record that matches.
  pub lookup_records-complete :
      (dataset : Dataset) (state : State) (wanted : Where) (s : MemoryStore W V)
      (hits : List (MemoryHit D)) (r : Payload)
      → (lookup_records machines store (some dataset) state wanted s).1 ≡ ok hits
      → length (keep (matches wanted) (records s.world)) ≤ max_lookup
      → In r (records s.world)
      → matches wanted r ≡ true
      → In r (map (λ hit. hit.payload) hits)
  unfolding lookup_records
  lookup_records-complete dataset state wanted s hits r h few there fits =
      let (settings, kind, h') = >>=-ok (lift (check_kind dataset)) _ s hits h in
      let (t, same, found) = after_connection state s _ hits h' in
      let moved : records s.world ≡ records t.world = same in
      truthful.complete _ max_lookup wanted t.world hits r
        (search_records-ok _ max_lookup wanted t hits found)
        (subst (λ rs. length (keep (matches wanted) rs) ≤ max_lookup) moved few)
        (subst (In r) moved there) fits
