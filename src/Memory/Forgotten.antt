-- ===== src/Memory/Forgotten.antt =====
-- `recall` of vsearch/memory.py, beside records that name an id as replaced or forgotten.
use distributed_vector_searc.Prelude.{
  none, some, zero, suc, ◌*◌, take, ℕ, ◌≡◌, ◌≢◌, Bool, true, false, List, [], ◌∷◌, map, ok, All,
  subst, Ord, In, suc, length, keep, ◌≤◌, some, All-of, concat, In-keep, Option, ◌∙◌, All-take,
  refl,
}
use distributed_vector_searc.Python.Text.{Text}
use distributed_vector_searc.State.Machines.{Machines}
use distributed_vector_searc.Memory.{
  candidates, MemoryHit, Memory, sorted_by_score, id_of, is_among, Payload, replaces_of, matches,
  replacing, max_lookup, check_kind,
}
use distributed_vector_searc.Memory.Operations.{
  Store, replaced, MemoryStore, lookup_records, embedder_by_name, search_records, where_of,
  checked_state,
}
use distributed_vector_searc.Memory.Recall.{memories_of, recall_from, recall}
use distributed_vector_searc.Memory.Lookups.{
  Truthful, In-is_among, lookup_records-complete, asked_for, is_among-In, replaced-In,
  after_connection, embedder-Within, search_records-Within, state-Within,
}
use distributed_vector_searc.State.{State, Dataset}
use distributed_vector_searc.Actions.Within.{>>=-ok}
use distributed_vector_searc.Actions.{give, lift, Act}
use distributed_vector_searc.Memory.Made.{sorted_by_score-All, memories_of-All}

-- No memory of the list has the id.
abbrev Without : {S : Type 0} → Text → List (Memory S) → Type 0
Without id memories = All (λ m. m.id ≢ id) memories

ok_value : {A : Type 0} {a b : A} → ok a ≡ ok b → a ≡ b
ok_value h = cc

In-names :
    {D : Type 0} (hit : MemoryHit D) (hits : List (MemoryHit D))
    → In hit hits
    → In (id_of hit.payload) (map (λ h. id_of h.payload) hits)
In-names hit [] (i, e) = cc
In-names hit (h ∷ hits) (zero, e) = (0, cc)
In-names hit (h ∷ hits) (suc i, e) = let (j, k) = In-names hit hits (i, e) in (suc j, k)

module _ {W V D S : Type 0} ⦃o : Ord S⦄ (records : W → List Payload) (machines : Machines W)
    (store : Store W V D S) (truthful : Truthful records machines store) (id : Text) (r : Payload)
    (targets : is_among id (replaces_of r) ≡ true) where
  -- The records that replace some ids are no more than a lookup returns.
  abbrev pub IsSmall : W → Type 0
  IsSmall w = (ids : List Text) → length (keep (matches (replacing ids)) (records w)) ≤ max_lookup

  -- An id that a record replaces is found to be replaced.
  replaced-has :
      (state : State) (dataset : Dataset) (ids : List Text) (s : MemoryStore W V) (gone : List Text)
      → state.dataset ≡ some dataset
      → (replaced machines store state ids s).1 ≡ ok gone
      → IsSmall s.world
      → In r (records s.world)
      → is_among id ids ≡ true
      → is_among id gone ≡ true
  unfolding replaced matches
  replaced-has state dataset [] s gone d h small there asked = cc
  replaced-has state dataset (i ∷ ids) s gone d h small there asked =
      let (hits, found, h') =
        >>=-ok (lookup_records machines store state.dataset state (replacing (i ∷ ids))) _ s gone
          h in
      let looked : (lookup_records machines store (some dataset) state (replacing (i ∷ ids)) s).1
          ≡ ok hits =
        subst (λ x. (lookup_records machines store x state (replacing (i ∷ ids)) s).1 ≡ ok hits) d
          found in
      let names = concat (map (λ hit. replaces_of hit.payload) hits) in
      let hit =
        lookup_records-complete records machines store truthful dataset state (replacing (i ∷ ids))
          s hits r looked (small (i ∷ ids)) there
          (asked_for id (replaces_of r) (i ∷ ids) (is_among-In id (replaces_of r) targets) asked) in
      let named = replaced-In id r hits hit (is_among-In id (replaces_of r) targets) in
      let listed = In-keep (λ t. is_among t (i ∷ ids)) names id named asked in
      let same : keep (λ t. is_among t (i ∷ ids)) names ≡ gone = cc in
      subst (λ g. is_among id g ≡ true) same (In-is_among id _ listed)

  -- The memories that are made of hits, once it is known which are gone.
  recalled-Without :
      (state : State) (dataset : Dataset) (hits : List (MemoryHit D)) (gone : List Text) (now : ℕ)
      (ms : List (Memory S)) (s : MemoryStore W V)
      → state.dataset ≡ some dataset
      → (replaced machines store state (map (λ hit. id_of hit.payload) hits) s).1 ≡ ok gone
      → IsSmall s.world
      → In r (records s.world)
      → memories_of machines store gone now hits ≡ ok ms
      → Without id ms
  recalled-Without state dataset hits gone now ms s d h small there made =
      let names = map (λ hit. id_of hit.payload) hits in
      memories_of-All machines store (λ t. t ≢ id) gone now hits ms
        (All-of _ hits (λ hit i kept same.
          let asked : is_among id names ≡ true =
            subst (λ t. is_among t names ≡ true) same
              (In-is_among (id_of hit.payload) names (In-names hit hits i)) in
          clash (replaced-has state dataset names s gone d h small there asked)
            (subst (λ t. is_among t gone ≡ false) same kept)))
        made
    where
      clash : {b : Bool} → b ≡ true → b ≡ false → ⊥
      clash a b = cc

  recall_from-Without :
      (state : State) (dataset : Dataset) (query : Text) (k : ℕ) (tags : Option (List Text))
      (s : MemoryStore W V) (memories : List (Memory S))
      → state.dataset ≡ some dataset
      → (recall_from machines store state dataset query k tags s).1 ≡ ok memories
      → IsSmall s.world
      → In r (records s.world)
      → Without id memories
  unfolding recall_from
  recall_from-Without state dataset query k tags s memories d h small there =
      let (settings, kind, h1) = >>=-ok (lift (check_kind dataset)) _ s memories h in
      let named = embedder_by_name machines store settings.0 in
      let (embedder, made, h2) = >>=-ok named _ s memories h1 in
      let s1 = (named s).0 in
      let (t, same1, h3) =
        after_connection records machines store truthful state s1 _ memories h2 in
      let look =
        search_records machines store (embedder.embed_query query) (k * candidates)
          (where_of tags) in
      let (hits, found, h4) = >>=-ok look _ t memories h3 in
      let s3 = (look t).0 in
      let names = map (λ hit. id_of hit.payload) hits in
      let (gone, lost, h5) = >>=-ok (replaced machines store state names) _ s3 memories h4 in
      let (now, timed, h6) = >>=-ok _ _ _ memories h5 in
      let (ms, listed, h7) =
        >>=-ok (lift (memories_of machines store gone now hits)) _ _ memories h6 in
      let moved : records s.world ≡ records s3.world =
        embedder-Within records machines store truthful settings.0 s
        ∙ same1
        ∙ search_records-Within records machines store truthful (embedder.embed_query query)
            (k * candidates) (where_of tags) t in
      let all =
        recalled-Without state dataset hits gone now ms s3 d lost
          (λ ids.
            subst (λ rs. length (keep (matches (replacing ids)) rs) ≤ max_lookup) moved (small ids))
          (subst (In r) moved there) listed in
      let same : take k (sorted_by_score ms) ≡ memories = ok_value h7 in
      subst (Without id) same
        (All-take _ k (sorted_by_score ms) (sorted_by_score-All (λ m. m.id ≢ id) ms all))

  recall_of-Without :
      (state : State) (dataset : Option Dataset) (query : Text) (k : ℕ) (tags : Option (List Text))
      (s : MemoryStore W V) (memories : List (Memory S))
      → state.dataset ≡ dataset
      → (elim dataset as (λ x. Act (MemoryStore W V) (List (Memory S))) [
        | none ↦ give []
        | some d ↦ recall_from machines store state d query k tags
      ]
          s).1
        ≡ ok memories
      → IsSmall s.world
      → In r (records s.world)
      → Without id memories
  recall_of-Without state none query k tags s memories d h small there =
      subst (Without id) (ok_value h) tt
  recall_of-Without state (some dataset) query k tags s memories d h small there =
      recall_from-Without state dataset query k tags s memories d h small there

  -- Let the coordinator's searches change no record of the owner and return every record that
  -- matches a filter, if those are no more than they may return, let no other call of a recall
  -- change a record, and let no lookup ask for more replacing records than it may return. If a
  -- record that stands there names an id as replaced or forgotten, then a recall that returns has
  -- no memory with this id, for any query, k and tags.
  pub recall-Without :
      (query : Text) (k : ℕ) (tags : Option (List Text)) (s : MemoryStore W V)
      (memories : List (Memory S))
      → IsSmall s.world
      → In r (records s.world)
      → (recall machines store query k tags s).1 ≡ ok memories
      → Without id memories
  unfolding recall
  recall-Without query k tags s memories small there h =
      let (state, read, h') = >>=-ok (checked_state machines store) _ s memories h in
      let t = (checked_state machines store s).0 in
      let moved : records s.world ≡ records t.world =
        state-Within records machines store truthful s in
      recall_of-Without state state.dataset query k tags t memories refl h'
        (λ ids.
          subst (λ rs. length (keep (matches (replacing ids)) rs) ≤ max_lookup) moved (small ids))
        (subst (In r) moved there)
