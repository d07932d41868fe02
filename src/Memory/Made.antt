-- ===== src/Memory/Made.antt =====
-- Predicates on the memories that `recall` of vsearch/memory.py makes of hits, and on their order.
use distributed_vector_searc.Prelude.{
  ℕ, ◌≡◌, sym, false, List, [], ◌∷◌, Error, ok, err, All, Bool-cases, Result-cases, inl, inr, subst,
  Ord, ◌≼?◌,
}
use distributed_vector_searc.Python.Text.{Text}
use distributed_vector_searc.State.Machines.{Machines}
use distributed_vector_searc.Memory.{
  MemoryHit, Memory, insert_scored, sorted_by_score, id_of, is_among, Payload, forgotten, fact,
}
use distributed_vector_searc.Memory.Operations.{Store}
use distributed_vector_searc.Memory.Recall.{memory_of, memories_of}

insert_scored-All :
    {S : Type 0} ⦃o : Ord S⦄ (P : Memory S → Type 0) (m : Memory S) (ms : List (Memory S))
    → P m
    → All P ms
    → All P (insert_scored m ms)
unfolding insert_scored
insert_scored-All P m [] h k = (h, tt)
insert_scored-All P m (n ∷ ms) h k = elim (Bool-cases (n.score ≼? m.score)) [
  | inl e ↦ rw e (h, k)
  | inr e ↦ rw e (k.0, insert_scored-All P m ms h k.1)
]

pub sorted_by_score-All :
    {S : Type 0} ⦃o : Ord S⦄ (P : Memory S → Type 0) (ms : List (Memory S))
    → All P ms
    → All P (sorted_by_score ms)
unfolding sorted_by_score
sorted_by_score-All P [] h = tt
sorted_by_score-All P (m ∷ ms) h = insert_scored-All P m _ h.0 (sorted_by_score-All P ms h.1)

module _ {W V D S : Type 0} ⦃o : Ord S⦄ (machines : Machines W) (store : Store W V D S) where
  memory_of-id :
      (now : ℕ) (hit : MemoryHit D) (m : Memory S)
      → memory_of machines store now hit ≡ ok m
      → m.id ≡ id_of hit.payload
  unfolding memory_of
  memory_of-id now hit m h = same hit.payload h
    where
      same :
          (p : Payload)
          → (elim p [
            | forgotten memory_id created replaces ↦ err Error.key_error
            | fact memory_id text tags created replaces ↦ ok (record {
              id = memory_id;
              text = text;
              tags = tags;
              created = created;
              similarity = store.similarity hit.distance;
              score = store.score hit.distance now created;
            })
          ])
            ≡ ok m
          → m.id ≡ id_of p
      same (forgotten memory_id created replaces) k = cc
      same (fact memory_id text tags created replaces) k = cc

  -- What holds of the id of every hit that is not gone holds of every memory.
  pub memories_of-All :
      (P : Text → Type 0) (gone : List Text) (now : ℕ) (hits : List (MemoryHit D))
      (ms : List (Memory S))
      → All (λ hit. is_among (id_of hit.payload) gone ≡ false → P (id_of hit.payload)) hits
      → memories_of machines store gone now hits ≡ ok ms
      → All (λ m. P m.id) ms
  unfolding memories_of
  memories_of-All P gone now [] ms g h =
      let same : ms ≡ [] = cc in subst (All (λ m. P m.id)) (sym same) tt
  memories_of-All P gone now (hit ∷ hits) ms g h =
      elim (Bool-cases (is_among (id_of hit.payload) gone)) [
        | inl e ↦ memories_of-All P gone now hits ms g.1 (rw (e, memories_of) at h)
        | inr e ↦ elim (Result-cases (memory_of machines store now hit)) [
          | inl (raised, f) ↦ absurd (refused raised (rw (e, f, memories_of) at h))
          | inr (m, f) ↦ elim (Result-cases (memories_of machines store gone now hits)) [
            | inl (raised, l) ↦ absurd (refused raised (rw (e, f, l, memories_of) at h))
            | inr (rest, l) ↦
                let same : ok (m ∷ rest) ≡ ok ms = rw (e, f, l, memories_of) at h in
                let shape : ms ≡ m ∷ rest = cc in
                subst (All (λ m. P m.id)) (sym shape) (
                  subst P (sym (memory_of-id now hit m f)) (g.0 e),
                  memories_of-All P gone now hits rest g.1 l,
                )
          ]
        ]
      ]
    where
      refused : (e : Error) → err e ≡ ok ms → ⊥
      refused e k = cc
