-- ===== src/Client/Write/Chunk.antt =====
-- How one chunk of a write of `GrpcCoordinator` ends.
use distributed_vector_searc.Prelude.{
  map, ℕ, ◌≡◌, refl, ap, sym, ◌∙◌, subst, List, [], length, replicate, none, some, Result, Error,
  ok, err, Option-cases, Result-cases, inl, inr, ◌⊎◌,
}
use distributed_vector_searc.Cluster.Routing.{Batch}
use distributed_vector_searc.Client.{unknown, Coordinator, Calls, refresh}
use distributed_vector_searc.Client.Write.{collect, accept, settle, write_chunk}
use distributed_vector_searc.Client.Write.Settled.{
  first_failure, settle-first_failure, collect-first_failure,
}
use distributed_vector_searc.Client.Write.Sent.{
  asked, due, first_error, IsOwn, first_failure-first_error, IsKept, accept-IsKept, accept-IsOwn,
  AddCall, answers_of, Sent, Answered, send_chunk-Answered,
}

module _ {W V D : Type 0} (calls : Calls W V D) where
  -- A write that stopped with an error of the coordinator's own.
  pub record Stopped (out : Coordinator × W × Result (Unit {0})) : Type 0 where
    pub e : Error
    pub raises : out.2 ≡ err e
    pub own : IsOwn e

  -- The calls of one chunk.
  pub record Asked (c : Coordinator) (per_request start : ℕ) (batches : List (Batch V))
      (w after : W) : Type 0 where
    pub sent : List (AddCall V)
    pub leads : Sent calls w sent after
    pub requested : map asked sent ≡ due c.replicas start per_request 0 batches

  pub record ChunkDone (c : Coordinator) (per_request start : ℕ) (batches : List (Batch V)) (w : W)
      (out : Coordinator × W × Result (Unit {0})) : Type 0 where
    pub made : Asked c per_request start batches w out.1
    pub returns : out.2 ≡ ok tt
    pub no_error : first_error (answers_of made.sent) ≡ none
    pub kept : IsKept c out.0

  pub record ChunkFailed (c : Coordinator) (per_request start : ℕ) (batches : List (Batch V))
      (w : W) (out : Coordinator × W × Result (Unit {0})) : Type 0 where
    pub e : Error
    pub made : Asked c per_request start batches w out.1
    pub raises : out.2 ≡ err e
    pub failed : first_error (answers_of made.sent) ≡ some e
    pub forgotten : out.0.last_seqs ≡ replicate (length c.replicas) unknown
    pub kept : IsKept c out.0

  abbrev pub ChunkOutcome :
      Coordinator → ℕ → ℕ → List (Batch V) → W → Coordinator × W × Result (Unit {0}) → Type 0
  ChunkOutcome c per_request start batches w out =
      ChunkDone c per_request start batches w out
      ⊎ ChunkFailed c per_request start batches w out
      ⊎ Stopped out

  settled-ChunkOutcome :
      (c : Coordinator) (per_request start : ℕ) (batches : List (Batch V)) (w w' : W)
      (answers : List (ℕ × Result ℕ))
      → Answered calls w w' answers (due c.replicas start per_request 0 batches)
      → ChunkOutcome c per_request start batches w ((settle answers c).0, w', (settle answers c).1)
  unfolding settle refresh
  settled-ChunkOutcome c per_request start batches w w' answers a =
      let made : Asked c per_request start batches w w' = record {
        sent = a.sent;
        leads = a.leads;
        requested = a.requested;
      } in
      elim (Option-cases (first_failure answers)) [
        | inr (e, k) ↦
            let settled = settle-first_failure answers c e k in
            subst (λ r. ChunkOutcome c per_request start batches w (r.0, w', r.1)) (sym settled)
              (inr (
                inl (record {
                  e = e;
                  made = made;
                  raises = refl;
                  failed = ap first_error a.same ∙ sym (first_failure-first_error answers) ∙ k;
                  forgotten = refl;
                  kept = record { replicas = refl; size = refl };
                })))
        | inl k ↦
            let reported = (collect answers [] none).0 in
            let settled : settle answers c ≡ accept reported c =
              rw (collect-first_failure answers [] ∙ k, settle) refl in
            subst (λ r. ChunkOutcome c per_request start batches w (r.0, w', r.1)) (sym settled)
              (elim (Result-cases (accept reported c).1) [
                | inl (e, f) ↦
                    inr (inr (record { e = e; raises = f; own = accept-IsOwn reported c e f }))
                | inr (u, f) ↦ inl (record {
                  made = made;
                  returns = f;
                  no_error = ap first_error a.same ∙ sym (first_failure-first_error answers) ∙ k;
                  kept = accept-IsKept reported c;
                })
              ])
      ]

  pub write_chunk-ChunkOutcome :
      (start per_request : ℕ) (c : Coordinator) (w : W) (batches : List (Batch V))
      → ChunkOutcome c per_request start batches w (write_chunk calls start per_request c w batches)
  unfolding write_chunk
  write_chunk-ChunkOutcome start per_request c w batches =
      elim (send_chunk-Answered calls start per_request c w 0 batches
        (due c.replicas start per_request 0 batches) refl) [
          | inl (answers, k, a) ↦
              rw (k, write_chunk) (settled-ChunkOutcome c per_request start batches w _ answers a)
          | inr (e, k, own) ↦
              rw (k, write_chunk) (inr (inr (record { e = e; raises = refl; own = own })))
        ]
