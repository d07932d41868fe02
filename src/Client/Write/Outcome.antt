-- ===== src/Client/Write/Outcome.antt =====
-- How a write of `GrpcCoordinator` ends.
use mathlib.Core.List.{map-append}
use distributed_vector_searc.Prelude.{
  ◌*◌, map, ℕ, append-nil, zero, suc, ◌+◌, ◌≤◌, ◌<◌, ◌≡◌, refl, ap, sym, ◌∙◌, subst, arith, List,
  [], ◌∷◌, ◌++◌, length, replicate, Option, none, some, Result, Error, ok, err, ◌>>=◌, >>=-eq-ok,
  ltb, Bool-cases, Result-cases, inl, inr, ◌⊎◌,
}
use distributed_vector_searc.Python.Text.{Text}
use distributed_vector_searc.Python.Json.{Json, Fields}
use distributed_vector_searc.Cluster.Routing.{Batch}
use distributed_vector_searc.Cluster.Namespace.{tag_namespace, encode_payloads}
use distributed_vector_searc.Client.{unknown, Coordinator, Calls, check_shards}
use distributed_vector_searc.Client.Write.{
  write_chunk, write_loop, write_batches, prepared, add, longest_batch, largest_payload, chunk_size,
  batches_for,
}
use distributed_vector_searc.Client.Write.Settled.{write_loop-done}
use distributed_vector_searc.Client.Write.Sent.{
  asked, due, due_chunks, first_error, first_error-append, IsKept, kept_twice, AddCall, answers_of,
  Sent, Sent-append,
}
use distributed_vector_searc.Client.Write.Chunk.{
  Stopped, Asked, ChunkDone, ChunkFailed, write_chunk-ChunkOutcome,
}

chunk_size-pos :
    (row_bytes largest per_request : ℕ)
    → chunk_size row_bytes largest ≡ ok per_request
    → 0 < per_request
unfolding chunk_size
chunk_size-pos row_bytes largest per_request h = ground (arith, h)

module _ {W V D : Type 0} (calls : Calls W V D) where
  -- The chunks of a write that were sent, from a start on: all that they have to ask was asked, in order.
  pub record Chunks (c : Coordinator) (per_request start : ℕ) (batches : List (Batch V))
      (w after : W) : Type 0 where
    pub sent : List (AddCall V)
    pub leads : Sent calls w sent after
    pub chunks : ℕ
    pub requested : map asked sent ≡ due_chunks c.replicas per_request batches start chunks

  -- A write that returned: every chunk up to the longest batch was sent, and no call answered with an error.
  pub record Acknowledged (c : Coordinator) (per_request start longest : ℕ)
      (batches : List (Batch V)) (w : W) (out : Coordinator × W × Result (Unit {0})) : Type 0 where
    pub calls_made : Chunks c per_request start batches w out.1
    pub returns : out.2 ≡ ok tt
    pub complete : longest ≤ start + calls_made.chunks * per_request
    pub no_error : first_error (answers_of calls_made.sent) ≡ none
    pub kept : IsKept c out.0

  -- A write that a replica failed: it raises the first error of its calls, and knows no position.
  pub record Failed (c : Coordinator) (per_request start : ℕ) (batches : List (Batch V)) (w : W)
      (out : Coordinator × W × Result (Unit {0})) : Type 0 where
    pub e : Error
    pub calls_made : Chunks c per_request start batches w out.1
    pub raises : out.2 ≡ err e
    pub failed : first_error (answers_of calls_made.sent) ≡ some e
    pub forgotten : out.0.last_seqs ≡ replicate (length c.replicas) unknown
    pub kept : IsKept c out.0

  abbrev pub Outcome :
      Coordinator → ℕ → ℕ → ℕ → List (Batch V) → W → Coordinator × W × Result (Unit {0}) → Type 0
  Outcome c per_request start longest batches w out =
      Acknowledged c per_request start longest batches w out
      ⊎ Failed c per_request start batches w out
      ⊎ Stopped calls out

  abbrev one_chunk :
      (c : Coordinator) (per_request start : ℕ) (batches : List (Batch V)) (w after : W)
      → Asked calls c per_request start batches w after
      → Chunks c per_request start batches w after
  one_chunk c per_request start batches w after a = record {
    sent = a.sent;
    leads = a.leads;
    chunks = 1;
    requested = a.requested ∙ sym (append-nil (due c.replicas start per_request 0 batches));
  }

  -- A chunk, and the chunks after it.
  abbrev more_chunks :
      (c c' : Coordinator) (per_request start : ℕ) (batches : List (Batch V)) (w w' after : W)
      → Asked calls c per_request start batches w w'
      → c'.replicas ≡ c.replicas
      → Chunks c' per_request (start + per_request) batches w' after
      → Chunks c per_request start batches w after
  more_chunks c c' per_request start batches w w' after a same b =
      let rest = due_chunks c.replicas per_request batches (start + per_request) b.chunks in
      record {
        sent = a.sent ++ b.sent;
        leads = Sent-append calls w w' after a.sent b.sent a.leads b.leads;
        chunks = suc b.chunks;
        requested =
            map-append asked a.sent b.sent
            ∙ ap (λ zs. zs ++ map asked b.sent) a.requested
            ∙ ap (◌++◌ (due c.replicas start per_request 0 batches)) (
                b.requested
                ∙ ap (λ g. due_chunks g per_request batches (start + per_request) b.chunks) same);
      }

  both_errors :
      (xs ys : List (AddCall V)) (result : Option Error)
      → first_error (answers_of xs) ≡ none
      → first_error (answers_of ys) ≡ result
      → first_error (answers_of (xs ++ ys)) ≡ result
  both_errors xs ys result h k =
      ap first_error (map-append (λ s. s.answer) xs ys)
      ∙ first_error-append (answers_of xs) (answers_of ys) h
      ∙ k

  -- A chunk that was acknowledged, and what the rest of the write comes to.
  chunk-Outcome :
      (c : Coordinator) (per_request start longest : ℕ) (batches : List (Batch V)) (w : W)
      (first out : Coordinator × W × Result (Unit {0}))
      → ChunkDone calls c per_request start batches w first
      → Outcome first.0 per_request (start + per_request) longest batches first.1 out
      → Outcome c per_request start longest batches w out
  chunk-Outcome c per_request start longest batches w first out a (inl b) = inl (record {
    calls_made =
        more_chunks c first.0 per_request start batches w first.1 out.1 a.made a.kept.replicas
          b.calls_made;
    returns = b.returns;
    complete = omega (arith, b.complete);
    no_error = both_errors a.made.sent b.calls_made.sent none a.no_error b.no_error;
    kept = kept_twice c first.0 out.0 a.kept b.kept;
  })
  chunk-Outcome c per_request start longest batches w first out a (inr (inl b)) = inr (
      inl (record {
        e = b.e;
        calls_made =
            more_chunks c first.0 per_request start batches w first.1 out.1 a.made a.kept.replicas
              b.calls_made;
        raises = b.raises;
        failed = both_errors a.made.sent b.calls_made.sent (some b.e) a.no_error b.failed;
        forgotten = b.forgotten ∙ ap (λ groups. replicate (length groups) unknown) a.kept.replicas;
        kept = kept_twice c first.0 out.0 a.kept b.kept;
      }))
  chunk-Outcome c per_request start longest batches w first out a (inr (inr b)) = inr (inr b)

  -- A write that has nothing more to send.
  idle-Outcome :
      (c : Coordinator) (per_request start longest : ℕ) (batches : List (Batch V)) (w : W)
      → longest ≤ start
      → Outcome c per_request start longest batches w (c, w, ok tt)
  idle-Outcome c per_request start longest batches w h = inl (record {
    calls_made = record { sent = []; leads = refl; chunks = 0; requested = refl };
    returns = refl;
    complete = omega (arith, h);
    no_error = refl;
    kept = record { replicas = refl; size = refl };
  })

  stopped-Outcome :
      (c : Coordinator) (per_request start longest : ℕ) (batches : List (Batch V)) (w : W)
      (first after : Coordinator × W × Result (Unit {0}))
      → ChunkFailed calls c per_request start batches w first ⊎ Stopped calls first
      → ((e : Error) → first.2 ≡ err e → after ≡ (first.0, first.1, err e))
      → Outcome c per_request start longest batches w after
  stopped-Outcome c per_request start longest batches w first after (inl b) same =
      subst (Outcome c per_request start longest batches w)
        (ap (λ r. (first.0, first.1, r)) b.raises ∙ sym (same b.e b.raises))
        (inr (
          inl (record {
            e = b.e;
            calls_made = one_chunk c per_request start batches w first.1 b.made;
            raises = b.raises;
            failed = b.failed;
            forgotten = b.forgotten;
            kept = b.kept;
          })))
  stopped-Outcome c per_request start longest batches w first after (inr b) same =
      subst (Outcome c per_request start longest batches w)
        (ap (λ r. (first.0, first.1, r)) b.raises ∙ sym (same b.e b.raises)) (inr (inr b))

  write_loop-Outcome :
      (fuel longest per_request start : ℕ) (c : Coordinator) (w : W) (batches : List (Batch V))
      → 0 < per_request
      → longest ≤ start + fuel
      → Outcome c per_request start longest batches w
          (write_loop calls fuel longest per_request start c w batches)
  unfolding write_loop
  write_loop-Outcome zero longest per_request start c w batches pos enough =
      subst (Outcome c per_request start longest batches w)
        (sym (
          write_loop-done calls zero longest per_request start c w batches (omega (arith, enough))))
        (idle-Outcome c per_request start longest batches w (omega (arith, enough)))
  write_loop-Outcome (suc fuel) longest per_request start c w batches pos enough =
      let first = write_chunk calls start per_request c w batches in
      let chunk = write_chunk-ChunkOutcome calls start per_request c w batches in
      let rest =
        write_loop-Outcome fuel longest per_request (start + per_request) first.0 first.1 batches
          pos (omega (arith, pos, enough)) in
      elim (Bool-cases (ltb start longest)) [
        | inr past ↦
            subst (Outcome c per_request start longest batches w)
              (sym (
                write_loop-done calls (suc fuel) longest per_request start c w batches
                  (ground (arith, past))))
              (idle-Outcome c per_request start longest batches w (ground (arith, past)))
        | inl inside ↦ elim chunk [
          | inl a ↦
              rw (inside, write_loop)
                (rw (a.returns, write_loop)
                  (chunk-Outcome c per_request start longest batches w first _ a rest))
          | inr b ↦
              stopped-Outcome c per_request start longest batches w first _ b
                (λ e h. rw (inside, write_loop) (rw (h, write_loop) refl))
        ]
      ]

  -- The size of a coordinator after a write of some vectors.
  abbrev pub grown : Coordinator → ℕ → Coordinator
  grown c count = record c { size = c.size + count }

  write_batches-Outcome :
      (c : Coordinator) (w : W) (count per_request : ℕ) (batches : List (Batch V))
      → 0 < per_request
      → Outcome
          (grown c count)
          per_request
          0
          (longest_batch calls batches)
          batches
          w
          (write_batches calls c w count per_request batches)
  unfolding write_batches
  write_batches-Outcome c w count per_request [] pos =
      inr (inr (record { e = Error.value_error; raises = refl; own = tt }))
  write_batches-Outcome c w count per_request (first ∷ others) pos =
      let longest = longest_batch calls (first ∷ others) in
      write_loop-Outcome longest longest per_request 0 (grown c count) w (first ∷ others) pos
        (omega arith)

  prepared-pos :
      (row_bytes : ℕ) (c : Coordinator) (vectors : List V) (encoded : List Text)
      (namespace : Option Text) (per_request : ℕ) (batches : List (Batch V))
      → prepared calls row_bytes c vectors encoded namespace ≡ ok (per_request, batches)
      → 0 < per_request
  unfolding prepared
  prepared-pos row_bytes c vectors encoded namespace per_request batches h =
      let (largest, a, h1) = >>=-eq-ok (largest_payload encoded) _ h in
      let (size, b, h2) = >>=-eq-ok (chunk_size row_bytes largest) _ h1 in
      let (made, d, h3) = >>=-eq-ok (batches_for calls c vectors encoded namespace) _ h2 in
      let same : size ≡ per_request = cc in
      subst (λ n. 0 < n) same (chunk_size-pos row_bytes largest size b)

  -- A write that raised before it sent a vector: no call changed the servers but those of the check.
  pub record Unsent (c : Coordinator) (w : W) (out : Coordinator × W × Result (Unit {0}))
      : Type 0 where
    pub e : Error
    pub raises : out.2 ≡ err e
    pub unsent : (out.1 ≡ w) ⊎ (out.1 ≡ (check_shards calls c w).1)

  -- A write whose vectors are sent, after the check of the shards, by a coordinator that counts them.
  pub record Ended (dumps : Json → Text) (row_bytes : ℕ) (vectors : List V)
      (payloads : Option (List (Option Fields))) (namespace : Option Text) (c : Coordinator) (w : W)
      (out : Coordinator × W × Result (Unit {0})) : Type 0 where
    pub encoded : List Text
    pub texts :
        (tag_namespace payloads (length vectors) namespace >>= λ tagged.
        encode_payloads dumps tagged (length vectors))
        ≡ ok encoded
    pub checked : (check_shards calls c w).2 ≡ ok tt
    pub per_request : ℕ
    pub batches : List (Batch V)
    pub plan :
        prepared calls row_bytes (check_shards calls c w).0 vectors encoded namespace
        ≡ ok (per_request, batches)
    pub outcome :
        Outcome
          (grown (check_shards calls c w).0 (length vectors))
          per_request
          0
          (longest_batch calls batches)
          batches
          (check_shards calls c w).1
          out

  -- A write of at least one vector either raises before it sends a vector, and leaves the servers
  -- as they were, or as the check of the shards left them; or the payloads were encoded, the check
  -- returned, the batches and the size of a chunk were found, and one of three holds. The write
  -- returns: then the servers were changed since the check by calls of Add only, which asked, chunk
  -- after chunk up to the end of the longest batch and shard after shard, every replica of a shard
  -- to take the ids of its batch in the chunk, and none of them was answered with an error. Or the
  -- write raises the first error among the answers to such calls, of the chunks from the first on,
  -- sends nothing after these, and knows no shard's position. Or it raises an error of the
  -- coordinator's own. In the first two cases the coordinator has the same replicas and a size that
  -- has grown by the number of the vectors since the check.
  pub add-Ended :
      (dumps : Json → Text) (row_bytes : ℕ) (c : Coordinator) (w : W) (v : V) (vectors : List V)
      (payloads : Option (List (Option Fields))) (namespace : Option Text)
      → Unsent c w (add calls dumps row_bytes c w (v ∷ vectors) payloads namespace)
        ⊎ Ended dumps row_bytes
            (v ∷ vectors)
            payloads
            namespace
            c
            w
            (add calls dumps row_bytes c w (v ∷ vectors) payloads namespace)
  unfolding add
  add-Ended dumps row_bytes c w v vectors payloads namespace =
      let count = suc (length vectors) in
      let texts =
        tag_namespace payloads count namespace >>= λ tagged. encode_payloads dumps tagged count in
      elim (Result-cases texts) [
        | inl (e, k) ↦ rw (k, add) (inl (record { e = e; raises = refl; unsent = inl refl }))
        | inr (encoded, k) ↦ elim (Result-cases (check_shards calls c w).2) [
          | inl (e, f) ↦
              rw (k, add) (rw (f, add) (inl (record { e = e; raises = refl; unsent = inr refl })))
          | inr (u, f) ↦
              elim (Result-cases (
                prepared calls row_bytes (check_shards calls c w).0 (v ∷ vectors) encoded
                  namespace)) [
                    | inl (e, g) ↦
                        rw (k, add)
                          (rw (f, add)
                            (rw (g, add)
                              (inl (record { e = e; raises = refl; unsent = inr refl }))))
                    | inr ((per_request, batches), g) ↦
                        rw (k, add)
                          (rw (f, add)
                            (rw (g, add)
                              (inr (record {
                                encoded = encoded;
                                texts = k;
                                checked = f;
                                per_request = per_request;
                                batches = batches;
                                plan = g;
                                outcome =
                                    write_batches-Outcome (check_shards calls c w).0
                                      (check_shards calls c w).1 count per_request batches
                                      (prepared-pos row_bytes (check_shards calls c w).0
                                        (v ∷ vectors) encoded namespace per_request batches g);
                              }))))
                  ]
        ]
      ]
