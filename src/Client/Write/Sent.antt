-- ===== src/Client/Write/Sent.antt =====
-- The calls that a write of `GrpcCoordinator` makes, and what it makes of their answers.
use distributed_vector_searc.Prelude.{
  ◌+◌, zero, suc, ℕ, suc, ◌≡◌, refl, ap, sym, ◌∙◌, subst, List, [], ◌∷◌, ◌++◌, map, Option, none,
  some, Result, Error, ok, err, take, drop, get_elem?, set, Option-cases, Result-cases, List-cases,
  inl, inr, ◌⊎◌,
}
use mathlib.Core.List.{map-append}
use distributed_vector_searc.Python.Text.{Text}
use distributed_vector_searc.Cluster.Routing.{Batch}
use distributed_vector_searc.Client.{
  Replica, Position, unknown, unchecked, at, Coordinator, AddRequest, Calls,
}
use distributed_vector_searc.Client.Write.{
  next_seq, chunk_request, advance, accept, send_all, send_chunk,
}
use distributed_vector_searc.Client.Write.Settled.{first_failure}

-- The first of some answers that is an error.
abbrev pub first_error : List (Result ℕ) → Option Error
first_error [] = none
first_error (ok size ∷ answers) = first_error answers
first_error (err e ∷ answers) = some e

-- The errors that the coordinator raises by itself.
abbrev pub IsOwn : Error → Type 0
IsOwn Error.index_error = Unit
IsOwn Error.type_error = Unit
IsOwn Error.key_error = Unit
IsOwn Error.runtime_error = Unit
IsOwn Error.value_error = Unit
IsOwn _ = ⊥

pub first_error-append :
    (xs ys : List (Result ℕ)) → first_error xs ≡ none → first_error (xs ++ ys) ≡ first_error ys
first_error-append [] ys h = refl
first_error-append (ok n ∷ xs) ys h = first_error-append xs ys h
first_error-append (err e ∷ xs) ys h = cc

pub first_failure-first_error :
    (answers : List (ℕ × Result ℕ)) → first_failure answers ≡ first_error (map (λ a. a.1) answers)
first_failure-first_error [] = refl
first_failure-first_error ((shard, ok n) ∷ answers) = first_failure-first_error answers
first_failure-first_error ((shard, err e) ∷ answers) = refl

-- The replicas and the size stay as they are.
pub record IsKept (c c' : Coordinator) : Type 0 where
  pub replicas : c'.replicas ≡ c.replicas
  pub size : c'.size ≡ c.size

pub kept_twice : (a b c : Coordinator) → IsKept a b → IsKept b c → IsKept a c
kept_twice a b c h k = record { replicas = k.replicas ∙ h.replicas; size = k.size ∙ h.size }

pub accept-IsKept :
    (reported : List (ℕ × List ℕ)) (c : Coordinator) → IsKept c (accept reported c).0
unfolding accept
accept-IsKept [] c = record { replicas = refl; size = refl }
accept-IsKept ((shard, []) ∷ reported) c = record { replicas = refl; size = refl }
accept-IsKept ((shard, size ∷ []) ∷ reported) c =
    let c' : Coordinator = record c {
      shard_sizes = set c.shard_sizes shard size;
      last_seqs = advance c.last_seqs shard;
    } in
    kept_twice c c' (accept reported c').0 (record { replicas = refl; size = refl })
      (accept-IsKept reported c')
accept-IsKept ((shard, size ∷ other ∷ sizes) ∷ reported) c = record { replicas = refl; size = refl }

pub accept-IsOwn :
    (reported : List (ℕ × List ℕ)) (c : Coordinator) (e : Error)
    → (accept reported c).1 ≡ err e
    → IsOwn e
unfolding accept
accept-IsOwn [] c e h = cc
accept-IsOwn ((shard, []) ∷ reported) c e h =
    let same : Error.key_error ≡ e = cc in subst IsOwn same tt
accept-IsOwn ((shard, size ∷ []) ∷ reported) c e h = accept-IsOwn reported _ e h
accept-IsOwn ((shard, size ∷ other ∷ sizes) ∷ reported) c e h =
    let same : Error.runtime_error ≡ e = cc in subst IsOwn same tt

next_seq-IsOwn : (position : Option Position) (e : Error) → next_seq position ≡ err e → IsOwn e
unfolding next_seq
next_seq-IsOwn none e h = let same : Error.index_error ≡ e = cc in subst IsOwn same tt
next_seq-IsOwn (some unknown) e h = let same : Error.type_error ≡ e = cc in subst IsOwn same tt
next_seq-IsOwn (some unchecked) e h = cc
next_seq-IsOwn (some (at seq)) e h = cc

-- A call of `Add`.
pub record AddCall (V : Type 0) : Type 0 where
  pub address : Text
  pub request : AddRequest V
  pub answer : Result ℕ

abbrev pub answers_of : {V : Type 0} → List (AddCall V) → List (Result ℕ)
answers_of sent = map (λ s. s.answer) sent

-- The address and the ids of a call.
abbrev pub asked : {V : Type 0} → AddCall V → Text × List ℕ
asked s = (s.address, s.request.global_ids)

abbrev pub group_at : Option (List Replica) → List Replica
group_at none = []
group_at (some group) = group

-- Some ids to each replica of a group, if there are any.
abbrev pub addressed : List ℕ → List Replica → List (Text × List ℕ)
addressed [] group = []
addressed (id ∷ ids) group = map (λ r. (r.address, id ∷ ids)) group

-- What a chunk has to ask, from a shard on: its part of the ids of each batch, of every replica of its shard.
abbrev pub due :
    {V : Type 0} → List (List Replica) → ℕ → ℕ → ℕ → List (Batch V) → List (Text × List ℕ)
due replicas start per_request shard [] = []
due replicas start per_request shard (batch ∷ batches) =
    addressed (take per_request (drop start batch.global_ids)) (group_at (get_elem? replicas shard))
    ++ due replicas start per_request (suc shard) batches

-- What some chunks one after the other have to ask.
abbrev pub due_chunks :
    {V : Type 0} → List (List Replica) → ℕ → List (Batch V) → ℕ → ℕ → List (Text × List ℕ)
due_chunks replicas per_request batches start zero = []
due_chunks replicas per_request batches start (suc chunks) =
    due replicas start per_request 0 batches
    ++ due_chunks replicas per_request batches (start + per_request) chunks

addressed-some :
    (ids : List ℕ) (x : ℕ) (xs : List ℕ) (found : Option (List Replica)) (group : List Replica)
    → ids ≡ x ∷ xs
    → found ≡ some group
    → map (λ r. (r.address, ids)) group ≡ addressed ids (group_at found)
addressed-some ids x xs found group h k =
    subst (λ ids. map (λ r. (r.address, ids)) group ≡ addressed ids (group_at found)) (sym h)
      (ap (λ a. map (λ r. (r.address, x ∷ xs)) (group_at a)) (sym k))

module _ {W V D : Type 0} (calls : Calls W V D) where
  -- The calls that lead from one state of the servers to another, in their order.
  abbrev pub Sent : W → List (AddCall V) → W → Type 0
  Sent w [] after = w ≡ after
  Sent w (s ∷ sent) after =
      (w' : W) × (calls.add w s.address s.request ≡ (w', s.answer)) × Sent w' sent after

  pub Sent-append :
      (w w' w'' : W) (xs ys : List (AddCall V))
      → Sent w xs w'
      → Sent w' ys w''
      → Sent w (xs ++ ys) w''
  Sent-append w w' w'' [] ys h k = subst (λ u. Sent u ys w'') (sym h) k
  Sent-append w w' w'' (x ∷ xs) ys (u, called, h) k = (u, called, Sent-append u w' w'' xs ys h k)

  -- The calls behind some answers.
  pub record Answered (w after : W) (answers : List (ℕ × Result ℕ))
      (requests : List (Text × List ℕ)) : Type 0 where
    pub sent : List (AddCall V)
    pub leads : Sent w sent after
    pub same : answers_of sent ≡ map (λ a. a.1) answers
    pub requested : map asked sent ≡ requests

  send_all-Answered :
      (w : W) (shard : ℕ) (request : AddRequest V) (group : List Replica)
      → Answered w
          (send_all calls w shard request group).0
          (send_all calls w shard request group).1
          (map (λ r. (r.address, request.global_ids)) group)
  unfolding send_all
  send_all-Answered w shard request [] = record {
    sent = [];
    leads = refl;
    same = refl;
    requested = refl;
  }
  send_all-Answered w shard request (replica ∷ group) =
      let (w', answer) = calls.add w replica.address request in
      let rest = send_all-Answered w' shard request group in
      record {
        sent = record { address = replica.address; request = request; answer = answer } ∷ rest.sent;
        leads = (w', refl, rest.leads);
        same = ap (◌∷◌ answer) rest.same;
        requested = ap (◌∷◌ (replica.address, request.global_ids)) rest.requested;
      }

  answers_both :
      {w w' after : W} {qs rs : List (Text × List ℕ)} (xs ys : List (ℕ × Result ℕ))
      (a : Answered w w' xs qs) (b : Answered w' after ys rs)
      → answers_of (a.sent ++ b.sent) ≡ map (λ a. a.1) (xs ++ ys)
  answers_both xs ys a b =
      map-append (λ s. s.answer) a.sent b.sent
      ∙ ap (λ zs. zs ++ answers_of b.sent) a.same
      ∙ ap (◌++◌ (map (λ a. a.1) xs)) b.same
      ∙ sym (map-append (λ a. a.1) xs ys)

  -- The calls of a chunk, or the coordinator's own error that stopped it.
  pub send_chunk-Answered :
      (start per_request : ℕ) (c : Coordinator) (w : W) (shard : ℕ) (batches : List (Batch V))
      (requests : List (Text × List ℕ))
      → requests ≡ due c.replicas start per_request shard batches
      → ((answers : List (ℕ × Result ℕ)) × ((send_chunk calls start per_request c w shard batches).1
            ≡ ok answers)
          × Answered w (send_chunk calls start per_request c w shard batches).0 answers requests)
        ⊎ ((e : Error) × ((send_chunk calls start per_request c w shard batches).1 ≡ err e)
            × IsOwn e)
  unfolding send_chunk chunk_request
  send_chunk-Answered start per_request c w shard [] requests h =
      inl ([], refl, record { sent = []; leads = refl; same = refl; requested = sym h })
  send_chunk-Answered start per_request c w shard (batch ∷ batches) requests h =
      let ids = take per_request (drop start batch.global_ids) in
      let later = due c.replicas start per_request (suc shard) batches in
      let place = get_elem? c.replicas shard in
      elim (List-cases (take per_request (drop start batch.global_ids))) [
        | inl empty ↦
            rw (empty, send_chunk)
              (send_chunk-Answered start per_request c w (suc shard) batches requests
                (h ∙ ap (λ ids. addressed ids (group_at place) ++ later) empty))
        | inr (x, xs, part) ↦ elim (Result-cases (next_seq (get_elem? c.last_seqs shard))) [
          | inl (e, k) ↦
              rw (part, send_chunk)
                (rw (k, send_chunk)
                  (inr (e, refl, next_seq-IsOwn (get_elem? c.last_seqs shard) e k)))
          | inr (seq, k) ↦ elim (Option-cases (get_elem? c.replicas shard)) [
            | inl absent ↦
                rw (part, send_chunk)
                  (rw (k, send_chunk) (rw (absent, send_chunk) (inr (Error.index_error, refl, tt))))
            | inr (group, there) ↦
                let request = chunk_request batch start per_request seq in
                let (w', answers) = send_all calls w shard request group in
                let first = send_all-Answered w shard request group in
                rw (part, send_chunk)
                  (rw (k, send_chunk)
                    (rw (there, send_chunk)
                      (elim (send_chunk-Answered start per_request c w' (suc shard) batches later
                        refl) [
                          | inl (others, f, rest) ↦ inl (
                            answers ++ others,
                            rw f refl,
                            record {
                              sent = first.sent ++ rest.sent;
                              leads =
                                  Sent-append w w' _ first.sent rest.sent first.leads rest.leads;
                              same = answers_both answers others first rest;
                              requested =
                                  map-append asked first.sent rest.sent
                                  ∙ ap (λ zs. zs ++ map asked rest.sent) first.requested
                                  ∙ ap (◌++◌ (map (λ r. (r.address, ids)) group)) rest.requested
                                  ∙ ap (λ zs. zs ++ later)
                                      (addressed-some ids x xs place group part there)
                                  ∙ sym h;
                            },
                          )
                          | inr (e, f, own) ↦ inr (e, rw f refl, own)
                        ])))
          ]
        ]
      ]
