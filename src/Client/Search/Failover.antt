-- ===== src/Client/Search/Failover.antt =====
-- The fan-out with its retries gives what one answer per shard gives.
use distributed_vector_searc.Prelude.{
  ℕ, zero, suc, ◌≡◌, refl, sym, ◌∙◌, List, [], ◌∷◌, Result, ok, err, Ord, nat_ord, inl, inr, concat,
  Error, true, All, arith, subst, Result-cases, ◌≤◌, ◌<◌, length, ap₂, take, ap, ◌++◌,
}
use distributed_vector_searc.Python.Text.{Text}
use distributed_vector_searc.Python.Sorting.{insert_all, nsmallest, sorted}
use distributed_vector_searc.Python.Sorting.TopK.{insert_all-append}
use distributed_vector_searc.Client.{Hit, Calls, SearchRequest, is_retryable, Coordinator}
use distributed_vector_searc.Client.Search.{
  Pending, answered, Gather, failed, gather_round, gather_loop, send_first, most_others, gather,
  send,
}
use distributed_vector_searc.Client.Replicas.{address_of}
use distributed_vector_searc.Client.Search.Steps.{Stepped, answered-Stepped, failed-Stepped}
use distributed_vector_searc.Client.Search.Answers.{
  all_found, addresses, Asked, all_lost, found, lost, address_in, answers, unanswered,
  address_of-addresses,
}
use distributed_vector_searc.Cluster.Merge.{merge_top_k_scored}

module _ {W V D A : Type 0} ⦃o : Ord A⦄ (calls : Calls W V D) (item : Hit D → A)
    (request : SearchRequest V) (addrs : List (List Text)) (reply : Text → Result (List (Hit D)))
    (steady : (w : W) (a : Text) → (calls.search w a request).1 ≡ reply a)
    (retryable : (a : Text) (e : Error) → reply a ≡ err e → is_retryable e ≡ true) where
  -- What a pass over the pending calls does.
  record Rounded (n : ℕ) (pending : List (Pending D)) (g : Gather W D A)
      (out : Gather W D A × Result (Unit {0})) : Type 0 where
    returns : out.1 ≡ ok tt
    same_addresses : addresses out.0.coordinator.replicas ≡ addrs
    asked : All (Asked addrs reply n) out.0.retries
    finds :
        insert_all
          (all_found addrs reply item pending)
          (insert_all (all_found addrs reply item g.retries) (insert_all (concat g.per_shard) []))
        ≡ insert_all
            (all_found addrs reply item out.0.retries)
            (insert_all (concat out.0.per_shard) [])
    loses :
        insert_all
          (all_lost addrs reply pending)
          (insert_all (all_lost addrs reply g.retries) (insert_all g.missing []))
        ≡ insert_all (all_lost addrs reply out.0.retries) (insert_all out.0.missing [])

  after_step :
      (n : ℕ) (p : Pending D) (pending : List (Pending D)) (g g' : Gather W D A)
      (out : Gather W D A × Result (Unit {0}))
      → Stepped calls item request addrs reply steady retryable n p g g'
      → Rounded n pending g' out
      → Rounded n (p ∷ pending) g out
  after_step n p pending g g' out step rest = record {
    returns = rest.returns;
    same_addresses = rest.same_addresses;
    asked = rest.asked;
    finds =
        insert_all-append (found addrs reply item p.shard (p.replica ∷ p.others))
          (all_found addrs reply item pending) _
        ∙ step.finds (all_found addrs reply item pending)
        ∙ rest.finds;
    loses =
        insert_all-append (lost addrs reply p.shard (p.replica ∷ p.others))
          (all_lost addrs reply pending) _
        ∙ step.loses (all_lost addrs reply pending)
        ∙ rest.loses;
  }

  gather_round-Rounded :
      (n : ℕ) (pending : List (Pending D)) (g : Gather W D A)
      → addresses g.coordinator.replicas ≡ addrs
      → All (Asked addrs reply n) g.retries
      → All (Asked addrs reply (suc n)) pending
      → Rounded n pending g (gather_round calls item request pending g)
  unfolding gather_round insert_all
  gather_round-Rounded n [] g same asked h = record {
    returns = refl;
    same_addresses = same;
    asked = asked;
    finds = refl;
    loses = refl;
  }
  gather_round-Rounded n (p ∷ pending) g same asked h = elim (Result-cases p.answer) [
    | inr (hits, e) ↦
        let step =
          answered-Stepped calls item request addrs reply steady retryable n p hits g same asked
            (sym h.0.answer ∙ e) in
        let rest =
          gather_round-Rounded n pending (answered calls item request p hits g) step.same_addresses
            step.asked h.1 in
        let same_run : gather_round calls item request (p ∷ pending) g
            ≡ gather_round calls item request pending (answered calls item request p hits g) =
          rw (e, gather_round) refl in
        subst (Rounded n (p ∷ pending) g) (sym same_run) (after_step n p pending g _ _ step rest)
    | inl (e, k) ↦
        let fails = sym h.0.answer ∙ k in
        let step =
          failed-Stepped calls item request addrs reply steady retryable n p p.others e g refl
            h.0.few same asked fails in
        let rest =
          gather_round-Rounded n pending (failed calls item request p g) step.same_addresses
            step.asked h.1 in
        let again = retryable _ e fails in
        let same_run : gather_round calls item request (p ∷ pending) g
            ≡ gather_round calls item request pending (failed calls item request p g) =
          rw (k, gather_round) (rw again refl) in
        subst (Rounded n (p ∷ pending) g) (sym same_run) (after_step n p pending g _ _ step rest)
  ]

  -- All rounds.
  record Gathered (pending : List (Pending D)) (g : Gather W D A)
      (out : Gather W D A × Result (Unit {0})) : Type 0 where
    returns : out.1 ≡ ok tt
    finds :
        insert_all (all_found addrs reply item pending) (insert_all (concat g.per_shard) [])
        ≡ insert_all (concat out.0.per_shard) []
    loses :
        insert_all (all_lost addrs reply pending) (insert_all g.missing [])
        ≡ insert_all out.0.missing []

  gather_loop-Gathered :
      (fuel : ℕ) (pending : List (Pending D)) (g : Gather W D A)
      → addresses g.coordinator.replicas ≡ addrs
      → All (Asked addrs reply fuel) pending
      → Gathered pending g (gather_loop calls item request fuel pending g)
  unfolding gather_loop insert_all
  gather_loop-Gathered fuel [] g same h = record { returns = refl; finds = refl; loses = refl }
  gather_loop-Gathered zero (p ∷ pending) g same h = absurd (omega (arith, h.0.few))
  gather_loop-Gathered (suc fuel) (p ∷ pending) g same h =
      let start : Gather W D A = record g { retries = [] } in
      let round = gather_round-Rounded fuel (p ∷ pending) start same tt h in
      let next = (gather_round calls item request (p ∷ pending) start).0 in
      let rest = gather_loop-Gathered fuel next.retries next round.same_addresses round.asked in
      let same_run : gather_loop calls item request (suc fuel) (p ∷ pending) g
          ≡ gather_loop calls item request fuel next.retries next =
        rw (round.returns, gather_loop) refl in
      subst (Gathered (p ∷ pending) g) (sym same_run) (record {
        returns = rest.returns;
        finds = round.finds ∙ rest.finds;
        loses = round.loses ∙ rest.loses;
      })

  -- The first requests.
  record Sent (orders : List (ℕ × List ℕ)) (out : W × Result (List (Pending D))) : Type 0 where
    pending : List (Pending D)
    returns : out.1 ≡ ok pending
    answered_so : All (λ p. p.answer ≡ reply (address_in addrs p.shard p.replica)) pending
    finds : all_found addrs reply item pending ≡ concat (answers addrs reply item orders)
    loses : all_lost addrs reply pending ≡ unanswered addrs reply orders

  send_first-Sent :
      (c : Coordinator) (w : W) (orders : List (ℕ × List ℕ))
      → addresses c.replicas ≡ addrs
      → All (λ o. 0 < length o.1) orders
      → Sent orders (send_first calls request c w orders)
  unfolding send_first
  send_first-Sent c w [] same h = record {
    pending = [];
    returns = refl;
    answered_so = tt;
    finds = refl;
    loses = refl;
  }
  send_first-Sent c w ((shard, []) ∷ orders) same h = absurd (omega (arith, h.0))
  send_first-Sent c w ((shard, i ∷ others) ∷ orders) same h =
      let (w', p) = send calls request c w shard i others in
      let rest = send_first-Sent c w' orders same h.1 in
      record {
        pending = p ∷ rest.pending;
        returns = rw (rest.returns) refl;
        answered_so = (
          steady w (address_of c.replicas shard i)
              ∙ ap reply
                  (address_of-addresses c.replicas shard i ∙ ap (λ a. address_in a shard i) same),
          rest.answered_so,
        );
        finds = ap (λ l. found addrs reply item shard (i ∷ others) ++ l) rest.finds;
        loses = ap (λ l. lost addrs reply shard (i ∷ others) ++ l) rest.loses;
      }

  All-Asked :
      (n : ℕ) (pending : List (Pending D))
      → most_others pending ≤ n
      → All (λ p. p.answer ≡ reply (address_in addrs p.shard p.replica)) pending
      → All (Asked addrs reply n) pending
  unfolding most_others
  All-Asked n [] k h = tt
  All-Asked n (p ∷ pending) k h =
      (record { answer = h.0; few = omega (arith, k) }, All-Asked n pending (omega (arith, k)) h.1)

  -- If the answer of every replica is the same whenever it is asked during the search, and every
  -- failure is one that is worth a retry, then for every list of shards with the orders of their
  -- replicas, each with one replica at least, the fan-out with its retries, which runs in rounds,
  -- ends and gives exactly this: the k smallest of the results of each shard's first replica, in
  -- its order, that answers, and the sorted list of the shards of which no replica answers.
  pub gather-answers :
      (c : Coordinator) (w : W) (orders : List (ℕ × List ℕ))
      → addresses c.replicas ≡ addrs
      → All (λ o. 0 < length o.1) orders
      → (gather calls item request c w orders).2
        ≡ ok (
          merge_top_k_scored (answers addrs reply item orders) request.k,
          sorted (unanswered addrs reply orders),
        )
  unfolding gather merge_top_k_scored nsmallest sorted insert_all
  gather-answers c w orders same h =
      let sent = send_first-Sent c w orders same h in
      let w' = (send_first calls request c w orders).0 in
      let start : Gather W D A = record {
        coordinator = c;
        world = w';
        retries = [];
        per_shard = [];
        missing = [];
      } in
      let done =
        gather_loop-Gathered (most_others sent.pending) sent.pending start same
          (All-Asked (most_others sent.pending) sent.pending (omega arith) sent.answered_so) in
      rw (sent.returns, gather)
        (rw (done.returns) (
          ap₂ (λ l m. ok (take request.k l, m))
            (sym done.finds ∙ ap (λ l. insert_all l []) sent.finds)
            (sym done.loses ∙ ap (λ l. insert_all l []) sent.loses)))
