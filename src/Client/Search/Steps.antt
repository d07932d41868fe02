-- ===== src/Client/Search/Steps.antt =====
-- What one call of a round changes: nothing of what will have been found in the end.
use distributed_vector_searc.Prelude.{
  ℕ, suc, ◌≡◌, ap, sym, ◌∙◌, List, [], ◌∷◌, map, Result, ok, err, Ord, nat_ord, concat, Error, true,
  length, All, ◌<◌, ◌+◌, arith, All-append,
}
use distributed_vector_searc.Python.Text.{Text}
use distributed_vector_searc.Python.Sorting.{insert_all}
use distributed_vector_searc.Client.{Hit, Calls, SearchRequest, is_retryable}
use distributed_vector_searc.Client.Search.{Pending, answered, Gather, failed}
use distributed_vector_searc.Client.Replicas.{set_down, address_of}
use distributed_vector_searc.Client.Search.Answers.{
  lost, address_in, addresses, found, addresses-set_down, first_answer-err, items_of, if_none,
  first_answer-ok, to_last, address_of-addresses, concat-snoc, to_middle, Asked, all_found,
  all_lost, all_found-snoc, all_lost-snoc,
}

module _ {W V D A : Type 0} ⦃o : Ord A⦄ (calls : Calls W V D) (item : Hit D → A)
    (request : SearchRequest V) (addrs : List (List Text)) (reply : Text → Result (List (Hit D)))
    (steady : (w : W) (a : Text) → (calls.search w a request).1 ≡ reply a)
    (retryable : (a : Text) (e : Error) → reply a ≡ err e → is_retryable e ≡ true) where
  -- What one call of a round does.
  pub record Stepped (n : ℕ) (p : Pending D) (g g' : Gather W D A) : Type 0 where
    pub same_addresses : addresses g'.coordinator.replicas ≡ addrs
    pub asked : All (Asked addrs reply n) g'.retries
    pub finds :
        (a : List A)
        → insert_all (found addrs reply item p.shard (p.replica ∷ p.others)) (
            insert_all a (
              insert_all
                (all_found addrs reply item g.retries)
                (insert_all (concat g.per_shard) [])))
          ≡ insert_all a (
              insert_all
                (all_found addrs reply item g'.retries)
                (insert_all (concat g'.per_shard) []))
    pub loses :
        (a : List ℕ)
        → insert_all
            (lost addrs reply p.shard (p.replica ∷ p.others))
            (insert_all a (insert_all (all_lost addrs reply g.retries) (insert_all g.missing [])))
          ≡ insert_all a (insert_all (all_lost addrs reply g'.retries) (insert_all g'.missing []))

  pub answered-Stepped :
      (n : ℕ) (p : Pending D) (hits : List (Hit D)) (g : Gather W D A)
      → addresses g.coordinator.replicas ≡ addrs
      → All (Asked addrs reply n) g.retries
      → reply (address_in addrs p.shard p.replica) ≡ ok hits
      → Stepped n p g (answered calls item request p hits g)
  unfolding answered insert_all
  answered-Stepped n p hits g same asked answers = record {
    same_addresses = addresses-set_down g.coordinator.replicas p.shard p.replica 0 ∙ same;
    asked = asked;
    finds = λ a.
        ap
          (λ r. insert_all (items_of item r) (
            insert_all a (
              insert_all (all_found addrs reply item g.retries)
                (insert_all (concat g.per_shard) []))))
          (first_answer-ok addrs reply p.shard p.replica p.others hits answers)
        ∙ to_last (map item hits) a (all_found addrs reply item g.retries) (concat g.per_shard)
        ∙ ap
            (λ l.
              insert_all a (insert_all (all_found addrs reply item g.retries) (insert_all l [])))
            (sym (concat-snoc g.per_shard (map item hits)));
    loses = λ a.
        ap
          (λ r.
            insert_all (if_none p.shard r) (
              insert_all a (insert_all (all_lost addrs reply g.retries) (insert_all g.missing []))))
          (first_answer-ok addrs reply p.shard p.replica p.others hits answers);
  }

  pub failed-Stepped :
      (n : ℕ) (p : Pending D) (others : List ℕ) (e : Error) (g : Gather W D A)
      → p.others ≡ others
      → length others < suc n
      → addresses g.coordinator.replicas ≡ addrs
      → All (Asked addrs reply n) g.retries
      → reply (address_in addrs p.shard p.replica) ≡ err e
      → Stepped n p g (failed calls item request p g)
  unfolding failed insert_all
  failed-Stepped n p [] e g left few same asked fails =
      let time = (calls.monotonic g.world).1 + g.coordinator.retry_after in
      let none_left = first_answer-err addrs reply p.shard p.replica [] e fails in
      rw (left, failed)
        (record {
          same_addresses = addresses-set_down g.coordinator.replicas p.shard p.replica time ∙ same;
          asked = asked;
          finds = λ a.
              ap
                (λ r. insert_all (items_of item r) (
                  insert_all a (
                    insert_all (all_found addrs reply item g.retries)
                      (insert_all (concat g.per_shard) []))))
                none_left;
          loses = λ a.
              ap
                (λ r. insert_all (if_none p.shard r) (
                  insert_all a
                    (insert_all (all_lost addrs reply g.retries) (insert_all g.missing []))))
                none_left
              ∙ to_last (p.shard ∷ []) a (all_lost addrs reply g.retries) g.missing;
        })
  failed-Stepped n p (next ∷ others) e g left few same asked fails =
      let (w, now) = calls.monotonic g.world in
      let groups =
        set_down g.coordinator.replicas p.shard p.replica (now + g.coordinator.retry_after) in
      let same' : addresses groups ≡ addrs =
        addresses-set_down g.coordinator.replicas p.shard p.replica
          (now + g.coordinator.retry_after)
        ∙ same in
      let retry : Pending D = record {
        shard = p.shard;
        replica = next;
        others = others;
        answer = (calls.search w (address_of groups p.shard next) request).1;
      } in
      let retry_asked : Asked addrs reply n retry = record {
        answer =
            steady w (address_of groups p.shard next)
            ∙ ap reply (
                address_of-addresses groups p.shard next
                ∙ ap (λ a. address_in a p.shard next) same');
        few = omega (arith, few);
      } in
      let later = first_answer-err addrs reply p.shard p.replica (next ∷ others) e fails in
      rw (left, failed)
        (record {
          same_addresses = same';
          asked = All-append (Asked addrs reply n) g.retries (retry ∷ []) asked (retry_asked, tt);
          finds = λ a.
              ap
                (λ r. insert_all (items_of item r) (
                  insert_all a (
                    insert_all (all_found addrs reply item g.retries)
                      (insert_all (concat g.per_shard) []))))
                later
              ∙ to_middle (found addrs reply item p.shard (next ∷ others)) a
                  (all_found addrs reply item g.retries) (insert_all (concat g.per_shard) [])
              ∙ ap (λ l. insert_all a (insert_all l (insert_all (concat g.per_shard) [])))
                  (sym (all_found-snoc addrs reply item g.retries retry));
          loses = λ a.
              ap
                (λ r. insert_all (if_none p.shard r) (
                  insert_all a
                    (insert_all (all_lost addrs reply g.retries) (insert_all g.missing []))))
                later
              ∙ to_middle (lost addrs reply p.shard (next ∷ others)) a
                  (all_lost addrs reply g.retries) (insert_all g.missing [])
              ∙ ap (λ l. insert_all a (insert_all l (insert_all g.missing [])))
                  (sym (all_lost-snoc addrs reply g.retries retry));
        })
