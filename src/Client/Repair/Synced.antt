-- ===== src/Client/Repair/Synced.antt =====
-- What a repair copies, and from where.
use distributed_vector_searc.Prelude.{
  ℕ, zero, suc, ◌≤◌, ◌≡◌, refl, ap, ◌∙◌, subst, List, [], ◌∷◌, ok, err, >>=-eq-ok, if◌then◌else◌,
  keep, ltb, All, In, Bool-cases, Result-cases, inl, inr, arith, some, set,
}
use distributed_vector_searc.Client.{Replica, Coordinator, Status, SyncResult, Calls}
use distributed_vector_searc.Client.Repair.{ReplicaSync, most_advanced, sync_behind, repair_shard}

-- One of the replicas with the largest sequence number.
pub record IsNewest (best : Replica × Status) (statuses : List (Replica × Status)) : Type 0 where
  pub largest : All (λ s. s.1.last_seq ≤ best.1.last_seq) statuses
  pub among : In best statuses

abbrev later : Replica × Status → Replica × Status → Replica × Status
later best other = if ltb best.1.last_seq other.1.last_seq then other else best

later_largest :
    (best other : Replica × Status)
    → (best.1.last_seq ≤ (later best other).1.last_seq)
      × (other.1.last_seq ≤ (later best other).1.last_seq)
later_largest best other = elim (Bool-cases (ltb best.1.last_seq other.1.last_seq)) [
  | inl e ↦ rw e (ground arith, omega arith)
  | inr e ↦ rw e (omega arith, ground arith)
]

later-In :
    (x best other : Replica × Status) (others : List (Replica × Status))
    → In x (later best other ∷ others)
    → In x (best ∷ other ∷ others)
later-In x best other others (suc i, e) = (suc (suc i), e)
later-In x best other others (zero, e) = elim (Bool-cases (ltb best.1.last_seq other.1.last_seq)) [
  | inl k ↦ let same : other ≡ later best other = rw k refl in (1, ap some same ∙ e)
  | inr k ↦ let same : best ≡ later best other = rw k refl in (0, ap some same ∙ e)
]

most_advanced-grows :
    (best : Replica × Status) (others : List (Replica × Status))
    → (best.1.last_seq ≤ (most_advanced best others).1.last_seq)
      × All (λ s. s.1.last_seq ≤ (most_advanced best others).1.last_seq) others
unfolding most_advanced
most_advanced-grows best [] = (omega arith, tt)
most_advanced-grows best (other ∷ others) =
    let (first, rest) = most_advanced-grows (later best other) others in
    let (a, b) = later_largest best other in
    (omega (arith, first, a), (omega (arith, first, b), rest))

most_advanced-In :
    (best : Replica × Status) (others : List (Replica × Status))
    → In (most_advanced best others) (best ∷ others)
unfolding most_advanced
most_advanced-In best [] = (0, refl)
most_advanced-In best (other ∷ others) =
    later-In _ best other others (most_advanced-In (later best other) others)

most_advanced-IsNewest :
    (first : Replica × Status) (others : List (Replica × Status))
    → IsNewest (most_advanced first others) (first ∷ others)
most_advanced-IsNewest first others = record {
  largest = most_advanced-grows first others;
  among = most_advanced-In first others;
}

-- The replicas that are behind.
abbrev pub behind : ℕ → List (Replica × Status) → List (Replica × Status)
behind newest statuses = keep (λ s. ltb s.1.last_seq newest) statuses

module _ {W V D : Type 0} (calls : Calls W V D) where
  -- A call of `SyncFrom` to a replica, with the source as its peer, that was answered, and its report.
  pub record IsCopied (shard : ℕ) (source replica : Replica) (w w' : W) (synced : ReplicaSync)
      : Type 0 where
    pub answer : SyncResult
    pub called : calls.sync_from w replica.address source.peer ≡ (w', ok answer)
    pub reported : synced ≡ record {
      shard = shard;
      replica = replica.address;
      source = source.address;
      method = answer.method;
      records_applied = answer.records_applied;
      last_seq = answer.last_seq;
    }

  -- The calls that lead from one state of the servers to another: one to each of the replicas, in their
  -- order, and no other.
  abbrev pub AllCopied : ℕ → Replica → W → List (Replica × Status) → List ReplicaSync → W → Type 0
  AllCopied shard source w [] [] after = w ≡ after
  AllCopied shard source w (s ∷ statuses) (synced ∷ others) after =
      (w' : W) × IsCopied shard source s.0 w w' synced
      × AllCopied shard source w' statuses others after
  AllCopied shard source w _ _ after = ⊥

  sync_behind-AllCopied :
      (shard : ℕ) (source : Replica) (newest : ℕ) (w : W) (statuses : List (Replica × Status))
      (synced : List ReplicaSync)
      → (sync_behind calls shard source newest w statuses).1 ≡ ok synced
      → AllCopied shard source w
          (behind newest statuses)
          synced
          (sync_behind calls shard source newest w statuses).0
  unfolding sync_behind
  sync_behind-AllCopied shard source newest w [] synced e =
      let same : [] ≡ synced = cc in
      subst (λ synced. AllCopied shard source w [] synced w) same refl
  sync_behind-AllCopied shard source newest w ((replica, status) ∷ statuses) synced e =
      elim (Bool-cases (ltb status.last_seq newest)) [
        | inr level ↦
            rw (level, sync_behind)
              (sync_behind-AllCopied shard source newest w statuses synced
                (rw (level, sync_behind) at e))
        | inl low ↦
            let (w', answer) = calls.sync_from w replica.address source.peer in
            let opened = rw (low, sync_behind) at e in
            elim (Result-cases answer) [
              | inl (x, k) ↦ let raised : err x ≡ ok synced = rw k at opened in cc
              | inr (r, k) ↦
                  let (others, ran, last) =
                    >>=-eq-ok (sync_behind calls shard source newest w' statuses).1 _
                      (rw k at opened) in
                  let rest = sync_behind-AllCopied shard source newest w' statuses others ran in
                  let one : ReplicaSync = record {
                    shard = shard;
                    replica = replica.address;
                    source = source.address;
                    method = r.method;
                    records_applied = r.records_applied;
                    last_seq = r.last_seq;
                  } in
                  let same : one ∷ others ≡ synced = cc in
                  let called : calls.sync_from w replica.address source.peer ≡ (w', ok r) =
                    ap (λ a. (w', a)) k in
                  rw (low, sync_behind)
                    (rw k (
                      subst
                        (λ synced.
                          AllCopied shard source w ((replica, status) ∷ behind newest statuses)
                            synced (sync_behind calls shard source newest w' statuses).0)
                        same (w', record { answer = r; called = called; reported = refl }, rest)))
            ]
      ]

  -- If the repair of a shard with a replica that answered returns, then there is a source among
  -- those that answered whose last write is the largest, and the servers were changed by these
  -- calls only: for each replica that was behind the source, once and in their order, a SyncFrom to
  -- the address of the replica with the peer address of the source, which was answered, and whose
  -- answer is what the report of this replica says. The size of the shard becomes the size that the
  -- source reported, and nothing else of the coordinator changes.
  pub repair_shard-Synced :
      (shard : ℕ) (c : Coordinator) (w : W) (first : Replica × Status)
      (others : List (Replica × Status)) (synced : List ReplicaSync)
      → (repair_shard calls shard c w (first ∷ others)).2 ≡ ok synced
      → (source : Replica) × (newest : Status) × IsNewest (source, newest) (first ∷ others)
        × AllCopied shard source w
            (behind newest.last_seq (first ∷ others))
            synced
            (repair_shard calls shard c w (first ∷ others)).1
        × ((repair_shard calls shard c w (first ∷ others)).0
            ≡ record c { shard_sizes = set c.shard_sizes shard newest.size })
  unfolding repair_shard
  repair_shard-Synced shard c w first others synced e =
      let (source, newest) = most_advanced first others in
      let (w', result) = sync_behind calls shard source newest.last_seq w (first ∷ others) in
      elim (Result-cases result) [
        | inl (x, k) ↦ let raised : err x ≡ ok synced = rw (k, repair_shard) at e in cc
        | inr (copied, k) ↦
            let done : ok copied ≡ ok synced = rw (k, repair_shard) at e in
            let same : copied ≡ synced = cc in
            (
              source,
              newest,
              most_advanced-IsNewest first others,
              rw (k, repair_shard)
                  (sync_behind-AllCopied shard source newest.last_seq w (first ∷ others) synced
                    (k ∙ ap ok same)),
              rw (k, repair_shard) refl,
            )
      ]
