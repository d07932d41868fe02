-- ===== src/Server/Sync/Numbered.antt =====
-- The numbers of the writes that a shard takes over from a peer's log.
use distributed_vector_searc.Prelude.{
  ℕ, suc, ◌+◌, ◌≡◌, refl, sym, subst, true, List, [], ◌∷◌, Option, some, Result, Error, ok, err,
  >>=-eq-ok, ◌==◌, length, Bool-cases, Result-cases, inl, inr, arith,
}
use distributed_vector_searc.Python.Text.{Text}
use distributed_vector_searc.Storage.Record.{Matrix, LogRecord, encode_record}
use distributed_vector_searc.Storage.Durable.{
  ShardOps, DurableShard, checkpoint, apply_logged, after_write, is_due, add_batch,
}
use distributed_vector_searc.Server.Sync.{apply_records}

-- Records with consecutive numbers, after `seq`.
abbrev pub Consecutive : ℕ → List LogRecord → Type 0
Consecutive seq [] = Unit
Consecutive seq (r ∷ records) = (r.seq ≡ suc seq) × Consecutive (suc seq) records

next_number : (a b : ℕ) → (a == b + 1) ≡ true → a ≡ suc b
next_number a b h = ground (arith, h)

module _ {S : Type 0} (o : ShardOps S) where
  after_write-last_seq :
      (out : DurableShard S × Result (Unit {0}))
      → (after_write o out).1 ≡ ok tt
      → (out.1 ≡ ok tt) × ((after_write o out).0.last_seq ≡ out.0.last_seq)
  unfolding after_write checkpoint
  after_write-last_seq (d, err e) h = cc
  after_write-last_seq (d, ok u) h = elim (Bool-cases (is_due o d)) [
    | inl e ↦ (refl, rw e refl)
    | inr e ↦ (refl, rw e refl)
  ]

  apply_logged-last_seq :
      (d : DurableShard S) (ids : List ℕ) (vectors : Matrix) (payloads : Option (List Text))
      (bytes : List ℕ)
      → (apply_logged o d ids vectors payloads bytes).1 ≡ ok tt
      → (apply_logged o d ids vectors payloads bytes).0.last_seq ≡ d.last_seq + 1
  unfolding apply_logged
  apply_logged-last_seq d ids vectors payloads bytes h =
      elim (Result-cases (o.add_batch d.shard ids vectors payloads).1) [
        | inl (e, k) ↦ let refused : err e ≡ ok tt = rw (k, apply_logged) at h in cc
        | inr (u, k) ↦ rw (k, apply_logged) refl
      ]

  -- A numbered write that succeeds has the next number.
  pub add_batch-last_seq :
      (d : DurableShard S) (ids : List ℕ) (vectors : Matrix) (payloads : Option (List Text))
      (seq : ℕ)
      → (add_batch o d ids vectors payloads (some seq)).1 ≡ ok tt
      → (seq ≡ suc d.last_seq)
        × ((add_batch o d ids vectors payloads (some seq)).0.last_seq ≡ suc d.last_seq)
  unfolding add_batch
  add_batch-last_seq d ids vectors payloads seq h = elim (Bool-cases (seq == d.last_seq + 1)) [
    | inr e ↦ let refused : err Error.out_of_order ≡ ok tt = rw (e, add_batch) at h in cc
    | inl e ↦ elim (Result-cases (encode_record (d.last_seq + 1) ids vectors payloads)) [
      | inl (x, k) ↦ let refused : err x ≡ ok tt = rw k at (rw (e, add_batch) at h) in cc
      | inr (bytes, k) ↦
          let written = rw k at (rw (e, add_batch) at h) in
          let (logged, same) =
            after_write-last_seq (apply_logged o d ids vectors payloads bytes) written in
          let next = apply_logged-last_seq d ids vectors payloads bytes logged in
          (next_number seq d.last_seq e, rw (e, add_batch) (rw k (omega (arith, same, next))))
    ]
  ]

  -- If a durable shard takes over the records that arrive of a peer's log without an error, then
  -- their sequence numbers are consecutive and start right after its own last one, it reports as
  -- many records as arrived, and its last sequence number has grown by just as many.
  pub apply_records-Consecutive :
      (records : List LogRecord) (d : DurableShard S) (applied : ℕ)
      → (apply_records o records d).1 ≡ ok applied
      → Consecutive d.last_seq records
        × (applied ≡ length records)
        × ((apply_records o records d).0.last_seq ≡ d.last_seq + length records)
  unfolding apply_records
  apply_records-Consecutive [] d applied h =
      let same : 0 ≡ applied = cc in (tt, sym same, omega arith)
  apply_records-Consecutive (r ∷ records) d applied h =
      let (d', result) = add_batch o d r.global_ids r.vectors (some r.payloads) (some r.seq) in
      elim (Result-cases result) [
        | inl (e, k) ↦ let refused : err e ≡ ok applied = rw (k, apply_records) at h in cc
        | inr (u, k) ↦
            let (count, ran, last) =
              >>=-eq-ok (apply_records o records d').1 (λ n. ok (suc n))
                (rw (k, apply_records) at h) in
            let total : suc count ≡ applied = cc in
            let (named, moved) =
              add_batch-last_seq d r.global_ids r.vectors (some r.payloads) r.seq k in
            let (rest, counted, reached) = apply_records-Consecutive records d' count ran in
            (
              (named, subst (λ n. Consecutive n records) moved rest),
              omega (arith, total, counted),
              rw (k, apply_records) (omega (arith, reached, moved)),
            )
      ]
