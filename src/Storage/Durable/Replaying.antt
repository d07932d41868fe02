-- ===== src/Storage/Durable/Replaying.antt =====
-- Replaying a log: one record more, and records that a snapshot already covers.
use distributed_vector_searc.Prelude.{
  All-append, All-keep, Bool, ◌≤◌, ◌≡◌, refl, ap, sym, ◌∙◌, true, List, [], ◌∷◌, ◌++◌, arith,
  Result, ok, err, ◌>>=◌, >>=-eq-ok, leb, ltb, All, keep, subst, Bool-cases, inl, inr, false, ℕ,
  le→leb, leb→le, lt→ltb, ◌<◌, ◌+◌, append-nil, append_assoc,
}
use distributed_vector_searc.Storage.Record.{LogRecord}
use distributed_vector_searc.Storage.Log.{Entry, entry_record, log_bytes, log_records}
use distributed_vector_searc.Storage.Durable.{ShardOps, Replay, replay_record, replay}

pub log_bytes-snoc :
    (entries : List Entry) (e : Entry)
    → log_bytes (entries ++ e ∷ []) ≡ log_bytes entries ++ e.bytes
log_bytes-snoc [] e = append-nil e.bytes
log_bytes-snoc (f ∷ entries) e =
    ap (λ b. f.bytes ++ b) (log_bytes-snoc entries e)
    ∙ sym (append_assoc f.bytes (log_bytes entries) e.bytes)

pub log_records-snoc :
    (entries : List Entry) (e : Entry)
    → log_records (entries ++ e ∷ []) ≡ log_records entries ++ entry_record e ∷ []
log_records-snoc [] e = refl
log_records-snoc (f ∷ entries) e = ap (◌∷◌ (entry_record f)) (log_records-snoc entries e)

-- Records with growing numbers.
abbrev pub Ascending : List LogRecord → Type 0
Ascending [] = Unit
Ascending (r ∷ records) = All (λ s. r.seq < s.seq) records × Ascending records

pub Ascending-snoc :
    (records : List LogRecord) (r : LogRecord)
    → Ascending records
    → All (λ s. s.seq < r.seq) records
    → Ascending (records ++ r ∷ [])
Ascending-snoc [] r h k = (tt, tt)
Ascending-snoc (s ∷ records) r h k = (
  All-append (λ t. s.seq < t.seq) records (r ∷ []) h.0 (k.0, tt),
  Ascending-snoc records r h.1 k.1,
)

pub Ascending-keep :
    (p : LogRecord → Bool) (records : List LogRecord)
    → Ascending records
    → Ascending (keep p records)
Ascending-keep p [] h = tt
Ascending-keep p (r ∷ records) h = elim (Bool-cases (p r)) [
  | inl e ↦ rw e (All-keep (λ s. r.seq < s.seq) p records h.0, Ascending-keep p records h.1)
  | inr e ↦ rw e (Ascending-keep p records h.1)
]

module _ {S : Type 0} (o : ShardOps S) where
  pub replay-snoc :
      (records : List LogRecord) (r : LogRecord) (p q : Replay S) (result : Result (Replay S))
      → replay o records p ≡ ok q
      → replay_record o q r ≡ result
      → replay o (records ++ r ∷ []) p ≡ result
  unfolding replay
  replay-snoc [] r p q result h k =
      bind_ok (replay_record o p r) ∙ ap (λ x. replay_record o x r) (same p q h) ∙ k
    where
      bind_ok : (m : Result (Replay S)) → (m >>= λ x. ok x) ≡ m
      bind_ok (ok x) = refl
      bind_ok (err e) = refl

      same : (x y : Replay S) → ok x ≡ ok y → x ≡ y
      same x y e = cc
  replay-snoc (s ∷ records) r p q result h k =
      let first = >>=-eq-ok (replay_record o p s) _ h in
      rw (first.1, replay) (replay-snoc records r first.0 q result first.2 k)

  pub replay_record-seq :
      (p q : Replay S) (r : LogRecord)
      → replay_record o p r ≡ ok q
      → (p.last_seq ≤ q.last_seq) × (r.seq ≤ q.last_seq)
  unfolding replay_record
  replay_record-seq p q r h = ground arith

  -- A replay never goes back, and ends at or beyond every record that it met.
  pub replay-covers :
      (records : List LogRecord) (p q : Replay S)
      → replay o records p ≡ ok q
      → (p.last_seq ≤ q.last_seq) × All (λ r. r.seq ≤ q.last_seq) records
  unfolding replay
  replay-covers [] p q h = (ground arith, tt)
  replay-covers (r ∷ records) p q h =
      let first = >>=-eq-ok (replay_record o p r) _ h in
      let rest = replay-covers records first.0 q first.2 in
      let here = replay_record-seq p first.0 r first.1 in
      (omega (arith, here.0, rest.0), (omega (arith, here.1, rest.0), rest.1))

  -- Records that are all covered already change nothing.
  pub replay_covered :
      (records : List LogRecord) (p : Replay S)
      → All (λ r. r.seq ≤ p.last_seq) records
      → replay o records p ≡ ok p
  unfolding replay replay_record
  replay_covered [] p h = refl
  replay_covered (r ∷ records) p h =
      let covered : leb r.seq p.last_seq ≡ true = le→leb _ _ h.0 in
      rw (covered, replay_record) (replay_covered records p h.1)

  -- A record that is covered leaves the replay as it is.
  skipped :
      (p next : Replay S) (r : LogRecord)
      → replay_record o p r ≡ ok next
      → r.seq ≤ p.last_seq
      → next ≡ p
  unfolding replay_record
  skipped p next r e h =
      let covered : leb r.seq p.last_seq ≡ true = le→leb _ _ h in
      let same = rw (covered, replay_record) at e in cc

  -- The records after a number are enough for a replay that is at that number or beyond it.
  replay-after :
      (records : List LogRecord) (seq : ℕ) (p end : Replay S)
      → seq ≤ p.last_seq
      → replay o records p ≡ ok end
      → replay o (keep (λ r. ltb seq r.seq) records) p ≡ ok end
  unfolding replay
  replay-after [] seq p end h e = e
  replay-after (r ∷ records) seq p end h e =
      let (next, first, rest) = >>=-eq-ok (replay_record o p r) _ e in
      elim (Bool-cases (ltb seq r.seq)) [
        | inl later ↦
            let moved = replay_record-seq p next r first in
            rw later (
              rw (first, replay)
                (replay-after records seq next end (omega (arith, h, moved.0)) rest))
        | inr earlier ↦
            let same = skipped p next r first (not_later seq r.seq p.last_seq earlier h) in
            rw earlier (
              replay-after records seq p end h (subst (λ x. replay o records x ≡ ok end) same rest))
      ]
    where
      not_later : (a b n : ℕ) → ltb a b ≡ false → a ≤ n → b ≤ n
      not_later a b n e h = ground (arith, e, h)

  pub replay_record-number :
      (p next : Replay S) (r : LogRecord)
      → replay_record o p r ≡ ok next
      → p.last_seq < r.seq
      → r.seq ≡ p.last_seq + 1
  unfolding replay_record
  replay_record-number p next r h k = ground arith

  pub keep-within :
      (seq : ℕ) (records : List LogRecord)
      → All (λ r. r.seq ≤ seq) (keep (λ r. leb r.seq seq) records)
  keep-within seq [] = tt
  keep-within seq (r ∷ records) = elim (Bool-cases (leb r.seq seq)) [
    | inl e ↦ rw e (leb→le r.seq seq e, keep-within seq records)
    | inr e ↦ rw e (keep-within seq records)
  ]

  -- A replay may stop at a number, and go on with the records after it.
  pub replay-split :
      (records : List LogRecord) (p q end : Replay S)
      → replay o (keep (λ r. leb r.seq q.last_seq) records) p ≡ ok q
      → replay o records p ≡ ok end
      → replay o (keep (λ r. ltb q.last_seq r.seq) records) q ≡ ok end
  unfolding replay
  replay-split [] p q end e f = sym e ∙ f
  replay-split (r ∷ records) p q end e f =
      let (next, first, rest) = >>=-eq-ok (replay_record o p r) _ f in
      elim (Bool-cases (leb r.seq q.last_seq)) [
        | inl within ↦
            let e' : replay o (keep (λ r'. leb r'.seq q.last_seq) records) next ≡ ok q =
              rw (first, replay) at (rw within at e) in
            rw (no_later r.seq q.last_seq within) (replay-split records next q end e' rest)
        | inr beyond ↦
            let e' : replay o (keep (λ r'. leb r'.seq q.last_seq) records) p ≡ ok q =
              rw beyond at e in
            let covers = replay-covers (keep (λ r'. leb r'.seq q.last_seq) records) p q e' in
            let later : q.last_seq < r.seq = leb-lt r.seq q.last_seq beyond in
            let number = replay_record-number p next r first (omega (arith, covers.0, later)) in
            let reached : q.last_seq ≡ p.last_seq = omega (arith, covers.0, later, number) in
            let stays = replay_covered (keep (λ r'. leb r'.seq q.last_seq) records) p (
              subst (λ n. All (λ r'. r'.seq ≤ n) (keep (λ r'. leb r'.seq q.last_seq) records))
                reached (keep-within q.last_seq records)) in
            let same : p ≡ q = cc (stays, e') in
            let moved = replay_record-seq p next r first in
            let more : ltb q.last_seq r.seq ≡ true = lt→ltb _ _ later in
            subst (λ x. replay o (keep (λ r'. ltb q.last_seq r'.seq) (r ∷ records)) x ≡ ok end) same
              (rw more (
                rw (first, replay)
                  (replay-after records q.last_seq next end (omega (arith, moved.1, later)) rest)))
      ]
    where
      no_later : (a b : ℕ) → leb a b ≡ true → ltb b a ≡ false
      no_later a b e = ground (arith, e)

      leb-lt : (a b : ℕ) → leb a b ≡ false → b < a
      leb-lt a b e = ground (arith, e)
