-- ===== src/Cluster/Routing/Batches.antt =====
-- What every shard is sent: exactly the vectors whose global id it is due, in order.
use distributed_vector_searc.Prelude.{
  ℕ, zero, suc, ◌+◌, ◌%◌, ◌<◌, ◌≡◌, refl, ap, sym, ◌∙◌, Bool, false, List, [], ◌∷◌, ◌++◌, map, some,
  arith, ok, ◌==◌, if◌then◌else◌, length, get_elem?, replicate, keep, append_assoc, append-nil,
  Bool-cases, inl, inr,
}
use distributed_vector_searc.Python.Text.{Text}
use distributed_vector_searc.Cluster.Routing.{
  Batch, no_batch, append_row, append_at, payload_at, route_loop, route_round_robin,
}

-- A vector with its global id and its payload.
pub record Row (V : Type 0) : Type 0 where
  pub global_id : ℕ
  pub vector : V
  pub payload : Text

payload_at-some :
    (payloads : List Text) (offset : ℕ) (t : Text)
    → get_elem? payloads offset ≡ some t
    → payload_at (some payloads) offset ≡ ok t
unfolding payload_at
payload_at-some payloads offset t h = rw (h, payload_at) refl

get_elem?-replicate {ℓ} :
    {A : Type ℓ} (n s : ℕ) (a : A) → s < n → get_elem? (replicate n a) s ≡ some a
get_elem?-replicate zero s a h = absurd (omega arith)
get_elem?-replicate (suc n) zero a h = refl
get_elem?-replicate (suc n) (suc s) a h = get_elem?-replicate n s a (omega arith)

module _ {V : Type 0} where
  -- The vectors numbered from `start` on.
  abbrev pub rows : ℕ → List V → List Text → List (Row V)
  rows start (v ∷ vectors) (text ∷ texts) =
      record { global_id = start; vector = v; payload = text } ∷ rows (suc start) vectors texts
  rows start _ _ = []

  abbrev pub batch_of : List (Row V) → Batch V
  batch_of rs = record {
    global_ids = map (λ r. r.global_id) rs;
    vectors = map (λ r. r.vector) rs;
    payloads = map (λ r. r.payload) rs;
  }

  abbrev join : Batch V → Batch V → Batch V
  join a b = record {
    global_ids = a.global_ids ++ b.global_ids;
    vectors = a.vectors ++ b.vectors;
    payloads = a.payloads ++ b.payloads;
  }

  join-no_batch : (a : Batch V) → join a no_batch ≡ a
  join-no_batch a =
      ground (arith, append-nil a.global_ids, append-nil a.vectors, append-nil a.payloads)

  join-append_row :
      (g : ℕ) (v : V) (t : Text) (a b : Batch V)
      → join (append_row g v t a) b
        ≡ join a (record {
          global_ids = g ∷ b.global_ids;
          vectors = v ∷ b.vectors;
          payloads = t ∷ b.payloads;
        })
  join-append_row g v t a b = ground (
    arith,
    append_assoc a.global_ids (g ∷ []) b.global_ids,
    append_assoc a.vectors (v ∷ []) b.vectors,
    append_assoc a.payloads (t ∷ []) b.payloads,
  )

  get_elem?-append_at :
      (i s g : ℕ) (v : V) (t : Text) (batches : List (Batch V)) (b : Batch V)
      → get_elem? batches s ≡ some b
      → get_elem? (append_at i g v t batches) s ≡ some (if i == s then append_row g v t b else b)
  unfolding append_at
  get_elem?-append_at i s g v t [] b h = cc
  get_elem?-append_at zero zero g v t (a ∷ batches) b h = ground arith
  get_elem?-append_at zero (suc s) g v t (a ∷ batches) b h = ground arith
  get_elem?-append_at (suc i) zero g v t (a ∷ batches) b h = ground arith
  get_elem?-append_at (suc i) (suc s) g v t (a ∷ batches) b h =
      get_elem?-append_at i s g v t batches b h ∙ ground arith

  abbrev pub due : ℕ → ℕ → Row V → Bool
  due num_shards shard r = r.global_id % num_shards == shard

  row_step :
      (n g s : ℕ) (v : V) (t : Text) (b : Batch V) (rs : List (Row V))
      → join (if g % n == s then append_row g v t b else b) (batch_of (keep (due n s) rs))
        ≡ join b
            (batch_of (keep (due n s) (record { global_id = g; vector = v; payload = t } ∷ rs)))
  row_step n g s v t b rs = elim (Bool-cases (g % n == s)) [
    | inl e ↦ rw e (join-append_row g v t b (batch_of (keep (due n s) rs)))
    | inr e ↦ rw e refl
  ]

  route_loop_step :
      (n start offset : ℕ) (v : V) (t : Text) (vectors : List V) (payloads : List Text)
      (batches : List (Batch V))
      → 0 < n
      → get_elem? payloads offset ≡ some t
      → route_loop n start offset (v ∷ vectors) (some payloads) batches
        ≡ route_loop n start
            (suc offset)
            vectors
            (some payloads)
            (append_at ((start + offset) % n) (start + offset) v t batches)
  unfolding route_loop
  route_loop_step n start offset v t vectors payloads batches pos h =
      let nonzero : (n == 0) ≡ false = ground arith in
      rw (nonzero, route_loop) (rw (payload_at-some payloads offset t h) refl)

  route_loop_lem :
      (n start offset : ℕ) (vectors : List V) (texts payloads : List Text)
      (batches : List (Batch V))
      → 0 < n
      → length vectors ≡ length texts
      → ((i : ℕ) → get_elem? texts i ≡ get_elem? payloads (offset + i))
      → (result : List (Batch V)) × (route_loop n start offset vectors (some payloads) batches
          ≡ ok result)
        × ((s : ℕ) (b : Batch V)
            → get_elem? batches s ≡ some b
            → get_elem? result s
              ≡ some (join b (batch_of (keep (due n s) (rows (start + offset) vectors texts)))))
  unfolding route_loop
  route_loop_lem n start offset [] [] payloads batches pos e at =
      (batches, refl, λ s b h. h ∙ ap some (sym (join-no_batch b)))
  route_loop_lem n start offset [] (t ∷ texts) payloads batches pos e at = absurd (omega arith)
  route_loop_lem n start offset (v ∷ vectors) [] payloads batches pos e at = absurd (omega arith)
  route_loop_lem n start offset (v ∷ vectors) (t ∷ texts) payloads batches pos e at =
      let g = start + offset in
      let rest =
        route_loop_lem n start (suc offset) vectors texts payloads (append_at (g % n) g v t batches)
          pos (omega arith) (λ i. at (suc i) ∙ ap (get_elem? payloads) (omega arith)) in
      let here : get_elem? payloads offset ≡ some t =
        ap (get_elem? payloads) (omega arith) ∙ sym (at 0) in
      let next : start + suc offset ≡ suc g = omega arith in
      (
        rest.0,
        route_loop_step n start offset v t vectors payloads batches pos here ∙ rest.1,
        λ s b h.
            rest.2 s _ (get_elem?-append_at (g % n) s g v t batches b h)
            ∙ ap some (
                ap
                  (λ m.
                    join (if g % n == s then append_row g v t b else b)
                      (batch_of (keep (due n s) (rows m vectors texts))))
                  next
                ∙ row_step n g s v t b (rows (suc g) vectors texts)),
      )

  -- With at least one shard and a payload text for each vector, routing raises no error, and the
  -- batch of each shard holds exactly the vectors whose global id is that shard's number modulo the
  -- number of shards, each with its global id and its payload, in the order of the input.
  pub route_round_robin_lem :
      (num_shards start_id : ℕ) (vectors : List V) (texts : List Text)
      → 0 < num_shards
      → length vectors ≡ length texts
      → (batches : List (Batch V)) × (route_round_robin vectors num_shards start_id (some texts)
          ≡ ok batches)
        × ((s : ℕ)
            → s < num_shards
            → get_elem? batches s
              ≡ some (batch_of (keep (due num_shards s) (rows start_id vectors texts))))
  unfolding route_round_robin
  route_round_robin_lem n start vectors texts pos e =
      let r =
        route_loop_lem n start 0 vectors texts texts (replicate n no_batch) pos e
          (λ i. ap (get_elem? texts) (omega arith)) in
      let zero_off : start + 0 ≡ start = omega arith in
      (
        r.0,
        r.1,
        λ s lt.
            r.2 s no_batch (get_elem?-replicate n s no_batch lt)
            ∙ ap (λ m. some (batch_of (keep (due n s) (rows m vectors texts)))) zero_off,
      )
