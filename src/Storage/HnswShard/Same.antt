-- ===== src/Storage/HnswShard/Same.antt =====
-- Writes to two shards of vsearch/cluster.py that differ in what a snapshot does not keep.
use distributed_vector_searc.Prelude.{
  ℕ, ◌≡◌, refl, ap, ◌∙◌, sym, List, [], ◌∷◌, ◌++◌, Option, Result, ok, err, length, Ord, map,
}
use distributed_vector_searc.Python.Text.{Text}
use distributed_vector_searc.Filtering.Index.{new_index}
use distributed_vector_searc.Hnsw.{Hnsw}
use distributed_vector_searc.Hnsw.Insert.{insert}
use distributed_vector_searc.Hnsw.Insert.Spare.{compact, insert-respaced}
use distributed_vector_searc.Hnsw.Search.Allowed.{hnsw_ops}
use distributed_vector_searc.Cluster.Shard.{
  IndexOps, Shard, after_insert, add, add_loop, add_batch, texts_for,
}
use distributed_vector_searc.Storage.Record.{Matrix}
use distributed_vector_searc.Storage.HnswShard.{Machinery, HnswParams, fresh_index, hnsw_shard}

-- A shard as it is loaded from a snapshot, with the `ef_search` that is asked for.
abbrev pub loaded : {V R : Type 0} → ℕ → Shard (Hnsw V R) → Shard (Hnsw V R)
loaded ef_search s = record s { index = compact ef_search s.index; payload_index = new_index }

module _ {V D R : Type 0} ⦃o : Ord D⦄ (m : Machinery V D R) (params : HnswParams R) where
  insert-same :
      (h k : Hnsw V R) (v : V)
      → compact params.ef_search h ≡ compact params.ef_search k
      → ((insert m.space m.heap m.draw h v).1 ≡ (insert m.space m.heap m.draw k v).1)
        × (compact params.ef_search (insert m.space m.heap m.draw h v).0
            ≡ compact params.ef_search (insert m.space m.heap m.draw k v).0)
  insert-same h k v e =
      let ef = params.ef_search in
      let (result, state) = insert-respaced m.space m.heap m.draw h v (length h.rows) ef in
      let (result', state') = insert-respaced m.space m.heap m.draw k v (length k.rows) ef in
      let put = insert m.space m.heap m.draw in
      (
        sym result ∙ ap (λ x. (put x v).1) e ∙ result',
        sym (state ef) ∙ ap (λ x. compact ef (put x v).0) e ∙ state' ef,
      )

  -- Two shards that are loaded as the same shard, and two results that are the same.
  abbrev Alike :
      Shard (Hnsw V R) × Result (Unit {0}) → Shard (Hnsw V R) × Result (Unit {0}) → Type 0
  Alike p q = (loaded params.ef_search p.0 ≡ loaded params.ef_search q.0) × (p.1 ≡ q.1)

  after_insert-Alike :
      (s t : Shard (Hnsw V R)) (global_id : ℕ) (text : Text) (p q : Hnsw V R × Result (Unit {0}))
      → loaded params.ef_search s ≡ loaded params.ef_search t
      → p.1 ≡ q.1
      → compact params.ef_search p.0 ≡ compact params.ef_search q.0
      → Alike (after_insert global_id text s p) (after_insert global_id text t q)
  unfolding after_insert
  after_insert-Alike s t global_id text (h, err e) (k, err f) same results indexes =
      ((λ i. record (same i) { index = indexes i }), results)
  after_insert-Alike s t global_id text (h, ok _) (k, ok _) same results indexes = (
    (λ i. record (same i) {
      index = indexes i;
      global_ids = (same i).global_ids ++ global_id ∷ [];
      payloads = (same i).payloads ++ text ∷ [];
    }),
    refl,
  )
  after_insert-Alike s t global_id text (h, err e) (k, ok _) same results indexes = cc
  after_insert-Alike s t global_id text (h, ok _) (k, err f) same results indexes = cc

  add_loop-Alike :
      (ids : List ℕ) (vectors : List V) (texts : List Text) (s t : Shard (Hnsw V R))
      → loaded params.ef_search s ≡ loaded params.ef_search t
      → (let ops = hnsw_ops m.space m.heap m.draw (fresh_index m params) in
          Alike
            (add_loop ops m.loads ids vectors texts s)
            (add_loop ops m.loads ids vectors texts t))
  unfolding add_loop add
  add_loop-Alike [] vectors texts s t same = (same, refl)
  add_loop-Alike (id ∷ ids) [] texts s t same = (same, refl)
  add_loop-Alike (id ∷ ids) (v ∷ vectors) [] s t same = (same, refl)
  add_loop-Alike (id ∷ ids) (v ∷ vectors) (text ∷ texts) s t same =
      let put = insert m.space m.heap m.draw in
      let (results, indexes) = insert-same s.index t.index v (ap (λ x. x.index) same) in
      next (after_insert id text s (put s.index v)) (after_insert id text t (put t.index v))
        (λ s' t' h. add_loop-Alike ids vectors texts s' t' h)
        (after_insert-Alike s t id text (put s.index v) (put t.index v) same results indexes)
    where
      ops : IndexOps (Hnsw V R) V D
      ops = hnsw_ops m.space m.heap m.draw (fresh_index m params)

      next :
          (p q : Shard (Hnsw V R) × Result (Unit {0}))
          → ((s' t' : Shard (Hnsw V R))
              → loaded params.ef_search s' ≡ loaded params.ef_search t'
              → Alike
                  (add_loop ops m.loads ids vectors texts s')
                  (add_loop ops m.loads ids vectors texts t'))
          → Alike p q
          → Alike
              (elim p.1 [
                | err e ↦ (p.0, err e)
                | ok _ ↦ add_loop ops m.loads ids vectors texts p.0
              ])
              (elim q.1 [
                | err e ↦ (q.0, err e)
                | ok _ ↦ add_loop ops m.loads ids vectors texts q.0
              ])
      next (s, err e) (t, err f) rest h = h
      next (s, ok _) (t, ok _) rest h = rest s t h.0
      next (s, err e) (t, ok _) rest h = cc
      next (s, ok _) (t, err f) rest h = cc

  -- A write to two shards that are loaded as the same shard has the same result, and leaves two such shards.
  pub add_batch-Alike :
      (s t : Shard (Hnsw V R)) (ids : List ℕ) (vectors : Matrix) (payloads : Option (List Text))
      → loaded params.ef_search s ≡ loaded params.ef_search t
      → (let write = (hnsw_shard m params).add_batch in
          (loaded params.ef_search (write s ids vectors payloads).0
            ≡ loaded params.ef_search (write t ids vectors payloads).0)
          × ((write s ids vectors payloads).1 ≡ (write t ids vectors payloads).1))
  unfolding add_batch
  add_batch-Alike s t ids vectors payloads same =
      add_loop-Alike ids (map m.vector vectors.rows) (texts_for payloads ids) s t same
